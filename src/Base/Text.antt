-- ===== src/Base/Text.antt =====
-- Python's `str.strip`, `re.split` on single characters, and `str.join`, on texts.
use Prim.Native.Char.{code}
use Prim.Native.String.{String, ◌++◌ as ◌<>◌}
use Prim.Native.Nat.{ℕ}
use mathlib.Core.Path.{◌≡◌, refl, ap, sym, ◌∙◌}
use mathlib.Core.Logic.{◌≢◌}
use mathlib.Core.Bool.{Bool, true, false, not, ◌&&◌, ◌||◌}
use mathlib.Core.List.{List, [], ◌∷◌, map}
use text.Mathlib.Text.{◌==◌ as str_eq}
use v2pi.Base.Tests.{leb, ◌==◌, if◌then◌else◌}
use v2pi.Base.Lists.{keep}

-- `str.isspace` of one character.
abbrev pub is_space : ℕ → Bool
is_space c =
    (leb 9 c && leb c 13)
    || (leb 28 c && leb c 32)
    || c == 133
    || c == 160
    || c == 5760
    || (leb 8192 c && leb c 8202)
    || c == 8232
    || c == 8233
    || c == 8239
    || c == 8287
    || c == 12288

unfoldable pub lstrip : String → String
lstrip String.[] = ""
lstrip (String.◌∷◌ c s) = let rest = lstrip s in if is_space (code c) then rest else String.◌∷◌ c s

unfoldable pub rstrip : String → String
rstrip String.[] = ""
rstrip (String.◌∷◌ c s) =
    let rest = rstrip s in if str_eq rest "" && is_space (code c) then "" else String.◌∷◌ c rest

-- `s.strip()`
unfoldable pub strip : String → String
unfolding lstrip rstrip
strip s = rstrip (lstrip s)

on_first : (String → String) → List String → List String
on_first f [] = []
on_first f (s ∷ ss) = f s ∷ ss

-- The pieces between the characters that `sep` picks out.
unfoldable pub pieces : (ℕ → Bool) → String → List String
unfolding on_first
pieces sep String.[] = "" ∷ []
pieces sep (String.◌∷◌ c s) =
    let rest = pieces sep s in
    if sep (code c) then "" ∷ rest else on_first (λ p. String.◌∷◌ c p) rest

-- `[v.strip() for v in ... if v.strip()]`
unfoldable pub tokens : (ℕ → Bool) → String → List String
unfolding pieces strip
tokens sep s = keep (λ v. not (str_eq v "")) (map strip (pieces sep s))

-- `sep.join(ss)`
unfoldable pub join : String → List String → String
join sep [] = ""
join sep (s ∷ []) = s
join sep (s ∷ t ∷ ss) = s <> (sep <> join sep (t ∷ ss))

head-eq : {a b : String} {s t : List String} → a ∷ s ≡ b ∷ t → a ≡ b
head-eq h = cc

pieces-ne-nil : (sep : ℕ → Bool) (s : String) → pieces sep s ≢ []
unfolding pieces on_first
pieces-ne-nil sep String.[] e = cc
pieces-ne-nil sep (String.◌∷◌ c s) e = turn (sep (code c)) (pieces sep s) e (pieces-ne-nil sep s)
  where
    turn :
        (b : Bool) (rest : List String)
        → (if b then "" ∷ rest else on_first (λ p. String.◌∷◌ c p) rest) ≡ []
        → rest ≢ []
        → ⊥
    turn true rest e n = cc e
    turn false [] e n = n refl
    turn false (r ∷ rs) e n = cc e

-- A text that falls into one piece is that piece.
pub pieces-single : (sep : ℕ → Bool) (s a : String) → pieces sep s ≡ a ∷ [] → a ≡ s
unfolding pieces on_first
pieces-single sep String.[] a e = sym (head-eq e)
pieces-single sep (String.◌∷◌ c s) a e =
    turn (sep (code c)) (pieces sep s) e (pieces-ne-nil sep s) (pieces-single sep s)
  where
    turn :
        (b : Bool) (rest : List String)
        → (if b then "" ∷ rest else on_first (λ p. String.◌∷◌ c p) rest) ≡ a ∷ []
        → rest ≢ []
        → ((b : String) → rest ≡ b ∷ [] → b ≡ s)
        → a ≡ String.◌∷◌ c s
    turn true [] e n ih = absurd (n refl)
    turn true (r ∷ rs) e n ih = absurd (cc e)
    turn false [] e n ih = absurd (n refl)
    turn false (r ∷ []) e n ih = sym (head-eq e) ∙ ap (λ p. String.◌∷◌ c p) (ih r refl)
    turn false (r ∷ q ∷ rs) e n ih = absurd (cc e)
