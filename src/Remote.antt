-- ===== src/Remote.antt =====
-- rw_inbound.py: the clients of the remote access, and the inbound that comes of the stored settings.
pub mod Revoked
use Prim.Native.Char.{code}
use v2pi.Base.{
  ℕ, zero, suc, ◌+◌, ◌==◌, Bool, true, false, not, ◌&&◌, ◌||◌, leb, String, str_eq, Option, none,
  some, List, [], ◌∷◌, ◌++◌, map, keep, any_of, length, if◌then◌else◌, get_or,
}
use v2pi.Base.Text.{tokens, strip}
use v2pi.XrayConfig.Builder.{Client, RwInbound}

infixl 5 ◌>>=◌
abbrev pub ◌>>=◌ : {A B : Type 0} → Option A → (A → Option B) → Option B
none >>= f = none
some a >>= f = f a

-- An entry of the stored list that is a dict; a missing `enabled` is true.
pub record Entry : Type 0 where
  pub id : String
  pub email : String
  pub enabled : Bool

pub data Item : Type 0 where
  entry : Entry → Item
  other : Item

between : ℕ → ℕ → ℕ → Bool
between lo hi n = leb lo n && leb n hi

is_letter : ℕ → Bool
unfolding between
is_letter n = between 65 90 n || between 97 122 n

is_hex : ℕ → Bool
unfolding between
is_hex n = between 48 57 n || between 65 70 n || between 97 102 n

is_email_char : ℕ → Bool
unfolding between is_letter
is_email_char n = is_letter n || between 48 57 n || n == 46 || n == 95 || n == 45

-- `$` also matches in front of a line break at the end.
at_end : String → Bool
at_end String.[] = true
at_end (String.◌∷◌ c String.[]) = code c == 10
at_end (String.◌∷◌ c (String.◌∷◌ d s)) = false

email_from : ℕ → String → Bool
unfolding at_end is_email_char between
email_from k String.[] = between 1 40 k
email_from k (String.◌∷◌ c s) =
    let rest = email_from (k + 1) s in
    if is_email_char (code c) then rest else at_end (String.◌∷◌ c s) && between 1 40 k

-- `_EMAIL`
pub is_email : String → Bool
unfolding email_from
is_email s = email_from 0 s

-- `n` hexadecimal digits, then `k` on what is left.
hex_then : ℕ → (String → Bool) → String → Bool
unfolding is_hex
hex_then zero k s = k s
hex_then (suc n) k String.[] = false
hex_then (suc n) k (String.◌∷◌ c s) = let rest = hex_then n k s in is_hex (code c) && rest

dash_then : (String → Bool) → String → Bool
dash_then k String.[] = false
dash_then k (String.◌∷◌ c s) = code c == 45 && k s

-- `_UUID`
pub is_uuid : String → Bool
unfolding hex_then dash_then at_end
is_uuid s =
    hex_then 8
      (dash_then (
        hex_then 4
          (dash_then (hex_then 4 (dash_then (hex_then 4 (dash_then (hex_then 12 at_end))))))))
      s

-- The setting `rw_clients`: none where it is no list, or no JSON at all.
abbrev pub Roster : Type 0
Roster = Option (List Item)

entries : List Item → List Entry
entries [] = []
entries (other ∷ items) = entries items
entries (entry e ∷ items) = e ∷ entries items

is_client : Entry → Bool
unfolding is_uuid is_email
is_client e = is_uuid e.id && is_email e.email

-- `get_clients`
unfoldable pub get_clients : Roster → List Entry
unfolding entries is_client
get_clients none = []
get_clients (some items) = keep is_client (entries items)

-- `set_clients`
unfoldable pub set_clients : List Entry → Roster
set_clients cs = some (map entry cs)

abbrev pub max_clients : ℕ
max_clients = 16

-- `validate_email`
unfoldable pub validate_email : String → Option String
unfolding is_email
validate_email email = if is_email (strip email) then some (strip email) else none

-- `add_client`: none where it raises; `id` is what `gen_client_id` gives.
unfoldable pub add_client : String → String → Roster → Option Roster
unfolding validate_email get_clients set_clients
add_client id email r = elim (validate_email email) [
  | none ↦ none
  | some name ↦
      let cs = get_clients r in
      if any_of (λ c. str_eq c.email name) cs || leb max_clients (length cs)
      then none
      else some (set_clients (cs ++ record { id = id; email = name; enabled = true } ∷ []))
]

-- `delete_client`
unfoldable pub delete_client : String → Roster → Bool × Roster
unfolding get_clients set_clients
delete_client id r =
    let cs = get_clients r in
    let kept = keep (λ c. not (str_eq c.id id)) cs in
    if length kept == length cs then (false, r) else (true, set_clients kept)

with_enabled : String → Bool → List Entry → List Entry
with_enabled id enabled [] = []
with_enabled id enabled (c ∷ cs) =
    let rest = with_enabled id enabled cs in
    if str_eq c.id id then record c { enabled = enabled } ∷ rest else c ∷ rest

-- `set_client_enabled`
unfoldable pub set_client_enabled : String → Bool → Roster → Bool × Roster
unfolding get_clients set_clients with_enabled
set_client_enabled id enabled r =
    let cs = get_clients r in
    if any_of (λ c. str_eq c.id id) cs
    then (true, set_clients (with_enabled id enabled cs))
    else (false, r)

-- The other settings of the feature, as they are stored.
pub record Stored : Type 0 where
  pub enabled : Option String
  pub private_key : Option String
  pub dest : Option String
  pub server_names : Option String
  pub short_ids : Option String
  pub port : Option String
  pub hosts : Option String

-- The checks of the single values; none where one raises. `hosts` reads the stored text.
pub record Checks : Type 0 where
  pub port : String → Option ℕ
  pub dest : String → Option String
  pub server_names : List String → Option (List String)
  pub key : String → Option String
  pub short_ids : List String → Option (List String)
  pub hosts : String → Option (List (String × String))

-- `parse_csv`
unfoldable pub parse_csv : String → List String
parse_csv raw = tokens (λ c. c == b',') raw

or_default : List String → List String → List String
or_default [] d = d
or_default (x ∷ xs) d = x ∷ xs

text_or_default : String → String → String
text_or_default s d = if str_eq s "" then d else s

as_client : Entry → Client
as_client c = record { id = c.id; email = c.email }

-- The fields, once there is a client to serve.
inbound_of : Checks → Stored → List Entry → Option RwInbound
unfolding parse_csv or_default text_or_default as_client
inbound_of ch st cs = do
  port ← ch.port (get_or st.port "443")
  dest ←
      ch.dest
        (text_or_default (strip (get_or st.dest "www.microsoft.com:443")) "www.microsoft.com:443")
  names ← ch.server_names (
      or_default (parse_csv (get_or st.server_names "www.microsoft.com"))
        ("www.microsoft.com" ∷ []))
  key ← ch.key (strip (get_or st.private_key ""))
  ids ← ch.short_ids (parse_csv (get_or st.short_ids ""))
  hosts ← ch.hosts (get_or st.hosts "{}")
  some (record {
    port = port;
    clients = map as_client cs;
    dest = dest;
    server_names = names;
    private_key = key;
    short_ids = ids;
    hosts = hosts;
  })

served : Checks → Stored → List Entry → Option RwInbound
unfolding inbound_of
served ch st [] = none
served ch st (c ∷ cs) = inbound_of ch st (c ∷ cs)

-- `resolve`, where a value that raises counts as the feature being off (`_rw_inbound`).
unfoldable pub resolve : Checks → Stored → Roster → Option RwInbound
unfolding get_clients served
resolve ch st r =
    if not (str_eq (get_or st.enabled "0") "1")
    then none
    else if str_eq (strip (get_or st.private_key "")) ""
    then none
    else served ch st (keep (λ c. c.enabled) (get_clients r))
