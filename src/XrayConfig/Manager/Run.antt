-- ===== src/XrayConfig/Manager/Run.antt =====
-- Sequences of what happens to the files of `ConfigManager` (xray_config/validate.py): its calls, power
-- cuts, and changes of the files from outside.
use v2pi.Base.{
  ℕ, zero, suc, Bool, true, false, subst, String, List, [], ◌∷◌, ◌≡◌, refl, ap, sym, ◌∙◌, ◌⊎◌, inl,
  inr, All, arith,
}
use v2pi.XrayConfig.Manager.{
  File, content, Slot, WriteEnv, ApplyEnv, Disk, apply, apply_irreversible, rollback,
  invalidate_durably, Written, raised, renamed, write_atomic, settle, is_synced, fsync_dir,
}

pub data Event (Cfg : Type 0) : Type 0 where
  applies : Bool → ApplyEnv → Cfg → Event Cfg
  revokes : Bool → WriteEnv → WriteEnv → Cfg → Event Cfg
  rolls_back : WriteEnv → WriteEnv → Event Cfg
  invalidates : WriteEnv → Event Cfg
  -- A power cut leaves each file with one of the contents that it may have.
  cut : ℕ → ℕ → ℕ → Event Cfg
  edits_live : File Cfg → Event Cfg
  edits_lastgood : File Cfg → Event Cfg

-- The `n`-th of the contents that a power cut may leave, or the one shown.
abbrev pub nth : {A : Type 0} → ℕ → List (File A) → File A → File A
nth n [] shown = shown
nth zero (f ∷ fs) shown = f
nth (suc n) (f ∷ fs) shown = nth n fs shown

abbrev pub left : {A : Type 0} → File A → Slot A
left f = record { shown = f; after_cut = f ∷ [] }

abbrev pub after : {A : Type 0} → ℕ → Slot A → Slot A
after n s = left (nth n s.after_cut s.shown)

abbrev pub edited : {A : Type 0} → File A → Slot A → Slot A
edited f s = record { shown = f; after_cut = f ∷ s.after_cut }

-- A predicate holds of all that a file may be found to contain.
abbrev pub Every : {A : Type 0} → (File A → Type 0) → Slot A → Type 0
Every P s = P s.shown × All P s.after_cut

pub Every-after :
    {A : Type 0} (P : File A → Type 0) (n : ℕ) (s : Slot A) → Every P s → Every P (after n s)
Every-after {A} P n s h = let p = pick n s.after_cut h.1 in (p, (p, tt))
  where
    pick : (n : ℕ) (fs : List (File A)) → All P fs → P (nth n fs s.shown)
    pick n [] a = h.0
    pick zero (f ∷ fs) a = a.0
    pick (suc n) (f ∷ fs) a = pick n fs a.1

pub Written-cases :
    {A : Type 0} (w : Written A)
    → (w ≡ raised) ⊎ ((durable : Bool) × ((s : Slot A) × (w ≡ renamed durable s)))
Written-cases raised = inl refl
Written-cases (renamed durable s) = inr (durable, (s, refl))

renamed-settle :
    {A : Type 0} (env : WriteEnv) (v : A) (s : Slot A) {durable : Bool} {t : Slot A}
    → write_atomic env v s ≡ renamed durable t
    → t ≡ settle (is_synced env.sync) v s
unfolding write_atomic
renamed-settle env v s e = ground arith

pub renamed-answer :
    {A : Type 0} (env : WriteEnv) (v : A) (s : Slot A) {durable : Bool} {t : Slot A}
    → write_atomic env v s ≡ renamed durable t
    → fsync_dir env.sync ≡ durable
unfolding write_atomic
renamed-answer env v s e = ground arith

Every-settle :
    {A : Type 0} (P : File A → Type 0) (durable : Bool) (v : A) (s : Slot A)
    → P (content v)
    → Every P s
    → Every P (settle durable v s)
unfolding settle
Every-settle P true v s p h = (p, (p, tt))
Every-settle P false v s p h = (p, (p, h.1))

-- What held of the old contents and holds of the new one, holds of the file that was written.
pub Every-renamed :
    {A : Type 0} (P : File A → Type 0) (env : WriteEnv) (v : A) (s : Slot A) {durable : Bool}
    {t : Slot A}
    → write_atomic env v s ≡ renamed durable t
    → P (content v)
    → Every P s
    → Every P t
Every-renamed P env v s e p h =
    subst (Every P) (sym (renamed-settle env v s e)) (Every-settle P (is_synced env.sync) v s p h)

-- A write whose directory entry is on the disk leaves only the new content.
pub Every-durable :
    {A : Type 0} (P : File A → Type 0) (env : WriteEnv) (v : A) (s : Slot A) {durable : Bool}
    {t : Slot A}
    → write_atomic env v s ≡ renamed durable t
    → is_synced env.sync ≡ true
    → P (content v)
    → Every P t
unfolding settle
Every-durable P env v s e q p =
    subst (Every P) (sym (renamed-settle env v s e ∙ ap (λ b. settle b v s) q)) (p, (p, tt))

pub renamed-shown :
    {A : Type 0} (env : WriteEnv) (v : A) (s : Slot A) {durable : Bool} {t : Slot A}
    → write_atomic env v s ≡ renamed durable t
    → t.shown ≡ content v
unfolding settle
renamed-shown env v s e = ap (λ t. t.shown) (renamed-settle env v s e) ∙ both (is_synced env.sync)
  where
    both : (durable : Bool) → (settle durable v s).shown ≡ content v
    both true = refl
    both false = refl

module _ {Cfg : Type 0} (digest : Cfg → String) where
  -- What one event makes of the files.
  unfoldable pub step : Event Cfg → Disk Cfg → Disk Cfg
  step (applies valid env cfg) d = (apply digest valid env cfg d).1
  step (revokes valid mark install cfg) d = (apply_irreversible valid mark install cfg d).1
  step (rolls_back install mark) d = (rollback digest install mark d).1
  step (invalidates env) d = (invalidate_durably env d).1
  step (cut i j k) d = record {
    live = after i d.live;
    lastgood = after j d.lastgood;
    marker = after k d.marker;
  }
  step (edits_live f) d = record d { live = edited f d.live }
  step (edits_lastgood f) d = record d { lastgood = edited f d.lastgood }

  unfoldable pub run : List (Event Cfg) → Disk Cfg → Disk Cfg
  run [] d = d
  run (e ∷ es) d = run es (step e d)
