-- ===== src/Tests/Config.antt =====
-- xray_config/validate.py on configs that are texts, with the text as its own digest.
use mathlib.Core.List.{Memᴰ}
use v2pi.Base.{◌≡◌, ◌≢◌, ◌⊎◌, refl, Option, true, false, none, some, String, [], ◌∷◌}
use v2pi.XrayConfig.Manager.{
  absent, content, synced, not_synced, other_errno, WriteEnv, missing, ApplyEnv, Disk, applied,
  apply, apply_irreversible, rollback, rollback_target, write_atomic,
}
use v2pi.XrayConfig.Manager.Run.{left, applies, cut, rolls_back, step, run}
use v2pi.XrayConfig.Manager.Revoked.{apply_irreversible-final, apply_irreversible-order}
use v2pi.XrayConfig.Manager.Undo.{apply-rollback}
use v2pi.XrayConfig.Manager.Pairing.{pairs, run-rollback_target}

abbrev pub digest : String → String
digest s = s

abbrev pub good : WriteEnv
good = record { replaced = true; sync = synced }

-- The rename went through, and nobody knows whether it is on the disk.
abbrev unsure : WriteEnv
unsure = record { replaced = true; sync = not_synced other_errno }

abbrev pub writes : ApplyEnv
writes = record { snapshot = good; mark = good; drop = missing; install = good }

abbrev pub disk : Disk String
disk = record { live = left (content "a"); lastgood = left absent; marker = left absent }

-- `b` was applied over `a`.
abbrev second : Disk String
second = (apply digest true writes "b" disk).1

apply_irreversible-final_example :
    let d' =
      run digest
        (cut 0 0 0 ∷ rolls_back good good ∷ [])
        (apply_irreversible true good good "c" second).1 in
    rollback digest good good d' ≡ (some false, d')
unfolding apply_irreversible write_atomic
apply_irreversible-final_example =
    apply_irreversible-final digest true good good "c" second
      (cut 0 0 0 ∷ rolls_back good good ∷ []) good good tt refl (tt, (tt, tt))

is_offered : {t : Option String} → t ≡ some "a" → t ≢ none
is_offered e n = absurd (cc (e, n))

offered :
    rollback_target digest
      (step digest (cut 0 0 1) (apply_irreversible true unsure good "c" second).1)
    ≡ some "a"
unfolding rollback_target step apply apply_irreversible write_atomic
offered = refl

apply_irreversible-order_example :
    ((apply_irreversible true unsure good "c" second).1.live ≡ second.live)
    × ((apply_irreversible true unsure good "c" second).0 ≢ applied)
apply_irreversible-order_example =
    apply_irreversible-order digest true unsure good "c" second 0 0 1 refl (is_offered offered)

apply-rollback_example :
    let r = apply digest true writes "b" disk in
    let b = rollback digest good good r.1 in
    (r.0 ≡ applied)
    × (r.1.live.shown ≡ content "b")
    × (b.0 ≡ some true)
    × (b.1.live.shown ≡ content "a")
    × (rollback_target digest b.1 ≡ some "a")
apply-rollback_example =
    apply-rollback digest writes "b" "a" disk good good refl (refl, refl, refl) (refl, refl)

run-rollback_target_example :
    (n : String) × (((run digest (applies true writes "b" ∷ []) disk).live.shown ≡ content n)
      × (Memᴰ ("a", n) (pairs digest (applies true writes "b" ∷ []) disk) ⊎ ("a" ≡ n)))
unfolding run step apply rollback_target write_atomic
run-rollback_target_example =
    run-rollback_target digest (applies true writes "b" ∷ []) disk "a" (λ a b h. h) (tt, (tt, tt))
      refl
