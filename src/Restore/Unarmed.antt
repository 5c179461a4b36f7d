-- ===== src/Restore/Unarmed.antt =====
-- controller.py, `restore_backup`: the record of a candidate licenses a later boot to remove something from
-- the host only once the host has been provisioned.
use v2pi.Base.{
  ◌≡◌, ◌≢◌, ◌<◌, ◌≤◌, ◌⊎◌, inl, inr, refl, arith, Bool, true, false, ◌&&◌, Option, none, some,
  Bool-cases, Option-cases,
}
use v2pi.Apply.{guard}
use v2pi.Restore.{
  Candidate, link_unknown, unarmed_candidate, blank_rows, Gateway, Env, RecordWrite, not_written,
  unproven, proven, record_candidate, settle, put_guard, provision_host, import_document, put_back,
  commit, disconnect, prove, from_snapshot, restore_backup,
}

-- The record, if there is one, is not armed, and names nothing that may be removed: no VLAN, no address,
-- and no link that was seen to be absent before.
abbrev pub IsUnarmed : Option Candidate → Type 0
IsUnarmed none = Unit
IsUnarmed (some c) =
    (c.armed ≡ false)
    × (c.vlan ≡ false)
    × (c.link_state ≡ link_unknown)
    × (c.addr4 ≡ "")
    × (c.addr6 ≡ "")

unarmed_candidate-IsUnarmed : (c : Option Candidate) → IsUnarmed (unarmed_candidate c)
unfolding unarmed_candidate
unarmed_candidate-IsUnarmed none = tt
unarmed_candidate-IsUnarmed (some c) = (refl, refl, refl, refl, refl)

-- The record is as it was, or unarmed.
abbrev pub IsHarmless : {Doc : Type 0} → Gateway Doc → Gateway Doc → Type 0
IsHarmless before after = (after.undo ≡ before.undo) ⊎ IsUnarmed after.undo

-- The host has been provisioned, or the record is harmless.
abbrev pub IsLicensed : {Doc : Type 0} → Gateway Doc → Gateway Doc → Type 0
IsLicensed before after = (before.passes < after.passes) ⊎ IsHarmless before after

module _ {Doc : Type 0} where
  settle-IsHarmless :
      (done : Bool) (c : Option Candidate) (before g : Gateway Doc)
      → IsHarmless before g
      → IsHarmless before (settle done c g)
  unfolding settle
  settle-IsHarmless done none before g h = h
  settle-IsHarmless true (some c) before g h = inr tt
  settle-IsHarmless false (some c) before g h = h

  settle-passes :
      (done : Bool) (c : Option Candidate) (g : Gateway Doc) → (settle done c g).passes ≡ g.passes
  unfolding settle
  settle-passes done none g = refl
  settle-passes done (some c) g = ground arith

  record_candidate-passes :
      (w : RecordWrite) (c : Option Candidate) (g : Gateway Doc)
      → (record_candidate w c g).1.passes ≡ g.passes
  unfolding record_candidate
  record_candidate-passes w none g = refl
  record_candidate-passes not_written (some c) g = refl
  record_candidate-passes unproven (some c) g = refl
  record_candidate-passes proven (some c) g = refl

  -- A record that could not be armed is settled, or was never written.
  unproven-IsHarmless :
      (w : RecordWrite) (c : Option Candidate) (settled : Bool) (before g : Gateway Doc)
      → (w ≢ unproven) ⊎ (settled ≡ true)
      → (record_candidate w c g).0 ≡ false
      → IsHarmless before g
      → IsHarmless before (settle settled (unarmed_candidate c) (record_candidate w c g).1)
  unfolding record_candidate settle unarmed_candidate
  unproven-IsHarmless w none settled before g s e h = h
  unproven-IsHarmless not_written (some c) settled before g s e h =
      settle-IsHarmless settled (unarmed_candidate (some c)) before g h
  unproven-IsHarmless unproven (some c) settled before g (inl ne) e h = absurd (ne refl)
  unproven-IsHarmless unproven (some c) settled before g (inr q) e h = rw q (inr tt)
  unproven-IsHarmless proven (some c) settled before g s e h = absurd (cc e)

  import_document-passes :
      (env : Env Doc) (doc : Doc) (g : Gateway Doc)
      → (g.passes ≤ (import_document env doc g).1.passes)
        × (((import_document env doc g).0 ≡ false)
            ⊎ (g.passes < (import_document env doc g).1.passes))
  unfolding import_document put_guard provision_host
  import_document-passes env doc g = (ground arith, ground arith)

  put_back-passes :
      (env : Env Doc) (c : Option Candidate) (g : Gateway Doc)
      → env.rows_cleared ≡ true
      → g.passes < (put_back env c g).1.passes
  unfolding put_back put_guard provision_host
  put_back-passes env c g e =
      let h : Gateway Doc = provision_host (record g { rows = blank_rows }) in
      rw e (ground (arith, settle-passes (env.undone && env.settled) c h))

  commit-IsLicensed :
      (env : Env Doc) (doc : Doc) (c : Option Candidate) (before g : Gateway Doc)
      → env.rows_cleared ≡ true
      → (env.armed ≢ unproven) ⊎ (env.settled ≡ true)
      → g.passes ≡ before.passes
      → IsHarmless before g
      → IsLicensed before (commit env doc c g).1
  unfolding commit
  commit-IsLicensed env doc c before g v w q h =
      let a = record_candidate env.armed c g in
      let s = record_candidate-passes env.armed c g in
      let i = import_document env doc a.1 in
      let m = import_document-passes env doc a.1 in
      elim (Bool-cases a.0) [
        | inl e ↦ rw e (elim (Bool-cases i.0) [
          | inl k ↦
              let t = settle-passes env.settled c i.1 in
              rw k
                (elim m.1 [ inl f ↦ absurd (cc (k, f)) | inr l ↦ inl (omega (arith, t, l, s, q)) ])
          | inr k ↦ let l = put_back-passes env c i.1 v in rw k (inl (omega (arith, l, m.0, s, q)))
        ])
        | inr e ↦ rw e (inr (unproven-IsHarmless env.armed c env.settled before g w e h))
      ]

  disconnect-IsLicensed :
      (env : Env Doc) (doc : Doc) (c : Option Candidate) (before g : Gateway Doc)
      → env.rows_cleared ≡ true
      → (env.armed ≢ unproven) ⊎ (env.settled ≡ true)
      → g.passes ≡ before.passes
      → IsHarmless before g
      → IsLicensed before (disconnect env doc c g).1
  unfolding disconnect put_guard
  disconnect-IsLicensed env doc c before g v w q h = elim (Bool-cases env.stopped) [
    | inl e ↦ elim (Bool-cases env.guard_ok) [
      | inl k ↦
          rw (e, k)
            (commit-IsLicensed env doc c before (record g { running = false; net = guard }) v w q h)
      | inr k ↦
          rw (e, k)
            (inr (
              settle-IsHarmless env.settled (unarmed_candidate c) before
                (record g { running = false }) h))
    ]
    | inr e ↦ rw e (inr (settle-IsHarmless env.settled (unarmed_candidate c) before g h))
  ]

  preflight-IsHarmless :
      (w : RecordWrite) (c : Option Candidate) (g : Gateway Doc)
      → IsHarmless g (record_candidate w (unarmed_candidate c) g).1
  unfolding record_candidate unarmed_candidate
  preflight-IsHarmless w none g = inl refl
  preflight-IsHarmless not_written (some c) g = inl refl
  preflight-IsHarmless unproven (some c) g = inr (refl, refl, refl, refl, refl)
  preflight-IsHarmless proven (some c) g = inr (refl, refl, refl, refl, refl)

  prove-IsLicensed :
      (env : Env Doc) (doc : Doc) (c : Option Candidate) (g : Gateway Doc)
      → env.rows_cleared ≡ true
      → (env.armed ≢ unproven) ⊎ (env.settled ≡ true)
      → IsLicensed g (prove env doc c g).1
  unfolding prove
  prove-IsLicensed env doc c g v w =
      let p = record_candidate env.preflight_recorded (unarmed_candidate c) g in
      let s = record_candidate-passes env.preflight_recorded (unarmed_candidate c) g in
      let h = preflight-IsHarmless env.preflight_recorded c g in
      elim (Bool-cases p.0) [
        | inl e ↦ elim (Bool-cases env.plan_rendered) [
          | inl k ↦ rw (e, k) (disconnect-IsLicensed env doc c g p.1 v w s h)
          | inr k ↦ rw (e, k) (inr (settle-IsHarmless env.settled (unarmed_candidate c) g p.1 h))
        ]
        | inr e ↦ rw e (inr h)
      ]

-- Where the rows of the tunnel can be cleared after a failure, and the arming of the record is not
-- stored without being proven while the record cannot be settled either: a restore that never came to
-- provision the host leaves the record for a later boot as it was, or leaves one that licenses no
-- removal.
pub restore_backup-IsLicensed :
    {Doc : Type 0} (env : Env Doc) (g : Gateway Doc)
    → env.rows_cleared ≡ true
    → (env.armed ≢ unproven) ⊎ (env.settled ≡ true)
    → IsLicensed g (restore_backup env g).1
unfolding restore_backup from_snapshot
restore_backup-IsLicensed env g v w = elim (Option-cases env.validated) [
  | inl e ↦ rw e (inr (inl refl))
  | inr (doc, e) ↦ elim (Option-cases env.candidate) [
    | inl k ↦ rw (e, k) (inr (inl refl))
    | inr (c, k) ↦ elim (Bool-cases env.snapshot_ok) [
      | inl q ↦ rw (e, k, q) (prove-IsLicensed env doc c g v w)
      | inr q ↦ rw (e, k, q) (inr (inl refl))
    ]
  ]
]
