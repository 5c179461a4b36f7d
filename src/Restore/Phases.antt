-- ===== src/Restore/Phases.antt =====
-- controller.py, `restore_backup`: what a restore leaves.
use v2pi.Base.{
  ◌≡◌, ◌≢◌, ◌⊎◌, inl, inr, refl, ◌∙◌, arith, Bool, true, false, Option, none, some, Bool-cases,
  Option-cases, ◌&&◌,
}
use v2pi.Apply.{guard}
use v2pi.Restore.{
  Candidate, unarmed_candidate, blank_rows, Gateway, Env, Result, RecordWrite, not_written,
  unproven, proven, ok, refused, raised, record_candidate, settle, put_guard, provision_host,
  import_document, put_back, commit, disconnect, prove, from_snapshot, restore_backup,
}

-- The document is in, and the gateway is disconnected and closed.
pub record IsRestored {Doc : Type 0} (doc : Doc) (after : Gateway Doc) : Type 0 where
  pub running : after.running ≡ false
  pub net : after.net ≡ guard
  pub content : after.content ≡ doc
  pub rows : after.rows ≡ blank_rows

-- Nothing but the record for a later boot is changed.
pub record IsUntouched {Doc : Type 0} (before after : Gateway Doc) : Type 0 where
  pub running : after.running ≡ before.running
  pub net : after.net ≡ before.net
  pub passes : after.passes ≡ before.passes
  pub content : after.content ≡ before.content
  pub rows : after.rows ≡ before.rows

-- The gateway was disconnected, and the document is not in.
pub record IsDisconnected {Doc : Type 0} (before after : Gateway Doc) : Type 0 where
  pub running : after.running ≡ false
  pub content : after.content ≡ before.content
  pub rows : (after.rows ≡ before.rows) ⊎ (after.rows ≡ blank_rows)

-- How a restore ends, from a state on.
abbrev pub Ends : {Doc : Type 0} → Doc → Gateway Doc → Result × Gateway Doc → Type 0
Ends doc before r =
    ((r.0 ≡ ok) × IsRestored doc r.1)
    ⊎ ((r.0 ≢ ok) × (IsUntouched before r.1 ⊎ IsDisconnected before r.1))

refused-ne-ok : refused ≢ ok
refused-ne-ok e = absurd (cc e)

raised-ne-ok : raised ≢ ok
raised-ne-ok e = absurd (cc e)

module _ {Doc : Type 0} where
  -- All but the record is the same.
  record Same (a b : Gateway Doc) : Type 0 where
    same_running : a.running ≡ b.running
    same_net : a.net ≡ b.net
    same_passes : a.passes ≡ b.passes
    same_content : a.content ≡ b.content
    same_rows : a.rows ≡ b.rows

  settle-Same : (done : Bool) (c : Option Candidate) (g : Gateway Doc) → Same (settle done c g) g
  unfolding settle
  settle-Same done none g = ground arith
  settle-Same done (some c) g = ground arith

  record_candidate-Same :
      (w : RecordWrite) (c : Option Candidate) (g : Gateway Doc) → Same (record_candidate w c g).1 g
  unfolding record_candidate
  record_candidate-Same w none g = ground arith
  record_candidate-Same not_written (some c) g = ground arith
  record_candidate-Same unproven (some c) g = ground arith
  record_candidate-Same proven (some c) g = ground arith

  Same-refl : (g : Gateway Doc) → Same g g
  Same-refl g = ground arith

  Same-trans : (a b c : Gateway Doc) → Same a b → Same b c → Same a c
  Same-trans a b c s t = record {
    same_running = s.same_running ∙ t.same_running;
    same_net = s.same_net ∙ t.same_net;
    same_passes = s.same_passes ∙ t.same_passes;
    same_content = s.same_content ∙ t.same_content;
    same_rows = s.same_rows ∙ t.same_rows;
  }

  Same-IsUntouched : (a b : Gateway Doc) → Same a b → IsUntouched b a
  Same-IsUntouched a b s = record {
    running = s.same_running;
    net = s.same_net;
    passes = s.same_passes;
    content = s.same_content;
    rows = s.same_rows;
  }

  -- What an import leaves, as it ends.
  record Imported (doc : Doc) (g : Gateway Doc) (i : Bool × Gateway Doc) : Type 0 where
    is_running : i.1.running ≡ g.running
    when_done : i.0 ≡ true → (i.1.net ≡ guard) × (i.1.content ≡ doc) × (i.1.rows ≡ blank_rows)
    when_not : i.0 ≡ false → (i.1.content ≡ g.content) × (i.1.rows ≡ g.rows)

  import_document-Imported :
      (env : Env Doc) (doc : Doc) (g : Gateway Doc) → Imported doc g (import_document env doc g)
  unfolding import_document put_guard provision_host
  import_document-Imported env doc g = record {
    is_running = ground arith;
    when_done = λ e. (ground arith, ground arith, ground arith);
    when_not = λ e. (ground arith, ground arith);
  }

  put_back-Ends :
      (env : Env Doc) (doc : Doc) (c : Option Candidate) (before g : Gateway Doc)
      → g.running ≡ false
      → g.content ≡ before.content
      → g.rows ≡ before.rows
      → Ends doc before (put_back env c g)
  unfolding put_back put_guard provision_host
  put_back-Ends env doc c before g r h q = elim (Bool-cases env.rows_cleared) [
    | inl e ↦
        let s =
          settle-Same (env.undone && env.settled) c
            (provision_host (record g { rows = blank_rows })) in
        rw e (
          inr (
            refused-ne-ok,
            inr (record {
              running = ground (arith, s.same_running);
              content = ground (arith, s.same_content);
              rows = inr (ground (arith, s.same_rows));
            }),
          ))
    | inr e ↦ rw e (inr (raised-ne-ok, inr (record { running = r; content = h; rows = inl q })))
  ]

  commit-Ends :
      (env : Env Doc) (doc : Doc) (c : Option Candidate) (before g : Gateway Doc)
      → g.running ≡ false
      → g.content ≡ before.content
      → g.rows ≡ before.rows
      → Ends doc before (commit env doc c g)
  unfolding commit
  commit-Ends env doc c before g r h q =
      let a = record_candidate env.armed c g in
      let s = record_candidate-Same env.armed c g in
      let i = import_document env doc a.1 in
      let m = import_document-Imported env doc a.1 in
      elim (Bool-cases a.0) [
        | inl e ↦ rw e (elim (Bool-cases i.0) [
          | inl k ↦
              let (n, d, w) = m.when_done k in
              let t = settle-Same env.settled c i.1 in
              rw k (
                inl (
                  refl,
                  record {
                    running = t.same_running ∙ m.is_running ∙ s.same_running ∙ r;
                    net = t.same_net ∙ n;
                    content = t.same_content ∙ d;
                    rows = t.same_rows ∙ w;
                  },
                ))
          | inr k ↦
              let (d, w) = m.when_not k in
              rw k (
                put_back-Ends env doc c before i.1 (m.is_running ∙ s.same_running ∙ r)
                  (d ∙ s.same_content ∙ h) (w ∙ s.same_rows ∙ q))
        ])
        | inr e ↦
            let t = settle-Same env.settled (unarmed_candidate c) a.1 in
            rw e (
              inr (
                refused-ne-ok,
                inr (record {
                  running = t.same_running ∙ s.same_running ∙ r;
                  content = t.same_content ∙ s.same_content ∙ h;
                  rows = inl (t.same_rows ∙ s.same_rows ∙ q);
                }),
              ))
      ]

  disconnect-Ends :
      (env : Env Doc) (doc : Doc) (c : Option Candidate) (before g : Gateway Doc)
      → Same g before
      → Ends doc before (disconnect env doc c g)
  unfolding disconnect put_guard
  disconnect-Ends env doc c before g s =
      let p = unarmed_candidate c in
      elim (Bool-cases env.stopped) [
        | inl e ↦ elim (Bool-cases env.guard_ok) [
          | inl k ↦
              rw (e, k)
                (commit-Ends env doc c before (record g { running = false; net = guard }) refl
                  s.same_content s.same_rows)
          | inr k ↦
              let t = settle-Same env.settled p (record g { running = false }) in
              rw (e, k)
                (inr (
                  refused-ne-ok,
                  inr (record {
                    running = t.same_running;
                    content = t.same_content ∙ s.same_content;
                    rows = inl (t.same_rows ∙ s.same_rows);
                  }),
                ))
        ]
        | inr e ↦ rw e (
            inr (
              refused-ne-ok,
              inl (Same-IsUntouched _ _ (Same-trans _ _ _ (settle-Same env.settled p g) s)),
            ))
      ]

  prove-Ends :
      (env : Env Doc) (doc : Doc) (c : Option Candidate) (g : Gateway Doc)
      → Ends doc g (prove env doc c g)
  unfolding prove
  prove-Ends env doc c g =
      let p = record_candidate env.preflight_recorded (unarmed_candidate c) g in
      let s = record_candidate-Same env.preflight_recorded (unarmed_candidate c) g in
      elim (Bool-cases p.0) [
        | inl e ↦ elim (Bool-cases env.plan_rendered) [
          | inl k ↦ rw (e, k) (disconnect-Ends env doc c g p.1 s)
          | inr k ↦
              rw (e, k)
                (inr (
                  refused-ne-ok,
                  inl (
                      Same-IsUntouched _ _
                        (Same-trans _ _ _ (settle-Same env.settled (unarmed_candidate c) p.1) s)),
                ))
        ]
        | inr e ↦ rw e (inr (refused-ne-ok, inl (Same-IsUntouched _ _ s)))
      ]

-- A restore that answers ok has the document in, and leaves the gateway disconnected and closed. One
-- that does not has imported nothing: either xray, the rules, the host and the rows are as they were, or
-- xray is stopped, and the rows of the tunnel are as they were or blank.
pub restore_backup_cases :
    {Doc : Type 0} (env : Env Doc) (g : Gateway Doc)
    → (((restore_backup env g).0 ≡ ok)
        × ((doc : Doc) × ((env.validated ≡ some doc) × IsRestored doc (restore_backup env g).1)))
      ⊎ (((restore_backup env g).0 ≢ ok)
          × (IsUntouched g (restore_backup env g).1 ⊎ IsDisconnected g (restore_backup env g).1))
unfolding restore_backup from_snapshot
restore_backup_cases env g = elim (Option-cases env.validated) [
  | inl e ↦ rw e (inr (raised-ne-ok, inl (Same-IsUntouched _ _ (Same-refl g))))
  | inr (doc, e) ↦ elim (Option-cases env.candidate) [
    | inl k ↦ rw (e, k) (inr (refused-ne-ok, inl (Same-IsUntouched _ _ (Same-refl g))))
    | inr (c, k) ↦ elim (Bool-cases env.snapshot_ok) [
      | inl q ↦
          rw (e, k, q)
            (elim (prove-Ends env doc c g) [
              | inl r ↦ inl (r.0, (doc, (refl, r.1)))
              | inr r ↦ inr r
            ])
      | inr q ↦ rw (e, k, q) (inr (refused-ne-ok, inl (Same-IsUntouched _ _ (Same-refl g))))
    ]
  ]
]
