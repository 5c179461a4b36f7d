-- ===== src/Database/Atomic.antt =====
-- nodes/store.py, `_SafeConn`: a transaction is all or nothing, however deep it nests and whatever its
-- blocks handle.
use v2pi.Base.{
  ◌+◌, ◌-◌, ◌==◌, ◌≡◌, ◌<◌, ◌⊎◌, inl, inr, refl, ap, sym, ◌∙◌, subst, arith, Bool, true, false, not,
  ◌&&◌, ◌||◌, none, some, Bool-cases, ==_iff,
}
use v2pi.Database.{
  Conn, Program, write, raise, then_do, within, execute, enter, begin_if, deeper, exit, finish,
  rolled_back, run,
}

-- No exception is raised anywhere in the program, handled or not.
abbrev pub succeeds : {Db : Type 0} → Program Db → Bool
succeeds (write f) = true
succeeds raise = false
succeeds (then_do p q) = succeeds p && succeeds q
succeeds (within handled commits p) = succeeds p

-- All the writes of the program, in their order.
abbrev pub whole : {Db : Type 0} → Program Db → Db → Db
whole (write f) d = f d
whole raise d = d
whole (then_do p q) d = whole q (whole p d)
whole (within handled commits p) d = whole p d

-- Nothing is open.
pub record IsIdle {Db : Type 0} (c : Conn Db) : Type 0 where
  pub began : c.began ≡ none
  pub depth : c.transaction_depth ≡ 0
  pub closed : c.closed ≡ false

-- What a program inside a transaction leaves as it was, and what it did.
record Inside {Db : Type 0} (p : Program Db) (c : Conn Db) (r : Bool × Conn Db) : Type 0 where
  same_began : r.1.began ≡ c.began
  same_depth : r.1.transaction_depth ≡ c.transaction_depth
  same_closed : r.1.closed ≡ c.closed
  did :
      (succeeds p ≡ true)
        × (r.0 ≡ false)
        × (r.1.shown ≡ whole p c.shown)
        × (r.1.rollback_only ≡ c.rollback_only)
      ⊎ ((succeeds p ≡ false) × ((r.0 || r.1.rollback_only) ≡ true))
  doomed : (c.rollback_only ≡ false) ⊎ (r.1.rollback_only ≡ true)

module _ {Db : Type 0} where
  enter-inside :
      (c : Conn Db)
      → 0 < c.transaction_depth
      → c.closed ≡ false
      → enter c ≡ some (record c { transaction_depth = c.transaction_depth + 1 })
  unfolding enter begin_if deeper
  enter-inside c d o = elim (Bool-cases (c.transaction_depth == 0)) [
    | inl e ↦ absurd (omega (arith, (==_iff c.transaction_depth 0).0 e))
    | inr e ↦ rw (o, e) refl
  ]

  exit-inside :
      (raised commits : Bool) (c : Conn Db)
      → 1 < c.transaction_depth
      → exit raised commits c ≡ (
        raised,
        record c {
          transaction_depth = c.transaction_depth - 1;
          rollback_only = raised || c.rollback_only;
        },
      )
  unfolding exit
  exit-inside raised commits c d = elim (Bool-cases (c.transaction_depth - 1 == 0)) [
    | inl e ↦ absurd (omega (arith, (==_iff (c.transaction_depth - 1) 0).0 e))
    | inr e ↦ rw e refl
  ]

  leave-Inside :
      (handled commits : Bool) (p : Program Db) (c : Conn Db) (r : Bool × Conn Db)
      → Inside p (record c { transaction_depth = c.transaction_depth + 1 }) r
      → Inside (within handled commits p) c (
        r.0 && not handled,
        record r.1 {
          transaction_depth = r.1.transaction_depth - 1;
          rollback_only = r.0 || r.1.rollback_only;
        },
      )
  leave-Inside handled commits p c r h = record {
    same_began = h.same_began;
    same_depth = omega (arith, h.same_depth);
    same_closed = h.same_closed;
    did = elim h.did [
      | inl (a, b, w, g) ↦ inl (a, rw b refl, w, rw b g)
      | inr (a, b) ↦ inr (a, ground (arith, b))
    ];
    doomed = elim h.doomed [ inl e ↦ inl e | inr e ↦ inr (ground (arith, e)) ];
  }

  run-Inside :
      (p : Program Db) (c : Conn Db)
      → 0 < c.transaction_depth
      → c.closed ≡ false
      → Inside p c (run p c)
  unfolding run execute
  run-Inside (write f) c d o = record {
    same_began = ground arith;
    same_depth = ground arith;
    same_closed = ground arith;
    did = ground arith;
    doomed = ground arith;
  }
  run-Inside raise c d o = record {
    same_began = refl;
    same_depth = refl;
    same_closed = refl;
    did = inr (refl, refl);
    doomed = ground arith;
  }
  run-Inside (then_do p q) c d o =
      let r = run p c in
      let h = run-Inside p c d o in
      let k = run-Inside q r.1 (omega (arith, h.same_depth)) (h.same_closed ∙ o) in
      elim (Bool-cases r.0) [
        | inl e ↦ rw e (record {
          same_began = h.same_began;
          same_depth = h.same_depth;
          same_closed = h.same_closed;
          did = inr (ground (arith, h.did), ground (arith, e));
          doomed = h.doomed;
        })
        | inr e ↦ rw e (record {
          same_began = k.same_began ∙ h.same_began;
          same_depth = k.same_depth ∙ h.same_depth;
          same_closed = k.same_closed ∙ h.same_closed;
          did = elim h.did [
            | inl (a, b, w, g) ↦ elim k.did [
              | inl (a', b', w', g') ↦ inl (rw (a, a') refl, b', w' ∙ ap (whole q) w, g' ∙ g)
              | inr (a', b') ↦ inr (rw (a, a') refl, b')
            ]
            | inr (a, b) ↦ inr (ground (arith, a), ground (arith, e, b, k.doomed))
          ];
          doomed = ground (arith, h.doomed, k.doomed);
        })
      ]
  run-Inside (within handled commits p) c d o =
      let c' : Conn Db = record c { transaction_depth = c.transaction_depth + 1 } in
      let h = run-Inside p c' (omega arith) o in
      subst
        (λ m. Inside (within handled commits p) c (elim m [
          | none ↦ (not handled, c)
          | some d ↦ let r = run p d in let e = exit r.0 commits r.1 in (e.0 && not handled, e.1)
        ]))
        (sym (enter-inside c d o))
        (subst
          (λ (e : Bool × Conn Db). Inside (within handled commits p) c (e.0 && not handled, e.1))
          (sym (exit-inside (run p c').0 commits (run p c').1 (omega (arith, h.same_depth, d))))
          (leave-Inside handled commits p c (run p c') h))

abbrev Ends : {Db : Type 0} → Program Db → Conn Db → Bool × Conn Db → Type 0
Ends p c r =
    IsIdle r.1
    × (((succeeds p ≡ true) × (r.0 ≡ false) × (r.1.shown ≡ whole p c.shown))
        ⊎ ((succeeds p ≡ false) × (r.0 ≡ true) × (r.1.shown ≡ c.shown)))

enter-idle :
    {Db : Type 0} (c : Conn Db)
    → IsIdle c
    → enter c
      ≡ some (record c { began = some c.shown; rollback_only = false; transaction_depth = 1 })
unfolding enter begin_if deeper
enter-idle c i = ground (arith, i.closed, i.depth, i.began)

exit-Ends :
    {Db : Type 0} (p : Program Db) (c : Conn Db) (r : Bool × Conn Db)
    → IsIdle c
    → Inside p (record c { began = some c.shown; rollback_only = false; transaction_depth = 1 }) r
    → let e = exit r.0 true r.1 in Ends p c (e.0 && true, e.1)
unfolding exit finish rolled_back
exit-Ends p c r i h = elim h.did [
  | inl (a, b, w, g) ↦ (
    record {
      began = ground (arith, h.same_depth, b, g);
      depth = ground (arith, h.same_depth, b, g);
      closed = ground (arith, h.same_depth, h.same_closed, i.closed, b, g);
    },
    inl (a, ground (arith, h.same_depth, b, g), ground (arith, h.same_depth, b, g, w)),
  )
  | inr (a, b) ↦ (
    record {
      began = ground (arith, h.same_depth, h.same_began, b);
      depth = ground (arith, h.same_depth, h.same_began, b);
      closed = ground (arith, h.same_depth, h.same_closed, h.same_began, i.closed, b);
    },
    inr (a, ground (arith, h.same_depth, b), ground (arith, h.same_depth, h.same_began, b)),
  )
]

-- A program in a transaction of its own, on a connection where nothing is open, whose COMMIT goes
-- through: either it raised nowhere, answers that, and every write of it is there, in order; or some
-- part of it raised, handled or not, the block raises too, and nothing of it is there. Nothing is open
-- afterwards.
pub run-IsAtomic :
    {Db : Type 0} (p : Program Db) (c : Conn Db)
    → IsIdle c
    → let r = run (within false true p) c in
      IsIdle r.1
      × (((succeeds p ≡ true) × (r.0 ≡ false) × (r.1.shown ≡ whole p c.shown))
          ⊎ ((succeeds p ≡ false) × (r.0 ≡ true) × (r.1.shown ≡ c.shown)))
unfolding run
run-IsAtomic {Db} p c i =
    let c' : Conn Db = record c {
      began = some c.shown;
      rollback_only = false;
      transaction_depth = 1;
    } in
    let h = run-Inside p c' (omega arith) i.closed in
    subst
      (λ m. Ends p c (elim m [
        | none ↦ (true, c)
        | some d ↦ let r = run p d in let e = exit r.0 true r.1 in (e.0 && true, e.1)
      ]))
      (sym (enter-idle c i)) (exit-Ends p c (run p c') i h)
