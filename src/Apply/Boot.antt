-- ===== src/Apply/Boot.antt =====
-- controller.py, `reapply_active_node`: the node that boot takes up. A switch that died behind its marker
-- is gone on with.
use v2pi.Base.{
  ℕ, ◌==◌, ◌≡◌, ◌≢◌, inl, inr, refl, ap, sym, ◌∙◌, arith, Bool, true, false, Option, none, some,
  String, str_eq, if◌then◌else◌, Bool-cases, ==_iff,
}
use v2pi.Apply.{
  World, Env, Store, Result, ok, failed, raised, Row, blank, num, junk, Reload, ready, not_ready,
  reload_raised, run_reload, run_net, run_guard, set_pending, succeed, fail, bring_up, after_net,
  after_reload, mark_pending, write_config, apply_built, apply_node, has_previous,
}

-- `_pending_or_active`: the node that boot takes up, and the store after.
pub data Boot : Type 0 where
  nothing : Boot
  node_id : Row → Boot
  -- With an event that says so.
  resumes : ℕ → Boot

abbrev row_eq : Row → Row → Bool
row_eq (num a) (num b) = a == b
row_eq (junk a) (junk b) = str_eq a b
row_eq blank blank = true
row_eq _ _ = false

active_or_none : Row → Boot
active_or_none (num n) = node_id (num n)
active_or_none (junk text) = node_id (junk text)
active_or_none _ = nothing

unfoldable pub pending_or_active : (ℕ → Bool) → Store → Boot × Store
unfolding active_or_none
pending_or_active has st = elim st.pending_active_node_id [
  | num n ↦
      if row_eq (num n) st.active_node_id
      then (active_or_none st.active_node_id, st)
      else if has n
      then (resumes n, st)
      else (active_or_none st.active_node_id, record st { pending_active_node_id = blank })
  | junk text ↦
      if row_eq (junk text) st.active_node_id
      then (active_or_none st.active_node_id, st)
      else (active_or_none st.active_node_id, record st { pending_active_node_id = blank })
  | _ ↦ (active_or_none st.active_node_id, st)
]

-- An exception of an apply is a failure of the boot.
pub reported : Result → Result
reported raised = failed
reported ok = ok
reported failed = failed

module _ {Cfg : Type 0} (digest : Cfg → String) where
  apply_saved : Env Cfg → Bool → ℕ → World Cfg → Option Result × World Cfg
  unfolding reported
  apply_saved env irreversible id w =
      let r = apply_node digest env irreversible (some id) w in (some (reported r.0), r.1)

  -- The saved node is gone: no node is active, and the gateway is closed.
  forget : Env Cfg → World Cfg → Option Result × World Cfg
  unfolding run_guard
  forget env w =
      let st : Store = record w.store {
        active_node_id = blank;
        pending_active_node_id = blank;
        active_since = none;
      } in
      (if env.guard_ok then none else some failed, run_guard env.guard_ok (record w { store = st }))

  take_up : Env Cfg → Bool → Boot → World Cfg → Option Result × World Cfg
  unfolding apply_saved forget
  take_up env irreversible nothing w = (none, w)
  take_up env irreversible (resumes id) w = apply_saved env irreversible id w
  take_up env irreversible (node_id (num id)) w =
      if env.has_node id then apply_saved env irreversible id w else forget env w
  take_up env irreversible (node_id blank) w = forget env w
  take_up env irreversible (node_id (junk text)) w = forget env w

  -- `reapply_active_node`, where the rows can be written; none where there is no node to apply.
  unfoldable pub reapply_active_node : Env Cfg → Bool → World Cfg → Option Result × World Cfg
  unfolding take_up pending_or_active
  reapply_active_node env irreversible w =
      let p = pending_or_active env.has_node w.store in
      take_up env irreversible p.0 (record w { store = p.1 })

  fail-failed :
      (env : Env Cfg) (irreversible previous : Bool) (w : World Cfg)
      → (fail digest env irreversible previous w).0 ≡ failed
  unfolding fail
  fail-failed env irreversible previous w = refl

  -- Where the bookkeeping raises, the rows are as they were.
  after_net-raised :
      (env : Env Cfg) (irreversible previous : Bool) (id : ℕ) (up : Bool) (w : World Cfg)
      → (after_net digest env irreversible previous (some id) up w).0 ≡ raised
      → (after_net digest env irreversible previous (some id) up w).1.store ≡ w.store
  unfolding after_net run_net succeed fail
  after_net-raised env irreversible previous id true w h = ground arith
  after_net-raised env irreversible previous id false w h = absurd (cc h)

  after_reload-raised :
      (env : Env Cfg) (irreversible previous : Bool) (id : ℕ) (r : Reload) (w : World Cfg)
      → (after_reload digest env irreversible previous (some id) r w).0 ≡ raised
      → (after_reload digest env irreversible previous (some id) r w).1.store ≡ w.store
  unfolding after_reload run_reload fail
  after_reload-raised env irreversible previous id ready w h =
      after_net-raised env irreversible previous id env.net_ok (run_reload ready w) h
  after_reload-raised env irreversible previous id not_ready w h = absurd (cc h)
  after_reload-raised env irreversible previous id reload_raised w h = absurd (cc h)

  mark_pending-raised :
      (env : Env Cfg) (irreversible previous : Bool) (id : ℕ) (w : World Cfg)
      → env.pending_ok ≡ true
      → (mark_pending digest env irreversible previous (some id) w).0 ≡ raised
      → (mark_pending digest env irreversible previous (some id) w).1.store
        ≡ record w.store { pending_active_node_id = num id }
  unfolding mark_pending bring_up set_pending
  mark_pending-raised env irreversible previous id w e h = by_flag env.pending_ok e h
    where
      w' : World Cfg
      w' = set_pending (num id) w

      by_flag :
          (b : Bool)
          → b ≡ true
          → (if b then bring_up digest env irreversible previous (some id) w' else (raised, w)).0
            ≡ raised
          → (if b
              then bring_up digest env irreversible previous (some id) w'
              else (raised, w)).1.store
            ≡ w'.store
      by_flag true e q = after_reload-raised env irreversible previous id env.reload w' q
      by_flag false e q = absurd (cc e)

  apply_node-raised :
      (env : Env Cfg) (irreversible : Bool) (id : ℕ) (w : World Cfg)
      → env.pending_ok ≡ true
      → (apply_node digest env irreversible (some id) w).0 ≡ raised
      → (apply_node digest env irreversible (some id) w).1.store
        ≡ record w.store { pending_active_node_id = num id }
  unfolding apply_node apply_built
  apply_node-raised env irreversible id w e h = turn env.built h
    where
      step : Option Cfg → Result × World Cfg
      step o = elim o [
        | none ↦ (failed, w)
        | some cfg ↦ apply_built digest env irreversible (some id) cfg w
      ]

      written :
          (cfg : Cfg) (b : Bool)
          → let w' : World Cfg = record w {
            disk = (write_config digest env irreversible cfg w.disk).1;
          } in
            let previous = has_previous env.has_node w.store.active_node_id in
            let r : Result × World Cfg =
              if b
              then mark_pending digest env irreversible previous (some id) w'
              else (failed, w') in
            r.0 ≡ raised → r.1.store ≡ record w.store { pending_active_node_id = num id }
      written cfg true q = mark_pending-raised env irreversible _ id _ e q
      written cfg false q = absurd (cc q)

      turn :
          (o : Option Cfg)
          → (step o).0 ≡ raised
          → (step o).1.store ≡ record w.store { pending_active_node_id = num id }
      turn none q = absurd (cc q)
      turn (some cfg) q = written cfg _ q

row_eq-other : (id : ℕ) (r : Row) → r ≢ num id → row_eq (num id) r ≡ false
row_eq-other id (num n) ne = elim (Bool-cases (id == n)) [
  | inl e ↦ absurd (ne (ap num (sym ((==_iff id n).0 e))))
  | inr e ↦ e
]
row_eq-other id blank ne = refl
row_eq-other id (junk text) ne = refl

pending_or_active-resumes :
    (has : ℕ → Bool) (st : Store) (id : ℕ)
    → st.active_node_id ≢ num id
    → has id ≡ true
    → pending_or_active has (record st { pending_active_node_id = num id })
      ≡ (resumes id, record st { pending_active_node_id = num id })
unfolding pending_or_active
pending_or_active-resumes has st id ne h = rw (row_eq-other id st.active_node_id ne, h) refl

-- A switch that raised behind its marker, to a node that was not the active one and is still there: the
-- next boot applies that very node, whichever node the rows call active, and reports what became of it.
pub reapply_active_node-resumes :
    {Cfg : Type 0} (digest : Cfg → String) (env boot : Env Cfg) (irreversible again : Bool) (id : ℕ)
    (w : World Cfg)
    → env.pending_ok ≡ true
    → (apply_node digest env irreversible (some id) w).0 ≡ raised
    → w.store.active_node_id ≢ num id
    → boot.has_node id ≡ true
    → let died = (apply_node digest env irreversible (some id) w).1 in
      let r = apply_node digest boot again (some id) died in
      reapply_active_node digest boot again died ≡ (some (reported r.0), r.1)
unfolding reapply_active_node take_up apply_saved
reapply_active_node-resumes digest env boot irreversible again id w e h ne has =
    let died = (apply_node digest env irreversible (some id) w).1 in
    let q = apply_node-raised digest env irreversible id w e h in
    ap (λ (p : Boot × Store). take_up digest boot again p.0 (record died { store = p.1 }))
      (ap (λ st. pending_or_active boot.has_node st) q
        ∙ (pending_or_active-resumes boot.has_node w.store id ne has
            ∙ ap (λ st. (resumes id, st)) (sym q)))
