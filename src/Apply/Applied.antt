-- ===== src/Apply/Applied.antt =====
-- controller.py, `apply_node`: what stands after an apply that answers ok.
use v2pi.Base.{
  ℕ, ◌≡◌, ◌⊎◌, inl, inr, ◌≢◌, inl, inr, refl, ap, sym, ◌∙◌, arith, Bool, true, false, ◌==◌, ==_iff,
  Option, none, some, String, if◌then◌else◌, Bool-cases,
}
use v2pi.XrayConfig.Manager.{content, Disk, Outcome, applied}
use v2pi.XrayConfig.Manager.Undo.{apply-live, apply_irreversible_cases}
use v2pi.Apply.{
  World, Env, Store, Result, ok, failed, raised, serves, tunnel, Row, blank, num, junk, Reload,
  ready, not_ready, reload_raised, is_applied, run_reload, run_net, set_pending, kept_previous,
  keep_books, finish, succeed, complete_pending, clear_pending, fail, bring_up, after_net,
  after_reload, mark_pending, write_config, apply_built, apply_node, has_previous,
}

-- The tunnel runs on `cfg`, and the store says that the node `id` is the active one, and which was the
-- active one before, unless that was the same.
pub record IsUp {Cfg : Type 0} (id : ℕ) (cfg : Cfg) (before after : World Cfg) : Type 0 where
  pub live : after.disk.live.shown ≡ content cfg
  pub process : after.process ≡ serves (content cfg)
  pub net : after.net ≡ tunnel
  pub active : after.store.active_node_id ≡ num id
  pub pending : after.store.pending_active_node_id ≡ blank
  pub previous :
      ((before.store.active_node_id ≡ num id)
        × (after.store.prev_active_node_id ≡ before.store.prev_active_node_id))
      ⊎ ((before.store.active_node_id ≢ num id)
          × (after.store.prev_active_node_id ≡ before.store.active_node_id))

pub is_applied-true : (o : Outcome) → is_applied o ≡ true → o ≡ applied
unfolding is_applied
is_applied-true Outcome.rejected e = absurd (cc e)
is_applied-true Outcome.refused e = absurd (cc e)
is_applied-true Outcome.raised e = absurd (cc e)
is_applied-true Outcome.applied e = refl

abbrev id_of : Row → ℕ
id_of (num n) = n
id_of _ = 0

kept_previous_cases :
    (id : ℕ) (active prev : Row)
    → ((active ≡ num id) × (kept_previous id active prev ≡ prev))
      ⊎ ((active ≢ num id) × (kept_previous id active prev ≡ active))
unfolding kept_previous
kept_previous_cases id (num p) prev = elim (Bool-cases (p == id)) [
  | inl e ↦ inl (ap num ((==_iff p id).0 e), rw e refl)
  | inr e ↦ inr ((λ q. absurd (cc ((==_iff p id).1 (ap id_of q), e))), rw e refl)
]
kept_previous_cases id blank prev = inr ((λ q. absurd (cc q)), refl)
kept_previous_cases id (junk text) prev = inr ((λ q. absurd (cc q)), refl)

-- The marker of a revocation is all that the last step writes.
record SameRows (a b : Store) : Type 0 where
  same_active : a.active_node_id ≡ b.active_node_id
  same_prev : a.prev_active_node_id ≡ b.prev_active_node_id
  same_pending : a.pending_active_node_id ≡ b.pending_active_node_id

complete_pending-same :
    (read written back : Bool) (st : Store) → SameRows (complete_pending read written back st) st
unfolding complete_pending clear_pending
complete_pending-same read written back st = ground arith

module _ {Cfg : Type 0} (digest : Cfg → String) where
  write_config-live :
      (env : Env Cfg) (irreversible : Bool) (cfg : Cfg) (d : Disk Cfg)
      → is_applied (write_config digest env irreversible cfg d).0 ≡ true
      → (write_config digest env irreversible cfg d).1.live.shown ≡ content cfg
  unfolding write_config is_applied
  write_config-live env true cfg d h =
      elim (apply_irreversible_cases digest env.valid env.mark env.install cfg d) [
        | inl q ↦ absurd (q.1 (is_applied-true _ h))
        | inr q ↦ q.0
      ]
  write_config-live env false cfg d h =
      apply-live digest env.valid env.writes cfg d (is_applied-true _ h)

  -- The bookkeeping of a success.
  succeed-IsUp :
      (env : Env Cfg) (id : ℕ) (cfg : Cfg) (before w : World Cfg)
      → w.disk.live.shown ≡ content cfg
      → w.process ≡ serves (content cfg)
      → w.net ≡ tunnel
      → w.store.active_node_id ≡ before.store.active_node_id
      → w.store.prev_active_node_id ≡ before.store.prev_active_node_id
      → (succeed env (some id) w).0 ≡ ok
      → IsUp id cfg before (succeed env (some id) w).1
  unfolding succeed finish keep_books complete_pending clear_pending
  succeed-IsUp env id cfg before w l p n a q h = elim (Bool-cases env.books_ok) [
    | inl e ↦
        let c =
          complete_pending-same env.marker_read env.marker_written env.marker_read_back
            (keep_books env id w.store) in
        rw e (record {
          live = l;
          process = p;
          net = n;
          active = c.same_active;
          pending = c.same_pending;
          previous =
              elim (kept_previous_cases id w.store.active_node_id w.store.prev_active_node_id) [
                | inl k ↦ inl (sym a ∙ k.0, c.same_prev ∙ (k.1 ∙ q))
                | inr k ↦ inr ((λ y. k.0 (a ∙ y)), c.same_prev ∙ (k.1 ∙ a))
              ];
        })
    | inr e ↦ absurd (cc (rw e at h))
  ]

  after_net-IsUp :
      (env : Env Cfg) (irreversible previous : Bool) (id : ℕ) (cfg : Cfg) (before w : World Cfg)
      (up : Bool)
      → w.disk.live.shown ≡ content cfg
      → w.process ≡ serves (content cfg)
      → w.store.active_node_id ≡ before.store.active_node_id
      → w.store.prev_active_node_id ≡ before.store.prev_active_node_id
      → (after_net digest env irreversible previous (some id) up w).0 ≡ ok
      → IsUp id cfg before (after_net digest env irreversible previous (some id) up w).1
  unfolding after_net run_net fail
  after_net-IsUp env irreversible previous id cfg before w true l p a q h =
      succeed-IsUp env id cfg before (record w { net = tunnel }) l p refl a q h
  after_net-IsUp env irreversible previous id cfg before w false l p a q h = absurd (cc h)

  after_reload-IsUp :
      (env : Env Cfg) (irreversible previous : Bool) (id : ℕ) (cfg : Cfg) (before w : World Cfg)
      (r : Reload)
      → w.disk.live.shown ≡ content cfg
      → w.store.active_node_id ≡ before.store.active_node_id
      → w.store.prev_active_node_id ≡ before.store.prev_active_node_id
      → (after_reload digest env irreversible previous (some id) r w).0 ≡ ok
      → IsUp id cfg before (after_reload digest env irreversible previous (some id) r w).1
  unfolding after_reload run_reload fail
  after_reload-IsUp env irreversible previous id cfg before w ready l a q h =
      after_net-IsUp env irreversible previous id cfg before _ env.net_ok l (ap serves l) a q h
  after_reload-IsUp env irreversible previous id cfg before w not_ready l a q h = absurd (cc h)
  after_reload-IsUp env irreversible previous id cfg before w reload_raised l a q h = absurd (cc h)

  apply_built-IsUp :
      (env : Env Cfg) (irreversible : Bool) (id : ℕ) (cfg : Cfg) (w : World Cfg)
      → (apply_built digest env irreversible (some id) cfg w).0 ≡ ok
      → IsUp id cfg w (apply_built digest env irreversible (some id) cfg w).1
  unfolding apply_built mark_pending bring_up set_pending
  apply_built-IsUp env irreversible id cfg w h =
      let r = write_config digest env irreversible cfg w.disk in
      let previous = has_previous env.has_node w.store.active_node_id in
      elim (Bool-cases (is_applied r.0)) [
        | inr e ↦ absurd (cc (rw e at h))
        | inl e ↦ rw e (
            marked env.pending_ok previous r.1 (write_config-live env irreversible cfg w.disk e)
              (rw e at h))
      ]
    where
      marked :
          (b previous : Bool) (d : Disk Cfg)
          → d.live.shown ≡ content cfg
          → (if b
              then bring_up digest env irreversible previous
                  (some id)
                  (set_pending (num id) (record w { disk = d }))
              else (raised, record w { disk = d })).0
            ≡ ok
          → IsUp id cfg w
              (if b
                then bring_up digest env irreversible previous
                    (some id)
                    (set_pending (num id) (record w { disk = d }))
                else (raised, record w { disk = d })).1
      marked true previous d l q =
          after_reload-IsUp env irreversible previous id cfg w _ env.reload l refl refl q
      marked false previous d l q = absurd (cc q)

-- An apply that answers ok has the config that was built for its node on the disk, a process that came
-- up on that very config, the rules of the tunnel on the host, and the node as the active one; the
-- node that was active before is kept as the previous one, unless it is the same.
pub apply_node-IsUp :
    {Cfg : Type 0} (digest : Cfg → String) (env : Env Cfg) (irreversible : Bool) (id : ℕ)
    (w : World Cfg)
    → (apply_node digest env irreversible (some id) w).0 ≡ ok
    → (cfg : Cfg) × ((env.built ≡ some cfg)
        × IsUp id cfg w (apply_node digest env irreversible (some id) w).1)
unfolding apply_node
apply_node-IsUp {Cfg} digest env irreversible id w h = turn env.built refl h
  where
    step : Option Cfg → Result × World Cfg
    step o = elim o [
      | none ↦ (failed, w)
      | some cfg ↦ apply_built digest env irreversible (some id) cfg w
    ]

    turn :
        (o : Option Cfg)
        → env.built ≡ o
        → (step o).0 ≡ ok
        → (cfg : Cfg) × ((o ≡ some cfg) × IsUp id cfg w (step o).1)
    turn none e q = absurd (cc q)
    turn (some cfg) e q = (cfg, (refl, apply_built-IsUp digest env irreversible id cfg w q))
