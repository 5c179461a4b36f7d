-- ===== src/Apply/Closed.antt =====
-- controller.py, the handler of a failure in `apply_node`: the tunnel that was there is up again, or the
-- gateway is closed.
use v2pi.Base.{
  ◌≡◌, ◌≢◌, ◌⊎◌, inl, inr, refl, ap, ◌∙◌, Bool, true, false, Option, none, some, String,
  if◌then◌else◌,
}
use v2pi.XrayConfig.Manager.{content, rollback, rollback_target}
use v2pi.XrayConfig.Manager.Undo.{rollback-true}
use v2pi.Apply.{
  World, Env, serves, down, tunnel, guard, Row, blank, Reload, ready, not_ready, reload_raised,
  is_ready, Stop, stopped, survived, stop_raised, run_reload, run_net, run_stop, run_guard,
  set_pending, close, restore, recover_on, roll_back, recover, fail,
}

-- What stands on closed ground: what could be stopped is stopped, and the guard is on the host if it
-- would take it.
pub record IsClosed {Cfg : Type 0} (env : Env Cfg) (after : World Cfg) : Type 0 where
  pub process : (env.stop ≢ stopped) ⊎ (after.process ≡ down)
  pub net : (env.guard_ok ≡ false) ⊎ (after.net ≡ guard)

-- The tunnel runs on `c`.
pub record IsRestored {Cfg : Type 0} (c : Cfg) (after : World Cfg) : Type 0 where
  pub live : after.disk.live.shown ≡ content c
  pub process : after.process ≡ serves (content c)
  pub net : after.net ≡ tunnel

module _ {Cfg : Type 0} where
  run_stop-down : (s : Stop) (w : World Cfg) → (s ≢ stopped) ⊎ ((run_stop s w).process ≡ down)
  unfolding run_stop
  run_stop-down stopped w = inr refl
  run_stop-down survived w = inl (λ e. absurd (cc e))
  run_stop-down stop_raised w = inl (λ e. absurd (cc e))

  close-IsClosed : (env : Env Cfg) (w : World Cfg) → IsClosed env (close env w)
  unfolding close run_guard
  close-IsClosed env w = record {
    process = guarded env.guard_ok (run_stop env.stop w) (run_stop-down env.stop w);
    net = netted env.guard_ok (run_stop env.stop w);
  }
    where
      guarded :
          (b : Bool) (v : World Cfg)
          → (env.stop ≢ stopped) ⊎ (v.process ≡ down)
          → (env.stop ≢ stopped) ⊎ ((run_guard b v).process ≡ down)
      guarded true v h = h
      guarded false v h = h

      netted : (b : Bool) (v : World Cfg) → (b ≡ false) ⊎ ((run_guard b v).net ≡ guard)
      netted true v = inr refl
      netted false v = inl refl

  -- Either the previous tunnel is up again, or the gateway is closed.
  recover_on_cases :
      (env : Env Cfg) (previous rolled : Bool) (c : Cfg) (w : World Cfg)
      → (rolled ≡ true → w.disk.live.shown ≡ content c)
      → ((rolled ≡ true) × IsRestored c (recover_on env previous rolled w))
        ⊎ IsClosed env (recover_on env previous rolled w)
  unfolding recover_on restore run_reload run_net is_ready
  recover_on_cases env false rolled c w h = inr (close-IsClosed env w)
  recover_on_cases env true false c w h = inr (close-IsClosed env w)
  recover_on_cases env true true c w h = turn env.reload_previous env.net_previous_ok
    where
      back : Reload → Bool → Bool × World Cfg
      back r up = if is_ready r then (up, run_net up (run_reload r w)) else (false, run_reload r w)

      turn :
          (r : Reload) (up : Bool)
          → ((true ≡ true)
              × IsRestored c (if (back r up).0 then (back r up).1 else close env (back r up).1))
            ⊎ IsClosed env (if (back r up).0 then (back r up).1 else close env (back r up).1)
      turn ready true =
          inl (refl, record { live = h refl; process = ap serves (h refl); net = refl })
      turn ready false = inr (close-IsClosed env _)
      turn not_ready up = inr (close-IsClosed env _)
      turn reload_raised up = inr (close-IsClosed env _)

  -- A recovery writes no row.
  close-store : (env : Env Cfg) (w : World Cfg) → (close env w).store ≡ w.store
  unfolding close run_guard run_stop
  close-store env w = kept env.guard_ok env.stop
    where
      kept : (b : Bool) (s : Stop) → (run_guard b (run_stop s w)).store ≡ w.store
      kept true stopped = refl
      kept true survived = refl
      kept true stop_raised = refl
      kept false stopped = refl
      kept false survived = refl
      kept false stop_raised = refl

  recover_on-store :
      (env : Env Cfg) (previous rolled : Bool) (w : World Cfg)
      → (recover_on env previous rolled w).store ≡ w.store
  unfolding recover_on restore run_reload run_net is_ready
  recover_on-store env false rolled w = close-store env w
  recover_on-store env true false w = close-store env w
  recover_on-store env true true w = turn env.reload_previous env.net_previous_ok
    where
      back : Reload → Bool → Bool × World Cfg
      back r up = if is_ready r then (up, run_net up (run_reload r w)) else (false, run_reload r w)

      turn :
          (r : Reload) (up : Bool)
          → (if (back r up).0 then (back r up).1 else close env (back r up).1).store ≡ w.store
      turn ready true = refl
      turn ready false = close-store env _
      turn not_ready up = close-store env _
      turn reload_raised up = close-store env _

-- A failure after the config was written: no switch, and an end to the intent.
pub record IsUndone {Cfg : Type 0} (active_before prev_before : Row) (after : World Cfg)
    : Type 0 where
  pub active : after.store.active_node_id ≡ active_before
  pub prev : after.store.prev_active_node_id ≡ prev_before
  pub pending : after.store.pending_active_node_id ≡ blank

module _ {Cfg : Type 0} where
  pending-IsRestored :
      (c : Cfg) (w : World Cfg) → IsRestored c w → IsRestored c (set_pending blank w)
  unfolding set_pending
  pending-IsRestored c w h = record { live = h.live; process = h.process; net = h.net }

  pending-IsClosed :
      (env : Env Cfg) (w : World Cfg) → IsClosed env w → IsClosed env (set_pending blank w)
  unfolding set_pending
  pending-IsClosed env w h = record { process = h.process; net = h.net }

  undone :
      (env : Env Cfg) (previous rolled : Bool) (w before : World Cfg)
      → w.store ≡ before.store
      → IsUndone before.store.active_node_id before.store.prev_active_node_id
          (set_pending blank (recover_on env previous rolled w))
  unfolding set_pending
  undone env previous rolled w before e =
      let s = recover_on-store env previous rolled w ∙ e in
      record {
        active = ap (λ st. st.active_node_id) s;
        prev = ap (λ st. st.prev_active_node_id) s;
        pending = refl;
      }

module _ {Cfg : Type 0} (digest : Cfg → String) where
  roll_back-live :
      (env : Env Cfg) (w : World Cfg)
      → (roll_back digest env w).0 ≡ true
      → (c : Cfg) × ((rollback_target digest w.disk ≡ some c)
          × ((roll_back digest env w).1.disk.live.shown ≡ content c))
  unfolding roll_back
  roll_back-live env w h =
      rollback-true digest env.rollback_install env.rollback_mark w.disk
        (turn (rollback digest env.rollback_install env.rollback_mark w.disk).0 h)
    where
      turn :
          (o : Option Bool)
          → ◌≡◌ {A = Bool} (elim o [ none ↦ false | some b ↦ b ]) true
          → o ≡ some true
      turn none e = absurd (cc e)
      turn (some b) e = ap some e

  pub fail_cases :
      (env : Env Cfg) (irreversible previous : Bool) (w : World Cfg)
      → let after = (fail digest env irreversible previous w).1 in
        IsUndone w.store.active_node_id w.store.prev_active_node_id after
        × (((c : Cfg) × ((rollback_target digest w.disk ≡ some c)
                × IsRestored c after
                × (irreversible ≡ false)))
            ⊎ IsClosed env after)
  unfolding fail recover set_pending recover_on
  fail_cases env true previous w = (undone env previous false w w refl, outcome previous)
    where
      outcome :
          (previous : Bool)
          → ((c : Cfg) × ((rollback_target digest w.disk ≡ some c)
                × IsRestored c (set_pending blank (recover_on env previous false w))
                × (true ≡ false)))
            ⊎ IsClosed env (set_pending blank (recover_on env previous false w))
      outcome true = inr (pending-IsClosed env _ (close-IsClosed env w))
      outcome false = inr (pending-IsClosed env _ (close-IsClosed env w))
  fail_cases env false previous w =
      let r = roll_back digest env w in (undone env previous r.0 r.1 w refl, outcome r.0 refl)
    where
      outcome :
          (b : Bool)
          → (roll_back digest env w).0 ≡ b
          → ((c : Cfg) × ((rollback_target digest w.disk ≡ some c)
                × IsRestored c
                    (set_pending blank (recover_on env previous b (roll_back digest env w).1))
                × (false ≡ false)))
            ⊎ IsClosed env
                (set_pending blank (recover_on env previous b (roll_back digest env w).1))
      outcome true e =
          let (c, (t, l)) = roll_back-live env w e in
          elim (recover_on_cases env previous true c (roll_back digest env w).1 (λ _. l)) [
            | inl q ↦ inl (c, (t, pending-IsRestored c _ q.1, refl))
            | inr q ↦ inr (pending-IsClosed env _ q)
          ]
      outcome false e = inr (pending-IsClosed env _ (closed previous))
        where
          closed : (p : Bool) → IsClosed env (recover_on env p false (roll_back digest env w).1)
          closed true = close-IsClosed env _
          closed false = close-IsClosed env _

-- How a failure after the write ends: `offered` is what the files offered for a rollback.
