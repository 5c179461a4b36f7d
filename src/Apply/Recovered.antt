-- ===== src/Apply/Recovered.antt =====
-- controller.py, `apply_node`: what stands after an apply that failed, and after one that may not be
-- undone.
use v2pi.Base.{
  ℕ, ◌≡◌, ◌≢◌, ◌⊎◌, inl, inr, refl, sym, ◌∙◌, arith, Bool, true, false, Option, none, some, String,
  if◌then◌else◌, eq_of_some,
}
use v2pi.XrayConfig.Manager.{File, absent, unreadable, content, Disk, rollback_target}
use v2pi.XrayConfig.Manager.Undo.{apply_irreversible_cases, apply-untouched}
use v2pi.XrayConfig.Manager.Target.{apply-target}
use v2pi.Apply.{
  World, Env, Store, Result, failed, raised, unconfirmed, unknown, num, Reload, ready, not_ready,
  reload_raised, is_applied, run_reload, run_net, set_pending, succeed, bring_up, after_net,
  after_reload, mark_pending, write_config, apply_built, apply_node, has_previous,
}
use v2pi.Apply.Applied.{is_applied-true}
use v2pi.Apply.Closed.{IsClosed, IsRestored, IsUndone, fail_cases}

abbrev Ended : {Cfg : Type 0} → Env Cfg → Bool → (Cfg → Type 0) → Store → World Cfg → Type 0
Ended {Cfg} env irreversible offered before after =
    IsUndone before.active_node_id before.prev_active_node_id after
    × (((c : Cfg) × (offered c × IsRestored c after × (irreversible ≡ false))) ⊎ IsClosed env after)

module _ {Cfg : Type 0} (digest : Cfg → String) (env : Env Cfg) (irreversible : Bool) where
  abbrev Offered : Disk Cfg → Cfg → Type 0
  Offered d c = rollback_target digest d ≡ some c

  succeed-not_failed : (id : Option ℕ) (w : World Cfg) → (succeed env id w).0 ≢ failed
  unfolding succeed
  succeed-not_failed none w e = cc
  succeed-not_failed (some id) w e = ground arith

  after_net-failed :
      (previous : Bool) (id : Option ℕ) (up : Bool) (w : World Cfg)
      → (after_net digest env irreversible previous id up w).0 ≡ failed
      → Ended env irreversible
          (Offered w.disk)
          w.store
          (after_net digest env irreversible previous id up w).1
  unfolding after_net run_net
  after_net-failed previous id true w h = absurd (succeed-not_failed id _ h)
  after_net-failed previous id false w h =
      fail_cases digest env irreversible previous (record w { net = unknown })

  after_reload-failed :
      (previous : Bool) (id : Option ℕ) (r : Reload) (w : World Cfg)
      → (after_reload digest env irreversible previous id r w).0 ≡ failed
      → Ended env irreversible
          (Offered w.disk)
          w.store
          (after_reload digest env irreversible previous id r w).1
  unfolding after_reload run_reload
  after_reload-failed previous id ready w h = after_net-failed previous id env.net_ok _ h
  after_reload-failed previous id not_ready w h =
      fail_cases digest env irreversible previous (record w { process = unconfirmed })
  after_reload-failed previous id reload_raised w h =
      fail_cases digest env irreversible previous (record w { process = unconfirmed })

  mark_pending-failed :
      (previous : Bool) (id : Option ℕ) (w : World Cfg)
      → (mark_pending digest env irreversible previous id w).0 ≡ failed
      → Ended env irreversible
          (Offered w.disk)
          w.store
          (mark_pending digest env irreversible previous id w).1
  unfolding mark_pending bring_up set_pending
  mark_pending-failed previous none w h = after_reload-failed previous none env.reload w h
  mark_pending-failed previous (some id) w h = marked env.pending_ok h
    where
      w' : World Cfg
      w' = set_pending (num id) w

      marked :
          (b : Bool)
          → (if b then bring_up digest env irreversible previous (some id) w' else (raised, w)).0
            ≡ failed
          → Ended env irreversible
              (Offered w.disk)
              w.store
              (if b then bring_up digest env irreversible previous (some id) w' else (raised, w)).1
      marked true q = after_reload-failed previous (some id) env.reload w' q
      marked false q = absurd (cc q)

  write_config_cases :
      (cfg : Cfg) (d : Disk Cfg)
      → let r = write_config digest env irreversible cfg d in
        (is_applied r.0 ≡ false → r.1.live ≡ d.live)
        × (is_applied r.0 ≡ true
            → (c p : Cfg) → rollback_target digest r.1 ≡ some c
            → d.live.shown ≡ content p
            → c ≡ p)
  unfolding write_config is_applied
  write_config_cases cfg d = by_kind irreversible
    where
      by_kind :
          (b : Bool)
          → let r = write_config digest env b cfg d in
            (is_applied r.0 ≡ false → r.1.live ≡ d.live)
            × (is_applied r.0 ≡ true
                → (c p : Cfg) → rollback_target digest r.1 ≡ some c
                → d.live.shown ≡ content p
                → c ≡ p)
      by_kind true = elim (apply_irreversible_cases digest env.valid env.mark env.install cfg d) [
        | inl q ↦ (λ _. q.0, λ a. absurd (q.1 (is_applied-true _ a)))
        | inr q ↦ (λ n. absurd (cc (n, q.1)), λ a c p t l. absurd (cc (t, q.2)))
      ]
      by_kind false = (
        λ n. apply-untouched digest env.valid env.writes cfg d (λ e. cc (n, e)),
        λ a c p t l.
            eq_of_some (
              sym t ∙ (apply-target digest env.valid env.writes cfg p d l (is_applied-true _ a)).0),
      )

-- The config is the one that the file held, if it could be read.
unfoldable pub Was : {Cfg : Type 0} → Cfg → File Cfg → Type 0
Was c (content p) = c ≡ p
Was c absent = Unit
Was c unreadable = Unit

Was-content :
    {Cfg : Type 0} (c : Cfg) (f : File Cfg) → ((p : Cfg) → f ≡ content p → c ≡ p) → Was c f
unfolding Was
Was-content c (content p) h = h p refl
Was-content c absent h = tt
Was-content c unreadable h = tt

-- An apply that answers that it failed leaves the active node and the previous one as they were. Either
-- it has touched neither the live config nor the process nor the rules nor any row; or no switch is
-- intended any more, and the tunnel runs again on the config that was live before, if it could be
-- read, which never happens where the apply may not be undone; or what could be stopped is stopped, and the gateway is guarded if
-- the host took the guard.
pub apply_node-failed :
    {Cfg : Type 0} (digest : Cfg → String) (env : Env Cfg) (irreversible : Bool) (id : Option ℕ)
    (w : World Cfg)
    → (apply_node digest env irreversible id w).0 ≡ failed
    → let after = (apply_node digest env irreversible id w).1 in
      ((after.process ≡ w.process)
        × (after.net ≡ w.net)
        × (after.store ≡ w.store)
        × (after.disk.live ≡ w.disk.live))
      ⊎ (IsUndone w.store.active_node_id w.store.prev_active_node_id after
          × (((c : Cfg) × (Was c w.disk.live.shown × IsRestored c after × (irreversible ≡ false)))
              ⊎ IsClosed env after))
unfolding apply_node apply_built
apply_node-failed {Cfg} digest env irreversible id w h = turn env.built h
  where
    step : Option Cfg → Result × World Cfg
    step o = elim o [ none ↦ (failed, w) | some cfg ↦ apply_built digest env irreversible id cfg w ]

    Shape : World Cfg → Type 0
    Shape after =
        ((after.process ≡ w.process)
          × (after.net ≡ w.net)
          × (after.store ≡ w.store)
          × (after.disk.live ≡ w.disk.live))
        ⊎ (IsUndone w.store.active_node_id w.store.prev_active_node_id after
            × (((c : Cfg) × (Was c w.disk.live.shown × IsRestored c after × (irreversible ≡ false)))
                ⊎ IsClosed env after))

    written :
        (cfg : Cfg) (b : Bool)
        → is_applied (write_config digest env irreversible cfg w.disk).0 ≡ b
        → let w' : World Cfg = record w {
          disk = (write_config digest env irreversible cfg w.disk).1;
        } in
          let previous = has_previous env.has_node w.store.active_node_id in
          (if b then mark_pending digest env irreversible previous id w' else (failed, w')).0
            ≡ failed
          → Shape
              (if b then mark_pending digest env irreversible previous id w' else (failed, w')).1
    written cfg false e q =
        inl (refl, refl, refl, (write_config_cases digest env irreversible cfg w.disk).0 e)
    written cfg true e q =
        let before = (write_config_cases digest env irreversible cfg w.disk).1 e in
        let r = mark_pending-failed digest env irreversible _ id _ q in
        inr (
          r.0,
          elim r.1 [
            | inl (c, t) ↦ inl (c, (Was-content c _ (λ p l. before c p t.0 l), t.1, t.2))
            | inr z ↦ inr z
          ],
        )

    turn : (o : Option Cfg) → (step o).0 ≡ failed → Shape (step o).1
    turn none q = inl (refl, refl, refl, refl)
    turn (some cfg) q = written cfg _ refl q
