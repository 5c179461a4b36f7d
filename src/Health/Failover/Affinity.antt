-- ===== src/Health/Failover/Affinity.antt =====
-- health/failover.py: what one evaluation leaves behind for the next ones, on the settings rows
-- `last_failover_at`, `last_demoted_node_id` and `last_all_down_at`.
use mathlib.Core.List.{Memᴰ}
use v2pi.Base.{
  ℕ, ◌≡◌, ◌≢◌, ◌<◌, ◌+◌, ◌⊎◌, refl, arith, Bool, Option, some, List, [], ◌∷◌, eq_of_some, inl, inr,
  sym, ◌∙◌, ap, subst,
}
use v2pi.Settings.{num, Settings, optional_number}
use v2pi.Node.{Node}
use v2pi.Health.{NodeHealth}
use v2pi.Health.Failover.{
  Config, Store, Env, switched, run, read_config, demotion_grace, note_switch, id_row,
  maybe_report_all_down, report,
}
use v2pi.Health.Failover.Run.{Promotion, run-switched}

read_config-active :
    (s : Settings) (now : ℕ) (c : Config)
    → read_config s now ≡ some c
    → optional_number s.active_node_id ≡ some c.active_id
unfolding read_config
read_config-active s now c h = ground arith

read_config-demoted :
    (s : Settings) (now : ℕ) (c : Config) (t a : ℕ)
    → read_config s now ≡ some c
    → s.last_failover_at ≡ num t
    → s.last_demoted_node_id ≡ num a
    → now < t + demotion_grace
    → c.demoted ≡ a ∷ []
unfolding read_config
read_config-demoted s now c t a h e d lt = ground arith

-- The two rows that a switch has written.
Promotion-rows :
    {env : Env} {c : Config} {now : ℕ} {n : Node} {after : Store} (a : ℕ)
    → Promotion env c now n after
    → c.active_id ≡ some a
    → (after.settings.last_failover_at ≡ num now) × (after.settings.last_demoted_node_id ≡ num a)
unfolding note_switch
Promotion-rows a p e = (
  ap (λ (s : Store). s.settings.last_failover_at) p.noted,
  ap (λ (s : Store). s.settings.last_demoted_node_id) p.noted ∙ ap id_row e,
)

-- No switch goes back to the node that the last switch fled, for 600 s: whatever else has been
-- written to the store since, while the two rows of that switch still stand.
pub run_no_return :
    (env env' : Env) (now now' : ℕ) (st after st' after' : Store) (i : Option ℕ) (a b : ℕ)
    → st.settings.active_node_id ≡ num a
    → run env now st ≡ (switched i, after)
    → st'.settings.last_failover_at ≡ after.settings.last_failover_at
    → st'.settings.last_demoted_node_id ≡ after.settings.last_demoted_node_id
    → now' < now + demotion_grace
    → run env' now' st' ≡ (switched (some b), after')
    → b ≢ a
run_no_return env env' now now' st after st' after' i a b active first_run same_at same_node soon
      second_run q =
    let (c, n, read, _, _, _, _, p) = run-switched env now st after i first_run in
    let fled : c.active_id ≡ some a =
      eq_of_some (sym (read_config-active st.settings now c read) ∙ ap optional_number active) in
    let (at, node) = Promotion-rows a p fled in
    let (c', n', read', _, id', _, good, _) =
      run-switched env' now' st' after' (some b) second_run in
    let listed : c'.demoted ≡ a ∷ [] =
      read_config-demoted st'.settings now' c' now a read' (same_at ∙ at) (same_node ∙ node) soon in
    good.not_listed a (subst (Memᴰ a) (sym listed) (Memᴰ.head refl)) (id' ∙ ap some q)

report_cases :
    (c : Config) (health : List NodeHealth) (nodes : List Node) (now : ℕ) (e : Bool)
    (st st' : Store)
    → maybe_report_all_down c health nodes now e st ≡ some st'
    → (st' ≡ st) ⊎ (st' ≡ report st now)
unfolding maybe_report_all_down
report_cases c health nodes now e st st' h = ground arith

report_quiet :
    (c : Config) (health : List NodeHealth) (nodes : List Node) (now t : ℕ) (e : Bool) (st : Store)
    → st.settings.last_all_down_at ≡ num t
    → now < t + c.cooldown
    → maybe_report_all_down c health nodes now e st ≡ some st
unfolding maybe_report_all_down
report_quiet c health nodes now t e st row lt = ground arith

-- The report "all nodes down" changes the store at most once in a cooldown: after a call that
-- changed it, no later call within the cooldown does, whatever it finds.
pub maybe_report_all_down-once :
    (c : Config) (health : List NodeHealth) (nodes : List Node) (now : ℕ) (e : Bool)
    (st st' : Store)
    → maybe_report_all_down c health nodes now e st ≡ some st'
    → (st' ≡ st)
      ⊎ ((c' : Config) (health' : List NodeHealth) (nodes' : List Node) (now' : ℕ) (e' : Bool)
          → now' < now + c'.cooldown
          → maybe_report_all_down c' health' nodes' now' e' st' ≡ some st')
unfolding report
maybe_report_all_down-once c health nodes now e st st' h =
    elim (report_cases c health nodes now e st st' h) [
      | inl same ↦ inl same
      | inr new ↦ inr λ c' health' nodes' now' e' lt.
          report_quiet c' health' nodes' now' now e' st'
            (ap (λ (s : Store). s.settings.last_all_down_at) new) lt
    ]
