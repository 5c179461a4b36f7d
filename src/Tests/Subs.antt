-- ===== src/Tests/Subs.antt =====
-- subs/reconcile.py: subscription 1 has the active node 1 and node 2; node 3 is a manual one.
use v2pi.Base.{
  ℕ, ◌≡◌, ◌≢◌, ◌≤◌, refl, arith, Bool, true, false, not, String, Option, none, some, eq_of_some,
  List, [], ◌∷◌, All,
}
use v2pi.Node.{Node}
use v2pi.Subs.Reconcile.{Job, Store, Identity, security_rank, reconcile}
use v2pi.Subs.Reconcile.Rows.{IsOnly, has_row}
use v2pi.Subs.Reconcile.Kept.{Protects, reconcile-keeps_active, reconcile-keeps_operator}
use v2pi.Subs.Reconcile.Deletes.{is_obsolete, reconcile-deletes}
use v2pi.Settings.{num, blank}
use v2pi.Health.Failover.{int_setting}
use v2pi.Subs.Refresh
use v2pi.Subs.Refresh.{restart_active, applied, refresh_merge, downgrade_refused}
use v2pi.Subs.Refresh.Protected.{refresh_merge-Protects}
use v2pi.Tests.Data.{bare_node, node_of}

abbrev hash : List Identity → String
hash ids = "h"

abbrev job : Job
job = record { sub_id = 1; active_node_id = some 1; default_profile_id = none }

abbrev secured_row : Node
secured_row = record (node_of 1 "a.example") { security = "reality"; subscription_id = some 1 }

abbrev gone_row : Node
gone_row = record (node_of 2 "b.example") { subscription_id = some 1; note = "mine" }

abbrev manual_row : Node
manual_row = node_of 3 "c.example"

abbrev table : Store
table = record {
  nodes = record { rows = secured_row ∷ gone_row ∷ manual_row ∷ []; last_id = 3; health = [] };
  shrink = none;
}

-- The active node came back without its protection; node 2 is gone.
abbrev feed : List Node
feed = record bare_node { address = "a.example"; security = "none" } ∷ []

active_row : IsOnly 1 (Protects 2) table.nodes
unfolding security_rank
active_row = record {
  given = omega arith;
  every = (
    (λ e. omega arith),
    (
      (λ e. absurd (omega (arith, eq_of_some e))),
      ((λ e. absurd (omega (arith, eq_of_some e))), tt),
    ),
  );
}

reconcile-keeps_active_example :
    (has_row 1 (reconcile hash job feed table).1.nodes ≡ has_row 1 table.nodes)
    × IsOnly 1 (Protects 2) (reconcile hash job feed table).1.nodes
reconcile-keeps_active_example = reconcile-keeps_active hash job feed table 1 2 refl active_row

noted : IsOnly 2 (λ r. (r.note ≡ "mine") × (r.tuning_profile_id ≡ none)) table.nodes
noted = record {
  given = omega arith;
  every = (
    (λ e. absurd (omega (arith, eq_of_some e))),
    ((λ e. (refl, refl)), ((λ e. absurd (omega (arith, eq_of_some e))), tt)),
  );
}

reconcile-keeps_operator_example :
    IsOnly 2
      (λ r. (r.note ≡ "mine") × (r.tuning_profile_id ≡ none))
      (reconcile hash job feed table).1.nodes
reconcile-keeps_operator_example = reconcile-keeps_operator hash job feed table 2 "mine" none noted

manual-IsOnly : IsOnly 3 (λ r. r ≡ manual_row) table.nodes
manual-IsOnly = record {
  given = omega arith;
  every = (
    (λ e. absurd (omega (arith, eq_of_some e))),
    ((λ e. absurd (omega (arith, eq_of_some e))), ((λ e. refl), tt)),
  );
}

gone-IsOnly : IsOnly 2 (λ r. r ≡ gone_row) table.nodes
gone-IsOnly = record {
  given = omega arith;
  every = (
    (λ e. absurd (omega (arith, eq_of_some e))),
    ((λ e. refl), ((λ e. absurd (omega (arith, eq_of_some e))), tt)),
  );
}

there : has_row 2 table.nodes ≡ true
unfolding v2pi.Base.any_of
there = refl

reconcile-deletes_example :
    has_row 2 (reconcile hash job feed table).1.nodes
    ≡ not (is_obsolete hash job feed table gone_row)
reconcile-deletes_example = reconcile-deletes hash job feed table 2 gone_row gone-IsOnly there

-- The active row, changed by the feed, is applied again.
abbrev refresh_store : Refresh.Store
refresh_store = record {
  active_node_id = num 1;
  subs_auto_switch = blank;
  nodes = table.nodes;
  shrink = none;
}

abbrev refresh_env : Refresh.Env
refresh_env = record { apply_node = λ n st. (true, st); between = λ st. st }

reapplied :
    restart_active refresh_env (some 1) none true (some secured_row) refresh_store
    ≡ (applied secured_row true, refresh_store)
unfolding restart_active int_setting v2pi.Health.Liveness.get_node Refresh.kept_between
    v2pi.Subs.Reconcile.security_kept security_rank
reapplied = refl

refresh_merge-Protects_example :
    IsOnly 1 (Protects 2) (refresh_merge hash refresh_env 1 none feed refresh_store).1.nodes
unfolding int_setting
refresh_merge-Protects_example =
    refresh_merge-Protects refresh_env 1 2 (λ n st. refl) hash 1 none feed refresh_store (λ s. refl)
      refl active_row

turned_down : (refresh_merge hash refresh_env 1 none feed refresh_store).0 ≡ downgrade_refused
unfolding refresh_merge int_setting reconcile v2pi.Subs.Reconcile.reconcile_clean
    v2pi.Subs.Reconcile.dedupe v2pi.Subs.Nodes.get_node_by_identity v2pi.Subs.Nodes.same_identity
    v2pi.Subs.Reconcile.clamp_node_fields v2pi.Events.clip v2pi.Subs.Reconcile.merge_all
    v2pi.Subs.Reconcile.weakens_active v2pi.Subs.Reconcile.next_row
    v2pi.Subs.Reconcile.security_kept v2pi.Subs.Reconcile.security_rank
turned_down = refl
