-- ===== src/Health/Failover.antt =====
-- health/failover.py: when the tunnel leaves a failing node, and for which other node.
pub mod Decision
pub mod Run
pub mod Affinity
use v2pi.Base.{
  ℕ, ◌+◌, ◌-◌, String, Bool, true, false, not, ◌&&◌, ltb, ◌==◌, id_eq, is_some, Option, none, some,
  List, [], ◌∷◌, take, length, if◌then◌else◌,
}
use v2pi.Settings.{Row, blank, num, junk, unreadable, Settings, flag, number, optional_number}
use v2pi.Events
use v2pi.Events.{Log}
use v2pi.Node.{Node}
use v2pi.Health.{NodeHealth, find_health}
use v2pi.Health.Table.{RealCheck, update_health_real}
use v2pi.Health.Selection.{
  Query, best_node, ranked_nodes, health_fresh, active_freshness_ttl, standby_freshness_ttl,
}

abbrev pub default_hysteresis : ℕ
default_hysteresis = 3

abbrev pub default_cooldown : ℕ
default_cooldown = 120

abbrev pub demotion_grace : ℕ
demotion_grace = 600

abbrev pub max_preflights : ℕ
max_preflights = 5

-- The tables that the health loops read and write.
pub record Store : Type 0 where
  pub settings : Settings
  pub nodes : List Node
  pub health : List NodeHealth
  pub events : Log

-- `_int_setting`: a text that is no number counts as none; the outer `none` is an exception.
unfoldable pub int_setting : Row → Option (Option ℕ)
int_setting blank = some none
int_setting (num n) = some (some n)
int_setting junk = some none
int_setting unreadable = none

-- `(now - last) < window`, for a clock that may have been set back since.
abbrev pub within : ℕ → ℕ → ℕ → Bool
within now last window = ltb now (last + window)

-- `last is not None and (now - last) < window`
abbrev pub still_within : ℕ → Option ℕ → ℕ → Bool
still_within now none window = false
still_within now (some last) window = within now last window

-- The settings of one evaluation, once read.
pub record Config : Type 0 where
  pub hysteresis : ℕ
  pub cooldown : ℕ
  pub active_id : Option ℕ
  pub last_failover_at : Option ℕ
  pub active_ttl : ℕ
  pub standby_ttl : Option ℕ
  pub demoted : List ℕ

-- `_recently_demoted`, given the setting.
unfoldable pub recently_demoted : Option ℕ → ℕ → Option ℕ → List ℕ
recently_demoted none now last_failover_at = []
recently_demoted (some demoted) now last_failover_at =
    if still_within now last_failover_at demotion_grace then demoted ∷ [] else []

-- The reads at the head of `run`; `none` is an exception.
unfoldable pub read_config : Settings → ℕ → Option Config
unfolding int_setting recently_demoted
read_config s now = elim (number default_hysteresis s.health_hysteresis) [
  | none ↦ none
  | some hysteresis ↦ elim (number default_cooldown s.failover_cooldown) [
    | none ↦ none
    | some cooldown ↦ elim (optional_number s.active_node_id) [
      | none ↦ none
      | some active_id ↦ elim (optional_number s.last_failover_at) [
        | none ↦ none
        | some last_failover_at ↦ elim (int_setting s.last_demoted_node_id) [
          | none ↦ none
          | some demoted ↦ some (record {
            hysteresis = hysteresis;
            cooldown = cooldown;
            active_id = active_id;
            last_failover_at = last_failover_at;
            active_ttl = active_freshness_ttl s;
            standby_ttl = standby_freshness_ttl s;
            demoted = recently_demoted demoted now last_failover_at;
          })
        ]
      ]
    ]
  ]
]

-- The candidates' side of an evaluation: `require_alive` holds while a sweep can show that a
-- standby lives.
abbrev pub standby_query : Config → List NodeHealth → ℕ → Option ℕ → Query
standby_query c health now limit = record {
  health = health;
  exclude_id = c.active_id;
  exclude_ids = c.demoted;
  require_alive = is_some c.standby_ttl;
  now = now;
  freshness_ttl = c.standby_ttl;
  max_fail_count = limit;
}

-- The gates that the active node's snapshot has to pass, shared by `decide` and the report.
unfoldable pub active_failing : Config → List NodeHealth → ℕ → Bool
active_failing c health now = elim (find_health health c.active_id) [
  | none ↦ false
  | some h ↦ not (ltb h.fail_count c.hysteresis) && health_fresh (some h) now c.active_ttl
]

unfoldable pub decide : Config → List NodeHealth → List Node → ℕ → Option ℕ
unfolding active_failing
decide c health nodes now =
    if not (is_some c.active_id)
    then none
    else if not (active_failing c health now)
    then none
    else if still_within now c.last_failover_at c.cooldown
    then none
    else elim (best_node (standby_query c health now (some c.hysteresis)) nodes) [
      | none ↦ none
      | some candidate ↦ candidate.id
    ]

-- `if last_v and (now - float(last_v)) < cooldown`, where `none` is an exception.
reported_lately : Row → ℕ → ℕ → Option Bool
reported_lately row now cooldown = elim (optional_number row) [
  | none ↦ none
  | some last ↦ some (still_within now last cooldown)
]

report : Store → ℕ → Store
report st now = record st {
  settings = record st.settings { last_all_down_at = num now };
  events =
      Events.add_event now "all-nodes-down" "active node failing and no alive node to fail over to"
        st.events;
}

-- `_maybe_report_all_down`; `none` is an exception. `health` and `nodes` are the rows that `run`
-- has read, `st` is the store as it stands.
unfoldable pub maybe_report_all_down :
    Config → List NodeHealth → List Node → ℕ → Bool → Store → Option Store
unfolding active_failing reported_lately report
maybe_report_all_down c health nodes now exhausted st =
    if not (is_some c.active_id)
    then some st
    else if not (active_failing c health now)
    then some st
    else if still_within now c.last_failover_at c.cooldown
    then some st
    else if not exhausted && is_some (best_node (standby_query c health now none) nodes)
    then some st
    else elim (reported_lately st.settings.last_all_down_at now c.cooldown) [
      | none ↦ none
      | some true ↦ some st
      | some false ↦ some (report st now)
    ]

-- What a throwaway Xray told of a node: nothing, or the outcome of a request.
pub data Preflight : Type 0 where
  could_not_run : Preflight
  answered : (real_ok : Bool) (real_ms : Option ℕ) (egress egress6 : Option String) → Preflight

-- The two calls out of `run`. Both take seconds, and give the store as it stands when they return:
-- others write to it meanwhile, and `apply_fn` itself does.
pub record Env : Type 0 where
  pub real_through : Node → Store → Preflight × Store
  pub apply_fn : Node → Store → Bool × Store

-- How `run` ends: with no switch, with a switch to the node of this id, or with an exception.
pub data Outcome : Type 0 where
  stayed : Outcome
  switched : Option ℕ → Outcome
  raised : Outcome

-- `int(cur_v) if cur_v else None) != active_id`, negated; `none` is an exception.
unfoldable pub still_active : Option ℕ → Store → Option Bool
still_active active_id st = elim (optional_number st.settings.active_node_id) [
  | none ↦ none
  | some current ↦ some (id_eq current active_id)
]

-- A node of the pool has an id; a row with none is never in the store.
abbrev check_written : Option ℕ → RealCheck → List NodeHealth → List NodeHealth
check_written none check rows = rows
check_written (some i) check rows = update_health_real i check rows

unfoldable pub note_check : Node → RealCheck → Store → Store
note_check node check st = record st { health = check_written node.id check st.health }

-- `str(active_id) if active_id is not None else ""`
abbrev id_row : Option ℕ → Row
id_row none = blank
id_row (some i) = num i

-- The two settings that a switch leaves behind.
unfoldable pub note_switch : Option ℕ → ℕ → Store → Store
note_switch active_id now st = record st {
  settings = record st.settings {
    last_failover_at = num now;
    last_demoted_node_id = id_row active_id;
  };
}

-- The loop over the candidates. `errors` counts the preflights that could not run. The result is
-- none where every candidate has been tried.
pub data Attempt : Type 0 where
  ended : Outcome → Attempt
  exhausted : ℕ → Attempt

-- One turn of the loop, step by step. `next` is the rest of the loop: it takes the errors so far.
module _ (env : Env) (c : Config) (now : ℕ) (node : Node) (errors : ℕ) where
  -- `res = apply_fn(…); if res.ok: …`
  unfoldable pub on_apply : (ℕ → Store → Attempt × Store) → Bool × Store → Attempt × Store
  unfolding note_switch
  on_apply next (true, st) = (ended (switched node.id), note_switch c.active_id now st)
  on_apply next (false, st) = next errors st

  -- `if not real_ok: continue`
  unfoldable pub on_result : (ℕ → Store → Attempt × Store) → Bool → Store → Attempt × Store
  on_result next false st = next errors st
  on_result next true st = on_apply next (env.apply_fn node st)

  -- The second look at the active node, under the lock in which the result is written.
  unfoldable pub on_second_look :
      (ℕ → Store → Attempt × Store) → RealCheck → Store → Option Bool → Attempt × Store
  on_second_look next check st none = (ended raised, st)
  on_second_look next check st (some false) = (ended stayed, st)
  on_second_look next check st (some true) = on_result next check.real_ok (note_check node check st)

  -- An error of the preflight is counted, and the next candidate is tried.
  unfoldable pub on_preflight : (ℕ → Store → Attempt × Store) → Preflight × Store → Attempt × Store
  on_preflight next (could_not_run, st) = next (errors + 1) st
  on_preflight next (answered real_ok real_ms egress egress6, st) =
      on_second_look next
        (record {
          real_ok = real_ok;
          real_ms = real_ms;
          egress_ip = egress;
          egress_ip6 = egress6;
          checked_at = now;
        })
        st (still_active c.active_id st)

  -- The first look: somebody else may have moved the tunnel since the last turn.
  unfoldable pub on_first_look :
      (ℕ → Store → Attempt × Store) → Store → Option Bool → Attempt × Store
  on_first_look next st none = (ended raised, st)
  on_first_look next st (some false) = (ended stayed, st)
  on_first_look next st (some true) = on_preflight next (env.real_through node st)

module _ (env : Env) (c : Config) (now : ℕ) where
  unfoldable pub promote : List Node → ℕ → Store → Attempt × Store
  unfolding on_apply on_result on_second_look on_preflight on_first_look still_active note_check
  promote [] errors st = (exhausted errors, st)
  promote (node ∷ rest) errors st =
      on_first_look env c now node errors (promote rest) st (still_active c.active_id st)

-- After `_maybe_report_all_down`: an exception leaves the store as it was.
abbrev finish : Store → Option Store → Outcome × Store
finish st none = (raised, st)
finish st (some st') = (stayed, st')

-- Every candidate failed: an error if not one preflight could run, else the report.
unfoldable pub conclude :
    Config → List NodeHealth → List Node → ℕ → ℕ → Attempt × Store → Outcome × Store
conclude c health nodes now tried (ended outcome, st) = (outcome, st)
conclude c health nodes now tried (exhausted errors, st) =
    if ltb 0 errors && errors == tried
    then (raised, st)
    else finish st (maybe_report_all_down c health nodes now true st)

-- The nodes that are tried: at most `MAX_PREFLIGHTS`.
unfoldable pub candidates : Config → List NodeHealth → List Node → ℕ → List Node
candidates c health nodes now =
    take max_preflights (ranked_nodes (standby_query c health now (some c.hysteresis)) nodes)

unfoldable pub evaluate : Env → Config → ℕ → Store → Outcome × Store
unfolding conclude
evaluate env c now st = elim (decide c st.health st.nodes now) [
  | none ↦ finish st (maybe_report_all_down c st.health st.nodes now false st)
  | some _ ↦
      let tried = candidates c st.health st.nodes now in
      conclude c st.health st.nodes now (length tried) (promote env c now tried 0 st)
]

unfoldable pub run : Env → ℕ → Store → Outcome × Store
unfolding evaluate
run env now st = elim (flag true st.settings.failover_enabled) [
  | none ↦ (raised, st)
  | some false ↦ (stayed, st)
  | some true ↦ elim (read_config st.settings now) [
    | none ↦ (raised, st)
    | some c ↦ evaluate env c now st
  ]
]
