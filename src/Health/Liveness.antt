-- ===== src/Health/Liveness.antt =====
-- health/liveness.py: the fast loop's watchdog over xray, its pacing of an interrupted revocation, and
-- its check of the active node. What the tick asks the supervisor, the stop event or a probe is an
-- argument of the step.
pub mod Pacing
pub mod Episodes
pub mod Probe
use v2pi.Base.{
  ℕ, ◌+◌, ◌-◌, ◌*◌, ◌^◌, min, max, String, Bool, true, false, not, ◌&&◌, ◌||◌, ltb, leb, ◌==◌,
  id_eq, Option, none, some, List, [], ◌∷◌, if◌then◌else◌,
}
use v2pi.Settings.{Row, blank, num, junk, unreadable, flag, optional_number}
use v2pi.Supervisor.{Mode, stopped, error, working}
use v2pi.Node.{Node}
use v2pi.Health.Table.{RealCheck, update_health_real, record_latency}
use v2pi.Health.Failover.{Store, Preflight, could_not_run, answered}

abbrev pub base_backoff : ℕ
base_backoff = 20

abbrev pub max_backoff : ℕ
max_backoff = 600

abbrev pub stable_sec : ℕ
stable_sec = 300

abbrev pub default_probe_interval : ℕ
default_probe_interval = 60

-- `_watchdog_backoff` and `_reconcile_backoff`, whose constants agree.
unfoldable pub backoff : ℕ → ℕ
backoff attempts = min max_backoff (base_backoff * 2 ^ (attempts - 1))

pub record Watchdog : Type 0 where
  pub attempts : ℕ
  pub last_ready_at : ℕ
  pub next_restart_at : ℕ
  pub reported : Bool

-- What a tick of the watchdog finds: before the locks, under them, and after the restart.
pub record WatchEnv : Type 0 where
  pub stopping : Bool
  pub mode : Mode
  pub stopping_locked : Bool
  pub mode_locked : Mode
  pub ready : Bool

-- The details of an `xray-restart` event.
pub data WatchEvent : Type 0 where
  auto_restarted : WatchEvent
  keeps_crashing : ℕ → WatchEvent

pub record Watched : Type 0 where
  pub dog : Watchdog
  pub restarted : Bool
  pub event : Option WatchEvent

-- `!= "error"`, negated.
abbrev pub is_error : Mode → Bool
is_error error = true
is_error stopped = false
is_error working = false

-- The last run was seen up, and that is long enough ago: a new crash starts a new episode.
forgive : ℕ → Watchdog → Watchdog
forgive now d =
    if not (d.last_ready_at == 0) && leb (d.last_ready_at + stable_sec) now
    then record d { attempts = 0; reported = false }
    else d

-- The counters and the event of a restart that was just made.
note_restart : ℕ → Bool → Watchdog → Watched
note_restart now ready d =
    let attempts = d.attempts + 1 in
    let delay = backoff attempts in
    let seen : Watchdog = record {
      attempts = attempts;
      last_ready_at = if ready then now else d.last_ready_at;
      next_restart_at = now + delay;
      reported = d.reported;
    } in
    if attempts == 1
    then record { dog = seen; restarted = true; event = some auto_restarted }
    else if not ready && (leb max_backoff delay && not d.reported)
    then record {
      dog = record seen { reported = true };
      restarted = true;
      event = some (keeps_crashing delay);
    }
    else record { dog = seen; restarted = true; event = none }

abbrev pub idle : Watchdog → Watched
idle d = record { dog = d; restarted = false; event = none }

unfoldable pub watchdog : WatchEnv → ℕ → Watchdog → Watched
unfolding forgive note_restart
watchdog env now d =
    if env.stopping
    then idle d
    else if not (is_error env.mode)
    then idle d
    else if ltb now d.next_restart_at
    then idle d
    else if env.stopping_locked || not (is_error env.mode_locked)
    then idle d
    else note_restart now env.ready (forgive now d)

-- The pacing of a revocation that has not reached the running xray.
pub record Revocation : Type 0 where
  pub attempts : ℕ
  pub next_at : ℕ
  pub reported : Bool

-- No episode is open.
abbrev pub no_episode : Revocation
no_episode = record { attempts = 0; next_at = 0; reported = false }

-- The marker (none: the store cannot be read), and whether the reconciler finished.
pub record ReconcileEnv : Type 0 where
  pub stopping : Bool
  pub pending : Option Bool
  pub stopping_locked : Bool
  pub done : Bool

pub record Reconciled : Type 0 where
  pub pacing : Revocation
  pub attempted : Bool
  pub filed : Bool

-- The reconciler has run; `filed` says whether an event was filed before.
attempt : Bool → Bool → Revocation → Reconciled
attempt done filed r = record {
  pacing = if done then no_episode else r;
  attempted = true;
  filed = filed;
}

pursue : ReconcileEnv → ℕ → Revocation → Reconciled
unfolding attempt
pursue env now r =
    let attempts = r.attempts + 1 in
    let paced : Revocation = record {
      attempts = attempts;
      next_at = now + backoff attempts;
      reported = true;
    } in
    if r.reported
    then attempt env.done false paced
    else if env.stopping_locked
    then record { pacing = paced; attempted = false; filed = false }
    else attempt env.done true paced

abbrev pub untouched : Revocation → Reconciled
untouched r = record { pacing = r; attempted = false; filed = false }

unfoldable pub reconcile_tick : ReconcileEnv → ℕ → Revocation → Reconciled
unfolding pursue
reconcile_tick env now r = if env.stopping then untouched r else elim env.pending [
  | none ↦ untouched r
  | some false ↦ untouched no_episode
  | some true ↦ if ltb now r.next_at then untouched r else pursue env now r
]

-- `_probe_interval`, without the constructor's override.
unfoldable pub probe_interval : Row → ℕ
probe_interval (num n) = max 10 n
probe_interval _ = default_probe_interval

-- What the check of the active node meets: the stop event at its three looks, the supervisor, the
-- probe, which takes seconds while others write to the store, and what they write between the two
-- locked sections after it.
pub record ProbeEnv : Type 0 where
  pub stopping : Bool
  pub running : Bool
  pub real_through : Node → Store → Preflight × Store
  pub stopping_then : Bool
  pub checked_at : ℕ
  pub between : Store → Store
  pub stopping_last : Bool

-- `store.get_node(id)`
unfoldable pub get_node : ℕ → List Node → Option Node
get_node i [] = none
get_node i (n ∷ nodes) = let rest = get_node i nodes in if id_eq n.id (some i) then some n else rest

-- `(int(cur) if cur else None) == aid`; a text that is no number raises, and ends the check.
unfoldable pub is_active : ℕ → Store → Bool
is_active aid st = elim (optional_number st.settings.active_node_id) [
  | none ↦ false
  | some current ↦ id_eq current (some aid)
]

-- The latency of a success joins the node's history, if the node is still the active one.
note_latency : ProbeEnv → ℕ → Bool → Option ℕ → Store → Store
note_latency env aid false ms st = st
note_latency env aid true none st = st
note_latency env aid true (some ms) st =
    let st₂ = env.between st in
    if env.stopping_last
    then st₂
    else if is_active aid st₂
    then record st₂ { health = record_latency aid ms st₂.health }
    else st₂

-- The result is written if the loop is not stopping and the node is still the active one.
unfoldable pub note_probe : ProbeEnv → ℕ → Preflight × Store → Store
unfolding note_latency is_active
note_probe env aid (could_not_run, st) = st
note_probe env aid (answered real_ok real_ms egress egress6, st) =
    if env.stopping_then
    then st
    else if not (is_active aid st)
    then st
    else note_latency env aid real_ok real_ms (record st {
      health =
          update_health_real aid
            (record {
              real_ok = real_ok;
              real_ms = real_ms;
              egress_ip = egress;
              egress_ip6 = egress6;
              checked_at = env.checked_at;
            })
            st.health;
    })

-- The node that is checked: the active one, while health checks are on and xray runs.
unfoldable pub probed_node : ProbeEnv → Store → Option (ℕ × Node)
unfolding get_node
probed_node env st = if env.stopping then none else elim (flag true st.settings.health_enabled) [
  | none ↦ none
  | some false ↦ none
  | some true ↦ elim (optional_number st.settings.active_node_id) [
    | none ↦ none
    | some none ↦ none
    | some (some aid) ↦
        if env.running
        then (elim (get_node aid st.nodes) [ none ↦ none | some n ↦ some (aid, n) ])
        else none
  ]
]

-- `_probe_active`; an exception on the way leaves what was written before it.
unfoldable pub probe_active : ProbeEnv → Store → Store
unfolding note_probe probed_node
probe_active env st = elim (probed_node env st) [
  | none ↦ st
  | some (aid, node) ↦ note_probe env aid (env.real_through node st)
]
