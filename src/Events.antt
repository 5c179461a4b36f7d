-- ===== src/Events.antt =====
-- net_control/events.py and the conn_events table of nodes/store.py: the connection-event log.
pub mod Retention
pub mod Incidents
use Prim.Native.String
use v2pi.Base.{
  ℕ, zero, suc, ◌+◌, ◌-◌, ◌*◌, String, Bool, not, leb, ltb, min, max, Option, none, some, List, [],
  ◌∷◌, ◌++◌, keep, if◌then◌else◌,
}

-- A row of conn_events.
pub record Event : Type 0 where
  pub id : ℕ
  pub ts : ℕ
  pub kind : String
  pub detail : String

-- The rows in the order of their ids, and the last id given out (AUTOINCREMENT).
pub record Log : Type 0 where
  pub rows : List Event
  pub last_id : ℕ

-- `_EVENT_RETENTION_SEC`
abbrev pub event_retention_sec : ℕ
event_retention_sec = 30 * 86400

-- `_EVENT_CAP`
abbrev pub event_cap : ℕ
event_cap = 5000

-- `s[:n]`
unfoldable pub clip : ℕ → String → String
clip zero s = ""
clip (suc n) String.[] = ""
clip (suc n) (String.◌∷◌ c s) = String.◌∷◌ c (clip n s)

-- `SELECT MAX(ts)`
unfoldable pub newest : List Event → Option ℕ
newest [] = none
newest (e ∷ rows) = elim (newest rows) [ none ↦ some e.ts | some t ↦ some (max e.ts t) ]

-- The time that the retention counts from: a row from the future does not move it.
unfoldable pub anchor : Option ℕ → ℕ → ℕ
anchor none ts = ts
anchor (some t) ts = min ts t

unfoldable pub add_event : ℕ → String → String → Log → Log
add_event ts kind detail log =
    let from = anchor (newest log.rows) ts in
    let id = log.last_id + 1 in
    let row : Event = record { id = id; ts = ts; kind = clip 64 kind; detail = clip 512 detail } in
    let kept = keep (λ e. not (ltb e.ts (from - event_retention_sec))) (log.rows ++ row ∷ []) in
    record { rows = keep (λ e. not (leb (e.id + event_cap) id)) kept; last_id = id }
