-- ===== src/Tests/Events.antt =====
-- The connection-event log at a log of two rows.
use v2pi.Base.{◌≡◌, refl, arith, some, [], ◌∷◌}
use v2pi.Events.{Event, Log, newest, add_event, clip}
use v2pi.Events.Retention.{IsLog}
use v2pi.Events.Incidents.{
  incidents, downtime, IsTimed, IsStacked, incidents-IsStacked, downtime-window,
}

abbrev stopped_at : Event
stopped_at = record { id = 1; ts = 1000; kind = "xray-stop"; detail = "" }

abbrev connected_at : Event
connected_at = record { id = 2; ts = 1300; kind = "connect"; detail = "" }

abbrev log : Log
log = record { rows = stopped_at ∷ connected_at ∷ []; last_id = 2 }

log-IsLog : IsLog log
log-IsLog = record { ordered = (omega arith, (omega arith, omega arith)); capped = omega arith }

top : newest log.rows ≡ some 1300
unfolding newest
top = refl

timed : IsTimed 0 log.rows 2000
timed = (omega arith, (omega arith, omega arith))

five_minutes : downtime (incidents log.rows 2000) 0 ≡ 300
unfolding downtime incidents v2pi.Events.Incidents.is_down v2pi.Events.Incidents.is_up
    v2pi.Events.Incidents.reversed v2pi.Events.Incidents.close
five_minutes = refl
