-- ===== src/Events/Incidents.antt =====
-- net_control/events.py: the spans of downtime that the events make up.
use v2pi.Base.{
  ℕ, ◌+◌, ◌-◌, ◌≤◌, ◌≡◌, refl, ap, arith, String, str_eq, Bool, true, false, Bool-cases, inl, inr,
  ◌||◌, ltb, max, Option, none, some, List, [], ◌∷◌, ◌++◌, if◌then◌else◌,
}
use v2pi.Events.{Event}

-- `DOWN_KINDS` and `UP_KINDS`
unfoldable pub is_down : String → Bool
is_down kind =
    str_eq kind "disconnect"
    || (str_eq kind "xray-stop" || (str_eq kind "all-nodes-down" || str_eq kind "stale-active"))

unfoldable pub is_up : String → Bool
is_up kind = str_eq kind "connect" || (str_eq kind "failover" || str_eq kind "xray-restart")

pub record OpenSpan : Type 0 where
  pub started : ℕ
  pub kind : String
  pub detail : String

pub record Span : Type 0 where
  pub started : ℕ
  pub ended : ℕ
  pub seconds : ℕ
  pub kind : String
  pub detail : String
  pub ongoing : Bool

-- `open_span.update(...)`: `max(0, end - start)` is subtraction on ℕ.
unfoldable pub close : OpenSpan → ℕ → Bool → Span
close o ended ongoing = record {
  started = o.started;
  ended = ended;
  seconds = ended - o.started;
  kind = o.kind;
  detail = o.detail;
  ongoing = ongoing;
}

unfoldable pub reversed : List Span → List Span
reversed [] = []
reversed (s ∷ spans) = reversed spans ++ s ∷ []

-- The loop, with the span that is open.
unfoldable pub scan_open : List Span → Option OpenSpan → List Event → List Span × Option OpenSpan
scan_open spans open_span [] = (spans, open_span)
scan_open spans none (e ∷ events) =
    scan_open spans
      (if is_down e.kind
        then some (record { started = e.ts; kind = e.kind; detail = e.detail })
        else none)
      events
scan_open spans (some o) (e ∷ events) = elim (is_up e.kind) [
  | true ↦ scan_open (spans ++ close o e.ts false ∷ []) none events
  | false ↦ scan_open spans (some o) events
]

-- After the loop: an open span ends at `now`.
unfoldable pub finish : ℕ → List Span × Option OpenSpan → List Span
finish now (spans, none) = reversed spans
finish now (spans, some o) = reversed (spans ++ close o now true ∷ [])

unfoldable pub incidents : List Event → ℕ → List Span
unfolding scan_open finish
incidents events now = finish now (scan_open [] none events)

-- The loop of `downtime`.
unfoldable pub downtime : List Span → ℕ → ℕ
downtime [] since = 0
downtime (s ∷ spans) since =
    let start = max s.started since in
    (if ltb start s.ended then s.ended - start else 0) + downtime spans since

-- Times do not go back, from `lo` up to `hi`.
abbrev pub IsTimed : ℕ → List Event → ℕ → Type 0
IsTimed lo [] hi = lo ≤ hi
IsTimed lo (e ∷ events) hi = (lo ≤ e.ts) × IsTimed e.ts events hi

-- Newest first: each span ends by `hi`, starts by its end, and those after it end before it starts.
abbrev pub IsStacked : ℕ → List Span → Type 0
IsStacked hi [] = Unit
IsStacked hi (s ∷ spans) =
    (s.ended ≤ hi)
    × ((s.started ≤ s.ended) × ((s.seconds ≡ s.ended - s.started) × IsStacked s.started spans))

reversed-append : (spans : List Span) (s : Span) → reversed (spans ++ s ∷ []) ≡ s ∷ reversed spans
unfolding reversed
reversed-append [] s = refl
reversed-append (x ∷ spans) s = ap (λ r. r ++ x ∷ []) (reversed-append spans s)

IsStacked-raise :
    (lo hi : ℕ) (spans : List Span) → lo ≤ hi → IsStacked lo spans → IsStacked hi spans
IsStacked-raise lo hi [] le h = tt
IsStacked-raise lo hi (s ∷ spans) le h = (omega (arith, h.0, le), h.1)

-- What the loop keeps true at the time `at`.
abbrev IsOpened : ℕ → List Span → Option OpenSpan → Type 0
IsOpened at spans none = IsStacked at (reversed spans)
IsOpened at spans (some o) = (o.started ≤ at) × IsStacked o.started (reversed spans)

closed :
    (o : OpenSpan) (spans : List Span) (at : ℕ) (b : Bool)
    → o.started ≤ at
    → IsStacked o.started (reversed spans)
    → IsStacked at (reversed (spans ++ close o at b ∷ []))
unfolding close
closed o spans at b le h = rw (reversed-append spans (close o at b)) (omega arith, (le, (refl, h)))

scan_open-IsStacked :
    (lo hi : ℕ) (spans : List Span) (o : Option OpenSpan) (events : List Event)
    → IsOpened lo spans o
    → IsTimed lo events hi
    → IsStacked hi (finish hi (scan_open spans o events))
unfolding scan_open finish
scan_open-IsStacked lo hi spans none [] h t = IsStacked-raise lo hi (reversed spans) t h
scan_open-IsStacked lo hi spans (some o) [] h t = closed o spans hi true (omega (arith, h.0, t)) h.1
scan_open-IsStacked lo hi spans none (e ∷ events) h t = elim (Bool-cases (is_down e.kind)) [
  | inl q ↦ rw q (
      scan_open-IsStacked e.ts hi spans
        (some (record { started = e.ts; kind = e.kind; detail = e.detail })) events
        (omega arith, IsStacked-raise lo e.ts (reversed spans) t.0 h) t.1)
  | inr q ↦ rw q (
      scan_open-IsStacked e.ts hi spans none events (IsStacked-raise lo e.ts (reversed spans) t.0 h)
        t.1)
]
scan_open-IsStacked lo hi spans (some o) (e ∷ events) h t = elim (Bool-cases (is_up e.kind)) [
  | inl q ↦
      rw (q, scan_open)
        (scan_open-IsStacked e.ts hi (spans ++ close o e.ts false ∷ []) none events
          (closed o spans e.ts false (omega (arith, h.0, t.0)) h.1) t.1)
  | inr q ↦
      rw (q, scan_open)
        (scan_open-IsStacked e.ts hi spans (some o) events (omega (arith, h.0, t.0), h.1) t.1)
]

-- The spans of a log whose times do not go back, and do not lie after now, are newest first and do
-- not overlap, each is as many seconds long as it says, and none ends after now.
pub incidents-IsStacked :
    (events : List Event) (now : ℕ) → IsTimed 0 events now → IsStacked now (incidents events now)
unfolding incidents reversed
incidents-IsStacked events now t = scan_open-IsStacked 0 now [] none events tt t

stacked-downtime :
    (spans : List Span) (hi since : ℕ) → IsStacked hi spans → downtime spans since ≤ hi - since
unfolding downtime
stacked-downtime [] hi since h = omega arith
stacked-downtime (s ∷ spans) hi since h =
    ground (arith, h.0, h.1.0, stacked-downtime spans s.started since h.1.1.1)

-- Of a log whose times do not go back, and do not lie after now, no more downtime is counted than
-- the window up to now is long.
pub downtime-window :
    (events : List Event) (now since : ℕ)
    → IsTimed 0 events now
    → downtime (incidents events now) since ≤ now - since
downtime-window events now since t =
    stacked-downtime (incidents events now) now since (incidents-IsStacked events now t)
