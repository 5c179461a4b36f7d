-- ===== src/Stats/Recorder.antt =====
-- stats/history.py, `TrafficRecorder`: the bytes of the tunnel, counted from xray's absolute counters
-- and handed in batches to the store.
pub mod Exact
pub mod Queue
use v2pi.Base.{
  ℕ, zero, suc, ◌+◌, ◌-◌, ◌/◌, ◌==◌, Bool, true, false, not, ◌&&◌, ◌||◌, ltb, leb, Option, none,
  some, List, [], ◌∷◌, ◌++◌, if◌then◌else◌, length, is_some,
}
use v2pi.Stats.{Counters, add_counters}
use v2pi.Stats.History.{Point, note}

-- `_MAX_PENDING_MINUTES`
abbrev pub max_pending_minutes : ℕ
max_pending_minutes = 1440

-- The bytes of one minute of wall-clock time.
pub record Bucket : Type 0 where
  pub min : ℕ
  pub bytes : Counters

-- What the callbacks have written: the baseline, the total of the data used, the minutes in order.
pub record Store : Type 0 where
  pub baseline : Option Counters
  pub total : Counters
  pub minutes : List Bucket

-- Which callbacks there are, and whether a flush runs in one transaction of the store.
pub record Hooks : Type 0 where
  pub on_total : Bool
  pub on_minute : Bool
  pub on_baseline : Bool
  pub transaction : Bool

-- Times are in milliseconds.
pub record Recorder : Type 0 where
  pub prev_abs : Option Counters
  pub recovered : Bool
  pub pending : Counters
  pub last_flush : ℕ
  pub minute : Option Bucket
  pub pending_minutes : List Bucket

abbrev pub zeros : Counters
zeros = record { up = 0; down = 0 }

-- `__init__`, with the baseline that was loaded.
unfoldable pub new_recorder : Option Counters → Recorder
new_recorder baseline = record {
  prev_abs = baseline;
  recovered = is_some baseline;
  pending = zeros;
  last_flush = 0;
  minute = none;
  pending_minutes = [];
}

abbrev pub has_bytes : Counters → Bool
has_bytes c = not (c.up == 0) || not (c.down == 0)

-- The bytes since the last sample: after a reset of the counter, all that it shows.
unfoldable pub delta : ℕ → ℕ → ℕ
delta prev now = if ltb now prev then now else now - prev

make_room : List Bucket → List Bucket
make_room [] = []
make_room (b ∷ bs) =
    let rest = make_room bs in if leb max_pending_minutes (length (b ∷ bs)) then rest else b ∷ bs

-- `_queue_minute`
unfoldable pub queue_minute : Bucket → Recorder → Recorder
unfolding make_room
queue_minute b r = record r { pending_minutes = make_room r.pending_minutes ++ b ∷ [] }

-- The minute that is over goes to the queue, unless it is empty.
unfoldable pub roll_over : ℕ → Recorder → Recorder
unfolding queue_minute
roll_over cur r = elim r.minute [
  | none ↦ r
  | some b ↦
      if b.min == cur
      then r
      else record (if has_bytes b.bytes then queue_minute b r else r) { minute = none }
]

unfoldable pub add_to_minute : ℕ → Counters → Recorder → Recorder
add_to_minute cur d r = elim r.minute [
  | none ↦ record r { minute = some (record { min = cur; bytes = d }) }
  | some b ↦ record r { minute = some (record b { bytes = add_counters b.bytes d }) }
]

-- `_accumulate_minute`
unfoldable pub accumulate_minute : Hooks → Counters → ℕ → Recorder → Recorder
unfolding roll_over add_to_minute
accumulate_minute hooks d now r =
    if not hooks.on_minute
    then r
    else let cur = now / 60000 in
      let r' = roll_over cur r in if has_bytes d then add_to_minute cur d r' else r'

-- The first sample of all is only a baseline, and the first after a restart counts in no minute.
unfoldable pub note_counters : Hooks → ℕ → Counters → Recorder → Recorder
unfolding accumulate_minute delta
note_counters hooks now tot r = elim r.prev_abs [
  | none ↦ record r { prev_abs = some tot }
  | some p ↦
      let d : Counters = record { up = delta p.up tot.up; down = delta p.down tot.down } in
      let r' : Recorder = record r {
        prev_abs = some tot;
        pending = if hooks.on_total then add_counters r.pending d else r.pending;
      } in
      if r.recovered then record r' { recovered = false } else accumulate_minute hooks d now r'
]

-- Which of the writes of a flush go through; `clock` is the time when it is over.
pub record FlushEnv : Type 0 where
  pub baseline_ok : Bool
  pub total_ok : Bool
  pub commit_ok : Bool
  pub minutes_ok : ℕ
  pub clock : ℕ

-- Store and recorder.
pub record System : Type 0 where
  pub store : Store
  pub recorder : Recorder

write_baseline : Bool → FlushEnv → Recorder → Store → Bool × Store
write_baseline wanted env r st =
    if not wanted
    then (true, st)
    else if env.baseline_ok
    then (true, record st { baseline = r.prev_abs })
    else (false, st)

write_total : Bool → FlushEnv → Recorder → Store → Bool × Store
write_total wanted env r st =
    if not wanted
    then (true, st)
    else if env.total_ok
    then (true, record st { total = add_counters st.total r.pending })
    else (false, st)

-- The body of the `with`: false where a write raises.
write_both : Bool → Bool → FlushEnv → Recorder → Store → Bool × Store
unfolding write_baseline write_total
write_both do_baseline do_total env r st =
    let b = write_baseline do_baseline env r st in if b.0 then write_total do_total env r b.1 else b

-- The `with`: a transaction puts the old store back where a write or the commit raises.
persist : Hooks → Bool → Bool → FlushEnv → Recorder → Store → Bool × Store
unfolding write_both
persist hooks do_baseline do_total env r st =
    let w = write_both do_baseline do_total env r st in
    if not hooks.transaction then w else if w.0 && env.commit_ok then w else (false, st)

-- `flush_total`: false where it raises.
unfoldable pub flush_total : Hooks → FlushEnv → System → Bool × System
unfolding persist
flush_total hooks env s =
    let r = s.recorder in
    let do_baseline = hooks.on_baseline && is_some r.prev_abs in
    let do_total = hooks.on_total && has_bytes r.pending in
    let done = persist hooks do_baseline do_total env r s.store in
    if not do_baseline && not do_total
    then (true, record s { recorder = record r { last_flush = env.clock } })
    else if done.0
    then (
      true,
      record {
        store = done.1;
        recorder = record r {
          pending = if do_total then zeros else r.pending;
          last_flush = env.clock;
        };
      },
    )
    else (false, record s { store = done.1 })

-- The buckets whose callback succeeds, and those that stay in the queue.
write_out : ℕ → List Bucket → List Bucket × List Bucket
write_out n [] = ([], [])
write_out zero (b ∷ bs) = ([], b ∷ bs)
write_out (suc n) (b ∷ bs) = let rest = write_out n bs in (b ∷ rest.0, rest.1)

close_minute : Bool → Recorder → Recorder
close_minute include_current r = if not include_current then r else elim r.minute [
  | none ↦ r
  | some b ↦ record (if has_bytes b.bytes then queue_minute b r else r) { minute = none }
]

-- `flush_minute`: false where a callback raises.
unfoldable pub flush_minute : Hooks → Bool → FlushEnv → System → Bool × System
unfolding write_out close_minute
flush_minute hooks include_current env s =
    if not hooks.on_minute
    then (true, s)
    else let r = close_minute include_current s.recorder in
      let w = write_out env.minutes_ok r.pending_minutes in
      (
        length w.1 == 0,
        record {
          store = record s.store { minutes = s.store.minutes ++ w.0 };
          recorder = record r { pending_minutes = w.1 };
        },
      )

-- `_accumulate_total`; `tot` are the proxy's counters, none where the sampler has none yet.
unfoldable pub accumulate_total : Hooks → FlushEnv → Option Counters → ℕ → ℕ → System → System
unfolding note_counters flush_total flush_minute
accumulate_total hooks env none flush_interval now s = s
accumulate_total hooks env (some tot) flush_interval now s =
    if not hooks.on_total && not hooks.on_minute
    then s
    else let r = note_counters hooks now tot s.recorder in
      let s₁ : System = record s { recorder = r } in
      let s₂ : System =
        if has_bytes r.pending && leb (r.last_flush + flush_interval) now
        then (flush_total hooks env s₁).1
        else s₁ in
      (flush_minute hooks false env s₂).1

-- `_flush_on_stop`: where the total fails, the minutes are not tried.
unfoldable pub flush_on_stop : Hooks → FlushEnv → System → System
unfolding flush_total flush_minute
flush_on_stop hooks env s =
    let t = flush_total hooks env s in if t.0 then (flush_minute hooks true env t.1).1 else t.1
