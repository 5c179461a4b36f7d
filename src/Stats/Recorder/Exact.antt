-- ===== src/Stats/Recorder/Exact.antt =====
-- stats/history.py: the data used is exact, whatever fails and whenever the panel dies.
use v2pi.Base.{
  ℕ, ◌+◌, ◌≤◌, ◌≡◌, refl, arith, sym, subst, ◌∙◌, Bool, true, false, not, ◌&&◌, ◌||◌, leb, some,
  List, [], ◌∷◌, if◌then◌else◌, get_or, is_some, Bool-cases, Option-cases, inl, inr,
}
use v2pi.Stats.{Counters, add_counters}
use v2pi.Stats.Recorder.{
  Store, Hooks, Recorder, FlushEnv, System, zeros, has_bytes, new_recorder, delta, note_counters,
  accumulate_minute, roll_over, add_to_minute, queue_minute, flush_total, flush_minute,
  flush_on_stop, accumulate_total, persist, write_both, write_baseline, write_total, close_minute,
}

-- As the panel wires the recorder: every callback, and the transaction of the store.
abbrev pub full : Hooks
full = record { on_total = true; on_minute = true; on_baseline = true; transaction = true }

-- `total` of the data used since a time when it was `t0` and xray's counter at `b0` accounts for
-- exactly what the counter has shown since: the bytes up to the stored baseline are in the store, those
-- after it are pending. `last` is what the counter has shown last.
pub record IsExact (t0 b0 last : Counters) (s : System) : Type 0 where
  pub has_baseline : is_some s.store.baseline ≡ true
  pub has_prev : is_some s.recorder.prev_abs ≡ true
  pub stored_up : s.store.total.up + b0.up ≡ t0.up + (get_or s.store.baseline zeros).up
  pub stored_down : s.store.total.down + b0.down ≡ t0.down + (get_or s.store.baseline zeros).down
  pub seen_up :
      s.store.total.up + s.recorder.pending.up + b0.up
      ≡ t0.up + (get_or s.recorder.prev_abs zeros).up
  pub seen_down :
      s.store.total.down + s.recorder.pending.down + b0.down
      ≡ t0.down + (get_or s.recorder.prev_abs zeros).down
  pub base_up : (get_or s.store.baseline zeros).up ≤ last.up
  pub base_down : (get_or s.store.baseline zeros).down ≤ last.down
  pub shown_up : (get_or s.recorder.prev_abs zeros).up ≤ last.up
  pub shown_down : (get_or s.recorder.prev_abs zeros).down ≤ last.down

-- What an operation leaves alone where it only moves minutes.
record SameBytes (r q : Recorder) : Type 0 where
  same_prev : r.prev_abs ≡ q.prev_abs
  same_pending : r.pending ≡ q.pending

accumulate_minute-same :
    (d : Counters) (now : ℕ) (r : Recorder) → SameBytes (accumulate_minute full d now r) r
unfolding accumulate_minute roll_over add_to_minute queue_minute
accumulate_minute-same d now r = ground arith

close_minute-same : (c : Bool) (r : Recorder) → SameBytes (close_minute c r) r
unfolding close_minute queue_minute
close_minute-same c r = ground arith

note_counters-bytes :
    (now : ℕ) (tot p : Counters) (r : Recorder)
    → r.prev_abs ≡ some p
    → ((note_counters full now tot r).prev_abs ≡ some tot)
      × ((note_counters full now tot r).pending
          ≡ add_counters r.pending
              (record { up = delta p.up tot.up; down = delta p.down tot.down }))
unfolding note_counters
note_counters-bytes now tot p r e =
    let d : Counters = record { up = delta p.up tot.up; down = delta p.down tot.down } in
    let r' : Recorder = record r { prev_abs = some tot; pending = add_counters r.pending d } in
    elim (Bool-cases r.recovered) [
      | inl c ↦ rw (e, note_counters) (rw c (refl, refl))
      | inr c ↦
          let same = accumulate_minute-same d now r' in
          rw (e, note_counters) (rw c (same.same_prev, same.same_pending))
    ]

abbrev goes_through : Bool → FlushEnv → Bool
goes_through do_total env = env.baseline_ok && (not do_total || env.total_ok) && env.commit_ok

-- A transaction of a flush leaves the old store or has written both.
persist-full :
    (do_total : Bool) (env : FlushEnv) (r : Recorder) (st : Store)
    → persist full true do_total env r st ≡ (
        if goes_through do_total env
        then (
          true,
          record st {
            baseline = r.prev_abs;
            total = if do_total then add_counters st.total r.pending else st.total;
          },
        )
        else (false, st))
unfolding persist write_both write_baseline write_total
persist-full do_total env r st = ground arith

no_bytes : (c : Counters) → has_bytes c ≡ false → (c.up ≡ 0) × (c.down ≡ 0)
no_bytes c h = ground arith

-- The state after a flush that went through.
flushed : FlushEnv → System → System
flushed env s =
    let do_total = has_bytes s.recorder.pending in
    record {
      store = record s.store {
        baseline = s.recorder.prev_abs;
        total = if do_total then add_counters s.store.total s.recorder.pending else s.store.total;
      };
      recorder = record s.recorder {
        pending = if do_total then zeros else s.recorder.pending;
        last_flush = env.clock;
      };
    }

flushed-IsExact :
    (t0 b0 last : Counters) (env : FlushEnv) (s : System)
    → IsExact t0 b0 last s
    → IsExact t0 b0 last (flushed env s)
unfolding flushed
flushed-IsExact t0 b0 last env s h = elim (Bool-cases (has_bytes s.recorder.pending)) [
  | inl e ↦ record {
    has_baseline = h.has_prev;
    has_prev = h.has_prev;
    stored_up = rw e h.seen_up;
    stored_down = rw e h.seen_down;
    seen_up = rw e (omega (arith, h.seen_up));
    seen_down = rw e (omega (arith, h.seen_down));
    base_up = h.shown_up;
    base_down = h.shown_down;
    shown_up = h.shown_up;
    shown_down = h.shown_down;
  }
  | inr e ↦
      let z = no_bytes s.recorder.pending e in
      record {
        has_baseline = h.has_prev;
        has_prev = h.has_prev;
        stored_up = rw e (omega (arith, h.seen_up, z.0));
        stored_down = rw e (omega (arith, h.seen_down, z.1));
        seen_up = rw e h.seen_up;
        seen_down = rw e h.seen_down;
        base_up = h.shown_up;
        base_down = h.shown_down;
        shown_up = h.shown_up;
        shown_down = h.shown_down;
      }
]

flush_total-flushed :
    (env : FlushEnv) (s : System)
    → is_some s.recorder.prev_abs ≡ true
    → (flush_total full env s).1
      ≡ (if goes_through (has_bytes s.recorder.pending) env then flushed env s else s)
unfolding flush_total flushed
flush_total-flushed env s e =
    rw (e, flush_total)
      (rw (persist-full (has_bytes s.recorder.pending) env s.recorder s.store) (ground arith))

flush_total-IsExact :
    (t0 b0 last : Counters) (env : FlushEnv) (s : System)
    → IsExact t0 b0 last s
    → IsExact t0 b0 last (flush_total full env s).1
flush_total-IsExact t0 b0 last env s h =
    let e = flush_total-flushed env s h.has_prev in
    elim (Bool-cases (goes_through (has_bytes s.recorder.pending) env)) [
      | inl g ↦
          subst (IsExact t0 b0 last) (sym (e ∙ (rw g refl))) (flushed-IsExact t0 b0 last env s h)
      | inr g ↦ subst (IsExact t0 b0 last) (sym (e ∙ (rw g refl))) h
    ]

flush_minute-IsExact :
    (t0 b0 last : Counters) (c : Bool) (env : FlushEnv) (s : System)
    → IsExact t0 b0 last s
    → IsExact t0 b0 last (flush_minute full c env s).1
unfolding flush_minute
flush_minute-IsExact t0 b0 last c env s h = ground (arith, close_minute-same c s.recorder)

grows : (prev now : ℕ) → prev ≤ now → prev + delta prev now ≡ now
unfolding delta
grows prev now h = ground arith

note_counters-IsExact :
    (t0 b0 last tot : Counters) (now : ℕ) (s : System)
    → IsExact t0 b0 last s
    → last.up ≤ tot.up
    → last.down ≤ tot.down
    → IsExact t0 b0 tot (record s { recorder = note_counters full now tot s.recorder })
note_counters-IsExact t0 b0 last tot now s h u d = elim (Option-cases s.recorder.prev_abs) [
  | inl e ↦ absurd (cc (h.has_prev, e))
  | inr (p, e) ↦
      let n = note_counters-bytes now tot p s.recorder e in
      let hu : p.up ≤ last.up = rw e at h.shown_up in
      let hd : p.down ≤ last.down = rw e at h.shown_down in
      let su : s.store.total.up + s.recorder.pending.up + b0.up ≡ t0.up + p.up =
        rw e at h.seen_up in
      let sd : s.store.total.down + s.recorder.pending.down + b0.down ≡ t0.down + p.down =
        rw e at h.seen_down in
      record {
        has_baseline = h.has_baseline;
        has_prev = rw n.0 refl;
        stored_up = h.stored_up;
        stored_down = h.stored_down;
        seen_up = rw (n.0) (rw n.1 (ground (arith, grows p.up tot.up)));
        seen_down = rw (n.0) (rw n.1 (ground (arith, grows p.down tot.down)));
        base_up = omega (arith, h.base_up);
        base_down = omega (arith, h.base_down);
        shown_up = rw n.0 (omega arith);
        shown_down = rw n.0 (omega arith);
      }
]

-- What becomes of the panel: a sample, a stop, a death with a new start from the stored baseline.
pub data Event : Type 0 where
  sampled : FlushEnv → Counters → ℕ → ℕ → Event
  stopped : FlushEnv → Event
  restarted : Event

unfoldable pub step : Event → System → System
step (sampled env tot flush_interval now) s =
    accumulate_total full env (some tot) flush_interval now s
step (stopped env) s = flush_on_stop full env s
step restarted s = record s { recorder = new_recorder s.store.baseline }

unfoldable pub run : List Event → System → System
run [] s = s
run (e ∷ es) s = run es (step e s)

-- What xray's counters show last, and that they do not fall.
abbrev pub shown : Event → Counters → Counters
shown (sampled env tot flush_interval now) last = tot
shown _ last = last

abbrev pub Rises : Counters → List Event → Type 0
Rises last [] = Unit
Rises last (e ∷ es) =
    (last.up ≤ (shown e last).up) × (last.down ≤ (shown e last).down) × Rises (shown e last) es

step-IsExact :
    (t0 b0 last : Counters) (e : Event) (s : System)
    → last.up ≤ (shown e last).up
    → last.down ≤ (shown e last).down
    → IsExact t0 b0 last s
    → IsExact t0 b0 (shown e last) (step e s)
unfolding step accumulate_total flush_on_stop new_recorder
step-IsExact t0 b0 last (sampled env tot flush_interval now) s u d h =
    let r = note_counters full now tot s.recorder in
    let s₁ : System = record s { recorder = r } in
    let h₁ = note_counters-IsExact t0 b0 last tot now s h u d in
    elim (Bool-cases (has_bytes r.pending && leb (r.last_flush + flush_interval) now)) [
      | inl e ↦
          rw e
            (flush_minute-IsExact t0 b0 tot false env _ (flush_total-IsExact t0 b0 tot env s₁ h₁))
      | inr e ↦ rw e (flush_minute-IsExact t0 b0 tot false env s₁ h₁)
    ]
step-IsExact t0 b0 last (stopped env) s u d h =
    let h₁ = flush_total-IsExact t0 b0 last env s h in
    elim (Bool-cases (flush_total full env s).0) [
      | inl e ↦ rw e (flush_minute-IsExact t0 b0 last true env _ h₁)
      | inr e ↦ rw e h₁
    ]
step-IsExact t0 b0 last restarted s u d h = record {
  has_baseline = h.has_baseline;
  has_prev = h.has_baseline;
  stored_up = h.stored_up;
  stored_down = h.stored_down;
  seen_up = omega (arith, h.stored_up);
  seen_down = omega (arith, h.stored_down);
  base_up = h.base_up;
  base_down = h.base_down;
  shown_up = h.base_up;
  shown_down = h.base_down;
}

abbrev pub final : List Event → Counters → Counters
final [] last = last
final (e ∷ es) last = final es (shown e last)

-- While xray's counters do not fall: after any samples, stops, deaths of the panel and failures of
-- writes and commits, the stored total has grown by exactly what the stored baseline has, and with the
-- bytes that are pending by exactly what the counter has shown to the recorder.
pub run-IsExact :
    (t0 b0 last : Counters) (es : List Event) (s : System)
    → Rises last es
    → IsExact t0 b0 last s
    → IsExact t0 b0 (final es last) (run es s)
unfolding run
run-IsExact t0 b0 last [] s r h = h
run-IsExact t0 b0 last (e ∷ es) s r h =
    run-IsExact t0 b0 (shown e last) es (step e s) r.2 (step-IsExact t0 b0 last e s r.0 r.1 h)
