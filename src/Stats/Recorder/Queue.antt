-- ===== src/Stats/Recorder/Queue.antt =====
-- stats/history.py: the minutes of traffic on their way to the store.
use mathlib.Core.List.{append_assoc, append-nil}
use v2pi.Base.{
  ℕ, zero, suc, ◌+◌, ◌/◌, ◌≤◌, ◌<◌, ◌≡◌, refl, arith, ap, sym, subst, ◌∙◌, Bool, true, false, not,
  ◌&&◌, leb, Option, none, some, List, [], ◌∷◌, ◌++◌, if◌then◌else◌, length, length-append,
  Bool-cases, Option-cases, inl, inr,
}
use v2pi.Stats.{Counters, add_counters}
use v2pi.Stats.Recorder.{
  Bucket, Hooks, Recorder, FlushEnv, System, has_bytes, delta, max_pending_minutes, make_room,
  queue_minute, roll_over, add_to_minute, accumulate_minute, note_counters, write_out, close_minute,
  flush_minute, flush_total, accumulate_total,
}

make_room-lt : (bs : List Bucket) → length (make_room bs) + 1 ≤ max_pending_minutes
unfolding make_room
make_room-lt [] = omega arith
make_room-lt (b ∷ bs) = ground (arith, make_room-lt bs)

make_room-eq : (bs : List Bucket) → length bs < max_pending_minutes → make_room bs ≡ bs
unfolding make_room
make_room-eq [] h = refl
make_room-eq (b ∷ bs) h = ground arith

abbrev pub IsBounded : Recorder → Type 0
IsBounded r = length r.pending_minutes ≤ max_pending_minutes

queue_minute-IsBounded : (b : Bucket) (r : Recorder) → IsBounded (queue_minute b r)
unfolding queue_minute
queue_minute-IsBounded b r =
    omega
      (arith, length-append (make_room r.pending_minutes) (b ∷ []), make_room-lt r.pending_minutes)

roll_over-IsBounded : (cur : ℕ) (r : Recorder) → IsBounded r → IsBounded (roll_over cur r)
unfolding roll_over
roll_over-IsBounded cur r h = elim (Option-cases r.minute) [
  | inl e ↦ rw (e, roll_over) (ground arith)
  | inr (b, e) ↦ rw (e, roll_over) (ground (arith, queue_minute-IsBounded b r))
]

accumulate_minute-IsBounded :
    (hooks : Hooks) (d : Counters) (now : ℕ) (r : Recorder)
    → IsBounded r
    → IsBounded (accumulate_minute hooks d now r)
unfolding accumulate_minute add_to_minute
accumulate_minute-IsBounded hooks d now r h =
    let k = roll_over-IsBounded (now / 60000) r h in
    elim (Option-cases (roll_over (now / 60000) r).minute) [
      | inl e ↦ ground (arith, e)
      | inr (b, e) ↦ ground (arith, e)
    ]

note_counters-IsBounded :
    (hooks : Hooks) (now : ℕ) (tot : Counters) (r : Recorder)
    → IsBounded r
    → IsBounded (note_counters hooks now tot r)
unfolding note_counters
note_counters-IsBounded hooks now tot r h = elim (Option-cases r.prev_abs) [
  | inl e ↦ rw (e, note_counters) h
  | inr (p, e) ↦
      let d : Counters = record { up = delta p.up tot.up; down = delta p.down tot.down } in
      let r' : Recorder = record r {
        prev_abs = some tot;
        pending = if hooks.on_total then add_counters r.pending d else r.pending;
      } in
      let k = accumulate_minute-IsBounded hooks d now r' h in
      rw (e, note_counters) (either r.recovered _ _ h k)
]
  where
    either :
        (b : Bool) (x y : Recorder) → IsBounded x → IsBounded y → IsBounded (if b then x else y)
    either true x y p q = p
    either false x y p q = q

-- The buckets that the end of a minute adds to the queue.
abbrev pub closing : Option Bucket → List Bucket
closing none = []
closing (some b) = if has_bytes b.bytes then b ∷ [] else []

close_minute-queue :
    (c : Bool) (r : Recorder)
    → length r.pending_minutes < max_pending_minutes
    → (close_minute c r).pending_minutes ≡ r.pending_minutes ++ (if c then closing r.minute else [])
unfolding close_minute queue_minute
close_minute-queue false r h = sym (append-nil r.pending_minutes)
close_minute-queue true r h = elim (Option-cases r.minute) [
  | inl e ↦ rw (e, close_minute) (sym (append-nil r.pending_minutes))
  | inr (b, e) ↦ elim (Bool-cases (has_bytes b.bytes)) [
    | inl q ↦ rw (e, close_minute) (rw q (ap (λ t. t ++ b ∷ []) (make_room-eq r.pending_minutes h)))
    | inr q ↦ rw (e, close_minute) (rw q (sym (append-nil r.pending_minutes)))
  ]
]

write_out-append : (n : ℕ) (bs : List Bucket) → (write_out n bs).0 ++ (write_out n bs).1 ≡ bs
unfolding write_out
write_out-append n [] = refl
write_out-append zero (b ∷ bs) = refl
write_out-append (suc n) (b ∷ bs) = ap (λ t. b ∷ t) (write_out-append n bs)

write_out-length : (n : ℕ) (bs : List Bucket) → length (write_out n bs).1 ≤ length bs
unfolding write_out
write_out-length n [] = omega arith
write_out-length zero (b ∷ bs) = omega arith
write_out-length (suc n) (b ∷ bs) = omega (arith, write_out-length n bs)

close_minute-IsBounded : (c : Bool) (r : Recorder) → IsBounded r → IsBounded (close_minute c r)
unfolding close_minute
close_minute-IsBounded c r h = elim (Option-cases r.minute) [
  | inl e ↦ rw (e, close_minute) (ground arith)
  | inr (b, e) ↦ rw (e, close_minute) (ground (arith, queue_minute-IsBounded b r))
]

flush_minute-IsBounded :
    (hooks : Hooks) (c : Bool) (env : FlushEnv) (s : System)
    → IsBounded s.recorder
    → IsBounded (flush_minute hooks c env s).1.recorder
unfolding flush_minute
flush_minute-IsBounded hooks c env s h = ground (
  arith,
  close_minute-IsBounded c s.recorder h,
  write_out-length env.minutes_ok (close_minute c s.recorder).pending_minutes,
)

flush_total-queue :
    (hooks : Hooks) (env : FlushEnv) (s : System)
    → (flush_total hooks env s).1.recorder.pending_minutes ≡ s.recorder.pending_minutes
unfolding flush_total
flush_total-queue hooks env s = ground arith

-- The queue never holds more than 1440 minutes, whatever the samples are and however many writes fail.
pub accumulate_total-IsBounded :
    (hooks : Hooks) (env : FlushEnv) (tot : Option Counters) (flush_interval now : ℕ) (s : System)
    → IsBounded s.recorder
    → IsBounded (accumulate_total hooks env tot flush_interval now s).recorder
unfolding accumulate_total
accumulate_total-IsBounded hooks env none flush_interval now s h = h
accumulate_total-IsBounded hooks env (some tot) flush_interval now s h =
    let r = note_counters hooks now tot s.recorder in
    let k = note_counters-IsBounded hooks now tot s.recorder h in
    let s₁ : System = record s { recorder = r } in
    let q = flush_total-queue hooks env s₁ in
    let f : IsBounded (flush_total hooks env s₁).1.recorder =
      subst (λ t. length t ≤ max_pending_minutes) (sym q) k in
    let due = has_bytes r.pending && leb (r.last_flush + flush_interval) now in
    let s₂ : System = if due then (flush_total hooks env s₁).1 else s₁ in
    let k₂ : IsBounded s₂.recorder = either due _ _ f k in
    let m = flush_minute-IsBounded hooks false env s₂ k₂ in
    either (not hooks.on_total && not hooks.on_minute) _ _ h m
  where
    either :
        (b : Bool) (x y : System)
        → IsBounded x.recorder
        → IsBounded y.recorder
        → IsBounded (if b then x else y).recorder
    either true x y p q = p
    either false x y p q = q

-- A flush of the minutes, however many of its writes succeed, hands them on in order, each once:
-- what has been written and what is still queued make up what there was, and with the present minute
-- taken in it stands behind them, unless it is empty. The queue has room for it.
pub flush_minute-order :
    (hooks : Hooks) (c : Bool) (env : FlushEnv) (s : System)
    → hooks.on_minute ≡ true
    → length s.recorder.pending_minutes < max_pending_minutes
    → let s' = (flush_minute hooks c env s).1 in
      s'.store.minutes ++ s'.recorder.pending_minutes
      ≡ s.store.minutes
        ++ (s.recorder.pending_minutes ++ (if c then closing s.recorder.minute else []))
unfolding flush_minute
flush_minute-order hooks c env s m h =
    let r = close_minute c s.recorder in
    let w = write_out env.minutes_ok r.pending_minutes in
    rw m (
      append_assoc s.store.minutes w.0 w.1
      ∙ ap (λ t. s.store.minutes ++ t)
          (write_out-append env.minutes_ok r.pending_minutes ∙ close_minute-queue c s.recorder h))
