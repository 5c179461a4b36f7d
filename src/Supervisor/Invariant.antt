-- ===== src/Supervisor/Invariant.antt =====
-- xray_supervisor/supervisor.py: what holds of the supervisor after any sequence of steps.
use Prim.Native.String.{◌++◌ as ◌<>◌}
use v2pi.Base.{
  String, ◌≡◌, refl, arith, Bool, true, false, Option, none, some, List, [], ◌∷◌, ◌⊎◌, Bool-cases,
  inl, inr,
}
use v2pi.Base.Int.{ℤ}
use v2pi.Supervisor.{
  Proc, ConfigRead, unreadable, not_object, object, Spawn, spawned, not_found, failed, Signals,
  Tick, Supervisor, fresh, is_alive, withheld, refused, StartEnv, WaitEnv, take_config, launch,
  start_new, start, capture_stderr, reaped, stop_child, stop, child_exits, poll_ready, wait_ready,
  status, reload, reload_if_running,
}

-- The texts that the panel itself puts in the place of the child's stderr.
pub data IsPanelText (t : String) : Type 0 where
  nothing : t ≡ "" → IsPanelText t
  hidden : t ≡ withheld → IsPanelText t
  refusal : t ≡ refused → IsPanelText t
  missing : t ≡ "xray executable not found" → IsPanelText t
  broken : (reason : String) → t ≡ "unable to start xray: " <> reason → IsPanelText t

-- No config is said to be loaded where there is no child or no config was ever read, and no output
-- of a child is held while there is nothing to redact it with.
pub record IsSound {Config : Type 0} (s : Supervisor Config) : Type 0 where
  pub unloaded : s.proc ≡ none → s.loaded_digest ≡ none
  pub unread : s.redaction_config ≡ none → s.loaded_digest ≡ none
  pub redacted : s.redaction_config ≡ none → IsPanelText s.stderr_tail

module _ {Config : Type 0} where
  fresh-IsSound : IsSound {Config = Config} fresh
  fresh-IsSound = record {
    unloaded = λ e. refl;
    unread = λ e. refl;
    redacted = λ e. IsPanelText.nothing refl;
  }

  wanting : {s : Supervisor Config} (b : Bool) → IsSound s → IsSound (record s { want_running = b })
  wanting b h = record { unloaded = h.unloaded; unread = h.unread; redacted = h.redacted }

  noting :
      {s : Supervisor Config} (e : Option ℤ) → IsSound s → IsSound (record s { last_exit_code = e })
  noting e h = record { unloaded = h.unloaded; unread = h.unread; redacted = h.redacted }

  reaped-IsSound : {s : Supervisor Config} (e : Option ℤ) → IsSound s → IsSound (reaped e s)
  unfolding reaped
  reaped-IsSound e h = record { unloaded = λ _. refl; unread = λ _. refl; redacted = h.redacted }

  -- `_stop_child` either leaves all as it is, with the child alive, or reaps.
  pub stop_child_cases :
      (sig : Signals) (s : Supervisor Config)
      → ((stop_child sig s ≡ (false, s)) × (is_alive s.proc ≡ true))
        ⊎ ((code : Option ℤ) × (stop_child sig s ≡ (true, reaped code s)))
  unfolding stop_child
  stop_child_cases sig s = at_proc s.proc refl
    where
      kill :
          (p : Proc)
          → s.proc ≡ some p
          → p.exit ≡ none
          → sig.on_term ≡ none
          → (k : Option ℤ) → sig.on_kill ≡ k
          → ((stop_child sig s ≡ (false, s)) × (is_alive s.proc ≡ true))
            ⊎ ((code : Option ℤ) × (stop_child sig s ≡ (true, reaped code s)))
      kill p e x t none k = inl (ground arith, ground arith)
      kill p e x t (some code) k = inr (some code, rw (e, x, t, k, stop_child))

      term :
          (p : Proc)
          → s.proc ≡ some p
          → p.exit ≡ none
          → (k : Option ℤ) → sig.on_term ≡ k
          → ((stop_child sig s ≡ (false, s)) × (is_alive s.proc ≡ true))
            ⊎ ((code : Option ℤ) × (stop_child sig s ≡ (true, reaped code s)))
      term p e x none t = kill p e x t sig.on_kill refl
      term p e x (some code) t = inr (some code, rw (e, x, t, stop_child))

      at_exit :
          (p : Proc)
          → s.proc ≡ some p
          → (x : Option ℤ) → p.exit ≡ x
          → ((stop_child sig s ≡ (false, s)) × (is_alive s.proc ≡ true))
            ⊎ ((code : Option ℤ) × (stop_child sig s ≡ (true, reaped code s)))
      at_exit p e none x = term p e x sig.on_term refl
      at_exit p e (some code) x = inr (some code, rw (e, x, stop_child))

      at_proc :
          (o : Option Proc)
          → s.proc ≡ o
          → ((stop_child sig s ≡ (false, s)) × (is_alive s.proc ≡ true))
            ⊎ ((code : Option ℤ) × (stop_child sig s ≡ (true, reaped code s)))
      at_proc none e = inr (s.last_exit_code, rw (e, stop_child))
      at_proc (some p) e = at_exit p e p.exit refl

  stop_child-IsSound :
      (sig : Signals) (s : Supervisor Config) → IsSound s → IsSound (stop_child sig s).1
  stop_child-IsSound sig s h = elim (stop_child_cases sig s) [
    | inl kept ↦ rw kept.0 h
    | inr gone ↦ rw gone.1 (reaped-IsSound gone.0 h)
  ]

  stop-IsSound : (sig : Signals) (s : Supervisor Config) → IsSound s → IsSound (stop sig s).1
  unfolding stop
  stop-IsSound sig s h = stop_child-IsSound sig _ (wanting false h)

  capture_stderr-IsSound :
      (chunk : String) (s : Supervisor Config) → IsSound s → IsSound (capture_stderr chunk s)
  unfolding capture_stderr
  capture_stderr-IsSound chunk s h = at_config s.redaction_config refl
    where
      at_config : (o : Option Config) → s.redaction_config ≡ o → IsSound (capture_stderr chunk s)
      at_config none e =
          rw (e, capture_stderr)
            (record {
              unloaded = h.unloaded;
              unread = h.unread;
              redacted = λ _. IsPanelText.hidden refl;
            })
      at_config (some c) e =
          rw (e, capture_stderr)
            (record { unloaded = h.unloaded; unread = h.unread; redacted = λ q. cc })

  child_exits-IsSound :
      (code : ℤ) (s : Supervisor Config) → IsSound s → IsSound (child_exits code s)
  unfolding child_exits
  child_exits-IsSound code s h = at_proc s.proc refl
    where
      at_alive :
          (p : Proc)
          → s.proc ≡ some p
          → (b : Bool) → is_alive (some p) ≡ b
          → IsSound (child_exits code s)
      at_alive p e true a =
          rw (e, a, child_exits)
            (record { unloaded = λ q. cc; unread = h.unread; redacted = h.redacted })
      at_alive p e false a = rw (e, a, child_exits) h

      at_proc : (o : Option Proc) → s.proc ≡ o → IsSound (child_exits code s)
      at_proc none e = rw (e, child_exits) h
      at_proc (some p) e = at_alive p e (is_alive (some p)) refl

  status-IsSound : (s : Supervisor Config) → IsSound s → IsSound (status s).1
  unfolding status
  status-IsSound s h = at_proc s.proc refl
    where
      at_exit : (p : Proc) → s.proc ≡ some p → (x : Option ℤ) → p.exit ≡ x → IsSound (status s).1
      at_exit p e none x = rw (e, x, status) h
      at_exit p e (some code) x = rw (e, x, status) (noting (some code) h)

      at_proc : (o : Option Proc) → s.proc ≡ o → IsSound (status s).1
      at_proc none e = rw (e, status) h
      at_proc (some p) e = at_exit p e p.exit refl

  poll_ready-IsSound :
      (sig : Signals) (ticks : List Tick) (s : Supervisor Config)
      → IsSound s
      → IsSound (poll_ready sig ticks s).1
  unfolding poll_ready
  poll_ready-IsSound sig [] s h = stop_child-IsSound sig s h
  poll_ready-IsSound sig (t ∷ ticks) s h = at_exit (poll_ready-IsSound sig ticks s h) t.died refl
    where
      at_ready :
          IsSound (poll_ready sig ticks s).1
          → t.died ≡ none
          → (b : Bool) → t.ready ≡ b
          → IsSound (poll_ready sig (t ∷ ticks) s).1
      at_ready ih e true r = rw (e, r, poll_ready) h
      at_ready ih e false r = rw (e, r, poll_ready) ih

      at_exit :
          IsSound (poll_ready sig ticks s).1
          → (x : Option ℤ) → t.died ≡ x
          → IsSound (poll_ready sig (t ∷ ticks) s).1
      at_exit ih none e = at_ready ih e t.ready refl
      at_exit ih (some code) e =
          rw (e, poll_ready) (noting (some code) (child_exits-IsSound code s h))

  wait_ready-IsSound :
      (env : WaitEnv) (s : Supervisor Config) → IsSound s → IsSound (wait_ready env s).1
  unfolding wait_ready
  wait_ready-IsSound env s h = at_proc s.proc refl
    where
      at_once :
          (p : Proc)
          → s.proc ≡ some p
          → env.has_check ≡ false
          → (x : Option ℤ) → env.died_at_once ≡ x
          → IsSound (wait_ready env s).1
      at_once p e c none x = rw (e, c, x, wait_ready) h
      at_once p e c (some code) x = rw (e, c, x, wait_ready) (child_exits-IsSound code s h)

      at_check :
          (p : Proc)
          → s.proc ≡ some p
          → (b : Bool) → env.has_check ≡ b
          → IsSound (wait_ready env s).1
      at_check p e true c = rw (e, c, wait_ready) (poll_ready-IsSound env.signals env.ticks s h)
      at_check p e false c = at_once p e c env.died_at_once refl

      at_proc : (o : Option Proc) → s.proc ≡ o → IsSound (wait_ready env s).1
      at_proc none e = rw (e, wait_ready) h
      at_proc (some p) e = at_check p e env.has_check refl

module _ {Config : Type 0} (digest : Config → String) where
  -- What holds between the reset of the old child and the spawn.
  record IsCleared (s : Supervisor Config) : Type 0 where
    unread : s.redaction_config ≡ none → s.loaded_digest ≡ none
    empty : s.stderr_tail ≡ ""

  take_config-IsCleared :
      (r : ConfigRead Config) (s : Supervisor Config)
      → IsCleared s
      → IsCleared (take_config digest r s)
  unfolding take_config
  take_config-IsCleared unreadable s h = h
  take_config-IsCleared not_object s h = h
  take_config-IsCleared (object c) s h = record { unread = λ q. cc; empty = h.empty }

  launch-IsSound : (sp : Spawn) (s : Supervisor Config) → IsCleared s → IsSound (launch digest sp s)
  unfolding launch
  launch-IsSound (spawned pid) s h = record {
    unloaded = λ q. cc;
    unread = h.unread;
    redacted = λ q. IsPanelText.nothing h.empty;
  }
  launch-IsSound not_found s h = record {
    unloaded = λ q. refl;
    unread = λ q. refl;
    redacted = λ q. IsPanelText.missing refl;
  }
  launch-IsSound (failed reason) s h = record {
    unloaded = λ q. refl;
    unread = λ q. refl;
    redacted = λ q. IsPanelText.broken reason refl;
  }

  start_new-IsSound :
      (env : StartEnv Config) (s : Supervisor Config) → IsSound (start_new digest env s)
  unfolding start_new
  start_new-IsSound env s = at_guard env.guard refl
    where
      go : IsSound (
          launch digest env.spawn (
            take_config digest env.config (record s {
              proc = none;
              last_exit_code = none;
              loaded_digest = none;
              stderr_tail = "";
            })))
      go =
          launch-IsSound env.spawn _
            (take_config-IsCleared env.config _ (record { unread = λ q. refl; empty = refl }))

      at_guard : (g : Option Bool) → env.guard ≡ g → IsSound (start_new digest env s)
      at_guard none e = rw (e, start_new) go
      at_guard (some true) e = rw (e, start_new) go
      at_guard (some false) e =
          rw (e, start_new)
            (record {
              unloaded = λ q. refl;
              unread = λ q. refl;
              redacted = λ q. IsPanelText.refusal refl;
            })

  start-IsSound :
      (env : StartEnv Config) (s : Supervisor Config) → IsSound s → IsSound (start digest env s)
  unfolding start
  start-IsSound env s h = elim (Bool-cases (is_alive s.proc)) [
    | inl up ↦ rw (up, start) (wanting true h)
    | inr down ↦ rw (down, start) (start_new-IsSound env (record s { want_running = true }))
  ]

  reload-IsSound :
      (sig : Signals) (senv : StartEnv Config) (wenv : WaitEnv) (s : Supervisor Config)
      → IsSound s
      → IsSound (reload digest sig senv wenv s).1
  unfolding reload
  reload-IsSound sig senv wenv s h = elim (Bool-cases (stop sig s).0) [
    | inl down ↦
        rw (down, reload) (wait_ready-IsSound wenv _ (start-IsSound senv _ (stop-IsSound sig s h)))
    | inr up ↦ rw (up, reload) (stop-IsSound sig s h)
  ]

  reload_if_running-IsSound :
      (sig : Signals) (senv : StartEnv Config) (wenv : WaitEnv) (s : Supervisor Config)
      → IsSound s
      → IsSound (reload_if_running digest sig senv wenv s).1
  unfolding reload_if_running
  reload_if_running-IsSound sig senv wenv s h = elim (Bool-cases (is_alive s.proc)) [
    | inl up ↦ rw (up, reload_if_running) (reload-IsSound sig senv wenv s h)
    | inr down ↦ rw (down, reload_if_running) h
  ]

  -- One step of the supervisor, of its callers' choice, or of its child's.
  pub data Step : Supervisor Config → Supervisor Config → Type 0 where
    started : (env : StartEnv Config) (s : Supervisor Config) → Step s (start digest env s)
    halted : (sig : Signals) (s : Supervisor Config) → Step s (stop sig s).1
    reloaded :
        (sig : Signals) (senv : StartEnv Config) (wenv : WaitEnv) (s : Supervisor Config)
        → Step s (reload digest sig senv wenv s).1
    reloaded_if_running :
        (sig : Signals) (senv : StartEnv Config) (wenv : WaitEnv) (s : Supervisor Config)
        → Step s (reload_if_running digest sig senv wenv s).1
    asked : (s : Supervisor Config) → Step s (status s).1
    wrote : (chunk : String) (s : Supervisor Config) → Step s (capture_stderr chunk s)
    exited : (code : ℤ) (s : Supervisor Config) → Step s (child_exits code s)

  pub data Reach : Supervisor Config → Type 0 where
    made : Reach fresh
    step : {s t : Supervisor Config} → Reach s → Step s t → Reach t

  Step-IsSound : {s t : Supervisor Config} → Step s t → IsSound s → IsSound t
  Step-IsSound (started env s) h = start-IsSound env s h
  Step-IsSound (halted sig s) h = stop-IsSound sig s h
  Step-IsSound (reloaded sig senv wenv s) h = reload-IsSound sig senv wenv s h
  Step-IsSound (reloaded_if_running sig senv wenv s) h = reload_if_running-IsSound sig senv wenv s h
  Step-IsSound (asked s) h = status-IsSound s h
  Step-IsSound (wrote chunk s) h = capture_stderr-IsSound chunk s h
  Step-IsSound (exited code s) h = child_exits-IsSound code s h

  -- After any sequence of steps the supervisor is sound: no digest without a child and without a
  -- config that was read, and no output of a child while there is no config to redact it with.
  pub Reach-IsSound : {s : Supervisor Config} → Reach s → IsSound s
  Reach-IsSound made = fresh-IsSound
  Reach-IsSound (step r st) = Step-IsSound st (Reach-IsSound r)
