-- ===== src/Supervisor/Restart.antt =====
-- xray_supervisor/supervisor.py: what the callers of `start`, `stop`, `reload` and
-- `reload_if_running` may conclude from the answers.
use v2pi.Base.{
  ℕ, String, ◌≡◌, ◌≢◌, ◌↔◌, refl, arith, Bool, true, false, ◌⊎◌, Option, none, some, List, [], ◌∷◌,
  Bool-cases, inl, inr,
}
use v2pi.Base.Int.{ℤ}
use v2pi.Supervisor.{
  ConfigRead, unreadable, not_object, object, Spawn, spawned, not_found, failed, Signals, Tick,
  Supervisor, stopped, error, is_alive, refused, StartEnv, WaitEnv, start, reaped, stop_child, stop,
  child_exits, poll_ready, wait_ready, state, reload, reload_if_running,
}
use v2pi.Supervisor.Invariant.{stop_child_cases}

module _ {Config : Type 0} where
  -- A stop that is confirmed leaves no child and no digest; one that is not leaves the child alive
  -- and the digest of what it serves. Either way the child is no longer wanted.
  pub stop_lem :
      (sig : Signals) (s : Supervisor Config)
      → ((stop sig s).1.want_running ≡ false)
        × ((stop sig s).0 ≡ true
            → ((stop sig s).1.proc ≡ none) × ((stop sig s).1.loaded_digest ≡ none))
        × ((stop sig s).0 ≡ false
            → (is_alive s.proc ≡ true) × ((stop sig s).1 ≡ record s { want_running = false }))
  unfolding stop
  stop_lem sig s = elim (stop_child_cases sig (record s { want_running = false })) [
    | inl kept ↦ rw kept.0 (refl, λ q. cc, λ q. (kept.1, refl))
    | inr gone ↦ rw gone.1 (unfold reaped in (refl, λ q. (refl, refl), λ q. cc))
  ]

  -- `error` is "wanted and not alive", and `stopped` is "not wanted and not alive".
  pub state_lem :
      (s : Supervisor Config)
      → ((state s ≡ error) ↔ ((is_alive s.proc ≡ false) × (s.want_running ≡ true)))
        × ((state s ≡ stopped) ↔ ((is_alive s.proc ≡ false) × (s.want_running ≡ false)))
  unfolding state
  state_lem s = ground arith

  stop_child-killed :
      (sig : Signals) (s : Supervisor Config)
      → sig.on_kill ≢ none
      → is_alive (stop_child sig s).1.proc ≡ false
  unfolding stop_child
  stop_child-killed sig s k = ground arith

  child_exits-dead : (code : ℤ) (s : Supervisor Config) → is_alive (child_exits code s).proc ≡ false
  unfolding child_exits
  child_exits-dead code s = ground arith

  poll_ready-true :
      (sig : Signals) (ticks : List Tick) (s : Supervisor Config)
      → (poll_ready sig ticks s).0 ≡ true
      → (poll_ready sig ticks s).1 ≡ s
  unfolding poll_ready
  poll_ready-true sig [] s h = cc
  poll_ready-true sig (t ∷ ticks) s h = ground (arith, poll_ready-true sig ticks s)

  poll_ready-false :
      (sig : Signals) (ticks : List Tick) (s : Supervisor Config)
      → sig.on_kill ≢ none
      → (poll_ready sig ticks s).0 ≡ false
      → is_alive (poll_ready sig ticks s).1.proc ≡ false
  poll_ready-false sig [] s k h = unfold poll_ready in stop_child-killed sig s k
  poll_ready-false sig (t ∷ ticks) s k h = at_exit (poll_ready-false sig ticks s k) t.died refl
    where
      at_exit :
          ((poll_ready sig ticks s).0 ≡ false → is_alive (poll_ready sig ticks s).1.proc ≡ false)
          → (x : Option ℤ) → t.died ≡ x
          → is_alive (poll_ready sig (t ∷ ticks) s).1.proc ≡ false
      at_exit ih none e = unfold poll_ready in ground (arith, ih)
      at_exit ih (some code) e = unfold poll_ready in rw (e, poll_ready) (child_exits-dead code s)

  wait_ready-true :
      (env : WaitEnv) (s : Supervisor Config)
      → (wait_ready env s).0 ≡ true
      → ((wait_ready env s).1 ≡ s) × (s.proc ≢ none)
  unfolding wait_ready
  wait_ready-true env s h = ground (arith, poll_ready-true env.signals env.ticks s)

  wait_ready-false :
      (env : WaitEnv) (s : Supervisor Config)
      → env.signals.on_kill ≢ none
      → (wait_ready env s).0 ≡ false
      → is_alive (wait_ready env s).1.proc ≡ false
  unfolding wait_ready
  wait_ready-false env s k h =
      grind (arith, poll_ready-false env.signals env.ticks s, child_exits-dead)

module _ {Config : Type 0} (digest : Config → String) where
  -- A start beside a living child only notes that it is wanted.
  pub start_alive :
      (env : StartEnv Config) (s : Supervisor Config)
      → is_alive s.proc ≡ true
      → start digest env s ≡ record s { want_running = true }
  unfolding start
  start_alive env s up = rw up

  -- A start that the guard refuses spawns nothing and reads no config; the state is then `error`, and
  -- the reason is in the tail.
  pub start-refused :
      (env : StartEnv Config) (s : Supervisor Config)
      → is_alive s.proc ≡ false
      → env.guard ≡ some false
      → ((start digest env s).proc ≡ none)
        × (state (start digest env s) ≡ error)
        × ((start digest env s).stderr_tail ≡ refused)
        × ((start digest env s).redaction_config ≡ s.redaction_config)
  unfolding start state
  start-refused env s down g = rw (down, g, start) (refl, refl, refl, refl)

  -- The fingerprint that a start leaves: of the object that it read, and of nothing else.
  abbrev pub digest_read : ConfigRead Config → Option String
  digest_read unreadable = none
  digest_read not_object = none
  digest_read (object c) = some (digest c)

  -- What a start that has brought up a child has done.
  pub record IsServing (env : StartEnv Config) (s : Supervisor Config) : Type 0 where
    pub pid : ℕ
    pub forked : env.spawn ≡ spawned pid
    pub child : s.proc ≡ some (record { pid = pid; exit = none })
    pub allowed : env.guard ≢ some false
    pub loaded : s.loaded_digest ≡ digest_read env.config
    pub wanted : s.want_running ≡ true

  start-IsServing :
      (env : StartEnv Config) (s : Supervisor Config)
      → s.proc ≡ none
      → (start digest env s).proc ≢ none
      → IsServing env (start digest env s)
  unfolding start
  start-IsServing env s e up = at_spawn env.guard refl env.config refl env.spawn refl
    where
      at_spawn :
          (g : Option Bool)
          → env.guard ≡ g
          → (c : ConfigRead Config) → env.config ≡ c
          → (sp : Spawn) → env.spawn ≡ sp
          → IsServing env (start digest env s)
      at_spawn (some false) eg c ec sp es = absurd (up (ground arith))
      at_spawn g eg c ec not_found es = absurd (up (ground arith))
      at_spawn g eg c ec (failed reason) es = absurd (up (ground arith))
      at_spawn g eg c ec (spawned pid) es = record {
        pid = pid;
        forked = es;
        child = ground arith;
        allowed = λ q. cc;
        loaded = ground arith;
        wanted = ground arith;
      }

  -- A reload that answers true has replaced the child by one that it spawned after the guard had not
  -- refused; it is alive, and the digest is that of the config which was read for it.
  pub reload-true :
      (sig : Signals) (senv : StartEnv Config) (wenv : WaitEnv) (s : Supervisor Config)
      → (reload digest sig senv wenv s).0 ≡ true
      → IsServing senv (reload digest sig senv wenv s).1
  unfolding reload
  reload-true sig senv wenv s h = elim (Bool-cases (stop sig s).0) [
    | inl down ↦
        let s₁ = start digest senv (stop sig s).1 in
        let (same, up) = wait_ready-true wenv s₁ (rw (down, reload) at h) in
        rw (down, reload)
          (rw same (start-IsServing senv (stop sig s).1 ((stop_lem sig s).1 down).0 up))
    | inr up ↦ cc (rw (up, reload) at h)
  ]

  -- A reload that answers false has either not been able to stop the old child, which it leaves
  -- alive, with its digest, and starts none beside it; or it leaves no living child, if SIGKILL
  -- works on the new one.
  pub reload-false :
      (sig : Signals) (senv : StartEnv Config) (wenv : WaitEnv) (s : Supervisor Config)
      → (reload digest sig senv wenv s).0 ≡ false
      → ((is_alive s.proc ≡ true)
          × ((reload digest sig senv wenv s).1 ≡ record s { want_running = false }))
        ⊎ (wenv.signals.on_kill ≢ none → is_alive (reload digest sig senv wenv s).1.proc ≡ false)
  unfolding reload
  reload-false sig senv wenv s h = elim (Bool-cases (stop sig s).0) [
    | inl down ↦ inr λ k.
        rw (down, reload)
          (wait_ready-false wenv (start digest senv (stop sig s).1) k (rw (down, reload) at h))
    | inr up ↦ let (alive, kept) = (stop_lem sig s).2 up in inl (alive, rw (up, reload) kept)
  ]

  -- `reload_if_running` answers none exactly when no child is alive, and then does nothing.
  pub reload_if_running-none :
      (sig : Signals) (senv : StartEnv Config) (wenv : WaitEnv) (s : Supervisor Config)
      → (((reload_if_running digest sig senv wenv s).0 ≡ none) ↔ (is_alive s.proc ≡ false))
        × ((reload_if_running digest sig senv wenv s).0 ≡ none
            → (reload_if_running digest sig senv wenv s).1 ≡ s)
  unfolding reload_if_running
  reload_if_running-none sig senv wenv s = ground arith
