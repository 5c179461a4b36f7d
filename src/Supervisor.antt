-- ===== src/Supervisor.antt =====
-- xray_supervisor/supervisor.py: the owner of the xray child process. Every operation runs under one
-- lock, so it is one step. What the operating system and the config file answer during a step is an
-- argument of it; the child may also exit, or write to its stderr, between two steps.
pub mod Invariant
pub mod Restart
use Prim.Native.String.{◌++◌ as ◌<>◌}
use Prim.Native.String
use v2pi.Base.{
  ℕ, zero, suc, ◌-◌, String, Bool, true, false, Option, none, some, List, [], ◌∷◌, if◌then◌else◌,
}
use v2pi.Base.Int.{ℤ}

-- A child. `exit` is what `poll()` gives: none while it is alive.
pub record Proc : Type 0 where
  pub pid : ℕ
  pub exit : Option ℤ

-- What the config file held when it was read: no JSON, JSON that is no object, or an object.
pub data ConfigRead (Config : Type 0) : Type 0 where
  unreadable not_object : ConfigRead Config
  object : Config → ConfigRead Config

-- What `Popen` did.
pub data Spawn : Type 0 where
  spawned : ℕ → Spawn
  not_found : Spawn
  failed : String → Spawn

-- The exit code, if the child exits within the wait after SIGTERM, and after SIGKILL.
pub record Signals : Type 0 where
  pub on_term : Option ℤ
  pub on_kill : Option ℤ

-- A turn of the readiness loop: whether the child is found dead, and what `ready_check` says.
pub record Tick : Type 0 where
  pub died : Option ℤ
  pub ready : Bool

-- `stopped`, `error` or `working`.
pub data Mode : Type 0 where
  stopped error working : Mode

abbrev pub withheld : String
withheld =
    "xray's output is withheld: the panel could not read its config, so it cannot redact the secrets that output may quote"

abbrev pub refused : String
refused = "refusing to start xray: the config on disk still grants access that has been revoked"

pub record Supervisor (Config : Type 0) : Type 0 where
  pub proc : Option Proc
  pub want_running : Bool
  pub last_exit_code : Option ℤ
  pub stderr_tail : String
  pub redaction_config : Option Config
  pub loaded_digest : Option String

-- `__init__`
abbrev pub fresh : {Config : Type 0} → Supervisor Config
fresh = record {
  proc = none;
  want_running = false;
  last_exit_code = none;
  stderr_tail = "";
  redaction_config = none;
  loaded_digest = none;
}

-- `proc is not None and proc.poll() is None`
abbrev pub is_alive : Option Proc → Bool
is_alive none = false
is_alive (some p) = elim p.exit [ none ↦ true | some code ↦ false ]

abbrev text_length : String → ℕ
text_length String.[] = 0
text_length (String.◌∷◌ c s) = suc (text_length s)

abbrev drop_text : ℕ → String → String
drop_text zero s = s
drop_text (suc n) String.[] = String.[]
drop_text (suc n) (String.◌∷◌ c s) = drop_text n s

-- `s[-8192:]`
tail_of : String → String
tail_of s = drop_text (text_length s - 8192) s

-- What the environment answers during a `start`: the guard, if one is installed, the config file
-- and `Popen`.
pub record StartEnv (Config : Type 0) : Type 0 where
  pub guard : Option Bool
  pub config : ConfigRead Config
  pub spawn : Spawn

-- What it answers while the supervisor waits for readiness, whether or not there is a probe, and
-- how the child takes the signals in the end. The list of turns stands for the time budget.
pub record WaitEnv : Type 0 where
  pub has_check : Bool
  pub died_at_once : Option ℤ
  pub ticks : List Tick
  pub signals : Signals

module _ {Config : Type 0} (digest : Config → String) where
  -- The vocabulary and the fingerprint, from the one read that precedes the spawn.
  unfoldable pub take_config : ConfigRead Config → Supervisor Config → Supervisor Config
  take_config unreadable s = s
  take_config not_object s = s
  take_config (object c) s = record s { redaction_config = some c; loaded_digest = some (digest c) }

  unfoldable pub launch : Spawn → Supervisor Config → Supervisor Config
  launch (spawned pid) s = record s { proc = some (record { pid = pid; exit = none }) }
  launch not_found s = record s {
    proc = none;
    loaded_digest = none;
    stderr_tail = "xray executable not found";
  }
  launch (failed reason) s = record s {
    proc = none;
    loaded_digest = none;
    stderr_tail = "unable to start xray: " <> reason;
  }

  -- Nothing runs: forget the last child, ask the guard, read the config, spawn.
  unfoldable pub start_new : StartEnv Config → Supervisor Config → Supervisor Config
  unfolding take_config launch
  start_new env s =
      let clean = record s {
        proc = none;
        last_exit_code = none;
        loaded_digest = none;
        stderr_tail = "";
      } in
      elim env.guard [
        | some false ↦ record clean { stderr_tail = refused }
        | _ ↦ launch env.spawn (take_config env.config clean)
      ]

  unfoldable pub start : StartEnv Config → Supervisor Config → Supervisor Config
  unfolding start_new
  start env s =
      let wanted = record s { want_running = true } in
      if is_alive s.proc then wanted else start_new env wanted

module _ {Config : Type 0} where
  -- A chunk of the child's stderr: dropped, and said to be, where nothing could redact it.
  unfoldable pub capture_stderr : String → Supervisor Config → Supervisor Config
  unfolding tail_of
  capture_stderr chunk s = elim s.redaction_config [
    | none ↦ record s { stderr_tail = withheld }
    | some _ ↦ record s { stderr_tail = tail_of (s.stderr_tail <> chunk) }
  ]

  -- The child is gone for certain.
  unfoldable pub reaped : Option ℤ → Supervisor Config → Supervisor Config
  reaped code s = record s { proc = none; last_exit_code = code; loaded_digest = none }

  -- `_stop_child`: true if no child is left. A child that outlives both signals is kept.
  unfoldable pub stop_child : Signals → Supervisor Config → Bool × Supervisor Config
  unfolding reaped
  stop_child sig s = elim s.proc [
    | none ↦ (true, reaped s.last_exit_code s)
    | some p ↦ elim p.exit [
      | some code ↦ (true, reaped (some code) s)
      | none ↦ elim sig.on_term [
        | some code ↦ (true, reaped (some code) s)
        | none ↦ elim sig.on_kill [ some code ↦ (true, reaped (some code) s) | none ↦ (false, s) ]
      ]
    ]
  ]

  unfoldable pub stop : Signals → Supervisor Config → Bool × Supervisor Config
  unfolding stop_child
  stop sig s = stop_child sig (record s { want_running = false })

  -- `poll()` finds the child dead.
  unfoldable pub child_exits : ℤ → Supervisor Config → Supervisor Config
  child_exits code s = elim s.proc [
    | none ↦ s
    | some p ↦
        if is_alive (some p) then record s { proc = some (record p { exit = some code }) } else s
  ]

  unfoldable pub poll_ready : Signals → List Tick → Supervisor Config → Bool × Supervisor Config
  unfolding stop_child child_exits
  poll_ready sig [] s = (false, (stop_child sig s).1)
  poll_ready sig (t ∷ ticks) s = elim t.died [
    | some code ↦ (false, record (child_exits code s) { last_exit_code = some code })
    | none ↦ elim t.ready [ true ↦ (true, s) | false ↦ poll_ready sig ticks s ]
  ]

  -- `_wait_ready`, right after a start.
  unfoldable pub wait_ready : WaitEnv → Supervisor Config → Bool × Supervisor Config
  unfolding poll_ready
  wait_ready env s = elim s.proc [
    | none ↦ (false, s)
    | some _ ↦
        if env.has_check
        then poll_ready env.signals env.ticks s
        else (elim env.died_at_once [ none ↦ (true, s) | some code ↦ (false, child_exits code s) ])
  ]

  -- `status()["running"]`; it also notes the exit code of a child that it finds dead.
  unfoldable pub status : Supervisor Config → Bool × Supervisor Config
  status s = elim s.proc [
    | none ↦ (false, s)
    | some p ↦ elim p.exit [
      | none ↦ (true, s)
      | some code ↦ (false, record s { last_exit_code = some code })
    ]
  ]

  unfoldable pub state : Supervisor Config → Mode
  state s = if is_alive s.proc then working else if s.want_running then error else stopped

module _ {Config : Type 0} (digest : Config → String) where
  -- `reload`: nothing is started unless the old child is gone.
  unfoldable pub reload :
      Signals → StartEnv Config → WaitEnv → Supervisor Config → Bool × Supervisor Config
  unfolding stop start wait_ready
  reload sig senv wenv s =
      let (down, s₁) = stop sig s in
      if down then wait_ready wenv (start digest senv s₁) else (false, s₁)

  -- `none` is "it was not running, and nothing was done".
  unfoldable pub reload_if_running :
      Signals → StartEnv Config → WaitEnv → Supervisor Config → Option Bool × Supervisor Config
  unfolding reload
  reload_if_running sig senv wenv s =
      if is_alive s.proc
      then (let (up, s₁) = reload sig senv wenv s in (some up, s₁))
      else (none, s)
