-- ===== src/Dnsmasq.antt =====
-- net_control/dnsmasq_supervisor.py, `DnsmasqSupervisor`: the child that serves DHCP and router
-- advertisements. Every operation runs under its lock, as one step.
pub mod Sound
use v2pi.Base.{
  ℕ, Bool, true, false, not, ◌&&◌, ◌||◌, String, str_eq, Option, none, some, List, [], ◌∷◌,
  if◌then◌else◌, is_some,
}

-- A child, and the text that its config had when it was started; none where there was no file.
pub record Child : Type 0 where
  pub pid : ℕ
  pub alive : Bool
  pub serves : Option String

-- `conf` is the file at `conf_path`, and `lost` are the children that live on without a handle.
pub record Dnsmasq : Type 0 where
  pub proc : Option Child
  pub last_text : Option String
  pub conf : Option String
  pub lost : List Child

-- `__init__`, on the file that is there.
unfoldable pub fresh : Option String → Dnsmasq
fresh conf = record { proc = none; last_text = none; conf = conf; lost = [] }

-- `_running`
pub running : Dnsmasq → Bool
running s = elim s.proc [ none ↦ false | some c ↦ c.alive ]

-- What becomes of the start of the candidate: `popen` raises, the child exits while the code sleeps, it
-- lives on, or the sleep is interrupted by an exception.
pub data Launch : Type 0 where
  not_started : Launch
  exited : ℕ → Launch
  lives : ℕ → Launch
  interrupted : ℕ → Launch

-- What the system answers in the course of one `apply`; `stops` and `stops_again` say whether a child
-- that lives can be stopped.
pub record Env : Type 0 where
  pub written : Bool
  pub tested : Bool
  pub stops : Bool
  pub replaced : Bool
  pub launch : Launch
  pub stops_again : Bool
  pub restored : Bool
  pub respawned : Option ℕ

text_eq : Option String → String → Bool
text_eq none t = false
text_eq (some s) t = str_eq s t

-- `stop`: false where it raises, with the handle kept.
unfoldable pub stop : Bool → Dnsmasq → Bool × Dnsmasq
unfolding running
stop stops s = if running s && not stops then (false, s) else (true, record s { proc = none })

-- A handle that is overwritten is lost if its child lives.
dropped : Option Child → List Child → List Child
dropped none lost = lost
dropped (some c) lost = if c.alive then c ∷ lost else lost

-- `_spawn`, where `popen` succeeds.
spawn : ℕ → Dnsmasq → Dnsmasq
unfolding dropped
spawn pid s = record s {
  proc = some (record { pid = pid; alive = true; serves = s.conf });
  lost = dropped s.proc s.lost;
}

-- The child ends by itself.
ended : Dnsmasq → Dnsmasq
ended s = record s {
  proc = elim s.proc [ none ↦ none | some c ↦ some (record c { alive = false }) ];
}

respawn : Bool → Option ℕ → Dnsmasq → Dnsmasq
unfolding spawn
respawn false pid s = s
respawn true none s = record s { proc = none }
respawn true (some pid) s = spawn pid s

-- The config that was there before comes back, and the child that served it.
put_back : Env → Bool → Bool → Option String → Dnsmasq → Dnsmasq
unfolding respawn
put_back env stopped was_running previous s =
    let s' : Dnsmasq = record s {
      conf = previous;
      last_text = if stopped then previous else none;
    } in
    if env.restored
    then respawn (stopped && was_running && is_some previous) env.respawned s'
    else s

-- The handler of a candidate that failed.
recover : Env → Bool → Option String → Dnsmasq → Bool × Dnsmasq
unfolding stop put_back
recover env was_running previous s =
    let r = stop env.stops_again s in (false, put_back env r.0 was_running previous r.1)

launch : Env → Bool → String → Launch → Dnsmasq → Bool × Dnsmasq
unfolding spawn ended recover
launch env was_running text not_started s = recover env was_running s.last_text s
launch env was_running text (exited pid) s =
    recover env was_running s.last_text (ended (spawn pid s))
launch env was_running text (interrupted pid) s = recover env was_running s.last_text (spawn pid s)
launch env was_running text (lives pid) s = (true, record (spawn pid s) { last_text = some text })

-- `apply`: false where it raises.
unfoldable pub apply : String → Env → Dnsmasq → Bool × Dnsmasq
unfolding running text_eq stop launch
apply text env s =
    let stopped = stop env.stops s in
    if text_eq s.last_text text && running s
    then (true, s)
    else if not (env.written && env.tested)
    then (false, s)
    else if not stopped.0
    then (false, s)
    else if not env.replaced
    then (false, stopped.1)
    else launch env (running s) text env.launch (record stopped.1 { conf = some text })
