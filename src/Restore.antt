-- ===== src/Restore.antt =====
-- controller.py, `restore_backup`: what can refuse is asked while the tunnel is up; then the gateway is
-- disconnected, the document imported and the host provisioned, or what was there is put back. The host,
-- the supervisor and the store are seen by their answers.
pub mod Phases
pub mod Unarmed
use v2pi.Base.{
  ℕ, ◌+◌, Bool, true, false, not, ◌&&◌, String, Option, none, some, if◌then◌else◌, is_some,
}
use v2pi.Apply.{NetState, guard, Row, blank}

-- What a probe of the target link answered.
pub data LinkState : Type 0 where
  link_present link_absent link_unknown : LinkState

-- The record of what a pass is about to put on the host.
pub record Candidate : Type 0 where
  pub iface : String
  pub addr4 : String
  pub addr6 : String
  pub vlan : Bool
  pub link_state : LinkState
  pub armed : Bool

-- `_unarmed_candidate`; none is the empty record.
unfoldable pub unarmed_candidate : Option Candidate → Option Candidate
unarmed_candidate none = none
unarmed_candidate (some c) = some (record {
  iface = c.iface;
  addr4 = "";
  addr6 = "";
  vlan = false;
  link_state = link_unknown;
  armed = false;
})

-- The rows of the tunnel that a restore blanks.
pub record Rows : Type 0 where
  pub active_node_id : Row
  pub prev_active_node_id : Row
  pub pending_active_node_id : Row
  pub active_since : Row

abbrev pub blank_rows : Rows
blank_rows = record {
  active_node_id = blank;
  prev_active_node_id = blank;
  pending_active_node_id = blank;
  active_since = blank;
}

-- `content` is what an import replaces, `undo` the record that a later boot may act on, and `passes` the
-- number of times that the host has been provisioned.
pub record Gateway (Doc : Type 0) : Type 0 where
  pub running : Bool
  pub net : NetState
  pub undo : Option Candidate
  pub passes : ℕ
  pub content : Doc
  pub rows : Rows

-- `_verified_write` stores the text and then reads it back. The text is not stored, or it is stored and
-- the read-back does not show it, or it is proven to be there.
pub data RecordWrite : Type 0 where
  not_written unproven proven : RecordWrite

-- What the parts answer; none stands for an exception.
pub record Env (Doc : Type 0) : Type 0 where
  pub validated : Option Doc
  pub snapshot_ok : Bool
  pub candidate : Option (Option Candidate)
  pub preflight_recorded : RecordWrite
  pub plan_rendered : Bool
  pub settled : Bool
  pub stopped : Bool
  pub guard_ok : Bool
  pub armed : RecordWrite
  pub imported : Bool
  pub provisioned : Bool
  pub restored_guard_ok : Bool
  pub reconfigured : Bool
  pub committed : Bool
  pub rows_cleared : Bool
  pub undone : Bool
  pub previous_guard_ok : Bool

pub data Result : Type 0 where
  ok refused raised : Result

module _ {Doc : Type 0} where
  -- `record_provision_candidate`: false where it raises, which it also does with the record in the
  -- store; an empty record is not written.
  record_candidate : RecordWrite → Option Candidate → Gateway Doc → Bool × Gateway Doc
  record_candidate write none g = (true, g)
  record_candidate not_written (some c) g = (false, g)
  record_candidate unproven (some c) g = (false, record g { undo = some c })
  record_candidate proven (some c) g = (true, record g { undo = some c })

  -- `clear_provision_candidate`, where there is a candidate.
  settle : Bool → Option Candidate → Gateway Doc → Gateway Doc
  settle done none g = g
  settle done (some c) g = if done then record g { undo = none } else g

  -- `stop_net`, or `sync_net_plan` on a stopped xray.
  put_guard : Bool → Gateway Doc → Gateway Doc
  put_guard done g = if done then record g { net = guard } else g

  provision_host : Gateway Doc → Gateway Doc
  provision_host g = record g { passes = g.passes + 1 }

  -- The transaction: its rows stay only where it commits, what it did to the host stays.
  import_document : Env Doc → Doc → Gateway Doc → Bool × Gateway Doc
  unfolding put_guard provision_host
  import_document env doc g =
      let g₁ = provision_host g in
      let g₂ = put_guard env.restored_guard_ok g₁ in
      if not env.imported
      then (false, g)
      else if not env.provisioned
      then (false, g₁)
      else if not (env.restored_guard_ok && env.reconfigured && env.committed)
      then (false, g₂)
      else (true, record g₂ { content = doc; rows = blank_rows })

  -- The handler: the host goes back to what the store says, and the gateway stays closed.
  put_back : Env Doc → Option Candidate → Gateway Doc → Result × Gateway Doc
  unfolding settle put_guard provision_host
  put_back env candidate g =
      let g₁ = provision_host (record g { rows = blank_rows }) in
      if not env.rows_cleared then (raised, g) else (
        refused,
        put_guard env.previous_guard_ok (settle (env.undone && env.settled) candidate g₁),
      )

  -- From the arming of the record on.
  commit : Env Doc → Doc → Option Candidate → Gateway Doc → Result × Gateway Doc
  unfolding record_candidate settle import_document put_back
  commit env doc candidate g =
      let a = record_candidate env.armed candidate g in
      let i = import_document env doc a.1 in
      if not a.0
      then (refused, settle env.settled (unarmed_candidate candidate) a.1)
      else if i.0
      then (ok, settle env.settled candidate i.1)
      else put_back env candidate i.1

  -- From the stop on.
  disconnect : Env Doc → Doc → Option Candidate → Gateway Doc → Result × Gateway Doc
  unfolding settle put_guard commit
  disconnect env doc candidate g =
      let preflight = unarmed_candidate candidate in
      let g₁ : Gateway Doc = record g { running = false } in
      if not env.stopped
      then (refused, settle env.settled preflight g)
      else if not env.guard_ok
      then (refused, settle env.settled preflight g₁)
      else commit env doc candidate (put_guard true g₁)

  -- What may refuse while the tunnel is up, behind the snapshot.
  prove : Env Doc → Doc → Option Candidate → Gateway Doc → Result × Gateway Doc
  unfolding record_candidate settle disconnect
  prove env doc candidate g =
      let preflight = unarmed_candidate candidate in
      let p = record_candidate env.preflight_recorded preflight g in
      if not p.0
      then (refused, p.1)
      else if not env.plan_rendered
      then (refused, settle env.settled preflight p.1)
      else disconnect env doc candidate p.1

  from_snapshot : Env Doc → Doc → Option (Option Candidate) → Gateway Doc → Result × Gateway Doc
  unfolding prove
  from_snapshot env doc none g = (refused, g)
  from_snapshot env doc (some candidate) g =
      if env.snapshot_ok then prove env doc candidate g else (refused, g)

  -- `restore_backup`
  unfoldable pub restore_backup : Env Doc → Gateway Doc → Result × Gateway Doc
  unfolding from_snapshot
  restore_backup env g = elim env.validated [
    | none ↦ (raised, g)
    | some doc ↦ from_snapshot env doc env.candidate g
  ]
