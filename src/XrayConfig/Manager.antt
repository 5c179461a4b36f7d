-- ===== src/XrayConfig/Manager.antt =====
-- xray_config/validate.py, `ConfigManager`: the live config, the snapshot beside it, and the marker
-- that says which apply the snapshot belongs to. A file is what a reader finds, with all that a
-- power cut may leave of it.
pub mod Run
pub mod Pairing
pub mod Revoked
pub mod Target
pub mod Undo
use v2pi.Base.{
  ℕ, zero, suc, Bool, true, false, not, ◌&&◌, ◌||◌, String, str_eq, Option, none, some, List, [],
  ◌∷◌, if◌then◌else◌, is_some,
}

pub data File (A : Type 0) : Type 0 where
  absent : File A
  unreadable : File A
  content : A → File A

-- `after_cut` are the contents that the file may have when the power is cut now.
pub record Slot (A : Type 0) : Type 0 where
  pub shown : File A
  pub after_cut : List (File A)

pub data Errno : Type 0 where
  einval enotsup eopnotsupp ebadf other_errno : Errno

-- `_FSYNC_UNSUPPORTED`
unfoldable pub unsupported : Errno → Bool
unsupported other_errno = false
unsupported _ = true

-- What the operating system answers to the open and the fsync of a directory.
pub data DirSync : Type 0 where
  not_opened : Errno → DirSync
  not_synced : Errno → DirSync
  synced : DirSync

-- `_fsync_dir`
unfoldable pub fsync_dir : DirSync → Bool
unfolding unsupported
fsync_dir (not_opened e) = unsupported e
fsync_dir (not_synced e) = unsupported e
fsync_dir synced = true

-- Whether the new directory entry has reached the disk. An errno that `_fsync_dir` takes for a file
-- system without directory fsync does not put it there.
unfoldable pub is_synced : DirSync → Bool
is_synced (not_opened e) = false
is_synced (not_synced e) = false
is_synced synced = true

-- `replaced` is false where anything up to the rename raises.
pub record WriteEnv : Type 0 where
  pub replaced : Bool
  pub sync : DirSync

pub data Written (A : Type 0) : Type 0 where
  raised : Written A
  renamed : Bool → Slot A → Written A

unfoldable pub settle : {A : Type 0} → Bool → A → Slot A → Slot A
settle true v s = record { shown = content v; after_cut = content v ∷ [] }
settle false v s = record { shown = content v; after_cut = content v ∷ s.after_cut }

-- `_write_atomic`: the old file or the new one, with the answer of `_fsync_dir`. A power cut leaves the
-- new file for sure only where the entry is on the disk.
unfoldable pub write_atomic : {A : Type 0} → WriteEnv → A → Slot A → Written A
unfolding settle fsync_dir is_synced
write_atomic env v s =
    if env.replaced then renamed (fsync_dir env.sync) (settle (is_synced env.sync) v s) else raised

pub data Unlink : Type 0 where
  unlinked missing failed : Unlink

unfoldable pub unlink : {A : Type 0} → Unlink → Slot A → Slot A
unlink unlinked s = record { shown = absent; after_cut = absent ∷ s.after_cut }
unlink missing s = s
unlink failed s = s

-- The provenance marker: `{"invalidated": true}`, a pair of digests, or any other JSON.
pub data Marker : Type 0 where
  invalidated : Marker
  pair : String → String → Marker
  junk : Marker

pub data Outcome : Type 0 where
  rejected refused raised applied : Outcome

-- The files at `config_path`, `lastgood_path` and `_provenance_path`.
pub record Disk (Cfg : Type 0) : Type 0 where
  pub live : Slot Cfg
  pub lastgood : Slot Cfg
  pub marker : Slot Marker

-- What the system answers to the writes of one apply.
pub record ApplyEnv : Type 0 where
  pub snapshot : WriteEnv
  pub mark : WriteEnv
  pub drop : Unlink
  pub install : WriteEnv

-- `digest` is `config_digest`, the SHA-256 of the canonical text.
module _ {Cfg : Type 0} where
  -- The last write of an apply.
  unfoldable pub put_live : WriteEnv → Cfg → Disk Cfg → Outcome × Disk Cfg
  put_live env cfg d = elim (write_atomic env cfg d.live) [
    | raised ↦ (Outcome.raised, d)
    | renamed _ s ↦ (applied, record d { live = s })
  ]

  -- `_invalidate_provenance`
  unfoldable pub invalidate_provenance : Unlink → Disk Cfg → Disk Cfg
  unfolding unlink
  invalidate_provenance u d = record d { marker = unlink u d.marker }

  -- `_invalidate_provenance_durably`, and so `invalidate_rollback`.
  unfoldable pub invalidate_durably : WriteEnv → Disk Cfg → Bool × Disk Cfg
  invalidate_durably env d = elim (write_atomic env invalidated d.marker) [
    | raised ↦ (false, d)
    | renamed durable s ↦ (durable, record d { marker = s })
  ]

  -- `apply_irreversible`; `valid` is the answer of `validate_config`.
  unfoldable pub apply_irreversible :
      Bool → WriteEnv → WriteEnv → Cfg → Disk Cfg → Outcome × Disk Cfg
  unfolding invalidate_durably put_live
  apply_irreversible valid mark install cfg d =
      let (sealed, d') = invalidate_durably mark d in
      if not valid
      then (rejected, d)
      else if not sealed
      then (refused, d')
      else put_live install cfg d'

module _ {Cfg : Type 0} (digest : Cfg → String) where
  pair_and_install : ApplyEnv → Cfg → Cfg → Disk Cfg → Outcome × Disk Cfg
  pair_and_install env previous cfg d =
      elim (write_atomic env.mark (pair (digest previous) (digest cfg)) d.marker) [
        | raised ↦ (Outcome.raised, d)
        | renamed _ s ↦ put_live env.install cfg (record d { marker = s })
      ]

  pub apply_over : ApplyEnv → Cfg → Cfg → Disk Cfg → Outcome × Disk Cfg
  unfolding pair_and_install
  apply_over env previous cfg d = elim (write_atomic env.snapshot previous d.lastgood) [
    | raised ↦ (Outcome.raised, d)
    | renamed _ s ↦ pair_and_install env previous cfg (record d { lastgood = s })
  ]

  -- An apply where the live config can be read, or where it cannot.
  apply_to : ApplyEnv → File Cfg → Cfg → Disk Cfg → Outcome × Disk Cfg
  unfolding apply_over invalidate_provenance put_live
  apply_to env (content previous) cfg d = apply_over env previous cfg d
  apply_to env absent cfg d = put_live env.install cfg (invalidate_provenance env.drop d)
  apply_to env unreadable cfg d = put_live env.install cfg (invalidate_provenance env.drop d)

  -- `apply`
  unfoldable pub apply : Bool → ApplyEnv → Cfg → Disk Cfg → Outcome × Disk Cfg
  unfolding apply_to
  apply valid env cfg d = if valid then apply_to env d.live.shown cfg d else (rejected, d)

  vouches : Marker → Cfg → Cfg → Bool
  vouches invalidated lastgood live = false
  vouches junk lastgood live = false
  vouches (pair a b) lastgood live = str_eq a (digest lastgood) && str_eq b (digest live)

  vouched : File Marker → Cfg → File Cfg → Option Cfg
  unfolding vouches
  vouched (content m) lastgood (content live) =
      if vouches m lastgood live then some lastgood else none
  vouched _ lastgood _ = none

  -- `rollback_target`
  unfoldable pub rollback_target : Disk Cfg → Option Cfg
  unfolding vouched
  rollback_target d = elim d.lastgood.shown [
    | content lastgood ↦ vouched d.marker.shown lastgood d.live.shown
    | _ ↦ none
  ]

  -- `rollback_available`
  unfoldable pub rollback_available : Disk Cfg → Bool
  unfolding rollback_target
  rollback_available d = is_some (rollback_target d)

  promote : WriteEnv → WriteEnv → Cfg → Disk Cfg → Option Bool × Disk Cfg
  promote install mark lastgood d = elim (write_atomic install lastgood d.live) [
    | raised ↦ (none, d)
    | renamed _ s ↦
        let d' : Disk Cfg = record d { live = s } in
        elim (write_atomic mark (pair (digest lastgood) (digest lastgood)) d'.marker) [
          | raised ↦ (none, d')
          | renamed _ m ↦ (some true, record d' { marker = m })
        ]
  ]

  -- `rollback`: its answer, or none where a write raises.
  unfoldable pub rollback : WriteEnv → WriteEnv → Disk Cfg → Option Bool × Disk Cfg
  unfolding promote rollback_target
  rollback install mark d = elim (rollback_target d) [
    | none ↦ (some false, d)
    | some lastgood ↦ promote install mark lastgood d
  ]
