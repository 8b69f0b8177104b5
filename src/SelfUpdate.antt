-- ===== src/SelfUpdate.antt =====
-- internal/agent/selfupdate.go: how an Agent stages, starts and confirms a new binary of itself.
-- The program's file is the manifest `current.json`; paths and hashes are texts.
pub mod Staging
pub mod Rollback
pub mod Success
use my_wio.Base.{
  ℕ, String, Bool, true, false, ◌&&◌, ◌||◌, not, Option, none, some, List, [], ◌∷◌, map,
  if◌then◌else◌,
}
use my_wio.Text.{Text, codes, to_lower, text_eq, has_prefix}
use my_wio.Paths.{is_abs, clean, join, escapes}
use my_wio.BuildInfo.Version.{update_available}

-- `agentUpdateManifest`.
pub record Manifest : Type 0 where
  pub version : Text
  pub binary : Text
  pub sha256 : Text
  pub state : Text

-- What reading `current.json` gives; `unreadable` is any other error, or a text that is not JSON.
pub data Stored : Type 0 where
  absent unreadable : Stored
  stored : Manifest → Stored

-- The machine: the manifest, the hash of every file that can be read, the running executable, and
-- whether files can be removed and the manifest be written.
pub record Host : Type 0 where
  pub current : Stored
  pub file_hash : Text → Option Text
  pub executable : Text

-- The rest of the machine: the directory of the updates, the version that a binary was built as,
-- `samePath`, which calls fail, and which replacements of a file fail behind its removal.
pub record Platform : Type 0 where
  pub root : Text
  pub version_of : Text → Text
  pub same_path : Text → Text → Bool
  pub can_exec : Text → Bool
  pub can_write : Manifest → Bool
  pub can_place : Text → Bool
  pub loses_file : Text → Bool
  pub can_remove : Bool

-- `readAgentUpdateManifest`.
pub data Reading : Type 0 where
  no_manifest bad_manifest : Reading
  found : Manifest → Text → Reading

-- `strings.EqualFold` on hexadecimal digits.
unfoldable pub equal_fold : Text → Text → Bool
equal_fold a b = text_eq (map to_lower a) (map to_lower b)

abbrev pub pending : Text
pending = codes "pending"

abbrev pub attempting : Text
attempting = codes "attempting"

abbrev pub healthy : Text
healthy = codes "healthy"

-- What is written back of a change to the manifest.
unfoldable pub set_state : Text → Manifest → Manifest
set_state state m = record m { state = state }

pub data Activation : Type 0 where
  -- The process goes on as it is.
  continues : Activation
  -- It goes on, and an error is logged.
  fails : Activation
  -- `execAgentBinary` has replaced it.
  replaced : Activation

module _ (p : Platform) where
  unfoldable pub valid_manifest : Manifest → Bool
  valid_manifest m =
      let relative = clean m.binary in
      not (text_eq m.version [])
      && not (text_eq m.sha256 [])
      && not (is_abs relative)
      && not (escapes relative)

  unfoldable pub read_agent_update_manifest : Stored → Reading
  unfolding valid_manifest
  read_agent_update_manifest absent = no_manifest
  read_agent_update_manifest unreadable = bad_manifest
  read_agent_update_manifest (stored m) =
      if valid_manifest m then found m (join p.root (clean m.binary)) else bad_manifest

  unfoldable pub matches_file_hash : Host → Text → Text → Bool
  matches_file_hash h path expected = elim (h.file_hash path) [
    | none ↦ false
    | some hash ↦ equal_fold hash expected
  ]

  unfoldable pub matches_current_executable : Host → Text → Bool
  matches_current_executable h path = p.same_path h.executable path

  -- `writeAgentUpdateManifest`. When the file cannot be renamed over the old one, `replaceFile` removes
  -- that one and tries again, so that a failure either keeps or loses it.
  unfoldable pub write_agent_update_manifest : Manifest → Host → Host
  write_agent_update_manifest m h =
      if p.can_write m
      then record h { current = stored m }
      else if p.loses_file (join p.root (codes "current.json"))
      then record h { current = absent }
      else h

  unfoldable pub remove_manifest : Host → Host
  remove_manifest h = if p.can_remove then record h { current = absent } else h

  -- The end of both activations: note the attempt, then replace the process.
  unfoldable pub attempt : Manifest → Text → Host → Host × Activation
  attempt m binary h =
      let noted = set_state attempting m in
      if not (p.can_write noted)
      then (write_agent_update_manifest noted h, fails)
      else if p.can_exec binary
      then (record (write_agent_update_manifest noted h) { executable = binary }, replaced)
      else (
        write_agent_update_manifest (set_state pending m) (write_agent_update_manifest noted h),
        fails,
      )

  unfoldable pub activate_found : Manifest → Text → Host → Host × Activation
  activate_found m binary h =
      if not (matches_file_hash h binary m.sha256)
      then (remove_manifest h, fails)
      else if matches_current_executable h binary
      then (h, continues)
      else if not (update_available (p.version_of h.executable) m.version)
      then (remove_manifest h, continues)
      else if text_eq m.state attempting
      then (remove_manifest h, fails)
      else attempt m binary h

  -- `ActivateCurrentUpdate`, the first thing the program does.
  unfoldable pub activate_current_update : Host → Host × Activation
  unfolding activate_found
  activate_current_update h = elim (read_agent_update_manifest h.current) [
    | no_manifest ↦ (h, continues)
    | bad_manifest ↦ (remove_manifest h, fails)
    | found m binary ↦ activate_found m binary h
  ]

  activate_expected : Text → Manifest → Text → Host → Host × Activation
  activate_expected expected m binary h =
      if not (p.same_path binary expected) || not (matches_file_hash h binary m.sha256)
      then (h, fails)
      else attempt m binary h

  -- `activateStagedUpdate`.
  unfoldable pub activate_staged_update : Text → Host → Host × Activation
  unfolding activate_expected
  activate_staged_update expected h = elim (read_agent_update_manifest h.current) [
    | no_manifest ↦ (h, fails)
    | bad_manifest ↦ (h, fails)
    | found m binary ↦ activate_expected expected m binary h
  ]

  confirm_found : Manifest → Text → Host → Host × Bool
  confirm_found m binary h =
      if not (matches_current_executable h binary) || text_eq m.state healthy
      then (h, false)
      else let noted = set_state healthy m in
        (write_agent_update_manifest noted h, p.can_write noted)

  -- `confirmCurrentUpdate`, when the control plane has answered for the first time: `true` where it
  -- has confirmed a new binary. Its errors confirm nothing.
  unfoldable pub confirm_current_update : Host → Host × Bool
  unfolding confirm_found
  confirm_current_update h = elim (read_agent_update_manifest h.current) [
    | no_manifest ↦ (h, false)
    | bad_manifest ↦ (h, false)
    | found m binary ↦ confirm_found m binary h
  ]
