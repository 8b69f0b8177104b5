-- ===== src/SelfUpdate/Staging.antt =====
-- `stageAgentUpdate` and `downloadAgentUpdate`: a package becomes the pending update.
pub mod Ready
pub mod Refused
use my_wio.Base.{
  ℕ, suc, ◌+◌, ◌*◌, ◌^◌, String, Bool, true, false, ◌&&◌, ◌||◌, not, Option, none, some, List, [],
  ◌∷◌, map, any, all, length, ◌≡◌, refl, ltb, leb, ◌==◌, if◌then◌else◌, str_eq, arith, Bool-cases,
  Option-cases, inl, inr, ℤ, pos, negsuc,
}
use my_wio.Text.{Text, codes, text_eq, to_lower, trim_space, is_digit}
use my_wio.Paths.{join}
use my_wio.BuildInfo.Version.{update_available}
use my_wio.SelfUpdate.{
  Manifest, Stored, stored, Host, Platform, pending, equal_fold, matches_file_hash,
  matches_current_executable, write_agent_update_manifest,
}

-- `protocol.AgentUpdatePackage` and `protocol.AgentUpdateCommand`.
pub record Package : Type 0 where
  pub url : Text
  pub sha256 : Text
  pub size : ℤ

pub record UpdateCommand : Type 0 where
  pub version : Text
  pub packages : Text → Option Package

-- An entry of the map `seen`: the kind of an execution, and whether it has ended.
pub record Running : Type 0 where
  pub kind : String
  pub done : Bool

-- The executions that an update waits for.
unfoldable pub blocks_update : Running → Bool
blocks_update r =
    not r.done
    && (str_eq r.kind "gemini.turn.start"
        || str_eq r.kind "gemini.turn.rewrite"
        || str_eq r.kind "gemini.thread.fork"
        || str_eq r.kind "claude.turn.start"
        || str_eq r.kind "git.worktree.create"
        || str_eq r.kind "gemini.skills.manage")

abbrev pub max_agent_update_size : ℕ
max_agent_update_size = 256 * 2 ^ 20

unfoldable pub valid_size : ℤ → Bool
valid_size (negsuc _) = false
valid_size (pos n) = ltb 0 n && leb n max_agent_update_size

unfoldable pub is_hex : ℕ → Bool
is_hex c = is_digit c || (leb b'a' c && leb c b'f') || (leb b'A' c && leb c b'F')

-- `hex.DecodeString` gives 32 bytes.
unfoldable pub valid_checksum : Text → Bool
unfolding is_hex
valid_checksum text = length text == 64 && all is_hex text

-- What the request for a package gives: an error of any kind, or the length and the hash of the body.
pub data Response : Type 0 where
  broken : Response
  body : ℕ → Text → Response

pub data Staged : Type 0 where
  -- The path of the binary to restart into.
  restarts_into : Text → Staged
  -- The running executable is the package's.
  up_to_date : Staged
  update_running tasks_running version_required not_newer unsupported_architecture : Staged
  invalid_size invalid_checksum invalid_url download_failed not_written : Staged

-- The deferred function keeps the flag where the Agent is to restart.
unfoldable pub keeps_flag : Staged → Bool
keeps_flag (restarts_into _) = true
keeps_flag _ = false

-- The Agent: its executions, whether an update is pending, and the machine.
pub record Agent : Type 0 where
  pub seen : List Running
  pub update_pending : Bool
  pub host : Host

abbrev size_of : ℤ → ℕ
size_of (pos n) = n
size_of (negsuc _) = 0

-- `agent_update_url` is the function of that name, on the URL of the package; `request` the server.
module _ (p : Platform) (architecture : Text) (agent_update_url : Text → Option Text)
    (request : Text → Response) where
  -- `io.LimitReader` cuts the body behind one byte too many.
  received : Response → Package → Bool
  received broken pkg = false
  received (body n hash) pkg =
      (if ltb (size_of pkg.size) n then suc (size_of pkg.size) else n) == size_of pkg.size
      && equal_fold hash pkg.sha256

  store_file : Text → Response → Host → Host
  store_file path broken h = h
  store_file path (body n hash) h = record h {
    file_hash = λ q. if text_eq q path then some hash else h.file_hash q;
  }

  lose_file : Text → Host → Host
  lose_file path h =
      if p.loses_file path
      then record h { file_hash = λ q. if text_eq q path then none else h.file_hash q }
      else h

  unfoldable pub download_agent_update : Text → Text → Package → Host → Host × Bool
  unfolding received store_file lose_file
  download_agent_update source target pkg h =
      if not (received (request source) pkg)
      then (h, false)
      else if p.can_place target
      then (store_file target (request source) h, true)
      else (lose_file target h, false)

  abbrev pub target_path : Package → Text
  target_path pkg = join (join p.root (map to_lower pkg.sha256)) (codes "wio-agent")

  abbrev pub pending_manifest : UpdateCommand → Package → Manifest
  pending_manifest command pkg = record {
    version = command.version;
    binary = join (map to_lower pkg.sha256) (codes "wio-agent");
    sha256 = map to_lower pkg.sha256;
    state = pending;
  }

  write_pending : UpdateCommand → Package → Host × Bool → Host × Staged
  write_pending command pkg (h, false) = (h, download_failed)
  write_pending command pkg (h, true) =
      let m = pending_manifest command pkg in
      (
        write_agent_update_manifest p m h,
        if p.can_write m then restarts_into (target_path pkg) else not_written,
      )

  fetch : Text → UpdateCommand → Package → Host → Host × Staged
  unfolding write_pending
  fetch source command pkg h =
      if matches_file_hash p h (target_path pkg) pkg.sha256
      then if matches_current_executable p h (target_path pkg)
        then (h, up_to_date)
        else write_pending command pkg (h, true)
      else write_pending command pkg (download_agent_update source (target_path pkg) pkg h)

  checked : UpdateCommand → Package → Host → Host × Staged
  unfolding fetch
  checked command pkg h =
      if not (valid_size pkg.size)
      then (h, invalid_size)
      else if not (valid_checksum pkg.sha256)
      then (h, invalid_checksum)
      else elim (agent_update_url pkg.url) [
        | none ↦ (h, invalid_url)
        | some source ↦ fetch source command pkg h
      ]

  -- The part behind the flag.
  unfoldable pub prepare : UpdateCommand → Host → Host × Staged
  unfolding checked
  prepare command h =
      if text_eq (trim_space command.version) []
      then (h, version_required)
      else if not (update_available (p.version_of h.executable) command.version)
      then (h, not_newer)
      else elim (command.packages architecture) [
        | none ↦ (h, unsupported_architecture)
        | some pkg ↦ checked command pkg h
      ]

  unfoldable pub finish_staging : Agent → Host × Staged → Agent × Staged
  unfolding keeps_flag
  finish_staging a (h, s) = (record a { host = h; update_pending = keeps_flag s }, s)

  -- `stageAgentUpdate`.
  unfoldable pub stage_agent_update : UpdateCommand → Agent → Agent × Staged
  stage_agent_update command a =
      if a.update_pending
      then (a, update_running)
      else if any blocks_update a.seen
      then (a, tasks_running)
      else finish_staging a (prepare command a.host)
