-- ===== src/DeploymentTemplate.antt =====
-- internal/deploymenttemplate/template.go: the files that are generated to deploy a project without
-- files of its own. A file system is what its calls answer for a path.
pub mod Writes
pub mod Generation
pub mod Kept
use my_wio.Base.{
  ℕ, Bool, true, false, ◌&&◌, ◌||◌, not, Option, none, some, List, [], ◌∷◌, any, find_first,
  if◌then◌else◌, ℤ, pos, negsuc, ltb,
}
use my_wio.Text.{Text, codes, text_eq, trim_space, has_prefix}
use my_wio.Paths.{is_abs, clean, join, escapes}

pub record Template : Type 0 where
  pub id : Text
  pub supports_pull : Bool

abbrev pub node_vite_websocket : Text
node_vite_websocket = codes "node-vite-websocket"

abbrev pub node_vite_static : Text
node_vite_static = codes "node-vite-static"

-- The two templates, without the texts that are only shown.
abbrev pub templates : List Template
templates =
    record { id = node_vite_websocket; supports_pull = false }
    ∷ record { id = node_vite_static; supports_pull = false }
    ∷ []

unfoldable pub template_by_id : Text → Option Template
template_by_id id = find_first (λ t. text_eq t.id id) templates

-- `packageManifest`: the scripts by name, with the empty text for a missing one, and the packages.
pub record PackageManifest : Type 0 where
  pub scripts : Text → Text
  pub dependencies : Text → Bool
  pub dev_dependencies : Text → Bool

-- The generated texts, by the constant or the function that holds them, and the text of another file.
pub data Content : Type 0 where
  websocket_dockerfile websocket_nginx static_dockerfile static_nginx generated_dockerignore :
      Content
  websocket_compose static_compose : Bool → Text → Content
  other : Text → Content

-- What `Lstat` and `Stat` answer; `unknown` is an error other than `ErrNotExist`.
pub data Entry : Type 0 where
  missing unknown directory symlink : Entry
  file : Content → Entry

-- A directory's files with whether they are directories, and a decoded `package.json`.
pub record Tree : Type 0 where
  pub lstat : Text → Entry
  pub stat : Text → Entry
  pub read_dir : Text → List (Text × Bool)
  pub manifest : Text → Option PackageManifest

unfoldable pub is_missing : Entry → Bool
is_missing missing = true
is_missing _ = false

is_regular : Entry → Bool
is_regular (file _) = true
is_regular symlink = true
is_regular _ = false

-- `hasPackage`, `hasServerEntry`, `hasFileWithPrefix` and `fileExists`.
has_package : PackageManifest → Text → Bool
has_package m name = m.dependencies name || m.dev_dependencies name

file_exists : Tree → Text → Text → Bool
unfolding is_regular
file_exists t root relative = is_regular (t.stat (join root relative))

has_server_entry : Tree → Text → Bool
unfolding file_exists
has_server_entry t root =
    any (file_exists t root)
      (codes "server/index.ts" ∷ codes "server/index.js" ∷ codes "server/index.mjs" ∷ [])

has_file_with_prefix : Tree → Text → Text → Bool
has_file_with_prefix t root prefix = any (λ e. not e.1 && has_prefix e.0 prefix) (t.read_dir root)

detect_in : Tree → Text → PackageManifest → Option Template
unfolding has_package file_exists has_server_entry has_file_with_prefix
detect_in t root m =
    let has_vite =
      has_package m (codes "vite") || has_file_with_prefix t root (codes "vite.config.") in
    if not (file_exists t root (codes "pnpm-lock.yaml"))
    then none
    else if has_vite
        && has_server_entry t root
        && not (text_eq (trim_space (m.scripts (codes "server"))) [])
    then template_by_id node_vite_websocket
    else if has_vite && not (text_eq (trim_space (m.scripts (codes "build"))) [])
    then template_by_id node_vite_static
    else none

unfoldable pub valid_root : Text → Bool
valid_root root = not (text_eq root (codes ".")) && is_abs root

-- `Detect`; an error is `none`.
unfoldable pub detect : Tree → Text → Option Template
unfolding detect_in valid_root
detect t path =
    let root = clean path in
    if not (valid_root root) then none else elim (t.manifest (join root (codes "package.json"))) [
      | none ↦ none
      | some m ↦ detect_in t root m
    ]
