-- ===== src/DeploymentTemplate/Writes.antt =====
-- internal/deploymenttemplate/template.go: writing generated files below the root of a project.
use my_wio.Base.{Bool, true, false, not, Option, none, some, List, [], ◌∷◌, if◌then◌else◌}
use my_wio.Text.{Text, codes, text_eq, trim_space}
use my_wio.Paths.{is_abs, clean, join, escapes}
use my_wio.DeploymentTemplate.{Content, file, Tree, is_missing}

-- `safeRelativePath`.
unfoldable pub safe_relative_path : Text → Option Text
safe_relative_path value =
    let trimmed = trim_space value in
    let path = if text_eq trimmed [] then codes "compose.yaml" else trimmed in
    if is_abs path then none else if escapes (clean path) then none else some (clean path)

-- `MkdirAll` of the directory of a file, and whether a file can be written.
pub record Disk : Type 0 where
  pub make_directories : Text → Tree → Option Tree
  pub can_write : Text → Bool

unfoldable pub put_file : Text → Content → Tree → Tree
put_file path content t = record t {
  lstat = λ q. if text_eq q path then file content else t.lstat q;
  stat = λ q. if text_eq q path then file content else t.stat q;
}

module _ (disk : Disk) where
  unfoldable pub write_at : Text → Content → Tree → Tree × Bool
  write_at path content t =
      if not (is_missing (t.lstat path)) then (t, false) else elim (disk.make_directories path t) [
        | none ↦ (t, false)
        | some t' ↦ if disk.can_write path then (put_file path content t', true) else (t', false)
      ]

  -- `writeGenerated`.
  unfoldable pub write_generated : Text → Text → Content → Tree → Tree × Bool
  unfolding write_at
  write_generated root relative content t = elim (safe_relative_path relative) [
    | none ↦ (t, false)
    | some path ↦ write_at (join root path) content t
  ]

unfoldable pub unless_failed : (Tree → Tree × Bool) → Tree × Bool → Tree × Bool
unless_failed rest (t, true) = rest t
unless_failed rest (t, false) = (t, false)

-- Files one after the other, up to the first error.
unfoldable pub write_all : Disk → Text → List (Text × Content) → Tree → Tree × Bool
unfolding unless_failed
write_all disk root [] t = (t, true)
write_all disk root ((relative, content) ∷ files) t =
    unless_failed (write_all disk root files) (write_generated disk root relative content t)
