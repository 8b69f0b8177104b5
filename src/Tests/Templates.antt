-- ===== src/Tests/Templates.antt =====
-- Runs of the generated deployment files in internal/deploymenttemplate/template.go.
use my_wio.Base.{all, true, Option, none, some, List, [], ◌≡◌, refl, sym, ap, if◌then◌else◌, pos}
use my_wio.Text.{trim_space, split, Text, codes, text_eq}
use my_wio.Paths.{escapes, elements, clean, join, join_elements}
use my_wio.Paths.Inside.{stays_down, is_name}
use my_wio.DeploymentTemplate.{
  template_by_id, is_missing, Tree, missing, directory, file, static_dockerfile,
}
use my_wio.DeploymentTemplate.Writes.{
  put_file, write_generated, write_all, Disk, safe_relative_path,
}
use my_wio.DeploymentTemplate.Generation.{contents_of, GenerateOptions, generate}
use my_wio.DeploymentTemplate.Kept.{IsKept, generate-IsKept, safe_relative_path-stays_down}

abbrev root : Text
root = codes "/srv/app"

-- An empty directory.
abbrev empty_root : Tree
empty_root = record {
  lstat = λ path. if text_eq path root then directory else missing;
  stat = λ path. if text_eq path root then directory else missing;
  read_dir = λ path. [];
  manifest = λ path. none;
}

-- Directories are there without being listed.
abbrev roomy : Disk
roomy = record { make_directories = λ path t. some t; can_write = λ path. true }

abbrev options : GenerateOptions
options = record {
  root = root;
  compose_file = codes "deploy/compose.yaml";
  template_id = codes "node-vite-static";
  build_mode = codes "build";
  public_port = pos 8080;
}

abbrev up : Text → Option Text
up path = some (codes "..")

abbrev after : Tree
after = (generate roomy up options empty_root).0

writes :
    (after.lstat (codes "/srv/app/Dockerfile.generated") ≡ file static_dockerfile)
    × (after.lstat root ≡ directory)
    × (safe_relative_path (codes " a/../../b ") ≡ none)
unfolding generate clean elements split safe_relative_path trim_space escapes is_missing join
    template_by_id contents_of write_all write_generated put_file
writes = (refl, refl, refl)

same_tree : (t u : Tree) → some t ≡ some u → IsKept t u
same_tree t u e q h = ap (λ x. x.lstat q) (some_tree (sym e))
  where
    some_tree : some u ≡ some t → u ≡ t
    some_tree e = ap (λ o. elim o [ none ↦ t | some x ↦ x ]) e

generate-IsKept_example : IsKept empty_root after
generate-IsKept_example = generate-IsKept roomy (λ path t u. same_tree t u) up options empty_root

safe_relative_path-stays_down_example :
    (es : List Text) × (codes "deploy/compose.yaml" ≡ join_elements es)
    × (all is_name es ≡ true)
    × (stays_down es ≡ true)
unfolding safe_relative_path trim_space escapes clean elements split
safe_relative_path-stays_down_example =
    safe_relative_path-stays_down (codes "./deploy//compose.yaml") refl
