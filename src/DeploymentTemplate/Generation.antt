-- ===== src/DeploymentTemplate/Generation.antt =====
-- internal/deploymenttemplate/template.go: `Generate`.
use my_wio.Base.{
  Bool, true, false, ◌&&◌, ◌||◌, not, Option, none, some, List, [], ◌∷◌, if◌then◌else◌, ℤ, pos,
  negsuc, ltb,
}
use my_wio.Text.{Text, codes, text_eq, trim_space}
use my_wio.Paths.{clean, join}
use my_wio.DeploymentTemplate.{
  Template, node_vite_websocket, node_vite_static, template_by_id, Content, Entry, missing, unknown,
  directory, Tree, is_missing, valid_root, detect, websocket_dockerfile, websocket_nginx,
  static_dockerfile, static_nginx, generated_dockerignore, websocket_compose, static_compose,
}
use my_wio.DeploymentTemplate.Writes.{safe_relative_path, Disk, write_generated, write_all}

pub record GenerateOptions : Type 0 where
  pub root : Text
  pub compose_file : Text
  pub template_id : Text
  pub build_mode : Text
  pub public_port : ℤ

-- What `Generate` returns: the template, the path of the Compose file, and the files.
pub data Generated : Type 0 where
  generated : Template → Text → List Text → Generated
  failed : Generated

unfoldable pub is_directory : Entry → Bool
is_directory directory = true
is_directory _ = false

-- The Dockerfile, the nginx configuration and the Compose file of a template.
unfoldable pub contents_of : Template → Bool → Text → Option (Content × Content × Content)
contents_of t publish context =
    if text_eq t.id node_vite_websocket
    then some (websocket_dockerfile, websocket_nginx, websocket_compose publish context)
    else if text_eq t.id node_vite_static
    then some (static_dockerfile, static_nginx, static_compose publish context)
    else none

unfoldable pub is_positive : ℤ → Bool
is_positive (pos n) = ltb 0 n
is_positive (negsuc _) = false

abbrev pub dockerfile_name : Text
dockerfile_name = codes "Dockerfile.generated"

abbrev pub nginx_name : Text
nginx_name = codes "nginx.generated.conf"

-- `context_path` is the way from the directory of the Compose file to the root, by `filepath.Rel`.
module _ (disk : Disk) (context_path : Text → Option Text) where
  unfoldable pub write_dockerignore : Text → Template → Text → Tree → Tree × Generated
  write_dockerignore root template compose_file t =
      let names = dockerfile_name ∷ nginx_name ∷ compose_file ∷ [] in
      let done = generated template (join root compose_file) names in
      elim (t.lstat (join root (codes ".dockerignore"))) [
        | unknown ↦ (t, failed)
        | missing ↦
            let r = write_generated disk root (codes ".dockerignore") generated_dockerignore t in
            (
              r.0,
              if r.1
                  then generated template (join root compose_file)
                      (dockerfile_name ∷ nginx_name ∷ compose_file ∷ codes ".dockerignore" ∷ [])
                  else failed,
            )
        | _ ↦ (t, done)
      ]

  unfoldable pub finish_files : Text → Template → Text → Tree × Bool → Tree × Generated
  unfolding write_dockerignore
  finish_files root template compose_file (t, true) =
      write_dockerignore root template compose_file t
  finish_files root template compose_file (t, false) = (t, failed)

  unfoldable pub write_files :
      Text → Template → Text → Content × Content × Content → Tree → Tree × Generated
  unfolding finish_files
  write_files root template compose_file (dockerfile, nginx, compose) t =
      finish_files root template compose_file (
        write_all disk root
          ((dockerfile_name, dockerfile) ∷ (nginx_name, nginx) ∷ (compose_file, compose) ∷ []) t)

  unfoldable pub generate_from : GenerateOptions → Text → Text → Template → Tree → Tree × Generated
  unfolding write_files is_positive
  generate_from options root compose_file template t =
      if text_eq options.build_mode (codes "pull") && not template.supports_pull
      then (t, failed)
      else elim (context_path compose_file) [
        | none ↦ (t, failed)
        | some path ↦
            let context = if text_eq path [] then codes "." else path in
            elim (contents_of template (is_positive options.public_port) context) [
              | none ↦ (t, failed)
              | some contents ↦ write_files root template compose_file contents t
            ]
      ]

  unfoldable pub chosen_template : GenerateOptions → Text → Tree → Option Template
  chosen_template options root t =
      if text_eq (trim_space options.template_id) [] || text_eq options.template_id (codes "auto")
      then detect t root
      else template_by_id options.template_id

  unfoldable pub generate_in : GenerateOptions → Text → Text → Tree → Tree × Generated
  unfolding chosen_template generate_from
  generate_in options root compose_file t =
      if not (is_missing (t.lstat (join root compose_file)))
      then (t, failed)
      else elim (chosen_template options root t) [
        | none ↦ (t, failed)
        | some template ↦ generate_from options root compose_file template t
      ]

  -- `Generate`.
  unfoldable pub generate : GenerateOptions → Tree → Tree × Generated
  unfolding valid_root is_directory generate_in
  generate options t =
      let root = clean options.root in
      if not (valid_root root) || not (is_directory (t.stat root))
      then (t, failed)
      else elim (safe_relative_path options.compose_file) [
        | none ↦ (t, failed)
        | some compose_file ↦ generate_in options root compose_file t
      ]
