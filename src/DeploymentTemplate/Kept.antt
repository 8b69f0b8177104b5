-- ===== src/DeploymentTemplate/Kept.antt =====
-- What generation keeps: paths below the root, and every file that was there.
use my_wio.Base.{
  Bool, true, false, ◌&&◌, ◌||◌, not, Option, none, some, List, [], ◌∷◌, ◌≡◌, refl, subst, ◌∙◌,
  if◌then◌else◌, arith, all, Bool-cases, Option-cases, inl, inr,
}
use my_wio.Text.{Text, codes, text_eq, trim_space}
use my_wio.Text.Laws.{text_eq-eq}
use my_wio.Paths.{is_abs, clean, join, escapes, elements, join_elements}
use my_wio.Paths.Inside.{stays_down, clean-stays_down, is_name, elements-is_name}
use my_wio.DeploymentTemplate.{
  Template, Content, Entry, missing, unknown, directory, symlink, file, Tree, is_missing,
  generated_dockerignore, valid_root,
}
use my_wio.DeploymentTemplate.Writes.{
  safe_relative_path, Disk, put_file, write_at, write_generated, unless_failed, write_all,
}
use my_wio.DeploymentTemplate.Generation.{
  GenerateOptions, generate, generate_in, generate_from, chosen_template, contents_of, is_positive,
  is_directory, write_files, finish_files, write_dockerignore,
}

-- A path that is accepted is the join of names without a separator, none of which is `..`, so that it
-- leads to nothing outside of the directory that it is joined to.
pub safe_relative_path-stays_down :
    (value : Text) {path : Text}
    → safe_relative_path value ≡ some path
    → (es : List Text) × (path ≡ join_elements es)
      × (all is_name es ≡ true)
      × (stays_down es ≡ true)
unfolding safe_relative_path
safe_relative_path-stays_down value {path} e =
    accepted (if text_eq (trim_space value) [] then codes "compose.yaml" else trim_space value) e
  where
    same : {a b : Text} → some a ≡ some b → b ≡ a
    same h = ground arith

    accepted :
        (cleaned : Text)
        → (if is_abs cleaned
            then none
            else if escapes (clean cleaned)
            then none
            else some (clean cleaned))
          ≡ some path
        → (es : List Text) × (path ≡ join_elements es)
          × (all is_name es ≡ true)
          × (stays_down es ≡ true)
    accepted cleaned h = elim (Bool-cases (is_abs cleaned)) [
      | inl a ↦ absurd (ground arith)
      | inr a ↦ elim (Bool-cases (escapes (clean cleaned))) [
        | inl x ↦ absurd (ground arith)
        | inr x ↦
            let inside = clean-stays_down cleaned a x in
            (elements cleaned, same (rw (a, x) at h) ∙ inside.0, elements-is_name cleaned, inside.1)
      ]
    ]

-- Every entry of the first tree is in the second.
abbrev pub IsKept : Tree → Tree → Type 0
IsKept t t' = (q : Text) → is_missing (t.lstat q) ≡ false → t'.lstat q ≡ t.lstat q

IsKept-refl : (t : Tree) → IsKept t t
IsKept-refl t q h = refl

IsKept-trans : (t u v : Tree) → IsKept t u → IsKept u v → IsKept t v
IsKept-trans t u v f g q h = g q (rw (f q h) h) ∙ f q h

put-IsKept :
    (path : Text) (content : Content) (t u : Tree)
    → is_missing (t.lstat path) ≡ true
    → IsKept t u
    → IsKept t (put_file path content u)
unfolding put_file
put-IsKept path content t u m k q h = elim (Bool-cases (text_eq q path)) [
  | inl e ↦
      absurd (ground (arith, subst (λ x. is_missing (t.lstat x) ≡ false) (text_eq-eq q path e) h))
  | inr e ↦ rw e (k q h)
]

module _ (disk : Disk)
    (makes : (path : Text) (t t' : Tree)
      → disk.make_directories path t ≡ some t'
      → IsKept t t') where
  write_at-IsKept :
      (path : Text) (content : Content) (t : Tree) → IsKept t (write_at disk path content t).0
  unfolding write_at
  write_at-IsKept path content t = elim (Bool-cases (is_missing (t.lstat path))) [
    | inr m ↦ rw m (IsKept-refl t)
    | inl m ↦ elim (Option-cases (disk.make_directories path t)) [
      | inl d ↦ rw (m, d) (IsKept-refl t)
      | inr (u, d) ↦ elim (Bool-cases (disk.can_write path)) [
        | inl w ↦ rw (m, d, w) (put-IsKept path content t u m (makes path t u d))
        | inr w ↦ rw (m, d, w) (makes path t u d)
      ]
    ]
  ]

  write_generated-IsKept :
      (root relative : Text) (content : Content) (t : Tree)
      → IsKept t (write_generated disk root relative content t).0
  unfolding write_generated
  write_generated-IsKept root relative content t =
      elim (Option-cases (safe_relative_path relative)) [
        | inl e ↦ rw (write_generated, e) (IsKept-refl t)
        | inr (path, e) ↦ rw (write_generated, e) (write_at-IsKept (join root path) content t)
      ]

  unless-IsKept :
      (t : Tree) (rest : Tree → Tree × Bool) (r : Tree × Bool)
      → IsKept t r.0
      → ((u : Tree) → IsKept u (rest u).0)
      → IsKept t (unless_failed rest r).0
  unfolding unless_failed
  unless-IsKept t rest (u, true) k more = IsKept-trans t u (rest u).0 k (more u)
  unless-IsKept t rest (u, false) k more = k

  write_all-IsKept :
      (root : Text) (files : List (Text × Content)) (t : Tree)
      → IsKept t (write_all disk root files t).0
  unfolding write_all
  write_all-IsKept root [] t = IsKept-refl t
  write_all-IsKept root ((relative, content) ∷ files) t =
      unless-IsKept t (write_all disk root files) (write_generated disk root relative content t)
        (write_generated-IsKept root relative content t) (write_all-IsKept root files)

  module _ (context_path : Text → Option Text) where
    dockerignore-IsKept :
        (root : Text) (template : Template) (compose_file : Text) (t : Tree)
        → IsKept t (write_dockerignore disk context_path root template compose_file t).0
    unfolding write_dockerignore
    dockerignore-IsKept root template compose_file t =
        of_entry (t.lstat (join root (codes ".dockerignore"))) refl
      where
        of_entry :
            (e : Entry)
            → t.lstat (join root (codes ".dockerignore")) ≡ e
            → IsKept t (write_dockerignore disk context_path root template compose_file t).0
        of_entry unknown e = rw (write_dockerignore, e) (IsKept-refl t)
        of_entry missing e =
            rw (write_dockerignore, e)
              (write_generated-IsKept root (codes ".dockerignore") generated_dockerignore t)
        of_entry directory e = rw (write_dockerignore, e) (IsKept-refl t)
        of_entry symlink e = rw (write_dockerignore, e) (IsKept-refl t)
        of_entry (file c) e = rw (write_dockerignore, e) (IsKept-refl t)

    finish-IsKept :
        (root : Text) (template : Template) (compose_file : Text) (t : Tree) (r : Tree × Bool)
        → IsKept t r.0
        → IsKept t (finish_files disk context_path root template compose_file r).0
    unfolding finish_files
    finish-IsKept root template compose_file t (u, true) k =
        IsKept-trans t u (write_dockerignore disk context_path root template compose_file u).0 k
          (dockerignore-IsKept root template compose_file u)
    finish-IsKept root template compose_file t (u, false) k = k

    write_files-IsKept :
        (root : Text) (template : Template) (compose_file : Text)
        (contents : Content × Content × Content) (t : Tree)
        → IsKept t (write_files disk context_path root template compose_file contents t).0
    unfolding write_files
    write_files-IsKept root template compose_file (dockerfile, nginx, compose) t =
        finish-IsKept root template compose_file t _ (write_all-IsKept root _ t)

    generate_from-IsKept :
        (options : GenerateOptions) (root compose_file : Text) (template : Template) (t : Tree)
        → IsKept t (generate_from disk context_path options root compose_file template t).0
    unfolding generate_from
    generate_from-IsKept options root compose_file template t =
        elim (Bool-cases
          (text_eq options.build_mode (codes "pull") && not template.supports_pull)) [
            | inl b ↦ rw (generate_from, b) (IsKept-refl t)
            | inr b ↦ elim (Option-cases (context_path compose_file)) [
              | inl c ↦ rw (generate_from, b, c) (IsKept-refl t)
              | inr (path, c) ↦
                  elim (Option-cases (
                    contents_of template (is_positive options.public_port)
                      (if text_eq path [] then codes "." else path))) [
                        | inl d ↦ rw (generate_from, b, c, d) (IsKept-refl t)
                        | inr (contents, d) ↦
                            rw (generate_from, b, c, d)
                              (write_files-IsKept root template compose_file contents t)
                      ]
            ]
          ]

    generate_in-IsKept :
        (options : GenerateOptions) (root compose_file : Text) (t : Tree)
        → IsKept t (generate_in disk context_path options root compose_file t).0
    unfolding generate_in
    generate_in-IsKept options root compose_file t =
        elim (Bool-cases (is_missing (t.lstat (join root compose_file)))) [
          | inr m ↦ rw (generate_in, m) (IsKept-refl t)
          | inl m ↦ elim (Option-cases (chosen_template disk context_path options root t)) [
            | inl c ↦ rw (generate_in, m, c) (IsKept-refl t)
            | inr (template, c) ↦
                rw (generate_in, m, c) (generate_from-IsKept options root compose_file template t)
          ]
        ]

    -- Generation never changes what is there: whichever path was in use before, by a file, a directory
    -- or a link, holds the same entry afterwards, where `MkdirAll` keeps what is there. So it is even
    -- where an error leaves only some of the files.
    pub generate-IsKept :
        (options : GenerateOptions) (t : Tree) → IsKept t (generate disk context_path options t).0
    unfolding generate
    generate-IsKept options t =
        let root = clean options.root in
        elim (Bool-cases (not (valid_root root) || not (is_directory (t.stat root)))) [
          | inl b ↦ rw (generate, b) (IsKept-refl t)
          | inr b ↦ elim (Option-cases (safe_relative_path options.compose_file)) [
            | inl c ↦ rw (generate, b, c) (IsKept-refl t)
            | inr (compose_file, c) ↦
                rw (generate, b, c) (generate_in-IsKept options root compose_file t)
          ]
        ]
