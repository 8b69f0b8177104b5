-- ===== src/SelfUpdate/Staging/Ready.antt =====
-- A staged update is ready to be started, and a refused one leaves the manifest as it was.
use my_wio.Base.{
  ℕ, Bool, true, false, Option, some, [], ◌∷◌, map, any, ◌≡◌, refl, ap, ◌∙◌, arith, Bool-cases,
  Option-cases, inl, inr,
}
use my_wio.Text.{Text, text_eq, to_lower, trim_space}
use my_wio.Text.Laws.{text_eq_refl}
use my_wio.BuildInfo.Version.{update_available}
use my_wio.SelfUpdate.{
  Manifest, Stored, stored, Host, Platform, equal_fold, matches_file_hash,
  matches_current_executable, write_agent_update_manifest,
}
use my_wio.SelfUpdate.Staging.{
  Package, UpdateCommand, blocks_update, valid_size, valid_checksum, Response, broken, body,
  restarts_into, Agent, received, store_file, download_agent_update, target_path, pending_manifest,
  write_pending, fetch, checked, prepare, finish_staging, keeps_flag, stage_agent_update,
}

to_lower_twice : (c : ℕ) → to_lower (to_lower c) ≡ to_lower c
unfolding to_lower
to_lower_twice c = ground arith

lower_twice : (t : Text) → map to_lower (map to_lower t) ≡ map to_lower t
lower_twice [] = refl
lower_twice (c ∷ t) = ground (arith, to_lower_twice c, lower_twice t)

equal_fold-lower : (a b : Text) → equal_fold a (map to_lower b) ≡ equal_fold a b
unfolding equal_fold
equal_fold-lower a b = ap (λ t. text_eq (map to_lower a) t) (lower_twice b)

module _ (p : Platform) (architecture : Text) (agent_update_url : Text → Option Text)
    (request : Text → Response) where
  matches-lower :
      (h : Host) (path sha256 : Text)
      → matches_file_hash p h path (map to_lower sha256) ≡ matches_file_hash p h path sha256
  unfolding matches_file_hash
  matches-lower h path sha256 = elim (Option-cases (h.file_hash path)) [
    | inl e ↦ rw (matches_file_hash, e) refl
    | inr (hash, e) ↦ rw (matches_file_hash, e) (equal_fold-lower hash sha256)
  ]

  abbrev target : Package → Text
  target = target_path p architecture agent_update_url request

  abbrev pending_for : UpdateCommand → Package → Manifest
  pending_for = pending_manifest p architecture agent_update_url request

  stored_file-matches :
      (path : Text) (pkg : Package) (h : Host) (r : Response)
      → received p architecture agent_update_url request r pkg ≡ true
      → matches_file_hash p
          (store_file p architecture agent_update_url request path r h)
          path
          pkg.sha256
        ≡ true
  unfolding received store_file matches_file_hash
  stored_file-matches path pkg h broken e = absurd (ground arith)
  stored_file-matches path pkg h (body n hash) e =
      rw (matches_file_hash, text_eq_refl path) (ground arith)

  downloaded :
      (source path : Text) (pkg : Package) (h : Host)
      → (download_agent_update p architecture agent_update_url request source path pkg h).1 ≡ true
      → matches_file_hash p
          (download_agent_update p architecture agent_update_url request source path pkg h).0
          path
          pkg.sha256
        ≡ true
  unfolding download_agent_update
  downloaded source path pkg h e =
      elim (Bool-cases (received p architecture agent_update_url request (request source) pkg)) [
        | inl r ↦ elim (Bool-cases (p.can_place path)) [
          | inl w ↦ rw (r, w) (stored_file-matches path pkg h (request source) r)
          | inr w ↦ absurd (ground arith)
        ]
        | inr r ↦ absurd (ground arith)
      ]

  -- What a staging that restarts leaves: the package's binary at its path, and its pending manifest.
  abbrev pub IsReady : UpdateCommand → Package → Text → Host → Type 0
  IsReady command pkg path h =
      (path ≡ target pkg)
      × (h.current ≡ stored (pending_for command pkg))
      × (matches_file_hash p h path (map to_lower pkg.sha256) ≡ true)

  path_of : {a b : Text} → restarts_into a ≡ restarts_into b → b ≡ a
  path_of e = ground arith

  matches-current :
      (h : Host) (c : Stored) (path hash : Text)
      → matches_file_hash p (record h { current = c }) path hash ≡ matches_file_hash p h path hash
  unfolding matches_file_hash
  matches-current h c path hash = refl

  write_pending-IsReady :
      (command : UpdateCommand) (pkg : Package) (h : Host) (got : Bool) {path : Text}
      → (got ≡ true → matches_file_hash p h (target pkg) pkg.sha256 ≡ true)
      → (write_pending p architecture agent_update_url request command pkg (h, got)).1
        ≡ restarts_into path
      → IsReady command pkg path
          (write_pending p architecture agent_update_url request command pkg (h, got)).0
  unfolding write_pending write_agent_update_manifest
  write_pending-IsReady command pkg h false m e = absurd (ground arith)
  write_pending-IsReady command pkg h true {path} m e =
      elim (Bool-cases (p.can_write (pending_for command pkg))) [
        | inr w ↦ absurd (ground arith)
        | inl w ↦
            let same : path ≡ target pkg = path_of (rw w at e) in
            rw (w, same)
              (
                refl,
                refl,
                matches-current h (stored (pending_for command pkg)) (target pkg)
                      (map to_lower pkg.sha256)
                    ∙ matches-lower h (target pkg) pkg.sha256
                    ∙ m refl,
              )
      ]

  fetch-IsReady :
      (source : Text) (command : UpdateCommand) (pkg : Package) (h : Host) {path : Text}
      → (fetch p architecture agent_update_url request source command pkg h).1 ≡ restarts_into path
      → IsReady command pkg path
          (fetch p architecture agent_update_url request source command pkg h).0
  unfolding fetch
  fetch-IsReady source command pkg h e =
      elim (Bool-cases (matches_file_hash p h (target pkg) pkg.sha256)) [
        | inl there ↦ elim (Bool-cases (matches_current_executable p h (target pkg))) [
          | inl current ↦ absurd (ground arith)
          | inr other ↦
              rw (there, other)
                (write_pending-IsReady command pkg h true (λ _. there) (rw (there, other) at e))
        ]
        | inr missing ↦
            let got =
              download_agent_update p architecture agent_update_url request source (target pkg) pkg
                h in
            rw missing (
              write_pending-IsReady command pkg got.0 got.1 (downloaded source (target pkg) pkg h)
                (rw missing at e))
      ]

  checked-IsReady :
      (command : UpdateCommand) (pkg : Package) (h : Host) {path : Text}
      → (checked p architecture agent_update_url request command pkg h).1 ≡ restarts_into path
      → (valid_size pkg.size ≡ true)
        × (valid_checksum pkg.sha256 ≡ true)
        × IsReady command pkg path (checked p architecture agent_update_url request command pkg h).0
  unfolding checked
  checked-IsReady command pkg h e = elim (Bool-cases (valid_size pkg.size)) [
    | inr v ↦ absurd (ground arith)
    | inl v ↦ elim (Bool-cases (valid_checksum pkg.sha256)) [
      | inr c ↦ absurd (ground arith)
      | inl c ↦ elim (Option-cases (agent_update_url pkg.url)) [
        | inl u ↦ absurd (ground arith)
        | inr (source, u) ↦
            rw (v, c, u) (refl, refl, fetch-IsReady source command pkg h (rw (v, c, u) at e))
      ]
    ]
  ]

  -- What a staging has checked before the Agent restarts, and what it leaves.
  abbrev pub IsStaged : UpdateCommand → Text → Host → Host → Type 0
  IsStaged command path h h' =
      (update_available (p.version_of h.executable) command.version ≡ true)
      × ((pkg : Package) × (command.packages architecture ≡ some pkg)
          × (valid_size pkg.size ≡ true)
          × (valid_checksum pkg.sha256 ≡ true)
          × IsReady command pkg path h')

  prepare-IsStaged :
      (command : UpdateCommand) (h : Host) {path : Text}
      → (prepare p architecture agent_update_url request command h).1 ≡ restarts_into path
      → IsStaged command path h (prepare p architecture agent_update_url request command h).0
  unfolding prepare
  prepare-IsStaged command h e = elim (Bool-cases (text_eq (trim_space command.version) [])) [
    | inl v ↦ absurd (ground arith)
    | inr v ↦ elim (Bool-cases (update_available (p.version_of h.executable) command.version)) [
      | inr n ↦ absurd (ground arith)
      | inl n ↦ elim (Option-cases (command.packages architecture)) [
        | inl u ↦ absurd (ground arith)
        | inr (pkg, u) ↦
            let ready = checked-IsReady command pkg h (rw (v, n, u) at e) in
            rw (v, n, u) (refl, (pkg, refl, ready.0, ready.1, ready.2))
      ]
    ]
  ]

  -- An update is staged for a restart only where none was pending and no task ran that must not be
  -- cut off, for a newer version and a package of this architecture with a valid size and checksum.
  -- The file at the path then has the package's hash, the manifest is the pending one of the package,
  -- and the flag stays set until the Agent restarts.
  pub stage_agent_update-IsStaged :
      (command : UpdateCommand) (a : Agent) {path : Text}
      → (stage_agent_update p architecture agent_update_url request command a).1
        ≡ restarts_into path
      → let a' = (stage_agent_update p architecture agent_update_url request command a).0 in
        (a.update_pending ≡ false)
        × (any blocks_update a.seen ≡ false)
        × (a'.update_pending ≡ true)
        × IsStaged command path a.host a'.host
  unfolding stage_agent_update finish_staging keeps_flag
  stage_agent_update-IsStaged command a {path} e = elim (Bool-cases a.update_pending) [
    | inl u ↦ absurd (ground arith)
    | inr u ↦ elim (Bool-cases (any blocks_update a.seen)) [
      | inl b ↦ absurd (ground arith)
      | inr b ↦
          let r = prepare p architecture agent_update_url request command a.host in
          let e' : r.1 ≡ restarts_into path = rw (u, b) at e in
          rw (u, b, e') (refl, refl, refl, prepare-IsStaged command a.host e')
    ]
  ]
