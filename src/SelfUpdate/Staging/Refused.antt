-- ===== src/SelfUpdate/Staging/Refused.antt =====
-- A staging that does not restart the Agent leaves the manifest and the flag as they were.
use my_wio.Base.{
  Bool, true, false, Option, any, ◌≡◌, refl, subst, ◌⊎◌, [], arith, Bool-cases, Option-cases, inl,
  inr,
}
use my_wio.Text.{Text, codes, text_eq, trim_space}
use my_wio.Paths.{join}
use my_wio.BuildInfo.Version.{update_available}
use my_wio.SelfUpdate.{
  write_agent_update_manifest, Stored, absent, Host, Platform, matches_file_hash,
  matches_current_executable,
}
use my_wio.SelfUpdate.Staging.{
  Package, UpdateCommand, blocks_update, Response, broken, body, Agent, Staged, not_written,
  valid_size, valid_checksum, lose_file, store_file, download_agent_update, target_path,
  pending_manifest, write_pending, fetch, checked, prepare, finish_staging, keeps_flag,
  stage_agent_update,
}

-- A refusal keeps the manifest, or it is that of a write that has failed and lost it.
abbrev pub IsKeptOrLost : Stored → Host × Staged → Type 0
IsKeptOrLost c r = (r.0.current ≡ c) ⊎ ((r.1 ≡ not_written) × (r.0.current ≡ absent))

module _ (p : Platform) (architecture : Text) (agent_update_url : Text → Option Text)
    (request : Text → Response) where
  store-current :
      (path : Text) (r : Response) (h : Host)
      → (store_file p architecture agent_update_url request path r h).current ≡ h.current
  unfolding store_file
  store-current path broken h = refl
  store-current path (body n hash) h = refl

  download-current :
      (source path : Text) (pkg : Package) (h : Host)
      → (download_agent_update p architecture agent_update_url request source path pkg h).0.current
        ≡ h.current
  unfolding download_agent_update lose_file
  download-current source path pkg h = ground (arith, store-current path (request source) h)

  write_pending-IsKeptOrLost :
      (command : UpdateCommand) (pkg : Package) (h : Host) (got : Bool)
      → keeps_flag (write_pending p architecture agent_update_url request command pkg (h, got)).1
        ≡ false
      → IsKeptOrLost h.current
          (write_pending p architecture agent_update_url request command pkg (h, got))
  unfolding write_pending keeps_flag write_agent_update_manifest
  write_pending-IsKeptOrLost command pkg h false k = inl refl
  write_pending-IsKeptOrLost command pkg h true k =
      elim (Bool-cases
        (p.can_write (pending_manifest p architecture agent_update_url request command pkg))) [
          | inl w ↦ absurd (ground arith)
          | inr w ↦ elim (Bool-cases (p.loses_file (join p.root (codes "current.json")))) [
            | inl l ↦ rw (w, l) (inr (refl, refl))
            | inr l ↦ rw (w, l) (inl refl)
          ]
        ]

  fetch-IsKeptOrLost :
      (source : Text) (command : UpdateCommand) (pkg : Package) (h : Host)
      → keeps_flag (fetch p architecture agent_update_url request source command pkg h).1 ≡ false
      → IsKeptOrLost h.current (fetch p architecture agent_update_url request source command pkg h)
  unfolding fetch
  fetch-IsKeptOrLost source command pkg h k =
      let target = target_path p architecture agent_update_url request pkg in
      elim (Bool-cases (matches_file_hash p h target pkg.sha256)) [
        | inl there ↦ elim (Bool-cases (matches_current_executable p h target)) [
          | inl current ↦ rw (there, current) (inl refl)
          | inr other ↦
              rw (there, other)
                (write_pending-IsKeptOrLost command pkg h true (rw (there, other) at k))
        ]
        | inr missing ↦
            let got =
              download_agent_update p architecture agent_update_url request source target pkg h in
            rw missing (
              subst
                (λ c.
                  IsKeptOrLost c
                    (write_pending p architecture agent_update_url request command pkg got))
                (download-current source target pkg h)
                (write_pending-IsKeptOrLost command pkg got.0 got.1 (rw missing at k)))
      ]

  checked-IsKeptOrLost :
      (command : UpdateCommand) (pkg : Package) (h : Host)
      → keeps_flag (checked p architecture agent_update_url request command pkg h).1 ≡ false
      → IsKeptOrLost h.current (checked p architecture agent_update_url request command pkg h)
  unfolding checked
  checked-IsKeptOrLost command pkg h k = elim (Bool-cases (valid_size pkg.size)) [
    | inr v ↦ rw v (inl refl)
    | inl v ↦ elim (Bool-cases (valid_checksum pkg.sha256)) [
      | inr c ↦ rw (v, c) (inl refl)
      | inl c ↦ elim (Option-cases (agent_update_url pkg.url)) [
        | inl u ↦ rw (v, c, u) (inl refl)
        | inr (source, u) ↦
            rw (v, c, u) (fetch-IsKeptOrLost source command pkg h (rw (v, c, u) at k))
      ]
    ]
  ]

  prepare-IsKeptOrLost :
      (command : UpdateCommand) (h : Host)
      → keeps_flag (prepare p architecture agent_update_url request command h).1 ≡ false
      → IsKeptOrLost h.current (prepare p architecture agent_update_url request command h)
  unfolding prepare
  prepare-IsKeptOrLost command h k = elim (Bool-cases (text_eq (trim_space command.version) [])) [
    | inl v ↦ rw v (inl refl)
    | inr v ↦ elim (Bool-cases (update_available (p.version_of h.executable) command.version)) [
      | inr n ↦ rw (v, n) (inl refl)
      | inl n ↦ elim (Option-cases (command.packages architecture)) [
        | inl u ↦ rw (v, n, u) (inl refl)
        | inr (pkg, u) ↦ rw (v, n, u) (checked-IsKeptOrLost command pkg h (rw (v, n, u) at k))
      ]
    ]
  ]

  -- Whatever refuses an update, the manifest is the one that was there, unless it is the write of the
  -- new one that fails: then the old one is there or is lost. An update that was pending before stays
  -- pending, while the flag of this one is released.
  pub refused_keeps_manifest :
      (command : UpdateCommand) (a : Agent)
      → keeps_flag (stage_agent_update p architecture agent_update_url request command a).1 ≡ false
      → let (a', outcome) = stage_agent_update p architecture agent_update_url request command a in
        IsKeptOrLost a.host.current (a'.host, outcome) × (a'.update_pending ≡ a.update_pending)
  unfolding stage_agent_update finish_staging
  refused_keeps_manifest command a k = elim (Bool-cases a.update_pending) [
    | inl u ↦ rw u (inl refl, refl)
    | inr u ↦ elim (Bool-cases (any blocks_update a.seen)) [
      | inl b ↦ rw (u, b) (inl refl, refl)
      | inr b ↦ rw (u, b) (prepare-IsKeptOrLost command a.host (rw (u, b) at k), rw (u, b) at k)
    ]
  ]
