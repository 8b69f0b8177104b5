-- ===== src/SelfUpdate/Success.antt =====
-- A good update, from the start that tries it to its confirmation.
use my_wio.Base.{true, ◌≡◌, ◌∙◌, refl, arith}
use my_wio.Text.{Text}
use my_wio.Paths.{clean, join}
use my_wio.SelfUpdate.{
  Manifest, stored, Host, Platform, found, attempting, healthy, set_state, continues, replaced,
  valid_manifest, read_agent_update_manifest, matches_file_hash, matches_current_executable,
  write_agent_update_manifest, attempt, activate_found, activate_current_update, confirm_found,
  confirm_current_update,
}
use my_wio.SelfUpdate.Rollback.{IsChecked, activate-found}

module _ (p : Platform) where
  read-stored :
      (m : Manifest)
      → valid_manifest p m ≡ true
      → read_agent_update_manifest p (stored m) ≡ found m (join p.root (clean m.binary))
  unfolding read_agent_update_manifest
  read-stored m v = rw v refl

  -- The process that runs the binary of the manifest, which it is to be tried.
  abbrev pub tried : Manifest → Host → Host
  tried m h = record h {
    current = stored (set_state attempting m);
    executable = join p.root (clean m.binary);
  }

  valid-tried :
      (m : Manifest) → valid_manifest p m ≡ true → valid_manifest p (set_state attempting m) ≡ true
  unfolding valid_manifest set_state
  valid-tried m v = v

  tries :
      (h : Host) (m : Manifest)
      → IsChecked p h m
      → p.can_write (set_state attempting m) ≡ true
      → p.can_exec (join p.root (clean m.binary)) ≡ true
      → activate_found p m (join p.root (clean m.binary)) h ≡ (tried m h, replaced)
  unfolding activate_found attempt write_agent_update_manifest
  tries h m (hash, other, newer, fresh) w x = rw (hash, other, newer, fresh, w, x) refl

  goes_on :
      (h : Host) (m : Manifest)
      → matches_file_hash p h (join p.root (clean m.binary)) m.sha256 ≡ true
      → p.same_path (join p.root (clean m.binary)) (join p.root (clean m.binary)) ≡ true
      → activate_found p (set_state attempting m) (join p.root (clean m.binary)) (tried m h)
        ≡ (tried m h, continues)
  unfolding activate_found matches_file_hash matches_current_executable set_state
  goes_on h m hash same = rw (hash, same) refl

  confirms :
      (h : Host) (m : Manifest)
      → p.can_write (set_state healthy (set_state attempting m)) ≡ true
      → p.same_path (join p.root (clean m.binary)) (join p.root (clean m.binary)) ≡ true
      → confirm_found p (set_state attempting m) (join p.root (clean m.binary)) (tried m h) ≡ (
        record (tried m h) { current = stored (set_state healthy (set_state attempting m)) },
        true,
      )
  unfolding confirm_found write_agent_update_manifest matches_current_executable set_state
  confirms h m w same = rw (w, same) refl

  confirm-found :
      (h : Host) {m : Manifest} {binary : Text}
      → read_agent_update_manifest p h.current ≡ found m binary
      → confirm_current_update p h ≡ confirm_found p m binary h
  unfolding confirm_current_update
  confirm-found h e = ground arith

  binary-set_state : (state : Text) (m : Manifest) → (set_state state m).binary ≡ m.binary
  unfolding set_state
  binary-set_state state m = refl

  -- A good update succeeds: where the stored manifest is valid and not yet tried, its binary has the
  -- hash and a newer version, no write fails and the binary can be run, the start replaces the process,
  -- the new process goes on at its own start, and its confirmation marks the manifest healthy.
  pub update_succeeds :
      (h : Host) (m : Manifest)
      → h.current ≡ stored m
      → valid_manifest p m ≡ true
      → IsChecked p h m
      → ((n : Manifest) → p.can_write n ≡ true)
      → ((path : Text) → p.can_exec path ≡ true)
      → ((path : Text) → p.same_path path path ≡ true)
      → (activate_current_update p h ≡ (tried m h, replaced))
        × (activate_current_update p (tried m h) ≡ (tried m h, continues))
        × (confirm_current_update p (tried m h) ≡ (
          record (tried m h) { current = stored (set_state healthy (set_state attempting m)) },
          true,
        ))
  unfolding set_state
  update_succeeds h m c v checked writes execs same =
      let binary = join p.root (clean m.binary) in
      let again = read-stored (set_state attempting m) (valid-tried m v) in
      (
        activate-found p h (rw c (read-stored m v))
            ∙ tries h m checked (writes (set_state attempting m)) (execs binary),
        activate-found p (tried m h) again ∙ goes_on h m checked.0 (same binary),
        confirm-found (tried m h) again
            ∙ confirms h m (writes (set_state healthy (set_state attempting m))) (same binary),
      )
