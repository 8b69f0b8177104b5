-- ===== src/SelfUpdate/Rollback.antt =====
-- Starting a new binary: it is checked first, tried once, and rolled back unless it is confirmed.
use my_wio.Base.{
  ℕ, suc, ◌≤◌, Bool, true, false, List, [], ◌∷◌, ◌≡◌, refl, if◌then◌else◌, arith, Bool-cases, inl,
  inr,
}
use my_wio.Text.{Text, text_eq}
use my_wio.Paths.{clean, join}
use my_wio.BuildInfo.Version.{update_available}
use my_wio.SelfUpdate.{
  Manifest, Stored, absent, unreadable, stored, Host, Platform, Reading, no_manifest, bad_manifest,
  found, attempting, set_state, Activation, continues, fails, replaced, valid_manifest,
  read_agent_update_manifest, matches_file_hash, matches_current_executable,
  write_agent_update_manifest, remove_manifest, attempt, activate_found, activate_current_update,
}

unfoldable pub is_replaced : Activation → Bool
is_replaced continues = false
is_replaced fails = false
is_replaced replaced = true

-- A manifest that no start acts on: there is none, or its binary was tried.
unfoldable pub is_spent : Stored → Bool
is_spent absent = true
is_spent unreadable = true
is_spent (stored m) = text_eq m.state attempting

-- The processes that a machine starts one after the other, each from some executable.
unfoldable pub replacements : Platform → List Text → Host → ℕ
replacements p [] h = 0
replacements p (executable ∷ rest) h =
    let (h', activation) = activate_current_update p (record h { executable = executable }) in
    let n = replacements p rest h' in if is_replaced activation then suc n else n

not_continues : is_replaced continues ≡ true → ⊥
unfolding is_replaced
not_continues h = ground arith

not_fails : is_replaced fails ≡ true → ⊥
unfolding is_replaced
not_fails h = ground arith

module _ (p : Platform) where
  attempt-is_spent :
      (m : Manifest) (binary : Text) (h : Host)
      → is_replaced (attempt p m binary h).1 ≡ true
      → is_spent (attempt p m binary h).0.current ≡ true
  unfolding attempt is_replaced is_spent write_agent_update_manifest set_state
  attempt-is_spent m binary h r = ground arith

  found-is_spent :
      (m : Manifest) (binary : Text) (h : Host)
      → is_replaced (activate_found p m binary h).1 ≡ true
      → is_spent (activate_found p m binary h).0.current ≡ true
  unfolding activate_found is_replaced
  found-is_spent m binary h r = ground (arith, attempt-is_spent m binary h)

  removed-is_spent :
      (h : Host) → is_spent h.current ≡ true → is_spent (remove_manifest p h).current ≡ true
  unfolding remove_manifest is_spent
  removed-is_spent h s = ground arith

  -- A start in which the binary was tried already.
  abbrev IsQuiet : Host × Activation → Type 0
  IsQuiet (h', activation) = (is_replaced activation ≡ false) × (is_spent h'.current ≡ true)

  found-IsQuiet :
      (m : Manifest) (binary : Text) (h : Host)
      → text_eq m.state attempting ≡ true
      → is_spent h.current ≡ true
      → IsQuiet (activate_found p m binary h)
  unfolding activate_found is_replaced
  found-IsQuiet m binary h a s = (ground arith, ground (arith, removed-is_spent h))

  -- What was read is what is stored.
  pub read-found :
      (s : Stored) {m : Manifest} {binary : Text}
      → read_agent_update_manifest p s ≡ found m binary
      → (s ≡ stored m) × (valid_manifest p m ≡ true) × (binary ≡ join p.root (clean m.binary))
  unfolding read_agent_update_manifest
  read-found absent e = absurd (ground arith)
  read-found unreadable e = absurd (ground arith)
  read-found (stored n) e = elim (Bool-cases (valid_manifest p n)) [
    | inl v ↦ (ground arith, ground arith, ground arith)
    | inr v ↦ absurd (ground arith)
  ]

  pub activate-found :
      (h : Host) {m : Manifest} {binary : Text}
      → read_agent_update_manifest p h.current ≡ found m binary
      → activate_current_update p h ≡ activate_found p m binary h
  unfolding activate_current_update
  activate-found h e = ground arith

  activate-bad :
      (h : Host)
      → read_agent_update_manifest p h.current ≡ bad_manifest
      → activate_current_update p h ≡ (remove_manifest p h, fails)
  unfolding activate_current_update
  activate-bad h e = ground arith

  activate-none :
      (h : Host)
      → read_agent_update_manifest p h.current ≡ no_manifest
      → activate_current_update p h ≡ (h, continues)
  unfolding activate_current_update
  activate-none h e = ground arith

  spent-attempting :
      {s : Stored} {m : Manifest}
      → s ≡ stored m
      → is_spent s ≡ true
      → text_eq m.state attempting ≡ true
  unfolding is_spent
  spent-attempting e s = ground arith

  activate-IsQuiet : (h : Host) → is_spent h.current ≡ true → IsQuiet (activate_current_update p h)
  activate-IsQuiet h s = of_reading (read_agent_update_manifest p h.current) refl
    where
      of_reading :
          (r : Reading)
          → read_agent_update_manifest p h.current ≡ r
          → IsQuiet (activate_current_update p h)
      of_reading no_manifest e = rw (activate-none h e) (unfold is_replaced in refl, s)
      of_reading bad_manifest e =
          rw (activate-bad h e) (unfold is_replaced in refl, removed-is_spent h s)
      of_reading (found m binary) e =
          rw (activate-found h e)
            (found-IsQuiet m binary h (spent-attempting (read-found h.current e).0 s) s)

  activate-is_spent :
      (h : Host)
      → is_replaced (activate_current_update p h).1 ≡ true
      → is_spent (activate_current_update p h).0.current ≡ true
  activate-is_spent h r = of_reading (read_agent_update_manifest p h.current) refl
    where
      of_reading :
          (reading : Reading)
          → read_agent_update_manifest p h.current ≡ reading
          → is_spent (activate_current_update p h).0.current ≡ true
      of_reading no_manifest e = absurd (not_continues (rw (activate-none h e) at r))
      of_reading bad_manifest e = absurd (not_fails (rw (activate-bad h e) at r))
      of_reading (found m binary) e =
          rw (activate-found h e) (found-is_spent m binary h (rw (activate-found h e) at r))

  spent_replacements :
      (executables : List Text) (h : Host)
      → is_spent h.current ≡ true
      → replacements p executables h ≡ 0
  unfolding replacements
  spent_replacements [] h s = refl
  spent_replacements (executable ∷ rest) h s =
      let started : Host = record h { executable = executable } in
      let q = activate-IsQuiet started s in
      rw q.0 (spent_replacements rest (activate_current_update p started).0 q.1)

  -- Whatever processes are started one after the other, each from the base binary or from any other,
  -- a staged update replaces at most one of them: a binary that does not live to be confirmed is not
  -- tried again.
  pub replaced_at_most_once :
      (executables : List Text) (h : Host) → replacements p executables h ≤ 1
  unfolding replacements
  replaced_at_most_once [] h = omega arith
  replaced_at_most_once (executable ∷ rest) h =
      let started : Host = record h { executable = executable } in
      elim (Bool-cases (is_replaced (activate_current_update p started).1)) [
        | inl r ↦
            rw
              (
                r,
                spent_replacements rest (activate_current_update p started).0
                    (activate-is_spent started r),
              )
              (omega arith)
        | inr r ↦ rw r (replaced_at_most_once rest (activate_current_update p started).0)
      ]

  -- What a start has checked before it lets a binary replace the process.
  abbrev pub IsChecked : Host → Manifest → Type 0
  IsChecked h m =
      let binary = join p.root (clean m.binary) in
      (matches_file_hash p h binary m.sha256 ≡ true)
      × (matches_current_executable p h binary ≡ false)
      × (update_available (p.version_of h.executable) m.version ≡ true)
      × (text_eq m.state attempting ≡ false)

  found-IsChecked :
      (m : Manifest) (h : Host)
      → (activate_found p m (join p.root (clean m.binary)) h).1 ≡ replaced
      → IsChecked h m
        × ((activate_found p m (join p.root (clean m.binary)) h).0 ≡ record h {
          current = stored (set_state attempting m);
          executable = join p.root (clean m.binary);
        })
  unfolding activate_found attempt write_agent_update_manifest
  found-IsChecked m h e = ((ground arith, ground arith, ground arith, ground arith), ground arith)

  -- A start replaces the process only by the binary that a valid manifest names, below the directory
  -- of the updates, with the manifest's hash and a newer version than the running one, that was not
  -- tried before. The manifest then says that it is tried.
  pub activate-IsChecked :
      (h : Host)
      → (activate_current_update p h).1 ≡ replaced
      → (m : Manifest) × (h.current ≡ stored m)
        × (valid_manifest p m ≡ true)
        × IsChecked h m
        × ((activate_current_update p h).0 ≡ record h {
          current = stored (set_state attempting m);
          executable = join p.root (clean m.binary);
        })
  activate-IsChecked h r = of_reading (read_agent_update_manifest p h.current) refl
    where
      of_reading :
          (reading : Reading)
          → read_agent_update_manifest p h.current ≡ reading
          → (m : Manifest) × (h.current ≡ stored m)
            × (valid_manifest p m ≡ true)
            × IsChecked h m
            × ((activate_current_update p h).0 ≡ record h {
              current = stored (set_state attempting m);
              executable = join p.root (clean m.binary);
            })
      of_reading no_manifest e = absurd (ground (arith, activate-none h e))
      of_reading bad_manifest e = absurd (ground (arith, activate-bad h e))
      of_reading (found m binary) e =
          let (current, valid, path) = read-found h.current e in
          let same = activate-found h (rw path at e) in
          let c = found-IsChecked m h (rw same at r) in (m, current, valid, c.0, rw same c.1)
