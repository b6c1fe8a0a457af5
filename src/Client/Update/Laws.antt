-- ===== src/Client/Update/Laws.antt =====
-- The client never loses its executable.
use http_tunnels.Prelude.{
  ℕ, String, true, false, some, List, ◌≡◌, ◌≢◌, ◌⊎◌, inl, inr, refl, ap, sym, ◌∙◌, arith,
  if◌then◌else◌, str_eq, eq_iff, eq_refl, ◌^^◌, is_some,
}
use mathlib.Core.Path.{subst}
use http_tunnels.Prelude.Dict.{lookup, insert, erase, lookup-insert, lookup-erase}
use http_tunnels.Client.Update.{
  Files, Fate, works, fails, breaks_off, Fates, copied, copy_file, moved, rename, remove_file,
  Replaced, replaced, installing_failed, after_install, after_backup, after_copy,
  replace_executable,
}
use http_tunnels.Client.Update.Paths.{differ_of_suffix, longer, second_code}

-- What the replacement may come to: the new program is in place, or the old one still is, or,
-- if it could not be put back, it lies under the name of the backup.
abbrev pub IsSafe : Fates → String → List ℕ → List ℕ → Replaced × Files → Type 0
IsSafe fates current old new (outcome, files) =
    ((outcome ≡ replaced) × (lookup current files ≡ some new))
    ⊎ ((outcome ≢ replaced) × (lookup current files ≡ some old))
    ⊎ ((outcome ≡ installing_failed)
        × (fates.restoring ≢ works)
        × (lookup (current ^^ ".old") files ≡ some old))

module _ (fates : Fates) (current : String) (old new : List ℕ) where
  abbrev new_path : String
  new_path = current ^^ ".new"

  abbrev old_path : String
  old_path = current ^^ ".old"

  current-new : str_eq current new_path ≡ false
  current-new = longer current ".new" (λ e. cc)

  current-old : str_eq current old_path ≡ false
  current-old = longer current ".old" (λ e. cc)

  old-new : str_eq old_path new_path ≡ false
  old-new = differ_of_suffix current ".old" ".new" (λ e. omega (arith, ap second_code e))

  new-old : str_eq new_path old_path ≡ false
  new-old = differ_of_suffix current ".new" ".old" (λ e. omega (arith, ap second_code e))

  new-current : str_eq new_path current ≡ false
  new-current = ground (arith, current-new, eq_iff new_path current, eq_iff current new_path)

  old-current : str_eq old_path current ≡ false
  old-current = ground (arith, current-old, eq_iff old_path current, eq_iff current old_path)

  remove_file-other :
      (fate : Fate) (files : Files) (path other : String)
      → str_eq other path ≡ false
      → lookup other (remove_file fate files path) ≡ lookup other files
  unfolding remove_file
  remove_file-other works files path other h = lookup-erase other path files ∙ rw h refl
  remove_file-other fails files path other h = refl
  remove_file-other (breaks_off part) files path other h = refl

  installed-IsSafe :
      (before files : Files)
      → lookup current files ≡ some new
      → IsSafe fates current old new (after_install fates before current (true, files))
  unfolding after_install
  installed-IsSafe before files h =
      inl (refl, remove_file-other fates.tidying files old_path current current-old ∙ h)

  -- A rename that is not hindered.
  rename-works :
      (files : Files) (src dst : String) (bytes : List ℕ)
      → lookup src files ≡ some bytes
      → rename works files src dst ≡ (true, insert dst bytes (erase src files))
  unfolding rename
  rename-works files src dst bytes h = ap (λ o. moved o src dst files) h

  restore-cases :
      (fate : Fate) (files : Files)
      → lookup old_path files ≡ some old
      → (lookup current (rename fate files old_path current).1 ≡ some old)
        ⊎ ((fate ≢ works) × (lookup old_path (rename fate files old_path current).1 ≡ some old))
  unfolding rename
  restore-cases works files h = inl (
      ap (λ r. lookup current r.1) (rename-works files old_path current old h)
      ∙ lookup-insert current current old (erase old_path files)
      ∙ rw eq_refl refl)
  restore-cases fails files h = inr (λ e. cc, h)
  restore-cases (breaks_off part) files h = inr (λ e. cc, h)

  not_installed-IsSafe :
      (before files : Files)
      → lookup old_path files ≡ some old
      → IsSafe fates current old new (after_install fates before current (false, files))
  unfolding after_install
  not_installed-IsSafe before files h =
      let restored = (rename fates.restoring files old_path current).1 in
      let keeps = remove_file-other fates.discarding restored new_path in
      elim (restore-cases fates.restoring files h) [
        | inl back ↦ inr (inl (λ e. cc, keeps current current-new ∙ back))
        | inr (not_back, kept) ↦ inr (inr (refl, not_back, keeps old_path old-new ∙ kept))
      ]

  install-IsSafe :
      (fate : Fate) (before files : Files)
      → lookup old_path files ≡ some old
      → lookup new_path files ≡ some new
      → IsSafe fates current old new
          (after_install fates before current (rename fate files new_path current))
  unfolding rename
  install-IsSafe works before files o n =
      subst (λ r. IsSafe fates current old new (after_install fates before current r))
        (sym (rename-works files new_path current new n))
        (installed-IsSafe before (insert current new (erase new_path files))
          (lookup-insert current current new (erase new_path files) ∙ rw eq_refl refl))
  install-IsSafe fails before files o n = not_installed-IsSafe before files o
  install-IsSafe (breaks_off part) before files o n = not_installed-IsSafe before files o

  backed_up-IsSafe :
      (files : Files)
      → lookup old_path files ≡ some old
      → lookup new_path files ≡ some new
      → IsSafe fates current old new (after_backup fates current (true, files))
  unfolding after_backup
  backed_up-IsSafe files o n = install-IsSafe fates.installing files files o n

  not_backed_up-IsSafe :
      (files : Files)
      → lookup current files ≡ some old
      → IsSafe fates current old new (after_backup fates current (false, files))
  unfolding after_backup
  not_backed_up-IsSafe files h =
      inr (inl (λ e. cc, remove_file-other fates.discarding files new_path current current-new ∙ h))

  backup-IsSafe :
      (fate : Fate) (files : Files)
      → lookup current files ≡ some old
      → lookup new_path files ≡ some new
      → IsSafe fates current old new
          (after_backup fates current (rename fate files current old_path))
  unfolding rename
  backup-IsSafe works files c n =
      let there = insert old_path old (erase current files) in
      subst (λ r. IsSafe fates current old new (after_backup fates current r))
        (sym (rename-works files current old_path old c))
        (backed_up-IsSafe there
          (lookup-insert old_path old_path old (erase current files) ∙ rw eq_refl refl)
          (lookup-insert new_path old_path old (erase current files)
            ∙ rw new-old (lookup-erase new_path current files ∙ rw new-current n)))
  backup-IsSafe fails files c n = not_backed_up-IsSafe files c
  backup-IsSafe (breaks_off part) files c n = not_backed_up-IsSafe files c

  copied-IsSafe :
      (files : Files)
      → lookup current files ≡ some old
      → lookup new_path files ≡ some new
      → IsSafe fates current old new (after_copy fates current (true, files))
  unfolding after_copy
  copied-IsSafe files c n =
      let clear = remove_file-other fates.clearing files old_path in
      backup-IsSafe fates.backing_up (remove_file fates.clearing files old_path)
        (clear current current-old ∙ c) (clear new_path new-old ∙ n)

  not_copied-IsSafe :
      (files : Files)
      → lookup current files ≡ some old
      → IsSafe fates current old new (after_copy fates current (false, files))
  unfolding after_copy
  not_copied-IsSafe files h = inr (inl (λ e. cc, h))

  copy-IsSafe :
      (fate : Fate) (files : Files) (new_binary : String)
      → lookup current files ≡ some old
      → lookup new_binary files ≡ some new
      → IsSafe fates current old new
          (after_copy fates current (copy_file fate files new_binary new_path))
  unfolding copy_file
  copy-IsSafe works files new_binary c n =
      let there = insert new_path new files in
      subst (λ o. IsSafe fates current old new (after_copy fates current (copied o new_path files)))
        (sym n)
        (copied-IsSafe there (lookup-insert current new_path new files ∙ rw current-new c)
          (lookup-insert new_path new_path new files ∙ rw eq_refl refl))
  copy-IsSafe fails files new_binary c n = not_copied-IsSafe files c
  copy-IsSafe (breaks_off part) files new_binary c n =
      subst
        (λ o. IsSafe fates current old new (
          after_copy fates current
            (if is_some o then (false, insert new_path part files) else (false, files))))
        (sym n)
        (not_copied-IsSafe (insert new_path part files)
          (lookup-insert current new_path part files ∙ rw current-new c))

-- Whatever calls of the system fail while the client replaces its executable: if it reports
-- success, the new program is in place; if it reports an error, the old one is in place, or, when
-- the installation failed and the rename that puts the old program back failed as well, the old
-- program is kept under the name of the backup.
pub replace_executable-IsSafe :
    (fates : Fates) (files : Files) (current new_binary : String) (old new : List ℕ)
    → lookup current files ≡ some old
    → lookup new_binary files ≡ some new
    → IsSafe fates current old new (replace_executable fates files current new_binary)
unfolding replace_executable
replace_executable-IsSafe fates files current new_binary old new c n =
    copy-IsSafe fates current old new fates.copying files new_binary c n
