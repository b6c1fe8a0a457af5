-- ===== src/Client/Update.antt =====
-- internal/client/update.go: how the client replaces its own executable. The two paths of a copy
-- differ, as they do for the downloaded program and the one beside the executable.
pub mod Paths
pub mod Laws
use http_tunnels.Prelude.{
  ℕ, String, Bool, true, false, not, ◌&&◌, ◌||◌, Option, none, some, List, [], ◌∷◌, if◌then◌else◌,
  str_eq, ◌^^◌, is_some, nonempty,
}
use http_tunnels.Prelude.Dict.{Dict, lookup, insert, erase}

-- The files by their path.
abbrev pub Files : Type 0
Files = Dict (List ℕ)

-- What the system does with a call of the program: it does its work, or fails without an effect;
-- a copy that fails can leave part of the file behind.
pub data Fate : Type 0 where
  works fails : Fate
  breaks_off : List ℕ → Fate

-- The fates of the calls of `replaceExecutable`, in their order.
pub record Fates : Type 0 where
  pub copying : Fate
  pub clearing : Fate
  pub backing_up : Fate
  pub installing : Fate
  pub restoring : Fate
  pub discarding : Fate
  pub tidying : Fate

abbrev pub copied : Option (List ℕ) → String → Files → Bool × Files
copied none dst files = (false, files)
copied (some bytes) dst files = (true, insert dst bytes files)

-- `copyFile`: the destination is truncated and written.
pub copy_file : Fate → Files → String → String → Bool × Files
copy_file works files src dst = copied (lookup src files) dst files
copy_file fails files src dst = (false, files)
copy_file (breaks_off part) files src dst =
    if is_some (lookup src files) then (false, insert dst part files) else (false, files)

abbrev pub moved : Option (List ℕ) → String → String → Files → Bool × Files
moved none src dst files = (false, files)
moved (some bytes) src dst files = (true, insert dst bytes (erase src files))

-- `os.Rename`, which takes the place of what is there.
pub rename : Fate → Files → String → String → Bool × Files
rename works files src dst = moved (lookup src files) src dst files
rename _ files src dst = (false, files)

-- `os.Remove`, whose error nobody reads.
pub remove_file : Fate → Files → String → Files
remove_file works files path = erase path files
remove_file _ files path = files

pub data Replaced : Type 0 where
  replaced preparing_failed backing_up_failed installing_failed : Replaced

pub after_install : Fates → Files → String → Bool × Files → Replaced × Files
after_install fates before current (true, files) =
    (replaced, remove_file fates.tidying files (current ^^ ".old"))
after_install fates before current (false, files) =
    let (_, restored) = rename fates.restoring files (current ^^ ".old") current in
    (installing_failed, remove_file fates.discarding restored (current ^^ ".new"))

pub after_backup : Fates → String → Bool × Files → Replaced × Files
after_backup fates current (true, files) =
    after_install fates files current (rename fates.installing files (current ^^ ".new") current)
after_backup fates current (false, files) =
    (backing_up_failed, remove_file fates.discarding files (current ^^ ".new"))

pub after_copy : Fates → String → Bool × Files → Replaced × Files
after_copy fates current (false, files) = (preparing_failed, files)
after_copy fates current (true, files) =
    let cleared = remove_file fates.clearing files (current ^^ ".old") in
    after_backup fates current (rename fates.backing_up cleared current (current ^^ ".old"))

-- `replaceExecutable`
pub replace_executable : Fates → Files → String → String → Replaced × Files
replace_executable fates files current new_binary =
    after_copy fates current (copy_file fates.copying files new_binary (current ^^ ".new"))
