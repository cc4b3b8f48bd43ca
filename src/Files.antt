-- ===== src/Files.antt =====
-- What the server does to files, by package os of Go's library: the files are an association list from
-- paths to contents, and each call may be refused.
pub mod Keeps
use wgxdp.Base.{
  ℕ, String, ◌<>◌, ◌≡◌, not, Option, none, some, List, [], ◌∷◌, ◌==◌, ==_iff, ==_refl, string_eq,
  if◌then◌else◌, arith,
}
use wgxdp.World.{World, StoredFile}
use wgxdp.Act.{Act, ok, err, pure, fail, guard, modify, on_error, ◌>>=◌, ◌>>◌}
use wgxdp.Sql.{check}

abbrev pub Files : Type 0
Files = List (String × StoredFile)

unfoldable pub find_file : String → Files → Option StoredFile
find_file path [] = none
find_file path ((name, file) ∷ files) = if name == path then some file else find_file path files

unfoldable pub put_file : String → StoredFile → Files → Files
put_file path file [] = (path, file) ∷ []
put_file path file ((name, old) ∷ files) =
    if name == path then (name, file) ∷ files else (name, old) ∷ put_file path file files

pub find_file-put_file :
    (path : String) (file : StoredFile) (files : Files)
    → find_file path (put_file path file files) ≡ some file
unfolding find_file put_file
find_file-put_file path file [] = ground (arith, ==_refl path)
find_file-put_file path file ((name, old) ∷ files) =
    ground (arith, ==_iff name path, find_file-put_file path file files)

-- An error is `os.ErrNotExist` or another.
pub data FileError : Type 0 where
  not_exist : FileError
  refused : String → FileError

abbrev pub file_error_text : String → FileError → String
file_error_text what not_exist = what <> ": no such file or directory"
file_error_text what (refused e) = e

unfoldable pub found_file : String → Act FileError StoredFile
found_file path env w = elim (find_file path w.host.files) [
  | none ↦ (err not_exist, w)
  | some file ↦ (ok file, w)
]

-- `os.Stat`, and the opening of a file to read it.
unfoldable pub stat : String → Act FileError StoredFile
unfolding found_file ◌>>=◌ check
stat path = do on_error (check (λ env. env.file_error)) (λ e. fail (refused e)); found_file path

-- `os.ReadFile`
unfoldable pub read_file : String → Act FileError String
unfolding stat ◌>>=◌
read_file path = do file ← stat path; pure file.content

abbrev stored : String → StoredFile → World → World
stored path file w = record w { host = record w.host { files = put_file path file w.host.files } }

-- The directory part of `filepath.Split`: the text up to the last slash.
unfoldable pub split_dir : String → String
split_dir String.[] = ""
split_dir (String.◌∷◌ c s) =
    let rest = split_dir s in
    if (rest == "") then (if (String.◌∷◌ c "" == "/") then "/" else "") else String.◌∷◌ c rest

-- `os.MkdirAll`, which refuses the empty path.
unfoldable pub mkdir_all : String → Act String (Unit {0})
unfolding check ◌>>=◌
mkdir_all dir = do
  check (λ env. env.file_error)
  guard (not (dir == "")) "mkdir : no such file or directory"
  modify (λ w. record w { host = record w.host { directories = dir ∷ w.host.directories } })

-- `os.Create`: an empty file, of mode 0666 (less the umask) when it is new.
abbrev pub emptied : Option StoredFile → StoredFile
emptied none = record { content = ""; mode = 438 }
emptied (some file) = record file { content = "" }

unfoldable pub create : String → Act String (Unit {0})
unfolding check ◌>>=◌
create path = do
  check (λ env. env.file_error)
  modify (λ w. stored path (emptied (find_file path w.host.files)) w)

unfoldable pub change_file : String → (StoredFile → StoredFile) → World → World
change_file path f w = elim (find_file path w.host.files) [
  | none ↦ w
  | some file ↦ stored path (f file) w
]

pub find_file-change_file :
    (path : String) (f : StoredFile → StoredFile) (w : World) {file : StoredFile}
    → find_file path w.host.files ≡ some file
    → find_file path (change_file path f w).host.files ≡ some (f file)
unfolding change_file
find_file-change_file path f w {file = file} e =
    ground (arith, find_file-put_file path (f file) w.host.files)

-- `os.Chmod` on a file that is there.
unfoldable pub chmod : String → ℕ → Act String (Unit {0})
unfolding check change_file ◌>>=◌
chmod path mode = do
  check (λ env. env.file_error)
  modify (change_file path (λ file. record file { mode = mode }))

-- The first `f.WriteString` after `os.Create`.
unfoldable pub write_string : String → String → Act String (Unit {0})
unfolding check change_file ◌>>=◌
write_string path text = do
  check (λ env. env.file_error)
  modify (change_file path (λ file. record file { content = text }))

split_dir_runs :
    (split_dir "/var/lib/wgxdp/wgkey" ≡ "/var/lib/wgxdp/")
    × (split_dir "wgkey" ≡ "")
    × (split_dir "a/b" ≡ "a/")
unfolding split_dir
split_dir_runs = ground arith
