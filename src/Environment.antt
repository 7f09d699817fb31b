-- ===== src/Environment.antt =====
-- Where the program runs (src/platformIndependent.h), as it is built on Linux, and where `joinDomain`
-- (src/dds_manager.cpp) finds its configuration file. What `readlink`, `getenv` and the file system
-- answer is an argument.
pub mod Loop
pub mod Platforms
use open_ddw.Base.{
  ℕ, zero, suc, ◌+◌, Bool, true, false, not, Option, none, some, [], ◌∷◌, ◌++◌, ◌==◌, is_empty,
  if◌then◌else◌, length,
}
use open_ddw.Base.Text.{Text, text}
use open_ddw.Dds.{Outcome, done, throws, ◌>>=◌}

-- `getenv`: `none` is the null pointer.
abbrev pub get_env_var : (Text → Option Text) → Text → Text
get_env_var getenv var = elim (getenv var) [ none ↦ [] | some s ↦ s ]

-- `readlink` gets the size of the buffer; `some s` says that it wrote the bytes `s`, `none` that it
-- returned a number below 0. The first number counts the rounds, `none` says that they did not
-- suffice; the second is the size of the buffer so far, which was filled.
unfoldable pub path_loop : (ℕ → Option Text) → ℕ → ℕ → Option (Outcome Text)
path_loop readlink zero size = none
path_loop readlink (suc rounds) size =
    let size' = size + 200 in
    let again = path_loop readlink rounds size' in
    elim (readlink size') [
      | none ↦ some (throws (text "Error finding the executable path."))
      | some s ↦ if size' == length s then again else some (done s)
    ]

unfoldable pub get_executable_path : (ℕ → Option Text) → ℕ → Option (Outcome Text)
unfolding path_loop
get_executable_path readlink rounds = path_loop readlink rounds 0

abbrev has_slash : Text → Bool
has_slash [] = false
has_slash (c ∷ t) = if c == b'/' then true else has_slash t

-- `path::remove_filename`: what follows the last slash goes.
unfoldable pub remove_filename : Text → Text
remove_filename [] = []
remove_filename (c ∷ t) =
    let rest = remove_filename t in
    if has_slash t then c ∷ rest else if c == b'/' then c ∷ [] else []

-- `path::operator/=` with a relative path.
unfoldable pub join_path : Text → Text → Text
join_path [] q = q
join_path (c ∷ []) q = if c == b'/' then c ∷ q else c ∷ b'/' ∷ q
join_path (c ∷ e ∷ p) q = c ∷ join_path (e ∷ p) q

unfoldable pub get_executable_directory : (ℕ → Option Text) → ℕ → Option (Outcome Text)
unfolding get_executable_path remove_filename
get_executable_directory readlink rounds = elim (get_executable_path readlink rounds) [
  | none ↦ none
  | some r ↦ some (r >>= λ path. done (remove_filename path))
]

-- The search of `joinDomain`, for a directory of the executable.
unfoldable pub default_config_file : (Text → Bool) → Text → Text
unfolding join_path
default_config_file exists directory =
    let beside = join_path directory (text "opendds.ini") in
    if not (exists beside)
    then join_path (join_path directory (text "..")) (text "opendds.ini")
    else beside

unfoldable pub dds_config_file :
    (Text → Option Text) → (ℕ → Option Text) → (Text → Bool) → ℕ → Option (Outcome Text)
unfolding get_executable_directory default_config_file
dds_config_file getenv readlink exists rounds =
    let variable = get_env_var getenv (text "DDS_CONFIG_FILE") in
    if is_empty variable
    then (elim (get_executable_directory readlink rounds) [
      | none ↦ none
      | some r ↦ some (r >>= λ directory. done (default_config_file exists directory))
    ])
    else some (done variable)
