-- ===== src/Environment/Loop.antt =====
-- The loop of `GetExecutablePath` (src/platformIndependent.h) ends with the whole path.
use open_ddw.Base.{
  ℕ, zero, suc, ◌+◌, ◌*◌, ◌<◌, ◌≤◌, ◌≡◌, refl, Bool, Option, some, arith, ◌==◌, is_empty,
  if◌then◌else◌, length, Bool-cases, inl, inr, take, length-take, length-take_within, leb, take-all,
}
use open_ddw.Base.Text.{Text, text}
use open_ddw.Dds.{done}
use open_ddw.Environment.{
  path_loop, get_executable_path, get_executable_directory, dds_config_file, default_config_file,
  remove_filename, get_env_var,
}

-- What is documented of `readlink`: it writes as much of the link as the buffer holds.
abbrev pub IsLink : (ℕ → Option Text) → Text → Type 0
IsLink readlink link = (size : ℕ) → 0 < size → readlink size ≡ some (take size link)

path_loop_total :
    (readlink : ℕ → Option Text) (link : Text) (rounds size : ℕ)
    → IsLink readlink link
    → size ≤ length link
    → length link < size + 200 * rounds
    → path_loop readlink rounds size ≡ some (done link)
unfolding path_loop
path_loop_total readlink link zero size l reached enough = absurd (omega arith)
path_loop_total readlink link (suc rounds) size l reached enough =
    elim (Bool-cases (size + 200 == length (take (size + 200) link))) [
      | inl full ↦
          let more : size + 200 ≤ length link = ground (arith, length-take (size + 200) link) in
          rw (path_loop, l (size + 200) (omega arith), full)
            (path_loop_total readlink link rounds (size + 200) l more (omega arith))
      | inr fits ↦
          let whole : take (size + 200) link ≡ link =
            take-all (size + 200) link (elim (Bool-cases (leb (size + 200) (length link))) [
              | inl more ↦ ground (arith, length-take_within (size + 200) link)
              | inr less ↦ ground arith
            ]) in
          rw (path_loop, l (size + 200) (omega arith), fits, whole) refl
    ]

-- Where `readlink` writes as much of the link as the buffer holds, `GetExecutablePath` returns: its
-- loop takes one round more than the link has times 200 bytes at most, and its result is the whole
-- link, whatever its length. `GetExecutableDirectory` returns the part of the link up to its last
-- slash. The search of `joinDomain` for the configuration file comes to the value of DDS_CONFIG_FILE
-- if that is set and not empty, and otherwise to opendds.ini in that directory, or in the one above
-- where the first does not exist.
pub get_executable_path_total :
    (readlink : ℕ → Option Text) (link : Text) (rounds : ℕ) (getenv : Text → Option Text)
    (exists : Text → Bool)
    → IsLink readlink link
    → length link < 200 * rounds
    → (get_executable_path readlink rounds ≡ some (done link))
      × (get_executable_directory readlink rounds ≡ some (done (remove_filename link)))
      × (dds_config_file getenv readlink exists rounds
          ≡ some (
              done (
                if is_empty (get_env_var getenv (text "DDS_CONFIG_FILE"))
                then default_config_file exists (remove_filename link)
                else get_env_var getenv (text "DDS_CONFIG_FILE"))))
unfolding get_executable_path dds_config_file get_executable_directory
get_executable_path_total readlink link rounds getenv exists l enough =
    let path = path_loop_total readlink link rounds 0 l (omega arith) (omega arith) in
    (
      path,
      rw (get_executable_directory, path) refl,
      elim (Bool-cases (is_empty (get_env_var getenv (text "DDS_CONFIG_FILE")))) [
        | inl unset ↦ rw (dds_config_file, unset, get_executable_directory, path) refl
        | inr set ↦ rw (dds_config_file, set) refl
      ],
    )
