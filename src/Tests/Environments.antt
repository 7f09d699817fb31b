-- ===== src/Tests/Environments.antt =====
-- Theorems on the environment of the program, applied to a concrete path.
use open_ddw.Base.{◌≡◌, refl, ℕ, Bool, false, Option, none, some, take, arith}
use open_ddw.Base.Text.{Text, text}
use open_ddw.Dds.{done}
use open_ddw.Environment.{
  get_executable_path, get_executable_directory, dds_config_file, remove_filename,
  default_config_file, join_path,
}
use open_ddw.Environment.Loop.{get_executable_path_total}

abbrev link : Text
link = text "/opt/ddw/bin/viewer"

abbrev readlink : ℕ → Option Text
readlink size = some (take size link)

abbrev unset : Text → Option Text
unset var = none

abbrev nowhere : Text → Bool
nowhere path = false

get_executable_path_total_example :
    (get_executable_path readlink 1 ≡ some (done link))
    × (get_executable_directory readlink 1 ≡ some (done (text "/opt/ddw/bin/")))
    × (dds_config_file unset readlink nowhere 1 ≡ some (done (text "/opt/ddw/bin/../opendds.ini")))
unfolding remove_filename default_config_file join_path
get_executable_path_total_example =
    get_executable_path_total readlink link 1 unset nowhere (λ size positive. refl) (omega arith)
