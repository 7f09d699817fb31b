-- ===== src/Dds/Status.antt =====
-- `DDSManager::getErrorName` and `DDSManager::checkStatus` (src/dds_manager.cpp).
use open_ddw.Base.{Bool, true, false, Option, none, some, ◌++◌, if◌then◌else◌, not, ◌&&◌}
use open_ddw.Base.Text.{Text, text}
use open_ddw.Dds.{
  ReturnCode, retcode_ok, retcode_error, retcode_unsupported, retcode_bad_parameter,
  retcode_precondition_not_met, retcode_out_of_resources, retcode_not_enabled,
  retcode_immutable_policy, retcode_inconsistent_policy, retcode_already_deleted, retcode_timeout,
  retcode_no_data, retcode_illegal_operation, other,
}

unfoldable pub get_error_name : ReturnCode → Text
get_error_name retcode_ok = text "OK"
get_error_name retcode_error = text "ERROR"
get_error_name retcode_unsupported = text "UNSUPPORTED"
get_error_name retcode_bad_parameter = text "BAD PARAMETER"
get_error_name retcode_precondition_not_met = text "PRECONDITION NOT MET"
get_error_name retcode_out_of_resources = text "OUT OF RESOURCES"
get_error_name retcode_not_enabled = text "NOT ENABLED"
get_error_name retcode_immutable_policy = text "IMMUTABLE POLICY"
get_error_name retcode_inconsistent_policy = text "INCONSISTENT POLICY"
get_error_name retcode_already_deleted = text "ALREADY DELETED"
get_error_name retcode_timeout = text "TIMEOUT"
get_error_name retcode_no_data = text "NO DATA"
get_error_name retcode_illegal_operation = text "ILLEGAL OPERATION"
get_error_name (other n) = text "Unknown"

abbrev pub is_ok : ReturnCode → Bool
is_ok retcode_ok = true
is_ok _ = false

abbrev pub is_no_data : ReturnCode → Bool
is_no_data retcode_no_data = true
is_no_data _ = false

-- The line that goes to `std::cerr`, if one does.
unfoldable pub check_status : ReturnCode → Text → Option Text
check_status status info =
    if not (is_ok status) && not (is_no_data status)
    then some (text "Error in " ++ (info ++ (text ": " ++ get_error_name status)))
    else none
