-- ===== src/Util/Misc/Tests.antt =====
-- The theorems of util/misc.go at short arrays and texts.
use goms.Base.{ℕ, Bytes, codes, nat_eq, List, [], ◌∷◌, ◌≡◌, refl, arith}
use goms.Util.Misc.Commands.{parse_cmd, cmd_of, export_service_function}
use goms.Base.Int.{pos, negsuc}
use goms.Util.Misc.{array_to_string, get_version_from_str}
use goms.Util.Misc.Versions.{get_version_from_str-array_to_string}

get_version_from_str-array_to_string_example :
    get_version_from_str (array_to_string (pos 1 ∷ pos 20 ∷ negsuc 2 ∷ []) (b'.' ∷ []))
    ≡ pos 1 ∷ pos 20 ∷ negsuc 2 ∷ []
get_version_from_str-array_to_string_example =
    get_version_from_str-array_to_string (pos 1) (pos 20 ∷ negsuc 2 ∷ [])
      (omega arith, (omega arith, (omega arith, tt)))

-- Two methods end in one command, and two names have none: one is too short, one ends in no number.
abbrev method_names : List Bytes
method_names =
    codes "Enter000A"
    ∷ codes "Login0001"
    ∷ codes "Logon0001"
    ∷ codes "Start"
    ∷ codes "Shutdown"
    ∷ []

abbrev found_commands : List (ℕ × Bytes)
found_commands = (10, codes "Enter000A") ∷ (1, codes "Logon0001") ∷ []

export_service_function_test : export_service_function method_names ≡ found_commands
unfolding export_service_function cmd_of parse_cmd
export_service_function_test = refl
