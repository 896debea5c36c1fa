-- ===== src/Cmd/Lines.antt =====
-- What a program writes, and how it ends.
use fstorex.Base.{ℕ, String, Bool, true, false, List, [], ◌∷◌, ◌||◌}

-- A line on the standard output, a record of the logger there, by its message and its error, or a
-- line on the standard error output.
pub data Line : Type 0 where
  printed : String → Line
  logged_error : String → String → Line
  logged_info : String → Line
  complained : String → Line

-- How `main` ends: what it has written, and its exit code.
pub record Ended : Type 0 where
  pub out : List Line
  pub code : ℕ

abbrev pub is_error : Line → Bool
is_error (printed s) = false
is_error (logged_error message text) = true
is_error (logged_info message) = false
is_error (complained s) = true

-- Whether some line tells an error.
abbrev pub tells_error : List Line → Bool
tells_error [] = false
tells_error (l ∷ out) = is_error l || tells_error out

-- `os.Exit(1)` behind the record of an error.
unfoldable pub exit_with : String → String → Ended
exit_with message text = record { out = logged_error message text ∷ []; code = 1 }

-- `os.Exit(1)` behind a line that tells the usage.
unfoldable pub usage : String → Ended
usage line = record { out = printed line ∷ []; code = 1 }

-- The end of `main`.
unfoldable pub done : List Line → Ended
done out = record { out = out; code = 0 }
