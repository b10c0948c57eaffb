-- ===== src/Rest/Server.antt =====
-- rest/types.go as far as the handlers of logins and users read it, and rest/helpers.go.
use Prim.Native.Char.{Char, code}
use Prim.Native.String.{[], ◌∷◌}
use go_devops_platform.Base.{ℕ, List, String, Bool, true, ◌&&◌, ◌||◌, leb}
use go_devops_platform.Base.Int.{ℤ}
use go_devops_platform.Users.Types.{User, World, Factor}
use go_devops_platform.Login.Attempts.{Attempts}
use go_devops_platform.Login.Authenticate.{LoginResponse}

-- `Context`, with the world of the user store and the disk of the storage.
pub record Server (Disk : Type 0) : Type 0 where
  pub world : World Disk
  pub login_attempts : Attempts
  pub local_auth_disabled : Bool
  pub license_user_count : ℤ

-- The body of a response.
pub data Payload : Type 0 where
  failure : String → Payload
  session : LoginResponse → Payload
  account : User → Payload
  factors : List Factor → Payload
  deleted : String → Payload
  done : Payload

pub record Answer : Type 0 where
  pub status : ℕ
  pub payload : Payload

-- returnError
abbrev pub return_error : ℕ → String → Answer
return_error status e = record { status = status; payload = failure e }

-- write
abbrev pub write : Payload → Answer
write payload = record { status = 200; payload = payload }

abbrev is_alpha_numeric_char : Char → Bool
is_alpha_numeric_char c =
    (leb b'a' (code c) && leb (code c) b'z')
    || ((leb b'A' (code c) && leb (code c) b'Z') || (leb b'0' (code c) && leb (code c) b'9'))

unfoldable pub is_alpha_numeric : String → Bool
is_alpha_numeric [] = true
is_alpha_numeric (c ∷ s) = is_alpha_numeric_char c && is_alpha_numeric s
