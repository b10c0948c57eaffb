-- ===== src/Login/Attempts.antt =====
-- rest/login/attempt.go. Times are in nanoseconds.
use go_devops_platform.Base.{
  ℕ, suc, ◌-◌, String, Bool, true, false, List, [], ◌∷◌, ◌++◌, Option, none, some, ltb, leb,
  if◌then◌else◌, length, drop,
}
use go_devops_platform.Base.Map.{Map, lookup, insert}

-- `map[string][]Attempt`, an attempt being its timestamp.
abbrev pub Attempts : Type 0
Attempts = Map (List ℕ)

abbrev pub three_minutes : ℕ
three_minutes = 180_000_000_000

unfoldable pub clear_attempts_for_login : Attempts → String → Attempts
clear_attempts_for_login attempts login = insert login [] attempts

abbrev pub attempts_of : Option (List ℕ) → List ℕ
attempts_of none = []
attempts_of (some ts) = ts

unfoldable pub record_attempt : ℕ → Attempts → String → Attempts
record_attempt now attempts login =
    insert login (attempts_of (lookup login attempts) ++ now ∷ []) attempts

-- `time.Since(t) <= threeMinutes`; a time that lies ahead counts as recent.
abbrev pub is_recent : ℕ → ℕ → Bool
is_recent now t = leb (now - t) three_minutes

-- `loginAttempts` after the loop
unfoldable pub count_recent : ℕ → List ℕ → ℕ
count_recent now [] = 0
count_recent now (t ∷ ts) =
    let rest = count_recent now ts in if is_recent now t then suc rest else rest

abbrev pub trimmed : List ℕ → List ℕ
trimmed ts = if ltb 3 (length ts) then drop (length ts - 3) ts else ts

-- The answer, and the attempts with the login's list cut to the last three where it is refused.
unfoldable pub check_too_many_logins : ℕ → Attempts → String → Bool × Attempts
unfolding count_recent
check_too_many_logins now attempts login = elim (lookup login attempts) [
  | none ↦ (false, attempts)
  | some ts ↦
      if leb 3 (count_recent now ts)
      then (true, if ltb 3 (length ts) then insert login (trimmed ts) attempts else attempts)
      else (false, attempts)
]
