-- ===== src/Login/Limit.antt =====
-- When a login is refused for too many attempts.
use go_devops_platform.Base.{
  ℕ, zero, suc, ◌+◌, ◌-◌, ◌≤◌, ◌≡◌, refl, String, true, false, List, [], ◌∷◌, ltb, leb, length,
  drop, arith, eq_iff, Bool-cases, inl, inr, Option-cases,
}
use go_devops_platform.Base.Map.{lookup, lookup-insert}
use go_devops_platform.Login.Attempts.{
  Attempts, is_recent, count_recent, attempts_of, trimmed, check_too_many_logins,
}

-- The recorded times do not fall along the list, and lie at or before `now`.
abbrev pub IsAscending : List ℕ → Type 0
IsAscending [] = Unit
IsAscending (t ∷ []) = Unit
IsAscending (t ∷ u ∷ ts) = (t ≤ u) × IsAscending (u ∷ ts)

-- Along an ascending list, if the head is recent, all are.
count_recent_all :
    (now : ℕ) (t : ℕ) (ts : List ℕ)
    → IsAscending (t ∷ ts)
    → is_recent now t ≡ true
    → count_recent now (t ∷ ts) ≡ length (t ∷ ts)
unfolding count_recent
count_recent_all now t [] a r = ground arith
count_recent_all now t (u ∷ ts) (le, a) r = ground (arith, count_recent_all now u ts a)

count_recent-le : (now : ℕ) (ts : List ℕ) → count_recent now ts ≤ length ts
unfolding count_recent
count_recent-le now [] = omega arith
count_recent-le now (t ∷ ts) = ground (arith, count_recent-le now ts)

IsAscending-tail : (t : ℕ) (ts : List ℕ) → IsAscending (t ∷ ts) → IsAscending ts
IsAscending-tail t [] a = tt
IsAscending-tail t (u ∷ ts) (le, a) = a

count_recent-tail :
    (now t : ℕ) (ts : List ℕ)
    → is_recent now t ≡ false
    → count_recent now (t ∷ ts) ≡ count_recent now ts
unfolding count_recent
count_recent-tail now t ts old = rw old refl

-- Cutting an ascending list to its last three keeps whether three of it are recent.
count_recent-drop :
    (now n : ℕ) (ts : List ℕ)
    → IsAscending ts
    → n + 3 ≤ length ts
    → leb 3 (count_recent now (drop n ts)) ≡ leb 3 (count_recent now ts)
count_recent-drop now zero ts a h = refl
count_recent-drop now (suc n) [] a h = absurd (omega arith)
count_recent-drop now (suc n) (t ∷ []) a h = absurd (omega arith)
count_recent-drop now (suc n) (t ∷ u ∷ ts) (le, a) h = elim (Bool-cases (is_recent now t)) [
  | inl recent ↦ ground (
    arith,
    count_recent_all now t (u ∷ ts) (le, a) recent,
    count_recent_all now u ts a,
    count_recent-drop now n (u ∷ ts) a,
  )
  | inr old ↦
      ground (arith, old, count_recent-tail now t (u ∷ ts), count_recent-drop now n (u ∷ ts) a)
]

leb-trimmed :
    (now : ℕ) (ts : List ℕ)
    → IsAscending ts
    → leb 3 (count_recent now (trimmed ts)) ≡ leb 3 (count_recent now ts)
leb-trimmed now ts a = elim (Bool-cases (ltb 3 (length ts))) [
  | inl long ↦ rw long (count_recent-drop now (length ts - 3) ts a (ground arith))
  | inr short ↦ rw short refl
]

pub check_too_many_logins_lem :
    (now : ℕ) (attempts : Attempts) (login : String)
    → (check_too_many_logins now attempts login).0
      ≡ leb 3 (count_recent now (attempts_of (lookup login attempts)))
unfolding check_too_many_logins
check_too_many_logins_lem now attempts login = ground arith

count_after_check :
    (now later : ℕ) (attempts : Attempts) (login other : String)
    → IsAscending (attempts_of (lookup login attempts))
    → leb 3 (
        count_recent later
          (attempts_of (lookup other (check_too_many_logins now attempts login).1)))
      ≡ leb 3 (count_recent later (attempts_of (lookup other attempts)))
unfolding check_too_many_logins
count_after_check now later attempts login other a = elim (Option-cases (lookup login attempts)) [
  | inl missing ↦ ground (arith, missing)
  | inr (ts, e) ↦ ground (
    arith,
    e,
    eq_iff login other,
    lookup-insert login other (trimmed ts) attempts,
    leb-trimmed later ts,
  )
]

-- Where the times of a login do not fall along its list, cutting the list to the last three, which
-- a refusal does, changes no later answer for any login.
pub check_too_many_logins_trimmed :
    (now later : ℕ) (attempts : Attempts) (login other : String)
    → IsAscending (attempts_of (lookup login attempts))
    → (check_too_many_logins later (check_too_many_logins now attempts login).1 other).0
      ≡ (check_too_many_logins later attempts other).0
check_too_many_logins_trimmed now later attempts login other a =
    rw (check_too_many_logins_lem later (check_too_many_logins now attempts login).1 other) (
      rw (check_too_many_logins_lem later attempts other)
        (count_after_check now later attempts login other a))
