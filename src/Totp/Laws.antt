-- ===== src/Totp/Laws.antt =====
-- Which codes are accepted.
use go_devops_platform.Base.{
  ℕ, zero, suc, ◌+◌, ◌-◌, ◌*◌, ◌/◌, ◌%◌, ◌≤◌, ◌<◌, ◌≡◌, ◌↔◌, refl, String, true, [], ◌∷◌, some, ok,
  arith, ◌==◌, eq_iff, length, get_elem?, Bool-cases, Result-cases, inl, inr, ◌⊎◌,
}
use go_devops_platform.Storage.{Bytes}
use go_devops_platform.Totp.{
  Crypto, put_uint64, read_uint32, truncate, six_digits, get_token, verify_from,
  verify_multiple_intervals,
}

-- An HMAC-SHA1 has 20 bytes.
abbrev pub HasLength20 : Crypto → Type 0
HasLength20 crypto = (key message : Bytes) → length (crypto.hmac key message) ≡ 20

get_elem?_in_range : (h : Bytes) (i : ℕ) → i < length h → (b : ℕ) × (get_elem? h i ≡ some b)
get_elem?_in_range [] i p = absurd (omega arith)
get_elem?_in_range (b ∷ h) zero p = (b, refl)
get_elem?_in_range (b ∷ h) (suc i) p = get_elem?_in_range h i (omega arith)

read_uint32_in_range : (h : Bytes) (i : ℕ) → i + 3 < length h → (n : ℕ) × (read_uint32 h i ≡ some n)
unfolding read_uint32
read_uint32_in_range h i p =
    let (a, ea) = get_elem?_in_range h i (omega arith) in
    let (b, eb) = get_elem?_in_range h (i + 1) (omega arith) in
    let (c, ec) = get_elem?_in_range h (i + 2) (omega arith) in
    let (d, ed) = get_elem?_in_range h (i + 3) (omega arith) in
    (a * 0x1000000 + b * 0x10000 + c * 0x100 + d, ground arith)

truncate_in_range : (h : Bytes) → length h ≡ 20 → (n : ℕ) × (truncate h ≡ some n) × (n < 1000000)
unfolding truncate
truncate_in_range h e =
    let (last, el) = get_elem?_in_range h 19 (omega arith) in
    let (header, eh) = read_uint32_in_range h (last % 16) (omega arith) in
    (header % 0x80000000 % 1000000, ground arith, omega arith)

module _ (crypto : Crypto) (sized : HasLength20 crypto) where
  -- With a secret that decodes, the token is six digits of a number below a million: no index is
  -- out of range, whatever the bytes of the HMAC are.
  pub get_token_total :
      (secret : String) (key : Bytes) (interval : ℕ)
      → crypto.decode secret ≡ ok key
      → (n : ℕ) × (get_token crypto secret interval ≡ ok (six_digits n)) × (n < 1000000)
  unfolding get_token
  get_token_total secret key interval e =
      let (n, en, lt) = truncate_in_range (crypto.hmac key (put_uint64 interval)) (sized key _) in
      (n, ground arith, lt)

  -- Some interval among the `left` from the i-th back has the code for its token.
  abbrev AcceptedFrom : String → String → ℕ → ℕ → ℕ → Type 0
  AcceptedFrom secret code now i left =
      (j : ℕ) × (i ≤ j) × (j < i + left) × (get_token crypto secret ((now - j * 30) / 30) ≡ ok code)

  verify_from_sound :
      (secret code : String) (now i left : ℕ)
      → verify_from crypto secret code now i left ≡ ok true
      → AcceptedFrom secret code now i left
  unfolding verify_from
  verify_from_sound secret code now i zero e = cc
  verify_from_sound secret code now i (suc left) e =
      elim (Result-cases (get_token crypto secret ((now - i * 30) / 30))) [
        | inr (message, k) ↦ absurd (ground arith)
        | inl (token, k) ↦ elim (Bool-cases (token == code)) [
          | inl same ↦ (i, omega arith, omega arith, ground (arith, eq_iff token code))
          | inr other ↦
              let (j, lo, hi, accepted) =
                verify_from_sound secret code now (i + 1) left (ground arith) in
              (j, omega arith, omega arith, accepted)
        ]
      ]

  verify_from_complete :
      (secret code : String) (key : Bytes) (now i left j : ℕ)
      → crypto.decode secret ≡ ok key
      → i ≤ j
      → j < i + left
      → get_token crypto secret ((now - j * 30) / 30) ≡ ok code
      → verify_from crypto secret code now i left ≡ ok true
  unfolding verify_from
  verify_from_complete secret code key now i zero j d lo hi e = absurd (omega arith)
  verify_from_complete secret code key now i (suc left) j d lo hi e =
      let (n, k, lt) = get_token_total secret key ((now - i * 30) / 30) d in
      elim (Bool-cases (six_digits n == code)) [
        | inl same ↦ ground (arith, k, same)
        | inr other ↦
            let later : (i ≡ j) ⊎ (i < j) = grind arith in
            elim later [
              | inl here ↦
                  let at_j : get_token crypto secret ((now - i * 30) / 30) ≡ ok code = rw here e in
                  ground (arith, k, at_j, other, eq_iff (six_digits n) code)
              | inr after ↦ ground (
                arith,
                k,
                other,
                verify_from_complete secret code key now (i + 1) left j d (omega arith)
                    (omega arith) e,
              )
            ]
      ]

  -- With a secret that decodes, a code is accepted over `count` intervals exactly when it is the
  -- token of one of them: the one of `now`, or of 30, 60, … seconds before.
  pub verify_multiple_intervals_iff :
      (secret code : String) (key : Bytes) (count now : ℕ)
      → crypto.decode secret ≡ ok key
      → (verify_multiple_intervals crypto secret code count now ≡ ok true)
        ↔ ((j : ℕ) × (j < count) × (get_token crypto secret ((now - j * 30) / 30) ≡ ok code))
  unfolding verify_multiple_intervals
  verify_multiple_intervals_iff secret code key count now d = (
    λ e.
        let (j, lo, hi, accepted) = verify_from_sound secret code now 0 count e in
        (j, omega arith, accepted),
    λ (j, lt, e).
        verify_from_complete secret code key now 0 count j d (omega arith) (omega arith) e,
  )
