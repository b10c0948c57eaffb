-- ===== src/Totp.antt =====
-- mfa/totp/verify.go. Base 32 and HMAC-SHA1 are parameters.
pub mod Laws
use go_devops_platform.Base.{
  ℕ, zero, suc, ◌+◌, ◌-◌, ◌*◌, ◌/◌, ◌%◌, String, Bool, true, false, List, [], ◌∷◌, Option, none,
  some, Result, ok, err, eqb, ltb, if◌then◌else◌, ◌==◌, get_elem?,
}
use go_devops_platform.Base.Text.{◌+++◌}
use go_devops_platform.Storage.{Bytes}

-- `decode` is base32.StdEncoding.DecodeString(strings.ToUpper(secret)), `hmac key message` is
-- HMAC-SHA1.
pub record Crypto : Type 0 where
  pub decode : String → Result Bytes
  pub hmac : Bytes → Bytes → Bytes

-- binary.BigEndian.PutUint64(buf, uint64(n))
abbrev pub put_uint64 : ℕ → Bytes
put_uint64 n =
    n / 0x100000000000000 % 256
    ∷ n / 0x1000000000000 % 256
    ∷ n / 0x10000000000 % 256
    ∷ n / 0x100000000 % 256
    ∷ n / 0x1000000 % 256
    ∷ n / 0x10000 % 256
    ∷ n / 0x100 % 256
    ∷ n % 256
    ∷ []

-- The big-endian number in h[i:i+4]; `none` is an index out of range.
unfoldable pub read_uint32 : Bytes → ℕ → Option ℕ
read_uint32 h i = elim (get_elem? h i) [
  | none ↦ none
  | some a ↦ elim (get_elem? h (i + 1)) [
    | none ↦ none
    | some b ↦ elim (get_elem? h (i + 2)) [
      | none ↦ none
      | some c ↦ elim (get_elem? h (i + 3)) [
        | none ↦ none
        | some d ↦ some (a * 0x1000000 + b * 0x10000 + c * 0x100 + d)
      ]
    ]
  ]
]

-- The dynamic truncation: the low four bits of the last byte say where the number stands.
unfoldable pub truncate : Bytes → Option ℕ
unfolding read_uint32
truncate h = elim (get_elem? h 19) [
  | none ↦ none
  | some last ↦ elim (read_uint32 h (last % 16)) [
    | none ↦ none
    | some header ↦ some (header % 0x80000000 % 1000000)
  ]
]

abbrev digit : ℕ → String
digit d =
    if eqb d 0
    then "0"
    else if eqb d 1
    then "1"
    else if eqb d 2
    then "2"
    else if eqb d 3
    then "3"
    else if eqb d 4
    then "4"
    else if eqb d 5
    then "5"
    else if eqb d 6
    then "6"
    else if eqb d 7
    then "7"
    else if eqb d 8
    then "8"
    else "9"

-- fmt.Sprintf("%06d", n), for n below a million
unfoldable pub six_digits : ℕ → String
six_digits n =
    digit (n / 100000 % 10)
    +++ digit (n / 10000 % 10)
    +++ digit (n / 1000 % 10)
    +++ digit (n / 100 % 10)
    +++ digit (n / 10 % 10)
    +++ digit (n % 10)

module _ (crypto : Crypto) where
  -- `err "panic"` stands for an index out of range.
  unfoldable pub get_token : String → ℕ → Result String
  unfolding truncate six_digits
  get_token secret interval = elim (crypto.decode secret) [
    | err e ↦ err ("base32 decode error: " +++ e)
    | ok key ↦ elim (truncate (crypto.hmac key (put_uint64 interval))) [
      | none ↦ err "panic"
      | some n ↦ ok (six_digits n)
    ]
  ]

  -- `now` is in seconds.
  unfoldable pub verify : ℕ → String → String → Result Bool
  unfolding get_token
  verify now secret code = elim (get_token secret (now / 30)) [
    | err e ↦ err ("GetToken error: " +++ e)
    | ok token ↦ ok (token == code)
  ]

  -- The loop from i on, with `left` rounds to go. The times are not before 1970.
  verify_from : String → String → ℕ → ℕ → ℕ → Result Bool
  verify_from secret code now i zero = ok false
  verify_from secret code now i (suc left) = elim (get_token secret ((now - i * 30) / 30)) [
    | err e ↦ err ("GetToken error: " +++ e)
    | ok token ↦ elim (token == code) [
      | true ↦ ok true
      | false ↦ verify_from secret code now (i + 1) left
    ]
  ]

  unfoldable pub verify_multiple_intervals : String → String → ℕ → ℕ → Result Bool
  unfolding verify_from
  verify_multiple_intervals secret code count now = verify_from secret code now 0 count
