-- ===== src/Licensing/Sizes.antt =====
-- The number of users by the type of the machine: GetMaxUsersAWS of licensing/aws.go.
use Prim.Native.Char.{Char}
use Prim.Native.String.{[], ◌∷◌, count}
use text.Mathlib.TextLemmas as Text
use go_devops_platform.Base.{
  ℕ, ◌≤◌, ◌≡◌, refl, ap, sym, ◌∙◌, String, Bool, true, false, List, [], ◌∷◌, leb, eqb, ◌&&◌, not,
  ◌==◌, ◌||◌, eq_iff, arith, Bool-cases, inl, inr, All,
}
use go_devops_platform.Base.Text.{◌+++◌, has_suffix}
use go_devops_platform.Licensing.Aws.{first_suffix, aws_sizes, get_max_users_aws}

-- A longer text is another one.
==_longer : (c : Char) (f t s : String) → count s ≤ count t → ((c ∷ (f +++ t)) == s) ≡ false
==_longer c f t s h = elim (Bool-cases ((c ∷ (f +++ t)) == s)) [
  | inr other ↦ other
  | inl same ↦
      let e : (c ∷ (f +++ t)) ≡ s = (eq_iff (c ∷ (f +++ t)) s).0 same in
      let n : count (c ∷ (f +++ t)) ≡ count s = ap count e in
      absurd (omega (arith, h, n, Text.length-cons c (f +++ t), Text.length-append f t))
]

suffix_count : (t s : String) → has_suffix t s ≡ true → count s ≤ count t
unfolding has_suffix
suffix_count [] s h = let n : count [] ≡ count s = ap count ((eq_iff [] s).0 h) in omega (arith, n)
suffix_count (c ∷ t) s h = elim (Bool-cases ((c ∷ t) == s)) [
  | inl same ↦
      let n : count (c ∷ t) ≡ count s = ap count ((eq_iff (c ∷ t) s).0 same) in omega (arith, n)
  | inr other ↦
      let k : has_suffix t s ≡ true = ground (arith, other, h) in
      omega (arith, suffix_count t s k, Text.length-cons c t)
]

-- A text ends in what stands at its end.
suffix_append : (f t : String) → has_suffix (f +++ t) t ≡ true
unfolding has_suffix
suffix_append [] [] = refl
suffix_append [] (c ∷ t) =
    ap (λ x. has_suffix x (c ∷ t)) (Text.nil-append (c ∷ t))
    ∙ ground (arith, eq_iff (c ∷ t) (c ∷ t))
suffix_append (c ∷ f) t =
    ap (λ x. has_suffix x t) (Text.cons-append c f t) ∙ ground (arith, suffix_append f t)

-- What stands before the ending has no influence on a test for a shorter ending.
has_suffix-append : (f t s : String) → count s ≤ count t → has_suffix (f +++ t) s ≡ has_suffix t s
unfolding has_suffix
has_suffix-append [] t s h = ap (λ x. has_suffix x s) (Text.nil-append t)
has_suffix-append (c ∷ f) t s h =
    ap (λ x. has_suffix x s) (Text.cons-append c f t)
    ∙ ground (arith, ==_longer c f t s h, has_suffix-append f t s h)

-- A longer ending of the text ends in a shorter one.
has_suffix-longer :
    (f t s : String) → count t ≤ count s → has_suffix (f +++ t) s ≡ true → has_suffix s t ≡ true
unfolding has_suffix
has_suffix-longer [] [] s h k = ap (λ x. has_suffix x []) (sym ((eq_iff [] s).0 k))
has_suffix-longer [] (c ∷ t) s h k =
    let k' : has_suffix (c ∷ t) s ≡ true =
      ap (λ x. has_suffix x s) (sym (Text.nil-append (c ∷ t))) ∙ k in
    elim (Bool-cases ((c ∷ t) == s)) [
      | inl same ↦
          ap (λ x. has_suffix x (c ∷ t)) (sym ((eq_iff (c ∷ t) s).0 same))
          ∙ ground (arith, eq_iff (c ∷ t) (c ∷ t))
      | inr other ↦
          let shorter : has_suffix t s ≡ true = ground (arith, k', other) in
          absurd (omega (arith, h, suffix_count t s shorter, Text.length-cons c t))
    ]
has_suffix-longer (c ∷ f) t s h k =
    let k' : has_suffix (c ∷ (f +++ t)) s ≡ true =
      ap (λ x. has_suffix x s) (sym (Text.cons-append c f t)) ∙ k in
    elim (Bool-cases ((c ∷ (f +++ t)) == s)) [
      | inl same ↦
          ap (λ x. has_suffix x t) (sym ((eq_iff (c ∷ (f +++ t)) s).0 same))
          ∙ ground (arith, suffix_append f t)
      | inr other ↦ has_suffix-longer f t s h (ground (arith, k', other))
    ]

-- Two endings of which neither ends in the other.
abbrev are_unrelated : String → String → Bool
are_unrelated s t = not (has_suffix s t) && not (has_suffix t s)

has_suffix_unrelated : (f t s : String) → are_unrelated s t ≡ true → has_suffix (f +++ t) s ≡ false
has_suffix_unrelated f t s u = elim (Bool-cases (leb (count s) (count t))) [
  | inl short ↦ ground (arith, short, u, has_suffix-append f t s)
  | inr long ↦ ground (arith, long, u, has_suffix-longer f t s)
]

-- The table gives the number of an ending when no ending before it is related to it.
abbrev finds : String → ℕ → List (String × ℕ) → Bool
finds t n [] = false
finds t n ((s, m) ∷ sizes) = (s == t && eqb m n) || (are_unrelated s t && finds t n sizes)

first_suffix-finds :
    (f t : String) (n : ℕ) (sizes : List (String × ℕ))
    → finds t n sizes ≡ true
    → first_suffix (f +++ t) sizes ≡ n
first_suffix-finds f t n [] h = cc
first_suffix-finds f t n ((s, m) ∷ sizes) h = elim (Bool-cases (s == t)) [
  | inl same ↦
      let e : s ≡ t = (eq_iff s t).0 same in
      let hit : has_suffix (f +++ t) s ≡ true =
        ap (λ x. has_suffix (f +++ t) x) e ∙ suffix_append f t in
      let itself : has_suffix s t ≡ true =
        ap (λ x. has_suffix x t) e
        ∙ (ap (λ x. has_suffix x t) (sym (Text.nil-append t)) ∙ suffix_append "" t) in
      ground (arith, h, hit, itself)
  | inr other ↦ ground (arith, h, other, has_suffix_unrelated f t s, first_suffix-finds f t n sizes)
]

get_max_users_aws-finds :
    (t : String) (n : ℕ)
    → (t == "") ≡ false
    → finds t n aws_sizes ≡ true
    → (family : String) → get_max_users_aws (family +++ t) ≡ n
unfolding get_max_users_aws
get_max_users_aws-finds t n h k family =
    let e : (family +++ t == "") ≡ false = elim (Bool-cases (family +++ t == "")) [
      | inr other ↦ other
      | inl same ↦
          let n : count (family +++ t) ≡ count "" = ap count ((eq_iff (family +++ t) "").0 same) in
          let z : t ≡ "" =
            (Text.length-eq-zero_iff {l = t}).0
              (omega (arith, n, Text.length-append family t, Text.length-nil)) in
          absurd (ground (arith, h, z, eq_iff t ""))
    ] in
    rw e (first_suffix-finds family t n aws_sizes k)

both_true : (a b : Bool) → (a && b) ≡ true → (a ≡ true) × (b ≡ true)
both_true true b h = (refl, h)
both_true false b h = cc

false_of_not : (a : Bool) → not a ≡ true → a ≡ false
false_of_not true h = cc
false_of_not false h = refl

-- Every row of a list of rows is found in the table.
abbrev all_found : List (String × ℕ) → Bool
all_found [] = true
all_found ((t, n) ∷ rows) = (not (t == "") && finds t n aws_sizes) && all_found rows

found_sizes :
    (rows : List (String × ℕ))
    → all_found rows ≡ true
    → All (λ (p : String × ℕ). (family : String) → get_max_users_aws (family +++ p.0) ≡ p.1) rows
found_sizes [] h = tt
found_sizes ((t, n) ∷ rows) h =
    let (row, rest) = both_true (not (t == "") && finds t n aws_sizes) (all_found rows) h in
    let (full, found) = both_true (not (t == "")) (finds t n aws_sizes) row in
    (get_max_users_aws-finds t n (false_of_not (t == "") full) found, found_sizes rows rest)

-- Every size of the table has its own number of users in every family of machines: a machine type
-- that ends in one of the listed sizes, whatever stands before it, allows the number of users that
-- stands beside the size, also where one size ends in the name of another.
pub get_max_users_aws_sizes :
    All (λ (p : String × ℕ). (family : String) → get_max_users_aws (family +++ p.0) ≡ p.1) aws_sizes
unfolding has_suffix
get_max_users_aws_sizes = found_sizes aws_sizes refl
