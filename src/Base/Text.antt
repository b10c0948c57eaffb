-- ===== src/Base/Text.antt =====
-- The functions of Go's packages strings and path that the program calls, over the characters of a
-- text. Letters are folded in ASCII.
use Prim.Native.Char.{Char, code}
use Prim.Native.Nat.{ℕ, zero, suc, ◌+◌, pred}
use Prim.Native.String
use Prim.Native.String.{String, [], ◌∷◌, count}
use mathlib.Core.Path.{◌≡◌, refl}
use mathlib.Core.Bool.{Bool, true, false, ◌&&◌, ◌||◌}
use mathlib.Core.List.{List, [], ◌∷◌}
use text.Mathlib.Text.{◌==◌}
use go_devops_platform.Base.Tests.{if◌then◌else◌, eqb, leb}

infixr 65 ◌+++◌
-- Concatenation, Go's `+` on strings.
abbrev pub ◌+++◌ : String → String → String
s +++ t = String.◌++◌ s t

abbrev char_eq : Char → Char → Bool
char_eq c d = eqb (code c) (code d)

-- strings.HasPrefix(s, p)
unfoldable pub has_prefix : String → String → Bool
has_prefix s [] = true
has_prefix [] (d ∷ p) = false
has_prefix (c ∷ s) (d ∷ p) = char_eq c d && has_prefix s p

-- strings.HasSuffix(s, t)
unfoldable pub has_suffix : String → String → Bool
has_suffix [] t = [] == t
has_suffix (c ∷ s) t = (c ∷ s) == t || has_suffix s t

-- strings.TrimPrefix(s, p)
unfoldable pub trim_prefix : String → String → String
unfolding has_prefix
trim_prefix s p = String.slice s (if has_prefix s p then String.len p else 0) (String.len s)

-- strings.TrimSuffix(s, t), for a t that is not empty
unfoldable pub trim_suffix : String → String → String
trim_suffix [] t = []
trim_suffix (c ∷ s) t = let rest : String = c ∷ trim_suffix s t in if (c ∷ s) == t then [] else rest

-- strings.ReplaceAll(s, old, new), for an `old` that is not empty; `skip` counts the characters
-- of a match that are still to be passed over.
unfoldable pub replace_from : ℕ → String → String → String → String
replace_from skip [] old new = []
replace_from (suc skip) (c ∷ s) old new = replace_from skip s old new
replace_from zero (c ∷ s) old new =
    let replaced = new +++ replace_from (pred (count old)) s old new in
    let kept : String = c ∷ replace_from zero s old new in
    if has_prefix (c ∷ s) old then replaced else kept

unfoldable pub replace_all : String → String → String → String
unfolding replace_from has_prefix
replace_all s old new = replace_from zero s old new

-- strings.Split(s, sep), for a separator of one character
unfoldable pub split_from : ℕ → String → String → List String
split_from sep cur [] = cur ∷ []
split_from sep cur (c ∷ s) =
    let closed : List String = cur ∷ split_from sep [] s in
    let longer : List String = split_from sep (cur +++ (c ∷ [])) s in
    if eqb (code c) sep then closed else longer

unfoldable pub split : ℕ → String → List String
unfolding split_from
split sep s = split_from sep [] s

abbrev is_space : Char → Bool
is_space c = eqb (code c) 32 || (leb 9 (code c) && leb (code c) 13)

-- The first and last characters that pass the test are dropped.
unfoldable pub trim_left : (Char → Bool) → String → String
trim_left p [] = []
trim_left p (c ∷ s) = let rest = trim_left p s in if p c then rest else c ∷ s

abbrev push_trimmed : (Char → Bool) → Char → String → String
push_trimmed p c [] = if p c then [] else c ∷ []
push_trimmed p c (d ∷ s) = c ∷ d ∷ s

unfoldable pub trim_right : (Char → Bool) → String → String
trim_right p [] = []
trim_right p (c ∷ s) = push_trimmed p c (trim_right p s)

-- strings.TrimSpace(s)
unfoldable pub trim_space : String → String
unfolding trim_left trim_right
trim_space s = trim_right is_space (trim_left is_space s)

-- strings.Trim(s, cutset), for a cutset of one character
unfoldable pub trim : ℕ → String → String
unfolding trim_left trim_right
trim cut s = trim_right (λ c. eqb (code c) cut) (trim_left (λ c. eqb (code c) cut) s)

-- The code points of a text.
abbrev pub codes : String → List ℕ
codes [] = []
codes (c ∷ s) = code c ∷ codes s

abbrev lower_code : ℕ → ℕ
lower_code n = if leb b'A' n && leb n b'Z' then n + 32 else n

-- strings.ToLower(s) == t, for a lower-case ASCII text t
unfoldable pub lower_is : String → String → Bool
lower_is [] [] = true
lower_is [] (d ∷ t) = false
lower_is (c ∷ s) [] = false
lower_is (c ∷ s) (d ∷ t) = eqb (lower_code (code c)) (code d) && lower_is s t

-- What ".." does to the stack.
clean_up : Bool → List String → List String
clean_up rooted [] = if rooted then [] else ".." ∷ []
clean_up rooted (top ∷ below) = if top == ".." then ".." ∷ top ∷ below else below

-- One element of path.Clean; the stack has its top at the head.
clean_step : Bool → List String → String → List String
clean_step rooted stack part =
    if part == "" || part == "."
    then stack
    else if part == ".."
    then clean_up rooted stack
    else part ∷ stack

clean_from : Bool → List String → List String → List String
clean_from rooted stack [] = stack
clean_from rooted stack (part ∷ parts) = clean_from rooted (clean_step rooted stack part) parts

-- The parts of a stack in their order, joined by slashes.
join_stack : String → List String → String
join_stack acc [] = acc
join_stack acc (part ∷ below) = join_stack (if acc == "" then part else part +++ "/" +++ acc) below

-- path.Clean(s)
unfoldable pub clean : String → String
unfolding clean_up clean_step clean_from join_stack split has_prefix
clean s =
    let rooted = has_prefix s "/" in
    let joined = join_stack "" (clean_from rooted [] (split b'/' s)) in
    if rooted then "/" +++ joined else if joined == "" then "." else joined

-- path.Join(s, t)
unfoldable pub path_join : String → String → String
unfolding clean
path_join s t =
    if s == ""
    then if t == "" then "" else clean t
    else if t == ""
    then clean s
    else clean (s +++ "/" +++ t)

replace_all_test : replace_all "a/b/a/c" "a/" "x" ≡ "xb/xc"
unfolding replace_all
replace_all_test = refl

trim_tests :
    (trim_space " a b " ≡ "a b")
    × (trim 34 "\"ab\"" ≡ "ab")
    × (trim_suffix "clients/" "/" ≡ "clients")
    × (trim_prefix "i-12" "i-" ≡ "12")
    × (has_suffix "t3.xlarge" ".large" ≡ false)
unfolding trim_space trim trim_suffix trim_prefix has_suffix
trim_tests = (refl, refl, refl, refl, refl)

path_join_tests :
    (path_join "config" "users.json" ≡ "config/users.json")
    × (path_join "config" "../a//b/." ≡ "a/b")
    × (path_join "/x" "../.." ≡ "/")
    × (path_join "" "" ≡ "")
unfolding path_join
path_join_tests = (refl, refl, refl, refl)
