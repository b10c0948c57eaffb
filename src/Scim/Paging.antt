-- ===== src/Scim/Paging.antt =====
-- The pages of the list of users: auth/provisioning/scim/response.go.
use go_devops_platform.Base.{
  ℕ, zero, suc, ◌+◌, ◌≤◌, ◌<◌, ◌≡◌, refl, List, [], ◌∷◌, ◌++◌, map, some, arith, length, take, drop,
  get_elem?, ap, sym, ◌∙◌,
}
use go_devops_platform.Base.Int.{pos}
use go_devops_platform.Users.Types.{User}
use go_devops_platform.Scim.{UserResponse, UserResource, list_user_response, as_resource}

take-drop_gap :
    {A : Type 0} (xs : List A) (a : A) (c n : ℕ)
    → get_elem? xs c ≡ some a
    → take c xs ++ a ∷ take n (drop (suc c) xs) ≡ take (c + suc n) xs
take-drop_gap [] a c n e = cc
take-drop_gap (x ∷ xs) a zero n e = ground (arith, e)
take-drop_gap {A = A} (x ∷ xs) a (suc c) n e =
    let shift : suc c + suc n ≡ suc (c + suc n) = omega arith in
    rw shift (ap (λ (ys : List A). x ∷ ys) (take-drop_gap xs a c n e))

take_all : {A : Type 0} (c : ℕ) (xs : List A) → length xs ≤ c → take c xs ≡ xs
take_all zero [] h = refl
take_all zero (x ∷ xs) h = absurd (omega (arith, h))
take_all (suc c) [] h = refl
take_all {A = A} (suc c) (x ∷ xs) h =
    ap (λ (ys : List A). x ∷ ys) (take_all c xs (omega (arith, h)))

map-append : {A B : Type 0} (f : A → B) (xs ys : List A) → map f (xs ++ ys) ≡ map f xs ++ map f ys
map-append f [] ys = refl
map-append {B = B} f (x ∷ xs) ys = ap (λ (zs : List B). f x ∷ zs) (map-append f xs ys)

get_elem?-length :
    {A : Type 0} (xs : List A) (c : ℕ) (a : A) → get_elem? xs c ≡ some a → c < length xs
get_elem?-length [] c a e = cc
get_elem?-length (x ∷ xs) zero a e = omega arith
get_elem?-length (x ∷ xs) (suc c) a e = omega (arith, get_elem?-length xs c a e)

-- The page of at most `count` users from the index on.
abbrev page_from : List User → ℕ → ℕ → List UserResource
page_from us count index = map as_resource (take count (drop index us))

resources-list_user_response :
    (us : List User) (count start : ℕ) (p : UserResponse)
    → list_user_response us (pos count) (pos start) ≡ some p
    → ((start ≤ 1) → p.resources ≡ page_from us count 0)
      × ((2 ≤ start) → start ≤ length us → p.resources ≡ page_from us count start)
unfolding list_user_response
resources-list_user_response us count start p e = (
  λ h. ground (arith, e, h, take_all count us),
  λ h k. ground (arith, e, h, k, take_all count (drop start us)),
)

-- A client that reads a page of `count` users from the first user on, and then asks for the next
-- page from the user numbered `count + 1` on, as the numbers of SCIM start at 1, gets two pages
-- that leave that user out: the users listed are those of the pages with the missing user
-- between them.
pub list_user_response_gap :
    (us : List User) (count : ℕ) (u : User) (first second : UserResponse)
    → 1 ≤ count
    → get_elem? us count ≡ some u
    → list_user_response us (pos count) (pos 1) ≡ some first
    → list_user_response us (pos count) (pos (suc count)) ≡ some second
    → first.resources ++ as_resource u ∷ second.resources
      ≡ map as_resource (take (count + suc count) us)
list_user_response_gap us count u first second h e f g =
    let left : first.resources ≡ page_from us count 0 =
      (resources-list_user_response us count 1 first f).0 (omega arith) in
    let right : second.resources ≡ page_from us count (suc count) =
      (resources-list_user_response us count (suc count) second g).1 (omega (arith, h))
        (omega (arith, get_elem?-length us count u e)) in
    rw (left, right)
      (sym (map-append as_resource (take count us) (u ∷ take count (drop (suc count) us)))
        ∙ ap (map as_resource) (take-drop_gap us u count count e))
