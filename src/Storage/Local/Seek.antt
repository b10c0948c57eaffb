-- ===== src/Storage/Local/Seek.antt =====
-- Reading several files from a position is reading their concatenation from it.
use native.Mathlib.Nat.{sub-zero}
use go_devops_platform.Base.{
  ℕ, zero, suc, ◌<◌, ◌≡◌, ◌≤◌, ◌-◌, refl, sym, String, List, [], ◌∷◌, ◌++◌, Result, ok, arith,
  length, drop, Bool-cases, inl, inr, leb,
}
use go_devops_platform.Base.Int.{ℤ, pos, negsuc}
use go_devops_platform.Base.Text.{path_join}
use go_devops_platform.Storage.{Bytes}
use go_devops_platform.Storage.Local.{OsFile, Os, LocalStorage, open_from, open_files_from_pos}

-- A regular file with these bytes.
pub record IsRegular (file : OsFile) (b : Bytes) : Type 0 where
  pub sized : file.size ≡ ok (length b)
  pub seeks : (at : ℕ) → file.seek at ≡ ok (drop at b)

abbrev pub concat : List Bytes → Bytes
concat [] = []
concat (b ∷ bs) = b ++ concat bs

drop-nil : (n : ℕ) → drop {A = ℕ} n [] ≡ []
drop-nil zero = refl
drop-nil (suc n) = refl

drop-append_ge :
    (n : ℕ) (xs ys : Bytes) → length xs ≤ n → drop n (xs ++ ys) ≡ drop (n - length xs) ys
drop-append_ge n [] ys h = rw sub-zero
drop-append_ge zero (x ∷ xs) ys h = absurd (omega arith)
drop-append_ge (suc n) (x ∷ xs) ys h =
    let e : suc n - suc (length xs) ≡ n - length xs = omega arith in
    rw e (drop-append_ge n xs ys (omega arith))

drop-append_lt : (n : ℕ) (xs ys : Bytes) → n < length xs → drop n (xs ++ ys) ≡ drop n xs ++ ys
drop-append_lt n [] ys h = absurd (omega arith)
drop-append_lt zero (x ∷ xs) ys h = refl
drop-append_lt (suc n) (x ∷ xs) ys h = drop-append_lt n xs ys (omega arith)

module _ {Disk : Type 0} (os : Os Disk) (l : LocalStorage) (d : Disk) where
  -- Every name opens, as a regular file with the bytes that are listed beside it.
  abbrev pub Holds : List String → List Bytes → Type 0
  Holds [] [] = Unit
  Holds [] (b ∷ bs) = ⊥
  Holds (name ∷ names) [] = ⊥
  Holds (name ∷ names) (b ∷ bs) =
      ((file : OsFile) × (os.open_to_read (path_join l.path name) d ≡ ok file) × IsRegular file b)
      × Holds names bs

  abbrev Reads : Result (List Bytes) → Bytes → Type 0
  Reads r b = (readers : List Bytes) × (r ≡ ok readers) × (concat readers ≡ b)

  open_from-concat :
      (names : List String) (bs : List Bytes) (at : ℕ)
      → Holds names bs
      → Reads (open_from os l names at d) (drop at (concat bs))
  unfolding open_from
  open_from-concat [] [] at h = ([], refl, sym (drop-nil at))
  open_from-concat [] (b ∷ bs) at h = absurd h
  open_from-concat (name ∷ names) [] at h = absurd h
  open_from-concat (name ∷ names) (b ∷ bs) at ((file, opened, regular), h) =
      elim (Bool-cases (leb (length b) at)) [
        | inl over ↦
            rw (opened, open_from, regular.sized, over)
              (rw (drop-append_ge at b (concat bs) (ground arith))
                (open_from-concat names bs (at - length b) h))
        | inr within ↦
            let (readers, rest, all) = open_from-concat names bs 0 h in
            (
              drop at b ∷ readers,
              rw (opened, open_from, regular.sized, within, regular.seeks at, rest) refl,
              rw (drop-append_lt at b (concat bs) (ground arith), all) refl,
            )
      ]

  -- What lies behind a position: nothing, if it is negative.
  abbrev pub behind : ℤ → Bytes → Bytes
  behind (negsuc n) b = []
  behind (pos at) b = drop at b

  -- With regular files behind all names, the files open at every position, a negative one or one
  -- past the end included, and what their readers give, one after the other, is the concatenation
  -- of the files from that position on, and nothing at a negative one.
  pub open_files_from_pos-concat :
      (names : List String) (bs : List Bytes) (position : ℤ)
      → Holds names bs
      → (readers : List Bytes) × (open_files_from_pos os l names position d ≡ ok readers)
        × (concat readers ≡ behind position (concat bs))
  unfolding open_files_from_pos
  open_files_from_pos-concat names bs (negsuc n) h = ([], refl, refl)
  open_files_from_pos-concat names bs (pos at) h = open_from-concat names bs at h
