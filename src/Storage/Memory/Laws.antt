-- ===== src/Storage/Memory/Laws.antt =====
-- The memory storage implements the map of Storage/Memory/View.
use go_devops_platform.Base.{
  ℕ, ◌<◌, ◌≡◌, refl, String, List, [], ◌∷◌, ◌++◌, some, length, if◌then◌else◌, eq_iff, arith, set,
  length-append, length-set, get_elem?-set, get_elem?-append_left, get_elem?-append_last, eqb,
  Option-cases, inl, inr,
}
use go_devops_platform.Base.Map.{lookup, insert, delete, lookup-insert, lookup-delete}
use go_devops_platform.Storage.{Bytes}
use go_devops_platform.Storage.Memory.{
  MemoryStorage, deref, allocate, write_file, write, append_file, remove, rename,
}
use go_devops_platform.Storage.Memory.View.{IsValid, contents, Op, run, put, specified}

-- A new cell is reached by no pointer in range.
pub deref-append_left :
    (cs : List Bytes) (b : Bytes) (p : ℕ) → p < length cs → deref (cs ++ b ∷ []) p ≡ deref cs p
deref-append_left cs b p h = rw (deref, get_elem?-append_left cs (b ∷ []) p h)

pub deref-append_last : (cs : List Bytes) (b : Bytes) → deref (cs ++ b ∷ []) (length cs) ≡ b
deref-append_last cs b = rw (deref, get_elem?-append_last cs b)

pub deref-set :
    (cs : List Bytes) (p q : ℕ) (b : Bytes)
    → p < length cs
    → deref (set cs p b) q ≡ (if eqb p q then b else deref cs q)
deref-set cs p q b h = ground (arith, get_elem?-set cs p q b h)

module _ (name : String) (b : Bytes) (m : MemoryStorage) (v : IsValid m) where
  pub allocate-contents :
      (k : String) → contents (allocate name b m) k ≡ put name (some b) (contents m) k
  allocate-contents k = elim (Option-cases (lookup k m.files)) [
    | inl e ↦
        ground (arith, lookup-insert name k (length m.cells) m.files, deref-append_last m.cells b)
    | inr (p, e) ↦ ground (
      arith,
      lookup-insert name k (length m.cells) m.files,
      deref-append_last m.cells b,
      deref-append_left m.cells b p (v.in_range k p e),
    )
  ]

  pub allocate-IsValid : IsValid (allocate name b m)
  allocate-IsValid = record {
    in_range = λ k p e. ground (
      arith,
      lookup-insert name k (length m.cells) m.files,
      length-append m.cells (b ∷ []),
      v.in_range k p,
    );
    unshared = λ j k p e f. ground (
      arith,
      lookup-insert name k (length m.cells) m.files,
      lookup-insert name j (length m.cells) m.files,
      eq_iff name j,
      eq_iff name k,
      v.in_range k p,
      v.in_range j p,
      v.unshared j k p,
    );
  }

module _ (name : String) (p : ℕ) (b : Bytes) (m : MemoryStorage) (v : IsValid m) where
  pub write-contents :
      lookup name m.files ≡ some p
      → (k : String)
      → contents (write p b m).1 k ≡ put name (some (deref m.cells p ++ b)) (contents m) k
  unfolding write
  write-contents e k = elim (Option-cases (lookup k m.files)) [
    | inl none_k ↦ ground (arith, eq_iff name k, none_k, e)
    | inr (q, f) ↦ ground (
      arith,
      eq_iff name k,
      deref-set m.cells p q (deref m.cells p ++ b) (v.in_range name p e),
      v.unshared name k p e,
    )
  ]

  pub write-IsValid : IsValid (write p b m).1
  unfolding write
  write-IsValid = record {
    in_range =
        λ k q e. ground (arith, v.in_range k q e, length-set m.cells p (deref m.cells p ++ b));
    unshared = v.unshared;
  }

module _ (m : MemoryStorage) (v : IsValid m) where
  delete-IsValid : (name : String) → IsValid (record m { files = delete name m.files })
  delete-IsValid name = record {
    in_range = λ k p e. ground (arith, lookup-delete name k m.files, v.in_range k p);
    unshared = λ j k p e f.
        ground
          (arith, lookup-delete name k m.files, lookup-delete name j m.files, v.unshared j k p);
  }

  -- The pointer moves to the new name.
  pub rename-IsValid :
      (old new : String) (p : ℕ)
      → lookup old m.files ≡ some p
      → IsValid (record m { files = delete old (insert new p m.files) })
  rename-IsValid old new p h = record {
    in_range = λ k q e. ground (
      arith,
      lookup-delete old k (insert new p m.files),
      lookup-insert new k p m.files,
      v.in_range k q,
      v.in_range old p h,
    );
    unshared = λ j k q e f. ground (
      arith,
      lookup-delete old k (insert new p m.files),
      lookup-delete old j (insert new p m.files),
      lookup-insert new k p m.files,
      lookup-insert new j p m.files,
      eq_iff old j,
      eq_iff old k,
      eq_iff new j,
      eq_iff new k,
      v.unshared j k q,
      v.unshared old k p h,
      v.unshared j old q,
    );
  }

  run-IsValid : (op : Op) → IsValid (run op m).1
  unfolding write_file append_file remove rename
  run-IsValid (Op.writes name b) = allocate-IsValid name b m v
  run-IsValid (Op.appends name b) = elim (Option-cases (lookup name m.files)) [
    | inl e ↦ rw (e, append_file) (allocate-IsValid name b m v)
    | inr (p, e) ↦ rw (e, append_file) (write-IsValid name p b m v)
  ]
  run-IsValid (Op.removes name) = elim (Option-cases (lookup name m.files)) [
    | inl e ↦ rw (e, remove) v
    | inr (p, e) ↦ rw (e, remove) (delete-IsValid name)
  ]
  run-IsValid (Op.renames old new) = elim (Option-cases (lookup old m.files)) [
    | inl e ↦ rw (e, rename) v
    | inr (p, e) ↦ rw (e, rename) (rename-IsValid old new p e)
  ]

  run-result : (op : Op) → (run op m).0 ≡ (specified op (contents m)).0
  unfolding write_file append_file remove rename
  run-result (Op.writes name b) = refl
  run-result (Op.appends name b) = ground arith
  run-result (Op.removes name) = ground arith
  run-result (Op.renames old new) = ground arith

  run-contents : (op : Op) (k : String) → contents (run op m).1 k ≡ (specified op (contents m)).1 k
  unfolding write_file append_file remove rename
  run-contents (Op.writes name b) k = allocate-contents name b m v k
  run-contents (Op.appends name b) k = elim (Option-cases (lookup name m.files)) [
    | inl e ↦ rw (e, append_file) (allocate-contents name b m v k)
    | inr (p, e) ↦ rw (e, append_file) (write-contents name p b m v e k)
  ]
  run-contents (Op.removes name) k = ground (arith, lookup-delete name k m.files)
  run-contents (Op.renames old new) k = elim (Option-cases (lookup old m.files)) [
    | inl e ↦ ground arith
    | inr (p, e) ↦
        ground (arith, lookup-delete old k (insert new p m.files), lookup-insert new k p m.files)
  ]

-- In a storage whose pointers are in range and unshared, writing, appending, removing and renaming
-- report the error, and leave the contents under every name, that the map of names to contents
-- prescribes, and the pointers stay in range and unshared.
pub run-Specified :
    (m : MemoryStorage) (op : Op)
    → IsValid m
    → IsValid (run op m).1
      × ((run op m).0 ≡ (specified op (contents m)).0)
      × ((k : String) → contents (run op m).1 k ≡ (specified op (contents m)).1 k)
run-Specified m op v = (run-IsValid m v op, run-result m v op, run-contents m v op)
