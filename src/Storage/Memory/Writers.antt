-- ===== src/Storage/Memory/Writers.antt =====
-- Open writers of the memory storage share their cell with the map of names.
use go_devops_platform.Base.{
  ℕ, ◌≡◌, ◌≢◌, String, ◌++◌, [], ◌∷◌, none, some, ok, length, eq_iff, arith, Option-cases, inl, inr,
  length-append, length-set,
}
use go_devops_platform.Base.Map.{lookup, insert, delete, lookup-insert, lookup-delete}
use go_devops_platform.Storage.{Bytes}
use go_devops_platform.Storage.Memory.{
  MemoryStorage, deref, allocate, write, rename, open_file_for_writing, open_file_for_appending,
}
use go_devops_platform.Storage.Memory.View.{IsValid, contents, put, joined}
use go_devops_platform.Storage.Memory.Laws.{
  allocate-IsValid, allocate-contents, rename-IsValid, write-contents, deref-set, deref-append_last,
}

-- To write the pointer that is there changes nothing that can be read.
insert-IsValid :
    (name : String) (p : ℕ) (m : MemoryStorage)
    → IsValid m
    → lookup name m.files ≡ some p
    → IsValid (record m { files = insert name p m.files })
insert-IsValid name p m v e = record {
  in_range = λ k q f. ground (arith, lookup-insert name k p m.files, eq_iff name k, v.in_range k q);
  unshared = λ j k q f g. ground (
    arith,
    lookup-insert name k p m.files,
    lookup-insert name j p m.files,
    eq_iff name k,
    eq_iff name j,
    v.unshared j k q,
  );
}

-- What a rename does to the pointers.
renamed : String → String → ℕ → MemoryStorage → MemoryStorage
renamed old new p m = record m { files = delete old (insert new p m.files) }

-- The bytes written before and through the writer are under the new name.
renamed-write :
    (old new : String) (p : ℕ) (b : Bytes) (m : MemoryStorage) (k : String)
    → IsValid m
    → old ≢ new
    → lookup old m.files ≡ some p
    → contents (write p b (renamed old new p m)).1 k
      ≡ put new (some (deref m.cells p ++ b)) (put old none (contents m)) k
unfolding renamed
renamed-write old new p b m k v ne e = ground (
  arith,
  write-contents new p b (renamed old new p m) (rename-IsValid m v old new p e)
      (ground (
        arith,
        lookup-delete old new (insert new p m.files),
        lookup-insert new new p m.files,
        eq_iff new new,
        eq_iff old new,
      ))
      k,
  lookup-delete old k (insert new p m.files),
  lookup-insert new k p m.files,
  eq_iff old k,
  eq_iff new k,
)

-- What `OpenFileForAppending` leaves behind, for the writer h that it returns.
record IsOpened (m : MemoryStorage) (name : String) (h : ℕ) (m' : MemoryStorage) : Type 0 where
  valid : IsValid m'
  held : lookup name m'.files ≡ some h
  kept : (b : Bytes) → deref m'.cells h ++ b ≡ joined (contents m name) b
  others : (k : String) → k ≢ name → contents m' k ≡ contents m k

open_file_for_appending-IsOpened :
    (m : MemoryStorage) (name : String) (h : ℕ)
    → IsValid m
    → (open_file_for_appending name m).0 ≡ ok h
    → IsOpened m name h (open_file_for_appending name m).1
unfolding open_file_for_appending
open_file_for_appending-IsOpened m name h v opened = elim (Option-cases (lookup name m.files)) [
  | inl e ↦
      rw (e, open_file_for_appending)
        (record {
          valid = allocate-IsValid name [] m v;
          held = ground (arith, lookup-insert name name (length m.cells) m.files, eq_iff name name);
          kept = λ b. ground (arith, deref-append_last m.cells []);
          others = λ k ne. ground (arith, allocate-contents name [] m v k, eq_iff name k);
        })
  | inr (p, e) ↦
      rw (e, open_file_for_appending)
        (record {
          valid = insert-IsValid name p m v e;
          held = ground (arith, lookup-insert name name p m.files, eq_iff name name);
          kept = λ b. ground arith;
          others = λ k ne. ground (arith, lookup-insert name k p m.files, eq_iff name k);
        })
]

-- A writer opened for appending follows its file: after a rename to another name, what it writes
-- comes after the old contents under the new name, the old name has no file, and no other file
-- changes.
pub write-rename-open_file_for_appending :
    (m : MemoryStorage) (name new k : String) (b : Bytes) (h : ℕ)
    → IsValid m
    → name ≢ new
    → (open_file_for_appending name m).0 ≡ ok h
    → contents (write h b (rename name new (open_file_for_appending name m).1).1).1 k
      ≡ put new (some (joined (contents m name) b)) (put name none (contents m)) k
unfolding rename renamed
write-rename-open_file_for_appending m name new k b h v ne opened =
    let m' : MemoryStorage = (open_file_for_appending name m).1 in
    let o : IsOpened m name h m' = open_file_for_appending-IsOpened m name h v opened in
    rw (o.held, rename)
      (ground (
        arith,
        renamed-write name new h b m' k o.valid ne o.held,
        o.kept b,
        o.others k,
        eq_iff name k,
      ))

-- A writer opened for writing starts an empty file, and a writer that was opened on the file
-- before no longer reaches it.
pub write-open_file_for_writing :
    (m : MemoryStorage) (name : String) (p : ℕ) (b c : Bytes) (h : ℕ)
    → IsValid m
    → lookup name m.files ≡ some p
    → (open_file_for_writing name m).0 ≡ ok h
    → contents (write h b (write p c (open_file_for_writing name m).1).1).1 name ≡ some b
unfolding open_file_for_writing write
write-open_file_for_writing m name p b c h v e opened =
    let m' : MemoryStorage = (write p c (allocate name [] m)).1 in
    ground (
      arith,
      lookup-insert name name (length m.cells) m.files,
      eq_iff name name,
      v.in_range name p e,
      length-append m.cells ([] ∷ []),
      deref-append_last m.cells [],
      deref-set (m.cells ++ [] ∷ []) p (length m.cells) (deref (m.cells ++ [] ∷ []) p ++ c),
      length-set (m.cells ++ [] ∷ []) p (deref (m.cells ++ [] ∷ []) p ++ c),
      deref-set m'.cells (length m.cells) (length m.cells) (deref m'.cells (length m.cells) ++ b),
    )
