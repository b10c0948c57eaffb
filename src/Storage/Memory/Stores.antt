-- ===== src/Storage/Memory/Stores.antt =====
-- The memory storage keeps what the interface of storages asks for.
use go_devops_platform.Base.{refl, arith, length, eq_iff, Option-cases, inl, inr}
use go_devops_platform.Base.Map.{lookup, lookup-insert}
use go_devops_platform.Storage.{IsStorage, IsSeparate}
use go_devops_platform.Storage.Memory.{
  memory, write_file, read_file, file_exists, ensure_ownership, ensure_path,
}
use go_devops_platform.Storage.Memory.Laws.{deref-append_last, deref-append_left, allocate-IsValid}
use go_devops_platform.Storage.Memory.View.{IsValid}

-- In the memory storage a file that was written is there and reads as written, and setting an
-- owner changes neither.
pub memory-IsStorage : IsStorage memory
unfolding write_file read_file file_exists ensure_ownership
memory-IsStorage = record {
  exists-write = λ name b m _.
      ground (arith, lookup-insert name name (length m.cells) m.files, eq_iff name name);
  read-write = λ name b m _. ground (
    arith,
    lookup-insert name name (length m.cells) m.files,
    eq_iff name name,
    deref-append_last m.cells b,
  );
  exists-ensure_ownership = λ name login other m. refl;
  read-ensure_ownership = λ name login other m. refl;
}

-- In the memory storage a write leaves the other files alone.
pub memory-IsSeparate : IsSeparate memory IsValid
unfolding write_file read_file file_exists ensure_path
memory-IsSeparate = record {
  valid-write = λ name b m v. allocate-IsValid name b m v;
  valid-ensure_path = λ path m v. v;
  exists-write_other = λ name other b m v n.
      ground (arith, lookup-insert name other (length m.cells) m.files, eq_iff name other);
  read-write_other = λ name other b m v n. elim (Option-cases (lookup other m.files)) [
    | inl missing ↦
        ground
          (arith, missing, lookup-insert name other (length m.cells) m.files, eq_iff name other)
    | inr (p, e) ↦ ground (
      arith,
      e,
      lookup-insert name other (length m.cells) m.files,
      eq_iff name other,
      deref-append_left m.cells b p (v.in_range other p e),
    )
  ];
}
