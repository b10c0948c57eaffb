-- ===== src/Storage/Memory/View.antt =====
-- What the memory storage promises: a map from names to contents.
use go_devops_platform.Base.{
  ℕ, ◌<◌, ◌≡◌, String, List, ◌++◌, Option, none, some, Result, ok, err, Done, length, if◌then◌else◌,
  ◌==◌,
}
use go_devops_platform.Base.Map.{lookup}
use go_devops_platform.Storage.{Bytes}
use go_devops_platform.Storage.Memory.{
  MemoryStorage, deref, write_file, append_file, remove, rename,
}

-- Pointers are in range, and no two names share one.
pub record IsValid (m : MemoryStorage) : Type 0 where
  pub in_range : (k : String) (p : ℕ) → lookup k m.files ≡ some p → p < length m.cells
  pub unshared :
      (j k : String) (p : ℕ) → lookup j m.files ≡ some p → lookup k m.files ≡ some p → j ≡ k

abbrev pub at_cell : List Bytes → Option ℕ → Option Bytes
at_cell cs none = none
at_cell cs (some p) = some (deref cs p)

abbrev pub contents : MemoryStorage → String → Option Bytes
contents m k = at_cell m.cells (lookup k m.files)

pub data Op : Type 0 where
  writes appends : String → Bytes → Op
  removes : String → Op
  renames : String → String → Op

abbrev pub run : Op → MemoryStorage → Result Done × MemoryStorage
run (Op.writes name b) = write_file name b
run (Op.appends name b) = append_file name b
run (Op.removes name) = remove name
run (Op.renames old new) = rename old new

abbrev pub Files : Type 0
Files = String → Option Bytes

abbrev pub put : String → Option Bytes → Files → Files
put name b f k = if name == k then b else f k

abbrev pub joined : Option Bytes → Bytes → Bytes
joined none b = b
joined (some a) b = a ++ b

abbrev pub when_found : Option Bytes → String → Files → Files → Result Done × Files
when_found none e f g = (err e, f)
when_found (some a) e f g = (ok tt, g)

-- The operations on a map from names to contents. To rename a file to its own name removes it.
abbrev pub specified : Op → Files → Result Done × Files
specified (Op.writes name b) f = (ok tt, put name (some b) f)
specified (Op.appends name b) f = (ok tt, put name (some (joined (f name) b)) f)
specified (Op.removes name) f = when_found (f name) "file does not exist" f (put name none f)
specified (Op.renames old new) f =
    when_found (f old) "file doesn't exist" f (put old none (put new (f old) f))
