-- ===== src/Storage/Memory.antt =====
-- storage/memory/storage.go: `MockMemoryStorage`. `Data` maps names to pointers, and a pointer is
-- an index of `cells`: an open writer and the map share a cell. The lock and the making of a nil
-- map do not show: each operation is one step, and a nil map reads as an empty one.
pub mod View
pub mod Laws
pub mod Writers
pub mod Stores
use go_devops_platform.Base.{
  ℕ, ◌<◌, String, Bool, List, [], ◌∷◌, ◌++◌, map, Option, none, some, Result, ok, err, Done, Action,
  ltb, length, get_elem?, set, if◌then◌else◌, ◌==◌, returning,
}
use go_devops_platform.Base.Map.{Map, lookup, insert, delete, keys, contains_key}
use go_devops_platform.Base.Text.{◌+++◌, has_prefix, trim_suffix, replace_all, path_join}
use go_devops_platform.Storage.{Bytes, Iface}

-- storage/memory/fileinfo.go
pub record FileInfo : Type 0 where
  pub name_out : String
  pub size_out : ℕ
  pub mode_out : ℕ
  pub mod_time_out : ℕ
  pub is_dir_out : Bool

pub record MemoryStorage : Type 0 where
  pub file_info_data : Map FileInfo
  pub files : Map ℕ
  pub cells : List Bytes

-- The bytes behind a pointer. The pointers of `files` are in range, so the default is not read.
abbrev pub deref : List Bytes → ℕ → Bytes
deref cs p = elim (get_elem? cs p) [ none ↦ [] | some b ↦ b ]

unfoldable pub config_path : String → String
unfolding path_join
config_path filename = path_join "config" filename

unfoldable pub rename : String → String → Action MemoryStorage Done
rename old_name new_name m = elim (lookup old_name m.files) [
  | none ↦ (err "file doesn't exist", m)
  | some p ↦ (ok tt, record m { files = delete old_name (insert new_name p m.files) })
]

unfoldable pub file_exists : String → MemoryStorage → Bool
file_exists name m = contains_key name m.files

unfoldable pub read_file : String → MemoryStorage → Result Bytes
read_file name m = elim (lookup name m.files) [
  | none ↦ err "file does not exist"
  | some p ↦ ok (deref m.cells p)
]

-- A fresh cell under a name.
abbrev allocate : String → Bytes → MemoryStorage → MemoryStorage
allocate name content m = record m {
  files = insert name (length m.cells) m.files;
  cells = m.cells ++ content ∷ [];
}

unfoldable pub write_file : String → Bytes → Action MemoryStorage Done
write_file name content m = (ok tt, allocate name content m)

-- `(m *MockReadWriterData) Write(p)`, on the cell of an open writer; the result is the count.
unfoldable pub write : ℕ → Bytes → MemoryStorage → ℕ × MemoryStorage
write handle content m =
    (length content, record m { cells = set m.cells handle (deref m.cells handle ++ content) })

unfoldable pub append_file : String → Bytes → Action MemoryStorage Done
unfolding write
append_file name content m = elim (lookup name m.files) [
  | none ↦ (ok tt, allocate name content m)
  | some p ↦ (ok tt, (write p content m).1)
]

unfoldable pub ensure_path : String → Action MemoryStorage Done
ensure_path pathname m = (ok tt, m)

unfoldable pub ensure_ownership : String → String → Action MemoryStorage Done
ensure_ownership filename login m = (ok tt, m)

dir_entries : String → List String → List String
dir_entries path [] = []
dir_entries path (k ∷ ks) =
    let rest = dir_entries path ks in
    if path == ""
    then trim_suffix k "/" ∷ rest
    else if has_prefix k (path +++ "/")
    then replace_all k (path +++ "/") "" ∷ rest
    else rest

unfoldable pub read_dir : String → MemoryStorage → Result (List String)
unfolding dir_entries
read_dir path m = ok (dir_entries path (keys m.files))

unfoldable pub remove : String → Action MemoryStorage Done
remove name m = elim (lookup name m.files) [
  | none ↦ (err "file does not exist", m)
  | some p ↦ (ok tt, record m { files = delete name m.files })
]

open_all : List String → MemoryStorage → Result (List Bytes)
open_all [] m = ok []
open_all (name ∷ names) m =
    let rest = open_all names m in
    elim (lookup name m.files) [
      | none ↦ err "file does not exist"
      | some p ↦ elim rest [ ok readers ↦ ok (deref m.cells p ∷ readers) | err e ↦ err e ]
    ]

-- A position below zero opens all files from their start.
unfoldable pub open_files_from_pos : List String → ℕ → MemoryStorage → Result (List Bytes)
unfolding open_all
open_files_from_pos names pos m =
    if ltb 0 pos then err "pos > 0 not implemented" else open_all names m

unfoldable pub open_file : String → MemoryStorage → Result Bytes
open_file name m = elim (lookup name m.files) [
  | none ↦ err "file does not exist"
  | some p ↦ ok (deref m.cells p)
]

-- The writers are pointers.
unfoldable pub open_file_for_writing : String → Action MemoryStorage ℕ
open_file_for_writing name m = (ok (length m.cells), allocate name [] m)

unfoldable pub open_file_for_appending : String → Action MemoryStorage ℕ
open_file_for_appending name m = elim (lookup name m.files) [
  | none ↦ (ok (length m.cells), allocate name [] m)
  | some p ↦ (ok p, record m { files = insert name p m.files })
]

unfoldable pub file_info : String → MemoryStorage → Result FileInfo
file_info name m = elim (lookup name m.file_info_data) [
  | none ↦ err ("couldn't get file info for: " +++ name)
  | some info ↦ ok info
]

abbrev pub empty : MemoryStorage
empty = record { file_info_data = []; files = []; cells = [] }

-- The storage as the other parts see it.
abbrev pub memory : Iface MemoryStorage
memory = record {
  config_path = config_path;
  file_exists = file_exists;
  read_file = read_file;
  write_file = write_file;
  append_file = append_file;
  ensure_path = ensure_path;
  ensure_ownership = ensure_ownership;
  remove = remove;
  rename = rename;
}
