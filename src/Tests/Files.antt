-- ===== src/Tests/Files.antt =====
-- The storages at concrete inputs.
use go_devops_platform.Base.{ℕ, ◌≡◌, refl, String, List, [], ◌∷◌, ok, err, drop, arith, eq_iff}
use go_devops_platform.Base.Int.{pos}
use go_devops_platform.Base.Map.{lookup}
use go_devops_platform.Storage.{Bytes}
use go_devops_platform.Storage.Memory.{MemoryStorage}
use go_devops_platform.Storage.Memory.View.{IsValid, contents, Op, run, specified}
use go_devops_platform.Storage.Memory.Laws.{run-Specified}
use go_devops_platform.Storage.Local.{Os, LocalStorage, found, open_files_from_pos}
use go_devops_platform.Storage.Local.Seek.{IsRegular, concat, open_files_from_pos-concat}

-- One file, "a", with one byte.
abbrev files : MemoryStorage
files = record { file_info_data = []; files = ("a", 0) ∷ []; cells = (7 ∷ []) ∷ [] }

files-IsValid : IsValid files
unfolding lookup
files-IsValid = record {
  in_range = λ k p e. ground (arith, e);
  unshared = λ j k p e f. ground (arith, e, f, eq_iff "a" j, eq_iff "a" k);
}

run-Specified_example :
    IsValid (run (Op.renames "a" "b") files).1
    × ((run (Op.renames "a" "b") files).0 ≡ (specified (Op.renames "a" "b") (contents files)).0)
    × ((k : String)
        → contents (run (Op.renames "a" "b") files).1 k
          ≡ (specified (Op.renames "a" "b") (contents files)).1 k)
run-Specified_example = run-Specified files (Op.renames "a" "b") files-IsValid

-- A system in which every file has the bytes 1, 2 and 3.
abbrev os : Os ℕ
os = record {
  stat = λ name d. found;
  mkdir = λ name d. (ok tt, d);
  current_user = λ d. ok "root";
  lookup = λ name d. err "no user";
  chown = λ name ids d. (ok tt, d);
  read_dir = λ name d. ok [];
  remove = λ name d. (ok tt, d);
  rename = λ old new d. (ok tt, d);
  read_file = λ name d. ok (1 ∷ 2 ∷ 3 ∷ []);
  write_file = λ name b d. (ok tt, d);
  open_to_append = λ name d. (ok 0, d);
  write_to = λ f b d. (ok tt, d);
  open_to_read = λ name d. ok (record { size = ok 3; seek = λ at. ok (drop at (1 ∷ 2 ∷ 3 ∷ [])) });
}

abbrev directory : LocalStorage
directory = record { path = "/data" }

a_file-IsRegular :
    IsRegular (record { size = ok 3; seek = λ at. ok (drop at (1 ∷ 2 ∷ 3 ∷ [])) }) (1 ∷ 2 ∷ 3 ∷ [])
a_file-IsRegular = record { sized = refl; seeks = λ at. refl }

open_files_from_pos-concat_example :
    (readers : List Bytes) × (open_files_from_pos os directory ("a" ∷ "b" ∷ []) (pos 4) 0
      ≡ ok readers)
    × (concat readers ≡ 2 ∷ 3 ∷ [])
open_files_from_pos-concat_example =
    open_files_from_pos-concat os directory 0 ("a" ∷ "b" ∷ [])
      ((1 ∷ 2 ∷ 3 ∷ []) ∷ (1 ∷ 2 ∷ 3 ∷ []) ∷ []) (pos 4)
      ((_, refl, a_file-IsRegular), ((_, refl, a_file-IsRegular), tt))
