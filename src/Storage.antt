-- ===== src/Storage.antt =====
-- storage/iface.go: what the other parts use of a storage, as operations on the state of a disk.
-- `storage.Iface` is implemented in storage/memory, storage/local and storage/s3.
pub mod Memory
pub mod Local
use go_devops_platform.Base.{ℕ, ◌≡◌, ◌≢◌, String, Bool, true, List, Result, ok, Done, Action}

abbrev pub Bytes : Type 0
Bytes = List ℕ

-- `ReadFile` and `FileExists` leave the disk alone; the others return the new one.
pub record Iface (Disk : Type 0) : Type 0 where
  pub config_path : String → String
  pub file_exists : String → Disk → Bool
  pub read_file : String → Disk → Result (List ℕ)
  pub write_file : String → List ℕ → Action Disk Done
  pub append_file : String → List ℕ → Action Disk Done
  pub ensure_path : String → Action Disk Done
  pub ensure_ownership : String → String → Action Disk Done
  pub remove : String → Action Disk Done
  pub rename : String → String → Action Disk Done

-- What the parts that keep a file rely on: a file that was written is there and reads as written,
-- and setting an owner changes neither.
pub record IsStorage {Disk : Type 0} (s : Iface Disk) : Type 0 where
  pub exists-write :
      (name : String) (b : Bytes) (d : Disk)
      → (s.write_file name b d).0 ≡ ok tt
      → s.file_exists name (s.write_file name b d).1 ≡ true
  pub read-write :
      (name : String) (b : Bytes) (d : Disk)
      → (s.write_file name b d).0 ≡ ok tt
      → s.read_file name (s.write_file name b d).1 ≡ ok b
  pub exists-ensure_ownership :
      (name login other : String) (d : Disk)
      → s.file_exists other (s.ensure_ownership name login d).1 ≡ s.file_exists other d
  pub read-ensure_ownership :
      (name login other : String) (d : Disk)
      → s.read_file other (s.ensure_ownership name login d).1 ≡ s.read_file other d

-- What the parts that keep several files rely on, for the disks that can come up: a write, and the
-- making of a path, leave the other files alone.
pub record IsSeparate {Disk : Type 0} (s : Iface Disk) (Valid : Disk → Type 0) : Type 0 where
  pub valid-write :
      (name : String) (b : Bytes) (d : Disk) → Valid d → Valid (s.write_file name b d).1
  pub valid-ensure_path : (path : String) (d : Disk) → Valid d → Valid (s.ensure_path path d).1
  pub exists-write_other :
      (name other : String) (b : Bytes) (d : Disk)
      → Valid d
      → name ≢ other
      → s.file_exists other (s.write_file name b d).1 ≡ s.file_exists other d
  pub read-write_other :
      (name other : String) (b : Bytes) (d : Disk)
      → Valid d
      → name ≢ other
      → s.read_file other (s.write_file name b d).1 ≡ s.read_file other d
