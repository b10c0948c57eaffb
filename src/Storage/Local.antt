-- ===== src/Storage/Local.antt =====
-- storage/local: `LocalStorage`, a directory of the file system. The operating system is a
-- parameter: what package os does is not under this repository.
pub mod Seek
use go_devops_platform.Base.{
  ℕ, String, Bool, true, false, List, [], ◌∷◌, Result, ok, err, Done, Action, ◌>>=◌, ◌>>◌, fail_if,
  not, pure, fail, if◌then◌else◌, ◌==◌, ◌-◌, leb,
}
use go_devops_platform.Base.Int.{ℤ, pos, negsuc}
use go_devops_platform.Base.Text.{◌+++◌, path_join}
use go_devops_platform.Storage.{Bytes, Iface}

-- os.Stat
pub data Stat : Type 0 where
  found missing : Stat
  unknown : String → Stat

-- An open file: `Stat().Size()`, and what is read from it after `Seek(pos, 0)`.
pub record OsFile : Type 0 where
  pub size : Result ℕ
  pub seek : ℕ → Result Bytes

-- What the code calls of packages os and os/user, on the state of a disk. `lookup` is `user.Lookup`
-- with the conversions of the user's and the group's id.
pub record Os (Disk : Type 0) : Type 0 where
  pub stat : String → Disk → Stat
  pub mkdir : String → Action Disk Done
  pub current_user : Disk → Result String
  pub lookup : String → Disk → Result (ℕ × ℕ)
  pub chown : String → ℕ × ℕ → Action Disk Done
  pub read_dir : String → Disk → Result (List String)
  pub remove : String → Action Disk Done
  pub rename : String → String → Action Disk Done
  pub read_file : String → Disk → Result Bytes
  pub write_file : String → Bytes → Action Disk Done
  pub open_to_append : String → Action Disk ℕ
  pub write_to : ℕ → Bytes → Action Disk Done
  pub open_to_read : String → Disk → Result OsFile

pub record LocalStorage : Type 0 where
  pub path : String

abbrev pub prefixed {ℓ} : {A : Type ℓ} → String → Result A → Result A
prefixed e (ok a) = ok a
prefixed e (err f) = err (e +++ f)

-- `if err != nil { return fmt.Errorf(e + "%s", err) }`
abbrev pub wrapped {ℓ} : {S : Type 0} {A : Type ℓ} → String → Action S A → Action S A
wrapped e m s = let (r, s') = m s in (prefixed e r, s')

module _ {Disk : Type 0} (os : Os Disk) (l : LocalStorage) where
  -- An error other than os.ErrNotExist counts as an existing file.
  unfoldable pub file_exists : String → Disk → Bool
  file_exists filename d = elim (os.stat (path_join l.path filename) d) [
    | missing ↦ false
    | _ ↦ true
  ]

  unfoldable pub config_path : String → String
  config_path filename = path_join "config" filename

  unfoldable pub ensure_path : String → Action Disk Done
  ensure_path pathname d = elim (os.stat (path_join l.path pathname) d) [
    | missing ↦ wrapped "create directory error: " (os.mkdir (path_join l.path pathname)) d
    | _ ↦ (ok tt, d)
  ]

  owned_by : String → String → Action Disk Done
  owned_by filename login = do
    ids ← wrapped "user lookup error (vpn): " (λ d. (os.lookup login d, d))
    wrapped "vpn chown error: " (os.chown (path_join l.path filename) ids)

  -- Only root changes an owner.
  unfoldable pub ensure_ownership : String → String → Action Disk Done
  unfolding owned_by
  ensure_ownership filename login = do
    user ← wrapped "could not get current user: " (λ d. (os.current_user d, d))
    if not (user == "root") then pure tt else owned_by filename login

  unfoldable pub read_dir : String → Disk → Result (List String)
  read_dir pathname = os.read_dir (path_join l.path pathname)

  unfoldable pub remove : String → Action Disk Done
  remove name = os.remove (path_join l.path name)

  unfoldable pub rename : String → String → Action Disk Done
  rename old_name new_name = os.rename (path_join l.path old_name) (path_join l.path new_name)

  unfoldable pub read_file : String → Disk → Result Bytes
  read_file name = os.read_file (path_join l.path name)

  unfoldable pub write_file : String → Bytes → Action Disk Done
  write_file name content = os.write_file (path_join l.path name) content

  unfoldable pub append_file : String → Bytes → Action Disk Done
  append_file name content = do f ← os.open_to_append (path_join l.path name); os.write_to f content

  -- The loop of `OpenFilesFromPos`: a file that ends at or before the position is passed over.
  open_from : List String → ℕ → Disk → Result (List Bytes)
  open_from [] at d = ok []
  open_from (name ∷ names) at d = elim (os.open_to_read (path_join l.path name) d) [
    | err e ↦ err ("cannot open file (" +++ name +++ "): " +++ e)
    | ok file ↦ elim file.size [
      | err e ↦ err ("cannot get file stat (" +++ name +++ "): " +++ e)
      | ok size ↦ elim (leb size at) [
        | true ↦ open_from names (at - size) d
        | false ↦ elim (file.seek at) [
          | err e ↦ err ("could not seek to pos (file: " +++ name +++ "): " +++ e)
          | ok reader ↦ elim (open_from names 0 d) [
            | err e ↦ err e
            | ok readers ↦ ok (reader ∷ readers)
          ]
        ]
      ]
    ]
  ]

  unfoldable pub open_files_from_pos : List String → ℤ → Disk → Result (List Bytes)
  unfolding open_from
  open_files_from_pos names (negsuc n) d = ok []
  open_files_from_pos names (pos at) d = open_from names at d

  -- The storage as the other parts see it.
  abbrev pub local : Iface Disk
  local = record {
    config_path = config_path;
    file_exists = file_exists;
    read_file = read_file;
    write_file = write_file;
    append_file = append_file;
    ensure_path = ensure_path;
    ensure_ownership = ensure_ownership;
    remove = remove;
    rename = rename;
  }
