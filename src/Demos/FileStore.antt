-- ===== src/Demos/FileStore.antt =====
-- _examples/customstore/main.go: a store that writes a JSON file after each change.
pub mod Kept
pub mod Loading
pub mod Calls
pub mod Reload
use libauth.Prelude.{◌≡◌, Bool, true, false, Option, none, some, List, [], ◌∷◌}
use libauth.Text.{Text}
use libauth.Model.{User, Role}
use libauth.Errors.{Error, Result, ok, err, user_exists, role_exists}
use libauth.Store
use libauth.Store.{MemoryStore, new_memory_store, list_users, list_roles}
use libauth.Jwt.Json.{JsonCodec}
use libauth.Demos.Dump.{Dump, dump_json, read_dump}

-- `os.ReadFile` and `os.WriteFile`, over an unknown state of the disk. Writing gives whether it
-- succeeded; a write that fails may leave anything in the file.
pub data FileRead : Type 0 where
  file_content : Text → FileRead
  file_missing file_unreadable : FileRead

pub record FileSystem (D : Type 0) : Type 0 where
  pub read_file : Text → D → FileRead
  pub write_file : Text → Text → D → Bool × D

-- What was written is read back.
pub record IsFileSystem {D : Type 0} (os : FileSystem D) : Type 0 where
  pub read-write :
      (path raw : Text) (d : D)
      → (os.write_file path raw d).0 ≡ true
      → os.read_file path (os.write_file path raw d).1 ≡ file_content raw

-- `fileStore`
pub record FileStore : Type 0 where
  pub memory : MemoryStore
  pub path : Text

-- Why it fails: the store refuses, the file is not JSON of the right form, or input and output.
pub data FileError : Type 0 where
  store_error : Error → FileError
  bad_json read_failed write_failed : FileError

pub data Loaded : Type 0 where
  loaded : FileStore → Loaded
  load_failed : FileError → Loaded

abbrev pub is_role_exists : Error → Bool
is_role_exists role_exists = true
is_role_exists e = false

abbrev pub is_user_exists : Error → Bool
is_user_exists user_exists = true
is_user_exists e = false

-- A round of a loop of `newFileStore`: what exists already is skipped.
abbrev pub skip_if : (Error → Bool) → MemoryStore → Result MemoryStore → Result MemoryStore
skip_if exists s (ok s') = ok s'
skip_if exists s (err e) = elim (exists e) [ true ↦ ok s | false ↦ err e ]

abbrev pub continue_with : {A : Type 0} → Result A → (A → Result A) → Result A
continue_with (ok s) f = f s
continue_with (err e) f = err e

unfoldable pub load_roles : List (Option Role) → MemoryStore → Result MemoryStore
load_roles [] s = ok s
load_roles (r ∷ rs) s =
    continue_with (skip_if is_role_exists s (Store.create_role s r)) (load_roles rs)

unfoldable pub load_users : List (Option User) → MemoryStore → Result MemoryStore
load_users [] s = ok s
load_users (u ∷ us) s =
    continue_with (skip_if is_user_exists s (Store.create_user s u)) (load_users us)

abbrev pub load_dump : Option Dump → Text → Loaded
load_dump none path = load_failed bad_json
load_dump (some dump) path =
    elim (continue_with (load_roles dump.roles new_memory_store) (load_users dump.users)) [
      | ok s ↦ loaded (record { memory = s; path = path })
      | err e ↦ load_failed (store_error e)
    ]

-- `json.Unmarshal`, of the text and then of its tree.
abbrev pub decode_dump : JsonCodec → Text → Option Dump
decode_dump codec raw = elim (codec.unmarshal raw) [ none ↦ none | some j ↦ read_dump j ]

abbrev pub load_file : JsonCodec → Text → FileRead → Loaded
load_file codec path (file_content raw) = load_dump (decode_dump codec raw) path
load_file codec path file_missing = loaded (record { memory = new_memory_store; path = path })
load_file codec path file_unreadable = load_failed read_failed

-- What an operation leaves: its error, the store and the disk.
abbrev pub Saved : Type 0 → Type 0
Saved D = Option FileError × FileStore × D

module _ {D : Type 0} (codec : JsonCodec) (os : FileSystem D) where
  -- `newFileStore`
  unfoldable pub new_file_store : Text → D → Loaded
  new_file_store path d = load_file codec path (os.read_file path d)

  abbrev pub saved : FileStore → Bool × D → Saved D
  saved fs (true, d) = (none, fs, d)
  saved fs (false, d) = (some write_failed, fs, d)

  -- `save`. The listings of the in-memory store and the printing of these types do not fail.
  unfoldable pub save : FileStore → D → Saved D
  save fs d = saved fs (
      os.write_file fs.path
        (codec.marshal (dump_json (list_users fs.memory) (list_roles fs.memory))) d)

  -- `if err != nil { return err }; return fs.save()`
  abbrev pub then_save : FileStore → Result MemoryStore → D → Saved D
  then_save fs (ok s) d = save (record fs { memory = s }) d
  then_save fs (err e) d = (some (store_error e), fs, d)

  unfoldable pub create_user : Option User → FileStore → D → Saved D
  create_user u fs d = then_save fs (Store.create_user fs.memory u) d

  unfoldable pub update_user : Option User → FileStore → D → Saved D
  update_user u fs d = then_save fs (Store.update_user fs.memory u) d

  unfoldable pub delete_user : Text → FileStore → D → Saved D
  delete_user id fs d = then_save fs (Store.delete_user fs.memory id) d

  unfoldable pub create_role : Option Role → FileStore → D → Saved D
  create_role r fs d = then_save fs (Store.create_role fs.memory r) d

  unfoldable pub update_role : Option Role → FileStore → D → Saved D
  update_role r fs d = then_save fs (Store.update_role fs.memory r) d

  unfoldable pub delete_role : Text → FileStore → D → Saved D
  delete_role name fs d = then_save fs (Store.delete_role fs.memory name) d
