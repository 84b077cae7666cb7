-- ===== src/Examples/Files.antt =====
-- Instances of the theorems on the file store (_examples/customstore/main.go).
use libauth.Prelude.{arith, ◌≡◌, Option, none, some, true, [], ◌∷◌, refl}
use libauth.Text.{◌==◌, Text, codes, eq_refl}
use libauth.Dict.{Dict, get, put}
use libauth.Dict.Laws.{get-put}
use libauth.Model.{colon, valid, User, Role}
use libauth.Examples.{runs, perm}
use libauth.Store.{MemoryStore}
use libauth.Jwt.Json.{JsonCodec}
use libauth.Demos.FileStore.{
  bad_json, create_user, load_failed, loaded, update_user, create_role, save, new_file_store,
  FileStore, FileSystem, IsFileSystem, FileRead, file_content, file_missing,
}
use libauth.Demos.FileStore.Reload.{reload_lem, reload_refused, stored_json}
use libauth.Demos.FileStore.Calls.{empty_at, call, call_all}
use libauth.Demos.FileStore.Loading.{Prints}
use libauth.Store.Contract.{update_user_op, create_user_op, create_role_op, tables}
use libauth.Model.Parsing.{Lacks}

-- A disk that holds what is written to each path.
abbrev found : Option Text → FileRead
found none = file_missing
found (some raw) = file_content raw

abbrev ram : FileSystem (Dict Text)
ram = record {
  read_file = λ path d. found (get d path);
  write_file = λ path raw d. (true, put d path raw);
}

ram-IsFileSystem : IsFileSystem ram
ram-IsFileSystem = record {
  read-write = λ path raw d h. rw (get-put d path raw path, eq_refl path) refl;
}

abbrev editor : Role
editor = record {
  name = codes "editor";
  permissions = perm "article" "create" ∷ perm "article" "read" ∷ [];
  parent = [];
}

abbrev bob : User
bob = record { id = codes "bob"; roles = codes "editor" ∷ []; direct = perm "whoami" "read" ∷ [] }

abbrev admin : Role
admin = record {
  name = codes "admin";
  permissions = record { resource = codes "*"; action = [] } ∷ [];
  parent = [];
}

abbrev world : MemoryStore
world = record { users = (codes "bob", bob) ∷ []; roles = (codes "editor", editor) ∷ [] }

abbrev world_with_admin : MemoryStore
world_with_admin = record world { roles = (codes "editor", editor) ∷ (codes "admin", admin) ∷ [] }

-- A codec that knows the file of one store.
abbrev file_of : MemoryStore → JsonCodec
file_of s = record { marshal = λ j. codes "file"; unmarshal = λ raw. some (stored_json s) }

editor-Prints : Prints (create_role_op (some editor))
unfolding valid ◌==◌
editor-Prints = ((refl, refl, facts), ((refl, refl, facts), tt))
  where
    facts : Lacks colon (codes "article")
    facts = ground arith

bob-Prints : Prints (create_user_op (some bob))
unfolding valid ◌==◌
bob-Prints = ((refl, refl, ground arith), tt)

abbrev path : Text
path = codes "rbac.json"

-- All that a run of the file store computes with.
writes : Unit {0}
unfolding runs call_all save create_user update_user create_role
writes = tt

abbrev disk : Dict Text
disk = (path, codes "file") ∷ []

abbrev bob_without_roles : User
bob_without_roles = record bob { roles = [] }

abbrev made : FileStore
made = record {
  memory = record world { users = (codes "bob", bob_without_roles) ∷ [] };
  path = path;
}

made_all :
    call_all
      (file_of world)
      ram
      (create_role_op (some editor)
        ∷ create_role_op none
        ∷ create_user_op (some bob_without_roles)
        ∷ [])
      (empty_at path)
      []
    ≡ (made, disk)
unfolding writes
made_all = refl

made_last :
    call (file_of world) ram (update_user_op (some bob)) made disk
    ≡ (none, record { memory = world; path = path }, disk)
unfolding writes
made_last = refl

reload_lem_example :
    (new_file_store (file_of world) ram path [] ≡ loaded (empty_at path))
    × ((s' : MemoryStore) × (new_file_store (file_of world) ram path disk
          ≡ loaded (record { memory = s'; path = path }))
        × (tables s' ≡ tables world))
unfolding get
reload_lem_example =
    reload_lem (file_of world) ram ram-IsFileSystem
      (create_role_op (some editor)
        ∷ create_role_op none
        ∷ create_user_op (some bob_without_roles)
        ∷ [])
      (update_user_op (some bob)) path [] made (record { memory = world; path = path }) disk disk
      refl (editor-Prints, (tt, (bob-Prints, tt))) bob-Prints made_all made_last refl

made_admin :
    call
      (file_of world_with_admin)
      ram
      (create_role_op (some admin))
      (record { memory = world; path = path })
      disk
    ≡ (none, record { memory = world_with_admin; path = path }, disk)
unfolding writes
made_admin = refl

reload_refused_example :
    new_file_store (file_of world_with_admin) ram path disk ≡ load_failed bad_json
unfolding writes
reload_refused_example =
    reload_refused (file_of world_with_admin) ram ram-IsFileSystem (create_role_op (some admin))
      (record { memory = world; path = path }) (record { memory = world_with_admin; path = path })
      disk disk made_admin refl refl
