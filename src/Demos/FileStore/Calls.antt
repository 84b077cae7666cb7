-- ===== src/Demos/FileStore/Calls.antt =====
-- Sequences of calls of the methods that write (_examples/customstore/main.go).
use libauth.Prelude.{All, Bool, true, false, none, List, [], ◌∷◌, ◌≡◌, refl, ◌∙◌}
use libauth.Text.{Text}
use libauth.Errors.{ok, err, Result}
use libauth.Store.{MemoryStore, new_memory_store}
use libauth.Store.Contract.{
  Write, run, create_user_op, update_user_op, delete_user_op, create_role_op, update_role_op,
  delete_role_op,
}
use libauth.Jwt.Json.{JsonCodec}
use libauth.Demos.FileStore.Loading.{IsStored, Prints, run-IsStored}
use libauth.Demos.FileStore.{
  Saved, save, then_save, FileStore, FileSystem, create_user, update_user, delete_user, create_role,
  update_role, delete_role, saved,
}

-- `&fileStore{MemoryStore: libauth.NewMemoryStore(), path: path}`
abbrev pub empty_at : Text → FileStore
empty_at path = record { memory = new_memory_store; path = path }

module _ {D : Type 0} (codec : JsonCodec) (os : FileSystem D) where
  -- The methods that write.
  abbrev pub call : Write → FileStore → D → Saved D
  call (create_user_op u) = create_user codec os u
  call (update_user_op u) = update_user codec os u
  call (delete_user_op id) = delete_user codec os id
  call (create_role_op r) = create_role codec os r
  call (update_role_op r) = update_role codec os r
  call (delete_role_op name) = delete_role codec os name

  -- A sequence of calls that goes on past errors.
  unfoldable pub call_all : List Write → FileStore → D → FileStore × D
  call_all [] fs d = (fs, d)
  call_all (w ∷ ws) fs d = let (_, fs', d') = call w fs d in call_all ws fs' d'

  pub call_lem :
      (w : Write) (fs : FileStore) (d : D) → call w fs d ≡ then_save codec os fs (run fs.memory w) d
  unfolding create_user update_user delete_user create_role update_role delete_role
  call_lem (create_user_op u) fs d = refl
  call_lem (update_user_op u) fs d = refl
  call_lem (delete_user_op id) fs d = refl
  call_lem (create_role_op r) fs d = refl
  call_lem (update_role_op r) fs d = refl
  call_lem (delete_role_op name) fs d = refl

  pub saved_store : (fs : FileStore) (written : Bool × D) → (saved codec os fs written).1 ≡ fs
  saved_store fs (true, d) = refl
  saved_store fs (false, d) = refl

  pub saved_fine :
      (fs : FileStore) (written : Bool × D)
      → (saved codec os fs written).0 ≡ none
      → (written.0 ≡ true) × ((saved codec os fs written).2 ≡ written.1)
  saved_fine fs (true, d) h = (refl, refl)
  saved_fine fs (false, d) h = cc

  -- Whatever the outcome, the names stay unique and what is granted can be printed.
  call-IsStored :
      (w : Write) (fs : FileStore) (d : D)
      → IsStored fs.memory
      → Prints w
      → IsStored (call w fs d).1.memory
  unfolding save
  call-IsStored w fs d h p = rw (call_lem w fs d) (after_run (run fs.memory w) refl)
    where
      after_run :
          (result : Result MemoryStore)
          → run fs.memory w ≡ result
          → IsStored (then_save codec os fs result d).1.memory
      after_run (err e) k = h
      after_run (ok s) k =
          rw (saved_store (record fs { memory = s }) _) (run-IsStored fs.memory s w h p k)

  pub call_all-IsStored :
      (ws : List Write) (fs : FileStore) (d : D)
      → IsStored fs.memory
      → All Prints ws
      → IsStored (call_all ws fs d).0.memory
  unfolding call_all
  call_all-IsStored [] fs d h p = h
  call_all-IsStored (w ∷ ws) fs d h (p, ps) = call_all-IsStored ws _ _ (call-IsStored w fs d h p) ps

  call_path : (w : Write) (fs : FileStore) (d : D) → (call w fs d).1.path ≡ fs.path
  unfolding save
  call_path w fs d = rw (call_lem w fs d) (after_run (run fs.memory w))
    where
      after_run : (result : Result MemoryStore) → (then_save codec os fs result d).1.path ≡ fs.path
      after_run (err e) = refl
      after_run (ok s) = rw (saved_store (record fs { memory = s }) _) refl

  pub call_all_path :
      (ws : List Write) (fs : FileStore) (d : D) → (call_all ws fs d).0.path ≡ fs.path
  unfolding call_all
  call_all_path [] fs d = refl
  call_all_path (w ∷ ws) fs d = call_all_path ws _ _ ∙ call_path w fs d
