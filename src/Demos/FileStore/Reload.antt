-- ===== src/Demos/FileStore/Reload.antt =====
-- What `newFileStore` finds after changes (_examples/customstore/main.go).
use mathlib.Core.Path.{subst, subst⁻¹}
use libauth.Prelude.{sym, ap, All, true, none, some, List, ◌≡◌, refl, any, ◌∙◌}
use libauth.Text.{Text}
use libauth.Errors.{ok, err, Result}
use libauth.Store.{MemoryStore, list_users, list_roles}
use libauth.Store.Contract.{Write, run, tables}
use libauth.Jwt.Json.{JsonCodec, Json}
use libauth.Demos.Dump.{read_dump, dump_json}
use libauth.Demos.Dump.Refused.{grants_all, read_dump-fails}
use libauth.Demos.Dump.RoundTrip.{read_dump-dump_json}
use libauth.Demos.FileStore.Loading.{
  list_roles-Prints, list_users-Prints, IsStored, Prints, run-IsStored, load-listings,
}
use libauth.Demos.FileStore.{
  load_dump, file_content, load_file, Saved, save, then_save, FileStore, FileSystem, new_file_store,
  IsFileSystem, loaded, load_failed, file_missing, bad_json,
}
use libauth.Demos.FileStore.Calls.{
  call_all, call, call_all-IsStored, call_all_path, call_lem, empty_at, saved_store, saved_fine,
}

-- What is written for a store.
abbrev pub stored_json : MemoryStore → Json
stored_json s = dump_json (list_users s) (list_roles s)

-- The codec reads back what is written for a store.
abbrev pub ReadsBack : JsonCodec → MemoryStore → Type 0
ReadsBack codec s = codec.unmarshal (codec.marshal (stored_json s)) ≡ some (stored_json s)

module _ {D : Type 0} (codec : JsonCodec) (os : FileSystem D) where
  load_written :
      (path raw : Text) (j : Json)
      → codec.unmarshal raw ≡ some j
      → load_file codec path (file_content raw) ≡ load_dump (read_dump j) path
  load_written path raw j h = rw (h, load_dump) refl

  module _ (laws : IsFileSystem os) where
    -- What is found in the place of a store: the same tables.
    abbrev FoundAgain : MemoryStore → Text → D → Type 0
    FoundAgain s path d =
        (s' : MemoryStore) × (new_file_store codec os path d
          ≡ loaded (record { memory = s'; path = path }))
        × (tables s' ≡ tables s)

    save_reload :
        (fs : FileStore) (d : D)
        → IsStored fs.memory
        → ReadsBack codec fs.memory
        → (save codec os fs d).0 ≡ none
        → FoundAgain fs.memory fs.path (save codec os fs d).2
    unfolding save new_file_store
    save_reload fs d h reads fine =
        let raw = codec.marshal (stored_json fs.memory) in
        let (written, left) = saved_fine codec os fs (os.write_file fs.path raw d) fine in
        let (s', filled, same) = load-listings fs.memory h in
        (
          s',
          rw (left, laws.read-write fs.path raw d written)
              (load_written fs.path raw (stored_json fs.memory) reads
                ∙ ap (λ o. load_dump o fs.path)
                    (read_dump-dump_json (list_users fs.memory) (list_roles fs.memory)
                      (list_users-Prints fs.memory h) (list_roles-Prints fs.memory h))
                ∙ rw (filled, load_dump) refl),
          same,
        )

    save_refused :
        (fs : FileStore) (d : D)
        → any grants_all (list_roles fs.memory) ≡ true
        → ReadsBack codec fs.memory
        → (save codec os fs d).0 ≡ none
        → new_file_store codec os fs.path (save codec os fs d).2 ≡ load_failed bad_json
    unfolding save new_file_store
    save_refused fs d bad reads fine =
        let raw = codec.marshal (stored_json fs.memory) in
        let (written, left) = saved_fine codec os fs (os.write_file fs.path raw d) fine in
        rw (left, laws.read-write fs.path raw d written)
          (load_written fs.path raw (stored_json fs.memory) reads
            ∙ ap (λ o. load_dump o fs.path)
                (read_dump-fails (list_users fs.memory) (list_roles fs.memory) bad))

    -- What holds whenever a save has succeeded holds after a call without an error.
    call_saved :
        (Q : FileStore → D → Type 0) (w : Write) (fs : FileStore) (d : D)
        → ((s : MemoryStore)
            → run fs.memory w ≡ ok s
            → (save codec os (record fs { memory = s }) d).0 ≡ none
            → Q (record fs { memory = s }) (save codec os (record fs { memory = s }) d).2)
        → (call codec os w fs d).0 ≡ none
        → Q (call codec os w fs d).1 (call codec os w fs d).2
    unfolding save
    call_saved Q w fs d step =
        subst⁻¹ (λ (out : Saved D). out.0 ≡ none → Q out.1 out.2) (call_lem codec os w fs d)
          (after_run (run fs.memory w) refl)
      where
        after_run :
            (result : Result MemoryStore)
            → run fs.memory w ≡ result
            → (then_save codec os fs result d).0 ≡ none
            → Q (then_save codec os fs result d).1 (then_save codec os fs result d).2
        after_run (err e) k fine = cc
        after_run (ok s) k fine =
            subst⁻¹ (λ t. Q t (save codec os (record fs { memory = s }) d).2)
              (saved_store codec os (record fs { memory = s }) _) (step s k fine)

    call_reload :
        (w : Write) (fs : FileStore) (d : D)
        → IsStored fs.memory
        → Prints w
        → (call codec os w fs d).0 ≡ none
        → ReadsBack codec (call codec os w fs d).1.memory
        → FoundAgain (call codec os w fs d).1.memory fs.path (call codec os w fs d).2
    call_reload w fs d h p =
        call_saved (λ t left. ReadsBack codec t.memory → FoundAgain t.memory fs.path left) w fs d
          (λ s k fine reads.
            save_reload (record fs { memory = s }) d (run-IsStored fs.memory s w h p k) reads fine)

    -- After any sequence of writes to a store on a file that was missing, of records whose permissions
    -- print, and a last write without an error: the file is read into a store with the same tables as the
    -- one in memory. Writes that fail, in the store or on the disk, may stand in the sequence. What was
    -- written to a path is read back from it, and the codec reads back what it printed of the last store.
    pub reload_lem :
        (ws : List Write) (w : Write) (path : Text) (d : D) (fs fs' : FileStore) (d1 d2 : D)
        → os.read_file path d ≡ file_missing
        → All Prints ws
        → Prints w
        → call_all codec os ws (empty_at path) d ≡ (fs, d1)
        → call codec os w fs d1 ≡ (none, fs', d2)
        → ReadsBack codec fs'.memory
        → (new_file_store codec os path d ≡ loaded (empty_at path)) × FoundAgain fs'.memory path d2
    unfolding new_file_store
    reload_lem ws w path d fs fs' d1 d2 missing ps p reached e reads =
        let stored =
          subst (λ (t : FileStore × D). IsStored t.0.memory) reached
            (call_all-IsStored codec os ws (empty_at path) d (tt, tt) ps) in
        let same_path =
          sym (ap (λ t. t.0.path) reached) ∙ call_all_path codec os ws (empty_at path) d in
        (
          rw missing refl,
          subst (λ at. FoundAgain fs'.memory at d2) same_path
              (subst
                (λ (out : Saved D).
                  ReadsBack codec out.1.memory → FoundAgain out.1.memory fs.path out.2)
                e (call_reload w fs d1 stored p (ap (λ (out : Saved D). out.0) e)) reads),
        )

    -- After a write without an error, if a role in memory grants the bare wildcard, the file is refused
    -- when it is read. What was written to a path is read back, and the codec reads back what it printed.
    pub reload_refused :
        (w : Write) (fs fs' : FileStore) (d d' : D)
        → call codec os w fs d ≡ (none, fs', d')
        → any grants_all (list_roles fs'.memory) ≡ true
        → ReadsBack codec fs'.memory
        → new_file_store codec os fs.path d' ≡ load_failed bad_json
    reload_refused w fs fs' d d' e =
        subst
          (λ (out : Saved D).
            any grants_all (list_roles out.1.memory) ≡ true
            → ReadsBack codec out.1.memory
            → new_file_store codec os fs.path out.2 ≡ load_failed bad_json)
          e
          (call_saved
            (λ t left.
              any grants_all (list_roles t.memory) ≡ true
              → ReadsBack codec t.memory
              → new_file_store codec os fs.path left ≡ load_failed bad_json)
            w fs d
            (λ s k fine' bad' reads'. save_refused (record fs { memory = s }) d bad' reads' fine')
            (ap (λ (out : Saved D). out.0) e))
