-- ===== src/Examples/Parts.antt =====
-- Instances of the theorems on permissions and on the store.
use libauth.Model.{to_string, star, valid, split_at}
use libauth.Model.{
  empty_action, marshal_text, colon, parse_permission, unmarshal_text, Role, Permission,
}
use libauth.Examples.{perm, runs}
use libauth.Store.Contract.{run-refines, tables, run_tables, create_role_op, run, as_tables}
use libauth.Store.{new_memory_store, MemoryStore}
use libauth.Model.Parsing.{parse_sound, unmarshal_text-marshal_text, Lacks}
use libauth.Text.{index_byte, ◌==◌, codes}
use libauth.Prelude.{◌⊎◌, arith, none, some, refl, true, if◌then◌else◌, ◌∷◌, ◌≡◌, []}

abbrev edit : Permission
edit = perm "article" "edit"

article-Lacks : Lacks colon edit.resource
unfolding runs
article-Lacks = ground arith

unmarshal_text-marshal_text_example :
    unmarshal_text (perm "" "") (marshal_text edit)
    ≡ (if edit.action == [] then (perm "" "", some empty_action) else (edit, none))
unfolding runs
unmarshal_text-marshal_text_example =
    unmarshal_text-marshal_text (perm "" "") edit refl article-Lacks

parse_sound_example :
    (valid edit ≡ true)
    × ((codes "article:edit" ≡ star) × (edit ≡ record { resource = star; action = [] })
        ⊎ (codes "article:edit" ≡ to_string edit) × Lacks colon edit.resource)
unfolding runs parse_permission split_at index_byte
parse_sound_example = parse_sound (codes "article:edit") edit refl

abbrev editor : Role
editor = record { name = codes "editor"; permissions = perm "article" "*" ∷ []; parent = [] }

run-refines_example :
    as_tables (run new_memory_store (create_role_op (some editor)))
    ≡ run_tables (tables new_memory_store) (create_role_op (some editor))
run-refines_example = run-refines new_memory_store (create_role_op (some editor))

abbrev stored : MemoryStore
stored = record { users = []; roles = (codes "editor", editor) ∷ (codes "admin", editor) ∷ [] }
