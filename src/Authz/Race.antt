-- ===== src/Authz/Race.antt =====
-- A cache fill (authz/authz.go, `computeAndCache`) between whose reads and whose write other calls
-- run: the lock is taken for the write alone.
use libauth.Authz.Check.{check}
use libauth.Errors
use libauth.Prelude.{◌∙◌, ap, refl, ◌↔◌, arith, ◌≡◌, List, true, none, some}
use libauth.Errors.{Result, ok, err}
use libauth.Store.{MemoryStore}
use libauth.Model.{Permission, User}
use libauth.Authz.Cache.{kept, add_roles, keep_or_cache, fill_direct_roles, compute_and_cache}
use libauth.Authz.{add_permissions, no_grants, has, Enforcer, GrantedSet}
use libauth.Text.{eq_refl, Text}
use libauth.Dict.{get}
use libauth.Authz.Resolve.{resolve_roles}
use libauth.Authz.Fresh.{fresh_lem, IsEntitled}
use libauth.Authz.Coherent.Roles.{check_hit}
use mathlib.Core.Path.{subst}
use libauth.Dict.Laws.{get-put}

-- The reads: the roles of the user, resolved, and the grants of each, from the store.
unfoldable pub gathered : MemoryStore → User → Result (GrantedSet × List Text)
gathered s u = Errors.◌>>=◌ (resolve_roles s u) (λ roles.
    Errors.◌>>=◌ (add_roles s roles no_grants) (λ g. ok (add_permissions g u.direct, roles)))

-- The write, under the lock: a set that is there already is kept.
unfoldable pub stored : User → GrantedSet → Enforcer → Enforcer
stored u g e = fill_direct_roles u.id u.roles (keep_or_cache u.id g e).1

-- With nothing in between, this is `computeAndCache`.
compute_and_cache_lem :
    (e : Enforcer) (u : User) (g : GrantedSet) (roles : List Text)
    → gathered e.store u ≡ ok (g, roles)
    → (compute_and_cache u e).1 ≡ stored u g e
unfolding compute_and_cache gathered stored
compute_and_cache_lem e u g roles h = ground (arith, h)

gathered_ok :
    (s : MemoryStore) (u : User)
    → (g : GrantedSet) × (roles : List Text) × (gathered s u ≡ ok (g, roles))
      × ((q : Permission) → (has g q ≡ true) ↔ IsEntitled s u q)
unfolding gathered
gathered_ok s u =
    let (roles, g, resolved, added, exact) = fresh_lem s u in
    (add_permissions g u.direct, roles, rw (resolved, added) refl, exact)

stored_user :
    (e : Enforcer) (u u' : User) (g : GrantedSet)
    → get e.store.users u.id ≡ some u'
    → u'.id ≡ u.id
    → get (stored u g e).store.users u'.id ≡ some u'
unfolding stored
stored_user e u u' g found same = ap (get e.store.users) same ∙ found

stored_set :
    (e : Enforcer) (u u' : User) (g : GrantedSet)
    → get e.cache u.id ≡ none
    → u'.id ≡ u.id
    → get (stored u g e).cache u'.id ≡ some g
unfolding stored kept
stored_set e u u' g miss same =
    ground (arith, same, miss, get-put e.cache u.id g u'.id, eq_refl u.id)

-- The reads of `computeAndCache` for a user succeed on any store, and the call is these reads and then
-- its write. If the write comes when the enforcer has changed, with the user stored and no set cached,
-- `Check` then grants what the store that was read entitled the user to, whatever the store is now.
pub check-stored :
    (before after : Enforcer) (u u' : User) (q : Permission)
    → get after.cache u.id ≡ none
    → get after.store.users u.id ≡ some u'
    → u'.id ≡ u.id
    → (g : GrantedSet) × (roles : List Text) × (gathered before.store u ≡ ok (g, roles))
      × ((compute_and_cache u before).1 ≡ stored u g before)
      × (((check u.id q (stored u g after)).0 ≡ ok tt) ↔ IsEntitled before.store u q)
check-stored before after u u' q miss found same =
    let (g, roles, read, exact) = gathered_ok before.store u in
    let late = stored u g after in
    let hit =
      check_hit late u' q g (stored_user after u u' g found same)
        (stored_set after u u' g miss same) in
    let here = subst (λ i. ((check i q late).0 ≡ ok tt) ↔ (has g q ≡ true)) same hit in
    (
      g,
      roles,
      read,
      compute_and_cache_lem before u g roles read,
      ((λ t. (exact q).0 (here.0 t)), (λ t. here.1 ((exact q).1 t))),
    )
