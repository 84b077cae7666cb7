-- ===== src/Authz/Coherent/Reads.antt =====
-- Queries write caches and no records (authz/authz.go, authz/check.go).
use libauth.Authz.Check
use libauth.Authz.Cache.{compute_and_cache, get_granted_set, direct_roles_of, get_granted_set_full}
use libauth.Text.{Text}
use libauth.Authz.{Enforcer}
use libauth.Model.{Permission}
use libauth.Prelude.{arith, ◌≡◌}

pub full_store : (id : Text) (e : Enforcer) → (get_granted_set_full id e).1.store ≡ e.store
unfolding get_granted_set_full compute_and_cache
full_store id e = ground arith

pub direct_roles_store : (id : Text) (e : Enforcer) → (direct_roles_of id e).1.store ≡ e.store
unfolding direct_roles_of
direct_roles_store id e = ground arith

pub check_state :
    (id : Text) (p : Permission) (e : Enforcer)
    → (Check.check id p e).1 ≡ (get_granted_set_full id e).1
unfolding Check.check
check_state id p e = ground arith

pub has_permission_state :
    (id : Text) (p : Permission) (e : Enforcer)
    → (Check.has_permission id p e).1 ≡ (get_granted_set_full id e).1
unfolding Check.has_permission get_granted_set
has_permission_state id p e = ground arith

pub has_role_state :
    (id role : Text) (e : Enforcer) → (Check.has_role id role e).1 ≡ (direct_roles_of id e).1
unfolding Check.has_role
has_role_state id role e = ground arith
