-- ===== src/Store/Listing.antt =====
-- The listings of store/memory_users.go and store/memory_roles.go.
use mathlib.Core.List.{Perm}
use libauth.Store.{role_less, user_less, MemoryStore, list_roles, list_users}
use libauth.Prelude.Sorting.{sort-perm, sort-IsSorted, IsSorted}
use libauth.Dict.{values}
use libauth.Text.Order.{text_lt_asym}

-- Each listing is a permutation of the stored records, in the order of their names.
listings_lem :
    (s : MemoryStore)
    → IsSorted user_less (list_users s)
      × Perm (list_users s) (values s.users)
      × IsSorted role_less (list_roles s)
      × Perm (list_roles s) (values s.roles)
unfolding list_users list_roles
listings_lem s = (
  sort-IsSorted user_less (λ u v. text_lt_asym u.id v.id) (values s.users),
  sort-perm user_less (values s.users),
  sort-IsSorted role_less (λ r q. text_lt_asym r.name q.name) (values s.roles),
  sort-perm role_less (values s.roles),
)
