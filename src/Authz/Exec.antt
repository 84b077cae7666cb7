-- ===== src/Authz/Exec.antt =====
-- The methods of the enforcer: they take its state, may fail, and leave what they wrote.
use libauth.Errors.{Error, Result, ok, err}
use libauth.Authz.{Enforcer}
use libauth.Store.{MemoryStore}
use libauth.Prelude.{false, true, Bool}

abbrev pub Exec : Type 0 → Type 0
Exec A = Enforcer → Result A × Enforcer

abbrev pub pure : {A : Type 0} → A → Exec A
pure a e = (ok a, e)

abbrev pub fail : {A : Type 0} → Error → Exec A
fail c e = (err c, e)

abbrev pub lift : {A : Type 0} → Result A → Exec A
lift r e = (r, e)

-- A read of the store.
abbrev pub read : {A : Type 0} → (MemoryStore → Result A) → Exec A
read f e = (f e.store, e)

abbrev written : Enforcer → Result MemoryStore → Result (Unit {0}) × Enforcer
written e (ok s) = (ok tt, record e { store = s })
written e (err c) = (err c, e)

-- A write to the store.
abbrev pub write : (MemoryStore → Result MemoryStore) → Exec (Unit {0})
write f e = written e (f e.store)

abbrev pub modify : (Enforcer → Enforcer) → Exec (Unit {0})
modify f e = (ok tt, f e)

abbrev pub continue : {A B : Type 0} → Result A → (A → Exec B) → Exec B
continue (ok a) f e = f a e
continue (err c) f e = (err c, e)

infixl 10 ◌>>=◌ ◌>>◌
abbrev pub ◌>>=◌ : {A B : Type 0} → Exec A → (A → Exec B) → Exec B
◌>>=◌ m f e = let (r, e') = m e in continue r f e'

abbrev pub ◌>>◌ : {A B : Type 0} → Exec A → Exec B → Exec B
m >> n = m >>= λ _. n

-- `if !test { return c }`
abbrev pub ensure : Bool → Error → Exec (Unit {0})
ensure true c = pure tt
ensure false c = fail c
