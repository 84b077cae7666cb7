-- ===== src/Jwt/Keys.antt =====
-- The keys that the constructors accept (jwt/symmetric.go, jwt/alg.go).
use libauth.Prelude.{
  ◌&&◌, nat_eq_iff, Bool-cases, nat_eq, ◌⊎◌, refl, arith, ◌<◌, ltb, length, ◌≤◌, ◌≡◌, Option, List,
  true, false, some, [], ◌∷◌, inl, inr,
}
use libauth.Jwt.{err_invalid_key, Verdict, accepted, rejected}
use libauth.Jwt.Algorithm.{Crypto}
use libauth.Jwt.Symmetric.{Jwt, new, new_eddsa}
use libauth.Jwt.Settings.{Setter, Clock}
use libauth.Text.{Text, ◌==◌}
use libauth.Jwt.RoundTrip.{IsPair}

-- Both sides are halves of one key, with the same settings.
abbrev pub IsBound : Crypto → Verdict Jwt → Type 0
IsBound crypto (rejected e) = ⊥
IsBound crypto (accepted j) = IsPair crypto j.sign.alg j.verify.alg × (j.sign.set ≡ j.verify.set)

new_long :
    (crypto : Crypto) (system : Clock) (key : Text) (opts : List (Option Setter))
    → 32 ≤ length key
    → IsBound crypto (new system key opts)
new_long crypto system key opts h =
    let long : ltb (length key) 32 ≡ false = ground (arith, h) in rw long ((refl, refl, refl), refl)

new_short :
    (system : Clock) (key : Text) (opts : List (Option Setter))
    → length key < 32
    → new system key opts ≡ rejected err_invalid_key
new_short system key opts h =
    let short : ltb (length key) 32 ≡ true = ground (arith, h) in rw short refl

some_key : (priv : Text) → length priv ≡ 64 → (priv == []) ≡ false
unfolding ◌==◌
some_key [] h = absurd (omega (arith, h))
some_key (c ∷ s) h = refl

eddsa_good :
    (crypto : Crypto) (system : Clock) (priv : Text) (opts : List (Option Setter))
    → length priv ≡ 64
    → length (crypto.ed25519_public priv) ≡ 32
    → IsBound crypto (new_eddsa crypto system (some priv) (crypto.ed25519_public priv) opts)
eddsa_good crypto system priv opts h k =
    let size : nat_eq (length priv) 64 ≡ true = (nat_eq_iff (length priv) 64).1 h in
    let size' : nat_eq (length (crypto.ed25519_public priv)) 32 ≡ true =
      (nat_eq_iff (length (crypto.ed25519_public priv)) 32).1 k in
    rw (size, size') ((some_key priv h, refl), refl)

-- A key of the wrong size.
eddsa_bad :
    (crypto : Crypto) (system : Clock) (priv : Text) (opts : List (Option Setter))
    → (nat_eq (length priv) 64 && nat_eq (length (crypto.ed25519_public priv)) 32) ≡ false
    → new_eddsa crypto system (some priv) (crypto.ed25519_public priv) opts
      ≡ rejected err_invalid_key
eddsa_bad crypto system priv opts h = elim (Bool-cases (nat_eq (length priv) 64)) [
  | inr wrong ↦ rw wrong refl
  | inl right ↦
      let wrong : nat_eq (length (crypto.ed25519_public priv)) 32 ≡ false =
        ground (arith, h, right) in
      rw (right, wrong) refl
]

-- Keys of the sizes that are asked for, and what the constructors then give.
abbrev pub HasSizes : Crypto → Text → Type 0
HasSizes crypto priv = (length priv ≡ 64) × (length (crypto.ed25519_public priv) ≡ 32)

-- `New` accepts a secret exactly from 32 bytes on, and `NewEdDSA` a private key and its public half
-- exactly if they have 64 and 32 bytes; both sides then have halves of one key and the same settings.
-- Else the error is that of an invalid key.
pub new_lem :
    (crypto : Crypto) (system : Clock) (key priv : Text) (opts : List (Option Setter))
    → (((32 ≤ length key) × IsBound crypto (new system key opts))
        ⊎ ((length key < 32) × (new system key opts ≡ rejected err_invalid_key)))
      × ((HasSizes crypto priv
            × IsBound crypto
                (new_eddsa crypto system (some priv) (crypto.ed25519_public priv) opts))
          ⊎ ((¬ (HasSizes crypto priv))
              × (new_eddsa crypto system (some priv) (crypto.ed25519_public priv) opts
                  ≡ rejected err_invalid_key)))
new_lem crypto system key priv opts = (
  elim (Bool-cases (ltb (length key) 32)) [
    | inl short ↦
        let lt : length key < 32 = ground (arith, short) in inr (lt, new_short system key opts lt)
    | inr long ↦
        let le : 32 ≤ length key = ground (arith, long) in
        inl (le, new_long crypto system key opts le)
  ],
  elim (Bool-cases (nat_eq (length priv) 64 && nat_eq (length (crypto.ed25519_public priv)) 32)) [
    | inl right ↦
        let h : length priv ≡ 64 = ground (arith, right) in
        let k : length (crypto.ed25519_public priv) ≡ 32 = ground (arith, right) in
        inl ((h, k), eddsa_good crypto system priv opts h k)
    | inr wrong ↦ inr (
      (λ sizes. ground (arith, wrong, sizes.0, sizes.1)),
      eddsa_bad crypto system priv opts wrong,
    )
  ],
)
