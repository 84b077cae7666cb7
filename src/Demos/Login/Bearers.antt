-- ===== src/Demos/Login/Bearers.antt =====
-- A token in the header `Authorization` (_examples/jwtauth/main.go).
use libauth.Prelude.{
  leb, Bool, Option, ℕ, zero, suc, ◌<◌, ◌≡◌, refl, arith, true, false, none, some, List, [], ◌∷◌,
  ◌++◌, length, ap, ◌∙◌, map, ltb, ◌&&◌,
}
use libauth.Text.{reverse-reverse, Text, ◌==◌, reverse, AreBytes}
use libauth.Text.Alphabet.{nth, all_below, all_below_sound}
use libauth.Jwt.Base64.{b64encode, url_alphabet, sextets}
use libauth.Jwt.Header.{past_space, past_space_reversed, trim_by, trim_space}
use libauth.Jwt.Base64.RoundTrip.{sextets-AreSextets, AreSextets}
use libauth.Demos.Login.{bearer, bearer_token}

-- Bytes of ASCII that are seen.
abbrev pub IsInk : Text → Type 0
IsInk [] = Unit
IsInk (c ∷ s) = (32 < c) × (c < 127) × IsInk s

pub append-IsInk : (s t : Text) → IsInk s → IsInk t → IsInk (s ++ t)
append-IsInk [] t h k = k
append-IsInk (c ∷ s) t (low, high, h) k = (low, high, append-IsInk s t h k)

reverse-IsInk : (s : Text) → IsInk s → IsInk (reverse s)
unfolding reverse
reverse-IsInk [] h = tt
reverse-IsInk (c ∷ s) (low, high, h) =
    append-IsInk (reverse s) (c ∷ []) (reverse-IsInk s h) (low, high, tt)

past_space-ink : (s : Text) → IsInk s → past_space s ≡ none
past_space-ink [] h = refl
past_space-ink (a ∷ []) (low, high, h) = ground (arith, low, high)
past_space-ink (a ∷ b ∷ []) (low, high, h) = ground (arith, low, high)
past_space-ink (a ∷ b ∷ c ∷ s) (low, high, h) = ground (arith, low, high)

past_space_reversed-ink : (s : Text) → IsInk s → past_space_reversed s ≡ none
past_space_reversed-ink [] h = refl
past_space_reversed-ink (a ∷ []) (low, high, h) = ground (arith, low, high)
past_space_reversed-ink (b ∷ a ∷ []) (low, high, h) = ground (arith, low, high)
past_space_reversed-ink (c ∷ b ∷ a ∷ s) (low, high, h) = ground (arith, low, high)

trim_by_stop :
    (past : Text → Option Text) (fuel : ℕ) (s : Text) → past s ≡ none → trim_by past fuel s ≡ s
unfolding trim_by
trim_by_stop past zero s h = refl
trim_by_stop past (suc fuel) s h = rw (trim_by, h) refl

-- What is seen from its first byte to its last is not trimmed.
pub trim_space-ink : (s : Text) → IsInk s → trim_space s ≡ s
unfolding trim_space
trim_space-ink s h = rw (trim_by_stop past_space (length s) s (past_space-ink s h)) (
    ap reverse (
      trim_by_stop past_space_reversed (length s) (reverse s)
        (past_space_reversed-ink (reverse s) (reverse-IsInk s h)))
    ∙ reverse-reverse s)

-- The letters of base 64 are seen.
is_ink : ℕ → Bool
is_ink c = ltb 32 c && ltb c 127

letters_seen : all_below 64 (λ d. is_ink (nth url_alphabet d)) ≡ true
unfolding all_below is_ink nth
letters_seen = refl

map-IsInk : (ds : List ℕ) → AreSextets ds → IsInk (map (nth url_alphabet) ds)
unfolding is_ink
map-IsInk [] h = tt
map-IsInk (d ∷ ds) (lt, h) =
    let seen = all_below_sound 64 (λ e. is_ink (nth url_alphabet e)) d letters_seen lt in
    (ground (arith, seen), ground (arith, seen), map-IsInk ds h)

pub b64encode-IsInk : (s : Text) → AreBytes s → IsInk (b64encode s)
unfolding b64encode
b64encode-IsInk s h = map-IsInk (sextets s) (sextets-AreSextets s h)

-- The token behind the prefix is found.
pub bearer_token_lem :
    (token : Text)
    → IsInk token
    → (token == []) ≡ false
    → bearer_token (bearer ++ token) ≡ some token
unfolding bearer_token ◌==◌
bearer_token_lem [] h some_byte = cc
bearer_token_lem (c ∷ token) h some_byte =
    let long : leb (length (bearer ++ c ∷ token)) (length bearer) ≡ false = ground arith in
    rw (long, trim_space-ink (c ∷ token) h) refl
