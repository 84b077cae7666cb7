-- ===== src/Jwt/Base64/RoundTrip.antt =====
-- Reading back the segments of a token (jwt/alg.go).
use libauth.Prelude.{
  ◌+◌, ◌*◌, ◌%◌, ◌/◌, ◌&&◌, ◌||◌, refl, arith, not, nat_eq, map, ◌<◌, ◌≡◌, Bool, List, ℕ, true,
  false, some, [], ◌∷◌,
}
use libauth.Text.Alphabet.{nth, all_below, found_again, index_byte-nth, all_below_sound}
use libauth.Text.{◌==◌, AreBytes, Text, index_byte}
use libauth.Jwt.Base64.{
  decode_map, regroup, b64encode, b64decode, without_breaks, sextets, url_alphabet,
}

-- A letter is found again, and is neither a line break nor a full stop.
abbrev is_plain : ℕ → Bool
is_plain c = not (nat_eq c 10 || nat_eq c 13) && not (nat_eq c 46)

alphabet_found : all_below 64 (found_again url_alphabet) ≡ true
unfolding all_below found_again index_byte nth
alphabet_found = refl

alphabet_plain : all_below 64 (λ d. is_plain (nth url_alphabet d)) ≡ true
unfolding all_below nth
alphabet_plain = refl

abbrev pub AreSextets : List ℕ → Type 0
AreSextets [] = Unit
AreSextets (d ∷ ds) = (d < 64) × AreSextets ds

pub sextets-AreSextets : (s : Text) → AreBytes s → AreSextets (sextets s)
unfolding sextets
sextets-AreSextets [] h = tt
sextets-AreSextets (a ∷ []) (ha, h) = (omega arith, (omega arith, tt))
sextets-AreSextets (a ∷ b ∷ []) (ha, (hb, h)) = (omega arith, (omega arith, (omega arith, tt)))
sextets-AreSextets (a ∷ b ∷ c ∷ s) (ha, (hb, (hc, h))) =
    (omega arith, (omega arith, (omega arith, (omega arith, sextets-AreSextets s h))))

-- The three bytes of a group.
first_byte : (a b : ℕ) → b < 256 → a / 4 * 4 + (a % 4 * 16 + b / 16) / 16 ≡ a
first_byte a b h = omega arith

second_byte :
    (a b c : ℕ)
    → b < 256
    → c < 256
    → (a % 4 * 16 + b / 16) % 16 * 16 + (b % 16 * 4 + c / 64) / 4 ≡ b
second_byte a b c h k = omega arith

third_byte : (b c : ℕ) → c < 256 → (b % 16 * 4 + c / 64) % 4 * 64 + c % 64 ≡ c
third_byte b c h = omega arith

last_of_one : (a : ℕ) → a / 4 * 4 + a % 4 * 16 / 16 ≡ a
last_of_one a = omega arith

last_of_two : (a b : ℕ) → b < 256 → (a % 4 * 16 + b / 16) % 16 * 16 + b % 16 * 4 / 4 ≡ b
last_of_two a b h = omega arith

regroup-sextets : (s : Text) → AreBytes s → regroup (sextets s) ≡ some s
unfolding sextets regroup
regroup-sextets [] h = refl
regroup-sextets (a ∷ []) (ha, h) = rw (last_of_one a) refl
regroup-sextets (a ∷ b ∷ []) (ha, (hb, h)) = rw (first_byte a b hb) (rw (last_of_two a b hb) refl)
regroup-sextets (a ∷ b ∷ c ∷ s) (ha, (hb, (hc, h))) =
    rw (regroup-sextets s h)
      (rw (first_byte a b hb) (rw (second_byte a b c hb hc) (rw (third_byte b c hc) refl)))

plain_letter : (d : ℕ) → d < 64 → is_plain (nth url_alphabet d) ≡ true
plain_letter d lt = all_below_sound 64 (λ e. is_plain (nth url_alphabet e)) d alphabet_plain lt

without_breaks-map :
    (ds : List ℕ)
    → AreSextets ds
    → without_breaks (map (nth url_alphabet) ds) ≡ map (nth url_alphabet) ds
unfolding without_breaks
without_breaks-map [] h = refl
without_breaks-map (d ∷ ds) (lt, h) = ground (arith, plain_letter d lt, without_breaks-map ds h)

decode_map-map : (ds : List ℕ) → AreSextets ds → decode_map (map (nth url_alphabet) ds) ≡ some ds
unfolding decode_map
decode_map-map [] h = refl
decode_map-map (d ∷ ds) (lt, h) =
    rw (decode_map, index_byte-nth url_alphabet 64 d alphabet_found lt, decode_map-map ds h) refl

-- Bytes are read back from their encoding in base 64.
pub b64decode-b64encode : (s : Text) → AreBytes s → b64decode (b64encode s) ≡ some s
unfolding b64decode b64encode
b64decode-b64encode s h =
    let six = sextets-AreSextets s h in
    rw (b64decode, without_breaks-map (sextets s) six, decode_map-map (sextets s) six)
      (regroup-sextets s h)

-- No letter is a full stop.
abbrev pub HasNoDot : Text → Type 0
HasNoDot [] = Unit
HasNoDot (c ∷ s) = (nat_eq c 46 ≡ false) × HasNoDot s

map-HasNoDot : (ds : List ℕ) → AreSextets ds → HasNoDot (map (nth url_alphabet) ds)
map-HasNoDot [] h = tt
map-HasNoDot (d ∷ ds) (lt, h) = (ground (arith, plain_letter d lt), map-HasNoDot ds h)

pub b64encode-HasNoDot : (s : Text) → AreBytes s → HasNoDot (b64encode s)
unfolding b64encode
b64encode-HasNoDot s h = map-HasNoDot (sextets s) (sextets-AreSextets s h)

-- Some bytes give some letters.
pub b64encode_some : (s : Text) → (s == []) ≡ false → (b64encode s == []) ≡ false
unfolding b64encode sextets ◌==◌
b64encode_some [] h = h
b64encode_some (a ∷ []) h = refl
b64encode_some (a ∷ b ∷ []) h = refl
b64encode_some (a ∷ b ∷ c ∷ s) h = refl
