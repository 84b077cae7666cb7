-- ===== src/Demos/Login/Session.antt =====
-- From a login to the pages behind the guards (_examples/jwtauth/main.go).
use libauth.Store
use libauth.Prelude.{if◌then◌else◌, sym, ℕ, ◌≡◌, false, some, [], ◌++◌, ap, ◌∙◌, Option}
use libauth.Text.{Text, ◌==◌}
use libauth.Model.{User}
use libauth.Dict.{get}
use libauth.Jwt.{accepted}
use libauth.Jwt.Algorithm.{Crypto, IsCrypto, header}
use libauth.Jwt.Claims.{Claims, registered}
use libauth.Jwt.Json.{JsonCodec, object, Json}
use libauth.Jwt.Settings.{Clock}
use libauth.Jwt.Symmetric.{Jwt, encode, decode}
use libauth.Jwt.RoundTrip.{Reads, header_json}
use libauth.Jwt.Claims.RoundTrip.{read_back}
use libauth.Jwt.Fresh.{HasPlainDates, IsWithin}
use libauth.Authz.{Enforcer}
use libauth.Middleware.{Request, caller}
use libauth.Middleware.Enforced.{enforcer, IsReady}
use libauth.Demos.Dump.{bind_read}
use libauth.Demos.Articles.{World, write_json}
use libauth.Demos.Articles.Access.{Decided, require_lem}
use libauth.Demos.Login.Bearers.{IsInk, bearer_token_lem}
use libauth.Demos.Login.{
  serve_page, token_response, known_response, named_by, required_response, bearer_token,
  identified_by, named_response, page_handler, page_perm, token_json, bearer, authorization,
  read_username, Page, jwt_identity, login_handler, claims_of, new_auth,
}
use mathlib.Core.Path.{subst⁻¹}
use libauth.Demos.Login.Issued.{
  decode_login, token-IsInk, encode_login, token_text, new_auth_lem, login_auth, accepted-injective,
  login_claims, login_alg,
}
use libauth.Demos.Articles.Served.{guard}

login_lem :
    (crypto : Crypto) (codec : JsonCodec) (first_value : Text → Option Json) (auth : Jwt) (i : ℕ)
    (id body token : Text) (u : User) (w : World Enforcer) (r : Request)
    → bind_read (first_value body) read_username ≡ some id
    → (id == []) ≡ false
    → get w.auth.store.users id ≡ some u
    → encode crypto codec auth i (claims_of id) ≡ accepted token
    → login_handler crypto codec first_value auth i body r w
      ≡ write_json 200 (token_json token) w.server r w
unfolding login_handler Store.get_user
login_lem crypto codec first_value auth i id body token u w r named some_name known encoded =
    ap (λ o. named_response crypto codec auth i o r w) named
    ∙ ap
        (λ b.
          if b
          then required_response r w
          else known_response crypto codec auth i id (Store.get_user w.auth.store id) r w)
        some_name
    ∙ rw (Store.get_user, known) (ap (λ t. token_response t r w) encoded)

identity_lem :
    (crypto : Crypto) (codec : JsonCodec) (auth : Jwt) (k : ℕ) (token : Text) (c : Claims)
    (r : Request)
    → IsInk token
    → (token == []) ≡ false
    → r.header authorization ≡ bearer ++ token
    → decode crypto codec auth k token ≡ accepted c
    → jwt_identity crypto codec auth k r ≡ caller c.subject
unfolding jwt_identity
identity_lem crypto codec auth k token c r ink some_byte carried decoded =
    ap (λ h. identified_by crypto codec auth k (bearer_token h)) carried
    ∙ ap (λ o. identified_by crypto codec auth k o) (bearer_token_lem token ink some_byte)
    ∙ ap named_by decoded

-- The token that is encoded for a stored user, whose ID is not empty, is what the login of this user
-- answers with. A request that is not resolved and bears it later, while the user is stored, reaches
-- the handler of the page exactly if the user is entitled to its permission by then, and is refused
-- with 403 otherwise; the enforcer stays ready. The enforcer has consistent indexes, an acyclic
-- hierarchy and exact cached sets. The moment lies from the issue to one second before the expiration,
-- with dates within 9 * 10^18 seconds of the year 1. The primitives are as documented, and the codec
-- reads back the header and the payload.
pub session_lem :
    (crypto : Crypto) (codec : JsonCodec) (first_value : Text → Option Json) (system : Clock)
    (auth : Jwt) (i k : ℕ) (u u' : User) (body token : Text) (w w' : World Enforcer)
    (r r' : Request) (page : Page)
    → IsCrypto crypto
    → codec.unmarshal (header login_alg) ≡ some (header_json login_alg)
    → Reads codec (object (registered (login_claims system i u.id)))
    → HasPlainDates (system k) (login_claims system i u.id)
    → IsWithin (system k) (login_claims system i u.id)
    → new_auth system ≡ accepted auth
    → bind_read (first_value body) read_username ≡ some u.id
    → (u.id == []) ≡ false
    → get w.auth.store.users u.id ≡ some u'
    → encode crypto codec auth i (claims_of u.id) ≡ accepted token
    → r'.header authorization ≡ bearer ++ token
    → r'.context.resolved ≡ false
    → IsReady w'.auth
    → get w'.auth.store.users u.id ≡ some u
    → (login_handler crypto codec first_value auth i body r w
        ≡ write_json 200 (token_json token) w.server r w)
      × Decided r' u w'
          (page_perm page)
          (page_handler first_value page)
          (serve_page first_value (guard enforcer (jwt_identity crypto codec auth k)) page r' w')
unfolding serve_page
session_lem crypto codec first_value system auth i k u u' body token w w' r r' page laws
      reads_header reads dates within made named some_name known encoded carried fresh ready
      stored =
    let same = accepted-injective (login_auth system) auth (sym (new_auth_lem system) ∙ made) in
    let shape = accepted-injective token (token_text crypto codec system i u.id some_name) (
      sym encoded
      ∙ ap (λ a. encode crypto codec a i (claims_of u.id)) (sym same)
      ∙ encode_login crypto codec system i u.id some_name) in
    let (ink, some_byte) = token-IsInk crypto codec system i u.id some_name laws reads.1 in
    let decoded =
      ap (λ a. decode crypto codec a k token) (sym same)
      ∙ ap (λ t. decode crypto codec (login_auth system) k t) shape
      ∙ decode_login crypto codec system i u.id some_name k laws reads_header reads dates within in
    let identified =
      identity_lem crypto codec auth k token (read_back (login_claims system i u.id)) r'
        (subst⁻¹ IsInk shape ink) (ap (λ t. t == []) shape ∙ some_byte) carried decoded in
    (
      login_lem crypto codec first_value auth i u.id body token u' w r named some_name known
          encoded,
      require_lem (jwt_identity crypto codec auth k) r' u (page_perm page)
          (page_handler first_value page) w' ready identified fresh stored,
    )
