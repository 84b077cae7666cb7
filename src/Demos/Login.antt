-- ===== src/Demos/Login.antt =====
-- _examples/jwtauth/main.go: a login that issues tokens, and the identity that reads them. Of an error
-- of jwt/errors.go there is the text of the sentinel, without
-- what it wraps; the texts of other errors, such as those of encoding/json, are left out.
pub mod Bearers
pub mod Issued
pub mod Session
use libauth.Prelude.{
  Option, none, some, [], ◌∷◌, ◌||◌, not, ℕ, length, take, drop, map, leb, if◌then◌else◌,
}
use libauth.Prelude.Int.{pos, ℤ}
use libauth.Text.{Text, codes, ◌==◌}
use libauth.Model.{Permission, User, parse_permission}
use libauth.Errors.{ok, err, Result}
use libauth.Store
use libauth.Authz.{Enforcer}
use libauth.Jwt.{
  JwtError, Verdict, accepted, rejected, err_token_malformed, err_token_bad_signature,
  err_token_expired, err_token_not_yet_valid, err_token_issued_in_future, err_alg_mismatch,
  err_unexpected_typ, err_unsupported_crit, err_missing_expiration, err_missing_subject,
  err_reserved_claim, err_issuer_mismatch, err_audience_mismatch, err_invalid_key, err_encode,
}
use libauth.Jwt.Algorithm.{Crypto}
use libauth.Jwt.Claims.{Claims, no_claims}
use libauth.Jwt.Header.{lower, trim_space}
use libauth.Jwt.Json.{Json, JsonCodec, null, string, number, object, end, field, read_string}
use libauth.Jwt.Settings.{Clock, with_ttl, with_issuer, with_expected_issuer}
use libauth.Jwt.Symmetric.{Jwt, new, encode, decode}
use libauth.Middleware.{
  Handler, IdentityFunc, Identified, caller, anonymous, unidentified, Middleware, user_from_context,
}
use libauth.Middleware.Require.{require, or_zero}
use libauth.Demos.Dump.{fold_name, bind_read, read_struct}
use libauth.Demos.Articles.{World, write_json, error_json, user_or_null, list, create}

abbrev pub error_text : JwtError → Text
error_text err_token_malformed = codes "libauth: token is malformed"
error_text err_token_bad_signature = codes "libauth: token signature is invalid"
error_text err_token_expired = codes "libauth: token has expired"
error_text err_token_not_yet_valid = codes "libauth: token is not valid yet"
error_text err_token_issued_in_future = codes "libauth: token is issued in the future"
error_text err_alg_mismatch = codes "libauth: token algorithm does not match the verifier"
error_text err_unexpected_typ = codes "libauth: token has an unexpected typ header"
error_text err_unsupported_crit = codes "libauth: token has unsupported critical headers"
error_text err_missing_expiration =
    codes "libauth: claims must carry an expiration (set ExpiresAt or configure WithTTL)"
error_text err_missing_subject = codes "libauth: claims must carry a subject (set Claims.Subject)"
error_text err_reserved_claim = codes "libauth: extra claim collides with a registered claim"
error_text err_issuer_mismatch = codes "libauth: token issuer does not match"
error_text err_audience_mismatch = codes "libauth: token audience does not match"
error_text err_invalid_key = codes "libauth: invalid key"
error_text err_encode = []

abbrev pub issuer : Text
issuer = codes "libauth-jwtauth-demo"

-- Fifteen minutes, in nanoseconds.
abbrev pub ttl : ℤ
ttl = pos 900000000000

abbrev pub secret : Text
secret = codes "demo-secret-0123456789abcdef-demo-secret-32"

-- The call of `jwt.New` in `main`.
abbrev pub new_auth : Clock → Verdict Jwt
new_auth system =
    new system secret
      (some (with_ttl ttl) ∷ some (with_issuer issuer) ∷ some (with_expected_issuer issuer) ∷ [])

abbrev pub authorization : Text
authorization = codes "Authorization"

abbrev pub bearer : Text
bearer = codes "Bearer "

abbrev pub some_token : Text → Option Text
some_token token = if token == [] then none else some token

-- The token of the header. `strings.EqualFold` with the prefix, none of whose letters a letter
-- outside ASCII folds to.
unfoldable pub bearer_token : Text → Option Text
bearer_token h =
    if leb (length h) (length bearer)
      || not (map lower (take (length bearer) h) == map lower bearer)
    then none
    else some_token (trim_space (drop (length bearer) h))

abbrev pub named_by : Verdict Claims → Identified
named_by (accepted claims) = caller claims.subject
named_by (rejected e) = anonymous (unidentified (error_text e))

abbrev pub identified_by : Crypto → JsonCodec → Jwt → ℕ → Option Text → Identified
identified_by crypto codec auth moment none =
    anonymous (unidentified (codes "missing bearer token"))
identified_by crypto codec auth moment (some token) =
    named_by (decode crypto codec auth moment token)

-- `jwtIdentity`, for a request at a moment.
unfoldable pub jwt_identity : Crypto → JsonCodec → Jwt → ℕ → IdentityFunc
jwt_identity crypto codec auth moment r =
    identified_by crypto codec auth moment (bearer_token (r.header authorization))

-- The struct of `loginHandler`, of which the name is kept.
unfoldable pub read_username_member : Text → Json → Text → Option Text
read_username_member name j username =
    if fold_name name == codes "username" then read_string username j else some username

unfoldable pub read_username : Json → Option Text
read_username null = some []
read_username (object fs) = read_struct read_username_member fs []
read_username j = none

-- The names of a map are printed in order.
abbrev pub token_json : Text → Json
token_json token = object (
    field (codes "expires_in") (number (codes "900")) (
      field (codes "token") (string token)
        (field (codes "token_type") (string (codes "Bearer")) end)))

abbrev pub token_response : Verdict Text → Handler (World Enforcer)
token_response (accepted token) r w = write_json 200 (token_json token) w.server r w
token_response (rejected e) r w = write_json 500 (error_json (error_text e)) w.server r w

-- The claims of a login.
abbrev pub claims_of : Text → Claims
claims_of username = record no_claims { subject = username }

abbrev pub known_response :
    Crypto → JsonCodec → Jwt → ℕ → Text → Result User → Handler (World Enforcer)
known_response crypto codec auth moment username (err e) r w =
    write_json 401 (error_json (codes "unknown user")) w.server r w
known_response crypto codec auth moment username (ok u) r w =
    token_response (encode crypto codec auth moment (claims_of username)) r w

abbrev pub required_response : Handler (World Enforcer)
required_response r w = write_json 400 (error_json (codes "username required")) w.server r w

abbrev pub named_response : Crypto → JsonCodec → Jwt → ℕ → Option Text → Handler (World Enforcer)
named_response crypto codec auth moment none r w = required_response r w
named_response crypto codec auth moment (some username) r w =
    if username == []
    then required_response r w
    else known_response crypto codec auth moment username (Store.get_user w.auth.store username) r w

module _ (crypto : Crypto) (codec : JsonCodec) (first_value : Text → Option Json) (auth : Jwt)
    (moment : ℕ) where
  -- `loginHandler`, for a body at a moment.
  unfoldable pub login_handler : Text → Handler (World Enforcer)
  login_handler body r w =
      named_response crypto codec auth moment (bind_read (first_value body) read_username) r w

-- `whoami`, `listArticles` and `createArticle`; `nextID` and `articles` are those of a server.
unfoldable pub whoami : {E : Type 0} → Handler (World E)
whoami r w =
    write_json 200 (object (field (codes "user") (user_or_null (user_from_context r.context)) end))
      w.server r w

abbrev pub list_articles : {E : Type 0} → Handler (World E)
list_articles = list

abbrev pub create_article : {E : Type 0} → (Text → Option Json) → Text → Handler (World E)
create_article = create

-- `perm`, for texts that parse.
abbrev pub perm : Text → Permission
perm s = or_zero (parse_permission s)

-- The routes of `main` behind guards.
pub data Page : Type 0 where
  whoami_page articles_page : Page
  article_post : Text → Page

abbrev pub page_perm : Page → Permission
page_perm whoami_page = perm (codes "whoami:read")
page_perm articles_page = perm (codes "article:read")
page_perm (article_post body) = perm (codes "article:create")

abbrev pub page_handler : {E : Type 0} → (Text → Option Json) → Page → Handler (World E)
page_handler first_value whoami_page = whoami
page_handler first_value articles_page = list_articles
page_handler first_value (article_post body) = create_article first_value body

unfoldable pub serve_page :
    {E : Type 0} → (Text → Option Json) → Middleware (World E) → Page → Handler (World E)
serve_page first_value mw page = require mw (page_perm page) (page_handler first_value page)
