-- ===== src/Examples/Sessions.antt =====
-- Instances of the theorems on the servers (_examples/example01/main.go, _examples/jwtauth/main.go).
use libauth.Prelude.{
  Option, none, some, List, [], ◌∷◌, ◌++◌, ◌≡◌, refl, arith, false, if◌then◌else◌,
}
use libauth.Text.{Text, codes, ◌==◌, are_bytes}
use libauth.Jwt.Time
use libauth.Jwt.Algorithm.{header}
use libauth.Jwt.Claims.{registered}
use libauth.Jwt.Json.{read_string, Json, JsonCodec, object, field, string, end}
use libauth.Jwt.RoundTrip.{header_json, Reads}
use libauth.Jwt.Fresh.{HasPlainDates, IsWithin}
use libauth.Jwt.Instants.{nanos}
use libauth.Middleware.{Request, header_identity}
use libauth.Middleware.Enforced.{enforcer}
use libauth.Examples.Answers.{bob, bob_user, ready}
use libauth.Examples.Bearer.{toy, toy-IsCrypto, ticking, payload_text}
use libauth.Demos.Dump.{fold_name, read_struct, bind_read}
use libauth.Demos.Articles.{
  new_world, Route, get_articles, post_articles, delete_article, article_at, write_json,
}
use libauth.Demos.Articles.Numbers.{IsNumbered}
use libauth.Demos.Articles.Served.{guard, serve_all, numbers_lem}
use libauth.Demos.Articles.Access.{Decided}
use libauth.Demos.Login.{
  serve_page, read_username_member, article_post, jwt_identity, login_handler, bearer,
  read_username, page_perm, page_handler, token_json,
}
use libauth.Demos.Login.Issued.{login_alg, login_auth, login_claims, token_text, encode_login}
use libauth.Demos.Login.Session.{session_lem}
use libauth.Prelude.Int.{◌+ℤ◌}
use libauth.Examples.Guards.{ready-IsReady, bob_stored}

-- Bodies that name bob, or a title.
abbrev parsed_body : Text → Option Json
parsed_body body =
    if body == codes "bob"
    then some (object (field (codes "username") (string bob) end))
    else some (object (field (codes "title") (string body) end))

abbrev of_bob : Request
of_bob = record { header = λ name. bob; context = record { user = none; resolved = false } }

abbrev calls : List (Route × Request)
calls =
    (post_articles (codes "hello"), of_bob)
    ∷ (delete_article (codes "1"), of_bob)
    ∷ (get_articles, of_bob)
    ∷ []

numbers_lem_example :
    let s = (serve_all enforcer (header_identity []) parsed_body calls (new_world ready)).server in
    IsNumbered 4 s × (article_at s.articles s.next_id ≡ none)
numbers_lem_example =
    numbers_lem enforcer (header_identity []) parsed_body calls ready (omega arith)

abbrev login_payload : Json
login_payload = object (registered (login_claims ticking 0 bob))

abbrev login_table : JsonCodec
login_table = record {
  marshal = λ j. payload_text;
  unmarshal = λ s.
      if s == header login_alg
      then some (header_json login_alg)
      else if s == payload_text
      then some login_payload
      else none;
}

some_bob : (bob == []) ≡ false
unfolding ◌==◌
some_bob = refl

abbrev bob_token : Text
bob_token = token_text toy login_table ticking 0 bob some_bob

abbrev bearing : Request
bearing = record of_bob { header = λ name. bearer ++ bob_token }

login_header : login_table.unmarshal (header login_alg) ≡ some (header_json login_alg)
unfolding ◌==◌
login_header = refl

login_Reads : Reads login_table login_payload
unfolding ◌==◌
login_Reads = (refl, are_bytes payload_text refl, refl)

login_IsWithin : IsWithin (ticking 5) (login_claims ticking 0 bob)
unfolding nanos ◌+ℤ◌ Time.add
login_IsWithin = (refl, refl)

login_HasPlainDates : HasPlainDates (ticking 5) (login_claims ticking 0 bob)
unfolding Time.add ◌+ℤ◌
login_HasPlainDates = (
  omega arith,
  (omega arith, omega arith, omega arith, omega arith, omega arith),
  (omega arith, omega arith, omega arith, omega arith, omega arith),
  refl,
)

bob_named : bind_read (parsed_body (codes "bob")) read_username ≡ some bob
unfolding ◌==◌ read_username read_struct read_username_member fold_name read_string
bob_named = refl

session_lem_example :
    (login_handler toy login_table parsed_body
        (login_auth ticking)
        0
        (codes "bob")
        of_bob
        (new_world ready)
      ≡ write_json 200 (token_json bob_token) (new_world ready).server of_bob (new_world ready))
    × Decided bearing bob_user
        (new_world ready)
        (page_perm (article_post (codes "hello")))
        (page_handler parsed_body (article_post (codes "hello")))
        (serve_page parsed_body
          (guard enforcer (jwt_identity toy login_table (login_auth ticking) 5))
          (article_post (codes "hello"))
          bearing
          (new_world ready))
session_lem_example =
    session_lem toy login_table parsed_body ticking (login_auth ticking) 0 5 bob_user bob_user
      (codes "bob") bob_token (new_world ready) (new_world ready) of_bob bearing
      (article_post (codes "hello")) toy-IsCrypto login_header login_Reads login_HasPlainDates
      login_IsWithin refl bob_named some_bob bob_stored
      (encode_login toy login_table ticking 0 bob some_bob) refl refl ready-IsReady bob_stored
