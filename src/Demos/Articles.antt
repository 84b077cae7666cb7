-- ===== src/Demos/Articles.antt =====
-- _examples/example01/main.go: a server of articles behind the guards. The writer of a response is
-- part of the state; the body of a request and the id in its path are arguments of the handlers.
pub mod Numbers
pub mod Served
pub mod Access
use libauth.Prelude.{leb, Option, none, some, List, [], ◌∷◌, ℕ, if◌then◌else◌, nat_eq}
use libauth.Prelude.Int.{ℤ, pos, ◌+ℤ◌, wrap64, eq_ℤ}
use libauth.Text.{Text, codes, ◌==◌}
use libauth.Model.{Permission, User}
use libauth.Jwt.Json.{Json, null, string, number, array, object, end, field, read_string}
use libauth.Jwt.Decimal.{print_int, parse_int, read_number}
use libauth.Demos.Dump.{fold_name, bind_read, read_struct, user_json, items_json}
use libauth.Middleware.{Handler, handled, Authorizer, Middleware, user_from_context}
use libauth.Middleware.Require.{require}

pub record Article : Type 0 where
  pub id : ℤ
  pub title : Text

-- `server`: its map from ids to articles, in the order of insertion.
pub record Server : Type 0 where
  pub next_id : ℤ
  pub articles : List (ℤ × Article)

-- `&server{articles: map[int]article{}, nextID: 1}`
abbrev pub new_server : Server
new_server = record { next_id = pos 1; articles = [] }

-- `m[id]`, `m[id] = a` and `delete(m, id)`
unfoldable pub article_at : List (ℤ × Article) → ℤ → Option Article
article_at [] id = none
article_at ((k, a) ∷ m) id = if eq_ℤ k id then some a else article_at m id

unfoldable pub put_article : List (ℤ × Article) → ℤ → Article → List (ℤ × Article)
put_article [] id a = (id, a) ∷ []
put_article ((k, b) ∷ m) id a = if eq_ℤ k id then (k, a) ∷ m else (k, b) ∷ put_article m id a

unfoldable pub drop_article : List (ℤ × Article) → ℤ → List (ℤ × Article)
drop_article [] id = []
drop_article ((k, b) ∷ m) id =
    let rest = drop_article m id in if eq_ℤ k id then rest else (k, b) ∷ rest

unfoldable pub listed_articles : List (ℤ × Article) → List Article
listed_articles [] = []
listed_articles ((k, a) ∷ m) = a ∷ listed_articles m

-- What was written to the writer: a status, and the JSON of a body.
pub record Response : Type 0 where
  pub status : ℕ
  pub body : Option Json

-- The state that a handler works on, with that of the authorizer.
pub record World (E : Type 0) : Type 0 where
  pub auth : E
  pub server : Server
  pub response : Option Response

-- What `main` starts with, over an authorizer.
abbrev pub new_world : {E : Type 0} → E → World E
new_world e = record { auth = e; server = new_server; response = none }

-- `writeJSON`, and what the server is then.
abbrev pub write_json : {E : Type 0} → ℕ → Json → Server → Handler (World E)
write_json status body server r w = (
  handled [] r,
  record w { server = server; response = some (record { status = status; body = some body }) },
)

abbrev pub error_json : Text → Json
error_json message = object (field (codes "error") (string message) end)

unfoldable pub article_json : Article → Json
article_json a =
    object
      (field (codes "id") (number (print_int a.id)) (field (codes "title") (string a.title) end))

abbrev pub user_or_null : Option User → Json
user_or_null none = null
user_or_null (some u) = user_json u

-- `whoami`
unfoldable pub whoami : {E : Type 0} → Handler (World E)
whoami r w = elim (user_from_context r.context) [
  | none ↦ write_json 500 (error_json (codes "no user in context")) w.server r w
  | some u ↦ write_json 200 (object (field (codes "user") (user_json u) end)) w.server r w
]

-- `list`
unfoldable pub list : {E : Type 0} → Handler (World E)
list r w =
    write_json 200 (array (items_json article_json (listed_articles w.server.articles))) w.server r
      w

-- The struct of `create`, of which the title is kept.
unfoldable pub read_title_member : Text → Json → Text → Option Text
read_title_member name j title =
    if fold_name name == codes "title" then read_string title j else some title

unfoldable pub read_title : Json → Option Text
read_title null = some []
read_title (object fs) = read_struct read_title_member fs []
read_title j = none

-- `a := article{…}; s.nextID++; s.articles[a.ID] = a`
abbrev pub new_article : Server → Text → Article
new_article s title = record { id = s.next_id; title = title }

unfoldable pub with_article : Server → Article → Server
with_article s a = record {
  next_id = wrap64 (s.next_id +ℤ pos 1);
  articles = put_article s.articles a.id a;
}

abbrev pub create_titled : {E : Type 0} → Option Text → Handler (World E)
create_titled none r w = write_json 400 (error_json (codes "invalid JSON body")) w.server r w
create_titled (some title) r w =
    let a = new_article w.server title in
    write_json 201 (article_json a) (with_article w.server a) r w

-- `create`. `first_value` is what a decoder finds in the body: the first JSON value, if one is there.
unfoldable pub create : {E : Type 0} → (Text → Option Json) → Text → Handler (World E)
create first_value body r w = create_titled (bind_read (first_value body) read_title) r w

-- `strconv.Atoi`, which allows a sign `+`.
abbrev pub below_63 : Option ℕ → Option ℤ
below_63 none = none
below_63 (some n) = if leb n 9223372036854775807 then some (pos n) else none

unfoldable pub atoi : Text → Option ℤ
atoi [] = none
atoi (c ∷ s) = if nat_eq c 43 then below_63 (read_number s) else parse_int (c ∷ s)

abbrev pub write_status : {E : Type 0} → ℕ → Server → Handler (World E)
write_status status server r w = (
  handled [] r,
  record w { server = server; response = some (record { status = status; body = none }) },
)

abbrev pub remove_found : {E : Type 0} → ℤ → Option Article → Handler (World E)
remove_found id none r w = write_json 404 (error_json (codes "article not found")) w.server r w
remove_found id (some a) r w =
    write_status 204 (record w.server { articles = drop_article w.server.articles id }) r w

abbrev pub remove_numbered : {E : Type 0} → Option ℤ → Handler (World E)
remove_numbered none r w = write_json 400 (error_json (codes "invalid article id")) w.server r w
remove_numbered (some id) r w = remove_found id (article_at w.server.articles id) r w

-- `remove`, from the id in the path.
unfoldable pub remove : {E : Type 0} → Text → Handler (World E)
remove path_id r w = remove_numbered (atoi path_id) r w

-- The authorizer, in the state of the whole server.
abbrev pub put_auth : {E A : Type 0} → World E → A × E → A × World E
put_auth w (a, e) = (a, record w { auth = e })

abbrev pub within : {E : Type 0} → Authorizer E → Authorizer (World E)
within m = record {
  check = λ id p w. put_auth w (m.check id p w.auth);
  has_permission = λ id p w. put_auth w (m.has_permission id p w.auth);
  has_role = λ id role w. put_auth w (m.has_role id role w.auth);
  get_user = λ id w. put_auth w (m.get_user id w.auth);
}

-- The routes of `main`, and the guard and the handler of each.
pub data Route : Type 0 where
  get_whoami get_articles : Route
  post_articles delete_article : Text → Route

abbrev pub perm_of : Route → Permission
perm_of get_whoami = record { resource = codes "whoami"; action = codes "read" }
perm_of get_articles = record { resource = codes "article"; action = codes "read" }
perm_of (post_articles body) = record { resource = codes "article"; action = codes "create" }
perm_of (delete_article id) = record { resource = codes "article"; action = codes "delete" }

module _ {E : Type 0} (first_value : Text → Option Json) where
  abbrev pub handler_of : Route → Handler (World E)
  handler_of get_whoami = whoami
  handler_of get_articles = list
  handler_of (post_articles body) = create first_value body
  handler_of (delete_article id) = remove id

  -- `mux.Handle(…, mw.Require(…)(…))`
  unfoldable pub serve_route : Middleware (World E) → Route → Handler (World E)
  serve_route mw route = require mw (perm_of route) (handler_of route)
