-- ===== src/Demos/Articles/Served.antt =====
-- Sequences of requests to the server of articles (_examples/example01/main.go).
use libauth.Prelude.{
  inr, inl, Option-cases, ◌∙◌, Option, none, some, List, [], ◌∷◌, ℕ, suc, ◌<◌, ◌+◌, ◌≡◌, refl,
  arith, length, Bool, true, false,
}
use libauth.Text.{Text}
use libauth.Model.{Permission, User}
use libauth.Jwt.Json.{Json}
use libauth.Middleware.{
  user_from_context, Request, Authorizer, Middleware, Step, go_on, replied, IdentityFunc,
  Identified, identify, caller, anonymous, pass, after, authorize, look_up, recall,
}
use libauth.Middleware.Require.{require, serve}
use libauth.Demos.Articles.{
  new_world, remove_found, remove_numbered, Article, create_titled, get_articles, get_whoami,
  delete_article, read_title, post_articles, World, within, Route, serve_route, handler_of, perm_of,
  create, remove, list, whoami, atoi, article_at,
}
use libauth.Demos.Articles.Numbers.{
  drop-IsNumbered, with_article-IsNumbered, next-fresh, IsNumbered-mono, IsNumbered,
}
use mathlib.Core.Path.{subst, subst⁻¹}
use libauth.Demos.Dump.{bind_read}
use libauth.Prelude.Int.{ℤ}

-- The middleware of `main`, over any authorizer.
abbrev pub guard : {E : Type 0} → Authorizer E → IdentityFunc → Middleware (World E)
guard m identity = record { manager = within m; identity = identity; on_error = none }

module _ {E : Type 0} (m : Authorizer E) (identity : IdentityFunc) where
  abbrev mw : Middleware (World E)
  mw = guard m identity

  look_up_server :
      (r : Request) (who : Identified) (w : World E) → (look_up mw r who w).1.server ≡ w.server
  look_up_server r (caller id) w = refl
  look_up_server r (anonymous e) w = refl

  recall_server :
      (r : Request) (u : Option User) (resolved : Bool) (w : World E)
      → (recall mw r u resolved w).1.server ≡ w.server
  recall_server r (some u) true w = refl
  recall_server r (some u) false w = look_up_server r (identity r) w
  recall_server r none resolved w = look_up_server r (identity r) w

  after_server :
      (t : Step User × World E) (f : User → World E → Step User × World E)
      → ((u : User) (w : World E) → (f u w).1.server ≡ w.server)
      → (after mw t f).1.server ≡ t.1.server
  after_server (go_on u, w) f h = h u w
  after_server (replied a, w) f h = refl

  -- A guard leaves the articles alone.
  authorize_server :
      (r : Request) (p : Permission) (w : World E) → (authorize mw r p w).1.server ≡ w.server
  unfolding identify pass
  authorize_server r p w =
      after_server (identify mw r w) (λ u w'. pass mw r u p w') (λ u w'. refl)
      ∙ recall_server r _ _ w

  module _ (first_value : Text → Option Json) where
    titled_step :
        (bound : ℕ) (title : Option Text) (r : Request) (w : World E)
        → bound < 9223372036854775807
        → IsNumbered bound w.server
        → IsNumbered (suc bound) (create_titled title r w).1.server
    titled_step bound none r w small h = IsNumbered-mono bound w.server h
    titled_step bound (some title) r w small h =
        with_article-IsNumbered bound w.server title small h

    found_step :
        (bound : ℕ) (id : ℤ) (stored : Option Article) (r : Request) (w : World E)
        → IsNumbered bound w.server
        → IsNumbered (suc bound) (remove_found id stored r w).1.server
    found_step bound id none r w h = IsNumbered-mono bound w.server h
    found_step bound id (some a) r w h =
        IsNumbered-mono bound _ (drop-IsNumbered bound w.server id h)

    removed_step :
        (bound : ℕ) (id : Option ℤ) (r : Request) (w : World E)
        → IsNumbered bound w.server
        → IsNumbered (suc bound) (remove_numbered id r w).1.server
    removed_step bound none r w h = IsNumbered-mono bound w.server h
    removed_step bound (some id) r w h = found_step bound id (article_at w.server.articles id) r w h

    handler_step :
        (bound : ℕ) (route : Route) (r : Request) (w : World E)
        → bound < 9223372036854775807
        → IsNumbered bound w.server
        → IsNumbered (suc bound) (handler_of first_value route r w).1.server
    unfolding whoami list create remove
    handler_step bound get_whoami r w small h = elim (Option-cases (user_from_context r.context)) [
      | inl e ↦ rw e (IsNumbered-mono bound w.server h)
      | inr (u, e) ↦ rw e (IsNumbered-mono bound w.server h)
    ]
    handler_step bound get_articles r w small h = IsNumbered-mono bound w.server h
    handler_step bound (post_articles body) r w small h =
        titled_step bound (bind_read (first_value body) read_title) r w small h
    handler_step bound (delete_article path_id) r w small h =
        removed_step bound (atoi path_id) r w h

    serve_step :
        (bound : ℕ) (route : Route) (r : Request) (t : Step User × World E)
        → bound < 9223372036854775807
        → IsNumbered bound t.1.server
        → IsNumbered (suc bound) (serve (handler_of first_value route) r t).1.server
    serve_step bound route r (go_on u, w) small h = handler_step bound route _ w small h
    serve_step bound route r (replied a, w) small h = IsNumbered-mono bound w.server h

    route_step :
        (bound : ℕ) (route : Route) (r : Request) (w : World E)
        → bound < 9223372036854775807
        → IsNumbered bound w.server
        → IsNumbered (suc bound) (serve_route first_value mw route r w).1.server
    unfolding serve_route require
    route_step bound route r w small h =
        serve_step bound route r (authorize mw r (perm_of route) w) small
          (subst⁻¹ (IsNumbered bound) (authorize_server r (perm_of route) w) h)

    -- A sequence of requests, each with its route.
    unfoldable pub serve_all : List (Route × Request) → World E → World E
    serve_all [] w = w
    serve_all ((route, r) ∷ rs) w = serve_all rs (serve_route first_value mw route r w).1

    serve_all-IsNumbered :
        (bound : ℕ) (rs : List (Route × Request)) (w : World E)
        → bound + length rs < 9223372036854775808
        → IsNumbered bound w.server
        → IsNumbered (bound + length rs) (serve_all rs w).server
    unfolding serve_all
    serve_all-IsNumbered bound [] w small h = subst (λ n. IsNumbered n w.server) (omega arith) h
    serve_all-IsNumbered bound ((route, r) ∷ rs) w small h =
        let w' = (serve_route first_value mw route r w).1 in
        subst (λ n. IsNumbered n (serve_all rs w').server) (omega arith)
          (serve_all-IsNumbered (suc bound) rs w' (omega (arith, small))
            (route_step bound route r w (omega (arith, small)) h))

    -- After fewer than 2^63 - 1 requests, to any routes and over any authorizer and identity: each article is
    -- stored once, under its own id, the ids are at least 1 and below the next one, which is at most one
    -- more than the number of requests, and no article is stored under the next one.
    pub numbers_lem :
        (rs : List (Route × Request)) (e : E)
        → length rs < 9223372036854775807
        → let s = (serve_all rs (new_world e)).server in
          IsNumbered (suc (length rs)) s × (article_at s.articles s.next_id ≡ none)
    numbers_lem rs e small =
        let h =
          serve_all-IsNumbered 1 rs (new_world e) (omega (arith, small))
            (1, refl, omega arith, omega arith, tt) in
        (
          subst (λ n. IsNumbered n (serve_all rs (new_world e)).server) (omega arith) h,
          next-fresh (1 + length rs) (serve_all rs (new_world e)).server h,
        )
