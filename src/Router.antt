-- ===== src/Router.antt =====
-- src/router.c: the route table, the middleware chain, matching and parameter extraction.
-- A handler or middleware is a function of the request and the response, since it may write to
-- both. A result of type Bool is true for the C result 0 and false for -1.
pub mod Matching
pub mod Params
pub mod Dispatch
pub mod Adding
mod Tests
use modern_c_web_library.Base.{
  ℕ, suc, ◌+◌, ◌*◌, Bool, true, false, Option, none, some, List, [], ◌∷◌, ◌++◌, ◌&&◌, ◌||◌, Bytes,
  codes, length, if◌then◌else◌, ◌==◌, ltb, leb, not, str_eq,
}
use modern_c_web_library.Http.{
  HttpMethod, http_get, http_post, http_put, http_delete, http_patch, http_head, http_options,
  HttpRequest, HttpResponse, http_request_set_param, http_response_send_text,
}

abbrev pub max_routes : ℕ
max_routes = 256

abbrev pub max_middlewares : ℕ
max_middlewares = 32

abbrev pub Handler : Type 0
Handler = HttpRequest → HttpResponse → HttpRequest × HttpResponse

abbrev pub Middleware : Type 0
Middleware = HttpRequest → HttpResponse → Bool × HttpRequest × HttpResponse

-- `struct route`
pub record Route : Type 0 where
  pub method : HttpMethod
  pub path : Bytes
  pub handler : Handler
  pub has_params : Bool

-- `struct router`: the used parts of the two arrays, so the counts are their lengths.
pub record Router : Type 0 where
  pub routes : List Route
  pub middlewares : List Middleware

-- `router_create`; the argument says whether calloc succeeds.
unfoldable pub router_create : Bool → Option Router
router_create granted = if granted then some (record { routes = []; middlewares = [] }) else none

-- strchr(s, c) != NULL
unfoldable pub has_char : ℕ → Bytes → Bool
has_char c [] = false
has_char c (x ∷ xs) = x == c || has_char c xs

-- The numbers of the enum `http_method_t`.
abbrev pub method_number : HttpMethod → ℕ
method_number http_get = 0
method_number http_post = 1
method_number http_put = 2
method_number http_delete = 3
method_number http_patch = 4
method_number http_head = 5
method_number http_options = 6

-- The pieces of a text between slashes, empty ones included.
abbrev cons_head : ℕ → List Bytes → List Bytes
cons_head c [] = (c ∷ []) ∷ []
cons_head c (piece ∷ pieces) = (c ∷ piece) ∷ pieces

unfoldable pub split_slash : Bytes → List Bytes
split_slash [] = [] ∷ []
split_slash (c ∷ s) =
    let pieces = split_slash s in if c == b'/' then [] ∷ pieces else cons_head c pieces

unfoldable pub drop_empty : List Bytes → List Bytes
drop_empty [] = []
drop_empty ([] ∷ pieces) = drop_empty pieces
drop_empty ((c ∷ s) ∷ pieces) = (c ∷ s) ∷ drop_empty pieces

-- The tokens that successive calls of strtok_r(…, "/", …) give: the pieces that are not empty.
unfoldable pub segments : Bytes → List Bytes
unfolding split_slash drop_empty
segments s = drop_empty (split_slash s)

-- token[0] == ':'
abbrev pub is_param : Bytes → Bool
is_param [] = false
is_param (c ∷ s) = c == b':'

-- The loop of `match_route` and the test after it.
unfoldable pub match_segments : List Bytes → List Bytes → Bool
match_segments [] [] = true
match_segments [] (s ∷ ss) = false
match_segments (p ∷ ps) [] = false
match_segments (p ∷ ps) (s ∷ ss) =
    let rest = match_segments ps ss in if is_param p || str_eq p s then rest else false

module _ (alloc : ℕ → Bool) where
  -- `match_route`: false when a copy cannot be allocated.
  unfoldable pub match_route : Bytes → Bytes → Bool
  unfolding segments match_segments
  match_route pattern path =
      if alloc (length pattern + 1) && alloc (length path + 1)
      then match_segments (segments pattern) (segments path)
      else false

  -- One round of the loop of `extract_params`: `p_tok[0] == ':' && p_tok[1] != '\0'`.
  unfoldable pub extract_step : HttpRequest → Bytes → Bytes → HttpRequest
  extract_step req [] s = req
  extract_step req (c ∷ []) s = req
  extract_step req (c ∷ k ∷ key) s =
      if c == b':' then (http_request_set_param alloc req (k ∷ key) s).0 else req

  -- The loop of `extract_params`.
  unfoldable pub extract_segments : HttpRequest → List Bytes → List Bytes → HttpRequest
  unfolding extract_step
  extract_segments req [] ss = req
  extract_segments req (p ∷ ps) [] = req
  extract_segments req (p ∷ ps) (s ∷ ss) = extract_segments (extract_step req p s) ps ss

  -- `extract_params`
  unfoldable pub extract_params : HttpRequest → Bytes → Bytes → HttpRequest
  unfolding extract_segments segments
  extract_params req pattern path =
      if alloc (length pattern + 1) && alloc (length path + 1)
      then extract_segments req (segments pattern) (segments path)
      else req

  -- `router_add_route`; null arguments are `none`.
  unfoldable pub router_add_route :
      Router → HttpMethod → Option Bytes → Option Handler → Router × Bool
  unfolding has_char
  router_add_route router method none handler = (router, false)
  router_add_route router method (some path) none = (router, false)
  router_add_route router method (some path) (some handler) =
      if leb max_routes (length router.routes)
      then (router, false)
      else if alloc (length path + 1)
      then (record router { routes = router.routes ++ (route ∷ []) }, true)
      else (router, false)
    where
      route : Route
      route = record {
        method = method;
        path = path;
        handler = handler;
        has_params = has_char b':' path;
      }

  -- The path test of the loop of `router_route`. A null path (the parser never leaves one) is
  -- taken to match nothing.
  unfoldable pub path_matches : Route → Option Bytes → Bool
  path_matches route none = false
  path_matches route (some path) =
      if route.has_params then match_route route.path path else str_eq route.path path

  -- Both tests of the loop: the method, then the path.
  unfoldable pub accepts : Route → HttpRequest → Bool
  unfolding path_matches
  accepts route req =
      method_number route.method == method_number req.method && path_matches route req.path

  -- What `router_route` does at the route that it has found.
  unfoldable pub run_route : Route → HttpRequest → HttpResponse → HttpRequest × HttpResponse
  run_route route req res =
      if route.has_params
      then elim req.path [
        | none ↦ route.handler req res
        | some path ↦ route.handler (extract_params req route.path path) res
      ]
      else route.handler req res

  -- The second loop of `router_route`, and its end.
  unfoldable pub find_route :
      List Route → HttpRequest → HttpResponse → Bool × HttpRequest × HttpResponse
  unfolding accepts run_route
  find_route [] req res = (false, req, http_response_send_text alloc res 404 (codes "Not Found"))
  find_route (route ∷ rest) req res =
      let later = find_route rest req res in
      let found : Bool × HttpRequest × HttpResponse =
        let (req', res') = run_route route req res in (true, req', res') in
      if accepts route req then found else later

-- `router_use_middleware`
unfoldable pub router_use_middleware : Router → Option Middleware → Router × Bool
router_use_middleware router none = (router, false)
router_use_middleware router (some middleware) =
    if leb max_middlewares (length router.middlewares)
    then (router, false)
    else (record router { middlewares = router.middlewares ++ (middleware ∷ []) }, true)

-- The first loop of `router_route`: true when every middleware let the request pass.
unfoldable pub run_middlewares :
    List Middleware → HttpRequest → HttpResponse → Bool × HttpRequest × HttpResponse
run_middlewares [] req res = (true, req, res)
run_middlewares (m ∷ ms) req res =
    let (go, req', res') = m req res in
    let rest = run_middlewares ms req' res' in if go then rest else (false, req', res')

-- `router_route`
unfoldable pub router_route :
    (ℕ → Bool) → Router → HttpRequest → HttpResponse → Bool × HttpRequest × HttpResponse
unfolding run_middlewares find_route
router_route alloc router req res =
    let (go, req', res') = run_middlewares router.middlewares req res in
    if go then find_route alloc router.routes req' res' else (true, req', res')
