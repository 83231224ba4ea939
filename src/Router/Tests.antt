-- ===== src/Router/Tests.antt =====
-- Runs of src/router.c, and the theorems at a concrete table.
use modern_c_web_library.Base.{
  ℕ, ◌≡◌, ◌↔◌, refl, Bool, true, false, some, [], ◌∷◌, ◌++◌, codes, Bytes, arith, str_eq, length,
  ◌≤◌, ◌<◌, ◌+◌,
}
use modern_c_web_library.Http.{
  http_get, HttpRequest, http_request_create, http_response_create, http_request_get_param,
  param_list_get, param_list_set, http_request_set_param,
}
use modern_c_web_library.Http.Lists.{Granted}
use modern_c_web_library.Router.{
  has_char, max_routes, Router, Handler, Middleware, router_add_route, router_route,
  router_use_middleware, match_route, segments, extract_params,
}
use modern_c_web_library.Router.Matching.{Matches, match_route_iff}
use modern_c_web_library.Router.Params.{get_param-extract_params}
use modern_c_web_library.Router.Dispatch.{Routed, router_route-Routed, succeed}
use modern_c_web_library.Router.Adding.{router_route-add, new_route, router_add_route_lem}

abbrev always : ℕ → Bool
always n = true

always-Granted : Granted always
always-Granted n = refl

-- What a run computes with.
runs : Unit {0}
unfolding has_char router_route router_add_route router_use_middleware http_request_create
    http_response_create http_request_get_param str_eq match_route param_list_get extract_params
    http_request_set_param param_list_set
runs = tt

-- A handler that answers with the parameter `id`.
abbrev show_id : Handler
show_id req res = (req, record res { body = http_request_get_param req (codes "id"); status = 200 })

abbrev bare : Router
bare = record { routes = []; middlewares = [] }

abbrev ask : Bytes → HttpRequest
ask path = record http_request_create { path = some path }

abbrev users : Router
users = (router_add_route always bare http_get (some (codes "/users/:id")) (some show_id)).0

serves_id :
    (router_route always users (ask (codes "/users//42/")) http_response_create).2.body
    ≡ some (codes "42")
unfolding runs
serves_id = refl

not_found : (router_route always users (ask (codes "/users")) http_response_create).0 ≡ false
unfolding runs
not_found = refl

abbrev deny : Middleware
deny req res = (false, req, record res { status = 403 })

stops_at_deny :
    (router_route always
      (router_use_middleware users (some deny)).0
      (ask (codes "/users/1"))
      http_response_create).2.status
    ≡ 403
unfolding runs
stops_at_deny = refl

match_route_iff_example :
    (match_route always (codes "/a/:b") (codes "/a/c") ≡ true)
    ↔ Matches (segments (codes "/a/:b")) (segments (codes "/a/c"))
match_route_iff_example = match_route_iff always (codes "/a/:b") (codes "/a/c") always-Granted

get_param-extract_params_example :
    http_request_get_param
      (extract_params always (ask (codes "/u/7")) (codes "/u/:id") (codes "/u/7"))
      (codes "id")
    ≡ some (codes "7")
unfolding segments
get_param-extract_params_example =
    get_param-extract_params always always-Granted (ask (codes "/u/7")) (codes "/u/:id")
      (codes "/u/7") (codes "u" ∷ []) (codes "u" ∷ []) [] [] b'i' (codes "d") (codes "7") refl refl
      refl tt

router_route-Routed_example :
    Routed always users
      (ask (codes "/users/1"))
      http_response_create
      (router_route always users (ask (codes "/users/1")) http_response_create)
router_route-Routed_example =
    router_route-Routed always users (ask (codes "/users/1")) http_response_create

router_route-add_example :
    router_route always
      (router_add_route always bare (ask (codes "/x")).method (some (codes "/x")) (some show_id)).0
      (ask (codes "/x"))
      http_response_create
    ≡ succeed (show_id (ask (codes "/x")) http_response_create)
unfolding http_request_create has_char
router_route-add_example =
    router_route-add always bare (codes "/x") show_id (ask (codes "/x")) http_response_create
      (omega arith) refl refl refl refl tt

router_add_route_lem_example :
    let (router', added) =
      router_add_route always bare http_get (some (codes "/x")) (some show_id) in
    (length router'.routes ≤ max_routes)
    × (router'.middlewares ≡ bare.middlewares)
    × ((added ≡ true)
        ↔ ((length bare.routes < max_routes) × (always (length (codes "/x") + 1) ≡ true)))
    × (added ≡ true
        → router'.routes ≡ bare.routes ++ (new_route http_get (codes "/x") show_id ∷ []))
    × (added ≡ false → router' ≡ bare)
router_add_route_lem_example =
    router_add_route_lem always bare http_get (codes "/x") show_id (omega arith)
