-- ===== src/Router/Adding.antt =====
-- src/router.c, `router_add_route`: what it does to the table, and that the route it adds is served.
use modern_c_web_library.Base.{
  ℕ, ◌+◌, ◌≡◌, ◌≤◌, ◌<◌, inl, inr, ◌∙◌, ◌↔◌, Bool, true, false, some, List, [], ◌∷◌, ◌++◌, arith,
  Bytes, length, length-append, leb, str_eq_refl, ==_refl, All, Bool-cases,
}
use modern_c_web_library.Http.{HttpMethod, HttpRequest, HttpResponse}
use modern_c_web_library.Router.{
  Route, Router, Handler, has_char, method_number, max_routes, accepts, run_route, find_route,
  run_middlewares, router_route, router_add_route,
}
use modern_c_web_library.Router.Dispatch.{succeed}

-- The entry that `router_add_route` writes.
abbrev pub new_route : HttpMethod → Bytes → Handler → Route
new_route method path handler = record {
  method = method;
  path = path;
  handler = handler;
  has_params = has_char b':' path;
}

module _ (alloc : ℕ → Bool) where
  -- `router_add_route` keeps the table within MAX_ROUTES and the middlewares as they were. It
  -- succeeds exactly if path and handler are given, the table is not full and the path can be
  -- copied; then the routes that were there stand first, and one more follows. Otherwise the
  -- router is unchanged.
  pub router_add_route_lem :
      (router : Router) (method : HttpMethod) (path : Bytes) (handler : Handler)
      → length router.routes ≤ max_routes
      → let (router', ok) = router_add_route alloc router method (some path) (some handler) in
        (length router'.routes ≤ max_routes)
        × (router'.middlewares ≡ router.middlewares)
        × ((ok ≡ true) ↔ ((length router.routes < max_routes) × (alloc (length path + 1) ≡ true)))
        × (ok ≡ true → router'.routes ≡ router.routes ++ (new_route method path handler ∷ []))
        × (ok ≡ false → router' ≡ router)
  unfolding router_add_route
  router_add_route_lem router method path handler h =
      elim (Bool-cases (leb max_routes (length router.routes))) [
        | inl full ↦ ground (arith, full)
        | inr room ↦ elim (Bool-cases (alloc (length path + 1))) [
          | inl yes' ↦
              ground (
                arith,
                room,
                yes',
                length-append router.routes (new_route method path handler ∷ []),
              )
          | inr no' ↦ ground (arith, room, no')
        ]
      ]

  find_route-skip :
      (before : List Route) (route : Route) (req : HttpRequest) (res : HttpResponse)
      → All (λ r. accepts alloc r req ≡ false) before
      → accepts alloc route req ≡ true
      → find_route alloc (before ++ (route ∷ [])) req res ≡ succeed (run_route alloc route req res)
  unfolding find_route
  find_route-skip [] route req res h e = ground (arith, e)
  find_route-skip (r ∷ before) route req res (h, hs) e =
      rw h (find_route-skip before route req res hs e)

  router_route-plain :
      (router : Router) (req : HttpRequest) (res : HttpResponse)
      → router.middlewares ≡ []
      → router_route alloc router req res ≡ find_route alloc router.routes req res
  unfolding router_route run_middlewares
  router_route-plain router req res h = ground (arith, h)

  accepts-new :
      (req : HttpRequest) (path : Bytes) (handler : Handler)
      → has_char b':' path ≡ false
      → req.path ≡ some path
      → accepts alloc (new_route req.method path handler) req ≡ true
  unfolding accepts
  accepts-new req path handler literal here =
      ground (arith, literal, here, str_eq_refl path, ==_refl (method_number req.method))

  run_route-new :
      (req : HttpRequest) (res : HttpResponse) (path : Bytes) (handler : Handler)
      → has_char b':' path ≡ false
      → run_route alloc (new_route req.method path handler) req res ≡ handler req res
  unfolding run_route
  run_route-new req res path handler literal = rw literal

  -- A literal route (no colon) that is added to a router without middlewares, and with room for it,
  -- serves its own path: a request for that method and path that no earlier route accepts is
  -- answered by the new handler, on the request as it came, with result 0.
  pub router_route-add :
      (router : Router) (path : Bytes) (handler : Handler) (req : HttpRequest) (res : HttpResponse)
      → length router.routes < max_routes
      → alloc (length path + 1) ≡ true
      → router.middlewares ≡ []
      → has_char b':' path ≡ false
      → req.path ≡ some path
      → All (λ r. accepts alloc r req ≡ false) router.routes
      → router_route alloc
          (router_add_route alloc router req.method (some path) (some handler)).0
          req
          res
        ≡ succeed (handler req res)
  router_route-add router path handler req res room granted plain literal here earlier =
      let (small, same, iff, added, failed) =
        router_add_route_lem router req.method path handler (omega arith) in
      let ok = iff.1 (room, granted) in
      rw (
        router_route-plain (router_add_route alloc router req.method (some path) (some handler)).0
            req res (same ∙ plain),
        added ok,
        find_route-skip router.routes (new_route req.method path handler) req res earlier
            (accepts-new req path handler literal here),
        run_route-new req res path handler literal,
      )
