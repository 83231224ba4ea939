-- ===== src/Router/Dispatch.antt =====
-- src/router.c, `router_route`: which handler runs.
use modern_c_web_library.Base.{
  ℕ, ◌≡◌, inl, inr, refl, Bool, true, false, List, [], ◌∷◌, ◌++◌, arith, codes, if◌then◌else◌, All,
  Bool-cases,
}
use modern_c_web_library.Http.{HttpRequest, HttpResponse, http_response_send_text}
use modern_c_web_library.Router.{
  Route, Router, Middleware, accepts, run_route, find_route, run_middlewares, router_route,
}

-- The result of `router_route` once a handler has run.
abbrev pub succeed : HttpRequest × HttpResponse → Bool × HttpRequest × HttpResponse
succeed (req, res) = (true, req, res)

module _ (alloc : ℕ → Bool) where
  -- The first route of the table that accepts the request, and its place.
  pub record IsFirst (routes : List Route) (req : HttpRequest) (route : Route) : Type 0 where
    pub before : List Route
    pub after : List Route
    pub place : routes ≡ before ++ (route ∷ after)
    pub skipped : All (λ r. accepts alloc r req ≡ false) before
    pub accepted : accepts alloc route req ≡ true

  IsFirst-cons :
      {routes : List Route} {req : HttpRequest} {route : Route} (r : Route)
      → accepts alloc r req ≡ false
      → IsFirst routes req route
      → IsFirst (r ∷ routes) req route
  IsFirst-cons r e f = record {
    before = r ∷ f.before;
    after = f.after;
    place = ground (arith, f.place);
    skipped = (e, f.skipped);
    accepted = f.accepted;
  }

  -- The middlewares let the request pass, each handing on what it made of request and response.
  pub data Passes
      : List Middleware → HttpRequest → HttpResponse → HttpRequest → HttpResponse → Type 0 where
    through : {req : HttpRequest} {res : HttpResponse} → Passes [] req res req res
    pass :
        {m : Middleware} {ms : List Middleware} {req req₁ req₂ : HttpRequest}
        {res res₁ res₂ : HttpResponse}
        → m req res ≡ (true, req₁, res₁)
        → Passes ms req₁ res₁ req₂ res₂
        → Passes (m ∷ ms) req res req₂ res₂

  -- One of them stops the chain, leaving request and response as given.
  pub data Stops
      : List Middleware → HttpRequest → HttpResponse → HttpRequest → HttpResponse → Type 0 where
    stop :
        {m : Middleware} {ms : List Middleware} {req req₁ : HttpRequest} {res res₁ : HttpResponse}
        → m req res ≡ (false, req₁, res₁)
        → Stops (m ∷ ms) req res req₁ res₁
    later :
        {m : Middleware} {ms : List Middleware} {req req₁ req₂ : HttpRequest}
        {res res₁ res₂ : HttpResponse}
        → m req res ≡ (true, req₁, res₁)
        → Stops ms req₁ res₁ req₂ res₂
        → Stops (m ∷ ms) req res req₂ res₂

  -- What `router_route` may answer.
  pub data Routed (router : Router) (req : HttpRequest) (res : HttpResponse)
      : Bool × HttpRequest × HttpResponse → Type 0 where
    stopped :
        {req' : HttpRequest} {res' : HttpResponse}
        → Stops router.middlewares req res req' res'
        → Routed router req res (true, req', res')
    handled :
        {req₁ req' : HttpRequest} {res₁ res' : HttpResponse} (route : Route)
        → Passes router.middlewares req res req₁ res₁
        → IsFirst router.routes req₁ route
        → run_route alloc route req₁ res₁ ≡ (req', res')
        → Routed router req res (true, req', res')
    missing :
        {req' : HttpRequest} {res₁ res' : HttpResponse}
        → Passes router.middlewares req res req' res₁
        → All (λ r. accepts alloc r req' ≡ false) router.routes
        → res' ≡ http_response_send_text alloc res₁ 404 (codes "Not Found")
        → Routed router req res (false, req', res')

  -- The two outcomes of the search.
  data Found (routes : List Route) (req : HttpRequest) (res : HttpResponse)
      : Bool × HttpRequest × HttpResponse → Type 0 where
    hit :
        {req' : HttpRequest} {res' : HttpResponse} (route : Route)
        → IsFirst routes req route
        → run_route alloc route req res ≡ (req', res')
        → Found routes req res (true, req', res')
    miss :
        {res' : HttpResponse}
        → All (λ r. accepts alloc r req ≡ false) routes
        → res' ≡ http_response_send_text alloc res 404 (codes "Not Found")
        → Found routes req res (false, req, res')

  Found-cons :
      {routes : List Route} {req : HttpRequest} {res : HttpResponse}
      {out : Bool × HttpRequest × HttpResponse} (r : Route)
      → accepts alloc r req ≡ false
      → Found routes req res out
      → Found (r ∷ routes) req res out
  Found-cons r e (hit route f h) = hit route (IsFirst-cons r e f) h
  Found-cons r e (miss hs h) = miss (e, hs) h

  find_route-Found :
      (routes : List Route) (req : HttpRequest) (res : HttpResponse)
      → Found routes req res (find_route alloc routes req res)
  unfolding find_route
  find_route-Found [] req res = miss tt refl
  find_route-Found (r ∷ routes) req res = elim (Bool-cases (accepts alloc r req)) [
    | inl e ↦ rw e (
        hit r (record { before = []; after = routes; place = refl; skipped = tt; accepted = e })
          refl)
    | inr e ↦ rw e (Found-cons r e (find_route-Found routes req res))
  ]

  -- The two outcomes of the chain.
  data Chained (ms : List Middleware) (req : HttpRequest) (res : HttpResponse)
      : Bool × HttpRequest × HttpResponse → Type 0 where
    passed :
        {req' : HttpRequest} {res' : HttpResponse}
        → Passes ms req res req' res'
        → Chained ms req res (true, req', res')
    halted :
        {req' : HttpRequest} {res' : HttpResponse}
        → Stops ms req res req' res'
        → Chained ms req res (false, req', res')

  Chained-cons :
      {m : Middleware} {ms : List Middleware} {req req₁ : HttpRequest} {res res₁ : HttpResponse}
      {out : Bool × HttpRequest × HttpResponse}
      → m req res ≡ (true, req₁, res₁)
      → Chained ms req₁ res₁ out
      → Chained (m ∷ ms) req res out
  Chained-cons e (passed p) = passed (pass e p)
  Chained-cons e (halted s) = halted (later e s)

  run_middlewares-Chained :
      (ms : List Middleware) (req : HttpRequest) (res : HttpResponse)
      → Chained ms req res (run_middlewares ms req res)
  unfolding run_middlewares
  run_middlewares-Chained [] req res = passed through
  run_middlewares-Chained (m ∷ ms) req res = elim (Bool-cases (m req res).0) [
    | inl e ↦
        rw e (
          Chained-cons (ground (arith, e)) (run_middlewares-Chained ms (m req res).1 (m req res).2))
    | inr e ↦ rw e (halted (stop (ground (arith, e))))
  ]

  Routed-of_Found :
      {router : Router} {req req₁ : HttpRequest} {res res₁ : HttpResponse}
      {out : Bool × HttpRequest × HttpResponse}
      → Passes router.middlewares req res req₁ res₁
      → Found router.routes req₁ res₁ out
      → Routed router req res out
  Routed-of_Found p (hit route f h) = handled route p f h
  Routed-of_Found p (miss hs h) = missing p hs h

  -- What `router_route` makes of the outcome of the chain.
  abbrev after_chain :
      Router → Bool × HttpRequest × HttpResponse → Bool × HttpRequest × HttpResponse
  after_chain router (go, req, res) =
      if go then find_route alloc router.routes req res else (true, req, res)

  Routed-of_Chained :
      {router : Router} {req : HttpRequest} {res : HttpResponse}
      {out : Bool × HttpRequest × HttpResponse}
      → Chained router.middlewares req res out
      → Routed router req res (after_chain router out)
  Routed-of_Chained {router} (passed {req' = req₁} {res' = res₁} p) =
      Routed-of_Found p (find_route-Found router.routes req₁ res₁)
  Routed-of_Chained (halted s) = stopped s

  -- `router_route` answers in one of three ways. A middleware stops the chain: the result is 0,
  -- request and response are as it left them, and no route is looked at. All middlewares pass and
  -- some route accepts the request as they left it: the result is 0, and the handler of the first
  -- such route has run, after the extraction of its parameters. All pass and no route accepts: the
  -- result is -1, and the response is a 404 text.
  pub router_route-Routed :
      (router : Router) (req : HttpRequest) (res : HttpResponse)
      → Routed router req res (router_route alloc router req res)
  unfolding router_route
  router_route-Routed router req res =
      Routed-of_Chained (run_middlewares-Chained router.middlewares req res)
