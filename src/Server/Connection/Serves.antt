-- ===== src/Server/Connection/Serves.antt =====
-- src/http_server.c: the rounds of `handle_connection`, one after the other on one connection.
use modern_c_web_library.Base.{
  ℕ, ◌≤◌, ◌≡◌, refl, sym, subst, take-length, length-take, Bool, true, false, Option, none, some,
  List, [], ◌∷◌, ◌&&◌, not, Bytes, length, arith, All, if◌then◌else◌, ◌==◌, ltb, Bool-cases, inl,
  inr,
}
use modern_c_web_library.Http.{
  HttpRequest, HttpResponse, http_request_create, http_response_create, response_forces_close,
}
use modern_c_web_library.Parser.{
  HttpParser, ParserResult, parser_incomplete, parser_complete, parser_error, ParseState, complete,
  error, max_request_buffer,
}
use modern_c_web_library.Parser.Valid.{IsValid}
use modern_c_web_library.Parser.Execute.{http_parser_init, http_parser_reset}
use modern_c_web_library.Parser.Execute.Bounds.{
  IsFresh, http_parser_execute-IsValid, http_parser_init-IsValid,
}
use modern_c_web_library.Parser.Execute.Outcome.{Agrees, http_parser_execute_returns}
use modern_c_web_library.Router.{Router, router_route}
use modern_c_web_library.Server.{
  RecvResult, recv_bytes, recv_end, recv_interrupted, recv_again, recv_failed, Sent, sent_to, waits,
  spins, send_error_response, sizeof_http_response,
}
use modern_c_web_library.Server.Async.{sizeof_http_request}
use modern_c_web_library.Server.Connection.{
  Socket, Read, read_result, read_error, read_end, read_waits, unread, Round, goes_on, closes,
  upgrades, stays, after_sent, read_request, fails, respond, answer_request, after_read,
  serve_request, first_round, next_round, request_of,
}

-- recv gives at most the 8192 bytes that it is asked for.
abbrev pub IsRead : RecvResult → Type 0
IsRead (recv_bytes bytes) = length bytes ≤ 8192
IsRead _ = Unit

-- What the parser keeps for the next request.
abbrev Reusable : HttpParser → Type 0
Reusable p = (length p.buffer ≤ p.buffer_cap) × (p.buffer_cap ≤ max_request_buffer)

http_parser_reset-Reusable :
    (p : HttpParser) (req : HttpRequest)
    → Reusable p
    → IsFresh req
    → IsValid (http_parser_reset p req true)
unfolding http_parser_reset
http_parser_reset-Reusable p req fits fresh =
    ground (arith, take-length max_request_buffer p.buffer, length-take max_request_buffer p.buffer)

-- What a round that goes on leaves.
abbrev After : HttpParser → Socket → Round → Type 0
After q s (goes_on p s') =
    (p.buffer ≡ q.buffer) × (p.buffer_cap ≡ q.buffer_cap) × (s'.recvs ≡ s.recvs)
After q s _ = Unit

after_sent-After :
    (q : HttpParser) (s : Socket) (next : Socket → Round) (sent : Sent)
    → ((s' : Socket) → s'.recvs ≡ s.recvs → After q s (next s'))
    → After q s (after_sent s next sent)
after_sent-After q s next (sent_to _ results taken) h = h _ refl
after_sent-After q s next (waits taken) h = tt
after_sent-After q s next Sent.fault h = tt
after_sent-After q s next spins h = tt

After-if :
    (q : HttpParser) (s : Socket) (b : Bool) (x y : Round)
    → After q s x
    → After q s y
    → After q s (if b then x else y)
After-if q s true x y h k = h
After-if q s false x y h k = k

module _ (alloc : ℕ → Bool) (date : Option Bytes) (router : Option Router) where
  respond-After :
      (q : HttpParser) (s : Socket) (req : HttpRequest) (res : HttpResponse)
      → After q s (respond alloc date router q s req res)
  respond-After q s req res =
      let keep_alive = q.keep_alive && not (response_forces_close res) in
      After-if q s (res.status == 101) _ _ (after_sent-After q s (upgrades req) _ λ s' e. tt) (
        after_sent-After q s
          (λ s'. if keep_alive then goes_on (record q { req = req }) s' else closes s') _
          λ s' e. After-if q s keep_alive _ (closes s') (refl, refl, e) tt)

module _ (alloc : ℕ → Bool) (date : Option Bytes) (router : Option Router) where
  answer_request-After :
      (q : HttpParser) (s : Socket) → After q s (answer_request alloc date router q s)
  unfolding answer_request
  answer_request-After q s = go router
    where
      go : (r : Option Router) → After q s (answer_request alloc date r q s)
      go none = respond-After alloc date none q s q.req _
      go (some r) =
          let out = router_route alloc r q.req http_response_create in
          respond-After alloc date (some r) q s out.1 _

  complete_state :
      (p : HttpParser) (result : ParserResult)
      → Agrees result p.state
      → result ≡ parser_complete
      → p.state ≡ complete
  complete_state p parser_complete agrees done = agrees
  complete_state p parser_error agrees done = ground (arith, done)
  complete_state p parser_incomplete agrees done = ground (arith, done)

  -- The inner loop gives a complete request only from a well-formed parser.
  abbrev ReadsValid : Read → Type 0
  ReadsValid (read_result p parser_complete recvs) =
      IsValid p × (p.state ≡ complete) × All IsRead recvs
  ReadsValid _ = Unit

  read_request-ReadsValid :
      (recvs : List RecvResult) (p : HttpParser) (result : ParserResult)
      → All IsRead recvs
      → IsValid p
      → (result ≡ parser_complete → p.state ≡ complete)
      → ReadsValid (read_request alloc date router recvs p result)
  unfolding read_request
  read_request-ReadsValid recvs p parser_complete small v e = (v, e refl, small)
  read_request-ReadsValid recvs p parser_error small v e = tt
  read_request-ReadsValid [] p parser_incomplete small v e = tt
  read_request-ReadsValid (recv_interrupted ∷ recvs) p parser_incomplete small v e =
      read_request-ReadsValid recvs p parser_incomplete small.1 v e
  read_request-ReadsValid (recv_again ∷ recvs) p parser_incomplete small v e = tt
  read_request-ReadsValid (recv_failed ∷ recvs) p parser_incomplete small v e = tt
  read_request-ReadsValid (recv_end ∷ recvs) p parser_incomplete small v e = tt
  read_request-ReadsValid (recv_bytes bytes ∷ recvs) p parser_incomplete small v e =
      let (p', result, runs, agrees) = http_parser_execute_returns alloc p bytes in
      let v' = http_parser_execute-IsValid alloc p bytes v (omega (arith, small.0)) runs in
      subst
        (λ o.
          ReadsValid
            (elim o [ none ↦ unread | some (q, r) ↦ read_request alloc date router recvs q r ]))
        (sym runs)
        (read_request-ReadsValid recvs p' result small.1 v'
          λ done. complete_state p' result agrees done)

  -- A round that goes on, or makes the connection a WebSocket, has answered a complete request that a
  -- well-formed parser holds.
  abbrev Answered : Round → Type 0
  Answered r =
      (q : HttpParser) × (s : Socket) × IsValid q
      × (q.state ≡ complete)
      × (r ≡ answer_request alloc date router q s)

  abbrev pub Answers : Round → Type 0
  Answers (goes_on p s) = Answered (goes_on p s) × Reusable p × All IsRead s.recvs
  Answers (upgrades req s) = Answered (upgrades req s)
  Answers _ = Unit

  Answers-lem :
      (q : HttpParser) (s : Socket) (r : Round)
      → IsValid q
      → q.state ≡ complete
      → All IsRead s.recvs
      → r ≡ answer_request alloc date router q s
      → After q s r
      → Answers r
  Answers-lem q s (goes_on p s') v e small eq (e₁, e₂, e₃) =
      ((q, s, v, e, eq), (rw (e₁, e₂) v.buffer_fits, rw e₂ v.buffer_small), rw e₃ small)
  Answers-lem q s (upgrades req s') v e small eq after = (q, s, v, e, eq)
  Answers-lem q s (closes s') v e small eq after = tt
  Answers-lem q s (stays out) v e small eq after = tt
  Answers-lem q s Round.fault v e small eq after = tt
  Answers-lem q s Round.hung v e small eq after = tt

  fails-Answers :
      (s : Socket) (status : ℕ) (message : Option Bytes)
      → Answers (fails alloc date router s status message)
  fails-Answers s status message = go (send_error_response alloc date s.results status message)
    where
      go : (sent : Sent) → Answers (after_sent s closes sent)
      go (sent_to _ results taken) = tt
      go (waits taken) = tt
      go Sent.fault = tt
      go spins = tt

  after_read-Answers :
      (s : Socket) (read : Read) → ReadsValid read → Answers (after_read alloc date router s read)
  after_read-Answers s (read_result p parser_complete recvs) (v, e, small) =
      let s' : Socket = record s { recvs = recvs } in
      Answers-lem p s' (answer_request alloc date router p s') v e small refl
        (answer_request-After p s')
  after_read-Answers s (read_result p parser_error recvs) h = fails-Answers _ _ _
  after_read-Answers s (read_result p parser_incomplete recvs) h = fails-Answers _ _ _
  after_read-Answers s (read_error recvs) h = fails-Answers _ _ _
  after_read-Answers s (read_end recvs) h = tt
  after_read-Answers s read_waits h = tt
  after_read-Answers s unread h = tt

  serve_request-Answers :
      (p : HttpParser) (s : Socket)
      → IsValid p
      → All IsRead s.recvs
      → Answers (serve_request alloc date router p s)
  unfolding serve_request
  serve_request-Answers p s v small = elim (Bool-cases (ltb 0 (length p.buffer))) [
    | inl more ↦
        let (p', result, runs, agrees) = http_parser_execute_returns alloc p [] in
        let v' = http_parser_execute-IsValid alloc p [] v (omega arith) runs in
        rw (more, runs)
          (after_read-Answers s _ (
            read_request-ReadsValid s.recvs p' result small v'
              λ done. complete_state p' result agrees done))
    | inr none_left ↦ rw none_left (
        after_read-Answers s _
          (read_request-ReadsValid s.recvs p parser_incomplete small v λ e. ground (arith, e)))
  ]

  -- The rounds of `handle_connection` on one connection: the first, and one behind each that goes on.
  pub data Rounds (client_fd : ℕ) (socket : Socket) : Round → Type 0 where
    first : Rounds client_fd socket (first_round alloc date router client_fd socket)
    later :
        {p : HttpParser} {s : Socket}
        → Rounds client_fd socket (goes_on p s)
        → Rounds client_fd socket (next_round alloc date router client_fd p s)

  Answers-if : (b : Bool) (x y : Round) → Answers x → Answers y → Answers (if b then x else y)
  Answers-if true x y h k = h
  Answers-if false x y h k = k

  Answers-unless :
      (st : ParseState) (x y : Round)
      → Answers x
      → Answers y
      → Answers (elim st [ error ↦ x | _ ↦ y ])
  Answers-unless error x y h k = h
  Answers-unless _ x y h k = k

  first_round-Answers :
      (client_fd : ℕ) (s : Socket)
      → All IsRead s.recvs
      → Answers (first_round alloc date router client_fd s)
  unfolding first_round http_request_create
  first_round-Answers client_fd s small =
      let p = http_parser_init alloc (request_of alloc date router client_fd) in
      let v : IsValid p =
        http_parser_init-IsValid alloc (request_of alloc date router client_fd) (refl, refl) in
      Answers-if (alloc sizeof_http_request && alloc sizeof_http_response) _ _
        (Answers-unless p.state _ _ (fails-Answers s _ _) (serve_request-Answers p s v small))
        (fails-Answers s _ _)

  next_round-Answers :
      (client_fd : ℕ) (p : HttpParser) (s : Socket)
      → Reusable p
      → All IsRead s.recvs
      → Answers (next_round alloc date router client_fd p s)
  unfolding next_round http_request_create
  next_round-Answers client_fd p s fits small =
      Answers-if (alloc sizeof_http_request && alloc sizeof_http_response) _ _
        (serve_request-Answers _ s
          (http_parser_reset-Reusable p (request_of alloc date router client_fd) fits (refl, refl))
          small)
        (fails-Answers s _ _)

  -- However many requests arrive on a connection, in pieces of at most 8192 bytes: every round of
  -- `handle_connection` that goes on, or makes the connection a WebSocket, has answered a complete request
  -- that a well-formed parser holds, with a body within its limits.
  pub Rounds-Answers :
      (client_fd : ℕ) (socket : Socket) (r : Round)
      → All IsRead socket.recvs
      → Rounds client_fd socket r
      → Answers r
  Rounds-Answers client_fd socket r small first = first_round-Answers client_fd socket small
  Rounds-Answers client_fd socket r small (later before) =
      let (_, fits, small') = Rounds-Answers client_fd socket _ small before in
      next_round-Answers client_fd _ _ fits small'
