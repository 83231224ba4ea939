-- ===== src/Parser/Execute/Outcome.antt =====
-- src/http_server.c: `http_parser_execute` returns, and what its result says of the parser.
use modern_c_web_library.Base.{
  ℕ, zero, suc, ◌+◌, ◌*◌, ◌≡◌, ◌≢◌, ◌≤◌, ◌<◌, ◌^◌, inl, inr, refl, ◌∙◌, sym, Bool, true, false,
  Option, some, arith, Bytes, length, take, length-drop, Bool-cases, size_sub, ltb, if◌then◌else◌,
  ◌==◌,
}
use modern_c_web_library.Parser
use modern_c_web_library.Parser.{
  failed, waiting, advanced, HttpParser, ParseState, request_line, headers, body, chunk_size,
  chunk_data, chunk_crlf, chunk_trailers, complete, error, ParserResult, parser_complete,
  parser_error, parser_incomplete, parser_consume, parser_set_error, ensure_buffer_capacity,
  max_body_bytes,
}
use modern_c_web_library.Parser.Buffer.{parser_consume_lem}
use modern_c_web_library.Parser.RequestLine.{parse_request_line}
use modern_c_web_library.Parser.Body.{
  append_body_data, parse_chunk_size, parse_chunk_data, parse_chunk_crlf, parse_chunk_trailers,
}
use modern_c_web_library.Parser.Valid.{IsValid}
use modern_c_web_library.Parser.Execute.{
  Round, again, done, of_progress, of_line, state_result, body_copied, body_round, execute_round,
  execute_loop, rounds, execute_received, http_parser_execute,
}
use modern_c_web_library.Parser.Execute.Bounds.{http_parser_execute-IsValid}
use modern_c_web_library.Parser.Execute.Progress.{
  rank, weight, Reports, parse_request_line-Reports, parse_headers-Reports,
  parse_chunk_size-Reports, append_body_data-keeps, parse_chunk_data-Reports,
  parse_chunk_crlf-Reports, parse_chunk_trailers-Reports,
}

-- The result and the state say the same.
abbrev pub Agrees : ParserResult → ParseState → Type 0
Agrees parser_complete st = st ≡ complete
Agrees parser_error st = st ≡ error
Agrees parser_incomplete st = (st ≢ complete) × (st ≢ error)

abbrev pub RoundOk : HttpParser → Round → Type 0
RoundOk p (again p') = weight p' < weight p
RoundOk p (done p' result) = Agrees result p'.state

of_progress-Ok :
    (p : HttpParser) (out : HttpParser × Parser.Progress)
    → Reports p out
    → p.state ≢ complete
    → p.state ≢ error
    → RoundOk p (of_progress out)
of_progress-Ok p (p', failed) r c e = r.sets_error refl
of_progress-Ok p (p', waiting) r c e = ground (arith, r.waits refl)
of_progress-Ok p (p', advanced) r c e = r.consumes refl

Agrees-state_result : (st : ParseState) → st ≢ complete → Agrees (state_result st) st
Agrees-state_result error c = refl
Agrees-state_result complete c = absurd (c refl)
Agrees-state_result request_line c = ground arith
Agrees-state_result headers c = ground arith
Agrees-state_result body c = ground arith
Agrees-state_result chunk_size c = ground arith
Agrees-state_result chunk_data c = ground arith
Agrees-state_result chunk_crlf c = ground arith
Agrees-state_result chunk_trailers c = ground arith

of_line-Ok :
    (p : HttpParser) (out : HttpParser × Parser.Progress)
    → Reports p out
    → p.state ≡ request_line
    → RoundOk p (of_line out)
of_line-Ok p (p', advanced) r s = r.consumes refl
of_line-Ok p (p', failed) r s = Agrees-state_result p'.state (ground (arith, r.sets_error refl))
of_line-Ok p (p', waiting) r s = Agrees-state_result p'.state (ground (arith, r.waits refl))

module _ (alloc : ℕ → Bool) where
  -- What the case PARSE_STATE_BODY copies, and the copy.
  abbrev pub to_copy : HttpParser → ℕ
  to_copy p =
      let remaining = size_sub p.content_length p.body_received in
      if ltb (length p.buffer) remaining then length p.buffer else remaining

  abbrev pub copy : HttpParser → HttpParser × Bool
  copy p = append_body_data alloc p (take (to_copy p) p.buffer)

  pub body_round-starved :
      (p : HttpParser) → (to_copy p == 0) ≡ true → body_round alloc p ≡ done p parser_incomplete
  unfolding body_round
  body_round-starved p e = rw e

  pub body_round-refused :
      (p : HttpParser)
      → (to_copy p == 0) ≡ false
      → (copy p).1 ≡ false
      → body_round alloc p ≡ done (copy p).0 parser_error
  unfolding body_round
  body_round-refused p e f = rw (e, f)

  pub body_round-copied :
      (p : HttpParser)
      → (to_copy p == 0) ≡ false
      → (copy p).1 ≡ true
      → body_round alloc p ≡ body_copied alloc (copy p).0 (to_copy p)
  unfolding body_round
  body_round-copied p e f = rw (e, f)

  body_copied-Ok :
      (p p' : HttpParser) (n : ℕ)
      → p.state ≡ body
      → p'.state ≡ body
      → p'.buffer ≡ p.buffer
      → 0 < n
      → n ≤ length p.buffer
      → RoundOk p (body_copied alloc p' n)
  unfolding body_copied
  body_copied-Ok p p' n s s' same some' within =
      elim (Bool-cases (p'.body_received == p'.content_length)) [
        | inl e ↦ rw e refl
        | inr e ↦ rw e (ground (arith, parser_consume_lem p' n, length-drop n p.buffer))
      ]

  body_round-Ok : (p : HttpParser) → p.state ≡ body → RoundOk p (body_round alloc p)
  body_round-Ok p s =
      let (same, bad, good) = append_body_data-keeps alloc p (take (to_copy p) p.buffer) in
      elim (Bool-cases (to_copy p == 0)) [
        | inl e ↦ rw (body_round-starved p e) (ground arith)
        | inr e ↦ elim (Bool-cases (copy p).1) [
          | inl f ↦ rw (body_round-copied p e f) (
              body_copied-Ok p (copy p).0 (to_copy p) s (good f ∙ s) same (ground (arith, e))
                (ground arith))
          | inr f ↦ rw (body_round-refused p e f) (bad f)
        ]
      ]

  -- Every round returns, and either goes on with less to do or ends with a result that agrees
  -- with the state.
  pub execute_round-Ok :
      (st : ParseState) (p : HttpParser)
      → p.state ≡ st
      → (r : Round) × (execute_round alloc st p ≡ some r) × RoundOk p r
  unfolding execute_round
  execute_round-Ok request_line p s =
      (_, refl, of_line-Ok p (parse_request_line alloc p) (parse_request_line-Reports alloc p) s)
  execute_round-Ok headers p s =
      let (out, runs, reports) =
        parse_headers-Reports alloc (suc (length p.buffer)) p (omega arith) s in
      (
        of_progress out,
        ground (arith, runs),
        of_progress-Ok p out reports (ground arith) (ground arith),
      )
  execute_round-Ok body p s = (_, refl, body_round-Ok p s)
  execute_round-Ok chunk_size p s = (
    _,
    refl,
    of_progress-Ok p (parse_chunk_size alloc p) (parse_chunk_size-Reports alloc p) (ground arith)
        (ground arith),
  )
  execute_round-Ok chunk_data p s = (
    _,
    refl,
    of_progress-Ok p (parse_chunk_data alloc p) (parse_chunk_data-Reports alloc p s) (ground arith)
        (ground arith),
  )
  execute_round-Ok chunk_crlf p s = (
    _,
    refl,
    of_progress-Ok p (parse_chunk_crlf p) (parse_chunk_crlf-Reports p) (ground arith)
        (ground arith),
  )
  execute_round-Ok chunk_trailers p s = (
    _,
    refl,
    of_progress-Ok p (parse_chunk_trailers p) (parse_chunk_trailers-Reports p s) (ground arith)
        (ground arith),
  )
  execute_round-Ok complete p s = (_, refl, s)
  execute_round-Ok error p s = (_, refl, s)

  execute_loop-Agrees :
      (fuel : ℕ) (p : HttpParser)
      → weight p < fuel
      → (p' : HttpParser) × (result : ParserResult) × (execute_loop alloc fuel p
          ≡ some (p', result))
        × Agrees result p'.state
  unfolding execute_loop
  execute_loop-Agrees zero p h = absurd (omega arith)
  execute_loop-Agrees (suc fuel) p h =
      let (r, runs, good) = execute_round-Ok p.state p refl in
      go r runs good (execute_loop-Agrees fuel)
    where
      go :
          (r : Round)
          → execute_round alloc p.state p ≡ some r
          → RoundOk p r
          → ((q : HttpParser)
              → weight q < fuel
              → (p' : HttpParser) × (result : ParserResult) × (execute_loop alloc fuel q
                  ≡ some (p', result))
                × Agrees result p'.state)
          → (p' : HttpParser) × (result : ParserResult) × (execute_loop alloc (suc fuel) p
              ≡ some (p', result))
            × Agrees result p'.state
      go (again q) e less ih =
          let (p', result, runs, agrees) = ih q (omega arith) in
          (p', result, ground (arith, e, runs), agrees)
      go (done p' result) e agrees ih = (p', result, ground (arith, e), agrees)

  -- The call returned, with a result that agrees with the state.
  abbrev Returns : Option (HttpParser × ParserResult) → Type 0
  Returns out =
      (p' : HttpParser) × (result : ParserResult) × (out ≡ some (p', result))
      × Agrees result p'.state

  execute_loop-Returns : (p : HttpParser) → Returns (execute_loop alloc (rounds alloc p) p)
  execute_loop-Returns p = execute_loop-Agrees (rounds alloc p) p (rank-bound p.state)
    where
      rank-bound : (st : ParseState) → 2 * length p.buffer + rank st < rounds alloc p
      rank-bound chunk_data = omega arith
      rank-bound request_line = omega arith
      rank-bound _ = omega arith

  ensure_fails-error :
      (p : HttpParser) (n : ℕ)
      → (ensure_buffer_capacity alloc p n).1 ≡ false
      → (ensure_buffer_capacity alloc p n).0.state ≡ error
  unfolding ensure_buffer_capacity parser_set_error
  ensure_fails-error p n h = ground arith

  execute_received-Returns :
      (p : HttpParser) (bytes : Bytes) → Returns (execute_received alloc p bytes)
  unfolding execute_received
  execute_received-Returns p bytes = elim (Bool-cases (length bytes == 0)) [
    | inl e ↦ rw e (execute_loop-Returns p)
    | inr e ↦ elim (Bool-cases (ensure_buffer_capacity alloc p (length bytes)).1) [
      | inl ok ↦ rw (e, ok) (execute_loop-Returns _)
      | inr no' ↦ (
        (ensure_buffer_capacity alloc p (length bytes)).0,
        parser_error,
        ground (arith, e, no'),
        ensure_fails-error p (length bytes) no',
      )
    ]
  ]

  -- `http_parser_execute` returns on every parser and all data, within the rounds given, and the
  -- result tells the state: PARSER_COMPLETE exactly in PARSE_STATE_COMPLETE, PARSER_ERROR exactly
  -- in PARSE_STATE_ERROR, PARSER_INCOMPLETE in the other states.
  pub http_parser_execute_returns :
      (p : HttpParser) (bytes : Bytes)
      → (p' : HttpParser) × (result : ParserResult) × (http_parser_execute alloc p bytes
          ≡ some (p', result))
        × Agrees result p'.state
  unfolding http_parser_execute
  http_parser_execute_returns p bytes = go p.state refl
    where
      go :
          (st : ParseState)
          → p.state ≡ st
          → (p' : HttpParser) × (result : ParserResult) × (http_parser_execute alloc p bytes
              ≡ some (p', result))
            × Agrees result p'.state
      go error s = (p, parser_error, ground (arith, s), s)
      go st s =
          let (p', result, runs, agrees) = execute_received-Returns p bytes in
          (p', result, ground (arith, s, runs), agrees)

  complete_state :
      (q p' : HttpParser) (result : ParserResult)
      → Agrees result q.state
      → ◌≡◌ {A = Option (HttpParser × ParserResult)} (some (q, result)) (some (p', parser_complete))
      → p'.state ≡ complete
  complete_state q p' parser_complete a e = ground (arith, a)
  complete_state q p' parser_error a e = ground arith
  complete_state q p' parser_incomplete a e = ground arith

  -- What a client may rely on once PARSER_COMPLETE is returned: the stored body is as long as
  -- `body_length` says, at most MAX_BODY_BYTES, and with no chunked coding exactly as long as the
  -- Content-Length that was read; and a connection to keep alive has shown its Host header.
  pub complete_request :
      (p p' : HttpParser) (bytes : Bytes)
      → IsValid p
      → length bytes < 2 ^ 63
      → http_parser_execute alloc p bytes ≡ some (p', parser_complete)
      → (p'.state ≡ complete)
        × (length p'.req.body ≡ p'.req.body_length)
        × (p'.req.body_length ≤ max_body_bytes)
        × (p'.chunked ≡ false → p'.req.body_length ≡ p'.content_length)
        × (p'.keep_alive ≡ true → p'.seen_host ≡ true)
  complete_request p p' bytes v small h =
      let (q, result, runs, agrees) = http_parser_execute_returns p bytes in
      let v' = http_parser_execute-IsValid alloc p bytes {out = (p', parser_complete)} v small h in
      let state : p'.state ≡ complete = complete_state q p' result agrees (sym runs ∙ h) in
      ground (arith, v', state)
