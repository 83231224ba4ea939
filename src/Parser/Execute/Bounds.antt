-- ===== src/Parser/Execute/Bounds.antt =====
-- src/http_server.c: `http_parser_init`, `http_parser_reset` and `http_parser_execute` keep the
-- invariant of the parser.
use modern_c_web_library.Base.{
  ℕ, zero, suc, ◌≡◌, ◌≤◌, ◌<◌, ◌^◌, inl, inr, refl, Bool, true, false, some, [], ◌++◌, arith, Bytes,
  length, take, length-drop, length-take, take-length, length-append, ◌==◌, Option-cases,
  Bool-cases, size_add, size_sub, ltb, if◌then◌else◌,
}
use modern_c_web_library.Http.{HttpRequest}
use modern_c_web_library.Parser
use modern_c_web_library.Parser.{
  failed, waiting, advanced, HttpParser, ParseState, request_line, headers, body, chunk_size,
  chunk_data, chunk_crlf, chunk_trailers, complete, error, ParserResult, parser_consume,
  parser_set_error, ensure_buffer_capacity, max_request_buffer, read_buffer_size,
}
use modern_c_web_library.Parser.Buffer.{parser_consume_lem, ensure_buffer_capacity_lem}
use modern_c_web_library.Parser.RequestLine.{parse_request_line}
use modern_c_web_library.Parser.Headers.{parse_headers}
use modern_c_web_library.Parser.Body.{
  append_body_data, parse_chunk_size, parse_chunk_data, parse_chunk_crlf, parse_chunk_trailers,
}
use modern_c_web_library.Parser.Valid.{IsValid, HasHost}
use modern_c_web_library.Parser.Valid.RequestLine.{parse_request_line-IsValid}
use modern_c_web_library.Parser.Valid.Headers.{parse_headers-IsValid}
use modern_c_web_library.Parser.Valid.Body.{
  append_body_data_lem, append_body_data_fails, append_body_data-IsValid, parse_chunk_size-IsValid,
  parse_chunk_data-IsValid, parse_chunk_crlf-IsValid, parse_chunk_trailers-IsValid,
}
use modern_c_web_library.Parser.Execute.{
  Round, again, done, of_progress, of_line, body_copied, body_round, execute_round, execute_loop,
  rounds, execute_received, http_parser_execute, http_parser_init, http_parser_reset,
}

-- The parser that a round leaves.
abbrev pub left_by : Round → HttpParser
left_by (again p) = p
left_by (done p result) = p

module _ (alloc : ℕ → Bool) where
  body_copied-IsValid :
      (p : HttpParser) (n : ℕ)
      → IsValid (record p { state = error })
      → p.state ≡ body
      → HasHost p
      → p.chunked ≡ false
      → p.body_received ≤ p.content_length
      → IsValid (left_by (body_copied alloc p n))
  unfolding body_copied
  body_copied-IsValid p n v s host plain le =
      ground (arith, parser_consume_lem p n, length-drop n p.buffer)

  body_round-IsValid :
      (p : HttpParser) → IsValid p → p.state ≡ body → IsValid (left_by (body_round alloc p))
  unfolding body_round
  body_round-IsValid p v s =
      let remaining = size_sub p.content_length p.body_received in
      let n = if ltb (length p.buffer) remaining then length p.buffer else remaining in
      let bytes = take n p.buffer in
      let p' = (append_body_data alloc p bytes).0 in
      ground (
        arith,
        length-take n p.buffer,
        append_body_data_lem alloc p bytes v,
        append_body_data_fails alloc p bytes v,
        append_body_data-IsValid alloc p bytes error v,
        body_copied-IsValid p' n,
      )

  of_progress-IsValid :
      (out : HttpParser × Parser.Progress) → IsValid out.0 → IsValid (left_by (of_progress out))
  of_progress-IsValid (p, failed) v = v
  of_progress-IsValid (p, waiting) v = v
  of_progress-IsValid (p, advanced) v = v

  of_line-IsValid :
      (out : HttpParser × Parser.Progress) → IsValid out.0 → IsValid (left_by (of_line out))
  of_line-IsValid (p, advanced) v = v
  of_line-IsValid (p, failed) v = v
  of_line-IsValid (p, waiting) v = v

  execute_round-IsValid :
      (st : ParseState) (p : HttpParser) {r : Round}
      → p.state ≡ st
      → IsValid p
      → execute_round alloc st p ≡ some r
      → IsValid (left_by r)
  unfolding execute_round
  execute_round-IsValid request_line p s v h =
      ground (
        arith,
        of_line-IsValid (parse_request_line alloc p) (parse_request_line-IsValid alloc p v s),
      )
  execute_round-IsValid headers p s v h =
      elim (Option-cases (parse_headers alloc (suc (length p.buffer)) p)) [
        | inl e ↦ ground (arith, e)
        | inr (out, e) ↦ ground (
          arith,
          e,
          of_progress-IsValid out (parse_headers-IsValid alloc (suc (length p.buffer)) p v s e),
        )
      ]
  execute_round-IsValid body p s v h = ground (arith, body_round-IsValid p v s)
  execute_round-IsValid chunk_size p s v h =
      ground (
        arith,
        of_progress-IsValid (parse_chunk_size alloc p) (parse_chunk_size-IsValid alloc p v s),
      )
  execute_round-IsValid chunk_data p s v h =
      ground (
        arith,
        of_progress-IsValid (parse_chunk_data alloc p) (parse_chunk_data-IsValid alloc p v s),
      )
  execute_round-IsValid chunk_crlf p s v h =
      ground (arith, of_progress-IsValid (parse_chunk_crlf p) (parse_chunk_crlf-IsValid p v s))
  execute_round-IsValid chunk_trailers p s v h =
      ground
        (arith, of_progress-IsValid (parse_chunk_trailers p) (parse_chunk_trailers-IsValid p v s))
  execute_round-IsValid complete p s v h = ground arith
  execute_round-IsValid error p s v h = ground arith

  -- The loop keeps the invariant, whatever fuel it has.
  execute_loop-IsValid :
      (fuel : ℕ) (p : HttpParser) {out : HttpParser × ParserResult}
      → IsValid p
      → execute_loop alloc fuel p ≡ some out
      → IsValid out.0
  unfolding execute_loop
  execute_loop-IsValid zero p v h = ground arith
  execute_loop-IsValid (suc fuel) p {out} v h =
      elim (Option-cases (execute_round alloc p.state p)) [
        | inl e ↦ ground (arith, e)
        | inr (again p', e) ↦
            execute_loop-IsValid fuel p' {out = out} (execute_round-IsValid p.state p refl v e)
              (ground (arith, e, h))
        | inr (done p' result, e) ↦ ground (arith, e, execute_round-IsValid p.state p refl v e)
      ]

  ensure_fails-IsValid :
      (p : HttpParser) (n : ℕ)
      → IsValid p
      → (ensure_buffer_capacity alloc p n).1 ≡ false
      → IsValid (ensure_buffer_capacity alloc p n).0
  unfolding ensure_buffer_capacity parser_set_error
  ensure_fails-IsValid p n v h = ground arith

  -- What is received is appended behind a buffer that has room for it.
  abbrev received : HttpParser → Bytes → HttpParser
  received p bytes = record p {
    buffer = p.buffer ++ bytes;
    total_bytes = size_add p.total_bytes (length bytes);
  }

  received-IsValid :
      (p : HttpParser) (bytes : Bytes)
      → IsValid p
      → length bytes < 2 ^ 63
      → (ensure_buffer_capacity alloc p (length bytes)).1 ≡ true
      → IsValid (received (ensure_buffer_capacity alloc p (length bytes)).0 bytes)
  received-IsValid p bytes v small ok =
      let p' = (ensure_buffer_capacity alloc p (length bytes)).0 in
      ground (
        arith,
        ensure_buffer_capacity_lem alloc p (length bytes) p' v.buffer_fits v.buffer_small small
            (ground (arith, ok)),
        length-append p.buffer bytes,
      )

  execute_received-IsValid :
      (p : HttpParser) (bytes : Bytes) {out : HttpParser × ParserResult}
      → IsValid p
      → length bytes < 2 ^ 63
      → execute_received alloc p bytes ≡ some out
      → IsValid out.0
  unfolding execute_received
  execute_received-IsValid p bytes {out} v small h = elim (Bool-cases (length bytes == 0)) [
    | inl e ↦ execute_loop-IsValid (rounds alloc p) p {out = out} v (rw e at h)
    | inr e ↦ elim (Bool-cases (ensure_buffer_capacity alloc p (length bytes)).1) [
      | inl ok ↦
          let p' = received (ensure_buffer_capacity alloc p (length bytes)).0 bytes in
          execute_loop-IsValid (rounds alloc p') p' {out = out}
            (received-IsValid p bytes v small ok) (ground (arith, e, ok, h))
      | inr no' ↦ ground (arith, e, no', h, ensure_fails-IsValid p (length bytes) v no')
    ]
  ]

  -- Whatever arrives, in whatever pieces, `http_parser_execute` keeps the invariant of the parser:
  -- the buffers stay within their limits and hold what is stored in them, and no counter passes
  -- what it counts towards.
  pub http_parser_execute-IsValid :
      (p : HttpParser) (bytes : Bytes) {out : HttpParser × ParserResult}
      → IsValid p
      → length bytes < 2 ^ 63
      → http_parser_execute alloc p bytes ≡ some out
      → IsValid out.0
  unfolding http_parser_execute
  http_parser_execute-IsValid p bytes {out} v small h =
      ground (arith, execute_received-IsValid p bytes {out = out} v small)

-- A request with nothing in it yet.
abbrev pub IsFresh : HttpRequest → Type 0
IsFresh req = (req.body ≡ []) × (req.body_length ≡ 0)

-- `http_parser_init` establishes the invariant, whether or not the buffer is granted, for a request
-- with no body in it.
pub http_parser_init-IsValid :
    (alloc : ℕ → Bool) (req : HttpRequest) → IsFresh req → IsValid (http_parser_init alloc req)
unfolding http_parser_init parser_set_error
http_parser_init-IsValid alloc req f = ground arith

-- For a request with no body in it, `http_parser_reset` establishes the invariant anew, and keeps the
-- bytes that were not used exactly if it is told to.
pub http_parser_reset-IsValid :
    (p : HttpParser) (req : HttpRequest) (preserve : Bool)
    → IsValid p
    → IsFresh req
    → IsValid (http_parser_reset p req preserve)
      × ((http_parser_reset p req preserve).buffer ≡ (if preserve then p.buffer else []))
unfolding http_parser_reset
http_parser_reset-IsValid p req preserve v f =
    ground (arith, take-length max_request_buffer p.buffer, length-take max_request_buffer p.buffer)
