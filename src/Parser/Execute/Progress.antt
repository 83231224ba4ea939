-- ===== src/Parser/Execute/Progress.antt =====
-- src/http_server.c: every round of `http_parser_execute` makes progress, so the loop ends.
use modern_c_web_library.Base.{
  ℕ, zero, suc, ◌+◌, ◌*◌, ◌≡◌, ◌≢◌, ◌≤◌, ◌<◌, inl, inr, refl, ◌∙◌, ◌⊎◌, Bool, true, false, some,
  arith, Bytes, length, take, length-drop, Option-cases, Bool-cases, size_sub, ltb, if◌then◌else◌,
  split_at, skip_spaces, c_string,
}
use modern_c_web_library.Parser
use modern_c_web_library.Parser.{
  failed, waiting, advanced, HttpParser, ParseState, request_line, headers, body, chunk_size,
  chunk_data, chunk_crlf, chunk_trailers, complete, error, ParserResult, parser_complete,
  parser_error, parser_incomplete, parser_consume, parser_set_error, fail, find_crlf,
  assign_http_method, ensure_buffer_capacity, max_header_bytes,
}
use modern_c_web_library.Parser.Buffer.{parser_consume_lem, find_crlf-lt}
use modern_c_web_library.Parser.Number.{strtoull}
use modern_c_web_library.Parser.RequestLine.{
  finish_line, set_path, set_target, set_request, split_line, parse_request_line,
}
use modern_c_web_library.Parser.Headers.{end_headers, header_round, parse_headers}
use modern_c_web_library.Parser.Valid.Headers.{header_round_advances, header_round_fails}
use modern_c_web_library.Parser.Body.{
  append_body_data, copy_body, parse_chunk_size, chunk_copied, parse_chunk_data, parse_chunk_crlf,
  parse_chunk_trailers,
}

-- A chunk whose bytes have all come takes one round that consumes nothing.
abbrev pub rank : ParseState → ℕ
rank chunk_data = 1
rank _ = 0

-- What falls with every round.
abbrev pub weight : HttpParser → ℕ
weight p = 2 * length p.buffer + rank p.state

-- A function for one state reports truly: -1 in the error state, 0 with the state unchanged, 1
-- with something consumed.
pub record Reports (p : HttpParser) (out : HttpParser × Parser.Progress) : Type 0 where
  pub sets_error : out.1 ≡ failed → out.0.state ≡ error
  pub waits : out.1 ≡ waiting → out.0.state ≡ p.state
  pub consumes : out.1 ≡ advanced → weight out.0 < weight p

Progress-cases : (r : Parser.Progress) → (r ≡ advanced) ⊎ (r ≢ advanced)
Progress-cases advanced = inl refl
Progress-cases failed = inr (λ e. cc)
Progress-cases waiting = inr (λ e. cc)

module _ (alloc : ℕ → Bool) where
  finish_line-Reports :
      (p : HttpParser) (crlf : ℕ) (version : Bytes)
      → crlf + 2 ≤ length p.buffer
      → Reports p (finish_line alloc p crlf version)
  unfolding finish_line fail parser_set_error
  finish_line-Reports p crlf version h = ground (
    arith,
    parser_consume_lem (record p { keep_alive = true }) (crlf + 2),
    parser_consume_lem (record p { keep_alive = false }) (crlf + 2),
    length-drop (crlf + 2) p.buffer,
  )

  set_path-Reports :
      (p : HttpParser) (crlf : ℕ) (path version : Bytes)
      → crlf + 2 ≤ length p.buffer
      → Reports p (set_path alloc p crlf path version)
  unfolding set_path fail parser_set_error
  set_path-Reports p crlf path version h = ground (
    arith,
    finish_line-Reports (record p { req = record (p.req) { path = some path } }) crlf version,
  )

  set_target-Reports :
      (p : HttpParser) (crlf : ℕ) (target version : Bytes)
      → crlf + 2 ≤ length p.buffer
      → Reports p (set_target alloc p crlf target version)
  unfolding set_target fail parser_set_error
  set_target-Reports p crlf target version h = elim (Option-cases (split_at b'?' target)) [
    | inl e ↦ ground (arith, e, set_path-Reports p crlf target version h)
    | inr ((path, query), e) ↦ ground (
      arith,
      e,
      set_path-Reports (record p { req = record (p.req) { query_string = some query } }) crlf path
          version,
    )
  ]

  set_request-Reports :
      (p : HttpParser) (crlf : ℕ) (method target version : Bytes)
      → crlf + 2 ≤ length p.buffer
      → Reports p (set_request alloc p crlf method target version)
  unfolding set_request fail parser_set_error
  set_request-Reports p crlf method target version h =
      elim (Option-cases (assign_http_method method)) [
        | inl e ↦ ground (arith, e)
        | inr (m, e) ↦ ground (
          arith,
          e,
          set_target-Reports (record p { req = record (p.req) { method = m } }) crlf target version,
        )
      ]

  split_line-Reports :
      (p : HttpParser) (crlf : ℕ) (line : Bytes)
      → crlf + 2 ≤ length p.buffer
      → Reports p (split_line alloc p crlf line)
  unfolding split_line fail parser_set_error
  split_line-Reports p crlf line h = elim (Option-cases (split_at b' ' line)) [
    | inl e ↦ ground (arith, e)
    | inr ((method, rest), e) ↦ elim (Option-cases (split_at b' ' (skip_spaces rest))) [
      | inl e' ↦ ground (arith, e, e')
      | inr ((target, rest'), e') ↦
          ground (arith, e, e', set_request-Reports p crlf method target (skip_spaces rest') h)
    ]
  ]

  pub parse_request_line-Reports : (p : HttpParser) → Reports p (parse_request_line alloc p)
  unfolding parse_request_line fail parser_set_error
  parse_request_line-Reports p = elim (Option-cases (find_crlf p.buffer)) [
    | inl e ↦ ground (arith, e)
    | inr (i, e) ↦
        ground
          (arith, e, split_line-Reports p i (c_string (take i p.buffer)), find_crlf-lt p.buffer i e)
  ]

  end_headers-Reports :
      (p : HttpParser) → 2 ≤ length p.buffer → p.state ≡ headers → Reports p (end_headers alloc p)
  unfolding end_headers fail parser_set_error
  end_headers-Reports p h s = ground (arith, parser_consume_lem p 2, length-drop 2 p.buffer)

  -- The loop over the header lines ends within its fuel.
  pub parse_headers-Reports :
      (fuel : ℕ) (p : HttpParser)
      → length p.buffer < fuel
      → p.state ≡ headers
      → (out : HttpParser × Parser.Progress) × (parse_headers alloc fuel p ≡ some out)
        × Reports p out
  unfolding parse_headers fail parser_set_error
  parse_headers-Reports zero p h s = absurd (omega arith)
  parse_headers-Reports (suc fuel) p h s = elim (Option-cases (find_crlf p.buffer)) [
    | inl e ↦ elim (Bool-cases (ltb max_header_bytes (length p.buffer))) [
      | inl long ↦
          (fail p 431 "Request Header Fields Too Large", ground (arith, e, long), ground arith)
      | inr short ↦ ((p, waiting), ground (arith, e, short), ground arith)
    ]
    | inr (zero, e) ↦ (
      end_headers alloc p,
      ground (arith, e),
      end_headers-Reports p (find_crlf-lt p.buffer 0 e) s,
    )
    | inr (suc i, e) ↦ elim (Progress-cases (header_round alloc p (suc i)).1) [
      | inl on ↦
          let p' = (header_round alloc p (suc i)).0 in
          let (state, buffer) = header_round_advances alloc p (suc i) on in
          let shorter : length p'.buffer + 2 ≤ length p.buffer =
            ground
              (arith, buffer, length-drop (suc i + 2) p.buffer, find_crlf-lt p.buffer (suc i) e) in
          let (out, runs, reports) = parse_headers-Reports fuel p' (omega arith) (state ∙ s) in
          (out, ground (arith, e, on, runs), ground (arith, reports, state))
      | inr off ↦
          let (bad, state) = header_round_fails alloc p (suc i) off in
          (header_round alloc p (suc i), ground (arith, e, bad), ground (arith, bad, state))
    ]
  ]

  pub parse_chunk_size-Reports : (p : HttpParser) → Reports p (parse_chunk_size alloc p)
  unfolding parse_chunk_size fail parser_set_error
  parse_chunk_size-Reports p = elim (Option-cases (find_crlf p.buffer)) [
    | inl e ↦ ground (arith, e)
    | inr (i, e) ↦ elim (Option-cases (strtoull 16 (c_string (take i p.buffer)))) [
      | inl e' ↦ ground (arith, e, e')
      | inr ((size, rest), e') ↦ ground (
        arith,
        e,
        e',
        parser_consume_lem p (i + 2),
        length-drop (i + 2) p.buffer,
        find_crlf-lt p.buffer i e,
      )
    ]
  ]

  pub append_body_data-keeps :
      (p : HttpParser) (bytes : Bytes)
      → let (p', ok) = append_body_data alloc p bytes in
        (p'.buffer ≡ p.buffer) × (ok ≡ false → p'.state ≡ error) × (ok ≡ true → p'.state ≡ p.state)
  unfolding append_body_data copy_body parser_set_error
  append_body_data-keeps p bytes = ground arith

  pub parse_chunk_data-Reports :
      (p : HttpParser) → p.state ≡ chunk_data → Reports p (parse_chunk_data alloc p)
  unfolding parse_chunk_data chunk_copied
  parse_chunk_data-Reports p s =
      let remaining = size_sub p.current_chunk_size p.current_chunk_received in
      let n = if ltb (length p.buffer) remaining then length p.buffer else remaining in
      let p' = (append_body_data alloc p (take n p.buffer)).0 in
      ground (
        arith,
        append_body_data-keeps p (take n p.buffer),
        parser_consume_lem p' n,
        length-drop n p.buffer,
      )

pub parse_chunk_crlf-Reports : (p : HttpParser) → Reports p (parse_chunk_crlf p)
unfolding parse_chunk_crlf fail parser_set_error
parse_chunk_crlf-Reports p = ground (arith, parser_consume_lem p 2, length-drop 2 p.buffer)

pub parse_chunk_trailers-Reports :
    (p : HttpParser) → p.state ≡ chunk_trailers → Reports p (parse_chunk_trailers p)
unfolding parse_chunk_trailers
parse_chunk_trailers-Reports p s = elim (Option-cases (find_crlf p.buffer)) [
  | inl e ↦ ground (arith, e)
  | inr (i, e) ↦ ground (
    arith,
    e,
    find_crlf-lt p.buffer i e,
    parser_consume_lem p (i + 2),
    parser_consume_lem p 2,
    length-drop (i + 2) p.buffer,
    length-drop 2 p.buffer,
  )
]
