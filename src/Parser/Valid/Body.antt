-- ===== src/Parser/Valid/Body.antt =====
-- src/http_server.c: the functions for bodies keep the invariant.
use modern_c_web_library.Base.{
  ℕ, ◌+◌, ◌≡◌, ◌≤◌, ◌<◌, ◌^◌, inl, inr, Bool, true, false, some, ◌++◌, arith, Bytes, length, take,
  length-drop, length-take, length-append, take-length, Option-cases, size_add, size_sub, ltb,
  if◌then◌else◌, c_string,
}
use modern_c_web_library.Parser.{
  HttpParser, ParseState, chunk_size, chunk_data, chunk_crlf, chunk_trailers, error, fail,
  parser_set_error, find_crlf, start_cap, max_request_buffer, max_body_bytes,
}
use modern_c_web_library.Parser.Buffer.{parser_consume_lem, grow_cap_bounds}
use modern_c_web_library.Parser.Number.{strtoull}
use modern_c_web_library.Parser.Body.{
  copy_body, append_body_data, parse_chunk_size, chunk_copied, parse_chunk_data, parse_chunk_crlf,
  parse_chunk_trailers,
}
use modern_c_web_library.Parser.Valid.{AtState, IsValid}

strtoull-lt :
    (base : ℕ) (s : Bytes) {n : ℕ} {rest : Bytes} → strtoull base s ≡ some (n, rest) → n < 2 ^ 64
unfolding strtoull
strtoull-lt base s h = ground arith

module _ (alloc : ℕ → Bool) where
  -- A body that may be appended to: in the state `body` up to its Content-Length, or chunked.
  pub append_body_data_lem :
      (p : HttpParser) (bytes : Bytes)
      → IsValid p
      → length bytes ≤ max_request_buffer
      → (append_body_data alloc p bytes).1 ≡ true
      → let p' = (append_body_data alloc p bytes).0 in
        (p'.body_received ≡ p.body_received + length bytes)
        × (p'.body_received ≤ max_body_bytes)
        × (p'.body_received < p'.body_capacity)
        × (p'.body_capacity ≤ max_body_bytes + 1)
        × (p'.req.body ≡ p.req.body ++ bytes)
        × (p'.req.body_length ≡ p'.body_received)
        × (p' ≡ record p {
          req = p'.req;
          body_received = p'.body_received;
          body_capacity = p'.body_capacity;
        })
  unfolding append_body_data copy_body
  append_body_data_lem p bytes v small ok =
      let needed = size_add (size_add p.body_received (length bytes)) 1 in
      ground (
        arith,
        take-length p.body_received p.req.body,
        grow_cap_bounds needed (max_body_bytes + 1) needed (start_cap p.body_capacity),
      )

  pub append_body_data_fails :
      (p : HttpParser) (bytes : Bytes)
      → IsValid p
      → (append_body_data alloc p bytes).1 ≡ false
      → IsValid (append_body_data alloc p bytes).0
        × ((append_body_data alloc p bytes).0.state ≡ error)
        × ((append_body_data alloc p bytes).0.buffer ≡ p.buffer)
  unfolding append_body_data parser_set_error
  append_body_data_fails p bytes v h = ground arith

  pub parse_chunk_size-IsValid :
      (p : HttpParser) → IsValid p → p.state ≡ chunk_size → IsValid (parse_chunk_size alloc p).0
  unfolding parse_chunk_size fail parser_set_error
  parse_chunk_size-IsValid p v s = elim (Option-cases (find_crlf p.buffer)) [
    | inl e ↦ ground (arith, e)
    | inr (i, e) ↦ elim (Option-cases (strtoull 16 (c_string (take i p.buffer)))) [
      | inl e' ↦ ground (arith, e, e')
      | inr ((size, rest), e') ↦ ground (
        arith,
        e,
        e',
        parser_consume_lem p (i + 2),
        length-drop (i + 2) p.buffer,
        strtoull-lt 16 (c_string (take i p.buffer)) e',
      )
    ]
  ]

  chunk_copied-IsValid :
      (p : HttpParser) (n : ℕ)
      → IsValid p
      → p.state ≡ chunk_data
      → p.current_chunk_received + n ≤ p.current_chunk_size
      → IsValid (chunk_copied alloc p n)
  unfolding chunk_copied
  chunk_copied-IsValid p n v s h = ground (arith, parser_consume_lem p n, length-drop n p.buffer)

  -- What a copy that succeeds leaves is valid in each state whose own condition holds.
  pub append_body_data-IsValid :
      (p : HttpParser) (bytes : Bytes) (st : ParseState)
      → IsValid p
      → length bytes ≤ max_request_buffer
      → (append_body_data alloc p bytes).1 ≡ true
      → AtState st (append_body_data alloc p bytes).0
      → IsValid (record ((append_body_data alloc p bytes).0) { state = st })
  append_body_data-IsValid p bytes st v small ok at =
      ground (arith, append_body_data_lem p bytes v small ok, length-append p.req.body bytes)

  pub parse_chunk_data-IsValid :
      (p : HttpParser) → IsValid p → p.state ≡ chunk_data → IsValid (parse_chunk_data alloc p).0
  unfolding parse_chunk_data
  parse_chunk_data-IsValid p v s =
      let remaining = size_sub p.current_chunk_size p.current_chunk_received in
      let n = if ltb (length p.buffer) remaining then length p.buffer else remaining in
      let bytes = take n p.buffer in
      let p' = (append_body_data alloc p bytes).0 in
      ground (
        arith,
        length-take n p.buffer,
        append_body_data_lem p bytes v,
        append_body_data_fails p bytes v,
        append_body_data-IsValid p bytes chunk_data v,
        chunk_copied-IsValid p' n,
      )

pub parse_chunk_crlf-IsValid :
    (p : HttpParser) → IsValid p → p.state ≡ chunk_crlf → IsValid (parse_chunk_crlf p).0
unfolding parse_chunk_crlf fail parser_set_error
parse_chunk_crlf-IsValid p v s = ground (arith, parser_consume_lem p 2, length-drop 2 p.buffer)

pub parse_chunk_trailers-IsValid :
    (p : HttpParser) → IsValid p → p.state ≡ chunk_trailers → IsValid (parse_chunk_trailers p).0
unfolding parse_chunk_trailers
parse_chunk_trailers-IsValid p v s = elim (Option-cases (find_crlf p.buffer)) [
  | inl e ↦ ground (arith, e)
  | inr (i, e) ↦ ground (
    arith,
    e,
    parser_consume_lem p (i + 2),
    parser_consume_lem p 2,
    length-drop (i + 2) p.buffer,
    length-drop 2 p.buffer,
  )
]
