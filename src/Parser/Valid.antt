-- ===== src/Parser/Valid.antt =====
-- src/http_server.c: the invariant of `http_parser_t`; its children prove that the functions for
-- single states keep it.
pub mod RequestLine
pub mod Headers
pub mod Body
use modern_c_web_library.Base.{
  ℕ, zero, suc, ◌+◌, ◌≡◌, ◌≤◌, ◌<◌, ◌^◌, ◌⊎◌, inl, inr, refl, Bool, true, false, Option, none, some,
  List, [], ◌∷◌, ◌++◌, arith, Bytes, length, drop, take, length-drop, length-take, length-append,
  Option-cases, Bool-cases, size_add, size_sub, ltb, if◌then◌else◌, ◌&&◌, not, ◌≢◌, codes,
  strcase_eq, split_at, skip_spaces, c_string,
}
use modern_c_web_library.Http.{header_list_add}
use modern_c_web_library.Parser.{
  assign_http_method, HttpParser, ParseState, request_line, headers, body, chunk_size, chunk_data,
  chunk_crlf, chunk_trailers, complete, error, Progress, failed, waiting, advanced, parser_consume,
  fail, parser_set_error, find_crlf, grow_cap, start_cap, max_request_buffer, max_body_bytes,
  max_header_count,
}
use modern_c_web_library.Parser.Buffer.{parser_consume_lem, grow_cap_bounds}
use modern_c_web_library.Parser.Number.{strtoull}
use modern_c_web_library.Parser.RequestLine.{
  finish_line, set_path, set_target, set_request, split_line, parse_request_line,
}
use modern_c_web_library.Parser.Headers.{
  set_content_length, apply_header, trim_end, skip_blanks, store_header, parse_header_line,
  end_headers, header_round, parse_headers,
}
use modern_c_web_library.Parser.Body.{
  copy_body, append_body_data, parse_chunk_size, chunk_copied, parse_chunk_data, parse_chunk_crlf,
  parse_chunk_trailers,
}

-- Once the headers are read, a connection to keep alive has shown a Host header.
abbrev pub HasHost : HttpParser → Type 0
HasHost p = p.keep_alive ≡ true → p.seen_host ≡ true

-- What holds in each state: no body before the headers end; a body with Content-Length never
-- exceeds it, and is whole at the end; a chunk never exceeds its size.
abbrev pub AtState : ParseState → HttpParser → Type 0
AtState request_line p = p.body_received ≡ 0
AtState headers p = p.body_received ≡ 0
AtState body p = HasHost p × (p.chunked ≡ false) × (p.body_received < p.content_length)
AtState complete p = HasHost p × (p.chunked ≡ false → p.body_received ≡ p.content_length)
AtState error p = Unit
AtState _ p = HasHost p × (p.chunked ≡ true)

-- The invariant: the buffers are within their limits and hold what is stored in them (the body
-- with its terminating NUL), and the counters agree with the contents.
pub record IsValid (p : HttpParser) : Type 0 where
  pub buffer_fits : length p.buffer ≤ p.buffer_cap
  pub buffer_small : p.buffer_cap ≤ max_request_buffer
  pub body_stored : length p.req.body ≡ p.body_received
  pub body_counted : p.req.body_length ≡ p.body_received
  pub body_small : p.body_received ≤ max_body_bytes
  pub body_fits : (p.body_received ≡ 0) ⊎ (p.body_received < p.body_capacity)
  pub capacity_small : p.body_capacity ≤ max_body_bytes + 1
  pub headers_few : p.header_count ≤ max_header_count
  pub content_small : p.content_length ≤ max_body_bytes
  pub chunk_small : p.current_chunk_size < 2 ^ 64
  pub chunk_within : p.current_chunk_received ≤ p.current_chunk_size
  pub at_state : AtState p.state p

-- An error may be set in any state.
pub fail-IsValid :
    (p : HttpParser) (status : ℕ) (message : Bytes)
    → IsValid p
    → IsValid (parser_set_error p status message)
unfolding parser_set_error
fail-IsValid p status message v = ground arith
