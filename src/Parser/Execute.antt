-- ===== src/Parser/Execute.antt =====
-- src/http_server.c, `http_parser_init`, `http_parser_reset` and `http_parser_execute`.
pub mod Bounds
pub mod Progress
pub mod Outcome
pub mod Shrinks
mod Tests
use modern_c_web_library.Base.{
  ℕ, zero, suc, ◌+◌, ◌*◌, Bool, true, false, Option, none, some, List, [], ◌∷◌, ◌++◌, codes, Bytes,
  length, take, if◌then◌else◌, ◌==◌, ltb, leb, size_add, size_sub,
}
use modern_c_web_library.Http.{HttpRequest}
use modern_c_web_library.Parser.{
  HttpParser, ParseState, request_line, headers, body, chunk_size, chunk_data, chunk_crlf,
  chunk_trailers, complete, error, ParserResult, parser_incomplete, parser_complete, parser_error,
  failed, waiting, advanced, parser_consume, parser_set_error, ensure_buffer_capacity,
  read_buffer_size, max_request_buffer,
}
use modern_c_web_library.Parser.RequestLine.{parse_request_line}
use modern_c_web_library.Parser.Headers.{parse_headers}
use modern_c_web_library.Parser.Body.{
  append_body_data, parse_chunk_size, parse_chunk_data, parse_chunk_crlf, parse_chunk_trailers,
}
use modern_c_web_library.Parser

-- One round of the loop either goes round again or returns.
pub data Round : Type 0 where
  again : HttpParser → Round
  done : HttpParser → ParserResult → Round

-- The cases of the four chunk states: a negative result is an error, 0 is incomplete.
abbrev pub of_progress : HttpParser × Parser.Progress → Round
of_progress (p, failed) = done p parser_error
of_progress (p, waiting) = done p parser_incomplete
of_progress (p, advanced) = again p

-- After `parse_request_line` the state tells an error from an incomplete line.
abbrev pub state_result : ParseState → ParserResult
state_result error = parser_error
state_result _ = parser_incomplete

abbrev pub of_line : HttpParser × Parser.Progress → Round
of_line (p, advanced) = again p
of_line (p, _) = done p (state_result p.state)

module _ (alloc : ℕ → Bool) where
  -- After the copy in the case PARSE_STATE_BODY.
  unfoldable pub body_copied : HttpParser → ℕ → Round
  body_copied p n =
      let p' = parser_consume p n in
      if p.body_received == p.content_length
      then done
          (record p' { state = complete; req = record (p.req) { body_length = p.body_received } })
          parser_complete
      else again p'

  -- The case PARSE_STATE_BODY.
  unfoldable pub body_round : HttpParser → Round
  body_round p =
      let remaining = size_sub p.content_length p.body_received in
      let to_copy = if ltb (length p.buffer) remaining then length p.buffer else remaining in
      if to_copy == 0
      then done p parser_incomplete
      else let (p', ok) = append_body_data alloc p (take to_copy p.buffer) in
        if ok then body_copied p' to_copy else done p' parser_error

  -- One round of the loop, `none` when the fuel of `parse_headers` runs out. The fuel is one more
  -- than the bytes in the buffer, of which each header line takes some.
  unfoldable pub execute_round : ParseState → HttpParser → Option Round
  execute_round request_line p = some (of_line (parse_request_line alloc p))
  execute_round headers p = elim (parse_headers alloc (suc (length p.buffer)) p) [
    | none ↦ none
    | some out ↦ some (of_progress out)
  ]
  execute_round body p = some (body_round p)
  execute_round chunk_size p = some (of_progress (parse_chunk_size alloc p))
  execute_round chunk_data p = some (of_progress (parse_chunk_data alloc p))
  execute_round chunk_crlf p = some (of_progress (parse_chunk_crlf p))
  execute_round chunk_trailers p = some (of_progress (parse_chunk_trailers p))
  execute_round complete p = some (done p parser_complete)
  execute_round error p = some (done p parser_error)

  -- The loop, on fuel. Its condition and the code behind it are the cases `complete` and `error`.
  unfoldable pub execute_loop : ℕ → HttpParser → Option (HttpParser × ParserResult)
  execute_loop zero p = none
  execute_loop (suc fuel) p = elim (execute_round p.state p) [
    | none ↦ none
    | some (again p') ↦ execute_loop fuel p'
    | some (done p' result) ↦ some (p', result)
  ]

  -- More rounds than any buffer content allows.
  abbrev pub rounds : HttpParser → ℕ
  rounds p = 2 * length p.buffer + 2

  -- The part of `http_parser_execute` behind the test on its arguments.
  unfoldable pub execute_received : HttpParser → Bytes → Option (HttpParser × ParserResult)
  execute_received p bytes =
      if length bytes == 0
      then execute_loop (rounds p) p
      else let (p', ok) = ensure_buffer_capacity alloc p (length bytes) in
        let p'' : HttpParser = record p' {
          buffer = p'.buffer ++ bytes;
          total_bytes = size_add p'.total_bytes (length bytes);
        } in
        let run = execute_loop (rounds p'') p'' in if ok then run else some (p', parser_error)

  -- `http_parser_execute`; `none` when the fuel runs out.
  unfoldable pub http_parser_execute : HttpParser → Bytes → Option (HttpParser × ParserResult)
  http_parser_execute p bytes = elim p.state [
    | error ↦ some (p, parser_error)
    | _ ↦ execute_received p bytes
  ]

-- The fields that `memset` clears.
abbrev pub cleared : HttpRequest → HttpParser
cleared req = record {
  state = request_line;
  req = req;
  buffer = [];
  buffer_cap = 0;
  total_bytes = 0;
  header_count = 0;
  content_length = 0;
  body_received = 0;
  body_capacity = 0;
  chunked = false;
  current_chunk_size = 0;
  current_chunk_received = 0;
  keep_alive = false;
  seen_host = false;
  error_status = 0;
  error_message = none;
}

-- `http_parser_init`
unfoldable pub http_parser_init : (ℕ → Bool) → HttpRequest → HttpParser
http_parser_init alloc req =
    let p : HttpParser = record (cleared req) { buffer_cap = read_buffer_size } in
    if alloc read_buffer_size then p else parser_set_error p 500 (codes "Out of memory")

-- `http_parser_reset`
unfoldable pub http_parser_reset : HttpParser → HttpRequest → Bool → HttpParser
http_parser_reset p req preserve_buffer = record p {
  state = request_line;
  req = record req { body_length = 0 };
  buffer = kept;
  total_bytes = if preserve_buffer then length kept else 0;
  header_count = 0;
  content_length = 0;
  body_received = 0;
  body_capacity = 0;
  chunked = false;
  current_chunk_size = 0;
  current_chunk_received = 0;
  keep_alive = false;
  seen_host = false;
  error_status = 400;
  error_message = none;
}
  where
    kept : Bytes
    kept = if preserve_buffer then take max_request_buffer p.buffer else []
