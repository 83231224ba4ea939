-- ===== src/Parser/Body.antt =====
-- src/http_server.c, `append_body_data` and the four functions for chunked bodies.
use modern_c_web_library.Base.{
  ℕ, ◌+◌, Bool, true, false, none, some, ◌++◌, codes, Bytes, length, take, if◌then◌else◌, ◌==◌, ltb,
  c_string, size_add, size_sub, not, ◌||◌, get_or,
}
use modern_c_web_library.Parser.{
  HttpParser, chunk_size, chunk_data, chunk_crlf, chunk_trailers, complete, Progress, failed,
  waiting, advanced, fail, find_crlf, parser_consume, parser_set_error, max_body_bytes, grow_cap,
  start_cap,
}
use modern_c_web_library.Parser.Number.{strtoull}

module _ (alloc : ℕ → Bool) where
  -- The copy at the end of `append_body_data`.
  unfoldable pub copy_body : HttpParser → Bytes → ℕ → HttpParser
  copy_body p bytes cap =
      let n = size_add p.body_received (length bytes) in
      record p {
        req = record (p.req) { body = take p.body_received p.req.body ++ bytes; body_length = n };
        body_received = n;
        body_capacity = cap;
      }

  -- `append_body_data`; the Boolean is true for 0 and false for -1.
  unfoldable pub append_body_data : HttpParser → Bytes → HttpParser × Bool
  append_body_data p bytes =
      if ltb max_body_bytes (size_add p.body_received (length bytes))
      then (parser_set_error p 413 (codes "Payload Too Large"), false)
      else if ltb p.body_capacity needed
      then if alloc new_cap
        then (copy_body p bytes new_cap, true)
        else (parser_set_error p 500 (codes "Out of memory"), false)
      else (copy_body p bytes p.body_capacity, true)
    where
      needed : ℕ
      needed = size_add (size_add p.body_received (length bytes)) 1

      new_cap : ℕ
      new_cap = grow_cap needed (max_body_bytes + 1) needed (start_cap p.body_capacity)

  -- `parse_chunk_size`: what follows the number on the line is not looked at.
  unfoldable pub parse_chunk_size : HttpParser → HttpParser × Progress
  parse_chunk_size p = elim (find_crlf p.buffer) [
    | none ↦ (p, waiting)
    | some crlf ↦
        if alloc (crlf + 1)
        then elim (strtoull 16 (c_string (take crlf p.buffer))) [
          | none ↦ fail p 400 "Invalid chunk size"
          | some (size, rest) ↦ (
            record (parser_consume p (crlf + 2)) {
              current_chunk_size = size;
              current_chunk_received = 0;
              state = if size == 0 then chunk_trailers else chunk_data;
            },
            advanced,
          )
        ]
        else fail p 500 "Out of memory"
  ]

  -- The end of `parse_chunk_data`, after the copy of `n` bytes.
  unfoldable pub chunk_copied : HttpParser → ℕ → HttpParser
  chunk_copied p n =
      let received = size_add p.current_chunk_received n in
      record (parser_consume p n) {
        current_chunk_received = received;
        state = if received == p.current_chunk_size then chunk_crlf else p.state;
      }

  -- `parse_chunk_data`
  unfoldable pub parse_chunk_data : HttpParser → HttpParser × Progress
  parse_chunk_data p =
      let remaining = size_sub p.current_chunk_size p.current_chunk_received in
      let to_copy = if ltb (length p.buffer) remaining then length p.buffer else remaining in
      if remaining == 0
      then (record p { state = chunk_crlf }, advanced)
      else if to_copy == 0
      then (p, waiting)
      else let (p', ok) = append_body_data p (take to_copy p.buffer) in
        if ok then (chunk_copied p' to_copy, advanced) else (p', failed)

-- `parse_chunk_crlf`
unfoldable pub parse_chunk_crlf : HttpParser → HttpParser × Progress
parse_chunk_crlf p =
    if ltb (length p.buffer) 2
    then (p, waiting)
    else if not (get_or p.buffer 0 0 == 13) || not (get_or p.buffer 1 0 == 10)
    then fail p 400 "Malformed chunk data"
    else (record (parser_consume p 2) { state = chunk_size }, advanced)

-- `parse_chunk_trailers`: a trailer line is dropped.
unfoldable pub parse_chunk_trailers : HttpParser → HttpParser × Progress
parse_chunk_trailers p = elim (find_crlf p.buffer) [
  | none ↦ (p, waiting)
  | some crlf ↦
      if crlf == 0
      then (
        record (parser_consume p 2) {
          state = complete;
          req = record (p.req) { body_length = p.body_received };
        },
        advanced,
      )
      else (parser_consume p (crlf + 2), advanced)
]
