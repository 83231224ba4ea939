-- ===== src/Parser/Headers.antt =====
-- src/http_server.c, `parse_header_line` and `parse_headers`.
use modern_c_web_library.Base.{
  ℕ, zero, suc, ◌+◌, Bool, true, false, Option, none, some, [], ◌∷◌, ◌&&◌, ◌||◌, not, codes, Bytes,
  length, take, if◌then◌else◌, ◌==◌, ltb, leb, c_string, split_at, isspace, strcase_eq, contains,
  contains_case,
}
use modern_c_web_library.Http.{header_list_add}
use modern_c_web_library.Parser.{
  HttpParser, ParseState, body, chunk_size, complete, Progress, failed, waiting, advanced, fail,
  find_crlf, parser_consume, max_body_bytes, max_header_bytes, max_header_line_len,
  max_header_count,
}
use modern_c_web_library.Parser.Number.{strtoull}

-- The bytes without the white space at their end.
unfoldable pub trim_end : Bytes → Bytes
trim_end [] = []
trim_end (c ∷ s) = elim (trim_end s) [ [] ↦ if isspace c then [] else c ∷ [] | d ∷ t ↦ c ∷ d ∷ t ]

-- The bytes without the spaces and tabs at their start.
unfoldable pub skip_blanks : Bytes → Bytes
skip_blanks [] = []
skip_blanks (c ∷ s) = if c == b' ' || c == 9 then skip_blanks s else c ∷ s

-- *endptr == '\0'
abbrev at_end : Bytes → Bool
at_end [] = true
at_end (c ∷ s) = false

-- The Content-Length branch.
unfoldable pub set_content_length : HttpParser → Bytes → HttpParser × Progress
set_content_length p value = elim (strtoull 10 value) [
  | none ↦ fail p 400 "Invalid Content-Length header"
  | some (val, rest) ↦
      if at_end rest
      then if ltb max_body_bytes val
        then fail p 413 "Payload Too Large"
        else (record p { content_length = val }, advanced)
      else fail p 400 "Invalid Content-Length header"
]

-- What the parser itself takes from a header: the chain of `strcasecmp` tests.
unfoldable pub apply_header : HttpParser → Bytes → Bytes → HttpParser × Progress
apply_header p name value =
    if strcase_eq name (codes "content-length")
    then set_content_length p value
    else if strcase_eq name (codes "transfer-encoding")
    then if contains (codes "chunked") value
      then (record p { chunked = true; content_length = 0 }, advanced)
      else (p, advanced)
    else if strcase_eq name (codes "connection")
    then if contains_case (codes "close") value
      then (record p { keep_alive = false }, advanced)
      else if contains_case (codes "keep-alive") value
      then (record p { keep_alive = true }, advanced)
      else (p, advanced)
    else if strcase_eq name (codes "host")
    then (record p { seen_host = true }, advanced)
    else (p, advanced)

module _ (alloc : ℕ → Bool) where
  -- The header is entered in the request's list (Set-Cookie without replacement), then applied.
  -- Name and value are C strings from here on, so they end at a NUL.
  unfoldable pub store_header : HttpParser → Bytes → Bytes → HttpParser × Progress
  store_header p name value =
      let (list, ok) =
        header_list_add alloc p.req.headers name name value
          (not (strcase_eq name (codes "set-cookie"))) in
      let p' : HttpParser = record p { req = record (p.req) { headers = list } } in
      if ok then apply_header p' name value else fail p' 500 "Out of memory"

  -- `parse_header_line`; the result is `advanced` for 0 and `failed` for -1.
  unfoldable pub parse_header_line : HttpParser → Bytes → HttpParser × Progress
  parse_header_line p line = elim (split_at b':' line) [
    | none ↦ fail p 400 "Malformed header line"
    | some (before, after) ↦
        let name = trim_end before in
        let value = trim_end (skip_blanks after) in
        if length name == 0
        then fail p 400 "Empty header name"
        else if alloc (length name + 1) && alloc (length value + 1)
        then store_header p (c_string name) (c_string value)
        else fail p 500 "Out of memory"
  ]

  -- The branch of `parse_headers` for the empty line.
  unfoldable pub end_headers : HttpParser → HttpParser × Progress
  end_headers p =
      let p' = parser_consume p 2 in
      if p.keep_alive && not p.seen_host
      then fail p' 400 "Missing Host header"
      else (record p' { state = next }, advanced)
    where
      next : ParseState
      next = if p.chunked then chunk_size else if ltb 0 p.content_length then body else complete

  -- What is left of a round after `parse_header_line` has run.
  abbrev after_line : HttpParser × Progress → ℕ → HttpParser × Progress
  after_line (p, failed) crlf = (p, failed)
  after_line (p, _) crlf =
      (parser_consume (record p { header_count = p.header_count + 1 }) (crlf + 2), advanced)

  -- The branch of `parse_headers` for a line that is not empty.
  unfoldable pub header_round : HttpParser → ℕ → HttpParser × Progress
  header_round p crlf =
      if ltb max_header_line_len crlf
      then fail p 431 "Header line too long"
      else if leb max_header_count p.header_count
      then fail p 431 "Too many headers"
      else after_line (parse_header_line p (take crlf p.buffer)) crlf

  -- The loop of `parse_headers`, on fuel: `none` when the fuel runs out.
  unfoldable pub parse_headers : ℕ → HttpParser → Option (HttpParser × Progress)
  parse_headers zero p = none
  parse_headers (suc fuel) p = elim (find_crlf p.buffer) [
    | none ↦
        if ltb max_header_bytes (length p.buffer)
        then some (fail p 431 "Request Header Fields Too Large")
        else some (p, waiting)
    | some zero ↦ some (end_headers p)
    | some (suc i) ↦
        let (p', result) = header_round p (suc i) in
        elim result [
          | failed ↦ some (p', failed)
          | waiting ↦ some (p', waiting)
          | advanced ↦ parse_headers fuel p'
        ]
  ]
