-- ===== src/Parser/RequestLine.antt =====
-- src/http_server.c, `parse_request_line`.
use modern_c_web_library.Base.{
  ℕ, ◌+◌, Bool, true, false, none, some, [], ◌∷◌, codes, Bytes, length, take, if◌then◌else◌, ◌==◌,
  ltb, str_eq, c_string, split_at, skip_spaces,
}
use modern_c_web_library.Parser.{
  HttpParser, headers, Progress, waiting, advanced, fail, find_crlf, parser_consume,
  assign_http_method, max_request_line_len,
}

-- target[0] == '/'
abbrev pub is_rooted : Bytes → Bool
is_rooted [] = false
is_rooted (c ∷ s) = c == b'/'

module _ (alloc : ℕ → Bool) where
  -- The end of the function: the version, then the line is consumed.
  unfoldable pub finish_line : HttpParser → ℕ → Bytes → HttpParser × Progress
  finish_line p crlf version =
      if str_eq version (codes "HTTP/1.1")
      then (
        record (parser_consume (record p { keep_alive = true }) (crlf + 2)) { state = headers },
        advanced,
      )
      else if str_eq version (codes "HTTP/1.0")
      then (
        record (parser_consume (record p { keep_alive = false }) (crlf + 2)) { state = headers },
        advanced,
      )
      else fail p 400 "Unsupported HTTP version"

  -- The path is copied, then the version is looked at.
  unfoldable pub set_path : HttpParser → ℕ → Bytes → Bytes → HttpParser × Progress
  set_path p crlf path version =
      if alloc (length path + 1)
      then finish_line (record p { req = record (p.req) { path = some path } }) crlf version
      else fail (record p { req = record (p.req) { path = none } }) 500 "Out of memory"

  -- The query, if there is one, is split off the target and copied.
  unfoldable pub set_target : HttpParser → ℕ → Bytes → Bytes → HttpParser × Progress
  set_target p crlf target version = elim (split_at b'?' target) [
    | none ↦ set_path p crlf target version
    | some (path, query) ↦
        if alloc (length query + 1)
        then set_path (record p { req = record (p.req) { query_string = some query } }) crlf path
            version
        else fail (record p { req = record (p.req) { query_string = none } }) 500 "Out of memory"
  ]

  -- The tests on method and target.
  unfoldable pub set_request : HttpParser → ℕ → Bytes → Bytes → Bytes → HttpParser × Progress
  set_request p crlf method target version = elim (assign_http_method method) [
    | none ↦ fail p 501 "Unsupported HTTP method"
    | some m ↦
        let p' : HttpParser = record p { req = record (p.req) { method = m } } in
        if is_rooted target
        then if ltb max_request_line_len (length target)
          then fail p' 414 "Request-URI Too Long"
          else set_target p' crlf target version
        else fail p' 400 "Invalid request target"
  ]

  -- The line is cut at its spaces: the method up to the first, the target up to the next one
  -- behind it, and the rest is the version.
  unfoldable pub split_line : HttpParser → ℕ → Bytes → HttpParser × Progress
  split_line p crlf line = elim (split_at b' ' line) [
    | none ↦ fail p 400 "Malformed request line"
    | some (method, rest) ↦ elim (split_at b' ' (skip_spaces rest)) [
      | none ↦ fail p 400 "Malformed request line"
      | some (target, rest') ↦ set_request p crlf method target (skip_spaces rest')
    ]
  ]

  -- `parse_request_line`; the line is read as a C string, so up to a NUL.
  unfoldable pub parse_request_line : HttpParser → HttpParser × Progress
  parse_request_line p = elim (find_crlf p.buffer) [
    | none ↦ (p, waiting)
    | some crlf ↦
        if ltb max_request_line_len crlf
        then fail p 414 "Request-URI Too Long"
        else if alloc (crlf + 1)
        then split_line p crlf (c_string (take crlf p.buffer))
        else fail p 500 "Out of memory"
  ]
