-- ===== src/Parser/Valid/RequestLine.antt =====
-- src/http_server.c: `parse_request_line` keeps the invariant.
use modern_c_web_library.Base.{
  ℕ, ◌+◌, ◌≡◌, inl, inr, Bool, true, false, some, arith, Bytes, take, length-drop, Option-cases,
  split_at, skip_spaces, c_string,
}
use modern_c_web_library.Parser.{
  assign_http_method, HttpParser, request_line, fail, parser_set_error, find_crlf,
}
use modern_c_web_library.Parser.Buffer.{parser_consume_lem}
use modern_c_web_library.Parser.RequestLine.{
  finish_line, set_path, set_target, set_request, split_line, parse_request_line,
}
use modern_c_web_library.Parser.Valid.{IsValid}

module _ (alloc : ℕ → Bool) where
  finish_line-IsValid :
      (p : HttpParser) (crlf : ℕ) (version : Bytes)
      → IsValid p
      → p.state ≡ request_line
      → IsValid (finish_line alloc p crlf version).0
  unfolding finish_line fail parser_set_error
  finish_line-IsValid p crlf version v s = ground (
    arith,
    parser_consume_lem (record p { keep_alive = true }) (crlf + 2),
    parser_consume_lem (record p { keep_alive = false }) (crlf + 2),
    length-drop (crlf + 2) p.buffer,
  )

  set_path-IsValid :
      (p : HttpParser) (crlf : ℕ) (path version : Bytes)
      → IsValid p
      → p.state ≡ request_line
      → IsValid (set_path alloc p crlf path version).0
  unfolding set_path fail parser_set_error
  set_path-IsValid p crlf path version v s = ground (
    arith,
    finish_line-IsValid (record p { req = record (p.req) { path = some path } }) crlf version,
  )

  set_target-IsValid :
      (p : HttpParser) (crlf : ℕ) (target version : Bytes)
      → IsValid p
      → p.state ≡ request_line
      → IsValid (set_target alloc p crlf target version).0
  unfolding set_target fail parser_set_error
  set_target-IsValid p crlf target version v s = elim (Option-cases (split_at b'?' target)) [
    | inl e ↦ ground (arith, e, set_path-IsValid p crlf target version v s)
    | inr ((path, query), e) ↦ ground (
      arith,
      e,
      set_path-IsValid (record p { req = record (p.req) { query_string = some query } }) crlf path
          version,
    )
  ]

  set_request-IsValid :
      (p : HttpParser) (crlf : ℕ) (method target version : Bytes)
      → IsValid p
      → p.state ≡ request_line
      → IsValid (set_request alloc p crlf method target version).0
  unfolding set_request fail parser_set_error
  set_request-IsValid p crlf method target version v s =
      elim (Option-cases (assign_http_method method)) [
        | inl e ↦ ground (arith, e)
        | inr (m, e) ↦ ground (
          arith,
          e,
          set_target-IsValid (record p { req = record (p.req) { method = m } }) crlf target version,
        )
      ]

  split_line-IsValid :
      (p : HttpParser) (crlf : ℕ) (line : Bytes)
      → IsValid p
      → p.state ≡ request_line
      → IsValid (split_line alloc p crlf line).0
  unfolding split_line fail parser_set_error
  split_line-IsValid p crlf line v s = elim (Option-cases (split_at b' ' line)) [
    | inl e ↦ ground (arith, e)
    | inr ((method, rest), e) ↦ elim (Option-cases (split_at b' ' (skip_spaces rest))) [
      | inl e' ↦ ground (arith, e, e')
      | inr ((target, rest'), e') ↦
          ground (arith, e, e', set_request-IsValid p crlf method target (skip_spaces rest') v s)
    ]
  ]

  pub parse_request_line-IsValid :
      (p : HttpParser) → IsValid p → p.state ≡ request_line → IsValid (parse_request_line alloc p).0
  unfolding parse_request_line fail parser_set_error
  parse_request_line-IsValid p v s = elim (Option-cases (find_crlf p.buffer)) [
    | inl e ↦ ground (arith, e)
    | inr (i, e) ↦ ground (arith, e, split_line-IsValid p i (c_string (take i p.buffer)) v s)
  ]
