-- ===== src/Parser/Valid/Headers.antt =====
-- src/http_server.c: `parse_header_line` and `parse_headers` keep the invariant.
use modern_c_web_library.Base.{
  ℕ, zero, suc, ◌+◌, ◌≡◌, inl, inr, Bool, some, arith, Bytes, drop, take, length-drop, Option-cases,
  not, ◌≢◌, codes, strcase_eq, split_at, c_string,
}
use modern_c_web_library.Http.{header_list_add}
use modern_c_web_library.Parser.{
  HttpParser, headers, error, Progress, failed, waiting, advanced, fail, parser_set_error,
  find_crlf,
}
use modern_c_web_library.Parser.Buffer.{parser_consume_lem}
use modern_c_web_library.Parser.Number.{strtoull}
use modern_c_web_library.Parser.Headers.{
  set_content_length, apply_header, trim_end, skip_blanks, store_header, parse_header_line,
  end_headers, header_round, parse_headers,
}
use modern_c_web_library.Parser.Valid.{IsValid}

-- What `parse_header_line` and its parts leave alone when they succeed, and that they set the
-- error state when they fail.
pub record Kept (p : HttpParser) (out : HttpParser × Progress) : Type 0 where
  pub sets_error : out.1 ≡ failed → out.0.state ≡ error
  pub never_waits : out.1 ≢ waiting
  pub same_state : out.1 ≡ advanced → out.0.state ≡ p.state
  pub same_buffer : out.1 ≡ advanced → out.0.buffer ≡ p.buffer
  pub same_count : out.1 ≡ advanced → out.0.header_count ≡ p.header_count

set_content_length-Kept : (p : HttpParser) (value : Bytes) → Kept p (set_content_length p value)
unfolding set_content_length fail parser_set_error
set_content_length-Kept p value = elim (Option-cases (strtoull 10 value)) [
  | inl e ↦ ground (arith, e)
  | inr ((val, rest), e) ↦ ground (arith, e)
]

apply_header-Kept : (p : HttpParser) (name value : Bytes) → Kept p (apply_header p name value)
unfolding apply_header
apply_header-Kept p name value = ground (arith, set_content_length-Kept p value)

store_header-Kept :
    (alloc : ℕ → Bool) (p : HttpParser) (name value : Bytes)
    → Kept p (store_header alloc p name value)
unfolding store_header fail parser_set_error
store_header-Kept alloc p name value =
    let list =
      (header_list_add alloc p.req.headers name name value
        (not (strcase_eq name (codes "set-cookie")))).0 in
    ground
      (arith, apply_header-Kept (record p { req = record (p.req) { headers = list } }) name value)

parse_header_line-Kept :
    (alloc : ℕ → Bool) (p : HttpParser) (line : Bytes) → Kept p (parse_header_line alloc p line)
unfolding parse_header_line fail parser_set_error
parse_header_line-Kept alloc p line = elim (Option-cases (split_at b':' line)) [
  | inl e ↦ ground (arith, e)
  | inr ((before, after), e) ↦ ground (
    arith,
    e,
    store_header-Kept alloc p (c_string (trim_end before))
        (c_string (trim_end (skip_blanks after))),
  )
]

-- A round that goes on has taken the line and its CR LF from the buffer.
pub header_round_advances :
    (alloc : ℕ → Bool) (p : HttpParser) (crlf : ℕ)
    → (header_round alloc p crlf).1 ≡ advanced
    → ((header_round alloc p crlf).0.state ≡ p.state)
      × ((header_round alloc p crlf).0.buffer ≡ drop (crlf + 2) p.buffer)
unfolding header_round fail parser_set_error
header_round_advances alloc p crlf h =
    let out = parse_header_line alloc p (take crlf p.buffer) in
    ground (
      arith,
      parse_header_line-Kept alloc p (take crlf p.buffer),
      parser_consume_lem (record (out.0) { header_count = out.0.header_count + 1 }) (crlf + 2),
    )

-- A round that does not go on has failed, and set the error state.
pub header_round_fails :
    (alloc : ℕ → Bool) (p : HttpParser) (crlf : ℕ)
    → (header_round alloc p crlf).1 ≢ advanced
    → ((header_round alloc p crlf).1 ≡ failed) × ((header_round alloc p crlf).0.state ≡ error)
unfolding header_round fail parser_set_error
header_round_fails alloc p crlf h =
    ground (arith, parse_header_line-Kept alloc p (take crlf p.buffer))

set_content_length-IsValid :
    (p : HttpParser) (value : Bytes)
    → IsValid p
    → p.state ≡ headers
    → IsValid (set_content_length p value).0
unfolding set_content_length fail parser_set_error
set_content_length-IsValid p value v s = elim (Option-cases (strtoull 10 value)) [
  | inl e ↦ ground (arith, e)
  | inr ((val, rest), e) ↦ ground (arith, e)
]

apply_header-IsValid :
    (p : HttpParser) (name value : Bytes)
    → IsValid p
    → p.state ≡ headers
    → IsValid (apply_header p name value).0
unfolding apply_header
apply_header-IsValid p name value v s = ground (arith, set_content_length-IsValid p value v s)

module _ (alloc : ℕ → Bool) where
  store_header-IsValid :
      (p : HttpParser) (name value : Bytes)
      → IsValid p
      → p.state ≡ headers
      → IsValid (store_header alloc p name value).0
  unfolding store_header fail parser_set_error
  store_header-IsValid p name value v s =
      let list =
        (header_list_add alloc p.req.headers name name value
          (not (strcase_eq name (codes "set-cookie")))).0 in
      ground (
        arith,
        apply_header-IsValid (record p { req = record (p.req) { headers = list } }) name value,
      )

  parse_header_line-IsValid :
      (p : HttpParser) (line : Bytes)
      → IsValid p
      → p.state ≡ headers
      → IsValid (parse_header_line alloc p line).0
  unfolding parse_header_line fail parser_set_error
  parse_header_line-IsValid p line v s = elim (Option-cases (split_at b':' line)) [
    | inl e ↦ ground (arith, e)
    | inr ((before, after), e) ↦ ground (
      arith,
      e,
      store_header-IsValid p (c_string (trim_end before)) (c_string (trim_end (skip_blanks after)))
          v s,
    )
  ]

  end_headers-IsValid :
      (p : HttpParser) → IsValid p → p.state ≡ headers → IsValid (end_headers alloc p).0
  unfolding end_headers fail parser_set_error
  end_headers-IsValid p v s = ground (arith, parser_consume_lem p 2, length-drop 2 p.buffer)

  header_round-IsValid :
      (p : HttpParser) (crlf : ℕ)
      → IsValid p
      → p.state ≡ headers
      → IsValid (header_round alloc p crlf).0
  unfolding header_round fail parser_set_error
  header_round-IsValid p crlf v s =
      let out = parse_header_line alloc p (take crlf p.buffer) in
      ground (
        arith,
        parse_header_line-Kept alloc p (take crlf p.buffer),
        parse_header_line-IsValid p (take crlf p.buffer) v s,
        parser_consume_lem (record (out.0) { header_count = out.0.header_count + 1 }) (crlf + 2),
        length-drop (crlf + 2) out.0.buffer,
      )

  -- The loop keeps the invariant, whatever fuel it has.
  pub parse_headers-IsValid :
      (fuel : ℕ) (p : HttpParser) {out : HttpParser × Progress}
      → IsValid p
      → p.state ≡ headers
      → parse_headers alloc fuel p ≡ some out
      → IsValid out.0
  unfolding parse_headers fail parser_set_error
  parse_headers-IsValid zero p v s h = ground arith
  parse_headers-IsValid (suc fuel) p {out} v s h = elim (Option-cases (find_crlf p.buffer)) [
    | inl e ↦ ground (arith, e)
    | inr (zero, e) ↦ ground (arith, e, end_headers-IsValid p v s)
    | inr (suc i, e) ↦ ground (
      arith,
      e,
      header_round-IsValid p (suc i) v s,
      header_round_advances alloc p (suc i),
      parse_headers-IsValid fuel (header_round alloc p (suc i)).0 {out = out},
    )
  ]
