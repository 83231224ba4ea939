-- ===== src/Parser/Execute/Tests.antt =====
-- Runs of the parser of src/http_server.c, and its theorems at concrete requests.
use modern_c_web_library.Base.{
  ℕ, ◌≡◌, refl, ◌≤◌, Bool, true, false, Option, none, some, [], ◌∷◌, ◌++◌, codes, Bytes, length,
  arith, str_eq, strcase_eq, contains, contains_case, has_prefix, split_at, skip_spaces, c_string,
}
use modern_c_web_library.Http.{
  http_request_create, header_list_add, header_list_find, header_list_replace,
}
use modern_c_web_library.Parser.{
  HttpParser, ParserResult, parser_complete, parser_incomplete, parser_error, parser_set_error,
  fail, grow_cap, ensure_buffer_capacity, find_crlf, parser_consume, assign_http_method,
  max_body_bytes, complete,
}
use modern_c_web_library.Parser.Number.{digits, strtoull}
use modern_c_web_library.Parser.RequestLine.{
  finish_line, set_path, set_target, set_request, split_line, parse_request_line,
}
use modern_c_web_library.Parser.Headers.{
  trim_end, skip_blanks, set_content_length, apply_header, store_header, parse_header_line,
  end_headers, header_round, parse_headers,
}
use modern_c_web_library.Parser.Body.{
  copy_body, append_body_data, parse_chunk_size, chunk_copied, parse_chunk_data, parse_chunk_crlf,
  parse_chunk_trailers,
}
use modern_c_web_library.Parser.Valid.{IsValid}
use modern_c_web_library.Parser.Execute.{
  body_copied, body_round, execute_round, execute_loop, execute_received, http_parser_execute,
  http_parser_init, http_parser_reset,
}
use modern_c_web_library.Parser.Execute.Bounds.{
  IsFresh, http_parser_execute-IsValid, http_parser_init-IsValid,
}
use modern_c_web_library.Parser.Execute.Outcome.{
  http_parser_execute_returns, complete_request, Agrees,
}

abbrev always : ℕ → Bool
always n = true

abbrev crlf : Bytes
crlf = 13 ∷ 10 ∷ []

-- The parser that `http_parser_init` gives.
abbrev fresh : HttpParser
fresh = http_parser_init always http_request_create

-- A request with a body of three bytes, followed by the beginning of the next.
abbrev post : Bytes
post =
    codes "POST /a?q=1 HTTP/1.1"
    ++ crlf
    ++ codes "Host: x"
    ++ crlf
    ++ codes "Content-Length: 3"
    ++ crlf
    ++ crlf
    ++ codes "abcGET"

-- A request in the chunked coding.
abbrev chunks : Bytes
chunks =
    codes "POST / HTTP/1.1"
    ++ crlf
    ++ codes "host:x"
    ++ crlf
    ++ codes "Transfer-Encoding: chunked"
    ++ crlf
    ++ crlf
    ++ codes "3;x=1"
    ++ crlf
    ++ codes "abc"
    ++ crlf
    ++ codes "0a"
    ++ crlf
    ++ codes "0123456789"
    ++ crlf
    ++ codes "0"
    ++ crlf
    ++ crlf

-- Body, path, query, what is left in the buffer, and the result.
abbrev summary :
    Option (HttpParser × ParserResult)
    → Option (Bytes × Option Bytes × Option Bytes × Bytes × ParserResult)
summary none = none
summary (some (p, r)) = some (p.req.body, p.req.path, p.req.query_string, p.buffer, r)

-- The status of a request that is refused.
abbrev refused : Option (HttpParser × ParserResult) → Option ℕ
refused (some (p, parser_error)) = some p.error_status
refused _ = none

-- What a run computes with.
runs : Unit {0}
unfolding str_eq strcase_eq contains contains_case has_prefix split_at skip_spaces c_string
    http_request_create header_list_add header_list_find header_list_replace parser_set_error fail
    grow_cap ensure_buffer_capacity find_crlf parser_consume assign_http_method digits strtoull
    finish_line set_path set_target set_request split_line parse_request_line trim_end skip_blanks
    set_content_length apply_header store_header parse_header_line end_headers header_round
    parse_headers copy_body append_body_data parse_chunk_size chunk_copied parse_chunk_data
    parse_chunk_crlf parse_chunk_trailers body_copied body_round execute_round execute_loop
    execute_received http_parser_execute http_parser_init http_parser_reset
runs = tt

reads_post :
    summary (http_parser_execute always fresh post)
    ≡ some (codes "abc", some (codes "/a"), some (codes "q=1"), codes "GET", parser_complete)
unfolding runs
reads_post = refl

reads_chunks :
    summary (http_parser_execute always fresh chunks)
    ≡ some (codes "abc0123456789", some (codes "/"), none, [], parser_complete)
unfolding runs
reads_chunks = refl

abbrev get_without_host : Bytes
get_without_host = codes "GET / HTTP/1.1" ++ crlf ++ crlf

refuses_without_host : refused (http_parser_execute always fresh get_without_host) ≡ some 400
unfolding runs
refuses_without_host = refl

refuses_version :
    refused (http_parser_execute always fresh (codes "GET / HTTP/2.0" ++ crlf)) ≡ some 400
unfolding runs
refuses_version = refl

waits_for_more :
    summary (http_parser_execute always fresh (codes "GET / HT"))
    ≡ some ([], none, none, codes "GET / HT", parser_incomplete)
unfolding runs
waits_for_more = refl

created-IsFresh : IsFresh http_request_create
unfolding http_request_create
created-IsFresh = (refl, refl)

fresh-IsValid : IsValid fresh
fresh-IsValid = http_parser_init-IsValid always http_request_create created-IsFresh

-- A run's parser.
abbrev parser_of : Option (HttpParser × ParserResult) → HttpParser
parser_of none = fresh
parser_of (some (p, r)) = p

abbrev after_post : HttpParser
after_post = parser_of (http_parser_execute always fresh post)

completes_post : http_parser_execute always fresh post ≡ some (after_post, parser_complete)
unfolding runs
completes_post = refl

http_parser_execute-IsValid_example : IsValid after_post
http_parser_execute-IsValid_example =
    http_parser_execute-IsValid always fresh post {out = (after_post, parser_complete)}
      fresh-IsValid (omega arith) completes_post

http_parser_execute_returns_example :
    (p' : HttpParser) × (result : ParserResult) × (http_parser_execute always fresh post
      ≡ some (p', result))
    × Agrees result p'.state
http_parser_execute_returns_example = http_parser_execute_returns always fresh post

complete_request_example :
    (after_post.state ≡ complete)
    × (length after_post.req.body ≡ after_post.req.body_length)
    × (after_post.req.body_length ≤ max_body_bytes)
    × (after_post.chunked ≡ false → after_post.req.body_length ≡ after_post.content_length)
    × (after_post.keep_alive ≡ true → after_post.seen_host ≡ true)
complete_request_example =
    complete_request always fresh after_post post fresh-IsValid (omega arith) completes_post
