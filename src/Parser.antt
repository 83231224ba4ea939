-- ===== src/Parser.antt =====
-- src/http_server.c, lines 17 to 74 and 917 to 996: the state of the request parser and the
-- functions that its states share. The received bytes are a list, so `buffer_len` is its length;
-- `buffer_cap` and `body_capacity` are the sizes allocated. `alloc n` says whether the allocator
-- grants a request for `n` bytes.
pub mod Buffer
pub mod Valid
pub mod Number
pub mod RequestLine
pub mod Headers
pub mod Body
pub mod Execute
use modern_c_web_library.Base.{
  ℕ, zero, suc, ◌+◌, ◌*◌, Bool, true, false, Option, none, some, List, [], ◌∷◌, ◌&&◌, codes, Bytes,
  length, drop, if◌then◌else◌, ◌==◌, ltb, leb, str_eq, size_add, String,
}
use modern_c_web_library.Http.{
  HttpMethod, http_get, http_post, http_put, http_delete, http_patch, http_head, http_options,
  HttpRequest,
}

abbrev pub read_buffer_size : ℕ
read_buffer_size = 8192

abbrev pub max_request_line_len : ℕ
max_request_line_len = 4096

abbrev pub max_header_line_len : ℕ
max_header_line_len = 8192

abbrev pub max_header_count : ℕ
max_header_count = 100

abbrev pub max_header_bytes : ℕ
max_header_bytes = 16384

abbrev pub max_body_bytes : ℕ
max_body_bytes = 1048576

-- MAX_BODY_BYTES + MAX_HEADER_BYTES
abbrev pub max_request_buffer : ℕ
max_request_buffer = 1064960

-- `parse_state_t`
pub data ParseState : Type 0 where
  request_line headers body chunk_size chunk_data chunk_crlf chunk_trailers complete error :
      ParseState

-- `parser_result_t`
pub data ParserResult : Type 0 where
  parser_incomplete parser_complete parser_error : ParserResult

-- The results -1, 0 and 1 of the functions for one state.
pub data Progress : Type 0 where
  failed waiting advanced : Progress

-- `http_parser_t`; the request that `req` points to is a field.
pub record HttpParser : Type 0 where
  pub state : ParseState
  pub req : HttpRequest
  pub buffer : Bytes
  pub buffer_cap : ℕ
  pub total_bytes : ℕ
  pub header_count : ℕ
  pub content_length : ℕ
  pub body_received : ℕ
  pub body_capacity : ℕ
  pub chunked : Bool
  pub current_chunk_size : ℕ
  pub current_chunk_received : ℕ
  pub keep_alive : Bool
  pub seen_host : Bool
  pub error_status : ℕ
  pub error_message : Option Bytes

-- `parser_set_error`
unfoldable pub parser_set_error : HttpParser → ℕ → Bytes → HttpParser
parser_set_error p status message = record p {
  state = error;
  error_status = status;
  error_message = some message;
}

-- The two statements `parser_set_error(…); return -1;`.
unfoldable pub fail : HttpParser → ℕ → String → HttpParser × Progress
fail p status message = (parser_set_error p status (codes message), failed)

-- The loop `while (new_cap < required) { new_cap *= 2; if (new_cap > limit) { new_cap = limit;
-- break; } }`, on fuel; what a `let` binds waits.
unfoldable pub grow_cap : ℕ → ℕ → ℕ → ℕ → ℕ
grow_cap zero limit required cap = cap
grow_cap (suc fuel) limit required cap =
    let more = grow_cap fuel limit required (cap * 2) in
    if ltb cap required then (if ltb limit (cap * 2) then limit else more) else cap

-- A capacity of 0 starts the loop at READ_BUFFER_SIZE.
abbrev pub start_cap : ℕ → ℕ
start_cap cap = if cap == 0 then read_buffer_size else cap

-- `ensure_buffer_capacity`; the Boolean is true for 0 and false for -1. As many rounds as
-- `required` are always enough for the loop, since each at least adds 1 to the capacity.
unfoldable pub ensure_buffer_capacity : (ℕ → Bool) → HttpParser → ℕ → HttpParser × Bool
ensure_buffer_capacity alloc p additional =
    if ltb max_request_buffer required
    then (parser_set_error p 413 (codes "Payload Too Large"), false)
    else if leb required p.buffer_cap
    then (p, true)
    else if alloc new_cap
    then (record p { buffer_cap = new_cap }, true)
    else (parser_set_error p 500 (codes "Out of memory"), false)
  where
    required : ℕ
    required = size_add (length p.buffer) additional

    new_cap : ℕ
    new_cap = grow_cap required max_request_buffer required (start_cap p.buffer_cap)

-- `find_crlf`
unfoldable pub find_crlf : Bytes → Option ℕ
find_crlf [] = none
find_crlf (c ∷ []) = none
find_crlf (c ∷ d ∷ s) =
    let later = find_crlf (d ∷ s) in
    if c == 13 && d == 10 then some 0 else elim later [ none ↦ none | some i ↦ some (suc i) ]

-- `parser_consume`
unfoldable pub parser_consume : HttpParser → ℕ → HttpParser
parser_consume p count =
    if count == 0
    then p
    else if leb (length p.buffer) count
    then record p { buffer = [] }
    else record p { buffer = drop count p.buffer }

-- The table of `assign_http_method`, searched in order; `none` for the result false.
unfoldable pub assign_http_method : Bytes → Option HttpMethod
assign_http_method method =
    if str_eq (codes "GET") method
    then some http_get
    else if str_eq (codes "POST") method
    then some http_post
    else if str_eq (codes "PUT") method
    then some http_put
    else if str_eq (codes "DELETE") method
    then some http_delete
    else if str_eq (codes "PATCH") method
    then some http_patch
    else if str_eq (codes "HEAD") method
    then some http_head
    else if str_eq (codes "OPTIONS") method
    then some http_options
    else none
