-- ===== src/Server.antt =====
-- src/http_server.c, lines 524 to 542, 720 to 818 and 837 to 867: the text of a response, and how it is
-- sent on a blocking socket. `date` is what strftime gives for the time, none where gmtime_r fails.
pub mod Head
pub mod Serialize
pub mod Delivery
pub mod Async
pub mod Connection
pub mod Lifecycle
mod Tests
use modern_c_web_library.Base.{
  ℕ, zero, suc, ◌+◌, ◌*◌, ◌/◌, ◌%◌, ◌^◌, Bool, true, false, Option, none, some, List, [], ◌∷◌, ◌++◌,
  codes, Bytes, length, take, drop, if◌then◌else◌, ◌==◌, ltb, leb,
}
use modern_c_web_library.Http.{
  HeaderNode, HttpResponse, header_list_add, http_response_create, http_response_send_text,
}

-- `status_reason_phrase`
abbrev pub status_reason_phrase : ℕ → Bytes
status_reason_phrase status =
    if status == 101
    then codes "Switching Protocols"
    else if status == 200
    then codes "OK"
    else if status == 201
    then codes "Created"
    else if status == 202
    then codes "Accepted"
    else if status == 204
    then codes "No Content"
    else if status == 400
    then codes "Bad Request"
    else if status == 401
    then codes "Unauthorized"
    else if status == 403
    then codes "Forbidden"
    else if status == 404
    then codes "Not Found"
    else if status == 405
    then codes "Method Not Allowed"
    else if status == 500
    then codes "Internal Server Error"
    else if status == 501
    then codes "Not Implemented"
    else if status == 502
    then codes "Bad Gateway"
    else if status == 503
    then codes "Service Unavailable"
    else codes "OK"

-- `%d` and `%zu`: a number of 64 bits has at most 20 digits.
unfoldable pub decimal_before : ℕ → ℕ → Bytes → Bytes
decimal_before zero n digits = digits
decimal_before (suc places) n digits =
    let more = decimal_before places (n / 10) ((n % 10 + 48) ∷ digits) in
    if ltb n 10 then (n + 48) ∷ digits else more

abbrev pub decimal : ℕ → Bytes
decimal n = decimal_before 20 n []

-- `header_buf` up to `header_len` with `header_capacity`; -1; a text that has no room; or a loop
-- without end.
pub data Buffered : Type 0 where
  buffered : Bytes → ℕ → Buffered
  refused overflow endless : Buffered

infixl 5 ◌>>=◌
abbrev pub ◌>>=◌ : Buffered → (Bytes × ℕ → Buffered) → Buffered
buffered text cap >>= f = f (text, cap)
refused >>= f = refused
overflow >>= f = overflow
endless >>= f = endless

-- The loop `while (need >= new_cap) new_cap *= 2`.
unfoldable pub widen : ℕ → ℕ → ℕ → Option ℕ
widen zero need new_cap = if leb new_cap need then none else some new_cap
widen (suc fuel) need new_cap =
    let more = widen fuel need (new_cap * 2 % 2 ^ 64) in
    if leb new_cap need then more else some new_cap

-- snprintf behind the text; the NUL has its place too.
abbrev pub print_behind : Bytes → Bytes → ℕ → Buffered
print_behind s text cap =
    if ltb (length text + length s) cap then buffered (text ++ s) cap else overflow

abbrev pub status_line : ℕ → Bytes
status_line status =
    codes "HTTP/1.1 " ++ (decimal status ++ (b' ' ∷ (status_reason_phrase status ++ codes "\r\n")))

abbrev pub header_line : HeaderNode → Bytes
header_line node = node.raw_name ++ (b':' ∷ b' ' ∷ (node.value ++ codes "\r\n"))

-- `if (res->status == 0) res->status = HTTP_OK;`
abbrev pub status_of : HttpResponse → ℕ
status_of res = if res.status == 0 then 200 else res.status

module _ (alloc : ℕ → Bool) where
  -- The room for a line, in the loop over the headers.
  unfoldable pub ensure_header_capacity : ℕ → Bytes → ℕ → Buffered
  ensure_header_capacity need text cap =
      if leb cap need then widened (widen need need (cap * 2 % 2 ^ 64)) else buffered text cap
    where
      widened : Option ℕ → Buffered
      widened none = endless
      widened (some new_cap) = if alloc new_cap then buffered text new_cap else refused

  -- The loop over the headers.
  unfoldable pub write_headers : List HeaderNode → Bytes → ℕ → Buffered
  write_headers [] text cap = buffered text cap
  write_headers (node ∷ rest) text cap = do
    (text', cap') ←
        ensure_header_capacity
          ((length text + length node.raw_name + length node.value + 4) % 2 ^ 64) text cap
    (text'', cap'') ← print_behind (header_line node) text' cap'
    write_headers rest text'' cap''

  -- The empty line behind the headers.
  unfoldable pub end_header : Bytes → ℕ → Buffered
  end_header text cap =
      if leb cap (length text + 2)
      then if alloc (cap + 2) then copied (cap + 2) else refused
      else copied cap
    where
      copied : ℕ → Buffered
      copied cap' =
          if leb (length text + 2) cap' then buffered (text ++ codes "\r\n") cap' else overflow

  -- What `serialize_response` writes, once the headers are complete.
  unfoldable pub write_head : HttpResponse → Buffered
  write_head res =
      if alloc 256
      then print_behind (status_line res.status) [] 256
        >>= (λ out. write_headers res.headers out.0 out.1)
        >>= (λ out. end_header out.0 out.1)
      else refused

  -- A header that is set, unless one before it failed.
  abbrev pub also_header : HttpResponse × Bool → Bytes → Bytes → Bytes → HttpResponse × Bool
  also_header (res, true) name raw_name value =
      let (headers, ok) = header_list_add alloc res.headers name raw_name value true in
      (record res { headers = headers }, ok)
  also_header (res, false) name raw_name value = (res, false)

  -- The headers that `serialize_response` sets, and the status if there is none.
  unfoldable pub complete_headers : Option Bytes → HttpResponse → Bool → HttpResponse × Bool
  complete_headers date res keep_alive =
      let res' : HttpResponse = record res { status = status_of res } in
      let dated : HttpResponse × Bool = elim date [
        | none ↦ (res', true)
        | some d ↦ also_header (res', true) (codes "date") (codes "Date") d
      ] in
      let measured =
        also_header dated (codes "content-length") (codes "Content-Length")
          (decimal res.body_length) in
      if status_of res == 101
      then measured
      else also_header measured (codes "connection") (codes "Connection")
          (if keep_alive then codes "keep-alive" else codes "close")

  -- `serialize_response`
  unfoldable pub serialize_response : Option Bytes → HttpResponse → Bool → HttpResponse × Buffered
  serialize_response date res keep_alive =
      let (res', ok) = complete_headers date res keep_alive in
      (res', if ok then write_head res' else refused)

-- A result of send(2): bytes that are taken, EINTR, EAGAIN or another error.
pub data SendResult : Type 0 where
  accepted : ℕ → SendResult
  interrupted would_block send_failed : SendResult

-- What recv gives: bytes, the end of the stream, EINTR, EAGAIN or another error.
pub data RecvResult : Type 0 where
  recv_bytes : Bytes → RecvResult
  recv_end recv_interrupted recv_again recv_failed : RecvResult

-- `send_all`, over the results that send gives: those that are left, the bytes that were taken, and true
-- for 0, false for -1, none while it waits in send.
unfoldable pub send_all : List SendResult → Bytes → List SendResult × Bytes × Option Bool
send_all results [] = (results, [], some true)
send_all [] (c ∷ buf) = ([], [], none)
send_all (accepted n ∷ results) (c ∷ buf) =
    let (left, taken, done) = send_all results (drop n (c ∷ buf)) in
    (left, take n (c ∷ buf) ++ taken, done)
send_all (interrupted ∷ results) (c ∷ buf) = send_all results (c ∷ buf)
send_all (would_block ∷ results) (c ∷ buf) = (results, [], some false)
send_all (send_failed ∷ results) (c ∷ buf) = (results, [], some false)

-- What a function that sends does: it returns, with the response, what send still gives, and the bytes
-- that were taken; it waits in send; the text of the head had no room; or the loop that widens the room
-- does not end.
pub data Sent : Type 0 where
  sent_to : HttpResponse → List SendResult → Bytes → Sent
  waits : Bytes → Sent
  fault : Sent
  spins : Sent

abbrev pub sizeof_http_response : ℕ
sizeof_http_response = 40

-- The body behind the head, `body_length` bytes of it.
unfoldable pub send_body : HttpResponse → List SendResult → Bytes → Sent
send_body res results head =
    let done : HttpResponse = record res { sent = true } in
    elim res.body [
      | none ↦ sent_to done results head
      | some body ↦
          let (left, taken, returned) = send_all results (take res.body_length body) in
          let answer : Sent = elim returned [
            | none ↦ waits (head ++ taken)
            | some _ ↦ sent_to done left (head ++ taken)
          ] in
          if ltb 0 res.body_length then answer else sent_to done results head
    ]

-- The body follows where the head was sent.
abbrev pub behind_head : HttpResponse → List SendResult × Bytes × Option Bool → Sent
behind_head res (left, taken, none) = waits taken
behind_head res (left, taken, some ok) =
    if ok then send_body res left taken else sent_to (record res { sent = true }) left taken

-- The two calls of `send_all` in `send_response`.
unfoldable pub send_parts : HttpResponse → List SendResult → Bytes → Sent
send_parts res results head = behind_head res (send_all results head)

-- `send_response` behind its call of `serialize_response`.
abbrev pub send_serialized : List SendResult → HttpResponse × Buffered → Sent
send_serialized results (res, buffered head _) = send_parts res results head
send_serialized results (res, refused) = sent_to res results []
send_serialized results (res, overflow) = fault
send_serialized results (res, endless) = spins

module _ (alloc : ℕ → Bool) (date : Option Bytes) where
  -- `send_response`
  unfoldable pub send_response : List SendResult → HttpResponse → Bool → Sent
  send_response results res keep_alive =
      if res.sent
      then sent_to res results []
      else send_serialized results (serialize_response alloc date res keep_alive)

  -- `send_error_response`
  unfoldable pub send_error_response : List SendResult → ℕ → Option Bytes → Sent
  send_error_response results status message =
      let body : Bytes = elim message [ none ↦ [] | some text ↦ text ] in
      if alloc sizeof_http_response
      then send_response results (http_response_send_text alloc http_response_create status body)
          false
      else sent_to http_response_create results []
