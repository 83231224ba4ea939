-- ===== src/Server/Serialize.antt =====
-- src/http_server.c: `serialize_response`, with the headers that it sets.
use modern_c_web_library.Base.{
  ℕ, ◌+◌, ◌^◌, ◌≤◌, ◌<◌, ◌≡◌, refl, ap, ◌∙◌, Bool, true, false, Option, none, some, [], codes,
  Bytes, length, if◌then◌else◌, ◌==◌, not, ◌&&◌, map, tolower, str_eq, arith,
}
use modern_c_web_library.Http.{HttpResponse}
use modern_c_web_library.Http.Lists.{
  Granted, header_value, header_value-add, header_list_add_succeeds,
}
use modern_c_web_library.Server.{
  decimal, buffered, refused, write_head, also_header, complete_headers, status_of,
  serialize_response,
}
use modern_c_web_library.Server.Head.{header_lines, head_text, write_head-Holds}

-- The value of a header behind `serialize_response`.
abbrev pub dated_header : Option Bytes → HttpResponse → Bytes → Option Bytes
dated_header none res name = header_value res.headers name
dated_header (some d) res name =
    if str_eq (codes "date") name then some d else header_value res.headers name

abbrev pub completed_header : Option Bytes → HttpResponse → Bool → Bytes → Option Bytes
completed_header date res keep_alive name =
    if not (status_of res == 101) && str_eq (codes "connection") name
    then some (if keep_alive then codes "keep-alive" else codes "close")
    else if str_eq (codes "content-length") name
    then some (decimal res.body_length)
    else dated_header date res name

module _ (alloc : ℕ → Bool) (granted : Granted alloc) where
  also_header_lem :
      (r : HttpResponse × Bool) (name raw_name value j : Bytes)
      → r.1 ≡ true
      → let r' = also_header alloc r name raw_name value in
        (r'.1 ≡ true)
        × (r'.0.status ≡ r.0.status)
        × (header_value r'.0.headers j
            ≡ (if str_eq (map tolower name) j then some value else header_value r.0.headers j))
  also_header_lem (res, true) name raw_name value j e = (
    header_list_add_succeeds alloc res.headers name raw_name value granted,
    refl,
    header_value-add alloc res.headers name raw_name value granted j,
  )
  also_header_lem (res, false) name raw_name value j e = ground (arith, e)

  -- The header Connection, behind others.
  connection_lem :
      (keep_alive upgraded : Bool) (r : HttpResponse × Bool) (j : Bytes) (status : ℕ)
      (old : Option Bytes)
      → (r.1 ≡ true) × (r.0.status ≡ status) × (header_value r.0.headers j ≡ old)
      → let value = if keep_alive then codes "keep-alive" else codes "close" in
        let r' =
          if upgraded
          then r
          else also_header alloc r (codes "connection") (codes "Connection") value in
        (r'.1 ≡ true)
        × (r'.0.status ≡ status)
        × (header_value r'.0.headers j
            ≡ (if not upgraded && str_eq (codes "connection") j then some value else old))
  connection_lem keep_alive true r j status old (e₁, e₂, e₃) = (e₁, e₂, e₃)
  connection_lem keep_alive false r j status old (e₁, e₂, e₃) =
      let value = if keep_alive then codes "keep-alive" else codes "close" in
      let (f₁, f₂, f₃) = also_header_lem r (codes "connection") (codes "Connection") value j e₁ in
      (f₁, f₂ ∙ e₂, f₃ ∙ ap (λ o. if str_eq (codes "connection") j then some value else o) e₃)

  complete_headers_lem :
      (date : Option Bytes) (res : HttpResponse) (keep_alive : Bool) (j : Bytes)
      → let r = complete_headers alloc date res keep_alive in
        (r.1 ≡ true)
        × (r.0.status ≡ (if res.status == 0 then 200 else res.status))
        × (header_value r.0.headers j ≡ completed_header date res keep_alive j)
  unfolding complete_headers
  complete_headers_lem none res keep_alive j =
      connection_lem keep_alive (status_of res == 101) _ j _ _ (
        also_header_lem (record res { status = status_of res }, true) (codes "content-length")
          (codes "Content-Length") (decimal res.body_length) j refl)
  complete_headers_lem (some d) res keep_alive j =
      let (e₁, e₂, e₃) =
        also_header_lem (record res { status = status_of res }, true) (codes "date") (codes "Date")
          d j refl in
      let (f₁, f₂, f₃) =
        also_header_lem _ (codes "content-length") (codes "Content-Length")
          (decimal res.body_length) j e₁ in
      connection_lem keep_alive (status_of res == 101) _ j _ _ (
        f₁,
        f₂ ∙ e₂,
        f₃
            ∙ ap
                (λ o.
                  if str_eq (codes "content-length") j then some (decimal res.body_length) else o)
                e₃,
      )

  -- When memory is granted and the headers are shorter than 2^62 - 53, `serialize_response` succeeds: it
  -- writes the status line, a line for each header and an empty line, without anything cut; the status is
  -- 200 where none was set, and the headers Date (where the time is known), Content-Length and, but for
  -- status 101, Connection have the values of this response, and all others what they had.
  pub serialize_response_lem :
      (date : Option Bytes) (res : HttpResponse) (keep_alive : Bool)
      → length (header_lines (complete_headers alloc date res keep_alive).0.headers) + 53 < 2 ^ 62
      → let res' = (complete_headers alloc date res keep_alive).0 in
        (cap : ℕ) × (serialize_response alloc date res keep_alive
          ≡ (res', buffered (head_text res') cap))
        × (length (head_text res') ≤ cap)
        × (res'.status ≡ status_of res)
        × ((name : Bytes)
            → header_value res'.headers name ≡ completed_header date res keep_alive name)
  unfolding serialize_response
  serialize_response_lem date res keep_alive small =
      let r = complete_headers alloc date res keep_alive in
      let (ok, status', _) = complete_headers_lem date res keep_alive [] in
      let (cap, written, le) = write_head-Holds alloc granted r.0 small in
      (
        cap,
        ap (λ b. (r.0, if b then write_head alloc r.0 else refused)) ok
            ∙ ap (λ out. (r.0, out)) written,
        le,
        status',
        λ name. (complete_headers_lem date res keep_alive name).2,
      )
