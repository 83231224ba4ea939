-- ===== src/Server/Delivery.antt =====
-- src/http_server.c: what `send_all` and `send_response` put on the socket.
use modern_c_web_library.Base.{
  ℕ, zero, suc, ◌+◌, ◌^◌, ◌≤◌, ◌<◌, ◌≡◌, refl, sym, ap, ◌∙◌, Bool, true, false, Option, none, some,
  List, [], ◌∷◌, ◌++◌, append_assoc, append-nil, Bytes, length, length-drop, take, drop,
  take-append-drop, if◌then◌else◌, ltb, arith, Bool-cases, inl, inr,
}
use modern_c_web_library.Http.{HttpResponse}
use modern_c_web_library.Http.Lists.{Granted}
use modern_c_web_library.Server.{
  buffered, serialize_response, complete_headers, SendResult, accepted, interrupted, would_block,
  send_failed, send_all, Sent, sent_to, waits, send_body, send_parts, behind_head, send_serialized,
  send_response,
}
use modern_c_web_library.Server.Head.{header_lines, head_text}
use modern_c_web_library.Server.Serialize.{serialize_response_lem}

-- How often send takes a byte or more, before it fails or takes none.
unfoldable pub willing : List SendResult → ℕ
willing [] = 0
willing (accepted zero ∷ results) = 0
willing (accepted (suc n) ∷ results) = suc (willing results)
willing (interrupted ∷ results) = willing results
willing (would_block ∷ results) = 0
willing (send_failed ∷ results) = 0

-- While send takes some bytes often enough, `send_all` sends everything, in whatever pieces.
pub send_all_lem :
    (results : List SendResult) (buf : Bytes)
    → length buf ≤ willing results
    → (left : List SendResult) × (send_all results buf ≡ (left, buf, some true))
      × (willing results ≤ willing left + length buf)
unfolding send_all willing
send_all_lem results [] le = (results, refl, omega arith)
send_all_lem [] (c ∷ buf) le = absurd (omega (arith, le))
send_all_lem (accepted zero ∷ results) (c ∷ buf) le = absurd (omega (arith, le))
send_all_lem (accepted (suc n) ∷ results) (c ∷ buf) le =
    let (left, e, le') = send_all_lem results (drop n buf) (omega (arith, le, length-drop n buf)) in
    (
      left,
      rw e (ap (λ b. (left, c ∷ b, some true)) (take-append-drop n buf)),
      omega (arith, le', length-drop n buf),
    )
send_all_lem (interrupted ∷ results) (c ∷ buf) le = send_all_lem results (c ∷ buf) le
send_all_lem (would_block ∷ results) (c ∷ buf) le = absurd (omega (arith, le))
send_all_lem (send_failed ∷ results) (c ∷ buf) le = absurd (omega (arith, le))

-- What `send_all` has sent is always the start of the buffer, and all of it when it returns 0.
pub send_all-prefix :
    (results : List SendResult) (buf : Bytes)
    → let (left, taken, returned) = send_all results buf in
      (rest : Bytes) × (taken ++ rest ≡ buf) × (returned ≡ some true → rest ≡ [])
unfolding send_all
send_all-prefix results [] = ([], refl, λ _. refl)
send_all-prefix [] (c ∷ buf) = (c ∷ buf, refl, λ e. ground (arith, e))
send_all-prefix (accepted n ∷ results) (c ∷ buf) =
    let (rest, e, full) = send_all-prefix results (drop n (c ∷ buf)) in
    (
      rest,
      append_assoc (take n (c ∷ buf)) _ rest
          ∙ ap (λ b. take n (c ∷ buf) ++ b) e
          ∙ take-append-drop n (c ∷ buf),
      full,
    )
send_all-prefix (interrupted ∷ results) (c ∷ buf) = send_all-prefix results (c ∷ buf)
send_all-prefix (would_block ∷ results) (c ∷ buf) = (c ∷ buf, refl, λ e. ground (arith, e))
send_all-prefix (send_failed ∷ results) (c ∷ buf) = (c ∷ buf, refl, λ e. ground (arith, e))

-- The body, as it is sent: its first `body_length` bytes.
abbrev pub body_text : HttpResponse → Bytes
body_text res = elim res.body [ none ↦ [] | some body ↦ take res.body_length body ]

send_body_lem :
    (res : HttpResponse) (results : List SendResult) (head : Bytes)
    → length (body_text res) ≤ willing results
    → (left : List SendResult) × (send_body res results head
        ≡ sent_to (record res { sent = true }) left (head ++ body_text res))
unfolding send_body
send_body_lem res results head le = go res.body le
  where
    done : HttpResponse
    done = record res { sent = true }

    go :
        (body : Option Bytes)
        → length (elim body [ none ↦ [] | some b ↦ take res.body_length b ]) ≤ willing results
        → (left : List SendResult) × (send_body (record res { body = body }) results head
            ≡ sent_to
                (record res { sent = true; body = body })
                left
                (head ++ elim body [ none ↦ [] | some b ↦ take res.body_length b ]))
    go none le = (results, ap (sent_to _ results) (sym (append-nil head)))
    go (some b) le = elim (Bool-cases (ltb 0 res.body_length)) [
      | inl more ↦
          let (left, e, _) = send_all_lem results (take res.body_length b) le in
          (left, rw more (ap answer e))
      | inr nothing ↦
          let zero' : res.body_length ≡ 0 = ground (arith, nothing) in
          (
            results,
            rw nothing
                (ap (sent_to _ results) (sym (ap (λ n. head ++ take n b) zero' ∙ append-nil head))),
          )
    ]
      where
        answer : List SendResult × Bytes × Option Bool → Sent
        answer (left, taken, none) = waits (head ++ taken)
        answer (left, taken, some _) =
            sent_to (record res { sent = true; body = some b }) left (head ++ taken)

send_response-serialized :
    (alloc : ℕ → Bool) (date : Option Bytes) (results : List SendResult) (res res' : HttpResponse)
    (keep_alive : Bool) (head : Bytes) (cap : ℕ)
    → res.sent ≡ false
    → serialize_response alloc date res keep_alive ≡ (res', buffered head cap)
    → send_response alloc date results res keep_alive ≡ send_parts res' results head
unfolding send_response
send_response-serialized alloc date results res res' keep_alive head capacity unsent e =
    ap
      (λ b.
        if b
        then sent_to res results []
        else send_serialized results (serialize_response alloc date res keep_alive))
      unsent
    ∙ ap (send_serialized results) e

send_parts-behind_head :
    (res : HttpResponse) (results left : List SendResult) (head : Bytes)
    → send_all results head ≡ (left, head, some true)
    → send_parts res results head ≡ send_body res left head
unfolding send_parts
send_parts-behind_head res results left head e = ap (behind_head res) e

-- When memory is granted, the headers are shorter than 2^62 - 53, the response was not sent before, and
-- send takes some bytes often enough, `send_response` puts on the socket the status line, the headers, an
-- empty line and the body, exactly, in whatever pieces send takes them, and marks the response as sent.
pub send_response_lem :
    (alloc : ℕ → Bool) (date : Option Bytes) (results : List SendResult) (res : HttpResponse)
    (keep_alive : Bool)
    → Granted alloc
    → res.sent ≡ false
    → length (header_lines (complete_headers alloc date res keep_alive).0.headers) + 53 < 2 ^ 62
    → let res' = (complete_headers alloc date res keep_alive).0 in
      length (head_text res') + length (body_text res') ≤ willing results
      → (left : List SendResult) × (send_response alloc date results res keep_alive
          ≡ sent_to (record res' { sent = true }) left (head_text res' ++ body_text res'))
unfolding send_response send_parts
send_response_lem alloc date results res keep_alive granted unsent small enough =
    let res' = (complete_headers alloc date res keep_alive).0 in
    let (cap, e, _, _, _) = serialize_response_lem alloc granted date res keep_alive small in
    let (left, e', le') = send_all_lem results (head_text res') (omega (arith, enough)) in
    let (left', e'') = send_body_lem res' left (head_text res') (omega (arith, enough, le')) in
    (
      left',
      send_response-serialized alloc date results res res' keep_alive (head_text res') cap unsent e
          ∙ send_parts-behind_head res' results left (head_text res') e'
          ∙ e'',
    )
