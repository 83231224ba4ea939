-- ===== src/Server/Async/Pending.antt =====
-- src/http_server.c: what `async_write_handler` puts on the socket.
use modern_c_web_library.Base.{
  ℕ, zero, suc, ◌+◌, ◌≤◌, ◌≡◌, refl, sym, ap, ◌∙◌, Option, none, some, List, [], ◌∷◌, ◌++◌,
  append_assoc, append-nil, Bytes, length, take, drop, drop-append, take-append-drop, arith,
}
use modern_c_web_library.Server.{SendResult, accepted, interrupted, would_block, send_failed}
use modern_c_web_library.Server.Async.{
  AsyncConnection, Stop, all_sent, take_no_more, given_up, send_header, send_rest, header_left,
  body_left, count_body, send_behind, send_pending,
}

drop_add : (m n : ℕ) (xs : Bytes) → drop (m + n) xs ≡ drop n (drop m xs)
drop_add zero n xs = let e : zero + n ≡ n = omega arith in ap (λ k. drop k xs) e
drop_add (suc m) n [] = drop_nil (suc m + n) ∙ sym (drop_nil n)
  where
    drop_nil : (k : ℕ) → drop {A = ℕ} k [] ≡ []
    drop_nil zero = refl
    drop_nil (suc k) = refl
drop_add (suc m) n (x ∷ xs) =
    let e : suc m + n ≡ suc (m + n) = omega arith in ap (λ k. drop k (x ∷ xs)) e ∙ drop_add m n xs

-- What was taken is the start of the buffer, all of it where all is sent, and of the results some are left.
abbrev pub Start : List SendResult → Bytes → List SendResult × Bytes × Stop → Type 0
Start results buf (left, taken, stop) =
    ((rest : Bytes) × (taken ++ rest ≡ buf) × (stop ≡ all_sent → rest ≡ []))
    × (length left ≤ length results)

pub send_header-Start :
    (results : List SendResult) (buf : Bytes) → Start results buf (send_header results buf)
unfolding send_header
send_header-Start results [] = (([], refl, λ _. refl), omega arith)
send_header-Start [] (c ∷ buf) = ((c ∷ buf, refl, λ e. ground (arith, e)), omega arith)
send_header-Start (accepted zero ∷ results) (c ∷ buf) =
    ((c ∷ buf, refl, λ e. ground (arith, e)), omega arith)
send_header-Start (accepted (suc n) ∷ results) (c ∷ buf) =
    let ((rest, e, full), le) = send_header-Start results (drop n buf) in
    (
      (
        rest,
        ap (λ b. c ∷ b)
            (append_assoc (take n buf) _ rest
              ∙ ap (λ b. take n buf ++ b) e
              ∙ take-append-drop n buf),
        full,
      ),
      omega (arith, le),
    )
send_header-Start (interrupted ∷ results) (c ∷ buf) =
    let (start, le) = send_header-Start results (c ∷ buf) in (start, omega (arith, le))
send_header-Start (would_block ∷ results) (c ∷ buf) =
    ((c ∷ buf, refl, λ e. ground (arith, e)), omega arith)
send_header-Start (send_failed ∷ results) (c ∷ buf) =
    ((c ∷ buf, refl, λ e. ground (arith, e)), omega arith)

pub send_rest-Start :
    (results : List SendResult) (buf : Bytes) → Start results buf (send_rest results buf)
unfolding send_rest
send_rest-Start results [] = (([], refl, λ _. refl), omega arith)
send_rest-Start [] (c ∷ buf) = ((c ∷ buf, refl, λ e. ground (arith, e)), omega arith)
send_rest-Start (accepted zero ∷ results) (c ∷ buf) =
    ((c ∷ buf, refl, λ e. ground (arith, e)), omega arith)
send_rest-Start (accepted (suc n) ∷ results) (c ∷ buf) = (
  (drop n buf, ap (λ b. c ∷ b) (take-append-drop n buf), λ e. drop_all n buf (ground (arith, e))),
  omega arith,
)
  where
    drop_all : (n : ℕ) (xs : Bytes) → length xs ≤ n → drop n xs ≡ []
    drop_all zero [] le = refl
    drop_all zero (x ∷ xs) le = absurd (omega (arith, le))
    drop_all (suc n) [] le = refl
    drop_all (suc n) (x ∷ xs) le = drop_all n xs (omega (arith, le))
send_rest-Start (interrupted ∷ results) (c ∷ buf) =
    let (start, le) = send_rest-Start results (c ∷ buf) in (start, omega (arith, le))
send_rest-Start (would_block ∷ results) (c ∷ buf) =
    ((c ∷ buf, refl, λ e. ground (arith, e)), omega arith)
send_rest-Start (send_failed ∷ results) (c ∷ buf) =
    ((c ∷ buf, refl, λ e. ground (arith, e)), omega arith)

-- The bytes of the response that are still to be sent.
abbrev pub pending : AsyncConnection → Bytes
pending conn = header_left conn ++ body_left conn

append_empty : (xs ys : Bytes) → xs ++ ys ≡ [] → ys ≡ []
append_empty [] ys e = e
append_empty (x ∷ xs) ys e = ground (arith, e)

drop_counted :
    (sent : ℕ) (buf taken rest : Bytes)
    → taken ++ rest ≡ drop sent buf
    → drop (sent + length taken) buf ≡ rest
drop_counted sent buf taken rest e =
    drop_add sent (length taken) buf ∙ ap (drop (length taken)) (sym e) ∙ drop-append taken rest

header_left-counted :
    (conn : AsyncConnection) (taken rest : Bytes)
    → taken ++ rest ≡ header_left conn
    → header_left (record conn { header_sent = conn.header_sent + length taken }) ≡ rest
header_left-counted conn taken rest = go conn.header_buf
  where
    go :
        (header : Option Bytes)
        → taken ++ rest ≡ header_left (record conn { header_buf = header })
        → header_left
            (record conn { header_buf = header; header_sent = conn.header_sent + length taken })
          ≡ rest
    go none e = sym (append_empty taken rest e)
    go (some header) e = drop_counted conn.header_sent header taken rest e

body_left-counted :
    (conn : AsyncConnection) (taken rest : Bytes)
    → taken ++ rest ≡ body_left conn
    → body_left (count_body conn taken) ≡ rest
body_left-counted conn taken rest = go conn.response.body
  where
    with_body : Option Bytes → AsyncConnection
    with_body body = record conn { response = record conn.response { body = body } }

    go :
        (body : Option Bytes)
        → taken ++ rest ≡ body_left (with_body body)
        → body_left (count_body (with_body body) taken) ≡ rest
    go none e = sym (append_empty taken rest e)
    go (some body) e =
        drop_counted conn.body_sent (take conn.response.body_length body) taken rest e

-- The results of one call of the two loops.
abbrev pub Moves :
    List SendResult → AsyncConnection → AsyncConnection × List SendResult × Bytes × Stop → Type 0
Moves results conn (conn', left, taken, stop) =
    (taken ++ pending conn' ≡ pending conn)
    × (stop ≡ all_sent → pending conn' ≡ [])
    × (length left ≤ length results)

header_left-count_body :
    (conn : AsyncConnection) (taken : Bytes)
    → header_left (count_body conn taken) ≡ header_left conn
header_left-count_body conn taken = go conn.response.body
  where
    go :
        (body : Option Bytes)
        → header_left
            (count_body (record conn { response = record conn.response { body = body } }) taken)
          ≡ header_left conn
    go none = refl
    go (some body) = refl

pub send_pending-Moves :
    (results : List SendResult) (conn : AsyncConnection)
    → Moves results conn (send_pending results conn)
unfolding send_pending
send_pending-Moves results conn =
    go (send_header results (header_left conn)) (send_header-Start results (header_left conn))
  where
    counted : Bytes → AsyncConnection
    counted taken = record conn { header_sent = conn.header_sent + length taken }

    stopped :
        (taken rest : Bytes)
        → taken ++ rest ≡ header_left conn
        → taken ++ pending (counted taken) ≡ pending conn
    stopped taken rest e =
        ap (λ h. taken ++ (h ++ body_left conn)) (header_left-counted conn taken rest e)
        ∙ sym (append_assoc taken rest (body_left conn))
        ∙ ap (λ h. h ++ body_left conn) e

    go :
        (sent : List SendResult × Bytes × Stop)
        → Start results (header_left conn) sent
        → Moves results conn (send_behind (counted sent.1) sent)
    go (left, taken, take_no_more) ((rest, e, full), le) =
        (stopped taken rest e, λ h. ground (arith, h), le)
    go (left, taken, given_up) ((rest, e, full), le) =
        (stopped taken rest e, λ h. ground (arith, h), le)
    go (left, taken, all_sent) ((rest, e, full), le) =
        behind (send_rest left (body_left conn)) (send_rest-Start left (body_left conn))
      where
        behind :
            (sent : List SendResult × Bytes × Stop)
            → Start left (body_left conn) sent
            → Moves results conn
                (count_body (counted taken) sent.1, sent.0, taken ++ sent.1, sent.2)
        behind (left', more, stop) ((rest', e', full'), le') =
            let conn' = count_body (counted taken) more in
            let header_empty : header_left conn' ≡ [] =
              header_left-count_body (counted taken) more
              ∙ header_left-counted conn taken rest e
              ∙ full refl in
            let body_rest : body_left conn' ≡ rest' =
              body_left-counted (counted taken) more rest' e' in
            let left_over : pending conn' ≡ rest' =
              ap (λ h. h ++ body_left conn') header_empty ∙ body_rest in
            let header : taken ≡ header_left conn =
              sym (append-nil taken) ∙ ap (λ r. taken ++ r) (sym (full refl)) ∙ e in
            (
              ap (λ r. (taken ++ more) ++ r) left_over
                  ∙ append_assoc taken more rest'
                  ∙ ap (λ b. taken ++ b) e'
                  ∙ ap (λ h. h ++ body_left conn) header,
              λ h. left_over ∙ full' h,
              omega (arith, le, le'),
            )

-- Calls of the two loops one after the other, with what send gives in each: the connection, and the bytes
-- that were taken in all of them.
unfoldable pub send_calls : List (List SendResult) → AsyncConnection → AsyncConnection × Bytes
send_calls [] conn = (conn, [])
send_calls (results ∷ calls) conn =
    let (conn', _, taken, _) = send_pending results conn in
    let (conn'', more) = send_calls calls conn' in (conn'', taken ++ more)

-- Over any number of calls of the two loops of `async_write_handler`, and in whatever pieces send takes the
-- bytes: what was put on the socket, followed by what is still to be sent, is what was to be sent before,
-- so nothing is lost, doubled or out of order.
pub send_calls-pending :
    (calls : List (List SendResult)) (conn : AsyncConnection)
    → let (conn', taken) = send_calls calls conn in taken ++ pending conn' ≡ pending conn
unfolding send_calls
send_calls-pending [] conn = refl
send_calls-pending (results ∷ calls) conn =
    let r = send_pending results conn in
    let (e, _, _) = send_pending-Moves results conn in
    append_assoc r.2 _ _ ∙ ap (λ b. r.2 ++ b) (send_calls-pending calls r.0) ∙ e
