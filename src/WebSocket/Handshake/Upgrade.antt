-- ===== src/WebSocket/Handshake/Upgrade.antt =====
-- src/websocket.c: `sha1_final` and `ws_generate_accept_key` give a result, and what
-- `websocket_handle_upgrade` answers.
use modern_c_web_library.Base.{
  ℕ, zero, suc, ◌+◌, ◌-◌, ◌*◌, ◌/◌, ◌%◌, ◌^◌, ◌≡◌, ◌≢◌, ◌<◌, refl, ◌∙◌, ap, Bool, true, false,
  Option, none, some, List, [], ◌∷◌, ◌++◌, ◌==◌, Bytes, codes, length, length-set, set, take,
  if◌then◌else◌, ltb, arith, str_eq, str_eq_iff,
}
use modern_c_web_library.Http.{
  HeaderNode, header_list_add, HttpRequest, HttpResponse, http_request_get_header,
  http_response_set_header,
}
use modern_c_web_library.Http.Lists.{Granted, header_value, header_value-add}
use modern_c_web_library.WebSocket.Handshake.{
  ws_guid, ws_generate_accept_key, send_upgrade, answer_upgrade, is_websocket, asks_upgrade,
  websocket_handle_upgrade,
}
use modern_c_web_library.WebSocket.Handshake.Sha1.{
  Sha1Ctx, sha1_init, sha1_update, append_zeros, sha1_final, digest, word_bytes,
}
use modern_c_web_library.WebSocket.Handshake.Base64.{
  encode_triples, pad, output_length, base64_encode,
}

count-sha1_update :
    (ctx : Sha1Ctx) (bytes : Bytes)
    → (sha1_update ctx bytes).count_low ≡ (ctx.count_low + length bytes * 8) % 2 ^ 32
unfolding sha1_update
count-sha1_update ctx bytes = go (ltb 63 (ctx.count_low / 8 % 64 + length bytes)) refl
  where
    go :
        (b : Bool)
        → ltb 63 (ctx.count_low / 8 % 64 + length bytes) ≡ b
        → (sha1_update ctx bytes).count_low ≡ (ctx.count_low + length bytes * 8) % 2 ^ 32
    go true e = rw (sha1_update, e) refl
    go false e = rw (sha1_update, e) refl

append_zeros_returns :
    (fuel : ℕ) (ctx : Sha1Ctx)
    → ctx.count_low % 8 ≡ 0
    → (120 - ctx.count_low / 8 % 64) % 64 < fuel
    → (ctx' : Sha1Ctx) × (append_zeros fuel ctx ≡ some ctx')
unfolding append_zeros
append_zeros_returns zero ctx whole enough = absurd (omega arith)
append_zeros_returns (suc fuel) ctx whole enough =
    go (ctx.count_low / 8 % 64 == 56) refl
      (λ not-yet. append_zeros_returns fuel (sha1_update ctx (0 ∷ [])) (still-whole) (less not-yet))
  where
    counted : (sha1_update ctx (0 ∷ [])).count_low ≡ (ctx.count_low + 8) % 2 ^ 32
    counted = count-sha1_update ctx (0 ∷ [])

    still-whole : (sha1_update ctx (0 ∷ [])).count_low % 8 ≡ 0
    still-whole = rw counted (omega arith)

    less :
        ctx.count_low / 8 % 64 ≢ 56
        → (120 - (sha1_update ctx (0 ∷ [])).count_low / 8 % 64) % 64 < fuel
    less not-yet = rw counted (omega arith)

    go :
        (b : Bool)
        → (ctx.count_low / 8 % 64 == 56) ≡ b
        → (ctx.count_low / 8 % 64 ≢ 56
            → (ctx' : Sha1Ctx) × (append_zeros fuel (sha1_update ctx (0 ∷ [])) ≡ some ctx'))
        → (ctx' : Sha1Ctx) × (append_zeros (suc fuel) ctx ≡ some ctx')
    go true e ih = (ctx, rw (append_zeros, e) refl)
    go false e ih = let (ctx', found) = ih (ground (arith, e)) in (ctx', rw (append_zeros, e) found)

-- On a context that has counted whole bytes `sha1_final` ends, and gives 20 bytes.
sha1_final_returns :
    (ctx : Sha1Ctx)
    → ctx.count_low % 8 ≡ 0
    → (hash : Bytes) × (sha1_final ctx ≡ some hash) × (length hash ≡ 20)
unfolding sha1_final
sha1_final_returns ctx whole =
    let counted = count-sha1_update ctx (128 ∷ []) in
    let (ctx', found) =
      append_zeros_returns 64 (sha1_update ctx (128 ∷ [])) (rw counted (omega arith))
        (omega arith) in
    (
      digest (sha1_update ctx' (word_bytes ctx.count_high ++ word_bytes ctx.count_low)).state,
      rw (sha1_final, found) refl,
      refl,
    )

length-encode_triples :
    (bytes : Bytes) → length (encode_triples bytes) ≡ output_length (length bytes)
unfolding encode_triples
length-encode_triples [] = refl
length-encode_triples (a ∷ []) = refl
length-encode_triples (a ∷ b ∷ []) = refl
length-encode_triples (a ∷ b ∷ c ∷ rest) = omega (arith, length-encode_triples rest)

length-pad : (n : ℕ) (xs : Bytes) → length (pad n xs) ≡ length xs
unfolding pad
length-pad n xs = go (n % 3 == 1) (n % 3 == 2) refl refl
  where
    go : (one two : Bool) → (n % 3 == 1) ≡ one → (n % 3 == 2) ≡ two → length (pad n xs) ≡ length xs
    go true two e₁ e₂ =
        rw (pad, e₁) (length-set (set xs (output_length n - 1) b'=') _ _ ∙ length-set xs _ _)
    go false true e₁ e₂ = rw (pad, e₁, e₂) (length-set xs _ _)
    go false false e₁ e₂ = rw (pad, e₁, e₂) refl

-- For every client key, when the 29 bytes of the text are granted, `ws_generate_accept_key` gives an
-- accept key, of 28 characters.
pub ws_generate_accept_key_returns :
    (alloc : ℕ → Bool) (client_key : Bytes)
    → alloc 29 ≡ true
    → (accept_key : Bytes) × (ws_generate_accept_key alloc client_key ≡ some accept_key)
      × (length accept_key ≡ 28)
unfolding ws_generate_accept_key base64_encode sha1_init
ws_generate_accept_key_returns alloc client_key granted =
    let text = take 127 (client_key ++ ws_guid) in
    let whole : (sha1_update sha1_init text).count_low % 8 ≡ 0 =
      rw (count-sha1_update sha1_init text) (omega arith) in
    let (hash, found, twenty) = sha1_final_returns (sha1_update sha1_init text) whole in
    let enough : alloc (output_length (length hash) + 1) ≡ true = rw twenty granted in
    let size = length-pad (length hash) (encode_triples hash) ∙ length-encode_triples hash in
    (
      pad (length hash) (encode_triples hash),
      rw (ws_generate_accept_key, found, base64_encode, enough) refl,
      size ∙ ap output_length twenty,
    )

-- What the request must say.
pub record IsUpgrade (alloc : ℕ → Bool) (req : HttpRequest) : Type 0 where
  pub upgrade : is_websocket (http_request_get_header alloc req (codes "Upgrade")) ≡ true
  pub connection : asks_upgrade (http_request_get_header alloc req (codes "Connection")) ≡ true
  pub key : Bytes
  pub key-given : http_request_get_header alloc req (codes "Sec-WebSocket-Key") ≡ some key
  pub key-nonempty : 0 < length key
  pub version :
      http_request_get_header alloc req (codes "Sec-WebSocket-Version") ≡ some (codes "13")

handled-IsUpgrade :
    (alloc : ℕ → Bool) (req : HttpRequest) (res : HttpResponse) (u : IsUpgrade alloc req)
    (accept_key : Bytes)
    → ws_generate_accept_key alloc u.key ≡ some accept_key
    → websocket_handle_upgrade alloc req res ≡ (send_upgrade alloc res accept_key, true)
unfolding websocket_handle_upgrade answer_upgrade str_eq
handled-IsUpgrade alloc req res u accept_key made =
    let given : (length u.key == 0) ≡ false = ground (arith, u.key-nonempty) in
    rw
      (
        websocket_handle_upgrade, u.upgrade, u.connection, u.key-given, u.version, answer_upgrade,
        given, made,
      )
      refl

-- The headers of the answer.
send_upgrade_lem :
    (alloc : ℕ → Bool) (res : HttpResponse) (accept_key : Bytes)
    → Granted alloc
    → ((send_upgrade alloc res accept_key).status ≡ 101)
      × (header_value (send_upgrade alloc res accept_key).headers (codes "upgrade")
          ≡ some (codes "websocket"))
      × (header_value (send_upgrade alloc res accept_key).headers (codes "connection")
          ≡ some (codes "Upgrade"))
      × (header_value (send_upgrade alloc res accept_key).headers (codes "sec-websocket-accept")
          ≡ some accept_key)
unfolding send_upgrade http_response_set_header str_eq
send_upgrade_lem alloc res accept_key g =
    let name₁ = codes "Upgrade" in
    let name₂ = codes "Connection" in
    let name₃ = codes "Sec-WebSocket-Accept" in
    let list₁ : List HeaderNode =
      (header_list_add alloc res.headers name₁ name₁ (codes "websocket") true).0 in
    let list₂ : List HeaderNode =
      (header_list_add alloc list₁ name₂ name₂ (codes "Upgrade") true).0 in
    let after₁ = header_value-add alloc res.headers name₁ name₁ (codes "websocket") g in
    let after₂ = header_value-add alloc list₁ name₂ name₂ (codes "Upgrade") g in
    let after₃ = header_value-add alloc list₂ name₃ name₃ accept_key g in
    (
      refl,
      after₃ (codes "upgrade") ∙ after₂ (codes "upgrade") ∙ after₁ (codes "upgrade"),
      after₃ (codes "connection") ∙ after₂ (codes "connection"),
      after₃ (codes "sec-websocket-accept"),
    )

-- When memory is granted, `websocket_handle_upgrade` accepts every request that asks for an upgrade as
-- it should: the response has status 101, says Upgrade: websocket and Connection: Upgrade, and the
-- accept key of the request's key.
pub websocket_handle_upgrade-IsUpgrade :
    (alloc : ℕ → Bool) (req : HttpRequest) (res : HttpResponse)
    → Granted alloc
    → (u : IsUpgrade alloc req)
    → let (res', accepted) = websocket_handle_upgrade alloc req res in
      (accepted ≡ true)
      × (res'.status ≡ 101)
      × (header_value res'.headers (codes "upgrade") ≡ some (codes "websocket"))
      × (header_value res'.headers (codes "connection") ≡ some (codes "Upgrade"))
      × (header_value res'.headers (codes "sec-websocket-accept")
          ≡ ws_generate_accept_key alloc u.key)
websocket_handle_upgrade-IsUpgrade alloc req res g u =
    let (accept_key, made, size) = ws_generate_accept_key_returns alloc u.key (g 29) in
    let (status, upgrade, connection, accept) = send_upgrade_lem alloc res accept_key g in
    rw (handled-IsUpgrade alloc req res u accept_key made, made)
      (refl, status, upgrade, connection, accept)

answer_upgrade-true :
    (alloc : ℕ → Bool) (res : HttpResponse) (ws_key ws_version : Option Bytes)
    → (answer_upgrade alloc res ws_key ws_version).1 ≡ true
    → (key : Bytes) × (ws_key ≡ some key) × (0 < length key) × (ws_version ≡ some (codes "13"))
unfolding answer_upgrade
answer_upgrade-true alloc res none ws_version ok = absurd (ground arith)
answer_upgrade-true alloc res (some key) none ok = absurd (ground arith)
answer_upgrade-true alloc res (some key) (some version) ok =
    (key, refl, ground arith, ap some ((str_eq_iff version (codes "13")).0 (ground arith)))

-- `websocket_handle_upgrade` accepts no other request: one that it accepts says Upgrade: websocket and
-- Connection: Upgrade, has a key that is not empty, and version 13.
pub IsUpgrade-websocket_handle_upgrade :
    (alloc : ℕ → Bool) (req : HttpRequest) (res : HttpResponse)
    → (websocket_handle_upgrade alloc req res).1 ≡ true
    → IsUpgrade alloc req
unfolding websocket_handle_upgrade
IsUpgrade-websocket_handle_upgrade alloc req res ok =
    go (is_websocket (http_request_get_header alloc req (codes "Upgrade")))
      (asks_upgrade (http_request_get_header alloc req (codes "Connection"))) refl refl ok
  where
    go :
        (w a : Bool)
        → is_websocket (http_request_get_header alloc req (codes "Upgrade")) ≡ w
        → asks_upgrade (http_request_get_header alloc req (codes "Connection")) ≡ a
        → (if w
            then if a
              then answer_upgrade alloc res
                  (http_request_get_header alloc req (codes "Sec-WebSocket-Key"))
                  (http_request_get_header alloc req (codes "Sec-WebSocket-Version"))
              else (res, false)
            else (res, false)).1
          ≡ true
        → IsUpgrade alloc req
    go true true ew ea ok =
        let (key, given, nonempty, version) = answer_upgrade-true alloc res _ _ ok in
        record {
          upgrade = ew;
          connection = ea;
          key = key;
          key-given = given;
          key-nonempty = nonempty;
          version = version;
        }
    go true false ew ea ok = absurd (ground arith)
    go false a ew ea ok = absurd (ground arith)
