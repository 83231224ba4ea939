-- ===== src/WebSocket/Handshake.antt =====
-- src/websocket.c: the opening handshake, `ws_generate_accept_key` and `websocket_handle_upgrade`,
-- and below it SHA-1 and Base64.
pub mod Sha1
pub mod Base64
pub mod RoundTrip
pub mod Upgrade
mod Tests
use modern_c_web_library.Base.{
  ℕ, Bool, true, false, Option, none, some, ◌++◌, ◌==◌, Bytes, codes, take, length, if◌then◌else◌,
  str_eq, strcase_eq, contains_case,
}
use modern_c_web_library.Http.{
  HttpRequest, HttpResponse, http_request_get_header, http_response_send_text,
  http_response_set_header,
}
use modern_c_web_library.WebSocket.Handshake.Sha1.{sha1_init, sha1_update, sha1_final}
use modern_c_web_library.WebSocket.Handshake.Base64.{base64_encode}

-- WS_GUID
abbrev pub ws_guid : Bytes
ws_guid = codes "258EAFA5-E914-47DA-95CA-C5AB0DC85B11"

-- The tests of the first two headers.
abbrev pub is_websocket : Option Bytes → Bool
is_websocket none = false
is_websocket (some upgrade) = strcase_eq upgrade (codes "websocket")

abbrev pub asks_upgrade : Option Bytes → Bool
asks_upgrade none = false
asks_upgrade (some connection) = contains_case (codes "Upgrade") connection

module _ (alloc : ℕ → Bool) where
  -- `ws_generate_accept_key`: key and GUID are put together in 128 bytes, the NUL included. A NULL is
  -- `none`; so is a run of `sha1_final` that used up its fuel, which does not happen.
  unfoldable pub ws_generate_accept_key : Bytes → Option Bytes
  ws_generate_accept_key client_key =
      elim (sha1_final (sha1_update sha1_init (take 127 (client_key ++ ws_guid)))) [
        | none ↦ none
        | some hash ↦ base64_encode alloc hash
      ]

  -- The end of `websocket_handle_upgrade`, once the key is there.
  unfoldable pub send_upgrade : HttpResponse → Bytes → HttpResponse
  send_upgrade res accept_key =
      let res₁ =
        http_response_set_header alloc (record res { status = 101 }) (codes "Upgrade")
          (codes "websocket") in
      let res₂ = http_response_set_header alloc res₁ (codes "Connection") (codes "Upgrade") in
      http_response_set_header alloc res₂ (codes "Sec-WebSocket-Accept") accept_key

  -- The part that answers, once Upgrade and Connection are as they should be.
  unfoldable pub answer_upgrade : HttpResponse → Option Bytes → Option Bytes → HttpResponse × Bool
  answer_upgrade res none ws_version =
      (http_response_send_text alloc res 400 (codes "Missing Sec-WebSocket-Key"), false)
  answer_upgrade res (some key) ws_version =
      if length key == 0
      then (http_response_send_text alloc res 400 (codes "Missing Sec-WebSocket-Key"), false)
      else if version_13 ws_version
      then generated (ws_generate_accept_key key)
      else (http_response_send_text alloc res 400 (codes "Unsupported WebSocket version"), false)
    where
      version_13 : Option Bytes → Bool
      version_13 none = false
      version_13 (some version) = str_eq version (codes "13")

      generated : Option Bytes → HttpResponse × Bool
      generated none =
          (http_response_send_text alloc res 500 (codes "Failed to generate accept key"), false)
      generated (some accept_key) = (send_upgrade res accept_key, true)

  -- `websocket_handle_upgrade`
  unfoldable pub websocket_handle_upgrade : HttpRequest → HttpResponse → HttpResponse × Bool
  websocket_handle_upgrade req res =
      if is_websocket (http_request_get_header alloc req (codes "Upgrade"))
      then if asks_upgrade (http_request_get_header alloc req (codes "Connection"))
        then answer_upgrade res (http_request_get_header alloc req (codes "Sec-WebSocket-Key"))
            (http_request_get_header alloc req (codes "Sec-WebSocket-Version"))
        else (res, false)
      else (res, false)
