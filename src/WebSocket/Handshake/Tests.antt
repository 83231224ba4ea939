-- ===== src/WebSocket/Handshake/Tests.antt =====
-- Runs of the handshake of src/websocket.c.
use modern_c_web_library.Base.{
  ℕ, Bool, true, ◌≡◌, refl, some, [], ◌∷◌, codes, Bytes, str_eq, strcase_eq, contains,
  contains_case, has_prefix, All, length, arith, map, tolower,
}
use modern_c_web_library.Http.{
  HeaderNode, HttpRequest, http_request_create, http_response_create, http_request_get_header,
  header_list_find,
}
use modern_c_web_library.Http.Lists.{Granted, header_value}
use modern_c_web_library.WebSocket.Frame.RoundTrip.{IsByte}
use modern_c_web_library.WebSocket.Handshake.{
  ws_generate_accept_key, send_upgrade, answer_upgrade, websocket_handle_upgrade,
}
use modern_c_web_library.WebSocket.Handshake.RoundTrip.{base64_decode, base64_decode-base64_encode}
use modern_c_web_library.WebSocket.Handshake.Upgrade.{
  IsUpgrade, ws_generate_accept_key_returns, websocket_handle_upgrade-IsUpgrade,
  IsUpgrade-websocket_handle_upgrade,
}
use modern_c_web_library.WebSocket.Handshake.Sha1.{
  block_words, extend_words, sha1_rounds, sha1_transform, sha1_init, transform_blocks, sha1_update,
  append_zeros, sha1_final,
}
use modern_c_web_library.WebSocket.Handshake.Base64.{encode_triples, pad, base64_encode}

abbrev always : ℕ → Bool
always _ = true

-- What a run computes with.
runs : Unit {0}
unfolding block_words extend_words sha1_rounds sha1_transform sha1_init transform_blocks sha1_update
    append_zeros sha1_final encode_triples pad base64_encode ws_generate_accept_key send_upgrade
    answer_upgrade websocket_handle_upgrade http_request_create http_request_get_header
    header_list_find str_eq strcase_eq contains contains_case has_prefix
runs = tt

encodes : base64_encode always (codes "any carnal pleas") ≡ some (codes "YW55IGNhcm5hbCBwbGVhcw==")
unfolding runs
encodes = refl

-- The example of RFC 6455, section 1.3.
accepts_sample :
    ws_generate_accept_key always (codes "dGhlIHNhbXBsZSBub25jZQ==")
    ≡ some (codes "s3pPLMBiTxaQ9kYGzzhZRbK+xOo=")
unfolding runs
accepts_sample = refl

always-Granted : Granted always
always-Granted _ = refl

pleas-bytes : All IsByte (codes "ple")
pleas-bytes = (omega arith, (omega arith, (omega arith, tt)))

base64_decode-base64_encode_example : base64_decode (codes "cGxl") ≡ codes "ple"
unfolding runs
base64_decode-base64_encode_example =
    base64_decode-base64_encode always (codes "ple") (codes "cGxl") pleas-bytes refl

ws_generate_accept_key_returns_example :
    (accept_key : Bytes) × (ws_generate_accept_key always (codes "x") ≡ some accept_key)
    × (length accept_key ≡ 28)
ws_generate_accept_key_returns_example = ws_generate_accept_key_returns always (codes "x") refl

abbrev header : Bytes → Bytes → HeaderNode
header name value = record { name = map tolower name; raw_name = name; value = value }

-- The request of RFC 6455, section 1.2.
abbrev sample : HttpRequest
sample = record http_request_create {
  headers =
      header (codes "Upgrade") (codes "WebSocket")
      ∷ header (codes "Connection") (codes "keep-alive, Upgrade")
      ∷ header (codes "Sec-WebSocket-Key") (codes "dGhlIHNhbXBsZSBub25jZQ==")
      ∷ header (codes "Sec-WebSocket-Version") (codes "13")
      ∷ [];
}

sample-IsUpgrade : IsUpgrade always sample
unfolding runs
sample-IsUpgrade = record {
  upgrade = refl;
  connection = refl;
  key = codes "dGhlIHNhbXBsZSBub25jZQ==";
  key-given = refl;
  key-nonempty = omega arith;
  version = refl;
}

websocket_handle_upgrade-IsUpgrade_example :
    let (res', accepted) = websocket_handle_upgrade always sample http_response_create in
    (accepted ≡ true)
    × (res'.status ≡ 101)
    × (header_value res'.headers (codes "upgrade") ≡ some (codes "websocket"))
    × (header_value res'.headers (codes "connection") ≡ some (codes "Upgrade"))
    × (header_value res'.headers (codes "sec-websocket-accept")
        ≡ ws_generate_accept_key always sample-IsUpgrade.key)
websocket_handle_upgrade-IsUpgrade_example =
    websocket_handle_upgrade-IsUpgrade always sample http_response_create always-Granted
      sample-IsUpgrade

sample-accepted : (websocket_handle_upgrade always sample http_response_create).1 ≡ true
unfolding runs
sample-accepted = refl

IsUpgrade-websocket_handle_upgrade_example : IsUpgrade always sample
IsUpgrade-websocket_handle_upgrade_example =
    IsUpgrade-websocket_handle_upgrade always sample http_response_create sample-accepted
