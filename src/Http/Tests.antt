-- ===== src/Http/Tests.antt =====
-- Runs of the list operations of src/http_server.c, and the theorems at concrete lists.
use modern_c_web_library.Base.{ℕ, ◌≡◌, refl, Bool, true, some, List, [], ◌∷◌, codes, str_eq}
use modern_c_web_library.Http.{
  HeaderNode, param_list_get, param_list_set, header_list_add, response_forces_close,
  http_response_create, http_response_set_header,
}
use modern_c_web_library.Http.Lists.{Granted, param_list_get-set}

abbrev always : ℕ → Bool
always n = true

always-Granted : Granted always
always-Granted n = refl

abbrev host : List HeaderNode
host = record { name = codes "host"; raw_name = codes "Host"; value = codes "a" } ∷ []

param_list_get-set_example :
    param_list_get
      (param_list_set always
        (record { key = codes "id"; value = codes "1" } ∷ [])
        (codes "id")
        (codes "2")).0
      (codes "id")
    ≡ some (codes "2")
unfolding param_list_set str_eq
param_list_get-set_example =
    param_list_get-set always (record { key = codes "id"; value = codes "1" } ∷ []) (codes "id")
      (codes "id") (codes "2")

closes :
    response_forces_close
      (http_response_set_header always http_response_create (codes "connection") (codes "CLOSE"))
    ≡ true
unfolding response_forces_close http_response_set_header header_list_add http_response_create
closes = refl
