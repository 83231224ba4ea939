-- ===== src/Http.antt =====
-- include/weblib.h: methods, requests and responses; src/http_server.c, lines 25 to 36 and 508 to
-- 718: header lists, parameter lists, and the accessors of weblib.h built on them.
-- `alloc n` says whether the allocator grants a request for `n` bytes.
pub mod Lists
mod Tests
use modern_c_web_library.Base.{
  ℕ, suc, ◌+◌, Bool, true, false, Option, none, some, List, [], ◌∷◌, ◌++◌, map, ◌&&◌, codes, Bytes,
  length, if◌then◌else◌, str_eq, strcase_eq, tolower,
}

-- `http_method_t`
pub data HttpMethod : Type 0 where
  http_get http_post http_put http_delete http_patch http_head http_options : HttpMethod

-- `http_header_node_t`; the `next` pointers are the list.
pub record HeaderNode : Type 0 where
  pub name : Bytes
  pub raw_name : Bytes
  pub value : Bytes

-- `http_param_node_t`
pub record ParamNode : Type 0 where
  pub key : Bytes
  pub value : Bytes

-- `http_request_t`. A null pointer is `none`; `user_data` is an address that is only handed on.
pub record HttpRequest : Type 0 where
  pub method : HttpMethod
  pub path : Option Bytes
  pub query_string : Option Bytes
  pub body : Bytes
  pub body_length : ℕ
  pub headers : List HeaderNode
  pub params : List ParamNode
  pub user_data : Option ℕ
  pub socket_fd : ℕ

-- `http_response_t`
pub record HttpResponse : Type 0 where
  pub status : ℕ
  pub body : Option Bytes
  pub body_length : ℕ
  pub headers : List HeaderNode
  pub sent : Bool

-- `http_request_create`: calloc, so every field is zero.
unfoldable pub http_request_create : HttpRequest
http_request_create = record {
  method = http_get;
  path = none;
  query_string = none;
  body = [];
  body_length = 0;
  headers = [];
  params = [];
  user_data = none;
  socket_fd = 0;
}

-- `http_response_create`
unfoldable pub http_response_create : HttpResponse
http_response_create = record {
  status = 200;
  body = none;
  body_length = 0;
  headers = [];
  sent = false;
}

-- `header_list_find`: the value of the first node of that lower-case name.
unfoldable pub header_list_find : List HeaderNode → Bytes → Option HeaderNode
header_list_find [] name = none
header_list_find (node ∷ rest) name =
    if str_eq node.name name then some node else header_list_find rest name

-- The replacement of `existing` in place. The name is kept, value and raw name are new.
unfoldable pub header_list_replace : List HeaderNode → Bytes → Bytes → Bytes → List HeaderNode
header_list_replace [] name raw value = []
header_list_replace (node ∷ rest) name raw value =
    if str_eq node.name name
    then record node { raw_name = raw; value = value } ∷ rest
    else node ∷ header_list_replace rest name raw value

-- `param_list_get`
unfoldable pub param_list_get : List ParamNode → Bytes → Option Bytes
param_list_get [] key = none
param_list_get (node ∷ rest) key =
    if str_eq node.key key then some node.value else param_list_get rest key

-- The loop of `param_list_set` that looks for the key; `none` when no node has it.
unfoldable pub param_list_replace : List ParamNode → Bytes → Bytes → Option (List ParamNode)
param_list_replace [] key value = none
param_list_replace (node ∷ rest) key value =
    if str_eq node.key key
    then some (record node { value = value } ∷ rest)
    else elim (param_list_replace rest key value) [ none ↦ none | some rest' ↦ some (node ∷ rest') ]

abbrev pub sizeof_header_node : ℕ
sizeof_header_node = 32

abbrev pub sizeof_param_node : ℕ
sizeof_param_node = 24

module _ (alloc : ℕ → Bool) where
  -- `header_list_add`; the Boolean is true for the result 0 and false for -1. A value that is
  -- replaced is replaced before the raw name is copied, so a failure there leaves it replaced.
  unfoldable pub header_list_add :
      List HeaderNode → Bytes → Bytes → Bytes → Bool → List HeaderNode × Bool
  unfolding header_list_find header_list_replace
  header_list_add head name raw value replace_existing =
      if alloc (length name + 1)
      then elim (header_list_find head lower) [
        | none ↦ append
        | some existing ↦
            if replace_existing
            then if alloc (length value + 1)
              then if alloc (length raw + 1)
                then (header_list_replace head lower raw value, true)
                else (header_list_replace head lower existing.raw_name value, false)
              else (head, false)
            else append
      ]
      else (head, false)
    where
      lower : Bytes
      lower = map tolower name

      append : List HeaderNode × Bool
      append =
          if alloc sizeof_header_node && alloc (length raw + 1) && alloc (length value + 1)
          then (head ++ (record { name = lower; raw_name = raw; value = value } ∷ []), true)
          else (head, false)

  -- `param_list_set`
  unfoldable pub param_list_set : List ParamNode → Bytes → Bytes → List ParamNode × Bool
  unfolding param_list_replace
  param_list_set head key value = elim (param_list_replace head key value) [
    | some head' ↦ if alloc (length value + 1) then (head', true) else (head, false)
    | none ↦
        if alloc sizeof_param_node && alloc (length key + 1) && alloc (length value + 1)
        then (record { key = key; value = value } ∷ head, true)
        else (head, false)
  ]

  -- `http_request_set_param`
  unfoldable pub http_request_set_param : HttpRequest → Bytes → Bytes → HttpRequest × Bool
  http_request_set_param req key value =
      let (params, ok) = param_list_set req.params key value in (record req { params = params }, ok)

  -- `http_request_get_header`
  unfoldable pub http_request_get_header : HttpRequest → Bytes → Option Bytes
  http_request_get_header req key =
      if alloc (length key + 1)
      then elim (header_list_find req.headers (map tolower key)) [
        | none ↦ none
        | some node ↦ some node.value
      ]
      else none

  -- `http_response_set_header`
  unfoldable pub http_response_set_header : HttpResponse → Bytes → Bytes → HttpResponse
  http_response_set_header res key value = record res {
    headers = (header_list_add res.headers key key value true).0;
  }

  -- `http_response_send_text`: an allocation failure leaves the response as it was.
  unfoldable pub http_response_send_text : HttpResponse → ℕ → Bytes → HttpResponse
  http_response_send_text res status text =
      if alloc (length text + 1)
      then record res { body = some text; body_length = length text; status = status }
      else res

-- `http_request_get_param`
unfoldable pub http_request_get_param : HttpRequest → Bytes → Option Bytes
http_request_get_param req key = param_list_get req.params key

-- `response_forces_close`: the first Connection header that says close or keep-alive decides.
unfoldable pub forces_close : List HeaderNode → Bool
forces_close [] = false
forces_close (node ∷ rest) =
    if str_eq node.name (codes "connection")
    then if strcase_eq node.value (codes "close")
      then true
      else if strcase_eq node.value (codes "keep-alive")
      then false
      else forces_close rest
    else forces_close rest

unfoldable pub response_forces_close : HttpResponse → Bool
unfolding forces_close str_eq strcase_eq
response_forces_close res = forces_close res.headers
