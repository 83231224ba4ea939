-- ===== src/Router/Params.antt =====
-- src/router.c, `extract_params`: which values the handler finds under which names.
use modern_c_web_library.Base.{
  ℕ, ◌+◌, ◌≡◌, ◌≢◌, refl, ◌∙◌, Bool, some, List, [], ◌∷◌, ◌++◌, arith, Bytes, length, if◌then◌else◌,
  str_eq, str_eq_iff, str_eq_refl, All,
}
use modern_c_web_library.Http.{HttpRequest, http_request_set_param, http_request_get_param}
use modern_c_web_library.Http.Lists.{Granted, param_list_get-set, param_list_set-Granted}
use modern_c_web_library.Router.{extract_step, extract_segments, extract_params, segments}

module _ (alloc : ℕ → Bool) (g : Granted alloc) where
  get_param-set_param :
      (req : HttpRequest) (key value k : Bytes)
      → http_request_get_param (http_request_set_param alloc req key value).0 k
        ≡ (if str_eq key k then some value else http_request_get_param req k)
  unfolding http_request_get_param http_request_set_param
  get_param-set_param req key value k = ground (
    arith,
    param_list_get-set alloc req.params key k value,
    param_list_set-Granted alloc req.params key value g,
  )

  -- A segment other than `:key` leaves the parameter `key` alone.
  get_param-step_ne :
      (req : HttpRequest) (p s : Bytes) (k : ℕ) (key : Bytes)
      → p ≢ b':' ∷ k ∷ key
      → http_request_get_param (extract_step alloc req p s) (k ∷ key)
        ≡ http_request_get_param req (k ∷ key)
  unfolding extract_step
  get_param-step_ne req [] s k key h = refl
  get_param-step_ne req (c ∷ []) s k key h = refl
  get_param-step_ne req (c ∷ k' ∷ key') s k key h =
      ground
        (arith, get_param-set_param req (k' ∷ key') s (k ∷ key), str_eq_iff (k' ∷ key') (k ∷ key))

  get_param-step_self :
      (req : HttpRequest) (k : ℕ) (key s : Bytes)
      → http_request_get_param (extract_step alloc req (b':' ∷ k ∷ key) s) (k ∷ key) ≡ some s
  unfolding extract_step
  get_param-step_self req k key s =
      ground (arith, get_param-set_param req (k ∷ key) s (k ∷ key), str_eq_refl (k ∷ key))

  get_param-segments_ne :
      (req : HttpRequest) (ps ss : List Bytes) (k : ℕ) (key : Bytes)
      → All (λ p. p ≢ b':' ∷ k ∷ key) ps
      → http_request_get_param (extract_segments alloc req ps ss) (k ∷ key)
        ≡ http_request_get_param req (k ∷ key)
  unfolding extract_segments
  get_param-segments_ne req [] ss k key h = refl
  get_param-segments_ne req (p ∷ ps) [] k key h = refl
  get_param-segments_ne req (p ∷ ps) (s ∷ ss) k key (h, hs) =
      get_param-segments_ne (extract_step alloc req p s) ps ss k key hs
      ∙ get_param-step_ne req p s k key h

  get_param-segments :
      (req : HttpRequest) (ps ss ps' ss' : List Bytes) (k : ℕ) (key s : Bytes)
      → length ps ≡ length ss
      → All (λ p. p ≢ b':' ∷ k ∷ key) ps'
      → http_request_get_param
          (extract_segments alloc req (ps ++ ((b':' ∷ k ∷ key) ∷ ps')) (ss ++ (s ∷ ss')))
          (k ∷ key)
        ≡ some s
  unfolding extract_segments
  get_param-segments req [] [] ps' ss' k key s h hs =
      get_param-segments_ne (extract_step alloc req (b':' ∷ k ∷ key) s) ps' ss' k key hs
      ∙ get_param-step_self req k key s
  get_param-segments req [] (x ∷ ss) ps' ss' k key s h hs = absurd (omega arith)
  get_param-segments req (p ∷ ps) [] ps' ss' k key s h hs = absurd (omega arith)
  get_param-segments req (p ∷ ps) (x ∷ ss) ps' ss' k key s h hs =
      get_param-segments (extract_step alloc req p x) ps ss ps' ss' k key s (omega arith) hs

  extract_params-granted :
      (req : HttpRequest) (pattern path : Bytes)
      → extract_params alloc req pattern path
        ≡ extract_segments alloc req (segments pattern) (segments path)
  unfolding extract_params
  extract_params-granted req pattern path =
      ground (arith, g (length pattern + 1), g (length path + 1))

  -- When memory is granted: if the segment `:key` of the pattern, whose name is not empty, stands
  -- at the place of the segment `s` of the path, and no later segment of the pattern is `:key`,
  -- then after the extraction the parameter `key` is `s`, exactly as it stands in the path.
  pub get_param-extract_params :
      (req : HttpRequest) (pattern path : Bytes) (ps ss ps' ss' : List Bytes) (k : ℕ)
      (key s : Bytes)
      → segments pattern ≡ ps ++ ((b':' ∷ k ∷ key) ∷ ps')
      → segments path ≡ ss ++ (s ∷ ss')
      → length ps ≡ length ss
      → All (λ p. p ≢ b':' ∷ k ∷ key) ps'
      → http_request_get_param (extract_params alloc req pattern path) (k ∷ key) ≡ some s
  get_param-extract_params req pattern path ps ss ps' ss' k key s hp hs len fresh =
      rw (extract_params-granted req pattern path, hp, hs)
        (get_param-segments req ps ss ps' ss' k key s len fresh)
