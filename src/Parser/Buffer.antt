-- ===== src/Parser/Buffer.antt =====
-- src/http_server.c: what `find_crlf`, `parser_consume`, `grow_cap` and `ensure_buffer_capacity` do.
use modern_c_web_library.Base.{
  ℕ, zero, suc, ◌+◌, ◌*◌, ◌≡◌, ◌≤◌, ◌<◌, ◌^◌, inl, inr, refl, Bool, true, some, List, [], ◌∷◌,
  arith, Bytes, length, drop, Option-cases, size_add,
}
use modern_c_web_library.Parser.{
  HttpParser, grow_cap, start_cap, find_crlf, parser_consume, ensure_buffer_capacity,
  max_request_buffer,
}

pub drop-all {ℓ} : {A : Type ℓ} (n : ℕ) (xs : List A) → length xs ≤ n → drop n xs ≡ []
drop-all zero [] h = refl
drop-all zero (x ∷ xs) h = absurd (omega arith)
drop-all (suc n) [] h = refl
drop-all (suc n) (x ∷ xs) h = drop-all n xs (omega arith)

pub parser_consume_lem :
    (p : HttpParser) (n : ℕ) → parser_consume p n ≡ record p { buffer = drop n p.buffer }
unfolding parser_consume
parser_consume_lem p zero = refl
parser_consume_lem p (suc n) = ground (arith, drop-all (suc n) p.buffer)

-- `find_crlf` gives the place of the first CR LF: it stands inside the buffer.
pub find_crlf-lt : (s : Bytes) (i : ℕ) → find_crlf s ≡ some i → i + 2 ≤ length s
unfolding find_crlf
find_crlf-lt [] i h = ground arith
find_crlf-lt (c ∷ []) i h = ground arith
find_crlf-lt (c ∷ d ∷ s) i h = elim (Option-cases (find_crlf (d ∷ s))) [
  | inl e ↦ ground (arith, e)
  | inr (j, e) ↦ ground (arith, e, find_crlf-lt (d ∷ s) j e)
]

-- With enough fuel the loop reaches a capacity that suffices and is within the limit.
pub grow_cap_bounds :
    (fuel limit required cap : ℕ)
    → 0 < cap
    → cap ≤ limit
    → required ≤ limit
    → required ≤ cap + fuel
    → (required ≤ grow_cap fuel limit required cap) × (grow_cap fuel limit required cap ≤ limit)
unfolding grow_cap
grow_cap_bounds zero limit required cap h₀ h₁ h₂ h₃ = omega arith
grow_cap_bounds (suc fuel) limit required cap h₀ h₁ h₂ h₃ =
    ground (arith, grow_cap_bounds fuel limit required (cap * 2))

-- The capacity only grows, and afterwards holds what was asked for.
pub ensure_buffer_capacity_lem :
    (alloc : ℕ → Bool) (p : HttpParser) (n : ℕ) (p' : HttpParser)
    → length p.buffer ≤ p.buffer_cap
    → p.buffer_cap ≤ max_request_buffer
    → n < 2 ^ 63
    → ensure_buffer_capacity alloc p n ≡ (p', true)
    → (p' ≡ record p { buffer_cap = p'.buffer_cap })
      × (length p.buffer + n ≤ p'.buffer_cap)
      × (p'.buffer_cap ≤ max_request_buffer)
unfolding ensure_buffer_capacity
ensure_buffer_capacity_lem alloc p n p' h₀ h₁ h₂ e = ground (
  arith,
  grow_cap_bounds (size_add (length p.buffer) n) max_request_buffer (size_add (length p.buffer) n)
      (start_cap p.buffer_cap),
)
