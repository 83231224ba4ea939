-- ===== src/Json/Print/Room.antt =====
-- src/json.c: one write into the buffer, and a string, with some room.
use modern_c_web_library.Base.{
  ℕ, zero, suc, ◌+◌, ◌-◌, ◌*◌, ◌%◌, ◌^◌, ◌≤◌, ◌<◌, ◌≡◌, sym, ◌∙◌, Bool, true, false, some, [], ◌∷◌,
  ◌++◌, append_assoc, append-nil, codes, Bytes, length, length-append, if◌then◌else◌, ◌==◌, ltb,
  arith, max, Bool-cases, inl, inr,
}
use modern_c_web_library.Http.Lists.{Granted}
use modern_c_web_library.Json.Print.{
  Output, Printed, printed, not_printed, overrun, hung, ◌>>=◌, snprintf, put_char, double_capacity,
  ensure_capacity, write_escaped, stringify_char, stringify_chars, stringify_string,
}
use modern_c_web_library.Json.Print.Text.{escaped_char, escaped, spend}

-- `t` stands in the buffer, nothing was cut, and `r` bytes are free behind it.
abbrev pub Room : Bytes → ℕ → Output → Type 0
Room t r out =
    (out.text ≡ t)
    × (out.cut ≡ false)
    × (out.output_length ≡ length t)
    × (length t + r ≤ out.capacity)

abbrev pub Yields : (Output → Type 0) → Printed → Type 0
Yields P (printed out) = P out
Yields P not_printed = ⊥
Yields P overrun = ⊥
Yields P hung = ⊥

pub Yields->>= :
    (P Q : Output → Type 0) (r : Printed) (f : Output → Printed)
    → Yields P r
    → ((out : Output) → P out → Yields Q (f out))
    → Yields Q (r >>= f)
Yields->>= P Q (printed out) f h k = k out h
Yields->>= P Q not_printed f h k = absurd h
Yields->>= P Q overrun f h k = absurd h
Yields->>= P Q hung f h k = absurd h

pub snprintf-Room :
    (t s : Bytes) (r : ℕ) (out : Output)
    → Room t r out
    → length s < r
    → Yields (Room (t ++ s) (r - length s)) (snprintf s out)
unfolding snprintf
snprintf-Room t s r out (e₁, e₂, e₃, le) h = ground (arith, e₁, e₂, e₃, length-append t s)

put_char-Room :
    (t : Bytes) (c r : ℕ) (out : Output)
    → Room t r out
    → 0 < r
    → Yields (Room (t ++ (c ∷ [])) (r - 1)) (put_char c out)
unfolding put_char
put_char-Room t c r out (e₁, e₂, e₃, le) h = ground (arith, e₁, e₂, e₃, length-append t (c ∷ []))

pub Room-weaken : (t : Bytes) (r r' : ℕ) (out : Output) → r' ≤ r → Room t r out → Room t r' out
Room-weaken t r r' out h (e₁, e₂, e₃, le) = (e₁, e₂, e₃, omega (arith, le, h))

pub Yields-map :
    (P Q : Output → Type 0) (r : Printed)
    → Yields P r
    → ((out : Output) → P out → Q out)
    → Yields Q r
Yields-map P Q (printed out) h k = k out h
Yields-map P Q not_printed h k = h
Yields-map P Q overrun h k = h
Yields-map P Q hung h k = h

-- Two chains of tests of which every pair of results is in the relation.
if-pair {ℓ} :
    {A B : Type 0} (R : A → B → Type ℓ) (b : Bool) {a a' : A} {x x' : B}
    → R a x
    → R a' x'
    → R (if b then a else a') (if b then x else x')
if-pair R true h k = h
if-pair R false h k = k

write_escaped-Room :
    (t : Bytes) (c r : ℕ) (out : Output)
    → Room t r out
    → 10 ≤ r
    → Yields (Room (t ++ escaped_char c) (r - length (escaped_char c))) (write_escaped c out)
write_escaped-Room t c r out room big = if-pair R (c == b'"') (two (codes "\\\"") (omega arith)) (
    if-pair R (c == b'\\') (two (codes "\\\\") (omega arith)) (
      if-pair R (c == b'\n') (two (codes "\\n") (omega arith)) (
        if-pair R (c == b'\r') (two (codes "\\r") (omega arith)) (
          if-pair R (c == b'\t') (two (codes "\\t") (omega arith))
            (put_char-Room t c r out room (omega (arith, big)))))))
  where
    R : Bytes → Printed → Type 0
    R s x = Yields (Room (t ++ s) (r - length s)) x

    two : (s : Bytes) → length s ≤ 2 → R s (snprintf s out)
    two s le = snprintf-Room t s r out room (omega (arith, big, le))

length-escaped_char : (c : ℕ) → length (escaped_char c) ≤ 2
length-escaped_char c = ground arith

pub Room-text :
    (t t' : Bytes) (r r' : ℕ) (out : Output) → t ≡ t' → r' ≤ r → Room t r out → Room t' r' out
Room-text t t' r r' out e le h = rw (sym e) (Room-weaken t r r' out le h)

pub spend-eq : (q n r : ℕ) → spend q n ≡ some r → (n < q) × (r ≡ q - n)
spend-eq q n r e = ground arith

-- What is printed between two marks of one byte.
pub between : (t s u v : Bytes) → ((t ++ u) ++ s) ++ v ≡ t ++ (u ++ (s ++ v))
between t s u v = append_assoc (t ++ u) s v ∙ append_assoc t u (s ++ v)

module _ (alloc : ℕ → Bool) (granted : Granted alloc) where
  -- A buffer that lacks room gets twice its size.
  double_capacity-Room :
      (t : Bytes) (r more : ℕ) (out : Output)
      → Room t r out
      → 0 < r
      → out.capacity < length t + more
      → length t + more ≤ 2 ^ 63
      → Yields
          (λ out'. Room t r out' × (out'.capacity ≡ out.capacity + out.capacity))
          (double_capacity alloc out)
  unfolding double_capacity
  double_capacity-Room t r more out (e₁, e₂, e₃, le) pos h small =
      let fits : out.capacity * 2 % 2 ^ 64 ≡ out.capacity + out.capacity =
        omega (arith, h, small) in
      ground (arith, granted (out.capacity * 2 % 2 ^ 64), fits, e₁, e₂, e₃)

  pub ensure_capacity-Room :
      (fuel : ℕ) (t : Bytes) (r : ℕ) (out : Output)
      → Room t r out
      → 0 < r
      → length t + 256 ≤ out.capacity + fuel
      → length t + 256 ≤ 2 ^ 63
      → Yields (Room t 256) (ensure_capacity alloc fuel out)
  unfolding ensure_capacity
  ensure_capacity-Room zero t r out (e₁, e₂, e₃, le) pos h small = ground (arith, e₁, e₂, e₃)
  ensure_capacity-Room (suc fuel) t r out (e₁, e₂, e₃, le) pos h small =
      elim (Bool-cases (ltb out.capacity (out.output_length + 256))) [
        | inl low ↦
            let below : out.capacity < length t + 256 = ground (arith, low, e₃) in
            rw low (
              Yields->>= _ (Room t 256) (double_capacity alloc out) _
                (double_capacity-Room t r 256 out (e₁, e₂, e₃, le) pos below small)
                λ out' (room, e).
                  ensure_capacity-Room fuel t r out' room pos (omega (arith, e, h, le, pos)) small)
        | inr fine ↦ rw fine (e₁, e₂, e₃, ground (arith, fine, e₃))
      ]

  -- A character of a string, with its escape.
  stringify_char-Room :
      (t : Bytes) (c r : ℕ) (out : Output)
      → Room t r out
      → 8 ≤ r
      → length t + 10 ≤ 2 ^ 63
      → Yields
          (Room (t ++ escaped_char c) (max 8 (r - length (escaped_char c))))
          (stringify_char alloc c out)
  unfolding stringify_char
  stringify_char-Room t c r out (f₁, f₂, f₃, room) big small =
      let written : (q : ℕ)
          → max 10 r ≤ q
          → (out' : Output) → Room t q out'
          → Yields (Room (t ++ escaped_char c) (max 8 (r - length (escaped_char c))))
              (write_escaped c out') =
        λ q le out' h.
          Yields-map _ _ (write_escaped c out')
            (write_escaped-Room t c q out' h (omega (arith, le)))
            λ out''.
              Room-weaken (t ++ escaped_char c) _ _ out''
                (omega (arith, le, length-escaped_char c)) in
      elim (Bool-cases (ltb out.capacity (out.output_length + 10))) [
        | inl low ↦
            let below : out.capacity < length t + 10 = ground (arith, low, f₃) in
            rw low (
              Yields->>= _ _ (double_capacity alloc out) _
                (double_capacity-Room t r 10 out (f₁, f₂, f₃, room) (omega (arith, big)) below
                  small)
                λ out' ((e₁, e₂, e₃, le), e).
                  written (max 10 r) (omega arith) out'
                    (e₁, e₂, e₃, omega (arith, e, room, le, big, below)))
        | inr fine ↦
            rw fine
              (written (max 10 r) (omega arith) out (f₁, f₂, f₃, ground (arith, fine, f₃, room)))
      ]

  stringify_chars-Room :
      (t s : Bytes) (r : ℕ) (out : Output)
      → Room t r out
      → 8 ≤ r
      → length t + length (escaped s) + 10 ≤ 2 ^ 63
      → Yields
          (Room (t ++ escaped s) (max 8 (r - length (escaped s))))
          (stringify_chars alloc s out)
  unfolding stringify_chars escaped
  stringify_chars-Room t [] r out room big small =
      rw (append-nil t) (Room-weaken t r _ out (omega (arith, big)) room)
  stringify_chars-Room t (c ∷ s) r out room big small =
      let n = length (escaped_char c) in
      let split : length (escaped_char c ++ escaped s) ≡ n + length (escaped s) =
        length-append (escaped_char c) (escaped s) in
      let joined : length (t ++ escaped_char c) ≡ length t + n = length-append t (escaped_char c) in
      Yields->>= _ _ (stringify_char alloc c out) _
        (stringify_char-Room t c r out room big (omega (arith, small)))
        λ out' h.
          Yields-map _ _ (stringify_chars alloc s out')
            (stringify_chars-Room (t ++ escaped_char c) s (max 8 (r - n)) out' h (omega arith)
              (omega (arith, small, split, joined)))
            λ out'' h'.
              rw (sym (append_assoc t (escaped_char c) (escaped s)))
                (Room-weaken _ _ _ out'' (omega (arith, split)) h')

  pub stringify_string-Room :
      (t s : Bytes) (out : Output)
      → Room t 256 out
      → length t + length (escaped s) + 256 ≤ 2 ^ 63
      → Yields
          (Room (t ++ (b'"' ∷ escaped s ++ codes "\"")) (max 7 (254 - length (escaped s))))
          (stringify_string alloc s out)
  unfolding stringify_string
  stringify_string-Room t s out room small =
      let opened : length (t ++ codes "\"") ≡ length t + 1 = length-append t (codes "\"") in
      Yields->>= _ _ (snprintf (codes "\"") out) _
        (snprintf-Room t (codes "\"") 256 out room (omega arith))
        λ out₁ h₁.
          Yields->>= _ _ (stringify_chars alloc s out₁) _
            (stringify_chars-Room (t ++ codes "\"") s 255 out₁ h₁ (omega arith)
              (omega (arith, small, opened)))
            λ out₂ h₂.
              Yields-map _ _ (snprintf (codes "\"") out₂)
                (snprintf-Room _ (codes "\"") _ out₂ h₂ (omega arith))
                λ out₃.
                  Room-text _ _ _ _ out₃ (between t (escaped s) (codes "\"") (codes "\""))
                    (omega arith)
