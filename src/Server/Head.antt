-- ===== src/Server/Head.antt =====
-- src/http_server.c: the text that `serialize_response` writes, and its room.
use modern_c_web_library.Base.{
  ℕ, zero, suc, ◌+◌, ◌*◌, ◌/◌, ◌%◌, ◌^◌, ◌≤◌, ◌<◌, ◌≡◌, refl, sym, ap, ◌∙◌, Bool, true, some, List,
  [], ◌∷◌, ◌++◌, append_assoc, append-nil, codes, Bytes, length, length-append, leb, arith,
  Bool-cases, inl, inr,
}
use modern_c_web_library.Http.{HeaderNode, HttpResponse}
use modern_c_web_library.Http.Lists.{Granted}
use modern_c_web_library.Server.{
  status_reason_phrase, decimal_before, decimal, Buffered, buffered, ◌>>=◌, widen, print_behind,
  status_line, header_line, ensure_header_capacity, write_headers, end_header, write_head,
}

-- The lines of the headers.
abbrev pub header_lines : List HeaderNode → Bytes
header_lines [] = []
header_lines (node ∷ rest) = header_line node ++ header_lines rest

-- The status line, the headers and the empty line.
abbrev pub head_text : HttpResponse → Bytes
head_text res = status_line res.status ++ (header_lines res.headers ++ codes "\r\n")

length-decimal_before :
    (places n : ℕ) (digits : Bytes)
    → length (decimal_before places n digits) ≤ places + length digits
unfolding decimal_before
length-decimal_before zero n digits = omega arith
length-decimal_before (suc places) n digits =
    ground (arith, length-decimal_before places (n / 10) ((n % 10 + 48) ∷ digits))

length-status_reason_phrase : (status : ℕ) → length (status_reason_phrase status) ≤ 21
length-status_reason_phrase status = ground arith

length-status_line : (status : ℕ) → length (status_line status) ≤ 53
length-status_line status = omega (
  arith,
  length-append (codes "HTTP/1.1 ")
      (decimal status ++ (b' ' ∷ (status_reason_phrase status ++ codes "\r\n"))),
  length-append (decimal status) (b' ' ∷ (status_reason_phrase status ++ codes "\r\n")),
  length-append (status_reason_phrase status) (codes "\r\n"),
  length-decimal_before 20 status [],
  length-status_reason_phrase status,
)

-- The loop finds a capacity that is more than the need.
widen_lem :
    (fuel need new_cap : ℕ)
    → 0 < new_cap
    → need < new_cap + fuel
    → need < 2 ^ 62
    → (cap : ℕ) × (widen fuel need new_cap ≡ some cap) × (need < cap) × (0 < cap)
unfolding widen
widen_lem zero need new_cap pos enough small =
    (new_cap, ground (arith, enough), omega (arith, enough), pos)
widen_lem (suc fuel) need new_cap pos enough small = elim (Bool-cases (leb new_cap need)) [
  | inl low ↦
      let le : new_cap ≤ need = ground (arith, low) in
      let (cap, found, more, pos') =
        widen_lem fuel need (new_cap * 2 % 2 ^ 64) (omega (arith, pos, le, small))
          (omega (arith, enough, le, small, pos)) small in
      (cap, rw low found, more, pos')
  | inr high ↦ (new_cap, rw high refl, ground (arith, high), pos)
]

length-header_line :
    (node : HeaderNode) → length (header_line node) ≡ length node.raw_name + length node.value + 4
length-header_line node = omega (
  arith,
  length-append node.raw_name (b':' ∷ b' ' ∷ (node.value ++ codes "\r\n")),
  length-append node.value (codes "\r\n"),
)

-- A text is in the buffer, and room for a NUL.
abbrev Holds : Bytes → Buffered → Type 0
Holds text out = (cap : ℕ) × (out ≡ buffered text cap) × (length text < cap)

print_behind-Holds :
    (s text : Bytes) (cap : ℕ)
    → length text + length s < cap
    → Holds (text ++ s) (print_behind s text cap)
print_behind-Holds s text cap le =
    (cap, ground (arith, le), omega (arith, le, length-append text s))

Holds->>= :
    (text text' : Bytes) (out : Buffered) (f : Bytes × ℕ → Buffered)
    → Holds text out
    → ((cap : ℕ) → length text < cap → Holds text' (f (text, cap)))
    → Holds text' (out >>= f)
Holds->>= text text' out f (cap, e, le) k = rw e (k cap le)

module _ (alloc : ℕ → Bool) (granted : Granted alloc) where
  ensure_header_capacity-Holds :
      (need cap : ℕ) (text : Bytes)
      → length text < cap
      → need < 2 ^ 62
      → (cap' : ℕ) × (ensure_header_capacity alloc need text cap ≡ buffered text cap')
        × (need < cap')
  unfolding ensure_header_capacity
  ensure_header_capacity-Holds need cap text le small = elim (Bool-cases (leb cap need)) [
    | inl low ↦
        let low' : cap ≤ need = ground (arith, low) in
        let (cap', found, more, _) =
          widen_lem need need (cap * 2 % 2 ^ 64) (omega (arith, le, low', small))
            (omega (arith, le, low', small)) small in
        (cap', ground (arith, low, found, granted cap'), more)
    | inr high ↦ (cap, rw high refl, ground (arith, high))
  ]

  write_headers-Holds :
      (headers : List HeaderNode) (text : Bytes) (cap : ℕ)
      → length text < cap
      → length text + length (header_lines headers) < 2 ^ 62
      → Holds (text ++ header_lines headers) (write_headers alloc headers text cap)
  unfolding write_headers
  write_headers-Holds [] text cap le small = (
    cap,
    ap (λ t. buffered t cap) (sym (append-nil text)),
    omega (arith, le, ap length (append-nil text)),
  )
  write_headers-Holds (node ∷ rest) text cap le small =
      let line = length-header_line node in
      let lines : length (header_line node ++ header_lines rest)
          ≡ length (header_line node) + length (header_lines rest) =
        length-append (header_line node) (header_lines rest) in
      let need = (length text + length node.raw_name + length node.value + 4) % 2 ^ 64 in
      let exact : need ≡ length text + length (header_line node) =
        omega (arith, line, lines, small) in
      let (cap', e, more) =
        ensure_header_capacity-Holds need cap text le (omega (arith, exact, lines, small)) in
      rw e (
        Holds->>= (text ++ header_line node) _ (print_behind (header_line node) text cap') _
          (print_behind-Holds (header_line node) text cap' (omega (arith, exact, more)))
          λ cap'' le'. rw (sym (append_assoc text (header_line node) (header_lines rest))) (
            write_headers-Holds rest (text ++ header_line node) cap'' le'
              (omega (arith, small, lines, length-append text (header_line node)))))

  end_header-Holds :
      (text : Bytes) (cap : ℕ)
      → length text < cap
      → (cap' : ℕ) × (end_header alloc text cap ≡ buffered (text ++ codes "\r\n") cap')
        × (length text + 2 ≤ cap')
  unfolding end_header
  end_header-Holds text cap le = elim (Bool-cases (leb cap (length text + 2))) [
    | inl low ↦ (cap + 2, ground (arith, low, granted (cap + 2), le), omega (arith, le))
    | inr high ↦ (cap, ground (arith, high, le), ground (arith, high))
  ]

  lines-Holds :
      (line : Bytes) (headers : List HeaderNode)
      → length line ≤ 53
      → length (header_lines headers) + 53 < 2 ^ 62
      → (cap : ℕ) × ((print_behind line [] 256
            >>= (λ out. write_headers alloc headers out.0 out.1)
            >>= (λ out. end_header alloc out.0 out.1))
          ≡ buffered (line ++ (header_lines headers ++ codes "\r\n")) cap)
        × (length (line ++ (header_lines headers ++ codes "\r\n")) ≤ cap)
  lines-Holds line headers short small =
      let (cap, e, le) = print_behind-Holds line [] 256 (omega (arith, short)) in
      let (cap', e', le') = write_headers-Holds headers line cap le (omega (arith, short, small)) in
      let (cap'', e'', le'') = end_header-Holds (line ++ header_lines headers) cap' le' in
      let joined = append_assoc line (header_lines headers) (codes "\r\n") in
      (
        cap'',
        ap
              (λ out.
                out
                >>= (λ out. write_headers alloc headers out.0 out.1)
                >>= (λ out. end_header alloc out.0 out.1))
              e
            ∙ ap (λ out. out >>= (λ out. end_header alloc out.0 out.1)) e'
            ∙ e''
            ∙ ap (λ t. buffered t cap'') joined,
        omega (
          arith,
          le'',
          ap length joined,
          length-append (line ++ header_lines headers) (codes "\r\n"),
        ),
      )

  pub write_head-Holds :
      (res : HttpResponse)
      → length (header_lines res.headers) + 53 < 2 ^ 62
      → (cap : ℕ) × (write_head alloc res ≡ buffered (head_text res) cap)
        × (length (head_text res) ≤ cap)
  unfolding write_head
  write_head-Holds res small =
      let (cap, e, le) =
        lines-Holds (status_line res.status) res.headers (length-status_line res.status) small in
      (cap, begun (granted 256) ∙ e, le)
    where
      begun :
          alloc 256 ≡ true
          → write_head alloc res ≡ (
              print_behind (status_line res.status) [] 256
              >>= (λ out. write_headers alloc res.headers out.0 out.1)
              >>= (λ out. end_header alloc out.0 out.1))
      begun e = rw e refl
