-- ===== src/Json/RoundTrip/Scan.antt =====
-- src/json.c: the loop of `parse_string` on what was printed.
use modern_c_web_library.Base.{
  ℕ, ◌≡◌, ◌≢◌, refl, Bool, true, false, some, [], ◌∷◌, ◌++◌, append_assoc, Bytes, if◌then◌else◌,
  ◌==◌, arith, All,
}
use modern_c_web_library.Json.Parse.{scan_string}
use modern_c_web_library.Json.Print.Text.{escaped_char, escaped}

scan_string-char :
    (c : ℕ) (s a rest : Bytes)
    → c ≢ b'"'
    → c ≢ b'\\'
    → scan_string s ≡ some (a, rest)
    → scan_string (c ∷ s) ≡ some (c ∷ a, rest)
unfolding scan_string
scan_string-char c [] a rest h k e = ground arith
scan_string-char c (d ∷ s) a rest h k e = rw e (ground (arith, h, k))

scan_string-pair :
    (d : ℕ) (s a rest : Bytes)
    → scan_string s ≡ some (a, rest)
    → scan_string (b'\\' ∷ d ∷ s) ≡ some (b'\\' ∷ d ∷ a, rest)
unfolding scan_string
scan_string-pair d s a rest e = rw e refl

scan_string-quote : (rest : Bytes) → scan_string (b'"' ∷ rest) ≡ some ([], rest)
unfolding scan_string
scan_string-quote [] = refl
scan_string-quote (d ∷ rest) = refl

if-result {ℓ κ} :
    {A : Type ℓ} (P : A → Type κ) (b : Bool) (x y : A)
    → (b ≡ true → P x)
    → (b ≡ false → P y)
    → P (if b then x else y)
if-result P true x y h k = h refl
if-result P false x y h k = k refl

scan_string-escaped_char :
    (c : ℕ) (s a rest : Bytes)
    → scan_string s ≡ some (a, rest)
    → scan_string (escaped_char c ++ s) ≡ some (escaped_char c ++ a, rest)
scan_string-escaped_char c s a rest e =
    if-result P (c == b'"') _ _ (λ _. scan_string-pair b'"' s a rest e)
      λ h.
        if-result P (c == b'\\') _ _ (λ _. scan_string-pair b'\\' s a rest e)
          λ k.
            if-result P (c == b'\n') _ _ (λ _. scan_string-pair b'n' s a rest e)
              λ _.
                if-result P (c == b'\r') _ _ (λ _. scan_string-pair b'r' s a rest e)
                  λ _.
                    if-result P (c == b'\t') _ _ (λ _. scan_string-pair b't' s a rest e)
                      λ _. scan_string-char c s a rest (ground (arith, h)) (ground (arith, k)) e
  where
    P : Bytes → Type 0
    P x = scan_string (x ++ s) ≡ some (x ++ a, rest)

-- A string that was escaped ends at the quote behind it, and its escapes stay.
pub scan_string-escaped :
    (s rest : Bytes) → scan_string (escaped s ++ (b'"' ∷ rest)) ≡ some (escaped s, rest)
unfolding escaped
scan_string-escaped [] rest = scan_string-quote rest
scan_string-escaped (c ∷ s) rest =
    rw (append_assoc (escaped_char c) (escaped s) (b'"' ∷ rest))
      (scan_string-escaped_char c _ (escaped s) rest (scan_string-escaped s rest))

-- A byte that is no quote and no backslash.
abbrev pub PlainByte : ℕ → Type 0
PlainByte c = (c ≢ b'"') × (c ≢ b'\\')

pub scan_string-plain :
    (s rest : Bytes) → All PlainByte s → scan_string (s ++ (b'"' ∷ rest)) ≡ some (s, rest)
scan_string-plain [] rest p = scan_string-quote rest
scan_string-plain (c ∷ s) rest ((h, k), q) =
    scan_string-char c _ s rest h k (scan_string-plain s rest q)
