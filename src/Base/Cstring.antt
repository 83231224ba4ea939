-- ===== src/Base/Cstring.antt =====
-- Bytes and C strings: a C string is the list of its bytes before the terminating NUL. The
-- functions of <string.h>, <strings.h> and <ctype.h> that the sources call, in the C locale.
use Prim.Native.Nat.{ℕ, zero, suc, ◌+◌, ◌≤◌}
use Prim.Native.Char.{code}
use Prim.Native.String.{String}
use mathlib.Core.Path.{◌≡◌, refl}
use mathlib.Core.Logic.{◌↔◌}
use mathlib.Core.Bool.{Bool, true, false, ◌&&◌, ◌||◌}
use mathlib.Core.Option.{Option, none, some}
use mathlib.Core.List.{List, [], ◌∷◌, ◌++◌, map}
use native.Mathlib.Omega.{arith}
use modern_c_web_library.Base.Tests.{leb, ◌==◌, if◌then◌else◌}
use modern_c_web_library.Base.Lists.{length}

abbrev pub Bytes : Type 0
Bytes = List ℕ

-- The bytes of a literal of the source.
abbrev pub codes : String → Bytes
codes String.[] = []
codes (String.◌∷◌ c s) = code c ∷ codes s

-- What `%s`, `strdup` and `strlen` see of a byte array: the bytes before the first NUL.
unfoldable pub c_string : Bytes → Bytes
c_string [] = []
c_string (zero ∷ xs) = []
c_string (suc c ∷ xs) = suc c ∷ c_string xs

pub length-c_string : (xs : Bytes) → length (c_string xs) ≤ length xs
unfolding c_string
length-c_string [] = omega arith
length-c_string (zero ∷ xs) = omega arith
length-c_string (suc c ∷ xs) = omega (arith, length-c_string xs)

-- strcmp(a, b) == 0
unfoldable pub str_eq : Bytes → Bytes → Bool
str_eq [] [] = true
str_eq [] (y ∷ ys) = false
str_eq (x ∷ xs) [] = false
str_eq (x ∷ xs) (y ∷ ys) = x == y && str_eq xs ys

pub str_eq_refl : (xs : Bytes) → str_eq xs xs ≡ true
unfolding str_eq
str_eq_refl [] = refl
str_eq_refl (x ∷ xs) = ground (arith, str_eq_refl xs)

pub str_eq_sound : (xs ys : Bytes) → str_eq xs ys ≡ true → xs ≡ ys
unfolding str_eq
str_eq_sound [] [] h = refl
str_eq_sound [] (y ∷ ys) h = ground arith
str_eq_sound (x ∷ xs) [] h = ground arith
str_eq_sound (x ∷ xs) (y ∷ ys) h = ground (arith, str_eq_sound xs ys)

pub str_eq_iff : (xs ys : Bytes) → (str_eq xs ys ≡ true) ↔ (xs ≡ ys)
str_eq_iff xs ys = (str_eq_sound xs ys, λ e. rw e (str_eq_refl ys))

-- strncmp(s, prefix, strlen(prefix)) == 0
unfoldable pub has_prefix : Bytes → Bytes → Bool
has_prefix [] s = true
has_prefix (p ∷ ps) [] = false
has_prefix (p ∷ ps) (c ∷ s) = p == c && has_prefix ps s

-- tolower and isspace
abbrev pub tolower : ℕ → ℕ
tolower c = if leb 65 c && leb c 90 then c + 32 else c

abbrev pub isspace : ℕ → Bool
isspace c = c == 32 || (leb 9 c && leb c 13)

-- strcasecmp(a, b) == 0
unfoldable pub strcase_eq : Bytes → Bytes → Bool
unfolding str_eq
strcase_eq a b = str_eq (map tolower a) (map tolower b)

-- strstr(s, needle) != NULL
unfoldable pub contains : Bytes → Bytes → Bool
unfolding has_prefix
contains needle [] = has_prefix needle []
contains needle (c ∷ s) = has_prefix needle (c ∷ s) || contains needle s

-- strcasestr(s, needle) != NULL
unfoldable pub contains_case : Bytes → Bytes → Bool
unfolding contains
contains_case needle s = contains (map tolower needle) (map tolower s)

-- strchr and memchr: the bytes before the first `c`, and those behind it.
unfoldable pub split_at : ℕ → Bytes → Option (Bytes × Bytes)
split_at c [] = none
split_at c (x ∷ xs) =
    if x == c
    then some ([], xs)
    else elim (split_at c xs) [ none ↦ none | some (a, b) ↦ some (x ∷ a, b) ]

pub split_at-eq : (c : ℕ) (s a b : Bytes) → split_at c s ≡ some (a, b) → s ≡ a ++ (c ∷ b)
unfolding split_at
split_at-eq c [] a b h = ground arith
split_at-eq c (x ∷ xs) a b h = go (split_at c xs) refl (split_at-eq c xs)
  where
    go :
        (r : Option (Bytes × Bytes))
        → split_at c xs ≡ r
        → ((a b : Bytes) → split_at c xs ≡ some (a, b) → xs ≡ a ++ (c ∷ b))
        → x ∷ xs ≡ a ++ (c ∷ b)
    go none e ih = ground arith
    go (some (a', b')) e ih = ground (arith, ih a' b' e)

-- while (*s == ' ') s++
unfoldable pub skip_spaces : Bytes → Bytes
skip_spaces [] = []
skip_spaces (c ∷ s) = if c == 32 then skip_spaces s else c ∷ s

pub length-skip_spaces : (s : Bytes) → length (skip_spaces s) ≤ length s
unfolding skip_spaces
length-skip_spaces [] = omega arith
length-skip_spaces (c ∷ s) = ground (arith, length-skip_spaces s)
