-- ===== src/EventLoop/Arrays.antt =====
-- src/event_loop.c: an array with a count, as a list: an entry added at its end, and `remove_at`, which
-- fills the place that is freed from the end.
use modern_c_web_library.Base.{
  ℕ, zero, suc, ◌+◌, ◌-◌, ◌≤◌, ◌<◌, Bool, true, false, Option, none, some, List, [], ◌∷◌, ◌++◌, ◌≡◌,
  refl, sym, length, take, get_elem?, set, All, length-append, length-take, length-set, take-append,
  if◌then◌else◌, ltb, arith, ◌∙◌, ap,
}
use mathlib.Core.Option.{some-injective}
use modern_c_web_library.EventLoop.{remove_at}

module _ {ℓ} {A : Type ℓ} where
  get-append : (xs : List A) (x : A) → get_elem? (xs ++ (x ∷ [])) (length xs) ≡ some x
  get-append [] x = refl
  get-append (y ∷ xs) x = get-append xs x

  pub remove_at-append : (xs : List A) (x : A) → remove_at (xs ++ (x ∷ [])) (length xs) ≡ xs
  unfolding remove_at
  remove_at-append xs x = rw (
    remove_at,
    length-append xs (x ∷ []),
    last-index,
    get-append xs x,
    length-append xs (x ∷ []),
    last-index,
    not-moved,
    take-append xs (x ∷ []),
  )
    where
      last-index : length xs + 1 - 1 ≡ length xs
      last-index = omega arith

      not-moved : ltb (length xs) (length xs) ≡ false
      not-moved = ground arith

  pub length-remove_at : (xs : List A) (i : ℕ) → length (remove_at xs i) ≤ length xs
  unfolding remove_at
  length-remove_at xs i = go (get_elem? xs (length xs - 1))
    where
      go :
          (r : Option A)
          → length (elim r [
            | none ↦ []
            | some last ↦ take (length xs - 1) (if ltb i (length xs - 1) then set xs i last else xs)
          ])
            ≤ length xs
      go none = omega arith
      go (some x) =
          omega
            (arith, length-take (length xs - 1) (if ltb i (length xs - 1) then set xs i x else xs))

module _ {ℓ κ} {A : Type ℓ} (P : A → Type κ) where
  pub All-take : (n : ℕ) (xs : List A) → All P xs → All P (take n xs)
  All-take zero xs h = tt
  All-take (suc n) [] h = h
  All-take (suc n) (x ∷ xs) (p, h) = (p, All-take n xs h)

  pub All-set : (xs : List A) (i : ℕ) (v : A) → P v → All P xs → All P (set xs i v)
  All-set [] i v p h = h
  All-set (x ∷ xs) zero v p (q, h) = (p, h)
  All-set (x ∷ xs) (suc i) v p (q, h) = (q, All-set xs i v p h)

  pub All-append : (xs : List A) (x : A) → All P xs → P x → All P (xs ++ (x ∷ []))
  All-append [] x h p = (p, h)
  All-append (y ∷ xs) x (q, h) p = (q, All-append xs x h p)

  pub All-get : (xs : List A) (i : ℕ) (x : A) → get_elem? xs i ≡ some x → All P xs → P x
  All-get [] i x e h = absurd (ground arith)
  All-get (y ∷ xs) zero x e (p, h) = rw (sym (some-injective y x e)) p
  All-get (y ∷ xs) (suc i) x e (p, h) = All-get xs i x e h

  pub All-remove_at : (xs : List A) (i : ℕ) → All P xs → All P (remove_at xs i)
  unfolding remove_at
  All-remove_at xs i h = go (get_elem? xs (length xs - 1)) (λ x e. All-get xs (length xs - 1) x e h)
    where
      go :
          (r : Option A)
          → ((x : A) → r ≡ some x → P x)
          → All P (elim r [
            | none ↦ []
            | some last ↦ take (length xs - 1) (if ltb i (length xs - 1) then set xs i last else xs)
          ])
      go none k = tt
      go (some x) k = All-take (length xs - 1) _ (moved (ltb i (length xs - 1)))
        where
          moved : (b : Bool) → All P (if b then set xs i x else xs)
          moved true = All-set xs i x (k x refl) h
          moved false = h

module _ {ℓ} {A : Type ℓ} where
  pub get-none : (xs : List A) (i : ℕ) → get_elem? xs i ≡ none → length xs ≤ i
  get-none [] i e = omega arith
  get-none (x ∷ xs) zero e = absurd (ground arith)
  get-none (x ∷ xs) (suc i) e = omega (arith, get-none xs i e)

  pub get-some : (xs : List A) (i : ℕ) (x : A) → get_elem? xs i ≡ some x → i < length xs
  get-some [] i x e = absurd (ground arith)
  get-some (y ∷ xs) zero x e = omega arith
  get-some (y ∷ xs) (suc i) x e = omega (arith, get-some xs i x e)

  take-take : (i m : ℕ) (xs : List A) → i ≤ m → take i (take m xs) ≡ take i xs
  take-take zero m xs h = refl
  take-take (suc i) zero xs h = absurd (omega arith)
  take-take (suc i) (suc m) [] h = refl
  take-take (suc i) (suc m) (x ∷ xs) h = ap (λ ys. x ∷ ys) (take-take i m xs (omega arith))

  take-set : (i : ℕ) (xs : List A) (v : A) → take i (set xs i v) ≡ take i xs
  take-set zero xs v = refl
  take-set (suc i) [] v = refl
  take-set (suc i) (x ∷ xs) v = ap (λ ys. x ∷ ys) (take-set i xs v)

  -- The place that is removed is filled from the end, so what stands before it stays.
  pub remove_at_keeps :
      (xs : List A) (i : ℕ)
      → i < length xs
      → (take i (remove_at xs i) ≡ take i xs) × (length (remove_at xs i) + 1 ≡ length xs)
  unfolding remove_at
  remove_at_keeps xs i h = go (get_elem? xs (length xs - 1)) refl (ltb i (length xs - 1))
    where
      go :
          (r : Option A)
          → get_elem? xs (length xs - 1) ≡ r
          → (b : Bool)
          → let removed : List A = elim r [
            | none ↦ []
            | some last ↦ take (length xs - 1) (if b then set xs i last else xs)
          ] in
            (take i removed ≡ take i xs) × (length removed + 1 ≡ length xs)
      go none e b = absurd (omega (arith, get-none xs (length xs - 1) e))
      go (some x) e true = (
        take-take i (length xs - 1) (set xs i x) (omega arith) ∙ take-set i xs x,
        omega (arith, length-take (length xs - 1) (set xs i x), length-set xs i x),
      )
      go (some x) e false = (
        take-take i (length xs - 1) xs (omega arith),
        omega (arith, length-take (length xs - 1) xs),
      )

pub All-snoc {ℓ κ} :
    {A : Type ℓ} (P : A → Type κ) (xs : List A) (i : ℕ) (x : A)
    → get_elem? xs i ≡ some x
    → All P (take i xs)
    → P x
    → All P (take (suc i) xs)
All-snoc P [] i x e h p = tt
All-snoc P (y ∷ xs) zero x e h p = (rw (some-injective y x e) p, tt)
All-snoc P (y ∷ xs) (suc i) x e (q, h) p = (q, All-snoc P xs i x e h p)
