-- ===== src/EventLoop/Wait.antt =====
-- src/event_loop.c, `get_next_timeout`: how long the loop waits, against the microseconds left.
use modern_c_web_library.Base.{
  ℕ, ◌+◌, ◌-◌, ◌*◌, ◌/◌, ◌^◌, ◌≤◌, ◌<◌, Bool, true, false, none, some, List, [], ◌∷◌, ◌≡◌, refl,
  sym, ◌⊎◌, inl, inr, All, ltb, arith, ltb→lt,
}
use mathlib.Core.Option.{some-injective}
use modern_c_web_library.EventLoop.{
  EventTimer, EventLoop, remaining_ms, low_difference, min_timeout, get_next_timeout,
}
use modern_c_web_library.EventLoop.Registry.{IsValid}

-- An element of the list has the property.
abbrev pub Any {ℓ} : {A : Type ℓ} → (A → Type 0) → List A → Type 0
Any P [] = ⊥
Any P (x ∷ xs) = P x ⊎ Any P xs

-- `m` is what is left for some active timer, and no more than what is left for any.
abbrev IsLeastOf : ℕ → ℕ → List EventTimer → ℕ → Type 0
IsLeastOf sec usec ts m =
    All (λ t. t.active ≡ true → m ≤ remaining_ms sec usec t) ts
    × Any (λ t. (t.active ≡ true) × (remaining_ms sec usec t ≡ m)) ts

min_timeout-lower :
    (sec usec : ℕ) (ts : List EventTimer) (m least : ℕ)
    → min_timeout sec usec ts (some least) ≡ some m
    → (m ≤ least)
      × All (λ t. t.active ≡ true → m ≤ remaining_ms sec usec t) ts
      × ((m ≡ least) ⊎ Any (λ t. (t.active ≡ true) × (remaining_ms sec usec t ≡ m)) ts)
unfolding min_timeout
min_timeout-lower sec usec [] m least e = (ground arith, tt, inl (sym (some-injective least m e)))
min_timeout-lower sec usec (t ∷ ts) m least e =
    go t.active (ltb (remaining_ms sec usec t) least) refl refl (min_timeout-lower sec usec ts m)
  where
    Left : EventTimer → Type 0
    Left t = (t.active ≡ true) × (remaining_ms sec usec t ≡ m)

    Bound : EventTimer → Type 0
    Bound t = t.active ≡ true → m ≤ remaining_ms sec usec t

    go :
        (a l : Bool)
        → t.active ≡ a
        → ltb (remaining_ms sec usec t) least ≡ l
        → ((least' : ℕ)
            → min_timeout sec usec ts (some least') ≡ some m
            → (m ≤ least') × All Bound ts × ((m ≡ least') ⊎ Any Left ts))
        → (m ≤ least) × (Bound t × All Bound ts) × ((m ≡ least) ⊎ (Left t ⊎ Any Left ts))
    go true true ea el ih =
        let (le, all, from) =
          ih (remaining_ms sec usec t) (rw (sym e) (rw (min_timeout, ea, el) refl)) in
        (
          omega (arith, le, ltb→lt _ _ el),
          ((λ _. le), all),
          elim from [ inl q ↦ inr (inl (ea, sym q)) | inr any ↦ inr (inr any) ],
        )
    go true false ea el ih =
        let (le, all, from) = ih least (rw (sym e) (rw (min_timeout, ea, el) refl)) in
        (
          le,
          ((λ _. ground (arith, le)), all),
          elim from [ inl q ↦ inl q | inr any ↦ inr (inr any) ],
        )
    go false l ea el ih =
        let (le, all, from) = ih least (rw (sym e) (rw (min_timeout, ea) refl)) in
        (
          le,
          ((λ a. absurd (ground (arith, ea, a))), all),
          elim from [ inl q ↦ inl q | inr any ↦ inr (inr any) ],
        )

get_next_timeout-IsLeastOf :
    (sec usec : ℕ) (loop : EventLoop)
    → IsValid loop
    → (m : ℕ) → get_next_timeout sec usec loop ≡ some m
    → IsLeastOf sec usec loop.timers m
unfolding get_next_timeout min_timeout
get_next_timeout-IsLeastOf sec usec loop v m e = go loop.timers v.timers-active e
  where
    go :
        (ts : List EventTimer)
        → All (λ t. t.active ≡ true) ts
        → min_timeout sec usec ts none ≡ some m
        → IsLeastOf sec usec ts m
    go [] a e = absurd (ground arith)
    go (t ∷ ts) (a, _) e =
        let (le, all, from) =
          min_timeout-lower sec usec ts m (remaining_ms sec usec t)
            (rw (sym e) (rw (min_timeout, a) refl)) in
        (((λ _. le), all), elim from [ inl q ↦ inl (a, sym q) | inr any ↦ inr any ])

-- A time in microseconds.
abbrev pub micros : ℕ → ℕ → ℕ
micros sec usec = sec * 1000000 + usec

-- A proper time that is at most 2147482 seconds, some 24 days, from the time given.
abbrev pub IsNear : ℕ → ℕ → EventTimer → Type 0
IsNear sec usec t = (t.usec < 1000000) × (t.sec ≤ sec + 2147482) × (sec ≤ t.sec + 2147482)

-- The wait is less than a millisecond longer than what is left to the timer, and 0 when nothing is.
abbrev pub InTime : ℕ → ℕ → ℕ → EventTimer → Type 0
InTime sec usec m t =
    (micros t.sec t.usec ≤ micros sec usec → m ≡ 0)
    × (micros sec usec < micros t.sec t.usec
        → micros sec usec + m * 1000 < micros t.sec t.usec + 1000)

-- When the wait is over, the timer is due, or is within a millisecond.
abbrev pub ComesDue : ℕ → ℕ → ℕ → EventTimer → Type 0
ComesDue sec usec m t = micros t.sec t.usec < micros sec usec + m * 1000 + 1000

low_difference_lem :
    (a b : ℕ)
    → (b ≤ a → a < b + 2 ^ 31 → low_difference a b ≡ a - b)
      × (a < b → b ≤ a + 2 ^ 31 → 2 ^ 31 ≤ low_difference a b)
low_difference_lem a b = (omega arith, omega arith)

remaining_ms-InTime :
    (sec usec m : ℕ) (t : EventTimer)
    → usec < 1000000
    → IsNear sec usec t
    → m ≤ remaining_ms sec usec t
    → InTime sec usec m t
remaining_ms-InTime sec usec m t proper near le = ground (
  arith,
  low_difference_lem (t.sec * 1000 + (t.usec - usec) / 1000) (sec * 1000),
  low_difference_lem (t.sec * 1000) (sec * 1000 + (usec - t.usec) / 1000),
)

remaining_ms-ComesDue :
    (sec usec : ℕ) (t : EventTimer)
    → usec < 1000000
    → IsNear sec usec t
    → ComesDue sec usec (remaining_ms sec usec t) t
remaining_ms-ComesDue sec usec t proper near = ground arith

All-InTime :
    (sec usec m : ℕ) (ts : List EventTimer)
    → usec < 1000000
    → All (IsNear sec usec) ts
    → All (λ t. t.active ≡ true → m ≤ remaining_ms sec usec t) ts
    → All (λ t. t.active ≡ true → InTime sec usec m t) ts
All-InTime sec usec m [] proper near le = tt
All-InTime sec usec m (t ∷ ts) proper (n, near) (l, le) = (
  (λ a. remaining_ms-InTime sec usec m t proper n (l a)),
  All-InTime sec usec m ts proper near le,
)

Any-ComesDue :
    (sec usec m : ℕ) (ts : List EventTimer)
    → usec < 1000000
    → All (IsNear sec usec) ts
    → Any (λ t. (t.active ≡ true) × (remaining_ms sec usec t ≡ m)) ts
    → Any (λ t. (t.active ≡ true) × ComesDue sec usec m t) ts
Any-ComesDue sec usec m [] proper near any = absurd any
Any-ComesDue sec usec m (t ∷ ts) proper (n, near) (inl (a, e)) =
    let due = remaining_ms-ComesDue sec usec t proper n in inl (a, rw (← e) due)
Any-ComesDue sec usec m (t ∷ ts) proper (n, near) (inr any) =
    inr (Any-ComesDue sec usec m ts proper near any)

-- In a well-formed loop whose timers and clock are proper times, at most 2147482 seconds apart, a wait
-- that `get_next_timeout` gives is over less than a millisecond behind every active timer, is 0 when
-- some active timer is already due, and for some active timer is over with less than a millisecond left.
pub get_next_timeout-IsLeast :
    (sec usec : ℕ) (loop : EventLoop)
    → IsValid loop
    → usec < 1000000
    → All (IsNear sec usec) loop.timers
    → (m : ℕ) → get_next_timeout sec usec loop ≡ some m
    → All (λ t. t.active ≡ true → InTime sec usec m t) loop.timers
      × Any (λ t. (t.active ≡ true) × ComesDue sec usec m t) loop.timers
get_next_timeout-IsLeast sec usec loop v proper near m e =
    let (all, any) = get_next_timeout-IsLeastOf sec usec loop v m e in
    (
      All-InTime sec usec m loop.timers proper near all,
      Any-ComesDue sec usec m loop.timers proper near any,
    )
