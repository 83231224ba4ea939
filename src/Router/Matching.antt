-- ===== src/Router/Matching.antt =====
-- src/router.c, `match_route`: which patterns match which paths.
use modern_c_web_library.Base.{
  ℕ, ◌+◌, ◌≡◌, ◌≢◌, ◌↔◌, inl, inr, refl, ap, ◌∙◌, Bool, true, false, List, [], ◌∷◌, ◌++◌, arith,
  Bytes, length, str_eq_iff, Bool-cases,
}
use modern_c_web_library.Http.Lists.{Granted}
use modern_c_web_library.Router.{
  is_param, cons_head, split_slash, drop_empty, segments, match_segments, match_route, has_char,
}

-- A pattern matches a path segment by segment: a segment that starts with a colon takes any
-- segment, another takes an equal one, and the numbers of segments agree.
pub data Matches : List Bytes → List Bytes → Type 0 where
  done : Matches [] []
  param :
      {p s : Bytes} {ps ss : List Bytes}
      → is_param p ≡ true
      → Matches ps ss
      → Matches (p ∷ ps) (s ∷ ss)
  lit : {p s : Bytes} {ps ss : List Bytes} → p ≡ s → Matches ps ss → Matches (p ∷ ps) (s ∷ ss)

match_segments_sound : (ps ss : List Bytes) → match_segments ps ss ≡ true → Matches ps ss
unfolding match_segments
match_segments_sound [] [] h = done
match_segments_sound [] (s ∷ ss) h = ground arith
match_segments_sound (p ∷ ps) [] h = ground arith
match_segments_sound (p ∷ ps) (s ∷ ss) h = elim (Bool-cases (is_param p)) [
  | inl e ↦ param e (match_segments_sound ps ss (ground (arith, e)))
  | inr e ↦ lit (ground (arith, e, str_eq_iff p s)) (match_segments_sound ps ss (ground (arith, e)))
]

match_segments_complete : {ps ss : List Bytes} → Matches ps ss → match_segments ps ss ≡ true
unfolding match_segments
match_segments_complete done = refl
match_segments_complete (param e m) = ground (arith, match_segments_complete m)
match_segments_complete (lit {p = p} {s = s} e m) =
    ground (arith, match_segments_complete m, str_eq_iff p s)

pub match_segments_iff : (ps ss : List Bytes) → (match_segments ps ss ≡ true) ↔ Matches ps ss
match_segments_iff ps ss = (match_segments_sound ps ss, match_segments_complete)

-- When memory is granted, `match_route` answers true exactly if the segments of the pattern match
-- those of the path.
pub match_route_iff :
    (alloc : ℕ → Bool) (pattern path : Bytes)
    → Granted alloc
    → (match_route alloc pattern path ≡ true) ↔ Matches (segments pattern) (segments path)
unfolding match_route
match_route_iff alloc pattern path g =
    let (to, from) = match_segments_iff (segments pattern) (segments path) in
    (
      λ h. to (ground (arith, g (length pattern + 1), g (length path + 1))),
      λ m. ground (arith, g (length pattern + 1), g (length path + 1), from m),
    )

drop_empty-append : (xs ys : List Bytes) → drop_empty (xs ++ ys) ≡ drop_empty xs ++ drop_empty ys
unfolding drop_empty
drop_empty-append [] ys = refl
drop_empty-append ([] ∷ xs) ys = drop_empty-append xs ys
drop_empty-append ((c ∷ s) ∷ xs) ys = ground (arith, drop_empty-append xs ys)

split_slash-ne-nil : (s : Bytes) → split_slash s ≢ []
unfolding split_slash
split_slash-ne-nil [] = ground arith
split_slash-ne-nil (c ∷ s) = ground arith

cons_head-append :
    (c : ℕ) (xs ys : List Bytes) → xs ≢ [] → cons_head c (xs ++ ys) ≡ cons_head c xs ++ ys
cons_head-append c [] ys h = ground arith
cons_head-append c (x ∷ xs) ys h = refl

split_slash-append : (a b : Bytes) → split_slash (a ++ (b'/' ∷ b)) ≡ split_slash a ++ split_slash b
unfolding split_slash
split_slash-append [] b = refl
split_slash-append (c ∷ a) b = ground (
  arith,
  split_slash-append a b,
  cons_head-append c (split_slash a) (split_slash b) (split_slash-ne-nil a),
)

-- Cutting a text at a slash cuts its segments: those of the two parts, in order.
pub segments-append : (a b : Bytes) → segments (a ++ (b'/' ∷ b)) ≡ segments a ++ segments b
unfolding segments
segments-append a b =
    ap drop_empty (split_slash-append a b) ∙ drop_empty-append (split_slash a) (split_slash b)

split_slash_token : (s : Bytes) → has_char b'/' s ≡ false → split_slash s ≡ s ∷ []
unfolding split_slash has_char
split_slash_token [] h = refl
split_slash_token (c ∷ s) h = ground (arith, split_slash_token s)

pub segments_token :
    (c : ℕ) (s : Bytes) → has_char b'/' (c ∷ s) ≡ false → segments (c ∷ s) ≡ (c ∷ s) ∷ []
unfolding segments
segments_token c s h = ap drop_empty (split_slash_token (c ∷ s) h)
