-- ===== src/Http/Lists.antt =====
-- Header and parameter lists as maps: what is set is got, and nothing else changes.
use modern_c_web_library.Base.{
  ℕ, ◌+◌, ◌≡◌, ◌≢◌, refl, Bool, true, Option, none, some, List, [], ◌∷◌, ◌++◌, map, arith, Bytes,
  length, if◌then◌else◌, str_eq, str_eq_iff, tolower, Bool-cases, Option-cases, inl, inr, ap,
}
use modern_c_web_library.Http.{
  HeaderNode, ParamNode, param_list_get, param_list_replace, param_list_set, header_list_find,
  header_list_replace, header_list_add,
}

-- Every request for memory is granted.
abbrev pub Granted : (ℕ → Bool) → Type 0
Granted alloc = (n : ℕ) → alloc n ≡ true

param_list_replace-none :
    (l : List ParamNode) (k v : Bytes) → param_list_replace l k v ≡ none → param_list_get l k ≡ none
unfolding param_list_replace param_list_get
param_list_replace-none [] k v h = refl
param_list_replace-none (n ∷ l) k v h = elim (Option-cases (param_list_replace l k v)) [
  | inl e ↦ ground (arith, e, param_list_replace-none l k v e)
  | inr (l', e) ↦ ground (arith, e)
]

param_list_get-replace :
    (l l' : List ParamNode) (k j v : Bytes)
    → param_list_replace l k v ≡ some l'
    → param_list_get l' j ≡ (if str_eq k j then some v else param_list_get l j)
unfolding param_list_replace param_list_get
param_list_get-replace [] l' k j v h = ground arith
param_list_get-replace (n ∷ l) l' k j v h = elim (Option-cases (param_list_replace l k v)) [
  | inl e ↦ ground (arith, e, str_eq_iff n.key k, str_eq_iff n.key j, str_eq_iff k j)
  | inr (r, e) ↦ ground (
    arith,
    e,
    str_eq_iff n.key k,
    str_eq_iff n.key j,
    str_eq_iff k j,
    param_list_get-replace l r k j v e,
  )
]

-- After a set that succeeds, the key has the new value and every other key what it had; after one
-- that fails the list is the one before.
pub param_list_get-set :
    (alloc : ℕ → Bool) (l : List ParamNode) (k j v : Bytes)
    → param_list_get (param_list_set alloc l k v).0 j ≡ (
        if (param_list_set alloc l k v).1
        then (if str_eq k j then some v else param_list_get l j)
        else param_list_get l j)
unfolding param_list_set param_list_get
param_list_get-set alloc l k j v = elim (Option-cases (param_list_replace l k v)) [
  | inl e ↦ ground (arith, e)
  | inr (l', e) ↦ ground (arith, e, param_list_get-replace l l' k j v e)
]

pub param_list_set-Granted :
    (alloc : ℕ → Bool) (l : List ParamNode) (k v : Bytes)
    → Granted alloc
    → (param_list_set alloc l k v).1 ≡ true
unfolding param_list_set
param_list_set-Granted alloc l k v g = elim (Option-cases (param_list_replace l k v)) [
  | inl e ↦ ground (arith, e, g 24, g (length k + 1), g (length v + 1))
  | inr (l', e) ↦ ground (arith, e, g (length v + 1))
]

abbrev pub node_value : Option HeaderNode → Option Bytes
node_value none = none
node_value (some node) = some node.value

-- What a lookup by the lower-case name `j` gives.
abbrev pub header_value : List HeaderNode → Bytes → Option Bytes
header_value l j = node_value (header_list_find l j)

header_value-replace :
    (l : List HeaderNode) (k j raw v : Bytes)
    → header_list_find l k ≢ none
    → header_value (header_list_replace l k raw v) j
      ≡ (if str_eq k j then some v else header_value l j)
unfolding header_list_find header_list_replace
header_value-replace [] k j raw v h = ground arith
header_value-replace (m ∷ l) k j raw v h = elim (Bool-cases (str_eq m.name k)) [
  | inl e ↦ ground (arith, e, str_eq_iff m.name k, str_eq_iff m.name j, str_eq_iff k j)
  | inr e ↦
      let ih = header_value-replace l k j raw v (ground (arith, e)) in
      ground (arith, e, ih, str_eq_iff m.name k, str_eq_iff m.name j, str_eq_iff k j)
]

header_value-append :
    (l : List HeaderNode) (node : HeaderNode) (j : Bytes)
    → header_value (l ++ (node ∷ [])) j ≡ elim (header_list_find l j) [
      | none ↦ if str_eq node.name j then some node.value else none
      | some found ↦ some found.value
    ]
unfolding header_list_find
header_value-append [] node j = ground arith
header_value-append (m ∷ l) node j = ground (arith, header_value-append l node j)

module _ (alloc : ℕ → Bool) (l : List HeaderNode) (name raw v : Bytes) (g : Granted alloc) where
  header_list_add-new :
      (replace : Bool)
      → header_list_find l (map tolower name) ≡ none
      → header_list_add alloc l name raw v replace
        ≡ (l ++ (record { name = map tolower name; raw_name = raw; value = v } ∷ []), true)
  unfolding header_list_add
  header_list_add-new replace e =
      ground (arith, e, g 32, g (length name + 1), g (length raw + 1), g (length v + 1))

  header_list_add-old :
      {n : HeaderNode}
      → header_list_find l (map tolower name) ≡ some n
      → header_list_add alloc l name raw v true
        ≡ (header_list_replace l (map tolower name) raw v, true)
  unfolding header_list_add
  header_list_add-old e =
      ground (arith, e, g (length name + 1), g (length raw + 1), g (length v + 1))

  pub header_list_add_succeeds : (header_list_add alloc l name raw v true).1 ≡ true
  header_list_add_succeeds = elim (Option-cases (header_list_find l (map tolower name))) [
    | inl e ↦ ap (λ r. r.1) (header_list_add-new true e)
    | inr (n, e) ↦ ap (λ r. r.1) (header_list_add-old e)
  ]

  -- Adding a header with replacement, when memory is granted: the name, in lower case, has the new
  -- value, and every other name the value that it had.
  pub header_value-add :
      (j : Bytes)
      → header_value (header_list_add alloc l name raw v true).0 j
        ≡ (if str_eq (map tolower name) j then some v else header_value l j)
  header_value-add j = elim (Option-cases (header_list_find l (map tolower name))) [
    | inl e ↦
        let node : HeaderNode = record { name = map tolower name; raw_name = raw; value = v } in
        rw (header_list_add-new true e)
          (ground (arith, header_value-append l node j, str_eq_iff (map tolower name) j, e))
    | inr (n, e) ↦
        rw (header_list_add-old e)
          (header_value-replace l (map tolower name) j raw v (ground (arith, e)))
  ]
