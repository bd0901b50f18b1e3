-- ===== src/Go/Strings.antt =====
-- `strings.Split` and `strings.Join` at a one-byte separator. `Split` never returns an empty slice.
use egressip_ipam_operator.Prelude.{
  ℕ, ◌≡◌, ◌≢◌, refl, List, [], ◌∷◌, ◌++◌, arith, Text, ◌==◌, if◌then◌else◌, All, All-append,
}

abbrev cons_to_head : ℕ → List Text → List Text
cons_to_head c [] = (c ∷ []) ∷ []
cons_to_head c (field ∷ fields) = (c ∷ field) ∷ fields

unfoldable pub split : ℕ → Text → List Text
split sep [] = [] ∷ []
split sep (c ∷ s) = let rest = split sep s in if c == sep then [] ∷ rest else cons_to_head c rest

unfoldable pub join : ℕ → List Text → Text
join sep [] = []
join sep (field ∷ []) = field
join sep (field ∷ next ∷ fields) = field ++ (sep ∷ join sep (next ∷ fields))

abbrev pub Free : ℕ → Text → Type 0
Free sep s = All (λ c. c ≢ sep) s

split_last : (sep : ℕ) (field : Text) → Free sep field → split sep field ≡ field ∷ []
unfolding split
split_last sep [] h = refl
split_last sep (c ∷ s) h = ground (arith, split_last sep s h.1)

split-append :
    (sep : ℕ) (field s : Text)
    → Free sep field
    → split sep (field ++ (sep ∷ s)) ≡ field ∷ split sep s
unfolding split
split-append sep [] s h = ground arith
split-append sep (c ∷ cs) s h = ground (arith, split-append sep cs s h.1)

-- Fields that do not hold the separator come back from their joined text, if there is one at least.
pub split-join :
    (sep : ℕ) (fields : List Text)
    → fields ≢ []
    → All (Free sep) fields
    → split sep (join sep fields) ≡ fields
unfolding join
split-join sep [] some_field free = absurd (some_field refl)
split-join sep (field ∷ []) some_field free = split_last sep field free.0
split-join sep (field ∷ next ∷ fields) some_field free = ground (
  arith,
  split-append sep field (join sep (next ∷ fields)) free.0,
  split-join sep (next ∷ fields) (λ e. cc) free.1,
)

-- A text that is free of a byte other than the separator, where its fields are.
pub join-Free :
    (c sep : ℕ) (fields : List Text) → sep ≢ c → All (Free c) fields → Free c (join sep fields)
unfolding join
join-Free c sep [] apart free = tt
join-Free c sep (field ∷ []) apart free = free.0
join-Free c sep (field ∷ next ∷ fields) apart free =
    All-append (λ b. b ≢ c) field (sep ∷ join sep (next ∷ fields)) free.0
      (apart, join-Free c sep (next ∷ fields) apart free.1)
