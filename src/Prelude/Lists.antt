-- ===== src/Prelude/Lists.antt =====
-- Lists measured by native numbers, and predicates on lists that compute to tuples and sums.
use Prim.Native.Nat.{ℕ, suc, ◌+◌}
use mathlib.Core.Path.{◌≡◌, refl, sym, ap, subst}
use mathlib.Core.Logic.{◌⊎◌, ◌↔◌, inl, inr}
use mathlib.Core.List.{List, [], ◌∷◌, ◌++◌, map}
use native.Mathlib.Omega.{arith}

module _ {ℓ} {A : Type ℓ} where
  abbrev pub length : List A → ℕ
  length [] = 0
  length (x ∷ xs) = suc (length xs)

  pub length-append : (xs ys : List A) → length (xs ++ ys) ≡ length xs + length ys
  length-append [] ys = omega arith
  length-append (x ∷ xs) ys = omega (arith, length-append xs ys)

  abbrev pub All {κ} : (A → Type κ) → List A → Type κ
  All P [] = Unit
  All P (x ∷ xs) = P x × All P xs

  pub All-append {κ} : (P : A → Type κ) (xs ys : List A) → All P xs → All P ys → All P (xs ++ ys)
  All-append P [] ys hx hy = hy
  All-append P (x ∷ xs) ys hx hy = (hx.0, All-append P xs ys hx.1 hy)

-- The program's data are all of `Type 0`, and so is what stands in a list of them.
module _ {A : Type 0} where
  -- `a` stands in the list. Unlike the library's `Mem` it is not truncated, so a proof may match it.
  abbrev pub Elem : A → List A → Type 0
  Elem a [] = ⊥
  Elem a (x ∷ xs) = (a ≡ x) ⊎ Elem a xs

  -- No value stands in the list twice.
  abbrev pub NoDup : List A → Type 0
  NoDup [] = Unit
  NoDup (x ∷ xs) = (¬ Elem x xs) × NoDup xs

  pub Elem-append : (a : A) (xs ys : List A) → Elem a (xs ++ ys) ↔ (Elem a xs ⊎ Elem a ys)
  Elem-append a [] ys = (inr, λ e. elim e [ inl e ↦ absurd e | inr e ↦ e ])
  Elem-append a (x ∷ xs) ys = (
    λ e. elim e [
      | inl p ↦ inl (inl p)
      | inr q ↦ elim ((Elem-append a xs ys).0 q) [ inl l ↦ inl (inr l) | inr r ↦ inr r ]
    ],
    λ e. elim e [
      | inl p ↦ elim p [ inl l ↦ inl l | inr l ↦ inr ((Elem-append a xs ys).1 (inl l)) ]
      | inr r ↦ inr ((Elem-append a xs ys).1 (inr r))
    ],
  )

  pub All-of_Elem {κ} : (P : A → Type κ) (xs : List A) → ((a : A) → Elem a xs → P a) → All P xs
  All-of_Elem P [] h = tt
  All-of_Elem P (x ∷ xs) h = (h x (inl refl), All-of_Elem P xs (λ a e. h a (inr e)))

module _ {κ} {A : Type 0} (P : A → Type κ) where
  pub All-Elem : {a : A} (xs : List A) → All P xs → Elem a xs → P a
  All-Elem [] h e = absurd e
  All-Elem (x ∷ xs) h (inl p) = rw p h.0
  All-Elem (x ∷ xs) h (inr e) = All-Elem xs h.1 e

module _ {A B : Type 0} (f : A → B) where
  pub Elem-map : (a : A) (xs : List A) → Elem a xs → Elem (f a) (map f xs)
  Elem-map a [] e = absurd e
  Elem-map a (x ∷ xs) (inl p) = inl (ap f p)
  Elem-map a (x ∷ xs) (inr e) = inr (Elem-map a xs e)

  pub Elem-map_inv : (b : B) (xs : List A) → Elem b (map f xs) → (a : A) × Elem a xs × (b ≡ f a)
  Elem-map_inv b [] e = absurd e
  Elem-map_inv b (x ∷ xs) (inl p) = (x, inl refl, p)
  Elem-map_inv b (x ∷ xs) (inr e) = let (a, m, p) = Elem-map_inv b xs e in (a, inr m, p)

-- `k` stands in `xs` where it stands in `ys` and not in `old`.
module _ {A : Type 0} (k a : A) (old xs ys : List A) where
  pub Elem-skip :
      Elem a old
      → (Elem k xs ↔ (Elem k ys × (¬ Elem k old)))
      → (Elem k xs ↔ (Elem k (a ∷ ys) × (¬ Elem k old)))
  Elem-skip gone h = (
    λ e. let (x, y) = h.0 e in (inr x, y),
    λ (x, y). elim x [
      | inl p ↦ absurd (y (subst (λ v. Elem v old) (sym p) gone))
      | inr q ↦ h.1 (q, y)
    ],
  )

  pub Elem-keep :
      (¬ Elem a old)
      → (Elem k xs ↔ (Elem k ys × (¬ Elem k old)))
      → (Elem k (a ∷ xs) ↔ (Elem k (a ∷ ys) × (¬ Elem k old)))
  Elem-keep kept h = (
    λ e. elim e [
      | inl p ↦ (inl p, λ q. kept (subst (λ v. Elem v old) p q))
      | inr q ↦ let (x, y) = h.0 q in (inr x, y)
    ],
    λ (x, y). elim x [ inl p ↦ inl p | inr q ↦ inr (h.1 (q, y)) ],
  )
