-- ===== src/Go/Maps.antt =====
-- Go's `map[string]V`, as an association list.
pub mod Keys
use egressip_ipam_operator.Prelude.{
  ◌≡◌, refl, Option, none, some, List, [], ◌∷◌, arith, Text, text_eq, text_eq_iff, text_eq_refl,
  if◌then◌else◌, Elem, inl, inr, ◌≢◌, Bool-cases,
}

abbrev pub Map {ℓ} : Type ℓ → Type ℓ
Map V = List (Text × V)

abbrev pub keys {ℓ} : {V : Type ℓ} → Map V → List Text
keys [] = []
keys ((k, v) ∷ m) = k ∷ keys m

module _ {ℓ} {V : Type ℓ} where
  -- `v, ok := m[k]`
  unfoldable pub get : Map V → Text → Option V
  get [] k = none
  get ((j, v) ∷ m) k = if text_eq j k then some v else get m k

  -- `m[k] = v`
  unfoldable pub put : Map V → Text → V → Map V
  put [] k v = (k, v) ∷ []
  put ((j, w) ∷ m) k v = if text_eq j k then (j, v) ∷ m else (j, w) ∷ put m k v

  -- `delete(m, k)`
  unfoldable pub remove : Map V → Text → Map V
  remove [] k = []
  remove ((j, w) ∷ m) k = let rest = remove m k in if text_eq j k then rest else (j, w) ∷ rest

  -- `m[k]` where a missing key reads as the zero value
  abbrev pub get_or_zero : V → Map V → Text → V
  get_or_zero zero_value m k = elim (get m k) [ none ↦ zero_value | some v ↦ v ]

  pub get-put :
      (m : Map V) (k j : Text) (v : V)
      → get (put m k v) j ≡ (if text_eq k j then some v else get m j)
  unfolding get put
  get-put [] k j v = refl
  get-put ((i, w) ∷ m) k j v =
      ground (arith, text_eq_iff k j, text_eq_iff i k, text_eq_iff i j, get-put m k j v)

  pub get-put_self : (m : Map V) (k : Text) (v : V) → get (put m k v) k ≡ some v
  get-put_self m k v = ground (arith, get-put m k k v, text_eq_refl k)

  pub get-put_ne : (m : Map V) (k j : Text) (v : V) → k ≢ j → get (put m k v) j ≡ get m j
  get-put_ne m k j v h = ground (arith, get-put m k j v, text_eq_iff k j)

  pub get-remove :
      (m : Map V) (k j : Text) → get (remove m k) j ≡ (if text_eq k j then none else get m j)
  unfolding get remove
  get-remove [] k j = ground arith
  get-remove ((i, w) ∷ m) k j =
      ground (arith, text_eq_iff k j, text_eq_iff i k, text_eq_iff i j, get-remove m k j)

  -- A key reads as present exactly when it is among the keys.
  pub get-of_Elem : (m : Map V) (k : Text) → Elem k (keys m) → (v : V) × (get m k ≡ some v)
  unfolding get
  get-of_Elem [] k e = absurd e
  get-of_Elem ((j, w) ∷ m) k (inl p) = (w, ground (arith, text_eq_iff j k))
  get-of_Elem ((j, w) ∷ m) k (inr e) = elim (Bool-cases (text_eq j k)) [
    | inl same ↦ (w, ground arith)
    | inr other ↦ let (v, p) = get-of_Elem m k e in (v, ground arith)
  ]

  pub Elem-of_get : (m : Map V) (k : Text) (v : V) → get m k ≡ some v → Elem k (keys m)
  unfolding get
  Elem-of_get [] k v h = cc
  Elem-of_get ((j, w) ∷ m) k v h = elim (Bool-cases (text_eq j k)) [
    | inl same ↦ inl (ground (arith, text_eq_iff j k))
    | inr other ↦ inr (Elem-of_get m k v (ground arith))
  ]

  -- Writing at a key that is there keeps the keys as they are.
  pub keys-put_old : (m : Map V) (k : Text) (v : V) → Elem k (keys m) → keys (put m k v) ≡ keys m
  unfolding put
  keys-put_old [] k v e = absurd e
  keys-put_old ((j, w) ∷ m) k v (inl p) = ground (arith, text_eq_iff j k)
  keys-put_old ((j, w) ∷ m) k v (inr e) = ground (arith, text_eq_iff j k, keys-put_old m k v e)
