-- ===== src/Go/Maps/Keys.antt =====
-- The keys of a map under writes.
use egressip_ipam_operator.Prelude.{
  ◌≡◌, ◌⊎◌, sym, ap, ◌∙◌, some, [], ◌∷◌, Text, text_eq, text_eq_iff, if◌then◌else◌, Elem, NoDup,
  inl, inr, Bool-cases, true, false,
}
use egressip_ipam_operator.Go.Maps.{
  Map, keys, get, put, get-put, get-put_self, get-of_Elem, Elem-of_get,
}

module _ {ℓ} {V : Type ℓ} where
  pub Elem-keys-put :
      (m : Map V) (k j : Text) (v : V) → Elem j (keys (put m k v)) → (j ≡ k) ⊎ Elem j (keys m)
  unfolding put
  Elem-keys-put [] k j v (inl p) = inl p
  Elem-keys-put [] k j v (inr z) = absurd z
  Elem-keys-put ((i, w) ∷ m) k j v e = elim (Bool-cases (text_eq i k)) [
    | inl same ↦ inr (rw (put, same) at e)
    | inr other ↦ elim (rw (put, other) at e) [
      | inl p ↦ inr (inl p)
      | inr q ↦ elim (Elem-keys-put m k j v q) [ inl p ↦ inl p | inr r ↦ inr (inr r) ]
    ]
  ]

  pub keys-put-NoDup : (m : Map V) (k : Text) (v : V) → NoDup (keys m) → NoDup (keys (put m k v))
  unfolding put
  keys-put-NoDup [] k v h = ((λ e. e), tt)
  keys-put-NoDup ((i, w) ∷ m) k v h = elim (Bool-cases (text_eq i k)) [
    | inl same ↦ rw (put, same) h
    | inr other ↦
        rw (put, other)
          (
            λ e. elim (Elem-keys-put m k i v e) [
              | inl p ↦ let clash : true ≡ false = sym ((text_eq_iff i k).1 p) ∙ other in cc
              | inr q ↦ h.0 q
            ],
            keys-put-NoDup m k v h.1,
          )
  ]

  pub Elem-keys-put_new : (m : Map V) (k : Text) (v : V) → Elem k (keys (put m k v))
  Elem-keys-put_new m k v = Elem-of_get (put m k v) k v (get-put_self m k v)

  pub Elem-keys-put_old :
      (m : Map V) (k j : Text) (v : V) → Elem j (keys m) → Elem j (keys (put m k v))
  Elem-keys-put_old m k j v e = elim (Bool-cases (text_eq k j)) [
    | inl same ↦
        Elem-of_get (put m k v) j v (get-put m k j v ∙ ap (λ b. if b then some v else get m j) same)
    | inr other ↦
        let (w, p) = get-of_Elem m j e in
        Elem-of_get (put m k v) j w
          (get-put m k j v ∙ ap (λ b. if b then some v else get m j) other ∙ p)
  ]
