-- ===== src/Tests/Sets.antt =====
-- Sets as lists without duplicates: concrete functions for what the model takes as a parameter.
use egressip_ipam_operator.Prelude.{
  ◌≡◌, refl, ◌↔◌, Bool, true, false, ◌&&◌, List, [], ◌∷◌, arith, Elem, NoDup, inl, inr, Bool-cases,
  if◌then◌else◌,
}

module _ {A : Type 0} (eq : A → A → Bool) (eq_iff : (a b : A) → (eq a b ≡ true) ↔ (a ≡ b)) where
  unfoldable pub member : A → List A → Bool
  member a [] = false
  member a (x ∷ xs) = if eq a x then true else member a xs

  pub Elem-of_member : (a : A) (xs : List A) → member a xs ≡ true → Elem a xs
  unfolding member
  Elem-of_member a [] h = cc
  Elem-of_member a (x ∷ xs) h = elim (Bool-cases (eq a x)) [
    | inl same ↦ inl ((eq_iff a x).0 same)
    | inr other ↦ inr (Elem-of_member a xs (rw other at h))
  ]

  pub member-of_Elem : (a : A) (xs : List A) → Elem a xs → member a xs ≡ true
  unfolding member
  member-of_Elem a [] e = absurd e
  member-of_Elem a (x ∷ xs) (inl p) = rw ((eq_iff a x).1 p)
  member-of_Elem a (x ∷ xs) (inr e) = ground (arith, member-of_Elem a xs e)

  pub not-Elem : (a : A) (xs : List A) → member a xs ≡ false → ¬ Elem a xs
  not-Elem a xs h e = cc (member-of_Elem a xs e)

  unfoldable pub keep : (A → Bool) → List A → List A
  keep test [] = []
  keep test (x ∷ xs) = if test x then x ∷ keep test xs else keep test xs

  pub Elem-keep :
      (test : A → Bool) (a : A) (xs : List A)
      → Elem a (keep test xs) ↔ (Elem a xs × (test a ≡ true))
  unfolding keep
  Elem-keep test a [] = (λ e. absurd e, λ e. e.0)
  Elem-keep test a (x ∷ xs) =
      let ih = Elem-keep test a xs in
      elim (Bool-cases (test x)) [
        | inl pass ↦ rw pass (
          λ e. elim e [ inl p ↦ (inl p, cc) | inr q ↦ (inr (ih.0 q).0, (ih.0 q).1) ],
          λ (e, t). elim e [ inl p ↦ inl p | inr q ↦ inr (ih.1 (q, t)) ],
        )
        | inr fail ↦ rw fail (
          λ e. (inr (ih.0 e).0, (ih.0 e).1),
          λ (e, t). elim e [ inl p ↦ absurd (cc) | inr q ↦ ih.1 (q, t) ],
        )
      ]

  unfoldable pub dedup : List A → List A
  unfolding member
  dedup [] = []
  dedup (x ∷ xs) = if member x xs then dedup xs else x ∷ dedup xs

  pub Elem-dedup : (a : A) (xs : List A) → Elem a (dedup xs) ↔ Elem a xs
  unfolding dedup
  Elem-dedup a [] = (λ e. e, λ e. e)
  Elem-dedup a (x ∷ xs) =
      let ih = Elem-dedup a xs in
      elim (Bool-cases (member x xs)) [
        | inl old ↦ rw old (
          λ e. inr (ih.0 e),
          λ e. elim e [ inl p ↦ ih.1 (Elem-of_member a xs (rw p old)) | inr q ↦ ih.1 q ],
        )
        | inr new ↦ rw new (
          λ e. elim e [ inl p ↦ inl p | inr q ↦ inr (ih.0 q) ],
          λ e. elim e [ inl p ↦ inl p | inr q ↦ inr (ih.1 q) ],
        )
      ]

  pub NoDup-dedup : (xs : List A) → NoDup (dedup xs)
  unfolding dedup
  NoDup-dedup [] = tt
  NoDup-dedup (x ∷ xs) = elim (Bool-cases (member x xs)) [
    | inl old ↦ rw old (NoDup-dedup xs)
    | inr new ↦ rw new (λ e. not-Elem x xs new ((Elem-dedup x xs).0 e), NoDup-dedup xs)
  ]

  pub NoDup-keep : (test : A → Bool) (xs : List A) → NoDup xs → NoDup (keep test xs)
  unfolding keep
  NoDup-keep test [] h = tt
  NoDup-keep test (x ∷ xs) h = elim (Bool-cases (test x)) [
    | inl pass ↦ rw pass (λ e. h.0 ((Elem-keep test x xs).0 e).0, NoDup-keep test xs h.1)
    | inr fail ↦ rw fail (NoDup-keep test xs h.1)
  ]

  unfoldable pub includes : List A → List A → Bool
  includes [] t = true
  includes (x ∷ s) t = member x t && includes s t

  pub includes_sound : (s t : List A) (a : A) → includes s t ≡ true → Elem a s → Elem a t
  unfolding includes
  includes_sound [] t a h e = absurd e
  includes_sound (x ∷ s) t a h (inl p) = Elem-of_member a t (rw p (ground arith))
  includes_sound (x ∷ s) t a h (inr e) = includes_sound s t a (ground arith) e

  pub includes_complete : (s t : List A) → ((a : A) → Elem a s → Elem a t) → includes s t ≡ true
  unfolding includes
  includes_complete [] t h = refl
  includes_complete (x ∷ s) t h =
      ground
        (arith, member-of_Elem x t (h x (inl refl)), includes_complete s t (λ a e. h a (inr e)))
