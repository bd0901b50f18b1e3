-- ===== src/Effects/Carried.antt =====
-- The secondary addresses that the calls of a log ask a network interface to carry.
use egressip_ipam_operator.Prelude.{
  ◌≡◌, refl, sym, ap, subst, ◌∙◌, ◌↔◌, ◌⊎◌, inl, inr, List, [], ◌∷◌, ◌++◌, Text, text_eq,
  text_eq_iff, if◌then◌else◌, Elem, Elem-append, Elem-skip, Elem-keep, not-is_among, is_among,
  is_among_iff, Bool-cases,
}
use egressip_ipam_operator.Effects.{Write, assign_private_ips, unassign_private_ips}

-- `ips` without the addresses `old`
unfoldable pub minus : List Text → List Text → List Text
minus old [] = []
minus old (ip ∷ ips) = let rest = minus old ips in if is_among ip old then rest else ip ∷ rest

abbrev pub after : Text → Write → List Text → List Text
after id (assign_private_ips i new) ips = if text_eq i id then ips ++ new else ips
after id (unassign_private_ips i old) ips = if text_eq i id then minus old ips else ips
after id _ ips = ips

unfoldable pub carried : Text → List Write → List Text → List Text
carried id [] ips = ips
carried id (w ∷ ws) ips = carried id ws (after id w ips)

Elem-minus :
    (k : Text) (old ips : List Text) → Elem k (minus old ips) ↔ (Elem k ips × (¬ Elem k old))
unfolding minus
Elem-minus k old [] = ((λ z. absurd z), λ e. e.0)
Elem-minus k old (ip ∷ ips) = elim (Bool-cases (is_among ip old)) [
  | inl gone ↦
      rw gone (
        Elem-skip k ip old (minus old ips) ips ((is_among_iff ip old).0 gone)
          (Elem-minus k old ips))
  | inr kept ↦
      rw kept
        (Elem-keep k ip old (minus old ips) ips (not-is_among ip old kept) (Elem-minus k old ips))
]

pub unassign-inv :
    (i j : Text) (s t : List Text)
    → unassign_private_ips i s ≡ unassign_private_ips j t
    → (i ≡ j) × (s ≡ t)
unassign-inv i j s t p = (cc, cc)

pub assign-inv :
    (i j : Text) (s t : List Text)
    → assign_private_ips i s ≡ assign_private_ips j t
    → (i ≡ j) × (s ≡ t)
assign-inv i j s t p = (cc, cc)

module _ (id : Text) (k : Text) where
  Elem-after_unassign :
      (i : Text) (old ips : List Text)
      → Elem k (after id (unassign_private_ips i old) ips)
        ↔ (Elem k ips × ((id ≡ i) → ¬ Elem k old))
  Elem-after_unassign i old ips = elim (Bool-cases (text_eq i id)) [
    | inl same ↦ rw same (
      (λ e. let (a, b) = (Elem-minus k old ips).0 e in (a, λ _. b)),
      λ (a, b). (Elem-minus k old ips).1 (a, b (sym ((text_eq_iff i id).0 same))),
    )
    | inr other ↦
        rw other ((λ e. (e, λ p. let q = (text_eq_iff i id).1 (sym p) in cc)), λ (a, b). a)
  ]

  Elem-after_assign :
      (i : Text) (new ips : List Text)
      → Elem k (after id (assign_private_ips i new) ips) ↔ (Elem k ips ⊎ ((id ≡ i) × Elem k new))
  Elem-after_assign i new ips = elim (Bool-cases (text_eq i id)) [
    | inl same ↦ rw same (
      (λ e. elim ((Elem-append k ips new).0 e) [
        | inl a ↦ inl a
        | inr b ↦ inr (sym ((text_eq_iff i id).0 same), b)
      ]),
      λ e. elim e [
        | inl a ↦ (Elem-append k ips new).1 (inl a)
        | inr (p, b) ↦ (Elem-append k ips new).1 (inr b)
      ],
    )
    | inr other ↦
        rw other
          (inl, λ e. elim e [ inl a ↦ a | inr (p, b) ↦ let q = (text_eq_iff i id).1 (sym p) in cc ])
  ]

  -- Calls that take addresses away leave those that none of them names.
  pub Elem-carried_unassign :
      (ws : List Write) (ips : List Text)
      → ((w : Write)
          → Elem w ws
          → (i : Text) × (old : List Text) × (w ≡ unassign_private_ips i old))
      → Elem k (carried id ws ips)
        ↔ (Elem k ips × ((old : List Text) → Elem (unassign_private_ips id old) ws → ¬ Elem k old))
  unfolding carried
  Elem-carried_unassign [] ips h = ((λ e. (e, λ old z. absurd z)), λ e. e.0)
  Elem-carried_unassign (w ∷ ws) ips h =
      let (i, old, p) = h w (inl refl) in
      let later = Elem-carried_unassign ws (after id w ips) (λ v e. h v (inr e)) in
      let here = Elem-after_unassign i old ips in
      (
        λ e.
            let (a, b) = later.0 e in
            let (c, d) = here.0 (subst (λ v. Elem k (after id v ips)) p a) in
            (
              c,
              λ o at. elim at [
                | inl q ↦ let (r, t) = unassign-inv id i o old (q ∙ p) in rw t (d r)
                | inr q ↦ b o q
              ],
            ),
        λ (a, b). later.1 (
          subst (λ v. Elem k (after id v ips)) (sym p)
              (here.1 (a, λ q. b old (inl (ap (λ j. unassign_private_ips j old) q ∙ sym p)))),
          λ o at. b o (inr at),
        ),
      )

  -- Calls that assign addresses add those that they name.
  pub Elem-carried_assign :
      (ws : List Write) (ips : List Text)
      → ((w : Write) → Elem w ws → (i : Text) × (new : List Text) × (w ≡ assign_private_ips i new))
      → Elem k (carried id ws ips)
        ↔ (Elem k ips ⊎ ((new : List Text) × Elem (assign_private_ips id new) ws × Elem k new))
  unfolding carried
  Elem-carried_assign [] ips h = (inl, λ e. elim e [ inl a ↦ a | inr (new, z, h) ↦ absurd z ])
  Elem-carried_assign (w ∷ ws) ips h =
      let (i, new, p) = h w (inl refl) in
      let later = Elem-carried_assign ws (after id w ips) (λ v e. h v (inr e)) in
      let here = Elem-after_assign i new ips in
      (
        λ e. elim (later.0 e) [
          | inl a ↦ elim (here.0 (subst (λ v. Elem k (after id v ips)) p a)) [
            | inl b ↦ inl b
            | inr (q, b) ↦ inr (new, inl (ap (λ j. assign_private_ips j new) q ∙ sym p), b)
          ]
          | inr (n, at, b) ↦ inr (n, inr at, b)
        ],
        λ e. elim e [
          | inl a ↦ later.1 (inl (subst (λ v. Elem k (after id v ips)) (sym p) (here.1 (inl a))))
          | inr (n, at, b) ↦ elim at [
            | inl q ↦
                let (r, t) = assign-inv id i n new (q ∙ p) in
                later.1 (
                  inl (subst (λ v. Elem k (after id v ips)) (sym p) (here.1 (inr (r, rw (← t) b)))))
            | inr q ↦ later.1 (inr (n, q, b))
          ]
        ],
      )

-- The calls of one log, and then those of another.
pub carried-append :
    (id : Text) (ws vs : List Write) (ips : List Text)
    → carried id (ws ++ vs) ips ≡ carried id vs (carried id ws ips)
unfolding carried
carried-append id [] vs ips = refl
carried-append id (w ∷ ws) vs ips = carried-append id ws vs (after id w ips)
