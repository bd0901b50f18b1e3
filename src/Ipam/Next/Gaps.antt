-- ===== src/Ipam/Next/Gaps.antt =====
-- The loop of getNextAvailableIP over a pool
use egressip_ipam_operator.Prelude.{
  ℕ, suc, ◌+◌, ◌^◌, ◌≤◌, ◌<◌, ◌≡◌, ◌≢◌, ◌↔◌, refl, Option, none, some, List, [], ◌∷◌, arith, length,
  ◌==◌, ==_iff, Elem, All, inl, inr, Bool-cases, ◌⊎◌, subst, sym, ◌∙◌,
}
use egressip_ipam_operator.Deps.{Deps, IsLawful}
use egressip_ipam_operator.Go.Net.{Ip}
use egressip_ipam_operator.Ipam.Pool.{Ascending, Ascending-le}
use egressip_ipam_operator.Ipam.Next.{Chosen, keep, find_gap}

-- `ip` is the least number from `lo` on that `ips` lacks, and `ips'` is `ips` with `ip` put in.
pub record IsLeast (lo : Ip) (ips : List Ip) (ip : Ip) (ips' : List Ip) : Type 0 where
  pub from : lo ≤ ip
  pub free : ¬ Elem ip ips
  pub least : (x : Ip) → lo ≤ x → x < ip → Elem x ips
  pub ascends : Ascending lo ips'
  pub added : (x : Ip) → Elem x ips' ↔ ((x ≡ ip) ⊎ Elem x ips)
  pub length_eq : length ips' ≡ length ips + 1
  -- it is less than some number that the list holds
  pub below : (m : Ip) × Elem m ips × (ip < m)

-- Either the list is a run without gaps, or the search returns the first gap.
pub data Outcome (lo : Ip) (ips : List Ip) : Option Chosen → Type 0 where
  full : ((x : Ip) → Elem x ips → x < lo + length ips) → Outcome lo ips none
  found : (ip : Ip) (ips' : List Ip) → IsLeast lo ips ip ips' → Outcome lo ips (some (ip, ips'))

run-cons :
    (lo : Ip) (ips : List Ip)
    → ((x : Ip) → Elem x ips → x < suc lo + length ips)
    → (x : Ip) → Elem x (lo ∷ ips)
    → x < lo + length (lo ∷ ips)
run-cons lo ips h x (inl p) = omega arith
run-cons lo ips h x (inr e) = omega (arith, h x e)

IsLeast-cons :
    (lo : Ip) (ips : List Ip) (ip : Ip) (ips' : List Ip)
    → IsLeast (suc lo) ips ip ips'
    → IsLeast lo (lo ∷ ips) ip (lo ∷ ips')
IsLeast-cons lo ips ip ips' l = record {
  from = omega (arith, l.from);
  free = λ e. elim e [ inl p ↦ absurd (omega (arith, l.from)) | inr q ↦ l.free q ];
  least = λ x le lt. elim (Bool-cases (x == lo)) [
    | inl same ↦ inl ((==_iff x lo).0 same)
    | inr other ↦ inr (l.least x (ground arith) lt)
  ];
  ascends = (omega arith, l.ascends);
  added = λ x. (
    λ e. elim e [
      | inl p ↦ inr (inl p)
      | inr q ↦ elim ((l.added x).0 q) [ inl p ↦ inl p | inr r ↦ inr (inr r) ]
    ],
    λ e. elim e [
      | inl p ↦ inr ((l.added x).1 (inl p))
      | inr q ↦ elim q [ inl p ↦ inl p | inr r ↦ inr ((l.added x).1 (inr r)) ]
    ],
  );
  length_eq = omega (arith, l.length_eq);
  below = let (m, e, lt) = l.below in (m, inr e, lt);
}

Outcome-keep :
    (lo : Ip) (ips : List Ip) (rest : Option Chosen)
    → Outcome (suc lo) ips rest
    → Outcome lo (lo ∷ ips) (keep lo rest)
Outcome-keep lo ips none (full h) = full (run-cons lo ips h)
Outcome-keep lo ips (some (ip, ips')) (found _ _ l) =
    found ip (lo ∷ ips') (IsLeast-cons lo ips ip ips' l)

IsLeast-here :
    (lo a : Ip) (ips : List Ip)
    → Ascending lo (a ∷ ips)
    → a ≢ lo
    → IsLeast lo (a ∷ ips) lo (lo ∷ a ∷ ips)
IsLeast-here lo a ips h ne = record {
  from = omega arith;
  free = λ e. elim e [
    | inl p ↦ ne (sym p)
    | inr q ↦ absurd (omega (arith, Ascending-le (suc a) ips lo h.1 q, h.0))
  ];
  least = λ x le lt. absurd (omega arith);
  ascends = (omega arith, (omega (arith, h.0), h.1));
  added = λ x. (λ e. e, λ e. e);
  length_eq = omega arith;
  below = (a, inl refl, omega (arith, h.0));
}

module _ (d : Deps) (lawful : IsLawful d) (base : Ip) where
  pub find_gap-Outcome :
      (i lo : ℕ) (ips : List Ip)
      → lo ≡ base + i
      → Ascending lo ips
      → All (λ ip. ip < 2 ^ 32) ips
      → Outcome lo ips (find_gap d base i ips)
  unfolding find_gap
  find_gap-Outcome i lo [] e a h = full (λ x m. absurd m)
  find_gap-Outcome i lo (ip ∷ ips) e a h =
      let next : d.delta_ip base i ≡ lo =
        lawful.delta_ip_eq base i (omega (arith, a.0, h.0)) ∙ sym e in
      rw next (elim (Bool-cases (ip == lo)) [
        | inl same ↦
            let here : ip ≡ lo = (==_iff ip lo).0 same in
            rw (same, here)
              (Outcome-keep lo ips (find_gap d base (suc i) ips) (
                find_gap-Outcome (suc i) (suc lo) ips (omega arith)
                  (subst (λ (n : ℕ). Ascending (suc n) ips) here a.1) h.1))
        | inr other ↦ rw other (
            found lo (lo ∷ ip ∷ ips) (IsLeast-here lo ip ips a (λ p. ground (arith, ==_iff ip lo))))
      ])
