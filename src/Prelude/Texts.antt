-- ===== src/Prelude/Texts.antt =====
-- Text as the list of its bytes, which the program's parsers walk; keys are compared as a whole.
use Prim.Native.Char.{code}
use Prim.Native.Nat.{ℕ}
use Prim.Native.String.{String}
use mathlib.Core.Path.{◌≡◌, refl, sym}
use mathlib.Core.Logic.{◌↔◌, ◌⊎◌, inl, inr}
use mathlib.Core.Bool.{Bool, true, false, ◌&&◌}
use mathlib.Core.List.{List, [], ◌∷◌}
use native.Mathlib.Omega.{arith}
use egressip_ipam_operator.Prelude.Tests.{◌==◌, if◌then◌else◌, Bool-cases}
use egressip_ipam_operator.Prelude.Lists.{Elem}

abbrev pub Text : Type 0
Text = List ℕ

abbrev pub codes : String → Text
codes String.[] = []
codes (String.◌∷◌ c s) = code c ∷ codes s

unfoldable pub text_eq : Text → Text → Bool
text_eq [] [] = true
text_eq (x ∷ xs) (y ∷ ys) = x == y && text_eq xs ys
text_eq _ _ = false

pub text_eq_iff : (s t : Text) → (text_eq s t ≡ true) ↔ (s ≡ t)
unfolding text_eq
text_eq_iff [] [] = ground arith
text_eq_iff [] (y ∷ ys) = ground arith
text_eq_iff (x ∷ xs) [] = ground arith
text_eq_iff (x ∷ xs) (y ∷ ys) = ground (arith, text_eq_iff xs ys)

pub text_eq_refl : (s : Text) → text_eq s s ≡ true
text_eq_refl s = (text_eq_iff s s).1 refl

-- `ip` is equal to one of the texts of a loop.
unfoldable pub is_among : Text → List Text → Bool
is_among ip [] = false
is_among ip (other ∷ others) =
    let rest = is_among ip others in if text_eq other ip then true else rest

pub is_among_iff : (ip : Text) (ips : List Text) → (is_among ip ips ≡ true) ↔ Elem ip ips
unfolding is_among
is_among_iff ip [] = ((λ e. cc), λ z. absurd z)
is_among_iff ip (other ∷ others) = elim (Bool-cases (text_eq other ip)) [
  | inl same ↦
      let p : ip ≡ other = sym ((text_eq_iff other ip).0 same) in rw same ((λ _. inl p), λ _. refl)
  | inr different ↦ rw different (
    (λ e. inr ((is_among_iff ip others).0 e)),
    (λ e. elim e [
      | inl p ↦ let same : text_eq other ip ≡ true = (text_eq_iff other ip).1 (sym p) in cc
      | inr q ↦ (is_among_iff ip others).1 q
    ]),
  )
]

pub not-is_among : (ip : Text) (ips : List Text) → is_among ip ips ≡ false → ¬ Elem ip ips
not-is_among ip ips e h = let e' = (is_among_iff ip ips).1 h in cc

pub Elem-cases : (ip : Text) (ips : List Text) → Elem ip ips ⊎ (¬ Elem ip ips)
Elem-cases ip ips = elim (Bool-cases (is_among ip ips)) [
  | inl e ↦ inl ((is_among_iff ip ips).0 e)
  | inr e ↦ inr (not-is_among ip ips e)
]
