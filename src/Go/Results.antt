-- ===== src/Go/Results.antt =====
-- Go functions that return an error, or panic: a failed call never returns a value of interest, so
-- the values that the source returns beside an error are not kept.
use egressip_ipam_operator.Prelude.{ℕ, ◌≡◌, refl, Text}

-- The errors that the program makes, by the place that makes them. `foreign` is an error value that
-- the API server or a cloud service returned.
pub data Error : Type 0 where
  bad_cidr bad_ip not_contained : Text → Error
  no_more_ips : Text → Error
  never_here : Error
  no_hostsubnet no_annotation no_nodes : Text → Error
  no_instance no_secret_key no_instance_type unknown_instance_type : Error
  foreign : ℕ → Error

pub data Result {ℓ} (A : Type ℓ) : Type ℓ where
  ok : A → Result A
  err : Error → Result A
  panic : Result A

-- A call whose value the next one takes; an error or a panic ends the chain.
module _ {ℓ κ} {A : Type ℓ} {B : Type κ} where
  infixl 5 ◌>>=◌
  abbrev pub ◌>>=◌ : Result A → (A → Result B) → Result B
  panic >>= next = panic
  err e >>= next = err e
  ok a >>= next = next a

  -- A chain that succeeds has a first call that succeeds.
  pub >>=-eq-ok :
      (first : Result A) (next : A → Result B) {b : B}
      → (first >>= next) ≡ ok b
      → (a : A) × (first ≡ ok a) × (next a ≡ ok b)
  >>=-eq-ok panic next h = cc
  >>=-eq-ok (err e) next h = cc
  >>=-eq-ok (ok a) next h = (a, refl, h)

pub ok-injective : {A : Type 0} {a b : A} → ok a ≡ ok b → a ≡ b
ok-injective e = cc
