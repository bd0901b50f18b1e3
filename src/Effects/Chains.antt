-- ===== src/Effects/Chains.antt =====
-- What a chain of two calls keeps and writes.
use egressip_ipam_operator.Prelude.{◌≡◌, refl, ap, subst, Elem}
use egressip_ipam_operator.Go.Results.{Result, ok, ok-injective, err, panic}
use egressip_ipam_operator.Effects.{Log, Write, Action, continue, pure, ◌>>=◌, ◌>>◌}
use egressip_ipam_operator.Effects.Inversion.{>>=-eq-ok}
use egressip_ipam_operator.Effects.Goroutines.{Keeps, Writes}

-- The action keeps what was written before, whatever it returns.
abbrev pub Keeping : {A : Type 0} → Action A → Type 0
Keeping m = (log : Log) (w : Write) → Elem w log → Elem w (m log).1

module _ {A B : Type 0} where
  continue-Keeping :
      (f : A → Action B) (r : Result A) (log : Log) (w : Write)
      → ((a : A) → Keeping (f a))
      → Elem w log
      → Elem w (continue r f log).1
  continue-Keeping f (ok a) log w k e = k a log w e
  continue-Keeping f (err c) log w k e = e
  continue-Keeping f panic log w k e = e

  pub >>=-Keeping :
      (m : Action A) (f : A → Action B) → Keeping m → ((a : A) → Keeping (f a)) → Keeping (m >>= f)
  >>=-Keeping m f k h log w e = continue-Keeping f (m log).0 (m log).1 w h (k log w e)

-- What the action returns, if it succeeds, has the property.
abbrev pub Returns : {A : Type 0} → (A → Type 0) → Action A → Type 0
Returns {A = A} P m = (log : Log) (a : A) (log' : Log) → m log ≡ (ok a, log') → P a

pub pure-Returns : {A : Type 0} (P : A → Type 0) (a : A) → P a → Returns P (pure a)
pure-Returns P a h log b log' e = subst P (ok-injective (ap (λ (r : Result _ × Log). r.0) e)) h

pub >>=-Returns :
    {A B : Type 0} (P : B → Type 0) (m : Action A) (f : A → Action B)
    → ((a : A) → Returns P (f a))
    → Returns P (m >>= f)
>>=-Returns P m f h log b log' e =
    let (a, done, rest) = >>=-eq-ok m f log b log' e in h a (m log).1 b log' rest

-- The same, where what follows may use what the first action returned.
pub >>=-Returns_from :
    {A B : Type 0} (P : B → Type 0) (m : Action A) (f : A → Action B)
    → ((a : A) (log : Log) → (m log).0 ≡ ok a → Returns P (f a))
    → Returns P (m >>= f)
>>=-Returns_from P m f h log b log' e =
    let (a, done, rest) = >>=-eq-ok m f log b log' e in h a log done (m log).1 b log' rest

module _ (m n : Action (Unit {0})) where
  continue-ok :
      (r : Result (Unit {0})) (mid : Log) (u : Unit {0})
      → (continue r (λ _. n) mid).0 ≡ ok u
      → (r ≡ ok tt) × ((n mid).0 ≡ ok u) × ((continue r (λ _. n) mid).1 ≡ (n mid).1)
  continue-ok (ok _) mid u e = (refl, e, refl)
  continue-ok (err c) mid u e = cc
  continue-ok panic mid u e = cc

  pub >>-Writes_first : (w : Write) → Writes m w → Keeps n → Writes (m >> n) w
  >>-Writes_first w h k log u e =
      let (done, rest, same) = continue-ok (m log).0 (m log).1 u e in
      rw same (k (m log).1 w (h log tt done))

  pub >>-Writes_second : (w : Write) → Writes n w → Writes (m >> n) w
  >>-Writes_second w h log u e =
      let (done, rest, same) = continue-ok (m log).0 (m log).1 u e in rw same (h (m log).1 u rest)
