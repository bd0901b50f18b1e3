-- ===== src/Effects/Inversion.antt =====
-- What a successful sequence of calls has done, step by step.
use egressip_ipam_operator.Prelude.{◌≡◌, refl, Option, none, some, [], ◌∷◌, ◌++◌}
use egressip_ipam_operator.Go.Results.{Error, Result, ok, err, panic}
use egressip_ipam_operator.Effects.{Log, Write, Services, Action, continue, write, answered, ◌>>=◌}

module _ {A B : Type 0} where
  continue-eq-ok :
      (f : A → Action B) (b : B) (log' : Log) (r : Result A) (mid : Log)
      → continue r f mid ≡ (ok b, log')
      → (a : A) × (r ≡ ok a) × (f a mid ≡ (ok b, log'))
  continue-eq-ok f b log' (ok a) mid e = (a, refl, e)
  continue-eq-ok f b log' (err c) mid e = cc
  continue-eq-ok f b log' panic mid e = cc

  -- A chain that succeeds has a first step that succeeds.
  pub >>=-eq-ok :
      (m : Action A) (f : A → Action B) (log : Log) (b : B) (log' : Log)
      → (m >>= f) log ≡ (ok b, log')
      → (a : A) × ((m log).0 ≡ ok a) × (f a (m log).1 ≡ (ok b, log'))
  >>=-eq-ok m f log b log' e = continue-eq-ok f b log' (m log).0 (m log).1 e

answered-eq-ok :
    (o : Option Error) (w : Write) (log : Log) (u : Unit {0})
    → (answered o w log).0 ≡ ok u
    → (answered o w log).1 ≡ log ++ w ∷ []
answered-eq-ok none w log u e = refl
answered-eq-ok (some c) w log u e = cc

-- A write that succeeds is the next one in the log.
pub write-eq-ok :
    (services : Services) (w : Write) (log : Log) (u : Unit {0})
    → (write services w log).0 ≡ ok u
    → (write services w log).1 ≡ log ++ w ∷ []
unfolding write
write-eq-ok services w log u e = answered-eq-ok (services.answer log w) w log u e
