-- ===== src/Reconcile/Managed.antt =====
-- What a step has done whose error goes to `r.ManageError`, in
-- controllers/egressipam/egressipam_controller.go
use egressip_ipam_operator.Prelude.{◌≡◌}
use egressip_ipam_operator.Go.Results.{Result, ok, err, panic}
use egressip_ipam_operator.Api.{EgressIpam}
use egressip_ipam_operator.Effects.{Log, Services, Action}
use egressip_ipam_operator.Reconcile.{or_managed, managed}

module _ (services : Services) (instance' : EgressIpam) where
  or_managed-ok :
      (log : Log) (r : Result (Unit {0})) (u : Unit {0})
      → or_managed services instance' log r ≡ ok u
      → r ≡ ok u
  or_managed-ok log (ok v) u e = e
  or_managed-ok log (err c) u e = cc
  or_managed-ok log panic u e = cc

  -- ManageError makes no success of a failure.
  pub managed-ok :
      (m : Action (Unit {0})) (log : Log) (u : Unit {0})
      → (managed services instance' m log).0 ≡ ok u
      → m log ≡ (ok u, (m log).1)
  managed-ok m log u e =
      let done = or_managed-ok (m log).1 (m log).0 u e in λ i. (done i, (m log).1)
