-- ===== src/Reconcile/Finalizer.antt =====
-- Reconcile of controllers/egressipam/egressipam_controller.go, and the finalizer
pub mod Cleaned
pub mod Cleared
use egressip_ipam_operator.Prelude.{
  ◌≡◌, refl, true, false, none, some, [], ◌∷◌, ◌++◌, Text, Option, ap, sym, ◌∙◌,
}
use egressip_ipam_operator.Deps.{Deps}
use egressip_ipam_operator.Go.Results.{Error, Result, ok, err}
use egressip_ipam_operator.Api.{EgressIpam, Platform}
use egressip_ipam_operator.Effects.{
  Action, Log, Services, lift, reads, write, update_egress_ipam, ◌>>=◌, ◌>>◌,
}
use egressip_ipam_operator.Effects.Inversion.{>>=-eq-ok, write-eq-ok}
use egressip_ipam_operator.Reconcile.{
  controller_name, initialize, finalize, proceed, reconcile_valid, reconcile, manage_clean_up_logic,
  managed, without_finalizer, process_reconcile_context,
}
use egressip_ipam_operator.Reconcile.Validity.{is_valid}
use egressip_ipam_operator.Reconcile.Managed.{managed-ok}
use egressip_ipam_operator.Reconcile.Load.{Clouds, load_reconcile_context}

abbrev pub with_finalizer : Deps → EgressIpam → EgressIpam
with_finalizer d instance' = record instance' {
  finalizers = d.add_finalizer instance'.finalizers controller_name;
}

module _ (d : Deps) (services : Services) (clouds : Clouds) (platform : Platform) (name : Text)
    (log : Log) where
  -- The steps of the two long branches.
  abbrev pub deleting : EgressIpam → Action (Unit {0})
  deleting instance' =
      managed services instance' (manage_clean_up_logic d services clouds platform instance')
      >> managed services (without_finalizer d instance')
          (write services (update_egress_ipam (without_finalizer d instance')))

  abbrev pub processing : EgressIpam → Action (Unit {0})
  processing instance' =
      managed services instance' (
        load_reconcile_context d services clouds platform instance' >>= λ loaded.
        process_reconcile_context d services loaded.infra loaded.rc)
      >> reads (services.manage_success instance')

  -- What a cycle does, of an EgressIPAM that was found or not.
  pub data Start : Option EgressIpam → Result (Unit {0}) × Log → Type 0 where
    not_found : Start none (ok tt, log)
    invalid :
        (instance' : EgressIpam) (e : Error)
        → is_valid instance' ≡ err e
        → Start (some instance') (err (services.manage_error instance' e log), log)
    initialized :
        (instance' : EgressIpam)
        → is_valid instance' ≡ ok tt
        → d.has_finalizer instance'.finalizers controller_name ≡ false
        → Start (some instance') (
            managed services
              (with_finalizer d instance')
              (write services (update_egress_ipam (with_finalizer d instance')))
              log)
    deleted :
        (instance' : EgressIpam)
        → is_valid instance' ≡ ok tt
        → d.has_finalizer instance'.finalizers controller_name ≡ true
        → instance'.being_deleted ≡ true
        → Start (some instance') (deleting instance' log)
    kept :
        (instance' : EgressIpam)
        → is_valid instance' ≡ ok tt
        → d.has_finalizer instance'.finalizers controller_name ≡ true
        → instance'.being_deleted ≡ false
        → Start (some instance') (processing instance' log)

  module _ (instance' : EgressIpam) (got : services.get_egress_ipam log name ≡ ok (some instance'))
      (valid : is_valid instance' ≡ ok tt)
      (has : d.has_finalizer instance'.finalizers controller_name ≡ true)
      (deleted : instance'.being_deleted ≡ true) where
    reconcile-eq-deleting : reconcile d services clouds platform name log ≡ deleting instance' log
    unfolding reconcile reconcile_valid initialize proceed finalize
    reconcile-eq-deleting =
        rw (got, valid, reconcile_valid, initialize, has, proceed, deleted, finalize, has) refl

    pub reconcile-finalizes :
        (u : Unit {0}) (log' : Log)
        → reconcile d services clouds platform name log ≡ (ok u, log')
        → (v : Unit {0}) × (mid : Log) × (manage_clean_up_logic d services clouds platform instance'
              log
            ≡ (ok v, mid))
          × (log' ≡ mid ++ update_egress_ipam (without_finalizer d instance') ∷ [])
    reconcile-finalizes u log' e =
        let clean = manage_clean_up_logic d services clouds platform instance' in
        let last = write services (update_egress_ipam (without_finalizer d instance')) in
        let (v, cleaned, rest) =
          >>=-eq-ok (managed services instance' clean)
            (λ _. managed services (without_finalizer d instance') last) log u log'
            (sym reconcile-eq-deleting ∙ e) in
        let mid = (clean log).1 in
        let written =
          managed-ok services (without_finalizer d instance') last mid u
            (ap (λ (x : Result (Unit {0}) × Log). x.0) rest) in
        (
          v,
          mid,
          managed-ok services instance' clean log v cleaned,
          sym (ap (λ (x : Result (Unit {0}) × Log). x.1) rest)
              ∙ write-eq-ok services _ mid u (ap (λ (x : Result (Unit {0}) × Log). x.0) written),
        )
