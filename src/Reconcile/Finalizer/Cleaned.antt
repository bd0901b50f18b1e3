-- ===== src/Reconcile/Finalizer/Cleaned.antt =====
-- Reconcile of controllers/egressipam/egressipam_controller.go, of an EgressIPAM that is being deleted
use egressip_ipam_operator.Prelude.{◌≡◌, ◌++◌, ◌∙◌, ap, true, some, [], ◌∷◌, Text}
use egressip_ipam_operator.Deps.{Deps, IsLawful}
use egressip_ipam_operator.Go.Results.{ok}
use egressip_ipam_operator.Api.{EgressIpam, Platform}
use egressip_ipam_operator.Effects.{Log, Services, update_egress_ipam}
use egressip_ipam_operator.Effects.Inversion.{>>=-eq-ok}
use egressip_ipam_operator.Infra.Provided.{remove_all_assigned_ips-Keeps}
use egressip_ipam_operator.Reconcile.{controller_name, clean_up, manage_clean_up_logic, reconcile}
use egressip_ipam_operator.Reconcile.Load.{
  Clouds, Loaded, is_cloud_infrastructure, load_reconcile_context,
}
use egressip_ipam_operator.Reconcile.Finalizer.Cleared.{IsCleared, IsBuilt-IsCleared}
use egressip_ipam_operator.Reconcile.Load.Established.{load_reconcile_context-IsLoaded}
use egressip_ipam_operator.Reconcile.Load.Provided.{IsBuilt-IsProvided}
use egressip_ipam_operator.Reconcile.Validity.{is_valid}
use egressip_ipam_operator.Reconcile.CleanUp.{IsCleanedUp, clean_up-IsCleanedUp}
use egressip_ipam_operator.Reconcile.Finalizer.{reconcile-finalizes}
use egressip_ipam_operator.Reconcile.{without_finalizer}

module _ (d : Deps) (lawful : IsLawful d) (services : Services) (clouds : Clouds)
    (platform : Platform) (name : Text) (log : Log) (instance' : EgressIpam)
    (got : services.get_egress_ipam log name ≡ ok (some instance'))
    (valid : is_valid instance' ≡ ok tt)
    (has : d.has_finalizer instance'.finalizers controller_name ≡ true)
    (deleted : instance'.being_deleted ≡ true) where
  -- If Reconcile of a valid instance that has the finalizer and is being deleted succeeds, then all
  -- objects that the loaded context names have been cleaned, before the last write takes the finalizer off.
  -- On AWS, each address but the first of the first interface of each selected node's instance has been
  -- taken away too, and on Azure the interface of each selected node's machine has been written with
  -- exactly its primary configurations.
  pub reconcile-IsCleanedUp :
      (u : Unit {0}) (log' : Log)
      → reconcile d services clouds platform name log ≡ (ok u, log')
      → (loaded : Loaded) × (start : Log) × (mid : Log) × (load_reconcile_context d services clouds
            platform instance' log
          ≡ (ok loaded, start))
        × IsCleanedUp loaded.infra loaded.rc mid
        × IsCleared d services loaded.rc.selected_nodes mid platform loaded.infra
        × (log' ≡ mid ++ update_egress_ipam (without_finalizer d instance') ∷ [])
  unfolding manage_clean_up_logic
  reconcile-IsCleanedUp u log' e =
      let (v, mid, cleaned, last) =
        reconcile-finalizes d services clouds platform name log instance' got valid has deleted u
          log' e in
      let load = load_reconcile_context d services clouds platform instance' in
      let (loaded, done, rest) =
        >>=-eq-ok load (λ loaded. clean_up d services loaded.infra loaded.rc) log v mid cleaned in
      let answer : load log ≡ (ok loaded, (load log).1) = λ i. (done i, (load log).1) in
      let l =
        load_reconcile_context-IsLoaded d services clouds platform instance' log loaded (load log).1
          valid answer in
      let c =
        clean_up-IsCleanedUp d lawful services loaded.infra loaded.rc (load log).1 v mid
          (remove_all_assigned_ips-Keeps d lawful services loaded.infra
            (IsBuilt-IsProvided d services clouds _ _ platform loaded.infra l.built) loaded.rc)
          rest in
      (
        loaded,
        (load log).1,
        mid,
        answer,
        c,
        IsBuilt-IsCleared d lawful services clouds loaded.rc mid _ platform loaded.infra l.built
            (λ on. c.cloud (ap is_cloud_infrastructure l.infrastructure ∙ on)),
        last,
      )
