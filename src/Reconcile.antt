-- ===== src/Reconcile.antt =====
-- controllers/egressipam/egressipam_controller.go: one reconcile cycle of an EgressIPAM.
pub mod Validity
pub mod Load
pub mod Finalizer
pub mod CleanUp
pub mod Managed
pub mod HostSubnets
pub mod Cycle
use egressip_ipam_operator.Prelude.{
  Bool, true, false, not, ◌||◌, Option, none, some, List, ◌++◌, Text, codes, ltb, length,
  if◌then◌else◌,
}
use egressip_ipam_operator.Deps.{Deps}
use egressip_ipam_operator.Go.Results.{Result, ok, err, panic}
use egressip_ipam_operator.Api.{EgressIpam, Namespace, Platform}
use egressip_ipam_operator.Context.{ReconcileContext}
use egressip_ipam_operator.Effects.{
  Action, Log, Services, pure, lift, reads, write, update_egress_ipam, ◌>>=◌, ◌>>◌,
}
use egressip_ipam_operator.Infra.{Infra}
use egressip_ipam_operator.Namespaces.{remove_namespace_assigned_ips}
use egressip_ipam_operator.Nodes.{get_assigned_ips_by_node}
use egressip_ipam_operator.NetNamespaces.{
  reconcile_net_namespaces, remove_net_namespace_assigned_ips,
}
use egressip_ipam_operator.HostSubnets.{
  reconcile_hs_assigned_ips, assign_cidrs_to_host_subnets,
  remove_host_subnet_assigned_ips_and_cidrs,
}
use egressip_ipam_operator.Ipam.Namespaces.{assign_ips_to_namespaces}
use egressip_ipam_operator.Ipam.Nodes.{assign_ips_to_nodes}
use Validity.{is_valid}
use Load.{Clouds, Loaded, is_cloud_infrastructure, load_reconcile_context}

abbrev pub with_assigned : ReconcileContext → List Namespace → ReconcileContext
with_assigned rc newly = record rc {
  finally_assigned_namespaces = rc.initially_assigned_namespaces ++ newly;
}

-- The last step: explicit addresses on a cloud or with several CIDRs, else the CIDR itself.
unfoldable pub reconcile_host_subnets : Deps → Services → ReconcileContext → Action (Unit {0})
reconcile_host_subnets d services rc =
    if is_cloud_infrastructure rc.infrastructure || ltb 1 (length rc.cidrs)
    then reconcile_hs_assigned_ips d services rc
    else assign_cidrs_to_host_subnets d services rc

-- processReconcileContext up to the metrics. Its errors go to `r.ManageError` at the place of its call.
unfoldable pub process_reconcile_context :
    Deps → Services → Infra → ReconcileContext → Action (Unit {0})
unfolding reconcile_host_subnets
process_reconcile_context d services infra rc = do
  newly ← assign_ips_to_namespaces d services infra rc
  let assigned = with_assigned rc newly
  reconcile_net_namespaces d services assigned
  let initially = record assigned {
    initially_assigned_ips_by_node = get_assigned_ips_by_node d assigned;
  }
  by_node ← lift (assign_ips_to_nodes d initially)
  let finally = record initially { finally_assigned_ips_by_node = by_node }
  infra.reconcile_instance_secondary_ips finally
  reconcile_host_subnets d services finally

-- The part of manageCleanUpLogic behind the load of the context.
unfoldable pub clean_up : Deps → Services → Infra → ReconcileContext → Action (Unit {0})
clean_up d services infra rc = do
  remove_namespace_assigned_ips d services rc
  remove_net_namespace_assigned_ips d services rc
  remove_host_subnet_assigned_ips_and_cidrs d services rc
  if is_cloud_infrastructure rc.infrastructure then infra.remove_all_assigned_ips rc else pure tt

-- manageCleanUpLogic
unfoldable pub manage_clean_up_logic :
    Deps → Services → Clouds → Platform → EgressIpam → Action (Unit {0})
unfolding clean_up
manage_clean_up_logic d services clouds platform instance' = do
  loaded ← load_reconcile_context d services clouds platform instance'
  clean_up d services loaded.infra loaded.rc

-- `r.controllerName`
abbrev pub controller_name : Text
controller_name = codes "EgressIPAM_controller"

-- IsInitialized adds the finalizer to an instance that lacks it; `none` for the result true.
unfoldable pub initialize : Deps → EgressIpam → Option EgressIpam
initialize d instance' =
    if d.has_finalizer instance'.finalizers controller_name
    then none
    else some
        (record instance' { finalizers = d.add_finalizer instance'.finalizers controller_name })

-- What `r.ManageError` makes of the error of a step.
abbrev pub or_managed : Services → EgressIpam → Log → Result (Unit {0}) → Result (Unit {0})
or_managed services instance' log (ok u) = ok u
or_managed services instance' log (err e) = err (services.manage_error instance' e log)
or_managed services instance' log panic = panic

-- A step of the cycle of an instance, and `r.ManageError` where it fails.
abbrev pub managed : Services → EgressIpam → Action (Unit {0}) → Action (Unit {0})
managed services instance' m log =
    let (r, log') = m log in (or_managed services instance' log' r, log')

-- An instance as the last write of a clean-up has it.
abbrev pub without_finalizer : Deps → EgressIpam → EgressIpam
without_finalizer d instance' = record instance' {
  finalizers = d.remove_finalizer instance'.finalizers controller_name;
}

-- The branch of Reconcile for an instance that is being deleted.
unfoldable pub finalize : Deps → Services → Clouds → Platform → EgressIpam → Action (Unit {0})
unfolding manage_clean_up_logic
finalize d services clouds platform instance' =
    if not (d.has_finalizer instance'.finalizers controller_name) then pure tt else do
      managed services instance' (manage_clean_up_logic d services clouds platform instance')
      managed services (without_finalizer d instance')
          (write services (update_egress_ipam (without_finalizer d instance')))

-- The branch of Reconcile for an instance that is kept, without the metrics.
unfoldable pub process : Deps → Services → Clouds → Platform → EgressIpam → Action (Unit {0})
unfolding process_reconcile_context
process d services clouds platform instance' = do
  managed services instance' (
      load_reconcile_context d services clouds platform instance' >>= λ loaded.
      process_reconcile_context d services loaded.infra loaded.rc)
  reads (services.manage_success instance')

-- The rest of Reconcile for a valid instance that has the finalizer.
unfoldable pub proceed : Deps → Services → Clouds → Platform → EgressIpam → Action (Unit {0})
unfolding finalize process
proceed d services clouds platform instance' =
    if instance'.being_deleted
    then finalize d services clouds platform instance'
    else process d services clouds platform instance'

-- The rest of Reconcile for an instance that was found and is valid.
unfoldable pub reconcile_valid :
    Deps → Services → Clouds → Platform → EgressIpam → Action (Unit {0})
unfolding initialize proceed
reconcile_valid d services clouds platform instance' = elim (initialize d instance') [
  | some initialized ↦
      managed services initialized (write services (update_egress_ipam initialized))
  | none ↦ proceed d services clouds platform instance'
]

abbrev reconcile_found : Deps → Services → Clouds → Platform → Option EgressIpam → Action (Unit {0})
reconcile_found d services clouds platform none = pure tt
reconcile_found d services clouds platform (some instance') =
    managed services instance' (lift (is_valid instance'))
    >> reconcile_valid d services clouds platform instance'

-- Reconcile
unfoldable pub reconcile : Deps → Services → Clouds → Platform → Text → Action (Unit {0})
unfolding reconcile_valid
reconcile d services clouds platform name = do
  found ← reads (λ log. services.get_egress_ipam log name)
  reconcile_found d services clouds platform found
