-- ===== src/Reconcile/Cycle/Loaded.antt =====
-- Reconcile of controllers/egressipam/egressipam_controller.go, of an EgressIPAM that is not being deleted
use mathlib.Core.Option.{some-injective}
use egressip_ipam_operator.Prelude.{
  ◌≡◌, ◌≤◌, refl, ap, sym, ◌∙◌, true, false, some, List, Text, Elem,
}
use egressip_ipam_operator.Deps.{Deps, IsLawful}
use egressip_ipam_operator.Go.Results.{Result, ok}
use egressip_ipam_operator.Go.Net.{Ip, IpNet, size, parse_cidr}
use egressip_ipam_operator.Api.{EgressIpam, Namespace, Platform}
use egressip_ipam_operator.Effects.{Log, Services, reads, ◌>>=◌}
use egressip_ipam_operator.Reconcile.Managed.{managed-ok}
use egressip_ipam_operator.Reconcile.Finalizer.{processing}
use egressip_ipam_operator.Effects.Inversion.{>>=-eq-ok}
use egressip_ipam_operator.Infra.Provided.{get_used_ips-InNet}
use egressip_ipam_operator.Ipam.Namespaces.{assign_ips_to_namespaces}
use egressip_ipam_operator.Ipam.Namespaces.InUse.{Unused, assign_ips_to_namespaces-Unused}
use egressip_ipam_operator.Reconcile.{
  controller_name, process_reconcile_context, process, managed, proceed, reconcile_valid,
  initialize, reconcile,
}
use egressip_ipam_operator.Reconcile.Load.{Clouds, Loaded, load_reconcile_context}
use egressip_ipam_operator.Reconcile.Load.Established.{IsLoaded, load_reconcile_context-IsLoaded}
use egressip_ipam_operator.Reconcile.Load.Provided.{IsBuilt-IsProvided}
use egressip_ipam_operator.Reconcile.Validity.{is_valid}
use egressip_ipam_operator.Reconcile.Cycle.{Cycled, process_reconcile_context-Cycled}

-- A CIDR that is written with its network's address, with a prefix length from 1 to 30.
pub record IsUsable (cidr : Text) (net : IpNet) : Type 0 where
  pub parsed : parse_cidr cidr ≡ some (net.ip, net)
  pub masked : 1 ≤ net.ones
  pub room : 4 ≤ size net

module _ (d : Deps) (lawful : IsLawful d) (services : Services) where
  pub assign-Unused :
      (clouds : Clouds) (platform : Platform) (egress_ipam : EgressIpam) (loaded : Loaded)
      (log : Log) (newly : List Namespace) (log' : Log) (cidr : Text) (net : IpNet)
      → IsLoaded d services clouds platform egress_ipam loaded
      → Elem cidr loaded.rc.cidrs
      → IsUsable cidr net
      → assign_ips_to_namespaces d services loaded.infra loaded.rc log ≡ (ok newly, log')
      → Unused d loaded.infra loaded.rc log cidr net newly log'
  assign-Unused clouds platform egress_ipam loaded log newly log' cidr net l at usable e =
      let (base', net', parsed', here) = l.known cidr at in
      let same : net' ≡ net =
        ap (λ (r : Ip × IpNet). r.1) (some-injective _ _ (sym parsed' ∙ usable.parsed)) in
      assign_ips_to_namespaces-Unused d lawful loaded.infra loaded.rc log cidr net.ip net at
        usable.parsed usable.masked (here ∙ ap some same) (l.reserved cidr net.ip net usable.parsed)
        (λ infra_ips mid answer.
          get_used_ips-InNet d lawful services cidr net.ip net usable.parsed refl usable.room
            loaded.rc at loaded.infra
            (IsBuilt-IsProvided d services clouds _ _ platform loaded.infra l.built) log infra_ips
            mid answer)
        services newly log' e

  -- What a successful cycle has done: it has loaded a context and processed it, and its new addresses
  -- are unused at each usable CIDR.
  pub record Cycle (clouds : Clouds) (platform : Platform) (instance' : EgressIpam) (log log' : Log)
      : Type 0 where
    pub loaded : Loaded
    pub mid : Log
    pub load : load_reconcile_context d services clouds platform instance' log ≡ (ok loaded, mid)
    pub is_loaded : IsLoaded d services clouds platform instance' loaded
    pub cycled : Cycled d services loaded.infra loaded.rc mid log'
    pub unused :
        (cidr : Text) (net : IpNet)
        → Elem cidr loaded.rc.cidrs
        → IsUsable cidr net
        → Unused d loaded.infra loaded.rc mid cidr net cycled.newly cycled.mid

  module _ (clouds : Clouds) (platform : Platform) (name : Text) (log : Log)
      (instance' : EgressIpam) (got : services.get_egress_ipam log name ≡ ok (some instance'))
      (valid : is_valid instance' ≡ ok tt)
      (has : d.has_finalizer instance'.finalizers controller_name ≡ true)
      (kept : instance'.being_deleted ≡ false) where
    reconcile-eq-processing :
        reconcile d services clouds platform name log
        ≡ processing d services clouds platform name log instance' log
    unfolding reconcile reconcile_valid initialize proceed process
    reconcile-eq-processing = rw (got, valid, reconcile_valid, initialize, has, proceed, kept) refl

    -- A cycle that succeeds has loaded and processed a context.
    reconcile-processes :
        (u : Unit {0}) (log' : Log)
        → reconcile d services clouds platform name log ≡ (ok u, log')
        → (v : Unit {0}) × ((load_reconcile_context d services clouds platform instance'
                >>= λ loaded. process_reconcile_context d services loaded.infra loaded.rc)
              log
            ≡ (ok v, log'))
    reconcile-processes u log' e =
        let steps = load_reconcile_context d services clouds platform instance' >>= λ loaded.
        process_reconcile_context d services loaded.infra loaded.rc in
        let (v, done, rest) =
          >>=-eq-ok (managed services instance' steps)
            (λ _. reads (services.manage_success instance')) log u log'
            (sym reconcile-eq-processing ∙ e) in
        let end : (steps log).1 ≡ log' = ap (λ (x : Result (Unit {0}) × Log). x.1) rest in
        (v, managed-ok services instance' steps log v done ∙ (λ i. (ok v, end i)))

    -- If Reconcile of a valid instance that has the finalizer and is not being deleted succeeds, it has
    -- loaded the context of the instance and the platform, with the platform's infrastructure, and has
    -- processed it. At each CIDR that is written with its network's address and has a prefix length from 1
    -- to 30, each of the namespaces without addresses has got an address of the CIDR, and these are pairwise
    -- different and in use nowhere else. The netnamespaces have the addresses of their namespaces, and the
    -- host subnets have those of their nodes, or the CIDR.
    pub reconcile-Cycle :
        (u : Unit {0}) (log' : Log)
        → reconcile d services clouds platform name log ≡ (ok u, log')
        → Cycle clouds platform instance' log log'
    reconcile-Cycle u log' e =
        let load = load_reconcile_context d services clouds platform instance' in
        let (v, processed) = reconcile-processes u log' e in
        let (loaded, done, rest) =
          >>=-eq-ok load (λ loaded. process_reconcile_context d services loaded.infra loaded.rc) log
            v log' processed in
        let answer : load log ≡ (ok loaded, (load log).1) = λ i. (done i, (load log).1) in
        let l =
          load_reconcile_context-IsLoaded d services clouds platform instance' log loaded
            (load log).1 valid answer in
        let c =
          process_reconcile_context-Cycled d lawful services loaded.infra loaded.rc
            (IsBuilt-IsProvided d services clouds _ _ platform loaded.infra l.built) (load log).1 v
            log' rest in
        record {
          loaded = loaded;
          mid = (load log).1;
          load = answer;
          is_loaded = l;
          cycled = c;
          unused = λ cidr net at usable.
              assign-Unused clouds platform instance' loaded (load log).1 c.newly c.mid cidr net l
                at usable c.assigned;
        }
