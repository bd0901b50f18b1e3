-- ===== src/Reconcile/Load/Established.antt =====
-- What loadReconcileContext of controllers/egressipam/egressipam_controller.go establishes
use egressip_ipam_operator.Prelude.{◌≡◌, refl, ap, ◌∙◌, some, List, [], map, Text, Elem, All}
use egressip_ipam_operator.Deps.{Deps}
use egressip_ipam_operator.Go.Results.{Result, ok}
use egressip_ipam_operator.Go.Maps.{get}
use egressip_ipam_operator.Go.Net.{Ip, IpNet, parse_ip, parse_cidr}
use egressip_ipam_operator.Go.Net.Networks.{InNet}
use egressip_ipam_operator.Api.{CidrAssignment, EgressIpam, Platform}
use egressip_ipam_operator.Context.{ReconcileContext}
use egressip_ipam_operator.Effects.{Action, Log, Services, pure, lift, ◌>>=◌}
use egressip_ipam_operator.Effects.Chains.{Returns, pure-Returns, >>=-Returns, >>=-Returns_from}
use egressip_ipam_operator.Ipam.Namespaces.Merged.{ips_at}
use egressip_ipam_operator.Reconcile.Load.{
  Clouds, Loaded, Cidrs, credentials, listed, with_selected, no_cidrs, new_infra, load_cidrs,
  load_reconcile_context,
}
use egressip_ipam_operator.Reconcile.Validity.Accepts.{is_valid_iff}
use egressip_ipam_operator.Reconcile.Validity.{is_valid}
use egressip_ipam_operator.Effects.Inversion.{>>=-eq-ok}
use egressip_ipam_operator.Namespaces.{get_referring_namespaces}
use egressip_ipam_operator.Nodes.{get_all_nodes, get_selected_nodes}
use egressip_ipam_operator.NetNamespaces.{get_all_net_namespaces}
use egressip_ipam_operator.HostSubnets.{get_all_host_subnets}
use egressip_ipam_operator.Reconcile.Load.Provided.{IsBuilt, new_infra-IsBuilt}
use egressip_ipam_operator.Reconcile.Load.Kept.{
  IsKept, cidr_text, load_cidrs-IsKept, no_cidrs-IsKept,
}

-- The lists of the context are what the API server answered, each at its time.
pub record IsRead (services : Services) (egress_ipam : EgressIpam) (rc : ReconcileContext)
    : Type 0 where
  pub nodes : (log : Log) × ((get_all_nodes services log).0 ≡ ok rc.all_nodes)
  pub host_subnets : (log : Log) × ((get_all_host_subnets services log).0 ≡ ok rc.all_host_subnets)
  pub namespaces :
      (log : Log) × ((get_referring_namespaces services egress_ipam log).0
        ≡ ok (record {
          referring_namespaces = rc.referring_namespaces;
          unassigned_namespaces = rc.unassigned_namespaces;
          assigned_namespaces = rc.initially_assigned_namespaces;
        }))
  pub net_namespaces :
      (log : Log) × ((get_all_net_namespaces services log).0 ≡ ok rc.net_namespaces)

-- What the context of a valid EgressIPAM has, and which infrastructure comes with it.
pub record IsLoaded (d : Deps) (services : Services) (clouds : Clouds) (platform : Platform)
    (egress_ipam : EgressIpam) (loaded : Loaded) : Type 0 where
  pub infrastructure : loaded.rc.infrastructure ≡ platform
  pub same : loaded.rc.egress_ipam ≡ egress_ipam
  pub built :
      IsBuilt d services clouds loaded.rc.cloud_credentials_secret loaded.rc.selected_nodes platform
        loaded.infra
  pub read : IsRead services egress_ipam loaded.rc
  pub selected : get_selected_nodes d loaded.rc ≡ ok loaded.rc.selected_nodes
  -- The infrastructure was asked with the context that lacks its answer.
  pub used :
      (before : ReconcileContext) × (log : Log) × (loaded.rc
        ≡ record before { used_ips_by_cidr = loaded.rc.used_ips_by_cidr })
      × ((loaded.infra.get_used_ips_by_cidr before log).0 ≡ ok loaded.rc.used_ips_by_cidr)
  pub cidrs : loaded.rc.cidrs ≡ map cidr_text egress_ipam.cidr_assignments
  pub parsed :
      (cidr : Text)
      → Elem cidr loaded.rc.cidrs
      → (a : CidrAssignment) × Elem a egress_ipam.cidr_assignments
        × (a.cidr ≡ cidr)
        × (map parse_ip a.reserved_ips ≡ map some (ips_at loaded.rc.reserved_ips_by_cidr cidr))
  pub labels :
      (a : CidrAssignment)
      → Elem a egress_ipam.cidr_assignments
      → (b : CidrAssignment) × Elem b egress_ipam.cidr_assignments
        × (b.label_value ≡ a.label_value)
        × (get loaded.rc.cidrs_by_label a.label_value ≡ some b.cidr)
  pub known :
      (cidr : Text)
      → Elem cidr loaded.rc.cidrs
      → (base : Ip) × (net : IpNet) × (parse_cidr cidr ≡ some (base, net))
        × (get loaded.rc.net_cidr_by_cidr cidr ≡ some net)
  pub reserved :
      (cidr : Text) (base : Ip) (net : IpNet)
      → parse_cidr cidr ≡ some (base, net)
      → All (InNet net) (ips_at loaded.rc.reserved_ips_by_cidr cidr)

>>=-Returns_with :
    {A B : Type 0} (Q : A → Type 0) (P : B → Type 0) (m : Action A) (f : A → Action B)
    → Returns Q m
    → ((a : A) → Q a → Returns P (f a))
    → Returns P (m >>= f)
>>=-Returns_with Q P m f k h log b log' e =
    let (a, done, rest) = >>=-eq-ok m f log b log' e in
    h a (k log a (m log).1 (λ i. (done i, (m log).1))) (m log).1 b log' rest

-- If a context is loaded from a valid EgressIPAM, it is a context of this EgressIPAM and of the platform.
-- Its nodes, host subnets, namespaces and netnamespaces are those that were listed, its selected nodes those
-- that getSelectedNodes gives at it, and its used addresses those that its infrastructure reported.
-- The infrastructure is the one of the platform: on AWS or on Azure that of the client that the secret's
-- credentials give, with the instances of the selected nodes, and else that of bare metal. Its CIDRs are
-- those of the EgressIPAM in their order, and each of them can be parsed and comes with its network. Its
-- reserved addresses at a CIDR are all those of an assignment of the CIDR, and lie in the network, and a
-- label of an assignment leads to the CIDR of an assignment with this label.
pub load_reconcile_context-IsLoaded :
    (d : Deps) (services : Services) (clouds : Clouds) (platform : Platform)
    (egress_ipam : EgressIpam) (log : Log) (loaded : Loaded) (log' : Log)
    → is_valid egress_ipam ≡ ok tt
    → load_reconcile_context d services clouds platform egress_ipam log ≡ (ok loaded, log')
    → IsLoaded d services clouds platform egress_ipam loaded
unfolding load_reconcile_context get_selected_nodes
load_reconcile_context-IsLoaded d services clouds platform egress_ipam log loaded log' valid =
    chain log loaded log'
  where
    P : Loaded → Type 0
    P = IsLoaded d services clouds platform egress_ipam

    assignments : List CidrAssignment
    assignments = egress_ipam.cidr_assignments

    kept_by : (c : Cidrs) → load_cidrs assignments no_cidrs ≡ ok c → IsKept assignments c
    kept_by c e =
        load_cidrs-IsKept assignments [] no_cidrs c ((is_valid_iff egress_ipam).0 valid)
          no_cidrs-IsKept e

    from_lists :
        (c : Cidrs)
        → IsKept assignments c
        → (read : ReconcileContext) → read.infrastructure ≡ platform
        → read.egress_ipam ≡ egress_ipam
        → IsRead services egress_ipam read
        → read.cidrs ≡ c.cidrs
        → read.cidrs_by_label ≡ c.cidrs_by_label
        → read.net_cidr_by_cidr ≡ c.net_cidr_by_cidr
        → read.reserved_ips_by_cidr ≡ c.reserved_ips_by_cidr
        → Returns P (
            lift (get_selected_nodes d read) >>= λ selected.
            new_infra d services clouds (with_selected d read selected) >>= λ infra.
            infra.get_used_ips_by_cidr (with_selected d read selected) >>= λ used. pure (record {
              rc = record (with_selected d read selected) { used_ips_by_cidr = used };
              infra = infra;
            }))
    from_lists c kept read on from lists p l q r =
        >>=-Returns_from P (lift (get_selected_nodes d read)) _ λ selected _ select.
          >>=-Returns_with
            (IsBuilt d services clouds read.cloud_credentials_secret selected platform) P
            (new_infra d services clouds (with_selected d read selected)) _
            (new_infra-IsBuilt d services clouds (with_selected d read selected) platform on)
            λ infra built.
              >>=-Returns_from P (infra.get_used_ips_by_cidr (with_selected d read selected)) _
                λ used asked answer. pure-Returns P _ (record {
                  infrastructure = on;
                  same = from;
                  built = built;
                  read = record {
                    nodes = lists.nodes;
                    host_subnets = lists.host_subnets;
                    namespaces = lists.namespaces;
                    net_namespaces = lists.net_namespaces;
                  };
                  selected = select;
                  used = (with_selected d read selected, asked, refl, answer);
                  cidrs = p ∙ kept.cidrs;
                  parsed = rw (p, r) kept.parsed;
                  labels = rw l kept.labels;
                  known = rw (p, q) kept.known;
                  reserved = rw r kept.reserved;
                })

    chain : Returns P (load_reconcile_context d services clouds platform egress_ipam)
    chain = >>=-Returns P (credentials services platform) _ λ secret.
        >>=-Returns_with (IsKept assignments) P (lift (load_cidrs assignments no_cidrs)) _
          (λ l c l' e. kept_by c (ap (λ (r : Result Cidrs × Log). r.0) e))
          λ c kept. >>=-Returns_from P (get_all_nodes services) _ λ all_nodes l₁ e₁.
            >>=-Returns_from P (get_all_host_subnets services) _ λ all_host_subnets l₂ e₂.
              >>=-Returns_from P (get_referring_namespaces services egress_ipam) _
                λ namespaces l₃ e₃.
                  >>=-Returns_from P (get_all_net_namespaces services) _ λ net_namespaces l₄ e₄.
                    from_lists c kept
                      (listed platform secret egress_ipam c all_nodes all_host_subnets namespaces
                        net_namespaces)
                      refl refl
                      (record {
                        nodes = (l₁, e₁);
                        host_subnets = (l₂, e₂);
                        namespaces = (l₃, e₃);
                        net_namespaces = (l₄, e₄);
                      })
                      refl refl refl refl
