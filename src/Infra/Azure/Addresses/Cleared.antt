-- ===== src/Infra/Azure/Addresses/Cleared.antt =====
-- removeAllAzureSecondaryIPs of controllers/egressipam/azure/azure.go: what it writes
use egressip_ipam_operator.Prelude.{
  ◌≡◌, ◌↔◌, refl, sym, ap, ◌∙◌, inl, inr, true, false, List, [], ◌∷◌, Text, Elem, Elem-append, Bool,
  Bool-cases, subst, if◌then◌else◌,
}
use egressip_ipam_operator.Deps.{Deps, IsLawful}
use egressip_ipam_operator.Go.Results.{Result, ok}
use egressip_ipam_operator.Go.Maps.{Map, keys}
use egressip_ipam_operator.Context.{ReconcileContext}
use egressip_ipam_operator.Network.{Interface, IpConfiguration, VirtualMachine}
use egressip_ipam_operator.Effects.{
  Log, Write, Services, lift, reads, write, update_interface, ◌>>=◌,
}
use egressip_ipam_operator.Effects.Inversion.{>>=-eq-ok, write-eq-ok}
use egressip_ipam_operator.Effects.Goroutines.{Makes, schedule-Makes}
use egressip_ipam_operator.Infra.Azure.{Azure, get_resource_group_from_resource_id}
use egressip_ipam_operator.Infra.Azure.Addresses.{
  load_node, update, primary_only, remove_all_of, remove_all_azure_secondary_ips,
}
use egressip_ipam_operator.Infra.Azure.Addresses.Removed.{remove_all_of-Keeps}

primary_only-if :
    (x : IpConfiguration) (cs : List IpConfiguration) (b : Bool)
    → x.primary ≡ b
    → primary_only (x ∷ cs) ≡ (if b then x ∷ primary_only cs else primary_only cs)
unfolding primary_only
primary_only-if x cs b e = ap (λ (b : Bool). if b then x ∷ primary_only cs else primary_only cs) e

primary_only_iff :
    (cs : List IpConfiguration) (c : IpConfiguration)
    → Elem c (primary_only cs) ↔ (Elem c cs × (c.primary ≡ true))
unfolding primary_only
primary_only_iff [] c = ((λ z. absurd z), λ h. absurd h.0)
primary_only_iff (x ∷ cs) c =
    let rest = primary_only_iff cs c in
    let P = λ (l : List IpConfiguration). Elem c l ↔ (Elem c (x ∷ cs) × (c.primary ≡ true)) in
    elim (Bool-cases x.primary) [
      | inl first ↦ subst P (sym (primary_only-if x cs true first)) (
        (λ e. elim e [
          | inl p ↦ (inl p, ap (λ (y : IpConfiguration). y.primary) p ∙ first)
          | inr later ↦ let (at, q) = rest.0 later in (inr at, q)
        ]),
        λ (at, q). elim at [ inl p ↦ inl p | inr later ↦ inr (rest.1 (later, q)) ],
      )
      | inr second ↦ subst P (sym (primary_only-if x cs false second)) (
        (λ e. let (at, q) = rest.0 e in (inr at, q)),
        λ (at, q). elim at [
          | inl p ↦
              let clash : false ≡ true =
                sym second ∙ ap (λ (y : IpConfiguration). y.primary) (sym p) ∙ q in
              cc
          | inr later ↦ rest.1 (later, q)
        ],
      )
    ]

module _ (azure : Azure) (instances : Map VirtualMachine) where
  -- The write of the interface of a node's machine, as Azure gave it, with exactly its primary
  -- configurations.
  pub record IsPrimaryOnly (name : Text) (w : Write) : Type 0 where
    pub before : Log
    pub interface : Interface
    pub ips : List Text
    pub found : (load_node azure instances name before).0 ≡ ok (interface, ips)
    pub group : Text
    pub in_group : get_resource_group_from_resource_id interface.id ≡ ok group
    pub configurations : List IpConfiguration
    pub primary :
        (c : IpConfiguration)
        → Elem c configurations ↔ (Elem c interface.ip_configurations × (c.primary ≡ true))
    pub same :
        w
        ≡ update_interface group interface.name
            (record interface { ip_configurations = configurations })

  module _ (services : Services) where
    update-Writes :
        (interface : Interface) (cs : List IpConfiguration) (log : Log) (u : Unit {0})
        → (update services azure interface cs log).0 ≡ ok u
        → (group : Text) × (get_resource_group_from_resource_id interface.id ≡ ok group)
          × Elem
              (update_interface group interface.name (record interface { ip_configurations = cs }))
              (update services azure interface cs log).1
    unfolding update
    update-Writes interface cs log u e =
        let waits = reads azure.wait_for_completion in
        let w = λ (group : Text).
          update_interface group interface.name (record interface { ip_configurations = cs }) in
        let (group, there, rest) =
          >>=-eq-ok (lift (get_resource_group_from_resource_id interface.id))
            (λ group. write services (w group) >>= λ _. waits) log u
            (update services azure interface cs log).1
            (λ i. (e i, (update services azure interface cs log).1)) in
        let (v, written, last) =
          >>=-eq-ok (write services (w group)) (λ _. waits) log u
            (update services azure interface cs log).1 rest in
        let end : (write services (w group) log).1 ≡ (update services azure interface cs log).1 =
          ap (λ (r : Result (Unit {0}) × Log). r.1) last in
        (
          group,
          there,
          subst (Elem (w group)) (sym (write-eq-ok services (w group) log v written) ∙ end)
              ((Elem-append (w group) log (w group ∷ [])).1 (inr (inl refl))),
        )

    remove_all_of-Makes :
        (name : Text) → Makes (remove_all_of services azure instances name) (IsPrimaryOnly name)
    unfolding remove_all_of
    remove_all_of-Makes name log u e =
        let run = remove_all_of services azure instances name log in
        let ((interface, ips), there, rest) =
          >>=-eq-ok (load_node azure instances name)
            (λ (loaded : Interface × List Text).
              update services azure loaded.0 (primary_only loaded.0.ip_configurations))
            log u run.1 (λ i. (e i, run.1)) in
        let cs = primary_only interface.ip_configurations in
        let mid = (load_node azure instances name log).1 in
        let (group, in_group, written) =
          update-Writes interface cs mid u (ap (λ (r : Result (Unit {0}) × Log). r.0) rest) in
        (
          update_interface group interface.name (record interface { ip_configurations = cs }),
          record {
            before = log;
            interface = interface;
            ips = ips;
            found = there;
            group = group;
            in_group = in_group;
            configurations = cs;
            primary = primary_only_iff interface.ip_configurations;
            same = refl;
          },
          subst (Elem _) (ap (λ (r : Result (Unit {0}) × Log). r.1) rest) written,
        )

    -- If removeAllAzureSecondaryIPs reports no error, then of each selected node the interface of its
    -- machine has been written with exactly its primary configurations.
    pub remove_all_azure_secondary_ips-Makes :
        (d : Deps)
        → IsLawful d
        → (rc : ReconcileContext) (name : Text) (log : Log) (u : Unit {0}) (log' : Log)
        → Elem name (keys rc.selected_nodes)
        → remove_all_azure_secondary_ips d services azure instances rc log ≡ (ok u, log')
        → (w : Write) × IsPrimaryOnly name w × Elem w log'
    unfolding remove_all_azure_secondary_ips
    remove_all_azure_secondary_ips-Makes d lawful rc name log u log' at e =
        let (w, stripped, made) =
          schedule-Makes d lawful (remove_all_of services azure instances) (keys rc.selected_nodes)
            name (IsPrimaryOnly name) (λ x _. remove_all_of-Keeps azure services instances x) at
            (remove_all_of-Makes name) log u (ap (λ (r : Result (Unit {0}) × Log). r.0) e) in
        (w, stripped, subst (Elem w) (ap (λ (r : Result (Unit {0}) × Log). r.1) e) made)
