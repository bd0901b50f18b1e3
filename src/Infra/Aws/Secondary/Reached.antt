-- ===== src/Infra/Aws/Secondary/Reached.antt =====
-- ReconcileInstanceSecondaryIPs of controllers/egressipam/aws/aws.go
use mathlib.Core.List.{append_assoc}
use egressip_ipam_operator.Prelude.{
  ◌≡◌, sym, ap, ◌∙◌, subst, ◌↔◌, inl, inr, some, List, ◌++◌, Text, Elem, Elem-cases,
}
use egressip_ipam_operator.Deps.{Deps, IsLawful}
use egressip_ipam_operator.Go.Results.{Result, ok}
use egressip_ipam_operator.Go.Maps.{Map}
use egressip_ipam_operator.Context.{ReconcileContext}
use egressip_ipam_operator.Effects.{Log, Write, Services, assign_private_ips, unassign_private_ips}
use egressip_ipam_operator.Effects.Inversion.{>>=-eq-ok}
use egressip_ipam_operator.Effects.News.{News}
use egressip_ipam_operator.Effects.Carried.{
  carried, carried-append, unassign-inv, assign-inv, Elem-carried_unassign, Elem-carried_assign,
}
use egressip_ipam_operator.Infra.Aws.{Instance, NetworkInterface, interface_of}
use egressip_ipam_operator.Infra.Aws.Secondary.{
  remove_aws_unused_ips, reconcile_aws_assigned_ips, reconcile_aws_secondary_ips,
}
use egressip_ipam_operator.Infra.Aws.Secondary.Calls.{
  current, Elem-call_inv, removed_of, assigned_of, removed-inv, assigned-inv, removal-News,
  assignment-News,
}

module _ (d : Deps) (lawful : IsLawful d) (services : Services) (instances : Map Instance)
    (rc : ReconcileContext) where
  module _ (name : Text) (ips : List Text) (interface : NetworkInterface)
      (at : Elem (name, ips) rc.finally_assigned_ips_by_node)
      (here : interface_of instances rc name ≡ some interface)
      (own : (e : Text × List Text) (other : NetworkInterface)
        → Elem e rc.finally_assigned_ips_by_node
        → interface_of instances rc e.0 ≡ some other
        → other.network_interface_id ≡ interface.network_interface_id
        → e ≡ (name, ips)) where
    abbrev id : Text
    id = interface.network_interface_id

    -- A call at the interface is the one of its node.
    own-eq :
        (x : Text × List Text) (other : NetworkInterface)
        → Elem x rc.finally_assigned_ips_by_node
        → interface_of instances rc x.0 ≡ some other
        → id ≡ other.network_interface_id
        → (other ≡ interface) × (x ≡ (name, ips))
    own-eq x other in_final p i =
        let same = own x other in_final p (sym i) in
        let both : some other ≡ some interface =
          sym p ∙ ap (λ (y : Text × List Text). interface_of instances rc y.0) same ∙ here in
        (cc, same)

    removed-own :
        (x : Text × List Text) (old : List Text)
        → Elem x rc.finally_assigned_ips_by_node
        → Elem (unassign_private_ips id old) (removed_of d lawful services instances rc x)
        → old ≡ d.difference (current interface) ips
    removed-own x old in_final e =
        let (other, p, q) =
          removed-inv d lawful services instances rc (interface_of instances rc x.0) x.1 _ e in
        let (i, s) = unassign-inv id other.network_interface_id old _ q in
        let (same, same') = own-eq x other in_final p i in
        s
        ∙ ap (λ (o : NetworkInterface). d.difference (current o) x.1) same
        ∙ ap (λ (y : Text × List Text). d.difference (current interface) y.1) same'

    assigned-own :
        (x : Text × List Text) (new : List Text)
        → Elem x rc.finally_assigned_ips_by_node
        → Elem (assign_private_ips id new) (assigned_of d lawful services instances rc x)
        → new ≡ d.difference ips (current interface)
    assigned-own x new in_final e =
        let (other, p, q) =
          assigned-inv d lawful services instances rc (interface_of instances rc x.0) x.1 _ e in
        let (i, s) = assign-inv id other.network_interface_id new _ q in
        let (same, same') = own-eq x other in_final p i in
        s
        ∙ ap (λ (o : NetworkInterface). d.difference x.1 (current o)) same
        ∙ ap (λ (y : Text × List Text). d.difference y.1 (current interface)) same'

    removed-here :
        (k : Text)
        → Elem k (d.difference (current interface) ips)
        → Elem
            (unassign_private_ips id (d.difference (current interface) ips))
            (removed_of d lawful services instances rc (name, ips))
    removed-here k e = rw here (Elem-call_inv (unassign_private_ips id) _ k e)

    assigned-here :
        (k : Text)
        → Elem k (d.difference ips (current interface))
        → Elem
            (assign_private_ips id (d.difference ips (current interface)))
            (assigned_of d lawful services instances rc (name, ips))
    assigned-here k e = rw here (Elem-call_inv (assign_private_ips id) _ k e)

    after_removal :
        (k : Text) (log log' : Log)
        (n : News
          (removed_of d lawful services instances rc)
          rc.finally_assigned_ips_by_node
          log
          log')
        → Elem k (carried id n.news (current interface)) ↔ (Elem k (current interface) × Elem k ips)
    after_removal k log log' n =
        let same = Elem-carried_unassign id k n.news (current interface) (λ w e.
          let (x, at', e') = n.from w e in
          let (other, p, q) =
            removed-inv d lawful services instances rc (interface_of instances rc x.0) x.1 w e' in
          (other.network_interface_id, _, q)) in
        let difference = lawful.difference_elem (current interface) ips k in
        (
          λ e.
              let (a, b) = same.0 e in
              elim (Elem-cases k ips) [
                | inl needed ↦ (a, needed)
                | inr unneeded ↦
                    let gone = difference.1 (a, unneeded) in
                    absurd (b _ (n.to (name, ips) _ at (removed-here k gone)) gone)
              ],
          λ (a, b). same.1 (
            a,
            λ old e h.
                let (x, at', e') = n.from _ e in
                (difference.0 (subst (Elem k) (removed-own x old at' e') h)).1 b,
          ),
        )

    after_assignment :
        (k : Text) (log log' : Log)
        (n : News
          (assigned_of d lawful services instances rc)
          rc.finally_assigned_ips_by_node
          log
          log')
        (before : List Text)
        → (Elem k before ↔ (Elem k (current interface) × Elem k ips))
        → Elem k (carried id n.news before) ↔ Elem k ips
    after_assignment k log log' n before kept =
        let same = Elem-carried_assign id k n.news before (λ w e.
          let (x, at', e') = n.from w e in
          let (other, p, q) =
            assigned-inv d lawful services instances rc (interface_of instances rc x.0) x.1 w e' in
          (other.network_interface_id, _, q)) in
        let difference = lawful.difference_elem ips (current interface) k in
        (
          λ e. elim (same.0 e) [
            | inl a ↦ (kept.0 a).1
            | inr (new, in_news, h) ↦
                let (x, at', e') = n.from _ in_news in
                (difference.0 (subst (Elem k) (assigned-own x new at' e') h)).0
          ],
          λ e. elim (Elem-cases k (current interface)) [
            | inl carries ↦ same.1 (inl (kept.1 (carries, e)))
            | inr lacks ↦
                let new = difference.1 (e, lacks) in
                same.1 (inr (_, n.to (name, ips) _ at (assigned-here k new), new))
          ],
        )

    -- If ReconcileInstanceSecondaryIPs reports no error, where no other node has the interface of a
    -- node, then the calls that it has made leave this interface with exactly the addresses that the
    -- cycle gives the node.
    pub reconcile_aws_secondary_ips-Reaches :
        (log : Log) (u : Unit {0}) (log' : Log)
        → reconcile_aws_secondary_ips d services instances rc log ≡ (ok u, log')
        → (calls : List Write) × (log' ≡ log ++ calls)
          × ((k : Text) → Elem k (carried id calls (current interface)) ↔ Elem k ips)
    unfolding reconcile_aws_secondary_ips
    reconcile_aws_secondary_ips-Reaches log u log' e =
        let first = remove_aws_unused_ips d services instances rc in
        let second = reconcile_aws_assigned_ips d services instances rc in
        let (v, done, rest) = >>=-eq-ok first (λ _. second) log u log' e in
        let n = removal-News d lawful services instances rc log v done in
        let m =
          assignment-News d lawful services instances rc (first log).1 u
            (ap (λ (r : Result (Unit {0}) × Log). r.0) rest) in
        let end : (second (first log).1).1 ≡ log' =
          ap (λ (r : Result (Unit {0}) × Log). r.1) rest in
        (
          n.news ++ m.news,
          sym end
              ∙ m.appended
              ∙ ap (λ (l : Log). l ++ m.news) n.appended
              ∙ append_assoc log n.news m.news,
          λ k.
              subst (λ ips'. Elem k ips' ↔ Elem k ips)
                (sym (carried-append id n.news m.news (current interface)))
                (after_assignment k _ _ m (carried id n.news (current interface))
                  (after_removal k _ _ n)),
        )
