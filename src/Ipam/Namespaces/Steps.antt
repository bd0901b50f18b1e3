-- ===== src/Ipam/Namespaces/Steps.antt =====
-- getNextAvailableIPs of controllers/egressipam/ipam.go
use egressip_ipam_operator.Prelude.{
  ◌≡◌, ◌≢◌, refl, sym, ◌∙◌, some, List, [], ◌∷◌, Text, Elem, NoDup, inl, inr, subst,
}
use egressip_ipam_operator.Deps.{Deps, IsLawful}
use egressip_ipam_operator.Go.Results.{ok, >>=-eq-ok}
use egressip_ipam_operator.Go.Maps.{
  Map, keys, get, put, get_or_zero, get-put_self, get-put_ne, keys-put_old, Elem-of_get,
  get-of_Elem,
}
use egressip_ipam_operator.Go.Net.{Ip}
use egressip_ipam_operator.Ipam.Next.{Chosen, get_next_available_ip}
use egressip_ipam_operator.Ipam.Namespaces.{NextIps, next_ips, get_next_available_ips}

-- What one round does at a CIDR of the map.
pub record Taken (d : Deps) (cidr : Text) (before : Map (List Ip)) (after : NextIps) : Type 0 where
  pub ip : Ip
  pub ips : List Ip
  pub ips' : List Ip
  pub old : get before cidr ≡ some ips
  pub chosen : get_next_available_ip d cidr ips ≡ ok (ip, ips')
  pub assigned : get after.0 cidr ≡ some ip
  pub new : get after.1 cidr ≡ some ips'

pub record Round (d : Deps) (cidrs : List Text) (before after : NextIps) : Type 0 where
  pub taken : (cidr : Text) → Elem cidr cidrs → Taken d cidr before.1 after
  pub kept :
      (cidr : Text)
      → ¬ Elem cidr cidrs
      → (get after.0 cidr ≡ get before.0 cidr) × (get after.1 cidr ≡ get before.1 cidr)
  pub same_keys : keys after.1 ≡ keys before.1

module _ (d : Deps) where
  Round-cons :
      (cidr : Text) (cidrs : List Text) (assigned : Map Ip) (m : Map (List Ip)) (ips : List Ip)
      (chosen : Chosen) (after : NextIps)
      → ¬ Elem cidr cidrs
      → get m cidr ≡ some ips
      → get_next_available_ip d cidr ips ≡ ok chosen
      → Round d cidrs (put assigned cidr chosen.0, put m cidr chosen.1) after
      → Round d (cidr ∷ cidrs) (assigned, m) after
  Round-cons cidr cidrs assigned m ips chosen after new old e round = record {
    taken = λ k at. elim at [
      | inl p ↦ rw p (record {
        ip = chosen.0;
        ips = ips;
        ips' = chosen.1;
        old = old;
        chosen = e;
        assigned = (round.kept cidr new).0 ∙ get-put_self assigned cidr chosen.0;
        new = (round.kept cidr new).1 ∙ get-put_self m cidr chosen.1;
      })
      | inr q ↦
          let t = round.taken k q in
          let ne : cidr ≢ k = λ p. new (rw p q) in
          record {
            ip = t.ip;
            ips = t.ips;
            ips' = t.ips';
            old = sym (get-put_ne m cidr k chosen.1 ne) ∙ t.old;
            chosen = t.chosen;
            assigned = t.assigned;
            new = t.new;
          }
    ];
    kept = λ k out.
        let (a, b) = round.kept k (λ q. out (inr q)) in
        let ne : cidr ≢ k = λ p. out (inl (sym p)) in
        (a ∙ get-put_ne assigned cidr k chosen.0 ne, b ∙ get-put_ne m cidr k chosen.1 ne);
    same_keys = round.same_keys ∙ keys-put_old m cidr chosen.1 (Elem-of_get m cidr ips old);
  }

  next_ips-Round :
      (cidrs : List Text) (assigned : Map Ip) (m : Map (List Ip)) (after : NextIps)
      → NoDup cidrs
      → ((cidr : Text) → Elem cidr cidrs → Elem cidr (keys m))
      → next_ips d cidrs (assigned, m) ≡ ok after
      → Round d cidrs (assigned, m) after
  unfolding next_ips
  next_ips-Round [] assigned m after nodup known e =
      let same : (assigned, m) ≡ after = cc in
      subst (Round d [] (assigned, m)) same
        (record { taken = λ k at. absurd at; kept = λ k out. (refl, refl); same_keys = refl })
  next_ips-Round (cidr ∷ cidrs) assigned m after nodup known e =
      let (ips, old) = get-of_Elem m cidr (known cidr (inl refl)) in
      let (chosen, q, rest) =
        >>=-eq-ok (get_next_available_ip d cidr (get_or_zero [] m cidr))
          (λ chosen. next_ips d cidrs (put assigned cidr chosen.0, put m cidr chosen.1)) e in
      Round-cons cidr cidrs assigned m ips chosen after nodup.0 old (rw (old, get_or_zero) at q) (
        next_ips-Round cidrs (put assigned cidr chosen.0) (put m cidr chosen.1) after nodup.1
          (λ k at.
            rw (keys-put_old m cidr chosen.1 (Elem-of_get m cidr ips old)) (known k (inr at)))
          rest)

  -- If getNextAvailableIPs succeeds, then, at each CIDR of the map, the new address and the new pool
  -- are what getNextAvailableIP returned for the old pool, whatever the order of the loop, and the
  -- map has the same CIDRs as before, provided that no CIDR stood in it twice.
  pub get_next_available_ips-Round :
      IsLawful d
      → (m : Map (List Ip)) (after : NextIps) → NoDup (keys m)
      → get_next_available_ips d m ≡ ok after
      → Round d (d.range (keys m)) ([], m) after
  unfolding get_next_available_ips
  get_next_available_ips-Round lawful m after nodup e =
      next_ips-Round (d.range (keys m)) [] m after (lawful.range_nodup (keys m) nodup)
        (λ k. (lawful.range_elem (keys m) k).0) e
