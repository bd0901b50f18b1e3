-- ===== src/Ipam/Namespaces/Enough.antt =====
-- The loop of assignIPsToNamespaces, where every CIDR has room
use mathlib.Core.Option.{some-injective}
use egressip_ipam_operator.Prelude.{
  ℕ, suc, ◌+◌, ◌%◌, ◌^◌, ◌≤◌, ◌<◌, ◌≡◌, ◌≢◌, refl, sym, ap, ◌∙◌, inl, inr, Option, none, some, List,
  [], ◌∷◌, ◌++◌, arith, Text, Elem, NoDup, length, Bool-cases, Option-cases, ◌==◌,
}
use egressip_ipam_operator.Deps.{Deps, IsLawful}
use egressip_ipam_operator.Go.Results.{ok, err, no_more_ips, never_here, ok-injective}
use egressip_ipam_operator.Go.Maps.{Map, keys, get, put, get_or_zero, get-put_ne}
use egressip_ipam_operator.Go.Net.{Ip, IpNet, size, parse_cidr}
use egressip_ipam_operator.Api.{Namespace}
use egressip_ipam_operator.Effects.{Write, Log, Services, write, update_namespace}
use egressip_ipam_operator.Ipam.Next.{
  Chosen, keep, find_gap, or_never_here, next_in, get_next_available_ip,
}
use egressip_ipam_operator.Ipam.Next.Least.{get_next_available_ip-IsNext}
use egressip_ipam_operator.Ipam.Namespaces.{
  NextIps, next_ips, get_next_available_ips, with_ips, assign_ips,
}
use egressip_ipam_operator.Ipam.Namespaces.Steps.{get_next_available_ips-Round}
use egressip_ipam_operator.Ipam.Namespaces.Distinct.{HasPool, Round-Taking}

keep-length :
    (x : Ip) (o : Option Chosen) (n : ℕ) (ip : Ip) (ips' : List Ip)
    → ((j : Ip) (js : List Ip) → o ≡ some (j, js) → length js ≡ suc n)
    → keep x o ≡ some (ip, ips')
    → length ips' ≡ suc (suc n)
keep-length x none n ip ips' h e = cc
keep-length x (some (j, js)) n ip ips' h e =
    ap (λ (c : Chosen). length c.1) (sym (some-injective _ _ e)) ∙ ap suc (h j js refl)

module _ (d : Deps) where
  find_gap-length :
      (base : Ip) (i : ℕ) (ips : List Ip) (ip : Ip) (ips' : List Ip)
      → find_gap d base i ips ≡ some (ip, ips')
      → length ips' ≡ suc (length ips)
  unfolding find_gap
  find_gap-length base i [] ip ips' e = cc
  find_gap-length base i (x ∷ ips) ip ips' e = elim (Bool-cases (x == d.delta_ip base i)) [
    | inl taken ↦
        keep-length x (find_gap d base (suc i) ips) (length ips) ip ips'
          (find_gap-length base (suc i) ips) (rw (find_gap, taken) at e)
    | inr gap ↦
        let new : some (d.delta_ip base i, d.delta_ip base i ∷ x ∷ ips) ≡ some (ip, ips') =
          rw (find_gap, gap) at e in
        ap (λ (c : Chosen). length c.1) (sym (some-injective _ _ new))
  ]

  next_in-length :
      (cidr : Text) (parsed : Option (Ip × IpNet)) (ips : List Ip) (ip : Ip) (ips' : List Ip)
      → next_in d cidr parsed ips ≡ ok (ip, ips')
      → length ips' ≡ suc (length ips)
  next_in-length cidr none ips ip ips' e = cc
  next_in-length cidr (some (_, net)) ips ip ips' e =
      elim (Bool-cases (length ips % 2 ^ 32 == d.network_size net)) [
        | inl full ↦ let failed : err (no_more_ips cidr) ≡ ok (ip, ips') = rw full at e in cc
        | inr room ↦
            let found : or_never_here (find_gap d net.ip 0 ips) ≡ ok (ip, ips') = rw room at e in
            elim (Option-cases (find_gap d net.ip 0 ips)) [
              | inl missing ↦
                  let failed : err never_here ≡ ok (ip, ips') = rw missing at found in cc
              | inr ((j, js), there) ↦
                  let same : ok (j, js) ≡ ok (ip, ips') = rw there at found in
                  find_gap-length net.ip 0 ips ip ips' (there ∙ ap some (ok-injective same))
            ]
      ]

  get_next_available_ip-length :
      (cidr : Text) (ips : List Ip) (ip : Ip) (ips' : List Ip)
      → get_next_available_ip d cidr ips ≡ ok (ip, ips')
      → length ips' ≡ suc (length ips)
  unfolding get_next_available_ip
  get_next_available_ip-length cidr ips ip ips' e =
      next_in-length cidr (parse_cidr cidr) ips ip ips' e

-- Each CIDR of the map has a well-formed pool that lacks `n` addresses of its network at least.
abbrev pub HasRoom : ℕ → Map (List Ip) → Type 0
HasRoom n taken =
    (cidr : Text)
    → Elem cidr (keys taken)
    → (net : IpNet) × (ips : List Ip) × HasPool taken cidr net ips × (length ips + n ≤ size net)

module _ (d : Deps) (lawful : IsLawful d) where
  choose :
      (taken : Map (List Ip)) (cidr : Text) (net : IpNet) (ips : List Ip)
      → HasPool taken cidr net ips
      → length ips < size net
      → (chosen : Chosen) × (get_next_available_ip d cidr ips ≡ ok chosen)
  choose taken cidr net ips h lt =
      let (ip, ips', e, _) =
        get_next_available_ip-IsNext d lawful cidr h.addr net ips h.parsed h.masked h.pool lt in
      ((ip, ips'), e)

  next_ips-ok :
      (cidrs : List Text) (assigned : Map Ip) (m : Map (List Ip))
      → NoDup cidrs
      → ((cidr : Text)
          → Elem cidr cidrs
          → (ips : List Ip) × (chosen : Chosen) × (get m cidr ≡ some ips)
            × (get_next_available_ip d cidr ips ≡ ok chosen))
      → (after : NextIps) × (next_ips d cidrs (assigned, m) ≡ ok after)
  unfolding next_ips
  next_ips-ok [] assigned m nodup h = ((assigned, m), refl)
  next_ips-ok (cidr ∷ cidrs) assigned m nodup h =
      let (ips, chosen, old, e) = h cidr (inl refl) in
      let (after, rest) =
        next_ips-ok cidrs (put assigned cidr chosen.0) (put m cidr chosen.1) nodup.1 (λ k at.
          let (ips', chosen', old', e') = h k (inr at) in
          let apart : cidr ≢ k = λ p. nodup.0 (rw p at) in
          (ips', chosen', get-put_ne m cidr k chosen.1 apart ∙ old', e')) in
      (after, rw (next_ips, get_or_zero, old, e) rest)

  rounds-ok :
      (n : ℕ) (taken : Map (List Ip))
      → NoDup (keys taken)
      → HasRoom (suc n) taken
      → (next : NextIps) × (get_next_available_ips d taken ≡ ok next)
  unfolding get_next_available_ips
  rounds-ok n taken nodup room =
      next_ips-ok (d.range (keys taken)) [] taken (lawful.range_nodup (keys taken) nodup)
        (λ cidr at.
          let (net, ips, h, lt) = room cidr ((lawful.range_elem (keys taken) cidr).0 at) in
          let (chosen, e) = choose taken cidr net ips h (omega (arith, lt)) in
          (ips, chosen, h.here, e))

  -- A round takes one address of each pool.
  HasRoom-round :
      (n : ℕ) (taken : Map (List Ip)) (next : NextIps)
      → NoDup (keys taken)
      → get_next_available_ips d taken ≡ ok next
      → HasRoom (suc n) taken
      → NoDup (keys next.1) × HasRoom n next.1
  HasRoom-round n taken next nodup e room =
      let round = get_next_available_ips-Round d lawful taken next nodup e in
      (
        rw round.same_keys nodup,
        λ cidr at.
            let (net, ips, h, lt) = room cidr (rw round.same_keys at at) in
            let t = Round-Taking d lawful [] taken next round cidr net ips h in
            let one_more = get_next_available_ip-length d cidr ips t.ip t.ips' t.chosen in
            (net, t.ips', t.has_pool, omega (arith, one_more, lt)),
      )

  module _ (services : Services) (accepts : (log : Log) (w : Write) → services.answer log w ≡ none)
      (cidrs : List Text) where
    accepted : (w : Write) (log : Log) → write services w log ≡ (ok tt, log ++ w ∷ [])
    unfolding write
    accepted w log = rw (accepts log w) refl

    -- Where no write is refused and each CIDR has a well-formed pool with room for one address of each
    -- namespace, the loop over the namespaces succeeds.
    pub assign_ips-succeeds :
        (namespaces : List Namespace) (taken : Map (List Ip)) (log : Log)
        → NoDup (keys taken)
        → HasRoom (length namespaces) taken
        → (result : List Namespace) × (log' : Log) × (assign_ips d services cidrs namespaces taken
              log
            ≡ (ok result, log'))
    unfolding assign_ips
    assign_ips-succeeds [] taken log nodup room = ([], log, refl)
    assign_ips-succeeds (unassigned ∷ namespaces) taken log nodup room =
        let (next, chosen) = rounds-ok (length namespaces) taken nodup room in
        let (nodup', room') = HasRoom-round (length namespaces) taken next nodup chosen room in
        let namespace = with_ips cidrs next.0 unassigned in
        let mid = log ++ update_namespace namespace ∷ [] in
        let (more, log', rest) = assign_ips-succeeds namespaces next.1 mid nodup' room' in
        (
          namespace ∷ more,
          log',
          rw (assign_ips, chosen, accepted (update_namespace namespace) log, rest) refl,
        )
