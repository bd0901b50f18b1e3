-- ===== src/Ipam/Next/Least.antt =====
-- getNextAvailableIP at a well-formed pool
use native.Mathlib.Nat.{pow-le-pow_right, mod-eq_of_lt}
use egressip_ipam_operator.Prelude.{
  ℕ, suc, ◌+◌, ◌-◌, ◌^◌, ◌%◌, ◌≤◌, ◌<◌, ◌≡◌, ◌↔◌, Option, none, some, List, [], ◌∷◌, arith, length,
  ◌==◌, ==_iff, Elem, All, All-Elem, All-of_Elem, inl, inr, Bool-cases, Text, refl, sym, ◌∙◌, false,
  ltb, ltb→lt,
}
use egressip_ipam_operator.Deps.{Deps, IsLawful}
use egressip_ipam_operator.Go.Results.{Result, ok, err, no_more_ips}
use egressip_ipam_operator.Go.Net.{Ip, IpNet, size, parse_cidr}
use egressip_ipam_operator.Go.Net.Networks.{InNet, IsNet, parse_cidr-IsParsed}
use egressip_ipam_operator.Ipam.Pool.{Ascending, IsPool, broadcast, length-Ascending}
use egressip_ipam_operator.Ipam.Next.{Chosen, find_gap, get_next_available_ip}
use egressip_ipam_operator.Ipam.Next.Gaps.{IsLeast, Outcome, full, found, find_gap-Outcome}

-- `ip` is the least address of the network that the pool lacks, and `ips'` is the pool with it.
pub record IsNext (net : IpNet) (ips : List Ip) (ip : Ip) (ips' : List Ip) : Type 0 where
  pub in_net : InNet net ip
  pub not_broadcast : ip < broadcast net
  pub least : IsLeast net.ip ips ip ips'
  pub pool : IsPool net ips'

module _ (net : IpNet) (ips : List Ip) (is_net : IsNet net) (pool : IsPool net ips) where
  length-IsPool : length ips ≤ size net
  length-IsPool = omega (
    arith,
    length-Ascending net.ip (net.ip + size net) ips pool.ascends pool.within (omega arith),
  )

  IsPool-fit : All (λ ip. ip < 2 ^ 32) ips
  IsPool-fit =
      All-of_Elem _ ips λ ip e.
        omega (arith, All-Elem (λ ip. ip < net.ip + size net) ips pool.within e, is_net.fits)

  IsLeast-IsNext : (ip : Ip) (ips' : List Ip) → IsLeast net.ip ips ip ips' → IsNext net ips ip ips'
  IsLeast-IsNext ip ips' l =
      let (m, e, lt) = l.below in
      let bound : m < net.ip + size net =
        All-Elem (λ ip. ip < net.ip + size net) ips pool.within e in
      record {
        in_net = (l.from, omega arith);
        not_broadcast = omega arith;
        least = l;
        pool = record {
          ascends = l.ascends;
          within = All-of_Elem _ ips' λ x ex. elim ((l.added x).0 ex) [
            | inl p ↦ omega arith
            | inr q ↦ All-Elem (λ ip. ip < net.ip + size net) ips pool.within q
          ];
          closed = (l.added (broadcast net)).1 (inr pool.closed);
        };
      }

  -- A search of a pool that is not full cannot come out empty.
  Outcome-IsNext :
      (found? : Option Chosen)
      → Outcome net.ip ips found?
      → length ips < size net
      → (ip : Ip) × (ips' : List Ip) × (found? ≡ some (ip, ips')) × IsNext net ips ip ips'
  Outcome-IsNext none (full h) lt = absurd (omega (arith, h (broadcast net) pool.closed))
  Outcome-IsNext (some (ip, ips')) (found _ _ l) lt = (ip, ips', refl, IsLeast-IsNext ip ips' l)

size-le : (net : IpNet) → 1 ≤ net.ones → size net ≤ 2 ^ 31
size-le net h = pow-le-pow_right {n = 2} (omega arith) {i = 32 - net.ones} {j = 31} (omega arith)

-- A pool with as many addresses as the network holds every one of them.
Ascending-full :
    (lo hi : ℕ) (xs : List ℕ) (x : ℕ)
    → Ascending lo xs
    → All (λ y. y < hi) xs
    → lo + length xs ≡ hi
    → lo ≤ x
    → x < hi
    → Elem x xs
Ascending-full lo hi [] x a b e h lt = absurd (omega arith)
Ascending-full lo hi (y ∷ ys) x a b e h lt =
    let fits = length-Ascending (suc y) hi ys a.1 b.1 b.0 in
    elim (Bool-cases (x == y)) [
      | inl same ↦ inl ((==_iff x y).0 same)
      | inr other ↦ inr (
          Ascending-full (suc y) hi ys x a.1 b.1 (omega (arith, a.0)) (ground (arith, fits, a.0))
            lt)
    ]

module _ (d : Deps) (lawful : IsLawful d) (cidrs : Text) (addr : Ip) (net : IpNet) (ips : List Ip)
    (parsed : parse_cidr cidrs ≡ some (addr, net)) (masked : 1 ≤ net.ones)
    (pool : IsPool net ips) where
  is_net : IsNet net
  is_net = (parse_cidr-IsParsed cidrs addr net parsed).is_net

  -- The test for a full pool compares the true sizes: neither wraps round at 32 bits.
  full-test : (length ips % 2 ^ 32 == d.network_size net) ≡ (length ips == size net)
  full-test =
      let small : length ips < 2 ^ 32 =
        omega (arith, length-IsPool net ips is_net pool, size-le net masked) in
      rw (lawful.network_size_eq net masked is_net.ones, mod-eq_of_lt small)

  -- If the network `cidrs`, of a prefix length of at least 1, has an address that its pool lacks, and the
  -- pool is well formed, the call returns the least such address, which is not the broadcast address,
  -- with a well-formed pool that holds this address and those from before.
  pub get_next_available_ip-IsNext :
      length ips < size net
      → (ip : Ip) × (ips' : List Ip) × (get_next_available_ip d cidrs ips ≡ ok (ip, ips'))
        × IsNext net ips ip ips'
  unfolding get_next_available_ip
  get_next_available_ip-IsNext lt =
      let (ip, ips', e, next) =
        Outcome-IsNext net ips is_net pool (find_gap d net.ip 0 ips)
          (find_gap-Outcome d lawful net.ip 0 net.ip ips (omega arith) pool.ascends
            (IsPool-fit net ips is_net pool))
          lt in
      let room : (length ips == size net) ≡ false = ground arith in
      (ip, ips', rw (parsed, full-test, room, e), next)

  -- Whatever address the call returns, for a well-formed pool of a network of a prefix length of at least
  -- 1, is the least one of the network that the pool lacks.
  pub get_next_available_ip-ok :
      (ip : Ip) (ips' : List Ip)
      → get_next_available_ip d cidrs ips ≡ ok (ip, ips')
      → IsNext net ips ip ips'
  unfolding get_next_available_ip
  get_next_available_ip-ok ip ips' e = elim (Bool-cases (length ips == size net)) [
    | inl same ↦
        let full : get_next_available_ip d cidrs ips ≡ err (no_more_ips cidrs) =
          rw (parsed, full-test, same) in
        let clash : ◌≡◌ {A = Result Chosen} (err (no_more_ips cidrs)) (ok (ip, ips')) =
          sym full ∙ e in
        cc
    | inr other ↦
        let lt : length ips < size net = ground (arith, length-IsPool net ips is_net pool) in
        let (next, next', q, is_next) = get_next_available_ip-IsNext lt in
        let same : ok (ip, ips') ≡ ok (next, next') = sym e ∙ q in
        let ip_eq : ip ≡ next = cc in let ips_eq : ips' ≡ next' = cc in rw (ip_eq, ips_eq) is_next
  ]

  -- For a well-formed pool of a network of a prefix length of at least 1, the call fails with `no more
  -- available IPs` exactly when the pool holds every address of the network.
  pub get_next_available_ip-full :
      (get_next_available_ip d cidrs ips ≡ err (no_more_ips cidrs))
      ↔ ((x : Ip) → InNet net x → Elem x ips)
  unfolding get_next_available_ip
  get_next_available_ip-full = (
    λ e x h.
        let same : length ips ≡ size net = elim (Bool-cases (ltb (length ips) (size net))) [
          | inl lt ↦ let (ip, ips', q, _) = get_next_available_ip-IsNext (ltb→lt _ _ lt) in cc
          | inr ge ↦ ground (arith, length-IsPool net ips is_net pool)
        ] in
        Ascending-full net.ip (net.ip + size net) ips x pool.ascends pool.within (omega arith) h.0
          h.1,
    λ all. elim (Bool-cases (length ips == size net)) [
      | inl same ↦ rw (parsed, full-test, same)
      | inr other ↦
          let lt : length ips < size net = ground (arith, length-IsPool net ips is_net pool) in
          let (ip, ips', q, next) = get_next_available_ip-IsNext lt in
          absurd (next.least.free (all ip next.in_net))
    ],
  )
