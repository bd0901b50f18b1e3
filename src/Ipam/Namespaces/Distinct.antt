-- ===== src/Ipam/Namespaces/Distinct.antt =====
-- The loop of assignIPsToNamespaces over the namespaces, by induction
use egressip_ipam_operator.Prelude.{
  suc, ◌≡◌, ◌≤◌, refl, sym, ◌∙◌, ap, none, some, List, [], ◌∷◌, ◌++◌, map, Text, Elem, NoDup, inl,
  inr, length,
}
use mathlib.Core.Path.{subst, subst₂}
use mathlib.Core.List.{append-nil, append_assoc}
use egressip_ipam_operator.Deps.{Deps, IsLawful}
use egressip_ipam_operator.Go.Results.{ok}
use egressip_ipam_operator.Go.Maps.{Map, keys, get, Elem-of_get}
use egressip_ipam_operator.Go.Net.{Ip, IpNet, parse_cidr}
use egressip_ipam_operator.Go.Net.Networks.{InNet}
use egressip_ipam_operator.Api.{Namespace}
use egressip_ipam_operator.Effects.{
  Action, Services, Log, update_namespace, write, pure, lift, ◌>>=◌,
}
use egressip_ipam_operator.Effects.Inversion.{>>=-eq-ok, write-eq-ok}
use egressip_ipam_operator.Ipam.Pool.{IsPool}
use egressip_ipam_operator.Ipam.Next.{get_next_available_ip}
use egressip_ipam_operator.Ipam.Next.Least.{IsNext, get_next_available_ip-ok}
use egressip_ipam_operator.Ipam.Namespaces.{NextIps, get_next_available_ips, with_ips, assign_ips}
use egressip_ipam_operator.Ipam.Namespaces.Steps.{Round, get_next_available_ips-Round}

-- The pool of `cidr` is well formed, for the network that `cidr` names.
pub record HasPool (m : Map (List Ip)) (cidr : Text) (net : IpNet) (ips : List Ip) : Type 0 where
  pub addr : Ip
  pub parsed : parse_cidr cidr ≡ some (addr, net)
  pub masked : 1 ≤ net.ones
  pub here : get m cidr ≡ some ips
  pub pool : IsPool net ips

-- The addresses that a sequence of rounds assigned at a CIDR.
unfoldable pub column : Text → List (Map Ip) → List Ip
column cidr [] = []
column cidr (assigned ∷ rounds) = elim (get assigned cidr) [
  | none ↦ column cidr rounds
  | some ip ↦ ip ∷ column cidr rounds
]

column-cons :
    (cidr : Text) (assigned : Map Ip) (rounds : List (Map Ip)) (ip : Ip)
    → get assigned cidr ≡ some ip
    → column cidr (assigned ∷ rounds) ≡ ip ∷ column cidr rounds
unfolding column
column-cons cidr assigned rounds ip e = rw (e, column)

-- The namespaces with the addresses of their rounds.
abbrev pub annotate : List Text → List (Map Ip) → List Namespace → List Namespace
annotate cidrs [] namespaces = []
annotate cidrs (assigned ∷ rounds) [] = []
annotate cidrs (assigned ∷ rounds) (namespace ∷ namespaces) =
    with_ips cidrs assigned namespace ∷ annotate cidrs rounds namespaces

-- What a successful loop did: a round for each namespace, and a write for each round.
pub record Assigned (d : Deps) (cidrs : List Text) (unassigned : List Namespace)
    (taken : Map (List Ip)) (log : Log) (result : List Namespace) (log' : Log) : Type 0 where
  pub rounds : List (Map Ip)
  pub one_each : length rounds ≡ length unassigned
  pub annotated : result ≡ annotate cidrs rounds unassigned
  pub written : log' ≡ log ++ map update_namespace result
  -- at each pool: the addresses are as many, of the network, not taken before, and distinct
  pub complete :
      (cidr : Text) (net : IpNet) (ips : List Ip)
      → HasPool taken cidr net ips
      → length (column cidr rounds) ≡ length unassigned
  pub in_net :
      (cidr : Text) (net : IpNet) (ips : List Ip)
      → HasPool taken cidr net ips
      → (ip : Ip) → Elem ip (column cidr rounds)
      → InNet net ip
  pub free :
      (cidr : Text) (net : IpNet) (ips : List Ip)
      → HasPool taken cidr net ips
      → (ip : Ip) → Elem ip (column cidr rounds)
      → ¬ Elem ip ips
  pub distinct :
      (cidr : Text) (net : IpNet) (ips : List Ip)
      → HasPool taken cidr net ips
      → NoDup (column cidr rounds)

Assigned-nil :
    (d : Deps) (cidrs : List Text) (taken : Map (List Ip)) (log : Log)
    → Assigned d cidrs [] taken log [] log
unfolding column
Assigned-nil d cidrs taken log = record {
  rounds = [];
  one_each = refl;
  annotated = refl;
  written = sym (append-nil log);
  complete = λ cidr net ips h. refl;
  in_net = λ cidr net ips h ip e. absurd e;
  free = λ cidr net ips h ip e. absurd e;
  distinct = λ cidr net ips h. tt;
}

module _ (d : Deps) (lawful : IsLawful d) (cidrs : List Text) where
  -- A round takes a new address of each pool, and leaves the pool with it.
  pub record Taking (taken : Map (List Ip)) (next : NextIps) (cidr : Text) (net : IpNet)
      (ips : List Ip) : Type 0 where
    pub ip : Ip
    pub ips' : List Ip
    pub chosen : get_next_available_ip d cidr ips ≡ ok (ip, ips')
    pub assigned : get next.0 cidr ≡ some ip
    pub is_next : IsNext net ips ip ips'
    pub has_pool : HasPool next.1 cidr net ips'

  pub Round-Taking :
      (taken : Map (List Ip)) (next : NextIps)
      → Round d (d.range (keys taken)) ([], taken) next
      → (cidr : Text) (net : IpNet) (ips : List Ip) → HasPool taken cidr net ips
      → Taking taken next cidr net ips
  Round-Taking taken next round cidr net ips h =
      let t =
        round.taken cidr
          ((lawful.range_elem (keys taken) cidr).1 (Elem-of_get taken cidr ips h.here)) in
      let same : t.ips ≡ ips = cc (t.old, h.here) in
      let is_next : IsNext net ips t.ip t.ips' =
        get_next_available_ip-ok d lawful cidr h.addr net ips h.parsed h.masked h.pool t.ip t.ips'
          (rw same at t.chosen) in
      record {
        ip = t.ip;
        ips' = t.ips';
        chosen = rw same at t.chosen;
        assigned = t.assigned;
        is_next = is_next;
        has_pool = record {
          addr = h.addr;
          parsed = h.parsed;
          masked = h.masked;
          here = t.new;
          pool = is_next.pool;
        };
      }

  Assigned-cons :
      (unassigned : Namespace) (namespaces : List Namespace) (taken : Map (List Ip))
      (next : NextIps) (log : Log) (result : List Namespace) (log' : Log)
      → Round d (d.range (keys taken)) ([], taken) next
      → Assigned d cidrs namespaces next.1
          (log ++ update_namespace (with_ips cidrs next.0 unassigned) ∷ [])
          result
          log'
      → Assigned d cidrs
          (unassigned ∷ namespaces)
          taken
          log
          (with_ips cidrs next.0 unassigned ∷ result)
          log'
  Assigned-cons unassigned namespaces taken next log result log' round a = record {
    rounds = next.0 ∷ a.rounds;
    one_each = ap suc a.one_each;
    annotated = ap (◌∷◌ (with_ips cidrs next.0 unassigned)) a.annotated;
    written = a.written ∙ append_assoc log _ _;
    complete = λ cidr net ips h.
        let t = Round-Taking taken next round cidr net ips h in
        rw (column-cons cidr next.0 a.rounds t.ip t.assigned)
          (ap suc (a.complete cidr net t.ips' t.has_pool));
    in_net = λ cidr net ips h ip.
        let t = Round-Taking taken next round cidr net ips h in
        rw (column-cons cidr next.0 a.rounds t.ip t.assigned) (λ e. elim e [
          | inl p ↦ rw p t.is_next.in_net
          | inr q ↦ a.in_net cidr net t.ips' t.has_pool ip q
        ]);
    free = λ cidr net ips h ip.
        let t = Round-Taking taken next round cidr net ips h in
        rw (column-cons cidr next.0 a.rounds t.ip t.assigned) (λ e. elim e [
          | inl p ↦ rw p t.is_next.least.free
          | inr q ↦
              λ old. a.free cidr net t.ips' t.has_pool ip q ((t.is_next.least.added ip).1 (inr old))
        ]);
    distinct = λ cidr net ips h.
        let t = Round-Taking taken next round cidr net ips h in
        rw (column-cons cidr next.0 a.rounds t.ip t.assigned) (
          λ e. a.free cidr net t.ips' t.has_pool t.ip e ((t.is_next.least.added t.ip).1 (inl refl)),
          a.distinct cidr net t.ips' t.has_pool,
        );
  }

  -- What the loop does behind the write of a namespace, and behind the choice of its addresses.
  abbrev assign_more :
      Services → Namespace → List Namespace → Map (List Ip) → Action (List Namespace)
  assign_more services namespace namespaces taken =
      assign_ips d services cidrs namespaces taken >>= λ more. pure (namespace ∷ more)

  abbrev assign_rest : Services → Namespace → List Namespace → NextIps → Action (List Namespace)
  assign_rest services unassigned namespaces next =
      let namespace = with_ips cidrs next.0 unassigned in
      write services (update_namespace namespace) >>= λ _.
      assign_more services namespace namespaces next.1

  -- A loop that succeeds made a round for each namespace, and wrote each of them.
  pub assign_ips-Assigned :
      (services : Services) (namespaces : List Namespace) (taken : Map (List Ip)) (log : Log)
      (result : List Namespace) (log' : Log)
      → NoDup (keys taken)
      → assign_ips d services cidrs namespaces taken log ≡ (ok result, log')
      → Assigned d cidrs namespaces taken log result log'
  unfolding assign_ips
  assign_ips-Assigned services [] taken log result log' nodup e =
      let r : [] ≡ result = cc in
      let l : log ≡ log' = cc in rw (← r, ← l) (Assigned-nil d cidrs taken log)
  assign_ips-Assigned services (unassigned ∷ namespaces) taken log result log' nodup e =
      let (next, chosen, after_next) =
        >>=-eq-ok (lift (get_next_available_ips d taken))
          (assign_rest services unassigned namespaces) log result log' e in
      let round = get_next_available_ips-Round d lawful taken next nodup chosen in
      let namespace = with_ips cidrs next.0 unassigned in
      let w = update_namespace namespace in
      let (u, accepted, after_write) =
        >>=-eq-ok (write services w) (λ _. assign_more services namespace namespaces next.1) log
          result log' after_next in
      let (more, rest, last) =
        >>=-eq-ok (assign_ips d services cidrs namespaces next.1) (λ more. pure (namespace ∷ more))
          (write services w log).1 result log' after_write in
      let mid = (write services w log).1 in
      let end = (assign_ips d services cidrs namespaces next.1 mid).1 in
      let kept : NoDup (keys next.1) = rw round.same_keys nodup in
      let a : Assigned d cidrs namespaces next.1 mid more end =
        assign_ips-Assigned services namespaces next.1 mid more end kept (λ i. (rest i, end)) in
      let r : namespace ∷ more ≡ result = cc (last) in
      let l : end ≡ log' = cc (last) in
      subst₂ (Assigned d cidrs (unassigned ∷ namespaces) taken log) r l (
        Assigned-cons unassigned namespaces taken next log more end round (
          subst (λ (h : Log). Assigned d cidrs namespaces next.1 h more end)
            (write-eq-ok services w log u accepted) a))
