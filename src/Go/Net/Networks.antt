-- ===== src/Go/Net/Networks.antt =====
-- What a network holds: its addresses are an interval, and the bit operations of the program on a
-- mask are arithmetic.
use Prim.Native.Nat.{bit_or, bit_or-bitwise, digits, max}
use native.Mathlib.Nat.{
  pow-suc, one-le-pow, div-div-eq-div-mul, div-lt_iff_lt-mul, add-suc, add-zero, mul-div_cancel,
  mul-le-mul_right, div-mul-le_self, lt-div-mul-add,
}
use mathlib.Core.Option.{some-injective}
use egressip_ipam_operator.Prelude.{
  ℕ, zero, suc, ◌+◌, ◌-◌, ◌*◌, ◌/◌, ◌^◌, ◌<◌, ◌≤◌, ◌≡◌, refl, ◌∙◌, ap, true, Option, none, some,
  List, [], ◌∷◌, arith, Text, ==_iff, Bool-cases, leb, subst, inl, inr,
}
use egressip_ipam_operator.Go.Strings.{split}
use egressip_ipam_operator.Go.Net.{
  Ip, IpNet, size, mask, parse_ip, parse_cidr, contains, dtoi, network, address_and_mask,
}
use egressip_ipam_operator.Go.Net.Printing.{parse_ip-lt}

two-pow_suc : (k : ℕ) → 2 ^ suc k ≡ 2 * 2 ^ k
two-pow_suc k = omega (arith, pow-suc 2 k)

-- `a` is the number of `k` ones. The count of digits to go is any that suffices.
digits_of_ones :
    (k n a b : ℕ) → a + 1 ≡ 2 ^ k → a ≤ n → digits (λ b. b) max n a b ≡ b / 2 ^ k * 2 ^ k + a
digits_of_ones zero zero a b e h = omega arith
digits_of_ones zero (suc n) zero b e h = omega arith
digits_of_ones zero (suc n) (suc a) b e h = absurd (omega arith)
digits_of_ones (suc k) n zero b e h = absurd (omega (arith, pow-suc 2 k))
digits_of_ones (suc k) zero (suc a) b e h = absurd (omega arith)
digits_of_ones (suc k) (suc n) (suc a) b e h =
    let half = digits_of_ones k n (suc a / 2) (b / 2) (omega (arith, pow-suc 2 k)) (omega arith) in
    rw (half, div-div-eq-div-mul b 2 (2 ^ k), two-pow_suc k) (omega (arith, two-pow_suc k))

-- Or-ing `k` ones into a number fills its last `k` binary digits.
pub bit_or_ones : (k a b : ℕ) → a + 1 ≡ 2 ^ k → bit_or a b ≡ b / 2 ^ k * 2 ^ k + a
bit_or_ones k a b e = bit_or-bitwise a b ∙ digits_of_ones k a a b e (omega arith)

two-pow-pos : (k : ℕ) → 0 < 2 ^ k
two-pow-pos k = one-le-pow k 2 (omega arith)

two-pow_split : (j k : ℕ) → 2 ^ (j + k) ≡ 2 ^ j * 2 ^ k
two-pow_split j zero = rw add-zero (omega arith)
two-pow_split j (suc k) =
    rw (add-suc, two-pow_suc (j + k), two-pow_split j k, two-pow_suc k) (omega arith)

-- What `net.ParseCIDR` promises of the network that it returns.
pub record IsNet (net : IpNet) : Type 0 where
  pub ones : net.ones ≤ 32
  pub masked : mask net.ones net.ip ≡ net.ip
  pub fits : net.ip + size net ≤ 2 ^ 32

-- A number of `k` cleared bits below 2 ^ 32 leaves room for `k` ones.
mask_fits : (k ip : ℕ) → k ≤ 32 → ip < 2 ^ 32 → ip / 2 ^ k * 2 ^ k + 2 ^ k ≤ 2 ^ 32
mask_fits k ip h lt =
    let whole : 32 - k + k ≡ 32 = omega arith in
    let split : 2 ^ 32 ≡ 2 ^ (32 - k) * 2 ^ k = rw whole at (two-pow_split (32 - k) k) in
    let below : ip / 2 ^ k < 2 ^ (32 - k) =
      (div-lt_iff_lt-mul (two-pow-pos k)).1 (rw (← split) lt) in
    let room : (ip / 2 ^ k + 1) * 2 ^ k ≤ 2 ^ (32 - k) * 2 ^ k =
      mul-le-mul_right (2 ^ k) (omega arith) in
    rw split (omega (arith, room))

mask_mask : (k ip : ℕ) → ip / 2 ^ k * 2 ^ k / 2 ^ k * 2 ^ k ≡ ip / 2 ^ k * 2 ^ k
mask_mask k ip = ap (λ (n : ℕ). n * 2 ^ k) (mul-div_cancel (ip / 2 ^ k) (two-pow-pos k))

-- What `net.ParseCIDR` promises of an address and the network that it lies in.
pub record IsParsed (ip : Ip) (net : IpNet) : Type 0 where
  pub is_net : IsNet net
  pub ip_lt : ip < 2 ^ 32
  pub ip_in : net.ip ≡ mask net.ones ip

IsParsed-mask :
    (ip ones : ℕ)
    → ones ≤ 32
    → ip < 2 ^ 32
    → IsParsed ip (record { ip = mask ones ip; ones = ones })
IsParsed-mask ip ones h lt = record {
  is_net = record {
    ones = h;
    masked = mask_mask (32 - ones) ip;
    fits = mask_fits (32 - ones) ip (omega arith) lt;
  };
  ip_lt = lt;
  ip_in = refl;
}

network-IsParsed :
    (ip? : Option Ip) (ones? : Option ℕ) (ip : Ip) (net : IpNet)
    → ((a : Ip) → ip? ≡ some a → a < 2 ^ 32)
    → network ip? ones? ≡ some (ip, net)
    → IsParsed ip net
network-IsParsed none ones? ip net lt e = cc
network-IsParsed (some a) none ip net lt e = cc
network-IsParsed (some a) (some n) ip net lt e = elim (Bool-cases (leb n 32)) [
  | inl fits ↦
      subst (λ (p : Ip × IpNet). IsParsed p.0 p.1) (some-injective _ _ (rw fits at e))
        (IsParsed-mask a n (ground arith) (lt a refl))
  | inr out ↦ let absent : none ≡ some (ip, net) = rw out at e in cc
]

fields-IsParsed :
    (fields : List Text) (ip : Ip) (net : IpNet)
    → address_and_mask fields ≡ some (ip, net)
    → IsParsed ip net
fields-IsParsed (address ∷ ones ∷ []) ip net e =
    network-IsParsed (parse_ip address) (dtoi ones) ip net (parse_ip-lt address) e
fields-IsParsed _ ip net e = cc

pub parse_cidr-IsParsed :
    (s : Text) (ip : Ip) (net : IpNet) → parse_cidr s ≡ some (ip, net) → IsParsed ip net
unfolding parse_cidr
parse_cidr-IsParsed s ip net e = fields-IsParsed (split b'/' s) ip net e

-- The addresses from the first of a network to its last.
abbrev pub InNet : IpNet → Ip → Type 0
InNet net ip = (net.ip ≤ ip) × (ip < net.ip + size net)

-- `IPNet.Contains` tests membership in that interval.
pub contains-InNet : (net : IpNet) (ip : Ip) → contains net (some ip) ≡ true → InNet net ip
unfolding contains
contains-InNet net ip h =
    let p = two-pow-pos (32 - net.ones) in
    let e : mask net.ones ip ≡ net.ip = (==_iff _ _).0 h in
    let lo = div-mul-le_self ip (size net) in let hi = lt-div-mul-add {a = ip} p in omega arith

pub size-pos : (net : IpNet) → 0 < size net
size-pos net = two-pow-pos (32 - net.ones)
