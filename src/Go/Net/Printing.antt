-- ===== src/Go/Net/Printing.antt =====
-- `net.ParseIP` and `IP.String`, one after the other
use mathlib.Core.List.{cons≢nil}
use egressip_ipam_operator.Prelude.{
  ℕ, ◌<◌, ◌≤◌, ◌^◌, ◌≡◌, refl, Option, none, some, List, [], ◌∷◌, arith, Text,
}
use egressip_ipam_operator.Go.Strings.{Free, split, split-join, join-Free}
use egressip_ipam_operator.Go.Net.Octets.{
  octet, parse_octet, parse_octet-print_octet, parse_octet-le, print_octet-Free,
}
use egressip_ipam_operator.Go.Net.{Ip, parse_ip, print_ip, combine, quad, print_octet}

-- The four fields of an address, the most significant first.
abbrev fields : Ip → List Text
fields ip =
    print_octet (octet ip 3)
    ∷ print_octet (octet ip 2)
    ∷ print_octet (octet ip 1)
    ∷ print_octet (octet ip 0)
    ∷ []

split-print_ip : (ip : Ip) → split b'.' (print_ip ip) ≡ fields ip
unfolding print_ip
split-print_ip ip = split-join b'.' (fields ip) cons≢nil (free 3, (free 2, (free 1, (free 0, tt))))
  where
    free : (k : ℕ) → Free b'.' (print_octet (octet ip k))
    free k = print_octet-Free b'.' (octet ip k) (omega arith)

-- The text of an address holds no comma.
pub print_ip-Free : (ip : Ip) → Free b',' (print_ip ip)
unfolding print_ip
print_ip-Free ip =
    join-Free b',' b'.' (fields ip) (λ e. omega (arith, e))
      (free 3, (free 2, (free 1, (free 0, tt))))
  where
    free : (k : ℕ) → Free b',' (print_octet (octet ip k))
    free k = print_octet-Free b',' (octet ip k) (omega arith)

-- The text of an address is read back as that address.
pub parse_ip-print_ip : (ip : Ip) → ip < 2 ^ 32 → parse_ip (print_ip ip) ≡ some ip
unfolding parse_ip
parse_ip-print_ip ip h =
    rw
      (
        split-print_ip ip,
        parse_octet-print_octet (octet ip 3) (omega arith),
        parse_octet-print_octet (octet ip 2) (omega arith),
        parse_octet-print_octet (octet ip 1) (omega arith),
        parse_octet-print_octet (octet ip 0) (omega arith),
      )
      (ground arith)

abbrev Fits : Option ℕ → Type 0
Fits none = Unit
Fits (some n) = n ≤ 255

parse_octet-Fits : (o : Option ℕ) → ((n : ℕ) → o ≡ some n → n ≤ 255) → Fits o
parse_octet-Fits none h = tt
parse_octet-Fits (some n) h = h n refl

combine-lt :
    (a b c d : Option ℕ) (ip : Ip)
    → Fits a
    → Fits b
    → Fits c
    → Fits d
    → combine a b c d ≡ some ip
    → ip < 2 ^ 32
combine-lt a b c d ip fa fb fc fd e = ground arith

quad-lt : (fields : List Text) (ip : Ip) → quad fields ≡ some ip → ip < 2 ^ 32
quad-lt (a ∷ b ∷ c ∷ d ∷ []) ip e =
    combine-lt (parse_octet a) (parse_octet b) (parse_octet c) (parse_octet d) ip
      (parse_octet-Fits (parse_octet a) (parse_octet-le a))
      (parse_octet-Fits (parse_octet b) (parse_octet-le b))
      (parse_octet-Fits (parse_octet c) (parse_octet-le c))
      (parse_octet-Fits (parse_octet d) (parse_octet-le d)) e
quad-lt _ ip e = cc

pub parse_ip-lt : (s : Text) (ip : Ip) → parse_ip s ≡ some ip → ip < 2 ^ 32
unfolding parse_ip
parse_ip-lt s ip e = quad-lt (split b'.' s) ip e
