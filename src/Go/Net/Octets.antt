-- ===== src/Go/Net/Octets.antt =====
-- The decimal fields of an address and of a prefix length.
use egressip_ipam_operator.Prelude.{
  ℕ, ◌+◌, ◌-◌, ◌*◌, ◌/◌, ◌%◌, ◌^◌, ◌<◌, ◌≤◌, ◌≡◌, ◌≢◌, Bool, ◌&&◌, Option, none, some, [], ◌∷◌,
  arith, Text, ltb, leb, if◌then◌else◌, All,
}

abbrev is_digit : ℕ → Bool
is_digit c = leb b'0' c && leb c b'9'

-- The digits of a field behind its first; a value over 255 is refused as soon as it is met.
more_digits : ℕ → Text → Option ℕ
more_digits value [] = some value
more_digits value (c ∷ s) =
    let value' = value * 10 + (c - b'0') in
    let rest = more_digits value' s in
    if is_digit c then (if leb value' 255 then rest else none) else none

-- One field of `netip.ParseAddr`: at least one digit, no leading zero, at most 255.
unfoldable pub parse_octet : Text → Option ℕ
unfolding more_digits
parse_octet [] = none
parse_octet (c ∷ []) = if is_digit c then some (c - b'0') else none
parse_octet (c ∷ d ∷ s) = if is_digit c && ltb b'0' c then more_digits (c - b'0') (d ∷ s) else none

unfoldable pub print_octet : ℕ → Text
print_octet n =
    if ltb n 10
    then (n + b'0') ∷ []
    else if ltb n 100
    then (n / 10 + b'0') ∷ (n % 10 + b'0') ∷ []
    else (n / 100 + b'0') ∷ (n / 10 % 10 + b'0') ∷ (n % 10 + b'0') ∷ []

-- The byte of weight 256 ^ k.
abbrev pub octet : ℕ → ℕ → ℕ
octet ip k = ip / 256 ^ k % 256

pub parse_octet-print_octet : (n : ℕ) → n < 256 → parse_octet (print_octet n) ≡ some n
unfolding parse_octet print_octet
parse_octet-print_octet n h = ground arith

-- Go's internal `dtoi` on the whole text: values from 0xFFFFFF on are refused.
decimal : ℕ → Text → Option ℕ
decimal value [] = some value
decimal value (c ∷ s) =
    let value' = value * 10 + (c - b'0') in
    let rest = decimal value' s in
    if is_digit c then (if ltb value' 0xFFFFFF then rest else none) else none

unfoldable pub dtoi : Text → Option ℕ
unfolding decimal
dtoi [] = none
dtoi (c ∷ s) = decimal 0 (c ∷ s)

pub print_octet-Free : (sep n : ℕ) → sep < b'0' → All (λ c. c ≢ sep) (print_octet n)
unfolding print_octet
print_octet-Free sep n h = ground arith

more_digits-le :
    (value : ℕ) (s : Text) (n : ℕ) → value ≤ 255 → more_digits value s ≡ some n → n ≤ 255
unfolding more_digits
more_digits-le value [] n h e = ground arith
more_digits-le value (c ∷ s) n h e = ground (arith, more_digits-le (value * 10 + (c - b'0')) s n)

pub parse_octet-le : (s : Text) (n : ℕ) → parse_octet s ≡ some n → n ≤ 255
unfolding parse_octet
parse_octet-le [] n e = cc
parse_octet-le (c ∷ []) n e = ground arith
parse_octet-le (c ∷ d ∷ s) n e = ground (arith, more_digits-le (c - b'0') (d ∷ s) n)
