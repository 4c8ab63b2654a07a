-- ===== src/Base/Ipv4.antt =====
-- `ipaddress`: the IPv4 addresses that `ip_address` reads, as 32-bit numbers, and networks.
-- A text that is no IPv4 address gives `none`; an IPv6 address lies in no IPv4 network, so for
-- membership in IPv4 networks it may count as one of those.
use ai_soc.Base.Tests.{leb, nat_eq, if◌then◌else◌}
use ai_soc.Base.Lists.{length, all}
use ai_soc.Base.Text.{Text}
use Prim.Native.Nat.{ℕ, ◌+◌, ◌-◌, ◌*◌, ◌/◌, ◌^◌}
use mathlib.Core.Bool.{Bool, true, false, ◌&&◌, not}
use mathlib.Core.Option.{Option, none, some}
use mathlib.Core.List.{List, [], ◌∷◌}

-- The first letter of a word joins the first of the words that follow it.
abbrev pub push : ℕ → List Text → List Text
push c [] = (c ∷ []) ∷ []
push c (w ∷ ws) = (c ∷ w) ∷ ws

-- `s.split(sep)` at a separator of one character.
unfoldable pub split : ℕ → Text → List Text
split sep [] = [] ∷ []
split sep (c ∷ s) = let rest = split sep s in if nat_eq c sep then [] ∷ rest else push c rest

abbrev pub is_digit : ℕ → Bool
is_digit c = leb b'0' c && leb c b'9'

-- `int(text)` on a text of digits.
unfoldable pub decimal_from : ℕ → Text → ℕ
decimal_from n [] = n
decimal_from n (c ∷ s) = decimal_from (n * 10 + (c - 48)) s

abbrev leading_zero : Text → Bool
leading_zero [] = false
leading_zero (c ∷ []) = false
leading_zero (c ∷ d ∷ s) = nat_eq c b'0'

abbrev is_empty : Text → Bool
is_empty [] = true
is_empty (c ∷ s) = false

unfoldable pub parse_octet : Text → Option ℕ
unfolding decimal_from
parse_octet s =
    let n = decimal_from 0 s in
    if not (is_empty s) && all is_digit s && leb (length s) 3 && not (leading_zero s) && leb n 255
    then some n
    else none

abbrev pub join_octets : Option ℕ → Option ℕ → Option ℕ → Option ℕ → Option ℕ
join_octets (some a) (some b) (some c) (some d) = some (((a * 256 + b) * 256 + c) * 256 + d)
join_octets _ _ _ _ = none

abbrev pub octets_of : List Text → Option ℕ
octets_of (a ∷ b ∷ c ∷ d ∷ []) =
    join_octets (parse_octet a) (parse_octet b) (parse_octet c) (parse_octet d)
octets_of _ = none

unfoldable pub parse_ipv4 : Text → Option ℕ
unfolding split parse_octet
parse_ipv4 s = octets_of (split b'.' s)

pub record Network : Type 0 where
  pub address : ℕ
  pub host_bits : ℕ

-- `ip in net`
abbrev pub in_network : ℕ → Network → Bool
in_network ip net = nat_eq (ip / 2 ^ net.host_bits) (net.address / 2 ^ net.host_bits)
