-- ===== src/Routes/Peers.antt =====
-- From which addresses a device may redeem a pairing, in crates/console-server/src/routes.rs. The tests on
-- addresses are those of `std::net`, on the four octets and the eight segments.
pub mod Laws
use Prim.Native.Nat.{bit_and}
use muser_console.Base.{ℕ, ◌/◌, ◌%◌, Bool, true, false, ◌==◌, leb, ◌&&◌, ◌||◌, Option, none, some}

pub record Ipv4Addr : Type 0 where
  pub a : ℕ
  pub b : ℕ
  pub c : ℕ
  pub d : ℕ

pub record Ipv6Addr : Type 0 where
  pub s0 : ℕ
  pub s1 : ℕ
  pub s2 : ℕ
  pub s3 : ℕ
  pub s4 : ℕ
  pub s5 : ℕ
  pub s6 : ℕ
  pub s7 : ℕ

pub data IpAddr : Type 0 where
  v4 : Ipv4Addr → IpAddr
  v6 : Ipv6Addr → IpAddr

-- `Ipv4Addr::is_loopback`, `is_private` and `is_link_local`
abbrev pub is_loopback_v4 : Ipv4Addr → Bool
is_loopback_v4 ip = ip.a == 127

abbrev pub is_private : Ipv4Addr → Bool
is_private ip =
    ip.a == 10 || (ip.a == 172 && (leb 16 ip.b && leb ip.b 31)) || (ip.a == 192 && ip.b == 168)

abbrev pub is_link_local : Ipv4Addr → Bool
is_link_local ip = ip.a == 169 && ip.b == 254

unfoldable pub pairing_v4_allowed : Ipv4Addr → Bool
pairing_v4_allowed ip =
    is_loopback_v4 ip
    || is_private ip
    || is_link_local ip
    || (ip.a == 100 && (leb 64 ip.b && leb ip.b 127))

abbrev pub zero_to_s4 : Ipv6Addr → Bool
zero_to_s4 ip = ip.s0 == 0 && (ip.s1 == 0 && (ip.s2 == 0 && (ip.s3 == 0 && ip.s4 == 0)))

-- `Ipv6Addr::is_loopback`, `is_unicast_link_local` and `to_ipv4_mapped`
abbrev pub is_loopback_v6 : Ipv6Addr → Bool
is_loopback_v6 ip = zero_to_s4 ip && (ip.s5 == 0 && (ip.s6 == 0 && ip.s7 == 1))

abbrev pub is_unicast_link_local : Ipv6Addr → Bool
is_unicast_link_local ip = bit_and ip.s0 0xffc0 == 0xfe80

abbrev pub to_ipv4_mapped : Ipv6Addr → Option Ipv4Addr
to_ipv4_mapped ip = elim (zero_to_s4 ip && ip.s5 == 0xffff) [
  | false ↦ none
  | true ↦ some (record { a = ip.s6 / 256; b = ip.s6 % 256; c = ip.s7 / 256; d = ip.s7 % 256 })
]

unfoldable pub pairing_v6_allowed : Ipv6Addr → Bool
pairing_v6_allowed ip =
    is_loopback_v6 ip || is_unicast_link_local ip || bit_and ip.s0 0xfe00 == 0xfc00

unfoldable pub pairing_peer_allowed : IpAddr → Bool
unfolding pairing_v4_allowed pairing_v6_allowed
pairing_peer_allowed (v4 ip) = pairing_v4_allowed ip
pairing_peer_allowed (v6 ip) =
    (elim (to_ipv4_mapped ip) [ none ↦ false | some mapped ↦ pairing_v4_allowed mapped ])
    || pairing_v6_allowed ip
