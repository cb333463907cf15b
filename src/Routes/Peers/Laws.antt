-- ===== src/Routes/Peers/Laws.antt =====
-- The addresses that `pairing_peer_allowed` of crates/console-server/src/routes.rs admits, as address blocks.
use muser_console.Base.{
  ℕ, ◌+◌, ◌*◌, ◌/◌, ◌%◌, ◌≤◌, ◌<◌, true, false, ◌==◌, ◌&&◌, List, [], ◌∷◌, Any, Bool-cases, none,
  some, ◌≡◌, ◌↔◌, ◌⊎◌, inl, inr, arith,
}
use muser_console.Base.Bits.{bit_and_0xfe00, bit_and_0xffc0}
use muser_console.Routes.Peers.{
  Ipv4Addr, Ipv6Addr, IpAddr, v4, v6, zero_to_s4, to_ipv4_mapped, pairing_v4_allowed,
  pairing_v6_allowed, pairing_peer_allowed,
}

abbrev pub IsV4 : Ipv4Addr → Type 0
IsV4 ip = (ip.a < 256) × (ip.b < 256) × (ip.c < 256) × (ip.d < 256)

-- the address as one number
abbrev pub number_of : Ipv4Addr → ℕ
number_of ip = ip.a * 16777216 + ip.b * 65536 + ip.c * 256 + ip.d

-- a block: its number, and how many addresses a block of its size has
abbrev pub InBlock : ℕ → ℕ × ℕ → Type 0
InBlock n (block, size) = n / size ≡ block

-- 127.0.0.0/8, 10.0.0.0/8, 172.16.0.0/12, 192.168.0.0/16, 169.254.0.0/16 and 100.64.0.0/10
abbrev pub local_blocks : List (ℕ × ℕ)
local_blocks =
    (127, 16777216)
    ∷ ((10, 16777216)
        ∷ ((2753, 1048576) ∷ ((49320, 65536) ∷ ((43518, 65536) ∷ ((401, 4194304) ∷ [])))))

pairing_v4_allowed_iff :
    (ip : Ipv4Addr)
    → IsV4 ip
    → (pairing_v4_allowed ip ≡ true) ↔ Any (InBlock (number_of ip)) local_blocks
unfolding pairing_v4_allowed
pairing_v4_allowed_iff ip (ha, hb, hc, hd) =
    let eight : number_of ip / 16777216 ≡ ip.a = omega arith in
    let ten : number_of ip / 4194304 ≡ ip.a * 4 + ip.b / 64 = omega arith in
    let twelve : number_of ip / 1048576 ≡ ip.a * 16 + ip.b / 16 = omega arith in
    let sixteen : number_of ip / 65536 ≡ ip.a * 256 + ip.b = omega arith in
    rw (eight, ten, twelve, sixteen) (ground (arith, hb))

abbrev pub IsV6 : Ipv6Addr → Type 0
IsV6 ip = (ip.s0 < 65536) × (ip.s6 < 65536) × (ip.s7 < 65536)

abbrev pub IsAddr : IpAddr → Type 0
IsAddr (v4 ip) = IsV4 ip
IsAddr (v6 ip) = IsV6 ip

-- ::1, an IPv4 address of the blocks in ::ffff:0:0/96, fe80::/10 and fc00::/7
abbrev pub Local : IpAddr → Type 0
Local (v4 ip) = Any (InBlock (number_of ip)) local_blocks
Local (v6 ip) =
    (zero_to_s4 ip ≡ true) × (ip.s5 ≡ 0) × (ip.s6 ≡ 0) × (ip.s7 ≡ 1)
    ⊎ (zero_to_s4 ip ≡ true) × (ip.s5 ≡ 0xffff) × Any (InBlock (ip.s6 * 65536 + ip.s7)) local_blocks
    ⊎ (0xfe80 ≤ ip.s0) × (ip.s0 ≤ 0xfebf)
    ⊎ (0xfc00 ≤ ip.s0) × (ip.s0 ≤ 0xfdff)

pairing_v6_allowed_iff :
    (ip : Ipv6Addr)
    → IsV6 ip
    → (pairing_v6_allowed ip ≡ true) ↔ (
        ((zero_to_s4 ip ≡ true) × (ip.s5 ≡ 0) × (ip.s6 ≡ 0) × (ip.s7 ≡ 1))
        ⊎ ((0xfe80 ≤ ip.s0) × (ip.s0 ≤ 0xfebf))
        ⊎ ((0xfc00 ≤ ip.s0) × (ip.s0 ≤ 0xfdff)))
unfolding pairing_v6_allowed
pairing_v6_allowed_iff ip (h, _, _) =
    rw (bit_and_0xfe00 ip.s0 h, bit_and_0xffc0 ip.s0 h) (ground arith)

mapped_allowed_iff :
    (ip : Ipv6Addr)
    → IsV6 ip
    → ((elim (to_ipv4_mapped ip) [ none ↦ false | some mapped ↦ pairing_v4_allowed mapped ]) ≡ true)
      ↔ ((zero_to_s4 ip ≡ true)
          × (ip.s5 ≡ 0xffff)
          × Any (InBlock (ip.s6 * 65536 + ip.s7)) local_blocks)
mapped_allowed_iff ip (_, h6, h7) =
    let m : Ipv4Addr = record {
      a = ip.s6 / 256;
      b = ip.s6 % 256;
      c = ip.s7 / 256;
      d = ip.s7 % 256;
    } in
    let e : number_of m ≡ ip.s6 * 65536 + ip.s7 = omega arith in
    let same =
      rw e at (pairing_v4_allowed_iff m (omega arith, omega arith, omega arith, omega arith)) in
    elim (Bool-cases (zero_to_s4 ip && ip.s5 == 0xffff)) [
      | inr other ↦ rw other (ground arith)
      | inl prefix ↦ rw prefix (λ k. (ground arith, ground arith, same.0 k), λ (_, _, k). same.1 k)
    ]

-- A pairing is redeemed only from the machine itself or a directly connected network: an address is
-- admitted if and only if it is in one of the blocks 127.0.0.0/8, 10.0.0.0/8, 172.16.0.0/12,
-- 192.168.0.0/16, 169.254.0.0/16 and 100.64.0.0/10, as IPv4 or mapped into IPv6, or is ::1, or is in
-- fe80::/10 or fc00::/7.
pub pairing_peer_allowed_iff :
    (ip : IpAddr) → IsAddr ip → (pairing_peer_allowed ip ≡ true) ↔ Local ip
unfolding pairing_peer_allowed
pairing_peer_allowed_iff (v4 ip) h = pairing_v4_allowed_iff ip h
pairing_peer_allowed_iff (v6 ip) h =
    ground (arith, mapped_allowed_iff ip h, pairing_v6_allowed_iff ip h)
