-- ===== src/Network/Receive.antt =====
-- The way of a received packet.
use osdev_graphical.Base.{
  ℕ, ◌+◌, ◌*◌, ◌/◌, ◌%◌, ◌^◌, ◌<◌, bit_and, ◌≡◌, refl, arith, Bool-cases, inl, inr, if◌then◌else◌,
  ◌==◌,
}
use osdev_graphical.Bits.{and_step, and-zero}
use osdev_graphical.Bits.Places.{and_hex, and_low}
use osdev_graphical.Network.{
  ipv4_unsupported, transport, shorter, switch_endian16, transport_handle_packet,
  ipv4_handle_packet, ethernet_handle_packet,
}
use osdev_graphical.Network.Endian.{switch_endian16-bytes}

and_one : (a : ℕ) → bit_and a 1 ≡ a % 2
and_one a = omega (arith, and_step a 1, and-zero (a / 2))

-- An Ethernet packet of IPv4, by its type in network order, with a header of version 4: its protocol's
-- data start behind the 20 bytes of the header when the header's length is even, and the packet is
-- refused when the length is odd, as the ordinary length 5 is.
pub ethernet-ipv4 :
    (memory : ℕ → ℕ) (packet packet_length ihl : ℕ)
    → memory (packet + 12) ≡ 0x08
    → memory (packet + 13) ≡ 0x00
    → memory (packet + 14) ≡ 0x40 + ihl
    → ihl < 16
    → ethernet_handle_packet memory packet packet_length ≡ (
        if ihl % 2 == 0
        then transport (packet + 34) (shorter packet_length 34) (memory (packet + 23))
        else ipv4_unsupported)
unfolding ethernet_handle_packet ipv4_handle_packet transport_handle_packet shorter
ethernet-ipv4 memory packet packet_length ihl h1 h2 h3 l =
    let kind : switch_endian16 (memory (packet + 12) + memory (packet + 13) * 2 ^ 8) ≡ 0x0800 =
      rw (h1, h2) (switch_endian16-bytes 0x08 0x00 (omega arith) (omega arith)) in
    let version : bit_and (memory (packet + 14)) 0xF0 / 2 ^ 4 ≡ 4 =
      omega (arith, and_hex (memory (packet + 14)) 15, and_low (memory (packet + 14) / 16), h3) in
    let parity : bit_and (memory (packet + 14)) 1 ≡ ihl % 2 =
      omega (arith, and_one (memory (packet + 14)), h3) in
    let start : packet + 14 + 20 ≡ packet + 34 = omega arith in
    let field : packet + 14 + 9 ≡ packet + 23 = omega arith in
    let left : shorter (shorter packet_length 14) 20 ≡ shorter packet_length 34 = omega arith in
    elim (Bool-cases (ihl % 2 == 0)) [
      | inl e ↦
          rw
            (
              ethernet_handle_packet, ipv4_handle_packet, kind, version, parity, e, start, field,
              left,
            )
            refl
      | inr e ↦ rw (ethernet_handle_packet, ipv4_handle_packet, kind, version, parity, e) refl
    ]
