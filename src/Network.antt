-- ===== src/Network.antt =====
-- utils/network.c: the byte order of numbers, and the way of a received packet down the protocols. The
-- packet is the bytes at an address; what is printed is left out, and how far the packet went is the
-- result.
pub mod Endian
pub mod Receive
mod Tests
use osdev_graphical.Base.{
  ℕ, ◌+◌, ◌-◌, ◌*◌, ◌/◌, ◌%◌, ◌^◌, bit_and, bit_or, Bool, true, false, not, ◌||◌, if◌then◌else◌,
  ◌==◌, ltb,
}

pub switch_endian16 : ℕ → ℕ
switch_endian16 nb = bit_or (nb / 2 ^ 8) (nb * 2 ^ 8) % 2 ^ 16

pub switch_endian32 : ℕ → ℕ
switch_endian32 nb =
    bit_or
      (bit_or (bit_or (bit_and (nb / 2 ^ 24) 0xff) (bit_and (nb * 2 ^ 8 % 2 ^ 32) 0xff0000))
        (bit_and (nb / 2 ^ 8) 0xff00))
      (bit_and (nb * 2 ^ 24 % 2 ^ 32) 0xff000000)

pub get_byte_from32 : ℕ → ℕ → ℕ
get_byte_from32 buf b = bit_and buf (0xFF * 2 ^ (8 * b)) / 2 ^ (8 * b) % 2 ^ 8

-- Where a packet ends: at a link protocol that is not supported, at ARP, which is only named, at an IPv4
-- header that is not supported, or with a transport protocol, the data and their length.
pub data Handled : Type 0 where
  link_unsupported : Handled
  arp : Handled
  ipv4_unsupported : Handled
  transport : ℕ → ℕ → ℕ → Handled

-- A length, an `int`, less the size of a header.
pub shorter : ℕ → ℕ → ℕ
shorter packet_length size = (packet_length + 2 ^ 32 - size) % 2 ^ 32

pub transport_handle_packet : ℕ → ℕ → ℕ → Handled
transport_handle_packet packet packet_length prot_num = transport packet packet_length prot_num

-- `version_ihl&IPV4_IHL_MASK > 5` compares the mask.
pub ipv4_handle_packet : (ℕ → ℕ) → ℕ → ℕ → Handled
ipv4_handle_packet memory packet packet_length =
    let version_ihl = memory packet in
    let mask_is_greater = if ltb 5 0xF then 1 else 0 in
    if not (bit_and version_ihl mask_is_greater == 0) || not (bit_and version_ihl 0xF0 / 2 ^ 4 == 4)
    then ipv4_unsupported
    else transport_handle_packet (packet + 20) (shorter packet_length 20) (memory (packet + 9))

-- The frame of 37 bytes, with the protocol in its byte 3.
pub ipv6_handle_packet : (ℕ → ℕ) → ℕ → ℕ → Handled
ipv6_handle_packet memory packet packet_length =
    transport_handle_packet (packet + 37) (shorter packet_length 37) (memory (packet + 3))

pub ethernet_handle_packet : (ℕ → ℕ) → ℕ → ℕ → Handled
ethernet_handle_packet memory packet packet_length =
    let ethertype = switch_endian16 (memory (packet + 12) + memory (packet + 13) * 2 ^ 8) in
    let behind = packet + 14 in
    let left = shorter packet_length 14 in
    if ethertype == 0x0800
    then ipv4_handle_packet memory behind left
    else if ethertype == 0x86DD
    then ipv6_handle_packet memory behind left
    else if ethertype == 0x0806
    then arp
    else link_unsupported
