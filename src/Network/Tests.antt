-- ===== src/Network/Tests.antt =====
-- utils/network.c on the ordinary header of IPv4.
use osdev_graphical.Base.{ℕ, ◌≡◌, refl, arith, if◌then◌else◌, ◌==◌}
use osdev_graphical.Network.{ethernet_handle_packet, ipv4_unsupported}
use osdev_graphical.Network.Receive.{ethernet-ipv4}

-- Version 4 with a header of five words.
abbrev a_packet : ℕ → ℕ
a_packet a = if a == 112 then 0x08 else if a == 114 then 0x45 else 0

ethernet-ipv4_example : ethernet_handle_packet a_packet 100 60 ≡ ipv4_unsupported
ethernet-ipv4_example = ethernet-ipv4 a_packet 100 60 5 refl refl refl (omega arith)
