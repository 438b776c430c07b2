-- ===== src/Dma.antt =====
-- drivers/dma.c: what each function writes to the ports, in order. A channel is a byte.
use osdev_graphical.Base.{
  ℕ, ◌+◌, ◌-◌, ◌*◌, ◌%◌, ◌^◌, bit_or, List, [], ◌∷◌, ◌++◌, if◌then◌else◌, ◌==◌, ltb, leb,
}

-- The port of a channel's address register; none of the cases leaves it 0.
pub address_port : ℕ → ℕ
address_port channel =
    if ltb channel 4 then 2 * channel else if ltb channel 8 then 0xc0 + 4 * (channel - 4) else 0

pub count_port : ℕ → ℕ
count_port channel =
    if ltb channel 4 then 2 * channel + 1 else if ltb channel 8 then 0xc2 + 4 * (channel - 4) else 0

pub dma_set_address : ℕ → ℕ → ℕ → List (ℕ × ℕ)
dma_set_address channel low high =
    if ltb 8 channel then [] else (address_port channel, low) ∷ (address_port channel, high) ∷ []

pub dma_set_count : ℕ → ℕ → ℕ → List (ℕ × ℕ)
dma_set_count channel low high =
    if ltb 8 channel then [] else (count_port channel, low) ∷ (count_port channel, high) ∷ []

pub page_port : ℕ → ℕ
page_port reg =
    if reg == 1
    then 0x83
    else if reg == 2
    then 0x81
    else if reg == 3
    then 0x82
    else if reg == 5
    then 0x89
    else if reg == 6
    then 0x87
    else if reg == 7
    then 0x88
    else 0

pub dma_set_external_page_register : ℕ → ℕ → List (ℕ × ℕ)
dma_set_external_page_register reg val =
    if ltb 14 reg then [] else if reg == 4 then [] else (page_port reg, val) ∷ []

-- A shift by a negative number, for the channels 0 and 4, is undefined; it is taken for a shift by 0.
pub dma_mask_channel : ℕ → List (ℕ × ℕ)
dma_mask_channel channel =
    if leb channel 4
    then (0x0a, 2 ^ (channel - 1) % 2 ^ 8) ∷ []
    else (0xd4, 2 ^ (channel - 5) % 2 ^ 8) ∷ []

pub dma_unmask_channel : ℕ → List (ℕ × ℕ)
dma_unmask_channel channel = if leb channel 4 then (0x0a, channel) ∷ [] else (0xd4, channel) ∷ []

pub dma_reset_flipflop : ℕ → List (ℕ × ℕ)
dma_reset_flipflop dma = (if leb dma 4 then 0x0c else 0xd8, 0xff) ∷ []

unfoldable pub dma_reset : ℕ → List (ℕ × ℕ)
dma_reset dma = (0x0d, 0xff) ∷ []

pub dma_unmask_all : ℕ → List (ℕ × ℕ)
dma_unmask_all dma = (0xdc, 0xff) ∷ []

pub dma_set_mode : ℕ → ℕ → List (ℕ × ℕ)
dma_set_mode channel mode =
    let dma = if ltb channel 4 then 0 else 1 in
    let chan = if dma == 0 then channel else channel - 4 in
    dma_mask_channel channel
    ++ ((if ltb channel 4 then 0x0b else 0xd6, bit_or chan mode) ∷ [])
    ++ dma_unmask_all dma

pub dma_set_read : ℕ → List (ℕ × ℕ)
dma_set_read channel = dma_set_mode channel 0x44

pub dma_set_write : ℕ → List (ℕ × ℕ)
dma_set_write channel = dma_set_mode channel 0x48
