-- ===== src/Floppy.antt =====
-- drivers/floppy.c: where a sector lies, the commands for it, and the attempts at a seek and at a
-- transfer. What the controller answers to attempt number `i` is an argument, as is the physical
-- address of the buffer; the waits for the controller are left out. A sector's number is not negative.
pub mod Sectors
pub mod Answers
pub mod Attempts
mod Tests
use osdev_graphical.Base.{
  ℕ, zero, suc, ◌+◌, ◌-◌, ◌*◌, ◌/◌, ◌%◌, ◌^◌, bit_and, bit_or, Bool, true, false, not, ◌||◌, Option,
  none, some, List, [], ◌∷◌, ◌++◌, if◌then◌else◌, ◌==◌, ltb, leb,
}
use osdev_graphical.Dma.{
  dma_set_address, dma_set_count, dma_set_external_page_register, dma_mask_channel,
  dma_reset_flipflop, dma_reset, dma_unmask_all, dma_set_read, dma_set_write,
}

abbrev pub sectors_per_track : ℕ
sectors_per_track = 36

-- Head, track and sector.
pub flpydsk_lba_to_chs : ℕ → ℕ × ℕ × ℕ
flpydsk_lba_to_chs lba = (
  lba % (sectors_per_track * 2) / sectors_per_track,
  lba / (sectors_per_track * 2),
  lba % sectors_per_track + 1,
)

abbrev pub floppy_dmalen : ℕ
floppy_dmalen = 512

-- Whether data are read or written.
pub data FloppyDir : Type 0 where
  floppy_dir_read : FloppyDir
  floppy_dir_write : FloppyDir

-- The writes to the ports, none when the buffer lies badly; `a` is its physical address.
pub flpydsk_dma_init : ℕ → FloppyDir → List (ℕ × ℕ)
flpydsk_dma_init a dir =
    let c = floppy_dmalen - 1 in
    let mode : List (ℕ × ℕ) = elim dir [
      | floppy_dir_read ↦ dma_set_read 2
      | floppy_dir_write ↦ dma_set_write 2
    ] in
    if not (a / 2 ^ 24 == 0) || not (c / 2 ^ 16 == 0) || not ((bit_and a 0xffff + c) / 2 ^ 16 == 0)
    then []
    else dma_reset 2
      ++ dma_mask_channel 2
      ++ dma_reset_flipflop 2
      ++ dma_set_address 2 (a % 2 ^ 8) (a / 2 ^ 8 % 2 ^ 8)
      ++ dma_set_external_page_register 2 (a / 2 ^ 16 % 2 ^ 8)
      ++ dma_reset_flipflop 2
      ++ dma_set_count 2 (c % 2 ^ 8) (c / 2 ^ 8 % 2 ^ 8)
      ++ mode
      ++ dma_unmask_all 2

-- The result bytes of a transfer that are looked at.
pub record Status : Type 0 where
  pub st0 : ℕ
  pub st1 : ℕ
  pub st2 : ℕ
  pub bps : ℕ

-- Some bit of the mask.
pub has : ℕ → ℕ → Bool
has byte mask = not (bit_and byte mask == 0)

-- `error` after all the tests.
pub error_of : Status → ℕ
error_of s =
    let failed =
      has s.st0 0xC0
      || has s.st1 0x80
      || has s.st0 0x08
      || has s.st1 0x20
      || has s.st1 0x10
      || has s.st1 0x04
      || has (bit_or s.st1 s.st2) 0x01
      || has s.st2 0x40
      || has s.st2 0x20
      || has s.st2 0x10
      || has s.st2 0x04
      || has s.st2 0x02
      || not (s.bps == 2) in
    if has s.st1 0x02 then 2 else if failed then 1 else 0

-- 0, -2, or the end of the function without a return.
pub data Transfer : Type 0 where
  transferred : Transfer
  not_writable : Transfer
  no_value : Transfer

-- The loop from attempt `i` on, with `n` attempts left.
pub rw_attempts : (ℕ → Status) → ℕ → ℕ → Transfer
rw_attempts answers zero i = no_value
rw_attempts answers (suc n) i =
    let rest = rw_attempts answers n (suc i) in
    let error = error_of (answers i) in
    if error == 0 then transferred else if ltb 1 error then not_writable else rest

pub flpydsk_rw_sector : (ℕ → Status) → Transfer
flpydsk_rw_sector answers = rw_attempts answers 20 0

-- The commands of an attempt, `read_sect` and `write_sect` being the two functions' numbers with their
-- options.
pub rw_commands : ℕ → ℕ → ℕ → ℕ → ℕ → List ℕ
rw_commands function drive head track sector =
    function
    ∷ bit_or (head * 4) drive
    ∷ track
    ∷ head
    ∷ sector
    ∷ 2
    ∷ (if leb sectors_per_track (sector + 1) then sectors_per_track else sector + 1)
    ∷ 27
    ∷ 0xff
    ∷ []

-- A seek's answers: `st0` and the cylinder.
pub seek_attempts : (ℕ → ℕ × ℕ) → ℕ → ℕ → ℕ → Bool
seek_attempts answers cyl zero i = false
seek_attempts answers cyl (suc n) i =
    let rest = seek_attempts answers cyl n (suc i) in
    let (st0, cyl0) = answers i in if has st0 0xC0 then rest else if cyl0 == cyl then true else rest

-- Whether it returns 0.
pub flpydsk_seek : (ℕ → ℕ × ℕ) → ℕ → ℕ → Bool
flpydsk_seek answers drive cyl = if leb 4 drive then false else seek_attempts answers cyl 10 0

-- `flpydsk_calibrate` returns 0, -1 or -2.
pub data Calibration : Type 0 where
  at_zero : Calibration
  failed : Calibration
  no_drive : Calibration

pub flpydsk_calibrate : (ℕ → ℕ × ℕ) → ℕ → Calibration
flpydsk_calibrate answers drive =
    if leb 4 drive then no_drive else if seek_attempts answers 0 10 0 then at_zero else failed

pub flpydsk_drive_data : ℕ → ℕ → ℕ → Bool → List ℕ
flpydsk_drive_data stepr loadt unloadt dma =
    0x03
    ∷ bit_or (bit_and stepr 0xf * 16) (bit_and (unloadt / 16) 0xf) % 2 ^ 8
    ∷ bit_or (loadt * 2) (if dma then 0 else 1) % 2 ^ 8
    ∷ []

-- The digital output register for the motor of a drive.
pub flpydsk_control_motor : ℕ → Bool → Option ℕ
flpydsk_control_motor drive b =
    let on = bit_or (bit_or drive (2 ^ (4 + drive))) 0x0C in
    if ltb 3 drive then none else some (if b then on else 0x0C)

-- Whether the buffer is handed out, given the answers to the seek.
pub flpydsk_read_sector : (ℕ → ℕ × ℕ) → ℕ → ℕ → Bool
flpydsk_read_sector seeks drive lba =
    let (head, track, sector) = flpydsk_lba_to_chs lba in
    if leb 4 drive then false else flpydsk_seek seeks drive track
