-- ===== src/Floppy/Tests.antt =====
-- drivers/floppy.c with a controller whose third attempt comes out well.
use osdev_graphical.Base.{ℕ, if◌then◌else◌, ◌==◌}
use osdev_graphical.Floppy.{Status, flpydsk_rw_sector}
use osdev_graphical.Floppy.Attempts.{AttemptsLaw, flpydsk_rw_sector-AttemptsLaw}

abbrev some_answers : ℕ → Status
some_answers i = record { st0 = if i == 2 then 0 else 0x40; st1 = 0; st2 = 0; bps = 2 }

flpydsk_rw_sector-AttemptsLaw_example :
    AttemptsLaw some_answers 0 20 (flpydsk_rw_sector some_answers)
flpydsk_rw_sector-AttemptsLaw_example = flpydsk_rw_sector-AttemptsLaw some_answers
