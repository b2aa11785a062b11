-- ===== src/Spi/Driver.antt =====
-- The driver of content/exercises/el5/02-spi-dummy/starter.c as it stands before the exercise is
-- solved: no function makes a transfer. The flash is passed along; a status is an `int`.
use cppcourse.Base.{ℕ, List}
use cppcourse.Base.Int.{ℤ, negsuc}
use cppcourse.Spi.{Flash}

unfoldable pub flash_read_jedec : List ℕ → Flash → Flash × List ℕ × ℤ
flash_read_jedec id f = (f, id, negsuc 0)

unfoldable pub flash_read : ℕ → List ℕ → ℕ → Flash → Flash × List ℕ × ℤ
flash_read addr buf len f = (f, buf, negsuc 0)

unfoldable pub flash_write_enable : Flash → Flash × ℤ
flash_write_enable f = (f, negsuc 0)

unfoldable pub flash_program : ℕ → List ℕ → ℕ → Flash → Flash × ℤ
flash_program addr buf len f = (f, negsuc 0)

unfoldable pub flash_chip_erase : Flash → Flash × ℤ
flash_chip_erase f = (f, negsuc 0)

unfoldable pub flash_read_status : Flash → Flash × ℕ
flash_read_status f = (f, 0xff)
