-- ===== src/I2c/Driver.antt =====
-- The driver of content/exercises/el5/01-i2c-dummy/starter.c as it stands before the exercise is
-- solved: no function reads or writes a register. The device is passed along.
use cppcourse.Base.{ℕ}
use cppcourse.Base.Int.{ℤ, negsuc}
use cppcourse.I2c.{Device}

unfoldable pub device_check_id : Device → Device × ℤ
device_check_id d = (d, negsuc 0)

unfoldable pub device_enable : Device → Device × ℤ
device_enable d = (d, negsuc 0)

unfoldable pub device_disable : Device → Device × ℤ
device_disable d = (d, negsuc 0)

unfoldable pub device_read_data : Device → Device × ℕ
device_read_data d = (d, 0)

unfoldable pub device_set_scale : ℕ → Device → Device × ℤ
device_set_scale scale d = (d, negsuc 0)

unfoldable pub device_data_ready : Device → Device × ℤ
device_data_ready d = (d, negsuc 0)
