-- ===== src/Oracle/Observe.antt =====
-- project_1/tests/ag_guest.c: what the test guest prints of the device.
use cs360v_cs380_projects.Prelude.{ℕ, ◌/◌, if◌then◌else◌, List, bit_and, has_bit, ◌^◌}
use cs360v_cs380_projects.Device.{status_error}
use cs360v_cs380_projects.Guest.{Guest, pure, ◌>>=◌, ◌>>◌, putc_, puts_, puthex_, vlog_status}

-- `key=0xVVVVVVVV` and a newline.
unfoldable pub obs : List ℕ → ℕ → Guest (Unit {0})
obs key val = do puts_ key; putc_ b'='; puthex_ val; putc_ b'\n'

unfoldable pub dev_err : Guest ℕ
dev_err = do st ← vlog_status; pure (if has_bit st status_error then 1 else 0)

unfoldable pub dev_errcode : Guest ℕ
dev_errcode = do st ← vlog_status; pure (bit_and (st / 2 ^ 8) 0xff)
