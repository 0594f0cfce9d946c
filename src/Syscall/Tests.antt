-- ===== src/Syscall/Tests.antt =====
-- The numbering of the calls at concrete inputs.
use ruxeon.Common.{◌≡◌}
use ruxeon.Syscall.{raw, from_raw}
use ruxeon.Syscall.Laws.{raw-from_raw}

raw-from_raw_example : raw (from_raw 1000) ≡ 1000
raw-from_raw_example = raw-from_raw 1000
