-- ===== src/Linux/Arguments.antt =====
-- crates/ruxeon-linux/src/lib.rs: what the system calls do with their arguments: rounding, flags, texts and times in
-- the guest's memory. An argument always fits a `usize`, which has 64 bits.
use ruxeon.Common.{
  ℕ, zero, suc, ◌+◌, ◌-◌, ◌*◌, ◌/◌, ◌%◌, ◌^◌, bit_and, bit_or, Bool, true, false, not, ◌||◌, Option,
  none, some, List, [], ◌∷◌, ◌++◌, leb, ◌==◌, if◌then◌else◌, Result, ok_or, ok, err,
}
use ruxeon.Common.Words.{u64_mod}
use ruxeon.Common.Actions.{pure, fail, ◌>>=◌, ◌>>◌}
use ruxeon.Region.{MemoryPermission}
use ruxeon.Access.{read_word, write_word}
use ruxeon.Errno.{SyscallError, fault, inval, nam_too_long, errno}
use ruxeon.VirtualFile
use ruxeon.FdTable.{fd_arg}
use ruxeon.Linux.Os.{Os}
use ruxeon.Linux.Terminal.{plus, and_then}
use ruxeon.Linux.State.{Handler, with_memory, from_memory, fail_when}

abbrev pub at_fdcwd : ℕ
at_fdcwd = 2 ^ 64 - 100

-- Rounding up to a multiple; the product wraps. `align_usize` is the same on `usize`.
unfoldable pub align_up : ℕ → ℕ → ℕ
align_up value align = if value == 0 then 0 else ((value - 1) / align + 1) * align % u64_mod

abbrev flag_if : Bool → ℕ → ℕ
flag_if b bit = if b then bit else 0

unfoldable pub memory_permissions : ℕ → MemoryPermission
memory_permissions prot = record {
  bits =
      bit_or
        (bit_or (flag_if (not (bit_and prot 0x1 == 0)) 1) (flag_if (not (bit_and prot 0x2 == 0)) 2))
        (flag_if (not (bit_and prot 0x4 == 0)) 4);
}

-- A request for any child where the number is not positive.
unfoldable pub wait_requested_pid : ℕ → Option ℕ
wait_requested_pid value = if value == 0 || leb (2 ^ 63) value then none else some (value % 2 ^ 32)

unfoldable pub fd_arg_allow_at_fdcwd : ℕ → Result SyscallError (Option ℕ)
fd_arg_allow_at_fdcwd value =
    if value == at_fdcwd
    then ok none
    else elim (fd_arg value) [ ok fd ↦ ok (some fd) | err e ↦ err e ]

-- `deterministic_random`, whose seed is fixed here.
unfoldable pub deterministic_random : ℕ → List ℕ
unfolding VirtualFile.random_bytes
deterministic_random len = VirtualFile.random_bytes len 0x5255_5845_4f4e

module _ {File World : Type 0} (os : Os File World) where
  -- The loop of `read_c_string`, with so many bytes left to read.
  unfoldable pub read_c_string_from : ℕ → ℕ → List ℕ → Handler File World (List ℕ)
  unfolding read_word
  read_c_string_from zero addr bytes = fail (errno nam_too_long)
  read_c_string_from (suc n) addr bytes = do
    byte ← from_memory (read_word 1 addr)
    elim (byte == 0) [
      | true ↦ if os.is_utf8 bytes then pure bytes else fail (errno inval)
      | false ↦ read_c_string_from n (plus addr 1) (bytes ++ byte ∷ [])
    ]

  unfoldable pub read_c_string : ℕ → Handler File World (List ℕ)
  unfolding read_c_string_from
  read_c_string addr = read_c_string_from 4096 addr []

  unfoldable pub read_strings_from : ℕ → ℕ → List (List ℕ) → Handler File World (List (List ℕ))
  unfolding read_word read_c_string
  read_strings_from zero addr values = fail (errno inval)
  read_strings_from (suc n) addr values = do
    ptr ← from_memory (read_word 8 addr)
    elim (ptr == 0) [
      | true ↦ pure values
      | false ↦ (do
        value ← read_c_string ptr
        read_strings_from n (plus addr 8) (values ++ value ∷ []))
    ]

  unfoldable pub read_string_vector : ℕ → Handler File World (List (List ℕ))
  unfolding read_strings_from
  read_string_vector addr = if addr == 0 then pure [] else read_strings_from 4096 addr []

  unfoldable pub clock_now : ℕ → Handler File World (ℕ × ℕ)
  clock_now clock s =
      if leb clock 1 then (ok_or (os.now s.world) (errno inval), s) else (err (errno inval), s)

module _ {File World : Type 0} where
  unfoldable pub read_timespec : ℕ → Handler File World (ℕ × ℕ)
  unfolding read_word
  read_timespec addr = do
    fail_when (addr == 0) fault
    secs ← from_memory (read_word 8 addr)
    nanos ← from_memory (read_word 8 (plus addr 8))
    pure (secs, nanos)

  unfoldable pub write_timespec : ℕ → ℕ × ℕ → Handler File World (Unit {0})
  unfolding write_word
  write_timespec addr (secs, nanos) = do
    fail_when (addr == 0) fault
    with_memory (and_then (write_word 8 addr secs) (write_word 8 (plus addr 8) nanos))
