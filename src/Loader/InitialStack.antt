-- ===== src/Loader/InitialStack.antt =====
-- crates/ruxeon-elf/src/loader.rs: the initial stack. A text is its bytes.
use ruxeon.Common.{ℕ, ◌-◌, List, [], ◌∷◌, ◌++◌, length, ltb, Result, ok, ◌>>=◌, ◌>>◌, fail_if}
use ruxeon.Common.Words.{to_le_bytes}
use ruxeon.Memory.{GuestMemory}
use ruxeon.Access.{write_bytes}
use ruxeon.Loader.{LoaderError, stack_overflow, AuxType, aux_code, AuxEntry, align_down, loaded}

pub record StackAuxInput : Type 0 where
  pub phdr : ℕ
  pub phent : ℕ
  pub phnum : ℕ
  pub entry : ℕ
  pub base : ℕ
  pub page_size : ℕ

-- `InitialStack` with the memory that it writes.
pub record Stack : Type 0 where
  pub sp : ℕ
  pub floor : ℕ
  pub memory : GuestMemory

-- The pointer that the source returns is the new `sp`.
unfoldable pub push_bytes : List ℕ → Stack → Result LoaderError Stack
unfolding write_bytes
push_bytes bytes s = do
  fail_if (ltb s.sp (length bytes)) stack_overflow
  let sp = s.sp - length bytes
  fail_if (ltb sp s.floor) stack_overflow
  m ← loaded (write_bytes sp bytes s.memory)
  ok (record s { sp = sp; memory = m })

unfoldable pub push_c_string : List ℕ → Stack → Result LoaderError Stack
unfolding push_bytes
push_c_string text s = push_bytes (text ++ 0 ∷ []) s

unfoldable pub push_u64 : ℕ → Stack → Result LoaderError Stack
unfolding push_bytes to_le_bytes
push_u64 value s = push_bytes (to_le_bytes 8 value) s

-- The loops from the last to the first: of the texts, with the pointers in their order, and of the words.
unfoldable pub push_strings : List (List ℕ) → Stack → Result LoaderError (List ℕ × Stack)
unfolding push_c_string
push_strings [] s = ok ([], s)
push_strings (text ∷ texts) s = do
  rest ← push_strings texts s
  s' ← push_c_string text rest.1
  ok (s'.sp ∷ rest.0, s')

unfoldable pub push_words : List ℕ → Stack → Result LoaderError Stack
unfolding push_u64
push_words [] s = ok s
push_words (word ∷ words) s = do s' ← push_words words s; push_u64 word s'

unfoldable pub auxiliary : StackAuxInput → ℕ → ℕ → List AuxEntry
auxiliary input random_ptr execfn_ptr =
    record { kind = AuxType.phdr; value = input.phdr }
    ∷ record { kind = AuxType.phent; value = input.phent }
    ∷ record { kind = AuxType.phnum; value = input.phnum }
    ∷ record { kind = AuxType.pagesz; value = input.page_size }
    ∷ record { kind = AuxType.base; value = input.base }
    ∷ record { kind = AuxType.entry; value = input.entry }
    ∷ record { kind = AuxType.uid; value = 0 }
    ∷ record { kind = AuxType.euid; value = 0 }
    ∷ record { kind = AuxType.gid; value = 0 }
    ∷ record { kind = AuxType.egid; value = 0 }
    ∷ record { kind = AuxType.secure; value = 0 }
    ∷ record { kind = AuxType.random; value = random_ptr }
    ∷ record { kind = AuxType.exec_fn; value = execfn_ptr }
    ∷ record { kind = AuxType.null; value = 0 }
    ∷ []

abbrev pub aux_words : List AuxEntry → List ℕ
aux_words [] = []
aux_words (e ∷ rest) = aux_code e.kind ∷ e.value ∷ aux_words rest

abbrev pub first_or_empty : List (List ℕ) → List ℕ
first_or_empty [] = []
first_or_empty (text ∷ _) = text

abbrev pub aligned : ℕ → Stack → Stack
aligned align s = record s { sp = align_down s.sp align }

abbrev pub random_bytes : List ℕ
random_bytes =
    0x52 ∷ 0x52 ∷ 0x52 ∷ 0x52 ∷ 0x52 ∷ 0x52 ∷ 0x52 ∷ 0x52 ∷ 0x52 ∷ 0x52 ∷ 0x52 ∷ 0x52 ∷ 0x52 ∷ 0x52
    ∷ 0x52 ∷ 0x52 ∷ []

-- The stack with its texts, and what `build` returns: its pointer and the auxiliary vector.
unfoldable pub build :
    List (List ℕ)
    → List (List ℕ)
    → StackAuxInput
    → Stack
    → Result LoaderError (Stack × List AuxEntry)
unfolding push_c_string push_bytes push_strings align_down auxiliary push_words push_u64
build argv envp input s = do
  s1 ← push_c_string (first_or_empty argv) s
  s2 ← push_bytes random_bytes s1
  env ← push_strings envp s2
  args ← push_strings argv env.1
  let auxv = auxiliary input s2.sp s1.sp
  s5 ← push_words (aux_words auxv) (aligned 16 args.1)
  s6 ← push_u64 0 s5
  s7 ← push_words env.0 s6
  s8 ← push_u64 0 s7
  s9 ← push_words args.0 s8
  s10 ← push_u64 (length argv) s9
  ok (s10, auxv)
