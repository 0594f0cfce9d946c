-- ===== src/Elf/Dynamic.antt =====
-- crates/ruxeon-elf/src/elf.rs: the path of the interpreter and the dynamic entries.
use ruxeon.Common.{
  ℕ, zero, suc, ◌/◌, ◌%◌, Bool, true, false, not, Option, none, some, List, [], ◌∷◌, length, take,
  drop, find, position, ◌==◌, if◌then◌else◌, Result, ok, ◌>>=◌, ◌>>◌, fail_if,
}
use ruxeon.Common.Words.{from_le_bytes}
use ruxeon.Elf.{
  ElfError, ElfImage, ProgramHeader, interp, dynamic, dynamic_out_of_bounds, invalid_interpreter,
  segment_bytes,
}

-- A tag is the pattern of its 64 bits.
pub data DynamicTag : Type 0 where
  null needed plt_rel_size plt_got hash str_tab sym_tab rela rela_size rela_ent str_size sym_ent
        init fini :
      DynamicTag
  so_name r_path symbolic rel rel_size rel_ent plt_rel debug text_rel jmp_rel bind_now init_array
        fini_array run_path flags_tag gnu_hash :
      DynamicTag
  other_tag : ℕ → DynamicTag

unfoldable pub dynamic_tag : ℕ → DynamicTag
dynamic_tag value =
    if value == 0
    then DynamicTag.null
    else if value == 1
    then DynamicTag.needed
    else if value == 2
    then DynamicTag.plt_rel_size
    else if value == 3
    then DynamicTag.plt_got
    else if value == 4
    then DynamicTag.hash
    else if value == 5
    then DynamicTag.str_tab
    else if value == 6
    then DynamicTag.sym_tab
    else if value == 7
    then DynamicTag.rela
    else if value == 8
    then DynamicTag.rela_size
    else if value == 9
    then DynamicTag.rela_ent
    else if value == 10
    then DynamicTag.str_size
    else if value == 11
    then DynamicTag.sym_ent
    else if value == 12
    then DynamicTag.init
    else if value == 13
    then DynamicTag.fini
    else if value == 14
    then DynamicTag.so_name
    else if value == 15
    then DynamicTag.r_path
    else if value == 16
    then DynamicTag.symbolic
    else if value == 17
    then DynamicTag.rel
    else if value == 18
    then DynamicTag.rel_size
    else if value == 19
    then DynamicTag.rel_ent
    else if value == 20
    then DynamicTag.plt_rel
    else if value == 21
    then DynamicTag.debug
    else if value == 22
    then DynamicTag.text_rel
    else if value == 23
    then DynamicTag.jmp_rel
    else if value == 24
    then DynamicTag.bind_now
    else if value == 25
    then DynamicTag.init_array
    else if value == 26
    then DynamicTag.fini_array
    else if value == 29
    then DynamicTag.run_path
    else if value == 30
    then DynamicTag.flags_tag
    else if value == 1879047925
    then DynamicTag.gnu_hash
    else other_tag value

pub record DynamicEntry : Type 0 where
  pub tag : DynamicTag
  pub value : ℕ

abbrev pub is_interp : ProgramHeader → Bool
is_interp h = elim h.kind [ interp ↦ true | _ ↦ false ]

abbrev pub is_dynamic : ProgramHeader → Bool
is_dynamic h = elim h.kind [ dynamic ↦ true | _ ↦ false ]

abbrev pub until_nul : List ℕ → List ℕ
until_nul bytes = elim (position (λ b. b == 0) bytes) [ none ↦ bytes | some i ↦ take i bytes ]

-- `is_utf8` is the test of `std::str::from_utf8`; a path is its bytes.
unfoldable pub interpreter_path : (List ℕ → Bool) → ElfImage → Result ElfError (Option (List ℕ))
unfolding segment_bytes
interpreter_path is_utf8 image = elim (find is_interp image.program_headers) [
  | none ↦ ok none
  | some h ↦ do
    found ← segment_bytes image.bytes h
    let path = until_nul found
    fail_if (not (is_utf8 path)) invalid_interpreter
    ok (some path)
]

abbrev pub is_null_tag : DynamicTag → Bool
is_null_tag null = true
is_null_tag _ = false

-- The loop over the chunks of 16 bytes, which ends behind the null tag.
unfoldable pub dynamic_chunks : ℕ → List ℕ → List DynamicEntry
unfolding dynamic_tag from_le_bytes
dynamic_chunks zero bytes = []
dynamic_chunks (suc count) bytes =
    let tag = dynamic_tag (from_le_bytes (take 8 bytes)) in
    let entry : DynamicEntry = record {
      tag = tag;
      value = from_le_bytes (take 8 (drop 8 bytes));
    } in
    let rest = dynamic_chunks count (drop 16 bytes) in
    entry ∷ (if is_null_tag tag then [] else rest)

unfoldable pub dynamic_entries : ElfImage → Result ElfError (List DynamicEntry)
unfolding segment_bytes dynamic_chunks
dynamic_entries image = elim (find is_dynamic image.program_headers) [
  | none ↦ ok []
  | some h ↦ do
    found ← segment_bytes image.bytes h
    fail_if (not (length found % 16 == 0)) dynamic_out_of_bounds
    ok (dynamic_chunks (length found / 16) found)
]
