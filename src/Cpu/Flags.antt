-- ===== src/Cpu/Flags.antt =====
-- crates/ruxeon-cpu/src/interpreter.rs: mnemonics of the decoder, and the flags and the conditions over them.
use ruxeon.Common.{
  ℕ, ◌+◌, ◌-◌, ◌/◌, ◌%◌, ◌^◌, Bool, true, false, not, ◌&&◌, ◌||◌, bit_and, bit_xor, ltb, ◌==◌,
  Result, ok, err,
}
use ruxeon.Common.Words.{u64_mod}
use ruxeon.Registers.{Registers, flag, set_flag, mask}

-- The mnemonics of the integer instructions, under the decoder's names; the others by their numbers.
pub data Mnemonic : Type 0 where
  jo jno jb jae je jne jbe ja : Mnemonic
  cmovo cmovno cmovb cmovae cmove cmovne cmovbe cmova : Mnemonic
  seto setno setb setae sete setne setbe seta : Mnemonic
  js jns jp jnp jl jge jle jg : Mnemonic
  cmovs cmovns cmovp cmovnp cmovl cmovge cmovle cmovg : Mnemonic
  sets setns setp setnp setl setge setle setg : Mnemonic
  mov movsx movsxd movzx xchg xadd lea add sub adc sbb xor_ and_ or_ neg not_ inc dec : Mnemonic
  rol ror bswap shl sal shld shr shrd sar bt bts btr btc cld std bsf bsr mul imul div idiv :
      Mnemonic
  stosb stosw stosd stosq movsb movsw movsd movsq scasb scasw scasd scasq cmpsb cmpsw cmpsd cmpsq :
      Mnemonic
  cbw cwde cdqe cwd cdq cqo cmp cmpxchg test jmp call ret leave push pop nop syscall rdtsc cpuid :
      Mnemonic
  prefetchnta prefetcht0 prefetcht1 prefetcht2 prefetchw : Mnemonic
  other_mnemonic : ℕ → Mnemonic

abbrev pub flag_cf : ℕ
flag_cf = 1

abbrev pub flag_pf : ℕ
flag_pf = 4

abbrev pub flag_zf : ℕ
flag_zf = 64

abbrev pub flag_sf : ℕ
flag_sf = 128

abbrev pub flag_df : ℕ
flag_df = 1024

abbrev pub flag_of : ℕ
flag_of = 2048

abbrev pub sign_bit : ℕ → ℕ
sign_bit width = 2 ^ (width - 1)

-- Arithmetic on `u64`.
abbrev pub wrapping_add : ℕ → ℕ → ℕ
wrapping_add a b = (a + b) % u64_mod

abbrev pub wrapping_sub : ℕ → ℕ → ℕ
wrapping_sub a b = (a + u64_mod - b) % u64_mod

-- The ones of a byte, digit by digit.
unfoldable pub count_ones : ℕ → ℕ
count_ones b =
    b % 2 + b / 2 % 2 + b / 4 % 2 + b / 8 % 2 + b / 16 % 2 + b / 32 % 2 + b / 64 % 2 + b / 128 % 2

unfoldable pub set_common_flags : ℕ → ℕ → Registers → Registers
unfolding set_flag count_ones
set_common_flags result width s =
    let masked = bit_and result (mask width) in
    let s1 = set_flag flag_zf (masked == 0) s in
    let s2 = set_flag flag_sf (not (bit_and masked (sign_bit width) == 0)) s1 in
    set_flag flag_pf (count_ones (masked % 256) % 2 == 0) s2

unfoldable pub set_add_flags : ℕ → ℕ → ℕ → ℕ → Registers → Registers
unfolding set_flag set_common_flags
set_add_flags left right result width s =
    let left' = bit_and left (mask width) in
    let right' = bit_and right (mask width) in
    let result' = bit_and result (mask width) in
    let s1 = set_flag flag_cf (ltb result' left') s in
    let s2 =
      set_flag flag_of
        (not (
          bit_and (bit_and (bit_xor left' result') (bit_xor right' result')) (sign_bit width) == 0))
        s1 in
    set_common_flags result' width s2

unfoldable pub set_sub_flags : ℕ → ℕ → ℕ → ℕ → Registers → Registers
unfolding set_flag set_common_flags
set_sub_flags left right result width s =
    let left' = bit_and left (mask width) in
    let right' = bit_and right (mask width) in
    let result' = bit_and result (mask width) in
    let s1 = set_flag flag_cf (ltb left' right') s in
    let s2 =
      set_flag flag_of
        (not
          (bit_and (bit_and (bit_xor left' right') (bit_xor left' result')) (sign_bit width) == 0))
        s1 in
    set_common_flags result' width s2

unfoldable pub set_logic_flags : ℕ → ℕ → Registers → Registers
unfolding set_flag set_common_flags
set_logic_flags result width s =
    set_common_flags result width (set_flag flag_of false (set_flag flag_cf false s))

abbrev pub same : Bool → Bool → Bool
same true b = b
same false b = not b

abbrev pub differ : Bool → Bool → Bool
differ a b = not (same a b)

-- The condition of a mnemonic, over the five flags; none where it has none.
unfoldable pub condition : Mnemonic → Bool → Bool → Bool → Bool → Bool → Result Mnemonic Bool
condition jo cf zf sf of pf = ok (of)
condition cmovo cf zf sf of pf = ok (of)
condition seto cf zf sf of pf = ok (of)
condition jno cf zf sf of pf = ok (not of)
condition cmovno cf zf sf of pf = ok (not of)
condition setno cf zf sf of pf = ok (not of)
condition jb cf zf sf of pf = ok (cf)
condition cmovb cf zf sf of pf = ok (cf)
condition setb cf zf sf of pf = ok (cf)
condition jae cf zf sf of pf = ok (not cf)
condition cmovae cf zf sf of pf = ok (not cf)
condition setae cf zf sf of pf = ok (not cf)
condition je cf zf sf of pf = ok (zf)
condition cmove cf zf sf of pf = ok (zf)
condition sete cf zf sf of pf = ok (zf)
condition jne cf zf sf of pf = ok (not zf)
condition cmovne cf zf sf of pf = ok (not zf)
condition setne cf zf sf of pf = ok (not zf)
condition jbe cf zf sf of pf = ok (cf || zf)
condition cmovbe cf zf sf of pf = ok (cf || zf)
condition setbe cf zf sf of pf = ok (cf || zf)
condition ja cf zf sf of pf = ok (not cf && not zf)
condition cmova cf zf sf of pf = ok (not cf && not zf)
condition seta cf zf sf of pf = ok (not cf && not zf)
condition js cf zf sf of pf = ok (sf)
condition cmovs cf zf sf of pf = ok (sf)
condition sets cf zf sf of pf = ok (sf)
condition jns cf zf sf of pf = ok (not sf)
condition cmovns cf zf sf of pf = ok (not sf)
condition setns cf zf sf of pf = ok (not sf)
condition jp cf zf sf of pf = ok (pf)
condition cmovp cf zf sf of pf = ok (pf)
condition setp cf zf sf of pf = ok (pf)
condition jnp cf zf sf of pf = ok (not pf)
condition cmovnp cf zf sf of pf = ok (not pf)
condition setnp cf zf sf of pf = ok (not pf)
condition jl cf zf sf of pf = ok (differ sf of)
condition cmovl cf zf sf of pf = ok (differ sf of)
condition setl cf zf sf of pf = ok (differ sf of)
condition jge cf zf sf of pf = ok (same sf of)
condition cmovge cf zf sf of pf = ok (same sf of)
condition setge cf zf sf of pf = ok (same sf of)
condition jle cf zf sf of pf = ok (zf || differ sf of)
condition cmovle cf zf sf of pf = ok (zf || differ sf of)
condition setle cf zf sf of pf = ok (zf || differ sf of)
condition jg cf zf sf of pf = ok (not zf && same sf of)
condition cmovg cf zf sf of pf = ok (not zf && same sf of)
condition setg cf zf sf of pf = ok (not zf && same sf of)
condition mnemonic cf zf sf of pf = err mnemonic

unfoldable pub condition_passed : Mnemonic → Registers → Result Mnemonic Bool
unfolding flag condition
condition_passed mnemonic s =
    condition mnemonic (flag s flag_cf) (flag s flag_zf) (flag s flag_sf) (flag s flag_of)
      (flag s flag_pf)

unfoldable pub is_jcc : Mnemonic → Bool
is_jcc jo = true
is_jcc jno = true
is_jcc jb = true
is_jcc jae = true
is_jcc je = true
is_jcc jne = true
is_jcc jbe = true
is_jcc ja = true
is_jcc js = true
is_jcc jns = true
is_jcc jp = true
is_jcc jnp = true
is_jcc jl = true
is_jcc jge = true
is_jcc jle = true
is_jcc jg = true
is_jcc _ = false

unfoldable pub is_setcc : Mnemonic → Bool
is_setcc seto = true
is_setcc setno = true
is_setcc setb = true
is_setcc setae = true
is_setcc sete = true
is_setcc setne = true
is_setcc setbe = true
is_setcc seta = true
is_setcc sets = true
is_setcc setns = true
is_setcc setp = true
is_setcc setnp = true
is_setcc setl = true
is_setcc setge = true
is_setcc setle = true
is_setcc setg = true
is_setcc _ = false

unfoldable pub is_cmovcc : Mnemonic → Bool
is_cmovcc cmovo = true
is_cmovcc cmovno = true
is_cmovcc cmovb = true
is_cmovcc cmovae = true
is_cmovcc cmove = true
is_cmovcc cmovne = true
is_cmovcc cmovbe = true
is_cmovcc cmova = true
is_cmovcc cmovs = true
is_cmovcc cmovns = true
is_cmovcc cmovp = true
is_cmovcc cmovnp = true
is_cmovcc cmovl = true
is_cmovcc cmovge = true
is_cmovcc cmovle = true
is_cmovcc cmovg = true
is_cmovcc _ = false
