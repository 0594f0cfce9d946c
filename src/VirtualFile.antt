-- ===== src/VirtualFile.antt =====
-- crates/ruxeon-fs/src/lib.rs: `VirtualFile`. A path is its bytes.
use Prim.Native.Char.{code}
use Prim.Native.String.{String}
use ruxeon.Common.{
  Bool, true, false, ◌&&◌, ◌==◌, ℕ, zero, suc, ◌*◌, ◌/◌, ◌%◌, ◌^◌, Option, none, some, List, [],
  ◌∷◌, bit_xor, length, take, replicate, if◌then◌else◌,
}
use ruxeon.Common.Words.{u64_mod}
use ruxeon.Common.Text.{codes}

pub data VirtualFile : Type 0 where
  dev_null dev_zero dev_random dev_urandom : VirtualFile
  proc_self_exe proc_version proc_cpu_info proc_mem_info : VirtualFile

-- Whether a path is a given text.
unfoldable pub is_text : List ℕ → String → Bool
is_text [] String.[] = true
is_text [] (String.◌∷◌ c s) = false
is_text (b ∷ bs) String.[] = false
is_text (b ∷ bs) (String.◌∷◌ c s) = b == code c && is_text bs s

unfoldable pub from_guest_path : List ℕ → Option VirtualFile
unfolding is_text
from_guest_path path =
    if is_text path "/dev/null"
    then some dev_null
    else if is_text path "/dev/zero"
    then some dev_zero
    else if is_text path "/dev/random"
    then some dev_random
    else if is_text path "/dev/urandom"
    then some dev_urandom
    else if is_text path "/proc/self/exe"
    then some proc_self_exe
    else if is_text path "/proc/version"
    then some proc_version
    else if is_text path "/proc/cpuinfo"
    then some proc_cpu_info
    else if is_text path "/proc/meminfo"
    then some proc_mem_info
    else none

-- `state ^= state << 7; state ^= state >> 9; state ^= state << 8`, on 64 bits.
unfoldable pub random_step : ℕ → ℕ
random_step s =
    let a = bit_xor s (s * 2 ^ 7 % u64_mod) in
    let b = bit_xor a (a / 2 ^ 9) in bit_xor b (b * 2 ^ 8 % u64_mod)

unfoldable pub random_bytes : ℕ → ℕ → List ℕ
unfolding random_step
random_bytes zero state = []
random_bytes (suc n) state = random_step state % 256 ∷ random_bytes n (random_step state)

-- `nanos` is the host's clock at the call.
unfoldable pub deterministic_random : ℕ → ℕ → List ℕ
unfolding random_bytes
deterministic_random nanos len = random_bytes len (bit_xor nanos 0x5255_5845_4f4e)

unfoldable pub contents : ℕ → VirtualFile → List ℕ → ℕ → List ℕ
unfolding deterministic_random
contents nanos dev_null exe max_len = []
contents nanos dev_zero exe max_len = replicate max_len 0
contents nanos dev_random exe max_len = deterministic_random nanos max_len
contents nanos dev_urandom exe max_len = deterministic_random nanos max_len
contents nanos proc_self_exe exe max_len = exe
contents nanos proc_version exe max_len = codes "Linux version 6.0.0-ruxeon (ruxeon) #1 x86_64\n"
contents nanos proc_cpu_info exe max_len =
    codes "processor\t: 0\nvendor_id\t: Ruxeon\nmodel name\t: Ruxeon virtual x86_64\n\n"
contents nanos proc_mem_info exe max_len =
    codes "MemTotal:        1048576 kB\nMemFree:          524288 kB\n"

unfoldable pub read_bytes : ℕ → VirtualFile → List ℕ → ℕ → List ℕ
unfolding contents
read_bytes nanos file exe max_len = take max_len (contents nanos file exe max_len)

unfoldable pub write : VirtualFile → List ℕ → ℕ
write dev_null bytes = length bytes
write _ bytes = 0
