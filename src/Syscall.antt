-- ===== src/Syscall.antt =====
-- crates/ruxeon-linux/src/lib.rs: `SyscallNumber`, the numbers of x86-64 Linux.
pub mod Laws
mod Tests
use Prim.Native.String.{String}
use ruxeon.Common.{ℕ, ◌==◌, Option, none, some, List, [], ◌∷◌, if◌then◌else◌}

pub data SyscallNumber : Type 0 where
  read write readv writev open_file close stat fstat lstat mmap mprotect munmap brk : SyscallNumber
  rt_sigreturn ioctl pipe select poll dup dup2 nanosleep clone fork vfork execve wait4 kill :
      SyscallNumber
  fcntl mkdir rmdir unlink getdents times sysinfo access_file arch_prctl getpid sendfile :
      SyscallNumber
  getppid getpgrp gettid getuid getgid setpgid getpgid geteuid getegid getcwd chdir readlink :
      SyscallNumber
  uname sigaltstack getdents64 clock_gettime pselect6 ppoll dup3 pipe2 openat mkdirat :
      SyscallNumber
  unlinkat newfstatat rt_sigaction rt_sigprocmask set_tid_address set_robust_list prlimit64 :
      SyscallNumber
  getrandom exit exit_group : SyscallNumber
  other : ℕ → SyscallNumber

unfoldable pub raw : SyscallNumber → ℕ
raw read = 0
raw write = 1
raw readv = 19
raw writev = 20
raw open_file = 2
raw close = 3
raw stat = 4
raw fstat = 5
raw lstat = 6
raw mmap = 9
raw mprotect = 10
raw munmap = 11
raw brk = 12
raw rt_sigreturn = 15
raw ioctl = 16
raw pipe = 22
raw select = 23
raw poll = 7
raw dup = 32
raw dup2 = 33
raw nanosleep = 35
raw clone = 56
raw fork = 57
raw vfork = 58
raw execve = 59
raw wait4 = 61
raw kill = 62
raw fcntl = 72
raw mkdir = 83
raw rmdir = 84
raw unlink = 87
raw getdents = 78
raw times = 100
raw sysinfo = 99
raw access_file = 21
raw arch_prctl = 158
raw getpid = 39
raw sendfile = 40
raw getppid = 110
raw getpgrp = 111
raw gettid = 186
raw getuid = 102
raw getgid = 104
raw setpgid = 109
raw getpgid = 121
raw geteuid = 107
raw getegid = 108
raw getcwd = 79
raw chdir = 80
raw readlink = 89
raw uname = 63
raw sigaltstack = 131
raw getdents64 = 217
raw clock_gettime = 228
raw pselect6 = 270
raw ppoll = 271
raw dup3 = 292
raw pipe2 = 293
raw openat = 257
raw mkdirat = 258
raw unlinkat = 263
raw newfstatat = 262
raw rt_sigaction = 13
raw rt_sigprocmask = 14
raw set_tid_address = 218
raw set_robust_list = 273
raw prlimit64 = 302
raw getrandom = 318
raw exit = 60
raw exit_group = 231
raw (other value) = value

unfoldable pub name : SyscallNumber → String
name read = "read"
name write = "write"
name readv = "readv"
name writev = "writev"
name open_file = "open"
name close = "close"
name stat = "stat"
name fstat = "fstat"
name lstat = "lstat"
name mmap = "mmap"
name mprotect = "mprotect"
name munmap = "munmap"
name brk = "brk"
name rt_sigreturn = "rt_sigreturn"
name ioctl = "ioctl"
name pipe = "pipe"
name select = "select"
name poll = "poll"
name dup = "dup"
name dup2 = "dup2"
name nanosleep = "nanosleep"
name clone = "clone"
name fork = "fork"
name vfork = "vfork"
name execve = "execve"
name wait4 = "wait4"
name kill = "kill"
name fcntl = "fcntl"
name mkdir = "mkdir"
name rmdir = "rmdir"
name unlink = "unlink"
name getdents = "getdents"
name times = "times"
name sysinfo = "sysinfo"
name access_file = "access"
name arch_prctl = "arch_prctl"
name getpid = "getpid"
name sendfile = "sendfile"
name getppid = "getppid"
name getpgrp = "getpgrp"
name gettid = "gettid"
name getuid = "getuid"
name getgid = "getgid"
name setpgid = "setpgid"
name getpgid = "getpgid"
name geteuid = "geteuid"
name getegid = "getegid"
name getcwd = "getcwd"
name chdir = "chdir"
name readlink = "readlink"
name uname = "uname"
name sigaltstack = "sigaltstack"
name getdents64 = "getdents64"
name clock_gettime = "clock_gettime"
name pselect6 = "pselect6"
name ppoll = "ppoll"
name dup3 = "dup3"
name pipe2 = "pipe2"
name openat = "openat"
name mkdirat = "mkdirat"
name unlinkat = "unlinkat"
name newfstatat = "newfstatat"
name rt_sigaction = "rt_sigaction"
name rt_sigprocmask = "rt_sigprocmask"
name set_tid_address = "set_tid_address"
name set_robust_list = "set_robust_list"
name prlimit64 = "prlimit64"
name getrandom = "getrandom"
name exit = "exit"
name exit_group = "exit_group"
name (other value) = "unknown"

-- The arms of the match in `From<u64>`, in the order of the source.
unfoldable pub arms : List (ℕ × SyscallNumber)
arms =
    (0, read)
    ∷ (1, write)
    ∷ (19, readv)
    ∷ (20, writev)
    ∷ (2, open_file)
    ∷ (3, close)
    ∷ (4, stat)
    ∷ (5, fstat)
    ∷ (6, lstat)
    ∷ (7, poll)
    ∷ (9, mmap)
    ∷ (10, mprotect)
    ∷ (11, munmap)
    ∷ (12, brk)
    ∷ (13, rt_sigaction)
    ∷ (14, rt_sigprocmask)
    ∷ (15, rt_sigreturn)
    ∷ (16, ioctl)
    ∷ (21, access_file)
    ∷ (22, pipe)
    ∷ (23, select)
    ∷ (32, dup)
    ∷ (33, dup2)
    ∷ (35, nanosleep)
    ∷ (39, getpid)
    ∷ (40, sendfile)
    ∷ (56, clone)
    ∷ (57, fork)
    ∷ (58, vfork)
    ∷ (59, execve)
    ∷ (60, exit)
    ∷ (61, wait4)
    ∷ (62, kill)
    ∷ (63, uname)
    ∷ (72, fcntl)
    ∷ (83, mkdir)
    ∷ (84, rmdir)
    ∷ (87, unlink)
    ∷ (78, getdents)
    ∷ (79, getcwd)
    ∷ (80, chdir)
    ∷ (89, readlink)
    ∷ (99, sysinfo)
    ∷ (100, times)
    ∷ (102, getuid)
    ∷ (104, getgid)
    ∷ (107, geteuid)
    ∷ (108, getegid)
    ∷ (109, setpgid)
    ∷ (110, getppid)
    ∷ (111, getpgrp)
    ∷ (121, getpgid)
    ∷ (131, sigaltstack)
    ∷ (158, arch_prctl)
    ∷ (186, gettid)
    ∷ (217, getdents64)
    ∷ (218, set_tid_address)
    ∷ (228, clock_gettime)
    ∷ (231, exit_group)
    ∷ (257, openat)
    ∷ (258, mkdirat)
    ∷ (263, unlinkat)
    ∷ (262, newfstatat)
    ∷ (270, pselect6)
    ∷ (271, ppoll)
    ∷ (273, set_robust_list)
    ∷ (292, dup3)
    ∷ (293, pipe2)
    ∷ (302, prlimit64)
    ∷ (318, getrandom)
    ∷ []

-- The first arm that matches, and `other` behind the last.
unfoldable pub from_arms : ℕ → List (ℕ × SyscallNumber) → SyscallNumber
from_arms value [] = other value
from_arms value ((k, n) ∷ rest) = if value == k then n else from_arms value rest

unfoldable pub from_raw : ℕ → SyscallNumber
unfolding arms from_arms
from_raw value = from_arms value arms
