-- ===== src/Linux/Keeping.antt =====
-- What the steps of a system call leave of the process as it is.
pub mod Basics
pub mod Transfer
pub mod Paths
pub mod Handlers
use ruxeon.Common.{
  ◌≡◌, refl, ◌∙◌, inl, inr, Bool, true, false, Option, none, some, if◌then◌else◌, Result,
  Result-cases,
}
use ruxeon.Common.Actions.{pure, fail, gets, of_result, ◌>>=◌}
use ruxeon.Region.{GuestMemoryError}
use ruxeon.Memory.{GuestMemory, Outcome}
use ruxeon.Errno.{Errno, SyscallError}
use ruxeon.FdTable.{FdTable}
use ruxeon.FdIo.{Files}
use ruxeon.Linux.Os.{IoErrorKind}
use ruxeon.Linux.State.{
  LinuxProcess, System, Handler, with_process, with_memory, from_memory, with_files, with_table,
  from_world, with_world, fail_when,
}

-- Who the process is, what it runs and where, and what has been traced so far.
pub record Same {File : Type 0} (p q : LinuxProcess File) : Type 0 where
  pub pid : q.pid ≡ p.pid
  pub tid : q.tid ≡ p.tid
  pub ppid : q.ppid ≡ p.ppid
  pub rootfs : q.rootfs ≡ p.rootfs
  pub executable_path : q.executable_path ≡ p.executable_path
  pub brk_base : q.brk_base ≡ p.brk_base
  pub trace : q.trace ≡ p.trace

module _ {File : Type 0} where
  pub Same-refl : (p : LinuxProcess File) → Same p p
  Same-refl p = record {
    pid = refl;
    tid = refl;
    ppid = refl;
    rootfs = refl;
    executable_path = refl;
    brk_base = refl;
    trace = refl;
  }

  pub with_table-Same :
      (p : LinuxProcess File) (t : FdTable File) → Same p (record p { fd_table = t })
  with_table-Same p t = record {
    pid = refl;
    tid = refl;
    ppid = refl;
    rootfs = refl;
    executable_path = refl;
    brk_base = refl;
    trace = refl;
  }

  pub if-Same :
      {World A : Type 0} (p : LinuxProcess File) (c : Bool) (x y : A × System File World)
      → Same p x.1.process
      → Same p y.1.process
      → Same p (if c then x else y).1.process
  if-Same p true x y h k = h
  if-Same p false x y h k = k

  pub elim_Option-Same :
      {World A B : Type 0} (p : LinuxProcess File) (o : Option B) (x : A × System File World)
      (f : B → A × System File World)
      → Same p x.1.process
      → ((b : B) → Same p (f b).1.process)
      → Same p (elim o as (λ _. A × System File World) [ none ↦ x | some b ↦ f b ]).1.process
  elim_Option-Same p none x f h k = h
  elim_Option-Same p (some b) x f h k = k b

  pub Same-trans : {p q r : LinuxProcess File} → Same p q → Same q r → Same p r
  Same-trans h k = record {
    pid = k.pid ∙ h.pid;
    tid = k.tid ∙ h.tid;
    ppid = k.ppid ∙ h.ppid;
    rootfs = k.rootfs ∙ h.rootfs;
    executable_path = k.executable_path ∙ h.executable_path;
    brk_base = k.brk_base ∙ h.brk_base;
    trace = k.trace ∙ h.trace;
  }

-- Whether it succeeds or fails, the step leaves that as it is.
pub record Keeps {File World A : Type 0} (m : Handler File World A) : Type 0 where
  pub keeps : (s : System File World) → Same s.process (m s).1.process

module _ {File World A : Type 0} where
  pub pure-Keeps : (a : A) → Keeps {File = File} {World = World} (pure a)
  pure-Keeps a = record { keeps = λ s. Same-refl s.process }

  pub fail-Keeps : (e : SyscallError) → Keeps {File = File} {World = World} {A = A} (fail e)
  fail-Keeps e = record { keeps = λ s. Same-refl s.process }

  pub of_result-Keeps :
      (r : Result SyscallError A) → Keeps {File = File} {World = World} (of_result r)
  of_result-Keeps r = record { keeps = λ s. Same-refl s.process }

  pub gets-Keeps : (f : System File World → A) → Keeps (gets f)
  gets-Keeps f = record { keeps = λ s. Same-refl s.process }

  pub from_memory-Keeps :
      (f : GuestMemory → Result GuestMemoryError A)
      → Keeps {File = File} {World = World} (from_memory f)
  from_memory-Keeps f = record {
    keeps = λ s. elim (Result-cases (f s.memory)) [
      | inl (a, e) ↦ rw (e, from_memory) (Same-refl s.process)
      | inr (x, e) ↦ rw (e, from_memory) (Same-refl s.process)
    ];
  }

  pub from_world-Keeps :
      (f : World → Result IoErrorKind A) → Keeps {File = File} {World = World} (from_world f)
  from_world-Keeps f = record { keeps = λ s. Same-refl s.process }

  pub with_world-Keeps :
      (f : World → Result IoErrorKind A × World)
      → Keeps {File = File} {World = World} (with_world f)
  with_world-Keeps f = record { keeps = λ s. Same-refl s.process }

  pub with_files-Keeps :
      (f : Files File World → Result SyscallError A × Files File World) → Keeps (with_files f)
  with_files-Keeps f = record { keeps = λ s. with_table-Same s.process _ }

  pub with_table-Keeps :
      (f : World → FdTable File → Result SyscallError (A × FdTable File)) → Keeps (with_table f)
  with_table-Keeps f = record {
    keeps = λ s. elim (Result-cases (f s.world s.process.fd_table)) [
      | inl ((a, t), e) ↦ rw (e, with_table) (with_table-Same s.process t)
      | inr (x, e) ↦ rw (e, with_table) (Same-refl s.process)
    ];
  }

  pub if-Keeps :
      (c : Bool) (m n : Handler File World A) → Keeps m → Keeps n → Keeps (if c then m else n)
  if-Keeps true m n h k = h
  if-Keeps false m n h k = k

  pub elim_Bool-Keeps :
      (c : Bool) (m n : Handler File World A)
      → Keeps m
      → Keeps n
      → Keeps (elim c [ true ↦ m | false ↦ n ])
  elim_Bool-Keeps true m n h k = h
  elim_Bool-Keeps false m n h k = k

  pub elim_Option-Keeps :
      {B : Type 0} (o : Option B) (m : Handler File World A) (f : B → Handler File World A)
      → Keeps m
      → ((b : B) → Keeps (f b))
      → Keeps (elim o [ none ↦ m | some b ↦ f b ])
  elim_Option-Keeps none m f h k = h
  elim_Option-Keeps (some b) m f h k = k b

module _ {File World A B : Type 0} where
  pub bind-Keeps :
      (m : Handler File World A) (f : A → Handler File World B)
      → Keeps m
      → ((a : A) → Keeps (f a))
      → Keeps (m >>= f)
  bind-Keeps m f h k = record {
    keeps = λ s. elim (Result-cases ((m s).0)) [
      | inl (a, e) ↦ rw (e, ◌>>=◌) (Same-trans (h.keeps s) ((k a).keeps ((m s).1)))
      | inr (x, e) ↦ rw (e, ◌>>=◌) (h.keeps s)
    ];
  }

module _ {File World : Type 0} where
  pub with_memory-Keeps :
      (f : GuestMemory → Outcome) → Keeps {File = File} {World = World} (with_memory f)
  with_memory-Keeps f = record {
    keeps = λ s. elim (Result-cases ((f s.memory).0)) [
      | inl (a, e) ↦ rw (e, with_memory) (Same-refl s.process)
      | inr (x, e) ↦ rw (e, with_memory) (Same-refl s.process)
    ];
  }

  pub with_process-Keeps :
      (f : LinuxProcess File → LinuxProcess File)
      → ((p : LinuxProcess File) → Same p (f p))
      → Keeps {File = File} {World = World} (with_process f)
  with_process-Keeps f h = record { keeps = λ s. h s.process }

  pub fail_when-Keeps : (c : Bool) (e : Errno) → Keeps {File = File} {World = World} (fail_when c e)
  fail_when-Keeps true e = record { keeps = λ s. Same-refl s.process }
  fail_when-Keeps false e = record { keeps = λ s. Same-refl s.process }

pub ruleset keeping = (
  pure-Keeps, fail-Keeps, of_result-Keeps, gets-Keeps, from_memory-Keeps, from_world-Keeps,
  with_world-Keeps, with_files-Keeps, with_table-Keeps, with_memory-Keeps, fail_when-Keeps,
  if-Keeps, elim_Bool-Keeps, elim_Option-Keeps, bind-Keeps,
)
