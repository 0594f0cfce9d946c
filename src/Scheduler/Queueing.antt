-- ===== src/Scheduler/Queueing.antt =====
-- The queue behind a walk over records.
use ruxeon.Common.{ℕ, ◌≡◌, inl, inr, true, some, List, [], ◌∷◌, arith, ◌==◌, Bool-cases}
use mathlib.Core.Path.{subst}
use ruxeon.Common.Dict.{nat_eq, Dict, get}
use ruxeon.Process.{LinuxThread, ProcessRecord}
use ruxeon.Scheduler.{Entry, is_runnable, enqueue, enqueue_threads, enqueue_process}
use ruxeon.Scheduler.RoundRobin.{is_in, is_in-append}

enqueue_keeps :
    (e x : Entry) (queue : List Entry) → is_in e queue ≡ true → is_in e (enqueue x queue) ≡ true
unfolding enqueue
enqueue_keeps e x queue h = ground (arith, is_in-append e x queue, h)

enqueue_adds : (e : Entry) (queue : List Entry) → is_in e (enqueue e queue) ≡ true
unfolding enqueue
enqueue_adds e queue = elim (Bool-cases (is_in e queue)) [
  | inl old ↦ rw old old
  | inr new ↦ rw new (ground (arith, is_in-append e e queue))
]

module _ {Registers : Type 0} where
  threads_keep :
      (e : Entry) (threads : Dict ℕ (LinuxThread Registers)) (queue : List Entry)
      → is_in e queue ≡ true
      → is_in e (enqueue_threads threads queue) ≡ true
  unfolding enqueue_threads
  threads_keep e [] queue h = h
  threads_keep e ((tid, t) ∷ threads) queue h = elim (Bool-cases (is_runnable t.state)) [
    | inl runs ↦ rw runs (threads_keep e threads _ (enqueue_keeps e (t.process_id, t.tid) queue h))
    | inr stopped ↦ rw stopped (threads_keep e threads queue h)
  ]

  threads_add :
      (tid : ℕ) (t : LinuxThread Registers) (threads : Dict ℕ (LinuxThread Registers))
      (queue : List Entry)
      → get tid threads ≡ some t
      → is_runnable t.state ≡ true
      → is_in (t.process_id, t.tid) (enqueue_threads threads queue) ≡ true
  unfolding get enqueue_threads
  threads_add tid t [] queue h r = ground (arith, h)
  threads_add tid t ((k, u) ∷ threads) queue h r = elim (Bool-cases (k == tid)) [
    | inl here ↦
        let same : u ≡ t = ground (arith, h, here) in
        let runs : is_runnable u.state ≡ true = rw same r in
        subst (λ v. is_in (v.process_id, v.tid) (enqueue_threads ((k, u) ∷ threads) queue) ≡ true)
          same
          (rw runs (
            threads_keep (u.process_id, u.tid) threads _
              (enqueue_adds (u.process_id, u.tid) queue)))
    | inr there ↦ threads_add tid t threads _ (ground (arith, h, there)) r
  ]

module _ {Machine Registers : Type 0} where
  -- Every thread of the records that may run stands in the queue.
  abbrev pub IsQueued : Dict ℕ (ProcessRecord Machine Registers) → List Entry → Type 0
  IsQueued records queue =
      (pid tid : ℕ) (r : ProcessRecord Machine Registers) (t : LinuxThread Registers)
      → get pid records ≡ some r
      → get tid r.threads ≡ some t
      → is_runnable t.state ≡ true
      → is_in (t.process_id, t.tid) queue ≡ true

  pub process_adds :
      (tid : ℕ) (r : ProcessRecord Machine Registers) (t : LinuxThread Registers)
      (queue : List Entry)
      → get tid r.threads ≡ some t
      → is_runnable t.state ≡ true
      → is_in (t.process_id, t.tid) (enqueue_process r queue) ≡ true
  unfolding enqueue_process
  process_adds tid r t queue h runs = threads_add tid t r.threads queue h runs

  pub process_keeps :
      (e : Entry) (r : ProcessRecord Machine Registers) (queue : List Entry)
      → is_in e queue ≡ true
      → is_in e (enqueue_process r queue) ≡ true
  unfolding enqueue_process
  process_keeps e r queue h = threads_keep e r.threads queue h
