-- ===== src/ProcessTable/Exiting.antt =====
-- An exit that is recorded for a parent is seen by its `wait4`, once.
use ruxeon.Common.{
  ℕ, ◌≡◌, refl, ap, ◌∙◌, sym, ◌⊎◌, inl, inr, true, false, none, some, [], ◌∷◌, ◌++◌, ◌==◌, ==_iff,
  any, position-last, position-any, get_elem?-middle, remove_at-middle, Option-cases, if◌then◌else◌,
  arith,
}
use mathlib.Core.List.{append-nil}
use ruxeon.Common.Dict.{Dict, nat_eq, get, insert, remove, get-insert, get-remove}
use ruxeon.Process.{ExitStatus, WaitQueue, matches, pop_matching}
use ruxeon.ProcessTable.{
  ProcessTable, queue_of, or_default, push_exit, parent_of, exit_process, is_queued, record_exit,
  wait4,
}

is_queued-matches :
    (pid : ℕ) (queue : WaitQueue) → is_queued pid queue ≡ any (matches (some pid)) queue
is_queued-matches pid [] = refl
is_queued-matches pid ((k, s) ∷ queue) =
    ground (arith, is_queued-matches pid queue, ==_iff pid k, ==_iff k pid)

-- A request for a process that is not queued takes nothing.
pop_matching-missing :
    (pid : ℕ) (queue : WaitQueue)
    → is_queued pid queue ≡ false
    → pop_matching (some pid) queue ≡ none
unfolding pop_matching
pop_matching-missing pid queue h =
    let gone = position-any (matches (some pid)) queue (sym (is_queued-matches pid queue) ∙ h) in
    ground (arith, gone)

pop_matching-last :
    (pid : ℕ) (s : ExitStatus) (queue : WaitQueue)
    → is_queued pid queue ≡ false
    → pop_matching (some pid) (queue ++ (pid, s) ∷ []) ≡ some ((pid, s), queue)
unfolding pop_matching
pop_matching-last pid s queue h =
    let at =
      position-last (matches (some pid)) queue (pid, s) (sym (is_queued-matches pid queue) ∙ h)
        (ground (arith, ==_iff pid pid)) in
    ground (
      arith,
      at,
      get_elem?-middle queue (pid, s) [],
      remove_at-middle queue (pid, s) [],
      append-nil queue,
    )

is_queued-append :
    (pid : ℕ) (s : ExitStatus) (queue : WaitQueue) → is_queued pid (queue ++ (pid, s) ∷ []) ≡ true
is_queued-append pid s [] = ground (arith, ==_iff pid pid)
is_queued-append pid s (e ∷ queue) = ground (arith, is_queued-append pid s queue)

queue_of-push_exit :
    (p pid : ℕ) (s : ExitStatus) (queues : Dict ℕ WaitQueue)
    → get p (push_exit p pid s queues) ≡ some (queue_of p queues ++ (pid, s) ∷ [])
unfolding push_exit
queue_of-push_exit p pid s queues =
    ground (arith, get-insert p p (queue_of p queues ++ (pid, s) ∷ []) queues, ==_iff p p)

module _ {Machine Registers : Type 0} where
  -- Whoever the table holds as the parent, the exit is queued once.
  record_exit-queue :
      (p pid code : ℕ) (t : ProcessTable Machine Registers)
      → (parent_of pid t ≡ none) ⊎ (parent_of pid t ≡ some p)
      → is_queued pid (queue_of p t.wait_queues) ≡ false
      → get p (record_exit pid (some p) code t).wait_queues
        ≡ some (queue_of p t.wait_queues ++ (pid, record { code = code }) ∷ [])
  unfolding record_exit exit_process
  record_exit-queue p pid code t (inl orphan) h =
      ground (arith, orphan, h, queue_of-push_exit p pid (record { code = code }) t.wait_queues)
  record_exit-queue p pid code t (inr child) h = ground (
    arith,
    child,
    h,
    queue_of-push_exit p pid (record { code = code }) t.wait_queues,
    is_queued-append pid (record { code = code }) (queue_of p t.wait_queues),
  )

  wait4-queue :
      (p pid : ℕ) (t : ProcessTable Machine Registers) (q q' : WaitQueue) (s : ExitStatus)
      → get p t.wait_queues ≡ some q
      → pop_matching (some pid) q ≡ some ((pid, s), q')
      → ((wait4 p (some pid) t).0 ≡ some (pid, s))
        × ((wait4 p (some pid) t).1.wait_queues ≡ remove pid (insert p q' t.wait_queues))
  unfolding wait4
  wait4-queue p pid t q q' s h m = (ground (arith, h, m), ground (arith, h, m))

  wait4-missing :
      (p pid : ℕ) (t : ProcessTable Machine Registers)
      → is_queued pid (queue_of p t.wait_queues) ≡ false
      → (wait4 p (some pid) t).0 ≡ none
  unfolding wait4
  wait4-missing p pid t h = elim (Option-cases (get p t.wait_queues)) [
    | inl e ↦ ground (arith, e)
    | inr (q, e) ↦
        let m : pop_matching (some pid) q ≡ none =
          pop_matching-missing pid q (ap (λ o. is_queued pid (or_default o)) (sym e) ∙ h) in
        ground (arith, e, m)
  ]

  -- Where the table holds `p` or nobody as the parent of `pid`, and the exit of `pid` is not queued for `p` yet:
  -- after `record_exit`, a `wait4` of `p` for `pid` returns `pid` with the exit code, and a second one returns none.
  pub record_exit-wait4 :
      (p pid code : ℕ) (t : ProcessTable Machine Registers)
      → (parent_of pid t ≡ none) ⊎ (parent_of pid t ≡ some p)
      → is_queued pid (queue_of p t.wait_queues) ≡ false
      → ((wait4 p (some pid) (record_exit pid (some p) code t)).0
          ≡ some (pid, record { code = code }))
        × ((wait4 p (some pid) (wait4 p (some pid) (record_exit pid (some p) code t)).1).0 ≡ none)
  record_exit-wait4 p pid code t o h =
      let q = queue_of p t.wait_queues in
      let u = record_exit pid (some p) code t in
      let s : ExitStatus = record { code = code } in
      let first =
        wait4-queue p pid u (q ++ (pid, s) ∷ []) q s (record_exit-queue p pid code t o h)
          (pop_matching-last pid s q h) in
      let u' = (wait4 p (some pid) u).1 in
      let at : get p (u'.wait_queues) ≡ (if pid == p then none else some q) = ground (
        arith,
        ap (get p) (first.1),
        get-remove p pid (insert p q u.wait_queues),
        get-insert p p q u.wait_queues,
        ==_iff p p,
      ) in
      let absent : is_queued pid (queue_of p (u'.wait_queues)) ≡ false = ground (arith, at, h) in
      (first.0, wait4-missing p pid u' absent)
