-- ===== src/ProcessTable/Waiting.antt =====
-- Exits are queued for the parent and reaped by `wait4`, each once.
use ruxeon.Common.{
  ℕ, ◌≡◌, ap, ◌∙◌, inl, inr, true, false, Option, none, some, ◌∷◌, ◌++◌, ◌==◌, All, position,
  get_elem?, remove_at, position-IsFound, get_elem?-middle, remove_at-middle, Option-cases,
  if◌then◌else◌, arith,
}
use ruxeon.Common.Dict.{
  nat_eq, get, insert, remove, modify, get-insert, get-remove, get-modify, map_some,
}
use ruxeon.Process.{ExitStatus, WaitQueue, matches, pop_matching}
use ruxeon.ProcessTable.{ProcessTable, queue_of, forget_child, wait4}

-- The oldest entry that a request matches is taken out; the others keep their order.
pub record IsPopped (requested : Option ℕ) (queue queue' : WaitQueue) (e : ℕ × ExitStatus)
    : Type 0 where
  pub before : WaitQueue
  pub behind : WaitQueue
  pub split : queue ≡ before ++ e ∷ behind
  pub earlier : All (λ x. matches requested x ≡ false) before
  pub matched : matches requested e ≡ true
  pub left : queue' ≡ before ++ behind

pub pop_matching-IsPopped :
    (requested : Option ℕ) (queue : WaitQueue) {e : ℕ × ExitStatus} {queue' : WaitQueue}
    → pop_matching requested queue ≡ some (e, queue')
    → IsPopped requested queue queue' e
unfolding pop_matching
pop_matching-IsPopped requested queue {e} {queue'} h =
    elim (Option-cases (position (matches requested) queue)) [
      | inl missing ↦ absurd (ground (arith, h, missing))
      | inr (i, k) ↦
          let f = position-IsFound (matches requested) queue i k in
          let at : get_elem? queue i ≡ some (f.found) =
            rw (f.split, ← f.index) (get_elem?-middle f.before f.found f.behind) in
          let gone : remove_at i queue ≡ f.before ++ f.behind =
            rw (f.split, ← f.index) (remove_at-middle f.before f.found f.behind) in
          let same : f.found ≡ e = ground (arith, h, k, at) in
          record {
            before = f.before;
            behind = f.behind;
            split = f.split ∙ ap (λ x. f.before ++ x ∷ f.behind) same;
            earlier = f.earlier;
            matched = rw same at f.passes;
            left = ground (arith, h, k, at, gone);
          }
    ]

module _ {Machine Registers : Type 0} where
  -- What `wait4` changes when it returns a child.
  pub record IsReaped (parent : ℕ) (requested : Option ℕ) (t t' : ProcessTable Machine Registers)
      (e : ℕ × ExitStatus) : Type 0 where
    pub queue : WaitQueue
    pub popped : IsPopped requested (queue_of parent t.wait_queues) queue e
    pub queues_after :
        (k : ℕ)
        → get k t'.wait_queues
          ≡ (if e.0 == k then none else if parent == k then some queue else get k t.wait_queues)
    pub records_after :
        (k : ℕ)
        → get k t'.records ≡ (
            if parent == k
            then map_some (forget_child e.0) (if e.0 == k then none else get k t.records)
            else if e.0 == k
            then none
            else get k t.records)

  -- A child that `wait4` returns is the oldest one in the parent's queue that was asked for. It leaves the queue,
  -- its record and its own queue are gone, the parent's record no longer lists it, and all other records and
  -- queues are as before.
  pub wait4-IsReaped :
      (parent : ℕ) (requested : Option ℕ) (t : ProcessTable Machine Registers) {e : ℕ × ExitStatus}
      {t' : ProcessTable Machine Registers}
      → wait4 parent requested t ≡ (some e, t')
      → IsReaped parent requested t t' e
  unfolding wait4
  wait4-IsReaped parent requested t {e} {t'} h = elim (Option-cases (get parent t.wait_queues)) [
    | inl none_queued ↦ absurd (ground (arith, h, none_queued))
    | inr (q, k) ↦ elim (Option-cases (pop_matching requested q)) [
      | inl unmatched ↦ absurd (ground (arith, h, k, unmatched))
      | inr ((e', q'), m) ↦
          let same : e' ≡ e = ground (arith, h, k, m) in
          let queues : t'.wait_queues ≡ remove (e.0) (insert parent q' t.wait_queues) =
            ground (arith, h, k, m) in
          let records : t'.records ≡ modify parent (forget_child e.0) (remove (e.0) t.records) =
            ground (arith, h, k, m) in
          let queue_at : (j : ℕ)
              → get j t'.wait_queues ≡ (
                  if e.0 == j then none else if parent == j then some q' else get j t.wait_queues) =
            λ j. ground (
              arith,
              ap (get j) queues,
              get-remove j (e.0) (insert parent q' t.wait_queues),
              get-insert j parent q' t.wait_queues,
            ) in
          let record_at : (j : ℕ)
              → get j t'.records ≡ (
                  if parent == j
                  then map_some (forget_child e.0) (if e.0 == j then none else get j t.records)
                  else if e.0 == j
                  then none
                  else get j t.records) =
            λ j. ground (
              arith,
              ap (get j) records,
              get-modify j parent (forget_child e.0) (remove (e.0) t.records),
              get-remove j (e.0) t.records,
            ) in
          record {
            queue = q';
            popped = ground (arith, k, same, pop_matching-IsPopped requested q m);
            queues_after = queue_at;
            records_after = record_at;
          }
    ]
  ]
