-- ===== src/Scheduler/RoundRobin.antt =====
-- The scheduler picks threads that may run, in turn, and drops no other ones.
use ruxeon.Common.{
  ℕ, zero, suc, ◌≡◌, refl, ap, ◌∙◌, sym, inl, inr, Bool, true, false, ◌&&◌, ◌||◌, Option, none,
  some, List, [], ◌∷◌, ◌++◌, ◌==◌, any, All, length, Bool-cases, arith,
}
use mathlib.Core.List.{append_assoc, append-nil}
use mathlib.Core.Path.{subst}
use ruxeon.ProcessTable.{ProcessTable}
use ruxeon.Scheduler.{Entry, enqueue, may_run, next_thread}

module _ {Machine Registers : Type 0} (table : ProcessTable Machine Registers) where
  -- What a turn has done to the queue.
  pub record IsTurn (queue queue' : List Entry) (e : Entry) : Type 0 where
    pub skipped : List Entry
    pub rest : List Entry
    pub split : queue ≡ skipped ++ e ∷ rest
    pub stopped : All (λ x. may_run table x ≡ false) skipped
    pub runs : may_run table e ≡ true
    pub requeued : queue' ≡ rest ++ e ∷ []

  -- The outcome of `next_thread`, for either result.
  abbrev pub Picks : List Entry → Option Entry × List Entry → Type 0
  Picks queue (none, queue') = All (λ x. may_run table x ≡ false) queue × (queue' ≡ [])
  Picks queue (some e, queue') = IsTurn queue queue' e

  Picks-skip :
      (x : Entry) (queue : List Entry) (r : Option Entry × List Entry)
      → may_run table x ≡ false
      → Picks queue r
      → Picks (x ∷ queue) r
  Picks-skip x queue (none, queue') h p = ((h, p.0), p.1)
  Picks-skip x queue (some e, queue') h p = record {
    skipped = x ∷ p.skipped;
    rest = p.rest;
    split = ap (λ t. x ∷ t) p.split;
    stopped = (h, p.stopped);
    runs = p.runs;
    requeued = p.requeued;
  }

  -- `next_thread` returns the first entry of the queue that may run and puts it behind the others; the entries
  -- before it, which may not run, are gone. It returns none exactly when no entry may run, and the queue is
  -- then empty.
  pub next_thread-Picks : (queue : List Entry) → Picks queue (next_thread table queue)
  unfolding next_thread
  next_thread-Picks [] = (tt, refl)
  next_thread-Picks (e ∷ queue) = elim (Bool-cases (may_run table e)) [
    | inl runs ↦
        rw (runs, next_thread)
          (record {
            skipped = [];
            rest = queue;
            split = refl;
            stopped = tt;
            runs = runs;
            requeued = refl;
          })
    | inr stopped ↦
        rw (stopped, next_thread)
          (Picks-skip e queue (next_thread table queue) stopped (next_thread-Picks queue))
  ]

  -- The threads picked in a number of turns while the table stays the same, and the queue behind them.
  pub turns : ℕ → List Entry → List Entry × List Entry
  turns zero queue = ([], queue)
  turns (suc n) queue =
      let (picked, queue') = next_thread table queue in
      let (later, final) = turns n queue' in
      elim picked [ none ↦ ([], queue') | some e ↦ (e ∷ later, final) ]

  round :
      (xs ys : List Entry)
      → All (λ x. may_run table x ≡ true) xs
      → turns (length xs) (xs ++ ys) ≡ (xs, ys ++ xs)
  unfolding turns
  round [] ys h = ap (λ t. ([], t)) (sym (append-nil ys))
  round (x ∷ xs) ys h =
      let first : next_thread table (x ∷ (xs ++ ys)) ≡ (some x, xs ++ (ys ++ x ∷ [])) =
        picked (xs ++ ys) h.0 ∙ ap (λ t. (some x, t)) (append_assoc xs ys (x ∷ [])) in
      let later = round xs (ys ++ x ∷ []) h.1 in
      let final = append_assoc ys (x ∷ []) xs in ground (arith, first, later, final)
    where
      picked :
          (queue : List Entry)
          → may_run table x ≡ true
          → next_thread table (x ∷ queue) ≡ (some x, queue ++ x ∷ [])
      picked queue h = unfold next_thread in ground (arith, h)

  -- Round robin: where all threads of the queue may run, as many turns as there are threads pick each of them once,
  -- in the order of the queue, and leave the queue as it was.
  pub turns_round :
      (queue : List Entry)
      → All (λ x. may_run table x ≡ true) queue
      → turns (length queue) queue ≡ (queue, queue)
  turns_round queue h =
      subst (λ q. turns (length queue) q ≡ (queue, queue)) (append-nil queue) (round queue [] h)

-- No entry stands twice in the queue.
abbrev pub is_in : Entry → List Entry → Bool
is_in (pid, tid) queue = any (λ e. e.0 == pid && e.1 == tid) queue

abbrev pub IsDistinct : List Entry → Type 0
IsDistinct [] = Unit
IsDistinct (e ∷ queue) = (is_in e queue ≡ false) × IsDistinct queue

pub is_in-append :
    (e x : Entry) (queue : List Entry)
    → is_in e (queue ++ x ∷ []) ≡ (is_in e queue || (x.0 == e.0 && x.1 == e.1))
is_in-append e x [] = ground arith
is_in-append e x (y ∷ queue) = ground (arith, is_in-append e x queue)

append-IsDistinct :
    (e : Entry) (queue : List Entry)
    → IsDistinct queue
    → is_in e queue ≡ false
    → IsDistinct (queue ++ e ∷ [])
append-IsDistinct e [] h n = (refl, tt)
append-IsDistinct e (x ∷ queue) h n =
    ground (arith, append-IsDistinct e queue h.1, is_in-append x e queue, h.0)

-- `enqueue` leaves a queue in which no entry stands twice without such an entry.
pub enqueue-IsDistinct :
    (e : Entry) (queue : List Entry) → IsDistinct queue → IsDistinct (enqueue e queue)
unfolding enqueue
enqueue-IsDistinct e queue h = elim (Bool-cases (is_in e queue)) [
  | inl old ↦ rw old h
  | inr new ↦ rw new (append-IsDistinct e queue h new)
]
