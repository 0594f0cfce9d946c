-- ===== src/Cpu/Outcomes.antt =====
-- What a block of instructions may end with.
use ruxeon.Common.{
  ℕ, suc, List, [], ◌∷◌, not, ◌==◌, inl, inr, Bool, true, false, Option, none, some, if◌then◌else◌,
  Result, Result-cases, ok, err,
}
use mathlib.Core.Path.{subst}
use ruxeon.Ir.{IrInstruction}
use ruxeon.Cpu.State.{
  CpuError, Instruction, Interpreter, StepOutcome, go_on, trap, halted, Action, pure, fail, gets,
  with_registers, ◌>>=◌, ◌>>◌,
}
use ruxeon.Cpu.Transfers.{Flow, next, jumped, trapped}
use ruxeon.Cpu.Environment.{handle_vsyscall}
use ruxeon.Cpu.Execute.{execute, execute_mnemonic}
use ruxeon.Cpu.Blocks.{
  Decoder, Clock, executing, is_compute, cached_block, run_instructions, step_block,
}

-- What an action yields, where it does not fail.
abbrev pub Satisfies : {A : Type 0} → (A → Type 0) → Result CpuError A → Type 0
Satisfies P (ok a) = P a
Satisfies P (err e) = Unit

pub record Yields {A : Type 0} (P : A → Type 0) (m : Action A) : Type 0 where
  pub yields : (s : Interpreter) → Satisfies P (m s).0

module _ {A : Type 0} {P : A → Type 0} where
  fail-Yields : (e : CpuError) → Yields P (fail e)
  fail-Yields e = record { yields = λ s. tt }

  pure-Yields : (a : A) → P a → Yields P (pure a)
  pure-Yields a h = record { yields = λ s. h }

  if-Yields : (b : Bool) (m k : Action A) → Yields P m → Yields P k → Yields P (if b then m else k)
  if-Yields true m k h h' = h
  if-Yields false m k h h' = h'

  bind-Yields :
      {B : Type 0} (m : Action B) (f : B → Action A)
      → ((b : B) → Yields P (f b))
      → Yields P (m >>= f)
  bind-Yields m f h = record {
    yields = λ s. elim (Result-cases ((m s).0)) [
      | inl (a, e) ↦ rw (e, ◌>>=◌) ((h a).yields ((m s).1))
      | inr (x, e) ↦ rw (e, ◌>>=◌) tt
    ];
  }

  bind_with-Yields :
      {B : Type 0} {Q : B → Type 0} (m : Action B) (f : B → Action A)
      → Yields Q m
      → ((b : B) → Q b → Yields P (f b))
      → Yields P (m >>= f)
  bind_with-Yields {B} {Q} m f k h = record {
    yields = λ s. elim (Result-cases ((m s).0)) [
      | inl (a, e) ↦ rw (e, ◌>>=◌) ((h a (subst (Satisfies Q) e (k.yields s))).yields ((m s).1))
      | inr (x, e) ↦ rw (e, ◌>>=◌) tt
    ];
  }

abbrev pub IsGoing : StepOutcome → Type 0
IsGoing go_on = Unit
IsGoing (trap t) = Unit
IsGoing (halted code) = ⊥

abbrev pub IsGoingOption : Option StepOutcome → Type 0
IsGoingOption none = Unit
IsGoingOption (some outcome) = IsGoing outcome

ruleset yielding = (pure-Yields, fail-Yields, if-Yields, bind-Yields)

handle_vsyscall-Yields :
    (seconds micros : ℕ) → Yields IsGoingOption (handle_vsyscall seconds micros)
unfolding handle_vsyscall
handle_vsyscall-Yields seconds micros = search (yielding, tt) depth 14

executing-Yields :
    (ip : ℕ) (m : Action StepOutcome) → Yields IsGoing m → Yields IsGoing (executing ip m)
executing-Yields ip m h = record {
  yields = λ s. elim (Result-cases ((m s).0)) [
    | inl (a, e) ↦ rw (e, executing) (subst (Satisfies IsGoing) e (h.yields s))
    | inr (x, e) ↦ rw (e, executing) tt
  ];
}

module _ (ticks : ℕ) (other : Instruction → Action Flow) where
  execute-Yields : (i : Instruction) → Yields IsGoing (execute ticks other i)
  unfolding execute
  execute-Yields i =
      let after : Flow → Action StepOutcome = λ flow. elim flow [
        | next ↦ (do with_registers (λ r. record r { rip = i.next_ip }); pure go_on)
        | jumped ↦ pure go_on
        | trapped t ↦ pure (trap t)
      ] in
      bind-Yields (execute_mnemonic ticks other i.mnemonic i) after (λ flow.
        elim flow as (λ f. Yields IsGoing (after f)) [
          | next ↦
              bind-Yields (with_registers (λ r. record r { rip = i.next_ip })) (λ u. pure go_on)
                (λ u. pure-Yields go_on tt)
          | jumped ↦ pure-Yields go_on tt
          | trapped t ↦ pure-Yields (trap t) tt
        ])

module _ (decoder : Decoder) (other : Instruction → Action Flow) where
  run_instructions-Yields :
      (clock : ℕ → Clock) (n : ℕ) (is : List Instruction) (irs : List IrInstruction)
      → Yields IsGoing (run_instructions decoder other clock n is irs)
  unfolding run_instructions
  run_instructions-Yields clock n [] irs = pure-Yields go_on tt
  run_instructions-Yields clock n (i ∷ rest) [] = search (yielding, tt) depth 8
  run_instructions-Yields clock n (i ∷ rest) (ir ∷ irs) =
      let more = run_instructions decoder other clock (suc n) rest irs in
      let goes = run_instructions-Yields clock (suc n) rest irs in
      let after : StepOutcome → Action StepOutcome = λ outcome. elim outcome [
        | go_on ↦ if is_compute ir.kind then more else pure go_on
        | trap t ↦ pure (trap t)
        | halted code ↦ pure (halted code)
      ] in
      let ran = executing i.ip (execute ((clock n).ticks) other i) in
      let outcome_goes : (outcome : StepOutcome)
          → IsGoing outcome
          → Yields IsGoing (after outcome) =
        λ outcome. elim outcome as (λ o. IsGoing o → Yields IsGoing (after o)) [
          | go_on ↦ λ h. if-Yields (is_compute ir.kind) _ _ goes (pure-Yields go_on tt)
          | trap t ↦ λ h. pure-Yields (trap t) tt
          | halted code ↦ λ h. elim h [ ]
        ] in
      bind-Yields (gets (λ s. s.registers.rip))
        (λ ip. if not (ip == i.ip) then pure go_on else ran >>= after)
        (λ ip. if-Yields (not (ip == i.ip)) (pure go_on) (ran >>= after) (pure-Yields go_on tt) (
          bind_with-Yields ran after
            (executing-Yields i.ip (execute ((clock n).ticks) other i)
              (execute-Yields ((clock n).ticks) other i))
            outcome_goes))

  -- A block never halts the machine: where it succeeds, the program goes on or has asked for a system call.
  pub step_block-Yields : (clock : ℕ → Clock) → Yields IsGoing (step_block decoder other clock)
  unfolding step_block
  step_block-Yields clock =
      let block = (do
        ip ← gets (λ s. s.registers.rip)
        found ← cached_block decoder other ip
        run_instructions decoder other clock 0 found.1 found.0.instructions) in
      let block_goes : Yields IsGoing block = bind-Yields (gets (λ s. s.registers.rip)) _ (λ ip.
        bind-Yields (cached_block decoder other ip) _
          (λ found. run_instructions-Yields clock 0 found.1 found.0.instructions)) in
      let settled : Option StepOutcome → Action StepOutcome =
        λ handled. elim handled [ some outcome ↦ pure outcome | none ↦ block ] in
      bind_with-Yields (handle_vsyscall ((clock 0).seconds) ((clock 0).micros)) settled
        (handle_vsyscall-Yields ((clock 0).seconds) ((clock 0).micros))
        (λ handled. elim handled as (λ o. IsGoingOption o → Yields IsGoing (settled o)) [
          | some outcome ↦ λ h. pure-Yields outcome h
          | none ↦ λ h. block_goes
        ])
