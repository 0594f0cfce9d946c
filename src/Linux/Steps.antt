-- ===== src/Linux/Steps.antt =====
-- What a successful step of a system call has gone through.
use ruxeon.Common.{
  ◌≡◌, refl, sym, ap, ◌∙◌, inl, inr, Bool, true, false, arith, Result-cases, ok, err,
}
use ruxeon.Common.Actions.{Action, ◌>>=◌}
use ruxeon.Memory.{GuestMemory, Outcome}
use ruxeon.Errno.{Errno}
use ruxeon.Linux.State.{System, with_memory, fail_when}

-- A successful sequence, taken apart for the rest of a proof.
pub action-ok {κ} :
    {S E A B : Type 0} (m : Action S E A) (f : A → Action S E B) (s : S) {b : B} {s' : S}
    {P : Type κ}
    → (m >>= f) s ≡ (ok b, s')
    → ((a : A) (t : S) → m s ≡ (ok a, t) → f a t ≡ (ok b, s') → P)
    → P
action-ok m f s {b = b} {s' = s'} h k = elim (Result-cases ((m s).0)) [
  | inl (a, done) ↦
      k a ((m s).1) (ap (λ r. (r, (m s).1)) done)
        (ap (λ r. elim r [ ok a ↦ f a ((m s).1) | err e ↦ (err e, (m s).1) ]) (sym done) ∙ h)
  | inr (e, failed) ↦ ground (arith, h, failed)
]

module _ {File World : Type 0} where
  pub with_memory-ok :
      (f : GuestMemory → Outcome) (s : System File World) {u : Unit {0}} {s' : System File World}
      → with_memory f s ≡ (ok u, s')
      → (f s.memory ≡ (ok tt, s'.memory)) × (s' ≡ record s { memory = s'.memory })
  with_memory-ok f s {s' = s'} h = elim (Result-cases ((f s.memory).0)) [
    | inl (t, done) ↦
        let same : s'.memory ≡ (f s.memory).1 = ground (arith, h, done) in
        (
          ap (λ r. (r, (f s.memory).1)) done ∙ ap (λ m. (ok tt, m)) (sym same),
          ground (arith, h, done, same),
        )
    | inr (e, failed) ↦ ground (arith, h, failed)
  ]

  pub fail_when-ok :
      (c : Bool) (e : Errno) (s : System File World) {u : Unit {0}} {s' : System File World}
      → fail_when c e s ≡ (ok u, s')
      → (c ≡ false) × (s ≡ s')
  fail_when-ok true e s h = ground (arith, h)
  fail_when-ok false e s h = (refl, ground (arith, h))
