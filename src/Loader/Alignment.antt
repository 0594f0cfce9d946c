-- ===== src/Loader/Alignment.antt =====
-- The initial stack: its bounds and where its pointer stands.
use ruxeon.Common.{
  ℕ, ◌+◌, ◌-◌, ◌*◌, ◌%◌, ◌/◌, ◌≤◌, ◌≡◌, ◌∙◌, ◌↔◌, List, [], ◌∷◌, ◌++◌, length, ltb, Result, ok,
  fail_if, bind-ok, fail_if-ok, arith,
}
use ruxeon.Common.Bits.{bit_and_step}
use ruxeon.Common.Words.{u64_mod, to_le_bytes, length-to_le_bytes}
use ruxeon.Access.{write_bytes}
use ruxeon.Loader.{LoaderError, stack_overflow, AuxEntry, align_down, loaded}
use ruxeon.Loader.InitialStack.{
  Stack, StackAuxInput, push_bytes, push_c_string, push_u64, push_strings, push_words, auxiliary,
  aux_words, first_or_empty, random_bytes, aligned, build,
}

-- The pointer has gone down by `n` bytes and the floor is as before.
record IsBelow (n : ℕ) (s s' : Stack) : Type 0 where
  down : s'.sp + n ≡ s.sp
  same_floor : s'.floor ≡ s.floor

push_bytes-IsBelow :
    (bytes : List ℕ) (s : Stack) {s' : Stack}
    → push_bytes bytes s ≡ ok s'
    → IsBelow (length bytes) s s' × (s.floor ≤ s'.sp)
unfolding push_bytes
push_bytes-IsBelow bytes s {s'} h =
    bind-ok (fail_if (ltb s.sp (length bytes)) stack_overflow) _ h λ t p q.
      bind-ok (fail_if (ltb (s.sp - length bytes) s.floor) stack_overflow) _ q λ t' p' q'.
        bind-ok (loaded (write_bytes (s.sp - length bytes) bytes s.memory)) _ q' λ m e done.
          let fits = fail_if-ok _ _ p in
          let above = fail_if-ok _ _ p' in
          (
            record { down = ground (arith, fits, done); same_floor = ground (arith, done) },
            ground (arith, above, done),
          )

push_u64-IsBelow :
    (value : ℕ) (s : Stack) {s' : Stack}
    → push_u64 value s ≡ ok s'
    → IsBelow 8 s s' × (s.floor ≤ s'.sp)
unfolding push_u64
push_u64-IsBelow value s {s'} h =
    let (b, f) = push_bytes-IsBelow (to_le_bytes 8 value) s h in
    (
      record {
        down = omega (arith, b.down, length-to_le_bytes 8 value);
        same_floor = b.same_floor;
      },
      f,
    )

push_words-IsBelow :
    (words : List ℕ) (s : Stack) {s' : Stack}
    → push_words words s ≡ ok s'
    → IsBelow (8 * length words) s s'
unfolding push_words
push_words-IsBelow [] s h = record { down = ground (arith, h); same_floor = ground (arith, h) }
push_words-IsBelow (word ∷ words) s h = bind-ok (push_words words s) _ h λ s1 p q.
    let ih = push_words-IsBelow words s p in
    let last = (push_u64-IsBelow word s1 q).0 in
    record {
      down = omega (arith, ih.down, last.down);
      same_floor = last.same_floor ∙ ih.same_floor;
    }

push_strings-keeps :
    (texts : List (List ℕ)) (s : Stack) {pointers : List ℕ} {s' : Stack}
    → push_strings texts s ≡ ok (pointers, s')
    → (length pointers ≡ length texts) × (s'.floor ≡ s.floor)
unfolding push_strings push_c_string
push_strings-keeps [] s h = (ground (arith, h), ground (arith, h))
push_strings-keeps (text ∷ texts) s h = bind-ok (push_strings texts s) _ h λ rest p q.
    bind-ok (push_c_string text rest.1) _ q λ s1 p' done.
      let ih = push_strings-keeps texts s p in
      let b = (push_bytes-IsBelow (text ++ 0 ∷ []) rest.1 p').0 in
      (ground (arith, ih.0, done), ground (arith, ih.1, b.same_floor, done))

align_down-16 : (v : ℕ) → align_down v 16 % 16 ≡ 0
unfolding align_down
align_down-16 v = omega (
  arith,
  bit_and_step v (u64_mod - 16),
  bit_and_step (v / 2) ((u64_mod - 16) / 2),
  bit_and_step (v / 2 / 2) ((u64_mod - 16) / 2 / 2),
  bit_and_step (v / 2 / 2 / 2) ((u64_mod - 16) / 2 / 2 / 2),
)

-- The words between the aligned pointer and the last one: the vector, its end, the pointers and the count.
words-IsBelow :
    (aux env args : List ℕ) (n : ℕ) (s : Stack) {s5 s6 s7 s8 s9 s' : Stack}
    → push_words aux s ≡ ok s5
    → push_u64 0 s5 ≡ ok s6
    → push_words env s6 ≡ ok s7
    → push_u64 0 s7 ≡ ok s8
    → push_words args s8 ≡ ok s9
    → push_u64 n s9 ≡ ok s'
    → IsBelow (8 * (length aux + length env + length args + 3)) s s' × (s'.floor ≤ s'.sp)
words-IsBelow aux env args n s {s9 = s9} a b c d e f =
    let a' = push_words-IsBelow aux _ a in
    let b' = (push_u64-IsBelow 0 _ b).0 in
    let c' = push_words-IsBelow env _ c in
    let d' = (push_u64-IsBelow 0 _ d).0 in
    let e' = push_words-IsBelow args _ e in
    let (f', above) = push_u64-IsBelow n _ f in
    (
      record {
        down = omega (arith, a'.down, b'.down, c'.down, d'.down, e'.down, f'.down);
        same_floor =
            f'.same_floor
            ∙ (e'.same_floor ∙ (d'.same_floor ∙ (c'.same_floor ∙ (b'.same_floor ∙ a'.same_floor))));
      },
      omega (arith, above, f'.same_floor),
    )

alignment :
    (sp v a e : ℕ) → v % 16 ≡ 0 → sp + 8 * (28 + e + a + 3) ≡ v → (sp % 16 ≡ 0) ↔ ((a + e) % 2 ≡ 1)
alignment sp v a e p q = (λ h. omega arith, λ h. omega arith)

-- The steps of `build` put together.
built :
    (argv envp : List (List ℕ)) (env args : List ℕ) (s s1 s2 s3 s4 : Stack) {s10 s' : Stack}
    {auxv auxv' : List AuxEntry}
    → IsBelow (length (first_or_empty argv ++ 0 ∷ [])) s s1
    → s2.floor ≡ s1.floor
    → (length env ≡ length envp) × (s3.floor ≡ s2.floor)
    → (length args ≡ length argv) × (s4.floor ≡ s3.floor)
    → IsBelow (8 * (28 + length env + length args + 3)) (aligned 16 s4) s10 × (s10.floor ≤ s10.sp)
    → ◌≡◌ {A = Result LoaderError (Stack × List AuxEntry)} (ok (s10, auxv)) (ok (s', auxv'))
    → (s.floor ≤ s'.sp) × ((s'.sp % 16 ≡ 0) ↔ ((length argv + length envp) % 2 ≡ 1))
built argv envp env args s s1 s2 s3 s4 {s10 = s10} {s' = s'} first second environment arguments
      (words, above) done =
    let pointer : s10.sp ≡ s'.sp = ground (arith, done) in
    (
      omega (
        arith, pointer, above, words.same_floor, arguments.1, environment.1, second,
        first.same_floor,
      ),
      alignment s'.sp (align_down s4.sp 16) (length argv) (length envp) (align_down-16 s4.sp)
          (omega (arith, words.down, pointer, environment.0, arguments.0)),
    )

-- A successful build leaves the stack pointer at or above the floor, and a multiple of 16 exactly when the numbers of
-- arguments and of environment strings have an odd sum.
pub build-alignment :
    (argv envp : List (List ℕ)) (input : StackAuxInput) (s : Stack) {s' : Stack}
    {auxv : List AuxEntry}
    → build argv envp input s ≡ ok (s', auxv)
    → (s.floor ≤ s'.sp) × ((s'.sp % 16 ≡ 0) ↔ ((length argv + length envp) % 2 ≡ 1))
unfolding build push_c_string auxiliary
build-alignment argv envp input s {s'} h =
    bind-ok (push_c_string (first_or_empty argv) s) _ h λ s1 p1 q1.
      bind-ok (push_bytes random_bytes s1) _ q1 λ s2 p2 q2.
        bind-ok (push_strings envp s2) _ q2 λ env p3 q3.
          bind-ok (push_strings argv env.1) _ q3 λ args p4 q4.
            bind-ok (push_words (aux_words (auxiliary input s2.sp s1.sp)) (aligned 16 args.1)) _ q4
              λ s5 p5 q5. bind-ok (push_u64 0 s5) _ q5 λ s6 p6 q6.
                bind-ok (push_words env.0 s6) _ q6 λ s7 p7 q7.
                  bind-ok (push_u64 0 s7) _ q7 λ s8 p8 q8.
                    bind-ok (push_words args.0 s8) _ q8 λ s9 p9 q9.
                      bind-ok (push_u64 (length argv) s9) _ q9 λ s10 p10 done.
                        let first = (push_bytes-IsBelow _ s p1).0 in
                        let second = (push_bytes-IsBelow random_bytes s1 p2).0 in
                        let environment = push_strings-keeps envp s2 p3 in
                        let arguments = push_strings-keeps argv env.1 p4 in
                        let words =
                          words-IsBelow (aux_words (auxiliary input s2.sp s1.sp)) env.0 args.0
                            (length argv) (aligned 16 args.1) p5 p6 p7 p8 p9 p10 in
                        built argv envp env.0 args.0 s s1 s2 env.1 args.1
                          {auxv = auxiliary input s2.sp s1.sp} first second.same_floor environment
                          arguments words done
