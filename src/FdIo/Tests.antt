-- ===== src/FdIo/Tests.antt =====
-- The theorems on pipes at a concrete table.
use ruxeon.Common.{
  ℕ, ◌≡◌, ◌≢◌, refl, Bool, true, false, List, [], ◌∷◌, ◌++◌, length, min, ok, arith,
}
use ruxeon.Common.Dict.{get}
use ruxeon.Fd.{FdSlot, pipe_read, pipe_write, contents_of}
use ruxeon.FdIo.{Host, Files, pipe, read, write}
use ruxeon.FdIo.Pipes.{IsPipe, pipe-IsPipe, write-pipe, read-pipe}

-- A host without input, whose files are numbers.
abbrev silent : Host ℕ ℕ
silent = record {
  stdin_ready = λ w. (ok false, w);
  stdin_read = λ n w. (ok [], w);
  stdout_write = λ bytes w. (ok tt, w);
  stderr_write = λ bytes w. (ok tt, w);
  file_read = λ f n w. (ok [], w);
  file_write = λ f bytes w. (ok (length bytes), w);
  nanos = λ w. w;
}

abbrev end_slot : Bool → FdSlot ℕ
end_slot b = record {
  entry = elim b [ true ↦ pipe_read 0 | false ↦ pipe_write 0 ];
  close_on_exec = false;
  status_flags = 0;
}

-- A pipe between the descriptors 3 and 4 that holds three bytes.
abbrev piped : Files ℕ ℕ
piped = record {
  table = record { entries = (3, end_slot true) ∷ (4, end_slot false) ∷ []; next_fd = 5 };
  buffers = (1 ∷ 2 ∷ 3 ∷ []) ∷ [];
  world = 0;
}

pipe-IsPipe_example : let ((r, w), s') = pipe true piped in IsPipe silent true piped s' r w
pipe-IsPipe_example = pipe-IsPipe silent true piped (omega arith)

write-pipe_example :
    let (r, s') = write silent 4 (9 ∷ []) piped in
    (r ≡ ok (length {A = ℕ} (9 ∷ [])))
    × (contents_of 0 s'.buffers ≡ contents_of 0 piped.buffers ++ 9 ∷ [])
    × ((a : ℕ) → a ≢ 0 → contents_of a s'.buffers ≡ contents_of a piped.buffers)
    × (s'.table ≡ piped.table)
unfolding get
write-pipe_example = write-pipe silent 4 0 (9 ∷ []) piped (end_slot false, refl, refl) (omega arith)

read-pipe_example :
    (got : List ℕ) × (s' : Files ℕ ℕ) × (read silent 3 2 piped ≡ (ok got, s'))
    × (length got ≡ min 2 (length (contents_of 0 piped.buffers)))
    × (got ++ contents_of 0 s'.buffers ≡ contents_of 0 piped.buffers)
    × ((a : ℕ) → a ≢ 0 → contents_of a s'.buffers ≡ contents_of a piped.buffers)
    × (s'.table ≡ piped.table)
unfolding get
read-pipe_example = read-pipe silent 3 0 2 piped (end_slot true, refl, refl) (omega arith)
