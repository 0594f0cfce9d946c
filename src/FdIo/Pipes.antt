-- ===== src/FdIo/Pipes.antt =====
-- Pipes carry bytes in order, through any descriptors that share the buffer.
use ruxeon.Common.{
  ℕ, ◌+◌, ◌^◌, ◌<◌, ◌≡◌, ◌≢◌, refl, ap, ◌∙◌, Bool, none, some, List, [], ◌∷◌, ◌++◌, zero, suc,
  length-take, length, length-append, take, drop, min, get_elem?-some, get_elem?-modify_at,
  modify_at, ok, arith,
}
use ruxeon.Common.Dict.{nat_eq, get, get-insert, length-insert}
use ruxeon.Fd.{FdSlot, pipe_read, pipe_write, contents_of, new_slot, with_close_on_exec}
use ruxeon.FdTable.{insert_slot, wrapping_next}
use ruxeon.FdTable.Available.{free_above, next_available_from-IsLowest}
use ruxeon.FdIo.{Host, Files, pipe, drain, append_to, read, write}

take-append-drop : (n : ℕ) (xs : List ℕ) → take n xs ++ drop n xs ≡ xs
take-append-drop zero xs = refl
take-append-drop (suc n) [] = refl
take-append-drop (suc n) (x ∷ xs) = ap (λ t. x ∷ t) (take-append-drop n xs)

contents_of-modify_at :
    (b : ℕ) (f : List ℕ → List ℕ) (buffers : List (List ℕ))
    → b < length buffers
    → contents_of b (modify_at b f buffers) ≡ f (contents_of b buffers)
contents_of-modify_at b f buffers h =
    let (x, e) = get_elem?-some buffers b h in
    ground (arith, get_elem?-modify_at f buffers b x e, e)

contents_of-modify_at_ne :
    (a b : ℕ) (f : List ℕ → List ℕ) (buffers : List (List ℕ))
    → a ≢ b
    → contents_of a (modify_at b f buffers) ≡ contents_of a buffers
contents_of-modify_at_ne a b f [] n = refl
contents_of-modify_at_ne zero zero f (x ∷ xs) n = absurd (n refl)
contents_of-modify_at_ne zero (suc b) f (x ∷ xs) n = refl
contents_of-modify_at_ne (suc a) zero f (x ∷ xs) n = refl
contents_of-modify_at_ne (suc a) (suc b) f (x ∷ xs) n =
    contents_of-modify_at_ne a b f xs (λ e. n (ap suc e))

module _ {File World : Type 0} (host : Host File World) where
  -- A descriptor that stands for an end of the pipe with buffer `b`.
  abbrev pub IsReadEnd : ℕ → ℕ → Files File World → Type 0
  IsReadEnd fd b s =
      (slot : FdSlot File) × (get fd s.table.entries ≡ some slot) × (slot.entry ≡ pipe_read b)

  abbrev pub IsWriteEnd : ℕ → ℕ → Files File World → Type 0
  IsWriteEnd fd b s =
      (slot : FdSlot File) × (get fd s.table.entries ≡ some slot) × (slot.entry ≡ pipe_write b)

  write-append_to :
      (fd b : ℕ) (bytes : List ℕ) (s : Files File World)
      → IsWriteEnd fd b s
      → write host fd bytes s ≡ append_to b bytes s
  unfolding write
  write-append_to fd b bytes s (slot, e, k) = ground (arith, e, k)

  read-drain :
      (fd b len : ℕ) (s : Files File World) → IsReadEnd fd b s → read host fd len s ≡ drain b len s
  unfolding read
  read-drain fd b len s (slot, e, k) = ground (arith, e, k)

  -- A write to the write end of a pipe takes all bytes, puts them behind those in its buffer, and changes
  -- no other buffer and no descriptor.
  pub write-pipe :
      (fd b : ℕ) (bytes : List ℕ) (s : Files File World)
      → IsWriteEnd fd b s
      → b < length s.buffers
      → let (r, s') = write host fd bytes s in
        (r ≡ ok (length bytes))
        × (contents_of b s'.buffers ≡ contents_of b s.buffers ++ bytes)
        × ((a : ℕ) → a ≢ b → contents_of a s'.buffers ≡ contents_of a s.buffers)
        × (s'.table ≡ s.table)
  unfolding append_to
  write-pipe fd b bytes s e h = rw (write-append_to fd b bytes s e) (
    refl,
    contents_of-modify_at b (λ old. old ++ bytes) s.buffers h,
    λ a n. contents_of-modify_at_ne a b (λ old. old ++ bytes) s.buffers n,
    refl,
  )

  -- A read of the read end of a pipe takes bytes off the front of its buffer, as many as fit and no more
  -- than there are: what it returns and what stays are together what was there, in order. No other buffer
  -- and no descriptor changes.
  pub read-pipe :
      (fd b len : ℕ) (s : Files File World)
      → IsReadEnd fd b s
      → b < length s.buffers
      → (got : List ℕ) × (s' : Files File World) × (read host fd len s ≡ (ok got, s'))
        × (length got ≡ min len (length (contents_of b s.buffers)))
        × (got ++ contents_of b s'.buffers ≡ contents_of b s.buffers)
        × ((a : ℕ) → a ≢ b → contents_of a s'.buffers ≡ contents_of a s.buffers)
        × (s'.table ≡ s.table)
  unfolding drain
  read-pipe fd b len s e h =
      let bytes = contents_of b s.buffers in
      let count = min len (length bytes) in
      let rest = modify_at b (drop count) s.buffers in
      (
        take count bytes,
        record s { buffers = rest },
        read-drain fd b len s e,
        omega (arith, length-take count bytes),
        ap (λ t. take count bytes ++ t) (contents_of-modify_at b (drop count) s.buffers h)
            ∙ take-append-drop count bytes,
        λ a n. contents_of-modify_at_ne a b (drop count) s.buffers n,
        refl,
      )

contents_of-append :
    (a : ℕ) (buffers : List (List ℕ)) → contents_of a (buffers ++ [] ∷ []) ≡ contents_of a buffers
contents_of-append zero [] = refl
contents_of-append (suc a) [] = refl
contents_of-append zero (x ∷ xs) = refl
contents_of-append (suc a) (x ∷ xs) = contents_of-append a xs

contents_of_new : (buffers : List (List ℕ)) → contents_of (length buffers) buffers ≡ []
contents_of_new [] = refl
contents_of_new (x ∷ xs) = contents_of_new xs

module _ {File World : Type 0} (host : Host File World) where
  -- What `pipe` sets up from `s`.
  pub record IsPipe (close_on_exec : Bool) (s s' : Files File World) (r w : ℕ) : Type 0 where
    pub differ : r ≢ w
    pub read_free : get r s.table.entries ≡ none
    pub write_free : get w s.table.entries ≡ none
    pub read_end : IsReadEnd host r (length s.buffers) s'
    pub write_end : IsWriteEnd host w (length s.buffers) s'
    pub allocated : length s'.buffers ≡ length s.buffers + 1
    pub starts_empty : contents_of (length s.buffers) s'.buffers ≡ []
    pub others : (fd : ℕ) → fd ≢ r → fd ≢ w → get fd s'.table.entries ≡ get fd s.table.entries
    pub buffers_kept : (a : ℕ) → contents_of a s'.buffers ≡ contents_of a s.buffers

  -- Where the next descriptor and the number of open ones leave room below 2^31: `pipe` returns two different descriptors
  -- that were free, the ends of a new buffer that is empty; it changes no other descriptor and no other buffer.
  pub pipe-IsPipe :
      (b : Bool) (s : Files File World)
      → s.table.next_fd + length s.table.entries + 2 < 2 ^ 31
      → let ((r, w), s') = pipe b s in IsPipe b s s' r w
  unfolding pipe
  pipe-IsPipe b s room =
      let n = length s.buffers in
      let slot : FdSlot File = with_close_on_exec (new_slot (pipe_read n)) b in
      let slot' : FdSlot File = with_close_on_exec (new_slot (pipe_write n)) b in
      let (r, t) = insert_slot slot s.table in
      let (w, t') = insert_slot slot' t in
      let (k, p, q, free) = free_above s.table.entries s.table.next_fd in
      let first =
        next_available_from-IsLowest s.table s.table.next_fd k p (omega (arith, q, room)) free in
      let next : wrapping_next s.table.next_fd ≡ s.table.next_fd + 1 = omega (arith, room) in
      let (k', p', q', free') = free_above t.entries t.next_fd in
      let more = length-insert r slot s.table.entries in
      let second =
        next_available_from-IsLowest t t.next_fd k' p' (omega (arith, q', room, next, more))
          free' in
      record {
        differ = ground (
          arith,
          get-insert r r slot s.table.entries,
          get-insert w r slot s.table.entries,
          second.free,
        );
        read_free = first.free;
        write_free = ground (arith, get-insert w r slot s.table.entries, second.free);
        read_end = (
          slot,
          ground (
            arith,
            get-insert r r slot s.table.entries,
            get-insert r w slot' t.entries,
            second.free,
          ),
          refl,
        );
        write_end = (slot', ground (arith, get-insert w w slot' t.entries), refl);
        allocated = omega (arith, length-append s.buffers ([] ∷ []));
        starts_empty = contents_of-append n s.buffers ∙ contents_of_new s.buffers;
        others = λ fd p q.
            ground (arith, get-insert fd r slot s.table.entries, get-insert fd w slot' t.entries);
        buffers_kept = λ a. contents_of-append a s.buffers;
      }
