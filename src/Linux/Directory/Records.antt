-- ===== src/Linux/Directory/Records.antt =====
-- `getdents64`: the records that one call writes.
use ruxeon.Common.{
  ℕ, suc, ◌+◌, ◌-◌, ◌≤◌, ◌<◌, ◌≡◌, refl, sym, ap, inl, inr, List, [], ◌∷◌, ◌++◌, arith, ltb,
  Bool-cases, length, take, drop, replicate, All, length-append, length-replicate,
}
use ruxeon.Common.Words.{u64_mod}
use ruxeon.Fd.{DirectoryEntry, DirectoryFd}
use ruxeon.Linux.Directory.{record_length, record_bytes, write_records, write_getdents64}

-- The records of some entries, from an index on.
abbrev pub records_from : ℕ → List DirectoryEntry → List ℕ
records_from index [] = []
records_from index (entry ∷ rest) = record_bytes index entry ++ records_from (index + 1) rest

-- The next record does not fit in the room that is left, or there is none.
pub data IsFull (room : ℕ) : List DirectoryEntry → Type 0 where
  no_more : IsFull room []
  too_long :
      {entry : DirectoryEntry} {rest : List DirectoryEntry}
      → room < record_length entry
      → IsFull room (entry ∷ rest)

-- The entries that a call writes are the first ones left, as many as fit whole.
pub record IsWritten (room index : ℕ) (left : List DirectoryEntry) (out : List ℕ × ℕ) : Type 0 where
  pub count : ℕ
  pub bytes : out.0 ≡ records_from index (take count left)
  pub cursor : out.1 ≡ index + count
  pub within : count ≤ length left
  pub fits : length out.0 ≤ room
  pub full : IsFull (room - length out.0) (drop count left)

-- The record's length is below 2^64.
abbrev pub FitsName : DirectoryEntry → Type 0
FitsName entry = length entry.name + 28 < u64_mod

record_length-holds :
    (entry : DirectoryEntry) → FitsName entry → 20 + length entry.name ≤ record_length entry
unfolding record_length ruxeon.Linux.Arguments.align_up
record_length-holds entry h = ground arith

length-record_bytes :
    (index : ℕ) (entry : DirectoryEntry)
    → FitsName entry
    → length (record_bytes index entry) ≡ record_length entry
unfolding record_bytes
length-record_bytes index entry h = omega (
  arith,
  record_length-holds entry h,
  length-append (entry.name) (replicate (record_length entry - (19 + length entry.name)) 0),
  length-replicate {A = ℕ} (record_length entry - (19 + length entry.name)) 0,
)

write_records-IsWritten :
    (room index : ℕ) (left : List DirectoryEntry)
    → All FitsName left
    → IsWritten room index left (write_records room index left)
unfolding write_records
write_records-IsWritten room index [] h = record {
  count = 0;
  bytes = refl;
  cursor = omega arith;
  within = omega arith;
  fits = omega arith;
  full = no_more;
}
write_records-IsWritten room index (entry ∷ rest) (n, h) =
    elim (Bool-cases (ltb room (record_length entry))) [
      | inl small ↦ rw small (record {
        count = 0;
        bytes = refl;
        cursor = omega arith;
        within = omega arith;
        fits = omega arith;
        full = too_long (ground (arith, small));
      })
      | inr large ↦
          let w = write_records-IsWritten (room - record_length entry) (index + 1) rest h in
          let size = length-record_bytes index entry n in
          let out = write_records (room - record_length entry) (index + 1) rest in
          let whole = length-append (record_bytes index entry) (out.0) in
          let room' : room - record_length entry - length out.0
              ≡ room - length (record_bytes index entry ++ out.0) =
            omega (arith, whole, size) in
          rw large (record {
            count = suc (w.count);
            bytes = ap (λ bs. record_bytes index entry ++ bs) (w.bytes);
            cursor = omega (arith, w.cursor);
            within = omega (arith, w.within);
            fits = ground (arith, whole, size, w.fits, large);
            full = rw (sym room') (w.full);
          })
    ]

-- Where no entry's record reaches 2^64 bytes: a call of `getdents64` on a directory writes the records of the first entries behind its cursor, as many as fit in the
-- buffer whole, and moves the cursor past them, so that the next call goes on where this one has stopped.
pub write_getdents64-IsWritten :
    (len : ℕ) (d : DirectoryFd)
    → All FitsName (drop d.cursor d.entries)
    → IsWritten len d.cursor
        (drop d.cursor d.entries)
        ((write_getdents64 len d).0, (write_getdents64 len d).1.cursor)
unfolding write_getdents64
write_getdents64-IsWritten len d h =
    write_records-IsWritten len d.cursor (drop d.cursor d.entries) h
