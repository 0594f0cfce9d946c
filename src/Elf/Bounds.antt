-- ===== src/Elf/Bounds.antt =====
-- The parser stays within the file.
use ruxeon.Common.{
  ℕ, zero, suc, ◌+◌, ◌*◌, ◌≤◌, ◌≡◌, refl, true, false, List, ◌∷◌, length, All, ltb, Result, ok,
  fail_if, ok_or, bind-ok, fail_if-ok, ok_or-ok, arith,
}
use ruxeon.Common.Words.{checked_add}
use ruxeon.Elf.{
  ElfError, ElfHeader, ProgramHeader, ElfImage, is_load, validate_load_segment, validate,
  parse_program_header, parse_program_headers, check_identity, parse_header, check_table, parse,
}

-- The bytes of a segment stand in the file, and are no more than its memory.
pub record IsWithin (bytes : List ℕ) (h : ProgramHeader) : Type 0 where
  pub in_file : h.offset + h.file_size ≤ length bytes
  pub in_memory : h.file_size ≤ h.memory_size

validate-IsWithin :
    (bytes : List ℕ) (h : ProgramHeader) → validate_load_segment bytes h ≡ ok tt → IsWithin bytes h
unfolding validate_load_segment
validate-IsWithin bytes h e = bind-ok (fail_if (ltb h.memory_size h.file_size) _) _ e λ t p q.
    bind-ok (ok_or (checked_add h.offset h.file_size) _) _ q λ stop p' q'.
      let big = fail_if-ok _ _ p in
      let fits = fail_if-ok _ _ q' in
      let sum = ok_or-ok _ _ p' in
      record { in_file = ground (arith, sum, fits); in_memory = ground (arith, big) }

abbrev pub IsChecked : List ℕ → ProgramHeader → Type 0
IsChecked bytes h = is_load h ≡ true → IsWithin bytes h

headers-IsChecked :
    (count : ℕ) (bytes : List ℕ) (entry_size offset : ℕ) {headers : List ProgramHeader}
    → parse_program_headers count bytes entry_size offset ≡ ok headers
    → (length headers ≡ count) × All (IsChecked bytes) headers
unfolding parse_program_headers
headers-IsChecked zero bytes entry_size offset h = ground (arith, h)
headers-IsChecked (suc count) bytes entry_size offset {headers} h =
    bind-ok (parse_program_header bytes offset) _ h λ header p q.
      bind-ok (validate bytes header) _ q λ t p' q'.
        bind-ok (parse_program_headers count bytes entry_size (offset + entry_size)) _ q'
          λ rest p'' q''.
            let ih = headers-IsChecked count bytes entry_size (offset + entry_size) p'' in
            let first : IsChecked bytes header =
              λ l. validate-IsWithin bytes header (ground (arith, l, p')) in
            let same : header ∷ rest ≡ headers = ground (arith, q'') in
            rw (← same) (ground (arith, ih.0), (first, ih.1))

-- What a file that was parsed is known to have.
pub record IsParsed (bytes : List ℕ) (image : ElfImage) : Type 0 where
  pub whole : image.bytes ≡ bytes
  pub long : 64 ≤ length bytes
  pub header_long : 64 ≤ image.header.header_size
  pub entry_long : 56 ≤ image.header.program_header_entry_size
  pub table :
      image.header.program_header_offset
        + image.header.program_header_entry_size * image.header.program_header_count
      ≤ length bytes
  pub count : length image.program_headers ≡ image.header.program_header_count
  pub segments : All (IsChecked bytes) image.program_headers

table_lem :
    (bytes : List ℕ) (h : ElfHeader)
    → check_table bytes h ≡ ok tt
    → (64 ≤ h.header_size)
      × (56 ≤ h.program_header_entry_size)
      × (h.program_header_offset + h.program_header_entry_size * h.program_header_count
          ≤ length bytes)
unfolding check_table
table_lem bytes h e = bind-ok (fail_if (ltb h.header_size 64) _) _ e λ t p q.
    bind-ok (fail_if (ltb h.program_header_entry_size 56) _) _ q λ t' p' q'.
      bind-ok
        (ok_or
          (checked_add h.program_header_offset
            (h.program_header_entry_size * h.program_header_count))
          _)
        _ q'
        λ stop p2 q2.
          let first = fail_if-ok _ _ p in
          let second = fail_if-ok _ _ p' in
          let sum = ok_or-ok _ _ p2 in
          let fits = fail_if-ok _ _ q2 in
          (ground (arith, first), ground (arith, second), ground (arith, sum, fits))

parsed :
    (bytes : List ℕ) (header : ElfHeader) (headers : List ProgramHeader) {image : ElfImage}
    → ltb (length bytes) 64 ≡ false
    → (64 ≤ header.header_size)
      × (56 ≤ header.program_header_entry_size)
      × (header.program_header_offset
            + header.program_header_entry_size * header.program_header_count
          ≤ length bytes)
    → (length headers ≡ header.program_header_count) × All (IsChecked bytes) headers
    → ◌≡◌ {A = Result ElfError ElfImage}
        (ok (record { bytes = bytes; header = header; program_headers = headers }))
        (ok image)
    → IsParsed bytes image
parsed bytes header headers {image} long table checked e =
    let same : record { bytes = bytes; header = header; program_headers = headers } ≡ image =
      ground (arith, e) in
    rw (← same) (record {
      whole = refl;
      long = ground (arith, long);
      header_long = table.0;
      entry_long = table.1;
      table = table.2;
      count = checked.0;
      segments = checked.1;
    })

-- A file that `parse` accepts has its program headers within it, as many as its header says, and each segment to load
-- stands within the file and has no more bytes there than in memory.
pub parse-IsParsed :
    (bytes : List ℕ) {image : ElfImage} → parse bytes ≡ ok image → IsParsed bytes image
unfolding parse
parse-IsParsed bytes {image} h = bind-ok (fail_if (ltb (length bytes) 64) _) _ h λ t p q.
    bind-ok (check_identity bytes) _ q λ t' p' q'. bind-ok (parse_header bytes) _ q' λ header e q2.
      bind-ok (check_table bytes header) _ q2 λ t2 c q3.
        bind-ok
          (parse_program_headers header.program_header_count bytes header.program_header_entry_size
            header.program_header_offset)
          _ q3
          λ headers hs q4.
            parsed bytes header headers (fail_if-ok _ _ p) (table_lem bytes header c)
              (headers-IsChecked _ bytes _ _ hs) q4
