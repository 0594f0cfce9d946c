-- ===== src/FdTable/Tests.antt =====
-- The theorems on the descriptor table at concrete inputs; a host file is a number that is its own clone.
use ruxeon.Common.{ℕ, ◌≡◌, refl, none, some, ◌==◌, Bool, true, false, [], ◌∷◌, ok, arith}
use ruxeon.Common.Dict.{nat_eq, get, insert, remove, IsMap}
use ruxeon.Fd.{FdSlot, stdout, file, TryClone, new_slot}
use ruxeon.FdTable.{
  FdTable, next_available_from, duplicate, duplicate_to, duplicate_all, close_on_exec,
}
use ruxeon.FdTable.Available.{IsLowest, next_available_from-IsLowest}
use ruxeon.FdTable.Duplicate.{
  IsCopy, IsDuplicated, duplicate-IsDuplicated, duplicate_to-IsDuplicated,
}
use ruxeon.FdTable.Exec.{close_on_exec-duplicate_to, IsInherited, duplicate_all-IsInherited}

abbrev same_file : TryClone ℕ
same_file f = ok f

abbrev slot_of : ℕ → Bool → FdSlot ℕ
slot_of f b = record { entry = file f; close_on_exec = b; status_flags = 0 }

-- Descriptors 3 and 5 are open; 5 is closed on exec.
abbrev open_files : FdTable ℕ
open_files = record {
  entries = (5, slot_of 8 true) ∷ (3, slot_of 7 false) ∷ (1, new_slot stdout) ∷ [];
  next_fd = 6;
}

open_files-IsMap : IsMap open_files.entries
unfolding get
open_files-IsMap = (refl, (refl, (refl, tt)))

abbrev duplicated : FdTable ℕ
duplicated = record {
  entries =
      (5, slot_of 8 true) ∷ (3, slot_of 7 false) ∷ (1, new_slot stdout) ∷ (4, slot_of 7 true) ∷ [];
  next_fd = 6;
}

next_available_from-IsLowest_example :
    IsLowest open_files.entries 3 9 (next_available_from open_files 3)
unfolding get
next_available_from-IsLowest_example =
    next_available_from-IsLowest open_files 3 9 (omega arith) (omega arith) refl

duplicate-IsDuplicated_example :
    IsLowest open_files.entries 3 4 4 × IsDuplicated same_file open_files duplicated 3 4 true
unfolding duplicate next_available_from get insert
duplicate-IsDuplicated_example =
    duplicate-IsDuplicated same_file 3 3 4 true open_files (omega arith) (omega arith) refl refl

abbrev replaced : FdTable ℕ
replaced = record {
  entries = (3, slot_of 7 false) ∷ (1, new_slot stdout) ∷ (5, slot_of 7 false) ∷ [];
  next_fd = 6;
}

abbrev flagged : FdTable ℕ
flagged = record {
  entries = (3, slot_of 7 false) ∷ (1, new_slot stdout) ∷ (5, slot_of 7 true) ∷ [];
  next_fd = 6;
}

duplicate_to-IsDuplicated_example :
    ◌≡◌ {A = ℕ} 5 5 × IsDuplicated same_file open_files replaced 3 5 false
unfolding duplicate_to get insert remove
duplicate_to-IsDuplicated_example =
    duplicate_to-IsDuplicated same_file 3 5 false open_files (omega arith) refl

duplicate_all-IsInherited_example :
    IsInherited same_file (get 5 open_files.entries) (get 5 open_files.entries)
unfolding duplicate_all new_slot
duplicate_all-IsInherited_example = duplicate_all-IsInherited same_file open_files refl 5

-- The copy on descriptor 5 is closed on exec.
close_on_exec-duplicate_to_example :
    (slot : FdSlot ℕ) × (copy : FdSlot ℕ) × (get 3 open_files.entries ≡ some slot)
    × IsCopy same_file slot copy true
    × (get 5 (close_on_exec flagged).entries ≡ none)
    × ((j : ℕ)
        → (5 == j) ≡ false
        → get j (close_on_exec flagged).entries ≡ get j (close_on_exec open_files).entries)
unfolding duplicate_to get insert remove
close_on_exec-duplicate_to_example =
    close_on_exec-duplicate_to same_file 3 5 true open_files open_files-IsMap (omega arith)
      (omega arith) refl
