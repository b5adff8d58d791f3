-- ===== src/CodeCache/Tests.antt =====
-- Runs of the code cache on concrete inputs.
use async_profiler.Base.{true, false, ◌≡◌, refl, ℕ, ◌≤◌, ◌<◌, arith, [], ◌∷◌, length, zero, suc}
use async_profiler.CodeCache.{
  CodeBlob, CodeCache, create, new, blob_at, find_blob_by_address, binary_search, target_loc,
  find_frame_desc,
}
use async_profiler.CodeCache.Imports.{
  Imports, im_poll, symbol_of, add_import, patch_import, patch_import-add,
}
use async_profiler.CodeCache.Search.{
  IsSorted, Answers, binary_search-Answers, IsAscending, Describes, find_frame_desc-Describes,
}

abbrev blob : ℕ → ℕ → ℕ → CodeBlob
blob start end name = record { start = start; end = end; func = create (name ∷ []) 0 }

-- Three functions with a gap after the first.
abbrev three_blobs : CodeCache
three_blobs = record (new (b'l' ∷ []) 0 100 400) {
  blobs = blob 100 200 b'f' ∷ blob 250 300 b'g' ∷ blob 300 400 b'h' ∷ [];
  dwarf_table =
      record { loc = 100; cfa = 7; fp_off = 0; pc_off = 0 }
      ∷ record { loc = 250; cfa = 6; fp_off = 0; pc_off = 0 }
      ∷ [];
}

three_blobs-IsSorted : IsSorted three_blobs
unfolding new
three_blobs-IsSorted = record { proper = proper; apart = apart }
  where
    proper :
        (i : ℕ)
        → i < length three_blobs.blobs
        → (blob_at three_blobs i).start ≤ (blob_at three_blobs i).end
    proper zero p = omega arith
    proper (suc zero) p = omega arith
    proper (suc (suc zero)) p = omega arith
    proper (suc (suc (suc i))) p = absurd (omega arith)

    apart :
        (i j : ℕ)
        → i < j
        → j < length three_blobs.blobs
        → (blob_at three_blobs i).end ≤ (blob_at three_blobs j).start
    apart zero (suc zero) p q = omega arith
    apart zero (suc (suc zero)) p q = omega arith
    apart (suc zero) (suc (suc zero)) p q = omega arith
    apart _ _ p q = absurd (omega arith)

binary_search-Answers_example :
    Answers three_blobs 260 (find_blob_by_address three_blobs 260) (binary_search three_blobs 260)
binary_search-Answers_example = binary_search-Answers three_blobs 260 three_blobs-IsSorted

three_blobs-IsAscending : IsAscending three_blobs
unfolding new
three_blobs-IsAscending zero (suc zero) p q = omega arith
three_blobs-IsAscending _ _ p q = absurd (omega arith)

find_frame_desc-Describes_example :
    Describes three_blobs (target_loc three_blobs 260) (find_frame_desc three_blobs 260)
find_frame_desc-Describes_example =
    find_frame_desc-Describes three_blobs 260 three_blobs-IsAscending

abbrev no_imports : Imports
no_imports = record { cells = λ _. record { primary = 0; secondary = 0 }; patchable = false }

abbrev blank : ℕ → ℕ
blank _ = 0

patch_import-add_example :
    (patch_import true (add_import no_imports 8000 (symbol_of im_poll)) im_poll 123 blank).1 8000
    ≡ 123
patch_import-add_example =
    patch_import-add no_imports im_poll 8000 123 blank (λ e. absurd (omega arith)) refl
