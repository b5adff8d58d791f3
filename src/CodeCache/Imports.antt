-- ===== src/CodeCache/Imports.antt =====
-- The imports of src/codeCache.cpp: which imported symbols are hooked, and how they are patched.
-- An entry of an import table is an address, and its contents are what the memory holds there; no
-- entry stands at the address 0, which means an empty cell.
use async_profiler.Base.{
  ℕ, ◌≡◌, ◌≢◌, refl, Bool, true, not, ◌&&◌, List, [], ◌∷◌, Option, none, some, if◌then◌else◌, ◌==◌,
  arith, Bool-cases, inl, inr, ap, ◌∙◌, ==_iff,
}
use async_profiler.Base.Texts.{text_eq}

pub data ImportId : Type 0 where
  im_dlopen im_pthread_create im_pthread_exit im_pthread_mutex_lock im_pthread_rwlock_rdlock :
      ImportId
  im_pthread_rwlock_wrlock im_pthread_setspecific im_poll im_malloc im_calloc : ImportId
  im_realloc im_free im_posix_memalign im_aligned_alloc : ImportId

abbrev pub symbol_of : ImportId → List ℕ
symbol_of im_dlopen = b'd' ∷ b'l' ∷ b'o' ∷ b'p' ∷ b'e' ∷ b'n' ∷ []
symbol_of im_pthread_create =
    b'p' ∷ b't' ∷ b'h' ∷ b'r' ∷ b'e' ∷ b'a' ∷ b'd' ∷ b'_' ∷ b'c' ∷ b'r' ∷ b'e' ∷ b'a' ∷ b't' ∷ b'e'
    ∷ []
symbol_of im_pthread_exit =
    b'p' ∷ b't' ∷ b'h' ∷ b'r' ∷ b'e' ∷ b'a' ∷ b'd' ∷ b'_' ∷ b'e' ∷ b'x' ∷ b'i' ∷ b't' ∷ []
symbol_of im_pthread_mutex_lock =
    b'p' ∷ b't' ∷ b'h' ∷ b'r' ∷ b'e' ∷ b'a' ∷ b'd' ∷ b'_' ∷ b'm' ∷ b'u' ∷ b't' ∷ b'e' ∷ b'x' ∷ b'_'
    ∷ b'l' ∷ b'o' ∷ b'c' ∷ b'k' ∷ []
symbol_of im_pthread_rwlock_rdlock =
    b'p' ∷ b't' ∷ b'h' ∷ b'r' ∷ b'e' ∷ b'a' ∷ b'd' ∷ b'_' ∷ b'r' ∷ b'w' ∷ b'l' ∷ b'o' ∷ b'c' ∷ b'k'
    ∷ b'_' ∷ b'r' ∷ b'd' ∷ b'l' ∷ b'o' ∷ b'c' ∷ b'k' ∷ []
symbol_of im_pthread_rwlock_wrlock =
    b'p' ∷ b't' ∷ b'h' ∷ b'r' ∷ b'e' ∷ b'a' ∷ b'd' ∷ b'_' ∷ b'r' ∷ b'w' ∷ b'l' ∷ b'o' ∷ b'c' ∷ b'k'
    ∷ b'_' ∷ b'w' ∷ b'r' ∷ b'l' ∷ b'o' ∷ b'c' ∷ b'k' ∷ []
symbol_of im_pthread_setspecific =
    b'p' ∷ b't' ∷ b'h' ∷ b'r' ∷ b'e' ∷ b'a' ∷ b'd' ∷ b'_' ∷ b's' ∷ b'e' ∷ b't' ∷ b's' ∷ b'p' ∷ b'e'
    ∷ b'c' ∷ b'i' ∷ b'f' ∷ b'i' ∷ b'c' ∷ []
symbol_of im_poll = b'p' ∷ b'o' ∷ b'l' ∷ b'l' ∷ []
symbol_of im_malloc = b'm' ∷ b'a' ∷ b'l' ∷ b'l' ∷ b'o' ∷ b'c' ∷ []
symbol_of im_calloc = b'c' ∷ b'a' ∷ b'l' ∷ b'l' ∷ b'o' ∷ b'c' ∷ []
symbol_of im_realloc = b'r' ∷ b'e' ∷ b'a' ∷ b'l' ∷ b'l' ∷ b'o' ∷ b'c' ∷ []
symbol_of im_free = b'f' ∷ b'r' ∷ b'e' ∷ b'e' ∷ []
symbol_of im_posix_memalign =
    b'p' ∷ b'o' ∷ b's' ∷ b'i' ∷ b'x' ∷ b'_' ∷ b'm' ∷ b'e' ∷ b'm' ∷ b'a' ∷ b'l' ∷ b'i' ∷ b'g' ∷ b'n'
    ∷ []
symbol_of im_aligned_alloc =
    b'a' ∷ b'l' ∷ b'i' ∷ b'g' ∷ b'n' ∷ b'e' ∷ b'd' ∷ b'_' ∷ b'a' ∷ b'l' ∷ b'l' ∷ b'o' ∷ b'c' ∷ []

abbrev is_symbol : List ℕ → ImportId → Bool
is_symbol name id = text_eq name (symbol_of id)

-- The cases of the `switch` of `addImport` that compare one name.
unfoldable pub single : List ℕ → ImportId → Option ImportId
unfolding text_eq
single name id = if is_symbol name id then some id else none

-- The case of the letter p.
unfoldable pub import_p : List ℕ → Option ImportId
unfolding text_eq
import_p name =
    if is_symbol name im_pthread_create
    then some im_pthread_create
    else if is_symbol name im_pthread_exit
    then some im_pthread_exit
    else if is_symbol name im_pthread_mutex_lock
    then some im_pthread_mutex_lock
    else if is_symbol name im_pthread_rwlock_rdlock
    then some im_pthread_rwlock_rdlock
    else if is_symbol name im_pthread_rwlock_wrlock
    then some im_pthread_rwlock_wrlock
    else if is_symbol name im_pthread_setspecific
    then some im_pthread_setspecific
    else if is_symbol name im_poll
    then some im_poll
    else if is_symbol name im_posix_memalign
    then some im_posix_memalign
    else none

-- `switch (name[0])`: the import that the name is saved under.
unfoldable pub import_of : List ℕ → Option ImportId
unfolding single import_p
import_of [] = none
import_of (c ∷ cs) =
    let name = c ∷ cs in
    if c == b'a'
    then single name im_aligned_alloc
    else if c == b'c'
    then single name im_calloc
    else if c == b'd'
    then single name im_dlopen
    else if c == b'f'
    then single name im_free
    else if c == b'm'
    then single name im_malloc
    else if c == b'p'
    then import_p name
    else if c == b'r'
    then single name im_realloc
    else none

-- The two cells of an import, PRIMARY and SECONDARY; 0 is `nullptr`.
pub record Cells : Type 0 where
  pub primary : ℕ
  pub secondary : ℕ

pub record Imports : Type 0 where
  pub cells : ImportId → Cells
  pub patchable : Bool

abbrev pub number_of : ImportId → ℕ
number_of im_dlopen = 0
number_of im_pthread_create = 1
number_of im_pthread_exit = 2
number_of im_pthread_mutex_lock = 3
number_of im_pthread_rwlock_rdlock = 4
number_of im_pthread_rwlock_wrlock = 5
number_of im_pthread_setspecific = 6
number_of im_poll = 7
number_of im_malloc = 8
number_of im_calloc = 9
number_of im_realloc = 10
number_of im_free = 11
number_of im_posix_memalign = 12
number_of im_aligned_alloc = 13

abbrev pub set_cells : Imports → ImportId → Cells → Imports
set_cells i id c = record i { cells = λ k. if number_of id == number_of k then c else i.cells k }

-- The loop of `saveImport`: the first empty cell takes the entry; a third entry is dropped.
unfoldable pub save_in : Cells → ℕ → Cells
save_in c entry =
    if c.primary == 0
    then record c { primary = entry }
    else if c.secondary == 0
    then record c { secondary = entry }
    else c

unfoldable pub save_import : Imports → ImportId → ℕ → Imports
unfolding save_in
save_import i id entry = set_cells i id (save_in (i.cells id) entry)

unfoldable pub add_import : Imports → ℕ → List ℕ → Imports
unfolding import_of save_import
add_import i entry name = elim (import_of name) [ none ↦ i | some id ↦ save_import i id entry ]

-- `*entry = hook_func`, unless the cell is empty.
unfoldable pub patch_cell : ℕ → ℕ → (ℕ → ℕ) → ℕ → ℕ
patch_cell entry hook memory j = if not (entry == 0) && (entry == j) then hook else memory j

unfoldable pub patch_cells : Cells → ℕ → (ℕ → ℕ) → ℕ → ℕ
unfolding patch_cell
patch_cells c hook memory = patch_cell c.secondary hook (patch_cell c.primary hook memory)

-- `makeImportsPatchable`, with what it comes to (whether mprotect, if it is called, succeeds).
unfoldable pub make_patchable : Bool → Imports → Imports × Bool
make_patchable granted i = (record i { patchable = granted }, granted)

unfoldable pub find_import : Bool → Imports → ImportId → Imports × ℕ
unfolding make_patchable
find_import granted i id =
    let j = if i.patchable then i else (make_patchable granted i).0 in (j, (j.cells id).primary)

unfoldable pub patch_import : Bool → Imports → ImportId → ℕ → (ℕ → ℕ) → Imports × (ℕ → ℕ)
unfolding make_patchable patch_cells
patch_import granted i id hook memory =
    let (j, ok) = if i.patchable then (i, true) else make_patchable granted i in
    if ok then (j, patch_cells (j.cells id) hook memory) else (j, memory)

-- Each hooked symbol is recognised under its own name.
pub import_of-symbol_of : (id : ImportId) → import_of (symbol_of id) ≡ some id
unfolding import_of
import_of-symbol_of im_dlopen = refl
import_of-symbol_of im_pthread_create = refl
import_of-symbol_of im_pthread_exit = refl
import_of-symbol_of im_pthread_mutex_lock = refl
import_of-symbol_of im_pthread_rwlock_rdlock = refl
import_of-symbol_of im_pthread_rwlock_wrlock = refl
import_of-symbol_of im_pthread_setspecific = refl
import_of-symbol_of im_poll = refl
import_of-symbol_of im_malloc = refl
import_of-symbol_of im_calloc = refl
import_of-symbol_of im_realloc = refl
import_of-symbol_of im_free = refl
import_of-symbol_of im_posix_memalign = refl
import_of-symbol_of im_aligned_alloc = refl

add_import-symbol_of :
    (i : Imports) (entry : ℕ) (id : ImportId)
    → add_import i entry (symbol_of id) ≡ save_import i id entry
unfolding add_import
add_import-symbol_of i entry id =
    ap (λ (o : Option ImportId). elim o [ none ↦ i | some k ↦ save_import i k entry ])
      (import_of-symbol_of id)

saved_cells :
    (i : Imports) (id : ImportId) (entry : ℕ)
    → ((save_import i id entry).cells id) ≡ save_in (i.cells id) entry
unfolding save_import
saved_cells i id entry = rw ((==_iff (number_of id) (number_of id)).1 refl)

patch_cells-save_in :
    (c : Cells) (entry hook : ℕ) (memory : ℕ → ℕ)
    → entry ≢ 0
    → c.secondary ≡ 0
    → patch_cells (save_in c entry) hook memory entry ≡ hook
unfolding patch_cells save_in
patch_cells-save_in c entry hook memory h e = ground arith

patch_granted :
    (i : Imports) (id : ImportId) (hook : ℕ) (memory : ℕ → ℕ)
    → (patch_import true i id hook memory).1 ≡ patch_cells (i.cells id) hook memory
unfolding patch_import make_patchable
patch_granted i id hook memory = elim (Bool-cases i.patchable) [ inl e ↦ rw e | inr e ↦ rw e ]

-- An import that was added under the name of a hooked symbol, with a cell to spare, is patched once
-- the memory may be written: the hook then stands at its entry.
pub patch_import-add :
    (i : Imports) (id : ImportId) (entry hook : ℕ) (memory : ℕ → ℕ)
    → entry ≢ 0
    → (i.cells id).secondary ≡ 0
    → (patch_import true (add_import i entry (symbol_of id)) id hook memory).1 entry ≡ hook
patch_import-add i id entry hook memory h e =
    ap (λ (j : Imports). (patch_import true j id hook memory).1 entry)
      (add_import-symbol_of i entry id)
    ∙ ap (λ (f : ℕ → ℕ). f entry) (patch_granted (save_import i id entry) id hook memory)
    ∙ ap (λ (c : Cells). patch_cells c hook memory entry) (saved_cells i id entry)
    ∙ patch_cells-save_in (i.cells id) entry hook memory h e
