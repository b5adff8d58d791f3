-- ===== src/CodeCache.antt =====
-- src/codeCache.cpp and src/codeCache.h: the symbols of one native library, and its imports.
-- An address is a number; a name is the list of its bytes, without the terminating 0. The blobs
-- in use are a list, `_count` is its length, and the array behind it has `capacity` cells.
pub mod Search
pub mod Imports
mod Tests
use async_profiler.Base.{
  ℕ, zero, suc, ◌+◌, ◌-◌, ◌*◌, ◌/◌, ◌%◌, ◌^◌, Bool, true, false, not, ◌&&◌, ◌||◌, List, [], ◌∷◌,
  ◌++◌, map, Option, none, some, if◌then◌else◌, ltb, leb, ◌==◌, length, get_or,
}
use async_profiler.Base.Texts.{text_eq, after_prefix, contains_char}
use async_profiler.Base.Bisect.{Side, below, inside, above, Found, hit, missed, bisect}

abbrev pub initial_code_cache_capacity : ℕ
initial_code_cache_capacity = 1000

-- (const void*)-1 and (const void*)0
abbrev pub no_min_address : ℕ
no_min_address = 2 ^ 64 - 1

abbrev pub no_max_address : ℕ
no_max_address = 0

abbrev pub mark_vm_runtime : ℕ
mark_vm_runtime = 1

-- A name behind its header: the library that it belongs to, and its mark.
pub record NativeFunc : Type 0 where
  pub lib_index : ℕ
  pub mark : ℕ
  pub name : List ℕ

pub record CodeBlob : Type 0 where
  pub start : ℕ
  pub end : ℕ
  pub func : NativeFunc

-- FrameDesc of src/dwarf.h; the `int` fields are their bit patterns.
pub record FrameDesc : Type 0 where
  pub loc : ℕ
  pub cfa : ℕ
  pub fp_off : ℕ
  pub pc_off : ℕ

pub record CodeCache : Type 0 where
  pub func : NativeFunc
  pub lib_index : ℕ
  pub min_address : ℕ
  pub max_address : ℕ
  pub text_base : ℕ
  pub plt_offset : ℕ
  pub plt_size : ℕ
  pub dwarf_table : List FrameDesc
  pub capacity : ℕ
  pub blobs : List CodeBlob

unfoldable pub create : List ℕ → ℕ → NativeFunc
create name lib_index = record { lib_index = lib_index; mark = 0; name = name }

-- sizeof(NativeFunc) is 4.
unfoldable pub func_memory : NativeFunc → ℕ
func_memory f = 4 + 1 + length f.name

-- CodeBlob::comparator, as whether the first blob may stand before the second.
unfoldable pub precedes : CodeBlob → CodeBlob → Bool
precedes a b =
    if ltb a.start b.start
    then true
    else if ltb b.start a.start
    then false
    else if a.end == b.end
    then true
    else ltb b.end a.end

-- The library's own name has no library index: (short)-1.
unfoldable pub new : List ℕ → ℕ → ℕ → ℕ → CodeCache
unfolding create
new name lib_index min_address max_address = record {
  func = create name 65535;
  lib_index = lib_index;
  min_address = min_address;
  max_address = max_address;
  text_base = 0;
  plt_offset = 0;
  plt_size = 0;
  dwarf_table = [];
  capacity = initial_code_cache_capacity;
  blobs = [];
}

-- `if (*s < ' ') *s = '?'` on signed characters: those from 128 on are negative.
unfoldable pub printable : ℕ → ℕ
printable c = if ltb c 32 || leb 128 c then b'?' else c

unfoldable pub expand : CodeCache → CodeCache
expand c = record c { capacity = c.capacity * 2 }

unfoldable pub update_bounds : CodeCache → ℕ → ℕ → CodeCache
update_bounds c start end = record c {
  min_address = if ltb start c.min_address then start else c.min_address;
  max_address = if ltb c.max_address end then end else c.max_address;
}

-- The write of one blob and `_count++`.
unfoldable pub append_blob : CodeCache → CodeBlob → CodeCache
append_blob c b = record c { blobs = c.blobs ++ (b ∷ []) }

unfoldable pub add : CodeCache → ℕ → ℕ → List ℕ → Bool → CodeCache
unfolding create printable expand update_bounds append_blob
add c start len name updates =
    let blob : CodeBlob = record {
      start = start;
      end = start + len;
      func = create (map printable name) c.lib_index;
    } in
    let room = if leb c.capacity (length c.blobs) then expand c else c in
    let added = append_blob room blob in
    if updates then update_bounds added start (start + len) else added

abbrev pub null_blob : CodeBlob
null_blob = record { start = 0; end = 0; func = record { lib_index = 0; mark = 0; name = [] } }

abbrev pub blob_at : CodeCache → ℕ → CodeBlob
blob_at c i = get_or c.blobs i null_blob

-- The end of `sort`, after the blobs were put in order.
unfoldable pub bounds_from_blobs : CodeCache → CodeCache
bounds_from_blobs c = record c {
  min_address = if c.min_address == no_min_address then (blob_at c 0).start else c.min_address;
  max_address =
      if c.max_address == no_max_address
      then (blob_at c (length c.blobs - 1)).end
      else c.max_address;
}

-- `sort`, with the C library's `qsort` for the comparator as a parameter.
unfoldable pub sort : (List CodeBlob → List CodeBlob) → CodeCache → CodeCache
unfolding bounds_from_blobs
sort qsort c =
    if length c.blobs == 0 then c else bounds_from_blobs (record c { blobs = qsort c.blobs })

abbrev pub covers : ℕ → CodeBlob → Bool
covers address b = leb b.start address && ltb address b.end

unfoldable pub find_in : ℕ → List CodeBlob → Option CodeBlob
find_in address [] = none
find_in address (b ∷ bs) = if covers address b then some b else find_in address bs

unfoldable pub find_blob_by_address : CodeCache → ℕ → Option CodeBlob
find_blob_by_address c address = find_in address c.blobs

-- The two tests of the loop of `binarySearch`.
abbrev pub side_of : ℕ → CodeBlob → Side
side_of address b =
    if leb b.end address then below else if ltb address b.start then above else inside

-- The symbol before the place: of no size, or ended by the address (an endless loop).
abbrev pub is_last_resort : ℕ → CodeBlob → Bool
is_last_resort address b = (b.start == b.end) || (b.end == address)

unfoldable pub name_before : CodeCache → ℕ → ℕ → NativeFunc
name_before c address zero = c.func
name_before c address (suc low) =
    if is_last_resort address (blob_at c low) then (blob_at c low).func else c.func

unfoldable pub name_found : CodeCache → ℕ → Option Found → Option NativeFunc
name_found c address (some (hit mid)) = some ((blob_at c mid).func)
name_found c address (some (missed low)) = some (name_before c address low)
name_found c address none = none

-- `none` means that the fuel, one round more than there are blobs, ran out.
unfoldable pub binary_search : CodeCache → ℕ → Option NativeFunc
binary_search c address =
    let n = length c.blobs in
    name_found c address (bisect (suc n) (λ i. side_of address (blob_at c i)) 0 n)

unfoldable pub find_named : List ℕ → List CodeBlob → Option CodeBlob
unfolding text_eq
find_named name [] = none
find_named name (b ∷ bs) = if text_eq b.func.name name then some b else find_named name bs

unfoldable pub find_blob : CodeCache → List ℕ → Option CodeBlob
unfolding find_named
find_blob c name = find_named name c.blobs

unfoldable pub find_symbol : CodeCache → List ℕ → Option ℕ
find_symbol c name = elim (find_blob c name) [ none ↦ none | some b ↦ some b.start ]

-- The loop of `findSymbolByPrefix`, with the result so far: the first match without a dot after the
-- prefix, or else the last match.
unfoldable pub by_prefix : List ℕ → Option ℕ → List CodeBlob → Option ℕ
unfolding after_prefix contains_char
by_prefix prefix result [] = result
by_prefix prefix result (b ∷ bs) = elim (after_prefix prefix b.func.name) [
  | none ↦ by_prefix prefix result bs
  | some rest ↦ elim (contains_char b'.' rest) [
    | false ↦ some b.start
    | true ↦ by_prefix prefix (some b.start) bs
  ]
]

unfoldable pub find_symbol_by_prefix : CodeCache → List ℕ → Option ℕ
unfolding by_prefix
find_symbol_by_prefix c prefix = by_prefix prefix none c.blobs

-- `mark` with a predicate on names.
unfoldable pub mark_blobs : (List ℕ → Bool) → ℕ → List CodeBlob → List CodeBlob
mark_blobs p value [] = []
mark_blobs p value (b ∷ bs) =
    (if p b.func.name then record b { func = record (b.func) { mark = value } } else b)
    ∷ mark_blobs p value bs

unfoldable pub mark : CodeCache → (List ℕ → Bool) → ℕ → CodeCache
unfolding mark_blobs
mark c p value =
    let marked = record c { blobs = mark_blobs p value c.blobs } in
    if value == mark_vm_runtime
    then record marked { func = record (c.func) { mark = value } }
    else marked

unfoldable pub set_dwarf_table : CodeCache → List FrameDesc → CodeCache
set_dwarf_table c table = if ltb 0 (length table) then record c { dwarf_table = table } else c

abbrev pub null_frame : FrameDesc
null_frame = record { loc = 0; cfa = 0; fp_off = 0; pc_off = 0 }

abbrev pub frame_at : CodeCache → ℕ → FrameDesc
frame_at c i = get_or c.dwarf_table i null_frame

abbrev pub loc_side : ℕ → FrameDesc → Side
loc_side target f = if ltb f.loc target then below else if ltb target f.loc then above else inside

-- What `findFrameDesc` returns: a row of the table, or one of the two built-in frames.
pub data FrameFound : Type 0 where
  row : FrameDesc → FrameFound
  empty_frame : FrameFound
  default_frame : FrameFound

unfoldable pub frame_before : CodeCache → ℕ → ℕ → FrameFound
frame_before c target (suc low) = row (frame_at c low)
frame_before c target zero =
    if ltb ((target + 2 ^ 32 - c.plt_offset) % 2 ^ 32) c.plt_size
    then empty_frame
    else default_frame

unfoldable pub frame_found : CodeCache → ℕ → Option Found → Option FrameFound
frame_found c target (some (hit mid)) = some (row (frame_at c mid))
frame_found c target (some (missed low)) = some (frame_before c target low)
frame_found c target none = none

-- `u32 target_loc = pc - _text_base`
unfoldable pub target_loc : CodeCache → ℕ → ℕ
target_loc c pc = (pc + 2 ^ 64 - c.text_base) % 2 ^ 32

unfoldable pub find_frame_desc : CodeCache → ℕ → Option FrameFound
unfolding target_loc
find_frame_desc c pc =
    let n = length c.dwarf_table in
    let target = target_loc c pc in
    frame_found c target (bisect (suc n) (λ i. loc_side target (frame_at c i)) 0 n)

-- sizeof(CodeBlob), sizeof(FrameDesc) and sizeof(CodeCache) on a 64-bit machine; the last depends
-- on the layout and is given.
unfoldable pub blobs_memory : List CodeBlob → ℕ
blobs_memory [] = 0
blobs_memory (b ∷ bs) = func_memory b.func + blobs_memory bs

unfoldable pub used_memory : ℕ → CodeCache → ℕ
used_memory cache_size c =
    c.capacity * 24
    + length c.dwarf_table * 16
    + func_memory c.func
    + blobs_memory c.blobs
    + cache_size
