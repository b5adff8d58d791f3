-- ===== src/Dictionary/Cells.antt =====
-- The two stores of `Dictionary::lookup` (src/dictionary.cpp), of a key and of a new table.
use async_profiler.Base.{
  ℕ, suc, ◌+◌, ◌*◌, ◌%◌, ◌^◌, ◌<◌, ◌≡◌, refl, sym, ◌∙◌, ap, arith, Bool, true, false, ◌&&◌, Option,
  none, some, ◌==◌, if◌then◌else◌, Bool-cases, inl, inr, if_cases, subst, ==_iff,
}
use mathlib.Core.Option.{none-ne-some, some-injective}
use mathlib.Core.Path.{ap₂}
use async_profiler.Base.Texts.{Text}
use async_profiler.Dictionary.{Dictionary, DictTable, Key, no_table, with_table, put_key, add_table}
use async_profiler.Dictionary.Contents.{IsValid, Grows, TableGrows}

pub same_grows : (table : DictTable) → TableGrows table table
same_grows table = (λ r c k e. e, (λ r n e. e, refl))

-- A table that has grown in its place.
with_table-Grows :
    (d : Dictionary) (t : ℕ) (table : DictTable)
    → TableGrows (d.tables t) table
    → Grows d (with_table d t table)
unfolding with_table
with_table-Grows d t table h s low =
    if_cases (λ (b : DictTable). TableGrows (d.tables s) b) (t == s) table (d.tables s)
      (λ e. subst (λ (u : ℕ). TableGrows (d.tables u) table) ((==_iff t s).0 e) h)
      (λ e. same_grows (d.tables s))

pub put_key-Grows :
    (d : Dictionary) (t r c : ℕ) (key : Text)
    → (d.tables t).keys r c ≡ none
    → Grows d (put_key d t r c key)
unfolding put_key
put_key-Grows d t r c key free = with_table-Grows d t _ (
  (λ row cell k e.
      if_cases (λ (x : Key). x ≡ some k) ((r == row) && (c == cell)) (some key)
        ((d.tables t).keys row cell)
        (λ same.
          let r_same : r ≡ row = ground arith in
          let c_same : c ≡ cell = ground arith in
          let at : (d.tables t).keys row cell ≡ none =
            ap₂ (λ (x y : ℕ). (d.tables t).keys x y) (sym r_same) (sym c_same) ∙ free in
          absurd (none-ne-some k (sym at ∙ e)))
        (λ other. e)),
  ((λ row n e. e), refl),
)

-- What a store does not change in its table it changes nowhere.
with_table_same {ℓ} :
    {A : Type ℓ} (f : DictTable → A) (d : Dictionary) (t : ℕ) (table : DictTable) (s : ℕ)
    → f table ≡ f (d.tables t)
    → f ((with_table d t table).tables s) ≡ f (d.tables s)
unfolding with_table
with_table_same f d t table s e =
    if_cases (λ (b : DictTable). f b ≡ f (d.tables s)) (t == s) table (d.tables s)
      (λ at. subst (λ (u : ℕ). f table ≡ f (d.tables u)) ((==_iff t s).0 at) e) (λ other. refl)

pub put_key-IsValid :
    (d : Dictionary) (t r c : ℕ) (key : Text) → IsValid d → IsValid (put_key d t r c key)
unfolding put_key with_table
put_key-IsValid d t r c key valid = record {
  rooted = valid.rooted;
  links = λ s row n low e.
      valid.links s row n low (sym (with_table_same (λ b. b.next row) d t _ s refl) ∙ e);
  bases = λ s low. with_table_same (λ b. b.base_index) d t _ s refl ∙ valid.bases s low;
  counter = valid.counter;
}

-- The table with its new link.
abbrev linked : Dictionary → ℕ → ℕ → DictTable
linked d t r = record (d.tables t) {
  next = λ row. if r == row then some d.count else (d.tables t).next row;
}

linked-Grows :
    (d : Dictionary) (t r : ℕ) → (d.tables t).next r ≡ none → TableGrows (d.tables t) (linked d t r)
linked-Grows d t r last = (
  λ row c k e. e,
  (
    λ row n e.
        if_cases (λ (x : Option ℕ). x ≡ some n) (r == row) (some d.count) ((d.tables t).next row)
          (λ same.
            let at : (d.tables t).next row ≡ none =
              ap (d.tables t).next (sym ((==_iff r row).0 same)) ∙ last in
            absurd (none-ne-some n (sym at ∙ e)))
          (λ other. e),
    refl,
  ),
)

-- The tables before the new one.
earlier :
    (d : Dictionary) (t r s : ℕ)
    → s < d.count
    → (add_table d t r).tables s ≡ (with_table d t (linked d t r)).tables s
unfolding add_table with_table
earlier d t r s low =
    let other : (d.count == s) ≡ false = ground arith in
    ap
      (λ (b : Bool).
        if b
        then record no_table { base_index = (d.base_index + 384) % 2 ^ 32 }
        else (if t == s then linked d t r else d.tables s))
      other

pub add_table-Grows :
    (d : Dictionary) (t r : ℕ) → (d.tables t).next r ≡ none → Grows d (add_table d t r)
add_table-Grows d t r last s low =
    subst (TableGrows (d.tables s)) (sym (earlier d t r s low))
      (with_table-Grows d t (linked d t r) (linked-Grows d t r last) s low)

-- The new link.
pub add_link :
    (d : Dictionary) (t r : ℕ) → t < d.count → ((add_table d t r).tables t).next r ≡ some d.count
unfolding with_table
add_link d t r low =
    let same_t : (t == t) ≡ true = (==_iff t t).1 refl in
    let same_r : (r == r) ≡ true = (==_iff r r).1 refl in
    ap (λ (b : DictTable). b.next r) (earlier d t r t low)
    ∙ ap (λ (x : Bool). (if x then linked d t r else d.tables t).next r) same_t
    ∙ ap (λ (x : Bool). if x then some d.count else (d.tables t).next r) same_r

-- The table that was added.
pub added :
    (d : Dictionary) (t r : ℕ)
    → (add_table d t r).tables d.count
      ≡ record no_table { base_index = (d.base_index + 384) % 2 ^ 32 }
unfolding add_table with_table
added d t r =
    let same : (d.count == d.count) ≡ true = (==_iff d.count d.count).1 refl in
    ap
      (λ (b : Bool).
        if b
        then record no_table { base_index = (d.base_index + 384) % 2 ^ 32 }
        else (if t == d.count then linked d t r else d.tables d.count))
      same

-- A link is an old one, or leads to the new table.
old_or_new :
    (d : Dictionary) (t r row n : ℕ)
    → t < d.count
    → IsValid d
    → (linked d t r).next row ≡ some n
    → (t < n) × (n < suc d.count)
old_or_new d t r row n low valid =
    if_cases (λ (x : Option ℕ). x ≡ some n → (t < n) × (n < suc d.count)) (r == row) _ _
      (λ same e. let new : d.count ≡ n = some-injective d.count n e in (omega arith, omega arith))
      (λ other e. let old = valid.links t row n low e in (old.0, omega (arith, old.1)))

link_of :
    (d : Dictionary) (t r s row n : ℕ)
    → t < d.count
    → IsValid d
    → s < d.count
    → ((with_table d t (linked d t r)).tables s).next row ≡ some n
    → (s < n) × (n < suc d.count)
unfolding with_table
link_of d t r s row n low valid inside =
    if_cases (λ (b : DictTable). b.next row ≡ some n → (s < n) × (n < suc d.count)) (t == s) _ _
      (λ at e.
        subst (λ (u : ℕ). (u < n) × (n < suc d.count)) ((==_iff t s).0 at)
          (old_or_new d t r row n low valid e))
      (λ other e. let old = valid.links s row n inside e in (old.0, omega (arith, old.1)))

links_added :
    (d : Dictionary) (t r s row n : ℕ)
    → t < d.count
    → IsValid d
    → s < suc d.count
    → ((add_table d t r).tables s).next row ≡ some n
    → (s < n) × (n < suc d.count)
links_added d t r s row n low valid inside e = elim (Bool-cases (s == d.count)) [
  | inl last ↦
      let at : ((add_table d t r).tables s).next row ≡ none =
        ap (λ (u : ℕ). ((add_table d t r).tables u).next row) ((==_iff s d.count).0 last)
        ∙ ap (λ (b : DictTable). b.next row) (added d t r) in
      absurd (none-ne-some n (sym at ∙ e))
  | inr other ↦
      let before : s < d.count = ground arith in
      link_of d t r s row n low valid before
        (ap (λ (b : DictTable). b.next row) (sym (earlier d t r s before)) ∙ e)
]

bases_added :
    (d : Dictionary) (t r s : ℕ)
    → IsValid d
    → s < suc d.count
    → ((add_table d t r).tables s).base_index ≡ (1 + 384 * s) % 2 ^ 32
bases_added d t r s valid inside = elim (Bool-cases (s == d.count)) [
  | inl last ↦
      let same : s ≡ d.count = (==_iff s d.count).0 last in
      ap (λ (u : ℕ). ((add_table d t r).tables u).base_index) same
      ∙ ap (λ (b : DictTable). b.base_index) (added d t r)
      ∙ valid.counter
      ∙ ap (λ (u : ℕ). (1 + 384 * u) % 2 ^ 32) (sym same)
  | inr other ↦
      let before : s < d.count = ground arith in
      ap (λ (b : DictTable). b.base_index) (earlier d t r s before)
      ∙ with_table_same (λ b. b.base_index) d t (linked d t r) s refl
      ∙ valid.bases s before
]

pub add_table-IsValid :
    (d : Dictionary) (t r : ℕ) → t < d.count → IsValid d → IsValid (add_table d t r)
unfolding add_table
add_table-IsValid d t r low valid = record {
  rooted = omega arith;
  links = λ s row n inside e. links_added d t r s row n low valid inside e;
  bases = λ s inside. bases_added d t r s valid inside;
  counter = omega (arith, valid.counter);
}
