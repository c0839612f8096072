-- ===== src/Object/Faults.antt =====
-- What a page fault on an imported buffer maps.
use lima_backport_sprd7730se.Prelude.{
  ℕ, ◌+◌, ◌-◌, ◌/◌, ◌≡◌, ◌<◌, ◌&&◌, ◌==◌, Bool, refl, sym, true, false, Option, none, some,
  Bool-cases, inl, inr, List, ltb, leb, if◌then◌else◌, arith,
}
use mathlib.Core.Path.{subst}
use lima_backport_sprd7730se.Errno.{Result}
use lima_backport_sprd7730se.Object.{Arrays, Buffer, zeroed}
use lima_backport_sprd7730se.Object.Create.{Segment, fill_table}
use lima_backport_sprd7730se.Object.Import.{Holds, table_page, fill_table-table_page}
use lima_backport_sprd7730se.Object.Handle.{Fault, sigbus, inserted, gem_fault}

-- The page number of an entry, 0 where the table ends early.
abbrev pub page_or_0 : Option (ℕ × ℕ) → ℕ
page_or_0 none = 0
page_or_0 (some (p, d)) = p

Holds-page_or_0 :
    (o : Option (ℕ × ℕ)) (ar : Arrays) (i : ℕ) → Holds o zeroed ar i → ar.pages i ≡ page_or_0 o
Holds-page_or_0 none ar i h = h.0
Holds-page_or_0 (some (p, d)) ar i h = h.0

-- The answer at a place of the table; there is no answer where it ends early.
abbrev pub answer_at : (ℕ → Result (Unit {0})) → Option (ℕ × ℕ) → Option (Option ℕ × Fault)
answer_at insert_page none = none
answer_at insert_page (some (p, d)) = some (some p, inserted (insert_page p))

answer_at-page :
    (insert_page : ℕ → Result (Unit {0})) (o : Option (ℕ × ℕ)) (page : ℕ)
    → ((p d : ℕ) → o ≡ some (p, d) → 0 < p)
    → page ≡ page_or_0 o
    → (if page == 0 then none else some (some page, inserted (insert_page page)))
      ≡ answer_at insert_page o
answer_at-page insert_page none page h e = rw (e) refl
answer_at-page insert_page (some (p, d)) page h e =
    let found : (p == 0) ≡ false = ground (arith, h p d refl) in rw (e, found) refl

-- A fault at an offset into an imported buffer. If the buffer has no array of pages, or the offset is
-- behind its last page, the answer is SIGBUS and no page is inserted, however long the exporter's
-- table is. Otherwise the page that the table has at that place is inserted, and where the table is too
-- short for the buffer the kernel crashes. No page of the table has the number 0.
pub gem_fault-table_page :
    (insert_page : ℕ → Result (Unit {0})) (vm_start offset : ℕ) (has_pages : Bool)
    (t : List Segment) (b : Buffer)
    → ((p d : ℕ) → table_page t (offset / 4096) ≡ some (p, d) → 0 < p)
    → b.arrays ≡ fill_table t 0 (b.size / 4096) zeroed
    → gem_fault insert_page vm_start (vm_start + offset) has_pages b ≡ (
        if has_pages && ltb (offset / 4096) (b.size / 4096)
        then answer_at insert_page (table_page t (offset / 4096))
        else some (none, sigbus))
unfolding gem_fault
gem_fault-table_page insert_page vm_start offset false t b pos h = refl
gem_fault-table_page insert_page vm_start offset true t b pos h =
    let place : vm_start + offset - vm_start ≡ offset = omega arith in
    let i = offset / 4096 in
    let n = b.size / 4096 in
    let holds = fill_table-table_page t n i in
    let holds' =
      subst (λ (ar : Arrays). Holds (if ltb i n then table_page t i else none) zeroed ar i) (sym h)
        holds in
    let at_i = Holds-page_or_0 _ b.arrays i holds' in
    elim (Bool-cases (ltb i n)) [
      | inl l ↦
          let inside : leb n i ≡ false = ground (arith, l) in
          let page : b.arrays.pages i ≡ page_or_0 (table_page t i) = rw (l) at at_i in
          rw (place, inside, l)
            (answer_at-page insert_page (table_page t i) (b.arrays.pages i) pos page)
      | inr l ↦ let behind : leb n i ≡ true = ground (arith, l) in rw (place, behind, l) refl
    ]
