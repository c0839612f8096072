-- ===== src/Object/Import.antt =====
-- The arrays of an imported buffer, against a lookup in the table of the exporter.
use lima_backport_sprd7730se.Prelude.{
  ◌∙◌, ℕ, zero, suc, ◌+◌, ◌-◌, ◌*◌, ◌/◌, ◌≤◌, ◌<◌, ◌≡◌, refl, false, Option, none, some, List, [],
  ◌∷◌, ◌⊎◌, inl, inr, Bool-cases, ◌==◌, ltb, leb, if◌then◌else◌, arith,
}
use lima_backport_sprd7730se.Object.{zeroed, Arrays, set_page}
use lima_backport_sprd7730se.Object.Create.{fill_table, Segment, fill_segment}

-- The i-th page of a table, and its DMA address.
abbrev pub table_page : List Segment → ℕ → Option (ℕ × ℕ)
table_page [] i = none
table_page (g ∷ gs) i =
    let rest = table_page gs (i - g.length / 4096) in
    if ltb i (g.length / 4096) then some (g.page + i, g.dma_address + i * 4096) else rest

-- Two arrays have the same page and address at an index.
abbrev pub At : Arrays → ℕ → ℕ → ℕ → Type 0
At ar i p d = (ar.pages i ≡ p) × (ar.pages_dma_addr i ≡ d)

-- A segment that is filled in from `idx` on, up to `stop`.
record Filled (k p d idx npages : ℕ) (ar : Arrays) (stop : ℕ) (ar' : Arrays) : Type 0 where
  ends : stop ≡ (if leb (idx + k) npages then idx + k else npages)
  inside : (i : ℕ) → idx ≤ i → i < stop → At ar' i (p + (i - idx)) (d + (i - idx) * 4096)
  outside : (i : ℕ) → (i < idx) ⊎ (stop ≤ i) → At ar' i (ar.pages i) (ar.pages_dma_addr i)

Filled-suc :
    (k p d idx npages stop : ℕ) (ar ar' : Arrays)
    → idx < npages
    → Filled k (p + 1) (d + 4096) (idx + 1) npages (set_page idx p d ar) stop ar'
    → Filled (suc k) p d idx npages ar stop ar'
Filled-suc k p d idx npages stop ar ar' h f = record {
  ends = ground (arith, f.ends);
  inside = λ i l u. elim (Bool-cases (i == idx)) [
    | inl e ↦
        let o = f.outside i (inl (ground (arith, e))) in
        (ground (arith, o.0, e), ground (arith, o.1, e))
    | inr e ↦
        let o = f.inside i (ground (arith, e, l)) u in
        (ground (arith, o.0, e, l), ground (arith, o.1, e, l))
  ];
  outside = λ i o.
      let e : (i < idx + 1) ⊎ (stop ≤ i) = (elim o [
        | inl l ↦ inl (omega (arith, l))
        | inr l ↦ inr l
      ]) in
      let k = f.outside i e in
      let other : (idx == i) ≡ false = (elim o [
        | inl l ↦ ground (arith, l)
        | inr l ↦ ground (arith, l, f.ends, h)
      ]) in
      (ground (arith, k.0, other), ground (arith, k.1, other));
}

fill_segment-Filled :
    (k p d idx npages : ℕ) (ar : Arrays)
    → idx ≤ npages
    → Filled k p d idx npages ar
        (fill_segment k p d idx npages ar).0
        (fill_segment k p d idx npages ar).1
unfolding fill_segment
fill_segment-Filled zero p d idx npages ar h = record {
  ends = ground arith;
  inside = λ i l u. absurd (omega (arith, l, u));
  outside = λ i o. (refl, refl);
}
fill_segment-Filled (suc k) p d idx npages ar h = elim (Bool-cases (ltb idx npages)) [
  | inr e ↦ rw e (record {
    ends = ground (arith, e);
    inside = λ i l u. absurd (omega (arith, l, u));
    outside = λ i o. (refl, refl);
  })
  | inl e ↦
      let f =
        fill_segment-Filled k (p + 1) (d + 4096) (idx + 1) npages (set_page idx p d ar)
          (ground (arith, e)) in
      rw e (Filled-suc k p d idx npages _ ar _ (ground (arith, e)) f)
]

-- What the arrays hold at an index: the page of the table, or what was there before.
abbrev pub Holds : Option (ℕ × ℕ) → Arrays → Arrays → ℕ → Type 0
Holds (some (p, d)) ar ar' i = At ar' i p d
Holds none ar ar' i = At ar' i (ar.pages i) (ar.pages_dma_addr i)

record Copied (t : List Segment) (idx npages : ℕ) (ar ar' : Arrays) : Type 0 where
  inside : (i : ℕ) → idx ≤ i → i < npages → Holds (table_page t (i - idx)) ar ar' i
  outside : (i : ℕ) → (i < idx) ⊎ (npages ≤ i) → At ar' i (ar.pages i) (ar.pages_dma_addr i)

-- Where the rest of the table takes its old values from does not matter.
Holds-old :
    (o : Option (ℕ × ℕ)) (ar br ar' : Arrays) (i : ℕ)
    → At br i (ar.pages i) (ar.pages_dma_addr i)
    → Holds o br ar' i
    → Holds o ar ar' i
Holds-old none ar br ar' i h k = (k.0 ∙ h.0, k.1 ∙ h.1)
Holds-old (some (p, d)) ar br ar' i h k = k

fill_table-Copied :
    (t : List Segment) (idx npages : ℕ) (ar : Arrays)
    → idx ≤ npages
    → Copied t idx npages ar (fill_table t idx npages ar)
unfolding fill_table
fill_table-Copied [] idx npages ar h = record {
  inside = λ i l u. (refl, refl);
  outside = λ i o. (refl, refl);
}
fill_table-Copied (g ∷ gs) idx npages ar h =
    let n = g.length / 4096 in
    let r = fill_segment n g.page g.dma_address idx npages ar in
    let f = fill_segment-Filled n g.page g.dma_address idx npages ar h in
    let stop : r.0 ≤ npages = ground (arith, f.ends) in
    let c = fill_table-Copied gs r.0 npages r.1 stop in
    record {
      inside = λ i l u. elim (Bool-cases (ltb (i - idx) n)) [
        | inl e ↦
            let before : i < r.0 = ground (arith, f.ends, e, u, l) in
            let k = c.outside i (inl before) in
            let j = f.inside i l before in rw e (k.0 ∙ j.0, k.1 ∙ j.1)
        | inr e ↦
            let after : r.0 ≤ i = ground (arith, f.ends, e, u, l) in
            let place : (i - idx) - n ≡ i - r.0 = ground (arith, f.ends, e, u, l) in
            rw (e, place) (Holds-old _ ar r.1 _ i (f.outside i (inr after)) (c.inside i after u))
      ];
      outside = λ i o.
          let e : (i < r.0) ⊎ (npages ≤ i) = (elim o [
            | inl l ↦ inl (ground (arith, l, f.ends, h))
            | inr l ↦ inr l
          ]) in
          let e' : (i < idx) ⊎ (r.0 ≤ i) = (elim o [
            | inl l ↦ inl l
            | inr l ↦ inr (omega (arith, l, stop))
          ]) in
          let k = c.outside i e in let j = f.outside i e' in (k.0 ∙ j.0, k.1 ∙ j.1);
    }

-- The loops of an import are the lookup in the table: the arrays hold at each index the page of the
-- table at that place and its DMA address, or 0 where the table has no such page; and no entry from the
-- number of pages on is written, however long the table is.
pub fill_table-table_page :
    (t : List Segment) (npages i : ℕ)
    → Holds (if ltb i npages then table_page t i else none) zeroed (fill_table t 0 npages zeroed) i
fill_table-table_page t npages i =
    let c = fill_table-Copied t 0 npages zeroed (omega arith) in
    let e : i - 0 ≡ i = omega arith in
    elim (Bool-cases (ltb i npages)) [
      | inl l ↦ let k = rw (e) at (c.inside i (omega arith) (ground (arith, l))) in rw (l) k
      | inr l ↦ rw (l) (c.outside i (inr (ground (arith, l))))
    ]
