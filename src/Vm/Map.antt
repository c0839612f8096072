-- ===== src/Vm/Map.antt =====
-- `lima_vm_map_page_table` enters the pages of its range, or takes back what it did.
use Prim.Native.Nat.{bit_or}
use lima_backport_sprd7730se.Prelude.{
  ℕ, zero, suc, ◌+◌, ◌-◌, ◌*◌, ◌/◌, ◌%◌, ◌^◌, ◌≤◌, ◌<◌, ◌≡◌, ◌⊎◌, refl, true, false, Option, ◌==◌,
  leb, if◌then◌else◌, arith, inl, inr, Bool-cases, ◌∙◌, ap, ==_iff,
}
use mathlib.Core.Path.{subst}
use lima_backport_sprd7730se.Errno.{enomem, Result, ok, err}
use lima_backport_sprd7730se.Vm.Tables.{
  Tables, page_size, pbe, Run, returns, rollback, flags_cache, map_loop, map_page_table,
}
use lima_backport_sprd7730se.Vm.Entries.{
  entry, is_table, Present, within, Wrote, set_entry-Wrote, ensure_table-Ensured, Ensured, pbe-page,
}
use lima_backport_sprd7730se.Vm.Unmap.{unmap_page_table-Cleared}

-- All pages from p to p + m - 1 are entered, from the i-th address on, and no other entry changed.
pub record Entered (dma : ℕ → ℕ) (vm : Tables) (p m i : ℕ) (vm' : Tables) : Type 0 where
  pub entries :
      (q : ℕ)
      → entry vm' q ≡ (if within p m q then bit_or (dma (i + (q - p))) flags_cache else entry vm q)
  pub tables : (q : ℕ) → within p m q ≡ true → Present vm' q
  pub old_tables : (q : ℕ) → Present vm q → Present vm' q

-- The pages from p0 up to the failing page f are cleared, and no other entry changed.
pub record TakenBack (vm : Tables) (p0 p m : ℕ) (vm' : Tables) : Type 0 where
  pub at : ℕ
  pub low : p ≤ at
  pub high : at < p + m
  pub entries : (q : ℕ) → entry vm' q ≡ (if within p0 (at - p0) q then 0 else entry vm q)

abbrev pub Outcome : (ℕ → ℕ) → Tables → (p0 p m i : ℕ) → Run (Result (Unit {0}) × Tables) → Type 0
Outcome dma vm p0 p m i r =
    ((vm' : Tables) × (r ≡ returns (ok tt, vm')) × Entered dma vm p m i vm')
    ⊎ ((vm' : Tables) × (r ≡ returns (err enomem, vm')) × TakenBack vm p0 p m vm')

-- One page: its table made sure of, its entry written.
record PageEntered (vm : Tables) (p v : ℕ) (vm' : Tables) : Type 0 where
  entries : (q : ℕ) → entry vm' q ≡ (if p == q then v else entry vm q)
  table : Present vm' p
  old_tables : (q : ℕ) → Present vm q → Present vm' q

Ensured-Wrote :
    (vm vm1 vm2 : Tables) (p v : ℕ)
    → Ensured vm (pbe (page_size * p)) vm1
    → Wrote vm1 p v vm2
    → PageEntered vm p v vm2
Ensured-Wrote vm vm1 vm2 p v w x = record {
  entries = λ q. ground (arith, x.entries q, w.entries q);
  table = x.tables p ∙ (rw (pbe-page p) at w.present);
  old_tables = λ q h. x.tables q ∙ ap is_table (w.keeps (q / 8192) h) ∙ h;
}

PageEntered-Present :
    (vm vm2 : Tables) (p0 p v : ℕ)
    → PageEntered vm p v vm2
    → ((q : ℕ) → within p0 (p - p0) q ≡ true → Present vm q)
    → (q : ℕ) → within p0 (p + 1 - p0) q ≡ true
    → Present vm2 q
PageEntered-Present vm vm2 p0 p v x h q w = elim (Bool-cases (p == q)) [
  | inl u ↦ subst (Present vm2) ((==_iff p q).0 u) x.table
  | inr u ↦ x.old_tables q (h q (ground arith))
]

Outcome-cons :
    (dma : ℕ → ℕ) (vm vm2 : Tables) (p0 p m i : ℕ) (r : Run (Result (Unit {0}) × Tables))
    → p0 ≤ p
    → PageEntered vm p (bit_or (dma i) flags_cache) vm2
    → Outcome dma vm2 p0 (p + 1) m (i + 1) r
    → Outcome dma vm p0 p (suc m) i r
Outcome-cons dma vm vm2 p0 p m i r lo x (inl (vm', e, y)) = inl (
  vm',
  e,
  record {
    entries = λ q. ground (arith, y.entries q, x.entries q);
    tables = λ q w. elim (Bool-cases (p == q)) [
      | inl u ↦ y.old_tables q (subst (Present vm2) ((==_iff p q).0 u) x.table)
      | inr u ↦ y.tables q (ground arith)
    ];
    old_tables = λ q h. y.old_tables q (x.old_tables q h);
  },
)
Outcome-cons dma vm vm2 p0 p m i r lo x (inr (vm', e, y)) = inr (
  vm',
  e,
  record {
    at = y.at;
    low = omega (arith, y.low);
    high = omega (arith, y.high);
    entries = λ q. ground (arith, y.entries q, x.entries q, y.low);
  },
)

module _ (fuel : ℕ) (alloc : ℕ → Option ℕ) (dma : ℕ → ℕ) (p0 end : ℕ) where
  rollback-TakenBack :
      (vm : Tables) (p m : ℕ)
      → p0 ≤ p
      → p < 2 ^ 20
      → p < fuel + p0
      → 0 < m
      → ((q : ℕ) → within p0 (p - p0) q ≡ true → Present vm q)
      → (vm' : Tables) × (rollback fuel vm (page_size * p0) (page_size * p)
          ≡ returns (err enomem, vm'))
        × TakenBack vm p0 p m vm'
  unfolding rollback
  rollback-TakenBack vm p m lo hi f pos h = elim (Bool-cases (page_size * p == page_size * p0)) [
    | inl e ↦ (
      vm,
      rw e refl,
      record { at = p; low = omega arith; high = omega arith; entries = λ q. ground (arith, e) },
    )
    | inr e ↦
        let (vm', e', c) =
          unmap_page_table-Cleared (p - p0) fuel vm p0 (page_size * p - 1) (ground (arith, e))
            (omega arith) h (ground arith) in
        (
          vm',
          rw e (rw e' refl),
          record { at = p; low = omega arith; high = omega arith; entries = c.entries },
        )
  ]

  next_u64 : (p : ℕ) → p < 2 ^ 20 → (page_size * p + page_size) % 2 ^ 64 ≡ page_size * (p + 1)
  next_u64 p h = omega arith

  map_loop-Outcome :
      (m k : ℕ) (vm : Tables) (p i : ℕ)
      → end + 1 ≡ page_size * (p + m)
      → p0 ≤ p
      → p + m ≤ 2 ^ 20
      → p + m ≤ fuel + p0
      → ((q : ℕ) → within p0 (p - p0) q ≡ true → Present vm q)
      → m < k
      → Outcome dma vm p0 p m i
          (map_loop fuel alloc dma (page_size * p0) end k vm (page_size * p) i)
  unfolding map_loop
  map_loop-Outcome m zero vm p i e lo hi f h lt = absurd (omega arith)
  map_loop-Outcome zero (suc k) vm p i e lo hi f h lt =
      let stop : leb (page_size * p) end ≡ false = ground arith in
      inl (
        vm,
        rw (stop, map_loop) refl,
        record {
          entries = λ q. ground arith;
          tables = λ q w. absurd (ground arith);
          old_tables = λ q w. w;
        },
      )
  map_loop-Outcome (suc m) (suc k) vm p i e lo hi f h lt =
      let go : leb (page_size * p) end ≡ true = ground arith in
      rw (go, map_loop)
        (elim (ensure_table-Ensured alloc vm (pbe (page_size * p))) [
          | inl n ↦
              let (vm', r, t) =
                rollback-TakenBack vm p (suc m) lo (omega arith) (omega arith) (omega arith) h in
              inr (vm', rw (n, map_loop) r, t)
          | inr (vm1, n, w) ↦
              let there : Present vm1 p = rw (pbe-page p) at w.present in
              let (vm2, e2, x) = set_entry-Wrote vm1 p (bit_or (dma i) flags_cache) there in
              let y = Ensured-Wrote vm vm1 vm2 p (bit_or (dma i) flags_cache) w x in
              rw (n, map_loop)
                (rw e2 (
                  rw (next_u64 p (omega arith)) (
                    Outcome-cons dma vm vm2 p0 p m i _ lo y (
                      map_loop-Outcome m k vm2 (p + 1) (i + 1) (omega arith) (omega arith)
                        (omega arith) (omega arith) (PageEntered-Present vm vm2 p0 p _ y h)
                        (omega arith)))))
        ])

module _ (fuel : ℕ) (alloc : ℕ → Option ℕ) (dma : ℕ → ℕ) (vm : Tables) (p n : ℕ) where
  -- For n whole pages from page p on, n > 0, within the 32-bit space, none of which has an entry, and
  -- more rounds than pages: the call reads no null pointer and returns. Either it returns 0, and then
  -- the entry of the j-th page is the j-th address with the cached flags, it has a block table, and
  -- no other entry changed; or it returns -ENOMEM, and every entry is what it was.
  pub map_page_table_lem :
      0 < n
      → p + n ≤ 2 ^ 20
      → n < fuel
      → ((q : ℕ) → within p n q ≡ true → entry vm q ≡ 0)
      → (ret : Result (Unit {0})) × (vm' : Tables) × (map_page_table fuel alloc vm dma
            (page_size * p)
            (page_size * (p + n) - 1)
          ≡ returns (ret, vm'))
        × (((ret ≡ ok tt)
              × ((q : ℕ)
                  → entry vm' q
                    ≡ (if within p n q then bit_or (dma (q - p)) flags_cache else entry vm q))
              × ((q : ℕ) → within p n q ≡ true → Present vm' q))
            ⊎ ((ret ≡ err enomem) × ((q : ℕ) → entry vm' q ≡ entry vm q)))
  unfolding map_page_table
  map_page_table_lem pos hi f clear =
      elim (map_loop-Outcome fuel alloc dma p (page_size * (p + n) - 1) n fuel vm p 0 (omega arith)
        (omega arith) hi (omega arith) (λ q u. absurd (ground arith)) f) [
          | inl (vm', e, x) ↦
              (ok tt, vm', e, inl (refl, λ q. ground (arith, x.entries q), x.tables))
          | inr (vm', e, x) ↦ (
            err enomem,
            vm',
            e,
            inr (refl, λ q. ground (arith, x.entries q, clear q, x.low, x.high)),
          )
        ]
