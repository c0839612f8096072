-- ===== src/Vm/Entries.antt =====
-- Page table entries by page number: what one write and one allocation do to all of them.
use lima_backport_sprd7730se.Prelude.{
  ℕ, ◌+◌, ◌*◌, ◌/◌, ◌%◌, ◌≡◌, refl, Bool, true, false, Option, none, some, ◌==◌, leb, ltb,
  if◌then◌else◌, update, arith, ◌&&◌, inl, inr, ◌⊎◌, Option-cases, ◌∙◌,
}
use mathlib.Core.Path.{ap₂}
use lima_backport_sprd7730se.Vm.Tables.{
  Tables, Page, page_size, pbe, bte, returns, set_word, set_entry, ensure_table, add_table,
}

-- The entry of the q-th page, 0 where there is no table.
abbrev pub word : Option Page → ℕ → ℕ
word none i = 0
word (some bt) i = bt.cpu i

abbrev pub entry : Tables → ℕ → ℕ
entry vm q = word (vm.bts (q / 8192)) (q % 8192)

abbrev pub is_table : Option Page → Bool
is_table none = false
is_table (some bt) = true

-- The page has a block table.
abbrev pub Present : Tables → ℕ → Type 0
Present vm q = is_table (vm.bts (q / 8192)) ≡ true

-- p ≤ q < p + m
abbrev pub within : ℕ → ℕ → ℕ → Bool
within p m q = leb p q && ltb q (p + m)

pub pbe-page : (q : ℕ) → pbe (page_size * q) ≡ q / 8192
pbe-page q = omega arith

pub bte-page : (q : ℕ) → bte (page_size * q) ≡ q % 8192
bte-page q = omega arith

-- One entry is written.
pub record Wrote (vm : Tables) (q v : ℕ) (vm' : Tables) : Type 0 where
  pub entries : (q' : ℕ) → entry vm' q' ≡ (if q == q' then v else entry vm q')
  pub tables : (q' : ℕ) → is_table (vm'.bts (q' / 8192)) ≡ is_table (vm.bts (q' / 8192))
  pub pd : vm'.pd ≡ vm.pd

set_word-Wrote :
    (vm : Tables) (q v : ℕ)
    → Present vm q
    → (vm' : Tables) × (set_word vm (q / 8192) (q % 8192) v ≡ returns vm') × Wrote vm q v vm'
unfolding set_word
set_word-Wrote vm q v h = elim (Option-cases (vm.bts (q / 8192))) [
  | inl e ↦ absurd (ground (arith, e))
  | inr (bt, e) ↦ (
    record vm {
      bts = update vm.bts (q / 8192) (some (record bt { cpu = update bt.cpu (q % 8192) v }));
    },
    rw (e, set_word) refl,
    record { entries = λ q'. ground (arith, e); tables = λ q'. ground (arith, e); pd = refl },
  )
]

pub set_entry-Wrote :
    (vm : Tables) (q v : ℕ)
    → Present vm q
    → (vm' : Tables) × (set_entry vm (page_size * q) v ≡ returns vm') × Wrote vm q v vm'
unfolding set_entry
set_entry-Wrote vm q v h =
    let (vm', e, w) = set_word-Wrote vm q v h in
    (vm', ap₂ (λ b i. set_word vm b i v) (pbe-page q) (bte-page q) ∙ e, w)

-- A block table is there, all entries are as before, and the directory is changed only for it.
pub record Ensured (vm : Tables) (b : ℕ) (vm' : Tables) : Type 0 where
  pub entries : (q : ℕ) → entry vm' q ≡ entry vm q
  pub present : is_table (vm'.bts b) ≡ true
  pub keeps : (c : ℕ) → is_table (vm.bts c) ≡ true → vm'.bts c ≡ vm.bts c

pub ensure_table-Ensured :
    (alloc : ℕ → Option ℕ) (vm : Tables) (b : ℕ)
    → (ensure_table alloc vm b ≡ none)
      ⊎ ((vm' : Tables) × (ensure_table alloc vm b ≡ some vm') × Ensured vm b vm')
unfolding ensure_table add_table
ensure_table-Ensured alloc vm b = elim (Option-cases (vm.bts b)) [
  | inr (bt, e) ↦ inr (
    vm,
    rw (e, ensure_table) refl,
    record { entries = λ q. refl; present = rw e refl; keeps = λ c h. refl },
  )
  | inl e ↦ elim (Option-cases (alloc b)) [
    | inl e' ↦ inl (rw (e, ensure_table) (rw (e', ensure_table) refl))
    | inr (dma, e') ↦ inr (
      add_table vm b dma,
      rw (e, ensure_table) (rw (e', ensure_table) refl),
      record {
        entries = λ q. ground (arith, e);
        present = ground arith;
        keeps = λ c h. ground (arith, e);
      },
    )
  ]
]
