-- ===== src/Vm/Unmap.antt =====
-- `lima_vm_unmap_page_table` clears the pages of its range and no other, unless the range ends at
-- the top of the address space.
use lima_backport_sprd7730se.Prelude.{
  ℕ, zero, suc, ◌+◌, ◌*◌, ◌/◌, ◌%◌, ◌^◌, ◌<◌, ◌≡◌, ◌≢◌, refl, true, false, leb, if◌then◌else◌,
  arith, ◌∙◌,
}
use lima_backport_sprd7730se.Vm.Tables.{
  Tables, page_size, Run, returns, fault, out_of_fuel, and_then, set_entry, unmap_page_table,
}
use lima_backport_sprd7730se.Vm.Entries.{entry, is_table, Present, within, set_entry-Wrote}

-- The pages from p to p + m - 1 are cleared.
pub record Cleared (vm : Tables) (p m : ℕ) (vm' : Tables) : Type 0 where
  pub entries : (q : ℕ) → entry vm' q ≡ (if within p m q then 0 else entry vm q)
  pub tables : (q : ℕ) → is_table (vm'.bts (q / 8192)) ≡ is_table (vm.bts (q / 8192))
  pub pd : vm'.pd ≡ vm.pd

-- The address after a page, where it does not wrap.
pub next_page :
    (p : ℕ) → p + 1 < 2 ^ 20 → (page_size * p + page_size) % 2 ^ 32 ≡ page_size * (p + 1)
next_page p h = omega arith

-- For a range of whole pages whose block tables are there, that ends below the last page of the
-- 32-bit space, the loop stops within one round more than there are pages, reads no null pointer,
-- sets exactly the entries of the range to 0 and changes nothing else.
pub unmap_page_table-Cleared :
    (m k : ℕ) (vm : Tables) (p end : ℕ)
    → end + 1 ≡ page_size * (p + m)
    → p + m < 2 ^ 20
    → ((q : ℕ) → within p m q ≡ true → Present vm q)
    → m < k
    → (vm' : Tables) × (unmap_page_table k vm (page_size * p) end ≡ returns vm')
      × Cleared vm p m vm'
unfolding unmap_page_table
unmap_page_table-Cleared m zero vm p end e t h f = absurd (omega arith)
unmap_page_table-Cleared zero (suc k) vm p end e t h f =
    let stop : leb (page_size * p) end ≡ false = ground arith in
    (
      vm,
      rw (stop, unmap_page_table) refl,
      record { entries = λ q. ground arith; tables = λ q. refl; pd = refl },
    )
unmap_page_table-Cleared (suc m) (suc k) vm p end e t h f =
    let go : leb (page_size * p) end ≡ true = ground arith in
    let (vm1, e1, w) = set_entry-Wrote vm p 0 (h p (ground arith)) in
    let (vm2, e2, c) =
      unmap_page_table-Cleared m k vm1 (p + 1) end (omega arith) (omega arith)
        (λ q i. w.tables q ∙ h q (ground arith)) (omega arith) in
    (
      vm2,
      rw (go, unmap_page_table) (rw (e1) (rw (next_page p (omega arith)) e2)),
      record {
        entries = λ q. ground (arith, c.entries q, w.entries q);
        tables = λ q. c.tables q ∙ w.tables q;
        pd = c.pd ∙ w.pd;
      },
    )

wrapped_page : (p : ℕ) → (page_size * p + page_size) % 2 ^ 32 ≡ page_size * ((p + 1) % 2 ^ 20)
wrapped_page p = omega arith

-- The 32-bit address wraps before it can exceed an end at the top of the address space: for a range
-- that ends at 0xffffffff the loop never returns, whatever the tables and the number of rounds.
pub unmap_top_never_returns :
    (k : ℕ) (vm vm' : Tables) (p : ℕ)
    → p < 2 ^ 20
    → unmap_page_table k vm (page_size * p) 0xffff_ffff ≢ returns vm'
unfolding unmap_page_table
unmap_top_never_returns zero vm vm' p h = λ e. cc
unmap_top_never_returns (suc k) vm vm' p h =
    let go : leb (page_size * p) 0xffff_ffff ≡ true = ground arith in
    rw (go, unmap_page_table)
      (after (λ t. unmap_top_never_returns k t vm' ((p + 1) % 2 ^ 20) (omega arith))
        (set_entry vm (page_size * p) 0))
  where
    after :
        ((t : Tables)
          → unmap_page_table k t (page_size * ((p + 1) % 2 ^ 20)) 0xffff_ffff ≢ returns vm')
        → (r : Run Tables)
        → and_then r (λ t. unmap_page_table k t ((page_size * p + page_size) % 2 ^ 32) 0xffff_ffff)
          ≢ returns vm'
    after ih (returns t) = rw (wrapped_page p) (ih t)
    after ih fault = λ e. cc
    after ih out_of_fuel = λ e. cc
