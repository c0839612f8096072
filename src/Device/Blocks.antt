-- ===== src/Device/Blocks.antt =====
-- What the two loops of the initialisation do: over the blocks, and over the pixel processors.
use lima_backport_sprd7730se.Prelude.{
  ℕ, zero, suc, ◌+◌, ◌≤◌, ◌≡◌, refl, ap, ◌∙◌, inl, inr, ◌⊎◌, Bool, true, false, Option, none, some,
  List, ◌∷◌, update, arith, Bool-cases, Option-cases, get_elem?,
}
use lima_backport_sprd7730se.Errno.{Result-cases, Errno, Result, ok, err}
use lima_backport_sprd7730se.Device.Ip.{
  Gpu, Resource, block, Device, Board, init_ips, init_ip, descs, offset, must_have, bring_up, Desc,
}
use lima_backport_sprd7730se.Device.Parts.{add_pps, add_pp, usable}
use lima_backport_sprd7730se.Device.Unwind.{blocks}

-- The loop over the pixel processors writes the pipe's lists only.
pub add_pps-lists :
    (id : Gpu) (k i : ℕ) (d : Device)
    → (m : List ℕ) × (r : List ℕ) × (c : List ℕ) × (add_pps id k i d
        ≡ record d { pp_mmu = m; pp_processor = r; pp_l2_cache = c })
unfolding add_pps
add_pps-lists id zero i d = (d.pp_mmu, d.pp_processor, d.pp_l2_cache, refl)
add_pps-lists id (suc k) i d = elim (Bool-cases (usable id d.present i)) [
  | inl t ↦
      let (m, r, c, e) = add_pps-lists id k (i + 1) (add_pp id i d) in (m, r, c, e ∙ rw t refl)
  | inr f ↦
      let (m, r, c, e) = add_pps-lists id k (i + 1) (add_pp id i d) in (m, r, c, e ∙ rw f refl)
]

other_block : (pr : ℕ → Bool) (i n : ℕ) → suc n ≤ i → update pr i true n ≡ pr n
other_block pr i n h = ground (arith, h)

other_above : (pr : ℕ → Bool) (i j : ℕ) → suc i ≤ j → update pr i true j ≡ pr j
other_above pr i j h = ground (arith, h)

itself : (pr : ℕ → Bool) (i : ℕ) → update pr i true i ≡ true
itself pr i = ground arith

blocks-update :
    (pr : ℕ → Bool) (i n : ℕ) (l : List Resource)
    → n ≤ i
    → blocks (update pr i true) n l ≡ blocks pr n l
blocks-update pr i zero l h = refl
blocks-update pr i (suc n) l h =
    rw (other_block pr i n h, blocks-update pr i n l (omega (arith, h))) refl

-- What one block does: nothing, with or without an error, or it comes up.
pub init_ip-cases :
    (b : Board) (o : Option Desc) (i : ℕ) (d : Device)
    → (init_ip b o i d ≡ (ok tt, d))
      ⊎ (((e : Errno) × (init_ip b o i d ≡ (err e, d)))
          ⊎ (init_ip b o i d
              ≡ (ok tt, record d { present = update d.present i true; held = block i ∷ d.held })))
unfolding init_ip
init_ip-cases b none i d = inl refl
init_ip-cases b (some x) i d = elim (Option-cases (offset b.id x)) [
  | inl e ↦ inl (rw (e, init_ip) refl)
  | inr (o, e) ↦ elim (Result-cases (bring_up b x i)) [
    | inl (u, f) ↦ inr (inr (rw (e, init_ip, f) refl))
    | inr (k, f) ↦ elim (Bool-cases (must_have b.id x)) [
      | inl t ↦ inr (inl (k, rw (e, init_ip, f, t) refl))
      | inr t ↦ inl (rw (e, init_ip, f, t) refl)
    ]
  ]
]

-- A loop that ends without an error has seen every block.
abbrev pub Reached : Result (Unit {0}) → ℕ → ℕ → Type 0
Reached (ok u) n m = n ≡ m
Reached (err e) n m = Unit

held_next :
    (i : ℕ) (l : List Resource) (d : Device)
    → d.held ≡ blocks d.present i l
    → block i ∷ d.held ≡ blocks (update d.present i true) (suc i) l
held_next i l d e =
    rw (itself d.present i, blocks-update d.present i i l (omega arith))
      (ap (λ (h : List Resource). block i ∷ h) e)

Reached-next :
    (r : Result (Unit {0})) (n i k : ℕ) → Reached r n (suc i + k) → Reached r n (i + suc k)
Reached-next (ok u) n i k h = omega (arith, h)
Reached-next (err e) n i k h = tt

pub init_ips_lem :
    (b : Board) (k i : ℕ) (l : List Resource) (d : Device)
    → d.held ≡ blocks d.present i l
    → ((j : ℕ) → i ≤ j → d.present j ≡ false)
    → (pr : ℕ → Bool) × (r : Result (Unit {0})) × (n : ℕ) × (init_ips b k i d
        ≡ (r, (n, record d { present = pr; held = blocks pr n l })))
      × Reached r n (i + k)
unfolding init_ips
init_ips_lem b zero i l d e z = (
  d.present,
  ok tt,
  i,
  ap (λ (h : List Resource). (ok tt, (i, record d { held = h }))) e,
  omega arith,
)
init_ips_lem b (suc k) i l d e z = elim (init_ip-cases b (get_elem? descs i) i d) [
  | inl q ↦
      let (pr, r, n, f, h) =
        init_ips_lem b k (suc i) l d (rw (z i (omega arith)) e) (λ j m. z j (omega (arith, m))) in
      (pr, r, n, simp q f, Reached-next r n i k h)
  | inr (inl (x, q)) ↦ (
    d.present,
    err x,
    i,
    simp q (ap (λ (h : List Resource). (err x, (i, record d { held = h }))) e),
    tt,
  )
  | inr (inr q) ↦
      let d' = record d { present = update d.present i true; held = block i ∷ d.held } in
      let (pr, r, n, f, h) =
        init_ips_lem b k (suc i) l d' (held_next i l d e)
          (λ j m. other_above d.present i j m ∙ z j (omega (arith, m))) in
      (pr, r, n, simp q f, Reached-next r n i k h)
]
