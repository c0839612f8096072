-- ===== src/Device/Required.antt =====
-- The blocks that a GPU must have.
use lima_backport_sprd7730se.Prelude.{
  ℕ, zero, suc, ◌+◌, ◌≤◌, ◌<◌, ◌≡◌, refl, sym, ap, ◌∙◌, inl, inr, ◌⊎◌, Bool, true, some, ◌∷◌, ◌==◌,
  get_elem?, update, arith, Bool-cases, ==_iff,
}
use mathlib.Core.Path.{subst}
use lima_backport_sprd7730se.Errno.{Errno, Result, ok, err, Result-cases}
use lima_backport_sprd7730se.Device.Ip.{
  Desc, descs, Device, Board, block, offset, must_have, bring_up, init_ip, init_ips, or_stop,
}
use lima_backport_sprd7730se.Device.Blocks.{init_ip-cases}

-- The device with a block that came up.
abbrev with_block : ℕ → Device → Device
with_block i d = record d { present = update d.present i true; held = block i ∷ d.held }

update_keeps : (pr : ℕ → Bool) (i j : ℕ) → pr j ≡ true → update pr i true j ≡ true
update_keeps pr i j h = ground (arith, h)

update_sets : (pr : ℕ → Bool) (i : ℕ) → update pr i true i ≡ true
update_sets pr i = ground arith

-- A block that is present stays present.
init_ips-keeps :
    (b : Board) (k i j : ℕ) (d : Device)
    → d.present j ≡ true
    → (init_ips b k i d).1.1.present j ≡ true
unfolding init_ips
init_ips-keeps b zero i j d h = h
init_ips-keeps b (suc k) i j d h = elim (init_ip-cases b (get_elem? descs i) i d) [
  | inl q ↦ rw (q, init_ips) (init_ips-keeps b k (suc i) j d h)
  | inr (inl (x, q)) ↦ rw (q, init_ips) h
  | inr (inr q) ↦
      rw (q, init_ips)
        (init_ips-keeps b k (suc i) j (with_block i d) (update_keeps d.present i j h))
]

-- A block that must be there comes up or is an error.
init_ip-required :
    (b : Board) (x : Desc) (o i : ℕ) (d : Device)
    → must_have b.id x ≡ true
    → offset b.id x ≡ some o
    → ((e : Errno) × (init_ip b (some x) i d ≡ (err e, d)))
      ⊎ (init_ip b (some x) i d ≡ (ok tt, with_block i d))
unfolding init_ip
init_ip-required b x o i d m f = elim (Result-cases (bring_up b x i)) [
  | inl (u, q) ↦ inr (rw (f, init_ip, q) refl)
  | inr (e, q) ↦ inl (e, rw (f, init_ip, q, m) refl)
]

-- The rest of the loop after the i-th block.
abbrev rest_of : Board → ℕ → ℕ → Result (Unit {0}) × Device → Result (Unit {0}) × (ℕ × Device)
rest_of b k i = or_stop i (init_ips b k (suc i))

no_error : {A : Type 0} (e : Errno) → ◌≡◌ {A = Result (Unit {0})} (err e) (ok tt) → A
no_error e h = cc

-- An error ends the loop with that error.
not_ok :
    (b : Board) (k i j : ℕ) (d : Device) (e : Errno)
    → init_ip b (get_elem? descs i) i d ≡ (err e, d)
    → (init_ips b (suc k) i d).0 ≡ ok tt
    → (init_ips b (suc k) i d).1.1.present j ≡ true
unfolding init_ips
not_ok b k i j d e q h = no_error e (sym (ap (λ y. (rest_of b k i y).0) q) ∙ h)

-- If the loop over `k` blocks from the i-th on ends without an error, then each of these blocks that
-- the GPU must have and for which the table has an offset is present.
pub init_ips-must_have :
    (b : Board) (k i j o : ℕ) (x : Desc) (d : Device)
    → (init_ips b k i d).0 ≡ ok tt
    → i ≤ j
    → j < i + k
    → get_elem? descs j ≡ some x
    → must_have b.id x ≡ true
    → offset b.id x ≡ some o
    → (init_ips b k i d).1.1.present j ≡ true
unfolding init_ips
init_ips-must_have b zero i j o x d h l r g m f = ground (arith, l, r)
init_ips-must_have b (suc k) i j o x d h l r g m f = elim (Bool-cases (i == j)) [
  | inl t ↦
      let p = (==_iff i j).0 t in
      let g' : get_elem? descs i ≡ some x = ap (get_elem? descs) p ∙ g in
      elim (init_ip-required b x o i d m f) [
        | inl (e, q) ↦ not_ok b k i j d e (ap (λ z. init_ip b z i d) g' ∙ q) h
        | inr q ↦
            subst (λ z. (init_ips b (suc k) i d).1.1.present z ≡ true) p
              (rw (g', init_ips, q)
                (init_ips-keeps b k (suc i) i (with_block i d) (update_sets d.present i)))
      ]
  | inr t ↦ elim (init_ip-cases b (get_elem? descs i) i d) [
    | inl q ↦
        rw (q, init_ips)
          (init_ips-must_have b k (suc i) j o x d (sym (ap (λ y. (rest_of b k i y).0) q) ∙ h)
            (ground (arith, l, t)) (omega (arith, r)) g m f)
    | inr (inl (e, q)) ↦ not_ok b k i j d e q h
    | inr (inr q) ↦
        rw (q, init_ips)
          (init_ips-must_have b k (suc i) j o x (with_block i d)
            (sym (ap (λ y. (rest_of b k i y).0) q) ∙ h) (ground (arith, l, t)) (omega (arith, r)) g
            m f)
  ]
]
