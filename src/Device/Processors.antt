-- ===== src/Device/Processors.antt =====
-- The pixel processors that lima_init_pp_pipe puts on the pipe, and the bounds of its arrays.
use lima_backport_sprd7730se.Prelude.{
  ℕ, zero, suc, ◌+◌, ◌/◌, ◌≤◌, ◌<◌, ◌≡◌, refl, sym, ap, ◌∙◌, ◌⊎◌, Bool, Bool-cases, inl, inr, some,
  some_inj, Option-cases, List, [], ◌∷◌, ◌++◌, map, if◌then◌else◌, All, arith, count, count-append,
  length, get_elem?, leb, ltb, ◌&&◌,
}
use mathlib.Core.Path.{subst}
use mathlib.Core.List.{append_assoc, append-nil}
use lima_backport_sprd7730se.Device.Ip.{Gpu, mali400, mali450, Device, id_pp0, id_ppmmu0}
use lima_backport_sprd7730se.Device.Parts.{l2_cache_of, note_l2_cache, usable, add_pps, found_pps}

-- What belongs to the j-th pixel processor: block 11 + j is the processor and 2 + j its MMU. The L2 cache
-- of all of a Mali-400 is block 19; on a Mali-450 it is block 20 for the processors 0 to 3 and block
-- 21 for the others.
abbrev pub cache_of : Gpu → ℕ → ℕ
cache_of mali400 j = 19
cache_of mali450 j = if ltb j 4 then 20 else 21

abbrev pub complete : Gpu → (ℕ → Bool) → ℕ → Bool
complete id present j = present (11 + j) && (present (2 + j) && present (cache_of id j))

-- The numbers of the pixel processors that are present with their MMU and their L2 cache, of `k` from
-- the `i`-th on.
unfoldable pub wanted : Gpu → (ℕ → Bool) → ℕ → ℕ → List ℕ
wanted id present i zero = []
wanted id present i (suc k) =
    let rest = wanted id present (i + 1) k in if complete id present i then i ∷ rest else rest

l2_cache_of-cache_of : (id : Gpu) (i : ℕ) → i < 8 → l2_cache_of id i ≡ cache_of id i
l2_cache_of-cache_of mali400 i h = refl
l2_cache_of-cache_of mali450 i h = ground (arith, h)

usable-complete :
    (id : Gpu) (present : ℕ → Bool) (i : ℕ) → i < 8 → usable id present i ≡ complete id present i
usable-complete id present i h =
    ap (λ x. present (11 + i) && (present (2 + i) && present x)) (l2_cache_of-cache_of id i h)

length-map : (f : ℕ → ℕ) (l : List ℕ) → length (map f l) ≡ length l
length-map f [] = refl
length-map f (x ∷ l) = omega (arith, length-map f l)

length-wanted : (id : Gpu) (present : ℕ → Bool) (i k : ℕ) → length (wanted id present i k) ≤ k
unfolding wanted
length-wanted id present i zero = omega arith
length-wanted id present i (suc k) = elim (Bool-cases (complete id present i)) [
  | inl e ↦ rw (e) (omega (arith, length-wanted id present (i + 1) k))
  | inr e ↦ rw (e) (omega (arith, length-wanted id present (i + 1) k))
]

-- The processors share an L2 cache in groups of four.
l2_cache_of-group : (id : Gpu) (i j : ℕ) → i / 4 ≡ j / 4 → l2_cache_of id i ≡ l2_cache_of id j
l2_cache_of-group mali400 i j e = refl
l2_cache_of-group mali450 i j e = omega (arith, e)

count-note_l2_cache : (l : List ℕ) (place x a : ℕ) → count a l ≤ count a (note_l2_cache l place x)
count-note_l2_cache l place x a = elim (Option-cases (get_elem? l place)) [
  | inl e ↦ rw (e, note_l2_cache) (omega (arith, count-append a l (x ∷ [])))
  | inr (y, e) ↦ rw (e, note_l2_cache) (omega arith)
]

-- The list of L2 caches before the `i`-th processor is looked at.
record Caches (id : Gpu) (i : ℕ) (l : List ℕ) : Type 0 where
  short : length l ≤ 2
  early : i ≤ 4 → (l ≡ []) ⊎ (l ≡ l2_cache_of id 0 ∷ [])
  second : (y : ℕ) → get_elem? l 1 ≡ some y → y ≡ l2_cache_of id 4

-- The cache of a processor is noted.
abbrev Noted : Gpu → ℕ → List ℕ → Type 0
Noted id i l = Caches id (i + 1) l × (1 ≤ count (l2_cache_of id i) l)

early-Noted :
    (id : Gpu) (i : ℕ) (l : List ℕ)
    → i < 4
    → (l ≡ []) ⊎ (l ≡ l2_cache_of id 0 ∷ [])
    → Noted id i (note_l2_cache l 0 (l2_cache_of id i))
early-Noted id i l h e =
    let same : l2_cache_of id i ≡ l2_cache_of id 0 = l2_cache_of-group id i 0 (omega (arith, h)) in
    let only : note_l2_cache l 0 (l2_cache_of id i) ≡ l2_cache_of id 0 ∷ [] = elim e [
      | inl f ↦ rw (f, same) refl
      | inr f ↦ rw (f) refl
    ] in
    (
      record {
        short = rw (only) (omega arith);
        early = λ _. inr only;
        second = λ y f. let f' = rw (only) at f in cc;
      },
      rw (only, same) (ground arith),
    )

late-Noted :
    (id : Gpu) (i : ℕ) (l : List ℕ)
    → 4 ≤ i
    → i < 8
    → Caches id i l
    → Noted id i (note_l2_cache l 1 (l2_cache_of id i))
late-Noted id i [] h lt c = (
  record { short = omega arith; early = λ f. absurd (omega (arith, f, h)); second = λ y f. cc },
  ground arith,
)
late-Noted id i (a ∷ []) h lt c = (
  record {
    short = omega arith;
    early = λ f. absurd (omega (arith, f, h));
    second = λ y f. sym (some_inj f) ∙ l2_cache_of-group id i 4 (omega (arith, h, lt));
  },
  ground arith,
)
late-Noted id i (a ∷ b ∷ l) h lt c = (
  record { short = c.short; early = λ f. absurd (omega (arith, f, h)); second = c.second },
  let same : b ≡ l2_cache_of id i =
        c.second b refl ∙ sym (l2_cache_of-group id i 4 (omega (arith, h, lt))) in
      rw (← same) (ground arith),
)

-- Whatever was noted before, the cache of the next processor is noted with it.
note_l2_cache-Noted :
    (id : Gpu) (i : ℕ) (l : List ℕ)
    → i < 8
    → Caches id i l
    → Noted id i (note_l2_cache l (i / 4) (l2_cache_of id i))
note_l2_cache-Noted id i l lt c = elim (Bool-cases (leb 4 i)) [
  | inl e ↦
      let one : i / 4 ≡ 1 = ground (arith, e, lt) in
      subst (λ p. Noted id i (note_l2_cache l p (l2_cache_of id i))) (sym one)
        (late-Noted id i l (ground (arith, e)) lt c)
  | inr e ↦
      let none : i / 4 ≡ 0 = ground (arith, e) in
      subst (λ p. Noted id i (note_l2_cache l p (l2_cache_of id i))) (sym none)
        (early-Noted id i l (ground (arith, e)) (c.early (ground (arith, e))))
]

-- What the loop adds to the lists of the pipe.
record Added (id : Gpu) (l : List ℕ) (d e : Device) : Type 0 where
  processors : e.pp_processor ≡ d.pp_processor ++ map (λ j. id_pp0 + j) l
  mmus : e.pp_mmu ≡ d.pp_mmu ++ map (λ j. id_ppmmu0 + j) l
  short : length e.pp_l2_cache ≤ 2
  kept : (a : ℕ) → count a d.pp_l2_cache ≤ count a e.pp_l2_cache
  noted : All (λ j. 1 ≤ count (cache_of id j) e.pp_l2_cache) l

Caches-next : (id : Gpu) (i : ℕ) (l : List ℕ) → Caches id i l → Caches id (i + 1) l
Caches-next id i l c = record {
  short = c.short;
  early = λ h. c.early (omega (arith, h));
  second = c.second;
}

add_pps-Added :
    (id : Gpu) (k i : ℕ) (d : Device)
    → i + k ≤ 8
    → Caches id i d.pp_l2_cache
    → Added id (wanted id d.present i k) d (add_pps id k i d)
unfolding add_pps wanted
add_pps-Added id zero i d h c = record {
  processors = sym (append-nil d.pp_processor);
  mmus = sym (append-nil d.pp_mmu);
  short = c.short;
  kept = λ a. omega arith;
  noted = tt;
}
add_pps-Added id (suc k) i d h c = elim (Bool-cases (usable id d.present i)) [
  | inl e ↦
      let l = note_l2_cache d.pp_l2_cache (i / 4) (l2_cache_of id i) in
      let d' : Device = record d {
        pp_mmu = d.pp_mmu ++ (id_ppmmu0 + i) ∷ [];
        pp_processor = d.pp_processor ++ (id_pp0 + i) ∷ [];
        pp_l2_cache = l;
      } in
      let (c', n) = note_l2_cache-Noted id i d.pp_l2_cache (omega (arith, h)) c in
      let r = add_pps-Added id k (i + 1) d' (omega (arith, h)) c' in
      let all = sym (usable-complete id d.present i (omega (arith, h))) ∙ e in
      let last = add_pps id k (i + 1) d' in
      let own = ap (λ x. count x last.pp_l2_cache) (l2_cache_of-cache_of id i (omega (arith, h))) in
      rw (e, all)
        (record {
          processors =
              r.processors
              ∙ append_assoc d.pp_processor ((id_pp0 + i) ∷ [])
                  (map (λ j. id_pp0 + j) (wanted id d.present (i + 1) k));
          mmus =
              r.mmus
              ∙ append_assoc d.pp_mmu ((id_ppmmu0 + i) ∷ [])
                  (map (λ j. id_ppmmu0 + j) (wanted id d.present (i + 1) k));
          short = r.short;
          kept = λ a.
              omega
                (arith, r.kept a, count-note_l2_cache d.pp_l2_cache (i / 4) (l2_cache_of id i) a);
          noted = (omega (arith, n, own, r.kept (l2_cache_of id i)), r.noted);
        })
  | inr e ↦
      let r = add_pps-Added id k (i + 1) d (omega (arith, h)) (Caches-next id i d.pp_l2_cache c) in
      let all = sym (usable-complete id d.present i (omega (arith, h))) ∙ e in
      rw (e, all)
        (record {
          processors = r.processors;
          mmus = r.mmus;
          short = r.short;
          kept = r.kept;
          noted = r.noted;
        })
]

-- On a pipe whose lists are empty: the processors and the MMUs on the pipe are, in ascending order,
-- those that are present together with their MMU and the L2 cache of `cache_of`; there are at most eight of each, as many as the
-- device notes; at most two L2 caches are noted, so that no array of the pipe overflows; and the L2
-- cache of every processor on the pipe is among them.
pub found_pps-wanted :
    (id : Gpu) (d : Device)
    → d.pp_processor ≡ []
    → d.pp_mmu ≡ []
    → d.pp_l2_cache ≡ []
    → ((found_pps id d).pp_processor ≡ map (λ j. 11 + j) (wanted id d.present 0 8))
      × ((found_pps id d).pp_mmu ≡ map (λ j. 2 + j) (wanted id d.present 0 8))
      × ((found_pps id d).num_pp ≡ length (wanted id d.present 0 8))
      × (length (wanted id d.present 0 8) ≤ 8)
      × (length (found_pps id d).pp_l2_cache ≤ 2)
      × All (λ j. 1 ≤ count (cache_of id j) (found_pps id d).pp_l2_cache) (wanted id d.present 0 8)
found_pps-wanted id d p m l =
    let r = add_pps-Added id 8 0 d (omega arith) (record {
      short = rw (l) (omega arith);
      early = λ h. inl l;
      second = λ y e. let e' = rw (l) at e in cc;
    }) in
    let found : (found_pps id d).pp_processor ≡ map (λ j. 11 + j) (wanted id d.present 0 8) =
      r.processors ∙ ap (λ q. q ++ map (λ j. 11 + j) (wanted id d.present 0 8)) p in
    (
      found,
      r.mmus ∙ ap (λ q. q ++ map (λ j. 2 + j) (wanted id d.present 0 8)) m,
      ap (λ (q : List ℕ). length q) found ∙ length-map (λ j. 11 + j) (wanted id d.present 0 8),
      length-wanted id d.present 0 8,
      r.short,
      r.noted,
    )
