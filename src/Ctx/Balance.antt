-- ===== src/Ctx/Balance.antt =====
-- Every context is released once, when its handle is gone and the last caller put it.
use lima_backport_sprd7730se.Prelude.{
  if_true, if_false, ◌∙◌, some_inj, ℕ, ◌+◌, ◌-◌, ◌≤◌, ◌≡◌, refl, Bool, true, false, Option, none,
  some, Bool-cases, inl, inr, List, [], ◌∷◌, ◌++◌, ◌==◌, if◌then◌else◌, update, count, count-append,
  arith,
}
use lima_backport_sprd7730se.Errno.{einval, Result, ok, err, Long, nonneg, neg}
use lima_backport_sprd7730se.Fence.{◌>>=◌, >>=-some}
use lima_backport_sprd7730se.Fence.Refs.{get-some, put-some}
use lima_backport_sprd7730se.Ctx.{
  Ctxs, insert, idr_find, idr_remove, ctx_init, set_count, ctx_create, ctx_put, take_found, ctx_get,
  detach, free_found, ctx_free,
}

-- How often a context is in the table.
abbrev pub in_table : ℕ → List (ℕ × ℕ) → ℕ
in_table a [] = 0
in_table a ((i, c) ∷ l) = (if c == a then 1 else 0) + in_table a l

in_table-insert :
    (a id c : ℕ) (l : List (ℕ × ℕ))
    → in_table a (insert id c l) ≡ (if c == a then 1 else 0) + in_table a l
in_table-insert a id c [] = refl
in_table-insert a id c ((i, d) ∷ l) = ground (arith, in_table-insert a id c l)

in_table-idr_remove :
    (a id c : ℕ) (l : List (ℕ × ℕ))
    → idr_find id l ≡ some c
    → in_table a l ≡ (if c == a then 1 else 0) + in_table a (idr_remove id l)
in_table-idr_remove a id c [] h = cc
in_table-idr_remove a id c ((i, d) ∷ l) h = elim (Bool-cases (i == id)) [
  | inl e ↦ let same : d ≡ c = some_inj (rw (e) at h) in rw (e, same) refl
  | inr e ↦ let k = in_table-idr_remove a id c l (rw (e) at h) in rw (e) (omega (arith, k))
]

-- One reference less among those of the callers.
abbrev pub drop_one : ℕ → List ℕ → List ℕ
drop_one c [] = []
drop_one c (x ∷ l) = let rest = drop_one c l in if x == c then l else x ∷ rest

count-drop_one :
    (a c : ℕ) (l : List ℕ)
    → 1 ≤ count c l
    → count a l ≡ (if c == a then 1 else 0) + count a (drop_one c l)
count-drop_one a c [] h = absurd (omega (arith, h))
count-drop_one a c (x ∷ l) h = elim (Bool-cases (x == c)) [
  | inl e ↦ rw (e) (ground (arith, e))
  | inr e ↦ let k = count-drop_one a c l (ground (arith, h, e)) in rw (e) (omega (arith, k))
]

-- The count of a context is its place in the table and the references of callers, and each context
-- that was created is either counted or was released.
pub record Inv (m : Ctxs) : Type 0 where
  pub refs : (a : ℕ) → m.store.refcount a ≡ in_table a m.handles + count a m.held
  pub once :
      (a : ℕ) → count a m.created ≡ count a m.released + (if m.store.refcount a == 0 then 0 else 1)

-- What a file and its tasks do to the contexts. `drops c` puts a reference that a get gave.
pub data Call : Type 0 where
  creates : Option ℕ → Bool → Long → Call
  gets : ℕ → Call
  frees : ℕ → Call
  drops : ℕ → Call

-- The answer of a call is dropped; `held` follows a put of a caller.
unfoldable pub call : Call → Ctxs → Option Ctxs
unfolding ctx_create ctx_get ctx_free
call (creates fresh pre_get id) m = some (ctx_create fresh pre_get id m).1
call (gets id) m = ctx_get id m >>= λ r. some r.1
call (frees id) m = ctx_free id m >>= λ r. some r.1
call (drops c) m = ctx_put c m >>= λ n. some (record n { held = drop_one c n.held })

-- The allocator gives memory that is not in use, and only a reference that a caller has is put.
abbrev pub Allowed : Call → Ctxs → Type 0
Allowed (creates none pre_get id) m = Unit
Allowed (creates (some c) pre_get id) m = m.store.refcount c ≡ 0
Allowed (gets id) m = Unit
Allowed (frees id) m = Unit
Allowed (drops c) m = 1 ≤ count c m.held

-- The memory of a context that is not created after all is free again.
kfree_lem : (c : ℕ) (m : Ctxs) → m.store.refcount c ≡ 0 → Inv m → Inv (set_count c 0 (ctx_init c m))
kfree_lem c m h v = record {
  refs = λ a. ground (arith, v.refs a, h);
  once = λ a. ground (arith, v.once a, h);
}

ctx_create-Inv :
    (fresh : Option ℕ) (pre_get : Bool) (id : Long) (m : Ctxs)
    → Allowed (creates fresh pre_get id) m
    → Inv m
    → Inv (ctx_create fresh pre_get id m).1
unfolding ctx_create
ctx_create-Inv none pre_get id m h v = v
ctx_create-Inv (some c) false id m h v = kfree_lem c m h v
ctx_create-Inv (some c) true (neg e) m h v = kfree_lem c m h v
ctx_create-Inv (some c) true (nonneg i) m h v = record {
  refs = λ a. ground (arith, v.refs a, h, in_table-insert a i c m.handles);
  once = λ a. ground (arith, v.once a, h, count-append a m.created (c ∷ []));
}

-- The state after a put.
abbrev pub put_result : ℕ → Ctxs → Ctxs
put_result c m = record m {
  store = record m.store { refcount = update m.store.refcount c (m.store.refcount c - 1) };
  released = if m.store.refcount c - 1 == 0 then m.released ++ c ∷ [] else m.released;
}

pub ctx_put-some : (c : ℕ) (m : Ctxs) → 1 ≤ m.store.refcount c → ctx_put c m ≡ some (put_result c m)
unfolding ctx_put
ctx_put-some c m h =
    let at_c : (c == c) ≡ true = ground arith in >>=-some _ (put-some c m.store h) (rw (at_c) refl)

-- A put leaves each context counted once less, and releases it if that was the last time.
pub put_result-once :
    (c : ℕ) (m : Ctxs) (a : ℕ)
    → 1 ≤ m.store.refcount c
    → count a m.created ≡ count a m.released + (if m.store.refcount a == 0 then 0 else 1)
    → count a (put_result c m).created
      ≡ count a (put_result c m).released
        + (if (put_result c m).store.refcount a == 0 then 0 else 1)
put_result-once c m a h o = elim (Bool-cases (m.store.refcount c - 1 == 0)) [
  | inl e ↦ rw (e) (ground (arith, o, h, e, count-append a m.released (c ∷ [])))
  | inr e ↦ rw (e) (ground (arith, o, h, e))
]

find_lem : (id c : ℕ) (m : Ctxs) → Inv m → idr_find id m.handles ≡ some c → 1 ≤ m.store.refcount c
find_lem id c m v h = ground (arith, v.refs c, in_table-idr_remove c id c m.handles h)

take_found-Inv :
    (id : ℕ) (o : Option ℕ) (m : Ctxs)
    → idr_find id m.handles ≡ o
    → Inv m
    → (r : Option ℕ × Ctxs) × (take_found o m ≡ some r) × Inv r.1
take_found-Inv id none m h v = ((none, m), refl, v)
take_found-Inv id (some c) m h v = elim (Bool-cases (m.freed c)) [
  | inl e ↦ ((none, m), if_true _ _ e, v)
  | inr e ↦ (
    (
      some c,
      record m {
        store = record m.store { refcount = update m.store.refcount c (m.store.refcount c + 1) };
        held = m.held ++ c ∷ [];
      },
    ),
    if_false _ _ e ∙ >>=-some _ (get-some c m.store (find_lem id c m v h)) refl,
    record {
      refs = λ a. ground (arith, v.refs a, count-append a m.held (c ∷ []));
      once = λ a. ground (arith, v.once a, find_lem id c m v h);
    },
  )
]

free_found-Inv :
    (id : ℕ) (o : Option ℕ) (m : Ctxs)
    → idr_find id m.handles ≡ o
    → Inv m
    → (r : Result (Unit {0}) × Ctxs) × (free_found id o m ≡ some r) × Inv r.1
free_found-Inv id none m h v = ((err einval, m), refl, v)
free_found-Inv id (some c) m h v =
    let one = find_lem id c m v h in
    let n = detach c (idr_remove id m.handles) m in
    (
      (ok tt, put_result c n),
      >>=-some _ (ctx_put-some c n one) refl,
      record {
        refs = λ a. ground (arith, v.refs a, one, in_table-idr_remove a id c m.handles h);
        once = λ a. put_result-once c n a one (v.once a);
      },
    )

-- Each allowed call is carried out and keeps the balance.
pub call-Inv :
    (k : Call) (m : Ctxs) → Allowed k m → Inv m → (n : Ctxs) × (call k m ≡ some n) × Inv n
unfolding call ctx_get ctx_free
call-Inv (creates fresh pre_get id) m h v =
    ((ctx_create fresh pre_get id m).1, refl, ctx_create-Inv fresh pre_get id m h v)
call-Inv (gets id) m h v =
    let (r, e, w) = take_found-Inv id (idr_find id m.handles) m refl v in
    (r.1, >>=-some _ e refl, w)
call-Inv (frees id) m h v =
    let (r, e, w) = free_found-Inv id (idr_find id m.handles) m refl v in
    (r.1, >>=-some _ e refl, w)
call-Inv (drops c) m h v =
    let one : 1 ≤ m.store.refcount c = omega (arith, v.refs c, h) in
    (
      record (put_result c m) { held = drop_one c m.held },
      >>=-some _ (ctx_put-some c m one) refl,
      record {
        refs = λ a. ground (arith, v.refs a, one, count-drop_one a c m.held h);
        once = λ a. put_result-once c m a one (v.once a);
      },
    )
