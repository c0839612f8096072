-- ===== src/Ctx.antt =====
-- Contexts of a file: lima_ctx.c of src-kernel/drivers/gpu/drm/lima.
-- A context is counted in the store like the fences, by its address. `none` is a use after free.
pub mod Balance
pub mod Close
use lima_backport_sprd7730se.Prelude.{
  ℕ, ◌+◌, Bool, true, false, not, ◌&&◌, Option, none, some, List, [], ◌∷◌, ◌++◌, map, ◌==◌, ltb,
  if◌then◌else◌, update,
}
use lima_backport_sprd7730se.Errno.{einval, enomem, Result, ok, err, Long, nonneg, neg}
use lima_backport_sprd7730se.Fence.{Fences, ◌>>=◌, get, put}

-- The contexts of a file, `struct lima_ctx` and `struct lima_ctx_mgr`. `handles` is the idr, each id with
-- the address of its context, the lowest id first. `guilty` is by address, `in_flight` by address and
-- pipe. `created` and `released` record the contexts that a create returned and that a put released;
-- `held` the references that callers got and did not put yet.
pub record Ctxs : Type 0 where
  pub store : Fences
  pub freed : ℕ → Bool
  pub guilty : ℕ → ℕ
  pub in_flight : ℕ → ℕ → ℕ
  pub handles : List (ℕ × ℕ)
  pub created : List ℕ
  pub released : List ℕ
  pub held : List ℕ

-- lima_sched_context_init returns 0.
abbrev pub sched_context_init : ℕ → ℕ → Ctxs → Ctxs
sched_context_init c pipe m = record m {
  in_flight = update m.in_flight c (update (m.in_flight c) pipe 0);
}

abbrev pub set_count : ℕ → ℕ → Ctxs → Ctxs
set_count c n m = record m { store = record m.store { refcount = update m.store.refcount c n } }

-- `kzalloc` and the fields of a new context, with the counters of both pipes.
abbrev pub ctx_init : ℕ → Ctxs → Ctxs
ctx_init c m = sched_context_init c 1 (
    sched_context_init c 0
      (set_count c 1 (record m { freed = update m.freed c false; guilty = update m.guilty c 0 })))

abbrev pub insert : ℕ → ℕ → List (ℕ × ℕ) → List (ℕ × ℕ)
insert id c [] = (id, c) ∷ []
insert id c ((i, d) ∷ l) =
    let rest = insert id c l in if ltb id i then (id, c) ∷ (i, d) ∷ l else (i, d) ∷ rest

abbrev pub idr_find : ℕ → List (ℕ × ℕ) → Option ℕ
idr_find id [] = none
idr_find id ((i, c) ∷ l) = let rest = idr_find id l in if i == id then some c else rest

abbrev pub idr_remove : ℕ → List (ℕ × ℕ) → List (ℕ × ℕ)
idr_remove id [] = []
idr_remove id ((i, c) ∷ l) = let rest = idr_remove id l in if i == id then l else (i, c) ∷ rest

-- lima_ctx_create: `fresh` is the answer of the allocator, `pre_get` that of `idr_pre_get` and `id` that
-- of `idr_alloc`.
unfoldable pub ctx_create : Option ℕ → Bool → Long → Ctxs → Result ℕ × Ctxs
ctx_create none pre_get id m = (err enomem, m)
ctx_create (some c) false id m = (err enomem, set_count c 0 (ctx_init c m))
ctx_create (some c) true (neg e) m = (err e, set_count c 0 (ctx_init c m))
ctx_create (some c) true (nonneg i) m =
    (ok i, record (ctx_init c m) { handles = insert i c m.handles; created = m.created ++ c ∷ [] })

-- lima_ctx_put of a context, with lima_ctx_release at the last reference.
unfoldable pub ctx_put : ℕ → Ctxs → Option Ctxs
ctx_put c m = put (some c) m.store >>= λ s. some (record m {
  store = s;
  released = if s.refcount c == 0 then m.released ++ c ∷ [] else m.released;
})

-- A context that was found, if it is not freed.
abbrev pub take_found : Option ℕ → Ctxs → Option (Option ℕ × Ctxs)
take_found none m = some (none, m)
take_found (some c) m =
    if m.freed c
    then some (none, m)
    else (get c m.store >>= λ s. some (some c, record m { store = s; held = m.held ++ c ∷ [] }))

-- lima_ctx_get.
unfoldable pub ctx_get : ℕ → Ctxs → Option (Option ℕ × Ctxs)
ctx_get id m = take_found (idr_find id m.handles) m

-- A context is taken out of the table and marked.
abbrev pub detach : ℕ → List (ℕ × ℕ) → Ctxs → Ctxs
detach c rest m = record m { freed = update m.freed c true; handles = rest }

abbrev pub free_found : ℕ → Option ℕ → Ctxs → Option (Result (Unit {0}) × Ctxs)
free_found id none m = some (err einval, m)
free_found id (some c) m = ctx_put c (detach c (idr_remove id m.handles) m) >>= λ n. some (ok tt, n)

-- lima_ctx_free.
unfoldable pub ctx_free : ℕ → Ctxs → Option (Result (Unit {0}) × Ctxs)
unfolding ctx_put
ctx_free id m = free_found id (idr_find id m.handles) m

-- The loop of lima_ctx_mgr_fini over what is left in the table.
unfoldable pub fini_loop : List (ℕ × ℕ) → Ctxs → Option Ctxs
fini_loop [] m = some m
fini_loop ((i, c) ∷ l) m = ctx_put c (detach c l m) >>= fini_loop l

unfoldable pub mgr_fini : Ctxs → Option Ctxs
unfolding fini_loop
mgr_fini m = fini_loop m.handles m

-- lima_ctx_mgr_init.
unfoldable pub mgr_init : Fences → Ctxs
mgr_init store = record {
  store = store;
  freed = λ _. false;
  guilty = λ _. 0;
  in_flight = λ _ _. 0;
  handles = [];
  created = [];
  released = [];
  held = [];
}
