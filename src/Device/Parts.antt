-- ===== src/Device/Parts.antt =====
-- The parts of the initialisation, each with what undoes it: clocks, regulator, slabs, pipes and blocks of
-- lima_device.c, lima_gp.c and lima_pp.c.
-- An operation that gives a resource back is `none` if the device does not hold it, or if it took
-- another one after it and still holds that: the order of the releases is part of the model.
use lima_backport_sprd7730se.Prelude.{
  ℕ, zero, suc, ◌+◌, ◌-◌, ◌/◌, Bool, true, false, ◌&&◌, Option, none, some, List, [], ◌∷◌, ◌++◌,
  ◌==◌, if◌then◌else◌, length, get_elem?,
}
use lima_backport_sprd7730se.Errno.{Errno, other, enodev, enoent, enomem, Result, ok, err}
use lima_backport_sprd7730se.Fence.{◌>>=◌}
use lima_backport_sprd7730se.Device.Ip.{
  Gpu, mali400, mali450, Resource, bus_clock, gpu_clock, supply, gp_queue, pp_queue, block, code,
  Slab, Device, Board, id_pp0, id_ppmmu0, id_l2_cache0, id_l2_cache1, id_bcast,
}

abbrev pub Outcome : Type 0
Outcome = Result (Unit {0}) × Device

abbrev pub take : Resource → Device → Device
take r d = record d { held = r ∷ d.held }

unfoldable pub release : Resource → Device → Option Device
release r d = elim d.held [
  | [] ↦ none
  | x ∷ l ↦ if code r == code x then some (record d { held = l }) else none
]

abbrev pub release_if : Bool → Resource → Device → Option Device
release_if true r d = release r d
release_if false r d = some d

-- lima_clk_init: the answers for the two clocks.
unfoldable pub clk_init :
    Option (Result (Unit {0})) → Option (Result (Unit {0})) → Device → Option Outcome
unfolding release
clk_init none none d = some (ok tt, record d { clk_bus = false; clk_gpu = false })
clk_init none (some (ok u)) d =
    some (ok tt, take gpu_clock (record d { clk_bus = false; clk_gpu = true }))
clk_init none (some (err e)) d = some (err e, record d { clk_bus = false; clk_gpu = true })
clk_init (some (err e)) none d = some (err e, record d { clk_bus = true; clk_gpu = false })
clk_init (some (err e)) (some r) d = some (err e, record d { clk_bus = true; clk_gpu = true })
clk_init (some (ok u)) none d =
    some (ok tt, take bus_clock (record d { clk_bus = true; clk_gpu = false }))
clk_init (some (ok u)) (some (ok v)) d =
    some (ok tt, take gpu_clock (take bus_clock (record d { clk_bus = true; clk_gpu = true })))
clk_init (some (ok u)) (some (err e)) d =
    release bus_clock (take bus_clock (record d { clk_bus = true; clk_gpu = true })) >>= λ d'.
    some (err e, d')

unfoldable pub clk_fini : Device → Option Device
unfolding release
clk_fini d = release_if d.clk_gpu gpu_clock d >>= λ e. release_if e.clk_bus bus_clock e

-- The errors of devm_regulator_get that mean that there is none: -ENODEV, -EPROBE_DEFER and -ENOENT.
abbrev pub no_regulator : Errno → Bool
no_regulator enodev = true
no_regulator enoent = true
no_regulator (other n) = n == 517
no_regulator _ = false

-- lima_regulator_init.
unfoldable pub regulator_init : Result (Result (Unit {0})) → Device → Outcome
regulator_init (err e) d = (if no_regulator e then ok tt else err e, record d { regulator = false })
regulator_init (ok (err e)) d = (err e, record d { regulator = true })
regulator_init (ok (ok u)) d = (ok tt, take supply (record d { regulator = true }))

unfoldable pub regulator_fini : Device → Option Device
unfolding release
regulator_fini d = release_if d.regulator supply d

-- The slab part of lima_gp_pipe_init and lima_pp_pipe_init, and of the two functions that undo it.
unfoldable pub slab_init : Bool → Slab → Option Slab
slab_init allocated s =
    if s.exists
    then some (record s { refcnt = s.refcnt + 1 })
    else (if allocated then some (record { exists = true; refcnt = s.refcnt + 1 }) else none)

unfoldable pub slab_fini : Slab → Option Slab
slab_fini s =
    if s.refcnt == 0
    then none
    else (if s.refcnt == 1
        then some (record { exists = false; refcnt = 0 })
        else some (record s { refcnt = s.refcnt - 1 }))

-- lima_init_gp_pipe, lima_fini_gp_pipe.
unfoldable pub init_gp_pipe : Board → Device → Option Outcome
unfolding release slab_init
init_gp_pipe b d =
    if b.gp_queue_allocated
    then elim (slab_init b.gp_slab_allocated d.gp_slab) [
      | none ↦ release gp_queue (take gp_queue d) >>= λ d'. some (err enomem, d')
      | some s ↦ some (ok tt, take gp_queue (record d { gp_slab = s }))
    ]
    else some (err enomem, d)

unfoldable pub fini_gp_pipe : Device → Option Device
unfolding release slab_fini
fini_gp_pipe d = slab_fini d.gp_slab >>= λ s. release gp_queue (record d { gp_slab = s })

-- The loop of lima_init_pp_pipe over the pixel processors: `k` of them from the `i`-th on.
abbrev pub l2_cache_of : Gpu → ℕ → ℕ
l2_cache_of mali400 i = id_l2_cache0
l2_cache_of mali450 i = id_l2_cache1 + i / 4

-- The L2 cache is noted if the place for it is still empty.
abbrev pub note_l2_cache : List ℕ → ℕ → ℕ → List ℕ
note_l2_cache l place x = elim (get_elem? l place) [ none ↦ l ++ x ∷ [] | some _ ↦ l ]

abbrev pub usable : Gpu → (ℕ → Bool) → ℕ → Bool
usable id present i =
    present (id_pp0 + i) && (present (id_ppmmu0 + i) && present (l2_cache_of id i))

abbrev pub add_pp : Gpu → ℕ → Device → Device
add_pp id i d =
    if usable id d.present i
    then record d {
      pp_mmu = d.pp_mmu ++ (id_ppmmu0 + i) ∷ [];
      pp_processor = d.pp_processor ++ (id_pp0 + i) ∷ [];
      pp_l2_cache = note_l2_cache d.pp_l2_cache (i / 4) (l2_cache_of id i);
    }
    else d

unfoldable pub add_pps : Gpu → ℕ → ℕ → Device → Device
add_pps id zero i d = d
add_pps id (suc k) i d = add_pps id k (i + 1) (add_pp id i d)

abbrev pub max_processor : ℕ
max_processor = 8

-- The pipe's lists are empty at first.
abbrev pub found_pps : Gpu → Device → Device
found_pps id d =
    let e = add_pps id max_processor 0 d in
    record e { pp_bcast = e.present id_bcast; num_pp = length e.pp_processor }

-- lima_init_pp_pipe, lima_fini_pp_pipe. The first ends with lima_pp_pipe_init.
unfoldable pub set_up_pp_pipe : Bool → Device → Option Outcome
unfolding release slab_init
set_up_pp_pipe allocated d = elim (slab_init allocated d.pp_slab) [
  | none ↦ release pp_queue (take pp_queue d) >>= λ d'. some (err enomem, d')
  | some s ↦ some (ok tt, take pp_queue (record d { pp_slab = s }))
]

unfoldable pub init_pp_pipe : Board → Device → Option Outcome
unfolding set_up_pp_pipe add_pps
init_pp_pipe b d =
    if b.pp_queue_allocated
    then set_up_pp_pipe b.pp_slab_allocated (found_pps b.id d)
    else some (err enomem, d)

unfoldable pub fini_pp_pipe : Device → Option Device
unfolding release slab_fini
fini_pp_pipe d = slab_fini d.pp_slab >>= λ s. release pp_queue (record d { pp_slab = s })

-- lima_fini_ip for the blocks below `n`, from the top down.
unfoldable pub fini_ips : ℕ → Device → Option Device
unfolding release
fini_ips zero d = some d
fini_ips (suc i) d = release_if (d.present i) (block i) d >>= fini_ips i
