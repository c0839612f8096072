-- ===== src/Examples/Boot.antt =====
-- A Mali-400 that comes up, the second pixel processor missing.
use lima_backport_sprd7730se.Prelude.{
  ◌++◌, not, map, length, All, count, ℕ, ◌+◌, ◌≤◌, ◌≡◌, ◌≢◌, refl, true, false, none, some, [], ◌⊎◌,
  ltb, ◌==◌, if◌then◌else◌, arith,
}
use lima_backport_sprd7730se.Errno.{etimedout, ok, err, enodev}
use lima_backport_sprd7730se.Device.Power.{
  domain_state, Stable, domain_state_lem, ComesUp, wait_for_ready, wait_for_ready_lem, power_on,
}
use lima_backport_sprd7730se.Device.Ip.{mali450, mali400, Desc, Device, Board, descs, init_ips}
use lima_backport_sprd7730se.Device.Parts.{found_pps}
use lima_backport_sprd7730se.Device.Processors.{cache_of, wanted, found_pps-wanted}
use lima_backport_sprd7730se.Device.Required.{init_ips-must_have}
use lima_backport_sprd7730se.Device.Init.{device_init}
use lima_backport_sprd7730se.Device.Balance.{left_by, device_fini-device_init}
use lima_backport_sprd7730se.Device.Stages.{Balanced}

-- The status register reads 7 at first, and 0 from the fourth read on.
abbrev reads : ℕ → ℕ
reads k = if ltb k 4 then 7 else 0

domain_state_lem_example :
    (j : ℕ) × (domain_state 3 reads 0 ≡ some (reads j, j + 3)) × Stable reads j
domain_state_lem_example = domain_state_lem 2 reads 0 2 (omega arith) (refl, refl)

wait_for_ready_lem_example :
    (ComesUp reads 0 5 × (wait_for_ready reads 0 5 ≡ ok tt))
    ⊎ (((m : ℕ) → m ≤ 5 → reads (0 + m) ≢ 0) × (wait_for_ready reads 0 5 ≡ err etimedout))
wait_for_ready_lem_example = wait_for_ready_lem reads 0 5

abbrev board : Board
board = record {
  id = mali400;
  callback = none;
  domain = reads;
  bus = some (ok tt);
  core = some (ok tt);
  supply_found = err enodev;
  vm_allocated = true;
  dlbu_allocated = true;
  registers_found = true;
  registers_mapped = ok tt;
  irq = λ _. ok tt;
  start = λ i. if i == 12 then err enodev else ok tt;
  gp_queue_allocated = true;
  gp_slab_allocated = true;
  pp_queue_allocated = true;
  pp_slab_allocated = true;
}

abbrev device : Device
device = record {
  held = [];
  clk_bus = false;
  clk_gpu = false;
  regulator = false;
  dlbu_cpu = false;
  present = λ _. false;
  va_end = 0;
  num_pp = 0;
  gp_slab = record { exists = false; refcnt = 0 };
  pp_slab = record { exists = false; refcnt = 0 };
  pp_processor = [];
  pp_mmu = [];
  pp_l2_cache = [];
  pp_bcast = false;
}

device_fini-device_init_example :
    Balanced
      (left_by (power_on board.callback board.domain) board.callback ++ device.held)
      device.gp_slab
      device.pp_slab
      (device_init board device)
device_fini-device_init_example =
    device_fini-device_init board device (record { present = refl; dlbu_cpu = refl }) refl refl

-- The line of the first pixel processor.
abbrev pp0 : Desc
pp0 = record {
  must400 = true;
  must450 = true;
  offset400 = some 32768;
  offset450 = some 32768;
  has_irq = true;
}

init_ips-must_have_example : (init_ips board 26 0 device).1.1.present 11 ≡ true
unfolding init_ips descs
init_ips-must_have_example =
    init_ips-must_have board 26 0 11 32768 pp0 device refl (omega arith) (omega arith) refl refl
      refl

-- A Mali-450 whose first group of processors has no L2 cache.
abbrev half : Device
half = record device { present = λ i. not (i == 20) }

found_pps-wanted_example :
    ((found_pps mali450 half).pp_processor ≡ map (λ j. 11 + j) (wanted mali450 half.present 0 8))
    × ((found_pps mali450 half).pp_mmu ≡ map (λ j. 2 + j) (wanted mali450 half.present 0 8))
    × ((found_pps mali450 half).num_pp ≡ length (wanted mali450 half.present 0 8))
    × (length (wanted mali450 half.present 0 8) ≤ 8)
    × (length (found_pps mali450 half).pp_l2_cache ≤ 2)
    × All
        (λ j. 1 ≤ count (cache_of mali450 j) (found_pps mali450 half).pp_l2_cache)
        (wanted mali450 half.present 0 8)
found_pps-wanted_example = found_pps-wanted mali450 half refl refl refl
