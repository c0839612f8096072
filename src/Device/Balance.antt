-- ===== src/Device/Balance.antt =====
-- What the initialisation gives back when it fails, and what the removal gives back.
use lima_backport_sprd7730se.Prelude.{
  refl, sym, ap, ◌∙◌, inl, inr, Bool, true, false, Option, none, some, List, [], ◌∷◌, ◌++◌,
  Bool-cases,
}
use lima_backport_sprd7730se.Errno.{enomem, Errno}
use lima_backport_sprd7730se.Errno.{Result-cases, Result, ok, err}
use lima_backport_sprd7730se.Fence.{◌>>=◌}
use lima_backport_sprd7730se.Device.Power.{power_on}
use lima_backport_sprd7730se.Device.Ip.{
  Gpu, mali400, mali450, Resource, power, bus_clock, gpu_clock, supply, empty_vm, dlbu_page, Slab,
  Device, Board,
}
use lima_backport_sprd7730se.Device.Init.{
  va_reserve_start, va_reserve_end, err_out0, err_out1, err_out2, err_out3, on_error, init_dlbu,
  init_vm, init_regulator, init_clk, left_on, device_init,
}
use lima_backport_sprd7730se.Device.Parts.{take, clk_init, no_regulator, regulator_init}
use lima_backport_sprd7730se.Device.Unwind.{
  opt, owned1, owned2, owned3, holding, err_out0_lem, err_out1_lem, err_out2_lem, err_out3_lem,
}
use lima_backport_sprd7730se.Device.Stages.{Balanced, InUse, goto_lem, At, Fresh, map_registers_lem}

-- What a power on leaves behind that has this result: the switch, if it is the built-in one that fails.
abbrev pub left_by : Result (Unit {0}) → Option (Result (Unit {0})) → List Resource
left_by (ok u) callback = []
left_by (err e) none = power ∷ []
left_by (err e) (some answer) = []

-- The parameters that no stage changes: the answers, and what the device held and shared before.
module _ (b : Board) (l : List Resource) (g p : Slab) (use_g : InUse g) (use_p : InUse p) where
  init_dlbu_lem :
      (id : Gpu) (d : Device) → Fresh d → At (owned3 d l) g p d → Balanced l g p (init_dlbu id b d)
  unfolding init_dlbu
  init_dlbu_lem mali400 d z a =
      map_registers_lem b l g p use_g use_p (record d { va_end = va_reserve_end }) z.present
        (record {
          held = a.held ∙ ap (λ (c : Bool). opt c dlbu_page ++ owned3 d l) (sym z.dlbu_cpu);
          gp = a.gp;
          pp = a.pp;
        })
  init_dlbu_lem mali450 d z a = elim (Bool-cases b.dlbu_allocated) [
    | inr q ↦
        let e = record d { va_end = va_reserve_start } in
        simp q (
          goto_lem err_out3 enomem l g p e (holding l e) (err_out3_lem l e a.held)
            (refl, a.gp, a.pp))
    | inl q ↦ simp q (
        map_registers_lem b l g p use_g use_p
          (take dlbu_page (record d { va_end = va_reserve_start; dlbu_cpu = true })) z.present
          (record {
            held = ap (λ (h : List Resource). dlbu_page ∷ h) a.held;
            gp = a.gp;
            pp = a.pp;
          }))
  ]

  init_vm_lem : (d : Device) → Fresh d → At (owned2 d l) g p d → Balanced l g p (init_vm b d)
  unfolding init_vm
  init_vm_lem d z a = elim (Bool-cases b.vm_allocated) [
    | inr q ↦ simp q (
        goto_lem err_out2 enomem l g p d (holding l d) (err_out2_lem l d a.held) (refl, a.gp, a.pp))
    | inl q ↦ simp q (
        init_dlbu_lem b.id (take empty_vm d) (record { present = z.present; dlbu_cpu = z.dlbu_cpu })
          (record { held = ap (λ (h : List Resource). empty_vm ∷ h) a.held; gp = a.gp; pp = a.pp }))
  ]

  after_regulator :
      (r : Result (Result (Unit {0}))) (d : Device)
      → Fresh d
      → At (owned1 d l) g p d
      → Balanced l g p (on_error err_out1 (init_vm b) (regulator_init r d))
  unfolding regulator_init
  after_regulator (ok (ok u)) d z a =
      init_vm_lem (take supply (record d { regulator = true }))
        (record { present = z.present; dlbu_cpu = z.dlbu_cpu })
        (record { held = ap (λ (h : List Resource). supply ∷ h) a.held; gp = a.gp; pp = a.pp })
  after_regulator (ok (err e)) d z a =
      let d' = record d { regulator = true } in
      goto_lem err_out1 e l g p d' (holding l d') (err_out1_lem l d' a.held) (refl, a.gp, a.pp)
  after_regulator (err e) d z a = elim (Bool-cases (no_regulator e)) [
    | inl q ↦ simp q (
        init_vm_lem (record d { regulator = false })
          (record { present = z.present; dlbu_cpu = z.dlbu_cpu })
          (record { held = a.held; gp = a.gp; pp = a.pp }))
    | inr q ↦
        let d' = record d { regulator = false } in
        simp q (
          goto_lem err_out1 e l g p d' (holding l d') (err_out1_lem l d' a.held) (refl, a.gp, a.pp))
  ]

  after_clk :
      (bus core : Option (Result (Unit {0}))) (d : Device)
      → Fresh d
      → At (power ∷ l) g p d
      → Balanced l g p (clk_init bus core d >>= on_error err_out0 (init_regulator b))
  unfolding clk_init init_regulator
  after_clk none none d z a =
      after_regulator b.supply_found (record d { clk_bus = false; clk_gpu = false })
        (record { present = z.present; dlbu_cpu = z.dlbu_cpu })
        (record { held = a.held; gp = a.gp; pp = a.pp })
  after_clk none (some (ok u)) d z a =
      after_regulator b.supply_found (take gpu_clock (record d { clk_bus = false; clk_gpu = true }))
        (record { present = z.present; dlbu_cpu = z.dlbu_cpu })
        (record { held = ap (λ (h : List Resource). gpu_clock ∷ h) a.held; gp = a.gp; pp = a.pp })
  after_clk none (some (err e)) d z a =
      let d' = record d { clk_bus = false; clk_gpu = true } in
      goto_lem err_out0 e l g p d' (holding l d') (err_out0_lem l d' a.held) (refl, a.gp, a.pp)
  after_clk (some (err e)) none d z a =
      let d' = record d { clk_bus = true; clk_gpu = false } in
      goto_lem err_out0 e l g p d' (holding l d') (err_out0_lem l d' a.held) (refl, a.gp, a.pp)
  after_clk (some (err e)) (some r) d z a =
      let d' = record d { clk_bus = true; clk_gpu = true } in
      goto_lem err_out0 e l g p d' (holding l d') (err_out0_lem l d' a.held) (refl, a.gp, a.pp)
  after_clk (some (ok u)) none d z a =
      after_regulator b.supply_found (take bus_clock (record d { clk_bus = true; clk_gpu = false }))
        (record { present = z.present; dlbu_cpu = z.dlbu_cpu })
        (record { held = ap (λ (h : List Resource). bus_clock ∷ h) a.held; gp = a.gp; pp = a.pp })
  after_clk (some (ok u)) (some (ok v)) d z a =
      after_regulator b.supply_found
        (take gpu_clock (take bus_clock (record d { clk_bus = true; clk_gpu = true })))
        (record { present = z.present; dlbu_cpu = z.dlbu_cpu })
        (record {
          held = ap (λ (h : List Resource). gpu_clock ∷ bus_clock ∷ h) a.held;
          gp = a.gp;
          pp = a.pp;
        })
  after_clk (some (ok u)) (some (err e)) d z a =
      let d' = record d { clk_bus = true; clk_gpu = true } in
      goto_lem err_out0 e l g p d' (holding l d') (err_out0_lem l d' a.held) (refl, a.gp, a.pp)

  after_failure :
      (callback : Option (Result (Unit {0}))) (e : Errno) (d : Device)
      → At l g p d
      → Balanced (left_by (err e) callback ++ l) g p (some (err e, left_on callback d))
  after_failure none e d a =
      ((err e, take power d), refl, (ap (λ (h : List Resource). power ∷ h) a.held, a.gp, a.pp))
  after_failure (some answer) e d a = ((err e, d), refl, (a.held, a.gp, a.pp))

  device_init_lem :
      (d : Device)
      → Fresh d
      → At l g p d
      → Balanced (left_by (power_on b.callback b.domain) b.callback ++ l) g p (device_init b d)
  unfolding device_init init_clk
  device_init_lem d z a = elim (Result-cases (power_on b.callback b.domain)) [
    | inr (e, q) ↦ rw (q, device_init) (after_failure b.callback e d a)
    | inl (u, q) ↦
        rw (q, device_init)
          (after_clk b.bus b.core (take power d)
            (record { present = z.present; dlbu_cpu = z.dlbu_cpu })
            (record { held = ap (λ (h : List Resource). power ∷ h) a.held; gp = a.gp; pp = a.pp }))
  ]

-- For any answers of the kernel and the hardware, on a new device (no block present, no DLBU page)
-- whose two slabs exist while they are used: lima_device_init always returns. If it fails, the device
-- holds what it held before and the slabs have the users they had, with one exception: if the built-in
-- power on does not succeed, the power switch, that and nothing else, is held besides. If it succeeds,
-- lima_device_fini runs and restores what was held and the users of the slabs.
pub device_fini-device_init :
    (b : Board) (d : Device)
    → Fresh d
    → InUse d.gp_slab
    → InUse d.pp_slab
    → Balanced
        (left_by (power_on b.callback b.domain) b.callback ++ d.held)
        d.gp_slab
        d.pp_slab
        (device_init b d)
device_fini-device_init b d z u v =
    device_init_lem b d.held d.gp_slab d.pp_slab u v d z
      (record { held = refl; gp = refl; pp = refl })
