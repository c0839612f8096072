-- ===== src/Device/Unwind.antt =====
-- What the error labels and the removal give back, by what the pointers say that the device holds.
use lima_backport_sprd7730se.Prelude.{
  ℕ, zero, suc, ◌≡◌, refl, ap, Bool, true, false, Option, some, List, [], ◌∷◌, ◌++◌, arith,
}
use lima_backport_sprd7730se.Device.Ip.{
  Resource, power, bus_clock, gpu_clock, supply, empty_vm, dlbu_page, gp_queue, pp_queue, block,
  Slab, Device, ip_num,
}
use lima_backport_sprd7730se.Device.Init.{
  err_out0, err_out1, err_out2, err_out3, err_out4, err_out5, err_out6, device_fini,
}
use lima_backport_sprd7730se.Device.Parts.{
  release, release_if, clk_fini, regulator_fini, slab_fini, fini_gp_pipe, fini_pp_pipe, fini_ips,
}

-- What the pointers say that the device holds.
abbrev pub opt : Bool → Resource → List Resource
opt true r = r ∷ []
opt false r = []

abbrev pub blocks : (ℕ → Bool) → ℕ → List Resource → List Resource
blocks present zero l = l
blocks present (suc i) l = opt (present i) (block i) ++ blocks present i l

-- What a device holds where each label stands, on top of `l`.
abbrev pub owned1 : Device → List Resource → List Resource
owned1 d l = opt d.clk_gpu gpu_clock ++ (opt d.clk_bus bus_clock ++ power ∷ l)

abbrev pub owned2 : Device → List Resource → List Resource
owned2 d l = opt d.regulator supply ++ owned1 d l

abbrev pub owned3 : Device → List Resource → List Resource
owned3 d l = empty_vm ∷ owned2 d l

abbrev pub owned4 : Device → List Resource → List Resource
owned4 d l = opt d.dlbu_cpu dlbu_page ++ owned3 d l

abbrev pub owned5 : ℕ → Device → List Resource → List Resource
owned5 i d l = blocks d.present i (owned4 d l)

pub release_lem :
    (r : Resource) (l : List Resource) (d : Device)
    → d.held ≡ r ∷ l
    → release r d ≡ some (record d { held = l })
unfolding release
release_lem r l d e = rw e (ground arith)

release_if_lem :
    (c : Bool) (r : Resource) (l : List Resource) (d : Device)
    → d.held ≡ opt c r ++ l
    → release_if c r d ≡ some (record d { held = l })
release_if_lem true r l d e = release_lem r l d e
release_if_lem false r l d e = ap (λ (h : List Resource). some (record d { held = h })) e

-- A label gives back everything down to `l`, and leaves the slabs alone.
abbrev pub Undoes : Option Device → List Resource → Slab → Slab → Type 0
Undoes o l g p = (d : Device) × (o ≡ some d) × (d.held ≡ l) × (d.gp_slab ≡ g) × (d.pp_slab ≡ p)

-- The device with another list.
abbrev pub holding : List Resource → Device → Device
holding l d = record d { held = l }

clk_fini_lem :
    (l : List Resource) (d : Device)
    → d.held ≡ opt d.clk_gpu gpu_clock ++ (opt d.clk_bus bus_clock ++ l)
    → clk_fini d ≡ some (holding l d)
unfolding clk_fini
clk_fini_lem l d e =
    rw (release_if_lem d.clk_gpu gpu_clock (opt d.clk_bus bus_clock ++ l) d e)
      (release_if_lem d.clk_bus bus_clock l (holding (opt d.clk_bus bus_clock ++ l) d) refl)

regulator_fini_lem :
    (l : List Resource) (d : Device)
    → d.held ≡ opt d.regulator supply ++ l
    → regulator_fini d ≡ some (holding l d)
unfolding regulator_fini
regulator_fini_lem l d e = release_if_lem d.regulator supply l d e

fini_ips_lem :
    (i : ℕ) (l : List Resource) (d : Device)
    → d.held ≡ blocks d.present i l
    → fini_ips i d ≡ some (holding l d)
unfolding fini_ips
fini_ips_lem zero l d e = ap (λ (h : List Resource). some (holding h d)) e
fini_ips_lem (suc i) l d e =
    rw (release_if_lem (d.present i) (block i) (blocks d.present i l) d e)
      (fini_ips_lem i l (holding (blocks d.present i l) d) refl)

-- Each label gives back what the device holds there, down to `l`.
pub err_out0_lem :
    (l : List Resource) (d : Device) → d.held ≡ power ∷ l → err_out0 d ≡ some (holding l d)
unfolding err_out0
err_out0_lem l d e = release_lem power l d e

pub err_out1_lem :
    (l : List Resource) (d : Device) → d.held ≡ owned1 d l → err_out1 d ≡ some (holding l d)
unfolding err_out1
err_out1_lem l d e = rw (clk_fini_lem (power ∷ l) d e) (err_out0_lem l (holding (power ∷ l) d) refl)

pub err_out2_lem :
    (l : List Resource) (d : Device) → d.held ≡ owned2 d l → err_out2 d ≡ some (holding l d)
unfolding err_out2
err_out2_lem l d e =
    rw (regulator_fini_lem (owned1 d l) d e) (err_out1_lem l (holding (owned1 d l) d) refl)

pub err_out3_lem :
    (l : List Resource) (d : Device) → d.held ≡ owned3 d l → err_out3 d ≡ some (holding l d)
unfolding err_out3
err_out3_lem l d e =
    rw (release_lem empty_vm (owned2 d l) d e) (err_out2_lem l (holding (owned2 d l) d) refl)

pub err_out4_lem :
    (l : List Resource) (d : Device) → d.held ≡ owned4 d l → err_out4 d ≡ some (holding l d)
unfolding err_out4
err_out4_lem l d e =
    rw (release_if_lem d.dlbu_cpu dlbu_page (owned3 d l) d e)
      (err_out3_lem l (holding (owned3 d l) d) refl)

pub err_out5_lem :
    (i : ℕ) (l : List Resource) (d : Device)
    → d.held ≡ owned5 i d l
    → err_out5 i d ≡ some (holding l d)
unfolding err_out5
err_out5_lem i l d e =
    rw (fini_ips_lem i (owned4 d l) d e) (err_out4_lem l (holding (owned4 d l) d) refl)

fini_gp_pipe_lem :
    (l : List Resource) (g : Slab) (d : Device)
    → slab_fini d.gp_slab ≡ some g
    → d.held ≡ gp_queue ∷ l
    → fini_gp_pipe d ≡ some (record d { held = l; gp_slab = g })
unfolding fini_gp_pipe
fini_gp_pipe_lem l g d s e = rw s (release_lem gp_queue l (record d { gp_slab = g }) e)

fini_pp_pipe_lem :
    (l : List Resource) (p : Slab) (d : Device)
    → slab_fini d.pp_slab ≡ some p
    → d.held ≡ pp_queue ∷ l
    → fini_pp_pipe d ≡ some (record d { held = l; pp_slab = p })
unfolding fini_pp_pipe
fini_pp_pipe_lem l p d s e = rw s (release_lem pp_queue l (record d { pp_slab = p }) e)

pub err_out6_lem :
    (i : ℕ) (l : List Resource) (g : Slab) (d : Device)
    → slab_fini d.gp_slab ≡ some g
    → d.held ≡ gp_queue ∷ owned5 i d l
    → err_out6 i d ≡ some (record d { held = l; gp_slab = g })
unfolding err_out6
err_out6_lem i l g d s e =
    rw (fini_gp_pipe_lem (owned5 i d l) g d s e)
      (err_out5_lem i l (record d { gp_slab = g; held = owned5 i d l }) refl)

pub device_fini_lem :
    (l : List Resource) (g p : Slab) (d : Device)
    → slab_fini d.gp_slab ≡ some g
    → slab_fini d.pp_slab ≡ some p
    → d.held ≡ pp_queue ∷ gp_queue ∷ owned5 ip_num d l
    → device_fini d ≡ some (record d { held = l; gp_slab = g; pp_slab = p })
unfolding device_fini
device_fini_lem l g p d s t e =
    let d1 = record d { pp_slab = p; gp_slab = g } in
    rw
      (
        fini_pp_pipe_lem (gp_queue ∷ owned5 ip_num d l) p d t e,
        fini_gp_pipe_lem (owned5 ip_num d l) g
            (record d { pp_slab = p; held = gp_queue ∷ owned5 ip_num d l }) s refl,
        fini_ips_lem ip_num (owned4 d l) (record d1 { held = owned5 ip_num d l }) refl,
        release_if_lem d.dlbu_cpu dlbu_page (owned3 d l) (record d1 { held = owned4 d l }) refl,
        regulator_fini_lem (owned1 d l) (record d1 { held = owned2 d l }) refl,
        clk_fini_lem (power ∷ l) (record d1 { held = owned1 d l }) refl,
      )
      (release_lem power l (record d1 { held = power ∷ l }) refl)
