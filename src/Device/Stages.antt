-- ===== src/Device/Stages.antt =====
-- The later stages of the initialisation, from the registers on, give back what they took.
use lima_backport_sprd7730se.Prelude.{
  ℕ, zero, suc, ◌+◌, ◌≡◌, refl, sym, ap, ◌∙◌, inl, inr, ◌⊎◌, Bool, true, false, Option, none, some,
  List, ◌∷◌, ltb, arith, Bool-cases,
}
use mathlib.Core.Path.{subst}
use lima_backport_sprd7730se.Errno.{enomem, enodev}
use lima_backport_sprd7730se.Errno.{Errno, Result, ok, err}
use lima_backport_sprd7730se.Fence.{◌>>=◌}
use lima_backport_sprd7730se.Device.Ip.{Resource, gp_queue, pp_queue, Slab, Device, Board, ip_num}
use lima_backport_sprd7730se.Device.Init.{
  err_out4, err_out5, err_out6, goto, on_error, init_pp, init_gp, init_blocks, map_registers,
  device_fini,
}
use lima_backport_sprd7730se.Device.Parts.{
  Outcome, take, slab_init, slab_fini, init_gp_pipe, found_pps, set_up_pp_pipe, max_processor,
  init_pp_pipe,
}
use lima_backport_sprd7730se.Device.Unwind.{
  blocks, owned4, owned5, holding, err_out4_lem, err_out5_lem, err_out6_lem, device_fini_lem,
}
use lima_backport_sprd7730se.Device.Blocks.{add_pps-lists, Reached, init_ips_lem}

-- The list and the slabs of a device that has nothing more than before.
abbrev pub Restored : List Resource → Slab → Slab → Device → Type 0
Restored l g p d = (d.held ≡ l) × (d.gp_slab ≡ g) × (d.pp_slab ≡ p)

-- A failed initialisation has given everything back; after a successful one the removal runs and
-- gives everything back.
abbrev pub AfterInit : List Resource → Slab → Slab → Outcome → Type 0
AfterInit l g p (err e, d) = Restored l g p d
AfterInit l g p (ok u, d) = (d' : Device) × (device_fini d ≡ some d') × Restored l g p d'

abbrev pub Balanced : List Resource → Slab → Slab → Option Outcome → Type 0
Balanced l g p o = (x : Outcome) × (o ≡ some x) × AfterInit l g p x

-- A slab exists while a device uses it.
abbrev pub InUse : Slab → Type 0
InUse s = s.exists ≡ ltb 0 s.refcnt

slab_fini-slab_init :
    (allocated exists : Bool) (n : ℕ)
    → exists ≡ ltb 0 n
    → (slab_init allocated (record { exists = exists; refcnt = n }) ≡ none)
      ⊎ ((t : Slab) × (slab_init allocated (record { exists = exists; refcnt = n }) ≡ some t)
          × (slab_fini t ≡ some (record { exists = exists; refcnt = n })))
unfolding slab_init slab_fini
slab_fini-slab_init allocated true zero h = ground (arith, h)
slab_fini-slab_init allocated true (suc n) h =
    inr (record { exists = true; refcnt = suc n + 1 }, refl, ground arith)
slab_fini-slab_init true false zero h = inr (record { exists = true; refcnt = 1 }, refl, refl)
slab_fini-slab_init false false zero h = inl refl
slab_fini-slab_init allocated false (suc n) h = ground (arith, h)

pub goto_lem :
    (label : Device → Option Device) (e : Errno) (l : List Resource) (g p : Slab) (d d' : Device)
    → label d ≡ some d'
    → Restored l g p d'
    → Balanced l g p (goto label e d)
goto_lem label e l g p d d' h r = ((err e, d'), rw h refl, r)

-- What holds between two stages: the list, the slabs, and what later stages have not set yet.
pub record At (l : List Resource) (g p : Slab) (d : Device) : Type 0 where
  pub held : d.held ≡ l
  pub gp : d.gp_slab ≡ g
  pub pp : d.pp_slab ≡ p

pub record Fresh (d : Device) : Type 0 where
  pub present : d.present ≡ (λ _. false)
  pub dlbu_cpu : d.dlbu_cpu ≡ false

-- The parameters that no stage changes: the answers, and what the device held and shared before.
module _ (b : Board) (l : List Resource) (g p : Slab) (use_g : InUse g) (use_p : InUse p) where
  set_up_pp :
      (d : Device)
      → d.held ≡ gp_queue ∷ owned5 ip_num d l
      → slab_fini d.gp_slab ≡ some g
      → d.pp_slab ≡ p
      → Balanced l g p (
          set_up_pp_pipe b.pp_slab_allocated d
          >>= on_error (err_out6 ip_num) (λ e. some (ok tt, e)))
  unfolding set_up_pp_pipe
  set_up_pp d e s t =
      elim (slab_fini-slab_init b.pp_slab_allocated d.pp_slab.exists d.pp_slab.refcnt
        (subst InUse (sym t) use_p)) [
          | inl n ↦
              rw (n, set_up_pp_pipe)
                (goto_lem (err_out6 ip_num) enomem l g p d (record d { held = l; gp_slab = g })
                  (err_out6_lem ip_num l g d s e) (refl, refl, t))
          | inr (q, n, f) ↦ (
            (ok tt, take pp_queue (record d { pp_slab = q })),
            rw (n, set_up_pp_pipe) refl,
            (
              record d { held = l; gp_slab = g; pp_slab = p },
              device_fini_lem l g p (take pp_queue (record d { pp_slab = q })) s (f ∙ ap some t)
                  (ap (λ (h : List Resource). pp_queue ∷ h) e),
              (refl, refl, refl),
            ),
          )
        ]

  init_pp_lem :
      (d : Device)
      → d.held ≡ gp_queue ∷ owned5 ip_num d l
      → slab_fini d.gp_slab ≡ some g
      → d.pp_slab ≡ p
      → Balanced l g p (init_pp b d)
  unfolding init_pp init_pp_pipe
  init_pp_lem d e s t = elim (Bool-cases b.pp_queue_allocated) [
    | inl q ↦
        let (m, r, c, f) = add_pps-lists b.id max_processor 0 d in
        simp q (set_up_pp (found_pps b.id d) (rw f e) (rw f s) (rw f t))
    | inr q ↦ simp q (
        goto_lem (err_out6 ip_num) enomem l g p d (record d { held = l; gp_slab = g })
          (err_out6_lem ip_num l g d s e) (refl, refl, t))
  ]

  init_gp_lem : (d : Device) → At (owned5 ip_num d l) g p d → Balanced l g p (init_gp b d)
  unfolding init_gp init_gp_pipe
  init_gp_lem d a = elim (Bool-cases b.gp_queue_allocated) [
    | inr q ↦ simp q (
        goto_lem (err_out5 ip_num) enomem l g p d (holding l d) (err_out5_lem ip_num l d a.held)
          (refl, a.gp, a.pp))
    | inl q ↦
        elim (slab_fini-slab_init b.gp_slab_allocated d.gp_slab.exists d.gp_slab.refcnt
          (subst InUse (sym a.gp) use_g)) [
            | inl n ↦
                simp (q, n)
                  (goto_lem (err_out5 ip_num) enomem l g p d (holding l d)
                    (err_out5_lem ip_num l d a.held) (refl, a.gp, a.pp))
            | inr (t, n, f) ↦
                simp (q, n)
                  (init_pp_lem (take gp_queue (record d { gp_slab = t }))
                    (ap (λ (h : List Resource). gp_queue ∷ h) a.held) (f ∙ ap some a.gp) a.pp)
          ]
  ]

  after_blocks :
      (r : Result (Unit {0})) (n : ℕ) (d : Device)
      → Reached r n ip_num
      → At (owned5 n d l) g p d
      → Balanced l g p (on_error (err_out5 n) (init_gp b) (r, d))
  after_blocks (ok u) n d h a = init_gp_lem d (subst (λ m. At (owned5 m d l) g p d) h a)
  after_blocks (err e) n d h a =
      goto_lem (err_out5 n) e l g p d (holding l d) (err_out5_lem n l d a.held) (refl, a.gp, a.pp)

  init_blocks_lem :
      (d : Device)
      → d.present ≡ (λ _. false)
      → At (owned4 d l) g p d
      → Balanced l g p (init_blocks b d)
  unfolding init_blocks
  init_blocks_lem d z a =
      let (pr, r, n, e, h) =
        init_ips_lem b ip_num 0 (owned4 d l) d a.held (λ j _. ap (λ (f : ℕ → Bool). f j) z) in
      rw e (
        after_blocks r n (record d { present = pr; held = blocks pr n (owned4 d l) }) h
          (record { held = refl; gp = a.gp; pp = a.pp }))

  after_mapping :
      (r : Result (Unit {0})) (d : Device)
      → d.present ≡ (λ _. false)
      → At (owned4 d l) g p d
      → Balanced l g p (on_error err_out4 (init_blocks b) (r, d))
  after_mapping (ok u) d z a = init_blocks_lem d z a
  after_mapping (err e) d z a =
      goto_lem err_out4 e l g p d (holding l d) (err_out4_lem l d a.held) (refl, a.gp, a.pp)

  pub map_registers_lem :
      (d : Device)
      → d.present ≡ (λ _. false)
      → At (owned4 d l) g p d
      → Balanced l g p (map_registers b d)
  unfolding map_registers
  map_registers_lem d z a = elim (Bool-cases b.registers_found) [
    | inr q ↦ simp q (
        goto_lem err_out4 enodev l g p d (holding l d) (err_out4_lem l d a.held) (refl, a.gp, a.pp))
    | inl q ↦ simp q (after_mapping b.registers_mapped d z a)
  ]
