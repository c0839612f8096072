-- ===== src/Device/Ip.antt =====
-- The blocks of the GPU: `enum lima_ip_id`, `lima_ip_desc` and lima_init_ip of lima_device.c.
use lima_backport_sprd7730se.Prelude.{
  ℕ, zero, suc, ◌+◌, Bool, true, false, Option, none, some, List, [], ◌∷◌, if◌then◌else◌, update,
  get_elem?,
}
use lima_backport_sprd7730se.Errno.{Result, ok, err}

pub data Gpu : Type 0 where
  mali400 mali450 : Gpu

-- What the device holds and has to give back: a reference, an enabled clock, a running block.
pub data Resource : Type 0 where
  power bus_clock gpu_clock supply empty_vm dlbu_page gp_queue pp_queue : Resource
  block : ℕ → Resource

abbrev pub code : Resource → ℕ
code power = 0
code bus_clock = 1
code gpu_clock = 2
code supply = 3
code empty_vm = 4
code dlbu_page = 5
code gp_queue = 6
code pp_queue = 7
code (block i) = 8 + i

-- Positions in the table, in the order of `enum lima_ip_id`.
abbrev pub id_gpmmu : ℕ
id_gpmmu = 1

abbrev pub id_ppmmu0 : ℕ
id_ppmmu0 = 2

abbrev pub id_gp : ℕ
id_gp = 10

abbrev pub id_pp0 : ℕ
id_pp0 = 11

abbrev pub id_l2_cache0 : ℕ
id_l2_cache0 = 19

abbrev pub id_l2_cache1 : ℕ
id_l2_cache1 = 20

abbrev pub id_bcast : ℕ
id_bcast = 23

abbrev pub ip_num : ℕ
ip_num = 26

-- One line of `lima_ip_desc`: for each GPU whether the block must be there and its offset, `none` for
-- -1, and whether it has an interrupt.
pub record Desc : Type 0 where
  pub must400 : Bool
  pub must450 : Bool
  pub offset400 : Option ℕ
  pub offset450 : Option ℕ
  pub has_irq : Bool

abbrev desc : Bool → Bool → Option ℕ → Option ℕ → Bool → Desc
desc m4 m5 o4 o5 i = record {
  must400 = m4;
  must450 = m5;
  offset400 = o4;
  offset450 = o5;
  has_irq = i;
}

unfoldable pub descs : List Desc
descs =
    desc false false (some 8192) (some 8192) true
    ∷ desc true true (some 12288) (some 12288) true
    ∷ desc true true (some 16384) (some 16384) true
    ∷ desc false false (some 20480) (some 20480) true
    ∷ desc false false (some 24576) (some 24576) true
    ∷ desc false false (some 28672) (some 28672) true
    ∷ desc false false none (some 114688) true
    ∷ desc false false none (some 118784) true
    ∷ desc false false none (some 122880) true
    ∷ desc false false none (some 126976) true
    ∷ desc true true (some 0) (some 0) true
    ∷ desc true true (some 32768) (some 32768) true
    ∷ desc false false (some 40960) (some 40960) true
    ∷ desc false false (some 49152) (some 49152) true
    ∷ desc false false (some 57344) (some 57344) true
    ∷ desc false false none (some 163840) true
    ∷ desc false false none (some 172032) true
    ∷ desc false false none (some 180224) true
    ∷ desc false false none (some 188416) true
    ∷ desc true true (some 4096) (some 65536) false
    ∷ desc false true none (some 4096) false
    ∷ desc false false none (some 69632) false
    ∷ desc false true none (some 81920) false
    ∷ desc false true none (some 77824) false
    ∷ desc false true none (some 90112) true
    ∷ desc false true none (some 86016) false
    ∷ []

abbrev pub offset : Gpu → Desc → Option ℕ
offset mali400 x = x.offset400
offset mali450 x = x.offset450

abbrev pub must_have : Gpu → Desc → Bool
must_have mali400 x = x.must400
must_have mali450 x = x.must450

-- A slab that several devices share: whether it exists, and how many use it.
pub record Slab : Type 0 where
  pub exists : Bool
  pub refcnt : ℕ

-- The state of a device. `held` is what it holds, the last first. `present` says which blocks came
-- up; the other Booleans say which pointers are set. The lists are those of the two pipes.
pub record Device : Type 0 where
  pub held : List Resource
  pub clk_bus : Bool
  pub clk_gpu : Bool
  pub regulator : Bool
  pub dlbu_cpu : Bool
  pub present : ℕ → Bool
  pub va_end : ℕ
  pub num_pp : ℕ
  pub gp_slab : Slab
  pub pp_slab : Slab
  pub pp_processor : List ℕ
  pub pp_mmu : List ℕ
  pub pp_l2_cache : List ℕ
  pub pp_bcast : Bool

-- What the kernel and the hardware answer during the initialisation. A clock is `none` if it is not
-- found, else what enabling it returns; `irq` and `start` are the answers for each block.
pub record Board : Type 0 where
  pub id : Gpu
  pub callback : Option (Result (Unit {0}))
  pub domain : ℕ → ℕ
  pub bus : Option (Result (Unit {0}))
  pub core : Option (Result (Unit {0}))
  pub supply_found : Result (Result (Unit {0}))
  pub vm_allocated : Bool
  pub dlbu_allocated : Bool
  pub registers_found : Bool
  pub registers_mapped : Result (Unit {0})
  pub irq : ℕ → Result (Unit {0})
  pub start : ℕ → Result (Unit {0})
  pub gp_queue_allocated : Bool
  pub gp_slab_allocated : Bool
  pub pp_queue_allocated : Bool
  pub pp_slab_allocated : Bool

-- The block answers its interrupt's number if it has one, and then starts.
abbrev pub bring_up : Board → Desc → ℕ → Result (Unit {0})
bring_up b x i =
    if x.has_irq then elim (b.irq i) [ err e ↦ err e | ok n ↦ b.start i ] else b.start i

-- lima_init_ip: a block that must not be there may fail.
unfoldable pub init_ip : Board → Option Desc → ℕ → Device → Result (Unit {0}) × Device
init_ip b none i d = (ok tt, d)
init_ip b (some x) i d = elim (offset b.id x) [
  | none ↦ (ok tt, d)
  | some o ↦ elim (bring_up b x i) [
    | ok u ↦ (ok tt, record d { present = update d.present i true; held = block i ∷ d.held })
    | err e ↦ (if must_have b.id x then err e else ok tt, d)
  ]
]

-- Go on after a success; after an error, stop with the number reached.
abbrev pub or_stop :
    ℕ
    → (Device → Result (Unit {0}) × (ℕ × Device))
    → Result (Unit {0}) × Device
    → Result (Unit {0}) × (ℕ × Device)
or_stop i next (ok u, d) = next d
or_stop i next (err e, d) = (err e, (i, d))

-- The loop over the blocks from `i` on, `k` of them, up to the first error; with the number reached.
unfoldable pub init_ips : Board → ℕ → ℕ → Device → Result (Unit {0}) × (ℕ × Device)
unfolding init_ip descs
init_ips b zero i d = (ok tt, (i, d))
init_ips b (suc k) i d = or_stop i (init_ips b k (suc i)) (init_ip b (get_elem? descs i) i d)
