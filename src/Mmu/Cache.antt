-- ===== src/Mmu/Cache.antt =====
-- The L2 cache blocks: lima_l2_cache.c.
use lima_backport_sprd7730se.Prelude.{
  refl, ◌∙◌, if_true, if_false, Bool-cases, inl, inr, false, ◌<◌, not, ◌&&◌, ℕ, ◌≡◌, Bool, true,
  ◌||◌, Option, some, List, [], ◌∷◌, ◌++◌, ◌==◌, if◌then◌else◌, has_bits,
}
use lima_backport_sprd7730se.Errno.{enodev, Result, ok, err}
use lima_backport_sprd7730se.Fence.{>>=-some, ◌>>=◌}
use lima_backport_sprd7730se.Mmu.Poll.{Deadline, poll-met}
use lima_backport_sprd7730se.Mmu.Enable.{is_ok, polled}
use lima_backport_sprd7730se.Mmu.{Reads, Writes, poll}

abbrev pub l2_cache_command : ℕ
l2_cache_command = 0x10

abbrev pub l2_cache_max_reads : ℕ
l2_cache_max_reads = 0x18

abbrev pub l2_cache_enable : ℕ
l2_cache_enable = 0x1c

abbrev pub l2_cache_status_command_busy : ℕ
l2_cache_status_command_busy = 1

abbrev pub l2_cache_command_clear_all : ℕ
l2_cache_command_clear_all = 1

-- LIMA_L2_CACHE_ENABLE_ACCESS | LIMA_L2_CACHE_ENABLE_READ_ALLOCATE
abbrev pub l2_cache_enable_used : ℕ
l2_cache_enable_used = 3

abbrev pub is_idle : ℕ → Bool
is_idle v = not (has_bits v l2_cache_status_command_busy)

-- lima_l2_cache_wait_idle hands on what the poll returns.
unfoldable pub l2_cache_flush : ℕ → Reads → Writes → Option (Result (Unit {0}) × Writes)
unfolding poll
l2_cache_flush fuel r w = poll fuel is_idle r 0 >>= λ ret.
    some (ret, w ++ (l2_cache_command, l2_cache_command_clear_all) ∷ [])

-- Whether one of the processors is present.
abbrev pub any_present : List Bool → Bool
any_present [] = false
any_present (b ∷ bs) = b || any_present bs

-- After the flush of lima_l2_cache_init.
abbrev pub after_flush : Result (Unit {0}) × Writes → Option (Result (Unit {0}) × Writes)
after_flush (err e, w) = some (err e, w)
after_flush (ok u, w) =
    some (ok tt, w ++ (l2_cache_enable, l2_cache_enable_used) ∷ (l2_cache_max_reads, 0x1c) ∷ [])

-- lima_l2_cache_init; `pps` says which of the processors 4 to 7 are present.
unfoldable pub l2_cache_init : ℕ → Bool → List Bool → Reads → Option (Result (Unit {0}) × Writes)
unfolding l2_cache_flush
l2_cache_init fuel is_cache2 pps r =
    if is_cache2 && not (any_present pps)
    then some (err enodev, [])
    else (l2_cache_flush fuel r [] >>= after_flush)

-- Whether the cache was enabled, and whether a flush was ordered before that.
abbrev pub enabled : Bool → Writes → Bool × Bool
enabled flushed [] = (false, flushed)
enabled flushed ((reg, v) ∷ w) =
    let on = enabled true w in
    let other = enabled flushed w in
    if reg == l2_cache_command
    then on
    else if reg == l2_cache_enable
    then (true, flushed)
    else other

flush_lem :
    (ret : Result (Unit {0}))
    → (x : Result (Unit {0}) × Writes) × (after_flush
          (ret, (l2_cache_command, l2_cache_command_clear_all) ∷ [])
        ≡ some x)
      × (x.0 ≡ ret)
      × (enabled false x.1 ≡ (is_ok ret, true))
flush_lem (ok u) = ((ok u, _), refl, refl, refl)
flush_lem (err e) = ((err e, _), refl, refl, refl)

-- The initialisation of an L2 cache, whose poll has its deadline after the n-th read, comes to an end
-- with more rounds than that. The third cache without one of its processors is refused with -ENODEV and not
-- touched; otherwise the result is that of the poll after the flush, which is ordered first, and the
-- cache is enabled just when the poll saw it idle.
pub l2_cache_init-poll :
    (fuel : ℕ) (is_cache2 : Bool) (pps : List Bool) (r : Reads) (n : ℕ)
    → n < fuel
    → Deadline r n 0
    → (x : Result (Unit {0}) × Writes) × (l2_cache_init fuel is_cache2 pps r ≡ some x)
      × (x.0 ≡ (if is_cache2 && not (any_present pps) then err enodev else polled is_idle r n))
      × (enabled false x.1 ≡ (
          if is_cache2 && not (any_present pps)
          then (false, false)
          else (is_ok (polled is_idle r n), true)))
unfolding l2_cache_init l2_cache_flush
l2_cache_init-poll fuel is_cache2 pps r n l d =
    elim (Bool-cases (is_cache2 && not (any_present pps))) [
      | inl e ↦ (
        (err enodev, []),
        if_true _ (l2_cache_flush fuel r [] >>= after_flush) e,
        rw (e) refl,
        rw (e) refl,
      )
      | inr e ↦
          let (x, k, same, on) = flush_lem (polled is_idle r n) in
          let flushed : l2_cache_flush fuel r []
              ≡ some (polled is_idle r n, (l2_cache_command, l2_cache_command_clear_all) ∷ []) =
            >>=-some (λ ret. some (ret, (l2_cache_command, l2_cache_command_clear_all) ∷ []))
              (poll-met fuel is_idle r n 0 l d) refl in
          (
            x,
            if_false (some (err enodev, [])) _ e ∙ >>=-some after_flush flushed k,
            rw (e) same,
            rw (e) on,
          )
    ]
