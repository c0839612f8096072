-- ===== src/Fence/Signal.antt =====
-- Signalling: the first signal of a fence wins, whoever sends it.
use lima_backport_sprd7730se.Prelude.{update, ℕ, ◌≡◌, refl, List, [], ◌∷◌, arith, false, ◌≢◌}
use lima_backport_sprd7730se.Errno.{Long, Result, ok, err, ebusy}
use lima_backport_sprd7730se.Fence.{
  Fences, Status, unsignaled, signaled, failed, is_unsignaled, signal, signal_error, error_code,
}

-- A call of `dma_fence_signal` or `dma_fence_signal_error`, at a time.
pub data Call : Type 0 where
  completes : ℕ → Call
  fails : Long → ℕ → Call

abbrev pub verdict : Call → Status
verdict (completes now) = signaled
verdict (fails error now) = failed (error_code error)

abbrev pub time : Call → ℕ
time (completes now) = now
time (fails error now) = now

pub call : ℕ → Call → Fences → Result (Unit {0}) × Fences
call f (completes now) s = signal f now s
call f (fails error now) s = signal_error f error now s

-- The calls in turn: what each returned, and the store at the end.
pub calls : ℕ → List Call → Fences → List (Result (Unit {0})) × Fences
calls f [] s = ([], s)
calls f (c ∷ cs) s = let rest = calls f cs (call f c s).1 in ((call f c s).0 ∷ rest.0, rest.1)

abbrev pub all_busy : List Call → List (Result (Unit {0}))
all_busy [] = []
all_busy (c ∷ cs) = err ebusy ∷ all_busy cs

abbrev pub stamped : ℕ → Call → Fences → Fences
stamped f c s = record s {
  status = update s.status f (verdict c);
  timestamp_ns = update s.timestamp_ns f (time c);
}

call-first :
    (f : ℕ) (c : Call) (s : Fences) → s.status f ≡ unsignaled → call f c s ≡ (ok tt, stamped f c s)
unfolding call signal signal_error
call-first f (completes now) s h = rw h
call-first f (fails error now) s h = rw h

stamped_late : (f : ℕ) (c : Call) (s : Fences) → is_unsignaled ((stamped f c s).status f) ≡ false
stamped_late f (completes now) s = ground arith
stamped_late f (fails error now) s = ground arith

call-late :
    (f : ℕ) (c : Call) (s : Fences)
    → is_unsignaled (s.status f) ≡ false
    → call f c s ≡ (err ebusy, s)
unfolding call signal signal_error
call-late f (completes now) s h = rw h
call-late f (fails error now) s h = rw h

calls-late :
    (f : ℕ) (cs : List Call) (s : Fences)
    → is_unsignaled (s.status f) ≡ false
    → calls f cs s ≡ (all_busy cs, s)
unfolding calls
calls-late f [] s h = refl
calls-late f (c ∷ cs) s h = rw (call-late f c s h, calls-late f cs s h)

-- Of any sequence of signals on a pending fence, the first sets status and time and returns 0, and
-- each later one returns -EBUSY; the final store has the first one's status and time at this fence,
-- every other fence as it was, and the reference counts as they were.
pub calls_first_wins :
    (f : ℕ) (c : Call) (cs : List Call) (s : Fences)
    → s.status f ≡ unsignaled
    → ((calls f (c ∷ cs) s).0 ≡ ok tt ∷ all_busy cs)
      × ((calls f (c ∷ cs) s).1.status f ≡ verdict c)
      × ((calls f (c ∷ cs) s).1.timestamp_ns f ≡ time c)
      × ((g : ℕ) → g ≢ f → (calls f (c ∷ cs) s).1.status g ≡ s.status g)
      × ((calls f (c ∷ cs) s).1.refcount ≡ s.refcount)
unfolding calls
calls_first_wins f c cs s h =
    rw (call-first f c s h, calls-late f cs (stamped f c s) (stamped_late f c s))
      (refl, ground arith, ground arith, ground arith, refl)
