-- ===== src/Sched/Engine/Fifo.antt =====
-- The pipe as a queue: an abstract machine that accepts tasks at one end and answers them at the other,
-- and the proof that every event of a pipe is a few of its moves.
use lima_backport_sprd7730se.Prelude.{
  some_inj, ◌≡◌, refl, ap, sym, ◌∙◌, Bool, some, List, [], ◌∷◌, ◌++◌, map,
}
use mathlib.Core.List.{append_assoc, append-nil}
use mathlib.Core.Path.{subst}
use lima_backport_sprd7730se.Sched.Task.{Task}
use lima_backport_sprd7730se.Sched.Pipe.{Config, Pipe}
use lima_backport_sprd7730se.Sched.Engine.{
  Event, submits, runs, completes, times_out, interrupts, faults, others, step, steps, pending,
  Allowed,
}
use lima_backport_sprd7730se.Sched.Engine.Core.{task_of}
use lima_backport_sprd7730se.Sched.Engine.Invariant.{Inv}
use lima_backport_sprd7730se.Sched.Engine.History.{step-Inv, AllowedAll, After}
use lima_backport_sprd7730se.Sched.Engine.Grows.{Grows, step-Grows, submitted_by, submitted_in}

-- The tasks that wait, the oldest first, and the answers given, the oldest first.
pub record Fifo : Type 0 where
  pub waiting : List Task
  pub answers : List (Task × Bool)

-- One move, which accepts a task or none.
pub data Move (accepted : List Task) (s t : Fifo) : Type 0 where
  accepts :
      (x : Task)
      → accepted ≡ x ∷ []
      → t ≡ record s { waiting = s.waiting ++ x ∷ [] }
      → Move accepted s t
  answers_first :
      (x : Task) (failed : Bool) (rest : List Task)
      → accepted ≡ []
      → s.waiting ≡ x ∷ rest
      → t ≡ record s { waiting = rest; answers = s.answers ++ (x, failed) ∷ [] }
      → Move accepted s t

-- The moves from `s`, with the tasks that they accept, the first first.
pub data Moves (s : Fifo) : List Task → Fifo → Type 0 where
  here : Moves s [] s
  next : {l m n : List Task} {t u : Fifo} → Moves s l t → Move m t u → n ≡ l ++ m → Moves s n u

-- What a user sees of a pipe.
abbrev pub view : Pipe → Fifo
view p = record { waiting = pending p; answers = p.finished }

-- Answers for the first tasks of a queue are moves, which accept none.
serve-Moves :
    (s : Fifo) (l : List Task) (done : List (Task × Bool)) (rest before : List Task)
    (given : List (Task × Bool))
    → before ≡ map task_of done ++ rest
    → Moves s l (record { waiting = before; answers = given })
    → Moves s l (record { waiting = rest; answers = given ++ done })
serve-Moves s l [] rest before given e m =
    subst (λ (g : List (Task × Bool)). Moves s l (record { waiting = rest; answers = g }))
      (sym (append-nil given))
      (subst (λ (w : List Task). Moves s l (record { waiting = w; answers = given })) e m)
serve-Moves s l ((x, failed) ∷ done) rest before given e m =
    let after : Fifo = record {
      waiting = map task_of done ++ rest;
      answers = given ++ (x, failed) ∷ [];
    } in
    let first : Move [] (record { waiting = before; answers = given }) after =
      answers_first x failed (map task_of done ++ rest) refl e refl in
    subst (λ (g : List (Task × Bool)). Moves s l (record { waiting = rest; answers = g }))
      (append_assoc given ((x, failed) ∷ []) done)
      (serve-Moves s l done rest (map task_of done ++ rest) (given ++ (x, failed) ∷ []) refl
        (next m first (sym (append-nil l))))

cancel : (xs ys zs : List Task) → xs ++ ys ≡ xs ++ zs → ys ≡ zs
cancel [] ys zs e = e
cancel (x ∷ xs) ys zs e = cancel xs ys zs cc

map-append :
    (xs ys : List (Task × Bool)) → map task_of (xs ++ ys) ≡ map task_of xs ++ map task_of ys
map-append [] ys = refl
map-append (x ∷ xs) ys = ap (λ (l : List Task). task_of x ∷ l) (map-append xs ys)

-- What an event submits joins the end, what it finishes leaves the front.
step-balance :
    (p q : Pipe) (ts : List Task) (done : List (Task × Bool))
    → p.submitted ≡ map task_of p.finished ++ pending p
    → q.submitted ≡ map task_of q.finished ++ pending q
    → Grows p q ts done
    → pending p ++ ts ≡ map task_of done ++ pending q
step-balance p q ts done ep eq g = cancel (map task_of p.finished) _ _ (
    sym (append_assoc (map task_of p.finished) (pending p) ts)
    ∙ ap (λ (l : List Task). l ++ ts) (sym ep)
    ∙ sym g.submitted
    ∙ eq
    ∙ ap (λ (l : List (Task × Bool)). map task_of l ++ pending q) g.finished
    ∙ ap (λ (l : List Task). l ++ pending q) (map-append p.finished done)
    ∙ append_assoc (map task_of p.finished) (map task_of done) (pending q))

accept-Moves :
    (e : Event) (s : Fifo) (l : List Task) (t : Fifo)
    → Moves s l t
    → Moves s (l ++ submitted_by e) (record t { waiting = t.waiting ++ submitted_by e })
accept-Moves (submits x) s l t m =
    let last : Move (x ∷ []) t (record t { waiting = t.waiting ++ x ∷ [] }) = accepts x refl refl in
    next m last refl
accept-Moves (runs now) s l t m = rw (append-nil t.waiting, append-nil l) m
accept-Moves (completes now) s l t m = rw (append-nil t.waiting, append-nil l) m
accept-Moves times_out s l t m = rw (append-nil t.waiting, append-nil l) m
accept-Moves (interrupts failed) s l t m = rw (append-nil t.waiting, append-nil l) m
accept-Moves faults s l t m = rw (append-nil t.waiting, append-nil l) m
accept-Moves (others x pd) s l t m = rw (append-nil t.waiting, append-nil l) m

step-Moves :
    (c : Config) (e : Event) (s : Fifo) (l : List Task) (p q : Pipe)
    → Allowed e p
    → Inv p
    → step c e p ≡ some q
    → Moves s l (view p)
    → Moves s (l ++ submitted_by e) (view q)
step-Moves c e s l p q a v h m =
    let (r, e', w) = step-Inv c e p a v in
    let w' : Inv q = subst Inv (some_inj (sym e' ∙ h)) w in
    let (done, g) = step-Grows c e p q h in
    subst
      (λ (a : List (Task × Bool)).
        Moves s (l ++ submitted_by e) (record { waiting = pending q; answers = a }))
      (sym g.finished)
      (serve-Moves s (l ++ submitted_by e) done (pending q) (pending p ++ submitted_by e) p.finished
        (step-balance p q (submitted_by e) done v.core.order w'.core.order g)
        (accept-Moves e s l (view p) m))

pub steps-Moves :
    (c : Config) (es : List Event) (s : Fifo) (l : List Task) (p : Pipe)
    → AllowedAll c es p
    → Inv p
    → Moves s l (view p)
    → (q : Pipe) × (steps c es p ≡ some q) × Moves s (l ++ submitted_in es) (view q)
unfolding steps AllowedAll
steps-Moves c [] s l p h v m = (p, refl, rw (append-nil l) m)
steps-Moves c (e ∷ es) s l p h v m =
    let (q, e', w) = step-Inv c e p h.0 v in
    let (r, e'', x) =
      steps-Moves c es s (l ++ submitted_by e) q (subst (After (AllowedAll c es)) e' h.1) w
        (step-Moves c e s l p q h.0 v e' m) in
    (
      r,
      rw (e', steps) e'',
      subst (λ (a : List Task). Moves s a (view r))
          (append_assoc l (submitted_by e) (submitted_in es)) x,
    )
