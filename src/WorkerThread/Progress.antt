-- ===== src/WorkerThread/Progress.antt =====
-- A call of a worker thread comes to its end: basic/workerthread.cpp.
use air_sane.Prelude.{
  ℕ, ◌+◌, ◌<◌, ◌≤◌, Bool, ◌≡◌, refl, sym, ◌∙◌, ap, true, false, ◌⊎◌, inl, inr, if◌then◌else◌, none,
  some, arith,
}
use air_sane.WorkerThread.{
  Stage, notifying, checking, locking, sleeping, exited, Caller, outside, asleep, woken,
  WorkerThread, set_caller, resume, recheck, Step, Orderly,
}
use air_sane.WorkerThread.Turns.{
  is_up, is_inside, IsAlone, IsOrderly, quiet, waiting, served, set_caller-at, alone_is,
  Orderly-IsOrderly,
}

abbrev stage_rank : Stage → ℕ
stage_rank notifying = 6
stage_rank checking = 4
stage_rank locking = 2
stage_rank sleeping = 0
stage_rank exited = 0

abbrev caller_rank : Caller → ℕ
caller_rank outside = 0
caller_rank asleep = 1
caller_rank woken = 2

-- How many steps are left at most before a caller has left, unless it is woken for no reason.
abbrev pub rank : ℕ → WorkerThread → ℕ
rank i s = stage_rank s.stage + caller_rank (s.callers i) + (if s.call_done then 0 else 10)

-- The program goes on.
abbrev pub IsActive : WorkerThread → Type 0
IsActive s = (t : WorkerThread) × Step s t

-- The call of one caller, before and after its callable is executed.
data CallOf (i : ℕ) (s : WorkerThread) : Type 0 where
  before :
      (k : ℕ)
      → IsAlone i s
      → is_inside (s.callers i) ≡ true
      → s.callable ≡ some k
      → s.terminate ≡ false
      → s.call_done ≡ false
      → is_up s.stage ≡ true
      → CallOf i s
  after :
      IsAlone i s
      → (s.callers i ≡ woken) ⊎ ((s.callers i ≡ asleep) × (s.stage ≡ notifying))
      → s.callable ≡ none
      → s.terminate ≡ false
      → s.call_done ≡ true
      → CallOf i s

inside-CallOf :
    (i : ℕ) (s : WorkerThread) → is_inside (s.callers i) ≡ true → IsOrderly s → CallOf i s
inside-CallOf i s inside (quiet q c r live) = absurd (let o = q i in cc)
inside-CallOf i s inside (waiting j k alone at_j c r t d u) =
    rw (alone_is j i s alone inside) (before k alone at_j c t d u)
inside-CallOf i s inside (served j alone w c r t d l) =
    rw (alone_is j i s alone inside) (after alone w c t d)

-- The thread, while a caller waits for it.
thread-IsActive :
    (i : ℕ) (s : WorkerThread) (st : Stage)
    → s.stage ≡ st
    → is_up st ≡ true
    → s.callers i ≡ asleep
    → s.terminate ≡ false
    → IsActive s
thread-IsActive i s notifying e u a t = (_, Step.notify i e a)
thread-IsActive i s checking e u a t = (_, Step.go_on e t)
thread-IsActive i s locking e u a t = (_, Step.enter e)
thread-IsActive i s sleeping e u a t = absurd cc
thread-IsActive i s exited e u a t = absurd cc

caller-IsActive :
    (i : ℕ) (s : WorkerThread) (c : Caller)
    → s.callers i ≡ c
    → is_inside c ≡ true
    → is_up s.stage ≡ true
    → s.terminate ≡ false
    → IsActive s
caller-IsActive i s outside e inside u t = absurd cc
caller-IsActive i s asleep e inside u t = thread-IsActive i s s.stage refl u e t
caller-IsActive i s woken e inside u t = (_, Step.look i e)

CallOf-IsActive : (i : ℕ) (s : WorkerThread) → CallOf i s → IsActive s
CallOf-IsActive i s (before k alone inside c t d u) =
    caller-IsActive i s (s.callers i) refl inside u t
CallOf-IsActive i s (after alone (inl w) c t d) = (_, Step.look i w)
CallOf-IsActive i s (after alone (inr (a, n)) c t d) = (_, Step.notify i n a)

resume-rank :
    (i : ℕ) (s : WorkerThread) → s.stage ≡ locking → CallOf i s → rank i (resume s) < rank i s
unfolding resume
resume-rank i s e (before k alone inside c t d u) = rw (e, c, d) (omega arith)
resume-rank i s e (after alone w c t d) = rw (e, c, d, t) (omega arith)

recheck-rank :
    (i : ℕ) (s : WorkerThread) → s.callers i ≡ woken → CallOf i s → rank i (recheck i s) < rank i s
unfolding recheck
recheck-rank i s w (before k alone inside c t d u) =
    let now : (recheck i s).callers i ≡ asleep =
      ap (λ b. set_caller i (if b then outside else asleep) s.callers i) d
      ∙ set_caller-at i asleep s.callers in
    rw (now, w) (omega arith)
recheck-rank i s w (after alone _ c t d) =
    let now : (recheck i s).callers i ≡ outside =
      ap (λ b. set_caller i (if b then outside else asleep) s.callers i) d
      ∙ set_caller-at i outside s.callers in
    rw (now, w) (omega arith)

CallOf-alone : (i j : ℕ) (s : WorkerThread) → CallOf i s → is_inside (s.callers j) ≡ true → j ≡ i
CallOf-alone i j s (before k alone inside c t d u) h = alone_is i j s alone h
CallOf-alone i j s (after alone w c t d) h = alone_is i j s alone h

CallOf-terminate : (i : ℕ) (s : WorkerThread) → CallOf i s → s.terminate ≡ false
CallOf-terminate i s (before k alone inside c t d u) = t
CallOf-terminate i s (after alone w c t d) = t

Step-rank : {s t : WorkerThread} (i : ℕ) → Step s t → CallOf i s → rank i t < rank i s
Step-rank {s = s} i (Step.notify j n a) h =
    let e = CallOf-alone i j s h (rw a refl) in
    let here : s.callers i ≡ asleep = ap s.callers (sym e) ∙ a in
    rw (e, n, here, set_caller-at i woken s.callers) (omega arith)
Step-rank {s = s} i (Step.notify_none n nobody) h = rw n (omega arith)
Step-rank {s = s} i (Step.go_on c t) h = rw c (omega arith)
Step-rank {s = s} i (Step.leave c t) h = absurd (let alive = CallOf-terminate i s h in cc)
Step-rank {s = s} i (Step.enter l) h = resume-rank i s l h
Step-rank {s = s} i (Step.look j w) h =
    let e = CallOf-alone i j s h (rw w refl) in
    let here : s.callers i ≡ woken = ap s.callers (sym e) ∙ w in rw e (recheck-rank i s here h)

stage_rank-bound : (st : Stage) → stage_rank st ≤ 6
stage_rank-bound notifying = omega arith
stage_rank-bound checking = omega arith
stage_rank-bound locking = omega arith
stage_rank-bound sleeping = omega arith
stage_rank-bound exited = omega arith

caller_rank-bound : (c : Caller) → caller_rank c ≤ 2
caller_rank-bound outside = omega arith
caller_rank-bound asleep = omega arith
caller_rank-bound woken = omega arith

done_rank-bound : (b : Bool) → (if b then 0 else 10) ≤ 10
done_rank-bound true = omega arith
done_rank-bound false = omega arith

rank-bound : (i : ℕ) (s : WorkerThread) → rank i s ≤ 18
rank-bound i s =
    omega (
      arith,
      stage_rank-bound s.stage,
      caller_rank-bound (s.callers i),
      done_rank-bound s.call_done,
    )

-- If calls and the destructor only come when no caller is inside, then while a caller is inside,
-- some step of the thread or of the caller can be taken, and each such step brings the end of the
-- call nearer: it lowers a number that is at most 18, and that only a wake for no reason can
-- raise.
pub Orderly-IsActive :
    (s : WorkerThread) (i : ℕ)
    → Orderly s
    → is_inside (s.callers i) ≡ true
    → IsActive s × ((t : WorkerThread) → Step s t → rank i t < rank i s) × (rank i s ≤ 18)
Orderly-IsActive s i r inside =
    let h = inside-CallOf i s inside (Orderly-IsOrderly r) in
    (CallOf-IsActive i s h, λ t st. Step-rank i st h, rank-bound i s)
