-- ===== src/WorkerThread/Turns.antt =====
-- The callers of a worker thread that come one after another: basic/workerthread.cpp.
use air_sane.Prelude.{
  ℕ, ◌==◌, ==_iff, ◌≡◌, ◌≢◌, refl, sym, ◌∙◌, ap, Bool, true, false, ◌⊎◌, inl, inr, List, [], ◌∷◌,
  ◌++◌, append-nil, Option, none, some, arith, Bool-cases,
}
use air_sane.WorkerThread.{
  Stage, notifying, checking, locking, sleeping, exited, Caller, outside, asleep, woken,
  WorkerThread, initial, rouse, set_caller, resume, execute, recheck, destroy, Step, Stir, IsQuiet,
  Orderly,
}

abbrev pub pending : Option ℕ → List ℕ
pending none = []
pending (some k) = k ∷ []

abbrev pub is_live : Stage → Bool
is_live exited = false
is_live _ = true

-- The thread goes on by itself.
abbrev pub is_up : Stage → Bool
is_up sleeping = false
is_up exited = false
is_up _ = true

abbrev pub is_inside : Caller → Bool
is_inside outside = false
is_inside _ = true

abbrev pub IsAlone : ℕ → WorkerThread → Type 0
IsAlone i s = (j : ℕ) → (j == i) ≡ false → s.callers j ≡ outside

-- No caller, one whose callable is not yet executed, or one whose callable is.
pub data IsOrderly (s : WorkerThread) : Type 0 where
  quiet :
      IsQuiet s
      → s.callable ≡ none
      → s.asked ≡ s.ran
      → (s.terminate ≡ false → is_live s.stage ≡ true)
      → IsOrderly s
  waiting :
      (i k : ℕ)
      → IsAlone i s
      → is_inside (s.callers i) ≡ true
      → s.callable ≡ some k
      → s.asked ≡ s.ran ++ k ∷ []
      → s.terminate ≡ false
      → s.call_done ≡ false
      → is_up s.stage ≡ true
      → IsOrderly s
  served :
      (i : ℕ)
      → IsAlone i s
      → (s.callers i ≡ woken) ⊎ ((s.callers i ≡ asleep) × (s.stage ≡ notifying))
      → s.callable ≡ none
      → s.asked ≡ s.ran
      → s.terminate ≡ false
      → s.call_done ≡ true
      → is_live s.stage ≡ true
      → IsOrderly s

pub set_caller-at : (i : ℕ) (c : Caller) (f : ℕ → Caller) → set_caller i c f i ≡ c
unfolding set_caller
set_caller-at i c f = ground arith

pub set_caller-other :
    (i j : ℕ) (c : Caller) (f : ℕ → Caller) → (j == i) ≡ false → set_caller i c f j ≡ f j
unfolding set_caller
set_caller-other i j c f h = rw h

-- Who is inside is the one that is alone there.
pub alone_is : (i j : ℕ) (s : WorkerThread) → IsAlone i s → is_inside (s.callers j) ≡ true → j ≡ i
alone_is i j s alone inside = elim (Bool-cases (j == i)) [
  | inl e ↦ (==_iff j i).0 e
  | inr e ↦ absurd (let o = alone j e in cc)
]

set_caller-IsAlone :
    (i : ℕ) (c : Caller) (s : WorkerThread)
    → IsAlone i s
    → (j : ℕ) → (j == i) ≡ false
    → set_caller i c s.callers j ≡ outside
set_caller-IsAlone i c s alone j h = set_caller-other i j c s.callers h ∙ alone j h

set_caller-outside :
    (i : ℕ) (s : WorkerThread) → IsAlone i s → (j : ℕ) → set_caller i outside s.callers j ≡ outside
set_caller-outside i s alone j = elim (Bool-cases (j == i)) [
  | inl e ↦ rw ((==_iff j i).0 e) (set_caller-at i outside s.callers)
  | inr e ↦ set_caller-IsAlone i outside s alone j e
]

-- The stage and the callers change, as a wake does it.
woken-IsOrderly :
    (s : WorkerThread) (j : ℕ) (st : Stage)
    → s.callers j ≡ asleep
    → (is_live s.stage ≡ true → is_live st ≡ true)
    → (is_up s.stage ≡ true → is_up st ≡ true)
    → IsOrderly s
    → IsOrderly (record s { stage = st; callers = set_caller j woken s.callers })
woken-IsOrderly s j st a live up (quiet q c r t) = absurd (let o = q j in cc)
woken-IsOrderly s j st a live up (waiting i k alone inside c r t d u) =
    let e = alone_is i j s alone (rw a refl) in
    rw e (
      waiting i k (set_caller-IsAlone i woken s alone)
        (ap is_inside (set_caller-at i woken s.callers)) c r t d (up u))
woken-IsOrderly s j st a live up (served i alone w c r t d l) =
    let e = alone_is i j s alone (rw a refl) in
    rw e (
      served i (set_caller-IsAlone i woken s alone) (inl (set_caller-at i woken s.callers)) c r t d
        (live l))

up-live : (st : Stage) → is_up st ≡ true → is_live st ≡ true
up-live notifying h = refl
up-live checking h = refl
up-live locking h = refl
up-live sleeping h = refl
up-live exited h = absurd cc

-- The stage changes while no caller waits for a notification.
moved-IsOrderly :
    (s : WorkerThread) (st : Stage)
    → ((i : ℕ) → s.callers i ≡ asleep → s.stage ≢ notifying)
    → is_up st ≡ true
    → IsOrderly s
    → IsOrderly (record s { stage = st })
moved-IsOrderly s st nobody up (quiet q c r t) = quiet q c r (λ _. up-live st up)
moved-IsOrderly s st nobody up (waiting i k alone inside c r t d u) =
    waiting i k alone inside c r t d up
moved-IsOrderly s st nobody up (served i alone (inl w) c r t d l) =
    served i alone (inl w) c r t d (up-live st up)
moved-IsOrderly s st nobody up (served i alone (inr (w, n)) c r t d l) = absurd (nobody i w n)

-- A caller inside, when its callable has been executed and the thread is about to tell.
inside_now :
    (c : Caller) → is_inside c ≡ true → (c ≡ woken) ⊎ ((c ≡ asleep) × (notifying ≡ notifying))
inside_now outside h = absurd cc
inside_now asleep h = inr (refl, refl)
inside_now woken h = inl refl

rouse-up : (st : Stage) → is_live st ≡ true → is_up (rouse st) ≡ true
unfolding rouse
rouse-up notifying h = refl
rouse-up checking h = refl
rouse-up locking h = refl
rouse-up sleeping h = refl
rouse-up exited h = absurd cc

resume-IsOrderly : (s : WorkerThread) → s.stage ≡ locking → IsOrderly s → IsOrderly (resume s)
unfolding resume
resume-IsOrderly s e (quiet q c r t) = rw c (quiet q refl r λ alive. rw alive refl)
resume-IsOrderly s e (waiting i k alone inside c r t d u) =
    rw c (served i alone (inside_now (s.callers i) inside) refl r t refl refl)
resume-IsOrderly s e (served i alone (inl w) c r t d l) =
    rw (c, t) (served i alone (inl w) refl r refl d refl)
resume-IsOrderly s e (served i alone (inr (_, n)) c r t d l) = absurd cc

recheck-IsOrderly :
    (s : WorkerThread) (j : ℕ) → s.callers j ≡ woken → IsOrderly s → IsOrderly (recheck j s)
unfolding recheck
recheck-IsOrderly s j w (quiet q c r t) = absurd (let o = q j in cc)
recheck-IsOrderly s j w (waiting i k alone inside c r t d u) =
    let e = alone_is i j s alone (rw w refl) in
    rw (e, d)
      (waiting i k (set_caller-IsAlone i asleep s alone)
        (ap is_inside (set_caller-at i asleep s.callers)) c r t refl u)
recheck-IsOrderly s j w (served i alone was c r t d l) =
    let e = alone_is i j s alone (rw w refl) in
    rw (e, d) (quiet (set_caller-outside i s alone) c r λ _. l)

execute-IsOrderly :
    (s : WorkerThread) (i k : ℕ)
    → IsQuiet s
    → s.terminate ≡ false
    → IsOrderly s
    → IsOrderly (execute i k s)
unfolding execute
execute-IsOrderly s i k q alive (quiet _ c r live) =
    waiting i k (set_caller-IsAlone i asleep s λ j _. q j)
      (ap is_inside (set_caller-at i asleep s.callers)) refl (rw r refl) alive refl
      (rouse-up s.stage (live alive))
execute-IsOrderly s i k q alive (waiting j l alone inside c r t d u) = absurd (let o = q j in cc)
execute-IsOrderly s i k q alive (served j alone (inl w) c r t d l) = absurd (let o = q j in cc)
execute-IsOrderly s i k q alive (served j alone (inr w) c r t d l) = absurd (let o = q j in cc)

destroy-IsOrderly : (s : WorkerThread) → IsQuiet s → IsOrderly s → IsOrderly (destroy s)
unfolding destroy
destroy-IsOrderly s q (quiet _ c r live) = quiet q c r λ no. absurd cc
destroy-IsOrderly s q (waiting j l alone inside c r t d u) = absurd (let o = q j in cc)
destroy-IsOrderly s q (served j alone (inl w) c r t d l) = absurd (let o = q j in cc)
destroy-IsOrderly s q (served j alone (inr w) c r t d l) = absurd (let o = q j in cc)

leave-IsOrderly :
    (s : WorkerThread) → s.terminate ≡ true → IsOrderly s → IsOrderly (record s { stage = exited })
leave-IsOrderly s e (quiet q c r live) = quiet q c r λ no. absurd cc
leave-IsOrderly s e (waiting j l alone inside c r t d u) = absurd cc
leave-IsOrderly s e (served j alone w c r t d l) = absurd cc

pub Step-IsOrderly : {s t : WorkerThread} → Step s t → IsOrderly s → IsOrderly t
Step-IsOrderly {s = s} (Step.notify i n a) h =
    woken-IsOrderly s i checking a (λ _. refl) (λ _. refl) h
Step-IsOrderly {s = s} (Step.notify_none n nobody) h =
    moved-IsOrderly s checking (λ i a _. nobody i a) refl h
Step-IsOrderly {s = s} (Step.go_on c t) h = moved-IsOrderly s locking (λ _ _ n. absurd cc) refl h
Step-IsOrderly {s = s} (Step.leave c t) h = leave-IsOrderly s t h
Step-IsOrderly {s = s} (Step.enter l) h = resume-IsOrderly s l h
Step-IsOrderly {s = s} (Step.look i w) h = recheck-IsOrderly s i w h

Stir-IsOrderly : {s t : WorkerThread} → Stir s t → IsOrderly s → IsOrderly t
Stir-IsOrderly {s = s} (Stir.stir c) h = moved-IsOrderly s locking (λ _ _ n. absurd cc) refl h
Stir-IsOrderly {s = s} (Stir.stir_caller i a) h = woken-IsOrderly s i s.stage a (λ l. l) (λ u. u) h

initial-IsOrderly : IsOrderly initial
unfolding initial
initial-IsOrderly = quiet (λ i. refl) refl refl (λ _. refl)

pub Orderly-IsOrderly : {s : WorkerThread} → Orderly s → IsOrderly s
Orderly-IsOrderly Orderly.begin = initial-IsOrderly
Orderly-IsOrderly (Orderly.step r st) = Step-IsOrderly st (Orderly-IsOrderly r)
Orderly-IsOrderly (Orderly.stirs r st) = Stir-IsOrderly st (Orderly-IsOrderly r)
Orderly-IsOrderly (Orderly.call {s = s} i k r q t) =
    execute-IsOrderly s i k q t (Orderly-IsOrderly r)
Orderly-IsOrderly (Orderly.end {s = s} r q) = destroy-IsOrderly s q (Orderly-IsOrderly r)

-- What the callers can rely on.
abbrev pub IsAccounted : WorkerThread → Type 0
IsAccounted s =
    (s.asked ≡ s.ran ++ pending s.callable)
    × ((s.callable ≡ none)
        ⊎ ((i : ℕ) × IsAlone i s × (is_inside (s.callers i) ≡ true) × (s.call_done ≡ false)))

IsOrderly-IsAccounted : (s : WorkerThread) → IsOrderly s → IsAccounted s
IsOrderly-IsAccounted s (quiet q c r live) = (rw (c, r) (sym (append-nil s.ran)), inl c)
IsOrderly-IsAccounted s (waiting i k alone inside c r t d u) = (rw c r, inr (i, alone, inside, d))
IsOrderly-IsAccounted s (served i alone w c r t d l) = (rw (c, r) (sym (append-nil s.ran)), inl c)

-- If a call of executeSynchronously and the destructor only come when no caller is inside, then
-- at any time the callables that were asked for are those that were executed, in their order and
-- each once, with the one that is still to be executed behind them; and either none is still to
-- be executed, or exactly one caller is inside and mCallDone does not hold for it yet.
pub Orderly-IsAccounted : (s : WorkerThread) → Orderly s → IsAccounted s
Orderly-IsAccounted s r = IsOrderly-IsAccounted s (Orderly-IsOrderly r)
