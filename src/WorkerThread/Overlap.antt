-- ===== src/WorkerThread/Overlap.antt =====
-- Two calls of a worker thread that overlap: basic/workerthread.cpp.
use air_sane.Prelude.{
  ℕ, ◌==◌, ◌≡◌, ◌≢◌, refl, ◌∙◌, Bool, true, false, List, [], ◌∷◌, ◌++◌, none, arith,
}
use air_sane.WorkerThread.{
  sleeping, Caller, outside, asleep, woken, WorkerThread, rouse, set_caller, resume, execute,
  recheck, Step,
}
use air_sane.WorkerThread.Turns.{set_caller-at, set_caller-other}

-- What can happen if callers do not wait for each other.
pub data Loose (s : WorkerThread) : WorkerThread → Type 0 where
  here : Loose s s
  step : {t u : WorkerThread} → Loose s t → Step t u → Loose s u
  call : {t : WorkerThread} (i k : ℕ) → Loose s t → t.callers i ≡ outside → Loose s (execute i k t)

-- The thread waits, and there is nothing to do.
abbrev pub resting : Bool → (ℕ → Caller) → List ℕ → List ℕ → WorkerThread
resting d f asked ran = record {
  stage = sleeping;
  callable = none;
  call_done = d;
  terminate = false;
  callers = f;
  asked = asked;
  ran = ran;
}

-- Nothing goes on at rest, if no caller has been woken.
resting-IsStuck :
    (d : Bool) (f : ℕ → Caller) (asked ran : List ℕ)
    → ((i : ℕ) → f i ≢ woken)
    → (u : WorkerThread) → ¬ Step (resting d f asked ran) u
resting-IsStuck d f asked ran nobody u (Step.notify i n a) = absurd cc
resting-IsStuck d f asked ran nobody u (Step.notify_none n h) = absurd cc
resting-IsStuck d f asked ran nobody u (Step.go_on c t) = absurd cc
resting-IsStuck d f asked ran nobody u (Step.leave c t) = absurd cc
resting-IsStuck d f asked ran nobody u (Step.enter l) = absurd cc
resting-IsStuck d f asked ran nobody u (Step.look i w) = nobody i w

-- The callers in the end: `j` has left, and `i` lies down.
last_callers : ℕ → ℕ → (ℕ → Caller) → ℕ → Caller
unfolding set_caller
last_callers i j f = set_caller j outside (
    set_caller j woken
      (set_caller i asleep (set_caller i woken (set_caller j asleep (set_caller i asleep f)))))

last_callers-asleep : (i j : ℕ) (f : ℕ → Caller) → (i == j) ≡ false → last_callers i j f i ≡ asleep
unfolding last_callers set_caller
last_callers-asleep i j f h = ground arith

last_callers-woken :
    (i j : ℕ) (f : ℕ → Caller) → ((m : ℕ) → f m ≡ outside) → (m : ℕ) → last_callers i j f m ≢ woken
unfolding last_callers set_caller
last_callers-woken i j f q m h = let o = q m in ground arith

-- When two callers call a thread at rest, there is an order of steps in which both callables are
-- executed and one caller returns, while the other waits and no step of the program is left that
-- could wake it.
pub execute-IsStuck :
    (i j k l : ℕ) (d : Bool) (f : ℕ → Caller) (asked ran : List ℕ)
    → ((m : ℕ) → f m ≡ outside)
    → (i == j) ≡ false
    → (g : ℕ → Caller) × (asked' : List ℕ) × Loose
        (resting d f asked ran)
        (resting true g asked' ((ran ++ k ∷ []) ++ l ∷ []))
      × (g i ≡ asleep)
      × ((u : WorkerThread) → ¬ Step (resting true g asked' ((ran ++ k ∷ []) ++ l ∷ [])) u)
unfolding execute resume recheck rouse last_callers
execute-IsStuck i j k l d f asked ran q h =
    let back : (j == i) ≡ false = ground arith in
    let f1 = set_caller i asleep f in
    let f2 = set_caller j asleep f1 in
    let f3 = set_caller i woken f2 in
    let f4 = set_caller i asleep f3 in
    let i_waits : f2 i ≡ asleep = set_caller-other j i asleep f1 h ∙ set_caller-at i asleep f in
    let j_waits : f4 j ≡ asleep =
      set_caller-other i j asleep f3 back
      ∙ (set_caller-other i j woken f2 back ∙ set_caller-at j asleep f1) in
    let called = Loose.call i k Loose.here (q i) in
    let executed = Loose.step called (Step.enter refl) in
    let again = Loose.call j l executed (set_caller-other i j asleep f back ∙ q j) in
    let told = Loose.step again (Step.notify i refl i_waits) in
    let looked = Loose.step told (Step.look i (set_caller-at i woken f2)) in
    let locked = Loose.step (Loose.step looked (Step.go_on refl refl)) (Step.enter refl) in
    let told_j = Loose.step locked (Step.notify j refl j_waits) in
    let left = Loose.step told_j (Step.look j (set_caller-at j woken f4)) in
    let rests = Loose.step (Loose.step left (Step.go_on refl refl)) (Step.enter refl) in
    (
      last_callers i j f,
      _,
      rests,
      last_callers-asleep i j f h,
      resting-IsStuck true (last_callers i j f) _ _ (last_callers-woken i j f q),
    )
