-- ===== src/WorkerThread.antt =====
-- basic/workerthread.cpp: the thread that executes calls for others, as steps of the thread and of
-- its callers between the points where they hold the mutex. A callable is a number; executing it
-- adds the number to `ran`. A condition variable may also wake a thread for no reason.
-- The constructor returns when the thread has set `mStarted`, which is where `initial` stands.
pub mod Turns
pub mod Progress
pub mod Overlap
use air_sane.Prelude.{
  ℕ, ◌==◌, ◌≡◌, ◌≢◌, Bool, true, false, if◌then◌else◌, List, [], ◌∷◌, ◌++◌, Option, none, some,
}

-- Where the thread stands in `threadFunc`: before `notify_one`, before it reads `mTerminate`,
-- before it takes the mutex and looks at the condition, or waiting for `mExecuteCondition`.
pub data Stage : Type 0 where
  notifying checking locking sleeping exited : Stage

-- A caller is outside, waits for `mThreadCondition`, or has been woken from there.
pub data Caller : Type 0 where
  outside asleep woken : Caller

-- `asked` and `ran` are the callables that were given to executeSynchronously and those that were
-- executed, in their order.
pub record WorkerThread : Type 0 where
  pub stage : Stage
  pub callable : Option ℕ
  pub call_done : Bool
  pub terminate : Bool
  pub callers : ℕ → Caller
  pub asked : List ℕ
  pub ran : List ℕ

unfoldable pub initial : WorkerThread
initial = record {
  stage = notifying;
  callable = none;
  call_done = false;
  terminate = false;
  callers = λ i. outside;
  asked = [];
  ran = [];
}

-- `notify_one` on `mExecuteCondition`
unfoldable pub rouse : Stage → Stage
rouse sleeping = locking
rouse s = s

unfoldable pub set_caller : ℕ → Caller → (ℕ → Caller) → ℕ → Caller
set_caller i c f j = if j == i then c else f j

-- The wait of the thread returns, or it lies down; a callable is executed under the mutex.
unfoldable pub resume : WorkerThread → WorkerThread
resume s = elim s.callable [
  | some k ↦ record s {
    ran = s.ran ++ k ∷ [];
    callable = none;
    call_done = true;
    stage = notifying;
  }
  | none ↦ record s { stage = if s.terminate then checking else sleeping }
]

-- `executeSynchronously` up to its wait, whose condition does not hold yet.
unfoldable pub execute : ℕ → ℕ → WorkerThread → WorkerThread
unfolding rouse set_caller
execute i k s = record s {
  callable = some k;
  call_done = false;
  stage = rouse s.stage;
  callers = set_caller i asleep s.callers;
  asked = s.asked ++ k ∷ [];
}

-- A woken caller looks at `mCallDone`.
unfoldable pub recheck : ℕ → WorkerThread → WorkerThread
unfolding set_caller
recheck i s = record s {
  callers = set_caller i (if s.call_done then outside else asleep) s.callers;
}

-- The destructor, up to its `join`.
unfoldable pub destroy : WorkerThread → WorkerThread
unfolding rouse
destroy s = record s { terminate = true; stage = rouse s.stage }

-- The steps that the program itself goes on to take.
pub data Step (s : WorkerThread) : WorkerThread → Type 0 where
  notify :
      (i : ℕ)
      → s.stage ≡ notifying
      → s.callers i ≡ asleep
      → Step s (record s { stage = checking; callers = set_caller i woken s.callers })
  notify_none :
      s.stage ≡ notifying
      → ((i : ℕ) → s.callers i ≢ asleep)
      → Step s (record s { stage = checking })
  go_on : s.stage ≡ checking → s.terminate ≡ false → Step s (record s { stage = locking })
  leave : s.stage ≡ checking → s.terminate ≡ true → Step s (record s { stage = exited })
  enter : s.stage ≡ locking → Step s (resume s)
  look : (i : ℕ) → s.callers i ≡ woken → Step s (recheck i s)

-- The wakes for no reason.
pub data Stir (s : WorkerThread) : WorkerThread → Type 0 where
  stir : s.stage ≡ sleeping → Stir s (record s { stage = locking })
  stir_caller :
      (i : ℕ) → s.callers i ≡ asleep → Stir s (record s { callers = set_caller i woken s.callers })

-- No caller is inside executeSynchronously.
abbrev pub IsQuiet : WorkerThread → Type 0
IsQuiet s = (i : ℕ) → s.callers i ≡ outside

-- What can happen if a call, and the destructor, only comes when no caller is inside.
pub data Orderly : WorkerThread → Type 0 where
  begin : Orderly initial
  step : {s t : WorkerThread} → Orderly s → Step s t → Orderly t
  stirs : {s t : WorkerThread} → Orderly s → Stir s t → Orderly t
  call :
      {s : WorkerThread} (i k : ℕ)
      → Orderly s
      → IsQuiet s
      → s.terminate ≡ false
      → Orderly (execute i k s)
  end : {s : WorkerThread} → Orderly s → IsQuiet s → Orderly (destroy s)
