-- ===== src/Tests/Threads.antt =====
-- The worker thread: basic/workerthread.cpp.
use air_sane.Prelude.{ℕ, ◌<◌, ◌≤◌, ◌≡◌, refl, true, false, List, [], ◌∷◌, ◌++◌}
use air_sane.WorkerThread.{
  WorkerThread, initial, resume, execute, checking, locking, Step, Orderly, outside, asleep, Caller,
}
use air_sane.WorkerThread.Turns.{is_inside, IsAccounted, Orderly-IsAccounted}
use air_sane.WorkerThread.Progress.{IsActive, rank, Orderly-IsActive}
use air_sane.WorkerThread.Overlap.{Loose, resting, execute-IsStuck}

-- A first caller, before the thread looks.
abbrev asking : WorkerThread
asking = execute 0 7 (record initial { stage = checking })

abbrev about : WorkerThread
about = record asking { stage = locking }

asking-Orderly : Orderly asking
unfolding initial
asking-Orderly =
    Orderly.call 0 7 (Orderly.step Orderly.begin (Step.notify_none refl (λ i e. absurd cc)))
      (λ i. refl) refl

executed-Orderly : Orderly (resume about)
unfolding execute initial
executed-Orderly =
    Orderly.step (Orderly.step asking-Orderly (Step.go_on refl refl)) (Step.enter refl)

executed-ran : (resume about).ran ≡ 7 ∷ []
unfolding resume execute initial
executed-ran = refl

Orderly-IsAccounted_example : IsAccounted (resume about)
Orderly-IsAccounted_example = Orderly-IsAccounted (resume about) executed-Orderly

inside : is_inside (asking.callers 0) ≡ true
unfolding execute
inside = refl

Orderly-IsActive_example :
    IsActive asking
    × ((t : WorkerThread) → Step asking t → rank 0 t < rank 0 asking)
    × (rank 0 asking ≤ 18)
Orderly-IsActive_example = Orderly-IsActive asking 0 asking-Orderly inside

execute-IsStuck_example :
    (g : ℕ → Caller) × (asked' : List ℕ) × Loose
      (resting false (λ m. outside) [] [])
      (resting true g asked' (([] ++ 7 ∷ []) ++ 8 ∷ []))
    × (g 0 ≡ asleep)
    × ((u : WorkerThread) → ¬ Step (resting true g asked' (([] ++ 7 ∷ []) ++ 8 ∷ [])) u)
execute-IsStuck_example = execute-IsStuck 0 1 7 8 false (λ m. outside) [] [] (λ m. refl) refl
