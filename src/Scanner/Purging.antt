-- ===== src/Scanner/Purging.antt =====
-- Purging the map of jobs: `purgeJobs` of server/scanner.cpp.
use air_sane.Prelude.{
  ℕ, ◌+◌, ◌<◌, ◌≤◌, ◌++◌, ◌≡◌, refl, ap, true, false, [], ◌∷◌, none, some, arith, length,
  Bool-cases, inl, inr,
}
use air_sane.Text.{Bytes, equal, equal_iff, equal_refl}
use air_sane.Sane.{Sane}
use air_sane.ScanJob.{Job}
use air_sane.Scanner.{Jobs, find_job, drop_job, is_idle, purge_jobs}

-- No key stands twice.
abbrev pub IsDistinct : {S : Type 0} → Jobs S → Type 0
IsDistinct [] = Unit
IsDistinct ((k, j) ∷ m) = (find_job m k ≡ none) × IsDistinct m

-- The key of a job is not that of another one.
differs :
    {S : Type 0} (before after : Jobs S) (key other : Bytes) (j : Job S)
    → find_job (before ++ (key, j) ∷ after) other ≡ none
    → equal other key ≡ false
unfolding find_job
differs [] after key other j h = ground (arith, h, equal_iff other key, equal_iff key other)
differs ((k, i) ∷ before) after key other j h = differs before after key other j (ground (arith, h))

module _ (sane : Sane) where
  open sane use {World, Settings, time}

  purge_jobs-none :
      (max : ℕ) (key : Bytes) (m : Jobs Settings) (w : World)
      → find_job m key ≡ none
      → find_job (purge_jobs sane max m w).1 key ≡ none
  unfolding purge_jobs find_job
  purge_jobs-none max key [] w h = refl
  purge_jobs-none max key ((k, j) ∷ m) w h =
      ground (arith, h, purge_jobs-none max key m w, purge_jobs-none max key m (drop_job sane j w))

  purge_jobs-length :
      (max : ℕ) (m : Jobs Settings) (w : World)
      → (purge_jobs sane max m w).0 + length (purge_jobs sane max m w).1 ≡ length m
  unfolding purge_jobs
  purge_jobs-length max [] w = refl
  purge_jobs-length max ((k, j) ∷ m) w =
      ground (arith, purge_jobs-length max m w, purge_jobs-length max m (drop_job sane j w))

  -- The clock that a job behind others is looked at with: their sessions are closed by then.
  abbrev pub clock_behind : ℕ → Jobs Settings → World → ℕ
  clock_behind max before w = time (purge_jobs sane max before w).2

  is_idle-clock :
      (max : ℕ) (w : World) (j : Job Settings)
      → (j.last_active + max < time w → is_idle sane max w j ≡ true)
        × (time w ≤ j.last_active + max → is_idle sane max w j ≡ false)
  unfolding is_idle
  is_idle-clock max w j = (λ idle. ground (arith, idle), λ busy. ground (arith, busy))

  purge_jobs-gone :
      (max : ℕ) (k : Bytes) (i : Job Settings) (m : Jobs Settings) (w : World)
      → is_idle sane max w i ≡ true
      → ((purge_jobs sane max ((k, i) ∷ m) w).1 ≡ (purge_jobs sane max m (drop_job sane i w)).1)
        × ((purge_jobs sane max ((k, i) ∷ m) w).2 ≡ (purge_jobs sane max m (drop_job sane i w)).2)
  unfolding purge_jobs
  purge_jobs-gone max k i m w gone = (rw gone refl, rw gone refl)

  purge_jobs-stays :
      (max : ℕ) (k : Bytes) (i : Job Settings) (m : Jobs Settings) (w : World)
      → is_idle sane max w i ≡ false
      → ((purge_jobs sane max ((k, i) ∷ m) w).1 ≡ (k, i) ∷ (purge_jobs sane max m w).1)
        × ((purge_jobs sane max ((k, i) ∷ m) w).2 ≡ (purge_jobs sane max m w).2)
  unfolding purge_jobs
  purge_jobs-stays max k i m w stays = (rw stays refl, rw stays refl)

  purge_jobs-found :
      (max : ℕ) (key : Bytes) (j : Job Settings) (before after : Jobs Settings) (w : World)
      → IsDistinct (before ++ (key, j) ∷ after)
      → let left = (purge_jobs sane max (before ++ (key, j) ∷ after) w).1 in
        (j.last_active + max < clock_behind max before w → find_job left key ≡ none)
        × (clock_behind max before w ≤ j.last_active + max → find_job left key ≡ some j)
  unfolding find_job purge_jobs
  purge_jobs-found max key j [] after w (fresh, d) = (
    λ idle.
        let step = (purge_jobs-gone max key j after w ((is_idle-clock max w j).0 idle)).0 in
        rw step (purge_jobs-none max key after (drop_job sane j w) fresh),
    λ busy.
        let step = (purge_jobs-stays max key j after w ((is_idle-clock max w j).1 busy)).0 in
        rw step (rw (equal_refl key) refl),
  )
  purge_jobs-found max key j ((k, i) ∷ before) after w (fresh, d) =
      let other = differs before after key k j fresh in
      elim (Bool-cases (is_idle sane max w i)) [
        | inl gone ↦
            let step = (purge_jobs-gone max k i (before ++ (key, j) ∷ after) w gone).0 in
            let later = (purge_jobs-gone max k i before w gone).1 in
            let (dropped, kept) = purge_jobs-found max key j before after (drop_job sane i w) d in
            (
              λ idle. rw step (dropped (rw (ap time later) at idle)),
              λ busy. rw step (kept (rw (ap time later) at busy)),
            )
        | inr stays ↦
            let step = (purge_jobs-stays max k i (before ++ (key, j) ∷ after) w stays).0 in
            let later = (purge_jobs-stays max k i before w stays).1 in
            let (dropped, kept) = purge_jobs-found max key j before after w d in
            (
              λ idle. rw step (rw other (dropped (rw (ap time later) at idle))),
              λ busy. rw step (rw other (kept (rw (ap time later) at busy))),
            )
      ]

  -- If no uuid stands twice, purgeJobs decides each job by the clock when its turn comes, behind
  -- the closing of the sessions of the jobs before it that it removes: a job whose last activity
  -- lies more than the given number of seconds back is then removed, and any other one is kept as
  -- it is. A uuid that had no job has none, and the number that it returns is that of the jobs it
  -- has removed.
  pub purge_jobs-at :
      (max : ℕ) (key : Bytes) (j : Job Settings) (before after : Jobs Settings) (w : World)
      → IsDistinct (before ++ (key, j) ∷ after)
      → let left = purge_jobs sane max (before ++ (key, j) ∷ after) w in
        (j.last_active + max < clock_behind max before w → find_job left.1 key ≡ none)
        × (clock_behind max before w ≤ j.last_active + max → find_job left.1 key ≡ some j)
        × ((other : Bytes)
            → find_job (before ++ (key, j) ∷ after) other ≡ none
            → find_job left.1 other ≡ none)
        × (left.0 + length left.1 ≡ length (before ++ (key, j) ∷ after))
  purge_jobs-at max key j before after w d = (
    (purge_jobs-found max key j before after w d).0,
    (purge_jobs-found max key j before after w d).1,
    λ other. purge_jobs-none max other (before ++ (key, j) ∷ after) w,
    purge_jobs-length max (before ++ (key, j) ∷ after) w,
  )
