-- ===== src/Scanner.antt =====
-- server/scanner.cpp and server/scanner.h: the jobs of a scanner, its status document, and the
-- names of its sources and modes. What a scanner reads from the options of its
-- device is in Scanner.Init. One request at a time holds the mutex of the jobs.
pub mod Names
pub mod Jobs
pub mod Purging
pub mod Status
pub mod Capabilities
pub mod Init
pub mod FreeNames
pub mod Resolutions
use air_sane.Prelude.{
  ℕ, zero, suc, ◌+◌, Bool, true, false, List, [], ◌∷◌, Option, none, some, ltb, ◌==◌, if◌then◌else◌,
}
use air_sane.Text.{Bytes, codes, equal}
use air_sane.Sane.{SaneStatus, good, Sane, Run, ok, out_of_fuel, ◌>>=◌}
use air_sane.Sane.Session.{destroy}
use air_sane.ScanJob.{pending, none_given, Job}
use air_sane.ScanJob.Status.{cancel_job}

-- The order of the keys in a std::map.
unfoldable pub less : Bytes → Bytes → Bool
less [] [] = false
less [] (y ∷ t) = true
less (x ∷ s) [] = false
less (x ∷ s) (y ∷ t) = if ltb x y then true else if x == y then less s t else false

-- `mJobs`, with its pairs in the order of the map.
abbrev pub Jobs : Type 0 → Type 0
Jobs S = List (Bytes × Job S)

module _ {S : Type 0} where
  unfoldable pub find_job : Jobs S → Bytes → Option (Job S)
  unfolding equal
  find_job [] key = none
  find_job ((k, j) ∷ m) key = if equal k key then some j else find_job m key

  -- `mJobs[key] = job`, and a write through the pointer to the job.
  unfoldable pub put_job : Jobs S → Bytes → Job S → Jobs S
  unfolding equal less
  put_job [] key job = (key, job) ∷ []
  put_job ((k, j) ∷ m) key job =
      if equal k key
      then (k, job) ∷ m
      else if less key k
      then (key, job) ∷ (k, j) ∷ m
      else (k, j) ∷ put_job m key job

-- What the members of `Scanner::Private` hold between two requests.
pub record Scanner (S : Type 0) : Type 0 where
  pub uri : Bytes
  pub has_adf : Bool
  pub jobs : Jobs S
  pub temporary_adf_status : SaneStatus

-- `draw` is `Uuid(mUuid, ::time(nullptr), ::rand()).toString()`. `init` is
-- `initWithScanSettingsXml`, and `blank` what the members hold that it writes.
pub record Tickets (sane : Sane) : Type 0 where
  pub draw : sane.World → Bytes × sane.World
  pub blank : Job sane.Settings
  pub init : Bytes → Bool → Job sane.Settings → Job sane.Settings

module _ (sane : Sane) (tickets : Tickets sane) where
  open sane use {World, Settings, time}
  open tickets use {draw, blank, init}

  -- The constructor of `ScanJob`.
  unfoldable pub new_job : Bytes → World → Job Settings
  new_job key w = record blank {
    uuid = key;
    created = time w;
    last_active = time w;
    state = pending;
    reason = none_given;
    adf_status = good;
    session = none;
  }

  -- The loop that looks for an unused uuid.
  unfoldable pub unused_uuid : ℕ → Jobs Settings → World → Run (Bytes × World)
  unused_uuid zero m w = out_of_fuel
  unused_uuid (suc fuel) m w =
      let rest = unused_uuid fuel m (draw w).1 in
      elim (find_job m (draw w).0) [ none ↦ ok (draw w) | some _ ↦ rest ]

  -- `createJob` and `createJobFromScanSettingsXml`. The key of the new job stands first.
  unfoldable pub create_job :
      ℕ → Bytes → Bool → Jobs Settings → World → Run (Bytes × Jobs Settings × World)
  create_job fuel xml autoselect m w = do
    (key, w') ← unused_uuid fuel m w
    ok (key, put_job m key (init xml autoselect (new_job key w')), w')

module _ (sane : Sane) where
  open sane use {World, Settings, time}

  -- `cancelJob`.
  unfoldable pub cancel_job_at : Bytes → Jobs Settings × World → Bool × Jobs Settings × World
  cancel_job_at key (m, w) = elim (find_job m key) [
    | none ↦ (false, m, w)
    | some j ↦ (true, put_job m key (cancel_job sane (j, w)).0, (cancel_job sane (j, w)).1)
  ]

  -- The destructor of a job, which nobody else holds: its session goes with it.
  unfoldable pub drop_job : Job Settings → World → World
  drop_job j w = elim j.session [ none ↦ w | some s ↦ destroy sane s w ]

  -- Whether `idleSeconds` is more than `max`.
  unfoldable pub is_idle : ℕ → World → Job Settings → Bool
  is_idle max w j = ltb (j.last_active + max) (time w)

  -- `purgeJobs`, with the number of jobs that went first.
  unfoldable pub purge_jobs : ℕ → Jobs Settings → World → ℕ × Jobs Settings × World
  purge_jobs max [] w = (0, [], w)
  purge_jobs max ((k, j) ∷ m) w =
      if is_idle max w j
      then (let (n, m', w') = purge_jobs max m (drop_job j w) in (n + 1, m', w'))
      else (let (n, m', w') = purge_jobs max m w in (n, (k, j) ∷ m', w'))
