-- ===== src/ThreadPool/Scanning.antt =====
-- Which job the loop of `thread_pool_start_job` hands an event to.
use jm_bus.Common.{
  ◌≡◌, refl, ap, ◌∙◌, Bool, true, false, not, some, List, [], ◌∷◌, arith, ok, if◌then◌else◌,
}
use jm_bus.Cstd.{ArrayLib}
use jm_bus.ThreadPool.{Event, Job, Threads, Pool, scan, thread_pool_start_job}

-- The jobs are busy and free in turn, the first one as `b` says.
abbrev pub Alternates : Bool → List Job → Type 0
Alternates b [] = Unit {0}
Alternates b (job ∷ jobs) = (job.occupied ≡ b) × Alternates (not b) jobs

abbrev pub is_odd : List Job → Bool
is_odd [] = false
is_odd (job ∷ jobs) = not (is_odd jobs)

abbrev pub handed : Event → Job
handed event = record { event = some event; occupied = true }

-- On jobs that alternate, beginning with the opposite of what is expected, the loop takes none; it
-- ends expecting what it began with after an even number of jobs, and the opposite after an odd one.
scan-Alternates :
    (b : Bool) (jobs : List Job) (event : Event)
    → Alternates b jobs
    → scan (not b) jobs event ≡ ((if is_odd jobs then b else not b), jobs)
unfolding scan
scan-Alternates b [] event alt = refl
scan-Alternates true (job ∷ jobs) event alt = ground (arith, scan-Alternates false jobs event alt.1)
scan-Alternates false (job ∷ jobs) event alt = ground (arith, scan-Alternates true jobs event alt.1)

scan_free :
    (job : Job) (jobs : List Job) (event : Event)
    → job.occupied ≡ false
    → scan false (job ∷ jobs) event ≡ (true, handed event ∷ jobs)
unfolding scan
scan_free job jobs event free = rw free refl

module _ {W : Type 0} (lib : ArrayLib W) (threads : Threads W) (pool : Pool) (event : Event)
    (w : W) where
  -- The first job of the pool is free: `thread_pool_start_job` occupies it with the event, and no
  -- other job changes.
  pub start_job_first_free :
      (job : Job) (jobs : List Job)
      → pool.items ≡ job ∷ jobs
      → job.occupied ≡ false
      → thread_pool_start_job lib threads pool event w
        ≡ ok (true, record pool { items = handed event ∷ jobs }) w
  unfolding thread_pool_start_job
  start_job_first_free job jobs items free =
      let e : scan false pool.items event ≡ (true, handed event ∷ jobs) =
        ap (λ l. scan false l event) items ∙ scan_free job jobs event free in
      rw e refl

  -- The jobs of the pool are busy and free in turn, from a busy one to a busy one:
  -- `thread_pool_start_job` returns true, no job changes, and the event is nowhere.
  pub start_job_lost :
      Alternates true pool.items
      → is_odd pool.items ≡ true
      → thread_pool_start_job lib threads pool event w ≡ ok (true, pool) w
  unfolding thread_pool_start_job
  start_job_lost alt odd = rw (scan-Alternates true pool.items event alt, odd) refl
