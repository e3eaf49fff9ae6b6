-- ===== src/ThreadPool.antt =====
-- common/structures/thread_pool.c and .h: the jobs of the pool, and how an event gets to one.
pub mod Scanning
pub mod Handing
pub mod HandShake
use jm_bus.Common.{
  ℕ, Bool, true, false, not, Option, none, some, List, [], ◌∷◌, ◌++◌, length, ◌-◌, if◌then◌else◌,
  Run, Cmd, fault, out_of_bounds, pure, call, ◌>>=◌, ◌>>◌, set, get_elem?,
}
use jm_bus.Cstd.{Array, ArrayLib, len}
use jm_bus.Messages.{Message}

-- `struct message_event`, without its pointer to the one server state. `from` is none for -1.
pub record Event : Type 0 where
  pub from : Option ℕ
  pub msgs : Array Message

-- `struct thread_job`; the mutex, the condition and the thread are the system's. `event` is none in
-- a job that was just zeroed.
pub record Job : Type 0 where
  pub event : Option Event
  pub occupied : Bool

-- `pthread_cond_init`, `pthread_mutex_init` and `pthread_create`: false where they fail.
pub record Threads (W : Type 0) : Type 0 where
  pub cond_init : W → Bool × W
  pub mutex_init : W → Bool × W
  pub create : W → Bool × W
  -- `pthread_mutex_lock`, `pthread_cond_wait` and `pthread_mutex_unlock` of the new job, which end in
  -- `out_of_fuel` where the wait has no end
  pub start_up : W → Run W (Unit {0})
  -- `pthread_join` of a job's thread, behind the signal that is to wake it
  pub join : Job → W → Unit {0} × W

abbrev pub same : Bool → Bool → Bool
same true b = b
same false b = not b

-- The loop with `atomic_compare_exchange_strong(&job->occupied, &found, true)`. Where `occupied` is
-- not `found` the call writes `occupied` to `found`, and the next round expects that.
unfoldable pub scan : Bool → List Job → Event → Bool × List Job
scan found [] event = (found, [])
scan found (job ∷ jobs) event =
    let rest = scan job.occupied jobs event in
    if same job.occupied found
    then (true, record { event = some event; occupied = true } ∷ jobs)
    else (rest.0, job ∷ rest.1)

abbrev pub Pool : Type 0
Pool = Array Job

module _ {W : Type 0} (lib : ArrayLib W) (threads : Threads W) where
  unfoldable pub thread_pool_create : ℕ → Cmd W (Option Pool)
  thread_pool_create n = do
    allocated ← call lib.malloc
    if allocated then call (lib.init {A = Job} n) else pure none

  -- The new job gets the event, and then its condition, mutex and thread, up to the first that
  -- fails, and the main thread waits for the thread to start.
  unfoldable pub start_last : Pool → Event → Option Job → Cmd W (Bool × Pool)
  start_last grown event none = λ _. fault out_of_bounds
  start_last grown event (some ref) = do
    let last = record ref { event = some event }
    let started = record grown { items = set grown.items (len grown - 1) last }
    cond_made ← call threads.cond_init
    mutex_made ← (if cond_made then call threads.mutex_init else pure false)
    created ← (if mutex_made then call threads.create else pure false)
    (if created then threads.start_up else pure tt)
    pure (created, started)

  -- `threads.len - 1` is the job written to; the result of the insertion is not looked at.
  unfoldable pub spawn : Pool → Event → Cmd W (Bool × Pool)
  unfolding start_last
  spawn pool event = do
    (_, grown) ← call (lib.insert pool (record { event = none; occupied = true }))
    start_last grown event (get_elem? grown.items (len grown - 1))

  -- The calls on the job's mutex and condition, one by one, are in HandShake.
  unfoldable pub thread_pool_start_job : Pool → Event → Cmd W (Bool × Pool)
  unfolding spawn
  thread_pool_start_job pool event =
      let (found, jobs) = scan false pool.items event in
      if found
      then pure (true, record pool { items = jobs })
      else spawn (record pool { items = jobs }) event

  -- Each job's `from` is set to -1, and its thread is signalled and joined.
  unfoldable pub destroy_each : List Job → Cmd W (Unit {0})
  destroy_each [] = pure tt
  destroy_each (job ∷ jobs) = do
    let stopped : Option Event = elim job.event [
      | none ↦ none
      | some e ↦ some (record e { from = none })
    ]
    call (threads.join (record job { event = stopped }))
    destroy_each jobs

  unfoldable pub thread_pool_destroy : Pool → Cmd W (Unit {0})
  unfolding destroy_each
  thread_pool_destroy pool = do destroy_each pool.items; lib.free pool
