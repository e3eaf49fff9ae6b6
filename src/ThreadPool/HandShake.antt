-- ===== src/ThreadPool/HandShake.antt =====
-- The hand-shake between the main thread, in `thread_pool_start_job` of common/structures/thread_pool.c,
-- and the thread of one job, in `process_messages` of common/handlers/connections.c. Each turn takes
-- one of the calls on the job's mutex, condition and flag; a thread that has to wait keeps its state.
pub mod Once
pub mod Waking
pub mod Starting
pub mod Owners
pub mod Hearing
use jm_bus.Common.{ℕ, suc, ◌≡◌, Bool, true, false, List, [], ◌∷◌, if◌then◌else◌}

-- What the thread does next: signal that it has started, lock the mutex, wait for the condition, be
-- woken, lock again, handle the event and unlock, and set `occupied` back.
pub data Thread : Type 0 where
  starting : Thread
  looping : Thread
  locked : Thread
  waiting : Thread
  woken : Thread
  working : Thread
  leaving : Thread

-- What the main thread does next: hand an event to the job if it is free; with a new thread, lock its
-- mutex, wait for the condition, be woken, lock again and unlock; and signal that there is an event.
pub data Caller : Type 0 where
  idle : Caller
  created : Caller
  holding : Caller
  expecting : Caller
  answered : Caller
  signalling : Caller

pub data Owner : Type 0 where
  nobody : Owner
  by_thread : Owner
  by_caller : Owner

-- `given` and `handled` count the events that the job got and those that its thread is done with.
pub record HandShake : Type 0 where
  pub thread : Thread
  pub caller : Caller
  pub owner : Owner
  pub occupied : Bool
  pub given : ℕ
  pub handled : ℕ

-- The thread has been created for its first event.
abbrev pub created_job : HandShake
created_job = record {
  thread = starting;
  caller = created;
  owner = nobody;
  occupied = true;
  given = 1;
  handled = 0;
}

-- `pthread_cond_signal`: one who waits wakes up, and if nobody waits it has no effect.
unfoldable pub wake : Thread → Caller → Thread × Caller
wake waiting caller = (woken, caller)
wake thread expecting = (thread, answered)
wake thread caller = (thread, caller)

unfoldable pub signal : HandShake → HandShake
unfolding wake
signal h =
    let (thread, caller) = wake h.thread h.caller in record h { thread = thread; caller = caller }

-- Whether `pthread_mutex_lock` returns at once.
abbrev pub unlocked : Owner → Bool
unlocked nobody = true
unlocked by_thread = false
unlocked by_caller = false

unfoldable pub thread_at : Thread → HandShake → HandShake
unfolding signal
thread_at starting h = record (signal h) { thread = looping }
thread_at looping h =
    if unlocked h.owner then record h { thread = locked; owner = by_thread } else h
thread_at locked h = record h { thread = waiting; owner = nobody }
thread_at waiting h = h
thread_at woken h = if unlocked h.owner then record h { thread = working; owner = by_thread } else h
thread_at working h = record h { thread = leaving; owner = nobody; handled = suc h.handled }
thread_at leaving h = record h { thread = looping; occupied = false }

-- The flag is taken where it has the expected value, and the event is stored over the last one.
abbrev pub hand_over : HandShake → HandShake
hand_over h = record h { caller = signalling; occupied = true; given = suc h.given }

-- The expected value is what `found` holds when the scan of the pool comes to the job: false at the
-- first job of the pool, and behind others what the last comparison wrote to it.
unfoldable pub caller_at : Bool → Caller → HandShake → HandShake
unfolding signal
caller_at expected idle h =
    if h.occupied
    then (if expected then hand_over h else h)
    else (if expected then h else hand_over h)
caller_at expected created h =
    if unlocked h.owner then record h { caller = holding; owner = by_caller } else h
caller_at expected holding h = record h { caller = expecting; owner = nobody }
caller_at expected expecting h = h
caller_at expected answered h = if unlocked h.owner then record h { caller = signalling } else h
caller_at expected signalling h = record (signal h) { caller = idle }

pub data Turn : Type 0 where
  thread_turn : Turn
  caller_turn : Bool → Turn

unfoldable pub take_turn : Turn → HandShake → HandShake
unfolding thread_at caller_at
take_turn thread_turn h = thread_at h.thread h
take_turn (caller_turn expected) h = caller_at expected h.caller h

-- The turns in their order.
unfoldable pub schedule : List Turn → HandShake → HandShake
unfolding take_turn
schedule [] h = h
schedule (t ∷ ts) h = schedule ts (take_turn t h)

-- The turns that a job can have which is the first of its pool.
abbrev pub First : List Turn → Type 0
First [] = Unit {0}
First (thread_turn ∷ ts) = First ts
First (caller_turn expected ∷ ts) = (expected ≡ false) × First ts
