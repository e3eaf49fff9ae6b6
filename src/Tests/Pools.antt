-- ===== src/Tests/Pools.antt =====
-- The theorems on the pool's scan at pools of two and three jobs.
use jm_bus.Common.{
  ◌<◌, arith, suc, take, List, ◌++◌, ◌≡◌, refl, true, false, none, some, [], ◌∷◌, ok,
}
use jm_bus.Cstd.{fresh}
use jm_bus.Cstd.Ideal.{ideal}
use jm_bus.ThreadPool.{Event, Job, thread_pool_start_job}
use jm_bus.ThreadPool.Scanning.{start_job_lost}
use jm_bus.ThreadPool.HandShake.{
  looping, created, Turn, thread_turn, caller_turn, take_turn, schedule, created_job, First,
}
use jm_bus.ThreadPool.HandShake.Once.{calling, working_alone}
use jm_bus.ThreadPool.HandShake.Waking.{lost_wakeup}
use jm_bus.ThreadPool.HandShake.Hearing.{heard_in_time}
use jm_bus.ThreadPool.HandShake.Starting.{in_start, start_hangs}
use jm_bus.Tests.Fixtures.{willing, array_of}

-- An event of client 4 that brings no message.
abbrev event_4 : Event
event_4 = record { from = some 4; msgs = fresh 2 }

abbrev free_job : Job
free_job = record { event = none; occupied = false }

abbrev busy_job : Job
busy_job = record { event = none; occupied = true }

start_job_lost_example :
    thread_pool_start_job ideal willing
      (array_of 4 (busy_job ∷ free_job ∷ busy_job ∷ []))
      event_4
      tt
    ≡ ok (true, array_of 4 (busy_job ∷ free_job ∷ busy_job ∷ [])) tt
start_job_lost_example =
    start_job_lost ideal willing (array_of 4 (busy_job ∷ free_job ∷ busy_job ∷ [])) event_4 tt
      (refl, (refl, (refl, tt))) refl

-- The second event comes while the thread, done with the first, is not back at its wait.
abbrev second_too_early : List Turn
second_too_early =
    caller_turn false
    ∷ caller_turn false
    ∷ thread_turn
    ∷ thread_turn
    ∷ thread_turn
    ∷ caller_turn false
    ∷ caller_turn false
    ∷ thread_turn
    ∷ thread_turn
    ∷ thread_turn
    ∷ caller_turn false
    ∷ []

too_early-First : First second_too_early
too_early-First = (refl, (refl, (refl, (refl, (refl, tt)))))

lost_wakeup_example :
    ((schedule
        (second_too_early ++ caller_turn false ∷ thread_turn ∷ thread_turn ∷ [])
        created_job).handled
      ≡ (schedule second_too_early created_job).handled)
    × ((schedule
          (second_too_early ++ caller_turn false ∷ thread_turn ∷ thread_turn ∷ [])
          created_job).given
        ≡ suc
            (schedule
              (second_too_early ++ caller_turn false ∷ thread_turn ∷ thread_turn ∷ [])
              created_job).handled)
    × ((schedule
          (second_too_early ++ caller_turn false ∷ thread_turn ∷ thread_turn ∷ [])
          created_job).occupied
        ≡ true)
lost_wakeup_example =
    lost_wakeup second_too_early (thread_turn ∷ thread_turn ∷ []) too_early-First tt
      (unfold schedule in unfold take_turn in refl)
      (λ e.
        let back : (schedule second_too_early created_job).thread ≡ looping =
          (unfold schedule in unfold take_turn in refl) in
        cc)

start_hangs_example :
    (in_start
        (schedule
          ([] ++ thread_turn ∷ caller_turn false ∷ caller_turn false ∷ [])
          created_job).caller
      ≡ true)
    × ((schedule
          ([] ++ thread_turn ∷ caller_turn false ∷ caller_turn false ∷ [])
          created_job).handled
        ≡ (schedule [] created_job).handled)
start_hangs_example =
    start_hangs [] (caller_turn false ∷ caller_turn false ∷ []) (unfold schedule in refl)
      (unfold schedule in refl)
      (λ e.
        let first : (schedule [] created_job).caller ≡ created = (unfold schedule in refl) in cc)

working_alone_example :
    ((schedule (take 8 second_too_early) created_job).occupied ≡ true)
    × (calling (schedule (take 8 second_too_early) created_job).caller ≡ false)
    × ((schedule (take 8 second_too_early) created_job).given
        ≡ suc (schedule (take 8 second_too_early) created_job).handled)
working_alone_example =
    working_alone (take 8 second_too_early) (refl, (refl, (refl, (refl, tt))))
      (unfold schedule in unfold take_turn in refl)

heard_in_time_example :
    (schedule (take 6 second_too_early) created_job).handled
    < (schedule
        (take 6 second_too_early
          ++ caller_turn false ∷ thread_turn ∷ caller_turn false ∷ thread_turn ∷ [])
        created_job).handled
heard_in_time_example =
    heard_in_time (take 6 second_too_early) (thread_turn ∷ caller_turn false ∷ thread_turn ∷ [])
      false (unfold schedule in unfold take_turn in refl)
      (unfold schedule in unfold take_turn in refl) (omega arith)
