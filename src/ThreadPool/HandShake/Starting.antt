-- ===== src/ThreadPool/HandShake/Starting.antt =====
-- A thread that signals its start before `thread_pool_start_job` waits for it.
use mathlib.Core.Path.{subst}
use jm_bus.Common.{
  ◌≡◌, ◌≢◌, refl, sym, ◌∙◌, inl, inr, Bool, true, false, List, [], ◌∷◌, ◌++◌, arith, Bool-cases,
}
use jm_bus.ThreadPool.HandShake.{
  Thread, starting, looping, locked, waiting, woken, working, leaving, Caller, idle, created,
  holding, expecting, answered, signalling, HandShake, created_job, unlocked, wake, signal,
  thread_at, caller_at, Turn, thread_turn, caller_turn, take_turn, schedule,
}
use jm_bus.ThreadPool.HandShake.Waking.{schedule-append}

-- The thread is on its way to the wait, or waits.
abbrev pub asleep : Thread → Bool
asleep starting = false
asleep looping = true
asleep locked = true
asleep waiting = true
asleep woken = false
asleep working = false
asleep leaving = false

-- The main thread is in `thread_pool_start_job`, in front of the wait for a new thread or in it.
abbrev pub in_start : Caller → Bool
in_start idle = false
in_start created = true
in_start holding = true
in_start expecting = true
in_start answered = false
in_start signalling = false

-- Nobody is left to send the signal that the thread waits for.
record Stuck (from h : HandShake) : Type 0 where
  thread : asleep h.thread ≡ true
  caller : in_start h.caller ≡ true
  handled : h.handled ≡ from.handled

asleep-thread :
    (p : Thread) (h : HandShake)
    → h.thread ≡ p
    → asleep p ≡ true
    → (asleep (thread_at p h).thread ≡ true)
      × ((thread_at p h).caller ≡ h.caller)
      × ((thread_at p h).occupied ≡ h.occupied)
      × ((thread_at p h).handled ≡ h.handled)
unfolding thread_at
asleep-thread looping h e a = elim (Bool-cases (unlocked h.owner)) [
  | inl free ↦ rw free (refl, refl, refl, refl)
  | inr held ↦ rw held (rw e refl, refl, refl, refl)
]
asleep-thread locked h e a = (refl, refl, refl, refl)
asleep-thread waiting h e a = (rw e refl, refl, refl, refl)
asleep-thread starting h e a = absurd (ground (arith, a))
asleep-thread woken h e a = absurd (ground (arith, a))
asleep-thread working h e a = absurd (ground (arith, a))
asleep-thread leaving h e a = absurd (ground (arith, a))

start-caller :
    (b : Bool) (c : Caller) (h : HandShake)
    → h.caller ≡ c
    → in_start c ≡ true
    → (in_start (caller_at b c h).caller ≡ true)
      × ((caller_at b c h).thread ≡ h.thread)
      × ((caller_at b c h).handled ≡ h.handled)
unfolding caller_at
start-caller b created h e a = elim (Bool-cases (unlocked h.owner)) [
  | inl free ↦ rw free (refl, refl, refl)
  | inr held ↦ rw held (rw e refl, refl, refl)
]
start-caller b holding h e a = (refl, refl, refl)
start-caller b expecting h e a = (rw e refl, refl, refl)
start-caller b idle h e a = absurd (ground (arith, a))
start-caller b answered h e a = absurd (ground (arith, a))
start-caller b signalling h e a = absurd (ground (arith, a))

schedule-Stuck : (ts : List Turn) (from h : HandShake) → Stuck from h → Stuck from (schedule ts h)
unfolding schedule take_turn
schedule-Stuck [] from h s = s
schedule-Stuck (thread_turn ∷ ts) from h s =
    let (a, c, _, n) = asleep-thread h.thread h refl s.thread in
    schedule-Stuck ts from (thread_at h.thread h)
      (record { thread = a; caller = rw c s.caller; handled = n ∙ s.handled })
schedule-Stuck (caller_turn b ∷ ts) from h s =
    let (c, a, n) = start-caller b h.caller h refl s.caller in
    schedule-Stuck ts from (caller_at b h.caller h)
      (record { thread = rw a s.thread; caller = c; handled = n ∙ s.handled })

early-Stuck :
    (c : Caller) (h : HandShake)
    → h.caller ≡ c
    → h.thread ≡ starting
    → in_start c ≡ true
    → c ≢ expecting
    → Stuck h (thread_at starting h)
unfolding thread_at signal wake
early-Stuck created h e p a early = record {
  thread = refl;
  caller = rw (p, e) refl;
  handled = refl;
}
early-Stuck holding h e p a early = record {
  thread = refl;
  caller = rw (p, e) refl;
  handled = refl;
}
early-Stuck expecting h e p a early = absurd (early refl)
early-Stuck idle h e p a early = absurd (ground (arith, a))
early-Stuck answered h e p a early = absurd (ground (arith, a))
early-Stuck signalling h e p a early = absurd (ground (arith, a))

-- After any turns, if a new thread signals that it has started before the main thread waits for
-- that, then whatever turns follow, without spurious wake-ups, the main thread does not come past
-- its wait in `thread_pool_start_job`, and no event of the job is handled.
pub start_hangs :
    (ts us : List Turn)
    → (schedule ts created_job).thread ≡ starting
    → in_start (schedule ts created_job).caller ≡ true
    → (schedule ts created_job).caller ≢ expecting
    → (in_start (schedule (ts ++ thread_turn ∷ us) created_job).caller ≡ true)
      × ((schedule (ts ++ thread_turn ∷ us) created_job).handled
          ≡ (schedule ts created_job).handled)
unfolding take_turn
start_hangs ts us e a early =
    let h = schedule ts created_job in
    let first : Stuck h (thread_at h.thread h) =
      subst (λ p. Stuck h (thread_at p h)) (sym e) (early-Stuck h.caller h refl e a early) in
    let end : Stuck h (schedule (ts ++ thread_turn ∷ us) created_job) =
      subst (Stuck h) (sym (schedule-append ts us thread_turn created_job))
        (schedule-Stuck us h (thread_at h.thread h) first) in
    (end.caller, end.handled)
