-- ===== src/ThreadPool/HandShake/Waking.antt =====
-- A signal of `thread_pool_start_job` that comes before the wait of the job's thread.
use mathlib.Core.Path.{subst}
use jm_bus.Common.{
  suc, ◌≡◌, ◌≢◌, refl, sym, ap, ◌∙◌, inl, inr, Bool, true, false, not, if◌then◌else◌, List, [], ◌∷◌,
  ◌++◌, arith, Bool-cases,
}
use jm_bus.ThreadPool.HandShake.{
  Thread, starting, looping, locked, waiting, woken, working, leaving, Caller, idle, signalling,
  HandShake, created_job, unlocked, wake, signal, thread_at, caller_at, Turn, thread_turn,
  caller_turn, take_turn, schedule, hand_over, First,
}
use jm_bus.ThreadPool.HandShake.Once.{active, guarded, Guarded, job-Guarded, owed_asleep}

pub schedule-append :
    (ts us : List Turn) (t : Turn) (h : HandShake)
    → schedule (ts ++ t ∷ us) h ≡ schedule us (take_turn t (schedule ts h))
unfolding schedule
schedule-append [] us t h = refl
schedule-append (s ∷ ts) us t h = schedule-append ts us t (take_turn s h)

First-append : (ts us : List Turn) → First ts → First us → First (ts ++ caller_turn false ∷ us)
First-append [] us first later = (refl, later)
First-append (thread_turn ∷ ts) us first later = First-append ts us first later
First-append (caller_turn expected ∷ ts) us (e, first) later = (e, First-append ts us first later)

-- The main thread has signalled, and the event is still there.
record Lost (from h : HandShake) : Type 0 where
  thread : active h.thread ≡ false
  caller : h.caller ≡ idle
  occupied : h.occupied ≡ true
  handled : h.handled ≡ from.handled

unwoken_thread :
    (p : Thread) (h : HandShake)
    → h.thread ≡ p
    → h.caller ≡ idle
    → active p ≡ false
    → (active (thread_at p h).thread ≡ false)
      × ((thread_at p h).caller ≡ idle)
      × ((thread_at p h).occupied ≡ h.occupied)
      × ((thread_at p h).handled ≡ h.handled)
unfolding thread_at signal wake
unwoken_thread starting h e c a = (refl, rw (e, c) refl, refl, refl)
unwoken_thread looping h e c a = elim (Bool-cases (unlocked h.owner)) [
  | inl free ↦ rw free (refl, c, refl, refl)
  | inr held ↦ rw held (rw e refl, c, refl, refl)
]
unwoken_thread locked h e c a = (refl, c, refl, refl)
unwoken_thread waiting h e c a = (rw e refl, c, refl, refl)
unwoken_thread woken h e c a = absurd (ground (arith, a))
unwoken_thread working h e c a = absurd (ground (arith, a))
unwoken_thread leaving h e c a = absurd (ground (arith, a))

pub idle_caller :
    (h : HandShake) → h.caller ≡ idle → h.occupied ≡ true → caller_at false h.caller h ≡ h
unfolding caller_at
idle_caller h e on =
    ap (λ c. caller_at false c h) e
    ∙ elim h.occupied as (λ b. b ≡ true → (if b then h else hand_over h) ≡ h) [
      | true ↦ λ _. refl
      | false ↦ λ off. absurd (ground (arith, off))
    ]
        on

schedule-Lost :
    (ts : List Turn) (from h : HandShake) → First ts → Lost from h → Lost from (schedule ts h)
unfolding schedule take_turn caller_at
schedule-Lost [] from h first s = s
schedule-Lost (thread_turn ∷ ts) from h first s =
    let (a, c, o, n) = unwoken_thread h.thread h refl s.caller s.thread in
    schedule-Lost ts from (thread_at h.thread h) first
      (record { thread = a; caller = c; occupied = o ∙ s.occupied; handled = n ∙ s.handled })
schedule-Lost (caller_turn true ∷ ts) from h (e, first) s = absurd (ground arith)
schedule-Lost (caller_turn false ∷ ts) from h (e, first) s =
    schedule-Lost ts from (caller_at false h.caller h) first
      (subst (Lost from) (sym (idle_caller h s.caller s.occupied)) s)

-- What a reachable state with a caller about to signal says.
pub signalling-asleep :
    (thread : Thread) (caller : Caller) (occupied : Bool)
    → caller ≡ signalling
    → guarded thread caller occupied ≡ true
    → (active thread ≡ false) × (occupied ≡ true)
signalling-asleep thread caller occupied e flag =
    let here = rw e at flag in (ground (arith, here), ground (arith, here))

-- A signal that finds nobody in the wait.
unheard-Lost :
    (p : Thread) (h : HandShake)
    → h.thread ≡ p
    → h.caller ≡ signalling
    → h.occupied ≡ true
    → active p ≡ false
    → p ≢ waiting
    → Lost h (caller_at false signalling h)
unfolding caller_at signal wake
unheard-Lost starting h e c o a awake = record {
  thread = rw (e, c) refl;
  caller = refl;
  occupied = o;
  handled = refl;
}
unheard-Lost looping h e c o a awake = record {
  thread = rw (e, c) refl;
  caller = refl;
  occupied = o;
  handled = refl;
}
unheard-Lost locked h e c o a awake = record {
  thread = rw (e, c) refl;
  caller = refl;
  occupied = o;
  handled = refl;
}
unheard-Lost waiting h e c o a awake = absurd (awake refl)
unheard-Lost woken h e c o a awake = absurd (ground (arith, a))
unheard-Lost working h e c o a awake = absurd (ground (arith, a))
unheard-Lost leaving h e c o a awake = absurd (ground (arith, a))

still_owed : (from h : HandShake) → Lost from h → Guarded h → h.given ≡ suc h.handled
still_owed from h s g =
    let (one, _) = owed_asleep h.thread (ap not s.thread) in
    g.count ∙ rw (s.occupied, one) (omega arith)

-- After any turns on a job that is the first of its pool, if the main thread signals an event to
-- the job while its thread does not wait yet, then whatever turns on the job follow, without
-- spurious wake-ups, no event of it is handled any more, one stays unhandled, and the job stays
-- occupied.
pub lost_wakeup :
    (ts us : List Turn)
    → First ts
    → First us
    → (schedule ts created_job).caller ≡ signalling
    → (schedule ts created_job).thread ≢ waiting
    → ((schedule (ts ++ caller_turn false ∷ us) created_job).handled
        ≡ (schedule ts created_job).handled)
      × ((schedule (ts ++ caller_turn false ∷ us) created_job).given
          ≡ suc (schedule (ts ++ caller_turn false ∷ us) created_job).handled)
      × ((schedule (ts ++ caller_turn false ∷ us) created_job).occupied ≡ true)
unfolding take_turn
lost_wakeup ts us first later e awake =
    let h = schedule ts created_job in
    let (a, on) = signalling-asleep h.thread h.caller h.occupied e (job-Guarded ts first).flag in
    let lost : Lost h (caller_at false h.caller h) =
      subst (λ c. Lost h (caller_at false c h)) (sym e)
        (unheard-Lost h.thread h refl e on a awake) in
    let end : Lost h (schedule (ts ++ caller_turn false ∷ us) created_job) =
      subst (Lost h) (sym (schedule-append ts us (caller_turn false) created_job))
        (schedule-Lost us h (caller_at false h.caller h) later lost) in
    (
      end.handled,
      still_owed h _ end
          (job-Guarded (ts ++ caller_turn false ∷ us) (First-append ts us first later)),
      end.occupied,
    )
