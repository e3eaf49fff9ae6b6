-- ===== src/ThreadPool/HandShake/Hearing.antt =====
-- A signal that finds the thread in its wait.
use jm_bus.Common.{
  Bool, ℕ, suc, ◌≤◌, ◌<◌, ◌≡◌, refl, sym, inl, inr, true, false, if◌then◌else◌, List, [], ◌∷◌, ◌++◌,
  arith, Bool-cases,
}
use mathlib.Core.Path.{subst}
use jm_bus.ThreadPool.HandShake.{
  Thread, starting, looping, locked, waiting, woken, working, leaving, Caller, idle, created,
  holding, expecting, answered, signalling, Owner, nobody, by_thread, by_caller, HandShake,
  created_job, unlocked, wake, signal, thread_at, caller_at, Turn, thread_turn, caller_turn,
  take_turn, schedule, hand_over,
}
use jm_bus.ThreadPool.HandShake.Waking.{schedule-append}
use jm_bus.ThreadPool.HandShake.Owners.{owned, schedule-Owned}

-- Events that are handled stay handled.
thread_at-grows : (p : Thread) (h : HandShake) → h.handled ≤ (thread_at p h).handled
unfolding thread_at signal
thread_at-grows starting h = omega arith
thread_at-grows looping h = elim (Bool-cases (unlocked h.owner)) [
  | inl free ↦ rw free (omega arith)
  | inr held ↦ rw held (omega arith)
]
thread_at-grows locked h = omega arith
thread_at-grows waiting h = omega arith
thread_at-grows woken h = elim (Bool-cases (unlocked h.owner)) [
  | inl free ↦ rw free (omega arith)
  | inr held ↦ rw held (omega arith)
]
thread_at-grows working h = omega arith
thread_at-grows leaving h = omega arith

caller_at-handled : (b : Bool) (c : Caller) (h : HandShake) → (caller_at b c h).handled ≡ h.handled
unfolding caller_at signal
caller_at-handled b idle h =
    elim h.occupied
      as (λ o.
        (if o then (if b then hand_over h else h) else (if b then h else hand_over h)).handled
        ≡ h.handled) [
          | true ↦ elim b as (λ b. (if b then hand_over h else h).handled ≡ h.handled) [
            | true ↦ refl
            | false ↦ refl
          ]
          | false ↦ elim b as (λ b. (if b then h else hand_over h).handled ≡ h.handled) [
            | true ↦ refl
            | false ↦ refl
          ]
        ]
caller_at-handled b created h = elim (Bool-cases (unlocked h.owner)) [
  | inl free ↦ rw free refl
  | inr held ↦ rw held refl
]
caller_at-handled b holding h = refl
caller_at-handled b expecting h = refl
caller_at-handled b answered h = elim (Bool-cases (unlocked h.owner)) [
  | inl free ↦ rw free refl
  | inr held ↦ rw held refl
]
caller_at-handled b signalling h = refl

schedule-grows : (ts : List Turn) (h : HandShake) → h.handled ≤ (schedule ts h).handled
unfolding schedule take_turn
schedule-grows [] h = omega arith
schedule-grows (thread_turn ∷ ts) h =
    omega (arith, thread_at-grows h.thread h, schedule-grows ts (thread_at h.thread h))
schedule-grows (caller_turn b ∷ ts) h =
    omega (arith, caller_at-handled b h.caller h, schedule-grows ts (caller_at b h.caller h))

-- The turns that the thread gets.
abbrev pub thread_turns : List Turn → ℕ
thread_turns [] = 0
thread_turns (thread_turn ∷ ts) = suc (thread_turns ts)
thread_turns (caller_turn b ∷ ts) = thread_turns ts

-- The main thread is past the start of the job.
abbrev past_start : Caller → Bool
past_start idle = true
past_start created = false
past_start holding = false
past_start expecting = false
past_start answered = false
past_start signalling = true

-- The thread is on its way to an event that the main thread has signalled.
record Heard (p : Thread) (o : Owner) (h : HandShake) : Type 0 where
  thread : h.thread ≡ p
  caller : past_start h.caller ≡ true
  owner : h.owner ≡ o

-- A thread that is up sleeps through no turn of the main thread.
abbrev up : Thread → Bool
up starting = false
up looping = false
up locked = false
up waiting = false
up woken = true
up working = true
up leaving = false

wake-up : (p : Thread) → up p ≡ true → wake p signalling ≡ (p, signalling)
unfolding wake
wake-up woken e = refl
wake-up working e = refl
wake-up starting e = absurd (ground arith)
wake-up looping e = absurd (ground arith)
wake-up locked e = absurd (ground arith)
wake-up waiting e = absurd (ground arith)
wake-up leaving e = absurd (ground arith)

caller_at-Heard :
    (b : Bool) (c : Caller) (p : Thread) (o : Owner) (h : HandShake)
    → h.caller ≡ c
    → up p ≡ true
    → Heard p o h
    → Heard p o (caller_at b c h)
unfolding caller_at signal
caller_at-Heard b idle p o h e is_up s =
    let taken : Heard p o (hand_over h) = record {
      thread = s.thread;
      caller = refl;
      owner = s.owner;
    } in
    elim h.occupied
      as (λ k.
        Heard p o (if k then (if b then hand_over h else h) else (if b then h else hand_over h))) [
          | true ↦ elim b as (λ b. Heard p o (if b then hand_over h else h)) [
            | true ↦ taken
            | false ↦ s
          ]
          | false ↦ elim b as (λ b. Heard p o (if b then h else hand_over h)) [
            | true ↦ s
            | false ↦ taken
          ]
        ]
caller_at-Heard b signalling p o h e is_up s = record {
  thread = rw (s.thread, e, wake-up p is_up) refl;
  caller = refl;
  owner = s.owner;
}
caller_at-Heard b created p o h e is_up s = absurd (let past = rw e at s.caller in cc)
caller_at-Heard b holding p o h e is_up s = absurd (let past = rw e at s.caller in cc)
caller_at-Heard b expecting p o h e is_up s = absurd (let past = rw e at s.caller in cc)
caller_at-Heard b answered p o h e is_up s = absurd (let past = rw e at s.caller in cc)

schedule-working :
    (ts : List Turn) (h : HandShake)
    → Heard working by_thread h
    → 1 ≤ thread_turns ts
    → suc h.handled ≤ (schedule ts h).handled
unfolding schedule take_turn
schedule-working [] h s n = absurd (omega (arith, n))
schedule-working (thread_turn ∷ ts) h s n =
    rw (s.thread) (unfold thread_at in schedule-grows ts (thread_at working h))
schedule-working (caller_turn b ∷ ts) h s n =
    let rest =
      schedule-working ts (caller_at b h.caller h)
        (caller_at-Heard b h.caller working by_thread h refl refl s) n in
    omega (arith, rest, caller_at-handled b h.caller h)

woken-Heard :
    (h : HandShake)
    → Heard woken nobody h
    → Heard working by_thread (thread_at woken h) × ((thread_at woken h).handled ≡ h.handled)
unfolding thread_at
woken-Heard h s =
    let free : unlocked h.owner ≡ true = rw s.owner refl in
    rw free (record { thread = refl; caller = s.caller; owner = refl }, refl)

schedule-woken :
    (ts : List Turn) (h : HandShake)
    → Heard woken nobody h
    → 2 ≤ thread_turns ts
    → suc h.handled ≤ (schedule ts h).handled
unfolding schedule take_turn
schedule-woken [] h s n = absurd (omega (arith, n))
schedule-woken (thread_turn ∷ ts) h s n =
    let (working_on, same) = woken-Heard h s in
    let first = schedule-working ts (thread_at woken h) working_on (omega (arith, n)) in
    subst (λ p. suc h.handled ≤ (schedule ts (thread_at p h)).handled) (sym s.thread)
      (omega (arith, same, first))
schedule-woken (caller_turn b ∷ ts) h s n =
    let rest =
      schedule-woken ts (caller_at b h.caller h)
        (caller_at-Heard b h.caller woken nobody h refl refl s) n in
    omega (arith, rest, caller_at-handled b h.caller h)

signal-Heard :
    (b : Bool) (h : HandShake)
    → h.thread ≡ waiting
    → h.caller ≡ signalling
    → owned h.thread h.caller h.owner ≡ true
    → Heard woken nobody (caller_at b signalling h)
unfolding caller_at signal wake
signal-Heard b h e c g = record {
  thread = rw e refl;
  caller = refl;
  owner = waiting_owner h.owner (rw (e, c) at g);
}
  where
    waiting_owner : (o : Owner) → owned waiting signalling o ≡ true → o ≡ nobody
    waiting_owner nobody e = refl
    waiting_owner by_thread e = absurd (ground (arith, e))
    waiting_owner by_caller e = absurd (ground (arith, e))

-- After any turns, at any place of the job in its pool and without spurious wake-ups, if the main
-- thread signals an event to a job whose thread waits, then after any further turns of which the
-- thread gets two, at least one more event of the job is handled.
pub heard_in_time :
    (ts us : List Turn) (b : Bool)
    → (schedule ts created_job).caller ≡ signalling
    → (schedule ts created_job).thread ≡ waiting
    → 2 ≤ thread_turns us
    → (schedule ts created_job).handled < (schedule (ts ++ caller_turn b ∷ us) created_job).handled
unfolding take_turn
heard_in_time ts us b c e enough =
    let h = schedule ts created_job in
    let heard = signal-Heard b h e c (schedule-Owned ts created_job refl) in
    let done = schedule-woken us (caller_at b signalling h) heard enough in
    let first : suc h.handled ≤ (schedule us (caller_at b h.caller h)).handled =
      subst (λ k. suc h.handled ≤ (schedule us (caller_at b k h)).handled) (sym c)
        (omega (arith, done, caller_at-handled b signalling h)) in
    rw (schedule-append ts us (caller_turn b) created_job) (omega (arith, first))
