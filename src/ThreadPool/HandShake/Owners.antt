-- ===== src/ThreadPool/HandShake/Owners.antt =====
-- Who holds the mutex of a job.
use jm_bus.Common.{
  ◌≡◌, refl, inl, inr, Bool, true, false, if◌then◌else◌, List, [], ◌∷◌, arith, Bool-cases,
}
use jm_bus.ThreadPool.HandShake.{
  Thread, starting, looping, locked, waiting, woken, working, leaving, Caller, idle, created,
  holding, expecting, answered, signalling, Owner, nobody, by_thread, by_caller, HandShake,
  unlocked, wake, signal, thread_at, caller_at, Turn, thread_turn, caller_turn, take_turn, schedule,
  hand_over,
}

-- Who is between a lock of the mutex and its release.
abbrev pub inside_thread : Thread → Bool
inside_thread starting = false
inside_thread looping = false
inside_thread locked = true
inside_thread waiting = false
inside_thread woken = false
inside_thread working = true
inside_thread leaving = false

abbrev pub inside_caller : Caller → Bool
inside_caller idle = false
inside_caller created = false
inside_caller holding = true
inside_caller expecting = false
inside_caller answered = false
inside_caller signalling = false

-- The mutex is free, or its owner is inside.
abbrev pub owned : Thread → Caller → Owner → Bool
owned thread caller nobody = true
owned thread caller by_thread = inside_thread thread
owned thread caller by_caller = inside_caller caller

abbrev pub Owned : HandShake → Type 0
Owned h = owned h.thread h.caller h.owner ≡ true

wake-owned_start :
    (c : Caller) (o : Owner)
    → owned starting c o ≡ true
    → owned looping (wake starting c).1 o ≡ true
unfolding wake
wake-owned_start c nobody e = refl
wake-owned_start c by_thread e = absurd (ground (arith, e))
wake-owned_start holding by_caller e = refl
wake-owned_start idle by_caller e = absurd (ground (arith, e))
wake-owned_start created by_caller e = absurd (ground (arith, e))
wake-owned_start expecting by_caller e = absurd (ground (arith, e))
wake-owned_start answered by_caller e = absurd (ground (arith, e))
wake-owned_start signalling by_caller e = absurd (ground (arith, e))

wake-owned_call :
    (t : Thread) (o : Owner)
    → owned t signalling o ≡ true
    → owned (wake t signalling).0 idle o ≡ true
unfolding wake
wake-owned_call t nobody e = refl
wake-owned_call t by_caller e = absurd (ground (arith, e))
wake-owned_call locked by_thread e = refl
wake-owned_call working by_thread e = refl
wake-owned_call starting by_thread e = absurd (ground (arith, e))
wake-owned_call looping by_thread e = absurd (ground (arith, e))
wake-owned_call waiting by_thread e = absurd (ground (arith, e))
wake-owned_call woken by_thread e = absurd (ground (arith, e))
wake-owned_call leaving by_thread e = absurd (ground (arith, e))

thread_at-Owned : (p : Thread) (h : HandShake) → h.thread ≡ p → Owned h → Owned (thread_at p h)
unfolding thread_at signal
thread_at-Owned starting h e g = rw e (wake-owned_start h.caller h.owner (rw e at g))
thread_at-Owned looping h e g = elim (Bool-cases (unlocked h.owner)) [
  | inl free ↦ rw free refl
  | inr held ↦ rw held g
]
thread_at-Owned locked h e g = refl
thread_at-Owned waiting h e g = g
thread_at-Owned woken h e g = elim (Bool-cases (unlocked h.owner)) [
  | inl free ↦ rw free refl
  | inr held ↦ rw held g
]
thread_at-Owned working h e g = refl
thread_at-Owned leaving h e g = let here = rw e at g in here

caller_at-Owned :
    (b : Bool) (c : Caller) (h : HandShake) → h.caller ≡ c → Owned h → Owned (caller_at b c h)
unfolding caller_at signal
caller_at-Owned b idle h e g =
    let taken : Owned (hand_over h) = (let here = rw e at g in here) in
    elim h.occupied
      as (λ o.
        Owned (if o then (if b then hand_over h else h) else (if b then h else hand_over h))) [
          | true ↦ elim b as (λ b. Owned (if b then hand_over h else h)) [
            | true ↦ taken
            | false ↦ g
          ]
          | false ↦ elim b as (λ b. Owned (if b then h else hand_over h)) [
            | true ↦ g
            | false ↦ taken
          ]
        ]
caller_at-Owned b created h e g = elim (Bool-cases (unlocked h.owner)) [
  | inl free ↦ rw free refl
  | inr held ↦ rw held g
]
caller_at-Owned b holding h e g = refl
caller_at-Owned b expecting h e g = g
caller_at-Owned b answered h e g = elim (Bool-cases (unlocked h.owner)) [
  | inl free ↦ rw free (let here = rw e at g in here)
  | inr held ↦ rw held g
]
caller_at-Owned b signalling h e g = rw e (wake-owned_call h.thread h.owner (rw e at g))

pub schedule-Owned : (ts : List Turn) (h : HandShake) → Owned h → Owned (schedule ts h)
unfolding schedule take_turn
schedule-Owned [] h g = g
schedule-Owned (thread_turn ∷ ts) h g =
    schedule-Owned ts (thread_at h.thread h) (thread_at-Owned h.thread h refl g)
schedule-Owned (caller_turn b ∷ ts) h g =
    schedule-Owned ts (caller_at b h.caller h) (caller_at-Owned b h.caller h refl g)
