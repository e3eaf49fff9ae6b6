-- ===== src/ThreadPool/HandShake/Once.antt =====
-- What the flag `occupied` of a job protects, whatever the order of the turns.
use jm_bus.Common.{
  ℕ, ◌+◌, suc, ◌≡◌, refl, ◌∙◌, inl, inr, Bool, true, false, not, ◌&&◌, ◌||◌, if◌then◌else◌, List,
  [], ◌∷◌, arith, Bool-cases,
}
use jm_bus.ThreadPool.HandShake.{
  Thread, starting, looping, locked, waiting, woken, working, leaving, Caller, idle, created,
  holding, expecting, answered, signalling, HandShake, created_job, unlocked, wake, signal,
  thread_at, caller_at, Turn, thread_turn, caller_turn, take_turn, schedule, hand_over, First,
}

-- The thread has been woken for an event.
abbrev pub active : Thread → Bool
active starting = false
active looping = false
active locked = false
active waiting = false
active woken = true
active working = true
active leaving = true

abbrev pub calling : Caller → Bool
calling idle = false
calling created = true
calling holding = true
calling expecting = true
calling answered = true
calling signalling = true

-- While the caller hands over an event the flag is set and the thread is not active; the thread is
-- active only while the flag is set.
abbrev pub guarded : Thread → Caller → Bool → Bool
guarded thread caller occupied =
    if calling caller then occupied && not (active thread) else (occupied || not (active thread))

-- The events that are given and not handled.
abbrev pub owed : Thread → Bool → ℕ
owed leaving occupied = 0
owed thread true = 1
owed thread false = 0

pub record Guarded (h : HandShake) : Type 0 where
  pub flag : guarded h.thread h.caller h.occupied ≡ true
  pub count : h.given ≡ h.handled + owed h.thread h.occupied

-- A thread that does not wait is not woken, and the caller goes on with its call.
wake_starting : (caller : Caller) → calling (wake starting caller).1 ≡ calling caller
unfolding wake
wake_starting idle = refl
wake_starting created = refl
wake_starting holding = refl
wake_starting expecting = refl
wake_starting answered = refl
wake_starting signalling = refl

not_calling :
    (thread : Thread) (caller : Caller) (occupied : Bool)
    → active thread ≡ true
    → guarded thread caller occupied ≡ true
    → (calling caller ≡ false) × (occupied ≡ true)
not_calling thread caller occupied is_active flag = elim (Bool-cases (calling caller)) [
  | inl on ↦ absurd (ground (arith, flag))
  | inr off ↦ (off, ground (arith, flag))
]

thread_at-Guarded :
    (p : Thread) (h : HandShake) → h.thread ≡ p → Guarded h → Guarded (thread_at p h)
unfolding thread_at signal wake
thread_at-Guarded starting h e g =
    let flag = rw e at g.flag in
    let count = rw e at g.count in
    record { flag = rw (e, wake_starting h.caller) flag; count = count }
thread_at-Guarded looping h e g = elim (Bool-cases (unlocked h.owner)) [
  | inl free ↦ rw free (
      let flag = rw e at g.flag in
      let count = rw e at g.count in record { flag = flag; count = count })
  | inr held ↦ rw held g
]
thread_at-Guarded locked h e g =
    let flag = rw e at g.flag in
    let count = rw e at g.count in record { flag = flag; count = count }
thread_at-Guarded waiting h e g = g
thread_at-Guarded woken h e g = elim (Bool-cases (unlocked h.owner)) [
  | inl free ↦ rw free (
      let flag = rw e at g.flag in
      let count = rw e at g.count in record { flag = flag; count = count })
  | inr held ↦ rw held g
]
thread_at-Guarded working h e g =
    let flag = rw e at g.flag in
    let count = rw e at g.count in
    let (off, on) = not_calling working h.caller h.occupied refl flag in
    record { flag = flag; count = count ∙ rw on (omega arith) }
thread_at-Guarded leaving h e g =
    let flag = rw e at g.flag in
    let count = rw e at g.count in
    let (off, on) = not_calling leaving h.caller h.occupied refl flag in
    record { flag = rw off refl; count = count }

pub owed_asleep :
    (thread : Thread)
    → not (active thread) ≡ true
    → (owed thread true ≡ 1) × (owed thread false ≡ 0)
owed_asleep starting asleep = (refl, refl)
owed_asleep looping asleep = (refl, refl)
owed_asleep locked asleep = (refl, refl)
owed_asleep waiting asleep = (refl, refl)
owed_asleep woken asleep = (refl, refl)
owed_asleep working asleep = (refl, refl)
owed_asleep leaving asleep = absurd (ground (arith, asleep))

-- The signal that an event is there wakes the thread if it waits.
wake_signalling :
    (thread : Thread) (occupied : Bool)
    → guarded thread signalling occupied ≡ true
    → (guarded (wake thread signalling).0 idle occupied ≡ true)
      × (owed (wake thread signalling).0 occupied ≡ owed thread occupied)
unfolding wake
wake_signalling starting occupied flag = (ground (arith, flag), refl)
wake_signalling looping occupied flag = (ground (arith, flag), refl)
wake_signalling locked occupied flag = (ground (arith, flag), refl)
wake_signalling waiting occupied flag = (ground (arith, flag), refl)
wake_signalling woken occupied flag = (ground (arith, flag), refl)
wake_signalling working occupied flag = (ground (arith, flag), refl)
wake_signalling leaving occupied flag = (ground (arith, flag), refl)

caller_at-Guarded :
    (c : Caller) (h : HandShake) → h.caller ≡ c → Guarded h → Guarded (caller_at false c h)
unfolding caller_at signal
caller_at-Guarded idle h e g =
    elim h.occupied as (λ b. h.occupied ≡ b → Guarded (if b then h else hand_over h)) [
      | true ↦ λ on. g
      | false ↦ λ off. by_flag off
    ]
      refl
  where
    by_flag : h.occupied ≡ false → Guarded (hand_over h)
    by_flag off =
        let flag = rw (e, off) at g.flag in
        let count = rw off at g.count in
        let asleep = owed_asleep h.thread flag in
        record { flag = flag; count = omega (arith, count, asleep.0, asleep.1) }
caller_at-Guarded created h e g = elim (Bool-cases (unlocked h.owner)) [
  | inl free ↦ rw free (let flag = rw e at g.flag in record { flag = flag; count = g.count })
  | inr held ↦ rw held g
]
caller_at-Guarded holding h e g =
    let flag = rw e at g.flag in record { flag = flag; count = g.count }
caller_at-Guarded expecting h e g = g
caller_at-Guarded answered h e g = elim (Bool-cases (unlocked h.owner)) [
  | inl free ↦ rw free (let flag = rw e at g.flag in record { flag = flag; count = g.count })
  | inr held ↦ rw held g
]
caller_at-Guarded signalling h e g =
    let flag = rw e at g.flag in
    let (kept, counted) = wake_signalling h.thread h.occupied flag in
    record { flag = rw e kept; count = rw (e, counted) g.count }

schedule-Guarded : (ts : List Turn) (h : HandShake) → First ts → Guarded h → Guarded (schedule ts h)
unfolding schedule take_turn
schedule-Guarded [] h first g = g
schedule-Guarded (thread_turn ∷ ts) h first g =
    schedule-Guarded ts (thread_at h.thread h) first (thread_at-Guarded h.thread h refl g)
schedule-Guarded (caller_turn true ∷ ts) h (e, first) g = absurd (ground arith)
schedule-Guarded (caller_turn false ∷ ts) h (e, first) g =
    schedule-Guarded ts (caller_at false h.caller h) first (caller_at-Guarded h.caller h refl g)

pub job-Guarded : (ts : List Turn) → First ts → Guarded (schedule ts created_job)
job-Guarded ts first = schedule-Guarded ts created_job first (record { flag = refl; count = refl })

handled_alone :
    (thread : Thread) (caller : Caller) (occupied : Bool) (given handled : ℕ)
    → thread ≡ working
    → guarded thread caller occupied ≡ true
    → given ≡ handled + owed thread occupied
    → (occupied ≡ true) × (calling caller ≡ false) × (given ≡ suc handled)
handled_alone thread caller occupied given handled e flag count =
    let (off, on) = not_calling thread caller occupied (rw e refl) flag in
    (on, off, count ∙ rw (e, on) (omega arith))

-- After any turns of the main thread and the thread of a new job that is the first of its pool, so
-- that `thread_pool_start_job` always meets it expecting a free one, and without spurious
-- wake-ups: while that thread handles an event, the job is occupied, the main thread is in no call
-- on it, and all its events but this one are handled.
pub working_alone :
    (ts : List Turn)
    → First ts
    → (schedule ts created_job).thread ≡ working
    → ((schedule ts created_job).occupied ≡ true)
      × (calling (schedule ts created_job).caller ≡ false)
      × ((schedule ts created_job).given ≡ suc (schedule ts created_job).handled)
working_alone ts first e =
    let h = schedule ts created_job in
    let g = job-Guarded ts first in
    handled_alone h.thread h.caller h.occupied h.given h.handled e g.flag g.count
