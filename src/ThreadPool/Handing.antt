-- ===== src/ThreadPool/Handing.antt =====
-- What the jobs of a pool hold after `thread_pool_start_job` of common/structures/thread_pool.c.
use jm_bus.Common.{
  ◌-◌, if◌then◌else◌, ok, pure, set, inl, inr, Bool, true, false, Option, none, some, List, [], ◌∷◌,
  get_elem?, All, All-set, All-snoc, Bool-cases, Yields, Yields-if, Yields_after,
}
use jm_bus.Cstd.{ArrayLib, len}
use jm_bus.ThreadPool.{
  Event, Job, Pool, Threads, same, scan, start_last, spawn, thread_pool_start_job,
}

module _ (P : Job → Type 0) where
  scan-All :
      (found : Bool) (jobs : List Job) (event : Event)
      → P (record { event = some event; occupied = true })
      → All P jobs
      → All P (scan found jobs event).1
  unfolding scan
  scan-All found [] event new h = tt
  scan-All found (job ∷ jobs) event new (p, h) = elim (Bool-cases (same job.occupied found)) [
    | inl taken ↦ rw taken (new, h)
    | inr other ↦ let rest = scan-All job.occupied jobs event new h in rw other (p, rest)
  ]

  module _ {W : Type 0} (lib : ArrayLib W) (threads : Threads W) where
    start_last-All :
        (grown : Pool) (event : Event) (o : Option Job) (w : W)
        → ((b : Bool) → P (record { event = some event; occupied = b }))
        → All P grown.items
        → Yields (start_last lib threads grown event o w) (λ r _. All P r.1.items)
    unfolding start_last
    start_last-All grown event none w new h = tt
    start_last-All grown event (some ref) w new h =
        let placed =
          All-set P grown.items (len grown - 1) (record ref { event = some event }) h
            (new ref.occupied) in
        let w₁ = (threads.cond_init w).1 in
        let w₂ = (threads.mutex_init w₁).1 in
        elim (Bool-cases (threads.cond_init w).0) [
          | inr no_cond ↦ rw no_cond placed
          | inl cond ↦ elim (Bool-cases (threads.mutex_init w₁).0) [
            | inr no_mutex ↦ rw (cond, no_mutex) placed
            | inl mutex ↦
                rw (cond, mutex)
                  (Yields_after {A = Unit {0}}
                    ((if (threads.create w₂).0 then threads.start_up else pure tt)
                      (threads.create w₂).1)
                    (λ _ w.
                      ok
                        (
                          (threads.create w₂).0,
                          record grown {
                            items =
                                set grown.items (len grown - 1) (record ref { event = some event });
                          },
                        )
                        w)
                    (λ (r : Bool × Pool) (_ : W). All P r.1.items) (λ _ _. placed))
          ]
        ]

    -- If a job with no event, and one with the new event, have the property, then all jobs keep it.
    pub start_job-All :
        (pool : Pool) (event : Event) (w : W)
        → ((b : Bool) → P (record { event = none; occupied = b }))
        → ((b : Bool) → P (record { event = some event; occupied = b }))
        → All P pool.items
        → Yields (thread_pool_start_job lib threads pool event w) (λ r _. All P r.1.items)
    unfolding thread_pool_start_job spawn
    start_job-All pool event w idle new h =
        let h' = scan-All false pool.items event (new true) h in
        let jobs = (scan false pool.items event).1 in
        let blank : Job = record { event = none; occupied = true } in
        let pool' = record pool { items = jobs } in
        let w₁ = (lib.insert pool' blank w).1 in
        Yields-if (scan false pool.items event).0 _ _ w
          (λ (r : Bool × Pool) (_ : W). All P r.1.items) (λ _. h')
          (λ _.
            start_last-All (lib.insert pool' blank w).0.1 event
              (get_elem? (lib.insert pool' blank w).0.1.items
                (len (lib.insert pool' blank w).0.1 - 1))
              w₁ new
              (elim (Bool-cases (lib.insert pool' blank w).0.0) [
                | inl good ↦
                    rw ((lib.insert_true pool' blank w good).0)
                      (All-snoc P jobs blank h' (idle true))
                | inr bad ↦ rw (lib.insert_false pool' blank w bad) h'
              ]))
