-- ===== src/System/Served.antt =====
-- Clients and topic map agree in every state that the running server comes to, if the clients
-- subscribe to topics of which none is the start of another.
use mathlib.Core.Option.{some-injective}
use mathlib.Core.Path.{subst}
use jm_bus.Common.{
  ℕ, zero, suc, arith, ◌≡◌, refl, sym, ◌∙◌, Bool, false, none, some, List, [], ◌∷◌, get_elem?, All,
  All-get, All-set, Cmd, Run, Yields, Yields_mono, Yields_both,
}
use jm_bus.Clients.{PollFd, ClientMetadata}
use jm_bus.Clients.Pairs.{zip}
use jm_bus.Connections.Laws.{Names, Laws}
use jm_bus.Cstd.{Array, ArrayLib, Plenty}
use jm_bus.Messages.{Message}
use jm_bus.Messages.Receive.{message_array_generate_from_client}
use jm_bus.Server.{
  ServerState, server_state_add_client, server_state_add_client_topic, server_state_remove_client,
}
use jm_bus.Server.Agreement.{memberships, Separate, Agreed}
use jm_bus.Server.Agreement.Leaving.{remove_client-Agreed}
use jm_bus.Server.Agreement.Memberships.{add_client-Agreed, add_client_topic-Agreed}
use jm_bus.Server.Pooled.{
  SamePool, add_client-SamePool, add_client_topic-SamePool, remove_client-SamePool,
}
use jm_bus.Sockets.{Sockets}
use jm_bus.System.{System, SameFds, Reach}
use jm_bus.System.Keeping.{Turns, Reach-Held}
use jm_bus.System.Safety.{length-SameFds}
use jm_bus.System.Start.{Sized, Begun}
use jm_bus.ServerInfo.{ServerInfo}
use jm_bus.HashMap.{Row, find_entry}
use jm_bus.HashMap.Contents.{bucket, entries_at, items_of}
use jm_bus.ThreadPool.{Event, Job, Pool, Threads, thread_pool_start_job}
use jm_bus.ThreadPool.Handing.{start_job-All}

memberships-SameFds :
    (q : List ℕ) (u : ℕ) (ps qs : List PollFd) (mds : List ClientMetadata)
    → SameFds ps qs
    → memberships q u (zip ps mds) ≡ memberships q u (zip qs mds)
memberships-SameFds q u [] [] mds h = refl
memberships-SameFds q u [] (p ∷ qs) mds h = absurd h
memberships-SameFds q u (p ∷ ps) [] mds h = absurd h
memberships-SameFds q u (p ∷ ps) (p' ∷ qs) [] h = refl
memberships-SameFds q u (p ∷ ps) (p' ∷ qs) (m ∷ mds) (e, h) =
    let rest = memberships-SameFds q u ps qs mds h in rw (e, rest) refl

module _ {W : Type 0} (lib : ArrayLib W) (Used : List ℕ → Type 0) where
  -- The messages of the job, if it has an event, subscribe to these topics only.
  abbrev pub Named : Job → Type 0
  Named job = (e : Event) → job.event ≡ some e → All (Names lib Used) e.msgs.items

  abbrev pub Received : Array Message → Type 0
  Received msgs = All (Names lib Used) msgs.items

  pub record Serving (s : ServerState) : Type 0 where
    pub agreed : Agreed Used s
    pub jobs : All Named s.pool.items

  -- What the clients send, as far as the server can read it.
  pub record Polite (os : Sockets W) (gone : Cmd W (Array Message)) : Type 0 where
    pub polite :
        (fd : ℕ) (w : W)
        → Yields
            (message_array_generate_from_client os lib fd w)
            (λ o _. elim o as (λ _. Type 0) [ none ↦ Unit {0} | some a ↦ Received a ])
    pub gone_polite : (w : W) → Yields (gone w) (λ a _. Received a)

  same_jobs :
      (s : ServerState) (r : Run W (Bool × ServerState))
      → Serving s
      → Yields r (λ r _. Agreed Used r.1)
      → Yields r (SamePool s.pool)
      → Yields r (λ r _. Serving r.1)
  same_jobs s r g agrees same =
      Yields_mono r (λ r _. Agreed Used r.1 × (r.1.pool ≡ s.pool)) (λ r _. Serving r.1)
        (Yields_both r (λ r _. Agreed Used r.1) (SamePool s.pool) agrees same)
        (λ r _ h. record {
          agreed = h.0;
          jobs = subst (λ (p : Pool). All Named p.items) (sym (h.1)) g.jobs;
        })

  with_jobs :
      (s : ServerState) (pool : Pool)
      → Serving s
      → All Named pool.items
      → Serving (record s { pool = pool })
  with_jobs s pool g jobs = record {
    agreed = record {
      valid = g.agreed.valid;
      in_step = g.agreed.in_step;
      used = g.agreed.used;
      once = g.agreed.once;
      agree = g.agreed.agree;
    };
    jobs = jobs;
  }

module _ {W : Type 0} (os : Sockets W) (lib : ArrayLib W) (plenty : Plenty lib)
    (threads : Threads W) (gone : Cmd W (Array Message)) (Used : List ℕ → Type 0)
    (separate : Separate Used) (polite : Polite lib Used os gone) where
  Serving-laws :
      Laws os lib threads gone (Serving lib Used) (λ _. Unit {0}) Used (Received lib Used)
  Serving-laws = record {
    joins = λ s sock w g.
        same_jobs lib Used s (server_state_add_client lib s sock w) g
          (add_client-Agreed lib plenty Used separate s sock w g.agreed)
          (add_client-SamePool lib s sock w);
    subscribes = λ s topic sock w g used.
        same_jobs lib Used s (server_state_add_client_topic lib s topic sock w) g
          (add_client_topic-Agreed lib plenty Used separate s topic sock w g.agreed used)
          (add_client_topic-SamePool lib s topic sock w);
    leaves = λ s sock w g _.
        same_jobs lib Used s (server_state_remove_client os lib s sock w) g
          (remove_client-Agreed os lib Used separate s sock w g.agreed)
          (remove_client-SamePool lib os s sock w);
    hands = λ s fd msgs w g _ received.
        Yields_mono
          (thread_pool_start_job lib threads s.pool (record { from = some fd; msgs = msgs }) w)
          (λ r _. All (Named lib Used) r.1.items)
          (λ r _. Serving lib Used (record s { pool = r.1 }))
          (start_job-All (Named lib Used) lib threads s.pool
            (record { from = some fd; msgs = msgs }) w (λ b e have. cc)
            (λ b e have.
              subst (λ (x : Event). Received lib Used x.msgs) (some-injective _ _ have) received)
            g.jobs)
          (λ r _ jobs. with_jobs lib Used s r.1 g jobs);
    receives = polite.polite;
    gone_received = polite.gone_polite;
    clients = λ s fd g differs. tt;
  }

  Serving-turns : Turns lib (Serving lib Used) (λ _. Unit {0}) Used
  Serving-turns = record {
    polled = λ s fds g alike. record {
      agreed = record {
        valid = g.agreed.valid;
        in_step = sym (length-SameFds s.clients.fds.items fds alike) ∙ g.agreed.in_step;
        used = g.agreed.used;
        once = g.agreed.once;
        agree = λ q u used.
            g.agreed.agree q u used
            ∙ memberships-SameFds q u s.clients.fds.items fds s.clients.metadata.items alike;
      };
      jobs = g.jobs;
    };
    handed = λ s i k from job event msg g here has_event comes held. (
      tt,
      All-get (Names lib Used) event.msgs.items k msg
          (All-get (Named lib Used) s.pool.items i job g.jobs here event has_event) held,
    );
    finished = λ s i job g here.
        with_jobs lib Used s (record (s.pool) { items = _ }) g
          (All-set (Named lib Used) s.pool.items i (record job { occupied = false }) g.jobs
            (All-get (Named lib Used) s.pool.items i job g.jobs here));
  }

  marks_any : (xs : List ℕ) → All (λ _. Unit {0}) xs
  marks_any [] = tt
  marks_any (x ∷ xs) = (tt, marks_any xs)

  pub Reach-Agreed :
      {s t : System W}
      → Reach os lib threads gone s t
      → Serving lib Used s.state
      → Agreed Used t.state
  Reach-Agreed {s} r g =
      (Reach-Held os lib threads gone (Serving lib Used) (λ _. Unit {0}) Used (Received lib Used)
        Serving-laws Serving-turns r
        (record { state_holds = g; marks = marks_any s.marked.items })).state_holds.agreed

-- The cells of a new map have no entries.
abbrev pub Blank : (ℕ → List Row) → Type 0
Blank initial = (n : ℕ) → All (λ r. items_of (some r) ≡ []) (initial n)

blank_at :
    (rows : List Row) (i : ℕ)
    → All (λ r. items_of (some r) ≡ []) rows
    → items_of (get_elem? rows i) ≡ []
blank_at [] i h = refl
blank_at (r ∷ rows) zero (e, h) = e
blank_at (r ∷ rows) (suc i) (e, h) = blank_at rows i h

pub Begun-Serving :
    {W : Type 0} (lib : ArrayLib W) (Used : List ℕ → Type 0) (initial : ℕ → List Row)
    (si : ServerInfo) (s : ServerState)
    → Sized initial
    → Blank initial
    → Begun initial si s
    → Serving lib Used s
Begun-Serving lib Used initial si s sized blank b = record {
  agreed = record {
    valid = rw (b.new_map) (record { positive = omega arith; full = sized 1000 });
    in_step = b.in_step;
    used = rw (b.no_topics) (tt, tt);
    once = rw (b.no_topics) ((λ q used. omega arith), tt);
    agree = λ q u used.
        let no_entries : find_entry q (entries_at s.topics q) ≡ none =
          rw
            (
              b.new_map,
              blank_at (initial 1000) (bucket (record { rows = initial 1000; cap = 1000 }) q)
                  (blank 1000),
            )
            (unfold find_entry in refl) in
        rw (no_entries, b.polls_server, b.no_topics) (ground arith);
  };
  jobs = rw (b.no_jobs) tt;
}
