-- ===== src/System/Safety.antt =====
-- What holds in every state that the running server comes to.
use mathlib.Core.Option.{some-injective}
use jm_bus.Common.{
  ℕ, suc, ◌≡◌, ◌≢◌, refl, sym, ap, ◌∙◌, false, ◌==◌, none, some, List, [], ◌∷◌, length, All,
  All-get, All-set, arith, Cmd, count_if, Yields_mono, Yields_any,
}
use jm_bus.Clients.{PollFd}
use jm_bus.Connections.Laws.{Laws}
use jm_bus.Cstd.{Array, ArrayLib, Plenty}
use jm_bus.Messages.{Message, message_get_topic}
use jm_bus.Messages.Receive.{message_array_generate_from_client}
use jm_bus.Server.{ServerState}
use jm_bus.Server.Keeping.{
  Foreign, Sound, add_client-Sound, add_client_topic-Sound, remove_client-Sound,
}
use jm_bus.ServerInfo.{ServerInfo}
use jm_bus.Sockets.{Sockets}
use jm_bus.System.{System, SameFds, Reach}
use jm_bus.System.Keeping.{Turns, Held, Reach-Held}
use jm_bus.ThreadPool.{Event, Pool, Threads, thread_pool_start_job}
use jm_bus.ThreadPool.Handing.{start_job-All}

pub length-SameFds : (ps qs : List PollFd) → SameFds ps qs → length ps ≡ length qs
length-SameFds [] [] h = refl
length-SameFds [] (q ∷ qs) h = absurd h
length-SameFds (p ∷ ps) [] h = absurd h
length-SameFds (p ∷ ps) (q ∷ qs) (e, h) = ap suc (length-SameFds ps qs h)

count-SameFds :
    (sock : ℕ) (ps qs : List PollFd)
    → SameFds ps qs
    → count_if (λ p. p.fd == sock) ps ≡ count_if (λ p. p.fd == sock) qs
count-SameFds sock [] [] h = refl
count-SameFds sock [] (q ∷ qs) h = absurd h
count-SameFds sock (p ∷ ps) [] h = absurd h
count-SameFds sock (p ∷ ps) (q ∷ qs) (e, h) =
    let counts = count-SameFds sock ps qs h in rw (e, counts) refl

from_event :
    (fd : ℕ) (msgs : Array Message) (e : Event) (sock : ℕ)
    → some (record { from = some fd; msgs = msgs }) ≡ some e
    → e.from ≡ some sock
    → fd ≡ sock
from_event fd msgs e sock have same =
    some-injective _ _ (ap (λ (x : Event). x.from) (some-injective _ _ have) ∙ same)

-- The server is sound, and no client marked for removal is the server's own socket.
abbrev pub Safe : {W : Type 0} → ServerInfo → System W → Type 0
Safe si = Held (Sound si) (λ fd. fd ≢ si.socket)

module _ {W : Type 0} (si : ServerInfo) (os : Sockets W) (lib : ArrayLib W) (plenty : Plenty lib)
    (threads : Threads W) (gone : Cmd W (Array Message)) where
  with_jobs :
      (s : ServerState) (pool : Pool)
      → Sound si s
      → All (Foreign si.socket) pool.items
      → Sound si (record s { pool = pool })
  with_jobs s pool h jobs = record {
    same_server = h.same_server;
    polling = h.polling;
    valid = h.valid;
    jobs = jobs;
  }

  Sound-laws :
      Laws os lib threads gone (Sound si) (λ fd. fd ≢ si.socket) (λ _. Unit {0}) (λ _. Unit {0})
  Sound-laws = record {
    joins = λ s sock w h. add_client-Sound si lib plenty s sock w h;
    subscribes = λ s topic sock w h _. add_client_topic-Sound si lib plenty s topic sock w h;
    leaves = λ s sock w h other. remove_client-Sound si lib plenty os s sock w h other;
    hands = λ s fd msgs w h other _.
        Yields_mono
          (thread_pool_start_job lib threads s.pool (record { from = some fd; msgs = msgs }) w)
          (λ r _. All (Foreign si.socket) r.1.items) (λ r _. Sound si (record s { pool = r.1 }))
          (start_job-All (Foreign si.socket) lib threads s.pool
            (record { from = some fd; msgs = msgs }) w (λ b e have. cc)
            (λ b e have same. other (from_event fd msgs e si.socket have same)) h.jobs)
          (λ r _ jobs. with_jobs s r.1 h jobs);
    receives = λ fd w.
        Yields_mono (message_array_generate_from_client os lib fd w) (λ _ _. Unit {0}) _
          (Yields_any (message_array_generate_from_client os lib fd w))
          (λ o _ _.
            elim o as (λ o. elim o as (λ _. Type 0) [ none ↦ Unit {0} | some a ↦ Unit {0} ]) [
              | none ↦ tt
              | some a ↦ tt
            ]);
    gone_received = λ w. Yields_any (gone w);
    clients =
        λ s fd h differs same. ground (arith, ap (λ (x : ServerInfo). x.socket) h.same_server);
  }

  Sound-turns : Turns lib (Sound si) (λ fd. fd ≢ si.socket) (λ _. Unit {0})
  Sound-turns = record {
    polled = λ s fds h alike. record {
      same_server = h.same_server;
      polling = record {
        in_step = sym (length-SameFds s.clients.fds.items fds alike) ∙ h.polling.in_step;
        polled_still =
            omega (
              arith,
              h.polling.polled_still,
              count-SameFds si.socket s.clients.fds.items fds alike,
            );
      };
      valid = h.valid;
      jobs = h.jobs;
    };
    handed = λ s i k from job event msg h here has_event comes held. (
      (λ same.
          All-get (Foreign si.socket) s.pool.items i job h.jobs here event has_event
            (comes ∙ ap some same)),
      (λ w.
          Yields_mono (message_get_topic lib msg w) (λ _ _. Unit {0}) _
            (Yields_any (message_get_topic lib msg w)) (λ t _ _ _. tt)),
    );
    finished = λ s i job h here.
        with_jobs s (record (s.pool) { items = _ }) h
          (All-set (Foreign si.socket) s.pool.items i (record job { occupied = false }) h.jobs
            (All-get (Foreign si.socket) s.pool.items i job h.jobs here));
  }

  pub Reach-Safe : {s t : System W} → Reach os lib threads gone s t → Safe si s → Safe si t
  Reach-Safe r h =
      Reach-Held os lib threads gone (Sound si) (λ fd. fd ≢ si.socket) (λ _. Unit {0})
        (λ _. Unit {0}) Sound-laws Sound-turns r h
