-- ===== src/Tests/Systems.antt =====
-- The theorems on the running server, and on the topic map over a run of changes.
use jm_bus.Common.{
  ℕ, ◌≡◌, ◌≢◌, refl, ap, zero, suc, inl, inr, true, Option, none, some, List, [], ◌∷◌, ok,
  out_of_fuel,
}
use jm_bus.Clients.Adding.{polled}
use jm_bus.Connections.Ending.{process_poll_events-ends}
use jm_bus.Connections.Polling.{process_poll_events}
use jm_bus.Cstd.{Array, fresh}
use jm_bus.Cstd.Ideal.{ideal, ideal-Plenty}
use jm_bus.HashMap.{Row, null_row, HashMap, hash_map_get}
use jm_bus.HashMap.Contents.{IsValid, sockets}
use jm_bus.HashMap.Unlisting.{listed}
use jm_bus.HashMap.Subscriptions.{Change, subscribe, unsubscribe, recount, run, run_refines}
use jm_bus.Network.{addr_or_default}
use jm_bus.Server.{ServerState}
use jm_bus.Server.SetUp.{server_state_init}
use jm_bus.System.Start.{Sized, server_state_init_lem}
use jm_bus.Tests.Fixtures.{talking, reachable, willing, nothing_left, topic_ab, text_c, array_of}
use jm_bus.Tests.States.{map_ab, map_ab-IsValid, state_ab}

-- Socket 9 subscribes to "ab", socket 6 leaves it, and 9 joins "c".
abbrev changes : List Change
changes = subscribe topic_ab 9 ∷ unsubscribe topic_ab 6 ∷ subscribe text_c 9 ∷ []

run_refines_example :
    (hm' : HashMap) × (w' : Unit {0}) × (o : Option (Array ℕ)) × (run ideal changes map_ab tt
      ≡ ok hm' w')
    × IsValid hm'
    × (hash_map_get hm' topic_ab w' ≡ ok o w')
    × (listed 9 (elim o [ none ↦ [] | some a ↦ a.items ])
        ≡ recount topic_ab 9 changes (listed 9 (sockets map_ab topic_ab)))
run_refines_example =
    run_refines ideal changes map_ab topic_ab 9 tt ideal-Plenty map_ab-IsValid
      (inl refl, (inl refl, (inr (refl, refl), tt)))

process_poll_events-ends_example :
    process_poll_events (talking topic_ab) ideal willing nothing_left state_ab tt ≢ out_of_fuel
process_poll_events-ends_example =
    process_poll_events-ends ideal (talking topic_ab) willing nothing_left (λ w. tt) (λ w. tt)
      state_ab tt

abbrev pub null_rows : ℕ → List Row
null_rows zero = []
null_rows (suc n) = null_row ∷ null_rows n

pub null_rows-Sized : Sized null_rows
null_rows-Sized zero = refl
null_rows-Sized (suc n) = ap suc (null_rows-Sized n)

server_state_init_lem_example :
    (s : ServerState) × (w' : Unit {0}) × (server_state_init
        (reachable (Unit {0}))
        ideal
        willing
        null_rows
        none
        tt
      ≡ ok (some s) w')
    × (s.server ≡ record { addr = addr_or_default (reachable (Unit {0})) none; socket = 3 })
    × (s.clients.fds.items ≡ polled 3 ∷ [])
    × (s.pool.items ≡ [])
    × (s.running ≡ true)
server_state_init_lem_example =
    server_state_init_lem (reachable (Unit {0})) ideal willing ideal-Plenty null_rows none tt 3 refl
      (λ v. refl) (λ v. refl) (λ v. refl) (λ v. refl)

-- The server behind its set-up.
abbrev pub begun : ServerState
begun = record {
  clients = record {
    fds = array_of 100 (polled 3 ∷ []);
    metadata = array_of 100 (record { topics = fresh 2 } ∷ []);
  };
  server = record { addr = addr_or_default (reachable (Unit {0})) none; socket = 3 };
  topics = record { rows = null_rows 1000; cap = 1000 };
  pool = fresh 100;
  running = true;
}
