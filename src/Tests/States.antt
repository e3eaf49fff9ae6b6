-- ===== src/Tests/States.antt =====
-- A map, a client list and a server's state to apply theorems to.
use jm_bus.Common.{refl, true, [], ◌∷◌, arith}
use jm_bus.Cstd.{Array, fresh}
use jm_bus.Clients.{ClientMetadata, ClientList}
use jm_bus.Clients.Adding.{polled}
use jm_bus.HashMap.{Entry, row, HashMap}
use jm_bus.HashMap.Contents.{IsValid}
use jm_bus.Messages.{Message, held}
use jm_bus.Server.{ServerState}
use jm_bus.Tests.Fixtures.{topic_ab, text_c, array_of}

-- Sockets 5, 6 and 7 under "ab", in a map of one row.
abbrev pub entry_ab : Entry
entry_ab = record { key = topic_ab; value = array_of 3 (5 ∷ 6 ∷ 7 ∷ []) }

abbrev pub row_ab : Array Entry
row_ab = array_of 10 (entry_ab ∷ [])

abbrev pub map_ab : HashMap
map_ab = record { rows = row row_ab ∷ []; cap = 1 }

pub map_ab-IsValid : IsValid map_ab
map_ab-IsValid = record { positive = omega arith; full = refl }

-- Client 5 has subscribed to "ab", and client 8 to nothing.
abbrev pub metadata_5 : ClientMetadata
metadata_5 = record { topics = array_of 2 (topic_ab ∷ []) }

abbrev pub metadata_8 : ClientMetadata
metadata_8 = record { topics = fresh 2 }

abbrev pub two_clients : ClientList
two_clients = record {
  fds = array_of 100 (polled 5 ∷ polled 8 ∷ []);
  metadata = array_of 100 (metadata_5 ∷ metadata_8 ∷ []);
}

abbrev pub wide_clients : ClientList
wide_clients = record two_clients { fds = array_of 110 (polled 5 ∷ polled 8 ∷ []) }

abbrev pub state_ab : ServerState
state_ab = record {
  clients = two_clients;
  server = record { addr = record { sin_family = 2; sin_port = 44326; s_addr = 0 }; socket = 3 };
  topics = map_ab;
  pool = fresh 2;
  running = true;
}

abbrev pub msg_ab : Message
msg_ab = record { topic = held (array_of 2 topic_ab); body = held (array_of 1 text_c); type = 3 }
