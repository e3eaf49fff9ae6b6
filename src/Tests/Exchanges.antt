-- ===== src/Tests/Exchanges.antt =====
-- The theorems on the client library at a client of socket 3.
use jm_bus.Common.{◌≢◌, out_of_fuel}
use jm_bus.Client.{Client}
use jm_bus.Cstd.Ideal.{ideal}
use jm_bus.Messages.Parsing.{message_array_generate_from_client-ends}
use jm_bus.Messages.Receive.{message_array_generate_from_client}
use jm_bus.Tests.Fixtures.{talking, topic_ab}

abbrev pub client_3 : Client
client_3 = record { socket = 3; addr = record { sin_family = 2; sin_port = 44326; s_addr = 0 } }

message_array_generate_from_client-ends_example :
    message_array_generate_from_client (talking topic_ab) ideal 4 tt ≢ out_of_fuel
message_array_generate_from_client-ends_example =
    message_array_generate_from_client-ends (talking topic_ab) ideal 4 tt
