-- ===== src/Tests/Publishing.antt =====
-- A server on the recording platform: a client joins, subscribes to "ab", and gets what is published there.
use jm_bus.Common.{
  set, zero, suc, inl, ℕ, ◌≡◌, ◌<◌, refl, true, none, some, List, [], ◌∷◌, ◌++◌, Bool, All, ok,
}
use jm_bus.Cstd.{fresh}
use jm_bus.Cstd.Ideal.{ideal_over, ideal_over-Plenty}
use jm_bus.Messages.{
  connection_type, messages_read, read_topic, read_length, read_body, message_get_topic, contents,
  messages_gen_connection, messages_write, overwrite, message_free,
}
use jm_bus.Messages.Frames.{frame}
use jm_bus.Messages.Receive.{
  message_array_generate_from_client, read_all_raw_bytes, recv_loop, recv_round, copy_read,
  parse_loop,
}
use jm_bus.Bytes.{convert_n_utf8_to_64bit, convert_64bit_to_n_utf8, read_byte_array}
use jm_bus.Cstd.Loops.{insert_each}
use jm_bus.Clients.{
  PollFd, pollin, client_list_init, client_list_add, client_metadata_init, client_list_get_idx,
  index_of_fd,
}
use jm_bus.Clients.Adding.{polled}
use jm_bus.Connections.{accept_messages, handle_message, publish_message, on_subscribe}
use jm_bus.Connections.Polling.{visit, read_client}
use jm_bus.HashMap.{
  Row, row, hash_map_create, hash_map_set, mod_cap, set_in_row, hash_map_add_new_entry,
}
use jm_bus.Strings.{hash_from_str}
use jm_bus.Network.{addr_or_default}
use jm_bus.Server.{
  ServerState, server_state_add_client, server_state_add_client_topic, add_topic_at, add_topic,
  subscribed,
}
use jm_bus.Server.SetUp.{init_parts, server_state_init}
use jm_bus.ServerInfo.{server_handler_init, server_handler_bind_and_listen}
use jm_bus.System.{System, with_revents, Reach, start, later, polls as step_polls, visits, handles}
use jm_bus.System.Safety.{Safe}
use jm_bus.System.Served.{Blank}
use jm_bus.System.Start.{serving-Safe}
use jm_bus.Clients.Keeping.{polls}
use jm_bus.HashMap.Unlisting.{listed}
use jm_bus.Traffic.{to_each}
use jm_bus.Traffic.Served.{serving_publishes}
use jm_bus.Tests.States.{msg_ab}
use jm_bus.ThreadPool.{Job, thread_pool_create, thread_pool_start_job, scan}
use jm_bus.Sockets.{send_message}
use jm_bus.Traffic.{Log}
use jm_bus.Tests.Asking.{
  asking, asked, no_message, UsedTwo, two-Separate, asking-Logged, asking-Polite, eager,
}
use jm_bus.Tests.Fixtures.{topic_ab, text_c, array_of, reachable}
use jm_bus.Tests.Systems.{null_rows, null_rows-Sized, begun}
use jm_bus.Tests.Recording.{ideal-Silent}

-- The server behind its set-up on this platform.
abbrev set_up : ServerState
set_up = record begun {
  server = record { addr = addr_or_default (reachable Log) none; socket = 3 };
}

begun_here :
    server_state_init (reachable Log) (ideal_over Log) eager null_rows none [] ≡ ok (some set_up) []
unfolding server_state_init init_parts server_handler_init server_handler_bind_and_listen
    client_list_init client_list_add client_metadata_init hash_map_create thread_pool_create
begun_here = refl

-- The server's state with these descriptors, topics, jobs and rows.
abbrev with_client : List PollFd → List (List ℕ) → List Job → List Row → ServerState
with_client fds topics jobs rows = record set_up {
  clients = record {
    fds = array_of 100 fds;
    metadata =
        array_of 100 (record { topics = fresh 2 } ∷ record { topics = array_of 2 topics } ∷ []);
  };
  topics = record { rows = rows; cap = 1000 };
  pool = array_of 100 jobs;
}

abbrev readable : ℕ → PollFd
readable sock = record { fd = sock; events = pollin; revents = 1 }

abbrev greeted : Log
greeted = (9, frame connection_type [] []) ∷ []

abbrev running : ServerState → Log → System Log
running s w = record { state = s; marked = fresh 10; world = w }

abbrev ringing_state : ServerState
ringing_state = with_revents set_up (readable 3 ∷ [])

accepts :
    visit asking (ideal_over Log) eager no_message (fresh 10) ringing_state (readable 3) []
    ≡ ok (fresh 10, with_client (readable 3 ∷ polled 9 ∷ []) [] [] (null_rows 1000)) greeted
unfolding visit accept_messages messages_gen_connection messages_write overwrite
    convert_64bit_to_n_utf8 insert_each message_free send_message server_state_add_client
    client_list_add
accepts = refl

abbrev job_9 : Job
job_9 = record {
  event = some (record { from = some 9; msgs = array_of 2 (asked ∷ []) });
  occupied = true;
}

abbrev fds_9 : List PollFd
fds_9 = polled 3 ∷ readable 9 ∷ []

starts :
    visit asking
      (ideal_over Log)
      eager
      no_message
      (fresh 10)
      (with_client fds_9 [] [] (null_rows 1000))
      (readable 9)
      greeted
    ≡ ok (fresh 10, with_client fds_9 [] (job_9 ∷ []) (null_rows 1000)) greeted
unfolding visit read_client message_array_generate_from_client read_all_raw_bytes recv_loop
    recv_round copy_read insert_each parse_loop messages_read read_topic read_length
    convert_n_utf8_to_64bit read_byte_array read_body thread_pool_start_job scan
starts = refl

abbrev rows_9 : List Row
rows_9 =
    set (null_rows 1000) 208
      (row (array_of 10 (record { key = topic_ab; value = array_of 3 (9 ∷ []) } ∷ [])))

subscribes :
    handle_message asking
      (ideal_over Log)
      (with_client fds_9 [] (job_9 ∷ []) (null_rows 1000))
      9
      asked
      greeted
    ≡ ok (with_client fds_9 (topic_ab ∷ []) (job_9 ∷ []) rows_9) greeted
unfolding handle_message message_get_topic contents on_subscribe server_state_add_client_topic
    add_topic_at client_list_get_idx index_of_fd subscribed add_topic hash_map_set mod_cap
    set_in_row hash_from_str hash_map_add_new_entry
subscribes = refl

-- The client is accepted, sends its request, and the thread handles it.
reached :
    Reach asking
      (ideal_over Log)
      eager
      no_message
      (running set_up [])
      (running (with_client fds_9 (topic_ab ∷ []) (job_9 ∷ []) rows_9) greeted)
reached =
    later
      (later
        (later
          (later (later start (step_polls (readable 3 ∷ []) (fresh 10) (refl, tt) refl refl)) (
            visits 0 (readable 3) (fresh 10)
              (with_client (readable 3 ∷ polled 9 ∷ []) [] [] (null_rows 1000)) greeted refl accepts
              refl))
          (step_polls fds_9 (fresh 10) (refl, (refl, tt)) refl refl))
        (visits 1 (readable 9) (fresh 10) (with_client fds_9 [] (job_9 ∷ []) (null_rows 1000))
          greeted refl starts refl))
      (handles 0 0 9 job_9 (record { from = some 9; msgs = array_of 2 (asked ∷ []) }) asked
        (with_client fds_9 (topic_ab ∷ []) (job_9 ∷ []) rows_9) greeted refl refl refl refl
        subscribes refl)

null_rows-Blank : Blank null_rows
null_rows-Blank zero = tt
null_rows-Blank (suc n) = (refl, null_rows-Blank n)

abbrev served : ServerState
served = with_client fds_9 (topic_ab ∷ []) (job_9 ∷ []) rows_9

-- Socket 7 publishes under "ab": the client gets it once.
serving_publishes_example :
    (b : Bool) × (v : Log) × (socks : List ℕ) × (publish_message asking
        (ideal_over Log)
        served
        7
        msg_ab
        greeted
      ≡ ok b v)
    × (v ≡ greeted ++ to_each (frame 3 topic_ab text_c) socks)
    × All (λ u. 0 < polls u served.clients) socks
    × (listed 9 socks ≡ 1)
unfolding subscribed
serving_publishes_example =
    serving_publishes asking (reachable Log) (ideal_over Log) eager no_message
      (ideal_over-Plenty Log) (λ w. w) asking-Logged ideal-Silent UsedTwo two-Separate asking-Polite
      null_rows none [] [] set_up (running served greeted) 7 1 (readable 9)
      (record { topics = array_of 2 (topic_ab ∷ []) }) msg_ab topic_ab text_c null_rows-Sized
      null_rows-Blank begun_here reached (inl refl) refl refl refl refl refl

serving-Safe_example : Safe set_up.server (running served greeted)
serving-Safe_example =
    serving-Safe (reachable Log) (ideal_over Log) eager (ideal_over-Plenty Log) asking no_message
      null_rows none [] [] set_up (running served greeted) null_rows-Sized begun_here reached
