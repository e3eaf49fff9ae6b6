-- ===== src/Tests/Agreeing.antt =====
-- Clients and a topic map that agree, and calls that keep them so.
use mathlib.Core.List.{Perm}
use jm_bus.Common.{ℕ, ◌≡◌, ◌≤◌, count_if, refl, inl, inr, true, List, [], ◌∷◌, ok, arith}
use jm_bus.Arrays.{array_remove_int_item, array_resize}
use jm_bus.Clients.{
  index_of_fd, client_list_add, client_metadata_init, client_metadata_free, client_list_get_idx,
  client_list_remove, remove_found, remove_at, remove_and_shrink,
}
use jm_bus.Clients.Adding.{polled}
use jm_bus.Clients.Keeping.{polls}
use jm_bus.Cstd.Ideal.{ideal, ideal-Plenty}
use jm_bus.HashMap.{
  HashMap, row, find_entry, hash_map_set, mod_cap, set_in_row, set_found, hash_map_add_new_entry,
  hash_map_remove_value, remove_value_in_row, remove_found as unlist_found, set_value, index_of,
}
use jm_bus.HashMap.Contents.{sockets}
use jm_bus.Clients.Removing.{pairs}
use jm_bus.HashMap.Subscriptions.{same_key}
use jm_bus.HashMap.Unlisting.{listed}
use jm_bus.Server.{
  ServerState, server_state_add_client, server_state_add_client_topic, add_topic_at, add_topic,
  subscribed, server_state_remove_client, remove_client_at, forget_topics,
}
use jm_bus.Server.Agreement.{memberships, Agreed}
use jm_bus.Server.Agreement.Calls.{Call, join, subscribe, leave, call_server, call_each}
use jm_bus.Server.Agreement.Members.{Member, Distinct}
use jm_bus.Server.Agreement.Touching.{members}
use jm_bus.Server.Agreement.Refining.{call_each-refines}
use jm_bus.Server.Agreement.Leaving.{removed_unlisted}
use jm_bus.Strings.{hash_from_str}
use jm_bus.Tests.Asking.{UsedTwo, two-Separate}
use jm_bus.Tests.Fixtures.{quiet, topic_ab, text_c, array_of}
use jm_bus.Tests.States.{metadata_5, metadata_8, two_clients, state_ab}

-- Socket 5 alone under "ab".
abbrev map_5 : HashMap
map_5 = record {
  rows = row (array_of 10 (record { key = topic_ab; value = array_of 3 (5 ∷ []) } ∷ [])) ∷ [];
  cap = 1;
}

abbrev state_5 : ServerState
state_5 = record state_ab { topics = map_5 }

once_each : (q : List ℕ) → UsedTwo q → count_if (same_key q) (topic_ab ∷ []) ≤ 1
once_each q (inl e) = rw e (omega arith)
once_each q (inr e) = rw e (omega arith)

as_often :
    (q : List ℕ) (u : ℕ)
    → UsedTwo q
    → listed u (sockets map_5 q) ≡ memberships q u (pairs two_clients)
unfolding find_entry hash_from_str
as_often q u (inl e) = rw e (ground arith)
as_often q u (inr e) = rw e (ground arith)

state_5-Agreed : Agreed UsedTwo state_5
state_5-Agreed = record {
  valid = record { positive = omega arith; full = refl };
  in_step = refl;
  used = ((inl refl, tt), (tt, tt));
  once = (once_each, ((λ q used. omega arith), tt));
  agree = as_often;
}

-- A client joins and subscribes to "c", and client 5 leaves.
abbrev calls : List Call
calls = join 9 ∷ subscribe text_c 9 ∷ leave 5 ∷ []

abbrev state_9 : ServerState
state_9 = record state_ab {
  clients = record {
    fds = array_of 100 (polled 9 ∷ polled 8 ∷ []);
    metadata = array_of 100 (record { topics = array_of 2 (text_c ∷ []) } ∷ metadata_8 ∷ []);
  };
  topics = record {
    rows =
        row (
          array_of 10 (
            record { key = topic_ab; value = array_of 3 [] }
            ∷ record { key = text_c; value = array_of 3 (9 ∷ []) }
            ∷ []))
        ∷ [];
    cap = 1;
  };
}

calls_run : call_each quiet ideal calls state_5 tt ≡ ok state_9 tt
unfolding call_each call_server server_state_add_client client_list_add client_metadata_init
    server_state_add_client_topic add_topic_at client_list_get_idx index_of_fd subscribed add_topic
    hash_map_set mod_cap set_in_row set_found hash_from_str find_entry hash_map_add_new_entry
    server_state_remove_client remove_client_at forget_topics hash_map_remove_value
    remove_value_in_row unlist_found set_value index_of array_remove_int_item client_list_remove
    remove_found remove_at remove_and_shrink array_resize client_metadata_free
calls_run = refl

state_5-Distinct : Distinct (members state_5)
state_5-Distinct u = ground arith

call_each-refines_example :
    Agreed UsedTwo state_9
    × Perm {A = Member} ((9, text_c ∷ []) ∷ (8, []) ∷ []) ((8, []) ∷ (9, text_c ∷ []) ∷ [])
call_each-refines_example =
    call_each-refines quiet ideal ideal-Plenty UsedTwo two-Separate calls state_5 state_9 tt tt
      state_5-Agreed state_5-Distinct (refl, tt) (tt, (inr refl, (tt, tt))) calls_run

removed_unlisted_example :
    (s' : ServerState) × (w' : Unit {0}) × (server_state_remove_client quiet ideal state_5 5 tt
      ≡ ok (true, s') w')
    × Agreed UsedTwo s'
    × (polls 5 s'.clients ≡ 0)
    × (listed 5 (sockets s'.topics topic_ab) ≡ 0)
removed_unlisted_example =
    removed_unlisted quiet ideal UsedTwo two-Separate state_5 5 0 metadata_5 topic_ab tt
      state_5-Agreed (inl refl) refl (omega arith) (omega arith) (unfold index_of_fd in refl) refl
      refl
