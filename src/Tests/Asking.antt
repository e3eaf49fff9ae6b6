-- ===== src/Tests/Asking.antt =====
-- A platform on the record, whose clients send one request: to subscribe to "ab".
use jm_bus.Common.{sym, ◌∙◌, ◌⊎◌, inl, inr, ℕ, ◌≡◌, refl, true, some, List, [], ◌∷◌, ok, pure, Cmd}
use jm_bus.Cstd.{Array, fresh}
use jm_bus.Cstd.Ideal.{ideal_over}
use jm_bus.Messages.{
  Message, subscribe_type, held, messages_read, read_topic, read_length, read_body,
  message_get_topic, contents,
}
use jm_bus.Messages.Frames.{frame}
use jm_bus.Messages.Receive.{
  message_array_generate_from_client, read_all_raw_bytes, recv_loop, recv_round, copy_read,
  parse_loop,
}
use jm_bus.Bytes.{convert_n_utf8_to_64bit, read_byte_array}
use jm_bus.Cstd.Loops.{insert_each}
use jm_bus.Connections.Laws.{Names}
use jm_bus.HashMap.Setting.{Apart}
use jm_bus.Server.Agreement.{Separate}
use jm_bus.Traffic.{Logged}
use jm_bus.ThreadPool.{Threads}
use jm_bus.Sockets.{Sockets}
use jm_bus.System.Served.{Polite}
use jm_bus.Traffic.{Log}
use jm_bus.Tests.Fixtures.{topic_ab, text_c, array_of}
use jm_bus.Tests.Recording.{recorder}

abbrev pub asking : Sockets Log
asking = record (recorder (frame subscribe_type topic_ab [])) { accept = λ socket w. (some 9, w) }

abbrev pub asked : Message
asked = record {
  topic = held (array_of 2 topic_ab);
  body = held (array_of 0 []);
  type = subscribe_type;
}

reads :
    (fd : ℕ) (w : Log)
    → message_array_generate_from_client asking (ideal_over Log) fd w
      ≡ ok (some (array_of 2 (asked ∷ []))) w
unfolding message_array_generate_from_client read_all_raw_bytes recv_loop recv_round copy_read
    insert_each parse_loop messages_read read_topic read_length convert_n_utf8_to_64bit
    read_byte_array read_body
reads fd w = refl

abbrev pub no_message : Cmd Log (Array Message)
no_message = pure (fresh 2)

-- The topics "ab" and "c".
abbrev pub UsedTwo : List ℕ → Type 0
UsedTwo q = (q ≡ topic_ab) ⊎ (q ≡ text_c)

pub two-Separate : Separate UsedTwo
two-Separate = record { apart = λ q key p r. by_names q key p r }
  where
    by_names : (q key : List ℕ) → UsedTwo q → UsedTwo key → (key ≡ q) ⊎ Apart q key
    by_names q key (inl e) (inl e₂) = inl (e₂ ∙ sym e)
    by_names q key (inr e) (inr e₂) = inl (e₂ ∙ sym e)
    by_names q key (inl e) (inr e₂) = inr (rw (e, e₂) refl, rw (e, e₂) refl)
    by_names q key (inr e) (inl e₂) = inr (rw (e, e₂) refl, rw (e, e₂) refl)

asked-Names : Names (ideal_over Log) UsedTwo asked
unfolding message_get_topic contents
asked-Names w = λ _. inl refl

pub asking-Logged : Logged asking (λ w. w)
asking-Logged = record { taken = λ s b w. refl; recorded = λ s b w. refl }

pub asking-Polite : Polite (ideal_over Log) UsedTwo asking no_message
asking-Polite = record { polite = λ fd w. rw (reads fd w) (asked-Names, tt); gone_polite = λ w. tt }

abbrev pub eager : Threads Log
eager = record {
  cond_init = λ w. (true, w);
  mutex_init = λ w. (true, w);
  create = λ w. (true, w);
  start_up = λ w. ok tt w;
  join = λ job w. (tt, w);
}
