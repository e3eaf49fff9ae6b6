-- ===== src/Tests/Messages.antt =====
-- The theorems on the wire format and the copying functions at concrete bytes.
use jm_bus.Messages.Failing.{failed_recv_overruns}
use jm_bus.Common.{
  uninitialised, ℕ, ◌+◌, ◌-◌, ◌^◌, ◌≡◌, ◌≢◌, refl, some, [], ◌∷◌, ◌++◌, length, arith, ok, fault,
  out_of_bounds, out_of_fuel, bad_free, Returns,
}
use jm_bus.Cstd.{Array, len, fresh}
use jm_bus.Cstd.Ideal.{ideal, ideal-Plenty}
use jm_bus.Bytes.{u8, convert_n_utf8_to_64bit}
use jm_bus.Bytes.Lengths.{le32, from_le32, convert-sign}
use jm_bus.Messages.Truncated.{messages_read_cut}
use jm_bus.Messages.{Message, held, messages_read, messages_write}
use jm_bus.Messages.Batches.{Frame, encode_all, parse_many_frames}
use jm_bus.Messages.Collection.{read_all_raw_bytes-ends}
use jm_bus.Messages.Frames.{part, frame}
use jm_bus.Messages.Overreads.{messages_read_long_topic, messages_read_long_body}
use jm_bus.Messages.Reading.{Decodes, messages_read-frame}
use jm_bus.Messages.Receive.{read_all_raw_bytes, parse_loop, message_array_generate_from_client}
use jm_bus.Messages.RoundTrip.{messages_read-messages_write}
use jm_bus.Tests.Fixtures.{quiet, topic_ab, text_c, array_of}

abbrev msg_ab : Message
msg_ab = record { topic = held (array_of 2 topic_ab); body = held (array_of 1 text_c); type = 3 }

abbrev frame_ab : Frame
frame_ab = record { type = 3; topic = topic_ab; body = text_c }

messages_read-messages_write_example :
    (a : Array ℕ) × (w' : Unit {0}) × (messages_write ideal msg_ab tt ≡ ok (len a, some a) w')
    × Returns
        (messages_read ideal a w')
        λ r _. (m : Message) × (r ≡ (len a, some m)) × Decodes m (u8 3) topic_ab text_c
messages_read-messages_write_example =
    messages_read-messages_write ideal ideal-Plenty msg_ab topic_ab text_c tt refl refl
      (omega arith) (omega arith)

messages_read-frame_example :
    Returns (messages_read ideal (array_of 20 (frame 3 topic_ab text_c ++ 7 ∷ [])) tt) λ r _.
      (m : Message) × (r ≡ (length (frame 3 topic_ab text_c), some m)) × Decodes m 3 topic_ab text_c
messages_read-frame_example =
    messages_read-frame ideal ideal-Plenty (array_of 20 (frame 3 topic_ab text_c ++ 7 ∷ [])) 3
      topic_ab text_c (7 ∷ []) tt refl (omega arith) (omega arith) (omega arith)

-- A topic of 9 bytes is declared, and one is there.
messages_read_long_topic_example :
    messages_read ideal (array_of 20 (3 ∷ le32 9 ++ 97 ∷ [])) tt ≡ fault out_of_bounds
messages_read_long_topic_example =
    messages_read_long_topic ideal ideal-Plenty (array_of 20 (3 ∷ le32 9 ++ 97 ∷ [])) 3 9 (97 ∷ [])
      tt refl (λ e. cc) (omega arith) (omega arith)

-- A body of 9 bytes is declared, and one is there.
messages_read_long_body_example :
    messages_read ideal (array_of 20 ((3 ∷ part topic_ab) ++ (le32 9 ++ 97 ∷ []))) tt
    ≡ fault out_of_bounds
messages_read_long_body_example =
    messages_read_long_body ideal ideal-Plenty
      (array_of 20 ((3 ∷ part topic_ab) ++ (le32 9 ++ 97 ∷ []))) 3 9 topic_ab (97 ∷ []) tt refl
      (λ e. cc) (omega arith) (omega arith) (omega arith)

parse_many_frames_example :
    parse_loop quiet ideal 25
      (array_of 30 (encode_all (frame_ab ∷ frame_ab ∷ [])))
      0
      24
      (fresh 2)
      tt
    ≡ fault bad_free
parse_many_frames_example =
    parse_many_frames quiet ideal ideal-Plenty frame_ab frame_ab []
      (array_of 30 (encode_all (frame_ab ∷ frame_ab ∷ []))) tt refl (omega arith)

read_all_raw_bytes-ends_example : read_all_raw_bytes quiet ideal 4 tt ≢ out_of_fuel
read_all_raw_bytes-ends_example = read_all_raw_bytes-ends quiet ideal 4 tt

convert-sign_example :
    convert_n_utf8_to_64bit (0 ∷ 0 ∷ 0 ∷ 128 ∷ []) 4
    ≡ some (from_le32 0 0 0 128 + (2 ^ 64 - 2 ^ 32))
convert-sign_example =
    convert-sign 0 0 0 128 [] (omega arith) (omega arith) (omega arith) (omega arith) (omega arith)

-- Two of the four bytes of the body's length are there.
messages_read_cut_example :
    messages_read ideal (array_of 20 ((3 ∷ part topic_ab) ++ 0 ∷ 0 ∷ [])) tt ≡ fault uninitialised
messages_read_cut_example =
    messages_read_cut ideal ideal-Plenty (array_of 20 ((3 ∷ part topic_ab) ++ 0 ∷ 0 ∷ [])) 3
      topic_ab (0 ∷ 0 ∷ []) tt refl (omega arith) (omega arith)

failed_recv_overruns_example :
    message_array_generate_from_client quiet ideal 5 tt ≡ fault out_of_bounds
failed_recv_overruns_example = failed_recv_overruns quiet ideal ideal-Plenty 5 tt refl
