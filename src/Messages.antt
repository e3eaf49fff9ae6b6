-- ===== src/Messages.antt =====
-- common/handlers/messages.c and the structs of common/types/message.h.
pub mod Silence
pub mod Receive
pub mod Copying
pub mod Frames
pub mod Writing
pub mod Reading
pub mod Overreads
pub mod Batches
pub mod RoundTrip
pub mod Collection
pub mod Truncated
pub mod Generated
pub mod Ending
pub mod Parsing
pub mod Arrival
pub mod Failing
use jm_bus.Common.{
  ℕ, ◌+◌, ◌-◌, ◌*◌, ◌^◌, Bool, ◌&&◌, not, Option, none, some, List, [], ◌∷◌, ◌++◌, length, take,
  drop, if◌then◌else◌, leb, ◌==◌, Cmd, fault, out_of_bounds, uninitialised, null_pointer, pure,
  call, ◌>>=◌, ◌>>◌,
}
use jm_bus.Cstd.{Array, ArrayLib, len}
use jm_bus.Cstd.Loops.{insert_each}
use jm_bus.Strings.{c_string}
use jm_bus.Bytes.{u8, u64, convert_64bit_to_n_utf8, convert_n_utf8_to_64bit, read_byte_array}

-- A `byte_array` field: never set, zeroed (its `byte_data` is null and its `len` 0), or an array.
pub data Slot : Type 0 where
  unset : Slot
  zeroed : Slot
  held : Array ℕ → Slot

-- `enum message_type`; the type of a message read from a socket is any byte.
abbrev pub error_type : ℕ
error_type = 0

abbrev pub connection_type : ℕ
connection_type = 1

abbrev pub subscribe_type : ℕ
subscribe_type = 2

abbrev pub publish_type : ℕ
publish_type = 3

pub record Message : Type 0 where
  pub topic : Slot
  pub body : Slot
  pub type : ℕ

-- `JM_BUS_UTF8_BYTE_LEN`
abbrev pub byte_len : ℕ
byte_len = 4

-- `JM_BUS_LARGE_MSG_LIMIT`
abbrev pub large_msg_limit : ℕ
large_msg_limit = 2 ^ 32

-- `BUFSIZ` of the C library
abbrev pub bufsiz : ℕ
bufsiz = 8192

module _ {W : Type 0} where
  -- Reading `len` and `byte_data` of a field.
  unfoldable pub contents : Slot → Cmd W (List ℕ)
  contents unset = λ _. fault uninitialised
  contents zeroed = pure []
  contents (held a) = pure a.items

  -- `byte_data[at]` to `byte_data[at + bytes - 1]` are written, and `len` is set behind them.
  unfoldable pub overwrite : Array ℕ → ℕ → List ℕ → Cmd W (Array ℕ)
  overwrite a at bytes =
      if leb at (len a) && leb (at + length bytes) a.cap
      then pure (record a { items = take at a.items ++ bytes })
      else λ _. fault out_of_bounds

  -- A length read at `byte_data[at]`.
  unfoldable pub read_length : Array ℕ → ℕ → Cmd W ℕ
  read_length msg at = elim (convert_n_utf8_to_64bit (drop at msg.items) byte_len) [
    | none ↦ λ _. fault out_of_bounds
    | some n ↦ pure n
  ]

module _ {W : Type 0} (lib : ArrayLib W) where
  unfoldable pub free_slot : Slot → Cmd W (Unit {0})
  free_slot unset = λ _. fault uninitialised
  free_slot zeroed = pure tt
  free_slot (held a) = lib.free a

  unfoldable pub message_free : Message → Cmd W (Unit {0})
  unfolding free_slot
  message_free msg = do free_slot msg.topic; free_slot msg.body

  -- `return 0` after `message_free(&local)`
  abbrev pub give_up : Message → Cmd W (ℕ × Option Message)
  give_up local = do message_free local; pure (0, none)

  -- From the body's length at `cur_idx` on, with the topic in place.
  unfoldable pub read_body : Array ℕ → Message → ℕ → ℕ → Cmd W (ℕ × Option Message)
  read_body msg local topic_len cur_idx =
      if leb (len msg) (cur_idx + (byte_len - 1)) then give_up local else do
        body_len ← read_length msg cur_idx
        made ← call (lib.init {A = ℕ} body_len)
        elim made [
          | none ↦ give_up local
          | some body ↦
              let cur_idx' = cur_idx + byte_len in
              if leb (len msg) cur_idx' && not (body_len == 0)
              then give_up (record local { body = held body })
              else do
                filled ←
                    (if body_len == 0
                      then pure body
                      else read_byte_array lib (drop cur_idx' msg.items) body)
                pure (u64 (cur_idx' + body_len), some (record local { body = held filled }))
        ]

  -- From the type byte on.
  unfoldable pub read_topic : Array ℕ → ℕ → Cmd W (ℕ × Option Message)
  read_topic msg type =
      let local : Message = record { topic = unset; body = unset; type = type } in
      if leb (len msg) (1 + (byte_len - 1)) then pure (0, none) else do
        topic_len ← read_length msg 1
        made ← call (lib.init {A = ℕ} topic_len)
        elim made [
          | none ↦ give_up local
          | some topic ↦
              let cur_idx = 1 + byte_len in
              if leb (len msg) cur_idx then give_up (record local { topic = held topic }) else do
                filled ← read_byte_array lib (drop cur_idx msg.items) topic
                read_body msg (record local { topic = held filled }) topic_len
                    (u64 (cur_idx + topic_len))
        ]

  -- The number of bytes read and `*out`, which is set unless that number is 0.
  unfoldable pub messages_read : Array ℕ → Cmd W (ℕ × Option Message)
  messages_read msg = elim msg.items [ [] ↦ pure (0, none) | type ∷ _ ↦ read_topic msg type ]

  -- `byte_array_free(&local); return 0;`
  abbrev pub drop_local : Array ℕ → Cmd W (ℕ × Option (Array ℕ))
  drop_local local = do lib.free local; pure (0, none)

  -- A length and the bytes that it counts, at `cur_idx`: true if all are written.
  write_part : Array ℕ → ℕ → List ℕ → Cmd W (Bool × Array ℕ)
  write_part local cur_idx bytes = do
    sized ← overwrite local cur_idx (convert_64bit_to_n_utf8 (length bytes) byte_len)
    insert_each lib sized bytes

  -- The body at `cur_idx`.
  write_body : Array ℕ → ℕ → List ℕ → Cmd W (ℕ × Option (Array ℕ))
  unfolding write_part
  write_body local cur_idx body = do
    (done, filled) ← write_part local cur_idx body
    if done then pure (cur_idx + byte_len + length body, some filled) else drop_local filled

  -- Both parts behind the type byte.
  write_parts : Array ℕ → List ℕ → List ℕ → Cmd W (ℕ × Option (Array ℕ))
  unfolding write_part
  write_parts local topic body = do
    (done, filled) ← write_part local 1 topic
    if done then write_body filled (1 + byte_len + length topic) body else drop_local filled

  -- The number of bytes written and `*out`, which is set unless that number is 0.
  unfoldable pub messages_write : Message → Cmd W (ℕ × Option (Array ℕ))
  unfolding contents write_parts write_body
  messages_write msg = do
    topic ← contents msg.topic
    body ← contents msg.body
    made ← call (lib.init {A = ℕ} (1 + byte_len * 2 + length topic + length body))
    elim made [
      | none ↦ pure (0, none)
      | some local ↦ do
        (typed, local₁) ← call (lib.insert local (u8 msg.type))
        if typed then write_parts local₁ topic body else drop_local local₁
    ]

  unfoldable pub messages_gen_connection : Cmd W (ℕ × Option (Array ℕ))
  messages_gen_connection = do
    let msg : Message = record { topic = zeroed; body = zeroed; type = connection_type }
    ret ← messages_write msg
    message_free msg
    pure ret

  -- `if (!byte_array_insert(...)) error_log(...)`: a byte that cannot be inserted is skipped.
  insert_or_skip : Array ℕ → List ℕ → Cmd W (Array ℕ)
  insert_or_skip a [] = pure a
  insert_or_skip a (b ∷ bs) = do (_, a') ← call (lib.insert a b); insert_or_skip a' bs

  unfoldable pub messages_gen_error : List ℕ → Cmd W (ℕ × Option (Array ℕ))
  unfolding insert_or_skip
  messages_gen_error err = do
    made ← call (lib.init {A = ℕ} 20)
    elim made [
      | none ↦ pure (0, none)
      | some body ↦ do
        filled ← insert_or_skip body err
        let msg : Message = record { topic = zeroed; body = held filled; type = error_type }
        ret ← messages_write msg
        message_free msg
        pure ret
    ]

  -- `message_get_topic`: the bytes up to the first 0 are the string. Its `malloc` is unchecked.
  unfoldable pub message_get_topic : Message → Cmd W (List ℕ)
  message_get_topic msg = do
    topic ← contents msg.topic
    copied ← call lib.malloc
    if copied then pure (c_string topic) else (λ _. fault null_pointer)
