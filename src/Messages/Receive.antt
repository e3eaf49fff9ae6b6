-- ===== src/Messages/Receive.antt =====
-- `read_all_raw_bytes` and `message_array_generate_from_client` of common/handlers/messages.c.
use jm_bus.Common.{
  ℕ, zero, suc, ◌+◌, ◌-◌, ◌^◌, Bool, true, false, Option, none, some, List, [], ◌∷◌, length, drop,
  if◌then◌else◌, ltb, leb, ◌==◌, Cmd, fault, out_of_fuel, out_of_bounds, uninitialised, pure, call,
  ◌>>=◌, ◌>>◌,
}
use jm_bus.Cstd.{Array, ArrayLib, len}
use jm_bus.Bytes.{u64, sign_extend}
use jm_bus.Messages.{Message, bufsiz, large_msg_limit, message_free, messages_read}
use jm_bus.Sockets.{Sockets}

-- `n = recv(...)` as a `size_t`: a failure, -1, is the largest one.
abbrev pub recv_size : Option (List ℕ) → ℕ
recv_size none = 2 ^ 64 - 1
recv_size (some bytes) = length bytes

-- What the loop reads of `read_buffer`: the bytes received, or what a failed `recv` has left there.
abbrev pub cells_of : Option (List ℕ) → List ℕ → List ℕ
cells_of none stale = stale
cells_of (some bytes) stale = bytes

-- A round that does not end the loop adds `bufsiz` bytes, and `large_msg_limit` ends it.
abbrev pub recv_rounds : ℕ
recv_rounds = 2 ^ 19

module _ {W : Type 0} (os : Sockets W) (lib : ArrayLib W) where
  -- `byte_array_free(&byte_buffer); return false;`
  abbrev pub drop_buffer : Array ℕ → Cmd W (Option (Array ℕ))
  drop_buffer buf = do lib.free buf; pure none

  -- `for (int i = 0; i < n; ++i)` over the cells of `read_buffer` that are left, `n` of them to read.
  unfoldable pub copy_read : ℕ → Array ℕ → List ℕ → Cmd W (Bool × Array ℕ)
  copy_read zero buf cells = pure (true, buf)
  copy_read (suc n) buf [] = λ _. fault out_of_bounds
  copy_read (suc n) buf (cell ∷ cells) = do
    (inserted, buf') ← call (lib.insert buf cell)
    let rest = copy_read n buf' cells in if inserted then rest else pure (false, buf')

  -- One round of the `do` loop; `again` is the next.
  unfoldable pub recv_round :
      (Array ℕ → Cmd W (Option (Array ℕ))) → ℕ → Array ℕ → Cmd W (Option (Array ℕ))
  unfolding copy_read
  recv_round again socket buf = do
    received ← call (os.recv socket bufsiz)
    stale ← call (λ w. (os.read_buffer w, w))
    let n = recv_size received
    (inserted, filled) ← copy_read n buf (cells_of received stale)
    if inserted
        then (if leb large_msg_limit (len filled)
            then pure (some filled)
            else if n == bufsiz
            then again filled
            else pure (some filled))
        else drop_buffer filled

  unfoldable pub recv_loop : ℕ → ℕ → Array ℕ → Cmd W (Option (Array ℕ))
  unfolding recv_round
  recv_loop zero socket buf = λ _. out_of_fuel
  recv_loop (suc fuel) socket buf = recv_round (λ filled. recv_loop fuel socket filled) socket buf

  unfoldable pub read_all_raw_bytes : ℕ → Cmd W (Option (Array ℕ))
  read_all_raw_bytes socket = do
    made ← call (lib.init {A = ℕ} bufsiz)
    elim made [ none ↦ pure none | some buf ↦ recv_loop recv_rounds socket buf ]

  -- `byte_data = &byte_data[read_n]; len -= read_n`
  unfoldable pub advance : Array ℕ → ℕ → Cmd W (Array ℕ)
  advance buf n =
      if leb n (len buf)
      then pure (record buf { items = drop n buf.items; offset = buf.offset + n })
      else λ _. fault out_of_bounds

  unfoldable pub message_array_free_list : List Message → Cmd W (Unit {0})
  message_array_free_list [] = pure tt
  message_array_free_list (m ∷ ms) = do message_free lib m; message_array_free_list ms

  -- A message of `read_n` bytes has been read at byte `n` of `original_len`: the buffer moves on,
  -- unless its end is reached, and the message joins `result`. The last result tells success.
  unfoldable pub keep_message :
      Array ℕ → ℕ → ℕ → ℕ → Array Message → Option Message → Cmd W (Array ℕ × Array Message × Bool)
  unfolding advance
  keep_message buf read_n n original_len result none = λ _. fault uninitialised
  keep_message buf read_n n original_len result (some msg) = do
    advanced ← (if ltb (u64 (n + read_n)) original_len then advance buf read_n else pure buf)
    (inserted, result') ← call (lib.insert result msg)
    pure (advanced, result', inserted)

  -- `byte_array_free(&byte_buffer); message_array_free_list(result); message_array_free(&result);`
  abbrev pub abandon : Array ℕ → Array Message → Cmd W (Option (Array Message))
  abandon buf result = do
    lib.free buf
    message_array_free_list result.items
    lib.free result
    pure none

  -- One round of the `while` loop; `again` is the next. `none` is the struct that
  -- `message_array_free` leaves, which holds no array.
  unfoldable pub parse_round :
      (Array ℕ → ℕ → Array Message → Cmd W (Option (Array Message)))
      → Array ℕ
      → ℕ
      → ℕ
      → Array Message
      → Cmd W (Option (Array Message))
  unfolding keep_message
  parse_round again buf n original_len result =
      if ltb n original_len
      then (do
        (read, local_c) ← messages_read lib buf
        let read_n = sign_extend read
        if read_n == 0 then again buf (u64 (n + len buf)) result else (do
          (advanced, result', inserted) ← keep_message buf read_n n original_len result local_c
          if inserted then again advanced (u64 (n + read_n)) result' else abandon advanced result'))
      else (do lib.free buf; pure (some result))

  unfoldable pub parse_loop : ℕ → Array ℕ → ℕ → ℕ → Array Message → Cmd W (Option (Array Message))
  unfolding parse_round
  parse_loop zero buf n original_len result = λ _. out_of_fuel
  parse_loop (suc fuel) buf n original_len result =
      parse_round (λ buf' n' result'. parse_loop fuel buf' n' original_len result') buf n
        original_len result

  -- Each round takes a byte at least, and one more test ends the loop.
  unfoldable pub message_array_generate_from_client : ℕ → Cmd W (Option (Array Message))
  message_array_generate_from_client client_sock = do
    made ← call (lib.init {A = Message} 2)
    elim made [
      | none ↦ pure none
      | some result ↦ do
        raw ← read_all_raw_bytes client_sock
        elim raw [
          | none ↦ do lib.free result; pure none
          | some buf ↦ parse_loop (suc (len buf)) buf 0 (len buf) result
        ]
    ]
