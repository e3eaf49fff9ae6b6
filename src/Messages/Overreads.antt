-- ===== src/Messages/Overreads.antt =====
-- `messages_read` of common/handlers/messages.c on bytes that declare more than they hold.
use jm_bus.Common.{
  ℕ, ◌+◌, ◌^◌, ◌<◌, ◌≡◌, ◌≢◌, refl, sym, ap, ◌∙◌, false, List, [], ◌∷◌, ◌++◌, length, drop, arith,
  leb, ◌==◌, append_assoc, length-append, fault, out_of_bounds, drop_exact,
}
use jm_bus.Cstd.{Array, ArrayLib, Plenty, len, fresh}
use jm_bus.Cstd.Loops.{init-fresh}
use jm_bus.Bytes.{u64}
use jm_bus.Bytes.Lengths.{le32}
use jm_bus.Bytes.Copies.{read_byte_array_short}
use jm_bus.Messages.{Message, held, unset, read_body, read_topic, messages_read}
use jm_bus.Messages.Frames.{part}
use jm_bus.Messages.Reading.{read_length_lem, read_bytes, messages_read-cons}

module _ {W : Type 0} (lib : ArrayLib W) (plenty : Plenty lib) where
  -- A frame whose topic length, below 2^31, passes the end of the buffer, where at least one byte
  -- of the topic is there: while memory lasts, `messages_read` reads behind the buffer.
  pub messages_read_long_topic :
      (a : Array ℕ) (t n : ℕ) (rest : List ℕ) (w : W)
      → a.items ≡ t ∷ le32 n ++ rest
      → rest ≢ []
      → length rest < n
      → n < 2 ^ 31
      → messages_read lib a w ≡ fault out_of_bounds
  unfolding read_topic
  messages_read_long_topic a t n rest w items some_left short small =
      let size : len a ≡ 5 + length rest = omega (arith, ap length items) in
      let w₁ = (lib.init {A = ℕ} n w).1 in
      let nonempty : 0 < length rest = ground arith in
      let roomy : leb (len a) 4 ≡ false = ground arith in
      let more : leb (len a) 5 ≡ false = ground arith in
      messages_read-cons lib plenty a t _ w items
      ∙ rw
          (
            roomy,
            read_length_lem a 1 n rest w (ap (drop 1) items) small,
            init-fresh lib plenty n w,
            more,
            ap (drop 5) items,
            read_byte_array_short lib plenty rest (fresh n) w₁ refl short,
          )
          refl

  read_body_long :
      (a : Array ℕ) (front rest : List ℕ) (local : Message) (k n at : ℕ) (w : W)
      → a.items ≡ front ++ (le32 n ++ rest)
      → at ≡ length front
      → rest ≢ []
      → length rest < n
      → n < 2 ^ 31
      → read_body lib a local k at w ≡ fault out_of_bounds
  unfolding read_body
  read_body_long a front rest local k n at w items here some_left short small =
      let size : len a ≡ at + 4 + length rest =
        omega (arith, ap length items, length-append front (le32 n ++ rest)) in
      let nonempty : 0 < length rest = ground arith in
      let roomy : leb (len a) (at + 3) ≡ false = ground arith in
      let whole : leb (len a) (at + 4) ≡ false = ground arith in
      let positive : (n == 0) ≡ false = ground arith in
      let at_length : drop at a.items ≡ le32 n ++ rest =
        ap (drop at) items ∙ drop_exact front _ at here in
      let at_body : drop (at + 4) a.items ≡ rest =
        ap (drop (at + 4)) (items ∙ sym (append_assoc front (le32 n) rest))
        ∙ drop_exact (front ++ le32 n) rest (at + 4)
            (omega (arith, length-append front (le32 n))) in
      rw
        (
          roomy,
          read_length_lem a at n rest w at_length small,
          init-fresh lib plenty n w,
          whole,
          positive,
          at_body,
          read_byte_array_short lib plenty rest (fresh n) (lib.init {A = ℕ} n w).1 refl short,
        )
        refl

  -- A frame whose body length passes the end of the buffer, where at least one byte of the body is
  -- there and topic and body lengths are below 2^31: while memory lasts, `messages_read` reads
  -- behind the buffer.
  pub messages_read_long_body :
      (a : Array ℕ) (t n : ℕ) (topic rest : List ℕ) (w : W)
      → a.items ≡ (t ∷ part topic) ++ (le32 n ++ rest)
      → rest ≢ []
      → length rest < n
      → n < 2 ^ 31
      → length topic < 2 ^ 31
      → messages_read lib a w ≡ fault out_of_bounds
  unfolding read_topic
  messages_read_long_body a t n topic rest w items some_left short small small_topic =
      let k = length topic in
      let size : len a ≡ 9 + k + length rest =
        omega (arith, ap length items, length-append topic (le32 n ++ rest)) in
      let w₁ = (lib.init {A = ℕ} k w).1 in
      let (b, w₂, run, (bytes, start)) = read_bytes lib plenty topic (le32 n ++ rest) w₁ in
      let local : Message = record { topic = held b; body = unset; type = t } in
      let roomy : leb (len a) 4 ≡ false = ground arith in
      let more : leb (len a) 5 ≡ false = ground arith in
      let sum : u64 (5 + k) ≡ 5 + k = omega arith in
      messages_read-cons lib plenty a t _ w items
      ∙ rw
          (
            roomy,
            read_length_lem a 1 k (topic ++ (le32 n ++ rest)) w (ap (drop 1) items) small_topic,
            init-fresh lib plenty k w,
            more,
            ap (drop 5) items,
            run,
            sum,
          )
          (read_body_long a (t ∷ part topic) rest local k n (5 + k) w₂ items (omega arith) some_left
            short small)
