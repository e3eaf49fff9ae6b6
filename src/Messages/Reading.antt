-- ===== src/Messages/Reading.antt =====
-- `messages_read` of common/handlers/messages.c on the frames of the wire format.
use jm_bus.Common.{
  ℕ, ◌+◌, ◌/◌, ◌%◌, ◌^◌, ◌<◌, ◌≡◌, refl, sym, ap, ◌∙◌, false, ◌&&◌, not, Option, none, some, List,
  [], ◌∷◌, ◌++◌, length, drop, arith, leb, ◌==◌, append_assoc, length-append, ok, Returns,
  take_exact, drop_exact, pure, if◌then◌else◌, Cmd,
}
use jm_bus.Cstd.{Array, ArrayLib, Plenty, len, fresh}
use jm_bus.Cstd.Loops.{init-fresh}
use jm_bus.Bytes.{u64, convert_n_utf8_to_64bit, read_byte_array}
use jm_bus.Bytes.Lengths.{le32, convert-from_le32}
use jm_bus.Bytes.Copies.{read_byte_array-take}
use jm_bus.Messages.{Message, Slot, held, read_length, read_body, read_topic, messages_read}
use jm_bus.Messages.Frames.{part, frame, length-frame}

-- The message that a frame stands for; its arrays are as `X_array_init` made them.
pub record Decodes (m : Message) (t : ℕ) (topic body : List ℕ) : Type 0 where
  pub topic_array : Array ℕ
  pub body_array : Array ℕ
  pub topic_held : m.topic ≡ held topic_array
  pub body_held : m.body ≡ held body_array
  pub topic_read : topic_array.items ≡ topic
  pub body_read : body_array.items ≡ body
  pub topic_start : topic_array.offset ≡ 0
  pub body_start : body_array.offset ≡ 0
  pub typed : m.type ≡ t

module _ {W : Type 0} where
  pub read_length_lem :
      (a : Array ℕ) (at n : ℕ) (rest : List ℕ) (w : W)
      → drop at a.items ≡ le32 n ++ rest
      → n < 2 ^ 31
      → read_length a at w ≡ ok n w
  unfolding read_length
  read_length_lem a at n rest w here small = rw (decoded, read_length) refl
    where
      bytes : convert_n_utf8_to_64bit (le32 n ++ rest) 4 ≡ some n
      bytes =
          convert-from_le32 (n % 256) (n / 256 % 256) (n / 2 ^ 16 % 256) (n / 2 ^ 24 % 256) rest
            (omega arith) (omega arith) (omega arith) (omega arith)
          ∙ ap some (omega arith)

      decoded : convert_n_utf8_to_64bit (drop at a.items) 4 ≡ some n
      decoded = ap (λ l. convert_n_utf8_to_64bit l 4) here ∙ bytes

module _ {W : Type 0} (lib : ArrayLib W) (plenty : Plenty lib) where
  -- The bytes that `read_byte_array` copies to a new array of the size of what stands there.
  pub read_bytes :
      (bytes rest : List ℕ) (w : W)
      → Returns
          (read_byte_array lib (bytes ++ rest) (fresh (length bytes)) w)
          λ b _. (b.items ≡ bytes) × (b.offset ≡ 0)
  read_bytes bytes rest w =
      let (b, w', run, (copied, based)) =
        read_byte_array-take lib plenty (bytes ++ rest) (fresh (length bytes)) w refl
          (omega (arith, length-append bytes rest)) in
      (b, w', run, (copied ∙ take_exact bytes rest (length bytes) refl, based))

  read_body_bytes :
      (bytes rest : List ℕ) (w : W)
      → Returns
          ((if length bytes == 0
              then pure (fresh (length bytes))
              else read_byte_array lib (bytes ++ rest) (fresh (length bytes)))
            w)
          λ b _. (b.items ≡ bytes) × (b.offset ≡ 0)
  read_body_bytes [] rest w = (fresh 0, w, refl, (refl, refl))
  read_body_bytes (x ∷ xs) rest w =
      let (b, w', run, h) = read_bytes (x ∷ xs) rest w in
      let full : (length (x ∷ xs) == 0) ≡ false = ground arith in (b, w', rw full run, h)

  pub read_body_lem :
      (a : Array ℕ) (front body rest : List ℕ) (local : Message) (n at : ℕ) (w : W)
      → a.items ≡ front ++ (part body ++ rest)
      → at ≡ length front
      → length body < 2 ^ 31
      → len a < 2 ^ 64
      → Returns (read_body lib a local n at w) λ r _.
        (b : Array ℕ) × (r ≡ (at + 4 + length body, some (record local { body = held b })))
        × (b.items ≡ body)
        × (b.offset ≡ 0)
  unfolding read_body
  read_body_lem a front body rest local n at w items here small few =
      let size : len a ≡ at + 4 + length body + length rest = omega (
        arith,
        ap length items,
        here,
        length-append front (part body ++ rest),
        length-append body rest,
      ) in
      let at_length : drop at a.items ≡ le32 (length body) ++ (body ++ rest) =
        ap (drop at) items ∙ drop_exact front _ at here in
      let at_body : drop (at + 4) a.items ≡ body ++ rest =
        ap (drop (at + 4)) (items ∙ sym (append_assoc front (le32 (length body)) (body ++ rest)))
        ∙ drop_exact (front ++ le32 (length body)) (body ++ rest) (at + 4)
            (omega (arith, length-append front (le32 (length body)))) in
      let w₁ = (lib.init {A = ℕ} (length body) w).1 in
      let (b, w₂, run, (bytes, start)) = read_body_bytes body rest w₁ in
      let roomy : leb (len a) (at + 3) ≡ false = ground arith in
      let whole : (leb (len a) (at + 4) && not (length body == 0)) ≡ false = ground arith in
      let sum : u64 (at + 4 + length body) ≡ at + 4 + length body = omega arith in
      (
        (at + 4 + length body, some (record local { body = held b })),
        w₂,
        rw
            (
              roomy,
              read_length_lem a at (length body) (body ++ rest) w at_length small,
              init-fresh lib plenty (length body) w,
              whole,
              at_body,
              run,
              sum,
            )
            refl,
        (b, refl, bytes, start),
      )

  pub messages_read-cons :
      (a : Array ℕ) (t : ℕ) (l : List ℕ) (w : W)
      → a.items ≡ t ∷ l
      → messages_read lib a w ≡ read_topic lib a t w
  unfolding messages_read
  messages_read-cons a t l w items = ap (λ l. first l w) items
    where
      first : List ℕ → Cmd W (ℕ × Option Message)
      first k = elim k [ [] ↦ pure (0, none) | type ∷ _ ↦ read_topic lib a type ]

  -- While memory lasts, `messages_read` of a frame whose topic and body are below 2^31 bytes, in a
  -- buffer below 2^64 bytes and whatever follows it there, returns the frame's length and its
  -- message.
  pub messages_read-frame :
      (a : Array ℕ) (t : ℕ) (topic body rest : List ℕ) (w : W)
      → a.items ≡ frame t topic body ++ rest
      → length topic < 2 ^ 31
      → length body < 2 ^ 31
      → len a < 2 ^ 64
      → Returns (messages_read lib a w) λ r _.
        (m : Message) × (r ≡ (length (frame t topic body), some m)) × Decodes m t topic body
  unfolding read_topic
  messages_read-frame a t topic body rest w items small_topic small_body few =
      let n = length topic in
      let size : len a ≡ 9 + n + length body + length rest = omega (
        arith,
        ap length items,
        length-append (frame t topic body) rest,
        length-frame t topic body,
      ) in
      let split : a.items ≡ (t ∷ part topic) ++ (part body ++ rest) =
        items ∙ append_assoc (t ∷ part topic) (part body) rest in
      let at_length : drop 1 a.items ≡ le32 n ++ (topic ++ (part body ++ rest)) =
        ap (drop 1) split in
      let at_topic : drop 5 a.items ≡ topic ++ (part body ++ rest) = ap (drop 5) split in
      let w₁ = (lib.init {A = ℕ} n w).1 in
      let (b, w₂, run, (bytes, start)) = read_bytes topic (part body ++ rest) w₁ in
      let local : Message = record { topic = held b; body = Slot.unset; type = t } in
      let (r, w₃, run₂, (c, e, bytes₂, start₂)) =
        read_body_lem a (t ∷ part topic) body rest local n (5 + n) w₂ split (omega arith) small_body
          few in
      let roomy : leb (len a) 4 ≡ false = ground arith in
      let more : leb (len a) 5 ≡ false = ground arith in
      let sum : u64 (5 + n) ≡ 5 + n = omega arith in
      (
        r,
        w₃,
        messages_read-cons a t _ w split
            ∙ rw
                (
                  roomy,
                  read_length_lem a 1 n (topic ++ (part body ++ rest)) w at_length small_topic,
                  init-fresh lib plenty n w,
                  more,
                  at_topic,
                  run,
                  sum,
                )
                run₂,
        (
          record local { body = held c },
          e
              ∙ ap (λ k. (k, some (record local { body = held c })))
                  (omega (arith, length-frame t topic body)),
          record {
            topic_array = b;
            body_array = c;
            topic_held = refl;
            body_held = refl;
            topic_read = bytes;
            body_read = bytes₂;
            topic_start = start;
            body_start = start₂;
            typed = refl;
          },
        ),
      )
