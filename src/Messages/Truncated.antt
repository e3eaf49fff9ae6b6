-- ===== src/Messages/Truncated.antt =====
-- `messages_read` of common/handlers/messages.c on bytes that end too early, which it means to reject.
use jm_bus.Common.{
  ℕ, ◌+◌, ◌^◌, ◌<◌, ◌≤◌, ◌≡◌, refl, ap, ◌∙◌, inl, inr, true, false, none, List, [], ◌∷◌, ◌++◌,
  length, drop, arith, leb, Bool-cases, length-append, Cmd, pure, Option, ok, fault, uninitialised,
}
use jm_bus.Cstd.{Array, ArrayLib, Plenty, len, fresh}
use jm_bus.Cstd.Loops.{init-fresh}
use jm_bus.Bytes.{u64}
use jm_bus.Bytes.Lengths.{le32}
use jm_bus.Messages.{
  Message, held, unset, read_body, read_topic, messages_read, message_free, give_up,
}
use jm_bus.Messages.Frames.{part}
use jm_bus.Messages.Reading.{read_length_lem, read_bytes, messages_read-cons}

module _ {W : Type 0} (lib : ArrayLib W) where
  -- `messages_read` of four bytes or fewer returns 0 and changes nothing.
  pub messages_read_no_length :
      (a : Array ℕ) (w : W) → len a ≤ 4 → messages_read lib a w ≡ ok (0, none) w
  unfolding messages_read read_topic
  messages_read_no_length a w few = by_items a.items few
    where
      first : List ℕ → Cmd W (ℕ × Option Message)
      first k = elim k [ [] ↦ pure (0, none) | type ∷ _ ↦ read_topic lib a type ]

      short : leb (len a) 4 ≡ true
      short = ground arith

      by_items : (l : List ℕ) → length l ≤ 4 → first l w ≡ ok (0, none) w
      by_items [] h = refl
      by_items (t ∷ l) h = rw short refl

  -- The topic that was made is freed, and then the body that was not.
  give_up_fault :
      (local : Message) (b : Array ℕ) (w : W)
      → local.topic ≡ held b
      → local.body ≡ unset
      → b.offset ≡ 0
      → give_up lib local w ≡ fault uninitialised
  unfolding message_free
  give_up_fault local b w topic body start =
      let (w', freed) = lib.free_start b w start in rw (topic, body, freed) refl

  module _ (plenty : Plenty lib) where
    read_body_cut :
        (a : Array ℕ) (t k at : ℕ) (b : Array ℕ) (w : W)
        → len a < at + 4
        → b.offset ≡ 0
        → read_body lib a (record { topic = held b; body = unset; type = t }) k at w
          ≡ fault uninitialised
    unfolding read_body
    read_body_cut a t k at b w cut start =
        let short : leb (len a) (at + 3) ≡ true = ground arith in
        rw short
          (give_up_fault (record { topic = held b; body = unset; type = t }) b w refl refl start)

    -- A frame that ends behind its topic, below 2^31 bytes, with fewer than four bytes of the
    -- body's length: while memory lasts, `messages_read` looks at the body that was never set.
    pub messages_read_cut :
        (a : Array ℕ) (t : ℕ) (topic rest : List ℕ) (w : W)
        → a.items ≡ (t ∷ part topic) ++ rest
        → length rest < 4
        → length topic < 2 ^ 31
        → messages_read lib a w ≡ fault uninitialised
    unfolding read_topic
    messages_read_cut a t topic rest w items cut small =
        let k = length topic in
        let size : len a ≡ 5 + k + length rest =
          omega (arith, ap length items, length-append topic rest) in
        let split : a.items ≡ t ∷ (le32 k ++ (topic ++ rest)) = items in
        let w₁ = (lib.init {A = ℕ} k w).1 in
        let roomy : leb (len a) 4 ≡ false = ground arith in
        let at_length = read_length_lem a 1 k (topic ++ rest) w (ap (drop 1) split) small in
        let made = init-fresh lib plenty {A = ℕ} k w in
        messages_read-cons lib plenty a t _ w split ∙ elim (Bool-cases (leb (len a) 5)) [
          | inl none_left ↦
              rw (roomy, at_length, made, none_left)
                (give_up_fault (record { topic = held (fresh k); body = unset; type = t }) (fresh k)
                  w₁ refl refl refl)
          | inr more ↦
              let (b, w₂, run, (bytes, start)) = read_bytes lib plenty topic rest w₁ in
              let sum : u64 (5 + k) ≡ 5 + k = omega arith in
              rw (roomy, at_length, made, more, ap (drop 5) split, run, sum)
                (read_body_cut a t k (5 + k) b w₂ (omega arith) start)
        ]
