-- ===== src/Messages/Generated.antt =====
-- The messages that common/handlers/messages.c itself makes: the greeting and the error.
use jm_bus.Common.{ℕ, ◌≡◌, refl, ◌∙◌, sym, List, [], ◌∷◌, ◌++◌, append_assoc, append-nil, Returns}
use jm_bus.Cstd.{Array, ArrayLib, Memory, Plenty, fresh}
use jm_bus.Cstd.Loops.{init-fresh, inserts}
use jm_bus.Messages.{
  Message, held, zeroed, error_type, connection_type, message_free, insert_or_skip,
  messages_gen_connection, messages_gen_error,
}
use jm_bus.Messages.Frames.{frame}
use jm_bus.Messages.Writing.{Written, messages_write-frame}

module _ {W : Type 0} (lib : ArrayLib W) where
  -- `messages_gen_connection` returns a connection frame without topic and body, and its length,
  -- or 0 where memory ran out; it never faults.
  pub messages_gen_connection-frame :
      {Shortage : Type 0} (memory : Memory lib Shortage) (w : W)
      → Returns
          (messages_gen_connection lib w)
          λ r _. Written lib memory r (frame connection_type [] [])
  unfolding messages_gen_connection message_free
  messages_gen_connection-frame memory w =
      let msg : Message = record { topic = zeroed; body = zeroed; type = connection_type } in
      let (r, w', run, h) = messages_write-frame lib memory msg [] [] w refl refl in
      (r, w', rw run refl, h)

  module _ (plenty : Plenty lib) where
    insert_or_skip_lem :
        (a : Array ℕ) (bytes : List ℕ) (w : W)
        → Returns
            (insert_or_skip lib a bytes w)
            λ b _. (b.items ≡ a.items ++ bytes) × (b.offset ≡ a.offset)
    unfolding insert_or_skip
    insert_or_skip_lem a [] w = (a, w, refl, (sym (append-nil a.items), refl))
    insert_or_skip_lem a (x ∷ xs) w =
        let (items, cap, steady, offset) = lib.insert_true a x w (inserts lib plenty a x w) in
        let (b, w', run, (all, based)) =
          insert_or_skip_lem (lib.insert a x w).0.1 xs (lib.insert a x w).1 in
        (b, w', run, (all ∙ rw (items, append_assoc) refl, based ∙ offset))

    -- While memory lasts, `messages_gen_error` returns a frame of the error type without topic
    -- whose body is the text, and its length.
    pub messages_gen_error-frame :
        (err : List ℕ) (w : W)
        → Returns
            (messages_gen_error lib err w)
            λ r _. Written lib plenty r (frame error_type [] err)
    unfolding messages_gen_error message_free
    messages_gen_error-frame err w =
        let w₁ = (lib.init {A = ℕ} 20 w).1 in
        let (body, w₂, filled, (items, start)) = insert_or_skip_lem (fresh 20) err w₁ in
        let msg : Message = record { topic = zeroed; body = held body; type = error_type } in
        let (r, w₃, run, h) = messages_write-frame lib plenty msg [] err w₂ refl items in
        let (w₄, freed) = lib.free_start body w₃ start in
        (r, w₄, rw (init-fresh lib plenty {A = ℕ} 20 w, filled, run, freed) refl, h)
