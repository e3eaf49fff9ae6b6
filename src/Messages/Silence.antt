-- ===== src/Messages/Silence.antt =====
-- `messages_write` of common/handlers/messages.c sends nothing.
use jm_bus.Common.{
  ℕ, refl, Option, none, some, List, [], ◌∷◌, inl, inr, leb, length, ◌+◌, ◌&&◌, Bool-cases, Cmd,
  pure, call, ◌>>=◌, if◌then◌else◌,
}
use jm_bus.Bytes.{u8}
use jm_bus.Cstd.{Array, ArrayLib, len}
use jm_bus.Cstd.Loops.{insert_each}
use jm_bus.Messages.{
  Message, Slot, unset, zeroed, held, contents, overwrite, drop_local, write_part, write_body,
  write_parts, messages_write,
}
use jm_bus.Traffic.{Log, Silent, Keeps, Keeps-since, Keeps-and_then, Keeps-if}

module _ {W : Type 0} (lib : ArrayLib W) (log : W → Log) (silent : Silent lib log) where
  pub insert_each-Keeps :
      {A : Type 0} (a : Array A) (xs : List A) (w : W) → Keeps log w (insert_each lib a xs w)
  unfolding insert_each
  insert_each-Keeps a [] w = refl
  insert_each-Keeps a (x ∷ xs) w =
      let w₁ = (lib.insert a x w).1 in
      Keeps-since log w₁ w _ (silent.insert_silent a x w) (
        Keeps-if log (lib.insert a x w).0.0 _ _ w₁ (insert_each-Keeps (lib.insert a x w).0.1 xs w₁)
          refl)

  overwrite-Keeps :
      (a : Array ℕ) (at : ℕ) (bytes : List ℕ) (w : W) → Keeps log w (overwrite a at bytes w)
  unfolding overwrite
  overwrite-Keeps a at bytes w =
      elim (Bool-cases (leb at (len a) && leb (at + length bytes) a.cap)) [
        | inl fits ↦ rw fits refl
        | inr far ↦ rw far tt
      ]

  write_part-Keeps :
      (a : Array ℕ) (at : ℕ) (bytes : List ℕ) (w : W) → Keeps log w (write_part lib a at bytes w)
  unfolding write_part
  write_part-Keeps a at bytes w =
      Keeps-and_then log w _ _ (overwrite-Keeps a at _ w)
        (λ sized w'. insert_each-Keeps sized bytes w')

  drop_local-Keeps : (a : Array ℕ) (w : W) → Keeps log w (drop_local lib a w)
  drop_local-Keeps a w = Keeps-and_then log w _ _ (silent.free_silent a w) (λ _ _. refl)

  write_body-Keeps :
      (a : Array ℕ) (at : ℕ) (bytes : List ℕ) (w : W) → Keeps log w (write_body lib a at bytes w)
  unfolding write_body
  write_body-Keeps a at bytes w =
      Keeps-and_then log w _ _ (write_part-Keeps a at bytes w)
        (λ r w'. Keeps-if log r.0 _ _ w' refl (drop_local-Keeps r.1 w'))

  write_parts-Keeps :
      (a : Array ℕ) (topic body : List ℕ) (w : W) → Keeps log w (write_parts lib a topic body w)
  unfolding write_parts
  write_parts-Keeps a topic body w =
      Keeps-and_then log w _ _ (write_part-Keeps a 1 topic w)
        (λ r w'. Keeps-if log r.0 _ _ w' (write_body-Keeps r.1 _ body w') (drop_local-Keeps r.1 w'))

  contents-Keeps : (s : Slot) (w : W) → Keeps log w (contents s w)
  unfolding contents
  contents-Keeps unset w = tt
  contents-Keeps zeroed w = refl
  contents-Keeps (held a) w = refl

  pub messages_write-Keeps : (msg : Message) (w : W) → Keeps log w (messages_write lib msg w)
  unfolding messages_write
  messages_write-Keeps msg w = Keeps-and_then log w _ _ (contents-Keeps msg.topic w) (λ topic w₁.
      Keeps-and_then log w₁ _ _ (contents-Keeps msg.body w₁) (λ body w₂.
        let w₃ = (lib.init {A = ℕ} _ w₂).1 in
        Keeps-since log w₃ w₂ _ (silent.init_silent _ w₂)
          (by_array topic body (lib.init {A = ℕ} _ w₂).0 w₃)))
    where
      by_array :
          (topic body : List ℕ) (o : Option (Array ℕ)) (w : W)
          → Keeps log w (
              (elim o as (λ _. Cmd W (ℕ × Option (Array ℕ))) [
                | none ↦ pure (0, none)
                | some local ↦ do
                  (typed, local₁) ← call (lib.insert local (u8 msg.type))
                  if typed then write_parts lib local₁ topic body else drop_local lib local₁
              ])
                w)
      by_array topic body none w = refl
      by_array topic body (some a) w =
          let w₁ = (lib.insert a (u8 msg.type) w).1 in
          Keeps-since log w₁ w _ (silent.insert_silent a (u8 msg.type) w) (
            Keeps-if log (lib.insert a (u8 msg.type) w).0.0 _ _ w₁
              (write_parts-Keeps _ topic body w₁) (drop_local-Keeps _ w₁))
