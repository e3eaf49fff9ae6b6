-- ===== src/Messages/Writing.antt =====
-- What `messages_write` of common/handlers/messages.c leaves in its array.
use jm_bus.Common.{
  ℕ, ◌+◌, ◌≤◌, ◌≡◌, refl, sym, ap, ◌∙◌, ◌⊎◌, inl, inr, true, false, Option, none, some, List, [],
  ◌∷◌, ◌++◌, length, arith, Bool-cases, append-nil, append_assoc, length-append, ok, Returns,
  take_exact,
}
use jm_bus.Cstd.{Array, ArrayLib, Memory, len, fresh}
use jm_bus.Cstd.Loops.{init_lem, insert_each_lem}
use jm_bus.Bytes.{u8}
use jm_bus.Bytes.Lengths.{le32, convert-le32}
use jm_bus.Messages.{
  Message, overwrite, write_part, write_body, write_parts, messages_write, drop_local,
}
use jm_bus.Messages.Frames.{part, frame, Holds, contents_lem}

module _ {W : Type 0} where
  overwrite_end :
      (a : Array ℕ) (bytes : List ℕ) (at : ℕ) (w : W)
      → at ≡ len a
      → at + length bytes ≤ a.cap
      → overwrite a at bytes w ≡ ok (record a { items = a.items ++ bytes }) w
  unfolding overwrite
  overwrite_end a bytes at w here fits =
      ground (arith, take_exact a.items [] at here, append-nil a.items)

module _ {W : Type 0} (lib : ArrayLib W) {Shortage : Type 0} (memory : Memory lib Shortage) where
  write_part_lem :
      (a : Array ℕ) (bytes : List ℕ) (at : ℕ) (w : W)
      → at ≡ len a
      → at + 4 + length bytes ≤ a.cap
      → Returns (write_part lib a at bytes w) λ r _.
        (Shortage × (r.0 ≡ false) × (r.1.offset ≡ a.offset))
        ⊎ ((r.0 ≡ true)
            × (r.1.items ≡ a.items ++ part bytes)
            × (r.1.cap ≡ a.cap)
            × (r.1.offset ≡ a.offset))
  unfolding write_part
  write_part_lem a bytes at w here fits =
      let sized : Array ℕ = record a { items = a.items ++ le32 (length bytes) } in
      let (r, w', run, outcome) = insert_each_lem lib memory sized bytes w in
      (
        r,
        w',
        rw
            (
              convert-le32 (length bytes),
              overwrite_end a (le32 (length bytes)) at w here (omega arith),
            )
            run,
        elim outcome [
          | inl short ↦ inl short
          | inr (done, i) ↦ inr (
            done,
            i.appended ∙ append_assoc a.items (le32 (length bytes)) bytes,
            i.steady (omega (arith, length-append a.items (le32 (length bytes)))),
            i.based,
          )
        ],
      )

  -- A failed writer has freed its array, for want of memory; a writer that is done has the number of
  -- bytes and the array.
  abbrev pub Written : ℕ × Option (Array ℕ) → List ℕ → Type 0
  Written r bytes =
      (Shortage × (r ≡ (0, none)))
      ⊎ ((a : Array ℕ) × (r ≡ (length bytes, some a)) × (a.items ≡ bytes) × (a.offset ≡ 0))

  drop_local_lem :
      (a : Array ℕ) (w : W) → a.offset ≡ 0 → (w' : W) × (drop_local lib a w ≡ ok (0, none) w')
  drop_local_lem a w start = let (w', run) = lib.free_start a w start in (w', rw run)

  write_body_lem :
      (a : Array ℕ) (bytes body : List ℕ) (at : ℕ) (w : W)
      → a.items ≡ bytes
      → at ≡ length bytes
      → at + 4 + length body ≤ a.cap
      → a.offset ≡ 0
      → Returns (write_body lib a at body w) λ r _. Written r (bytes ++ part body)
  unfolding write_body
  write_body_lem a bytes body at w items here fits start =
      let (r, w', run, outcome) = write_part_lem a body at w (here ∙ sym (ap length items)) fits in
      elim outcome [
        | inl (short, failed, based) ↦
            let (w₂, freed) = drop_local_lem r.1 w' (based ∙ start) in
            ((0, none), w₂, rw (run, failed) freed, inl (short, refl))
        | inr (done, written, sized, based) ↦ (
          (at + 4 + length body, some r.1),
          w',
          rw (run, done) refl,
          inr (
            r.1,
            ap (λ n. (n, some r.1)) (omega (arith, length-append bytes (part body))),
            written ∙ ap (λ t. t ++ part body) items,
            based ∙ start,
          ),
        )
      ]

  write_parts_lem :
      (a : Array ℕ) (t : ℕ) (topic body : List ℕ) (w : W)
      → a.items ≡ t ∷ []
      → 9 + length topic + length body ≤ a.cap
      → a.offset ≡ 0
      → Returns (write_parts lib a topic body w) λ r _. Written r (frame t topic body)
  unfolding write_parts
  write_parts_lem a t topic body w items room start =
      let (r, w', run, outcome) =
        write_part_lem a topic 1 w (sym (ap length items)) (omega arith) in
      elim outcome [
        | inl (short, failed, based) ↦
            let (w₂, freed) = drop_local_lem r.1 w' (based ∙ start) in
            ((0, none), w₂, rw (run, failed) freed, inl (short, refl))
        | inr (done, written, sized, based) ↦
            let (r₂, w₂, run₂, h) =
              write_body_lem r.1 (t ∷ part topic) body (5 + length topic) w'
                (written ∙ ap (λ l. l ++ part topic) items) (omega arith) (omega arith)
                (based ∙ start) in
            (r₂, w₂, rw (run, done) run₂, h)
      ]

  -- `messages_write` of a message whose fields are set returns its frame and the frame's length,
  -- or 0 where memory ran out; it never faults.
  pub messages_write-frame :
      (msg : Message) (topic body : List ℕ) (w : W)
      → Holds msg.topic topic
      → Holds msg.body body
      → Returns (messages_write lib msg w) λ r _. Written r (frame (u8 msg.type) topic body)
  unfolding messages_write
  messages_write-frame msg topic body w holds_topic holds_body =
      let size = 9 + length topic + length body in
      let w₁ = (lib.init {A = ℕ} size w).1 in
      let a = (lib.insert (fresh size) (u8 msg.type) w₁).0.1 in
      let w₂ = (lib.insert (fresh size) (u8 msg.type) w₁).1 in
      let t_topic = contents_lem msg.topic topic w holds_topic in
      let t_body = contents_lem msg.body body w holds_body in
      elim (init_lem lib memory {A = ℕ} size w) [
        | inl (short, e) ↦ ((0, none), w₁, rw (t_topic, t_body, e) refl, inl (short, refl))
        | inr e ↦ elim (Bool-cases (lib.insert (fresh size) (u8 msg.type) w₁).0.0) [
          | inr bad ↦
              let (w₃, freed) =
                drop_local_lem a w₂ (ap (λ b. b.offset) (lib.insert_false _ _ w₁ bad)) in
              (
                (0, none),
                w₃,
                rw (t_topic, t_body, e, bad) freed,
                inl (memory.insert_fails _ _ w₁ bad, refl),
              )
          | inl good ↦
              let (items, roomy, steady, based) =
                lib.insert_true (fresh size) (u8 msg.type) w₁ good in
              let (r, w₃, run, h) =
                write_parts_lem a (u8 msg.type) topic body w₂ items roomy based in
              (r, w₃, rw (t_topic, t_body, e, good) run, h)
        ]
      ]
