-- ===== src/Messages/Parsing.antt =====
-- The `while` loop of `message_array_generate_from_client` on any bytes.
use native.Mathlib.Decide.{ℕ_discrete}
use jm_bus.Common.{
  if◌then◌else◌, Cmd, ◌>>◌, ℕ, zero, suc, ◌+◌, ◌^◌, ◌≤◌, ◌<◌, ◌≡◌, ◌≢◌, ◌⊎◌, inl, inr, true, false,
  Option, none, some, List, [], ◌∷◌, leb, ltb, ◌==◌, Bool-cases, Option-cases, length-drop, arith,
  out_of_fuel, pure, Settles, Ends, Settles-and_then, Ends-and_then, Ends-not_cut,
}
use jm_bus.Bytes.{u64, sign_extend}
use jm_bus.Cstd.{Array, ArrayLib, len}
use jm_bus.Cstd.Ending.{free-Ends}
use jm_bus.Messages.{Message, messages_read}
use jm_bus.Messages.Collection.{Bounded, read_all_raw_bytes-settles}
use jm_bus.Messages.Ending.{message_free-Ends, messages_read-Ends}
use jm_bus.Messages.Receive.{
  advance, message_array_free_list, keep_message, abandon, parse_loop, read_all_raw_bytes,
  message_array_generate_from_client,
}
use jm_bus.Sockets.{Sockets}

module _ {W : Type 0} (os : Sockets W) (lib : ArrayLib W) where
  pub message_array_free_list-Ends :
      (ms : List Message) (w : W) → Ends (message_array_free_list os lib ms w)
  unfolding message_array_free_list
  message_array_free_list-Ends [] w = tt
  message_array_free_list-Ends (m ∷ ms) w =
      Ends-and_then _ (λ _. message_array_free_list os lib ms) (message_free-Ends lib m w)
        (λ _ w'. message_array_free_list-Ends ms w')

  abandon-Ends :
      (buf : Array ℕ) (result : Array Message) (w : W) → Ends (abandon os lib buf result w)
  abandon-Ends buf result w = Ends-and_then _ _ (free-Ends lib buf w) (λ _ w₁.
      Ends-and_then _ _ (message_array_free_list-Ends result.items w₁)
        (λ _ w₂. Ends-and_then _ _ (free-Ends lib result w₂) (λ _ _. tt)))

  -- `n` bytes are read: the buffer that is left holds the others, or all are read.
  abbrev InPlace : ℕ → ℕ → Array ℕ → Type 0
  InPlace original_len n buf = (n + len buf ≡ original_len) ⊎ (original_len ≤ n)

  -- The buffer behind a message: further on, or all bytes are read.
  abbrev MovedOn : ℕ → ℕ → ℕ → Array ℕ → Type 0
  MovedOn original_len n n' buf = ((n' + len buf ≡ original_len) × (n < n')) ⊎ (original_len ≤ n')

  moved_buffer-settles :
      (buf : Array ℕ) (read_n n original_len : ℕ) (w : W)
      → n + len buf ≡ original_len
      → original_len < 2 ^ 64
      → read_n ≢ 0
      → Settles
          ((if ltb (u64 (n + read_n)) original_len then advance os lib buf read_n else pure buf) w)
          (λ b _. MovedOn original_len n (u64 (n + read_n)) b)
  unfolding advance
  moved_buffer-settles buf read_n n original_len w place small some_read =
      elim (Bool-cases (ltb (u64 (n + read_n)) original_len)) [
        | inr past ↦ rw past (inr (ground arith))
        | inl inside ↦ elim (Bool-cases (leb read_n (len buf))) [
          | inr over ↦ rw (inside, over) tt
          | inl within ↦
              let short : read_n ≤ len buf = ground arith in
              let sum : u64 (n + read_n) ≡ n + read_n = omega arith in
              rw (inside, within) (inl (omega (arith, length-drop read_n buf.items), omega arith))
        ]
      ]

  keep_message-settles :
      (buf : Array ℕ) (read_n n original_len : ℕ) (result : Array Message) (read : Option Message)
      (w : W)
      → n + len buf ≡ original_len
      → original_len < 2 ^ 64
      → read_n ≢ 0
      → Settles
          (keep_message os lib buf read_n n original_len result read w)
          (λ r _. MovedOn original_len n (u64 (n + read_n)) r.0)
  unfolding keep_message
  keep_message-settles buf read_n n original_len result none w place small some_read = tt
  keep_message-settles buf read_n n original_len result (some msg) w place small some_read =
      Settles-and_then _ _ (λ b _. MovedOn original_len n (u64 (n + read_n)) b)
        (λ r _. MovedOn original_len n (u64 (n + read_n)) r.0)
        (moved_buffer-settles buf read_n n original_len w place small some_read) (λ b w' h. h)

  -- Each round takes a byte at least, so `left` rounds and the last test are enough for `left` bytes.
  parse_loop-Ends :
      (left : ℕ) (buf : Array ℕ) (n original_len : ℕ) (result : Array Message) (w : W)
      → InPlace original_len n buf
      → original_len < 2 ^ 64
      → original_len ≤ left + n
      → Ends (parse_loop os lib (suc left) buf n original_len result w)
  unfolding parse_loop
  parse_loop-Ends zero buf n original_len result w place small enough =
      let done : ltb n original_len ≡ false = ground arith in
      rw done (Ends-and_then _ _ (free-Ends lib buf w) (λ _ _. tt))
  parse_loop-Ends (suc left) buf n original_len result w place small enough =
      elim (Bool-cases (ltb n original_len)) [
        | inr done ↦ rw done (Ends-and_then _ _ (free-Ends lib buf w) (λ _ _. tt))
        | inl more ↦
            let here : n + len buf ≡ original_len = ground (arith, place) in
            let all : u64 (n + len buf) ≡ original_len = omega arith in
            rw more (
              Ends-and_then (messages_read lib buf w) _ (messages_read-Ends lib buf w) (λ r w₁.
                let read_n = sign_extend r.0 in
                elim (ℕ_discrete read_n 0) [
                  | yes empty ↦
                      let test : (read_n == 0) ≡ true = ground arith in
                      rw test (
                        parse_loop-Ends left buf (u64 (n + len buf)) original_len result w₁
                          (inr (omega arith)) small (omega arith))
                  | no some_read ↦
                      let test : (read_n == 0) ≡ false = ground arith in
                      rw test (
                        Settles-and_then
                          (keep_message os lib buf read_n n original_len result r.1 w₁) _
                          (λ k _. MovedOn original_len n (u64 (n + read_n)) k.0) (λ _ _. Unit {0})
                          (keep_message-settles buf read_n n original_len result r.1 w₁ here small
                            some_read)
                          (λ k w₂ moved. elim (Bool-cases k.2) [
                            | inl inserted ↦ rw inserted (
                                parse_loop-Ends left k.0 (u64 (n + read_n)) original_len k.1 w₂
                                  (elim moved [ inl (e, lt) ↦ inl e | inr past ↦ inr past ]) small
                                  (elim moved [
                                    | inl (e, lt) ↦ omega arith
                                    | inr past ↦ omega arith
                                  ]))
                            | inr failed ↦ rw failed (abandon-Ends k.0 k.1 w₂)
                          ]))
                ]))
      ]

  pub generate-Ends :
      (client_sock : ℕ) (w : W) → Ends (message_array_generate_from_client os lib client_sock w)
  unfolding message_array_generate_from_client
  generate-Ends client_sock w = elim (Option-cases (lib.init {A = Message} 2 w).0) [
    | inl e ↦ rw e tt
    | inr (result, e) ↦
        let w₁ = (lib.init {A = Message} 2 w).1 in
        rw e (
          Settles-and_then (read_all_raw_bytes os lib client_sock w₁) _ (λ o _. Bounded o)
            (λ _ _. Unit {0}) (read_all_raw_bytes-settles os lib client_sock w₁)
            (λ o w₂ bounded.
              elim o
                  as (λ o.
                    Bounded o
                    → Ends (
                        (elim o as (λ _. Cmd W (Option (Array Message))) [
                          | none ↦ do lib.free result; pure none
                          | some buf ↦ parse_loop os lib (suc (len buf)) buf 0 (len buf) result
                        ])
                          w₂)) [
                            | none ↦ λ _. Ends-and_then _ _ (free-Ends lib result w₂) (λ _ _. tt)
                            | some buf ↦ λ small.
                                parse_loop-Ends (len buf) buf 0 (len buf) result w₂
                                  (inl (omega arith)) (omega arith) (omega arith)
                          ]
                bounded))
  ]

  -- If each `recv` that it calls returns, `message_array_generate_from_client` ends, whatever
  -- these calls bring and wherever memory fails: neither the rounds of its reading nor those of
  -- its parsing run out.
  pub message_array_generate_from_client-ends :
      (client_sock : ℕ) (w : W)
      → message_array_generate_from_client os lib client_sock w ≢ out_of_fuel
  message_array_generate_from_client-ends client_sock w =
      Ends-not_cut (message_array_generate_from_client os lib client_sock w)
        (generate-Ends client_sock w)
