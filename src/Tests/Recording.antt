-- ===== src/Tests/Recording.antt =====
-- A platform whose world is the record of what was sent, and a message that goes through it.
use jm_bus.Common.{
  ℕ, ◌≡◌, refl, true, none, some, List, [], ◌∷◌, ◌++◌, if◌then◌else◌, leb, ◌==◌, length, arith,
  Bool-cases, inl, inr, Yields,
}
use jm_bus.Cstd.{Array}
use jm_bus.Cstd.Ideal.{free_block, ideal_over}
use jm_bus.Messages.{publish_type}
use jm_bus.Messages.Frames.{frame}
use jm_bus.Sockets.{Sockets}
use jm_bus.Traffic.{Log, Silent}
use jm_bus.Tests.Fixtures.{received_fits, topic_ab, text_c}

-- Each read brings the bytes, where they fit.
abbrev pub recorder : List ℕ → Sockets Log
recorder sent = record {
  recv = λ socket n w. (if leb (length sent) n then some sent else none, w);
  read_buffer = λ w. [];
  buffer_size = λ w. omega arith;
  send = λ socket bytes w. (true, w ++ (socket, bytes) ∷ []);
  accept = λ socket w. (none, w);
  close = λ socket w. (tt, w);
  recv_fits = λ socket n w bytes e. received_fits sent n bytes e;
}

free_block-silent : {A : Type 0} (a : Array A) (w : Log) → Yields (free_block a w) (λ _ w'. w' ≡ w)
free_block-silent a w = elim (Bool-cases (a.offset == 0)) [ inl e ↦ rw e refl | inr e ↦ rw e tt ]

pub ideal-Silent : Silent (ideal_over Log) (λ w. w)
ideal-Silent = record {
  init_silent = λ n w. refl;
  insert_silent = λ a x w. refl;
  malloc_silent = λ w. refl;
  free_silent = free_block-silent;
}

abbrev frame_ab : List ℕ
frame_ab = frame publish_type topic_ab text_c
