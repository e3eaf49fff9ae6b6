-- ===== src/Tests/Fixtures.antt =====
-- A platform whose calls succeed and whose sockets send nothing, and short byte strings.
use jm_bus.Common.{
  ok, ℕ, ◌+◌, ◌*◌, ◌/◌, ◌%◌, ◌≤◌, ◌≡◌, inl, inr, true, leb, if◌then◌else◌, none, some, List, [],
  ◌∷◌, length, arith, Bool-cases, Cmd, pure,
}
use jm_bus.Cstd.{Array, ArrayLib, fresh}
use jm_bus.Messages.{Message}
use jm_bus.Network.{Network}
use jm_bus.Cstd.Ideal.{
  append_item, free_block, free_block-start, free_block-inside, append_item_lem, insert_fails_never,
}
use jm_bus.Sockets.{Sockets}
use jm_bus.ThreadPool.{Threads}

pub none_fits : (n : ℕ) (bytes : List ℕ) → none ≡ some bytes → length bytes ≤ n
none_fits n bytes e = ground arith

abbrev pub quiet : Sockets (Unit {0})
quiet = record {
  recv = λ socket n w. (none, w);
  read_buffer = λ w. [];
  buffer_size = λ w. omega arith;
  send = λ socket bytes w. (true, w);
  accept = λ socket w. (none, w);
  close = λ socket w. (tt, w);
  recv_fits = λ socket n w bytes e. none_fits n bytes e;
}

-- Socket 9 is waiting to be accepted.
abbrev pub ringing : Sockets (Unit {0})
ringing = record quiet { accept = λ socket w. (some 9, w) }

abbrev pub willing : Threads (Unit {0})
willing = record {
  cond_init = λ w. (true, w);
  mutex_init = λ w. (true, w);
  create = λ w. (true, w);
  start_up = λ w. ok tt w;
  join = λ job w. (tt, w);
}

pub never_made :
    {A : Type 0} (n : ℕ) (w : Unit {0}) (a : Array A)
    → none ≡ some a
    → a ≡ record { items = []; cap = n; offset = 0 }
never_made n w a e = ground arith

-- Insertions succeed, and no new array is made.
abbrev pub scarce : ArrayLib (Unit {0})
scarce = record {
  init = λ n w. (none, w);
  insert = λ a x w. ((true, append_item a x), w);
  malloc = λ w. (true, w);
  realloc = λ w. (true, w);
  free = free_block;
  init_lem = never_made;
  insert_true = append_item_lem;
  insert_false = insert_fails_never;
  free_start = free_block-start;
  free_inside = free_block-inside;
}

-- The texts "ab" and "c".
abbrev pub topic_ab : List ℕ
topic_ab = 97 ∷ 98 ∷ []

abbrev pub text_c : List ℕ
text_c = 99 ∷ []

-- An array of these items with room for `cap`.
abbrev pub array_of : {A : Type 0} → ℕ → List A → Array A
array_of size xs = record { items = xs; cap = size; offset = 0 }

pub received_fits :
    (sent : List ℕ) (n : ℕ) (bytes : List ℕ)
    → (if leb (length sent) n then some sent else none) ≡ some bytes
    → length bytes ≤ n
received_fits sent n bytes e = elim (Bool-cases (leb (length sent) n)) [
  | inl small ↦ let same : some sent ≡ some bytes = rw small at e in ground arith
  | inr large ↦ ground arith
]

-- Each read brings these bytes, where they fit.
abbrev pub talking : List ℕ → Sockets (Unit {0})
talking sent = record quiet {
  recv = λ socket n w. (if leb (length sent) n then some sent else none, w);
  recv_fits = λ socket n w bytes e. received_fits sent n bytes e;
}

-- A network that opens socket 3 and reaches everyone, on a machine of the other byte order.
abbrev pub reachable : (W : Type 0) → Network W
reachable W = record {
  htons = λ n. n % 256 * 256 + n / 256 % 256;
  socket = λ family type protocol w. (some 3, w);
  setsockopt = λ sock w. (true, w);
  ioctl = λ sock w. (true, w);
  bind = λ sock addr w. (true, w);
  listen = λ sock n w. (true, w);
  connect = λ sock addr w. (true, w);
  shutdown = λ sock w. (tt, w);
}

-- What is read of an array that is gone: no messages.
abbrev pub nothing_left : Cmd (Unit {0}) (Array Message)
nothing_left = pure (fresh 2)
