-- ===== src/Messages/Batches.antt =====
-- The loop of `message_array_generate_from_client` over the frames of one read.
use jm_bus.Common.{
  ℕ, zero, suc, ◌+◌, ◌-◌, ◌*◌, ◌^◌, ◌≤◌, ◌<◌, ◌≡◌, ◌≢◌, refl, sym, ap, ◌∙◌, ◌⊎◌, inl, inr, true,
  false, some, List, [], ◌∷◌, ◌++◌, length, drop, arith, ltb, leb, ◌==◌, append-nil, length-append,
  ok, fault, bad_free, and_then, Returns, drop_exact, pure,
}
use jm_bus.Cstd.{Array, ArrayLib, Plenty, len, fresh}
use jm_bus.Cstd.Loops.{inserts}
use jm_bus.Bytes.{u64, sign_extend}
use jm_bus.Messages.{Message, messages_read}
use jm_bus.Messages.Frames.{frame, length-frame}
use jm_bus.Messages.Reading.{Decodes, messages_read-frame}
use jm_bus.Messages.Receive.{parse_loop}
use jm_bus.Sockets.{Sockets}

pub record Frame : Type 0 where
  pub type : ℕ
  pub topic : List ℕ
  pub body : List ℕ

abbrev pub encode : Frame → List ℕ
encode f = frame f.type f.topic f.body

abbrev pub encode_all : List Frame → List ℕ
encode_all [] = []
encode_all (f ∷ fs) = encode f ++ encode_all fs

length-encode_all : (fs : List Frame) → 9 * length fs ≤ length (encode_all fs)
length-encode_all [] = omega arith
length-encode_all (f ∷ fs) = omega (
  arith,
  length-append (encode f) (encode_all fs),
  length-frame f.type f.topic f.body,
  length-encode_all fs,
)

module _ {W : Type 0} (os : Sockets W) (lib : ArrayLib W) (plenty : Plenty lib) where
  -- What one round has read: the message, and the world behind the read and behind the insertion.
  record Round (a : Array ℕ) (f : Frame) (result : Array Message) (w : W) : Type 0 where
    msg : Message
    seen : W
    read : messages_read lib a w ≡ ok (length (encode f), some msg) seen
    decodes : Decodes msg f.type f.topic f.body
    inserted : (lib.insert result msg seen).0.0 ≡ true

  round :
      (a : Array ℕ) (f : Frame) (rest : List ℕ) (result : Array Message) (w : W)
      → a.items ≡ encode f ++ rest
      → len a < 2 ^ 31
      → Round a f result w
  round a f rest result w items few =
      let size : len a ≡ 9 + length f.topic + length f.body + length rest = omega (
        arith,
        ap length items,
        length-append (encode f) rest,
        length-frame f.type f.topic f.body,
      ) in
      let (r, w', run, (m, e, d)) =
        messages_read-frame lib plenty a f.type f.topic f.body rest w items (omega arith)
          (omega arith) (omega arith) in
      record {
        msg = m;
        seen = w';
        read = run ∙ ap (λ k. ok k w') e;
        decodes = d;
        inserted = inserts lib plenty result m w';
      }

  module _ (fuel n original_len : ℕ) (a : Array ℕ) (f : Frame) (result : Array Message)
      (w : W) where
    -- The last frame: the buffer stays, and is freed.
    last-Round :
        a.items ≡ encode f
        → n + len a ≡ original_len
        → original_len < 2 ^ 31
        → (r : Round a f result w)
        → parse_loop os lib (suc (suc fuel)) a n original_len result w
          ≡ and_then
              (lib.free a (lib.insert result r.msg r.seen).1)
              (λ _. pure (some (lib.insert result r.msg r.seen).0.1))
    unfolding parse_loop
    last-Round items all small r =
        let k = length (encode f) in
        let size : len a ≡ k = ap length items in
        let more : ltb n original_len ≡ true = ground (arith, length-frame f.type f.topic f.body) in
        let positive : (sign_extend k == 0) ≡ false =
          ground (arith, length-frame f.type f.topic f.body) in
        let next : u64 (n + sign_extend k) ≡ original_len = ground arith in
        let done : ltb original_len original_len ≡ false = ground arith in
        rw (more, r.read, positive, next, done, r.inserted) refl

    -- A frame with more behind it: the buffer's pointer moves past the frame.
    inner-Round :
        (rest : List ℕ)
        → a.items ≡ encode f ++ rest
        → rest ≢ []
        → n + len a ≡ original_len
        → original_len < 2 ^ 31
        → (r : Round a f result w)
        → parse_loop os lib (suc fuel) a n original_len result w
          ≡ parse_loop os lib fuel
              (record a { items = rest; offset = a.offset + length (encode f) })
              (n + length (encode f))
              original_len
              (lib.insert result r.msg r.seen).0.1
              (lib.insert result r.msg r.seen).1
    unfolding parse_loop
    inner-Round rest items some_left all small r =
        let k = length (encode f) in
        let long : 0 < k = omega (arith, length-frame f.type f.topic f.body) in
        let nonempty : 0 < length rest = ground arith in
        let size : len a ≡ k + length rest = ap length items ∙ length-append (encode f) rest in
        let more : ltb n original_len ≡ true = ground arith in
        let kept : sign_extend k ≡ k = ground arith in
        let positive : (k == 0) ≡ false = ground arith in
        let next : u64 (n + k) ≡ n + k = omega arith in
        let before : ltb (n + k) original_len ≡ true = ground arith in
        let within : leb k (len a) ≡ true = ground arith in
        let behind : drop k a.items ≡ rest =
          ap (drop k) items ∙ drop_exact (encode f) rest k refl in
        rw (more, r.read, kept, positive, next, before, within, behind, r.inserted) refl

  -- Frames behind one another, read from a buffer that is freed elsewhere than at its start.
  parse_frames_fault :
      (fs : List Frame) (f : Frame) (fuel n original_len : ℕ) (a : Array ℕ) (result : Array Message)
      (w : W)
      → a.items ≡ encode_all (f ∷ fs)
      → n + len a ≡ original_len
      → original_len < 2 ^ 31
      → length fs + 2 ≤ fuel
      → (a.offset ≢ 0) ⊎ (fs ≢ [])
      → parse_loop os lib fuel a n original_len result w ≡ fault bad_free
  parse_frames_fault [] f zero n o a result w items all small enough h = absurd (omega arith)
  parse_frames_fault [] f (suc zero) n o a result w items all small enough h = absurd (omega arith)
  parse_frames_fault [] f (suc (suc fuel)) n o a result w items all small enough h =
      let moved : a.offset ≢ 0 = ground arith in
      let r = round a f [] result w items (omega arith) in
      last-Round fuel n o a f result w (items ∙ append-nil (encode f)) all small r
      ∙ rw (lib.free_inside a (lib.insert result r.msg r.seen).1 moved) refl
  parse_frames_fault (g ∷ fs) f zero n o a result w items all small enough h = absurd (omega arith)
  parse_frames_fault (g ∷ fs) f (suc fuel) n o a result w items all small enough h =
      let k = length (encode f) in
      let rest = encode_all (g ∷ fs) in
      let r = round a f rest result w items (omega arith) in
      let size : len a ≡ k + length rest = ap length items ∙ length-append (encode f) rest in
      inner-Round fuel n o a f result w rest items (λ e. cc) all small r
      ∙ parse_frames_fault fs g fuel (n + k) o (record a { items = rest; offset = a.offset + k }) _
          _ refl (omega arith) small (omega arith)
          (inl (omega (arith, length-frame f.type f.topic f.body)))

  -- A read that brings one frame, below 2^31 bytes, in a buffer that begins at its allocation:
  -- while memory lasts, the loop of `message_array_generate_from_client` returns the one message
  -- that the frame encodes.
  pub parse_one_frame :
      (f : Frame) (a : Array ℕ) (w : W)
      → a.items ≡ encode f
      → a.offset ≡ 0
      → len a < 2 ^ 31
      → Returns (parse_loop os lib (suc (len a)) a 0 (len a) (fresh 2) w) λ r _.
        (m : Message) × (out : Array Message) × (r ≡ some out)
        × (out.items ≡ m ∷ [])
        × Decodes m f.type f.topic f.body
  parse_one_frame f a w items start small =
      let size : len a ≡ length (encode f) = ap length items in
      let long : len a ≡ suc (len a - 1) = omega (arith, length-frame f.type f.topic f.body) in
      let r = round a f [] (fresh 2) w (items ∙ sym (append-nil (encode f))) small in
      let w₁ = (lib.insert (fresh 2) r.msg r.seen).1 in
      let out = (lib.insert (fresh 2) r.msg r.seen).0.1 in
      let (w₂, freed) = lib.free_start a w₁ start in
      (
        some out,
        w₂,
        ap (λ k. parse_loop os lib (suc k) a 0 (len a) (fresh 2) w) long
            ∙ last-Round (len a - 1) 0 (len a) a f (fresh 2) w items (omega arith) small r
            ∙ rw freed refl,
        (r.msg, out, refl, (lib.insert_true (fresh 2) r.msg r.seen r.inserted).0, r.decodes),
      )

  -- A read that brings two frames or more, below 2^31 bytes together: while memory lasts, the loop
  -- of `message_array_generate_from_client` ends in a `free` of a pointer behind the start of the
  -- buffer.
  pub parse_many_frames :
      (f g : Frame) (fs : List Frame) (a : Array ℕ) (w : W)
      → a.items ≡ encode_all (f ∷ g ∷ fs)
      → len a < 2 ^ 31
      → parse_loop os lib (suc (len a)) a 0 (len a) (fresh 2) w ≡ fault bad_free
  parse_many_frames f g fs a w items small =
      parse_frames_fault (g ∷ fs) f (suc (len a)) 0 (len a) a (fresh 2) w items (omega arith) small
        (omega (arith, ap length items, many)) (inr (λ e. cc))
    where
      many : length (f ∷ g ∷ fs) + 1 ≤ length (encode_all (f ∷ g ∷ fs))
      many = omega (arith, length-encode_all (f ∷ g ∷ fs))
