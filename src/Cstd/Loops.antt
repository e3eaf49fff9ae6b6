-- ===== src/Cstd/Loops.antt =====
-- The loop `for (...) if (!X_array_insert(&arr, xs[i])) return false;` that several callers write.
use jm_bus.Common.{
  ℕ, ◌+◌, ◌≤◌, ◌≡◌, refl, sym, ap, ◌∙◌, ◌⊎◌, inl, inr, Bool, true, false, none, some, List, [], ◌∷◌,
  ◌++◌, length, arith, if◌then◌else◌, Bool-cases, Option-cases, ok, append-nil, append_assoc,
  length-append, Cmd, Returns, ◌>>=◌, call, pure,
}
use jm_bus.Cstd.{Array, ArrayLib, Memory, Plenty, len, fresh}

module _ {W : Type 0} (lib : ArrayLib W) where
  -- The loop ends with `false` at the first insertion that fails.
  unfoldable pub insert_each : {A : Type 0} → Array A → List A → Cmd W (Bool × Array A)
  insert_each a [] = pure (true, a)
  insert_each a (x ∷ xs) = do
    (inserted, a') ← call (lib.insert a x)
    let rest = insert_each a' xs in if inserted then rest else pure (false, a')

  -- What the loop leaves: all items appended, or a failure for want of memory.
  pub record Inserted {A : Type 0} (a : Array A) (xs : List A) (b : Array A) : Type 0 where
    pub appended : b.items ≡ a.items ++ xs
    pub roomy : a.cap ≤ b.cap
    pub steady : len a + length xs ≤ a.cap → b.cap ≡ a.cap
    pub based : b.offset ≡ a.offset

  module _ {Shortage : Type 0} (memory : Memory lib Shortage) where
    pub init_lem :
        {A : Type 0} (n : ℕ) (w : W)
        → (Shortage × ((lib.init {A = A} n w).0 ≡ none))
          ⊎ ((lib.init {A = A} n w).0 ≡ some (fresh n))
    init_lem {A} n w = elim (Option-cases (lib.init {A = A} n w).0) [
      | inl e ↦ inl (memory.init_fails n w e, e)
      | inr (a, e) ↦ inr (e ∙ ap some (lib.init_lem n w a e))
    ]

    pub insert_each_lem :
        {A : Type 0} (a : Array A) (xs : List A) (w : W)
        → Returns (insert_each a xs w) λ r _.
          (Shortage × (r.0 ≡ false) × (r.1.offset ≡ a.offset)) ⊎ ((r.0 ≡ true) × Inserted a xs r.1)
    unfolding insert_each
    insert_each_lem a [] w = (
      (true, a),
      w,
      refl,
      inr (
        refl,
        record {
          appended = sym (append-nil a.items);
          roomy = omega arith;
          steady = λ _. refl;
          based = refl;
        },
      ),
    )
    insert_each_lem a (x ∷ xs) w = elim (Bool-cases (lib.insert a x w).0.0) [
      | inl good ↦
          let (items, cap, steady, offset) = lib.insert_true a x w good in
          let (r, w', run, h) = insert_each_lem (lib.insert a x w).0.1 xs (lib.insert a x w).1 in
          (
            r,
            w',
            rw good run,
            elim h [
              | inl (short, failed, based) ↦ inl (short, failed, based ∙ offset)
              | inr (done, i) ↦ inr (
                done,
                record {
                  appended = i.appended ∙ rw (items, append_assoc) refl;
                  roomy = omega (arith, i.roomy);
                  steady = λ room.
                      ground (arith, i.steady, ap length items, length-append a.items (x ∷ []));
                  based = i.based ∙ offset;
                },
              )
            ],
          )
      | inr bad ↦ (
        (false, (lib.insert a x w).0.1),
        (lib.insert a x w).1,
        rw bad,
        inl (memory.insert_fails a x w bad, refl, ap (λ b. b.offset) (lib.insert_false a x w bad)),
      )
    ]

  -- While memory lasts.
  module _ (plenty : Plenty lib) where
    pub init-fresh : {A : Type 0} (n : ℕ) (w : W) → (lib.init {A = A} n w).0 ≡ some (fresh n)
    init-fresh {A} n w = elim (init_lem plenty {A = A} n w) [
      | inl (never, e) ↦ absurd never
      | inr e ↦ e
    ]

    pub inserts : {A : Type 0} (a : Array A) (x : A) (w : W) → (lib.insert a x w).0.0 ≡ true
    inserts a x w = elim (Bool-cases (lib.insert a x w).0.0) [
      | inl good ↦ good
      | inr bad ↦ absurd (plenty.insert_fails a x w bad)
    ]

    pub insert_each_all :
        {A : Type 0} (a : Array A) (xs : List A) (w : W)
        → (b : Array A) × (w' : W) × (insert_each a xs w ≡ ok (true, b) w') × Inserted a xs b
    insert_each_all a xs w =
        let (r, w', run, outcome) = insert_each_lem plenty a xs w in
        elim outcome [
          | inl (never, _, _) ↦ absurd never
          | inr (done, i) ↦ (r.1, w', run ∙ ground (arith, done), i)
        ]
