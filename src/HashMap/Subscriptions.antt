-- ===== src/HashMap/Subscriptions.antt =====
-- What a topic map is for: how often each socket is listed under a topic. The functions of
-- common/structures/hash_map.c against a count that is kept for one topic and one socket.
use jm_bus.Common.{
  ◌<◌, ℕ, ◌+◌, ◌-◌, ◌≡◌, ◌⊎◌, refl, ap, ◌∙◌, inl, inr, Bool, true, false, Option, none, some, List,
  [], ◌∷◌, set, arith, if◌then◌else◌, ◌==◌, ◌&&◌, ok, Cmd, pure, ◌>>=◌, count_if-append, All,
}
use jm_bus.Cstd.{Array, ArrayLib, Plenty}
use jm_bus.HashMap.{
  Entry, HashMap, find_entry, value_of, hash_map_get, hash_map_set, hash_map_remove_value,
}
use jm_bus.HashMap.Contents.{IsValid, entries_at, sockets_of, sockets, hash_map_get_lem}
use jm_bus.HashMap.Matching.{starts, starts_refl}
use jm_bus.HashMap.Setting.{Apart, hash_map_set-sockets}
use jm_bus.HashMap.Unlisting.{listed, hash_map_remove_value-Unlisted}

-- The calls that change a map.
pub data Change : Type 0 where
  subscribe : List ℕ → ℕ → Change
  unsubscribe : List ℕ → ℕ → Change

abbrev pub key_of : Change → List ℕ
key_of (subscribe key v) = key
key_of (unsubscribe key v) = key

abbrev pub same_key : List ℕ → List ℕ → Bool
same_key q key = starts q key && starts key q

pub same_key_self : (q : List ℕ) → same_key q q ≡ true
same_key_self q = rw (starts_refl q) refl

pub same_key-Apart : (q key : List ℕ) → Apart q key → same_key q key ≡ false
same_key-Apart q key apart = rw (apart.0) refl

-- The specification: the number of times that socket `u` is listed under `q`.
abbrev pub recount : List ℕ → ℕ → List Change → ℕ → ℕ
recount q u [] n = n
recount q u (subscribe key v ∷ cs) n =
    recount q u cs (if same_key q key then (if v == u then n + 1 else n) else n)
recount q u (unsubscribe key v ∷ cs) n =
    recount q u cs (if same_key q key then (if v == u then n - 1 else n) else n)

-- A list that grew or shrank under its own key, and stayed under another.
recount_step :
    (q key : List ℕ) (hm hm' : HashMap) (n u : ℕ)
    → (key ≡ q) ⊎ Apart q key
    → listed u (sockets hm' key) ≡ n
    → (Apart q key → find_entry q (entries_at hm' q) ≡ find_entry q (entries_at hm q))
    → listed u (sockets hm' q) ≡ (if same_key q key then n else listed u (sockets hm q))
recount_step q key hm hm' n u (inl e) here others = rw (e, same_key_self q) (rw e at here)
recount_step q key hm hm' n u (inr apart) here others =
    rw (same_key-Apart q key apart) (ap (λ o. listed u (sockets_of o)) (others apart))

recount_count :
    (q key : List ℕ) (hm : HashMap) (u : ℕ) (f : ℕ → ℕ)
    → (key ≡ q) ⊎ Apart q key
    → (if same_key q key then f (listed u (sockets hm key)) else listed u (sockets hm q))
      ≡ (if same_key q key then f (listed u (sockets hm q)) else listed u (sockets hm q))
recount_count q key hm u f (inl e) = rw e refl
recount_count q key hm u f (inr apart) = rw (same_key-Apart q key apart) refl

abbrev pub recounted : List ℕ → ℕ → Change → ℕ → ℕ
recounted q u c n = recount q u (c ∷ []) n

module _ {W : Type 0} where
  -- One call, for a topic that is the key or apart from it.
  pub set_count :
      (lib : ArrayLib W) (plenty : Plenty lib) (hm : HashMap) (key : List ℕ) (v : ℕ) (w : W)
      → IsValid hm
      → (hm' : HashMap) × (w' : W) × (hash_map_set lib hm key v w ≡ ok (true, hm') w')
        × IsValid hm'
        × ((q : List ℕ) (u : ℕ)
            → (key ≡ q) ⊎ Apart q key
            → listed u (sockets hm' q) ≡ recounted q u (subscribe key v) (listed u (sockets hm q)))
  set_count lib plenty hm key v w valid =
      let (hm', w', run, valid', grown, others) =
        hash_map_set-sockets lib plenty hm key v w valid in
      (
        hm',
        w',
        run,
        valid',
        λ q u key_ok.
            let here : listed u (sockets hm' key)
                ≡ (if v == u then listed u (sockets hm key) + 1 else listed u (sockets hm key)) =
              ap (λ l. listed u l) grown
              ∙ count_if-append (λ x. x == u) (sockets hm key) (v ∷ [])
              ∙ ground arith in
            recount_step q key hm hm' _ u key_ok here (others q)
            ∙ recount_count q key hm u (λ n. if v == u then n + 1 else n) key_ok,
      )

  pub remove_count :
      (hm : HashMap) (key : List ℕ) (v : ℕ) (w : W)
      → IsValid hm
      → (b : Bool) × (hm' : HashMap) × (hash_map_remove_value hm key v w ≡ ok (b, hm') w)
        × IsValid hm'
        × ((q : List ℕ) (u : ℕ)
            → (key ≡ q) ⊎ Apart q key
            → listed u (sockets hm' q)
              ≡ recounted q u (unsubscribe key v) (listed u (sockets hm q)))
        × (0 < listed v (sockets hm key) → b ≡ true)
  remove_count hm key v w valid =
      let (b, hm', run, gone, done) = hash_map_remove_value-Unlisted hm key v w valid in
      (
        b,
        hm',
        run,
        gone.valid,
        λ q u key_ok.
            recount_step q key hm hm' _ u key_ok (gone.here u) (gone.others q)
            ∙ recount_count q key hm u (λ n. if v == u then n - 1 else n) key_ok,
        done,
      )

module _ {W : Type 0} (lib : ArrayLib W) where
  -- The calls one after the other, whatever each returns.
  unfoldable pub run : List Change → HashMap → Cmd W HashMap
  run [] hm = pure hm
  run (subscribe key v ∷ cs) hm = do (_, hm') ← hash_map_set lib hm key v; run cs hm'
  run (unsubscribe key v ∷ cs) hm = do (_, hm') ← hash_map_remove_value hm key v; run cs hm'

  -- Any sequence of `hash_map_set` and `hash_map_remove_value` on a valid map, while memory lasts
  -- and where each key is the topic, or neither it nor the topic is a start of the other: the map
  -- stays valid, and `hash_map_get` of the topic returns a list that holds a socket as often as
  -- the count over the sequence says, which adds one for a subscription and takes one for a
  -- removal.
  pub run_refines :
      (cs : List Change) (hm : HashMap) (q : List ℕ) (u : ℕ) (w : W)
      → Plenty lib
      → IsValid hm
      → All (λ c. (key_of c ≡ q) ⊎ Apart q (key_of c)) cs
      → (hm' : HashMap) × (w' : W) × (o : Option (Array ℕ)) × (run cs hm w ≡ ok hm' w')
        × IsValid hm'
        × (hash_map_get hm' q w' ≡ ok o w')
        × (listed u (elim o [ none ↦ [] | some a ↦ a.items ])
            ≡ recount q u cs (listed u (sockets hm q)))
  unfolding run
  run_refines [] hm q u w plenty valid keys =
      let found = find_entry q (entries_at hm q) in
      (hm, w, value_of found, refl, valid, hash_map_get_lem hm q w valid, value-listed found)
    where
      value-listed :
          (e : Option Entry)
          → listed u (elim (value_of e) [ none ↦ [] | some a ↦ a.items ]) ≡ listed u (sockets_of e)
      value-listed none = refl
      value-listed (some e) = refl
  run_refines (subscribe key v ∷ cs) hm q u w plenty valid (key_ok, keys) =
      let (hm₁, w₁, set, valid₁, counted) = set_count lib plenty hm key v w valid in
      let (hm', w', o, rest, valid', got, count) = run_refines cs hm₁ q u w₁ plenty valid₁ keys in
      (
        hm',
        w',
        o,
        rw set rest,
        valid',
        got,
        count ∙ ap (λ n. recount q u cs n) (counted q u key_ok),
      )
  run_refines (unsubscribe key v ∷ cs) hm q u w plenty valid (key_ok, keys) =
      let (b, hm₁, removed, valid₁, counted, _) = remove_count hm key v w valid in
      let (hm', w', o, rest, valid', got, count) = run_refines cs hm₁ q u w plenty valid₁ keys in
      (
        hm',
        w',
        o,
        rw removed rest,
        valid',
        got,
        count ∙ ap (λ n. recount q u cs n) (counted q u key_ok),
      )
