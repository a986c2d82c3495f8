-- ===== src/Master/Ring.antt =====
-- src/zm_master.cpp: the ring of APS request ids, QAPS_Empty to QAPS_Pop, as a queue.
use deconz.Prelude.{
  ℕ, zero, suc, ◌+◌, ◌-◌, ◌%◌, ◌<◌, ◌≡◌, ◌≢◌, refl, ap, ap₂, ◌∙◌, Bool, true, false, List, [], ◌∷◌,
  ◌++◌, arith, length, length-set, get_or, set, get_or-set_self, get_or-set_ne, ◌==◌, if◌then◌else◌,
}
use deconz.Master.{ApsRing, max_aps_queue_items}

unfoldable pub qaps_empty : ApsRing → Bool
qaps_empty q = q.q_aps_wp == q.q_aps_rp

unfoldable pub qaps_full : ApsRing → Bool
qaps_full q = (q.q_aps_wp + 1) % max_aps_queue_items == q.q_aps_rp

-- The return value is whether there was room.
unfoldable pub qaps_push : ApsRing → ℕ → ApsRing × Bool
unfolding qaps_full
qaps_push q id = if qaps_full q then (q, false) else (
  record q {
    q_aps = set q.q_aps q.q_aps_wp (id % 65536);
    q_aps_wp = (q.q_aps_wp + 1) % max_aps_queue_items;
  },
  true,
)

-- UINT16_MAX stands for an empty ring.
unfoldable pub qaps_pop : ApsRing → ℕ × ApsRing
unfolding qaps_empty
qaps_pop q = if qaps_empty q then (65535, q) else (
  get_or q.q_aps q.q_aps_rp 0,
  record q { q_aps_rp = (q.q_aps_rp + 1) % max_aps_queue_items },
)

pub record IsRing (q : ApsRing) : Type 0 where
  pub size : length q.q_aps ≡ 16
  pub rp_in : q.q_aps_rp < 16
  pub wp_in : q.q_aps_wp < 16

abbrev pub ids_count : ApsRing → ℕ
ids_count q = (q.q_aps_wp + 16 - q.q_aps_rp) % 16

-- `n` ids from `i` on, going round.
abbrev ids_from : List ℕ → ℕ → ℕ → List ℕ
ids_from xs i zero = []
ids_from xs i (suc n) = get_or xs i 0 ∷ ids_from xs ((i + 1) % 16) n

-- The ids that wait, oldest first.
abbrev pub ids : ApsRing → List ℕ
ids q = ids_from q.q_aps q.q_aps_rp (ids_count q)

length-ids_from : (xs : List ℕ) (i n : ℕ) → length (ids_from xs i n) ≡ n
length-ids_from xs i zero = refl
length-ids_from xs i (suc n) = ap suc (length-ids_from xs ((i + 1) % 16) n)

pub length-ids : (q : ApsRing) → length (ids q) ≡ ids_count q
length-ids q = length-ids_from q.q_aps q.q_aps_rp (ids_count q)

ids_from-set :
    (xs : List ℕ) (v n i j : ℕ)
    → length xs ≡ 16
    → i < 16
    → n < 16
    → j ≡ (i + n) % 16
    → ids_from (set xs j v) i (suc n) ≡ ids_from xs i n ++ v ∷ []
ids_from-set xs v zero i j h hi hn e =
    let at : j ≡ i = omega arith in
    rw (at) (ap (λ x. x ∷ []) (get_or-set_self xs i v 0 (omega arith)))
ids_from-set xs v (suc n) i j h hi hn e =
    ap₂ ◌∷◌ (get_or-set_ne xs j i v 0 (omega arith))
      (ids_from-set xs v n ((i + 1) % 16) j h (omega arith) (omega arith) (omega arith))

ids_from_pos :
    (xs : List ℕ) (i n : ℕ)
    → n ≢ 0
    → ids_from xs i n ≡ get_or xs i 0 ∷ ids_from xs ((i + 1) % 16) (n - 1)
ids_from_pos xs i zero h = absurd (h refl)
ids_from_pos xs i (suc n) h = ap (λ k. ids_from xs i (suc k)) (omega arith)

-- The operations as those of a queue of ids.
abbrev pub IsRingQueue : ApsRing → ℕ → Type 0
IsRingQueue q id =
    (qaps_empty q ≡ (length (ids q) == 0))
    × (qaps_full q ≡ (length (ids q) == 15))
    × (qaps_full q ≡ true → qaps_push q id ≡ (q, false))
    × (qaps_full q ≡ false
        → (ids (qaps_push q id).0 ≡ ids q ++ id ∷ [])
          × IsRing (qaps_push q id).0
          × ((qaps_push q id).1 ≡ true))
    × (qaps_empty q ≡ true → qaps_pop q ≡ (65535, q))
    × (qaps_empty q ≡ false → (ids q ≡ (qaps_pop q).0 ∷ ids (qaps_pop q).1) × IsRing (qaps_pop q).1)

-- The ring is a queue of at most fifteen ids: it is reported empty and full exactly then, a push adds
-- the id behind the others if there is room and changes nothing else, and a pop takes the oldest, or
-- gives UINT16_MAX and changes nothing if there is none. Ids have 16 bits.
pub ring_is_queue : (q : ApsRing) (id : ℕ) → IsRing q → id < 65536 → IsRingQueue q id
unfolding qaps_empty qaps_full qaps_push qaps_pop
ring_is_queue q id v small = (
  ground (arith, length-ids q),
  ground (arith, length-ids q),
  λ full. rw full refl,
  λ room. (pushed room, ground (arith, length-set q.q_aps q.q_aps_wp (id % 65536)), rw room refl),
  λ none. rw none refl,
  λ more. (popped more, ground arith),
)
  where
    pushed :
        ((q.q_aps_wp + 1) % 16 == q.q_aps_rp) ≡ false → ids (qaps_push q id).0 ≡ ids q ++ id ∷ []
    pushed room =
        let few : ids_count q < 15 = ground arith in
        let small' : id % 65536 ≡ id = omega arith in
        let more : ((q.q_aps_wp + 1) % 16 + 16 - q.q_aps_rp) % 16 ≡ suc (ids_count q) =
          omega arith in
        rw (room, small', more)
          (ids_from-set q.q_aps id (ids_count q) q.q_aps_rp q.q_aps_wp v.size v.rp_in (omega arith)
            (omega arith))

    popped : (q.q_aps_wp == q.q_aps_rp) ≡ false → ids q ≡ (qaps_pop q).0 ∷ ids (qaps_pop q).1
    popped more =
        let some_left : ids_count q ≢ 0 = ground arith in
        let fewer : (q.q_aps_wp + 16 - (q.q_aps_rp + 1) % 16) % 16 ≡ ids_count q - 1 =
          ground arith in
        rw (more, fewer) (ids_from_pos q.q_aps q.q_aps_rp (ids_count q) some_left)

pub qaps_push-IsRing :
    (q : ApsRing) (id : ℕ) → IsRing q → qaps_full q ≡ false → IsRing (qaps_push q id).0
unfolding qaps_push qaps_full
qaps_push-IsRing q id v room = rw room (record {
  size = length-set q.q_aps q.q_aps_wp (id % 65536) ∙ v.size;
  rp_in = v.rp_in;
  wp_in = omega arith;
})
