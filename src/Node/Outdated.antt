-- ===== src/Node/Outdated.antt =====
-- src/zm_node.cpp: `removeOutdatedNeighbors`.
use deconz.Prelude.{
  count_of, count_of_same, one, leb, not, ◌&&◌, ℕ, zero, suc, ◌+◌, ◌≤◌, ◌≡◌, refl, ap, sym, subst,
  ◌∙◌, Bool, true, false, none, some, List, [], ◌∷◌, ◌++◌, map, append_assoc, arith, ltb, ◌==◌,
  eq_refl, if◌then◌else◌, Bool-cases, inl, inr, All, length,
}
use deconz.Node.Neighbors.{Neighbor, NodeNeighbor, Table, api_of, move_back, swap_remove}
use deconz.Node.Sync.{HasExt, occurs, InSync, occurs-move_back, move_back-HasExt, swap_remove-map}

-- The two tests of one neighbor. `limit` is the time given, in the milliseconds of the clock, and
-- `last_rsp` is `m_mgmtLqiLastRsp`.
unfoldable pub is_outdated : ℕ → ℕ → Neighbor → Bool
is_outdated limit last_rsp n = elim n.last_seen [
  | none ↦ true
  | some seen ↦ ltb (last_rsp + limit) seen
]

-- The loop on the neighbors from `i` on, with as many rounds as there are: a removed one is overwritten
-- with the last, and `i` stays.
unfoldable pub outdated_loop :
    ℕ → (Neighbor → Bool) → List Neighbor → List NodeNeighbor → List Neighbor × List NodeNeighbor
outdated_loop zero p ns api = (ns, api)
outdated_loop (suc rounds) p [] api = ([], api)
outdated_loop (suc rounds) p (n ∷ ns) api =
    let removed =
      outdated_loop rounds p (move_back ns)
        (swap_remove (λ x. x.address.ext == n.address.ext) api) in
    let (rest, api') = outdated_loop rounds p ns api in if p n then removed else (n ∷ rest, api')

-- `zmNode::removeOutdatedNeighbors`
unfoldable pub remove_outdated_neighbors : ℕ → ℕ → Table → Table
unfolding outdated_loop is_outdated
remove_outdated_neighbors limit last_rsp t =
    let (ns, api) =
      outdated_loop (length t.neighbors) (is_outdated limit last_rsp) t.neighbors t.neighbors_api in
    record { neighbors = ns; neighbors_api = api }

length-move_back : (xs : List Neighbor) → length (move_back xs) ≡ length xs
length-move_back [] = refl
length-move_back (x ∷ []) = refl
length-move_back (x ∷ y ∷ ys) = by_end (move_back (y ∷ ys)) (length-move_back (y ∷ ys))
  where
    by_end :
        (zs : List Neighbor)
        → length zs ≡ suc (length ys)
        → length (elim zs [ [] ↦ x ∷ [] | b ∷ bs ↦ b ∷ x ∷ bs ]) ≡ suc (suc (length ys))
    by_end [] h = absurd (omega arith)
    by_end (z ∷ zs) h = omega arith

occurs_both : (e : ℕ) (xs ys : List Neighbor) → occurs e (xs ++ ys) ≡ occurs e xs + occurs e ys
occurs_both e [] ys = omega arith
occurs_both e (x ∷ xs) ys = ground (arith, occurs_both e xs ys)

-- Behind neighbors with other addresses, the one to remove is found where the loop stands.
swap_remove-append :
    (kept : List Neighbor) (n : Neighbor) (ns : List Neighbor)
    → occurs n.address.ext kept ≡ 0
    → swap_remove (λ x. x.address.ext == n.address.ext) (kept ++ n ∷ ns) ≡ kept ++ move_back ns
swap_remove-append [] n ns h = rw (eq_refl n.address.ext) refl
swap_remove-append (k ∷ kept) n ns h = ground (arith, swap_remove-append kept n ns)

-- What the loop keeps: the lists agree, behind the neighbors that it has passed.
record Kept (p : Neighbor → Bool) (kept : List Neighbor) (r : List Neighbor × List NodeNeighbor)
    : Type 0 where
  pub exts : All HasExt r.0
  pub lists : r.1 ≡ map api_of (kept ++ r.0)
  pub once : (e : ℕ) → occurs e (kept ++ r.0) ≤ 1

loop-Kept :
    (rounds : ℕ) (p : Neighbor → Bool) (kept ns : List Neighbor)
    → length ns ≤ rounds
    → All HasExt ns
    → ((e : ℕ) → occurs e (kept ++ ns) ≤ 1)
    → Kept p kept (outdated_loop rounds p ns (map api_of (kept ++ ns)))
unfolding outdated_loop
loop-Kept zero p kept [] h v once = record { exts = tt; lists = refl; once = once }
loop-Kept zero p kept (n ∷ ns) h v once = absurd (omega arith)
loop-Kept (suc rounds) p kept [] h v once = record { exts = tt; lists = refl; once = once }
loop-Kept (suc rounds) p kept (n ∷ ns) h v once = elim (Bool-cases (p n)) [
  | inl old ↦
      let alone : occurs n.address.ext kept ≡ 0 = ground (
        arith,
        once n.address.ext,
        occurs_both n.address.ext kept (n ∷ ns),
        eq_refl n.address.ext,
      ) in
      let api : swap_remove (λ x. x.address.ext == n.address.ext) (map api_of (kept ++ n ∷ ns))
          ≡ map api_of (kept ++ move_back ns) =
        swap_remove-map n.address.ext (kept ++ n ∷ ns)
        ∙ ap (map api_of) (swap_remove-append kept n ns alone) in
      rw (old, api)
        (loop-Kept rounds p kept (move_back ns) (omega (arith, length-move_back ns))
          (move_back-HasExt ns v.1)
          (λ e. ground (
            arith,
            once e,
            occurs_both e kept (n ∷ ns),
            occurs_both e kept (move_back ns),
            occurs-move_back e ns,
          )))
  | inr young ↦
      let shift : (xs : List Neighbor) → kept ++ n ∷ xs ≡ (kept ++ n ∷ []) ++ xs =
        λ xs. sym (append_assoc kept (n ∷ []) xs) in
      let k =
        subst (λ l. Kept p (kept ++ n ∷ []) (outdated_loop rounds p ns (map api_of l)))
          (sym (shift ns))
          (loop-Kept rounds p (kept ++ n ∷ []) ns (omega arith) v.1
            (λ e. subst (λ l. occurs e l ≤ 1) (shift ns) (once e))) in
      let ns' = (outdated_loop rounds p ns (map api_of (kept ++ n ∷ ns))).0 in
      rw young (record {
        exts = (v.0, k.exts);
        lists = k.lists ∙ ap (map api_of) (sym (shift ns'));
        once = λ e. subst (λ l. occurs e l ≤ 1) (sym (shift ns')) (k.once e);
      })
]

count_of-move_back :
    (q : Neighbor → Bool) (xs : List Neighbor) → count_of q (move_back xs) ≡ count_of q xs
count_of-move_back q [] = refl
count_of-move_back q (x ∷ []) = refl
count_of-move_back q (x ∷ y ∷ ys) = by_end (move_back (y ∷ ys)) (count_of-move_back q (y ∷ ys))
  where
    by_end :
        (zs : List Neighbor)
        → count_of q zs ≡ count_of q (y ∷ ys)
        → count_of q (elim zs [ [] ↦ x ∷ [] | b ∷ bs ↦ b ∷ x ∷ bs ]) ≡ count_of q (x ∷ y ∷ ys)
    by_end [] h = omega arith
    by_end (z ∷ zs) h = omega arith

-- Of the neighbors the loop leaves those without `p`, each as often as it was there.
count_of-outdated_loop :
    (q : Neighbor → Bool) (rounds : ℕ) (p : Neighbor → Bool) (ns : List Neighbor)
    (api : List NodeNeighbor)
    → length ns ≤ rounds
    → count_of q (outdated_loop rounds p ns api).0 ≡ count_of (λ n. not (p n) && q n) ns
unfolding outdated_loop
count_of-outdated_loop q zero p [] api h = refl
count_of-outdated_loop q zero p (n ∷ ns) api h = absurd (omega arith)
count_of-outdated_loop q (suc rounds) p [] api h = refl
count_of-outdated_loop q (suc rounds) p (n ∷ ns) api h = elim (Bool-cases (p n)) [
  | inl old ↦ rw old (
      count_of-outdated_loop q rounds p (move_back ns)
        (swap_remove (λ x. x.address.ext == n.address.ext) api) (omega (arith, length-move_back ns))
      ∙ count_of-move_back (λ m. not (p m) && q m) ns
      ∙ omega arith)
  | inr young ↦
      rw young (ap (λ k. one (q n) + k) (count_of-outdated_loop q rounds p ns api (omega arith)))
]

-- The neighbor was seen, and no later than the given time after the last response.
abbrev pub is_in_time : ℕ → ℕ → Neighbor → Bool
is_in_time limit last_rsp n = elim n.last_seen [
  | none ↦ false
  | some seen ↦ leb seen (last_rsp + limit)
]

in_time :
    (limit last_rsp : ℕ) (n : Neighbor)
    → not (is_outdated limit last_rsp n) ≡ is_in_time limit last_rsp n
unfolding is_outdated
in_time limit last_rsp n = ground arith

-- Of the neighbors of a table that is in step with its public list, those are left, each as often as
-- it was there and no other, that have been seen, and no later than the given time behind the last
-- response: whatever test `q` they are counted by. The public list stays in step.
pub remove_outdated_neighbors_lem :
    (limit last_rsp : ℕ) (t : Table) (q : Neighbor → Bool)
    → InSync t
    → let t' = remove_outdated_neighbors limit last_rsp t in
      InSync t'
      × (count_of q t'.neighbors ≡ count_of (λ n. is_in_time limit last_rsp n && q n) t.neighbors)
unfolding remove_outdated_neighbors
remove_outdated_neighbors_lem limit last_rsp t q v =
    let p = is_outdated limit last_rsp in
    let k =
      subst (λ api. Kept p [] (outdated_loop (length t.neighbors) p t.neighbors api)) (sym v.lists)
        (loop-Kept (length t.neighbors) p [] t.neighbors (omega arith) v.exts v.once) in
    (
      record { exts = k.exts; lists = k.lists; once = k.once },
      count_of-outdated_loop q (length t.neighbors) p t.neighbors t.neighbors_api (omega arith)
          ∙ count_of_same (λ n. not (p n) && q n) (λ n. is_in_time limit last_rsp n && q n)
              t.neighbors (λ n. ap (λ b. b && q n) (in_time limit last_rsp n)),
    )
