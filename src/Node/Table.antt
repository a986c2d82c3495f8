-- ===== src/Node/Table.antt =====
-- src/zm_node.cpp: the neighbor table under `updateNeighbor`, `removeNeighbor` and `reset`.
use deconz.Prelude.{
  ◌≡◌, ◌≢◌, refl, ap, ◌∙◌, true, not, ◌&&◌, ◌||◌, Option, none, some, List, [], ◌∷◌, ◌++◌, arith,
  ◌==◌, eq_refl, Bool-cases, Option-cases, inl, inr, All, All-append,
}
use deconz.Node.Neighbors.{
  Address, Neighbor, Table, same, find, assign, swap_remove, update_neighbor, get_neighbor,
  remove_neighbor, reset_neighbors, Change, updates, removes, change_all,
}
use deconz.Node.Sync.{
  HasExt, occurs, InSync, assign-map, assign-HasExt, occurs-assign, append-map, occurs-append,
  find-none, swap_remove-map, swap_remove-HasExt, occurs-swap_remove,
}

update-InSync : (t : Table) (n : Neighbor) → InSync t → InSync (update_neighbor t n).0
unfolding update_neighbor
update-InSync t n v = elim (Bool-cases (not n.address.has_nwk || not n.address.has_ext)) [
  | inl bad ↦ rw bad v
  | inr good ↦
      let h : n.address.has_ext ≡ true = ground arith in
      elim (Option-cases (find (λ x. same x n) t.neighbors)) [
        | inl new ↦
            let unknown = find-none n t.neighbors h v.exts new in
            rw (good, new)
              (record {
                exts = All-append HasExt t.neighbors (n ∷ []) v.exts (h, tt);
                lists = rw v.lists (append-map n t.neighbors);
                once = λ e. ground (arith, occurs-append e n t.neighbors, v.once e, unknown);
              })
        | inr (old, known) ↦
            rw (good, known)
              (record {
                exts = assign-HasExt n t.neighbors h v.exts;
                lists = rw v.lists (assign-map n t.neighbors h v.exts);
                once = λ e. rw (occurs-assign e n t.neighbors) (v.once e);
              })
      ]
]

remove-InSync : (t : Table) (a : Address) → InSync t → InSync (remove_neighbor t a)
unfolding remove_neighbor
remove-InSync t a v = record {
  exts = swap_remove-HasExt a.ext t.neighbors v.exts;
  lists = rw v.lists (swap_remove-map a.ext t.neighbors);
  once = λ e. ground (arith, occurs-swap_remove e a.ext t.neighbors, v.once e);
}

-- Any sequence of updates and removals keeps the public list the same, entry by entry, as the
-- neighbor table, and no extended address is in the table twice.
pub change_all-InSync : (t : Table) (cs : List Change) → InSync t → InSync (change_all t cs)
unfolding change_all
change_all-InSync t [] v = v
change_all-InSync t (updates n ∷ cs) v =
    change_all-InSync (update_neighbor t n).0 cs (update-InSync t n v)
change_all-InSync t (removes a ∷ cs) v =
    change_all-InSync (remove_neighbor t a) cs (remove-InSync t a v)

find-occurs :
    (a : Address) (xs : List Neighbor)
    → occurs a.ext xs ≡ 0
    → find (λ x. a.has_ext && (x.address.ext == a.ext)) xs ≡ none
find-occurs a [] h = refl
find-occurs a (x ∷ xs) h = ground (arith, find-occurs a xs)

find-assign :
    (n : Neighbor) (xs : List Neighbor)
    → n.address.has_ext ≡ true
    → All HasExt xs
    → find (λ x. same x n) xs ≢ none
    → find
        (λ x. n.address.has_ext && (x.address.ext == n.address.ext))
        (assign (λ x. same x n) n xs)
      ≡ some n
find-assign n [] h v some_found = absurd (some_found refl)
find-assign n (x ∷ xs) h v some_found = elim (Bool-cases (same x n)) [
  | inl found ↦ rw found (ground (arith, eq_refl n.address.ext))
  | inr other ↦
      let later : find (λ y. same y n) xs ≢ none = rw other at some_found in
      rw other (ground (arith, find-assign n xs h v.1 later))
]

find-append :
    (n : Neighbor) (xs : List Neighbor)
    → n.address.has_ext ≡ true
    → All HasExt xs
    → find (λ x. same x n) xs ≡ none
    → find (λ x. n.address.has_ext && (x.address.ext == n.address.ext)) (xs ++ n ∷ []) ≡ some n
find-append n [] h v new = ground (arith, eq_refl n.address.ext)
find-append n (x ∷ xs) h v new = ground (arith, find-append n xs h v.1)

update_new :
    (t : Table) (n : Neighbor)
    → n.address.has_nwk ≡ true
    → n.address.has_ext ≡ true
    → find (λ x. same x n) t.neighbors ≡ none
    → (update_neighbor t n).0.neighbors ≡ t.neighbors ++ n ∷ []
unfolding update_neighbor
update_new t n hn he new = ground (arith, hn, he, new)

update_known :
    (t : Table) (n old : Neighbor)
    → n.address.has_nwk ≡ true
    → n.address.has_ext ≡ true
    → find (λ x. same x n) t.neighbors ≡ some old
    → (update_neighbor t n).0.neighbors ≡ assign (λ x. same x n) n t.neighbors
unfolding update_neighbor
update_known t n old hn he known = ground (arith, hn, he, known)

-- A neighbor with both addresses is found by its address after an update, as it was given, and is
-- not found after its removal.
pub get_neighbor-update :
    (t : Table) (n : Neighbor)
    → InSync t
    → n.address.has_nwk ≡ true
    → n.address.has_ext ≡ true
    → (get_neighbor (update_neighbor t n).0 n.address ≡ some n)
      × (get_neighbor (remove_neighbor (update_neighbor t n).0 n.address) n.address ≡ none)
unfolding get_neighbor remove_neighbor
get_neighbor-update t n v hn he =
    let w = update-InSync t n v in
    let t' = (update_neighbor t n).0 in
    (
      found,
      find-occurs n.address (swap_remove (λ x. x.address.ext == n.address.ext) t'.neighbors) (
          occurs-swap_remove n.address.ext n.address.ext t'.neighbors
          ∙ ground (arith, w.once n.address.ext)),
    )
  where
    look : List Neighbor → Option Neighbor
    look = find (λ x. n.address.has_ext && (x.address.ext == n.address.ext))

    found : look (update_neighbor t n).0.neighbors ≡ some n
    found = elim (Option-cases (find (λ x. same x n) t.neighbors)) [
      | inl new ↦ ap look (update_new t n hn he new) ∙ find-append n t.neighbors he v.exts new
      | inr (old, known) ↦
          ap look (update_known t n old hn he known)
          ∙ find-assign n t.neighbors he v.exts (λ none_found. cc)
    ]

-- `reset` forgets the neighbors and keeps the public list, so that the two no longer agree.
pub reset_neighbors_differs :
    (t : Table) → InSync t → t.neighbors ≢ [] → ¬ InSync (reset_neighbors t)
unfolding reset_neighbors
reset_neighbors_differs t v full w = by_list t.neighbors refl
  where
    by_list : (ns : List Neighbor) → t.neighbors ≡ ns → ⊥
    by_list [] e = full e
    by_list (n ∷ ns) e = cc (v.lists, w.lists, e)
