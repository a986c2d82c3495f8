-- ===== src/Node/Sync.antt =====
-- src/zm_node.cpp: when the two neighbor lists of a node agree, and what assigning, appending and
-- removing do to this.
use deconz.Prelude.{
  ℕ, suc, ◌+◌, ◌-◌, ◌≤◌, ◌≡◌, refl, ap, ◌∙◌, true, false, none, List, [], ◌∷◌, ◌++◌, map, arith,
  ◌==◌, if◌then◌else◌, Bool-cases, inl, inr, All,
}
use deconz.Node.Neighbors.{Neighbor, Table, api_of, same, find, assign, move_back, swap_remove}

-- Every neighbor has an extended address.
abbrev pub HasExt : Neighbor → Type 0
HasExt n = n.address.has_ext ≡ true

-- How often an extended address is in a neighbor table.
abbrev pub occurs : ℕ → List Neighbor → ℕ
occurs e [] = 0
occurs e (x ∷ xs) = let rest = occurs e xs in if x.address.ext == e then suc rest else rest

-- The public list is the neighbor table, entry by entry, and no extended address is in it twice.
pub record InSync (t : Table) : Type 0 where
  pub exts : All HasExt t.neighbors
  pub lists : t.neighbors_api ≡ map api_of t.neighbors
  pub once : (e : ℕ) → occurs e t.neighbors ≤ 1

-- Assigning the entry that was found.
pub assign-map :
    (n : Neighbor) (xs : List Neighbor)
    → n.address.has_ext ≡ true
    → All HasExt xs
    → assign (λ x. x.address.ext == n.address.ext) (api_of n) (map api_of xs)
      ≡ map api_of (assign (λ x. same x n) n xs)
assign-map n [] h v = refl
assign-map n (x ∷ xs) h v = ground (arith, assign-map n xs h v.1)

pub assign-HasExt :
    (n : Neighbor) (xs : List Neighbor)
    → n.address.has_ext ≡ true
    → All HasExt xs
    → All HasExt (assign (λ x. same x n) n xs)
assign-HasExt n [] h v = tt
assign-HasExt n (x ∷ xs) h v = ground (arith, assign-HasExt n xs h v.1)

pub occurs-assign :
    (e : ℕ) (n : Neighbor) (xs : List Neighbor)
    → occurs e (assign (λ x. same x n) n xs) ≡ occurs e xs
occurs-assign e n [] = refl
occurs-assign e n (x ∷ xs) = ground (arith, occurs-assign e n xs)

-- Appending an entry.
pub append-map :
    (n : Neighbor) (xs : List Neighbor) → map api_of xs ++ api_of n ∷ [] ≡ map api_of (xs ++ n ∷ [])
append-map n [] = refl
append-map n (x ∷ xs) = ap (◌∷◌ (api_of x)) (append-map n xs)

pub occurs-append :
    (e : ℕ) (n : Neighbor) (xs : List Neighbor)
    → occurs e (xs ++ n ∷ []) ≡ occurs e xs + occurs e (n ∷ [])
occurs-append e n [] = ground arith
occurs-append e n (x ∷ xs) = ground (arith, occurs-append e n xs)

pub find-none :
    (n : Neighbor) (xs : List Neighbor)
    → n.address.has_ext ≡ true
    → All HasExt xs
    → find (λ x. same x n) xs ≡ none
    → occurs n.address.ext xs ≡ 0
find-none n [] h v e = refl
find-none n (x ∷ xs) h v e = ground (arith, find-none n xs h v.1)

-- Removing an entry and moving the last one to its place.
move_back-map : (xs : List Neighbor) → move_back (map api_of xs) ≡ map api_of (move_back xs)
move_back-map [] = refl
move_back-map (x ∷ []) = refl
move_back-map (x ∷ y ∷ ys) = rw (move_back-map (y ∷ ys)) (by_end (move_back (y ∷ ys)))
  where
    by_end :
        (zs : List Neighbor)
        → (elim (map api_of zs) [ [] ↦ api_of x ∷ [] | b ∷ bs ↦ b ∷ api_of x ∷ bs ])
          ≡ map api_of (elim zs [ [] ↦ x ∷ [] | b ∷ bs ↦ b ∷ x ∷ bs ])
    by_end [] = refl
    by_end (z ∷ zs) = refl

pub swap_remove-map :
    (ext : ℕ) (xs : List Neighbor)
    → swap_remove (λ x. x.address.ext == ext) (map api_of xs)
      ≡ map api_of (swap_remove (λ x. x.address.ext == ext) xs)
swap_remove-map ext [] = refl
swap_remove-map ext (x ∷ xs) = elim (Bool-cases (x.address.ext == ext)) [
  | inl e ↦ rw e (move_back-map xs)
  | inr e ↦ rw e (ap (◌∷◌ (api_of x)) (swap_remove-map ext xs))
]

abbrev end_first : Neighbor → List Neighbor → List Neighbor
end_first x zs = elim zs [ [] ↦ x ∷ [] | b ∷ bs ↦ b ∷ x ∷ bs ]

occurs-end_first :
    (e : ℕ) (x : Neighbor) (zs : List Neighbor) → occurs e (end_first x zs) ≡ occurs e (x ∷ zs)
occurs-end_first e x [] = refl
occurs-end_first e x (z ∷ zs) = ground arith

end_first-HasExt :
    (x : Neighbor) (zs : List Neighbor) → HasExt x → All HasExt zs → All HasExt (end_first x zs)
end_first-HasExt x [] h v = (h, tt)
end_first-HasExt x (z ∷ zs) h v = (v.0, (h, v.1))

pub occurs-move_back : (e : ℕ) (xs : List Neighbor) → occurs e (move_back xs) ≡ occurs e xs
occurs-move_back e [] = refl
occurs-move_back e (x ∷ []) = refl
occurs-move_back e (x ∷ y ∷ ys) =
    occurs-end_first e x (move_back (y ∷ ys))
    ∙ ap (λ k. if x.address.ext == e then suc k else k) (occurs-move_back e (y ∷ ys))

pub move_back-HasExt : (xs : List Neighbor) → All HasExt xs → All HasExt (move_back xs)
move_back-HasExt [] v = tt
move_back-HasExt (x ∷ []) v = v
move_back-HasExt (x ∷ y ∷ ys) v =
    end_first-HasExt x (move_back (y ∷ ys)) v.0 (move_back-HasExt (y ∷ ys) v.1)

pub swap_remove-HasExt :
    (ext : ℕ) (xs : List Neighbor)
    → All HasExt xs
    → All HasExt (swap_remove (λ x. x.address.ext == ext) xs)
swap_remove-HasExt ext [] v = tt
swap_remove-HasExt ext (x ∷ xs) v =
    ground (arith, move_back-HasExt xs v.1, swap_remove-HasExt ext xs v.1)

pub occurs-swap_remove :
    (e ext : ℕ) (xs : List Neighbor)
    → occurs e (swap_remove (λ x. x.address.ext == ext) xs)
      ≡ (if e == ext then occurs e xs - 1 else occurs e xs)
occurs-swap_remove e ext [] = ground arith
occurs-swap_remove e ext (x ∷ xs) = elim (Bool-cases (x.address.ext == ext)) [
  | inl found ↦ rw (found, occurs-move_back e xs) (found_first (occurs e xs) found)
  | inr other ↦ rw (other, occurs-swap_remove e ext xs) (found_later (occurs e xs) other)
]
  where
    found_first :
        (k : ℕ)
        → (x.address.ext == ext) ≡ true
        → k ≡ (
            if e == ext
            then (if x.address.ext == e then suc k else k) - 1
            else (if x.address.ext == e then suc k else k))
    found_first k h = ground arith

    found_later :
        (k : ℕ)
        → (x.address.ext == ext) ≡ false
        → (if x.address.ext == e
            then suc (if e == ext then k - 1 else k)
            else (if e == ext then k - 1 else k))
          ≡ (if e == ext
              then (if x.address.ext == e then suc k else k) - 1
              else (if x.address.ext == e then suc k else k))
    found_later k h = ground arith
