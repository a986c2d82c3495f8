-- ===== src/Node/Neighbors.antt =====
-- src/zm_node.cpp and zm_neighbor.h: the neighbor table of a node, and the list of the public API
-- that is kept beside it. What the code uses of the class Address is a record.
use deconz.Prelude.{
  ℕ, Bool, true, false, not, ◌&&◌, ◌||◌, Option, none, some, List, [], ◌∷◌, ◌++◌, ◌==◌,
  if◌then◌else◌,
}

pub record Address : Type 0 where
  pub has_ext : Bool
  pub ext : ℕ
  pub has_nwk : Bool
  pub nwk : ℕ

-- `zmNeighbor`; `last_seen` is none where the time is not valid, and `rest` holds the fields that the
-- node only copies.
pub record Neighbor : Type 0 where
  pub address : Address
  pub lqi : ℕ
  pub last_seen : Option ℕ
  pub rest : ℕ

pub record NodeNeighbor : Type 0 where
  pub address : Address
  pub lqi : ℕ

-- `m_neighbors` and `m_neighborsApi`
pub record Table : Type 0 where
  pub neighbors : List Neighbor
  pub neighbors_api : List NodeNeighbor

abbrev pub api_of : Neighbor → NodeNeighbor
api_of n = record { address = n.address; lqi = n.lqi }

-- `zmNeighbor::operator==`
abbrev pub same : Neighbor → Neighbor → Bool
same a b = b.address.has_ext && (a.address.has_ext && (b.address.ext == a.address.ext))

module _ {ℓ} {A : Type ℓ} where
  -- `std::find_if`
  abbrev pub find : (A → Bool) → List A → Option A
  find p [] = none
  find p (x ∷ xs) = let later = find p xs in if p x then some x else later

  -- The first element that `p` finds is assigned.
  abbrev pub assign : (A → Bool) → A → List A → List A
  assign p v [] = []
  assign p v (x ∷ xs) = let rest = assign p v xs in if p x then v ∷ xs else x ∷ rest

  -- `back` moved to the place of a removed element `x` that had `xs` behind it.
  abbrev pub move_back : List A → List A
  move_back [] = []
  move_back (x ∷ []) = x ∷ []
  move_back (x ∷ y ∷ ys) = elim (move_back (y ∷ ys)) [ [] ↦ x ∷ [] | b ∷ bs ↦ b ∷ x ∷ bs ]

  -- The first element that `p` finds is overwritten with the last, and the last is popped.
  abbrev pub swap_remove : (A → Bool) → List A → List A
  swap_remove p [] = []
  swap_remove p (x ∷ xs) = let rest = swap_remove p xs in if p x then move_back xs else x ∷ rest

-- `zmNode::updateNeighbor`
unfoldable pub update_neighbor : Table → Neighbor → Table × Bool
update_neighbor t n =
    if not n.address.has_nwk || not n.address.has_ext
    then (t, false)
    else elim (find (λ x. same x n) t.neighbors) [
      | some _ ↦ (
        record {
          neighbors = assign (λ x. same x n) n t.neighbors;
          neighbors_api = assign (λ x. x.address.ext == n.address.ext) (api_of n) t.neighbors_api;
        },
        true,
      )
      | none ↦ (
        record {
          neighbors = t.neighbors ++ n ∷ [];
          neighbors_api = t.neighbors_api ++ api_of n ∷ [];
        },
        true,
      )
    ]

-- `zmNode::getNeighbor` with a pointer for a result
unfoldable pub get_neighbor : Table → Address → Option Neighbor
get_neighbor t a = find (λ x. a.has_ext && (x.address.ext == a.ext)) t.neighbors

-- `zmNode::getNeighbor` with an output argument compares with a new zmNeighbor of that address.
unfoldable pub copy_neighbor : Table → Neighbor → Address → Option Neighbor
copy_neighbor t fresh a = find (λ x. same x (record fresh { address = a })) t.neighbors

-- `zmNode::removeNeighbor`
unfoldable pub remove_neighbor : Table → Address → Table
remove_neighbor t a = record {
  neighbors = swap_remove (λ x. x.address.ext == a.ext) t.neighbors;
  neighbors_api = swap_remove (λ x. x.address.ext == a.ext) t.neighbors_api;
}

-- The part of `zmNode::reset` that is about neighbors.
unfoldable pub reset_neighbors : Table → Table
reset_neighbors t = record t { neighbors = [] }

-- A call that changes the tables.
pub data Change : Type 0 where
  updates : Neighbor → Change
  removes : Address → Change

unfoldable pub change_all : Table → List Change → Table
change_all t [] = t
change_all t (updates n ∷ cs) = change_all (update_neighbor t n).0 cs
change_all t (removes a ∷ cs) = change_all (remove_neighbor t a) cs
