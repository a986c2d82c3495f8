-- ===== src/Node/Depend.antt =====
-- src/zm_node.cpp: the dependencies between fetch items, `addDependency` and `removeDependency`.
use deconz.Prelude.{
  ℕ, zero, suc, ◌-◌, ◌^◌, ◌%◌, ◌<◌, ◌≡◌, refl, Bool, true, false, not, ◌&&◌, arith, bit_and, bit_or,
  lt→ltb, ◌==◌, inl, inr, Bool-cases,
}
use deconz.Node.{RequestIds, FetchInfo, is_enabled, add_dependency, remove_dependency}

-- A test of every number below `n`.
unfoldable pub all_below : ℕ → (ℕ → Bool) → Bool
all_below zero p = true
all_below (suc n) p = p n && all_below n p

pub all_below-at : (n : ℕ) (p : ℕ → Bool) (k : ℕ) → all_below n p ≡ true → k < n → p k ≡ true
unfolding all_below
all_below-at zero p k h lt = absurd (omega arith)
all_below-at (suc n) p k h lt = elim (Bool-cases (k == n)) [
  | inl e ↦ ground (arith, all_below-at n p k)
  | inr e ↦ all_below-at n p k (ground arith) (ground arith)
]

-- The mask of `removeDependency` for an id against the bit of `addDependency`.
abbrev bit_stays : ℕ → Bool
bit_stays k = not (bit_and (bit_or 0 (2 ^ k % 2 ^ 32)) (2 ^ 32 - 1 - k % 2 ^ 32) == 0)

every_bit_stays : all_below 32 bit_stays ≡ true
unfolding all_below
every_bit_stays = refl

-- An item that waits for another one only is not released when that one is removed from its
-- dependencies, whichever it is.
pub remove-add_dependency :
    (ids : RequestIds) (fi : FetchInfo) (k : ℕ)
    → k < ids.req_max_items
    → k < 32
    → fi.depend ≡ 0
    → is_enabled (remove_dependency ids (add_dependency ids fi k) k) ≡ false
unfolding is_enabled remove_dependency add_dependency
remove-add_dependency ids fi k known small none =
    rw (lt→ltb _ _ known, none) (ground (arith, all_below-at 32 bit_stays k every_bit_stays small))
