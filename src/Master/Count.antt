-- ===== src/Master/Count.antt =====
-- Counting the queue items of src/zm_master.cpp that are in a state.
use deconz.Prelude.{
  ℕ, zero, suc, ◌+◌, ◌<◌, ◌≡◌, ◌⊎◌, refl, Bool, true, false, List, [], ◌∷◌, arith, if◌then◌else◌,
  length, set, inl, inr,
}
use deconz.Master.{Item, qitem_init, wait_send, wait_confirm}
use deconz.Master.Items.{is_free, is_wait_send, is_wait_confirm, item_at}

abbrev pub one : Bool → ℕ
one b = if b then 1 else 0

abbrev pub tally : (Item → Bool) → List Item → ℕ
tally p [] = 0
tally p (x ∷ xs) = one (p x) + tally p xs

-- An item that is replaced.
pub tally-set :
    (p : Item → Bool) (xs : List Item) (i : ℕ) (v : Item)
    → i < length xs
    → tally p (set xs i v) + one (p (item_at xs i)) ≡ tally p xs + one (p v)
tally-set p [] i v h = absurd (omega arith)
tally-set p (x ∷ xs) zero v h = omega arith
tally-set p (x ∷ xs) (suc i) v h = omega (arith, tally-set p xs i v (omega arith))

-- An item that is there is counted.
pub tally_pos :
    (p : Item → Bool) (xs : List Item) (i : ℕ)
    → i < length xs
    → p (item_at xs i) ≡ true
    → 0 < tally p xs
tally_pos p [] i h e = absurd (omega arith)
tally_pos p (x ∷ xs) zero h e = rw e (omega arith)
tally_pos p (x ∷ xs) (suc i) h e = omega (arith, tally_pos p xs i (omega arith) e)

pub tally_none :
    (p : Item → Bool) (xs : List Item)
    → ((i : ℕ) → i < length xs → p (item_at xs i) ≡ false)
    → tally p xs ≡ 0
tally_none p [] h = refl
tally_none p (x ∷ xs) h =
    rw (h 0 (omega arith)) (omega (arith, tally_none p xs (λ i lt. h (suc i) (omega arith))))

-- Every item is in one of the three states.
pub tally_total :
    (xs : List Item)
    → tally is_free xs + (tally is_wait_send xs + tally is_wait_confirm xs) ≡ length xs
tally_total [] = omega arith
tally_total (x ∷ xs) = by_state x.state refl (tally_total xs)
  where
    by_state :
        (s : _)
        → x.state ≡ s
        → tally is_free xs + (tally is_wait_send xs + tally is_wait_confirm xs) ≡ length xs
        → tally is_free (x ∷ xs) + (tally is_wait_send (x ∷ xs) + tally is_wait_confirm (x ∷ xs))
          ≡ suc (length xs)
    by_state qitem_init e ih = rw e (omega (arith, ih))
    by_state wait_send e ih = rw e (omega (arith, ih))
    by_state wait_confirm e ih = rw e (omega (arith, ih))

-- A free item does not wait.
pub free_excludes :
    (it : Item) → is_free it ≡ true → (is_wait_send it ≡ false) × (is_wait_confirm it ≡ false)
free_excludes it h = by_state it.state refl
  where
    by_state : (s : _) → it.state ≡ s → (is_wait_send it ≡ false) × (is_wait_confirm it ≡ false)
    by_state qitem_init e = rw e (refl, refl)
    by_state wait_send e = let h' : false ≡ true = rw e at h in absurd (cc)
    by_state wait_confirm e = let h' : false ≡ true = rw e at h in absurd (cc)

-- To split on an item's state.
pub item_cases :
    (it : Item)
    → (is_free it ≡ true)
      ⊎ (((it.state ≡ wait_send)
            × (is_free it ≡ false)
            × (is_wait_send it ≡ true)
            × (is_wait_confirm it ≡ false))
          ⊎ ((it.state ≡ wait_confirm)
              × (is_free it ≡ false)
              × (is_wait_send it ≡ false)
              × (is_wait_confirm it ≡ true)))
item_cases it = by_state it.state refl
  where
    by_state :
        (s : _)
        → it.state ≡ s
        → (is_free it ≡ true)
          ⊎ (((it.state ≡ wait_send)
                × (is_free it ≡ false)
                × (is_wait_send it ≡ true)
                × (is_wait_confirm it ≡ false))
              ⊎ ((it.state ≡ wait_confirm)
                  × (is_free it ≡ false)
                  × (is_wait_send it ≡ false)
                  × (is_wait_confirm it ≡ true)))
    by_state qitem_init e = inl (rw e refl)
    by_state wait_send e = inr (inl (e, rw e refl, rw e refl, rw e refl))
    by_state wait_confirm e = inr (inr (e, rw e refl, rw e refl, rw e refl))
