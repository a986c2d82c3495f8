-- ===== src/Master/Consistent.antt =====
-- src/zm_master.cpp: what holds of the queue between operations: 32 items, counters that count, and
-- no sequence number twice.
use deconz.Prelude.{
  ℕ, ◌+◌, ◌<◌, ◌≡◌, ◌⊎◌, sym, ◌∙◌, subst, true, false, List, arith, ◌==◌, length, length-set,
  get_or-set_self, get_or-set_ne, set, Bool-cases, inl, inr,
}
use deconz.Master.{Master, Item}
use deconz.Master.Items.{is_free, is_wait_send, is_wait_confirm, no_item, item_at, seq_used}
use deconz.Master.Count.{one, tally, tally-set}
use deconz.Master.Seqs.{seq_used-item_at}

abbrev pub IsDistinct : List Item → Type 0
IsDistinct items =
    (i j : ℕ)
    → i < length items
    → j < length items
    → is_free (item_at items i) ≡ false
    → is_free (item_at items j) ≡ false
    → (item_at items i).cmd.seq ≡ (item_at items j).cmd.seq
    → i ≡ j

pub record IsConsistent (m : Master) : Type 0 where
  pub size : length m.q_items ≡ 32
  pub sends : m.q_items_wait_send ≡ tally is_wait_send m.q_items
  pub confirms : m.q_items_wait_confirm ≡ tally is_wait_confirm m.q_items
  pub distinct : IsDistinct m.q_items
  pub byte : m.seq < 256

-- An item that may stand in the place of the item `i`: it is free, or has the number of an item in
-- use there, or an unused number.
abbrev pub Fits : List Item → ℕ → Item → Type 0
Fits items i v =
    (is_free v ≡ true)
    ⊎ (((is_free (item_at items i) ≡ false) × (v.cmd.seq ≡ (item_at items i).cmd.seq))
        ⊎ (seq_used items v.cmd.seq ≡ false))

-- The number of an item that fits, when another item has it.
number_taken_once :
    (items : List Item) (i j : ℕ) (v : Item)
    → IsDistinct items
    → Fits items i v
    → i < length items
    → j < length items
    → is_free v ≡ false
    → is_free (item_at items j) ≡ false
    → v.cmd.seq ≡ (item_at items j).cmd.seq
    → i ≡ j
number_taken_once items i j v h (inl e) hi hj used used' same = absurd (cc)
number_taken_once items i j v h (inr (inl e)) hi hj used used' same =
    h i j hi hj e.0 used' (sym e.1 ∙ same)
number_taken_once items i j v h (inr (inr e)) hi hj used used' same =
    let there : seq_used items (item_at items j).cmd.seq ≡ true =
      seq_used-item_at items j hj used' in
    absurd (cc)

pub distinct-set :
    (items : List Item) (i : ℕ) (v : Item)
    → IsDistinct items
    → Fits items i v
    → i < length items
    → IsDistinct (set items i v)
distinct-set items i v h fits hi a b ha hb ua ub same = elim (Bool-cases (i == a)) [
  | inl ea ↦ elim (Bool-cases (i == b)) [
    | inl eb ↦ ground arith
    | inr eb ↦
        fits_at a b (omega (arith, length-set items i v)) ua (ground arith)
          (get_or-set_ne items i b v no_item (ground arith)) ub same
          (omega (arith, length-set items i v))
  ]
  | inr ea ↦ elim (Bool-cases (i == b)) [
    | inl eb ↦ sym (
        fits_at b a (omega (arith, length-set items i v)) ub (ground arith)
          (get_or-set_ne items i a v no_item (ground arith)) ua (sym same)
          (omega (arith, length-set items i v)))
    | inr eb ↦
        both (get_or-set_ne items i a v no_item (ground arith))
          (get_or-set_ne items i b v no_item (ground arith))
  ]
]
  where
    fits_at :
        (x y : ℕ)
        → x < length items
        → is_free (item_at (set items i v) x) ≡ false
        → i ≡ x
        → item_at (set items i v) y ≡ item_at items y
        → is_free (item_at (set items i v) y) ≡ false
        → (item_at (set items i v) x).cmd.seq ≡ (item_at (set items i v) y).cmd.seq
        → y < length items
        → x ≡ y
    fits_at x y hx ux e keep uy s hy =
        let mine : item_at (set items i v) x ≡ v =
          subst (λ k. item_at (set items i v) k ≡ v) e (get_or-set_self items i v no_item hi) in
        let used : is_free v ≡ false = rw mine at ux in
        let used' : is_free (item_at items y) ≡ false = rw keep at uy in
        let s' : v.cmd.seq ≡ (item_at items y).cmd.seq = rw (mine, keep) at s in
        sym e ∙ number_taken_once items i y v h fits hi hy used used' s'

    both :
        item_at (set items i v) a ≡ item_at items a
        → item_at (set items i v) b ≡ item_at items b
        → a ≡ b
    both ka kb =
        let ua' : is_free (item_at items a) ≡ false = rw ka at ua in
        let ub' : is_free (item_at items b) ≡ false = rw kb at ub in
        let s' : (item_at items a).cmd.seq ≡ (item_at items b).cmd.seq = rw (ka, kb) at same in
        h a b (omega (arith, length-set items i v)) (omega (arith, length-set items i v)) ua' ub' s'

-- A step that replaces one item and keeps the counters right.
pub consistent_put :
    (m m' : Master) (i : ℕ) (v : Item)
    → IsConsistent m
    → i < 32
    → m'.q_items ≡ set m.q_items i v
    → Fits m.q_items i v
    → m'.q_items_wait_send + one (is_wait_send (item_at m.q_items i))
      ≡ m.q_items_wait_send + one (is_wait_send v)
    → m'.q_items_wait_confirm + one (is_wait_confirm (item_at m.q_items i))
      ≡ m.q_items_wait_confirm + one (is_wait_confirm v)
    → m'.seq < 256
    → IsConsistent m'
consistent_put m m' i v c hi e fits ws wc s = record {
  size = rw e (length-set m.q_items i v ∙ c.size);
  sends =
      rw e (omega (arith, tally-set is_wait_send m.q_items i v (omega (arith, c.size)), c.sends));
  confirms =
      rw e (
        omega (arith, tally-set is_wait_confirm m.q_items i v (omega (arith, c.size)), c.confirms));
  distinct = rw e (distinct-set m.q_items i v c.distinct fits (omega (arith, c.size)));
  byte = s;
}

-- A step that changes nothing that counts.
pub consistent_same :
    (m m' : Master)
    → IsConsistent m
    → m'.q_items ≡ m.q_items
    → m'.q_items_wait_send ≡ m.q_items_wait_send
    → m'.q_items_wait_confirm ≡ m.q_items_wait_confirm
    → m'.seq ≡ m.seq
    → IsConsistent m'
consistent_same m m' c items ws wc s = record {
  size = rw items c.size;
  sends = rw items (ws ∙ c.sends);
  confirms = rw items (wc ∙ c.confirms);
  distinct = rw items c.distinct;
  byte = rw s c.byte;
}
