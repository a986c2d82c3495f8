-- ===== src/Master/Seqs.antt =====
-- src/zm_master.cpp: the sequence numbers that `QItem_NextSeq` gives.
use deconz.Prelude.{
  ℕ, zero, suc, ◌+◌, ◌%◌, ◌≤◌, ◌<◌, ◌≡◌, ◌≢◌, refl, true, false, List, [], ◌∷◌, arith, ◌==◌, length,
  Bool-cases, eq_refl, inl, inr,
}
use deconz.Master.{Item, qitem_init, wait_send, wait_confirm}
use deconz.Master.Items.{is_free, is_wait_send, is_wait_confirm, item_at, seq_used, next_unused}
use deconz.Master.Count.{one, tally}

-- How many of the `n` sequence numbers from `s` on an item with the number `q` has.
abbrev hits_one : ℕ → ℕ → ℕ → ℕ
hits_one zero q s = 0
hits_one (suc n) q s = one (q == s) + hits_one n q ((s + 1) % 256)

hits_one_none : (n q s : ℕ) → s < 256 → ((k : ℕ) → k < n → q ≢ (s + k) % 256) → hits_one n q s ≡ 0
hits_one_none zero q s hs h = refl
hits_one_none (suc n) q s hs h =
    let here : q ≢ (s + 0) % 256 = h 0 (omega arith) in
    let rest : hits_one n q ((s + 1) % 256) ≡ 0 =
      hits_one_none n q ((s + 1) % 256) (omega arith)
        (λ k lt e. h (suc k) (omega arith) (omega arith)) in
    ground arith

hits_one_le : (n q s : ℕ) → s < 256 → n ≤ 256 → hits_one n q s ≤ 1
hits_one_le zero q s hs hn = omega arith
hits_one_le (suc n) q s hs hn = elim (Bool-cases (q == s)) [
  | inl e ↦
      let same : q ≡ s = ground arith in
      let rest : hits_one n q ((s + 1) % 256) ≡ 0 =
        hits_one_none n q ((s + 1) % 256) (omega arith) (λ k lt e'. omega arith) in
      rw (e, rest) (omega arith)
  | inr e ↦ rw e (omega (arith, hits_one_le n q ((s + 1) % 256) (omega arith) (omega arith)))
]

-- How many of the `n` numbers from `s` on are used.
abbrev hits : ℕ → List Item → ℕ → ℕ
hits zero items s = 0
hits (suc n) items s = one (seq_used items s) + hits n items ((s + 1) % 256)

hits_nil : (n s : ℕ) → hits n [] s ≡ 0
hits_nil zero s = refl
hits_nil (suc n) s = omega (arith, hits_nil n ((s + 1) % 256))

hits_cons :
    (n : ℕ) (it : Item) (items : List Item) (s : ℕ)
    → hits n (it ∷ items) s ≤ hits_one n it.cmd.seq s + hits n items s
hits_cons zero it items s = omega arith
hits_cons (suc n) it items s = ground (arith, hits_cons n it items ((s + 1) % 256))

hits_le : (n : ℕ) (items : List Item) (s : ℕ) → s < 256 → n ≤ 256 → hits n items s ≤ length items
hits_le n [] s hs hn = omega (arith, hits_nil n s)
hits_le n (it ∷ items) s hs hn =
    omega (arith, hits_cons n it items s, hits_one_le n it.cmd.seq s hs hn, hits_le n items s hs hn)

next_unused_all :
    (n : ℕ) (items : List Item) (s : ℕ)
    → seq_used items (next_unused n items s) ≡ true
    → hits n items s ≡ n
unfolding next_unused
next_unused_all zero items s h = refl
next_unused_all (suc n) items s h = elim (Bool-cases (seq_used items s)) [
  | inl e ↦
      let later : seq_used items (next_unused n items ((s + 1) % 256)) ≡ true = rw e at h in
      rw e (omega (arith, next_unused_all n items ((s + 1) % 256) later))
  | inr e ↦ absurd (cc)
]

pub next_unused_byte : (n : ℕ) (items : List Item) (s : ℕ) → s < 256 → next_unused n items s < 256
unfolding next_unused
next_unused_byte zero items s h = h
next_unused_byte (suc n) items s h =
    ground (arith, next_unused_byte n items ((s + 1) % 256) (omega arith))

-- Thirty-three numbers are enough: the queue cannot use them all.
pub next_unused_unused :
    (items : List Item) (s : ℕ)
    → length items ≤ 32
    → s < 256
    → seq_used items (next_unused 33 items s) ≡ false
next_unused_unused items s small hs = elim (Bool-cases (seq_used items (next_unused 33 items s))) [
  | inl e ↦
      absurd (omega (arith, next_unused_all 33 items s e, hits_le 33 items s hs (omega arith)))
  | inr e ↦ e
]

-- A queue without waiting items uses no number.
pub seq_used_none :
    (items : List Item) (s : ℕ)
    → tally is_wait_send items ≡ 0
    → tally is_wait_confirm items ≡ 0
    → seq_used items s ≡ false
seq_used_none [] s ws wc = refl
seq_used_none (it ∷ items) s ws wc =
    by_state it.state refl (seq_used_none items s (omega arith) (omega arith))
  where
    by_state : (st : _) → it.state ≡ st → seq_used items s ≡ false → seq_used (it ∷ items) s ≡ false
    by_state qitem_init e ih = rw e ih
    by_state wait_send e ih =
        let here : 1 + tally is_wait_send items ≡ 0 = rw e at ws in absurd (omega arith)
    by_state wait_confirm e ih =
        let here : 1 + tally is_wait_confirm items ≡ 0 = rw e at wc in absurd (omega arith)

-- An item in use has a used number.
pub seq_used-item_at :
    (items : List Item) (i : ℕ)
    → i < length items
    → is_free (item_at items i) ≡ false
    → seq_used items (item_at items i).cmd.seq ≡ true
seq_used-item_at [] i lt e = absurd (omega arith)
seq_used-item_at (it ∷ items) zero lt e = rw (e, eq_refl it.cmd.seq) refl
seq_used-item_at (it ∷ items) (suc i) lt e =
    ground (arith, seq_used-item_at items i (omega arith) e)
