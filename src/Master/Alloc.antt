-- ===== src/Master/Alloc.antt =====
-- src/zm_master.cpp: what `QItem_Alloc` finds.
use deconz.Prelude.{
  ℕ, zero, suc, ◌+◌, ◌-◌, ◌%◌, ◌<◌, ◌≡◌, ◌⊎◌, refl, sym, ap, subst, true, false, none, some, arith,
  ◌==◌, get_or-set_self, set, Bool-cases, Option-cases, inl, inr,
}
use deconz.Master.{Master}
use deconz.Master.Items.{
  is_free, is_wait_send, is_wait_confirm, inc, no_item, item_at, init_item, seq_used,
  qitem_next_seq, prepare, alloc_rounds, qitem_alloc,
}
use deconz.Master.Count.{tally, tally_none, free_excludes, tally_total}
use deconz.Master.Seqs.{next_unused_unused, next_unused_byte, seq_used_none}
use deconz.Master.Consistent.{IsConsistent, consistent_put}

pub qitem_next_seq_unused :
    (m : Master)
    → IsConsistent m
    → (seq_used m.q_items (qitem_next_seq m) ≡ false) × (qitem_next_seq m < 256)
unfolding qitem_next_seq
qitem_next_seq_unused m c =
    elim (Bool-cases ((m.q_items_wait_send + m.q_items_wait_confirm) % 4294967296 == 0)) [
      | inl e ↦
          rw e (seq_used_none m.q_items ((m.seq + 1) % 256) (sends e) (confirms e), omega arith)
      | inr e ↦ rw e (
        next_unused_unused m.q_items ((m.seq + 1) % 256) (omega (arith, c.size)) (omega arith),
        next_unused_byte 33 m.q_items ((m.seq + 1) % 256) (omega arith),
      )
    ]
  where
    sends :
        ((m.q_items_wait_send + m.q_items_wait_confirm) % 4294967296 == 0) ≡ true
        → tally is_wait_send m.q_items ≡ 0
    sends e = ground (arith, c.sends, c.confirms, c.size, tally_total m.q_items)

    confirms :
        ((m.q_items_wait_send + m.q_items_wait_confirm) % 4294967296 == 0) ≡ true
        → tally is_wait_confirm m.q_items ≡ 0
    confirms e = ground (arith, c.sends, c.confirms, c.size, tally_total m.q_items)

-- `m'` is `m` with another write position.
abbrev pub Moved : Master → Master → Type 0
Moved m m' = m' ≡ record m { q_item_wp = m'.q_item_wp }

-- What the loop did that found the item `i`.
record IsFound (m m' : Master) (i : ℕ) : Type 0 where
  wp : ℕ
  at_wp : wp % 32 ≡ i
  was_free : is_free (item_at m.q_items i) ≡ true
  prepared : m' ≡ prepare (record m { q_item_wp = wp }) i

alloc_rounds-IsFound :
    (n : ℕ) (m : Master) (i : ℕ) → (alloc_rounds n m).0 ≡ some i → IsFound m (alloc_rounds n m).1 i
unfolding alloc_rounds
alloc_rounds-IsFound zero m i e = absurd (cc)
alloc_rounds-IsFound (suc n) m i e =
    elim (Bool-cases (is_free (item_at m.q_items (m.q_item_wp % 32)))) [
      | inl free ↦
          let e' : some (m.q_item_wp % 32) ≡ some i = rw free at e in
          let same : m.q_item_wp % 32 ≡ i = cc in
          rw free (record {
            wp = m.q_item_wp;
            at_wp = same;
            was_free = subst (λ k. is_free (item_at m.q_items k) ≡ true) same free;
            prepared = ap (prepare m) same;
          })
      | inr used ↦
          let e' : (alloc_rounds n (record m { q_item_wp = inc m.q_item_wp })).0 ≡ some i =
            rw used at e in
          let f = alloc_rounds-IsFound n (record m { q_item_wp = inc m.q_item_wp }) i e' in
          rw used
            (record { wp = f.wp; at_wp = f.at_wp; was_free = f.was_free; prepared = f.prepared })
    ]

alloc_failed :
    (n : ℕ) (m : Master)
    → (alloc_rounds n m).0 ≡ none
    → ((k : ℕ) → k < n → is_free (item_at m.q_items ((m.q_item_wp + k) % 32)) ≡ false)
      × Moved m (alloc_rounds n m).1
unfolding alloc_rounds
alloc_failed zero m e = ((λ k lt. absurd (omega arith)), refl)
alloc_failed (suc n) m e = elim (Bool-cases (is_free (item_at m.q_items (m.q_item_wp % 32)))) [
  | inl free ↦ let e' : some (m.q_item_wp % 32) ≡ none = rw free at e in absurd (cc)
  | inr used ↦
      let e' : (alloc_rounds n (record m { q_item_wp = inc m.q_item_wp })).0 ≡ none =
        rw used at e in
      let (later, moved) = alloc_failed n (record m { q_item_wp = inc m.q_item_wp }) e' in
      rw used (each used later, moved)
]
  where
    each :
        is_free (item_at m.q_items (m.q_item_wp % 32)) ≡ false
        → ((k : ℕ) → k < n → is_free (item_at m.q_items ((inc m.q_item_wp + k) % 32)) ≡ false)
        → (k : ℕ) → k < suc n
        → is_free (item_at m.q_items ((m.q_item_wp + k) % 32)) ≡ false
    each used later zero lt = subst (λ k. is_free (item_at m.q_items k) ≡ false) (omega arith) used
    each used later (suc k) lt =
        subst (λ k. is_free (item_at m.q_items k) ≡ false) (omega arith) (later k (omega arith))

-- What an allocation gives: the free item at the write position, empty and with a number that no
-- item in use has. The counters stay, and so does everything but the position and the number.
pub record IsAllocated (m m' : Master) (i : ℕ) : Type 0 where
  pub index : i < 32
  pub at_wp : m'.q_item_wp % 32 ≡ i
  pub was_free : is_free (item_at m.q_items i) ≡ true
  pub is_empty : item_at m'.q_items i ≡ (
      let it = init_item (item_at m.q_items i) in
      record it { cmd = record it.cmd { seq = m'.seq } })
  pub items : m'.q_items ≡ set m.q_items i (item_at m'.q_items i)
  pub fresh : seq_used m.q_items m'.seq ≡ false
  pub byte : m'.seq < 256
  pub rest : m' ≡ record m { seq = m'.seq; q_items = m'.q_items; q_item_wp = m'.q_item_wp }

pub consistent_moved :
    (m : Master) (wp : ℕ) → IsConsistent m → IsConsistent (record m { q_item_wp = wp })
consistent_moved m wp c = record {
  size = c.size;
  sends = c.sends;
  confirms = c.confirms;
  distinct = c.distinct;
  byte = c.byte;
}

found→allocated : (m m' : Master) (i : ℕ) → IsConsistent m → IsFound m m' i → IsAllocated m m' i
unfolding prepare
found→allocated m m' i c f =
    subst (λ x. IsAllocated m x i) (sym f.prepared)
      (record {
        index = omega (arith, f.at_wp);
        at_wp = f.at_wp;
        was_free = f.was_free;
        is_empty = there;
        items = ap (set m.q_items i) (sym there);
        fresh = new.0;
        byte = new.1;
        rest = refl;
      })
  where
    new :
        (seq_used m.q_items (prepare (record m { q_item_wp = f.wp }) i).seq ≡ false)
        × ((prepare (record m { q_item_wp = f.wp }) i).seq < 256)
    new = qitem_next_seq_unused (record m { q_item_wp = f.wp }) (consistent_moved m f.wp c)

    there : item_at (prepare (record m { q_item_wp = f.wp }) i).q_items i ≡ (
        let it = init_item (item_at m.q_items i) in
        record it { cmd = record it.cmd { seq = (prepare (record m { q_item_wp = f.wp }) i).seq } })
    there = get_or-set_self m.q_items i _ no_item (omega (arith, f.at_wp, c.size))

pub allocated-IsConsistent :
    (m m' : Master) (i : ℕ) → IsConsistent m → IsAllocated m m' i → IsConsistent m'
allocated-IsConsistent m m' i c a =
    let (ws, wc) = free_excludes (item_at m.q_items i) a.was_free in
    let free : is_free (item_at m'.q_items i) ≡ true = ap is_free a.is_empty in
    let (ws', wc') = free_excludes (item_at m'.q_items i) free in
    consistent_put m m' i (item_at m'.q_items i) c a.index a.items (inl free)
      (rw (ws, ws') (ap (λ x. x.q_items_wait_send + 0) a.rest))
      (rw (wc, wc') (ap (λ x. x.q_items_wait_confirm + 0) a.rest)) a.byte

-- `QItem_Alloc` fails exactly if no item is free, and then only the write position can change.
pub qitem_alloc_lem :
    (m : Master)
    → IsConsistent m
    → ((i : ℕ) × ((qitem_alloc m).0 ≡ some i) × IsAllocated m (qitem_alloc m).1 i)
      ⊎ (((qitem_alloc m).0 ≡ none)
          × (m.q_items_wait_send + m.q_items_wait_confirm ≡ 32)
          × Moved m (qitem_alloc m).1)
unfolding qitem_alloc
qitem_alloc_lem m c = elim (Option-cases (alloc_rounds 32 m).0) [
  | inl e ↦ let (used, moved) = alloc_failed 32 m e in inr (e, full used, moved)
  | inr e ↦
      inl (
        e.0,
        e.1,
        found→allocated m (alloc_rounds 32 m).1 e.0 c (alloc_rounds-IsFound 32 m e.0 e.1),
      )
]
  where
    full :
        ((k : ℕ) → k < 32 → is_free (item_at m.q_items ((m.q_item_wp + k) % 32)) ≡ false)
        → m.q_items_wait_send + m.q_items_wait_confirm ≡ 32
    full used =
        let none_free : tally is_free m.q_items ≡ 0 = tally_none is_free m.q_items (λ i lt.
          let small : i < 32 = omega (arith, c.size) in
          let there : (m.q_item_wp + (i + 32 - m.q_item_wp % 32) % 32) % 32 ≡ i = omega arith in
          subst (λ k. is_free (item_at m.q_items k) ≡ false) there
            (used ((i + 32 - m.q_item_wp % 32) % 32) (omega arith))) in
        omega (arith, tally_total m.q_items, c.size, c.sends, c.confirms)
