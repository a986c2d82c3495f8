-- ===== src/Master/Release.antt =====
-- src/zm_master.cpp: QItem_Free, which takes a command out of the queue.
pub mod Confirmed
use deconz.Prelude.{
  ℕ, zero, suc, ◌+◌, ◌-◌, ◌≤◌, ◌<◌, ◌≡◌, ◌≢◌, ◌⊎◌, refl, sym, ap, ◌∙◌, subst, Bool, true, false,
  ◌&&◌, none, some, List, [], ◌∷◌, arith, ◌==◌, length, get_or-set_self, get_or-set_ne, Bool-cases,
  Option-cases, inl, inr,
}
use deconz.Command.{Command}
use deconz.Master.{Master, Item, qitem_init}
use deconz.Master.Items.{
  is_free, is_wait_send, is_wait_confirm, dec, no_item, item_at, put_item, qitem_free, answers,
  find_answered, qitem_confirm,
}
use deconz.Master.Count.{one, tally_pos, tally_total, free_excludes, item_cases}
use deconz.Master.Ring.{IsRing}
use deconz.Master.Sound.{IsSound}
use deconz.Master.Consistent.{IsConsistent, consistent_put, consistent_same}

-- The item `i`, which was in use, is free; the other items and the positions are as before.
pub record IsReleased (m m' : Master) (i : ℕ) : Type 0 where
  pub freed : is_free (item_at m'.q_items i) ≡ true
  pub others : (j : ℕ) → j ≢ i → item_at m'.q_items j ≡ item_at m.q_items j
  pub sends : m'.q_items_wait_send + one (is_wait_send (item_at m.q_items i)) ≡ m.q_items_wait_send
  pub confirms :
      m'.q_items_wait_confirm + one (is_wait_confirm (item_at m.q_items i)) ≡ m.q_items_wait_confirm
  pub rest : m' ≡ record m {
    q_items = m'.q_items;
    q_items_wait_send = m'.q_items_wait_send;
    q_items_wait_confirm = m'.q_items_wait_confirm;
  }

module _ (m : Master) (i : ℕ) (c : IsConsistent m) (hi : i < 32) where
  abbrev freed_item : Item
  freed_item =
      let it = item_at m.q_items i in
      record it { state = qitem_init; cmd = record it.cmd { cmd = 1 } }

  -- A master whose item `i` is freed, with the counters `ws` and `wc`.
  abbrev released : ℕ → ℕ → Master
  released ws wc = record (put_item m i freed_item) {
    q_items_wait_send = ws;
    q_items_wait_confirm = wc;
  }

  releases :
      (ws wc : ℕ)
      → ws + one (is_wait_send (item_at m.q_items i)) ≡ m.q_items_wait_send
      → wc + one (is_wait_confirm (item_at m.q_items i)) ≡ m.q_items_wait_confirm
      → IsConsistent (released ws wc) × IsReleased m (released ws wc) i
  releases ws wc hs hc = (
    consistent_put m (released ws wc) i freed_item c hi refl (inl refl) (omega (arith, hs))
        (omega (arith, hc)) c.byte,
    record {
      freed = ap is_free (get_or-set_self m.q_items i freed_item no_item (omega (arith, c.size)));
      others = λ j ne. get_or-set_ne m.q_items i j freed_item no_item (λ e. ne (sym e));
      sends = hs;
      confirms = hc;
      rest = refl;
    },
  )

  pub qitem_free_lem :
      is_free (item_at m.q_items i) ≡ false
      → IsConsistent (qitem_free m i) × IsReleased m (qitem_free m i) i
  unfolding qitem_free
  qitem_free_lem used = elim (item_cases (item_at m.q_items i)) [
    | inl free ↦ absurd (cc)
    | inr (inl h) ↦
        let (e, u, ws, wc) = h in
        rw (qitem_free, e)
          (releases (dec m.q_items_wait_send) m.q_items_wait_confirm
            (rw ws (omega (arith, sends_one ws))) (rw wc (omega arith)))
    | inr (inr h) ↦
        let (e, u, ws, wc) = h in
        rw (qitem_free, e)
          (releases m.q_items_wait_send (dec m.q_items_wait_confirm) (rw ws (omega arith))
            (rw wc (omega (arith, confirms_one wc))))
  ]
    where
      sends_one :
          is_wait_send (item_at m.q_items i) ≡ true
          → (0 < m.q_items_wait_send) × (m.q_items_wait_send ≤ 32)
      sends_one e = omega (
        arith,
        tally_pos is_wait_send m.q_items i (omega (arith, c.size)) e,
        c.sends,
        tally_total m.q_items,
        c.size,
      )

      confirms_one :
          is_wait_confirm (item_at m.q_items i) ≡ true
          → (0 < m.q_items_wait_confirm) × (m.q_items_wait_confirm ≤ 32)
      confirms_one e = omega (
        arith,
        tally_pos is_wait_confirm m.q_items i (omega (arith, c.size)) e,
        c.confirms,
        tally_total m.q_items,
        c.size,
      )
