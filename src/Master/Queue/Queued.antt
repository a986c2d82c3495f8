-- ===== src/Master/Queue/Queued.antt =====
-- src/zm_master.cpp: a command is queued exactly if an item is free.
use deconz.Prelude.{
  ℕ, suc, ◌+◌, ◌%◌, ◌<◌, ◌≡◌, ◌⊎◌, refl, sym, ap, ◌∙◌, subst, Bool, true, false, ◌&&◌, List, arith,
  ltb, ◌==◌, get_or-set_self, get_or-set_ne, set, set-set_self, Bool-cases, inl, inr,
}
use deconz.Command.{Command}
use deconz.Master.{Master, Item, Signal, wait_send}
use deconz.Master.Items.{
  is_free, is_wait_send, is_idle, inc, no_item, item_at, put_item, seq_used, qitem_alloc,
  qitem_enqueue,
}
use deconz.Master.Count.{free_excludes, tally_pos, tally_total}
use deconz.Master.Consistent.{IsConsistent, consistent_put}
use deconz.Master.Sound.{IsSound, sound_keeps, sound_same}
use deconz.Master.Alloc.{IsAllocated, qitem_alloc_lem, consistent_moved, allocated-IsConsistent}
use deconz.Master.Queue.{fill_item, queue_command, IsQueued}

-- An item that is enqueued at the write position.
enqueue_at_wp :
    (m : Master) (i : ℕ)
    → m.q_item_wp % 32 ≡ i
    → is_free (item_at m.q_items i) ≡ true
    → (qitem_enqueue m i).0
      ≡ record (put_item m i (record (item_at m.q_items i) { state = wait_send })) {
        q_items_wait_send = inc m.q_items_wait_send;
        q_item_wp = inc m.q_item_wp;
        timer_active = (qitem_enqueue m i).0.timer_active;
      }
unfolding qitem_enqueue
enqueue_at_wp m i at free =
    let here : (m.q_item_wp % 32 == i) ≡ true = ground arith in
    elim (Bool-cases (is_idle m.state && ltb m.q_items_wait_confirm 2)) [
      | inl e ↦ rw (here, free, e) refl
      | inr e ↦ rw (here, free, e) refl
    ]

module _ (m m' : Master) (i : ℕ) (fill : Command → Command) (c : IsConsistent m)
    (a : IsAllocated m m' i) (keeps : (x : Command) → (fill x).seq ≡ x.seq) where
  abbrev after : Master
  after = (qitem_enqueue (fill_item m' i fill) i).0

  abbrev filled_item : Item
  filled_item = let it = item_at m'.q_items i in record it { cmd = fill it.cmd; state = wait_send }

  there :
      item_at (fill_item m' i fill).q_items i
      ≡ (let it = item_at m'.q_items i in record it { cmd = fill it.cmd })
  there =
      get_or-set_self m'.q_items i _ no_item
        (omega (arith, a.index, (allocated-IsConsistent m m' i c a).size))

  stepped : after ≡ record (fill_item m' i fill) {
    q_items =
        set
          (fill_item m' i fill).q_items
          i
          (record (item_at (fill_item m' i fill).q_items i) { state = wait_send });
    q_items_wait_send = inc m'.q_items_wait_send;
    q_item_wp = inc m'.q_item_wp;
    timer_active = after.timer_active;
  }
  stepped = enqueue_at_wp (fill_item m' i fill) i a.at_wp (ap is_free there ∙ ap is_free a.is_empty)

  items_after : after.q_items ≡ set m.q_items i filled_item
  items_after =
      ap (λ x. x.q_items) stepped
      ∙ set-set_self m'.q_items i _ _
      ∙ ap (λ it. set m'.q_items i (record it { state = wait_send })) there
      ∙ ap (λ xs. set xs i filled_item) a.items
      ∙ set-set_self m.q_items i _ _

  room : m.q_items_wait_send < 32
  room = omega (
    arith,
    tally_pos is_free m.q_items i (omega (arith, a.index, c.size)) a.was_free,
    tally_total m.q_items,
    c.size,
    c.sends,
  )

  sends_after : after.q_items_wait_send ≡ suc m.q_items_wait_send
  sends_after =
      ap (λ x. x.q_items_wait_send) stepped
      ∙ ap (λ x. inc x.q_items_wait_send) a.rest
      ∙ omega (arith, room)

  confirms_after : after.q_items_wait_confirm ≡ m.q_items_wait_confirm
  confirms_after =
      ap (λ x. x.q_items_wait_confirm) stepped ∙ ap (λ x. x.q_items_wait_confirm) a.rest

  seq_after : after.seq ≡ m'.seq
  seq_after = ap (λ x. x.seq) stepped

  seq_filled : filled_item.cmd.seq ≡ m'.seq
  seq_filled = keeps (item_at m'.q_items i).cmd ∙ ap (λ it. it.cmd.seq) a.is_empty

  pub enqueued-IsConsistent : IsConsistent after
  enqueued-IsConsistent =
      let (ws, wc) = free_excludes (item_at m.q_items i) a.was_free in
      consistent_put m after i filled_item c a.index items_after
        (inr (inr (ap (seq_used m.q_items) seq_filled ∙ a.fresh)))
        (rw (ws) (omega (arith, sends_after))) (rw (wc) (omega (arith, confirms_after)))
        (omega (arith, seq_after, a.byte))

  pub enqueued-IsQueued : IsQueued m after fill
  enqueued-IsQueued =
      let there' : item_at after.q_items i ≡ filled_item =
        ap (λ xs. item_at xs i) items_after
        ∙ get_or-set_self m.q_items i filled_item no_item (omega (arith, a.index, c.size)) in
      record {
        i = i;
        index = a.index;
        was_free = a.was_free;
        waits = ap is_wait_send there';
        command = (item_at m'.q_items i).cmd;
        filled = ap (λ it. it.cmd) there';
        numbered = ap (λ it. it.cmd.seq) a.is_empty ∙ sym seq_after;
        unused = ap (seq_used m.q_items) seq_after ∙ a.fresh;
        others = λ j ne.
            ap (λ xs. item_at xs j) items_after
            ∙ get_or-set_ne m.q_items i j filled_item no_item (λ e. ne (sym e));
        counted = sends_after;
        confirms = confirms_after;
        aps = ap (λ x. x.aps) stepped ∙ ap (λ x. x.aps) a.rest;
      }

-- What queuing a command did.
abbrev pub Queues : Master → (Command → Command) → Bool × Master × List Signal → Type 0
Queues m fill (ok, m', out) =
    ((ok ≡ true) × (m.q_items_wait_send + m.q_items_wait_confirm < 32) × IsQueued m m' fill)
    ⊎ ((ok ≡ false)
        × (m.q_items_wait_send + m.q_items_wait_confirm ≡ 32)
        × (m'.q_items ≡ m.q_items))

-- A command is queued exactly if not all 32 items are in use. Then one item, which was free, waits to
-- be sent with the command under a number that no item in use has, and nothing else in the queue
-- changes; otherwise no item changes. The queue stays consistent: its counters count and no two items
-- in use have one number. (What fills in the command leaves its number.)
pub queue_command_lem :
    (m : Master) (fill : Command → Command)
    → IsConsistent m
    → ((x : Command) → (fill x).seq ≡ x.seq)
    → IsConsistent (queue_command m fill).1 × Queues m fill (queue_command m fill)
unfolding queue_command
queue_command_lem m fill c keeps = elim (qitem_alloc_lem m c) [
  | inl h ↦
      let i = h.0 in
      let e = h.1 in
      let a = h.2 in
      rw (queue_command, e)
        (
          enqueued-IsConsistent m (qitem_alloc m).1 i fill c a keeps,
          inl (refl, room' i a, enqueued-IsQueued m (qitem_alloc m).1 i fill c a keeps),
        )
  | inr h ↦
      let (e, full, moved) = h in
      rw (queue_command, e)
        (
          subst IsConsistent (sym moved) (consistent_moved m _ c),
          inr (refl, full, ap (λ x. x.q_items) moved),
        )
]
  where
    room' :
        (i : ℕ)
        → IsAllocated m (qitem_alloc m).1 i
        → m.q_items_wait_send + m.q_items_wait_confirm < 32
    room' i a = omega (
      arith,
      tally_pos is_free m.q_items i (omega (arith, a.index, c.size)) a.was_free,
      tally_total m.q_items,
      c.size,
      c.sends,
      c.confirms,
    )

-- A free item may be written to.
pub fill_item-IsSound :
    (m : Master) (i : ℕ) (fill : Command → Command)
    → IsSound m
    → i < 32
    → is_free (item_at m.q_items i) ≡ true
    → IsSound (fill_item m i fill)
fill_item-IsSound m i fill s hi free =
    let (ws, wc) = free_excludes (item_at m.q_items i) free in
    sound_keeps m (fill_item m i fill) s
      (consistent_put m (fill_item m i fill) i _ s.consistent hi refl (inl free) refl refl
        s.consistent.byte)
      refl refl

pub allocated-IsSound : (m m' : Master) (i : ℕ) → IsSound m → IsAllocated m m' i → IsSound m'
allocated-IsSound m m' i s a =
    sound_keeps m m' s (allocated-IsConsistent m m' i s.consistent a) (ap (λ x. x.aps) a.rest)
      (ap (λ x. x.q_items_wait_confirm) a.rest)

pub queue_command-IsSound :
    (m : Master) (fill : Command → Command)
    → ((x : Command) → (fill x).seq ≡ x.seq)
    → IsSound m
    → IsSound (queue_command m fill).1
unfolding queue_command
queue_command-IsSound m fill keeps s = elim (qitem_alloc_lem m s.consistent) [
  | inl h ↦
      let q = enqueued-IsQueued m (qitem_alloc m).1 h.0 fill s.consistent h.2 keeps in
      rw (queue_command, h.1)
        (sound_keeps m _ s
          (enqueued-IsConsistent m (qitem_alloc m).1 h.0 fill s.consistent h.2 keeps) q.aps
          q.confirms)
  | inr h ↦
      let (e, full, moved) = h in
      rw (queue_command, e) (subst IsSound (sym moved) (sound_same m _ s refl refl refl refl refl))
]
