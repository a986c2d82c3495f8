-- ===== src/Master/Queue.antt =====
-- src/zm_master.cpp: how the functions that talk to the device queue a command: QItem_Alloc, then the
-- command's fields, then QItem_Enqueue; and how a response takes it out, QItem_Confirm.
pub mod Queued
use deconz.Prelude.{
  ℕ, suc, ◌+◌, ◌%◌, ◌<◌, ◌≡◌, ◌≢◌, ◌⊎◌, refl, sym, ap, ◌∙◌, subst, Bool, true, false, ◌&&◌, none,
  some, List, [], arith, ltb, ◌==◌, get_or-set_self, get_or-set_ne, set, set-set_self, Bool-cases,
  inl, inr,
}
use deconz.Command.{Command}
use deconz.Master.{Master, Item, Signal, wait_send}
use deconz.Master.Items.{
  is_free, is_wait_send, is_idle, inc, no_item, item_at, put_item, seq_used, qitem_alloc,
  qitem_enqueue,
}
use deconz.Master.Count.{free_excludes, tally_pos, tally_total}
use deconz.Master.Consistent.{IsConsistent, consistent_put}
use deconz.Master.Sound.{IsSound, sound_keeps, sound_same}
use deconz.Master.Alloc.{IsAllocated, qitem_alloc_lem, consistent_moved, allocated-IsConsistent}

-- `item->cmd` is filled in by `fill`.
abbrev pub fill_item : Master → ℕ → (Command → Command) → Master
fill_item m i fill = let it = item_at m.q_items i in put_item m i (record it { cmd = fill it.cmd })

unfoldable pub queue_command : Master → (Command → Command) → Bool × Master × List Signal
unfolding qitem_enqueue
queue_command m fill =
    let (found, m') = qitem_alloc m in
    elim found [
      | none ↦ (false, m', [])
      | some i ↦ (let (m'', ok, out) = qitem_enqueue (fill_item m' i fill) i in (true, m'', out))
    ]

-- The item `i`, which was free, waits with the command that `fill` makes, under a number that no item
-- in use had; the other items are as before.
pub record IsQueued (m m' : Master) (fill : Command → Command) : Type 0 where
  pub i : ℕ
  pub index : i < 32
  pub was_free : is_free (item_at m.q_items i) ≡ true
  pub waits : is_wait_send (item_at m'.q_items i) ≡ true
  pub command : Command
  pub filled : (item_at m'.q_items i).cmd ≡ fill command
  pub numbered : command.seq ≡ m'.seq
  pub unused : seq_used m.q_items m'.seq ≡ false
  pub others : (j : ℕ) → j ≢ i → item_at m'.q_items j ≡ item_at m.q_items j
  pub counted : m'.q_items_wait_send ≡ suc m.q_items_wait_send
  pub confirms : m'.q_items_wait_confirm ≡ m.q_items_wait_confirm
  pub aps : m'.aps ≡ m.aps
