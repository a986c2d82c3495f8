-- ===== src/Master/Send/Sent.antt =====
-- src/zm_master.cpp: what zmMaster::sendNextCommand sends, and what it leaves in the queue.
use deconz.Prelude.{
  ℕ, suc, ◌+◌, ◌%◌, ◌≤◌, ◌<◌, ◌≡◌, ◌≢◌, refl, sym, ap, ap₂, ◌∙◌, subst, Bool, true, false, List, [],
  ◌∷◌, ◌++◌, arith, if◌then◌else◌, ltb, ◌==◌, get_or-set_self, get_or-set_ne, inl, inr,
}
use deconz.Serial.{SendResult, sent, queue_full, not_connected, no_frame}
use deconz.Master.{Master, Item, wait_confirm, Signal, sends_command, command_queue_empty}
use deconz.Master.Ring.{qaps_empty}
use deconz.Master.Items.{
  is_free, is_wait_send, is_wait_confirm, no_item, item_at, put_item, qitem_send,
}
use deconz.Master.Count.{tally_pos, tally_total, free_excludes, item_cases}
use deconz.Master.Consistent.{IsConsistent, consistent_put}
use deconz.Master.Send.{connected, send_next_command, next_to_send_found}

-- The item `i` was handed over at `now` and waits for its confirmation.
pub record IsSent (m m' : Master) (i now : ℕ) : Type 0 where
  pub item :
      item_at m'.q_items i ≡ record (item_at m.q_items i) { state = wait_confirm; tref_tx = now }
  pub others : (j : ℕ) → j ≢ i → item_at m'.q_items j ≡ item_at m.q_items j
  pub sends : suc m'.q_items_wait_send ≡ m.q_items_wait_send
  pub confirms : m'.q_items_wait_confirm ≡ suc m.q_items_wait_confirm
  pub aps : m'.aps ≡ m.aps

is_wait_send_excludes :
    (it : Item) → is_wait_send it ≡ true → (is_free it ≡ false) × (is_wait_confirm it ≡ false)
is_wait_send_excludes it h = elim (item_cases it) [
  | inl free ↦ let none_ = (free_excludes it free).0 in absurd (cc)
  | inr (inl k) ↦ (k.1, k.3)
  | inr (inr k) ↦ let none_ = k.2 in absurd (cc)
]

-- An item in the queue that waits to be sent, and what `QItem_Send` does with it.
pub qitem_send_sent :
    (m : Master) (i now : ℕ)
    → IsConsistent m
    → i < 32
    → is_wait_send (item_at m.q_items i) ≡ true
    → IsConsistent (qitem_send now sent m i).0
      × IsSent m (qitem_send now sent m i).0 i now
      × ((qitem_send now sent m i).1 ≡ sends_command (item_at m.q_items i).cmd ∷ [])
unfolding qitem_send
qitem_send_sent m i now c hi waits =
    let v : Item = record (item_at m.q_items i) { state = wait_confirm; tref_tx = now } in
    let (used, wc) = is_wait_send_excludes (item_at m.q_items i) waits in
    let some_wait : 0 < m.q_items_wait_send =
      omega (arith, tally_pos is_wait_send m.q_items i (omega (arith, c.size)) waits, c.sends) in
    let small : m.q_items_wait_send + m.q_items_wait_confirm ≤ 32 =
      omega (arith, tally_total m.q_items, c.size, c.sends, c.confirms) in
    rw (qitem_send, waits)
      (
        consistent_put m _ i v c hi refl (inr (inl (used, refl))) (rw waits (omega (arith)))
            (rw wc (omega (arith))) c.byte,
        record {
          item = get_or-set_self m.q_items i v no_item (omega (arith, c.size));
          others = λ j ne. get_or-set_ne m.q_items i j v no_item (λ e. ne (sym e));
          sends = omega arith;
          confirms = omega arith;
          aps = refl;
        },
        refl,
      )

pub qitem_send_refused :
    (m : Master) (i now : ℕ) (result : SendResult)
    → is_wait_send (item_at m.q_items i) ≡ true
    → result ≢ sent
    → qitem_send now result m i ≡ (m, sends_command (item_at m.q_items i).cmd ∷ [])
unfolding qitem_send
qitem_send_refused m i now sent waits ne = absurd (ne refl)
qitem_send_refused m i now queue_full waits ne = rw (qitem_send, waits) refl
qitem_send_refused m i now not_connected waits ne = rw (qitem_send, waits) refl
qitem_send_refused m i now no_frame waits ne = rw (qitem_send, waits) refl

-- The item `i` with its time cleared.
abbrev pub cleared : Master → ℕ → Master
cleared m i = put_item m i (record (item_at m.q_items i) { tref_tx = 0 })

cleared-IsConsistent :
    (m : Master) (i : ℕ)
    → IsConsistent m
    → i < 32
    → is_wait_send (item_at m.q_items i) ≡ true
    → IsConsistent (cleared m i)
cleared-IsConsistent m i c hi waits =
    let (used, wc) = is_wait_send_excludes (item_at m.q_items i) waits in
    consistent_put m (cleared m i) i (record (item_at m.q_items i) { tref_tx = 0 }) c hi refl
      (inr (inl (used, refl))) refl refl c.byte

-- What handing over the item `i` did.
abbrev pub Sends : Master → ℕ → ℕ → SendResult → Master × List Signal → Type 0
Sends m i now result (m', out) =
    (out
      ≡ sends_command (item_at m.q_items i).cmd
        ∷ (if qaps_empty m.aps then command_queue_empty ∷ [] else []))
    × (result ≡ sent → IsSent m m' i now)
    × (result ≢ sent → m' ≡ cleared m i)

module _ (m : Master) (i now : ℕ) (c : IsConsistent m) (hi : i < 32)
    (waits : is_wait_send (item_at m.q_items i) ≡ true) where
  there : item_at (cleared m i).q_items i ≡ record (item_at m.q_items i) { tref_tx = 0 }
  there =
      get_or-set_self m.q_items i (record (item_at m.q_items i) { tref_tx = 0 }) no_item
        (omega (arith, c.size, hi))

  waits' : is_wait_send (item_at (cleared m i).q_items i) ≡ true
  waits' = ap is_wait_send there ∙ waits

  from_sent :
      IsSent (cleared m i) (qitem_send now sent (cleared m i) i).0 i now
      → IsSent m (qitem_send now sent (cleared m i) i).0 i now
  from_sent s = record {
    item = s.item ∙ ap (λ (it : Item). record it { state = wait_confirm; tref_tx = now }) there;
    others = λ j ne.
        s.others j ne
        ∙ get_or-set_ne m.q_items i j (record (item_at m.q_items i) { tref_tx = 0 }) no_item
            (λ e. ne (sym e));
    sends = s.sends;
    confirms = s.confirms;
    aps = s.aps;
  }

  command_there : (item_at (cleared m i).q_items i).cmd ≡ (item_at m.q_items i).cmd
  command_there = ap (λ it. it.cmd) there

  refused :
      (result : SendResult)
      → result ≢ sent
      → IsConsistent (qitem_send now result (cleared m i) i).0
        × Sends m i now result (
            let (m', out) = qitem_send now result (cleared m i) i in
            (m', out ++ (if qaps_empty m'.aps then command_queue_empty ∷ [] else [])))
  refused result ne =
      let e = qitem_send_refused (cleared m i) i now result waits' ne in
      subst
        (λ (r : Master × List Signal).
          IsConsistent r.0
          × Sends m i now result
              (r.0, r.1 ++ (if qaps_empty r.0.aps then command_queue_empty ∷ [] else [])))
        (sym e)
        (
          cleared-IsConsistent m i c hi waits,
          (
            ap (λ k. sends_command k ∷ (if qaps_empty m.aps then command_queue_empty ∷ [] else []))
                command_there,
            (λ s. absurd (ne s)),
            (λ _. refl),
          ),
        )

  handed_over :
      (result : SendResult)
      → IsConsistent (qitem_send now result (cleared m i) i).0
        × Sends m i now result (
            let (m', out) = qitem_send now result (cleared m i) i in
            (m', out ++ (if qaps_empty m'.aps then command_queue_empty ∷ [] else [])))
  handed_over sent =
      let (c', s, out) =
        qitem_send_sent (cleared m i) i now (cleared-IsConsistent m i c hi waits) hi waits' in
      (
        c',
        (
          ap₂ (λ o a. o ++ (if qaps_empty a then command_queue_empty ∷ [] else []))
              (out ∙ ap (λ k. sends_command k ∷ []) command_there) s.aps,
          (λ e. from_sent s),
          (λ ne. absurd (ne refl)),
        ),
      )
  handed_over queue_full = refused queue_full (λ e. cc)
  handed_over not_connected = refused not_connected (λ e. cc)
  handed_over no_frame = refused no_frame (λ e. cc)

-- The first item that waits from the send position on was handed over.
abbrev pub SendsFirst : Master → ℕ → SendResult → Master × List Signal → Type 0
SendsFirst m now result r =
    (i : ℕ) × (k : ℕ) × (k < 32)
    × (i ≡ (m.q_item_sp + k) % 32)
    × (is_wait_send (item_at m.q_items i) ≡ true)
    × ((j : ℕ) → j < k → is_wait_send (item_at m.q_items ((m.q_item_sp + j) % 32)) ≡ false)
    × Sends m i now result r

-- With a waiting command, fewer than two unconfirmed ones and a connection, exactly one command is
-- handed to the link: the first that waits from the send position on. Once it is sent its item waits
-- for the confirmation, and the counters follow. A command that the link refuses, whatever the reason,
-- stays where it was with its time cleared, so that it is the next one tried again. The queue stays
-- consistent.
pub send_next_command_sends :
    (app : Bool) (now : ℕ) (result : SendResult) (m : Master)
    → IsConsistent m
    → connected app m ≡ true
    → m.q_items_wait_send ≢ 0
    → m.q_items_wait_confirm < 2
    → IsConsistent (send_next_command app now result m).0
      × SendsFirst m now result (send_next_command app now result m)
unfolding send_next_command
send_next_command_sends app now result m c on some_wait few =
    let (i, e, k, hk, at, waits, before) = next_to_send_found m c some_wait in
    let more : (m.q_items_wait_send == 0) ≡ false = ground arith in
    let room : ltb m.q_items_wait_confirm 2 ≡ true = ground arith in
    let (c', s) = handed_over m i now c (omega arith) waits result in
    rw (send_next_command, on, more, room, e) (c', (i, k, hk, at, waits, before, s))
