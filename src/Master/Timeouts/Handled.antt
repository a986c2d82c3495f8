-- ===== src/Master/Timeouts/Handled.antt =====
-- src/zm_master.cpp: what zmMaster::handleTimeouts does with an item, and what it keeps.
use deconz.Prelude.{
  ℕ, zero, suc, ◌+◌, ◌-◌, ◌%◌, ◌≤◌, ◌<◌, ◌≡◌, ◌≢◌, refl, sym, ap, subst, true, false, List, arith,
  ltb, leb, ◌==◌, get_or-set_self, Bool-cases, inl, inr,
}
use deconz.Serial.{SendResult, sent, queue_full, not_connected, no_frame}
use deconz.Master.{Master, Item, wait_send, Signal}
use deconz.Master.Ring.{IsRing}
use deconz.Master.Items.{
  is_free, is_wait_send, is_wait_confirm, dec, no_item, item_at, qitem_free, qitem_send,
}
use deconz.Master.Count.{tally_pos, tally_total, free_excludes, item_cases}
use deconz.Master.Consistent.{consistent_put, consistent_same}
use deconz.Master.Release.{qitem_free_lem}
use deconz.Master.Send.Sent.{qitem_send_sent, qitem_send_refused}
use deconz.Master.Kill.Killed.{IsEmptyQueue, kill_command_queue-IsEmptyQueue}
use deconz.Master.Sound.{IsSound}
use deconz.Master.Timeouts.{
  is_master_off, com_exit, give_up, requeued, timeout_item, timeouts_from, handle_timeouts,
}

pub empty-IsSound : (m : Master) → IsEmptyQueue m → IsSound m
empty-IsSound m e = record {
  consistent = e.consistent;
  ring = e.ring;
  few = omega (arith, e.no_confirms);
}

pub com_exit-IsSound : (m : Master) → IsSound m → IsSound (com_exit m).0
unfolding com_exit
com_exit-IsSound m s = elim (Bool-cases (is_master_off m.state)) [
  | inl e ↦ rw (com_exit, e) s
  | inr e ↦
      rw (com_exit, e) (empty-IsSound _ (kill_command_queue-IsEmptyQueue m s.consistent s.ring).0)
]

give_up-IsSound :
    (m : Master) (i : ℕ)
    → IsSound m
    → i < 32
    → is_free (item_at m.q_items i) ≡ false
    → IsSound (give_up m i).0
unfolding give_up
give_up-IsSound m i s hi used =
    let (c', r) = qitem_free_lem m i s.consistent hi used in
    let s' : IsSound (record (qitem_free m i) { cmd_fails = suc m.cmd_fails }) = record {
      consistent = consistent_same (qitem_free m i) _ c' refl refl refl refl;
      ring = subst IsRing (sym (ap (λ x. x.aps) r.rest)) s.ring;
      few = omega (arith, r.confirms, s.few);
    } in
    elim (Bool-cases (leb 10 (suc m.cmd_fails))) [
      | inl e ↦ rw (give_up, e) (com_exit-IsSound _ s')
      | inr e ↦ rw (give_up, e) s'
    ]

-- An item that waits again to be sent.
module _ (m : Master) (i : ℕ) (s : IsSound m) (hi : i < 32)
    (waits : is_wait_confirm (item_at m.q_items i) ≡ true) where
  abbrev again : Item
  again = let it = item_at m.q_items i in record it { retries = suc it.retries; state = wait_send }

  pub in_use :
      (is_free (item_at m.q_items i) ≡ false) × (is_wait_send (item_at m.q_items i) ≡ false)
  in_use = elim (item_cases (item_at m.q_items i)) [
    | inl free ↦ let no_wait = (free_excludes (item_at m.q_items i) free).1 in absurd (cc)
    | inr (inl k) ↦ let no_wait = k.3 in absurd (cc)
    | inr (inr k) ↦ (k.1, k.2)
  ]

  pub some_confirm : 0 < m.q_items_wait_confirm
  some_confirm = omega (
    arith,
    tally_pos is_wait_confirm m.q_items i (omega (arith, s.consistent.size, hi)) waits,
    s.consistent.confirms,
  )

  pub requeued_there : item_at (requeued m i).q_items i ≡ again
  requeued_there = get_or-set_self m.q_items i again no_item (omega (arith, s.consistent.size, hi))

  pub requeued-IsSound : IsSound (requeued m i)
  requeued-IsSound =
      let small : m.q_items_wait_send + m.q_items_wait_confirm ≤ 32 = omega (
        arith,
        tally_total m.q_items,
        s.consistent.size,
        s.consistent.sends,
        s.consistent.confirms,
      ) in
      record {
        consistent =
            consistent_put m (requeued m i) i again s.consistent hi refl
              (inr (inl (in_use.0, refl))) (rw (in_use.1) (omega (arith, some_confirm)))
              (rw waits (omega (arith, some_confirm))) s.consistent.byte;
        ring = s.ring;
        few = omega (arith, s.few, some_confirm);
      }

  kept :
      (now : ℕ) (result : SendResult)
      → result ≢ sent
      → IsSound (qitem_send now result (requeued m i) i).0
  kept now result ne =
      subst (λ (r : Master × List Signal). IsSound r.0)
        (sym (qitem_send_refused (requeued m i) i now result (ap is_wait_send requeued_there) ne))
        requeued-IsSound

  resent : (now : ℕ) (result : SendResult) → IsSound (qitem_send now result (requeued m i) i).0
  resent now sent =
      let (c, k, out) =
        qitem_send_sent (requeued m i) i now requeued-IsSound.consistent hi
          (ap is_wait_send requeued_there) in
      record {
        consistent = c;
        ring = subst IsRing (sym k.aps) s.ring;
        few = omega (arith, k.confirms, s.few, some_confirm);
      }
  resent now queue_full = kept now queue_full (λ e. cc)
  resent now not_connected = kept now not_connected (λ e. cc)
  resent now no_frame = kept now no_frame (λ e. cc)

  timeout_item-IsSound :
      (now : ℕ) (result : ℕ → SendResult) → IsSound (timeout_item now result m i).0
  unfolding timeout_item
  timeout_item-IsSound now result =
      elim (Bool-cases (ltb 500 (now - (item_at m.q_items i).tref_tx))) [
        | inl due ↦ elim (Bool-cases (leb 1 (item_at m.q_items i).retries)) [
          | inl tried ↦ rw (timeout_item, due, tried) (give_up-IsSound m i s hi in_use.0)
          | inr fresh ↦ rw (timeout_item, due, fresh) (resent now (result i))
        ]
        | inr early ↦ rw (timeout_item, early) s
      ]

timeouts_from-IsSound :
    (rounds now : ℕ) (result : ℕ → SendResult) (i count : ℕ) (m : Master)
    → IsSound m
    → IsSound (timeouts_from rounds now result i count m).0
unfolding timeouts_from
timeouts_from-IsSound zero now result i count m s = s
timeouts_from-IsSound (suc rounds) now result i count m s =
    elim (Bool-cases (ltb count m.q_items_wait_confirm)) [
      | inl more ↦ elim (Bool-cases (is_wait_confirm (item_at m.q_items (i % 32)))) [
        | inl waits ↦
            let s' = timeout_item-IsSound m (i % 32) s (omega arith) waits now result in
            elim (Bool-cases (timeout_item now result m (i % 32)).2) [
              | inl stop ↦ rw (timeouts_from, more, waits, stop) s'
              | inr go ↦
                  rw (timeouts_from, more, waits, go)
                    (timeouts_from-IsSound rounds now result (dec i) (suc count)
                      (timeout_item now result m (i % 32)).0 s')
            ]
        | inr idle ↦
            rw (timeouts_from, more, idle)
              (timeouts_from-IsSound rounds now result (dec i) count m s)
      ]
      | inr done ↦ rw (timeouts_from, done) s
    ]

pub handle_timeouts-IsSound :
    (now : ℕ) (result : ℕ → SendResult) (m : Master)
    → IsSound m
    → IsSound (handle_timeouts now result m).0
unfolding handle_timeouts
handle_timeouts-IsSound now result m s = elim (Bool-cases (m.q_items_wait_confirm == 0)) [
  | inl e ↦ rw (handle_timeouts, e) s
  | inr e ↦ rw (handle_timeouts, e) (timeouts_from-IsSound 32 now result (dec m.q_item_wp) 0 m s)
]
