-- ===== src/Serial/History.antt =====
-- src/zm_master_com_serial.cpp: the invariant of the connection under a history of calls.
use deconz.Prelude.{
  ℕ, ◌≡◌, ◌≢◌, refl, Bool, true, false, List, [], ◌∷◌, arith, ◌==◌, ◌&&◌, ltb, inl, inr, Bool-cases,
}
use deconz.BufferHelper.{BufferHelper}
use deconz.Protocol.{
  Protocol, proto_no_protocol, protocol_init, protocol_exit, protocol_add, protocol_remove,
  protocol_set_buffer,
}
use deconz.Serial.{Com, ComState, off, query_bootloader, wait_bootloader, rx_tx}
use deconz.Serial.Txq.{txq_init-IsValid}
use deconz.Serial.Machine.{TxOk, send-Sends, bytes_written-Sends}
use deconz.Serial.Invariant.{RxOk, SlotOk, Live, Inv, Sends-Inv, ready_read-Inv}
use deconz.Serial.Connection.{
  Call, opens, closes, times_out, reads, sends, has_written, open_port, private_open, private_close,
  is_off, opened, closed, release, timeout_in, timeout, step, run, new_com,
}

-- A connection in another state that it may be in.
with_state :
    (c : Com) (s : ComState)
    → Inv c
    → (s ≢ off → Live c.protocol c.prot_id)
    → Inv (record c { com_state = s })
with_state c s v l = record {
  queue = v.queue;
  tx_side = record { start = v.tx_side.start; inside = v.tx_side.inside; size = v.tx_side.size };
  rx_side = record { order = v.rx_side.order; inside = v.rx_side.inside; size = v.rx_side.size };
  slot = v.slot;
  live = l;
}

timeout-Inv : (c : Com) → Inv c → Inv (timeout c).0
unfolding timeout
timeout-Inv c v = by_state c.com_state refl
  where
    by_state : (s : ComState) → c.com_state ≡ s → Inv (timeout_in s c).0
    by_state query_bootloader e = with_state c wait_bootloader v (λ _. v.live (λ k. cc (e, k)))
    by_state wait_bootloader e = with_state c rx_tx v (λ _. v.live (λ k. cc (e, k)))
    by_state off e = v
    by_state rx_tx e = v

released_slot :
    (p : Protocol) (prot_id : ℕ) → SlotOk p → SlotOk (protocol_exit (protocol_remove p prot_id).0)
unfolding protocol_exit protocol_remove
released_slot p prot_id v = elim (Bool-cases (p.b_init && ltb prot_id 1)) [
  | inl there ↦ rw there (record {
    valid = record { pos_in = v.valid.pos_in; len_in = v.valid.len_in };
    memory = v.memory;
  })
  | inr away ↦ rw away (record {
    valid = record { pos_in = v.valid.pos_in; len_in = v.valid.len_in };
    memory = v.memory;
  })
]

release-Slot :
    (c : Com)
    → SlotOk c.protocol
    → SlotOk (release c).protocol
      × ((release c).txq ≡ c.txq)
      × (TxOk c → TxOk (release c))
      × (RxOk c → RxOk (release c))
unfolding release
release-Slot c v = elim (Bool-cases (c.prot_id == proto_no_protocol)) [
  | inl none_held ↦ rw none_held (v, refl, λ t. t, λ r. r)
  | inr held ↦ rw held (
    released_slot c.protocol c.prot_id v,
    refl,
    λ t. record { start = t.start; inside = t.inside; size = t.size },
    λ r. record { order = r.order; inside = r.inside; size = r.size },
  )
]

close-Inv : (c : Com) → Inv c → Inv (private_close c).0
unfolding private_close closed
close-Inv c v =
    let (slot, q, tx_side, rx_side) = release-Slot c v.slot in
    let t = tx_side v.tx_side in
    let r = rx_side v.rx_side in
    record {
      queue = record {
        pos_in = omega arith;
        end_in = omega arith;
        few = omega arith;
        slots = v.queue.slots;
      };
      tx_side = record { start = t.start; inside = t.inside; size = t.size };
      rx_side = record { order = r.order; inside = r.inside; size = r.size };
      slot = slot;
      live = λ on. absurd (on refl);
    }

opened-Live :
    (c : Com)
    → SlotOk c.protocol
    → Live (opened c).protocol (opened c).prot_id × SlotOk (opened c).protocol
unfolding opened protocol_init protocol_add protocol_set_buffer
opened-Live c v = (
  record {
    initialised = refl;
    slot = refl;
    receives = omega arith;
    transmits = omega arith;
    flushes = refl;
    buffer_len = refl;
  },
  record { valid = record { pos_in = omega arith; len_in = v.memory }; memory = v.memory },
)

opened-Inv : (c : Com) → Inv c → Inv (opened c)
opened-Inv c v =
    let (l, slot) = opened-Live c v.slot in
    record {
      queue = unfold opened in txq_init-IsValid;
      tx_side =
          unfold opened in
          record { start = v.tx_side.start; inside = v.tx_side.inside; size = v.tx_side.size };
      rx_side =
          unfold opened in
          record { order = omega arith; inside = omega arith; size = v.rx_side.size };
      slot = slot;
      live = λ on. l;
    }

open-Inv : (c : Com) (connects : Bool) → Inv c → Inv (open_port c connects).0
unfolding open_port private_open
open-Inv c true v = elim (Bool-cases (is_off c.com_state)) [
  | inr busy ↦ rw busy v
  | inl idle ↦
      let (l, _) = opened-Live c v.slot in
      rw idle (with_state (opened c) query_bootloader (opened-Inv c v) (λ _. l))
]
open-Inv c false v = elim (Bool-cases (is_off c.com_state)) [
  | inr busy ↦ rw busy v
  | inl idle ↦ rw idle (record {
    queue = txq_init-IsValid;
    tx_side = record { start = v.tx_side.start; inside = v.tx_side.inside; size = v.tx_side.size };
    rx_side = record { order = omega arith; inside = omega arith; size = v.rx_side.size };
    slot = v.slot;
    live = v.live;
  })
]

new_com-Inv : Inv new_com
new_com-Inv = record {
  queue = omega arith;
  tx_side = omega arith;
  rx_side = omega arith;
  slot = omega arith;
  live = λ on. absurd (on refl);
}

module _ (h : BufferHelper) where
  pub step-Inv : (c : Com) (k : Call) → Inv c → Inv (step h c k).0
  unfolding step
  step-Inv c (opens connects) v = open-Inv c connects v
  step-Inv c closes v = close-Inv c v
  step-Inv c times_out v = timeout-Inv c v
  step-Inv c (reads stack incoming) v = ready_read-Inv stack c incoming v
  step-Inv c (sends cmd n) v = Sends-Inv v (send-Sends h c cmd n v.tx_side v.queue)
  step-Inv c (has_written to_write n) v =
      Sends-Inv v (bytes_written-Sends c to_write n v.tx_side v.queue)

  run-Inv : (c : Com) (ks : List Call) → Inv c → Inv (run h c ks).0
  unfolding run
  run-Inv c [] v = v
  run-Inv c (k ∷ ks) v = run-Inv (step h c k).0 ks (step-Inv c k v)

  -- After any history of opening, closing, time-outs, reads, commands and write notices, with any
  -- answers of the port: the buffers' positions are inside the buffers, at most four commands wait,
  -- and unless the connection is off its slot is open for sending and receiving.
  pub run-new-Inv : (ks : List Call) → Inv (run h new_com ks).0
  run-new-Inv ks = run-Inv new_com ks new_com-Inv
