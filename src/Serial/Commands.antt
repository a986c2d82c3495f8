-- ===== src/Serial/Commands.antt =====
-- src/zm_master_com_serial.cpp: `SerialCom::send` as a whole, in good order and when a command
-- has no frame.
use deconz.Prelude.{
  ℕ, ◌%◌, get_or, ◌<◌, ◌≡◌, ◌≢◌, refl, ap, sym, ◌∙◌, true, false, List, [], ◌∷◌, ◌++◌, length,
  arith, ◌==◌, lt→ltb,
}
use deconz.BufferHelper.{BufferHelper, IsLittleEndian}
use deconz.Protocol.Output.{protocol_send_flagged}
use deconz.Command.{Command}
use deconz.Command.Encode.{command2buffer}
use deconz.Command.Print.{IsUnion, length-command2buffer}
use deconz.Serial.{
  Com, rx_tx, port_write, sent, queue_full, no_frame, tx, enqueue, send, bytes_written,
}
use deconz.Serial.Txq.{
  TxQueue, IsValid, txq_is_empty, txq_is_full, txq_pop, txq_tests, waiting, put_entry, waiting-push,
  count, length-waiting,
}
use deconz.Serial.Transmit.{IsIdle, CanSend, tx_writes_frame, not_empty, oldest}

-- An empty entry is taken off the queue, and nothing is written.
tx_skips :
    (c : Com) (nwrite : ℕ)
    → txq_is_empty c.txq ≡ false
    → get_or c.txq.send_queue (txq_pop c.txq).0 [] ≡ []
    → tx c nwrite ≡ (record c { txq = (txq_pop c.txq).1 }, [])
unfolding tx
tx_skips c nwrite full e = rw (full, e)

length-pos : (bs : List ℕ) → bs ≢ [] → 0 < length bs
length-pos [] h = absurd (h refl)
length-pos (b ∷ bs) h = omega arith

module _ (h : BufferHelper) where
  enqueue-put_entry :
      (q : TxQueue) (cmd : Command) → enqueue h q cmd ≡ put_entry q (command2buffer h cmd 196)
  unfolding enqueue
  enqueue-put_entry q cmd = refl

  send_lem :
      (c : Com) (cmd : Command) (nwrite : ℕ)
      → c.com_state ≡ rx_tx
      → txq_is_full c.txq ≡ false
      → 0 < length (command2buffer h cmd 196)
      → send h c cmd nwrite ≡ (
          let (c', events) = tx (record c { txq = enqueue h c.txq cmd }) nwrite in
          (sent, c', events))
  unfolding send
  send_lem c cmd nwrite on room printed = rw (on, room, lt→ltb _ _ printed)

  -- A command without a frame is reported, and leaves an empty entry in the queue.
  send_no_frame :
      (c : Com) (cmd : Command) (nwrite : ℕ)
      → c.com_state ≡ rx_tx
      → txq_is_full c.txq ≡ false
      → command2buffer h cmd 196 ≡ []
      → send h c cmd nwrite ≡ (no_frame, record c { txq = enqueue h c.txq cmd }, [])
  unfolding send
  send_no_frame c cmd nwrite on room unprinted = rw (on, room, unprinted)

  full_is_four : (q : TxQueue) → IsValid q → waiting q ≡ [] → txq_is_full q ≡ false
  full_is_four q v none_wait = (txq_tests q v).1 ∙ rw none_wait (ground arith)

  -- With the connection up and its slot open, nothing waiting and an empty transmit buffer, a
  -- command with a frame is written to the port at once, in one piece, and the queue is empty
  -- again; so is the transmit buffer, if the port takes anything. The stores are little endian.
  pub send_transmits :
      IsLittleEndian h
      → (c : Com) (cmd : Command) (nwrite : ℕ) → CanSend c
      → IsIdle c
      → IsValid c.txq
      → c.com_state ≡ rx_tx
      → waiting c.txq ≡ []
      → IsUnion cmd.payload
      → command2buffer h cmd 196 ≢ []
      → let (result, c', events) = send h c cmd nwrite in
        (result ≡ sent)
        × (events ≡ port_write (protocol_send_flagged (command2buffer h cmd 196)) ∷ [])
        × (waiting c'.txq ≡ [])
        × IsValid c'.txq
        × (0 < nwrite → IsIdle c')
  send_transmits le c cmd nwrite can idle v on none_wait u printed =
      let frame = command2buffer h cmd 196 in
      let room = full_is_four c.txq v none_wait in
      let (w, v') = waiting-push c.txq frame v room in
      let positive : 0 < length frame = length-pos frame printed in
      let c' = record c { txq = put_entry c.txq frame } in
      let can' : CanSend c' = record {
        initialised = can.initialised;
        slot = can.slot;
        transmits = can.transmits;
        flushes = can.flushes;
      } in
      let idle' : IsIdle c' = record {
        read_pos = idle.read_pos;
        write_pos = idle.write_pos;
        buffer = idle.buffer;
      } in
      let (e, rest, valid, after) =
        tx_writes_frame c' nwrite frame [] can' idle' v' (w ∙ ap (λ xs. xs ++ frame ∷ []) none_wait)
          positive (omega (arith, length-command2buffer le cmd u)) in
      rw (send_lem c cmd nwrite on room positive, enqueue-put_entry c.txq cmd)
        (refl, e, rest, valid, after)

  -- Once four entries of a valid queue wait, nothing moves any more: `send` refuses every command,
  -- and `bytesWritten`, which takes a full queue for an empty one, sends none of them.
  pub full_queue_stuck :
      (c : Com) (cmd : Command) (to_write nwrite : ℕ)
      → IsValid c.txq
      → length (waiting c.txq) ≡ 4
      → (send h c cmd nwrite ≡ (queue_full, c, [])) × (bytes_written c to_write nwrite ≡ (c, []))
  unfolding send bytes_written
  full_queue_stuck c cmd to_write nwrite v four =
      let full : txq_is_full c.txq ≡ true = (txq_tests c.txq v).1 ∙ rw four (ground arith) in
      let waits : count c.txq ≡ 4 = sym (length-waiting c.txq) ∙ four in
      let same : (c.txq.send_pos % 4 == c.txq.send_end % 4) ≡ true = ground arith in
      (rw full refl, ground arith)

  -- With the connection up and nothing waiting, a command without a frame leaves an empty entry
  -- behind, and the next command is then reported as sent while nothing of it goes to the port: its
  -- frame stays in the queue.
  pub no_frame_delays :
      (c : Com) (bad good : Command) (n m : ℕ)
      → IsValid c.txq
      → c.com_state ≡ rx_tx
      → waiting c.txq ≡ []
      → command2buffer h bad 196 ≡ []
      → command2buffer h good 196 ≢ []
      → let (first, c', _) = send h c bad n in
        let (second, c'', events) = send h c' good m in
        (first ≡ no_frame)
        × (second ≡ sent)
        × (events ≡ [])
        × (waiting c''.txq ≡ command2buffer h good 196 ∷ [])
  no_frame_delays c bad good n m v on none_wait unprinted printed =
      let room = full_is_four c.txq v none_wait in
      let (w1, v1) = waiting-push c.txq [] v room in
      let q1 = put_entry c.txq [] in
      let frame = command2buffer h good 196 in
      let one : waiting q1 ≡ [] ∷ [] = w1 ∙ ap (λ xs. xs ++ [] ∷ []) none_wait in
      let room1 : txq_is_full q1 ≡ false = (txq_tests q1 v1).1 ∙ rw one (ground arith) in
      let (w2, v2) = waiting-push q1 frame v1 room1 in
      let q2 = put_entry q1 frame in
      let two : waiting q2 ≡ [] ∷ frame ∷ [] = w2 ∙ ap (λ xs. xs ++ frame ∷ []) one in
      let (e, rest, _) = oldest q2 [] (frame ∷ []) v2 two in
      let skip = tx_skips (record c { txq = q2 }) m (not_empty q2 [] (frame ∷ []) v2 two) e in
      rw
        (
          send_no_frame c bad n on room unprinted,
          enqueue-put_entry c.txq bad,
          unprinted,
          send_lem (record c { txq = q1 }) good m on room1 (length-pos frame printed),
          enqueue-put_entry q1 good,
          skip,
        )
        (refl, refl, refl, rest)
