-- ===== src/Serial/Transmit.antt =====
-- src/zm_master_com_serial.cpp: `send`, `tx` and `flush`, from a command to the write to the port.
use deconz.Prelude.{
  ℕ, suc, ◌+◌, ◌≤◌, ◌<◌, ◌≡◌, ◌≢◌, ap, sym, ◌∙◌, true, false, some, List, [], ◌∷◌, ◌++◌, length,
  arith, take, set, get_or, length-set, take-set_self, append_assoc, append-nil, bit_and, lt→ltb,
  take_all, subst,
}
use native.Mathlib.Nat.{add-zero}
use native.Mathlib.Numerals.{add-one}
use deconz.Protocol.{proto_tx}
use deconz.Protocol.Output.{protocol_send_flagged, protocol_send}
use deconz.Protocol.Frame.{length-frame}
use deconz.Serial.{Com, port_write, ser_putc, put_bytes, flush, tx}
use deconz.Serial.Txq.{TxQueue, IsValid, txq_is_empty, txq_pop, txq_tests, waiting, waiting-pop}

-- The transmit buffer is whole, and nothing of an earlier frame is in it.
pub record IsIdle (c : Com) : Type 0 where
  pub read_pos : c.tx_read_pos ≡ 0
  pub write_pos : c.tx_write_pos ≡ 0
  pub buffer : length c.tx_buffer ≡ 1024

-- The slot is open for sending.
pub record CanSend (c : Com) : Type 0 where
  pub initialised : c.protocol.b_init ≡ true
  pub slot : c.prot_id ≡ 0
  pub transmits : bit_and c.protocol.device.options proto_tx ≢ 0
  pub flushes : c.protocol.device.flush ≡ true

ser_putc_lem :
    (c : Com) (b : ℕ)
    → c.tx_write_pos < 1024
    → ser_putc c b
      ≡ record c { tx_buffer = set c.tx_buffer c.tx_write_pos b; tx_write_pos = c.tx_write_pos + 1 }
unfolding ser_putc
ser_putc_lem c b room = rw (lt→ltb _ _ room)

-- Bytes for which there is room are buffered behind those that are there, and nothing else changes.
put_bytes_lem :
    (c : Com) (bs : List ℕ)
    → length c.tx_buffer ≡ 1024
    → c.tx_write_pos + length bs ≤ 1024
    → (buf : List ℕ) × (put_bytes c bs
        ≡ record c { tx_buffer = buf; tx_write_pos = c.tx_write_pos + length bs })
      × (take (c.tx_write_pos + length bs) buf ≡ take c.tx_write_pos c.tx_buffer ++ bs)
      × (length buf ≡ 1024)
unfolding put_bytes
put_bytes_lem c [] size room = (c.tx_buffer, rw add-zero, rw (add-zero, append-nil), size)
put_bytes_lem c (b ∷ bs) size room =
    let w = c.tx_write_pos in
    let one = set c.tx_buffer w b in
    let (buf, e, t, l) =
      put_bytes_lem (record c { tx_buffer = one; tx_write_pos = w + 1 }) bs
        (length-set c.tx_buffer w b ∙ size) (omega arith) in
    let shift : w + 1 + length bs ≡ w + suc (length bs) = omega arith in
    (
      buf,
      rw (ser_putc_lem c b (omega arith)) (e ∙ rw shift),
      rw (← shift) (t ∙ rw (add-one, take-set_self c.tx_buffer w b (omega arith), append_assoc)),
      l,
    )

-- What `flush` writes of a buffer that has just been filled from the start.
flush_all :
    (c : Com) (nwrite : ℕ)
    → c.tx_read_pos ≡ 0
    → 0 < c.tx_write_pos
    → c.tx_write_pos ≤ 1024
    → (flush c nwrite).1 ≡ port_write (take c.tx_write_pos c.tx_buffer) ∷ []
unfolding flush
flush_all c nwrite start some_bytes fits = ground arith

txq-flush : (c : Com) (nwrite : ℕ) → (flush c nwrite).0.txq ≡ c.txq
unfolding flush
txq-flush c nwrite = ground arith

-- A write that takes something leaves the transmit buffer empty.
flush-IsIdle :
    (c : Com) (nwrite : ℕ) → 0 < nwrite → length c.tx_buffer ≡ 1024 → IsIdle (flush c nwrite).0
unfolding flush
flush-IsIdle c nwrite took size = ground arith

protocol_send_lem :
    (c : Com) (b : List ℕ)
    → CanSend c
    → 0 < length b
    → protocol_send c.protocol c.prot_id (some b) (length b) ≡ (protocol_send_flagged b, true)
unfolding protocol_send
protocol_send_lem c b can some_bytes =
    ground (arith, take_all b (length b), can.flushes, can.transmits)

frame_fits :
    (b : List ℕ)
    → length b ≤ 196
    → (0 < length (protocol_send_flagged b)) × (length (protocol_send_flagged b) ≤ 1024)
frame_fits b short = (unfold protocol_send_flagged in omega arith, omega (arith, length-frame b))

-- A frame that is buffered from empty and flushed goes to the port in one piece.
send_frame :
    (c : Com) (b : List ℕ) (nwrite : ℕ)
    → IsIdle c
    → length b ≤ 196
    → let (c', events) = flush (put_bytes c (protocol_send_flagged b)) nwrite in
      (events ≡ port_write (protocol_send_flagged b) ∷ [])
      × (c'.txq ≡ c.txq)
      × (0 < nwrite → IsIdle c')
send_frame c b nwrite idle short =
    let frame = protocol_send_flagged b in
    let (positive, small) = frame_fits b short in
    let (buf, e, t, l) = put_bytes_lem c frame idle.buffer (omega (arith, idle.write_pos)) in
    let from_zero : c.tx_write_pos + length frame ≡ length frame = omega (arith, idle.write_pos) in
    let c' = record c { tx_buffer = buf; tx_write_pos = c.tx_write_pos + length frame } in
    let prefix : take (c.tx_write_pos + length frame) buf ≡ frame =
      t ∙ ap (λ n. take n c.tx_buffer ++ frame) idle.write_pos in
    rw e (
      flush_all c' nwrite idle.read_pos (omega arith) (omega arith)
          ∙ ap (λ xs. port_write xs ∷ []) prefix,
      txq-flush c' nwrite,
      λ took. flush-IsIdle c' nwrite took l,
    )

pub not_empty :
    (q : TxQueue) (b : List ℕ) (rest : List (List ℕ))
    → IsValid q
    → waiting q ≡ b ∷ rest
    → txq_is_empty q ≡ false
not_empty q b rest v w = (txq_tests q v).0 ∙ rw w (ground arith)

-- The oldest entry and the queue behind it.
pub oldest :
    (q : TxQueue) (b : List ℕ) (rest : List (List ℕ))
    → IsValid q
    → waiting q ≡ b ∷ rest
    → let (slot, q') = txq_pop q in
      (get_or q.send_queue slot [] ≡ b) × (waiting q' ≡ rest) × IsValid q'
oldest q b rest v w =
    let (split, v') = waiting-pop q v (not_empty q b rest v w) in (cc (split, w), cc (split, w), v')

tx_lem :
    (c : Com) (nwrite : ℕ) (b : List ℕ)
    → CanSend c
    → txq_is_empty c.txq ≡ false
    → get_or c.txq.send_queue (txq_pop c.txq).0 [] ≡ b
    → 0 < length b
    → tx c nwrite
      ≡ flush (put_bytes (record c { txq = (txq_pop c.txq).1 }) (protocol_send_flagged b)) nwrite
unfolding tx
tx_lem c nwrite b can full e some_bytes =
    rw (full, e, lt→ltb _ _ some_bytes, protocol_send_lem c b can some_bytes)

-- With the slot open, an empty transmit buffer and a waiting entry of 1 to 196 bytes, `tx` takes the
-- oldest entry off the queue and writes exactly its frame to the port, in one piece. If the port
-- takes anything of it, the transmit buffer is empty again.
pub tx_writes_frame :
    (c : Com) (nwrite : ℕ) (b : List ℕ) (rest : List (List ℕ))
    → CanSend c
    → IsIdle c
    → IsValid c.txq
    → waiting c.txq ≡ b ∷ rest
    → 0 < length b
    → length b ≤ 196
    → let (c', events) = tx c nwrite in
      (events ≡ port_write (protocol_send_flagged b) ∷ [])
      × (waiting c'.txq ≡ rest)
      × IsValid c'.txq
      × (0 < nwrite → IsIdle c')
tx_writes_frame c nwrite b rest can idle v w some_bytes short =
    let (e, w', v') = oldest c.txq b rest v w in
    let c' = record c { txq = (txq_pop c.txq).1 } in
    let idle' : IsIdle c' = record {
      read_pos = idle.read_pos;
      write_pos = idle.write_pos;
      buffer = idle.buffer;
    } in
    let (events, q, after) = send_frame c' b nwrite idle' short in
    rw (tx_lem c nwrite b can (not_empty c.txq b rest v w) e some_bytes)
      (events, ap waiting q ∙ w', subst IsValid (sym q) v', after)
