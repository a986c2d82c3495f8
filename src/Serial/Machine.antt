-- ===== src/Serial/Machine.antt =====
-- src/zm_master_com_serial.cpp: an invariant of the serial connection under any history of calls.
use deconz.Prelude.{
  ℕ, ◌%◌, ◌&&◌, not, ◌≤◌, ◌≡◌, refl, sym, ◌∙◌, subst, some, List, [], ◌∷◌, get_or, length, arith,
  ◌==◌, ltb, length-set, inl, inr, Bool-cases,
}
use deconz.BufferHelper.{BufferHelper}
use deconz.Protocol.Output.{protocol_send}
use deconz.Command.{Command}
use deconz.Command.Encode.{command2buffer}
use deconz.Serial.{Com, ser_putc, put_bytes, flush, tx, send, enqueue, bytes_written, is_rx_tx}
use deconz.Serial.Txq
use deconz.Serial.Txq.{TxQueue, txq_is_full, txq_is_empty, txq_pop}

-- The transmit buffer is whole, is written inside, and is sent from its start.
pub record TxOk (c : Com) : Type 0 where
  pub start : c.tx_read_pos ≡ 0
  pub inside : c.tx_write_pos ≤ 1024
  pub size : length c.tx_buffer ≡ 1024

-- All that sending leaves alone.
pub record SendsOnly (c c' : Com) : Type 0 where
  pub com_state : c'.com_state ≡ c.com_state
  pub prot_id : c'.prot_id ≡ c.prot_id
  pub protocol : c'.protocol ≡ c.protocol
  pub rx_read_pos : c'.rx_read_pos ≡ c.rx_read_pos
  pub rx_write_pos : c'.rx_write_pos ≡ c.rx_write_pos
  pub rx_buffer : c'.rx_buffer ≡ c.rx_buffer

SendsOnly-refl : (c : Com) → SendsOnly c c
SendsOnly-refl c = ground arith

SendsOnly-trans : {a b c : Com} → SendsOnly a b → SendsOnly b c → SendsOnly a c
SendsOnly-trans s t = record {
  com_state = t.com_state ∙ s.com_state;
  prot_id = t.prot_id ∙ s.prot_id;
  protocol = t.protocol ∙ s.protocol;
  rx_read_pos = t.rx_read_pos ∙ s.rx_read_pos;
  rx_write_pos = t.rx_write_pos ∙ s.rx_write_pos;
  rx_buffer = t.rx_buffer ∙ s.rx_buffer;
}

-- What an operation of the sending side keeps.
pub record Sends (c c' : Com) : Type 0 where
  pub same : SendsOnly c c'
  pub queue : Txq.IsValid c'.txq
  pub buffer : TxOk c'

ser_putc-lem :
    (c : Com) (b : ℕ)
    → TxOk c
    → SendsOnly c (ser_putc c b) × TxOk (ser_putc c b) × ((ser_putc c b).txq ≡ c.txq)
unfolding ser_putc
ser_putc-lem c b ok = ground (arith, length-set c.tx_buffer c.tx_write_pos b)

put_bytes-lem :
    (c : Com) (bs : List ℕ)
    → TxOk c
    → SendsOnly c (put_bytes c bs) × TxOk (put_bytes c bs) × ((put_bytes c bs).txq ≡ c.txq)
unfolding put_bytes
put_bytes-lem c [] ok = (SendsOnly-refl c, ok, refl)
put_bytes-lem c (b ∷ bs) ok =
    let (s, k, q) = ser_putc-lem c b ok in
    let (s', k', q') = put_bytes-lem (ser_putc c b) bs k in (SendsOnly-trans s s', k', q' ∙ q)

flush-lem :
    (c : Com) (n : ℕ)
    → TxOk c
    → SendsOnly c (flush c n).0 × TxOk (flush c n).0 × ((flush c n).0.txq ≡ c.txq)
unfolding flush
flush-lem c n ok = ground arith

SendsOnly-queue : (c : Com) (q : TxQueue) → SendsOnly c (record c { txq = q })
SendsOnly-queue c q = record {
  com_state = refl;
  prot_id = refl;
  protocol = refl;
  rx_read_pos = refl;
  rx_write_pos = refl;
  rx_buffer = refl;
}

from_queue : (c : Com) (q : TxQueue) {x : Com} → Sends (record c { txq = q }) x → Sends c x
from_queue c q s = record {
  same = SendsOnly-trans (SendsOnly-queue c q) s.same;
  queue = s.queue;
  buffer = s.buffer;
}

after_put : (c : Com) (out : List ℕ) → TxOk c → Txq.IsValid c.txq → Sends c (put_bytes c out)
after_put c out ok v =
    let (s, k, q) = put_bytes-lem c out ok in
    record { same = s; queue = subst Txq.IsValid (sym q) v; buffer = k }

after_flush :
    (c : Com) (out : List ℕ) (n : ℕ)
    → TxOk c
    → Txq.IsValid c.txq
    → Sends c (flush (put_bytes c out) n).0
after_flush c out n ok v =
    let (s, k, q) = put_bytes-lem c out ok in
    let (s', k', q') = flush-lem (put_bytes c out) n k in
    record { same = SendsOnly-trans s s'; queue = subst Txq.IsValid (sym (q' ∙ q)) v; buffer = k' }

-- `tx` may only send, and keeps the queue valid.
pub tx-Sends : (c : Com) (n : ℕ) → TxOk c → Txq.IsValid c.txq → Sends c (tx c n).0
unfolding tx
tx-Sends c n ok v = elim (Bool-cases (txq_is_empty c.txq)) [
  | inl none_wait ↦ rw none_wait (record { same = SendsOnly-refl c; queue = v; buffer = ok })
  | inr some_wait ↦
      let q = (txq_pop c.txq).1 in
      let v' = (Txq.waiting-pop c.txq v some_wait).1 in
      let c' = record c { txq = q } in
      let s = SendsOnly-queue c q in
      let ok' : TxOk c' = record { start = ok.start; inside = ok.inside; size = ok.size } in
      let buf = get_or c.txq.send_queue (txq_pop c.txq).0 [] in
      let out = protocol_send c.protocol c.prot_id (some buf) (length buf) in
      rw some_wait (elim (Bool-cases (ltb 0 (length buf))) [
        | inr empty ↦ rw empty (record { same = s; queue = v'; buffer = ok' })
        | inl full ↦ rw full (elim (Bool-cases out.1) [
          | inl flushes ↦ rw flushes (from_queue c q (after_flush c' out.0 n ok' v'))
          | inr quiet ↦ rw quiet (from_queue c q (after_put c' out.0 ok' v'))
        ])
      ])
]

module _ (h : BufferHelper) where
  -- `send` may only send, on every branch.
  pub send-Sends :
      (c : Com) (cmd : Command) (n : ℕ) → TxOk c → Txq.IsValid c.txq → Sends c (send h c cmd n).1
  unfolding send
  send-Sends c cmd n ok v = elim (Bool-cases (txq_is_full c.txq)) [
    | inl full ↦ rw full keep
    | inr room ↦
        let q = enqueue h c.txq cmd in
        let v' : Txq.IsValid q =
          unfold enqueue in (Txq.waiting-push c.txq (command2buffer h cmd 196) v room).1 in
        let ok' : TxOk (record c { txq = q }) = record {
          start = ok.start;
          inside = ok.inside;
          size = ok.size;
        } in
        rw room (elim (Bool-cases (is_rx_tx c.com_state)) [
          | inr away ↦ rw away keep
          | inl on ↦ rw on (elim (Bool-cases (ltb 0 (length (command2buffer h cmd 196)))) [
            | inr empty ↦
                rw empty
                  (from_queue c q (record { same = SendsOnly-refl _; queue = v'; buffer = ok' }))
            | inl full ↦ rw full (from_queue c q (tx-Sends (record c { txq = q }) n ok' v'))
          ])
        ])
  ]
    where
      keep : Sends c c
      keep = record { same = SendsOnly-refl c; queue = v; buffer = ok }

pub bytes_written-Sends :
    (c : Com) (to_write n : ℕ) → TxOk c → Txq.IsValid c.txq → Sends c (bytes_written c to_write n).0
unfolding bytes_written
bytes_written-Sends c to_write n ok v =
    elim (Bool-cases (to_write == 0 && not (c.txq.send_pos % 4 == c.txq.send_end % 4))) [
      | inl go ↦ rw go (tx-Sends c n ok v)
      | inr stop ↦ rw stop (record { same = SendsOnly-refl c; queue = v; buffer = ok })
    ]
