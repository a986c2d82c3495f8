-- ===== src/Serial/Invariant.antt =====
-- src/zm_master_com_serial.cpp: an invariant of the serial connection under any history of calls.
use deconz.Prelude.{
  ℕ, suc, ◌+◌, ◌-◌, ◌≤◌, ◌≡◌, ◌≢◌, refl, sym, ◌∙◌, subst, true, List, [], ◌∷◌, length, arith, ◌==◌,
  ltb, leb, leb→le, set, length-set, bit_and, inl, inr, Bool-cases,
}
use deconz.Protocol.{Protocol, proto_rx, proto_tx}
use deconz.Protocol.Receive
use deconz.Command.{Command, write}
use deconz.Serial.{Com, ComState, off, query_bootloader, wait_bootloader, rx_tx}
use deconz.Serial.Txq
use deconz.Serial.Txq.{TxQueue, txq_init}
use deconz.Serial.Receive.{unread, read_to, rx, process, ready_read}
use deconz.Serial.Keeps.{mem_len, ProtocolKeeps, rx_loop-Keeps}
use deconz.Serial.Machine.{TxOk, Sends}

-- The receive buffer is whole, and its positions are in order and inside.
pub record RxOk (c : Com) : Type 0 where
  pub order : c.rx_read_pos ≤ c.rx_write_pos
  pub inside : c.rx_write_pos ≤ 256
  pub size : length c.rx_buffer ≡ 256

-- The device slot never points outside its memory.
pub record SlotOk (p : Protocol) : Type 0 where
  pub valid : Receive.IsValid p.device
  pub memory : 256 ≤ mem_len p.device

-- The slot of a connection that is not off: open both ways, with the whole receive buffer.
pub record Live (p : Protocol) (prot_id : ℕ) : Type 0 where
  pub initialised : p.b_init ≡ true
  pub slot : prot_id ≡ 0
  pub receives : bit_and p.device.options proto_rx ≢ 0
  pub transmits : bit_and p.device.options proto_tx ≢ 0
  pub flushes : p.device.flush ≡ true
  pub buffer_len : p.device.buffer_len ≡ 256

pub record Inv (c : Com) : Type 0 where
  pub queue : Txq.IsValid c.txq
  pub tx_side : TxOk c
  pub rx_side : RxOk c
  pub slot : SlotOk c.protocol
  pub live : c.com_state ≢ off → Live c.protocol c.prot_id

length-write : (mem : List ℕ) (i : ℕ) (bs : List ℕ) → length (write mem i bs) ≡ length mem
length-write mem i [] = refl
length-write mem i (b ∷ bs) = length-write (set mem i b) (suc i) bs ∙ length-set mem i b

-- Sending keeps the invariant.
pub Sends-Inv : {c c' : Com} → Inv c → Sends c c' → Inv c'
Sends-Inv v s = record {
  queue = s.queue;
  tx_side = s.buffer;
  rx_side = ground arith;
  slot = subst SlotOk (sym s.same.protocol) v.slot;
  live = rw (s.same.com_state, s.same.protocol, s.same.prot_id) v.live;
}

SlotOk-Keeps : {p p' : Protocol} → SlotOk p → ProtocolKeeps p p' → SlotOk p'
SlotOk-Keeps s k = record {
  valid = k.device.valid s.valid;
  memory = omega (arith, k.device.memory, s.memory);
}

Live-Keeps : {p p' : Protocol} {prot_id : ℕ} → Live p prot_id → ProtocolKeeps p p' → Live p' prot_id
Live-Keeps l k = record {
  initialised = k.b_init ∙ l.initialised;
  slot = l.slot;
  receives = rw k.device.options l.receives;
  transmits = rw k.device.options l.transmits;
  flushes = k.device.flush ∙ l.flushes;
  buffer_len = k.device.buffer_len ∙ l.buffer_len;
}

-- The invariant with other read positions and another receive state.
with_receive :
    (c : Com) (p : Protocol) (r w : ℕ)
    → Inv c
    → ProtocolKeeps c.protocol p
    → r ≤ w
    → w ≤ 256
    → Inv (record c { protocol = p; rx_read_pos = r; rx_write_pos = w })
with_receive c p r w v k order inside = record {
  queue = v.queue;
  tx_side = record { start = v.tx_side.start; inside = v.tx_side.inside; size = v.tx_side.size };
  rx_side = record { order = order; inside = inside; size = v.rx_side.size };
  slot = SlotOk-Keeps v.slot k;
  live = λ on. Live-Keeps (v.live on) k;
}

read_to-Inv :
    (c : Com) (p : Protocol) (rest : List ℕ)
    → Inv c
    → ProtocolKeeps c.protocol p
    → length rest ≤ length (unread c)
    → Inv (record (read_to c rest) { protocol = p })
read_to-Inv c p [] v k h = elim (Bool-cases (ltb c.rx_read_pos c.rx_write_pos)) [
  | inl some_left ↦ rw some_left (with_receive c p 0 0 v k (omega arith) (omega arith))
  | inr none_left ↦
      rw none_left
        (with_receive c p c.rx_read_pos c.rx_write_pos v k v.rx_side.order v.rx_side.inside)
]
read_to-Inv c p (b ∷ rest) v k h =
    with_receive c p (c.rx_write_pos - length (b ∷ rest)) c.rx_write_pos v k (omega arith)
      v.rx_side.inside

-- Reading out the receive buffer keeps the invariant, also on a slot that is not open.
rx-Inv : (stack : Command) (c : Com) → Inv c → Inv (rx stack c).0
unfolding rx
rx-Inv stack c v =
    let (k, l) = rx_loop-Keeps (length (unread c)) c.protocol c.prot_id (unread c) in
    read_to-Inv c _ _ v k l

process-Inv : (stack : Command) (s : ComState) (c : Com) → Inv c → Inv (process stack s c).0
unfolding process
process-Inv stack rx_tx c v = rx-Inv stack c v
process-Inv stack wait_bootloader c v = rx-Inv stack c v
process-Inv stack off c v = v
process-Inv stack query_bootloader c v = v

-- The invariant with other contents of the receive buffer.
with_bytes :
    (c : Com) (buf : List ℕ) (w : ℕ)
    → Inv c
    → c.rx_read_pos ≤ w
    → w ≤ 256
    → length buf ≡ 256
    → Inv (record c { rx_buffer = buf; rx_write_pos = w })
with_bytes c buf w v order inside size = record {
  queue = v.queue;
  tx_side = record { start = v.tx_side.start; inside = v.tx_side.inside; size = v.tx_side.size };
  rx_side = record { order = order; inside = inside; size = size };
  slot = v.slot;
  live = v.live;
}

pub ready_read-Inv :
    (stack : Command) (c : Com) (incoming : List ℕ) → Inv c → Inv (ready_read stack c incoming).0
unfolding ready_read
ready_read-Inv stack c incoming v = elim (Bool-cases (c.rx_write_pos == 256)) [
  | inl full ↦ rw full (rx-Inv stack c v)
  | inr room ↦
      let buf = write c.rx_buffer c.rx_write_pos incoming in
      let size : length buf ≡ 256 =
        length-write c.rx_buffer c.rx_write_pos incoming ∙ v.rx_side.size in
      rw room (elim (Bool-cases (leb (length incoming + c.rx_write_pos) 256)) [
        | inl fits ↦ rw fits (
            process-Inv stack c.com_state _ (
              with_bytes c buf (c.rx_write_pos + length incoming) v (omega (arith, v.rx_side.order))
                (omega (arith, leb→le _ _ fits)) size))
        | inr over ↦ rw over (
            process-Inv stack c.com_state _
              (with_bytes c buf c.rx_write_pos v v.rx_side.order v.rx_side.inside size))
      ])
]
