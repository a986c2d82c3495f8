-- ===== src/Serial/Tests.antt =====
-- The theorems about src/zm_master_com_serial.cpp at concrete connections.
use deconz.Prelude.{ℕ, ◌<◌, ◌≡◌, refl, true, false, some, arith, [], ◌∷◌, map, replicate}
use deconz.BufferHelper.{little_endian, little_endian-IsLittleEndian}
use deconz.Protocol.{Protocol}
use deconz.Protocol.Output.{protocol_send_flagged}
use deconz.Protocol.Receive.{feed}
use deconz.Protocol.RoundTrip.{Holds, send_each}
use deconz.Command.Encode.{command2buffer}
use deconz.Command.Tests.{request, stack_memory, request-IsUnion, request_printed}
use deconz.Serial.{Com, rx_tx, port_write, sent, queue_full, ser_isc, tx, send, bytes_written}
use deconz.Serial.Txq.{TxQueue, IsValid, txq_is_empty, txq_is_full, waiting}
use deconz.Serial.Receive.{unread, packet_events, rx}
use deconz.Serial.Drain.{IsOpen, rx_drains}
use deconz.Serial.Transmit.{IsIdle, CanSend, tx_writes_frame}
use deconz.Serial.Commands.{send_transmits, full_queue_stuck}
use deconz.Serial.Link.{IsSendable, Delivers, link-Delivers}
use deconz.Serial.Connection.{opens, closes, times_out, reads, sends, has_written, run, new_com}
use deconz.Serial.Invariant.{Inv}
use deconz.Serial.History.{run-new-Inv}

abbrev pub slot : Protocol
slot = record {
  b_init = true;
  device = record {
    escaped = false;
    options = 6;
    get_c = true;
    is_c = true;
    put_c = true;
    flush = true;
    packet = true;
    buffer = some (replicate 256 0);
    buffer_len = 256;
    buffer_pos = 0;
  };
}

abbrev queue_of : ℕ → ℕ → TxQueue
queue_of pos end = record {
  send_pos = pos;
  send_end = end;
  send_queue = (1 ∷ []) ∷ (2 ∷ []) ∷ (3 ∷ []) ∷ (4 ∷ []) ∷ [];
}

-- A connection in ZM_STATE_RX_TX, with the given queue and with two bytes to read.
abbrev com_of : TxQueue → Com
com_of q = record new_com {
  com_state = rx_tx;
  prot_id = 0;
  protocol = slot;
  txq = q;
  rx_write_pos = 2;
}

-- Nothing waits; one entry waits and the positions have wrapped; four wait.
abbrev pub quiet : Com
quiet = com_of (queue_of 2 2)

abbrev one_waits : Com
one_waits = com_of (queue_of 255 0)

abbrev full : Com
full = com_of (queue_of 254 2)

pub quiet-IsValid : IsValid quiet.txq
quiet-IsValid = omega arith

one-IsValid : IsValid one_waits.txq
one-IsValid = omega arith

full-IsValid : IsValid full.txq
full-IsValid = omega arith

slot-IsOpen : IsOpen slot 0
slot-IsOpen = record { initialised = refl; slot = refl; receives = omega arith }

pub quiet-CanSend : CanSend quiet
quiet-CanSend = record { initialised = refl; slot = refl; transmits = omega arith; flushes = refl }

one-CanSend : CanSend one_waits
one-CanSend = record { initialised = refl; slot = refl; transmits = omega arith; flushes = refl }

pub quiet-IsIdle : IsIdle quiet
quiet-IsIdle = record { read_pos = refl; write_pos = refl; buffer = refl }

one-IsIdle : IsIdle one_waits
one-IsIdle = record { read_pos = refl; write_pos = refl; buffer = refl }

pub slot-Holds : Holds slot.device []
slot-Holds = record {
  contents = refl;
  position = refl;
  unescaped = refl;
  callback = refl;
  len_in = omega arith;
}

request-IsSendable : IsSendable little_endian request
request-IsSendable = record {
  union = request-IsUnion;
  not_ack = omega arith;
  printed = request_printed;
}

none_wait : txq_is_empty one_waits.txq ≡ false
unfolding txq_is_empty
none_wait = refl

has_room : txq_is_full one_waits.txq ≡ false
unfolding txq_is_full
has_room = refl

some_unread : ser_isc quiet ≡ true
unfolding ser_isc
some_unread = refl

link-Delivers_example : Delivers little_endian (request ∷ request ∷ []) (
    packet_events stack_memory
      (feed slot.device
        (send_each (map (λ c. command2buffer little_endian c 196) (request ∷ request ∷ [])))).1)
link-Delivers_example =
    link-Delivers little_endian-IsLittleEndian stack_memory refl slot.device
      (request ∷ request ∷ []) slot-Holds refl (request-IsSendable, (request-IsSendable, tt))

run-new-Inv_example :
    Inv
      (run little_endian new_com (
        opens true
        ∷ times_out
        ∷ times_out
        ∷ sends request 17
        ∷ has_written 0 3
        ∷ reads stack_memory (0xC0 ∷ 1 ∷ [])
        ∷ closes
        ∷ [])).0
run-new-Inv_example = run-new-Inv little_endian (
    opens true
    ∷ times_out
    ∷ times_out
    ∷ sends request 17
    ∷ has_written 0 3
    ∷ reads stack_memory (0xC0 ∷ 1 ∷ [])
    ∷ closes
    ∷ [])

send_transmits_example :
    let (result, c', events) = send little_endian quiet request 17 in
    (result ≡ sent)
    × (events ≡ port_write (protocol_send_flagged (command2buffer little_endian request 196)) ∷ [])
    × (waiting c'.txq ≡ [])
    × IsValid c'.txq
    × (0 < 17 → IsIdle c')
send_transmits_example =
    send_transmits little_endian little_endian-IsLittleEndian quiet request 17 quiet-CanSend
      quiet-IsIdle quiet-IsValid refl refl request-IsUnion request_printed

rx_drains_example :
    let (c', events) = rx stack_memory quiet in
    let (d, packets) = feed slot.device (unread quiet) in
    (events ≡ packet_events stack_memory packets) × (c'.protocol.device ≡ d) × (ser_isc c' ≡ false)
rx_drains_example = rx_drains stack_memory quiet slot-IsOpen

tx_writes_frame_example :
    let (c', events) = tx one_waits 9 in
    (events ≡ port_write (protocol_send_flagged (4 ∷ [])) ∷ [])
    × (waiting c'.txq ≡ [])
    × IsValid c'.txq
    × (0 < 9 → IsIdle c')
tx_writes_frame_example =
    tx_writes_frame one_waits 9 (4 ∷ []) [] one-CanSend one-IsIdle one-IsValid refl (omega arith)
      (omega arith)

shut : ¬ IsOpen slot 1
shut o = omega (arith, o.slot)

full_queue_stuck_example :
    (send little_endian full request 9 ≡ (queue_full, full, []))
    × (bytes_written full 0 9 ≡ (full, []))
full_queue_stuck_example = full_queue_stuck little_endian full request 0 9 full-IsValid refl
