-- ===== src/Serial/Connection.antt =====
-- src/zm_master_com_serial.cpp: opening and closing the port, the timer, and one step of the
-- machine for each call that the rest of the program or Qt makes.
use deconz.Prelude.{
  ℕ, Bool, true, false, not, Option, none, some, List, [], ◌∷◌, ◌++◌, ◌==◌, if◌then◌else◌,
  replicate,
}
use deconz.BufferHelper.{BufferHelper}
use deconz.Protocol.{
  Protocol, Callbacks, proto_no_protocol, protocol_init, protocol_exit, protocol_add,
  protocol_remove, protocol_set_buffer,
}
use deconz.Command.{Command}
use deconz.Serial.{
  Com, ComState, off, query_bootloader, wait_bootloader, rx_tx, Event, connected, disconnected,
  timer_started, port_write, send, bytes_written,
}
use deconz.Serial.Receive.{ready_read}
use deconz.Serial.Txq.{txq_init}

-- PROTO_RX | PROTO_TX | PROTO_FLAGGED | PROTO_TRACE
abbrev pub com_options : ℕ
com_options = 0x96

abbrev com_callbacks : Callbacks
com_callbacks = record { get_c = true; is_c = true; put_c = true; flush = true; packet = true }

-- The static PROT_RxBuffer: zero at first, then as the device slot left it.
abbrev pub prot_rx_buffer : Option (List ℕ) → List ℕ
prot_rx_buffer none = replicate 256 0
prot_rx_buffer (some mem) = mem

abbrev pub set_protocol : Com → Protocol → ℕ → Com
set_protocol c p prot_id = record c { protocol = p; prot_id = prot_id }

-- The state that `SerialComPrivate::open` leaves once the port is open.
unfoldable pub opened : Com → Com
opened c =
    let mem = prot_rx_buffer c.protocol.device.buffer in
    let (p, prot_id) = protocol_add (protocol_init c.protocol) com_options com_callbacks in
    let p' = (protocol_set_buffer p prot_id (some mem) 256).0 in
    record (set_protocol c p' prot_id) {
      txq = txq_init;
      rx_write_pos = 0;
      rx_read_pos = 0;
      port_open = true;
    }

-- `SerialComPrivate::open`; `connects` is whether PL_Connect succeeds. The flag is the result 0.
unfoldable pub private_open : Com → Bool → Com × Bool
private_open c connects =
    if connects
    then (opened c, true)
    else (record c { txq = txq_init; rx_write_pos = 0; rx_read_pos = 0 }, false)

abbrev pub is_off : ComState → Bool
is_off off = true
is_off s = false

-- The protocol slot is given back, if there is one.
unfoldable pub release : Com → Com
release c =
    if c.prot_id == proto_no_protocol
    then c
    else set_protocol c (protocol_exit (protocol_remove c.protocol c.prot_id).0) proto_no_protocol

-- The state that `SerialComPrivate::close` leaves.
unfoldable pub closed : Com → Com
closed c = record (release c) {
  txq = record c.txq { send_end = 0; send_pos = 0 };
  port_open = false;
  com_state = off;
}

-- `SerialComPrivate::close`
unfoldable pub private_close : Com → Com × List Event
private_close c = (closed c, if is_off c.com_state then [] else disconnected ∷ [])

-- `SerialCom::open` for a port name that is not empty
unfoldable pub open_port : Com → Bool → Com × List Event
open_port c connects =
    if not (is_off c.com_state)
    then (c, [])
    else (let (c', opened) = private_open c connects in
        if opened
        then (record c' { com_state = query_bootloader }, timer_started 500 ∷ [])
        else (c', []))

-- `SerialCom::timeout`, by the state, with `queryBootloader`
unfoldable pub timeout_in : ComState → Com → Com × List Event
timeout_in query_bootloader c = (
  record c { com_state = wait_bootloader },
  port_write (b'I' ∷ b'D' ∷ []) ∷ timer_started 1000 ∷ [],
)
timeout_in wait_bootloader c = (record c { com_state = rx_tx }, connected ∷ [])
timeout_in off c = (c, [])
timeout_in rx_tx c = (c, [])

unfoldable pub timeout : Com → Com × List Event
unfolding timeout_in
timeout c = timeout_in c.com_state c

-- A call, with what the port answers to it.
pub data Call : Type 0 where
  opens : Bool → Call
  closes times_out : Call
  reads : Command → List ℕ → Call
  sends : Command → ℕ → Call
  has_written : ℕ → ℕ → Call

module _ (h : BufferHelper) where
  unfoldable pub step : Com → Call → Com × List Event
  step c (opens connects) = open_port c connects
  step c closes = private_close c
  step c times_out = timeout c
  step c (reads stack incoming) = ready_read stack c incoming
  step c (sends cmd nwrite) = (let (_, c', events) = send h c cmd nwrite in (c', events))
  step c (has_written to_write nwrite) = bytes_written c to_write nwrite

  unfoldable pub run : Com → List Call → Com × List Event
  run c [] = (c, [])
  run c (k ∷ ks) =
      let (c', events) = step c k in let (c'', more) = run c' ks in (c'', events ++ more)

-- A SerialCom after its constructor.
abbrev pub new_com : Com
new_com = record {
  com_state = off;
  prot_id = proto_no_protocol;
  protocol = record {
    b_init = false;
    device = record {
      escaped = false;
      options = 0;
      get_c = false;
      is_c = false;
      put_c = false;
      flush = false;
      packet = false;
      buffer = none;
      buffer_len = 0;
      buffer_pos = 0;
    };
  };
  txq = record { send_pos = 0; send_end = 0; send_queue = [] ∷ [] ∷ [] ∷ [] ∷ [] };
  rx_read_pos = 0;
  rx_write_pos = 0;
  rx_buffer = replicate 256 0;
  tx_read_pos = 0;
  tx_write_pos = 0;
  tx_buffer = replicate 1024 0;
  port_open = false;
}
