-- ===== src/Serial.antt =====
-- src/zm_master_com_serial.cpp, in the build with QSerialPort: the state of SerialComPrivate and
-- its operations. The port's answers are arguments; signals, timer starts and writes to the port
-- are the events that an operation returns, in order.
pub mod Txq
pub mod Receive
pub mod Drain
pub mod Transmit
pub mod Commands
pub mod Link
pub mod Connection
pub mod Machine
pub mod History
pub mod Invariant
pub mod Keeps
pub mod Tests
use deconz.Prelude.{
  ℕ, zero, suc, ◌+◌, ◌-◌, ◌%◌, Bool, true, false, not, ◌&&◌, ◌||◌, Option, none, some, List, [],
  ◌∷◌, ◌++◌, ltb, leb, ◌==◌, if◌then◌else◌, get_or, take, drop, set, length, replicate,
}
use deconz.BufferHelper.{BufferHelper}
use deconz.Protocol.{
  Protocol, Callbacks, proto_no_protocol, protocol_init, protocol_exit, protocol_add,
  protocol_remove, protocol_set_buffer,
}
use deconz.Protocol.Input.{protocol_receive}
use deconz.Protocol.Output.{protocol_send}
use deconz.Command.{Command, ParseStatus, parse_ok, write}
use deconz.Command.Decode.{buffer2command}
use deconz.Command.Encode.{command2buffer}
use Txq.{TxQueue, txq_init, txq_is_empty, txq_is_full, txq_push, txq_pop}

abbrev pub rx_buffer_size : ℕ
rx_buffer_size = 256

abbrev pub tx_buffer_size : ℕ
tx_buffer_size = 1024

abbrev pub max_send_length : ℕ
max_send_length = 196

-- `ComState`, without the prefix of its constants.
pub data ComState : Type 0 where
  off query_bootloader wait_bootloader rx_tx : ComState

-- What the rest of the program sees of an operation. `port_write` is a call of PL_Write.
pub data Event : Type 0 where
  connected disconnected bootloader_started timer_stopped : Event
  timer_started : ℕ → Event
  port_write : List ℕ → Event
  on_packet : Command → Event

-- `SerialComPrivate`, with the file's send queue, and the state of protocol.c.
pub record Com : Type 0 where
  pub com_state : ComState
  pub prot_id : ℕ
  pub protocol : Protocol
  pub txq : TxQueue
  pub rx_read_pos : ℕ
  pub rx_write_pos : ℕ
  pub rx_buffer : List ℕ
  pub tx_read_pos : ℕ
  pub tx_write_pos : ℕ
  pub tx_buffer : List ℕ
  pub port_open : Bool

-- `SER_Getc`
unfoldable pub ser_getc : Com → ℕ × Com
ser_getc c =
    if ltb c.rx_read_pos c.rx_write_pos
    then (
      get_or c.rx_buffer c.rx_read_pos 0,
      if c.rx_read_pos + 1 == c.rx_write_pos
          then record c { rx_read_pos = 0; rx_write_pos = 0 }
          else record c { rx_read_pos = c.rx_read_pos + 1 },
    )
    else (0, c)

-- `SER_Isc`
unfoldable pub ser_isc : Com → Bool
ser_isc c = ltb c.rx_read_pos c.rx_write_pos

-- `SER_Putc`
unfoldable pub ser_putc : Com → ℕ → Com
ser_putc c b =
    if ltb c.tx_write_pos tx_buffer_size
    then record c {
      tx_buffer = set c.tx_buffer c.tx_write_pos b;
      tx_write_pos = c.tx_write_pos + 1;
    }
    else c

-- What `protocol_send` passes to `SER_Putc`, byte by byte.
unfoldable pub put_bytes : Com → List ℕ → Com
unfolding ser_putc
put_bytes c [] = c
put_bytes c (b ∷ bs) = put_bytes (ser_putc c b) bs

-- `flush`; `nwrite` is what PL_Write returns, 0 for an error. After a write that took something
-- both positions are 0, whatever is left.
unfoldable pub flush : Com → ℕ → Com × List Event
flush c nwrite =
    if leb c.tx_write_pos c.tx_read_pos || ltb tx_buffer_size c.tx_write_pos
    then (record c { tx_read_pos = 0; tx_write_pos = 0 }, [])
    else (let out = take (c.tx_write_pos - c.tx_read_pos) (drop c.tx_read_pos c.tx_buffer) in
        (
          if ltb 0 nwrite
              then if ltb tx_buffer_size (c.tx_read_pos + nwrite)
                  || leb c.tx_write_pos (c.tx_read_pos + nwrite)
                then record c { tx_read_pos = 0; tx_write_pos = 0 }
                else if c.tx_write_pos == c.tx_read_pos + nwrite
                then record c { tx_read_pos = c.tx_read_pos + nwrite }
                else record c { tx_read_pos = 0; tx_write_pos = 0 }
              else c,
          port_write out ∷ [],
        ))

-- `tx`
unfoldable pub tx : Com → ℕ → Com × List Event
tx c nwrite =
    if txq_is_empty c.txq
    then (c, [])
    else (let (slot, q) = txq_pop c.txq in
        let buf = get_or c.txq.send_queue slot [] in
        let c' = record c { txq = q } in
        if ltb 0 (length buf)
        then (let (out, flushes) = protocol_send c.protocol c.prot_id (some buf) (length buf) in
            if flushes then flush (put_bytes c' out) nwrite else (put_bytes c' out, []))
        else (c', []))

-- What `SerialCom::send` returns: 0, -1, -2 and -3.
pub data SendResult : Type 0 where
  sent queue_full not_connected no_frame : SendResult

abbrev pub is_rx_tx : ComState → Bool
is_rx_tx rx_tx = true
is_rx_tx s = false

module _ (h : BufferHelper) where
  -- The queue as `SerialCom::send` leaves it for `tx`.
  unfoldable pub enqueue : TxQueue → Command → TxQueue
  enqueue q cmd =
      let (ins, q') = txq_push q in
      record q' { send_queue = set q'.send_queue ins (command2buffer h cmd max_send_length) }

  -- `SerialCom::send`
  unfoldable pub send : Com → Command → ℕ → SendResult × Com × List Event
  send c cmd nwrite =
      if txq_is_full c.txq
      then (queue_full, c, [])
      else if not (is_rx_tx c.com_state)
      then (not_connected, c, [])
      else (let c' = record c { txq = enqueue c.txq cmd } in
          if ltb 0 (length (command2buffer h cmd max_send_length))
          then (let (c'', events) = tx c' nwrite in (sent, c'', events))
          else (no_frame, c', []))

-- `SerialCom::bytesWritten`; `to_write` is what PL_BytesToWrite returns.
unfoldable pub bytes_written : Com → ℕ → ℕ → Com × List Event
bytes_written c to_write nwrite =
    if to_write == 0 && not (c.txq.send_pos % 4 == c.txq.send_end % 4) then tx c nwrite else (c, [])
