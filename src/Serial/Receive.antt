-- ===== src/Serial/Receive.antt =====
-- src/zm_master_com_serial.cpp: from the port's bytes to packets, `rx`, `readyRead`,
-- `checkBootloader` and `SER_Packet`.
use deconz.Prelude.{
  ℕ, zero, suc, ◌+◌, ◌-◌, ◌&&◌, List, [], ◌∷◌, ◌++◌, ltb, leb, ◌==◌, if◌then◌else◌, get_or, take,
  drop, length, eq_bytes,
}
use deconz.Protocol.{Protocol}
use deconz.Protocol.Input.{protocol_receive}
use deconz.Command.{Command, parse_ok, write}
use deconz.Command.Decode.{buffer2command}
use deconz.Serial.{
  Com, ComState, off, query_bootloader, wait_bootloader, rx_tx, Event, bootloader_started,
  on_packet, rx_buffer_size,
}

-- The bytes that `SER_Getc` has not returned yet.
abbrev pub unread : Com → List ℕ
unread c = take (c.rx_write_pos - c.rx_read_pos) (drop c.rx_read_pos c.rx_buffer)

-- `while (SER_Isc()) protocol_receive(protId)` on the unread bytes, with fuel: the protocol, the
-- packets handed over, and the bytes left when the fuel ran out.
unfoldable pub rx_loop : ℕ → Protocol → ℕ → List ℕ → Protocol × List (List ℕ) × List ℕ
rx_loop fuel p prot_id [] = (p, [], [])
rx_loop zero p prot_id (b ∷ bs) = (p, [], b ∷ bs)
rx_loop (suc fuel) p prot_id (b ∷ bs) =
    let (p', ps, rest) = protocol_receive p prot_id (b ∷ bs) in
    let (p'', qs, left) = rx_loop fuel p' prot_id rest in (p'', ps ++ qs, left)

-- `SER_Packet`; `stack` is the memory of its local command.
unfoldable pub ser_packet : Command → List ℕ → List Event
ser_packet stack [] = []
ser_packet stack (b ∷ bs) =
    let (cmd, ret) = buffer2command (b ∷ bs) stack in
    elim ret [ parse_ok ↦ on_packet cmd ∷ [] | _ ↦ [] ]

abbrev pub packet_events : Command → List (List ℕ) → List Event
packet_events stack [] = []
packet_events stack (p ∷ ps) = ser_packet stack p ++ packet_events stack ps

-- The read positions once `SER_Getc` has left the bytes `rest`.
abbrev pub read_to : Com → List ℕ → Com
read_to c [] =
    if ltb c.rx_read_pos c.rx_write_pos then record c { rx_read_pos = 0; rx_write_pos = 0 } else c
read_to c (b ∷ rest) = record c { rx_read_pos = c.rx_write_pos - length (b ∷ rest) }

-- `rx`, with as many rounds as there are unread bytes.
unfoldable pub rx : Command → Com → Com × List Event
rx stack c =
    let (p, ps, rest) = rx_loop (length (unread c)) c.protocol c.prot_id (unread c) in
    (record (read_to c rest) { protocol = p }, packet_events stack ps)

abbrev bootloader_text : List ℕ
bootloader_text = b'B' ∷ b'o' ∷ b'o' ∷ b't' ∷ b'l' ∷ b'o' ∷ b'a' ∷ b'd' ∷ b'e' ∷ b'r' ∷ []

-- The loop of `checkBootloader` from index `i` on, `n` rounds.
check_from : List ℕ → ℕ → ℕ → List Event
check_from buf i zero = []
check_from buf i (suc n) =
    let rest = check_from buf (i + 1) n in
    if get_or buf i 0 == b'B'
      && ltb i (rx_buffer_size - 12)
      && eq_bytes (take 10 (drop i buf)) bootloader_text
    then bootloader_started ∷ rest
    else rest

unfoldable pub check_bootloader : Com → List Event
unfolding check_from
check_bootloader c = check_from c.rx_buffer 0 c.rx_write_pos

-- By the state, what `readyRead` does with the bytes that have come in.
unfoldable pub process : Command → ComState → Com → Com × List Event
process stack rx_tx c = rx stack c
process stack wait_bootloader c = (let (c', es) = rx stack c in (c', check_bootloader c ++ es))
process stack off c = (c, [])
process stack query_bootloader c = (c, [])

-- `readyRead`; `incoming` is what PL_Read puts into the buffer, nothing for an error.
unfoldable pub ready_read : Command → Com → List ℕ → Com × List Event
unfolding process
ready_read stack c incoming =
    if c.rx_write_pos == rx_buffer_size
    then rx stack c
    else (let buf = write c.rx_buffer c.rx_write_pos incoming in
        let c' =
          if leb (length incoming + c.rx_write_pos) rx_buffer_size
          then record c { rx_buffer = buf; rx_write_pos = c.rx_write_pos + length incoming }
          else record c { rx_buffer = buf } in
        process stack c.com_state c')
