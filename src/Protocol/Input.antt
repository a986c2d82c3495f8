-- ===== src/Protocol/Input.antt =====
-- src/common/protocol.c: `protocol_receive` and `protocol_receive_flagged`, from bytes to packets.
use deconz.Prelude.{
  ℕ, zero, suc, ◌+◌, ◌-◌, ◌*◌, ◌%◌, true, false, ◌&&◌, none, some, List, [], ◌∷◌, ltb, leb, ◌==◌,
  if◌then◌else◌, get_or, take, or_nil, bit_and,
}
use deconz.Protocol.{Device, Protocol, proto_max_dev, proto_rx, fr_end, fr_esc, t_fr_end, t_fr_esc}
use deconz.Protocol.Output.{sum16, negate16}

abbrev pub cells : Device → List ℕ
cells d = or_nil d.buffer

-- A write to the memory at and behind the buffer: one behind its last byte makes the list longer, with
-- zeros for the bytes between.
abbrev pub poke : List ℕ → ℕ → ℕ → List ℕ
poke [] zero c = c ∷ []
poke [] (suc i) c = 0 ∷ poke [] i c
poke (b ∷ mem) zero c = c ∷ mem
poke (b ∷ mem) (suc i) c = b ∷ poke mem i c

-- A byte for the buffer; it is dropped where there is no room.
unfoldable pub store : Device → ℕ → Device
store d c = elim d.buffer [
  | none ↦ d
  | some mem ↦
      if ltb d.buffer_pos d.buffer_len
      then record d { buffer = some (poke mem d.buffer_pos c); buffer_pos = d.buffer_pos + 1 }
      else d
]

-- The last two bytes of the frame, high byte last. `|=` fills the zero byte that `<<= 8` leaves.
abbrev pub crc_frame : List ℕ → ℕ → ℕ
crc_frame mem pos = get_or mem (pos - 1) 0 * 256 % 65536 + get_or mem (pos - 2) 0

-- What an unescaped FR_END hands to `pPacket`.
unfoldable pub end_of_frame : Device → List (List ℕ)
unfolding sum16
end_of_frame d =
    if leb 2 d.buffer_pos
    then if negate16 (sum16 0 (take (d.buffer_pos - 2) (cells d)))
        == crc_frame (cells d) d.buffer_pos
      then if d.packet then take (d.buffer_pos - 2) (cells d) ∷ [] else []
      else []
    else []

-- How one round of the loop of `protocol_receive_flagged` ends: at the loop's test, or by `return`
-- with the packets that were handed over.
pub data Outcome : Type 0 where
  next : Device → Outcome
  returned : Device → List (List ℕ) → Outcome

-- The byte behind FR_ESC.
unfoldable pub unescape : Device → ℕ → Outcome
unfolding store
unescape d c =
    if c == t_fr_esc
    then next (store d fr_esc)
    else if c == t_fr_end
    then next (store d fr_end)
    else returned d []

-- One round of the loop on the byte `c`.
unfoldable pub receive_byte : Device → ℕ → Outcome
unfolding end_of_frame unescape store
receive_byte d c =
    if c == fr_end
    then if d.escaped
      then returned (record d { buffer_pos = 0; escaped = false }) []
      else returned (record d { buffer_pos = 0 }) (end_of_frame d)
    else if c == fr_esc
    then returned (record d { escaped = true }) []
    else if d.escaped
    then unescape (record d { escaped = false }) c
    else next (store d c)

-- The rounds after the first byte has been tested for: `while (pIsC())`.
unfoldable pub receive_while : Device → List ℕ → Device × List (List ℕ) × List ℕ
receive_while d [] = (d, [], [])
receive_while d (c ∷ rest) = elim (receive_byte d c) [
  | next d' ↦ receive_while d' rest
  | returned d' ps ↦ (d', ps, rest)
]

-- `protocol_receive_flagged` reads once before it tests; with no input `pGetC` gives 0.
unfoldable pub protocol_receive_flagged : Device → List ℕ → Device × List (List ℕ) × List ℕ
protocol_receive_flagged d [] = receive_while d (0 ∷ [])
protocol_receive_flagged d (c ∷ rest) = receive_while d (c ∷ rest)

-- The protocol, the packets handed over, and the input that is left.
unfoldable pub protocol_receive : Protocol → ℕ → List ℕ → Protocol × List (List ℕ) × List ℕ
protocol_receive p instance_id input =
    if p.b_init && ltb instance_id proto_max_dev
    then if bit_and p.device.options proto_rx == 0
      then (p, [], input)
      else (let (d, ps, rest) = protocol_receive_flagged p.device input in
          (record p { device = d }, ps, rest))
    else (p, [], input)
