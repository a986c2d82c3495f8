-- ===== src/Protocol/Output.antt =====
-- src/common/protocol.c: `protocol_send` and `protocol_send_flagged`, from a packet to bytes.
use deconz.Prelude.{
  ℕ, ◌+◌, ◌-◌, ◌/◌, ◌%◌, Bool, false, ◌&&◌, Option, none, some, List, [], ◌∷◌, ◌++◌, ltb, ◌==◌,
  if◌then◌else◌, take, bit_and,
}
use deconz.Protocol.{Protocol, proto_max_dev, proto_tx, fr_end, fr_esc, t_fr_end, t_fr_esc}

-- The 16 bit sum of bytes, `crc += c`.
unfoldable pub sum16 : ℕ → List ℕ → ℕ
sum16 crc [] = crc
sum16 crc (b ∷ bs) = sum16 ((crc + b) % 65536) bs

-- `~crc + 1` in 16 bits.
abbrev pub negate16 : ℕ → ℕ
negate16 crc = (65535 - crc + 1) % 65536

-- What one byte costs on the wire.
unfoldable pub put_escaped : ℕ → List ℕ
put_escaped c =
    if c == fr_esc
    then fr_esc ∷ t_fr_esc ∷ []
    else if c == fr_end
    then fr_esc ∷ t_fr_end ∷ []
    else c ∷ []

unfoldable pub put_all : List ℕ → List ℕ
unfolding put_escaped
put_all [] = []
put_all (b ∷ bs) = put_escaped b ++ put_all bs

-- The bytes that `protocol_send_flagged` gives to `pPutC`, in order.
unfoldable pub protocol_send_flagged : List ℕ → List ℕ
unfolding put_all sum16
protocol_send_flagged bytes =
    let crc = negate16 (sum16 0 bytes) in
    fr_end
    ∷ (put_all bytes ++ (put_escaped (crc % 256) ++ (put_escaped (crc / 256 % 256) ++ fr_end ∷ [])))

-- The bytes sent, and whether `pFlush` was called.
unfoldable pub protocol_send : Protocol → ℕ → Option (List ℕ) → ℕ → List ℕ × Bool
protocol_send p instance_id none len = ([], false)
protocol_send p instance_id (some bytes) len =
    if p.b_init && ltb instance_id proto_max_dev && ltb 0 len
    then if bit_and p.device.options proto_tx == 0
      then ([], false)
      else (protocol_send_flagged (take len bytes), p.device.flush)
    else ([], false)
