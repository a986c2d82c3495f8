-- ===== src/Protocol/Frame.antt =====
-- src/common/protocol.c: what `protocol_send` puts on the wire.
use deconz.Prelude.{
  ℕ, ◌+◌, ◌*◌, ◌/◌, ◌%◌, ◌≤◌, ◌≡◌, ◌≢◌, List, [], ◌∷◌, ◌++◌, arith, length, length-append, All,
  All-append, append_assoc,
}
use deconz.Protocol.{fr_end}
use deconz.Protocol.Output.{negate16, sum16, put_escaped, put_all, protocol_send_flagged}

-- The stuffed bytes between the two delimiters.
unfoldable pub frame_body : List ℕ → List ℕ
frame_body bytes =
    let crc = negate16 (sum16 0 bytes) in
    put_all bytes ++ (put_escaped (crc % 256) ++ put_escaped (crc / 256 % 256))

abbrev pub NotEnd : ℕ → Type 0
NotEnd b = b ≢ fr_end

put_escaped-NotEnd : (c : ℕ) → All NotEnd (put_escaped c)
unfolding put_escaped
put_escaped-NotEnd c = ground arith

put_all-NotEnd : (bytes : List ℕ) → All NotEnd (put_all bytes)
unfolding put_all
put_all-NotEnd [] = tt
put_all-NotEnd (b ∷ bs) =
    All-append NotEnd (put_escaped b) (put_all bs) (put_escaped-NotEnd b) (put_all-NotEnd bs)

pub frame_body-NotEnd : (bytes : List ℕ) → All NotEnd (frame_body bytes)
unfolding frame_body
frame_body-NotEnd bytes =
    All-append NotEnd (put_all bytes) _ (put_all-NotEnd bytes)
      (All-append NotEnd (put_escaped _) _ (put_escaped-NotEnd _) (put_escaped-NotEnd _))

pub protocol_send_flagged-body :
    (bytes : List ℕ) → protocol_send_flagged bytes ≡ fr_end ∷ (frame_body bytes ++ fr_end ∷ [])
unfolding protocol_send_flagged frame_body
protocol_send_flagged-body bytes = simp append_assoc

-- Every sent frame starts and ends with FR_END, and no byte between the two is FR_END.
pub frame_delimited :
    (bytes : List ℕ)
    → (body : List ℕ) × (protocol_send_flagged bytes ≡ fr_end ∷ (body ++ fr_end ∷ []))
      × All NotEnd body
frame_delimited bytes =
    (frame_body bytes, protocol_send_flagged-body bytes, frame_body-NotEnd bytes)

length-put_escaped : (c : ℕ) → length (put_escaped c) ≤ 2
unfolding put_escaped
length-put_escaped c = ground arith

length-put_all : (bytes : List ℕ) → length (put_all bytes) ≤ 2 * length bytes
unfolding put_all
length-put_all [] = omega arith
length-put_all (b ∷ bs) =
    omega
      (arith, length-append (put_escaped b) (put_all bs), length-put_escaped b, length-put_all bs)

pub length-frame : (bytes : List ℕ) → length (protocol_send_flagged bytes) ≤ 2 * length bytes + 6
unfolding protocol_send_flagged
length-frame bytes = omega (
  arith,
  length-append (put_all bytes)
      (put_escaped (crc % 256) ++ (put_escaped (crc / 256 % 256) ++ fr_end ∷ [])),
  length-append (put_escaped (crc % 256)) (put_escaped (crc / 256 % 256) ++ fr_end ∷ []),
  length-append (put_escaped (crc / 256 % 256)) (fr_end ∷ []),
  length-put_all bytes,
  length-put_escaped (crc % 256),
  length-put_escaped (crc / 256 % 256),
)
  where
    crc : ℕ
    crc = negate16 (sum16 0 bytes)
