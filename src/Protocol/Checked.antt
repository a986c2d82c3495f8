-- ===== src/Protocol/Checked.antt =====
-- src/common/protocol.c: when `protocol_receive_flagged` hands a packet over, and which.
use deconz.Prelude.{
  ℕ, zero, suc, ◌+◌, ◌-◌, ◌/◌, ◌%◌, ◌≤◌, ◌<◌, ◌≡◌, ◌↔◌, refl, sym, ap, ap₂, ◌∙◌, subst, true, false,
  List, [], ◌∷◌, ◌++◌, arith, length, length-take, take, get_or,
}
use deconz.Protocol.{Device, fr_end}
use deconz.Protocol.Input.{cells, crc_frame, end_of_frame, unescape, receive_byte}
use deconz.Protocol.Output.{negate16, sum16}
use deconz.Protocol.Receive.{IsValid, handed_over}
use deconz.Protocol.RoundTrip.{end_of_frame-Holds}

-- The bytes of the checksum of a packet, low byte first, as `protocol_send_flagged` sends them.
abbrev pub checksum : List ℕ → List ℕ
checksum p = let crc = negate16 (sum16 0 p) in (crc % 256) ∷ (crc / 256 % 256) ∷ []

-- An unescaped FR_END, with a callback, behind a packet and its checksum.
pub record IsFrameOf (d : Device) (c : ℕ) (p : List ℕ) : Type 0 where
  pub ends : c ≡ fr_end
  pub unescaped : d.escaped ≡ false
  pub callback : d.packet ≡ true
  pub contents : take d.buffer_pos (cells d) ≡ p ++ checksum p

take_two :
    (n : ℕ) (xs : List ℕ)
    → n + 2 ≤ length xs
    → take (n + 2) xs ≡ take n xs ++ get_or xs n 0 ∷ get_or xs (n + 1) 0 ∷ []
take_two n [] h = absurd (omega arith)
take_two zero (x ∷ []) h = absurd (omega arith)
take_two zero (x ∷ y ∷ xs) h = refl
take_two (suc n) (x ∷ xs) h =
    let a : suc n + 2 ≡ suc (n + 2) = omega arith in
    let b : suc n + 1 ≡ suc (n + 1) = omega arith in
    rw (a, b) (ap (λ ys. x ∷ ys) (take_two n xs (omega arith)))

-- What the tests of the code say.
tested :
    (d : Device) (c : ℕ) (p : List ℕ)
    → handed_over (receive_byte d c) ≡ p ∷ []
    → (c ≡ fr_end)
      × (d.escaped ≡ false)
      × (d.packet ≡ true)
      × (2 ≤ d.buffer_pos)
      × (p ≡ take (d.buffer_pos - 2) (cells d))
      × (negate16 (sum16 0 p) ≡ crc_frame (cells d) d.buffer_pos)
unfolding receive_byte end_of_frame unescape
tested d c p h = ground arith

at_fr_end : (d : Device) → d.escaped ≡ false → handed_over (receive_byte d fr_end) ≡ end_of_frame d
unfolding receive_byte
at_fr_end d e = ground arith

-- A packet is handed over exactly at an unescaped FR_END, with a callback, when the bytes in the
-- buffer are the packet and behind it its checksum, low byte first. The position is within the
-- buffer, whose memory holds bytes.
pub handed_over_iff :
    (d : Device) (c : ℕ) (p : List ℕ)
    → IsValid d
    → ((i : ℕ) → get_or (cells d) i 0 < 256)
    → (handed_over (receive_byte d c) ≡ p ∷ []) ↔ IsFrameOf d c p
handed_over_iff d c p v bytes = (forwards, backwards)
  where
    forwards : handed_over (receive_byte d c) ≡ p ∷ [] → IsFrameOf d c p
    forwards h =
        let (ends, unescaped, callback, two, packet, sum) = tested d c p h in
        let n = d.buffer_pos - 2 in
        let back : n + 2 ≡ d.buffer_pos = omega arith in
        let next : n + 1 ≡ d.buffer_pos - 1 = omega arith in
        let split = take_two n (cells d) (omega (arith, v.pos_in, v.len_in)) in
        let low : get_or (cells d) n 0 ≡ negate16 (sum16 0 p) % 256 =
          omega (arith, bytes n, bytes (d.buffer_pos - 1)) in
        let high : get_or (cells d) (n + 1) 0 ≡ negate16 (sum16 0 p) / 256 % 256 =
          ap (λ i. get_or (cells d) i 0) next ∙ omega (arith, bytes n, bytes (d.buffer_pos - 1)) in
        record {
          ends = ends;
          unescaped = unescaped;
          callback = callback;
          contents =
              subst
                (λ k.
                  take k (cells d)
                  ≡ take n (cells d) ++ get_or (cells d) n 0 ∷ get_or (cells d) (n + 1) 0 ∷ [])
                back split
              ∙ ap₂ ◌++◌ (sym packet) (ap₂ (λ x y. x ∷ y ∷ []) low high);
        }

    backwards : IsFrameOf d c p → handed_over (receive_byte d c) ≡ p ∷ []
    backwards f =
        let len : d.buffer_pos ≡ length (p ++ checksum p) =
          omega
            (arith, ap length f.contents, length-take d.buffer_pos (cells d), v.pos_in, v.len_in) in
        subst (λ b. handed_over (receive_byte d b) ≡ p ∷ []) (sym f.ends)
          (at_fr_end d f.unescaped
            ∙ end_of_frame-Holds d p (record {
              contents = f.contents;
              position = len;
              unescaped = f.unescaped;
              callback = f.callback;
              len_in = v.len_in;
            }))
