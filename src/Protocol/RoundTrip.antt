-- ===== src/Protocol/RoundTrip.antt =====
-- src/common/protocol.c: what `protocol_send` writes, `protocol_receive` reads back.
use deconz.Prelude.{
  ℕ, ◌+◌, ◌-◌, ◌/◌, ◌%◌, ◌≤◌, ◌<◌, ◌≡◌, refl, sym, ap, ◌∙◌, true, false, List, [], ◌∷◌, ◌++◌, arith,
  length, eq_refl, subst, length-set, length-append, take, take-set_self, get_or, get_or-take,
  take-take_le, take-append_left, get_or-append_right, All, append_assoc, append-nil,
}
use deconz.Protocol.{Device, fr_end}
use deconz.Protocol.Input.{cells, store, end_of_frame, unescape, receive_byte}
use deconz.Protocol.Output.{negate16, sum16, put_escaped, put_all, protocol_send_flagged}
use deconz.Protocol.Receive.{Fits, feed, feed-append, after, handed_over, buffer_len-store, poke_in}

-- The receiver is between escapes, has a callback, and has buffered the bytes `ps`.
pub record Holds (d : Device) (ps : List ℕ) : Type 0 where
  pub contents : take d.buffer_pos (cells d) ≡ ps
  pub position : d.buffer_pos ≡ length ps
  pub unescaped : d.escaped ≡ false
  pub callback : d.packet ≡ true
  pub len_in : d.buffer_len ≤ length (cells d)

store-Holds :
    (d : Device) (ps : List ℕ) (c : ℕ)
    → Holds d ps
    → length ps < d.buffer_len
    → Holds (store d c) (ps ++ c ∷ [])
unfolding store
store-Holds d ps c h room =
    let inside : d.buffer_pos < length (cells d) = omega (arith, h.position, h.len_in) in
    ground (
      arith,
      poke_in (cells d) d.buffer_pos c inside,
      length-set (cells d) d.buffer_pos c,
      take-set_self (cells d) d.buffer_pos c,
      length-append ps (c ∷ []),
    )

feed_escaped :
    (d : Device) (c : ℕ) (rest : List ℕ)
    → d.escaped ≡ false
    → feed d (put_escaped c ++ rest) ≡ feed (store d c) rest
unfolding feed receive_byte put_escaped unescape
feed_escaped d c rest h = ground arith

-- The receiver behind the bytes of a packet.
fill : Device → List ℕ → Device
fill d [] = d
fill d (b ∷ bs) = fill (store d b) bs

feed-put_all :
    (d : Device) (bytes rest ps : List ℕ)
    → Holds d ps
    → length ps + length bytes ≤ d.buffer_len
    → (feed d (put_all bytes ++ rest) ≡ feed (fill d bytes) rest)
      × Holds (fill d bytes) (ps ++ bytes)
      × ((fill d bytes).buffer_len ≡ d.buffer_len)
unfolding put_all fill
feed-put_all d [] rest ps h room = (refl, rw append-nil h, refl)
feed-put_all d (b ∷ bs) rest ps h room =
    let h' = store-Holds d ps b h (omega arith) in
    let (e, k, l) =
      feed-put_all (store d b) bs rest (ps ++ b ∷ []) h'
        (omega (arith, buffer_len-store d b, length-append ps (b ∷ []))) in
    (
      rw append_assoc (feed_escaped d b (put_all bs ++ rest) h.unescaped ∙ e),
      subst (Holds (fill (store d b) bs)) (append_assoc ps (b ∷ []) bs) k,
      l ∙ buffer_len-store d b,
    )

-- A buffer that holds a packet and its checksum is handed over whole.
pub end_of_frame-Holds :
    (d : Device) (bytes : List ℕ)
    → let crc = negate16 (sum16 0 bytes) in
      Holds d (bytes ++ (crc % 256) ∷ (crc / 256 % 256) ∷ []) → end_of_frame d ≡ bytes ∷ []
unfolding end_of_frame
end_of_frame-Holds d bytes h = ground (arith, h.callback, pos, front, high, low, eq_refl crc)
  where
    crc : ℕ
    crc = negate16 (sum16 0 bytes)

    tail_bytes : List ℕ
    tail_bytes = (crc % 256) ∷ (crc / 256 % 256) ∷ []

    pos : d.buffer_pos ≡ length bytes + 2
    pos = omega (arith, h.position, length-append bytes tail_bytes)

    front : take (d.buffer_pos - 2) (cells d) ≡ bytes
    front =
        sym (take-take_le (cells d) (d.buffer_pos - 2) d.buffer_pos (omega arith))
        ∙ ap (take (d.buffer_pos - 2)) h.contents
        ∙ rw (at_length) (take-append_left bytes tail_bytes)
      where
        at_length : d.buffer_pos - 2 ≡ length bytes
        at_length = omega (arith, pos)

    cell : (i : ℕ) → i < 2 → get_or (cells d) (length bytes + i) 0 ≡ get_or tail_bytes i 0
    cell i small =
        sym (get_or-take (cells d) d.buffer_pos (length bytes + i) 0 (omega (arith, pos)))
        ∙ ap (λ xs. get_or xs (length bytes + i) 0) h.contents
        ∙ get_or-append_right bytes tail_bytes i 0

    high : get_or (cells d) (d.buffer_pos - 1) 0 ≡ crc / 256 % 256
    high = ap (λ i. get_or (cells d) i 0) (omega (arith, pos)) ∙ cell 1 (omega arith)

    low : get_or (cells d) (d.buffer_pos - 2) 0 ≡ crc % 256
    low = ap (λ i. get_or (cells d) i 0) (omega (arith, pos)) ∙ cell 0 (omega arith)

-- FR_END leaves an empty buffer, whatever came before it.
receive_end :
    (d : Device)
    → d.packet ≡ true
    → d.buffer_len ≤ length (cells d)
    → Holds (after (receive_byte d fr_end)) []
unfolding receive_byte
receive_end d cb len = ground arith

buffer_len-receive_end : (d : Device) → (after (receive_byte d fr_end)).buffer_len ≡ d.buffer_len
unfolding receive_byte
buffer_len-receive_end d = ground arith

-- From an empty buffer FR_END hands nothing over.
quiet_end : (d : Device) → Holds d [] → handed_over (receive_byte d fr_end) ≡ []
unfolding receive_byte end_of_frame
quiet_end d h = ground (arith, h.position, h.unescaped)

-- FR_END behind a packet and its checksum.
closing_end :
    (d : Device) (bytes : List ℕ)
    → let crc = negate16 (sum16 0 bytes) in
      Holds d (bytes ++ (crc % 256) ∷ (crc / 256 % 256) ∷ [])
      → feed d (fr_end ∷ []) ≡ (record d { buffer_pos = 0 }, bytes ∷ [])
unfolding feed receive_byte
closing_end d bytes h = ground (arith, h.unescaped, end_of_frame-Holds d bytes h)

-- The frame behind its first FR_END.
feed_body :
    (d : Device) (bytes : List ℕ)
    → Holds d []
    → length bytes + 2 ≤ d.buffer_len
    → let crc = negate16 (sum16 0 bytes) in
      (d' : Device) × (feed d (
          put_all bytes
          ++ (put_escaped (crc % 256) ++ (put_escaped (crc / 256 % 256) ++ fr_end ∷ [])))
        ≡ (d', bytes ∷ []))
      × Holds d' []
      × (d'.buffer_len ≡ d.buffer_len)
unfolding put_all
feed_body d bytes h room =
    let crc = negate16 (sum16 0 bytes) in
    let tail_bytes : List ℕ = (crc % 256) ∷ (crc / 256 % 256) ∷ [] in
    let stuffed = put_escaped (crc % 256) ++ (put_escaped (crc / 256 % 256) ++ fr_end ∷ []) in
    let (e, k, l) = feed-put_all d bytes stuffed [] h (omega arith) in
    let (e', k', l') =
      feed-put_all (fill d bytes) tail_bytes (fr_end ∷ []) bytes k (omega (arith, l)) in
    let d' = fill (fill d bytes) tail_bytes in
    (
      record d' { buffer_pos = 0 },
      e ∙ (simp (append_assoc, append-nil) at e') ∙ closing_end d' bytes k',
      record {
        contents = refl;
        position = refl;
        unescaped = k'.unescaped;
        callback = k'.callback;
        len_in = k'.len_in;
      },
      l' ∙ l,
    )

-- Whatever state a receiver with a callback is in, a frame that `protocol_send` writes is handed
-- over as exactly the bytes that were sent, behind at most what the frame's first FR_END ended, if
-- the bytes and their checksum fit the buffer. The receiver is then ready for the next frame.
pub receive-send :
    (d : Device) (bytes : List ℕ)
    → d.packet ≡ true
    → d.buffer_len ≤ length (cells d)
    → length bytes + 2 ≤ d.buffer_len
    → (d' : Device) × (feed d (protocol_send_flagged bytes)
        ≡ (d', handed_over (receive_byte d fr_end) ++ bytes ∷ []))
      × Holds d' []
      × (d'.buffer_len ≡ d.buffer_len)
unfolding feed protocol_send_flagged
receive-send d bytes cb len room =
    let l = buffer_len-receive_end d in
    let (d', e, h, l') =
      feed_body (after (receive_byte d fr_end)) bytes (receive_end d cb len) (omega (arith, l)) in
    (d', rw e, h, l' ∙ l)

-- The frames of several packets, one behind the other.
abbrev pub send_each : List (List ℕ) → List ℕ
send_each [] = []
send_each (p ∷ ps) = protocol_send_flagged p ++ send_each ps

-- A receiver with an empty buffer hands over the packets of a stream of frames, each once and in
-- their order, if each of them fits the buffer with its checksum.
pub receive-send_each :
    (d : Device) (packets : List (List ℕ))
    → Holds d []
    → All (Fits d.buffer_len) packets
    → (d' : Device) × (feed d (send_each packets) ≡ (d', packets)) × Holds d' []
unfolding feed
receive-send_each d [] h fits = (d, refl, h)
receive-send_each d (p ∷ ps) h fits =
    let (d', e, h', l) = receive-send d p h.callback h.len_in fits.0 in
    let (d'', e', h'') = receive-send_each d' ps h' (subst (λ n. All (Fits n) ps) (sym l) fits.1) in
    (d'', rw (feed-append d (protocol_send_flagged p) (send_each ps), e, e', quiet_end d h), h'')
