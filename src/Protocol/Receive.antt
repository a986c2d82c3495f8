-- ===== src/Protocol/Receive.antt =====
-- src/common/protocol.c: `protocol_receive_flagged` one byte after the other: the bounds of its
-- buffer, and the checksum of what it hands over.
use deconz.Prelude.{
  ℕ, zero, suc, ap, set, ◌<◌, ◌+◌, ◌-◌, ◌≤◌, ◌≡◌, refl, false, List, [], ◌∷◌, ◌++◌, arith, length,
  ◌∙◌, subst, append_assoc, length-set, length-take, All, All-append,
}
use deconz.Protocol.{Device}
use deconz.Protocol.Input.{
  Outcome, next, returned, cells, poke, store, end_of_frame, unescape, receive_byte,
}

-- The position lies within the announced length, and that within the memory.
pub record IsValid (d : Device) : Type 0 where
  pub pos_in : d.buffer_pos ≤ d.buffer_len
  pub len_in : d.buffer_len ≤ length (cells d)

abbrev pub after : Outcome → Device
after (next d) = d
after (returned d ps) = d

abbrev pub handed_over : Outcome → List (List ℕ)
handed_over (next d) = []
handed_over (returned d ps) = ps

-- All bytes of an input in order, whichever call of `protocol_receive_flagged` reads them.
unfoldable pub feed : Device → List ℕ → Device × List (List ℕ)
feed d [] = (d, [])
feed d (c ∷ cs) =
    let o = receive_byte d c in let (d', ps) = feed (after o) cs in (d', handed_over o ++ ps)

-- Inside the memory a write keeps its length.
pub poke_in : (mem : List ℕ) (i c : ℕ) → i < length mem → poke mem i c ≡ set mem i c
poke_in [] i c h = absurd (omega arith)
poke_in (b ∷ mem) zero c h = refl
poke_in (b ∷ mem) (suc i) c h = ap (λ m. b ∷ m) (poke_in mem i c (omega arith))

pub length-poke : (mem : List ℕ) (i c : ℕ) → i < length mem → length (poke mem i c) ≡ length mem
length-poke mem i c h = ap length (poke_in mem i c h) ∙ length-set mem i c

pub buffer_len-store : (d : Device) (c : ℕ) → (store d c).buffer_len ≡ d.buffer_len
unfolding store
buffer_len-store d c = ground arith

-- `d` has the memory of `before`, no longer and no shorter, and the positions stay within it.
pub record StaysInside (before d : Device) : Type 0 where
  pub valid : IsValid d
  pub memory : length (cells d) ≡ length (cells before)
  pub announced : d.buffer_len ≡ before.buffer_len

store-StaysInside : (d : Device) (c : ℕ) → IsValid d → StaysInside d (store d c)
unfolding store
store-StaysInside d c v = ground (arith, length-poke (cells d) d.buffer_pos c)

unescape-StaysInside : (d : Device) (c : ℕ) → IsValid d → StaysInside d (after (unescape d c))
unfolding unescape
unescape-StaysInside d c v = ground (arith, store-StaysInside d 0xDB v, store-StaysInside d 0xC0 v)

-- No byte moves the write position out of the buffer or is written behind it, whatever the state it comes in.
pub receive_byte-StaysInside :
    (d : Device) (c : ℕ) → IsValid d → StaysInside d (after (receive_byte d c))
unfolding receive_byte
receive_byte-StaysInside d c v =
    ground (arith, store-StaysInside d c v, unescape-StaysInside (record d { escaped = false }) c)

pub buffer_len-receive_byte :
    (d : Device) (c : ℕ) → (after (receive_byte d c)).buffer_len ≡ d.buffer_len
unfolding receive_byte unescape
buffer_len-receive_byte d c = ground (
  arith,
  buffer_len-store d c,
  buffer_len-store (record d { escaped = false }) 0xDB,
  buffer_len-store (record d { escaped = false }) 0xC0,
)

-- A packet that fits a buffer of `n` bytes with its two bytes of checksum.
abbrev pub Fits : ℕ → List ℕ → Type 0
Fits n p = length p + 2 ≤ n

end_of_frame-Fits : (d : Device) → IsValid d → All (Fits d.buffer_len) (end_of_frame d)
unfolding end_of_frame
end_of_frame-Fits d v = ground (arith, length-take (d.buffer_pos - 2) (cells d))

handed_over-Fits :
    (d : Device) (c : ℕ) → IsValid d → All (Fits d.buffer_len) (handed_over (receive_byte d c))
unfolding receive_byte unescape
handed_over-Fits d c v = ground (arith, end_of_frame-Fits d v)

-- Whatever bytes arrive, no byte is written behind the memory of the receive buffer, the write
-- position stays within its announced length, which does not change, and every packet handed over is
-- at least two bytes shorter than that. The position starts within the length, and the length is no
-- more than the memory.
pub feed_safe :
    (d : Device) (input : List ℕ)
    → IsValid d
    → let (d', ps) = feed d input in StaysInside d d' × All (Fits d.buffer_len) ps
unfolding feed
feed_safe d [] v = (record { valid = v; memory = refl; announced = refl }, tt)
feed_safe d (c ∷ cs) v =
    let o = receive_byte d c in
    let s = receive_byte-StaysInside d c v in
    let (s', ps) = feed_safe (after o) cs s.valid in
    (
      record {
        valid = s'.valid;
        memory = s'.memory ∙ s.memory;
        announced = s'.announced ∙ s.announced;
      },
      All-append (Fits d.buffer_len) (handed_over o) _ (handed_over-Fits d c v)
          (subst (λ n. All (Fits n) (feed (after o) cs).1) s.announced ps),
    )

pub feed-append :
    (d : Device) (xs ys : List ℕ)
    → feed d (xs ++ ys)
      ≡ (let (d', ps) = feed d xs in let (d'', qs) = feed d' ys in (d'', ps ++ qs))
unfolding feed
feed-append d [] ys = refl
feed-append d (x ∷ xs) ys = simp (feed-append (after (receive_byte d x)) xs ys, append_assoc)
