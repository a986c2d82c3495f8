-- ===== src/Protocol/Tests.antt =====
-- The theorems about src/common/protocol.c at concrete devices and bytes.
use deconz.Prelude.{
  ℕ, zero, suc, get_or, ◌<◌, ◌↔◌, ◌≡◌, refl, true, false, some, arith, List, [], ◌∷◌, All, length,
  replicate,
}
use deconz.Protocol.{Device, Protocol, fr_end}
use deconz.Protocol.Input.{cells, end_of_frame, receive_byte}
use deconz.Protocol.Output.{sum16}
use deconz.Protocol.Receive.{StaysInside, handed_over, feed, Fits, feed_safe}
use deconz.Protocol.Checked.{IsFrameOf, handed_over_iff}
use deconz.Protocol.RoundTrip.{Holds, send_each, receive-send_each}

-- A device that waits for a frame, with a buffer of `mem`, and the module around it.
abbrev device_with : List ℕ → ℕ → Device
device_with mem pos = record {
  escaped = false;
  options = 6;
  get_c = true;
  is_c = true;
  put_c = true;
  flush = true;
  packet = true;
  buffer = some mem;
  buffer_len = length mem;
  buffer_pos = pos;
}

abbrev waits : Device
waits = device_with (replicate 16 0) 0

abbrev module_of : Device → Protocol
module_of d = record { b_init = true; device = d }

-- A device in the middle of a frame, behind FR_ESC.
abbrev escaping : Device
escaping = record (device_with (replicate 8 3) 5) { escaped = true }

-- A device that has all but the last FR_END of the frame of the one byte 7.
abbrev at_the_end : Device
at_the_end = device_with (7 ∷ 0xF9 ∷ 0xFF ∷ replicate 5 0) 3

waits-Holds : Holds waits []
waits-Holds = record {
  contents = refl;
  position = refl;
  unescaped = refl;
  callback = refl;
  len_in = omega arith;
}

feed_safe_example :
    let (d', ps) = feed escaping (0xC0 ∷ 1 ∷ 2 ∷ 3 ∷ 4 ∷ 5 ∷ 6 ∷ 7 ∷ 8 ∷ 9 ∷ 10 ∷ 0xC0 ∷ []) in
    StaysInside escaping d' × All (Fits 8) ps
feed_safe_example =
    feed_safe escaping (0xC0 ∷ 1 ∷ 2 ∷ 3 ∷ 4 ∷ 5 ∷ 6 ∷ 7 ∷ 8 ∷ 9 ∷ 10 ∷ 0xC0 ∷ [])
      (record { pos_in = omega arith; len_in = omega arith })

zeros : (n i : ℕ) → get_or (replicate n 0) i 0 < 256
zeros zero i = omega arith
zeros (suc n) zero = omega arith
zeros (suc n) (suc i) = zeros n i

at_the_end_bytes : (i : ℕ) → get_or (cells at_the_end) i 0 < 256
at_the_end_bytes zero = omega arith
at_the_end_bytes (suc zero) = omega arith
at_the_end_bytes (suc (suc zero)) = omega arith
at_the_end_bytes (suc (suc (suc i))) = zeros 5 i

end_hands_over : handed_over (receive_byte at_the_end fr_end) ≡ (7 ∷ []) ∷ []
unfolding receive_byte end_of_frame sum16
end_hands_over = refl

handed_over_iff_example :
    (handed_over (receive_byte at_the_end fr_end) ≡ (7 ∷ []) ∷ [])
    ↔ IsFrameOf at_the_end fr_end (7 ∷ [])
handed_over_iff_example =
    handed_over_iff at_the_end fr_end (7 ∷ [])
      (record { pos_in = omega arith; len_in = omega arith }) at_the_end_bytes

receive-send_each_example :
    (d' : Device) × (feed waits (send_each ((1 ∷ []) ∷ [] ∷ (0xC0 ∷ 0xDB ∷ []) ∷ []))
      ≡ (d', (1 ∷ []) ∷ [] ∷ (0xC0 ∷ 0xDB ∷ []) ∷ []))
    × Holds d' []
receive-send_each_example =
    receive-send_each waits ((1 ∷ []) ∷ [] ∷ (0xC0 ∷ 0xDB ∷ []) ∷ []) waits-Holds
      (omega arith, (omega arith, (omega arith, tt)))
