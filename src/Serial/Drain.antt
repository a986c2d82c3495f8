-- ===== src/Serial/Drain.antt =====
-- src/zm_master_com_serial.cpp: the loop of `rx` as a whole.
use deconz.Prelude.{
  ℕ, zero, suc, ◌≤◌, ◌≡◌, ◌≢◌, refl, inl, inr, ◌&&◌, window_step, true, false, List, [], ◌∷◌, ◌++◌,
  ltb, ◌==◌, ne→eq-false, length, arith, bit_and, Bool-cases,
}
use deconz.Protocol.{Protocol, Device, proto_rx}
use deconz.Protocol.Input.{receive_byte, receive_while, protocol_receive_flagged, protocol_receive}
use deconz.Protocol.Receive.{feed, after}
use deconz.Command.{Command}
use deconz.Serial.{Com, ser_getc, ser_isc}
use deconz.Serial.Receive.{unread, rx_loop, packet_events, rx}

-- A call of `protocol_receive_flagged` stops somewhere in the input, and `feed` may be taken up there.
receive_while-feed :
    (d : Device) (input : List ℕ)
    → let (d', ps, rest) = receive_while d input in
      (feed d input ≡ (let (d'', qs) = feed d' rest in (d'', ps ++ qs)))
      × (length rest ≤ length input)
unfolding receive_while feed
receive_while-feed d [] = (refl, omega arith)
receive_while-feed d (c ∷ cs) = ground (arith, receive_while-feed (after (receive_byte d c)) cs)

-- The slot is open for receiving.
pub record IsOpen (p : Protocol) (prot_id : ℕ) : Type 0 where
  pub initialised : p.b_init ≡ true
  pub slot : prot_id ≡ 0
  pub receives : bit_and p.device.options proto_rx ≢ 0

protocol_receive_open :
    (p : Protocol) (prot_id b : ℕ) (bs : List ℕ)
    → IsOpen p prot_id
    → protocol_receive p prot_id (b ∷ bs)
      ≡ (let (d, ps, rest) = receive_while p.device (b ∷ bs) in (record p { device = d }, ps, rest))
unfolding protocol_receive protocol_receive_flagged
protocol_receive_open p prot_id b bs o = rw (o.initialised, o.slot, ne→eq-false _ 0 o.receives)

-- The device slot keeps its options while it receives.
options-feed_byte : (d : Device) (c : ℕ) → (after (receive_byte d c)).options ≡ d.options
unfolding receive_byte
options-feed_byte d c = ground arith

options-receive_while :
    (d : Device) (input : List ℕ) → (receive_while d input).0.options ≡ d.options
unfolding receive_while
options-receive_while d [] = refl
options-receive_while d (c ∷ cs) =
    ground (arith, options-feed_byte d c, options-receive_while (after (receive_byte d c)) cs)

-- A call with input reads at least one byte.
receive_while_progress :
    (d : Device) (c : ℕ) (cs : List ℕ) → length (receive_while d (c ∷ cs)).2 ≤ length cs
unfolding receive_while
receive_while_progress d c cs = ground (arith, receive_while-feed (after (receive_byte d c)) cs)

-- While the slot is open, as many rounds as there are bytes read all of them, and hand over what
-- the bytes give when they are fed to the receiver one after the other.
pub rx_loop-feed :
    (fuel : ℕ) (p : Protocol) (prot_id : ℕ) (input : List ℕ)
    → IsOpen p prot_id
    → length input ≤ fuel
    → rx_loop fuel p prot_id input
      ≡ (let (d, ps) = feed p.device input in (record p { device = d }, ps, []))
unfolding rx_loop
rx_loop-feed fuel p prot_id [] o h = unfold feed in refl
rx_loop-feed zero p prot_id (b ∷ bs) o h = absurd (omega arith)
rx_loop-feed (suc fuel) p prot_id (b ∷ bs) o h =
    let (d, ps, rest) = receive_while p.device (b ∷ bs) in
    let open_still : IsOpen (record p { device = d }) prot_id = record {
      initialised = o.initialised;
      slot = o.slot;
      receives = rw (options-receive_while p.device (b ∷ bs)) o.receives;
    } in
    let ih =
      rx_loop-feed fuel (record p { device = d }) prot_id rest open_still
        (omega (arith, receive_while_progress p.device b bs)) in
    rw (protocol_receive_open p prot_id b bs o, ih, (receive_while-feed p.device (b ∷ bs)).0)

inert :
    (p : Protocol) (prot_id b : ℕ) (bs : List ℕ)
    → ¬ IsOpen p prot_id
    → protocol_receive p prot_id (b ∷ bs) ≡ (p, [], b ∷ bs)
unfolding protocol_receive
inert p prot_id b bs shut = elim (Bool-cases (p.b_init && ltb prot_id 1)) [
  | inr away ↦ rw away
  | inl there ↦ elim (Bool-cases (bit_and p.device.options proto_rx == 0)) [
    | inl off ↦ rw (there, off)
    | inr on ↦ absurd (shut (ground arith))
  ]
]

-- `rx` on an open slot hands on the packets of all unread bytes, in order, and leaves none of the
-- bytes behind, so its loop has ended.
pub rx_drains :
    (stack : Command) (c : Com)
    → IsOpen c.protocol c.prot_id
    → let (c', events) = rx stack c in
      let (d, packets) = feed c.protocol.device (unread c) in
      (events ≡ packet_events stack packets) × (c'.protocol.device ≡ d) × (ser_isc c' ≡ false)
unfolding rx ser_isc
rx_drains stack c o =
    rw (rx_loop-feed (length (unread c)) c.protocol c.prot_id (unread c) o (omega arith))
      (refl, refl, ground arith)

-- On a slot that is not open the loop of `rx` makes no progress: with bytes to read it is not
-- over after any number of rounds.
pub rx_loop_stuck :
    (fuel : ℕ) (p : Protocol) (prot_id b : ℕ) (bs : List ℕ)
    → ¬ IsOpen p prot_id
    → rx_loop fuel p prot_id (b ∷ bs) ≡ (p, [], b ∷ bs)
unfolding rx_loop
rx_loop_stuck zero p prot_id b bs shut = refl
rx_loop_stuck (suc fuel) p prot_id b bs shut =
    let idle : protocol_receive p prot_id (b ∷ bs) ≡ (p, [], b ∷ bs) = inert p prot_id b bs shut in
    rw (idle, rx_loop_stuck fuel p prot_id b bs shut)

-- `SER_Getc` returns the first unread byte and leaves the others.
pub ser_getc_reads :
    (c : Com)
    → ser_isc c ≡ true
    → c.rx_write_pos ≤ length c.rx_buffer
    → unread c ≡ (ser_getc c).0 ∷ unread (ser_getc c).1
unfolding ser_getc ser_isc
ser_getc_reads c some_left fits =
    ground (arith, window_step c.rx_buffer c.rx_read_pos c.rx_write_pos 0)
