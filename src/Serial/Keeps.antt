-- ===== src/Serial/Keeps.antt =====
-- src/zm_master_com_serial.cpp: what the receiving side leaves alone in the device slot.
use deconz.Prelude.{
  ℕ, zero, suc, ◌≤◌, ◌≡◌, refl, ◌∙◌, false, List, [], ◌∷◌, length, arith, ◌==◌, ltb, ◌&&◌, bit_and,
  or_nil, ◌⊎◌, inl, inr, Bool-cases,
}
use deconz.Protocol.{Protocol, Device, proto_rx, proto_max_dev}
use deconz.Protocol.Input.{
  Outcome, next, returned, receive_byte, receive_while, protocol_receive_flagged, protocol_receive,
  store,
}
use deconz.Protocol.Receive.{
  IsValid, after, receive_byte-StaysInside, length-poke, buffer_len-receive_byte,
}
use deconz.Serial.Receive.{rx_loop}
use deconz.Serial.Connection.{prot_rx_buffer}

-- The size of the memory behind the slot.
abbrev pub mem_len : Device → ℕ
mem_len d = length (prot_rx_buffer d.buffer)

pub record Keeps (d d' : Device) : Type 0 where
  pub options : d'.options ≡ d.options
  pub flush : d'.flush ≡ d.flush
  pub buffer_len : d'.buffer_len ≡ d.buffer_len
  pub memory : IsValid d → mem_len d' ≡ mem_len d
  pub valid : IsValid d → IsValid d'

pub Keeps-refl : (d : Device) → Keeps d d
Keeps-refl d = record {
  options = refl;
  flush = refl;
  buffer_len = refl;
  memory = λ v. refl;
  valid = λ v. v;
}

Keeps-trans : {a b c : Device} → Keeps a b → Keeps b c → Keeps a c
Keeps-trans s t = record {
  options = t.options ∙ s.options;
  flush = t.flush ∙ s.flush;
  buffer_len = t.buffer_len ∙ s.buffer_len;
  memory = λ v. t.memory (s.valid v) ∙ s.memory v;
  valid = λ v. t.valid (s.valid v);
}

mem_len-store : (d : Device) (c : ℕ) → IsValid d → mem_len (store d c) ≡ mem_len d
unfolding store
mem_len-store d c v =
    ground (arith, v.pos_in, v.len_in, length-poke (or_nil d.buffer) d.buffer_pos c)

mem_len-receive_byte :
    (d : Device) (c : ℕ) → IsValid d → mem_len (after (receive_byte d c)) ≡ mem_len d
unfolding receive_byte
mem_len-receive_byte d c v =
    let quiet : IsValid (record d { escaped = false }) = record {
      pos_in = v.pos_in;
      len_in = v.len_in;
    } in
    ground (
      arith,
      mem_len-store d c v,
      mem_len-store (record d { escaped = false }) 0xDB quiet,
      mem_len-store (record d { escaped = false }) 0xC0 quiet,
    )

slot-receive_byte :
    (d : Device) (c : ℕ)
    → ((after (receive_byte d c)).options ≡ d.options)
      × ((after (receive_byte d c)).flush ≡ d.flush)
unfolding receive_byte
slot-receive_byte d c = ground arith

receive_byte-Keeps : (d : Device) (c : ℕ) → Keeps d (after (receive_byte d c))
receive_byte-Keeps d c = record {
  options = (slot-receive_byte d c).0;
  flush = (slot-receive_byte d c).1;
  buffer_len = buffer_len-receive_byte d c;
  memory = mem_len-receive_byte d c;
  valid = λ v. (receive_byte-StaysInside d c v).valid;
}

Outcome-cases :
    (o : Outcome)
    → ((d : Device) × (o ≡ next d)) ⊎ ((d : Device) × (ps : List (List ℕ)) × (o ≡ returned d ps))
Outcome-cases (next d) = inl (d, refl)
Outcome-cases (returned d ps) = inr (d, ps, refl)

receive_while-Keeps :
    (d : Device) (input : List ℕ)
    → let (d', _, rest) = receive_while d input in Keeps d d' × (length rest ≤ length input)
unfolding receive_while
receive_while-Keeps d [] = (Keeps-refl d, omega arith)
receive_while-Keeps d (c ∷ cs) = elim (Outcome-cases (receive_byte d c)) [
  | inl (d', e) ↦
      let (k, l) = receive_while-Keeps d' cs in
      rw (e, receive_while) (Keeps-trans (rw e at (receive_byte-Keeps d c)) k, omega arith)
  | inr (d', ps, e) ↦ rw (e, receive_while) (rw e at (receive_byte-Keeps d c), omega arith)
]

-- What the receiving side keeps of the protocol's state.
pub record ProtocolKeeps (p p' : Protocol) : Type 0 where
  pub b_init : p'.b_init ≡ p.b_init
  pub device : Keeps p.device p'.device

pub ProtocolKeeps-refl : (p : Protocol) → ProtocolKeeps p p
ProtocolKeeps-refl p = record { b_init = refl; device = Keeps-refl p.device }

protocol_receive-Keeps :
    (p : Protocol) (prot_id b : ℕ) (bs : List ℕ)
    → let (p', _, rest) = protocol_receive p prot_id (b ∷ bs) in
      ProtocolKeeps p p' × (length rest ≤ length (b ∷ bs))
unfolding protocol_receive protocol_receive_flagged
protocol_receive-Keeps p prot_id b bs = elim (Bool-cases (p.b_init && ltb prot_id proto_max_dev)) [
  | inr away ↦ rw away (ProtocolKeeps-refl p, omega arith)
  | inl there ↦ elim (Bool-cases (bit_and p.device.options proto_rx == 0)) [
    | inl off ↦ rw (there, off) (ProtocolKeeps-refl p, omega arith)
    | inr on ↦
        let (k, l) = receive_while-Keeps p.device (b ∷ bs) in
        rw (there, on) (record { b_init = refl; device = k }, l)
  ]
]

-- Whatever the slot is, the loop of `rx` changes the receive state only, and leaves no more bytes
-- than there were.
pub rx_loop-Keeps :
    (fuel : ℕ) (p : Protocol) (prot_id : ℕ) (input : List ℕ)
    → let (p', _, rest) = rx_loop fuel p prot_id input in
      ProtocolKeeps p p' × (length rest ≤ length input)
unfolding rx_loop
rx_loop-Keeps fuel p prot_id [] = (ProtocolKeeps-refl p, omega arith)
rx_loop-Keeps zero p prot_id (b ∷ bs) = (ProtocolKeeps-refl p, omega arith)
rx_loop-Keeps (suc fuel) p prot_id (b ∷ bs) =
    let (k, l) = protocol_receive-Keeps p prot_id b bs in
    let (p', _, rest) = protocol_receive p prot_id (b ∷ bs) in
    let (k', l') = rx_loop-Keeps fuel p' prot_id rest in
    (record { b_init = k'.b_init ∙ k.b_init; device = Keeps-trans k.device k'.device }, omega arith)
