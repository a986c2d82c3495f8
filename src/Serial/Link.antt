-- ===== src/Serial/Link.antt =====
-- src/zm_master_com_serial.cpp, src/common/protocol.c and zm_protocol.c together: a command on its
-- way from one side to the packet handler of the other.
use deconz.Prelude.{
  ℕ, ◌-◌, ◌≡◌, ◌≢◌, refl, sym, List, [], ◌∷◌, length, arith, take, All, map, subst,
}
use deconz.BufferHelper.{BufferHelper, IsLittleEndian}
use deconz.Protocol.{Device}
use deconz.Protocol.Receive.{feed, Fits}
use deconz.Protocol.RoundTrip.{Holds, send_each, receive-send_each}
use deconz.Command.{Command, zm_cmd_ack, parse_ok}
use deconz.Command.Decode.{buffer2command}
use deconz.Command.Encode.{command2buffer}
use deconz.Command.Print.{IsUnion, length-command2buffer}
use deconz.Command.Parse.{buffer2command-command2buffer}
use deconz.Serial.{Event, on_packet}
use deconz.Serial.Receive.{ser_packet, packet_events}

-- A command that has a frame.
pub record IsSendable (h : BufferHelper) (c : Command) : Type 0 where
  pub union : IsUnion c.payload
  pub not_ack : c.cmd ≢ zm_cmd_ack
  pub printed : command2buffer h c 196 ≢ []

-- The packet handler is called once for each command sent, in order, with a command of the same id,
-- sequence number and status, and the same union as far as the frame carries it.
pub data Delivers (h : BufferHelper) : List Command → List Event → Type 0 where
  none_left : Delivers h [] []
  one_more :
      {c d : Command} {cs : List Command} {es : List Event}
      → d.cmd ≡ c.cmd
      → d.seq ≡ c.seq
      → d.status ≡ c.status
      → take (length (command2buffer h c 196) - 5) d.payload
        ≡ take (length (command2buffer h c 196) - 5) c.payload
      → Delivers h cs es
      → Delivers h (c ∷ cs) (on_packet d ∷ es)

ser_packet-ok :
    (stack : Command) (bytes : List ℕ)
    → bytes ≢ []
    → (buffer2command bytes stack).1 ≡ parse_ok
    → ser_packet stack bytes ≡ on_packet (buffer2command bytes stack).0 ∷ []
unfolding ser_packet
ser_packet-ok stack [] full ok = absurd (full refl)
ser_packet-ok stack (b ∷ bs) full ok = rw (ok, ser_packet)

module _ {h : BufferHelper} (le : IsLittleEndian h) (stack : Command)
    (size : length stack.payload ≡ 118) where
  abbrev frames : List Command → List (List ℕ)
  frames = map (λ c. command2buffer h c 196)

  frames-Fits : (cs : List Command) → All (IsSendable h) cs → All (Fits 256) (frames cs)
  frames-Fits [] ok = tt
  frames-Fits (c ∷ cs) ok =
      (omega (arith, length-command2buffer le c ok.0.union), frames-Fits cs ok.1)

  events-Delivers :
      (cs : List Command) → All (IsSendable h) cs → Delivers h cs (packet_events stack (frames cs))
  events-Delivers [] ok = none_left
  events-Delivers (c ∷ cs) ok =
      let a = buffer2command-command2buffer le c stack ok.0.union size ok.0.not_ack ok.0.printed in
      rw (ser_packet-ok stack (command2buffer h c 196) ok.0.printed a.ok)
        (one_more a.cmd a.seq a.status a.payload (events-Delivers cs ok.1))

  -- The frames of any number of commands that have one (none of them the bare ACK), received by a
  -- device with an empty receive buffer of 256 bytes, call the packet handler once for each
  -- command, in order, with its id, sequence number, status and union, as far as the frame carries
  -- the union. The stores and loads are little endian, and the memory of the parsed command holds a
  -- union.
  pub link-Delivers :
      (d : Device) (cs : List Command)
      → Holds d []
      → d.buffer_len ≡ 256
      → All (IsSendable h) cs
      → Delivers h cs
          (packet_events stack (feed d (send_each (map (λ c. command2buffer h c 196) cs))).1)
  link-Delivers d cs ready len ok =
      let (d', e, _) =
        receive-send_each d (frames cs) ready
          (subst (λ n. All (Fits n) (frames cs)) (sym len) (frames-Fits cs ok)) in
      rw e (events-Delivers cs ok)
