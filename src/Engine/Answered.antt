-- ===== src/Engine/Answered.antt =====
-- src/zm_master.cpp, zm_master_com_serial.cpp, common/zm_protocol.c and common/protocol.c together: a
-- request from the queue to the port, and its response from the port to the queue.
use deconz.Prelude.{
  ℕ, ◌+◌, ◌%◌, ◌<◌, ◌≡◌, ◌≢◌, refl, sym, ap, ◌∙◌, subst, Bool, true, false, some, List, [], ◌∷◌,
  ltb, ◌==◌, length, arith, Bool-cases, inl, inr,
}
use deconz.BufferHelper.{BufferHelper, IsLittleEndian}
use deconz.Command.{Command}
use deconz.Command.Encode.{command2buffer}
use deconz.Command.Print.{IsUnion}
use deconz.Protocol.{Device}
use deconz.Protocol.Output.{protocol_send_flagged}
use deconz.Protocol.Receive.{feed}
use deconz.Protocol.RoundTrip.{Holds, send_each}
use deconz.Serial.{Com, Event, sent, port_write, on_packet, rx_tx}
use deconz.Serial.Receive.{packet_events}
use deconz.Serial.Txq.{IsValid, waiting}
use deconz.Serial.Transmit.{CanSend, IsIdle}
use deconz.Serial.Commands.{send_transmits}
use deconz.Serial.Link.{IsSendable, Delivers, one_more, none_left, link-Delivers}
use deconz.Master.{Master, Item}
use deconz.Master.Items.{is_free, is_wait_send, is_wait_confirm, item_at, answers, qitem_confirm}
use deconz.Master.Consistent.{IsConsistent}
use deconz.Master.Send.{connected, send_next_command, next_to_send_found}
use deconz.Master.Send.Sent.{IsSent, send_next_command_sends}
use deconz.Master.Release.Confirmed.{Confirms, qitem_confirm_lem}
use deconz.Engine.{next_command, transmit}

-- A connection that can send at once.
pub record IsReady (c : Com) : Type 0 where
  pub can : CanSend c
  pub idle : IsIdle c
  pub queue : IsValid c.txq
  pub up : c.com_state ≡ rx_tx
  pub none_wait : waiting c.txq ≡ []

-- The item that waits for a response is the one that is freed.
confirm_frees :
    (m : Master) (p : Command) (i : ℕ)
    → IsConsistent m
    → i < 32
    → answers p (item_at m.q_items i) ≡ true
    → (is_free (item_at (qitem_confirm m p).0.q_items i) ≡ true)
      × ((qitem_confirm m p).0.cmd_fails ≡ 0)
confirm_frees m p i c hi ok = by_outcome (qitem_confirm_lem m p c).1
  where
    by_outcome :
        Confirms m p (qitem_confirm m p)
        → (is_free (item_at (qitem_confirm m p).0.q_items i) ≡ true)
          × ((qitem_confirm m p).0.cmd_fails ≡ 0)
    by_outcome (inl (taken, fails, counted, (k, hk, ok', freed, rest))) =
        elim (Bool-cases (i == k)) [
          | inl e ↦
              let same : k ≡ i = ground arith in
              (
                subst (λ j. is_free (item_at (qitem_confirm m p).0.q_items j) ≡ true) same freed,
                fails,
              )
          | inr e ↦
              let apart : i ≢ k = ground arith in let not_ok = (rest i hi apart).1 in absurd (cc)
        ]
    by_outcome (inr (no_one, same, rest)) = let not_ok = rest i hi in absurd (cc)

-- A request went out: the first item that waited was handed over, its frame was written to the port, and
-- it waits for the response.
pub record IsTransmitted (h : BufferHelper) (app : Bool) (m : Master) (now : ℕ)
    (r : Master × Com × List Event) : Type 0 where
  pub i : ℕ
  pub index : i < 32
  pub waits : is_wait_send (item_at m.q_items i) ≡ true
  pub next : next_command app m ≡ some (item_at m.q_items i).cmd
  pub written :
      r.2 ≡ port_write (protocol_send_flagged (command2buffer h (item_at m.q_items i).cmd 196)) ∷ []
  pub sends : IsSent m r.0 i now
  pub consistent : IsConsistent r.0

-- The first of two counts of steps to an item that waits is not before the other.
first_le :
    (items : List Item) (sp k k' : ℕ)
    → is_wait_send (item_at items ((sp + k) % 32)) ≡ true
    → ((j : ℕ) → j < k' → is_wait_send (item_at items ((sp + j) % 32)) ≡ false)
    → ltb k k' ≡ false
first_le items sp k k' ok before = elim (Bool-cases (ltb k k')) [
  | inl e ↦ let none_ = before k (ground arith) in absurd (cc)
  | inr e ↦ e
]

-- What became of the item `i` when one packet came in.
pub record IsAnswered (m' : Master) (i : ℕ) (es : List Event) : Type 0 where
  pub packet : Command
  pub event : es ≡ on_packet packet ∷ []
  pub freed : is_free (item_at (qitem_confirm m' packet).0.q_items i) ≡ true
  pub fails : (qitem_confirm m' packet).0.cmd_fails ≡ 0

-- A command with the id and the sequence number of an item that waits for a response.
answers_same :
    (it : Item) (p : Command)
    → is_wait_confirm it ≡ true
    → p.cmd ≡ it.cmd.cmd
    → p.seq ≡ it.cmd.seq
    → answers p it ≡ true
answers_same it p w ec es = ground arith

delivered_frees :
    {h : BufferHelper} (m : Master) (i : ℕ) (r : Command) (es : List Event)
    → IsConsistent m
    → i < 32
    → is_wait_confirm (item_at m.q_items i) ≡ true
    → r.cmd ≡ (item_at m.q_items i).cmd.cmd
    → r.seq ≡ (item_at m.q_items i).cmd.seq
    → Delivers h (r ∷ []) es
    → IsAnswered m i es
delivered_frees m i r _ c hi w ec es (one_more {d = d} e1 e2 _ _ none_left) =
    let (freed, fails) =
      confirm_frees m d i c hi (answers_same (item_at m.q_items i) d w (e1 ∙ ec) (e2 ∙ es)) in
    record { packet = d; event = refl; freed = freed; fails = fails }

module _ {h : BufferHelper} (le : IsLittleEndian h) (app : Bool) (now nwrite : ℕ) (m : Master)
    (c : Com) (mc : IsConsistent m) (on : connected app m ≡ true)
    (some_wait : m.q_items_wait_send ≢ 0) (few : m.q_items_wait_confirm < 2) (ready : IsReady c)
    (frames : (i : ℕ)
      → is_wait_send (item_at m.q_items i) ≡ true
      → IsUnion (item_at m.q_items i).cmd.payload
        × (command2buffer h (item_at m.q_items i).cmd 196 ≢ [])) where
  pub transmit-IsTransmitted : IsTransmitted h app m now (transmit h app now nwrite m c)
  unfolding transmit next_command
  transmit-IsTransmitted =
      let (i, e, k, hk, at, waits, before) = next_to_send_found m mc some_wait in
      let (m_ok, (i', k', hk', at', waits', before', (out, took, kept))) =
        send_next_command_sends app now sent m mc on some_wait few in
      let more : (m.q_items_wait_send == 0) ≡ false = ground arith in
      let room : ltb m.q_items_wait_confirm 2 ≡ true = ground arith in
      let w : is_wait_send (item_at m.q_items ((m.q_item_sp + k) % 32)) ≡ true =
        subst (λ x. is_wait_send (item_at m.q_items x) ≡ true) at waits in
      let w' : is_wait_send (item_at m.q_items ((m.q_item_sp + k') % 32)) ≡ true =
        subst (λ x. is_wait_send (item_at m.q_items x) ≡ true) at' waits' in
      let one_way = first_le m.q_items m.q_item_sp k k' w before' in
      let other_way = first_le m.q_items m.q_item_sp k' k w' before in
      let same_k : k' ≡ k = ground arith in
      let same : i' ≡ i = omega arith in
      let (u, printed) = frames i waits in
      let (ok, wrote, emptied, valid, idle') =
        send_transmits h le c (item_at m.q_items i).cmd nwrite ready.can ready.idle ready.queue
          ready.up ready.none_wait u printed in
      rw (transmit, next_command, on, more, room, e, ok)
        (record {
          i = i;
          index = omega arith;
          waits = waits;
          next = rw (next_command, on, more, room, e) refl;
          written = wrote;
          sends = subst (λ x. IsSent m (send_next_command app now sent m).0 x now) same (took refl);
          consistent = m_ok;
        })

  -- With little-endian stores and loads, the connection up and idle, a command that waits to be sent,
  -- fewer than two that wait for a response, and a frame for every command that waits to be sent:
  -- `sendNextCommand` writes the frame of the command that is next to the port and nothing else, the
  -- command's item waits for its response, the others are as they were, and the counts stay right.
  -- When any response with its id and sequence number that has a frame, and is not the bare ACK, is
  -- received by a device with an empty receive buffer of 256 bytes, that is one packet, and
  -- `QItem_Confirm` of that packet frees the item and resets the count of failures. The memory of
  -- the parsed command holds a union.
  pub request_completes :
      (cmd response stack : Command) (d : Device)
      → next_command app m ≡ some cmd
      → length stack.payload ≡ 118
      → Holds d []
      → d.buffer_len ≡ 256
      → IsSendable h response
      → response.cmd ≡ cmd.cmd
      → response.seq ≡ cmd.seq
      → let r = transmit h app now nwrite m c in
        (t : IsTransmitted h app m now r) × ((item_at m.q_items t.i).cmd ≡ cmd)
        × IsAnswered r.0 t.i
            (packet_events stack (feed d (send_each (command2buffer h response 196 ∷ []))).1)
  request_completes cmd response stack d next size holds len ok ec es =
      let t = transmit-IsTransmitted in
      let r = transmit h app now nwrite m c in
      let same : (item_at m.q_items t.i).cmd ≡ cmd = (let both = sym t.next ∙ next in cc) in
      let it : (item_at r.0.q_items t.i).cmd ≡ cmd = ap (λ x. x.cmd) t.sends.item ∙ same in
      let waits : is_wait_confirm (item_at r.0.q_items t.i) ≡ true =
        subst (λ x. is_wait_confirm x ≡ true) (sym t.sends.item) refl in
      (
        t,
        same,
        delivered_frees r.0 t.i response _ t.consistent t.index waits
            (ec ∙ ap (λ x. x.cmd) (sym it)) (es ∙ ap (λ x. x.seq) (sym it))
            (link-Delivers le stack size d (response ∷ []) holds len (ok, tt)),
      )
