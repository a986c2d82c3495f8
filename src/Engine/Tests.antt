-- ===== src/Engine/Tests.antt =====
-- A request and its response at a concrete queue and connection.
use deconz.Prelude.{
  ℕ, zero, suc, ◌<◌, ◌≡◌, ◌≢◌, refl, true, false, some, [], ◌∷◌, get_or, replicate, arith,
}
use deconz.BufferHelper.{little_endian, little_endian-IsLittleEndian}
use deconz.Command.{Command}
use deconz.Command.Tests.{stack_memory, get_or-replicate}
use deconz.Command.Encode.{put_field, put_fields, put_known, put_entry, command2buffer}
use deconz.Command.Print.{IsUnion}
use deconz.Protocol.RoundTrip.{send_each}
use deconz.Protocol.Receive.{feed}
use deconz.Serial.Link.{IsSendable}
use deconz.Serial.Receive.{packet_events}
use deconz.Serial.Tests.{quiet, quiet-CanSend, quiet-IsIdle, quiet-IsValid, slot, slot-Holds}
use deconz.Master.{Master}
use deconz.Master.Items.{
  is_wait_send, item_at, qitem_alloc, alloc_rounds, prepare, qitem_next_seq, next_unused,
  qitem_enqueue, qitem_next_to_send, next_from,
}
use deconz.Master.Machine.{
  opens, connects, reads, history, history-IsSound, step, fresh, fresh-IsSound, blank,
}
use deconz.Master.Sound.{IsSound}
use deconz.Master.Timer.{open_serial, on_device_connected}
use deconz.Master.Requests.{read_parameter}
use deconz.Master.Queue.{queue_command}
use deconz.Master.Send.{connected}
use deconz.Engine.{next_command, transmit}
use deconz.Engine.Answered.{IsReady, IsTransmitted, IsAnswered, request_completes}

-- A connected device, with one read queued.
abbrev one_read : Master
one_read =
    history little_endian ((false, opens false true) ∷ (true, connects) ∷ (true, reads 5) ∷ [])
      fresh

-- The command in the queue.
abbrev read_5 : Command
read_5 = record { cmd = 0x0A; seq = 1; status = 0; payload = 1 ∷ 0 ∷ 5 ∷ replicate 115 0 }

first_item : (item_at one_read.q_items 0).cmd ≡ read_5
unfolding history step open_serial on_device_connected read_parameter queue_command qitem_alloc
    alloc_rounds prepare qitem_next_seq next_unused qitem_enqueue
first_item = refl

blank_at : (n i : ℕ) → is_wait_send (get_or (replicate n blank) i (item_at [] 0)) ≡ false
blank_at zero i = refl
blank_at (suc n) zero = refl
blank_at (suc n) (suc i) = blank_at n i

only_first : (i : ℕ) → is_wait_send (item_at one_read.q_items (suc i)) ≡ false
unfolding history step open_serial on_device_connected read_parameter queue_command qitem_alloc
    alloc_rounds prepare qitem_next_seq next_unused qitem_enqueue
only_first i = blank_at 31 i

read_bytes : (i : ℕ) → get_or read_5.payload i 0 < 256
read_bytes zero = omega arith
read_bytes (suc zero) = omega arith
read_bytes (suc (suc zero)) = omega arith
read_bytes (suc (suc (suc i))) = get_or-replicate 115 i

read_5-IsUnion : IsUnion read_5.payload
read_5-IsUnion = record { size = refl; bytes = read_bytes }

read_printed : command2buffer little_endian read_5 196 ≢ []
unfolding command2buffer put_entry put_known put_fields put_field
read_printed e = cc

read_next : next_command true one_read ≡ some read_5
unfolding history step open_serial on_device_connected read_parameter queue_command qitem_alloc
    alloc_rounds prepare qitem_next_seq next_unused qitem_enqueue next_command qitem_next_to_send
    next_from
read_next = refl

one_read-Counts :
    (connected true one_read ≡ true)
    × (one_read.q_items_wait_send ≡ 1)
    × (one_read.q_items_wait_confirm ≡ 0)
unfolding history step open_serial on_device_connected read_parameter queue_command qitem_alloc
    alloc_rounds prepare qitem_next_seq next_unused qitem_enqueue
one_read-Counts = (refl, refl, refl)

frames :
    (i : ℕ)
    → is_wait_send (item_at one_read.q_items i) ≡ true
    → IsUnion (item_at one_read.q_items i).cmd.payload
      × (command2buffer little_endian (item_at one_read.q_items i).cmd 196 ≢ [])
frames zero waits = rw first_item (read_5-IsUnion, read_printed)
frames (suc i) waits = let none_ = only_first i in absurd (cc)

quiet-IsReady : IsReady quiet
quiet-IsReady = record {
  can = quiet-CanSend;
  idle = quiet-IsIdle;
  queue = quiet-IsValid;
  up = refl;
  none_wait = refl;
}

one_read-IsSound : IsSound one_read
one_read-IsSound =
    history-IsSound little_endian
      ((false, opens false true) ∷ (true, connects) ∷ (true, reads 5) ∷ []) fresh fresh-IsSound

-- The device answers with the value 0x3412 of the parameter.
abbrev answer : Command
answer = record {
  cmd = 0x0A;
  seq = 1;
  status = 0;
  payload = 3 ∷ 0 ∷ 5 ∷ 0x12 ∷ 0x34 ∷ replicate 113 0;
}

answer_bytes : (i : ℕ) → get_or answer.payload i 0 < 256
answer_bytes zero = omega arith
answer_bytes (suc zero) = omega arith
answer_bytes (suc (suc zero)) = omega arith
answer_bytes (suc (suc (suc zero))) = omega arith
answer_bytes (suc (suc (suc (suc zero)))) = omega arith
answer_bytes (suc (suc (suc (suc (suc i))))) = get_or-replicate 113 i

answer_printed : command2buffer little_endian answer 196 ≢ []
unfolding command2buffer put_entry put_known put_fields put_field
answer_printed e = cc

answer-IsSendable : IsSendable little_endian answer
answer-IsSendable = record {
  union = record { size = refl; bytes = answer_bytes };
  not_ack = omega arith;
  printed = answer_printed;
}

request_completes_example :
    let r = transmit little_endian true 1000 17 one_read quiet in
    (t : IsTransmitted little_endian true one_read 1000 r) × ((item_at one_read.q_items t.i).cmd
      ≡ read_5)
    × IsAnswered r.0 t.i (
        packet_events stack_memory
          (feed slot.device (send_each (command2buffer little_endian answer 196 ∷ []))).1)
request_completes_example =
    request_completes little_endian-IsLittleEndian true 1000 17 one_read quiet
      one_read-IsSound.consistent one_read-Counts.0 (λ e. omega (arith, one_read-Counts.1))
      (omega (arith, one_read-Counts.2)) quiet-IsReady frames read_5 answer stack_memory slot.device
      read_next refl slot-Holds refl answer-IsSendable refl refl
