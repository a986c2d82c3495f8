-- ===== src/Engine.antt =====
-- src/zm_master.cpp over src/zm_master_com_serial.cpp: the queue of commands with the connection that it
-- sends over. What the port takes, the clock and whether the application is connected are arguments.
pub mod Answered
mod Tests
use deconz.Prelude.{ℕ, Bool, not, ◌&&◌, Option, none, some, List, [], ltb, ◌==◌, if◌then◌else◌}
use deconz.BufferHelper.{BufferHelper}
use deconz.Command.{Command}
use deconz.Serial.{Com, Event, send}
use deconz.Master.{Master}
use deconz.Master.Items.{item_at, qitem_next_to_send}
use deconz.Master.Send.{connected, send_next_command}

-- The command that `sendNextCommand` hands to the connection.
unfoldable pub next_command : Bool → Master → Option Command
next_command app m =
    if connected app m && (not (m.q_items_wait_send == 0) && ltb m.q_items_wait_confirm 2)
    then elim (qitem_next_to_send m) [ none ↦ none | some i ↦ some (item_at m.q_items i).cmd ]
    else none

-- `zmMaster::sendNextCommand` with the `SerialCom::send` that it calls.
unfoldable pub transmit : BufferHelper → Bool → ℕ → ℕ → Master → Com → Master × Com × List Event
transmit h app now nwrite m c = elim (next_command app m) [
  | none ↦ (m, c, [])
  | some cmd ↦
      let (result, c', events) = send h c cmd nwrite in
      ((send_next_command app now result m).0, c', events)
]
