-- ===== src/Master/Packets.antt =====
-- src/zm_master.cpp: steps of the responses of the device, and the bytes of a response.
pub mod Status
pub mod Cases
pub mod Answered
use deconz.Prelude.{
  ℕ, suc, ◌+◌, ◌-◌, ◌*◌, ◌/◌, ◌%◌, ◌^◌, Bool, true, false, not, ◌&&◌, ◌||◌, Option, none, some,
  List, [], ◌∷◌, ◌++◌, ltb, leb, ◌==◌, if◌then◌else◌, get_or, take, drop, length, bit_and, eq_bytes,
}
use deconz.BufferHelper.{BufferHelper}
use deconz.Command.{Command, zm_cmd_status}
use deconz.Serial.{SendResult}
use deconz.Master.{
  Master, MasterState, master_off, master_connecting, master_idle, Signal, device_state,
  net_state_changed, device_connected, device_activity, start_interpan_mode_done,
  start_interpan_mode_failed, send_interpan_done, send_interpan_failed, delivers,
  apsde_data_request_done, write_parameter_done, command_queue_empty, zm_cmd_aps_data_req,
  zm_cmd_aps_data_req_2, zm_cmd_aps_data_confirm, zm_cmd_aps_data_indication,
  zm_cmd_aps_data_indication_2, zm_cmd_interpan_indication, zm_cmd_interpan_confirm, zm_cmd_version,
  zm_cmd_feature, zm_cmd_read_param, zm_cmd_write_param, zm_cmd_start_interpan_mode,
  zm_cmd_send_interpan_req,
}
use deconz.Master.Ring.{qaps_empty}
use deconz.Master.Items.{is_idle, qitem_confirm, start_task_timer}
use deconz.Master.Kill.{buffer_0}
use deconz.Master.Timeouts.{handle_timeouts}
use deconz.Master.Requests.{
  Returned, read_parameter, read_parameter_with_arg, firmware_version_request,
}
use deconz.Master.Requests.Network.{read_parameters, unlock_max_nodes}
use deconz.Master.Tasks.{has, que_get_start_network_confirm_status}

-- One step after the other, with what both do; a step under a condition; and a step that only tells
-- the rest of the program something.
abbrev pub Step : Type 0
Step = Master → Master × List Signal

infix 2 ◌then_do◌
abbrev pub ◌then_do◌ : Master × List Signal → Step → Master × List Signal
(m, out) then_do f = (let (m', out') = f m in (m', out ++ out'))

abbrev pub when : Bool → Step → Step
when b f m = (let r = f m in if b then r else (m, []))

abbrev pub tells : List Signal → Step
tells out m = (m, out)

abbrev pub requests : (Master → Returned × Master × List Signal) → Step
requests f m = (let (r, m', out) = f m in (m', out))

-- The bytes `data[i]` and `buffer.data[i]`
abbrev pub data_at : Command → ℕ → ℕ
data_at cmd i = get_or cmd.payload i 0

abbrev pub buffer_at : Command → ℕ → ℕ
buffer_at cmd i = get_or cmd.payload (i + 2) 0

abbrev pub buffer_size : Command → ℕ
buffer_size cmd = data_at cmd 0 + data_at cmd 1 * 256

abbrev pub no_status_needed : Master → Master
no_status_needed m = record m { need_status = false }
