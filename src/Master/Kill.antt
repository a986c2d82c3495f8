-- ===== src/Master/Kill.antt =====
-- src/zm_master.cpp: zmMaster::killCommand and zmMaster::killCommandQueue. A command's memory is read
-- by byte: `data[0]` is the first byte of the union and `buffer.data[0]` the third.
pub mod Killed
use deconz.Prelude.{
  ℕ, zero, suc, ◌+◌, Bool, true, false, ◌||◌, List, [], ◌∷◌, ◌++◌, ◌==◌, if◌then◌else◌, get_or,
}
use deconz.Command.{Command}
use deconz.Master.{
  Master, ApsRing, Signal, read_parameter_response, write_parameter_done, apsde_data_request_done,
  start_interpan_mode_failed, send_interpan_failed, max_queue_items, zm_state_error,
  zm_cmd_read_param, zm_cmd_write_param, zm_cmd_aps_data_req, zm_cmd_aps_data_req_2,
  zm_cmd_start_interpan_mode, zm_cmd_send_interpan_req, zm_cmd_interpan_confirm,
}
use deconz.Master.Ring.{qaps_empty, qaps_pop}
use deconz.Master.Items.{is_free, item_at, qitem_free}

-- `cmd->data[0]` and `cmd->buffer.data[0]`
abbrev pub data_0 : Command → ℕ
data_0 cmd = get_or cmd.payload 0 0

abbrev pub buffer_0 : Command → ℕ
buffer_0 cmd = get_or cmd.payload 2 0

unfoldable pub kill_command : Command → ℕ → List Signal
kill_command cmd state =
    if cmd.cmd == zm_cmd_read_param
    then read_parameter_response state (data_0 cmd) ∷ []
    else if cmd.cmd == zm_cmd_write_param
    then write_parameter_done (buffer_0 cmd) state ∷ []
    else if (cmd.cmd == zm_cmd_aps_data_req) || (cmd.cmd == zm_cmd_aps_data_req_2)
    then apsde_data_request_done (buffer_0 cmd) state ∷ []
    else if cmd.cmd == zm_cmd_start_interpan_mode
    then start_interpan_mode_failed ∷ []
    else if (cmd.cmd == zm_cmd_send_interpan_req) || (cmd.cmd == zm_cmd_interpan_confirm)
    then send_interpan_failed ∷ []
    else []

-- The loop over the items, with the rounds that are left.
unfoldable pub kill_items : ℕ → ℕ → Master → Master × List Signal
kill_items zero i m = (m, [])
kill_items (suc rounds) i m =
    let it = item_at m.q_items i in
    let m' = if is_free it then m else qitem_free m i in
    let out = if is_free it then [] else kill_command it.cmd zm_state_error in
    let (m'', later) = kill_items rounds (suc i) m' in (m'', out ++ later)

-- The loop that empties the ring, with fuel.
unfoldable pub kill_ids : ℕ → ApsRing → ApsRing × List Signal
kill_ids zero q = (q, [])
kill_ids (suc fuel) q =
    let (id, q') = qaps_pop q in
    let (q'', later) = kill_ids fuel q' in
    if qaps_empty q then (q, []) else (q'', apsde_data_request_done id zm_state_error ∷ later)

unfoldable pub kill_command_queue : Master → Master × List Signal
kill_command_queue m =
    let (m', killed) = kill_items max_queue_items 0 m in
    let (q, ids_killed) = kill_ids 16 m'.aps in
    (
      record m' { q_item_sp = 0; q_item_wp = 0; aps = record q { q_aps_rp = 0; q_aps_wp = 0 } },
      killed ++ ids_killed,
    )
