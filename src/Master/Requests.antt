-- ===== src/Master/Requests.antt =====
-- src/zm_master.cpp: the requests to the device that the program queues. Whether the application is
-- connected is an argument. What a request's constants are is given by the callers' arguments.
pub mod Network
pub mod Keeps
pub mod Dropped
use deconz.Prelude.{
  ℕ, ◌+◌, ◌-◌, ◌*◌, ◌/◌, ◌%◌, Bool, true, false, not, ◌&&◌, ◌||◌, Option, none, some, List, [], ◌∷◌,
  ◌++◌, ltb, leb, ◌==◌, if◌then◌else◌, length, set,
}
use deconz.Command.{Command, write}
use deconz.BufferHelper.{BufferHelper}
use deconz.Master.{
  Master, MasterState, master_off, master_connecting, master_idle, Signal, zm_cmd_read_param,
  zm_cmd_write_param, zm_cmd_change_net_state, zm_cmd_version, zm_cmd_feature,
  zm_cmd_update_neighbor, zm_cmd_factory_reset, zm_cmd_nwk_leave_req, zm_cmd_start_interpan_mode,
  zm_cmd_send_interpan_req,
}
use deconz.Master.Ring.{qaps_full, qaps_push}
use deconz.Master.Items.{is_idle, set_len, qitem_alloc, start_task_timer}
use deconz.Master.Queue.{queue_command}
use deconz.Master.Send.{connected}

-- `cmd->cmd = id`, `cmd->buffer.len` and `cmd->buffer.data`
abbrev pub fill_buffer : ℕ → List ℕ → Command → Command
fill_buffer id bytes c = record c {
  cmd = id;
  payload = write (set_len (length bytes) c.payload) 2 bytes;
}

-- `cmd->cmd = id` and `cmd->buffer.len`
abbrev pub fill_length : ℕ → ℕ → Command → Command
fill_length id len c = record c { cmd = id; payload = set_len len c.payload }

-- `cmd->cmd = id` and `cmd->data[0]`
abbrev pub fill_data : ℕ → ℕ → Command → Command
fill_data id v c = record c { cmd = id; payload = set c.payload 0 v }

-- What a request returns: 0, or one of its errors.
pub data Returned : Type 0 where
  returns_0 minus_1 minus_2 minus_3 minus_4 : Returned

-- `zmMaster::readParameter`
unfoldable pub read_parameter : Bool → ℕ → Master → Returned × Master × List Signal
read_parameter app id m =
    let (ok, m', out) = queue_command m (fill_buffer zm_cmd_read_param (id ∷ [])) in
    if connected app m then (if ok then returns_0 else minus_1, m', out) else (minus_1, m, [])

-- `zmMaster::readParameterWithArg`
unfoldable pub read_parameter_with_arg :
    Bool → ℕ → List ℕ → Master → Returned × Master × List Signal
read_parameter_with_arg app id data_ m =
    let (ok, m', out) = queue_command m (fill_buffer zm_cmd_read_param (id ∷ data_)) in
    if connected app m then (if ok then returns_0 else minus_1, m', out) else (minus_1, m, [])

-- `zmMaster::writeParameter`; `none` is a null pointer. An item is taken before the length is tested.
unfoldable pub write_parameter :
    Bool → ℕ → Option (List ℕ) → Master → Returned × Master × List Signal
write_parameter app id none m = (minus_1, m, [])
write_parameter app id (some bytes) m =
    let (found, allocated) = qitem_alloc m in
    let (ok, m', out) = queue_command m (fill_buffer zm_cmd_write_param (id ∷ bytes)) in
    if not (connected app m) || (length bytes == 0)
    then (minus_1, m, [])
    else if ltb 115 (length bytes)
    then (elim found [ none ↦ minus_1 | some i ↦ minus_2 ], allocated, [])
    else (if ok then returns_0 else minus_1, m', out)

-- `zmMaster::taskHandler(EVENT_ITEM_ADDED)`
unfoldable pub item_added : Master → Master × List Signal
item_added m = elim m.state [
  | master_off ↦ (m, [])
  | master_idle ↦ (if m.timer_active then (m, []) else start_task_timer m 0)
  | master_connecting ↦ (record m { state = master_idle }, [])
]

-- A request that ends with that event.
unfoldable pub added :
    Returned → Returned → Bool × Master × List Signal → Returned × Master × List Signal
added done failed (ok, m, out) =
    let (m', out') = item_added m in if ok then (done, m', out ++ out') else (failed, m, out)

-- `zmMaster::firmwareVersionRequest`
unfoldable pub firmware_version_request : Bool → Master → Returned × Master × List Signal
firmware_version_request app m =
    let r = added returns_0 minus_1 (queue_command m (fill_buffer zm_cmd_version [])) in
    if connected app m then r else (minus_1, m, [])

-- `zmMaster::factoryReset`
unfoldable pub factory_reset : Bool → Master → Master × List Signal
factory_reset app m =
    let (r, m', out) =
      added returns_0 minus_1 (queue_command m (fill_buffer zm_cmd_factory_reset [])) in
    if connected app m then (m', out) else (m, [])

-- `zmMaster::joinNetwork` and `zmMaster::leaveNetwork`
unfoldable pub join_network : Bool → Master → Master × List Signal
join_network app m =
    let (ok, m', out) = queue_command m (fill_data zm_cmd_change_net_state 2) in
    if connected app m then (m', out) else (m, [])

unfoldable pub leave_network : Bool → Master → Master × List Signal
leave_network app m =
    let (ok, m', out) = queue_command m (fill_data zm_cmd_change_net_state 0) in
    if connected app m then (m', out) else (m, [])
