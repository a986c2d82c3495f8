-- ===== src/Master/Packets/Cases.antt =====
-- src/zm_master.cpp: the responses of the device, zmMaster::processPacked.
use deconz.Prelude.{
  ℕ, suc, Bool, true, false, not, ◌&&◌, ◌||◌, List, [], ◌∷◌, ltb, leb, ◌==◌, if◌then◌else◌, take,
  drop, eq_bytes,
}
use deconz.BufferHelper.{BufferHelper}
use deconz.Command.{Command, zm_cmd_status}
use deconz.Master.{
  Master, Signal, device_connected, device_activity, start_interpan_mode_failed, send_interpan_done,
  send_interpan_failed, delivers, apsde_data_request_done, write_parameter_done,
  zm_cmd_aps_data_req, zm_cmd_aps_data_req_2, zm_cmd_aps_data_confirm, zm_cmd_aps_data_indication,
  zm_cmd_aps_data_indication_2, zm_cmd_interpan_indication, zm_cmd_interpan_confirm, zm_cmd_version,
  zm_cmd_feature, zm_cmd_read_param, zm_cmd_write_param, zm_cmd_start_interpan_mode,
  zm_cmd_send_interpan_req,
}
use deconz.Master.Items.{is_idle, qitem_confirm, start_task_timer}
use deconz.Master.Kill.{buffer_0}
use deconz.Master.Requests.{read_parameter_with_arg, firmware_version_request}
use deconz.Master.Requests.Network.{unlock_max_nodes}
use deconz.Master.Packets.{
  Step, ◌then_do◌, when, tells, requests, data_at, buffer_at, buffer_size, no_status_needed,
}
use deconz.Master.Packets.Status.{check_status0, check_status1}

-- What a response to a read parameter changes: the protocol version, or, for the address of the trust
-- center, the link key is read.
unfoldable pub version_read : BufferHelper → Command → Step
version_read h cmd m =
    let version = h.get_u16_le (buffer_at cmd 1) (buffer_at cmd 2) in
    if (cmd.status == 0) && (buffer_size cmd == 3)
    then (
      record m { protocol_version = if leb 0x0100 version then version else m.protocol_version },
      [],
    )
    else (record m { protocol_version = 0x0100 }, [])

unfoldable pub trust_center_read : Bool → Command → Step
trust_center_read app cmd =
    let address = take 8 (drop 3 cmd.payload) in
    let zeros = 0 ∷ 0 ∷ 0 ∷ 0 ∷ 0 ∷ 0 ∷ 0 ∷ 0 ∷ [] in
    when (not (eq_bytes address zeros)) (requests (read_parameter_with_arg app 0x19 address))

unfoldable pub parameter_read : BufferHelper → Bool → Command → Step
parameter_read h app cmd =
    if buffer_0 cmd == 0x22
    then version_read h cmd
    else if buffer_0 cmd == 0x0E
    then trust_center_read app cmd
    else tells []

-- What a response to the feature command changes.
unfoldable pub feature_read : BufferHelper → Command → Step
feature_read h cmd m =
    let n = h.get_u16_le (buffer_at cmd 2) (buffer_at cmd 3) in
    if (buffer_0 cmd == 0x11)
      && ((buffer_at cmd 1 == 0) && ((buffer_size cmd == 4) && (leb 5 n && leb n 512)))
    then (record m { max_nodes = n }, [])
    else (m, [])

-- A response that begins with the status bytes.
abbrev pub with_status0 : Bool → Command → Step
with_status0 app cmd m =
    (check_status0 app (buffer_0 cmd) m) then_do (λ m'. (no_status_needed m', []))

abbrev pub with_status : Bool → Command → Step
with_status app cmd m =
    ((check_status0 app (buffer_0 cmd) m) then_do check_status1 (buffer_0 cmd) (buffer_at cmd 1))
    then_do (λ m'. (no_status_needed m', []))

-- What the program is given if the command succeeded.
abbrev pub on_success : Command → List Signal → List Signal → Step
on_success cmd out failed = tells (if cmd.status == 0 then out else failed)

-- The cases of `zmMaster::processPacked` that change the state.
unfoldable pub on_status : Bool → ℕ → Command → Step
on_status app now cmd m =
    ((((record m { t_status = now; need_status = false }, [])
          then_do check_status0 app (data_at cmd 0))
        then_do check_status1 (data_at cmd 0) (data_at cmd 1))
      then_do tells (delivers cmd ∷ []))

unfoldable pub on_aps_request : Bool → Command → Step
on_aps_request app cmd m =
    with_status0 app cmd m
    then_do on_success cmd (apsde_data_request_done (buffer_at cmd 1) 0 ∷ []) []

unfoldable pub on_aps_data : Bool → Command → Step
on_aps_data app cmd m = with_status0 app cmd m then_do on_success cmd (delivers cmd ∷ []) []

unfoldable pub on_parameter : BufferHelper → Bool → Command → Step
on_parameter h app cmd m = parameter_read h app cmd m then_do tells (delivers cmd ∷ [])

unfoldable pub on_interpan_started : Command → Step
on_interpan_started cmd m =
    if cmd.status == 0
    then (record m { ipan_state = 1 }, [])
    else (m, start_interpan_mode_failed ∷ [])

unfoldable pub on_interpan_indication : Bool → Command → Step
on_interpan_indication app cmd m =
    with_status app cmd m then_do on_success cmd (delivers cmd ∷ []) []

unfoldable pub on_interpan_confirm : Bool → Command → Step
on_interpan_confirm app cmd m =
    with_status app cmd m
    then_do on_success cmd
        (if buffer_at cmd 2 == 0 then send_interpan_done ∷ [] else send_interpan_failed ∷ [])
        (send_interpan_failed ∷ [])

-- The `switch` of `zmMaster::processPacked`; the other commands only reach the rest of the program.
unfoldable pub packet_case : BufferHelper → Bool → ℕ → Command → Step
packet_case h app now cmd =
    if (cmd.cmd == zm_cmd_status) || (cmd.cmd == 0x0E)
    then on_status app now cmd
    else if cmd.cmd == zm_cmd_version
    then (λ m. (record m { need_status = true }, delivers cmd ∷ []))
    else if cmd.cmd == zm_cmd_feature
    then feature_read h cmd
    else if (cmd.cmd == zm_cmd_aps_data_req) || (cmd.cmd == zm_cmd_aps_data_req_2)
    then on_aps_request app cmd
    else if (cmd.cmd == zm_cmd_aps_data_confirm)
        || ((cmd.cmd == zm_cmd_aps_data_indication) || (cmd.cmd == zm_cmd_aps_data_indication_2))
    then on_aps_data app cmd
    else if cmd.cmd == zm_cmd_read_param
    then on_parameter h app cmd
    else if cmd.cmd == zm_cmd_write_param
    then tells (write_parameter_done (buffer_0 cmd) cmd.status ∷ [])
    else if cmd.cmd == zm_cmd_start_interpan_mode
    then on_interpan_started cmd
    else if cmd.cmd == zm_cmd_send_interpan_req
    then on_success cmd [] (send_interpan_failed ∷ [])
    else if cmd.cmd == zm_cmd_interpan_indication
    then on_interpan_indication app cmd
    else if cmd.cmd == zm_cmd_interpan_confirm
    then on_interpan_confirm app cmd
    else tells (delivers cmd ∷ [])

-- The first packet after a connection.
unfoldable pub first_packet : BufferHelper → Bool → Step
first_packet h app m =
    ((((m, []) then_do when (m.packet_counter == 0) (requests (firmware_version_request app)))
        then_do when (m.packet_counter == 0) (requests (unlock_max_nodes h app)))
      then_do when (m.packet_counter == 0) (tells (device_connected ∷ [])))
    then_do when (ltb m.packet_counter 2147483647)
        (λ m'. (record m' { packet_counter = suc m.packet_counter }, []))

-- The timer is started if it does not run.
unfoldable pub run_timer : Step
run_timer m = when (not m.timer_active && is_idle m.state) (λ m'. start_task_timer m' 0) m

-- What `processPacked` does first: the response takes its command out of the queue.
unfoldable pub take_out : Command → Master → Master
take_out cmd m =
    let (m', taken) = qitem_confirm m cmd in
    record m' { t_send = if m'.q_items_wait_confirm == 0 then 0 else m'.t_send }

-- `zmMaster::processPacked`
unfoldable pub process_packed : BufferHelper → Bool → ℕ → Command → Step
process_packed h app now cmd = (λ m.
    when (is_idle m.state)
      (λ m0.
        (((first_packet h app (take_out cmd m0) then_do packet_case h app now cmd)
            then_do run_timer)
          then_do tells (device_activity ∷ [])))
      m)
