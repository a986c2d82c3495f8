-- ===== src/Master/Tasks.antt =====
-- src/zm_master.cpp: what the task timer and the periodic timer do with the queue. What the program
-- answers for an APS request id, `controller()->getApsRequest`, is an argument.
pub mod Keeps
pub mod Fired
use deconz.Prelude.{
  ℕ, ◌+◌, ◌-◌, ◌*◌, ◌%◌, Bool, true, false, not, ◌&&◌, ◌||◌, Option, none, some, List, [], ◌∷◌,
  ◌++◌, ltb, leb, ◌==◌, if◌then◌else◌, length, bit_and,
}
use deconz.Command.{Command, zm_cmd_status}
use deconz.Serial.{SendResult}
use deconz.Master.{
  Master, Item, MasterState, master_off, master_connecting, master_idle, Signal,
  command_queue_empty, apsde_data_request_done, max_queue_items, max_unconfirmed, send_delay,
  zm_state_error, zm_cmd_aps_data_req, zm_cmd_aps_data_req_2, zm_cmd_aps_data_confirm,
  zm_cmd_aps_data_indication, zm_cmd_aps_data_indication_2, zm_cmd_interpan_indication,
  zm_cmd_interpan_confirm, zm_cmd_zdo_net_confirm,
}
use deconz.Master.Ring.{qaps_empty, qaps_pop}
use deconz.Master.Items.{is_free, is_idle, qitem_alloc, qitem_enqueue, start_task_timer}
use deconz.Master.Queue.{queue_command, fill_item}
use deconz.Master.Send.{send_next_command}
use deconz.Master.Requests.{fill_buffer, fill_length, fill_data}
use deconz.Master.Requests.Network.{net_state, is_in_network}

-- `status0 & bit` and `status0 &= ~bits`, for a byte
abbrev pub has : ℕ → ℕ → Bool
has status bit = not (bit_and status bit == 0)

abbrev pub clear0 : ℕ → Master → Master
clear0 bits m = record m { status0 = bit_and m.status0 (255 - bits) }

abbrev pub clear1 : ℕ → Master → Master
clear1 bits m = record m { status1 = bit_and m.status1 (255 - bits) }

-- Some item in use has one of the two commands. (`QItems_Empty` only saves the search.)
abbrev pub command_used : ℕ → ℕ → List Item → Bool
command_used a b [] = false
command_used a b (it ∷ items) =
    (not (is_free it) && ((it.cmd.cmd == a) || (it.cmd.cmd == b))) || command_used a b items

-- `EnqueueStatus`, with whether there is an item
unfoldable pub enqueue_status : Master → Bool × Master × List Signal
enqueue_status m =
    let r = queue_command m (fill_data zm_cmd_status 0) in
    if command_used zm_cmd_status zm_cmd_status m.q_items then (true, m, []) else r

-- `zmMaster::queApsDataConfirm`, with its return value
unfoldable pub que_aps_data_confirm : Master → Bool × Master × List Signal
que_aps_data_confirm m =
    let (ok, m', out) = queue_command m (fill_buffer zm_cmd_aps_data_confirm []) in
    if command_used zm_cmd_aps_data_confirm zm_cmd_aps_data_confirm m.q_items
    then (true, clear0 0x04 m, [])
    else (ok, if ok then clear0 0x04 m' else m', out)

-- What `zmMaster::queApsDataIndication` asks for.
abbrev pub fill_indication : ℕ → Command → Command
fill_indication version =
    if ltb version 0x0102
    then fill_buffer zm_cmd_aps_data_indication []
    else if leb 0x010B version
    then fill_buffer zm_cmd_aps_data_indication_2 (6 ∷ [])
    else if leb 0x0108 version
    then fill_buffer zm_cmd_aps_data_indication_2 (2 ∷ [])
    else fill_buffer zm_cmd_aps_data_indication_2 []

unfoldable pub que_aps_data_indication : Master → Bool × Master × List Signal
que_aps_data_indication m =
    let (ok, m', out) = queue_command m (fill_indication m.protocol_version) in
    if command_used zm_cmd_aps_data_indication zm_cmd_aps_data_indication_2 m.q_items
    then (true, clear0 0x08 m, [])
    else (ok, if ok then clear0 0x08 m' else m', out)

-- `zmMaster::queInterpanDataIndication` and `zmMaster::queInterpanDataConfirm`
unfoldable pub que_interpan_data_indication : Master → Master × List Signal
que_interpan_data_indication m =
    let (ok, m', out) = queue_command m (fill_buffer zm_cmd_interpan_indication []) in
    (if ok then clear1 0x20 m' else m', out)

unfoldable pub que_interpan_data_confirm : Master → Master × List Signal
que_interpan_data_confirm m =
    let (ok, m', out) = queue_command m (fill_buffer zm_cmd_interpan_confirm []) in
    (if ok then clear1 0x40 m' else m', out)

-- `zmMaster::queGetStartNetworkConfirmStatus`
unfoldable pub que_get_start_network_confirm_status : Master → Master × List Signal
que_get_start_network_confirm_status m =
    let (ok, m', out) = queue_command m (fill_buffer zm_cmd_zdo_net_confirm []) in (m', out)

-- An APS request: its version, and what `writeToStream` writes, or `none` if it fails.
pub record ApsRequest : Type 0 where
  pub version : ℕ
  pub bytes : Option (List ℕ)

-- What `zmMaster::queNextApsDataRequest` does with the request of the id `id`, once the item `i` is
-- allocated. A request with another version, that is not written or that does not fit is reported.
unfoldable pub queue_request : Option ApsRequest → ℕ → Master → ℕ → Master × List Signal
queue_request none id m i = (m, [])
queue_request (some aps) id m i =
    let cmd = if aps.version == 1 then zm_cmd_aps_data_req else zm_cmd_aps_data_req_2 in
    let refused = apsde_data_request_done id zm_state_error ∷ [] in
    if not (aps.version == 1) && not (aps.version == 2) then (m, refused) else elim aps.bytes [
      | none ↦ (fill_item m i (λ c. record c { cmd = cmd }), refused)
      | some bytes ↦
          let (m', ok, out) =
            qitem_enqueue (clear0 0x20 (fill_item m i (fill_buffer cmd bytes))) i in
          if ltb 116 (length bytes % 65536)
          then (fill_item m i (fill_length cmd (length bytes % 65536)), refused)
          else (m', out)
    ]

unfoldable pub que_next_aps_data_request : (ℕ → Option ApsRequest) → Master → Master × List Signal
que_next_aps_data_request request m =
    let (found, m') = qitem_alloc m in
    let (id, q) = qaps_pop m'.aps in
    if qaps_empty m.aps then (m, []) else elim found [
      | none ↦ (m', [])
      | some i ↦
          let (m'', out) = queue_request (request id) id (record m' { aps = q }) i in
          (m'', command_queue_empty ∷ out)
    ]

-- The end of `zmMaster::processQueue`: the inter-PAN commands.
unfoldable pub process_interpan : Master → Master × List Signal
process_interpan m =
    if has m.status1 0x20
    then que_interpan_data_indication m
    else if has m.status1 0x40
    then que_interpan_data_confirm m
    else (m, [])

-- The middle of it: what the device has ready.
unfoldable pub que_ready : Master → Bool × Master × List Signal
que_ready m =
    if has m.status0 0x04
    then que_aps_data_confirm m
    else if has m.status0 0x08
    then que_aps_data_indication m
    else (false, m, [])

-- The part of `zmMaster::processQueue` after it.
unfoldable pub process_requests : (ℕ → Option ApsRequest) → Bool → Master → Master × List Signal
process_requests request app m =
    let next = que_next_aps_data_request request m in
    let (m', out) =
      if is_in_network (net_state app m) && (has m.status0 0x20 && not (qaps_empty m.aps))
      then next
      else (m, []) in
    let (m'', out') = process_interpan m' in (m'', out ++ out')

-- The branches of `zmMaster::processQueue`: the status is wanted, or not.
unfoldable pub ask_status : Master → Master × List Signal
ask_status m =
    let (ok, m', out) = enqueue_status m in
    (if ok then record (clear0 0x2C m') { need_status = false } else m', out)

unfoldable pub process_ready : (ℕ → Option ApsRequest) → Bool → Master → Master × List Signal
process_ready request app m =
    let (done, m', out) = que_ready m in
    let (m'', out') = process_requests request app m' in
    if leb max_queue_items m.q_items_wait_send || leb max_unconfirmed m.q_items_wait_confirm
    then (m, [])
    else if done
    then (m', out)
    else (m'', out ++ out')

-- `zmMaster::processQueue`
unfoldable pub process_queue : (ℕ → Option ApsRequest) → Bool → Master → Master × List Signal
process_queue request app m =
    let asked = ask_status m in
    let processed = process_ready request app m in
    if not (is_idle m.state) then (m, []) else if m.need_status then asked else processed

-- The end of `ACTION_PROCESS`: the timer is started again if there is more to do.
unfoldable pub restart_timer : Master → Master × List Signal
restart_timer m =
    if ltb m.q_items_wait_confirm max_unconfirmed && not m.timer_active
    then (if has m.status0 0x0C
        then start_task_timer m (m.q_items_wait_confirm * 10)
        else if not (qaps_empty m.aps) || ltb 0 m.q_items_wait_send
        then start_task_timer m send_delay
        else (m, []))
    else (m, [])

-- `zmMaster::handleStateIdle` with `ACTION_PROCESS`
unfoldable pub process_idle :
    (ℕ → Option ApsRequest) → Bool → ℕ → SendResult → Master → Master × List Signal
process_idle request app now result m =
    let (m1, out1) = process_queue request app m in
    let (m2, out2) = send_next_command app now result m1 in
    let (m3, out3) = restart_timer m2 in (m3, out1 ++ out2 ++ out3)

abbrev pub by_state {ℓ} : {A : Type ℓ} → MasterState → A → A → A → A
by_state master_off off connecting idle = off
by_state master_connecting off connecting idle = connecting
by_state master_idle off connecting idle = idle

-- `zmMaster::taskTimerFired` with `ACTION_PROCESS`: the timer, which fires once, has run out.
unfoldable pub task_timer_fired :
    (ℕ → Option ApsRequest) → Bool → ℕ → SendResult → Master → Master × List Signal
task_timer_fired request app now result m =
    let m0 = record m { timer_active = false } in
    by_state m.state (m0, []) (record m0 { state = master_idle }, [])
      (process_idle request app now result m0)
