-- ===== src/Master/Tests.antt =====
-- The queue of commands: runs at concrete inputs.
use deconz.Prelude.{
  ◌+◌, ◌%◌, length, count_of, not, ◌&&◌, ℕ, zero, suc, ◌≡◌, refl, Bool, true, false, none, List, [],
  ◌∷◌, ◌++◌, map, replicate, arith,
}
use deconz.BufferHelper.{little_endian}
use deconz.Command.{Command}
use deconz.Serial.{sent}
use deconz.Master.{
  Master, ApsRing, master_idle, apsde_data_request_done, write_parameter_done,
  read_parameter_response, zm_state_error,
}
use deconz.Master.Ring.{qaps_empty, qaps_full, qaps_push, qaps_pop, ids, IsRingQueue, ring_is_queue}
use deconz.Master.Items.{
  is_free, is_wait_confirm, item_at, qitem_alloc, alloc_rounds, prepare, qitem_next_seq,
  next_unused, qitem_enqueue, qitem_next_to_send, next_from, qitem_send, qitem_confirm,
}
use deconz.Master.Consistent.{IsConsistent, consistent_same}
use deconz.Master.Sound.{IsSound}
use deconz.Master.Machine.{
  Call, reads, connects, disconnects, opens, task_timer, periodic, fresh, fresh-IsSound, history,
  history-IsSound, step,
}
use deconz.Master.Timer.{open_serial, on_device_connected}
use deconz.Master.Queue.Queued.{Queues, queue_command_lem}
use deconz.Master.Queue.{queue_command}
use deconz.Master.Release.Confirmed.{Confirms, qitem_confirm_lem}
use deconz.Master.Send.{connected, send_next_command}
use deconz.Master.Send.Sent.{SendsFirst, send_next_command_sends}
use deconz.Master.Tasks.Fired.{send_next_command-IsSound}
use deconz.Master.Kill.{kill_command, kill_command_queue}
use deconz.Master.Kill.Killed.{
  IsEmptyQueue, is_reported, kill_reports, kill_command_queue-IsEmptyQueue,
}
use deconz.Master.Timeouts.{timeout_item}
use deconz.Master.Timeouts.Retry.{TimesOut, timeout_item_lem}
use deconz.Master.Requests.{fill_buffer, read_parameter, returns_0}
use deconz.Master.Requests.Network.{read_parameters, send_interpan_request}
use deconz.Master.Requests.Dropped.{
  kill_command_reports, read_parameters_dropped, send_interpan_request_off,
}

-- `QAPS_Test` of the constructor: what it asserts holds, and it leaves the ring as it was.
abbrev push_each : ℕ → ℕ → ApsRing → ApsRing
push_each zero id q = q
push_each (suc n) id q = push_each n (suc id) (qaps_push q id).0

abbrev pop_each : ℕ → ApsRing → ApsRing
pop_each zero q = q
pop_each (suc n) q = pop_each n (qaps_pop q).1

qaps_test :
    (qaps_full (push_each 15 20 fresh.aps) ≡ true)
    × ((qaps_push (push_each 15 20 fresh.aps) 30).1 ≡ false)
    × ((qaps_pop (push_each 15 20 fresh.aps)).0 ≡ 20)
    × (qaps_empty (pop_each 15 (push_each 15 20 fresh.aps)) ≡ true)
unfolding qaps_full qaps_push qaps_pop qaps_empty
qaps_test = (refl, refl, refl, refl)

-- A connected device, with two reads queued and one of them sent.
abbrev ready : Master
ready =
    history little_endian
      ((false, opens false true) ∷ (true, connects) ∷ (true, reads 5) ∷ (true, reads 7) ∷ []) fresh

ready-IsSound : IsSound ready
ready-IsSound =
    history-IsSound little_endian
      ((false, opens false true) ∷ (true, connects) ∷ (true, reads 5) ∷ (true, reads 7) ∷ []) fresh
      fresh-IsSound

history-IsSound_example : IsSound (
    history little_endian
      ((false, opens false true)
        ∷ (true, connects)
        ∷ (true, reads 5)
        ∷ (true, task_timer (λ id. none) 1000 sent)
        ∷ (true, periodic 2000 (λ i. sent))
        ∷ (false, disconnects)
        ∷ [])
      fresh)
history-IsSound_example =
    history-IsSound little_endian
      ((false, opens false true)
        ∷ (true, connects)
        ∷ (true, reads 5)
        ∷ (true, task_timer (λ id. none) 1000 sent)
        ∷ (true, periodic 2000 (λ i. sent))
        ∷ (false, disconnects)
        ∷ [])
      fresh fresh-IsSound

ready_connected :
    (ready.state ≡ master_idle) × (ready.q_items_wait_send ≡ 2) × (ready.q_items_wait_confirm ≡ 0)
unfolding history step open_serial on_device_connected read_parameter queue_command qitem_alloc
    alloc_rounds prepare qitem_next_seq next_unused qitem_enqueue
ready_connected = (refl, refl, refl)

ready_on : connected true ready ≡ true
unfolding history step open_serial on_device_connected read_parameter queue_command qitem_alloc
    alloc_rounds prepare qitem_next_seq next_unused qitem_enqueue
ready_on = refl

queue_command_lem_example :
    IsConsistent (queue_command ready (fill_buffer 0x0A (9 ∷ []))).1
    × Queues ready (fill_buffer 0x0A (9 ∷ [])) (queue_command ready (fill_buffer 0x0A (9 ∷ [])))
queue_command_lem_example =
    queue_command_lem ready (fill_buffer 0x0A (9 ∷ [])) ready-IsSound.consistent (λ x. refl)

send_next_command_sends_example :
    IsConsistent (send_next_command true 1000 sent ready).0
    × SendsFirst ready 1000 sent (send_next_command true 1000 sent ready)
send_next_command_sends_example =
    send_next_command_sends true 1000 sent ready ready-IsSound.consistent ready_on
      (λ e. omega (arith, ready_connected.1)) (omega (arith, ready_connected.2))

-- One command was handed over at 1000.
abbrev busy : Master
busy = (send_next_command true 1000 sent ready).0

busy-IsSound : IsSound busy
busy-IsSound = send_next_command-IsSound true 1000 sent ready ready-IsSound

busy_waits : is_wait_confirm (item_at busy.q_items 0) ≡ true
unfolding history step open_serial on_device_connected read_parameter queue_command qitem_alloc
    alloc_rounds prepare qitem_next_seq next_unused qitem_enqueue send_next_command
    qitem_next_to_send next_from qitem_send
busy_waits = refl

abbrev response : Command
response = record { cmd = 0x0A; seq = 1; status = 0; payload = replicate 118 0 }

qitem_confirm_lem_example :
    IsConsistent (qitem_confirm busy response).0
    × Confirms busy response (qitem_confirm busy response)
qitem_confirm_lem_example = qitem_confirm_lem busy response busy-IsSound.consistent

timeout_item_lem_example : TimesOut busy 0 2000 sent (timeout_item 2000 (λ i. sent) busy 0)
timeout_item_lem_example =
    timeout_item_lem busy 0 busy-IsSound (omega arith) busy_waits 2000 (λ i. sent)

kill_command_queue-IsEmptyQueue_example :
    IsEmptyQueue (kill_command_queue busy).0
    × ((kill_command_queue busy).1
        ≡ kill_reports 32 0 busy.q_items
          ++ map (λ id. apsde_data_request_done id zm_state_error) (ids busy.aps))
    × (length (kill_command_queue busy).1
        ≡ count_of (λ it. not (is_free it) && is_reported it.cmd.cmd) busy.q_items
          + length (ids busy.aps))
kill_command_queue-IsEmptyQueue_example =
    kill_command_queue-IsEmptyQueue busy busy-IsSound.consistent busy-IsSound.ring

ring_is_queue_example : IsRingQueue fresh.aps 7
ring_is_queue_example = ring_is_queue fresh.aps 7 fresh-IsSound.ring (omega arith)

kill_command_reports_example :
    (kill_command (fill_buffer 0x0A (5 ∷ 8 ∷ 9 ∷ []) response) 3
      ≡ read_parameter_response 3 (3 % 256) ∷ [])
    × (kill_command (fill_buffer 0x0B (5 ∷ 7 ∷ 8 ∷ 9 ∷ []) response) 3
        ≡ write_parameter_done 5 3 ∷ [])
kill_command_reports_example = kill_command_reports 5 3 7 (8 ∷ 9 ∷ []) response (omega arith)

abbrev full_calls : List (Bool × Call)
full_calls = (false, opens false true) ∷ (true, connects) ∷ replicate 32 (true, reads 5)

full_on :
    (connected true (history little_endian full_calls fresh) ≡ true)
    × ((history little_endian full_calls fresh).q_items_wait_send ≡ 32)
    × ((history little_endian full_calls fresh).q_items_wait_confirm ≡ 0)
unfolding history step open_serial on_device_connected read_parameter queue_command qitem_alloc
    alloc_rounds prepare qitem_next_seq next_unused qitem_enqueue
full_on = (refl, refl, refl)

read_parameters_dropped_example :
    ((read_parameters true (history little_endian full_calls fresh)).0 ≡ returns_0)
    × ((read_parameters true (history little_endian full_calls fresh)).1.q_items
        ≡ (history little_endian full_calls fresh).q_items)
read_parameters_dropped_example =
    read_parameters_dropped true (history little_endian full_calls fresh)
      (history-IsSound little_endian full_calls fresh fresh-IsSound).consistent full_on.0
      (omega (arith, full_on.1, full_on.2))

-- The device has reported the inter-PAN state, and was disconnected.
abbrev gone : Master
gone = record fresh { ipan_state = 2 }

gone-IsConsistent : IsConsistent gone
gone-IsConsistent = consistent_same fresh gone fresh-IsSound.consistent refl refl refl refl

send_interpan_request_off_example :
    ((send_interpan_request false (1 ∷ []) gone).0 ≡ returns_0)
    × ((send_interpan_request false (1 ∷ []) gone).1.q_items_wait_send ≡ suc gone.q_items_wait_send)
send_interpan_request_off_example =
    send_interpan_request_off false (1 ∷ []) gone gone-IsConsistent refl refl (omega arith)
      (omega arith)
