-- ===== src/Master/Timer.antt =====
-- src/zm_master.cpp: the periodic timer, zmMaster::timerEvent without the debug level of the firmware,
-- and the connection: openSerial, onDeviceConnected and onDeviceDisconnected.
use deconz.Prelude.{
  ℕ, ◌+◌, ◌-◌, ◌%◌, ◌^◌, refl, Bool, true, false, not, ◌&&◌, ◌||◌, List, [], ◌∷◌, ◌++◌, ltb, ◌==◌,
  if◌then◌else◌, arith,
}
use deconz.Serial.{SendResult}
use deconz.Master.{
  Master, master_off, master_connecting, master_idle, Signal, command_queue_empty, send_delay,
}
use deconz.Master.Ring.{qaps_empty}
use deconz.Master.Items.{is_idle, start_task_timer}
use deconz.Master.Sound.{IsSound, sound_same, if_all, Sounds}
use deconz.Master.Kill.{kill_command_queue}
use deconz.Master.Kill.Killed.{kill_command_queue-IsEmptyQueue}
use deconz.Master.Requests.{Returned, returns_0, minus_2, minus_3, minus_4}
use deconz.Master.Timeouts.{is_master_off, handle_timeouts}
use deconz.Master.Timeouts.Handled.{handle_timeouts-IsSound, empty-IsSound}
use deconz.Master.Tasks.{has}

-- `now - t`, of `uint64_t`
abbrev since : ℕ → ℕ → ℕ
since now t = (now + 2 ^ 64 - t % 2 ^ 64) % 2 ^ 64

-- The status is wanted: to fill the line while a command waits, or because it is old.
unfoldable pub want_status : ℕ → Master → Master × List Signal
want_status now m =
    if not (m.q_items_wait_confirm == 0)
    then (record m { need_status = true }, [])
    else if ltb 1000 (since now m.t_status)
    then (
      record m { need_status = true },
      if qaps_empty m.aps then command_queue_empty ∷ [] else [],
    )
    else (m, [])

-- Sending goes on if there is something to do.
unfoldable pub proceed : Master → Master × List Signal
proceed m =
    let more =
      m.need_status
      || (not (qaps_empty m.aps) || (not (m.q_items_wait_send == 0) || has m.status0 0x0C)) in
    let started = start_task_timer m 0 in if more && not m.timer_active then started else (m, [])

-- Both, once the last command was sent long enough ago.
unfoldable pub keep_sending : ℕ → Master → Master × List Signal
keep_sending now m =
    let (m1, out1) = want_status now m in
    let (m2, out2) = proceed m1 in
    if ltb 60 (since now m.t_send) then (m2, out1 ++ out2) else (m, [])

-- `zmMaster::timerEvent`
unfoldable pub timer_event : ℕ → (ℕ → SendResult) → Master → Master × List Signal
timer_event now result m =
    let (m1, out1) = keep_sending now m in
    let (m2, out2) = handle_timeouts now result m1 in
    if is_idle m.state then (m2, out1 ++ out2) else (m, [])

-- `zmMaster::openSerial`, with its return value; whether the port is open, and whether it opens, are
-- arguments.
unfoldable pub open_serial : Bool → Bool → Master → Returned × Master
open_serial is_open opens m =
    let m1 = record m { packet_counter = 0; t_send = 0; t_status = 0; cmd_fails = 0 } in
    if not (is_master_off m.state)
    then (minus_4, m)
    else if is_open
    then (minus_2, m)
    else if opens
    then (returns_0, record m1 { state = master_connecting })
    else (minus_3, m1)

-- `zmMaster::onDeviceConnected`
unfoldable pub on_device_connected : Master → Master × List Signal
on_device_connected m =
    start_task_timer (record m { need_status = true; state = master_idle }) send_delay

-- `zmMaster::onDeviceDisconnected`
unfoldable pub on_device_disconnected : Master → Master × List Signal
on_device_disconnected m =
    kill_command_queue (record m { timer_active = false; state = master_off })

want_status-IsSound : (now : ℕ) (m : Master) → IsSound m → IsSound (want_status now m).0
unfolding want_status
want_status-IsSound now m s =
    if_all Sounds (not (m.q_items_wait_confirm == 0)) (record m { need_status = true }, []) _
      (sound_same m _ s refl refl refl refl refl)
      (if_all Sounds (ltb 1000 (since now m.t_status))
        (record m { need_status = true }, if qaps_empty m.aps then command_queue_empty ∷ [] else [])
        (m, []) (sound_same m _ s refl refl refl refl refl) s)

proceed-IsSound : (m : Master) → IsSound m → IsSound (proceed m).0
unfolding proceed
proceed-IsSound m s =
    if_all Sounds _ (start_task_timer m 0) (m, []) (sound_same m _ s refl refl refl refl refl) s

keep_sending-IsSound : (now : ℕ) (m : Master) → IsSound m → IsSound (keep_sending now m).0
unfolding keep_sending
keep_sending-IsSound now m s =
    if_all Sounds _ _ _ (proceed-IsSound _ (want_status-IsSound now m s)) s

pub timer_event-IsSound :
    (now : ℕ) (result : ℕ → SendResult) (m : Master)
    → IsSound m
    → IsSound (timer_event now result m).0
unfolding timer_event
timer_event-IsSound now result m s =
    if_all Sounds _ _ _ (handle_timeouts-IsSound now result _ (keep_sending-IsSound now m s)) s

pub open_serial-IsSound :
    (is_open opens : Bool) (m : Master) → IsSound m → IsSound (open_serial is_open opens m).1
unfolding open_serial
open_serial-IsSound is_open opens m s =
    let closed : IsSound
        (record m { packet_counter = 0; t_send = 0; t_status = 0; cmd_fails = 0 }) =
      sound_same m _ s refl refl refl refl refl in
    let open_ : IsSound (record m {
      packet_counter = 0;
      t_send = 0;
      t_status = 0;
      cmd_fails = 0;
      state = master_connecting;
    }) =
      sound_same m _ s refl refl refl refl refl in
    ground (arith, s, closed, open_)

pub on_device_disconnected-IsSound : (m : Master) → IsSound m → IsSound (on_device_disconnected m).0
unfolding on_device_disconnected
on_device_disconnected-IsSound m s =
    let s' : IsSound (record m { timer_active = false; state = master_off }) =
      sound_same m _ s refl refl refl refl refl in
    empty-IsSound _ (kill_command_queue-IsEmptyQueue _ s'.consistent s'.ring).0
