-- ===== src/Master/Tasks/Fired.antt =====
-- src/zm_master.cpp: the task timer keeps the queue sound.
use deconz.Prelude.{
  ℕ, ◌*◌, ◌<◌, ◌≡◌, refl, sym, ap, subst, Bool, true, false, not, ◌&&◌, ◌||◌, Option, List, [],
  arith, if◌then◌else◌, ltb, leb, ◌==◌, Bool-cases, inl, inr,
}
use deconz.Command.{Command}
use deconz.Serial.{SendResult, sent, queue_full, not_connected, no_frame}
use deconz.Master.{Master, MasterState, master_off, master_connecting, master_idle}
use deconz.Master.Items.{is_idle, start_task_timer}
use deconz.Master.Ring.{IsRing, qaps_empty}
use deconz.Master.Consistent.{IsConsistent}
use deconz.Master.Sound.{IsSound, sound_keeps, sound_same, if_all, Sounds, SoundsThen}
use deconz.Master.Queue.{queue_command}
use deconz.Master.Queue.Queued.{queue_command-IsSound}
use deconz.Master.Send.{connected, send_next_command}
use deconz.Master.Send.Sent.{Sends, cleared, send_next_command_sends}
use deconz.Master.Requests.{fill_buffer, fill_data}
use deconz.Master.Tasks.{
  has, ApsRequest, fill_indication, enqueue_status, que_aps_data_confirm, que_aps_data_indication,
  que_interpan_data_indication, que_interpan_data_confirm, que_get_start_network_confirm_status,
  process_interpan, process_requests, process_queue, que_ready, ask_status, process_ready,
  restart_timer, by_state, process_idle, task_timer_fired,
}
use deconz.Master.Tasks.Keeps.{que_next_aps_data_request-IsSound}

-- A command that is filled in without touching its number.
filled :
    (m : Master) (id : ℕ) (bytes : List ℕ)
    → IsSound m
    → IsSound (queue_command m (fill_buffer id bytes)).1
filled m id bytes s = queue_command-IsSound m (fill_buffer id bytes) (λ x. refl) s

enqueue_status-IsSound : (m : Master) → IsSound m → IsSound (enqueue_status m).1
unfolding enqueue_status
enqueue_status-IsSound m s =
    if_all SoundsThen _ _ _ s (queue_command-IsSound m (fill_data 0x07 0) (λ x. refl) s)

cleared_sound :
    (b : Bool) (m : Master) (status0 status1 : ℕ)
    → IsSound m
    → IsSound (if b then record m { status0 = status0; status1 = status1 } else m)
cleared_sound b m status0 status1 s =
    if_all IsSound b _ _ (sound_same m _ s refl refl refl refl refl) s

que_aps_data_confirm-IsSound : (m : Master) → IsSound m → IsSound (que_aps_data_confirm m).1
unfolding que_aps_data_confirm
que_aps_data_confirm-IsSound m s =
    if_all SoundsThen _ _ _ (sound_same m _ s refl refl refl refl refl)
      (cleared_sound _ _ _ _ (filled m 0x04 [] s))

fill_indication_seq : (version : ℕ) (x : Command) → (fill_indication version x).seq ≡ x.seq
fill_indication_seq version x =
    if_all (λ (f : Command → Command). (f x).seq ≡ x.seq) (ltb version 0x0102) _ _ refl
      (if_all (λ (f : Command → Command). (f x).seq ≡ x.seq) (leb 0x010B version) _ _ refl
        (if_all (λ (f : Command → Command). (f x).seq ≡ x.seq) (leb 0x0108 version) _ _ refl refl))

que_aps_data_indication-IsSound : (m : Master) → IsSound m → IsSound (que_aps_data_indication m).1
unfolding que_aps_data_indication
que_aps_data_indication-IsSound m s =
    if_all SoundsThen _ _ _ (sound_same m _ s refl refl refl refl refl)
      (cleared_sound _ _ _ _ (queue_command-IsSound m _ (fill_indication_seq m.protocol_version) s))

que_interpan_data_indication-IsSound :
    (m : Master) → IsSound m → IsSound (que_interpan_data_indication m).0
unfolding que_interpan_data_indication
que_interpan_data_indication-IsSound m s = cleared_sound _ _ _ _ (filled m 0x15 [] s)

que_interpan_data_confirm-IsSound :
    (m : Master) → IsSound m → IsSound (que_interpan_data_confirm m).0
unfolding que_interpan_data_confirm
que_interpan_data_confirm-IsSound m s = cleared_sound _ _ _ _ (filled m 0x16 [] s)

process_interpan-IsSound : (m : Master) → IsSound m → IsSound (process_interpan m).0
unfolding process_interpan
process_interpan-IsSound m s =
    if_all Sounds _ _ _ (que_interpan_data_indication-IsSound m s)
      (if_all Sounds _ _ _ (que_interpan_data_confirm-IsSound m s) s)

pub que_get_start_network_confirm_status-IsSound :
    (m : Master) → IsSound m → IsSound (que_get_start_network_confirm_status m).0
unfolding que_get_start_network_confirm_status
que_get_start_network_confirm_status-IsSound m s = filled m 0x09 [] s

process_requests-IsSound :
    (request : ℕ → Option ApsRequest) (app : Bool) (m : Master)
    → IsSound m
    → IsSound (process_requests request app m).0
unfolding process_requests
process_requests-IsSound request app m s =
    process_interpan-IsSound _
      (if_all Sounds _ _ _ (que_next_aps_data_request-IsSound request m s) s)

que_ready-IsSound : (m : Master) → IsSound m → IsSound (que_ready m).1
unfolding que_ready
que_ready-IsSound m s =
    if_all SoundsThen (has m.status0 0x04) (que_aps_data_confirm m) _
      (que_aps_data_confirm-IsSound m s)
      (if_all SoundsThen (has m.status0 0x08) (que_aps_data_indication m) (false, m, [])
        (que_aps_data_indication-IsSound m s) s)

ask_status-IsSound : (m : Master) → IsSound m → IsSound (ask_status m).0
unfolding ask_status
ask_status-IsSound m s = elim (Bool-cases (enqueue_status m).0) [
  | inl ok ↦
      rw (ask_status, ok)
        (sound_same (enqueue_status m).1 _ (enqueue_status-IsSound m s) refl refl refl refl refl)
  | inr full ↦ rw (ask_status, full) (enqueue_status-IsSound m s)
]

process_ready-IsSound :
    (request : ℕ → Option ApsRequest) (app : Bool) (m : Master)
    → IsSound m
    → IsSound (process_ready request app m).0
unfolding process_ready
process_ready-IsSound request app m s =
    elim (Bool-cases (leb 32 m.q_items_wait_send || leb 2 m.q_items_wait_confirm)) [
      | inl busy ↦ rw (process_ready, busy) s
      | inr room ↦ elim (Bool-cases (que_ready m).0) [
        | inl asked ↦ rw (process_ready, room, asked) (que_ready-IsSound m s)
        | inr not_asked ↦
            rw (process_ready, room, not_asked)
              (process_requests-IsSound request app (que_ready m).1 (que_ready-IsSound m s))
      ]
    ]

process_queue-IsSound :
    (request : ℕ → Option ApsRequest) (app : Bool) (m : Master)
    → IsSound m
    → IsSound (process_queue request app m).0
unfolding process_queue
process_queue-IsSound request app m s =
    if_all Sounds (not (is_idle m.state)) (m, []) _ s
      (if_all Sounds m.need_status (ask_status m) (process_ready request app m)
        (ask_status-IsSound m s) (process_ready-IsSound request app m s))

and_true : (a b c : Bool) → (a && (not b && c)) ≡ true → (a ≡ true) × (b ≡ false) × (c ≡ true)
and_true true false true e = (refl, refl, refl)
and_true true false false e = absurd (cc)
and_true true true c e = absurd (cc)
and_true false b c e = absurd (cc)

pub send_next_command-IsSound :
    (app : Bool) (now : ℕ) (result : SendResult) (m : Master)
    → IsSound m
    → IsSound (send_next_command app now result m).0
unfolding send_next_command
send_next_command-IsSound app now result m s =
    elim (Bool-cases
      (connected app m && (not (m.q_items_wait_send == 0) && ltb m.q_items_wait_confirm 2))) [
        | inl e ↦
            let (on, waits, room) =
              and_true (connected app m) (m.q_items_wait_send == 0) (ltb m.q_items_wait_confirm 2)
                e in
            let (c, (i, k, hk, at, w, before, h)) =
              send_next_command_sends app now result m s.consistent on (ground arith)
                (ground arith) in
            by_result result c i h (ground arith)
        | inr e ↦ rw (send_next_command, e) s
      ]
  where
    refused :
        (r : SendResult) (i : ℕ)
        → IsConsistent (send_next_command app now r m).0
        → (send_next_command app now r m).0 ≡ cleared m i
        → IsSound (send_next_command app now r m).0
    refused r i c e = sound_keeps m _ s c (ap (λ x. x.aps) e) (ap (λ x. x.q_items_wait_confirm) e)

    by_result :
        (r : SendResult)
        → IsConsistent (send_next_command app now r m).0
        → (i : ℕ) → Sends m i now r (send_next_command app now r m)
        → m.q_items_wait_confirm < 2
        → IsSound (send_next_command app now r m).0
    by_result sent c i (out, took, kept) room =
        let k = took refl in
        record {
          consistent = c;
          ring = subst IsRing (sym k.aps) s.ring;
          few = omega (arith, k.confirms);
        }
    by_result queue_full c i (out, took, kept) room = refused queue_full i c (kept (λ e. cc))
    by_result not_connected c i (out, took, kept) room = refused not_connected i c (kept (λ e. cc))
    by_result no_frame c i (out, took, kept) room = refused no_frame i c (kept (λ e. cc))

restart_timer-IsSound : (m : Master) → IsSound m → IsSound (restart_timer m).0
unfolding restart_timer
restart_timer-IsSound m s =
    if_all Sounds _ _ _
      (if_all Sounds (has m.status0 0x0C) (start_task_timer m (m.q_items_wait_confirm * 10)) _ timed
        (if_all Sounds (not (qaps_empty m.aps) || ltb 0 m.q_items_wait_send) (start_task_timer m 20)
          (m, []) timed s))
      s
  where
    timed : IsSound (record m { timer_active = true })
    timed = sound_same m _ s refl refl refl refl refl

pub by_state_all {ℓ κ} :
    {A : Type ℓ} (P : A → Type κ) (x : MasterState) (off connecting idle : A)
    → P off
    → P connecting
    → P idle
    → P (by_state x off connecting idle)
by_state_all P master_off off connecting idle p q r = p
by_state_all P master_connecting off connecting idle p q r = q
by_state_all P master_idle off connecting idle p q r = r

process_idle-IsSound :
    (request : ℕ → Option ApsRequest) (app : Bool) (now : ℕ) (result : SendResult) (m : Master)
    → IsSound m
    → IsSound (process_idle request app now result m).0
unfolding process_idle
process_idle-IsSound request app now result m s =
    restart_timer-IsSound _
      (send_next_command-IsSound app now result _ (process_queue-IsSound request app m s))

-- The task timer keeps the queue sound, whatever the device has reported, the program has to send and
-- the link does with what it is given.
pub task_timer_fired-IsSound :
    (request : ℕ → Option ApsRequest) (app : Bool) (now : ℕ) (result : SendResult) (m : Master)
    → IsSound m
    → IsSound (task_timer_fired request app now result m).0
unfolding task_timer_fired
task_timer_fired-IsSound request app now result m s =
    by_state_all Sounds m.state (record m { timer_active = false }, [])
      (record m { timer_active = false; state = master_idle }, [])
      (process_idle request app now result (record m { timer_active = false }))
      (sound_same m _ s refl refl refl refl refl) (sound_same m _ s refl refl refl refl refl)
      (process_idle-IsSound request app now result _ (sound_same m _ s refl refl refl refl refl))
