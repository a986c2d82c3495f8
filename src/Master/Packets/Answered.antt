-- ===== src/Master/Packets/Answered.antt =====
-- src/zm_master.cpp: the responses of the device keep the queue sound.
use deconz.Prelude.{
  ℕ, suc, ◌/◌, refl, Bool, true, false, not, ◌&&◌, ◌||◌, [], ◌∷◌, leb, ltb, ◌==◌, if◌then◌else◌,
  bit_and, take, drop, arith,
}
use deconz.BufferHelper.{BufferHelper}
use deconz.Command.{Command}
use deconz.Master.{
  Master, delivers, write_parameter_done, send_interpan_failed, net_state_changed, device_connected,
  device_activity,
}
use deconz.Master.Items.{start_task_timer, is_idle}
use deconz.Master.Sound.{IsSound, sound_same, if_all, Sounds}
use deconz.Master.Release.Confirmed.{qitem_confirm-IsSound}
use deconz.Master.Requests.{read_parameter, read_parameter_with_arg, firmware_version_request}
use deconz.Master.Requests.Network.{read_parameters, unlock_max_nodes}
use deconz.Master.Requests.Keeps.{
  read_parameter-IsSound, read_parameter_with_arg-IsSound, firmware_version_request-IsSound,
  read_parameters-IsSound, unlock_max_nodes-IsSound,
}
use deconz.Master.Tasks.{has, que_get_start_network_confirm_status}
use deconz.Master.Tasks.Fired.{que_get_start_network_confirm_status-IsSound}
use deconz.Master.Kill.{buffer_0}
use deconz.Master.Packets.Cases.{
  version_read, trust_center_read, on_status, on_aps_request, on_aps_data, on_parameter,
  on_interpan_started, on_interpan_indication, on_interpan_confirm, run_timer, take_out,
  with_status0, with_status, parameter_read, feature_read, on_success, packet_case, first_packet,
  process_packed,
}
use deconz.Master.Packets.Status.{
  set_status1, net_changed, check_status0, check_zll, check_ipan, check_status1,
}
use deconz.Master.Packets.{buffer_at, data_at, buffer_size, Step, ◌then_do◌, when, tells, requests}

-- A step that keeps every queue sound.
abbrev pub IsKeeper : Step → Type 0
IsKeeper f = (m : Master) → IsSound m → IsSound (f m).0

when-IsKeeper : (b : Bool) (f : Step) → IsKeeper f → IsKeeper (when b f)
when-IsKeeper true f k m s = k m s
when-IsKeeper false f k m s = s

net_changed-IsKeeper : (app : Bool) (before after : ℕ) → IsKeeper (net_changed app before after)
unfolding net_changed
net_changed-IsKeeper app before after m s =
    when-IsKeeper ((after == 0) && (before == 1)) que_get_start_network_confirm_status
      que_get_start_network_confirm_status-IsSound _
      (when-IsKeeper ((after == 2) && (before == 1)) (requests (read_parameter app 0x07))
        (λ m' s'. read_parameter-IsSound m' s' app 0x07) _
        (when-IsKeeper ((after == 2) && (before == 1)) (requests (read_parameter app 0x05))
          (λ m' s'. read_parameter-IsSound m' s' app 0x05) m s))

check_status0-IsKeeper : (app : Bool) (s : ℕ) → IsKeeper (check_status0 app s)
unfolding check_status0
check_status0-IsKeeper app st m s =
    when-IsKeeper _ (net_changed app (bit_and m.status0 3) (bit_and st 3))
      (net_changed-IsKeeper app (bit_and m.status0 3) (bit_and st 3)) _
      (when-IsKeeper (has st 0x10) (requests (read_parameters app))
        (λ m' s'. read_parameters-IsSound app m' s') _ (sound_same m _ s refl refl refl refl refl))

check_zll-IsKeeper : (zll : ℕ) → IsKeeper (check_zll zll)
unfolding check_zll
check_zll-IsKeeper zll m s =
    if_all Sounds (leb zll 2 && not (zll == m.zll_state))
      (record m { zll_state = zll }, net_state_changed ∷ []) (m, [])
      (sound_same m _ s refl refl refl refl refl) s

check_ipan-IsKeeper : (ipan : ℕ) → IsKeeper (check_ipan ipan)
unfolding check_ipan
check_ipan-IsKeeper ipan m s =
    if_all Sounds (leb ipan 2 && not (ipan == m.ipan_state)) (record m { ipan_state = ipan }, _)
      (m, []) (sound_same m _ s refl refl refl refl refl) s

set_status1-IsKeeper : (s1 : ℕ) → IsKeeper (set_status1 s1)
unfolding set_status1
set_status1-IsKeeper s1 m s = check_ipan-IsKeeper (bit_and s1 0x18 / 8) _ (
    check_zll-IsKeeper (bit_and s1 3) _
      (sound_same m (record m { status1 = s1 }) s refl refl refl refl refl))

check_status1-IsKeeper : (s s1 : ℕ) → IsKeeper (check_status1 s s1)
unfolding check_status1
check_status1-IsKeeper st s1 =
    when-IsKeeper (has st 0x80) (set_status1 s1) (set_status1-IsKeeper s1)

feature_read-IsKeeper : (h : BufferHelper) (cmd : Command) → IsKeeper (feature_read h cmd)
unfolding feature_read
feature_read-IsKeeper h cmd m s =
    let s' : IsSound (record m { max_nodes = h.get_u16_le (buffer_at cmd 2) (buffer_at cmd 3) }) =
      sound_same m _ s refl refl refl refl refl in
    ground (arith, s, s')

version_read-IsKeeper : (h : BufferHelper) (cmd : Command) → IsKeeper (version_read h cmd)
unfolding version_read
version_read-IsKeeper h cmd m s =
    let version = h.get_u16_le (buffer_at cmd 1) (buffer_at cmd 2) in
    if_all Sounds ((cmd.status == 0) && (buffer_size cmd == 3))
      (
        record m { protocol_version = if leb 0x0100 version then version else m.protocol_version },
        [],
      )
      (record m { protocol_version = 0x0100 }, []) (sound_same m _ s refl refl refl refl refl)
      (sound_same m _ s refl refl refl refl refl)

trust_center_read-IsKeeper : (app : Bool) (cmd : Command) → IsKeeper (trust_center_read app cmd)
unfolding trust_center_read
trust_center_read-IsKeeper app cmd =
    when-IsKeeper _ (requests (read_parameter_with_arg app 0x19 (take 8 (drop 3 cmd.payload))))
      (λ m' s'. read_parameter_with_arg-IsSound m' s' app 0x19 (take 8 (drop 3 cmd.payload)))

parameter_read-IsKeeper :
    (h : BufferHelper) (app : Bool) (cmd : Command) → IsKeeper (parameter_read h app cmd)
unfolding parameter_read
parameter_read-IsKeeper h app cmd =
    if_all IsKeeper _ _ _ (version_read-IsKeeper h cmd)
      (if_all IsKeeper _ _ _ (trust_center_read-IsKeeper app cmd) (λ m s. s))

with_status0-IsKeeper : (app : Bool) (cmd : Command) → IsKeeper (with_status0 app cmd)
with_status0-IsKeeper app cmd m s =
    sound_same _ _ (check_status0-IsKeeper app (buffer_0 cmd) m s) refl refl refl refl refl

with_status-IsKeeper : (app : Bool) (cmd : Command) → IsKeeper (with_status app cmd)
with_status-IsKeeper app cmd m s =
    sound_same _ _
      (check_status1-IsKeeper (buffer_0 cmd) (buffer_at cmd 1) _
        (check_status0-IsKeeper app (buffer_0 cmd) m s))
      refl refl refl refl refl

on_status-IsKeeper : (app : Bool) (now : ℕ) (cmd : Command) → IsKeeper (on_status app now cmd)
unfolding on_status
on_status-IsKeeper app now cmd m s = check_status1-IsKeeper (data_at cmd 0) (data_at cmd 1) _ (
    check_status0-IsKeeper app (data_at cmd 0) _
      (sound_same m (record m { t_status = now; need_status = false }) s refl refl refl refl refl))

on_interpan_started-IsKeeper : (cmd : Command) → IsKeeper (on_interpan_started cmd)
unfolding on_interpan_started
on_interpan_started-IsKeeper cmd m s =
    let s' : IsSound (record m { ipan_state = 1 }) = sound_same m _ s refl refl refl refl refl in
    ground (arith, s, s')

-- The same, for a choice of steps.
record Keeps (f : Step) : Type 0 where
  keeps : IsKeeper f

kept : (f : Step) → IsKeeper f → Keeps f
kept f k = record { keeps = k }

packet_case-Keeps :
    (h : BufferHelper) (app : Bool) (now : ℕ) (cmd : Command) → Keeps (packet_case h app now cmd)
unfolding packet_case on_aps_request on_aps_data on_parameter on_interpan_indication
    on_interpan_confirm
packet_case-Keeps h app now cmd =
    if_all Keeps ((cmd.cmd == 0x07) || (cmd.cmd == 0x0E)) (on_status app now cmd) _
      (kept (on_status app now cmd) (on_status-IsKeeper app now cmd))
      (if_all Keeps (cmd.cmd == 0x0D)
        ((λ (m : Master). (record m { need_status = true }, delivers cmd ∷ []))) _
        (kept ((λ (m : Master). (record m { need_status = true }, delivers cmd ∷ [])))
          (λ m s. sound_same m _ s refl refl refl refl refl))
        (if_all Keeps (cmd.cmd == 0x11) (feature_read h cmd) _
          (kept (feature_read h cmd) (feature_read-IsKeeper h cmd))
          (if_all Keeps ((cmd.cmd == 0x03) || (cmd.cmd == 0x12)) (on_aps_request app cmd) _
            (kept (on_aps_request app cmd) (with_status0-IsKeeper app cmd))
            (if_all Keeps ((cmd.cmd == 0x04) || ((cmd.cmd == 0x05) || (cmd.cmd == 0x17)))
              (on_aps_data app cmd) _ (kept (on_aps_data app cmd) (with_status0-IsKeeper app cmd))
              (if_all Keeps (cmd.cmd == 0x0A) (on_parameter h app cmd) _
                (kept (on_parameter h app cmd) (parameter_read-IsKeeper h app cmd))
                (if_all Keeps (cmd.cmd == 0x0B)
                  (tells (write_parameter_done (buffer_0 cmd) cmd.status ∷ [])) _
                  (kept (tells (write_parameter_done (buffer_0 cmd) cmd.status ∷ [])) (λ m s. s))
                  (if_all Keeps (cmd.cmd == 0x13) (on_interpan_started cmd) _
                    (kept (on_interpan_started cmd) (on_interpan_started-IsKeeper cmd))
                    (if_all Keeps (cmd.cmd == 0x14) (on_success cmd [] (send_interpan_failed ∷ []))
                      _ (kept (on_success cmd [] (send_interpan_failed ∷ [])) (λ m s. s))
                      (if_all Keeps (cmd.cmd == 0x15) (on_interpan_indication app cmd) _
                        (kept (on_interpan_indication app cmd) (with_status-IsKeeper app cmd))
                        (if_all Keeps (cmd.cmd == 0x16) (on_interpan_confirm app cmd) _
                          (kept (on_interpan_confirm app cmd) (with_status-IsKeeper app cmd))
                          (kept (tells (delivers cmd ∷ [])) (λ m s. s))))))))))))

first_packet-IsKeeper : (h : BufferHelper) (app : Bool) → IsKeeper (first_packet h app)
unfolding first_packet
first_packet-IsKeeper h app m s =
    when-IsKeeper (ltb m.packet_counter 2147483647)
      (λ m'. (record m' { packet_counter = suc m.packet_counter }, []))
      (λ m' s'. sound_same m' _ s' refl refl refl refl refl) _
      (when-IsKeeper (m.packet_counter == 0) (tells (device_connected ∷ [])) (λ m' s'. s') _
        (when-IsKeeper (m.packet_counter == 0) (requests (unlock_max_nodes h app))
          (λ m' s'. unlock_max_nodes-IsSound m' s' h app) _
          (when-IsKeeper (m.packet_counter == 0) (requests (firmware_version_request app))
            (λ m' s'. firmware_version_request-IsSound m' s' app) m s)))

run_timer-IsKeeper : IsKeeper run_timer
unfolding run_timer
run_timer-IsKeeper m s =
    when-IsKeeper (not m.timer_active && is_idle m.state) (λ m'. start_task_timer m' 0)
      (λ m' s'. sound_same m' _ s' refl refl refl refl refl) m s

take_out-IsSound : (cmd : Command) (m : Master) → IsSound m → IsSound (take_out cmd m)
unfolding take_out
take_out-IsSound cmd m s = sound_same _ _ (qitem_confirm-IsSound m cmd s) refl refl refl refl refl

-- The response to any command, however it is made, keeps the queue sound.
pub process_packed-IsSound :
    (h : BufferHelper) (app : Bool) (now : ℕ) (cmd : Command) (m : Master)
    → IsSound m
    → IsSound (process_packed h app now cmd m).0
unfolding process_packed
process_packed-IsSound h app now cmd m s =
    when-IsKeeper (is_idle m.state)
      (λ m0.
        (((first_packet h app (take_out cmd m0) then_do packet_case h app now cmd)
            then_do run_timer)
          then_do tells (device_activity ∷ [])))
      (λ m0 s0. run_timer-IsKeeper _ (
        (packet_case-Keeps h app now cmd).keeps _
          (first_packet-IsKeeper h app _ (take_out-IsSound cmd m0 s0))))
      m s
