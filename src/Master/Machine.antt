-- ===== src/Master/Machine.antt =====
-- src/zm_master.cpp: the queue as it lives: calls of the program, responses, timers and the connection,
-- in any order. Each call says whether the application is connected.
use deconz.Prelude.{
  ℕ, zero, suc, ◌≡◌, refl, Bool, true, false, Option, List, [], ◌∷◌, replicate, arith,
}
use deconz.BufferHelper.{BufferHelper}
use deconz.Command.{Command}
use deconz.Serial.{SendResult}
use deconz.Master.{Master, Item, qitem_init, master_off}
use deconz.Master.Items.{item_at, is_free}
use deconz.Master.Sound.{IsSound, sound_same}
use deconz.Master.Timeouts.{com_exit}
use deconz.Master.Timeouts.Handled.{com_exit-IsSound}
use deconz.Master.Requests.{
  read_parameter, read_parameter_with_arg, write_parameter, firmware_version_request, factory_reset,
  join_network, leave_network,
}
use deconz.Master.Requests.Network.{
  apsde_data_request, start_interpan_mode, send_interpan_request, unlock_max_nodes,
  nwk_leave_request, verify_child_node, force_rejoin_child_node, read_parameters,
}
use deconz.Master.Requests.Keeps.{
  read_parameter-IsSound, read_parameter_with_arg-IsSound, write_parameter-IsSound,
  firmware_version_request-IsSound, factory_reset-IsSound, join_network-IsSound,
  leave_network-IsSound, apsde_data_request-IsSound, start_interpan_mode-IsSound,
  send_interpan_request-IsSound, unlock_max_nodes-IsSound, nwk_leave_request-IsSound,
  verify_child_node-IsSound, force_rejoin_child_node-IsSound, read_parameters-IsSound,
}
use deconz.Master.Tasks.{ApsRequest, task_timer_fired}
use deconz.Master.Tasks.Fired.{task_timer_fired-IsSound}
use deconz.Master.Timer.{
  timer_event, open_serial, on_device_connected, on_device_disconnected, timer_event-IsSound,
  open_serial-IsSound, on_device_disconnected-IsSound,
}
use deconz.Master.Packets.{Step, requests}
use deconz.Master.Packets.Cases.{process_packed}
use deconz.Master.Packets.Answered.{process_packed-IsSound}

pub data Call : Type 0 where
  reads : ℕ → Call
  reads_with : ℕ → List ℕ → Call
  writes : ℕ → Option (List ℕ) → Call
  reads_all asks_version resets_factory joins leaves unlocks : Call
  sends_aps : ℕ → Call
  starts_interpan : ℕ → Call
  sends_interpan : List ℕ → Call
  leaves_node : ℕ → ℕ → Call
  verifies : Option ℕ → Option (List ℕ) → ℕ → Bool → Bool → Call
  forces_rejoin : Option ℕ → Option (List ℕ) → Call
  task_timer : (ℕ → Option ApsRequest) → ℕ → SendResult → Call
  periodic : ℕ → (ℕ → SendResult) → Call
  answers_with : ℕ → Command → Call
  opens : Bool → Bool → Call
  connects disconnects exits : Call

module _ (h : BufferHelper) (app : Bool) where
  unfoldable pub step : Call → Step
  step (reads id) = requests (read_parameter app id)
  step (reads_with id bytes) = requests (read_parameter_with_arg app id bytes)
  step (writes id bytes) = requests (write_parameter app id bytes)
  step reads_all = requests (read_parameters app)
  step asks_version = requests (firmware_version_request app)
  step resets_factory = factory_reset app
  step joins = join_network app
  step leaves = leave_network app
  step unlocks = requests (unlock_max_nodes h app)
  step (sends_aps id) = requests (apsde_data_request app id)
  step (starts_interpan channel) = requests (start_interpan_mode app channel)
  step (sends_interpan bytes) = requests (send_interpan_request app bytes)
  step (leaves_node flags dst) = requests (nwk_leave_request h app flags dst)
  step (verifies nwk ext caps ffd rx_on) = requests (verify_child_node h app nwk ext caps ffd rx_on)
  step (forces_rejoin nwk ext) = requests (force_rejoin_child_node h app nwk ext)
  step (task_timer request now result) = task_timer_fired request app now result
  step (periodic now result) = timer_event now result
  step (answers_with now cmd) = process_packed h app now cmd
  step (opens is_open ok) = (λ m. (let (r, m') = open_serial is_open ok m in (m', [])))
  step connects = on_device_connected
  step disconnects = on_device_disconnected
  step exits = com_exit

  step-IsSound : (call : Call) (m : Master) → IsSound m → IsSound (step call m).0
  unfolding step on_device_connected
  step-IsSound (reads id) m s = read_parameter-IsSound m s app id
  step-IsSound (reads_with id bytes) m s = read_parameter_with_arg-IsSound m s app id bytes
  step-IsSound (writes id bytes) m s = write_parameter-IsSound m s app id bytes
  step-IsSound reads_all m s = read_parameters-IsSound app m s
  step-IsSound asks_version m s = firmware_version_request-IsSound m s app
  step-IsSound resets_factory m s = factory_reset-IsSound m s app
  step-IsSound joins m s = join_network-IsSound m s app
  step-IsSound leaves m s = leave_network-IsSound m s app
  step-IsSound unlocks m s = unlock_max_nodes-IsSound m s h app
  step-IsSound (sends_aps id) m s = apsde_data_request-IsSound m s app id
  step-IsSound (starts_interpan channel) m s = start_interpan_mode-IsSound m s app channel
  step-IsSound (sends_interpan bytes) m s = send_interpan_request-IsSound m s app bytes
  step-IsSound (leaves_node flags dst) m s = nwk_leave_request-IsSound m s h app flags dst
  step-IsSound (verifies nwk ext caps ffd rx_on) m s =
      verify_child_node-IsSound m s h app nwk ext caps ffd rx_on
  step-IsSound (forces_rejoin nwk ext) m s = force_rejoin_child_node-IsSound m s h app nwk ext
  step-IsSound (task_timer request now result) m s =
      task_timer_fired-IsSound request app now result m s
  step-IsSound (periodic now result) m s = timer_event-IsSound now result m s
  step-IsSound (answers_with now cmd) m s = process_packed-IsSound h app now cmd m s
  step-IsSound (opens is_open ok) m s = open_serial-IsSound is_open ok m s
  step-IsSound connects m s = sound_same m _ s refl refl refl refl refl
  step-IsSound disconnects m s = on_device_disconnected-IsSound m s
  step-IsSound exits m s = com_exit-IsSound m s

-- An item of the static memory, whose command has 118 bytes.
abbrev pub blank : Item
blank = record {
  cmd = record { cmd = 0; seq = 0; status = 0; payload = replicate 118 0 };
  tref_tx = 0;
  state = qitem_init;
  retries = 0;
}

-- The state after the constructor of `zmMaster`.
abbrev pub fresh : Master
fresh = record {
  seq = 0;
  cmd_fails = 0;
  aps = record { q_aps = replicate 16 0; q_aps_rp = 0; q_aps_wp = 0 };
  q_item_sp = 0;
  q_item_wp = 0;
  q_items_wait_send = 0;
  q_items_wait_confirm = 0;
  q_items = replicate 32 blank;
  status0 = 0;
  status1 = 0;
  zll_state = 0;
  ipan_state = 0;
  protocol_version = 0x0100;
  state = master_off;
  need_status = true;
  t_send = 0;
  t_status = 0;
  packet_counter = 0;
  max_nodes = 5;
  timer_active = false;
}

-- The calls of a history, each with whether the application was connected.
unfoldable pub history : BufferHelper → List (Bool × Call) → Master → Master
unfolding step
history h [] m = m
history h ((app, call) ∷ calls) m = history h calls (step h app call m).0

all_free : (n : ℕ) (i : ℕ) → is_free (item_at (replicate n blank) i) ≡ true
all_free zero i = refl
all_free (suc n) zero = refl
all_free (suc n) (suc i) = all_free n i

pub fresh-IsSound : IsSound fresh
fresh-IsSound = record {
  consistent = record {
    size = refl;
    sends = refl;
    confirms = refl;
    distinct = λ i j hi hj ui uj e. (let free = all_free 32 i in absurd (cc));
    byte = omega arith;
  };
  ring = record { size = refl; rp_in = omega arith; wp_in = omega arith };
  few = omega arith;
}

-- After any history, whatever the device, the link and the program do: the 32 items are consistent with
-- their counters, no two commands in use have one sequence number, the ring of APS request ids is well
-- formed, and at most two commands wait for a confirmation.
pub history-IsSound :
    (h : BufferHelper) (calls : List (Bool × Call)) (m : Master)
    → IsSound m
    → IsSound (history h calls m)
unfolding history
history-IsSound h [] m s = s
history-IsSound h ((app, call) ∷ calls) m s =
    history-IsSound h calls _ (step-IsSound h app call m s)
