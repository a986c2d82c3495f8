-- ===== src/Master.antt =====
-- src/zm_master.cpp: the queue of commands between the program and the serial connection, with the
-- file's statics. The clock, whether the application is connected, and what `SerialCom::send` returns
-- are arguments; signals, commands handed to the connection and timer starts are events, in order.
pub mod Ring
pub mod Items
pub mod Count
pub mod Seqs
pub mod Consistent
pub mod Sound
pub mod Alloc
pub mod Queue
pub mod Release
pub mod Send
pub mod Timeouts
pub mod Kill
pub mod Requests
pub mod Tasks
pub mod Timer
pub mod Packets
pub mod Machine
mod Tests
use deconz.Prelude.{ℕ, ◌*◌, Bool, true, false, List, [], ◌∷◌, get_or, set}
use deconz.Command.{Command}

abbrev pub max_queue_items : ℕ
max_queue_items = 32

abbrev pub max_aps_queue_items : ℕ
max_aps_queue_items = 16

abbrev pub max_unconfirmed : ℕ
max_unconfirmed = 2

abbrev pub max_send_retry : ℕ
max_send_retry = 1

abbrev pub timeout_delay : ℕ
timeout_delay = 500

abbrev pub send_delay : ℕ
send_delay = 20

abbrev pub max_command_fails : ℕ
max_command_fails = 10

-- `QueueItemState`
pub data ItemState : Type 0 where
  qitem_init wait_send wait_confirm : ItemState

-- `QueueItem`
pub record Item : Type 0 where
  pub cmd : Command
  pub tref_tx : ℕ
  pub state : ItemState
  pub retries : ℕ

-- The ring of APS request ids: `q_aps`, `q_aps_rp` and `q_aps_wp`.
pub record ApsRing : Type 0 where
  pub q_aps : List ℕ
  pub q_aps_rp : ℕ
  pub q_aps_wp : ℕ

-- `zmMaster::MasterState`
pub data MasterState : Type 0 where
  master_off master_connecting master_idle : MasterState

-- `zm_master`, without the buffers that nothing uses, and the statics of the file. `timer_active` is
-- whether the task timer runs.
pub record Master : Type 0 where
  pub seq : ℕ
  pub cmd_fails : ℕ
  pub aps : ApsRing
  pub q_item_sp : ℕ
  pub q_item_wp : ℕ
  pub q_items_wait_send : ℕ
  pub q_items_wait_confirm : ℕ
  pub q_items : List Item
  pub status0 : ℕ
  pub status1 : ℕ
  pub zll_state : ℕ
  pub ipan_state : ℕ
  pub protocol_version : ℕ
  pub state : MasterState
  pub need_status : Bool
  pub t_send : ℕ
  pub t_status : ℕ
  pub packet_counter : ℕ
  pub max_nodes : ℕ
  pub timer_active : Bool

-- What the rest of the program sees. `device_state` carries the network state of the device's status
-- byte; `delivers` stands for what the program is given of a response.
pub data Signal : Type 0 where
  sends_command : Command → Signal
  timer_started : ℕ → Signal
  command_queue_empty : Signal
  read_parameter_response : ℕ → ℕ → Signal
  write_parameter_done : ℕ → ℕ → Signal
  apsde_data_request_done : ℕ → ℕ → Signal
  start_interpan_mode_failed send_interpan_failed : Signal
  connection_closed : Signal
  device_state : ℕ → Signal
  net_state_changed device_connected device_activity : Signal
  start_interpan_mode_done send_interpan_done : Signal
  delivers : Command → Signal

abbrev pub zm_state_timeout : ℕ
zm_state_timeout = 0x03

abbrev pub zm_state_error : ℕ
zm_state_error = 0x05

abbrev pub zm_cmd_invalid : ℕ
zm_cmd_invalid = 0x01

abbrev pub zm_cmd_aps_data_req : ℕ
zm_cmd_aps_data_req = 0x03

abbrev pub zm_cmd_aps_data_confirm : ℕ
zm_cmd_aps_data_confirm = 0x04

abbrev pub zm_cmd_aps_data_indication : ℕ
zm_cmd_aps_data_indication = 0x05

abbrev pub zm_cmd_change_net_state : ℕ
zm_cmd_change_net_state = 0x08

abbrev pub zm_cmd_zdo_net_confirm : ℕ
zm_cmd_zdo_net_confirm = 0x09

abbrev pub zm_cmd_read_param : ℕ
zm_cmd_read_param = 0x0A

abbrev pub zm_cmd_write_param : ℕ
zm_cmd_write_param = 0x0B

abbrev pub zm_cmd_aps_data_req_2 : ℕ
zm_cmd_aps_data_req_2 = 0x12

abbrev pub zm_cmd_start_interpan_mode : ℕ
zm_cmd_start_interpan_mode = 0x13

abbrev pub zm_cmd_send_interpan_req : ℕ
zm_cmd_send_interpan_req = 0x14

abbrev pub zm_cmd_interpan_indication : ℕ
zm_cmd_interpan_indication = 0x15

abbrev pub zm_cmd_interpan_confirm : ℕ
zm_cmd_interpan_confirm = 0x16

abbrev pub zm_cmd_aps_data_indication_2 : ℕ
zm_cmd_aps_data_indication_2 = 0x17

abbrev pub zm_cmd_version : ℕ
zm_cmd_version = 0x0D

abbrev pub zm_cmd_feature : ℕ
zm_cmd_feature = 0x11

abbrev pub zm_cmd_update_neighbor : ℕ
zm_cmd_update_neighbor = 0x1D

abbrev pub zm_cmd_factory_reset : ℕ
zm_cmd_factory_reset = 0x20

abbrev pub zm_cmd_nwk_leave_req : ℕ
zm_cmd_nwk_leave_req = 0x21
