-- ===== src/Master/Requests/Network.antt =====
-- src/zm_master.cpp: the network's state as the device reports it, the requests that depend on it, and
-- those with more than one field. What `ApsDataRequest`, `TouchlinkRequest` and `put_u64_le`, which lie
-- in a submodule, write is an argument.
use deconz.Prelude.{
  ℕ, ◌%◌, Bool, true, false, not, ◌&&◌, ◌||◌, Option, none, some, List, [], ◌∷◌, ◌++◌, ltb, leb,
  ◌==◌, if◌then◌else◌, length, bit_and,
}
use deconz.BufferHelper.{BufferHelper}
use deconz.Master.{
  Master, Signal, zm_cmd_feature, zm_cmd_update_neighbor, zm_cmd_nwk_leave_req,
  zm_cmd_start_interpan_mode, zm_cmd_send_interpan_req,
}
use deconz.Master.Ring.{qaps_full, qaps_push}
use deconz.Master.Items.{qitem_alloc}
use deconz.Master.Queue.{queue_command, fill_item}
use deconz.Master.Send.{connected}
use deconz.Master.Requests.{
  Returned, returns_0, minus_1, minus_2, minus_3, minus_4, fill_buffer, fill_length,
  read_parameter_with_arg, item_added, added,
}

-- `deconz::State`, as far as `netState` gives it
pub data NetState : Type 0 where
  unknown_state touchlink not_in_network connecting in_network leaving : NetState

-- `zmMaster::netState`
unfoldable pub net_state : Bool → Master → NetState
net_state app m =
    let s = bit_and m.status0 3 in
    if not (connected app m)
    then unknown_state
    else if m.zll_state == 1
    then touchlink
    else if s == 0
    then not_in_network
    else if s == 1
    then connecting
    else if s == 2
    then in_network
    else leaving

abbrev pub is_in_network : NetState → Bool
is_in_network in_network = true
is_in_network s = false

abbrev pub is_not_in_network : NetState → Bool
is_not_in_network not_in_network = true
is_not_in_network s = false

-- `zmMaster::hasFreeApsRequest`
unfoldable pub has_free_aps_request : Bool → Master → Bool
has_free_aps_request app m =
    is_in_network (net_state app m) && (ltb m.q_items_wait_confirm 2 && not (qaps_full m.aps))

-- The id is put in the ring if there is room.
unfoldable pub push_id : ℕ → Master → Returned × Master × List Signal
push_id id m =
    let (aps, pushed) = qaps_push m.aps id in
    let (m', out) = item_added (record m { aps = aps }) in
    if qaps_full m.aps then (minus_3, m, []) else (returns_0, m', out)

-- `zmMaster::apsdeDataRequest`
unfoldable pub apsde_data_request : Bool → ℕ → Master → Returned × Master × List Signal
apsde_data_request app id m =
    let r = push_id id m in
    if not (connected app m)
    then (minus_1, m, [])
    else if not (is_in_network (net_state app m))
    then (minus_2, m, [])
    else r

-- `zmMaster::startInterpanMode`
unfoldable pub start_interpan_mode : Bool → ℕ → Master → Returned × Master × List Signal
start_interpan_mode app channel m =
    let r =
      added returns_0 minus_4
        (queue_command m (fill_buffer zm_cmd_start_interpan_mode (channel ∷ []))) in
    if not (is_not_in_network (net_state app m))
    then (minus_2, m, [])
    else if ltb channel 11 || ltb 26 channel
    then (minus_3, m, [])
    else r

-- A request that does not fit: the item was taken already.
unfoldable pub interpan_too_long : ℕ → Master → Returned × Master × List Signal
interpan_too_long len m =
    let (found, m') = qitem_alloc m in
    elim found [
      | none ↦ (minus_2, m', [])
      | some i ↦ (minus_1, fill_item m' i (fill_length zm_cmd_send_interpan_req len), [])
    ]

-- `zmMaster::sendInterpanRequest`, for a request that is written as `bytes`; 116 is `sizeof` of the
-- buffer's data.
unfoldable pub send_interpan_request : Bool → List ℕ → Master → Returned × Master × List Signal
send_interpan_request app bytes m =
    let r =
      added returns_0 minus_2 (queue_command m (fill_buffer zm_cmd_send_interpan_req bytes)) in
    if not (is_in_network (net_state app m)) && not (m.ipan_state == 2)
    then (minus_1, m, [])
    else if leb 116 (length bytes % 65536)
    then interpan_too_long (length bytes % 65536) m
    else r

-- `zmMaster::unlockMaxNodes`
unfoldable pub unlock_max_nodes : BufferHelper → Bool → Master → Returned × Master × List Signal
unlock_max_nodes h app m =
    let r =
      added returns_0 minus_1
        (queue_command m (fill_buffer zm_cmd_feature (0x11 ∷ 0x93 ∷ h.put_u16_le 512))) in
    if connected app m then r else (minus_1, m, [])

-- `zmMaster::nwkLeaveRequest`
unfoldable pub nwk_leave_request :
    BufferHelper → Bool → ℕ → ℕ → Master → Returned × Master × List Signal
nwk_leave_request h app flags dst m =
    let r = added returns_0 minus_2 (
      queue_command m
        (fill_buffer zm_cmd_nwk_leave_req (h.put_u16_le flags ++ h.put_u16_le dst))) in
    if connected app m then r else (minus_2, m, [])

-- `zmMaster::verifyChildNode`, for an address with these parts; `ext` is what `put_u64_le` writes. `ffd` and `rx_on` are the bits of the MAC capabilities that it tests.
unfoldable pub verify_child_node :
    BufferHelper
    → Bool
    → Option ℕ
    → Option (List ℕ)
    → ℕ
    → Bool
    → Bool
    → Master
    → Returned × Master × List Signal
verify_child_node h app (some nwk) (some ext) caps ffd rx_on m =
    let (ok, m', out) =
      queue_command m
        (fill_buffer zm_cmd_update_neighbor (1 ∷ (h.put_u16_le nwk ++ ext ++ caps ∷ []))) in
    if not (connected app m) || (ffd || (ltb m.protocol_version 0x0107 && rx_on))
    then (minus_1, m, [])
    else (if ok then returns_0 else minus_1, m', out)
verify_child_node h app (some nwk) none caps ffd rx_on m = (minus_1, m, [])
verify_child_node h app none ext caps ffd rx_on m = (minus_1, m, [])

-- `zmMaster::forceRejoinChildNode`
unfoldable pub force_rejoin_child_node :
    BufferHelper → Bool → Option ℕ → Option (List ℕ) → Master → Returned × Master × List Signal
force_rejoin_child_node h app (some nwk) (some ext) m =
    let (ok, m', out) =
      queue_command m (fill_buffer zm_cmd_update_neighbor (3 ∷ (h.put_u16_le nwk ++ ext))) in
    if connected app m then (if ok then returns_0 else minus_1, m', out) else (minus_1, m, [])
force_rejoin_child_node h app (some nwk) none m = (minus_1, m, [])
force_rejoin_child_node h app none ext m = (minus_1, m, [])

-- The parameters that `zmMaster::readParameters` asks for, with their arguments.
abbrev pub parameters : ℕ → List (ℕ × List ℕ)
parameters version =
    (0x22, [])
    ∷ (0x07, [])
    ∷ (0x01, [])
    ∷ (0x05, [])
    ∷ (0x08, [])
    ∷ (0x0A, [])
    ∷ (0x09, [])
    ∷ (0x0E, [])
    ∷ (0x0D, [])
    ∷ (0x10, [])
    ∷ (0x0B, [])
    ∷ (0x15, [])
    ∷ (0x1C, [])
    ∷ (0x1E, [])
    ∷ (0x21, [])
    ∷ (0x24, [])
    ∷ (0x23, [])
    ∷ (0x28, [])
    ∷ (0x29, [])
    ∷ (0x18, 0 ∷ [])
    ∷ (0x31, 0 ∷ [])
    ∷ (0x13, 0 ∷ [])
    ∷ (0x13, 1 ∷ [])
    ∷ (0x13, 2 ∷ [])
    ∷ (0x16, [])
    ∷ (0x25, [])
    ∷ (if leb 0x010C version then (0x12, []) ∷ [] else [])

-- Reading some parameters one after the other; the results are dropped.
unfoldable pub read_each : Bool → List (ℕ × List ℕ) → Master → Master × List Signal
read_each app [] m = (m, [])
read_each app ((id, bytes) ∷ more) m =
    let (r, m', out) = read_parameter_with_arg app id bytes m in
    let (m'', later) = read_each app more m' in (m'', out ++ later)

-- `zmMaster::readParameters`
unfoldable pub read_parameters : Bool → Master → Returned × Master × List Signal
read_parameters app m =
    let (m', out) = read_each app (parameters m.protocol_version) m in
    if connected app m then (returns_0, m', out) else (minus_1, m, [])
