-- ===== src/Master/Timeouts.antt =====
-- src/zm_master.cpp: zmMaster::handleTimeouts and zmMaster::comExit. The clock is an argument, and so
-- is what `SerialCom::send` returns for the command of each item. `SerialCom::close` is an event.
pub mod Handled
pub mod Retry
use deconz.Prelude.{
  ℕ, zero, suc, ◌+◌, ◌-◌, ◌%◌, Bool, true, false, List, [], ◌∷◌, ◌++◌, ltb, leb, ◌==◌,
  if◌then◌else◌, set,
}
use deconz.Serial.{SendResult}
use deconz.Master.{
  Master, Item, wait_send, MasterState, master_off, Signal, connection_closed, max_queue_items,
  max_send_retry, timeout_delay, max_command_fails, zm_state_timeout,
}
use deconz.Master.Items.{is_wait_confirm, dec, inc, item_at, put_item, qitem_free, qitem_send}
use deconz.Master.Kill.{kill_command, kill_command_queue}

abbrev pub is_master_off : MasterState → Bool
is_master_off master_off = true
is_master_off s = false

unfoldable pub com_exit : Master → Master × List Signal
com_exit m =
    let (m', out) = kill_command_queue m in
    if is_master_off m.state then (m, []) else (m', out ++ connection_closed ∷ [])

-- An item that was sent too long ago is given up.
unfoldable pub give_up : Master → ℕ → Master × List Signal × Bool
give_up m i =
    let m' = record (qitem_free m i) { cmd_fails = suc m.cmd_fails } in
    let out = kill_command (item_at m.q_items i).cmd zm_state_timeout in
    if leb max_command_fails m'.cmd_fails
    then (let (m'', out') = com_exit m' in (m'', out ++ out', true))
    else (m', out, false)

-- It waits to be sent again.
abbrev pub requeued : Master → ℕ → Master
requeued m i =
    let it = item_at m.q_items i in
    record (put_item m i (record it { retries = suc it.retries; state = wait_send })) {
      q_items_wait_send = inc m.q_items_wait_send;
      q_items_wait_confirm = dec m.q_items_wait_confirm;
    }

-- What the loop does with an item that waits for its confirmation; at the end, whether the function
-- returns there.
unfoldable pub timeout_item : ℕ → (ℕ → SendResult) → Master → ℕ → Master × List Signal × Bool
timeout_item now result m i =
    let it = item_at m.q_items i in
    let (m', out) = qitem_send now (result i) (requeued m i) i in
    if ltb timeout_delay (now - it.tref_tx)
    then (if leb max_send_retry it.retries then give_up m i else (m', out, false))
    else (m, [], false)

-- The loop, with the rounds that are left; `i` is an `unsigned` of 32 bits.
unfoldable pub timeouts_from : ℕ → ℕ → (ℕ → SendResult) → ℕ → ℕ → Master → Master × List Signal
timeouts_from zero now result i count m = (m, [])
timeouts_from (suc rounds) now result i count m =
    let at = i % max_queue_items in
    let waits = is_wait_confirm (item_at m.q_items at) in
    let (m', out, stop) = if waits then timeout_item now result m at else (m, [], false) in
    let (m'', later) =
      timeouts_from rounds now result (dec i) (if waits then suc count else count) m' in
    if ltb count m.q_items_wait_confirm
    then (if stop then (m', out) else (m'', out ++ later))
    else (m, [])

unfoldable pub handle_timeouts : ℕ → (ℕ → SendResult) → Master → Master × List Signal
handle_timeouts now result m =
    if m.q_items_wait_confirm == 0
    then (m, [])
    else timeouts_from max_queue_items now result (dec m.q_item_wp) 0 m
