-- ===== src/Master/Items.antt =====
-- src/zm_master.cpp: the operations on queue items, QItem_Init to QItem_Confirm. An item is given by
-- its index. Counters and positions are `unsigned`, of 32 bits.
use deconz.Prelude.{
  ℕ, zero, suc, ◌+◌, ◌%◌, ◌/◌, Bool, true, false, not, ◌&&◌, ◌||◌, Option, none, some, List, [],
  ◌∷◌, ltb, ◌==◌, if◌then◌else◌, get_or, set,
}
use deconz.Command.{Command, write}
use deconz.Serial.{SendResult, sent}
use deconz.Master.{
  Master, Item, qitem_init, wait_send, wait_confirm, MasterState, master_off, master_connecting,
  master_idle, Signal, sends_command, timer_started, max_queue_items, max_unconfirmed,
  zm_cmd_invalid,
}

abbrev pub is_free : Item → Bool
is_free it = elim it.state [ qitem_init ↦ true | wait_send ↦ false | wait_confirm ↦ false ]

abbrev pub is_wait_send : Item → Bool
is_wait_send it = elim it.state [ qitem_init ↦ false | wait_send ↦ true | wait_confirm ↦ false ]

abbrev pub is_wait_confirm : Item → Bool
is_wait_confirm it = elim it.state [ qitem_init ↦ false | wait_send ↦ false | wait_confirm ↦ true ]

abbrev pub is_idle : MasterState → Bool
is_idle master_idle = true
is_idle master_off = false
is_idle master_connecting = false

-- One less and one more in 32 bits.
abbrev pub dec : ℕ → ℕ
dec n = (n + 4294967295) % 4294967296

abbrev pub inc : ℕ → ℕ
inc n = (n + 1) % 4294967296

-- `cmd->buffer.len = n`
abbrev pub set_len : ℕ → List ℕ → List ℕ
set_len n payload = write payload 0 ((n % 256) ∷ (n / 256) ∷ [])

abbrev pub no_item : Item
no_item = record {
  cmd = record { cmd = 0; seq = 0; status = 0; payload = [] };
  tref_tx = 0;
  state = qitem_init;
  retries = 0;
}

-- `Master.q_items[i]`
abbrev pub item_at : List Item → ℕ → Item
item_at items i = get_or items i no_item

abbrev pub put_item : Master → ℕ → Item → Master
put_item m i it = record m { q_items = set m.q_items i it }

abbrev pub init_item : Item → Item
init_item it = record it {
  state = qitem_init;
  cmd = record it.cmd { cmd = zm_cmd_invalid; payload = set_len 0 it.cmd.payload };
  tref_tx = 0;
  retries = 0;
}

-- Some item that is not free has the sequence number.
abbrev pub seq_used : List Item → ℕ → Bool
seq_used [] s = false
seq_used (it ∷ items) s = (not (is_free it) && (it.cmd.seq == s)) || seq_used items s

-- The `goto again` of `QItem_NextSeq`, with fuel.
unfoldable pub next_unused : ℕ → List Item → ℕ → ℕ
next_unused zero items s = s
next_unused (suc fuel) items s =
    let later = next_unused fuel items ((s + 1) % 256) in if seq_used items s then later else s

-- `QItem_NextSeq`: the new `_seq`, which it also returns.
unfoldable pub qitem_next_seq : Master → ℕ
unfolding next_unused
qitem_next_seq m =
    let s = (m.seq + 1) % 256 in
    if (m.q_items_wait_send + m.q_items_wait_confirm) % 4294967296 == 0
    then s
    else next_unused 33 m.q_items s

-- What `QItem_Alloc` does to the free item that it finds.
unfoldable pub prepare : Master → ℕ → Master
unfolding qitem_next_seq
prepare m i =
    let s = qitem_next_seq m in
    let it = init_item (item_at m.q_items i) in
    record m { seq = s; q_items = set m.q_items i (record it { cmd = record it.cmd { seq = s } }) }

-- The loop of `QItem_Alloc`, with the rounds that are left.
unfoldable pub alloc_rounds : ℕ → Master → Option ℕ × Master
unfolding prepare
alloc_rounds zero m = (none, m)
alloc_rounds (suc rounds) m =
    let i = m.q_item_wp % max_queue_items in
    let later = alloc_rounds rounds (record m { q_item_wp = inc m.q_item_wp }) in
    if is_free (item_at m.q_items i) then (some i, prepare m i) else later

-- `QItem_Alloc`
unfoldable pub qitem_alloc : Master → Option ℕ × Master
unfolding alloc_rounds
qitem_alloc m = alloc_rounds 32 m

-- `QItem_Free`
unfoldable pub qitem_free : Master → ℕ → Master
qitem_free m i =
    let it = item_at m.q_items i in
    let m' =
      put_item m i
        (record it { state = qitem_init; cmd = record it.cmd { cmd = zm_cmd_invalid } }) in
    elim it.state [
      | wait_send ↦ record m' { q_items_wait_send = dec m.q_items_wait_send }
      | wait_confirm ↦ record m' { q_items_wait_confirm = dec m.q_items_wait_confirm }
      | qitem_init ↦ m'
    ]

-- `startTaskTimer(ACTION_PROCESS, interval)`
abbrev pub start_task_timer : Master → ℕ → Master × List Signal
start_task_timer m interval = (record m { timer_active = true }, timer_started interval ∷ [])

-- `QItem_Enqueue`, with its return value
unfoldable pub qitem_enqueue : Master → ℕ → Master × Bool × List Signal
qitem_enqueue m i =
    let it = item_at m.q_items i in
    if (m.q_item_wp % max_queue_items == i) && is_free it
    then (let m' = record (put_item m i (record it { state = wait_send })) {
      q_items_wait_send = inc m.q_items_wait_send;
      q_item_wp = inc m.q_item_wp;
    } in
        if is_idle m.state && ltb m.q_items_wait_confirm max_unconfirmed
        then (let (m'', out) = start_task_timer m' 0 in (m'', true, out))
        else (m', true, []))
    else (m, false, [])

-- `QItem_Send`; `result` is what `SerialCom::send` returns. It returns 0 in every case.
unfoldable pub qitem_send : ℕ → SendResult → Master → ℕ → Master × List Signal
qitem_send now result m i =
    let it = item_at m.q_items i in
    let done = record (put_item m i (record it { state = wait_confirm; tref_tx = now })) {
      q_item_sp = if m.q_item_sp % max_queue_items == i then inc m.q_item_sp else m.q_item_sp;
      q_items_wait_send = dec m.q_items_wait_send;
      q_items_wait_confirm = inc m.q_items_wait_confirm;
      t_send = now;
    } in
    if is_wait_send it
    then (elim result [ sent ↦ done | _ ↦ m ], sends_command it.cmd ∷ [])
    else (m, [])

-- The loop of `QItem_NextToSend`
unfoldable pub next_from : ℕ → List Item → ℕ → Option ℕ
next_from zero items i = none
next_from (suc rounds) items i =
    let later = next_from rounds items ((i + 1) % max_queue_items) in
    if is_wait_send (item_at items i) then some i else later

unfoldable pub qitem_next_to_send : Master → Option ℕ
unfolding next_from
qitem_next_to_send m = next_from 32 m.q_items (m.q_item_sp % max_queue_items)

-- The item that a response confirms, from index `i` on.
abbrev pub answers : Command → Item → Bool
answers cmd it = is_wait_confirm it && ((it.cmd.cmd == cmd.cmd) && (it.cmd.seq == cmd.seq))

abbrev pub find_answered : Command → List Item → ℕ → Option ℕ
find_answered cmd [] i = none
find_answered cmd (it ∷ items) i =
    let later = find_answered cmd items (suc i) in if answers cmd it then some i else later

-- `QItem_Confirm`, with its return value
unfoldable pub qitem_confirm : Master → Command → Master × Bool
unfolding qitem_free
qitem_confirm m cmd = elim (find_answered cmd m.q_items 0) [
  | none ↦ (m, false)
  | some i ↦ (record (qitem_free m i) { cmd_fails = 0 }, true)
]
