-- ===== src/Master/Requests/Dropped.antt =====
-- src/zm_master.cpp: requests that are dropped, and how they are reported.
use deconz.Prelude.{
  ℕ, suc, ◌+◌, ◌%◌, ◌≤◌, ◌<◌, ◌≡◌, refl, ap, ◌∙◌, Bool, true, false, List, [], ◌∷◌, if◌then◌else◌,
  ◌==◌, leb, length, get_or, set, get_or-set_ne, Bool-cases, inl, inr, arith,
}
use deconz.Command.{Command, write}
use deconz.Master.{
  Master, MasterState, master_off, master_connecting, master_idle, Signal, read_parameter_response,
  write_parameter_done,
}
use deconz.Master.Items.{start_task_timer, set_len, is_wait_send, is_wait_confirm}
use deconz.Master.Count.{tally}
use deconz.Master.Consistent.{IsConsistent}
use deconz.Master.Queue.Queued.{Queues, queue_command_lem}
use deconz.Master.Queue.{queue_command}
use deconz.Master.Kill.{kill_command}
use deconz.Master.Sound.{if_all}
use deconz.Master.Send.{connected}
use deconz.Master.Requests.{
  returns_0, minus_2, item_added, added, fill_buffer, read_parameter_with_arg,
}
use deconz.Master.Requests.Network.{
  net_state, is_in_network, send_interpan_request, parameters, read_each, read_parameters,
}

-- Bytes that are written from `j` on leave those before it.
get_or-write :
    (mem : List ℕ) (i j : ℕ) (bs : List ℕ) → i < j → get_or (write mem j bs) i 0 ≡ get_or mem i 0
get_or-write mem i j [] h = refl
get_or-write mem i j (b ∷ bs) h =
    get_or-write (set mem j b) i (suc j) bs (omega arith)
    ∙ get_or-set_ne mem j i b 0 (λ e. omega arith)

-- The memory of a command with its length and the bytes behind it: the low byte of the length, and
-- the first byte.
written_bytes :
    (payload : List ℕ) (n id : ℕ) (bs : List ℕ)
    → 3 ≤ length payload
    → (get_or (write (set_len n payload) 2 (id ∷ bs)) 0 0 ≡ n % 256)
      × (get_or (write (set_len n payload) 2 (id ∷ bs)) 2 0 ≡ id)
written_bytes [] n id bs room = absurd (omega arith)
written_bytes (x ∷ []) n id bs room = absurd (omega arith)
written_bytes (x ∷ y ∷ []) n id bs room = absurd (omega arith)
written_bytes (x ∷ y ∷ z ∷ rest) n id bs room = (
  get_or-write (set (set_len n (x ∷ y ∷ z ∷ rest)) 2 id) 0 3 bs (omega arith),
  get_or-write (set (set_len n (x ∷ y ∷ z ∷ rest)) 2 id) 2 3 bs (omega arith),
)

-- A read that is given up, with the id of any parameter and any bytes behind it for an argument, is
-- reported as the read of the parameter whose number is the low byte of the count of these bytes and
-- the id; so without an argument as that of parameter 1. A write of any value that has a byte at least is
-- reported as the write of its parameter. (A command has at least three bytes of memory.)
pub kill_command_reports :
    (id state b : ℕ) (bytes : List ℕ) (cmd : Command)
    → 3 ≤ length cmd.payload
    → (kill_command (fill_buffer 0x0A (id ∷ bytes) cmd) state
        ≡ read_parameter_response state (suc (length bytes) % 256) ∷ [])
      × (kill_command (fill_buffer 0x0B (id ∷ b ∷ bytes) cmd) state
          ≡ write_parameter_done id state ∷ [])
unfolding kill_command
kill_command_reports id state b bytes cmd room = (
  ap (λ n. read_parameter_response state n ∷ [])
      (written_bytes cmd.payload (suc (length bytes)) id bytes room).0,
  ap (λ n. write_parameter_done n state ∷ [])
      (written_bytes cmd.payload (suc (suc (length bytes))) id (b ∷ bytes) room).1,
)

module _ (app : Bool) where
  read_dropped :
      (id : ℕ) (bytes : List ℕ) (m : Master)
      → IsConsistent m
      → m.q_items_wait_send + m.q_items_wait_confirm ≡ 32
      → IsConsistent (read_parameter_with_arg app id bytes m).1
        × ((read_parameter_with_arg app id bytes m).1.q_items ≡ m.q_items)
  unfolding read_parameter_with_arg
  read_dropped id bytes m c full =
      let (c', ways) = queue_command_lem m (fill_buffer 0x0A (id ∷ bytes)) c (λ x. refl) in
      elim (Bool-cases (connected app m)) [
        | inl on ↦
            rw (read_parameter_with_arg, on)
              (c', elim ways [ inl h ↦ let few = h.1 in absurd (omega arith) | inr h ↦ h.2 ])
        | inr off ↦ rw (read_parameter_with_arg, off) (c, refl)
      ]

  full_counts :
      (m m' : Master)
      → IsConsistent m
      → IsConsistent m'
      → m'.q_items ≡ m.q_items
      → m.q_items_wait_send + m.q_items_wait_confirm ≡ 32
      → m'.q_items_wait_send + m'.q_items_wait_confirm ≡ 32
  full_counts m m' c c' e full =
      let ws : tally is_wait_send m'.q_items ≡ tally is_wait_send m.q_items =
        ap (tally is_wait_send) e in
      let wc : tally is_wait_confirm m'.q_items ≡ tally is_wait_confirm m.q_items =
        ap (tally is_wait_confirm) e in
      omega (arith, c.sends, c.confirms, c'.sends, c'.confirms)

  each_dropped :
      (wanted : List (ℕ × List ℕ)) (m : Master)
      → IsConsistent m
      → m.q_items_wait_send + m.q_items_wait_confirm ≡ 32
      → (read_each app wanted m).0.q_items ≡ m.q_items
  unfolding read_each
  each_dropped [] m c full = refl
  each_dropped ((id, bytes) ∷ more) m c full =
      let (c', e) = read_dropped id bytes m c full in
      each_dropped more (read_parameter_with_arg app id bytes m).1 c' (full_counts m _ c c' e full)
      ∙ e

-- With all 32 items in use, `readParameters` asks for none of the parameters, and still returns 0.
pub read_parameters_dropped :
    (app : Bool) (m : Master)
    → IsConsistent m
    → connected app m ≡ true
    → m.q_items_wait_send + m.q_items_wait_confirm ≡ 32
    → ((read_parameters app m).0 ≡ returns_0) × ((read_parameters app m).1.q_items ≡ m.q_items)
unfolding read_parameters
read_parameters_dropped app m c on full =
    rw (read_parameters, on) (refl, each_dropped app (parameters m.protocol_version) m c full)

item_added_sends : (m : Master) → (item_added m).0.q_items_wait_send ≡ m.q_items_wait_send
unfolding item_added
item_added_sends m = by_state m.state
  where
    by_state :
        (x : MasterState)
        → (elim x as (λ _. Master × List Signal) [
          | master_off ↦ (m, [])
          | master_idle ↦ (if m.timer_active then (m, []) else start_task_timer m 0)
          | master_connecting ↦ (record m { state = master_idle }, [])
        ]).0.q_items_wait_send
          ≡ m.q_items_wait_send
    by_state master_off = refl
    by_state master_idle =
        if_all (λ (r : Master × List Signal). r.0.q_items_wait_send ≡ m.q_items_wait_send)
          m.timer_active (m, []) (start_task_timer m 0) refl refl
    by_state master_connecting = refl

added_sends :
    (r : Bool × Master × List Signal)
    → r.0 ≡ true
    → ((added returns_0 minus_2 r).0 ≡ returns_0)
      × ((added returns_0 minus_2 r).1.q_items_wait_send ≡ r.1.q_items_wait_send)
unfolding added
added_sends (true, m, out) e = (refl, item_added_sends m)
added_sends (false, m, out) e = absurd (cc)

-- `sendInterpanRequest` does not ask whether the device is connected: with the inter-PAN state that was
-- reported last, it queues a request that fits also in a master that is off, and returns 0.
pub send_interpan_request_off :
    (app : Bool) (bytes : List ℕ) (m : Master)
    → IsConsistent m
    → m.state ≡ master_off
    → m.ipan_state ≡ 2
    → length bytes < 116
    → m.q_items_wait_send + m.q_items_wait_confirm < 32
    → ((send_interpan_request app bytes m).0 ≡ returns_0)
      × ((send_interpan_request app bytes m).1.q_items_wait_send ≡ suc m.q_items_wait_send)
unfolding send_interpan_request
send_interpan_request_off app bytes m c off ipan small room =
    let (c', ways) = queue_command_lem m (fill_buffer 0x14 bytes) c (λ x. refl) in
    let connected_ipan : (m.ipan_state == 2) ≡ true = ground arith in
    let fits : leb 116 (length bytes % 65536) ≡ false = ground arith in
    let (ok, counted) = queued ways in
    let (r, ws) = added_sends (queue_command m (fill_buffer 0x14 bytes)) ok in
    elim (Bool-cases (is_in_network (net_state app m))) [
      | inl e ↦ rw (send_interpan_request, e, fits) (r, ws ∙ counted)
      | inr e ↦ rw (send_interpan_request, e, connected_ipan, fits) (r, ws ∙ counted)
    ]
  where
    queued :
        Queues m (fill_buffer 0x14 bytes) (queue_command m (fill_buffer 0x14 bytes))
        → ((queue_command m (fill_buffer 0x14 bytes)).0 ≡ true)
          × ((queue_command m (fill_buffer 0x14 bytes)).1.q_items_wait_send
              ≡ suc m.q_items_wait_send)
    queued (inl (ok, few, q)) = (ok, q.counted)
    queued (inr (no_, full, same)) = absurd (omega arith)
