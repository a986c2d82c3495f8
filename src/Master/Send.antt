-- ===== src/Master/Send.antt =====
-- src/zm_master.cpp: zmMaster::sendNextCommand and what it sends. Whether the application is connected,
-- the clock and the result of `SerialCom::send` are arguments. `QItem_Send` always returns 0, so the
-- branches for its other results cannot be taken.
pub mod Sent
use deconz.Prelude.{
  ℕ, zero, suc, ◌+◌, ◌-◌, ◌%◌, ◌≤◌, ◌<◌, ◌≡◌, ◌≢◌, ◌⊎◌, refl, sym, ap, ◌∙◌, subst, Bool, true,
  false, not, ◌&&◌, Option, none, some, List, [], ◌∷◌, ◌++◌, arith, if◌then◌else◌, ltb, ◌==◌,
  length, get_or, get_or-set_self, get_or-set_ne, set, set-set_self, Bool-cases, Option-cases, inl,
  inr, eq_refl,
}
use deconz.Command.{Command}
use deconz.Serial.{SendResult, sent}
use deconz.Master.{
  Master, Item, ItemState, qitem_init, wait_send, wait_confirm, Signal, sends_command,
  command_queue_empty,
}
use deconz.Master.Ring.{qaps_empty}
use deconz.Master.Items.{
  is_free, is_wait_send, is_wait_confirm, is_idle, dec, inc, no_item, item_at, put_item, qitem_send,
  next_from, qitem_next_to_send,
}
use deconz.Master.Count.{one, tally, tally_none, tally_pos, tally_total, free_excludes, item_cases}
use deconz.Master.Consistent.{IsConsistent, consistent_put, consistent_same}

-- `zmMaster::connected`
abbrev pub connected : Bool → Master → Bool
connected app m = is_idle m.state && app

unfoldable pub send_next_command : Bool → ℕ → SendResult → Master → Master × List Signal
unfolding qaps_empty
send_next_command app now result m =
    if connected app m && (not (m.q_items_wait_send == 0) && ltb m.q_items_wait_confirm 2)
    then elim (qitem_next_to_send m) [
      | none ↦ (m, [])
      | some i ↦
          let (m', out) =
            qitem_send now result (put_item m i (record (item_at m.q_items i) { tref_tx = 0 })) i in
          (m', out ++ (if qaps_empty m'.aps then command_queue_empty ∷ [] else []))
    ]
    else (m, [])

waiting_found :
    (n : ℕ) (items : List Item) (s i : ℕ)
    → s < 32
    → next_from n items s ≡ some i
    → (k : ℕ) × (k < n)
      × (i ≡ (s + k) % 32)
      × (is_wait_send (item_at items i) ≡ true)
      × ((j : ℕ) → j < k → is_wait_send (item_at items ((s + j) % 32)) ≡ false)
unfolding next_from
waiting_found zero items s i hs e = absurd (cc)
waiting_found (suc n) items s i hs e = elim (Bool-cases (is_wait_send (item_at items s))) [
  | inl here ↦
      let e' : some s ≡ some i = rw here at e in
      let same : s ≡ i = cc in
      (
        0,
        omega arith,
        omega arith,
        subst (λ k. is_wait_send (item_at items k) ≡ true) same here,
        λ j lt. absurd (omega arith),
      )
  | inr not_here ↦
      let e' : next_from n items ((s + 1) % 32) ≡ some i = rw not_here at e in
      let (k, lt, at, ok, before) = waiting_found n items ((s + 1) % 32) i (omega arith) e' in
      (suc k, omega arith, omega arith, ok, earlier k not_here before)
]
  where
    earlier :
        (k : ℕ)
        → is_wait_send (item_at items s) ≡ false
        → ((j : ℕ) → j < k → is_wait_send (item_at items (((s + 1) % 32 + j) % 32)) ≡ false)
        → (j : ℕ) → j < suc k
        → is_wait_send (item_at items ((s + j) % 32)) ≡ false
    earlier k not_here before zero lt =
        subst (λ x. is_wait_send (item_at items x) ≡ false) (omega arith) not_here
    earlier k not_here before (suc j) lt =
        subst (λ x. is_wait_send (item_at items x) ≡ false) (omega arith) (before j (omega arith))

waiting_missing :
    (n : ℕ) (items : List Item) (s : ℕ)
    → s < 32
    → next_from n items s ≡ none
    → (j : ℕ) → j < n
    → is_wait_send (item_at items ((s + j) % 32)) ≡ false
unfolding next_from
waiting_missing zero items s hs e j lt = absurd (omega arith)
waiting_missing (suc n) items s hs e j lt = elim (Bool-cases (is_wait_send (item_at items s))) [
  | inl here ↦ let e' : some s ≡ none = rw here at e in absurd (cc)
  | inr not_here ↦
      let e' : next_from n items ((s + 1) % 32) ≡ none = rw not_here at e in
      at j not_here (waiting_missing n items ((s + 1) % 32) (omega arith) e') lt
]
  where
    at :
        (k : ℕ)
        → is_wait_send (item_at items s) ≡ false
        → ((j' : ℕ) → j' < n → is_wait_send (item_at items (((s + 1) % 32 + j') % 32)) ≡ false)
        → k < suc n
        → is_wait_send (item_at items ((s + k) % 32)) ≡ false
    at zero not_here ih lt' =
        subst (λ x. is_wait_send (item_at items x) ≡ false) (omega arith) not_here
    at (suc k) not_here ih lt' =
        subst (λ x. is_wait_send (item_at items x) ≡ false) (omega arith) (ih k (omega arith))

-- A waiting command is found: the first one from the send position on.
pub next_to_send_found :
    (m : Master)
    → IsConsistent m
    → m.q_items_wait_send ≢ 0
    → (i : ℕ) × (qitem_next_to_send m ≡ some i)
      × (k : ℕ) × (k < 32)
      × (i ≡ (m.q_item_sp + k) % 32)
      × (is_wait_send (item_at m.q_items i) ≡ true)
      × ((j : ℕ) → j < k → is_wait_send (item_at m.q_items ((m.q_item_sp + j) % 32)) ≡ false)
unfolding qitem_next_to_send
next_to_send_found m c some_wait = elim (Option-cases (next_from 32 m.q_items (m.q_item_sp % 32))) [
  | inl e ↦
      let nothing : tally is_wait_send m.q_items ≡ 0 = tally_none is_wait_send m.q_items (λ i lt.
        let small : i < 32 = omega (arith, c.size) in
        let there : (m.q_item_sp % 32 + (i + 32 - m.q_item_sp % 32) % 32) % 32 ≡ i = omega arith in
        subst (λ k. is_wait_send (item_at m.q_items k) ≡ false) there
          (waiting_missing 32 m.q_items (m.q_item_sp % 32) (omega arith) e
            ((i + 32 - m.q_item_sp % 32) % 32) (omega arith))) in
      absurd (some_wait (c.sends ∙ nothing))
  | inr h ↦
      let (k, lt, at, ok, before) =
        waiting_found 32 m.q_items (m.q_item_sp % 32) h.0 (omega arith) h.1 in
      (
        h.0,
        h.1,
        k,
        lt,
        omega arith,
        ok,
        λ j hj. subst (λ x. is_wait_send (item_at m.q_items x) ≡ false) (omega arith) (before j hj),
      )
]
