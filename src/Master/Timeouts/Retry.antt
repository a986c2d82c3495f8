-- ===== src/Master/Timeouts/Retry.antt =====
-- src/zm_master.cpp: the branches of zmMaster::handleTimeouts for an item that waits.
use deconz.Prelude.{
  ℕ, suc, ◌-◌, ◌≤◌, ◌<◌, ◌≡◌, ◌≢◌, refl, sym, ap, ◌∙◌, subst, Bool, true, false, List, [], ◌∷◌,
  ◌++◌, arith, if◌then◌else◌, ltb, leb, Bool-cases, inl, inr,
}
use deconz.Serial.{SendResult, sent, queue_full, not_connected, no_frame}
use deconz.Master.{Master, Item, wait_send, wait_confirm, Signal, sends_command, zm_state_timeout}
use deconz.Master.Items.{is_wait_send, is_wait_confirm, item_at, qitem_free, qitem_send}
use deconz.Master.Release.{IsReleased, qitem_free_lem}
use deconz.Master.Send.Sent.{qitem_send_sent, qitem_send_refused}
use deconz.Master.Kill.{kill_command}
use deconz.Master.Timeouts.{com_exit, give_up, requeued, timeout_item}
use deconz.Master.Sound.{IsSound}
use deconz.Master.Timeouts.Handled.{in_use, requeued_there, requeued-IsSound, some_confirm}

-- The command of the item `i` was tried a second time: it waits for its confirmation if the link took
-- it, and otherwise waits to be sent.
abbrev pub Retries : Master → ℕ → ℕ → SendResult → Master × List Signal × Bool → Type 0
Retries m i now result (m', out, stop) =
    (out ≡ sends_command (item_at m.q_items i).cmd ∷ [])
    × (stop ≡ false)
    × ((item_at m'.q_items i).cmd ≡ (item_at m.q_items i).cmd)
    × ((item_at m'.q_items i).retries ≡ suc (item_at m.q_items i).retries)
    × (result ≡ sent
        → ((item_at m'.q_items i).state ≡ wait_confirm)
          × ((item_at m'.q_items i).tref_tx ≡ now)
          × (m'.q_items_wait_confirm ≡ m.q_items_wait_confirm))
    × (result ≢ sent
        → ((item_at m'.q_items i).state ≡ wait_send)
          × (suc m'.q_items_wait_confirm ≡ m.q_items_wait_confirm))

-- The command of the item `i` was reported as timed out and its item freed; the tenth failure in a row
-- closes the connection instead of going on.
abbrev pub GivesUp : Master → ℕ → Master × List Signal × Bool → Type 0
GivesUp m i (m', out, stop) =
    (freed : Master) × IsReleased m freed i
    × (if leb 9 m.cmd_fails
        then ((stop ≡ true)
            × (m' ≡ (com_exit (record freed { cmd_fails = suc m.cmd_fails })).0)
            × (out
                ≡ kill_command (item_at m.q_items i).cmd zm_state_timeout
                  ++ (com_exit (record freed { cmd_fails = suc m.cmd_fails })).1))
        else ((stop ≡ false)
            × (m' ≡ record freed { cmd_fails = suc m.cmd_fails })
            × (out ≡ kill_command (item_at m.q_items i).cmd zm_state_timeout)))

-- What the loop does with an item that waits for its confirmation.
abbrev pub TimesOut : Master → ℕ → ℕ → SendResult → Master × List Signal × Bool → Type 0
TimesOut m i now result r =
    (now - (item_at m.q_items i).tref_tx ≤ 500 → r ≡ (m, [], false))
    × (500 < now - (item_at m.q_items i).tref_tx
        → (item_at m.q_items i).retries ≡ 0
        → Retries m i now result r)
    × (500 < now - (item_at m.q_items i).tref_tx
        → (item_at m.q_items i).retries ≢ 0
        → GivesUp m i r)

module _ (m : Master) (i : ℕ) (s : IsSound m) (hi : i < 32)
    (waits : is_wait_confirm (item_at m.q_items i) ≡ true) where
  kept_item :
      (now : ℕ) (result : SendResult)
      → result ≢ sent
      → Retries m i now result
          (let (m', out) = qitem_send now result (requeued m i) i in (m', out, false))
  kept_item now result ne =
      let there = requeued_there m i s hi waits in
      let pos = some_confirm m i s hi waits in
      subst (λ (r : Master × List Signal). Retries m i now result (r.0, r.1, false))
        (sym (qitem_send_refused (requeued m i) i now result (ap is_wait_send there) ne))
        (
          ap (λ (it : Item). sends_command it.cmd ∷ []) there,
          refl,
          ap (λ (it : Item). it.cmd) there,
          ap (λ (it : Item). it.retries) there,
          (λ e. absurd (ne e)),
          (λ _. (ap (λ (it : Item). it.state) there, omega (arith, s.few, pos))),
        )

  resent_item :
      (now : ℕ) (result : SendResult)
      → Retries m i now result
          (let (m', out) = qitem_send now result (requeued m i) i in (m', out, false))
  resent_item now sent =
      let there = requeued_there m i s hi waits in
      let pos = some_confirm m i s hi waits in
      let (c, k, out) =
        qitem_send_sent (requeued m i) i now (requeued-IsSound m i s hi waits).consistent hi
          (ap is_wait_send there) in
      (
        out ∙ ap (λ (it : Item). sends_command it.cmd ∷ []) there,
        refl,
        ap (λ (it : Item). it.cmd) k.item ∙ ap (λ (it : Item). it.cmd) there,
        ap (λ (it : Item). it.retries) k.item ∙ ap (λ (it : Item). it.retries) there,
        (λ e. (
          ap (λ (it : Item). it.state) k.item,
          ap (λ (it : Item). it.tref_tx) k.item,
          omega (arith, k.confirms, s.few, pos),
        )),
        (λ ne. absurd (ne refl)),
      )
  resent_item now queue_full = kept_item now queue_full (λ e. cc)
  resent_item now not_connected = kept_item now not_connected (λ e. cc)
  resent_item now no_frame = kept_item now no_frame (λ e. cc)

  -- A command that waits for its confirmation is left alone for 500 ms. Then it is sent again if it
  -- was sent only once, and given up otherwise.
  pub timeout_item_lem :
      (now : ℕ) (result : ℕ → SendResult)
      → TimesOut m i now (result i) (timeout_item now result m i)
  unfolding timeout_item give_up
  timeout_item_lem now result = (
    (λ early.
        let e : ltb 500 (now - (item_at m.q_items i).tref_tx) ≡ false = ground arith in
        rw (timeout_item, e) refl),
    (λ due fresh.
        let e : ltb 500 (now - (item_at m.q_items i).tref_tx) ≡ true = ground arith in
        let e' : leb 1 (item_at m.q_items i).retries ≡ false = ground arith in
        rw (timeout_item, e, e') (resent_item now (result i))),
    (λ due tried.
        let e : ltb 500 (now - (item_at m.q_items i).tref_tx) ≡ true = ground arith in
        let e' : leb 1 (item_at m.q_items i).retries ≡ true = ground arith in
        rw (timeout_item, e, e') (given_up)),
  )
    where
      given_up : GivesUp m i (give_up m i)
      given_up =
          let (c, r) = qitem_free_lem m i s.consistent hi (in_use m i s hi waits).0 in
          elim (Bool-cases (leb 9 m.cmd_fails)) [
            | inl last ↦
                let last' : leb 10 (suc m.cmd_fails) ≡ true = ground arith in
                rw (give_up, last, last') (qitem_free m i, r, (refl, refl, refl))
            | inr more ↦
                let more' : leb 10 (suc m.cmd_fails) ≡ false = ground arith in
                rw (give_up, more, more') (qitem_free m i, r, (refl, refl, refl))
          ]
