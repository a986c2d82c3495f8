-- ===== src/Master/Release/Confirmed.antt =====
-- src/zm_master.cpp: what QItem_Confirm takes out of the queue.
use deconz.Prelude.{
  ℕ, zero, suc, ◌+◌, ◌-◌, ◌≤◌, ◌<◌, ◌≡◌, ◌≢◌, ◌⊎◌, refl, sym, ap, ◌∙◌, subst, Bool, true, false,
  ◌&&◌, none, some, List, [], ◌∷◌, arith, ◌==◌, length, Bool-cases, Option-cases, inl, inr,
}
use deconz.Command.{Command}
use deconz.Master.{Master, Item}
use deconz.Master.Items.{
  is_free, is_wait_confirm, item_at, qitem_free, answers, find_answered, qitem_confirm,
}
use deconz.Master.Count.{one, free_excludes, item_cases}
use deconz.Master.Ring.{IsRing}
use deconz.Master.Sound.{IsSound}
use deconz.Master.Consistent.{IsConsistent, consistent_same}
use deconz.Master.Release.{qitem_free_lem}

answered_found :
    (cmd : Command) (items : List Item) (i k : ℕ)
    → find_answered cmd items i ≡ some k
    → (i ≤ k) × (k < i + length items) × (answers cmd (item_at items (k - i)) ≡ true)
answered_found cmd [] i k e = absurd (cc)
answered_found cmd (it ∷ items) i k e = elim (Bool-cases (answers cmd it)) [
  | inl yes_ ↦
      let e' : some i ≡ some k = rw yes_ at e in
      let same : i ≡ k = cc in
      let first : k - i ≡ 0 = omega arith in (omega arith, omega arith, rw (first) yes_)
  | inr no_ ↦
      let e' : find_answered cmd items (suc i) ≡ some k = rw no_ at e in
      let (lo, hi, ok) = answered_found cmd items (suc i) k e' in
      let later : k - i ≡ suc (k - suc i) = omega arith in (omega arith, omega arith, rw (later) ok)
]

answered_missing :
    (cmd : Command) (items : List Item) (i : ℕ)
    → find_answered cmd items i ≡ none
    → (j : ℕ) → j < length items
    → answers cmd (item_at items j) ≡ false
answered_missing cmd [] i e j lt = absurd (omega arith)
answered_missing cmd (it ∷ items) i e j lt = elim (Bool-cases (answers cmd it)) [
  | inl yes_ ↦ let e' : some i ≡ none = rw yes_ at e in absurd (cc)
  | inr no_ ↦
      let e' : find_answered cmd items (suc i) ≡ none = rw no_ at e in
      at j no_ (answered_missing cmd items (suc i) e') lt
]
  where
    at :
        (k : ℕ)
        → answers cmd it ≡ false
        → ((j' : ℕ) → j' < length items → answers cmd (item_at items j') ≡ false)
        → k < suc (length items)
        → answers cmd (item_at (it ∷ items) k) ≡ false
    at zero no_ ih lt' = no_
    at (suc k) no_ ih lt' = ih k (omega arith)

-- An answered item has the response's number and waits for it.
answers_facts :
    (cmd : Command) (it : Item)
    → answers cmd it ≡ true
    → (is_free it ≡ false)
      × (is_wait_confirm it ≡ true)
      × (it.cmd.cmd ≡ cmd.cmd)
      × (it.cmd.seq ≡ cmd.seq)
answers_facts cmd it h = elim (item_cases it) [
  | inl free ↦ let none_ = (free_excludes it free).1 in absurd (cc)
  | inr (inl k) ↦ let none_ = k.3 in absurd (cc)
  | inr (inr k) ↦
      let (e, u, ws, wc) = k in
      let h' : ((it.cmd.cmd == cmd.cmd) && (it.cmd.seq == cmd.seq)) ≡ true = rw wc at h in
      (u, wc, ground arith, ground arith)
]

-- What a response did: it took out the one item that it answers, or there was none.
abbrev pub Confirms : Master → Command → Master × Bool → Type 0
Confirms m cmd (m', taken) =
    ((taken ≡ true)
      × (m'.cmd_fails ≡ 0)
      × (suc m'.q_items_wait_confirm ≡ m.q_items_wait_confirm)
      × ((i : ℕ) × (i < 32)
          × (answers cmd (item_at m.q_items i) ≡ true)
          × (is_free (item_at m'.q_items i) ≡ true)
          × ((j : ℕ)
              → j < 32
              → j ≢ i
              → (item_at m'.q_items j ≡ item_at m.q_items j)
                × (answers cmd (item_at m.q_items j) ≡ false))))
    ⊎ ((taken ≡ false) × (m' ≡ m) × ((j : ℕ) → j < 32 → answers cmd (item_at m.q_items j) ≡ false))

-- A response takes out the one item that it answers: the item that waits for a confirmation of that
-- command under that sequence number, which no other item has. It resets the count of failures, and
-- the queue stays consistent. If no item is answered, nothing changes.
pub qitem_confirm_lem :
    (m : Master) (cmd : Command)
    → IsConsistent m
    → IsConsistent (qitem_confirm m cmd).0 × Confirms m cmd (qitem_confirm m cmd)
unfolding qitem_confirm
qitem_confirm_lem m cmd c = elim (Option-cases (find_answered cmd m.q_items 0)) [
  | inl e ↦
      rw (qitem_confirm, e)
        (c, inr (refl, refl, λ j lt. answered_missing cmd m.q_items 0 e j (omega (arith, c.size))))
  | inr h ↦
      let (lo, hi, ok) = answered_found cmd m.q_items 0 h.0 h.1 in
      let same : h.0 - 0 ≡ h.0 = omega arith in
      let ok' : answers cmd (item_at m.q_items h.0) ≡ true =
        subst (λ k. answers cmd (item_at m.q_items k) ≡ true) same ok in
      rw (qitem_confirm, h.1)
        (taken h.0 (omega (arith, c.size)) ok' (answers_facts cmd (item_at m.q_items h.0) ok'))
]
  where
    taken :
        (i : ℕ)
        → i < 32
        → answers cmd (item_at m.q_items i) ≡ true
        → (is_free (item_at m.q_items i) ≡ false)
          × (is_wait_confirm (item_at m.q_items i) ≡ true)
          × ((item_at m.q_items i).cmd.cmd ≡ cmd.cmd)
          × ((item_at m.q_items i).cmd.seq ≡ cmd.seq)
        → IsConsistent (record (qitem_free m i) { cmd_fails = 0 })
          × Confirms m cmd (record (qitem_free m i) { cmd_fails = 0 }, true)
    taken i hi ok (u, wc, same_cmd, same_seq) =
        let (c', r) = qitem_free_lem m i c hi u in
        let one_less : (qitem_free m i).q_items_wait_confirm + one true ≡ m.q_items_wait_confirm =
          subst (λ b. (qitem_free m i).q_items_wait_confirm + one b ≡ m.q_items_wait_confirm) wc
            r.confirms in
        (
          consistent_same (qitem_free m i) _ c' refl refl refl refl,
          inl (
            refl,
            refl,
            omega arith,
            (i, hi, ok, r.freed, λ j hj ne. (r.others j ne, only j hj ne)),
          ),
        )
      where
        only : (j : ℕ) → j < 32 → j ≢ i → answers cmd (item_at m.q_items j) ≡ false
        only j hj ne = elim (Bool-cases (answers cmd (item_at m.q_items j))) [
          | inl ok' ↦
              let (u', wc', sc, ss) = answers_facts cmd (item_at m.q_items j) ok' in
              absurd (
                ne (
                  c.distinct j i (omega (arith, c.size)) (omega (arith, c.size)) u' u
                    (ss ∙ sym same_seq)))
          | inr no_ ↦ no_
        ]

pub qitem_confirm-IsSound :
    (m : Master) (cmd : Command) → IsSound m → IsSound (qitem_confirm m cmd).0
unfolding qitem_confirm
qitem_confirm-IsSound m cmd s = elim (Option-cases (find_answered cmd m.q_items 0)) [
  | inl e ↦ rw (qitem_confirm, e) s
  | inr h ↦
      let (lo, hi, ok) = answered_found cmd m.q_items 0 h.0 h.1 in
      let same : h.0 - 0 ≡ h.0 = omega arith in
      let ok' : answers cmd (item_at m.q_items h.0) ≡ true =
        subst (λ k. answers cmd (item_at m.q_items k) ≡ true) same ok in
      let (c', r) =
        qitem_free_lem m h.0 s.consistent (omega (arith, s.consistent.size))
          (answers_facts cmd (item_at m.q_items h.0) ok').0 in
      rw (qitem_confirm, h.1)
        (record {
          consistent = consistent_same (qitem_free m h.0) _ c' refl refl refl refl;
          ring = subst IsRing (sym (ap (λ x. x.aps) r.rest)) s.ring;
          few = omega (arith, r.confirms, s.few);
        })
]
