-- ===== src/Node/Order.antt =====
-- src/zm_node.cpp: the order in which the items of a node are taken, `nextCurFetchItem`.
use deconz.Prelude.{
  ℕ, zero, suc, ◌+◌, ◌-◌, ◌≤◌, ◌<◌, ◌≡◌, true, false, arith, leb, if◌then◌else◌, Bool-cases, inl,
  inr,
}
use deconz.Node.{RequestIds, Fetch, item_of}

module _ (ids : RequestIds) where
  open ids use {req_unknown, req_max_items}

  -- The loop, with the rounds that are left before `cur` is ReqMaxItems.
  unfoldable pub next_enabled : ℕ → Fetch → ℕ → ℕ
  next_enabled zero f cur = cur
  next_enabled (suc rounds) f cur =
      let later = next_enabled rounds f (cur + 1) in
      if (item_of ids f cur).enabled then cur else later

  -- `nextCurFetchItem` returns the item that it makes the current one.
  unfoldable pub next_cur_fetch_item : Fetch → Fetch
  next_cur_fetch_item f =
      let cur = next_enabled (req_max_items - (f.fcur_item + 1)) f (f.fcur_item + 1) in
      record f { fcur_item = if leb req_max_items cur then req_unknown else cur }

  -- The first enabled item from `cur` on, and `cur + rounds` if there is none.
  pub record IsFirst (f : Fetch) (cur end r : ℕ) : Type 0 where
    pub from : cur ≤ r
    pub to : r ≤ end
    pub enabled : r < end → (item_of ids f r).enabled ≡ true
    pub others : (j : ℕ) → cur ≤ j → j < r → (item_of ids f j).enabled ≡ false

  next_enabled-IsFirst :
      (rounds : ℕ) (f : Fetch) (cur : ℕ) → IsFirst f cur (cur + rounds) (next_enabled rounds f cur)
  unfolding next_enabled
  next_enabled-IsFirst zero f cur = record {
    from = omega arith;
    to = omega arith;
    enabled = λ h. absurd (omega arith);
    others = λ j h k. absurd (omega arith);
  }
  next_enabled-IsFirst (suc rounds) f cur = elim (Bool-cases (item_of ids f cur).enabled) [
    | inl on ↦ rw on (record {
      from = omega arith;
      to = omega arith;
      enabled = λ h. on;
      others = λ j h k. absurd (omega arith);
    })
    | inr off ↦
        let ih = next_enabled-IsFirst rounds f (cur + 1) in
        rw off (record {
          from = omega (arith, ih.from);
          to = omega (arith, ih.to);
          enabled = λ h. ih.enabled (omega arith);
          others = λ j h k. elim (Bool-cases (leb j cur)) [
            | inl low ↦ ground arith
            | inr high ↦ ih.others j (ground arith) k
          ];
        })
  ]

  -- The next current item is the first enabled one behind the current one; if no item behind it is
  -- enabled, it is ReqUnknown. Items that wait for another are not passed over.
  pub next_cur_fetch_item-IsFirst :
      (f : Fetch)
      → f.fcur_item < req_max_items
      → (r : ℕ) × IsFirst f (f.fcur_item + 1) req_max_items r
        × (r < req_max_items → (next_cur_fetch_item f).fcur_item ≡ r)
        × (r ≡ req_max_items → (next_cur_fetch_item f).fcur_item ≡ req_unknown)
  unfolding next_cur_fetch_item
  next_cur_fetch_item-IsFirst f inside =
      let rounds = req_max_items - (f.fcur_item + 1) in
      let first = next_enabled-IsFirst rounds f (f.fcur_item + 1) in
      (
        next_enabled rounds f (f.fcur_item + 1),
        record {
          from = first.from;
          to = omega (arith, first.to);
          enabled = λ h. first.enabled (omega arith);
          others = first.others;
        },
        λ h. ground arith,
        λ h. ground arith,
      )
