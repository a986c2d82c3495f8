-- ===== src/Node/Retries.antt =====
-- src/zm_node.cpp: how often an item is asked for, and when again. `needFetch` after `retryIncr`.
use deconz.Prelude.{
  ℕ, ◌+◌, ◌≤◌, ◌<◌, ◌≡◌, ◌∙◌, refl, ap, ltb, leb, Bool, Bool-cases, inl, inr, not, ◌||◌, true,
  false, arith, some, List, length, length-set, get_or-set_self,
}
use deconz.Node.{
  RequestIds, FetchInfo, Intervals, NodeInfo, Fetch, is_enabled, item_of, with_item, blank,
  max_retry_wait, int_max,
}
use deconz.Node.Need.{
  need_item, need_fetch, retry_incr, need_ieee_addr, need_active_endpoints, need_simple_descriptor,
  need_power_descriptor, need_mgmt_lqi,
}

module _ (ids : RequestIds) where
  open ids use {req_unknown, req_max_items}

  -- An item that can be asked for: known, in the table, and enabled with no item to wait for.
  pub record IsAskable (f : Fetch) (item : ℕ) : Type 0 where
    pub known : req_unknown < item
    pub id_in : item < req_max_items
    pub table : length f.fetch_items ≡ req_max_items
    pub enabled : is_enabled (item_of ids f item) ≡ true

  pub item_of-with_item :
      (f : Fetch) (item : ℕ) (fi : FetchInfo)
      → item < length f.fetch_items
      → item_of ids (with_item ids f item fi) item ≡ fi
  item_of-with_item f item fi h = get_or-set_self f.fetch_items item fi (blank ids) h

  retry_incr_lem :
      (now : ℕ) (f : Fetch) (item : ℕ)
      → IsAskable f item
      → (item_of ids f item).retries + 1 ≡ (item_of ids f item).retries_max
      → (item_of ids f item).retries < int_max
      → retry_incr ids now f item ≡ (
        some (item_of ids f item).retries_max,
        with_item ids f item (record (item_of ids f item) {
          retries = (item_of ids f item).retries + 1;
          last_check = now;
        }),
      )
  unfolding retry_incr
  retry_incr_lem now f item a last small = ground (arith, a.known, a.id_in)

  need_item_retries :
      (now : ℕ) (s : Intervals) (n : NodeInfo) (feps : List ℕ) (item : ℕ) (fi : FetchInfo)
      → (need_item ids now s n feps item fi).1.retries ≡ fi.retries
  unfolding need_item need_ieee_addr need_active_endpoints need_simple_descriptor
      need_power_descriptor need_mgmt_lqi
  need_item_retries now s n feps item fi = ground arith

  need_fetch_again :
      (f : Fetch) (item now : ℕ) (s : Intervals) (n : NodeInfo)
      → item < req_max_items
      → is_enabled (item_of ids f item) ≡ true
      → (item_of ids f item).retries_max ≤ (item_of ids f item).retries
      → (item_of ids f item).last_check + max_retry_wait < now
      → need_fetch ids now s n f item ≡ (
          let (needed, fi) =
            need_item ids now s n f.fetch_endpoints item
              (record (item_of ids f item) { retries = 0 }) in
          (needed, with_item ids f item fi))
  unfolding need_fetch
  need_fetch_again f item now s n in_ on out late =
      let a : ltb item req_max_items ≡ true = ground arith in
      let b : leb (item_of ids f item).retries_max (item_of ids f item).retries ≡ true =
        ground arith in
      let c : ltb ((item_of ids f item).last_check + max_retry_wait) now ≡ true = ground arith in
      rw (need_fetch, a, on, b, c) refl

  need_fetch_stopped :
      (f : Fetch) (item now : ℕ) (s : Intervals) (n : NodeInfo)
      → (item_of ids f item).retries_max ≤ (item_of ids f item).retries
      → now ≤ (item_of ids f item).last_check + max_retry_wait
      → need_fetch ids now s n f item ≡ (false, f)
  unfolding need_fetch
  need_fetch_stopped f item now s n out early =
      let b : leb (item_of ids f item).retries_max (item_of ids f item).retries ≡ true =
        ground arith in
      let c : ltb ((item_of ids f item).last_check + max_retry_wait) now ≡ false = ground arith in
      elim (Bool-cases (not (ltb item req_max_items) || not (is_enabled (item_of ids f item)))) [
        | inl away ↦ rw (need_fetch, away) refl
        | inr there ↦ rw (need_fetch, there, b, c) refl
      ]

  -- The last retry, at the time `t`, of an item that is enabled and waits for no other stops it for
  -- the next ten minutes: until then it is not needed, and nothing changes. The first time that it is
  -- asked for after them, it is needed exactly if it would be with its retries counted from 0 again,
  -- and its count of retries is 0.
  pub last_retry_waits :
      (f : Fetch) (item t now : ℕ) (s : Intervals) (n : NodeInfo)
      → IsAskable f item
      → (item_of ids f item).retries + 1 ≡ (item_of ids f item).retries_max
      → (item_of ids f item).retries < int_max
      → let f' = (retry_incr ids t f item).1 in
        (now ≤ t + max_retry_wait → need_fetch ids now s n f' item ≡ (false, f'))
        × (t + max_retry_wait < now
            → ((need_fetch ids now s n f' item).0
                ≡ (need_item ids now s n f.fetch_endpoints item
                    (record (item_of ids f item) { retries = 0; last_check = t })).0)
              × ((item_of ids (need_fetch ids now s n f' item).1 item).retries ≡ 0))
  unfolding is_enabled
  last_retry_waits f item t now s n a last small =
      let fi : FetchInfo = record (item_of ids f item) {
        retries = (item_of ids f item).retries + 1;
        last_check = t;
      } in
      let fi' : FetchInfo = record (item_of ids f item) { retries = 0; last_check = t } in
      let e = item_of-with_item f item fi (omega (arith, a.id_in, a.table)) in
      let f' = with_item ids f item fi in
      let asked = need_item ids now s n f.fetch_endpoints item fi' in
      let e' =
        item_of-with_item f' item asked.1
          (omega (arith, a.id_in, a.table, length-set f.fetch_items item fi)) in
      rw (retry_incr_lem t f item a last small) (
        λ early. need_fetch_stopped f' item now s n (rw e (omega arith)) (rw e early),
        λ late.
            (let again =
                need_fetch_again f' item now s n a.id_in (rw e a.enabled) (rw e (omega arith))
                  (rw e late) in
              let asked_at : need_fetch ids now s n f' item
                  ≡ (asked.0, with_item ids f' item asked.1) =
                again ∙ rw e refl in
              (
                ap (λ r. r.0) asked_at,
                ap (λ (r : Bool × Fetch). (item_of ids r.1 item).retries) asked_at
                    ∙ ap (λ (x : FetchInfo). x.retries) e'
                    ∙ need_item_retries now s n f.fetch_endpoints item fi',
              )),
      )
