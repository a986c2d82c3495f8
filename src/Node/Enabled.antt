-- ===== src/Node/Enabled.antt =====
-- src/zm_node.cpp: switching a fetch item on and off, `setFetchItemEnabled`.
use deconz.Prelude.{ℕ, ◌<◌, ◌≡◌, Bool, true, false, ◌&&◌, arith, lt→ltb, ◌==◌, length}
use deconz.Node.{RequestIds, FetchInfo, Intervals, NodeInfo, Fetch, is_enabled, item_of}
use deconz.Node.Need.{need_fetch, is_fetch_item_enabled, set_fetch_item_enabled}
use deconz.Node.Retries.{item_of-with_item}

-- Behind `setFetchItemEnabled` a known item is enabled exactly if it was switched on and waits for no
-- other item, and an item that was switched off is never needed.
pub set_fetch_item_enabled_lem :
    (ids : RequestIds) (f : Fetch) (item now : ℕ) (on : Bool) (s : Intervals) (n : NodeInfo)
    → ids.req_unknown < item
    → item < ids.req_max_items
    → length f.fetch_items ≡ ids.req_max_items
    → let f' = set_fetch_item_enabled ids f item on in
      (is_fetch_item_enabled ids f' item ≡ on && ((item_of ids f item).depend == 0))
      × (on ≡ false → need_fetch ids now s n f' item ≡ (false, f'))
unfolding set_fetch_item_enabled is_fetch_item_enabled need_fetch is_enabled
set_fetch_item_enabled_lem ids f item now true s n known inside table =
    let fi : FetchInfo = record (item_of ids f item) {
      enabled = true;
      fetched = false;
      last_check = 0;
    } in
    let e = item_of-with_item ids f item fi (omega (arith, inside, table)) in
    rw (lt→ltb _ _ known, lt→ltb _ _ inside, e) (ground arith, λ off. cc)
set_fetch_item_enabled_lem ids f item now false s n known inside table =
    let fi : FetchInfo = record (item_of ids f item) { enabled = false } in
    let e = item_of-with_item ids f item fi (omega (arith, inside, table)) in
    rw (lt→ltb _ _ known, lt→ltb _ _ inside, e) (ground arith, λ off. ground arith)
