-- ===== src/Node.antt =====
-- src/zm_node.cpp and zm_node.h: the fetch items of a node, which decide what is asked of a device
-- and when. The enumeration RequestId and the class Node lie in a submodule: the request ids are a
-- parameter, and what the code reads of Node is a record of its answers. The steady clock and
-- U_rand32 are arguments. Times are in milliseconds and do not overflow.
pub mod Depend
pub mod Need
pub mod Order
pub mod Endpoints
pub mod Retries
pub mod Fetched
pub mod Enabled
pub mod Neighbors
pub mod Sync
pub mod Table
pub mod Outdated
pub mod Lqi
mod Tests
use deconz.Prelude.{
  ℕ, zero, suc, ◌+◌, ◌-◌, ◌*◌, ◌%◌, ◌^◌, ◌≤◌, ◌<◌, ◌≢◌, Bool, true, false, not, ◌&&◌, ◌||◌, List,
  [], ◌∷◌, ◌++◌, map, ltb, leb, ◌==◌, if◌then◌else◌, bit_and, bit_or, length, set, get_or,
  replicate,
}

-- The enumerators of RequestId that the code names, and the number of ids.
pub record RequestIds : Type 0 where
  pub req_unknown : ℕ
  pub req_ieee_addr : ℕ
  pub req_nwk_addr : ℕ
  pub req_node_descriptor : ℕ
  pub req_user_descriptor : ℕ
  pub req_active_endpoints : ℕ
  pub req_simple_descriptor : ℕ
  pub req_power_descriptor : ℕ
  pub req_mgmt_lqi : ℕ
  pub req_mgmt_bind : ℕ
  pub req_max_items : ℕ

-- `checkInterval`: NoCheckInterval is -1.
pub data Interval : Type 0 where
  no_check_interval : Interval
  every : ℕ → Interval

pub record FetchInfo : Type 0 where
  pub id : ℕ
  pub enabled : Bool
  pub fetched : Bool
  pub retries : ℕ
  pub retries_max : ℕ
  pub last_check : ℕ
  pub check_interval : Interval
  pub depend : ℕ

-- The static check intervals that `setFetchInterval` changes.
pub record Intervals : Type 0 where
  pub active_endpoints : ℕ
  pub mgmt_lqi : ℕ

abbrev pub ieee_addr_check_interval : ℕ
ieee_addr_check_interval = 180 * 1000

abbrev pub binding_table_check_interval : ℕ
binding_table_check_interval = 90 * 1000

abbrev pub power_check_interval : ℕ
power_check_interval = 60 * 60 * 1000

abbrev pub max_retrys : ℕ
max_retrys = 2

abbrev pub max_retry_wait : ℕ
max_retry_wait = 600 * 1000

abbrev pub int_max : ℕ
int_max = 2 ^ 31 - 1

-- What the fetch code reads of the class Node.
pub record NodeInfo : Type 0 where
  pub descriptor_is_null : Bool
  pub has_nwk : Bool
  pub has_ext : Bool
  pub is_end_device : Bool
  pub is_coordinator : Bool
  pub is_router : Bool
  pub endpoints : List ℕ
  pub simple_descriptors : List ℕ
  pub power_is_valid : Bool

-- The fetch state of a zmNode: its items by request id, the endpoints to fetch again, and the
-- current item.
pub record Fetch : Type 0 where
  pub fetch_items : List FetchInfo
  pub fetch_endpoints : List ℕ
  pub fcur_item : ℕ

-- The constructor of FetchInfo with arguments.
abbrev pub new_info : ℕ → Interval → FetchInfo
new_info id interval = record {
  id = id;
  enabled = false;
  fetched = false;
  retries = 0;
  retries_max = max_retrys;
  last_check = 0;
  check_interval = interval;
  depend = 0;
}

-- The constructor without arguments leaves what the memory held in the other fields.
abbrev pub dummy_info : RequestIds → FetchInfo → FetchInfo
dummy_info ids memory = record memory { id = ids.req_unknown; enabled = false; depend = 0 }

-- `FetchInfo::isEnabled`
unfoldable pub is_enabled : FetchInfo → Bool
is_enabled fi = fi.enabled && (fi.depend == 0)

module _ (ids : RequestIds) where
  open ids use {
    req_unknown, req_ieee_addr, req_nwk_addr, req_node_descriptor, req_user_descriptor,
    req_active_endpoints, req_simple_descriptor, req_power_descriptor, req_mgmt_lqi, req_mgmt_bind,
    req_max_items,
  }

  -- `FetchInfo::addDependency`, on a uint32_t
  unfoldable pub add_dependency : FetchInfo → ℕ → FetchInfo
  add_dependency fi id =
      if ltb id req_max_items then record fi { depend = bit_or fi.depend (2 ^ id % 2 ^ 32) } else fi

  -- `FetchInfo::removeDependency`: the mask is the complement of the id itself.
  unfoldable pub remove_dependency : FetchInfo → ℕ → FetchInfo
  remove_dependency fi id =
      if ltb id req_max_items
      then record fi { depend = bit_and fi.depend (2 ^ 32 - 1 - id % 2 ^ 32) }
      else fi

  -- `m_fetchItems[item]`; `blank` for an index that the code never reads.
  abbrev pub blank : FetchInfo
  blank = new_info 0 no_check_interval

  abbrev pub item_of : Fetch → ℕ → FetchInfo
  item_of f item = get_or f.fetch_items item blank

  abbrev pub with_item : Fetch → ℕ → FetchInfo → Fetch
  with_item f item fi = record f { fetch_items = set f.fetch_items item fi }

  -- `setFetchInterval` and `getFetchInterval`, in seconds
  unfoldable pub set_fetch_interval : Intervals → ℕ → ℕ → Intervals
  set_fetch_interval s item interval =
      if item == req_active_endpoints
      then record s { active_endpoints = interval * 1000 }
      else if item == req_mgmt_lqi
      then record s { mgmt_lqi = interval * 1000 }
      else s

  -- `resetItem`; the endpoint lists of Node that it clears are the caller's.
  unfoldable pub reset_item : Intervals → Fetch → ℕ → Fetch
  unfolding add_dependency
  reset_item s f item =
      if item == req_active_endpoints
      then with_item f item (record (new_info item (every s.active_endpoints)) { enabled = true })
      else if item == req_simple_descriptor
      then with_item f item
          (record (add_dependency (new_info item no_check_interval) req_active_endpoints) {
            enabled = true;
          })
      else f

  -- The part of `reset` that is about fetching; `memory` is what the dummies' memory held.
  unfoldable pub reset : Intervals → FetchInfo → Fetch → Fetch
  unfolding add_dependency reset_item
  reset s memory f =
      let f0 = record f { fetch_items = replicate req_max_items (dummy_info ids memory) } in
      let f1 =
        with_item f0 req_ieee_addr (new_info req_ieee_addr (every ieee_addr_check_interval)) in
      let f2 =
        with_item f1 req_node_descriptor
          (record (new_info req_node_descriptor no_check_interval) { enabled = true }) in
      let f3 = with_item f2 req_user_descriptor (new_info req_user_descriptor no_check_interval) in
      let f4 = reset_item s f3 req_active_endpoints in
      let f5 = reset_item s f4 req_simple_descriptor in
      let f6 = with_item f5 req_mgmt_bind (
        add_dependency (new_info req_mgmt_bind (every binding_table_check_interval))
          req_node_descriptor) in
      record f6 { fcur_item = req_ieee_addr }
