-- ===== src/Node/Tests.antt =====
-- The theorems about src/zm_node.cpp at a concrete node.
use deconz.Prelude.{
  count_of, ◌==◌, ◌++◌, List, ◌≢◌, ℕ, get_or, ◌/◌, ◌+◌, ◌%◌, ◌≤◌, ◌<◌, ◌≡◌, refl, true, false, ◌&&◌,
  arith, none, some, [], ◌∷◌, ltb, replicate,
}
use deconz.Node.{
  item_of, RequestIds, FetchInfo, Intervals, NodeInfo, Fetch, every, new_info, is_enabled,
  max_retry_wait,
}
use deconz.Node.Need.{need_item, need_fetch, retry_incr, set_fetched}
use deconz.Node.Order.{IsFirst, next_cur_fetch_item, next_cur_fetch_item-IsFirst}
use deconz.Node.Endpoints.{get_next_unfetched_endpoint, back, NextOf, LeavesOf, fetch_endpoints_lem}
use deconz.Node.Retries.{IsAskable, last_retry_waits}
use deconz.Node.Fetched.{IsDistinct, IsFree, mgmt_lqi_again}
use deconz.Node.Neighbors.{
  Neighbor, Table, update_neighbor, get_neighbor, remove_neighbor, updates, removes, change_all,
}
use deconz.Node.Sync.{InSync}
use deconz.Node.Outdated.{is_in_time, remove_outdated_neighbors, remove_outdated_neighbors_lem}
use deconz.Node.Lqi.{
  LqiNeighbor, unknown_device, unknown_relation, neighbor_join_unknown, neighbor_accept_join,
  device_code, relation_code, parse_neighbor, parse_neighbor_lem,
}
use deconz.Node.Table.{change_all-InSync, get_neighbor-update}

abbrev ids : RequestIds
ids = record {
  req_unknown = 0;
  req_ieee_addr = 1;
  req_nwk_addr = 2;
  req_node_descriptor = 3;
  req_user_descriptor = 4;
  req_active_endpoints = 5;
  req_simple_descriptor = 6;
  req_power_descriptor = 7;
  req_mgmt_lqi = 8;
  req_mgmt_bind = 9;
  req_max_items = 10;
}

ids-IsDistinct : IsDistinct ids
ids-IsDistinct = omega arith

abbrev router : NodeInfo
router = record {
  descriptor_is_null = false;
  has_nwk = true;
  has_ext = true;
  is_end_device = false;
  is_coordinator = false;
  is_router = true;
  endpoints = 1 ∷ 2 ∷ [];
  simple_descriptors = 1 ∷ 2 ∷ [];
  power_is_valid = false;
}

-- The same with the simple descriptor of endpoint 2 missing.
abbrev unfinished : NodeInfo
unfinished = record router { simple_descriptors = 1 ∷ [] }

abbrev intervals : Intervals
intervals = record { active_endpoints = 1800000; mgmt_lqi = 180000 }

-- Every item is switched on, and has been asked for once.
abbrev asked : FetchInfo
asked = record (new_info 1 (every 1000)) { enabled = true; retries = 1 }

abbrev state : Fetch
state = record { fetch_items = replicate 10 asked; fetch_endpoints = 1 ∷ 2 ∷ []; fcur_item = 3 }

asked_enabled : is_enabled asked ≡ true
unfolding is_enabled
asked_enabled = refl

askable : IsAskable ids state 8
askable = record { known = omega arith; id_in = omega arith; table = refl; enabled = asked_enabled }

lqi-IsFree : IsFree ids state 8
lqi-IsFree = record {
  id_in = omega arith;
  table = refl;
  enabled = refl;
  depends = refl;
  retried = omega arith;
}

simple-IsFree : IsFree ids state 6
simple-IsFree = record {
  id_in = omega arith;
  table = refl;
  enabled = refl;
  depends = refl;
  retried = omega arith;
}

abbrev near : Neighbor
near = record {
  address = record { has_ext = true; ext = 77; has_nwk = true; nwk = 5 };
  lqi = 200;
  last_seen = none;
  rest = 0;
}

abbrev empty_table : Table
empty_table = record { neighbors = []; neighbors_api = [] }

abbrev small_table : Table
small_table = record {
  neighbors = near ∷ [];
  neighbors_api = record { address = near.address; lqi = 200 } ∷ [];
}

empty-InSync : InSync empty_table
empty-InSync = record { exts = tt; lists = refl; once = λ e. omega arith }

small-InSync : InSync small_table
small-InSync = record { exts = (refl, tt); lists = refl; once = λ e. ground arith }

next_cur_fetch_item-IsFirst_example :
    (r : ℕ) × IsFirst ids state 4 10 r
    × (r < 10 → (next_cur_fetch_item ids state).fcur_item ≡ r)
    × (r ≡ 10 → (next_cur_fetch_item ids state).fcur_item ≡ 0)
next_cur_fetch_item-IsFirst_example = next_cur_fetch_item-IsFirst ids state (omega arith)

fetch_endpoints_lem_example :
    NextOf router (1 ∷ 2 ∷ []) (get_next_unfetched_endpoint router (1 ∷ 2 ∷ []))
    × (back (1 ∷ 2 ∷ []) ≡ some 2)
    × NextOf router [] (get_next_unfetched_endpoint router [])
    × LeavesOf (1 ∷ []) 2 1
fetch_endpoints_lem_example = fetch_endpoints_lem router (1 ∷ []) 2 1

last_retry_waits_example :
    let f' = (retry_incr ids 1000 state 8).1 in
    (700000 ≤ 1000 + max_retry_wait → need_fetch ids 700000 intervals router f' 8 ≡ (false, f'))
    × (1000 + max_retry_wait < 700000
        → ((need_fetch ids 700000 intervals router f' 8).0
            ≡ (need_item ids 700000 intervals router
                (1 ∷ 2 ∷ [])
                (8)
                (record asked { retries = 0; last_check = 1000 })).0)
          × ((item_of ids (need_fetch ids 700000 intervals router f' 8).1 8).retries ≡ 0))
last_retry_waits_example =
    last_retry_waits ids state 8 1000 700000 intervals router askable refl (omega arith)

mgmt_lqi_again_example :
    (need_fetch ids 200000 intervals router (set_fetched ids 1000 44 router state 8 true) 8).0
    ≡ true && ltb (1000 + 44 % 30 + 180000) 200000
mgmt_lqi_again_example =
    mgmt_lqi_again ids 1000 44 200000 intervals router state ids-IsDistinct lqi-IsFree

change_all-InSync_example : InSync (
    change_all empty_table (updates near ∷ updates near ∷ removes near.address ∷ updates near ∷ []))
change_all-InSync_example =
    change_all-InSync empty_table
      (updates near ∷ updates near ∷ removes near.address ∷ updates near ∷ []) empty-InSync

get_neighbor-update_example :
    (get_neighbor (update_neighbor empty_table near).0 near.address ≡ some near)
    × (get_neighbor (remove_neighbor (update_neighbor empty_table near).0 near.address) near.address
        ≡ none)
get_neighbor-update_example = get_neighbor-update empty_table near empty-InSync refl refl

remove_outdated_neighbors_lem_example :
    let t' = remove_outdated_neighbors 1000 5 small_table in
    InSync t'
    × (count_of (λ n. n.address.ext == near.address.ext) t'.neighbors
        ≡ count_of
            (λ n. is_in_time 1000 5 n && (n.address.ext == near.address.ext))
            small_table.neighbors)
remove_outdated_neighbors_lem_example =
    remove_outdated_neighbors_lem 1000 5 small_table (λ n. n.address.ext == near.address.ext)
      small-InSync

-- A record of Mgmt_Lqi_rsp: a router that is a child, with its receiver on, and permitting joins.
abbrev lqi_record : List ℕ
lqi_record = replicate 18 0 ++ 0x15 ∷ 1 ∷ 2 ∷ 255 ∷ []

abbrev fresh_neighbor : LqiNeighbor
fresh_neighbor = record {
  ext_pan_id = 0;
  ext = 0;
  nwk = 0;
  dev_type = unknown_device;
  rx_on_when_idle = 2;
  relationship = unknown_relation;
  permit_join = neighbor_join_unknown;
  depth = 0;
  lqi = 0;
}

parse_neighbor_lem_example :
    let n = parse_neighbor (λ bs. get_or bs 0 0) (λ bs. get_or bs 0 0) fresh_neighbor lqi_record in
    (device_code n.dev_type ≡ 0x15 % 4)
    × (n.rx_on_when_idle ≡ 0x15 / 4 % 4)
    × (relation_code n.relationship ≡ 0x15 / 16 % 8)
    × (n.permit_join ≢ neighbor_accept_join)
parse_neighbor_lem_example =
    parse_neighbor_lem (λ bs. get_or bs 0 0) (λ bs. get_or bs 0 0) fresh_neighbor lqi_record 0x15
      refl refl (omega arith) (omega arith)
