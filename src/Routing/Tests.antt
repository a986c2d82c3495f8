-- ===== src/Routing/Tests.antt =====
-- The theorems about src/source_routing.cpp at concrete routes.
use deconz.Prelude.{ℕ, ◌+◌, ◌%◌, ◌<◌, ◌≡◌, refl, true, false, none, some, [], ◌∷◌, replicate, arith}
use deconz.Node.Neighbors.{Address, get_neighbor}
use deconz.Routing.{
  Trash, Route, RouteNode, add_trash_route, get_trashed_route, source_route_exists,
  source_routes_for_destination, get_node_for_address,
}
use deconz.Routing.Expiry.{attempts, trashed_sixteen_times}
use deconz.Routing.Exists.{EndsWith, Any, source_route_exists_iff}
use deconz.Routing.Extend.{Limits, added, extend_with, extend_via, extend}

abbrev address : ℕ → Address
address n = record { has_ext = true; ext = n; has_nwk = true; nwk = n + 1000 }

-- The route that ends at the coordinator, and one over node 2 to node 3.
abbrev first_route : Route
first_route = record {
  hops = address 1 ∷ [];
  tx_ok = 0;
  errors = 0;
  is_sleeping = false;
  is_operational = true;
}

abbrev long_route : Route
long_route = record {
  hops = address 1 ∷ address 2 ∷ address 3 ∷ [];
  tx_ok = 5;
  errors = 0;
  is_sleeping = false;
  is_operational = true;
}

abbrev empty_trash : Trash
empty_trash = record {
  insert_iter = 15;
  routes = replicate 16 (record { ttl = 0; n_hops = 0; hops = replicate 9 0 });
}

-- The coordinator, with node 4 for a neighbor.
abbrev coordinator : RouteNode
coordinator = record {
  has_data = true;
  is_valid = true;
  ext = 1;
  recv_errors = 0;
  descriptor_is_null = false;
  manufacturer_code = 0;
  sw_version = 0;
  table = record {
    neighbors = record { address = address 4; lqi = 200; last_seen = none; rest = 0 } ∷ [];
    neighbors_api = [];
  };
}

abbrev limits : Limits
limits = record { min_lqi = 130; max_hops = 5 }

nothing_trashed : get_trashed_route empty_trash (address 1 ∷ address 4 ∷ []) ≡ none
unfolding get_trashed_route
nothing_trashed = refl

trashed_sixteen_times_example :
    (3 < 16
      → get_trashed_route
          (attempts 3
            (add_trash_route empty_trash (address 1 ∷ address 4 ∷ []))
            (address 1 ∷ address 4 ∷ []))
          (address 1 ∷ address 4 ∷ [])
        ≡ some ((15 + 1) % 16))
    × (get_trashed_route
          (attempts 16
            (add_trash_route empty_trash (address 1 ∷ address 4 ∷ []))
            (address 1 ∷ address 4 ∷ []))
          (address 1 ∷ address 4 ∷ [])
        ≡ none)
trashed_sixteen_times_example =
    trashed_sixteen_times empty_trash (address 1 ∷ address 4 ∷ []) 3 refl (omega arith)
      nothing_trashed

source_route_exists_iff_example :
    (source_route_exists (address 2 ∷ address 3 ∷ []) (first_route ∷ long_route ∷ []) ≡ true
      → Any (EndsWith (address 2 ∷ address 3 ∷ [])) (first_route ∷ long_route ∷ []))
    × (Any (EndsWith (address 2 ∷ address 3 ∷ [])) (first_route ∷ long_route ∷ [])
        → source_route_exists (address 2 ∷ address 3 ∷ []) (first_route ∷ long_route ∷ []) ≡ true)
source_route_exists_iff_example =
    source_route_exists_iff (address 2 ∷ address 3 ∷ []) (first_route ∷ long_route ∷ [])

extends :
    extend limits
      (coordinator ∷ [])
      (first_route ∷ long_route ∷ [])
      empty_trash
      first_route
      (address 4)
    ≡ added (address 1 ∷ address 4 ∷ []) 200
unfolding extend extend_via extend_with get_node_for_address get_neighbor
    source_routes_for_destination source_route_exists get_trashed_route
extends = refl
