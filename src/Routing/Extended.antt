-- ===== src/Routing/Extended.antt =====
-- src/source_routing.cpp: when `calculateRouteForNode` adds a route, and which.
use deconz.Prelude.{
  ℕ, ◌%◌, ◌≤◌, ◌<◌, ◌≡◌, ◌≢◌, ◌⊎◌, true, false, none, some, List, [], ◌∷◌, ◌++◌, length,
}
use deconz.Node.Neighbors.{Address, Neighbor, get_neighbor}
use deconz.Routing.{
  Trash, Route, RouteNode, get_trashed_route, source_route_exists, source_routes_for_destination,
  get_node_for_address,
}
use deconz.Routing.Exists.{Any, EndsWith}
use deconz.Routing.Extend.{Limits, better_count}

-- The node of the last hop, `last`, has the entry `neib` for the node.
pub record IsLinked (limits : Limits) (route : Route) (last : RouteNode) (neib : Neighbor) (lqi : ℕ)
    : Type 0 where
  pub valid : last.is_valid ≡ true
  pub errors : last.recv_errors ≤ 1
  pub described : last.descriptor_is_null ≡ false
  pub firmware :
      (length route.hops ≤ 1) ⊎ ((last.manufacturer_code ≢ 0x1135) ⊎ (0x201000F1 ≤ last.sw_version))
  pub link : neib.lqi ≡ lqi
  pub quality : limits.min_lqi % 256 ≤ lqi

-- What the list of routes and the trash say of the new hops.
pub record IsNew (routes : List Route) (trash : Trash) (route : Route) (a : Address)
    (hops : List Address) : Type 0 where
  pub longer : hops ≡ route.hops ++ a ∷ []
  pub works : route.is_operational ≡ true
  pub few : length (source_routes_for_destination a routes) < 2
  pub few_better : better_count route (length hops) (source_routes_for_destination a routes) < 2
  pub unknown : source_route_exists hops routes ≡ false
  pub untrashed : get_trashed_route trash hops ≡ none

-- The route that is extended, with its last hop, the node there, and that node's entry for the node.
pub record IsNewRoute (limits : Limits) (nodes : List RouteNode) (routes : List Route)
    (trash : Trash) (route : Route) (a : Address) (hops : List Address) (lqi : ℕ) : Type 0 where
  pub awake : route.is_sleeping ≡ false
  pub room : length route.hops < limits.max_hops
  pub proven : (length route.hops ≤ 1) ⊎ ((3 ≤ route.tx_ok) × (route.errors ≤ route.tx_ok))
  pub front : List Address
  pub hop : Address
  pub ends : route.hops ≡ front ++ hop ∷ []
  pub last : RouteNode
  pub known : get_node_for_address hop nodes ≡ some last
  pub neib : Neighbor
  pub entry : get_neighbor last.table a ≡ some neib
  pub linked : IsLinked limits route last neib lqi
  pub new : IsNew routes trash route a hops
  pub no_such : ¬ Any (EndsWith hops) routes
