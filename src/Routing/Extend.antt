-- ===== src/Routing/Extend.antt =====
-- src/source_routing.cpp: how `calculateRouteForNode` makes a new route out of one that does not
-- have the node among its hops.
use deconz.Prelude.{
  ℕ, suc, ◌%◌, not, ◌&&◌, ◌||◌, none, some, List, [], ◌∷◌, ◌++◌, ltb, leb, ◌==◌, if◌then◌else◌,
  length,
}
use deconz.Node.Neighbors.{Address, get_neighbor}
use deconz.Routing.{
  Trash, Route, RouteNode, get_trashed_route, expire, source_route_exists,
  source_routes_for_destination, get_node_for_address, last_of,
}

-- `minLqi` and `maxHops`
pub record Limits : Type 0 where
  pub min_lqi : ℕ
  pub max_hops : ℕ

-- What becomes of it: nothing, an entry of the trash counted down, or a new route with its hops and
-- the link quality of the last one.
pub data Extension : Type 0 where
  skipped : Extension
  trashed : Trash → Extension
  added : List Address → ℕ → Extension

-- The routes that count as better, `betterCount`.
abbrev pub better_count : Route → ℕ → List Route → ℕ
better_count route size [] = 0
better_count route size (r ∷ rs) =
    let more = better_count route size rs in
    if leb (length r.hops) size
      && (r.is_operational && (leb r.errors route.errors && ltb 0 r.tx_ok))
    then suc more
    else more

-- The neighbor entry is good enough.
unfoldable pub extend_with : List Route → Trash → Route → Address → ℕ → Extension
extend_with routes trash route a lqi =
    let hops = route.hops ++ a ∷ [] in
    let dst = source_routes_for_destination a routes in
    if leb 2 (length dst) || leb 2 (better_count route (length hops) dst)
    then skipped
    else if route.is_operational && not (source_route_exists hops routes)
    then elim (get_trashed_route trash hops) [
      | none ↦ added hops lqi
      | some i ↦ trashed (expire trash i)
    ]
    else skipped

-- The node of the last hop is known.
unfoldable pub extend_via : Limits → List Route → Trash → Route → Address → RouteNode → Extension
unfolding extend_with
extend_via limits routes trash route a last =
    if not last.is_valid || (ltb 1 last.recv_errors || last.descriptor_is_null)
    then skipped
    else if ltb 1 (length route.hops)
        && ((last.manufacturer_code == 0x1135) && ltb last.sw_version 0x201000F1)
    then skipped
    else elim (get_neighbor last.table a) [
      | none ↦ skipped
      | some neib ↦
          let rest = extend_with routes trash route a neib.lqi in
          if ltb neib.lqi (limits.min_lqi % 256) then skipped else rest
    ]

-- The part of `calculateRouteForNode` behind the test for the node among the hops.
unfoldable pub extend : Limits → List RouteNode → List Route → Trash → Route → Address → Extension
unfolding extend_via
extend limits nodes routes trash route a =
    if route.is_sleeping || leb limits.max_hops (length route.hops)
    then skipped
    else if ltb 1 (length route.hops) && (ltb route.tx_ok 3 || ltb route.tx_ok route.errors)
    then skipped
    else elim (last_of route.hops) [
      | none ↦ skipped
      | some h ↦ elim (get_node_for_address h nodes) [
        | none ↦ skipped
        | some last ↦ extend_via limits routes trash route a last
      ]
    ]
