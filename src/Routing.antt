-- ===== src/Routing.antt =====
-- src/source_routing.cpp: the routes that the program finds by itself. SourceRoute lies in a
-- submodule: what the code reads of it is a record. The file's static trash is passed on.
pub mod Expiry
pub mod Exists
pub mod Extend
pub mod Extended
mod Tests
use deconz.Prelude.{
  ℕ, zero, suc, ◌+◌, ◌-◌, ◌%◌, Bool, true, false, not, ◌&&◌, ◌||◌, Option, none, some, List, [],
  ◌∷◌, ◌++◌, map, ltb, leb, ◌==◌, if◌then◌else◌, length, set, get_or, take, eq_bytes,
}
use deconz.Node.Neighbors.{Address, Neighbor, Table, get_neighbor}

abbrev pub max_trash_route_ttl : ℕ
max_trash_route_ttl = 16

abbrev pub max_trash_routes : ℕ
max_trash_routes = 16

-- `TrashRoute`; `hops` is the memory of the array.
pub record TrashRoute : Type 0 where
  pub ttl : ℕ
  pub n_hops : ℕ
  pub hops : List ℕ

-- `trashRouteInsertIter` and `trashRoutes`
pub record Trash : Type 0 where
  pub insert_iter : ℕ
  pub routes : List TrashRoute

-- What is read of a SourceRoute.
pub record Route : Type 0 where
  pub hops : List Address
  pub tx_ok : ℕ
  pub errors : ℕ
  pub is_sleeping : Bool
  pub is_operational : Bool

abbrev pub nwks : List Address → List ℕ
nwks hops = map (λ a. a.nwk) hops

abbrev pub exts : List Address → List ℕ
exts hops = map (λ a. a.ext) hops

-- An array whose first cells are written.
abbrev pub overwrite : List ℕ → List ℕ → List ℕ
overwrite mem [] = mem
overwrite [] (b ∷ bs) = []
overwrite (x ∷ mem) (b ∷ bs) = b ∷ overwrite mem bs

abbrev pub no_trash : TrashRoute
no_trash = record { ttl = 0; n_hops = 0; hops = [] }

-- `addTrashRoute`; the mask 15 on the index is the remainder by 16.
unfoldable pub add_trash_route : Trash → List Address → Trash
add_trash_route t hops =
    let iter = (t.insert_iter + 1) % max_trash_routes in
    record {
      insert_iter = iter;
      routes = set t.routes iter (record {
        ttl = max_trash_route_ttl;
        n_hops = length hops;
        hops = overwrite (get_or t.routes iter no_trash).hops (nwks hops);
      });
    }

-- The test of one entry of the trash in `getTrashedRoute`.
abbrev pub is_trashed : List Address → TrashRoute → Bool
is_trashed hops tr =
    not (tr.ttl == 0)
    && ((length hops == tr.n_hops) && eq_bytes (take (length hops) tr.hops) (nwks hops))

-- The index of the first entry from `i` on.
abbrev pub find_trashed : List Address → ℕ → List TrashRoute → Option ℕ
find_trashed hops i [] = none
find_trashed hops i (tr ∷ trs) =
    let later = find_trashed hops (i + 1) trs in if is_trashed hops tr then some i else later

-- `getTrashedRoute`, by the index of the entry
unfoldable pub get_trashed_route : Trash → List Address → Option ℕ
get_trashed_route t hops = find_trashed hops 0 t.routes

-- What an attempt to add a route does to the entry that stands against it.
unfoldable pub expire : Trash → ℕ → Trash
expire t i =
    let tr = get_or t.routes i no_trash in
    let ttl' = tr.ttl - 1 in
    record t {
      routes =
          set t.routes i (record tr { ttl = ttl'; n_hops = if ttl' == 0 then 0 else tr.n_hops });
    }

-- How many of `hops` are the same, one after the other, until the first that is not.
abbrev pub matches : List Address → List Address → ℕ
matches [] rs = 0
matches (h ∷ hs) [] = 0
matches (h ∷ hs) (r ∷ rs) = let more = matches hs rs in if h.ext == r.ext then suc more else 0

abbrev pub skip : ℕ → List Address → List Address
skip zero hs = hs
skip (suc n) [] = []
skip (suc n) (h ∷ hs) = skip n hs

-- `sourceRouteExists`
unfoldable pub source_route_exists : List Address → List Route → Bool
source_route_exists hops [] = false
source_route_exists hops (r ∷ rs) =
    let later = source_route_exists hops rs in
    if ltb (length r.hops) (length hops)
    then later
    else if matches hops (skip (length r.hops - length hops) r.hops) == length hops
    then true
    else later

abbrev pub last_of : List Address → Option Address
last_of [] = none
last_of (h ∷ []) = some h
last_of (h ∷ h' ∷ hs) = last_of (h' ∷ hs)

abbrev pub ends_at : Address → List Address → Bool
ends_at dst hops = elim (last_of hops) [ none ↦ false | some h ↦ dst.ext == h.ext ]

-- `sourceRoutesForDestination`
unfoldable pub source_routes_for_destination : Address → List Route → List Route
source_routes_for_destination dst [] = []
source_routes_for_destination dst (r ∷ rs) =
    let rest = source_routes_for_destination dst rs in
    if not r.is_sleeping && ends_at dst r.hops then r ∷ rest else rest

-- What is read of an entry of the node list; `has_data` is false where `data` is null.
pub record RouteNode : Type 0 where
  pub has_data : Bool
  pub is_valid : Bool
  pub ext : ℕ
  pub recv_errors : ℕ
  pub descriptor_is_null : Bool
  pub manufacturer_code : ℕ
  pub sw_version : ℕ
  pub table : Table

-- `getNodeForAddress`
unfoldable pub get_node_for_address : Address → List RouteNode → Option RouteNode
get_node_for_address a [] = none
get_node_for_address a (n ∷ ns) =
    let later = get_node_for_address a ns in
    if n.has_data && (n.ext == a.ext) then some n else later
