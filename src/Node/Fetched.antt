-- ===== src/Node/Fetched.antt =====
-- src/zm_node.cpp: `needFetch` after `setFetched`.
use deconz.Prelude.{
  ℕ, zero, suc, ◌+◌, ◌-◌, ◌%◌, ◌^◌, ◌<◌, ◌≡◌, ◌≢◌, refl, Bool, true, false, not, ◌&&◌, ◌||◌, arith,
  List, [], ◌∷◌, map, ltb, lt→ltb, ◌==◌, length, length-set, set, get_or, ◌∙◌, ap, bit_and,
}
use Prim.Native.Nat.{bit_and-bitwise}
use deconz.Node.{
  RequestIds, FetchInfo, Intervals, NodeInfo, Fetch, is_enabled, item_of, blank, remove_dependency,
}
use deconz.Node.Need.{
  need_item, need_mgmt_lqi, need_simple_descriptor, need_fetch, set_fetched, fetched_item,
}
use deconz.Node.Retries.{item_of-with_item}

get_or-map :
    (g : FetchInfo → FetchInfo) (xs : List FetchInfo) (i : ℕ) (v : FetchInfo)
    → i < length xs
    → get_or (map g xs) i v ≡ g (get_or xs i v)
get_or-map g [] i v h = absurd (omega arith)
get_or-map g (x ∷ xs) zero v h = refl
get_or-map g (x ∷ xs) (suc i) v h = get_or-map g xs i v (omega arith)

and_zero : (b : ℕ) → bit_and 0 b ≡ 0
and_zero b = bit_and-bitwise 0 b

module _ (ids : RequestIds) where
  open ids use {
    req_active_endpoints, req_simple_descriptor, req_mgmt_lqi, req_max_items, req_node_descriptor,
    req_ieee_addr, req_nwk_addr, req_power_descriptor,
  }

  -- The switch labels of `needFetch` are different enumerators.
  pub record IsDistinct : Type 0 where
    pub lqi_node : req_mgmt_lqi ≢ req_node_descriptor
    pub lqi_ieee : req_mgmt_lqi ≢ req_ieee_addr
    pub lqi_endpoints : req_mgmt_lqi ≢ req_active_endpoints
    pub lqi_nwk : req_mgmt_lqi ≢ req_nwk_addr
    pub lqi_simple : req_mgmt_lqi ≢ req_simple_descriptor
    pub lqi_power : req_mgmt_lqi ≢ req_power_descriptor
    pub simple_node : req_simple_descriptor ≢ req_node_descriptor
    pub simple_ieee : req_simple_descriptor ≢ req_ieee_addr
    pub simple_endpoints : req_simple_descriptor ≢ req_active_endpoints
    pub simple_nwk : req_simple_descriptor ≢ req_nwk_addr

  -- An item of the table that is enabled and waits for no other, and may be retried.
  pub record IsFree (f : Fetch) (item : ℕ) : Type 0 where
    pub id_in : item < req_max_items
    pub table : length f.fetch_items ≡ req_max_items
    pub enabled : (item_of ids f item).enabled ≡ true
    pub depends : (item_of ids f item).depend ≡ 0
    pub retried : 0 < (item_of ids f item).retries_max

  remove_dependency_free :
      (fi : FetchInfo) (k : ℕ) → fi.depend ≡ 0 → remove_dependency ids fi k ≡ fi
  unfolding remove_dependency
  remove_dependency_free fi k none = ground (arith, and_zero (2 ^ 32 - 1 - k % 2 ^ 32))

  -- The item itself behind `setFetched`.
  item_of-set_fetched :
      (now random : ℕ) (n : NodeInfo) (f : Fetch) (item : ℕ) (fetched : Bool)
      → IsFree f item
      → item_of ids (set_fetched ids now random n f item fetched) item
        ≡ fetched_item ids now random item fetched (item_of ids f item)
  unfolding set_fetched
  item_of-set_fetched now random n f item true v =
      let fi = fetched_item ids now random item true (item_of ids f item) in
      let inside : item < length f.fetch_items = omega (arith, v.id_in, v.table) in
      let none : fi.depend ≡ 0 = unfold fetched_item in v.depends in
      rw (lt→ltb _ _ v.id_in) (
        get_or-map (λ x. remove_dependency ids x item) (set f.fetch_items item fi) item (blank ids)
          (omega (arith, inside, length-set f.fetch_items item fi))
        ∙ ap (λ x. remove_dependency ids x item) (item_of-with_item ids f item fi inside)
        ∙ remove_dependency_free fi item none)
  item_of-set_fetched now random n f item false v =
      let fi = fetched_item ids now random item false (item_of ids f item) in
      let at = item_of-with_item ids f item fi (omega (arith, v.id_in, v.table)) in
      rw (lt→ltb _ _ v.id_in) (ground (arith, at))

  set_fetched_endpoints :
      (now random : ℕ) (n : NodeInfo) (f : Fetch) (item : ℕ)
      → (set_fetched ids now random n f item true).fetch_endpoints ≡ f.fetch_endpoints
  unfolding set_fetched
  set_fetched_endpoints now random n f item = ground arith

  -- What `needFetch` does with a free item that has not used up its retries.
  need_fetch-free :
      (now : ℕ) (s : Intervals) (n : NodeInfo) (f : Fetch) (item : ℕ) (fi : FetchInfo)
      → item < req_max_items
      → item_of ids f item ≡ fi
      → fi.enabled ≡ true
      → fi.depend ≡ 0
      → fi.retries < fi.retries_max
      → (need_fetch ids now s n f item).0 ≡ (need_item ids now s n f.fetch_endpoints item fi).0
  unfolding need_fetch is_enabled
  need_fetch-free now s n f item fi inside e on none few =
      rw e (ground (arith, inside, on, none, few))

  fetched_need :
      (t random now : ℕ) (s : Intervals) (n : NodeInfo) (f : Fetch) (item : ℕ) (fetched : Bool)
      → IsFree f item
      → (need_fetch ids now s n (set_fetched ids t random n f item fetched) item).0
        ≡ (need_item ids now s n
            (set_fetched ids t random n f item fetched).fetch_endpoints
            item
            (fetched_item ids t random item fetched (item_of ids f item))).0
  unfolding fetched_item
  fetched_need t random now s n f item fetched v =
      need_fetch-free now s n (set_fetched ids t random n f item fetched) item
        (fetched_item ids t random item fetched (item_of ids f item)) v.id_in
        (item_of-set_fetched t random n f item fetched v) v.enabled v.depends v.retried

  -- The neighbor table item, enabled, waiting for no other and with at least one try allowed, and
  -- fetched at the time `t`, is to be fetched again exactly when more than the check interval, and
  -- up to 29 milliseconds by chance, have passed and the node is a router or coordinator. The
  -- request ids are different.
  pub mgmt_lqi_again :
      (t random now : ℕ) (s : Intervals) (n : NodeInfo) (f : Fetch)
      → IsDistinct
      → IsFree f req_mgmt_lqi
      → (need_fetch ids now s n (set_fetched ids t random n f req_mgmt_lqi true) req_mgmt_lqi).0
        ≡ (n.is_coordinator || n.is_router) && ltb (t + random % 30 + s.mgmt_lqi) now
  unfolding need_item need_mgmt_lqi fetched_item
  mgmt_lqi_again t random now s n f d v =
      fetched_need t random now s n f req_mgmt_lqi true v
      ∙ ground
          (arith, d.lqi_node, d.lqi_ieee, d.lqi_endpoints, d.lqi_nwk, d.lqi_simple, d.lqi_power)

  -- For an item that is enabled, waits for no other and has at least one try: fetched simple
  -- descriptors are needed again exactly if the node has more or fewer of them than endpoints, or
  -- an endpoint is left to fetch again; marked as not fetched they are needed. The request ids are
  -- different.
  pub simple_descriptor_again :
      (t random now : ℕ) (s : Intervals) (n : NodeInfo) (f : Fetch)
      → IsDistinct
      → IsFree f req_simple_descriptor
      → ((need_fetch ids now s n
            (set_fetched ids t random n f req_simple_descriptor true)
            req_simple_descriptor).0
          ≡ not (
              (length n.endpoints == length n.simple_descriptors)
              && (length f.fetch_endpoints == 0)))
        × ((need_fetch ids now s n
              (set_fetched ids t random n f req_simple_descriptor false)
              req_simple_descriptor).0
            ≡ true)
  unfolding need_item need_simple_descriptor fetched_item
  simple_descriptor_again t random now s n f d v = (
    fetched_need t random now s n f req_simple_descriptor true v
        ∙ ground (
          arith,
          d.simple_node,
          d.simple_ieee,
          d.simple_endpoints,
          d.simple_nwk,
          set_fetched_endpoints t random n f req_simple_descriptor,
        ),
    fetched_need t random now s n f req_simple_descriptor false v
        ∙ ground (arith, d.simple_node, d.simple_ieee, d.simple_endpoints, d.simple_nwk),
  )
