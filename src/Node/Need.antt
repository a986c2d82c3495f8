-- ===== src/Node/Need.antt =====
-- src/zm_node.cpp: which item has to be fetched, `needFetch`, and what a request, an answer and a
-- user change of it, `retryIncr`, `setFetched` and `setFetchItemEnabled`.
use deconz.Prelude.{
  ℕ, ◌+◌, ◌%◌, Bool, true, false, not, ◌&&◌, ◌||◌, Option, none, some, List, [], ◌∷◌, ◌++◌, map,
  ltb, leb, ◌==◌, if◌then◌else◌, length,
}
use deconz.Node.{
  RequestIds, every, no_check_interval, FetchInfo, Intervals, NodeInfo, Fetch, is_enabled,
  remove_dependency, item_of, with_item, ieee_addr_check_interval, power_check_interval,
  max_retry_wait, int_max,
}

-- `std::find(...) != end()`
abbrev pub contains : List ℕ → ℕ → Bool
contains [] x = false
contains (y ∷ ys) x = (y == x) || contains ys x

-- `(fi.lastCheck + fi.checkInterval) < now`
abbrev pub is_due : ℕ → FetchInfo → Bool
is_due now fi = elim fi.check_interval [
  | no_check_interval ↦ leb fi.last_check now
  | every interval ↦ ltb (fi.last_check + interval) now
]

module _ (ids : RequestIds) where
  open ids use {
    req_unknown, req_ieee_addr, req_nwk_addr, req_node_descriptor, req_active_endpoints,
    req_simple_descriptor, req_power_descriptor, req_mgmt_lqi, req_mgmt_bind, req_max_items,
  }

  -- The cases of `needFetch` by the kind of the item; a case that breaks ends in `!fi.fetched`.
  unfoldable pub need_ieee_addr : ℕ → NodeInfo → FetchInfo → Bool × FetchInfo
  need_ieee_addr now n fi =
      let fi' = record fi { check_interval = every ieee_addr_check_interval } in
      ((n.has_nwk && not n.has_ext) || (not fi.fetched || is_due now fi'), fi')

  unfoldable pub need_active_endpoints : Intervals → NodeInfo → FetchInfo → Bool × FetchInfo
  need_active_endpoints s n fi =
      let fi' = record fi { check_interval = every s.active_endpoints } in
      if not fi.fetched
      then (true, fi')
      else if n.is_end_device
      then (false, fi')
      else (length n.endpoints == 0, fi')

  unfoldable pub need_simple_descriptor : NodeInfo → List ℕ → FetchInfo → Bool × FetchInfo
  need_simple_descriptor n fetch_endpoints fi = (
    not fi.fetched
        || not
            ((length n.endpoints == length n.simple_descriptors) && (length fetch_endpoints == 0)),
    fi,
  )

  unfoldable pub need_power_descriptor : ℕ → NodeInfo → FetchInfo → Bool × FetchInfo
  need_power_descriptor now n fi =
      if not n.power_is_valid
      then (true, fi)
      else if not n.is_end_device || fi.fetched
      then (false, fi)
      else (let fi' = record fi { check_interval = every power_check_interval } in
          (is_due now fi' || not fi.fetched, fi'))

  unfoldable pub need_mgmt_lqi : ℕ → Intervals → NodeInfo → FetchInfo → Bool × FetchInfo
  need_mgmt_lqi now s n fi =
      if n.is_coordinator || n.is_router
      then if not fi.fetched
        then (true, fi)
        else (let fi' = record fi { check_interval = every s.mgmt_lqi } in (is_due now fi', fi'))
      else (false, fi)

  unfoldable pub need_item : ℕ → Intervals → NodeInfo → List ℕ → ℕ → FetchInfo → Bool × FetchInfo
  unfolding need_ieee_addr need_active_endpoints need_simple_descriptor need_power_descriptor
      need_mgmt_lqi
  need_item now s n fetch_endpoints item fi =
      if item == req_node_descriptor
      then (n.descriptor_is_null || not fi.fetched, fi)
      else if item == req_ieee_addr
      then need_ieee_addr now n fi
      else if item == req_active_endpoints
      then need_active_endpoints s n fi
      else if item == req_nwk_addr
      then ((n.has_ext && not n.has_nwk) || not fi.fetched, fi)
      else if item == req_simple_descriptor
      then need_simple_descriptor n fetch_endpoints fi
      else if item == req_power_descriptor
      then need_power_descriptor now n fi
      else if item == req_mgmt_lqi
      then need_mgmt_lqi now s n fi
      else (not fi.fetched, fi)

  -- `needFetch`; it also writes retries and the check interval of the item.
  unfoldable pub need_fetch : ℕ → Intervals → NodeInfo → Fetch → ℕ → Bool × Fetch
  need_fetch now s n f item =
      let fi = item_of ids f item in
      if not (ltb item req_max_items) || not (is_enabled fi)
      then (false, f)
      else if leb fi.retries_max fi.retries && not (ltb (fi.last_check + max_retry_wait) now)
      then (false, f)
      else (let fi' = if leb fi.retries_max fi.retries then record fi { retries = 0 } else fi in
          let (needed, fi'') = need_item now s n f.fetch_endpoints item fi' in
          (needed, with_item ids f item fi''))

  -- `retryIncr`; `none` is -1.
  unfoldable pub retry_incr : ℕ → Fetch → ℕ → Option ℕ × Fetch
  retry_incr now f item =
      if ltb req_unknown item && ltb item req_max_items
      then (let fi = item_of ids f item in
          let fi' = if ltb fi.retries int_max then record fi { retries = fi.retries + 1 } else fi in
          let fi'' =
            if leb fi'.retries_max fi'.retries then record fi' { last_check = now } else fi' in
          (some fi''.retries, with_item ids f item fi''))
      else (none, f)

  -- `retryCount`
  unfoldable pub retry_count : Fetch → ℕ → Option ℕ
  retry_count f item = if ltb item req_max_items then some (item_of ids f item).retries else none

  -- The simple descriptors to fetch again, each once.
  unfoldable pub add_missing : List ℕ → List ℕ → List ℕ
  add_missing feps [] = feps
  add_missing feps (ep ∷ eps) = add_missing (if contains feps ep then feps else feps ++ ep ∷ []) eps

  -- The items whose `lastCheck` is set with `fetched`.
  abbrev pub is_timed : ℕ → Bool
  is_timed item =
      (item == req_active_endpoints)
      || ((item == req_simple_descriptor)
          || ((item == req_mgmt_lqi)
              || ((item == req_nwk_addr)
                  || ((item == req_ieee_addr)
                      || ((item == req_mgmt_bind) || (item == req_power_descriptor))))))

  -- The item itself in `setFetched`; `random` is what U_rand32 returns.
  unfoldable pub fetched_item : ℕ → ℕ → ℕ → Bool → FetchInfo → FetchInfo
  fetched_item now random item fetched fi = record fi {
    last_check =
        if is_timed item then (if fetched then now + random % 30 else 0) else fi.last_check;
    retries = 0;
    fetched = fetched;
  }

  -- `setFetched`
  unfoldable pub set_fetched : ℕ → ℕ → NodeInfo → Fetch → ℕ → Bool → Fetch
  set_fetched now random n f item fetched =
      if ltb item req_max_items
      then (let f' =
            with_item ids f item (fetched_item now random item fetched (item_of ids f item)) in
          if fetched
          then record f' { fetch_items = map (λ fi. remove_dependency ids fi item) f'.fetch_items }
          else if item == req_simple_descriptor
          then record f' { fetch_endpoints = add_missing f.fetch_endpoints n.simple_descriptors }
          else f')
      else f

  -- `isFetchItemEnabled`
  unfoldable pub is_fetch_item_enabled : Fetch → ℕ → Bool
  is_fetch_item_enabled f item =
      ltb req_unknown item && (ltb item req_max_items && is_enabled (item_of ids f item))

  -- `setFetchItemEnabled`
  unfoldable pub set_fetch_item_enabled : Fetch → ℕ → Bool → Fetch
  set_fetch_item_enabled f item enabled =
      if ltb req_unknown item && ltb item req_max_items
      then (let fi = record (item_of ids f item) { enabled = enabled } in
          with_item ids f item
            (if enabled then record fi { fetched = false; last_check = 0 } else fi))
      else f
