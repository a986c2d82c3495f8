-- ===== src/Master/Requests/Keeps.antt =====
-- src/zm_master.cpp: the requests to the device keep the queue sound.
use deconz.Prelude.{
  ℕ, ◌%◌, refl, sym, ap, subst, Bool, Option, none, some, List, [], ◌∷◌, ◌++◌, if◌then◌else◌,
  length, Bool-cases, inl, inr, arith,
}
use deconz.BufferHelper.{BufferHelper}
use deconz.Master.{Master, MasterState, master_off, master_connecting, master_idle, Signal}
use deconz.Master.Ring.{qaps_push, qaps_full, qaps_push-IsRing}
use deconz.Master.Items.{start_task_timer, qitem_alloc, is_free}
use deconz.Master.Consistent.{consistent_same}
use deconz.Master.Sound.{IsSound, sound_same, if_all, Sounds, SoundsThen}
use deconz.Master.Alloc.{qitem_alloc_lem}
use deconz.Master.Queue.{queue_command}
use deconz.Master.Queue.Queued.{queue_command-IsSound, fill_item-IsSound, allocated-IsSound}
use deconz.Master.Requests.{
  Returned, returns_0, minus_1, minus_2, minus_4, fill_buffer, fill_length, fill_data,
  read_parameter, read_parameter_with_arg, write_parameter, item_added, added,
  firmware_version_request, factory_reset, join_network, leave_network,
}
use deconz.Master.Requests.Network.{
  push_id, apsde_data_request, start_interpan_mode, interpan_too_long, send_interpan_request,
  unlock_max_nodes, nwk_leave_request, verify_child_node, force_rejoin_child_node, read_each,
  read_parameters,
}

module _ (m : Master) (s : IsSound m) where
  filled : (id : ℕ) (bytes : List ℕ) → IsSound (queue_command m (fill_buffer id bytes)).1
  filled id bytes = queue_command-IsSound m (fill_buffer id bytes) (λ x. refl) s

  pub read_parameter-IsSound : (app : Bool) (id : ℕ) → IsSound (read_parameter app id m).1
  unfolding read_parameter
  read_parameter-IsSound app id = if_all SoundsThen _ _ _ (filled 0x0A (id ∷ [])) s

  pub read_parameter_with_arg-IsSound :
      (app : Bool) (id : ℕ) (bytes : List ℕ) → IsSound (read_parameter_with_arg app id bytes m).1
  unfolding read_parameter_with_arg
  read_parameter_with_arg-IsSound app id bytes =
      if_all SoundsThen _ _ _ (filled 0x0A (id ∷ bytes)) s

  item_added-IsSound : IsSound (item_added m).0
  unfolding item_added
  item_added-IsSound = by_state m.state
    where
      by_state :
          (x : MasterState)
          → Sounds (elim x [
            | master_off ↦ (m, [])
            | master_idle ↦ (if m.timer_active then (m, []) else start_task_timer m 0)
            | master_connecting ↦ (record m { state = master_idle }, [])
          ])
      by_state master_off = s
      by_state master_idle =
          if_all Sounds m.timer_active (m, []) (start_task_timer m 0) s
            (sound_same m _ s refl refl refl refl refl)
      by_state master_connecting = sound_same m _ s refl refl refl refl refl

added-IsSound :
    (done failed : Returned) (r : Bool × Master × List Signal)
    → IsSound r.1
    → IsSound (added done failed r).1
unfolding added
added-IsSound done failed (ok, m, out) s =
    if_all SoundsThen ok (done, (item_added m).0, out ++ (item_added m).1) (failed, m, out)
      (item_added-IsSound m s) s

module _ (m : Master) (s : IsSound m) where
  -- A request that is queued, whatever it is, and the event after it.
  requested :
      (done failed : Returned) (id : ℕ) (bytes : List ℕ)
      → IsSound (added done failed (queue_command m (fill_buffer id bytes))).1
  requested done failed id bytes = added-IsSound done failed _ (filled m s id bytes)

  allocated : IsSound (qitem_alloc m).1
  allocated = elim (qitem_alloc_lem m s.consistent) [
    | inl h ↦ allocated-IsSound m _ h.0 s h.2
    | inr h ↦
        let (e, full, moved) = h in
        subst IsSound (sym moved) (sound_same m _ s refl refl refl refl refl)
  ]

  pub write_parameter-IsSound :
      (app : Bool) (id : ℕ) (bytes : Option (List ℕ)) → IsSound (write_parameter app id bytes m).1
  unfolding write_parameter
  write_parameter-IsSound app id none = s
  write_parameter-IsSound app id (some bytes) =
      ground (arith, s, allocated, filled m s 0x0B (id ∷ bytes))

  pub firmware_version_request-IsSound : (app : Bool) → IsSound (firmware_version_request app m).1
  unfolding firmware_version_request
  firmware_version_request-IsSound app =
      if_all SoundsThen _ _ _ (requested returns_0 minus_1 0x0D []) s

  pub factory_reset-IsSound : (app : Bool) → IsSound (factory_reset app m).0
  unfolding factory_reset
  factory_reset-IsSound app = if_all Sounds _ _ _ (requested returns_0 minus_1 0x20 []) s

  pub join_network-IsSound : (app : Bool) → IsSound (join_network app m).0
  unfolding join_network
  join_network-IsSound app =
      if_all Sounds _ _ _ (queue_command-IsSound m (fill_data 0x08 2) (λ x. refl) s) s

  pub leave_network-IsSound : (app : Bool) → IsSound (leave_network app m).0
  unfolding leave_network
  leave_network-IsSound app =
      if_all Sounds _ _ _ (queue_command-IsSound m (fill_data 0x08 0) (λ x. refl) s) s

  pub start_interpan_mode-IsSound :
      (app : Bool) (channel : ℕ) → IsSound (start_interpan_mode app channel m).1
  unfolding start_interpan_mode
  start_interpan_mode-IsSound app channel =
      ground (arith, s, requested returns_0 minus_4 0x13 (channel ∷ []))

  pub unlock_max_nodes-IsSound :
      (h : BufferHelper) (app : Bool) → IsSound (unlock_max_nodes h app m).1
  unfolding unlock_max_nodes
  unlock_max_nodes-IsSound h app =
      ground (arith, s, requested returns_0 minus_1 0x11 (0x11 ∷ 0x93 ∷ h.put_u16_le 512))

  pub nwk_leave_request-IsSound :
      (h : BufferHelper) (app : Bool) (flags dst : ℕ)
      → IsSound (nwk_leave_request h app flags dst m).1
  unfolding nwk_leave_request
  nwk_leave_request-IsSound h app flags dst =
      ground (arith, s, requested returns_0 minus_2 0x21 (h.put_u16_le flags ++ h.put_u16_le dst))

  pub verify_child_node-IsSound :
      (h : BufferHelper) (app : Bool) (nwk : Option ℕ) (ext : Option (List ℕ)) (caps : ℕ)
      (ffd rx_on : Bool)
      → IsSound (verify_child_node h app nwk ext caps ffd rx_on m).1
  unfolding verify_child_node
  verify_child_node-IsSound h app (some nwk) (some ext) caps ffd rx_on =
      ground (arith, s, filled m s 0x1D (1 ∷ (h.put_u16_le nwk ++ ext ++ caps ∷ [])))
  verify_child_node-IsSound h app (some nwk) none caps ffd rx_on = s
  verify_child_node-IsSound h app none ext caps ffd rx_on = s

  pub force_rejoin_child_node-IsSound :
      (h : BufferHelper) (app : Bool) (nwk : Option ℕ) (ext : Option (List ℕ))
      → IsSound (force_rejoin_child_node h app nwk ext m).1
  unfolding force_rejoin_child_node
  force_rejoin_child_node-IsSound h app (some nwk) (some ext) =
      ground (arith, s, filled m s 0x1D (3 ∷ (h.put_u16_le nwk ++ ext)))
  force_rejoin_child_node-IsSound h app (some nwk) none = s
  force_rejoin_child_node-IsSound h app none ext = s

  interpan_too_long-IsSound : (len : ℕ) → IsSound (interpan_too_long len m).1
  unfolding interpan_too_long
  interpan_too_long-IsSound len = elim (qitem_alloc_lem m s.consistent) [
    | inl h ↦
        let a = h.2 in
        rw (interpan_too_long, h.1)
          (fill_item-IsSound (qitem_alloc m).1 h.0 (fill_length 0x14 len) allocated a.index
            (ap is_free a.is_empty))
    | inr h ↦ rw (interpan_too_long, h.0) allocated
  ]

  pub send_interpan_request-IsSound :
      (app : Bool) (bytes : List ℕ) → IsSound (send_interpan_request app bytes m).1
  unfolding send_interpan_request
  send_interpan_request-IsSound app bytes = ground (
    arith,
    s,
    interpan_too_long-IsSound (length bytes % 65536),
    requested returns_0 minus_2 0x14 bytes,
  )

  push_id-IsSound : (id : ℕ) → IsSound (push_id id m).1
  unfolding push_id
  push_id-IsSound id = elim (Bool-cases (qaps_full m.aps)) [
    | inl full ↦ rw (push_id, full) s
    | inr room ↦
        rw (push_id, room)
          (item_added-IsSound (record m { aps = (qaps_push m.aps id).0 })
            (record {
              consistent = consistent_same m _ s.consistent refl refl refl refl;
              ring = qaps_push-IsRing m.aps id s.ring room;
              few = s.few;
            }))
  ]

  pub apsde_data_request-IsSound : (app : Bool) (id : ℕ) → IsSound (apsde_data_request app id m).1
  unfolding apsde_data_request
  apsde_data_request-IsSound app id = ground (arith, s, push_id-IsSound id)

read_each-IsSound :
    (app : Bool) (wanted : List (ℕ × List ℕ)) (m : Master)
    → IsSound m
    → IsSound (read_each app wanted m).0
unfolding read_each
read_each-IsSound app [] m s = s
read_each-IsSound app ((id, bytes) ∷ more) m s =
    read_each-IsSound app more _ (read_parameter_with_arg-IsSound m s app id bytes)

pub read_parameters-IsSound :
    (app : Bool) (m : Master) → IsSound m → IsSound (read_parameters app m).1
unfolding read_parameters
read_parameters-IsSound app m s = if_all SoundsThen _ _ _ (read_each-IsSound app _ m s) s
