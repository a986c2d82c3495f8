-- ===== src/Master/Kill/Killed.antt =====
-- src/zm_master.cpp: what is left of the queue after zmMaster::killCommandQueue, and what is reported.
use deconz.Prelude.{
  one, count_of, not, ◌&&◌, ◌||◌, drop, length-append, ℕ, zero, suc, ◌+◌, ◌≤◌, ◌<◌, ◌≡◌, ◌≢◌, refl,
  sym, ap, ap₂, ◌∙◌, subst, Bool, true, false, List, [], ◌∷◌, ◌++◌, map, arith, if◌then◌else◌, ◌==◌,
  length, Bool-cases, inl, inr,
}
use deconz.Command.{Command}
use deconz.Master.{
  Master, Item, ApsRing, Signal, apsde_data_request_done, zm_state_error, zm_cmd_read_param,
  zm_cmd_write_param, zm_cmd_aps_data_req, zm_cmd_aps_data_req_2, zm_cmd_start_interpan_mode,
  zm_cmd_send_interpan_req, zm_cmd_interpan_confirm,
}
use deconz.Master.Ring.{qaps_empty, qaps_pop, IsRing, ids, ids_count, length-ids, ring_is_queue}
use deconz.Master.Items.{is_free, is_wait_send, is_wait_confirm, item_at, qitem_free}
use deconz.Master.Count.{tally, tally_none, free_excludes}
use deconz.Master.Consistent.{IsConsistent, consistent_same}
use deconz.Master.Release.{qitem_free_lem}
use deconz.Master.Kill.{kill_command, kill_items, kill_ids, kill_command_queue}

-- The reports for the items in use among the `n` from `i` on.
abbrev pub kill_reports : ℕ → ℕ → List Item → List Signal
kill_reports zero i items = []
kill_reports (suc n) i items =
    let it = item_at items i in
    (if is_free it then [] else kill_command it.cmd zm_state_error) ++ kill_reports n (suc i) items

kill_reports_same :
    (n i : ℕ) (xs ys : List Item)
    → ((j : ℕ) → i ≤ j → item_at xs j ≡ item_at ys j)
    → kill_reports n i xs ≡ kill_reports n i ys
kill_reports_same zero i xs ys h = refl
kill_reports_same (suc n) i xs ys h =
    ap₂
      (λ (it : Item) more. (if is_free it then [] else kill_command it.cmd zm_state_error) ++ more)
      (h i (omega arith)) (kill_reports_same n (suc i) xs ys (λ j lt. h j (omega arith)))

-- The commands that are reported when they are given up.
abbrev pub is_reported : ℕ → Bool
is_reported id =
    (id == zm_cmd_read_param)
    || ((id == zm_cmd_write_param)
        || ((id == zm_cmd_aps_data_req)
            || ((id == zm_cmd_aps_data_req_2)
                || ((id == zm_cmd_start_interpan_mode)
                    || ((id == zm_cmd_send_interpan_req) || (id == zm_cmd_interpan_confirm))))))

length-kill_command :
    (cmd : Command) (state : ℕ) → length (kill_command cmd state) ≡ one (is_reported cmd.cmd)
unfolding kill_command
length-kill_command cmd state = ground arith

-- An item in use whose command is reported.
abbrev pub counts : Item → Bool
counts it = not (is_free it) && is_reported it.cmd.cmd

length-kill_one :
    (it : Item)
    → length (if is_free it then [] else kill_command it.cmd zm_state_error) ≡ one (counts it)
length-kill_one it = ground (arith, length-kill_command it.cmd zm_state_error)

count_of-drop :
    (p : Item → Bool) (xs : List Item) (i : ℕ)
    → i < length xs
    → count_of p (drop i xs) ≡ one (p (item_at xs i)) + count_of p (drop (suc i) xs)
count_of-drop p [] i h = absurd (omega arith)
count_of-drop p (x ∷ xs) zero h = refl
count_of-drop p (x ∷ xs) (suc i) h = count_of-drop p xs i (omega arith)

count_of-drop_all :
    (p : Item → Bool) (xs : List Item) (i : ℕ) → length xs ≡ i → count_of p (drop i xs) ≡ 0
count_of-drop_all p [] zero h = refl
count_of-drop_all p [] (suc i) h = refl
count_of-drop_all p (x ∷ xs) zero h = absurd (omega arith)
count_of-drop_all p (x ∷ xs) (suc i) h = count_of-drop_all p xs i (omega arith)

length-kill_reports :
    (n i : ℕ) (items : List Item)
    → length items ≡ i + n
    → length (kill_reports n i items) ≡ count_of counts (drop i items)
length-kill_reports zero i items size = sym (count_of-drop_all counts items i (omega arith))
length-kill_reports (suc n) i items size =
    let it = item_at items i in
    let now : List Signal = if is_free it then [] else kill_command it.cmd zm_state_error in
    omega (
      arith,
      length-append now (kill_reports n (suc i) items),
      length-kill_one it,
      length-kill_reports n (suc i) items (omega arith),
      count_of-drop counts items i (omega arith),
    )

-- What the loop over the items has done when it is through.
record IsKilled (m m' : Master) : Type 0 where
  consistent : IsConsistent m'
  freed : (j : ℕ) → j < 32 → is_free (item_at m'.q_items j) ≡ true
  aps : m'.aps ≡ m.aps

kill_one :
    (i : ℕ) (m : Master)
    → IsConsistent m
    → i < 32
    → ((j : ℕ) → j < i → is_free (item_at m.q_items j) ≡ true)
    → IsConsistent (if is_free (item_at m.q_items i) then m else qitem_free m i)
      × ((j : ℕ)
          → j < suc i
          → is_free
              (item_at (if is_free (item_at m.q_items i) then m else qitem_free m i).q_items j)
            ≡ true)
      × ((j : ℕ)
          → suc i ≤ j
          → item_at (if is_free (item_at m.q_items i) then m else qitem_free m i).q_items j
            ≡ item_at m.q_items j)
      × ((if is_free (item_at m.q_items i) then m else qitem_free m i).aps ≡ m.aps)
kill_one i m c hi before = elim (Bool-cases (is_free (item_at m.q_items i))) [
  | inl e ↦ rw e (
    c,
    (λ j lt. elim (Bool-cases (j == i)) [
      | inl same ↦
          let at : i ≡ j = ground arith in subst (λ k. is_free (item_at m.q_items k) ≡ true) at e
      | inr other ↦ before j (ground arith)
    ]),
    (λ j le. refl),
    refl,
  )
  | inr e ↦
      let (c', r) = qitem_free_lem m i c hi e in
      rw e (
        c',
        (λ j lt. elim (Bool-cases (j == i)) [
          | inl same ↦
              let at : i ≡ j = ground arith in
              subst (λ k. is_free (item_at (qitem_free m i).q_items k) ≡ true) at r.freed
          | inr other ↦
              let apart : j ≢ i = ground arith in
              ap is_free (r.others j apart) ∙ before j (ground arith)
        ]),
        (λ j le. r.others j (omega arith)),
        ap (λ x. x.aps) r.rest,
      )
]

kill_items_all :
    (n i : ℕ) (m : Master)
    → IsConsistent m
    → i + n ≡ 32
    → ((j : ℕ) → j < i → is_free (item_at m.q_items j) ≡ true)
    → IsKilled m (kill_items n i m).0 × ((kill_items n i m).1 ≡ kill_reports n i m.q_items)
unfolding kill_items
kill_items_all zero i m c e before =
    (record { consistent = c; freed = λ j lt. before j (omega arith); aps = refl }, refl)
kill_items_all (suc n) i m c e before =
    let (c', freed', kept, aps') = kill_one i m c (omega arith) before in
    let (k, out) =
      kill_items_all n (suc i) (if is_free (item_at m.q_items i) then m else qitem_free m i) c'
        (omega arith) freed' in
    (
      record { consistent = k.consistent; freed = k.freed; aps = k.aps ∙ aps' },
      ap
          (λ more.
            (if is_free (item_at m.q_items i)
              then []
              else kill_command (item_at m.q_items i).cmd zm_state_error)
            ++ more)
          (out ∙ kill_reports_same n (suc i) _ m.q_items kept),
    )

kill_ids_all :
    (n : ℕ) (q : ApsRing)
    → IsRing q
    → length (ids q) ≤ n
    → IsRing (kill_ids n q).0
      × ((kill_ids n q).1 ≡ map (λ id. apsde_data_request_done id zm_state_error) (ids q))
unfolding kill_ids
kill_ids_all zero q v le = (v, none_left)
  where
    none_left : [] ≡ map (λ id. apsde_data_request_done id zm_state_error) (ids q)
    none_left = let empty : ids_count q ≡ 0 = omega (arith, length-ids q) in rw empty refl
kill_ids_all (suc n) q v le =
    let (empty_iff, full_iff, push_full, push, pop_empty, pop) =
      ring_is_queue q 0 v (omega arith) in
    elim (Bool-cases (qaps_empty q)) [
      | inl e ↦
          let empty : ids_count q ≡ 0 = ground (arith, length-ids q) in
          rw (kill_ids, e) (v, rw (empty) refl)
      | inr e ↦
          let (split, v') = pop e in
          let shorter : length (ids (qaps_pop q).1) ≤ n =
            let longer : length (ids q) ≡ suc (length (ids (qaps_pop q).1)) = ap length split in
            omega arith in
          let (v'', out) = kill_ids_all n (qaps_pop q).1 v' shorter in
          rw (kill_ids, e, split)
            (v'', ap (λ more. apsde_data_request_done (qaps_pop q).0 zm_state_error ∷ more) out)
    ]

-- An empty queue.
pub record IsEmptyQueue (m : Master) : Type 0 where
  pub consistent : IsConsistent m
  pub ring : IsRing m.aps
  pub all_free : (j : ℕ) → j < 32 → is_free (item_at m.q_items j) ≡ true
  pub no_sends : m.q_items_wait_send ≡ 0
  pub no_confirms : m.q_items_wait_confirm ≡ 0
  pub no_ids : (m.aps.q_aps_rp ≡ 0) × (m.aps.q_aps_wp ≡ 0)
  pub positions : (m.q_item_sp ≡ 0) × (m.q_item_wp ≡ 0)

none_waiting :
    (p : Item → Bool) (m : Master)
    → length m.q_items ≡ 32
    → ((it : Item) → is_free it ≡ true → p it ≡ false)
    → ((j : ℕ) → j < 32 → is_free (item_at m.q_items j) ≡ true)
    → tally p m.q_items ≡ 0
none_waiting p m size excl free =
    tally_none p m.q_items (λ i lt. excl (item_at m.q_items i) (free i (omega (arith, size))))

length-map_id :
    (xs : List ℕ) → length (map (λ id. apsde_data_request_done id zm_state_error) xs) ≡ length xs
length-map_id [] = refl
length-map_id (x ∷ xs) = ap suc (length-map_id xs)

-- Killing the queue leaves nothing in it, whatever was queued: every item is free, no id waits, the
-- counters and positions are 0. What `killCommand` reports of the items in use comes in the order of the
-- items, and then each waiting id once as failed, oldest first. There are as many reports as items in
-- use with one of the commands that are reported, and waiting ids: one for each read, write, APS
-- request, start of inter-PAN mode, inter-PAN request and its confirmation, none for another command.
pub kill_command_queue-IsEmptyQueue :
    (m : Master)
    → IsConsistent m
    → IsRing m.aps
    → IsEmptyQueue (kill_command_queue m).0
      × ((kill_command_queue m).1
          ≡ kill_reports 32 0 m.q_items
            ++ map (λ id. apsde_data_request_done id zm_state_error) (ids m.aps))
      × (length (kill_command_queue m).1
          ≡ count_of (λ it. not (is_free it) && is_reported it.cmd.cmd) m.q_items
            + length (ids m.aps))
unfolding kill_command_queue
kill_command_queue-IsEmptyQueue m c v =
    let (k, out) = kill_items_all 32 0 m c refl (λ j lt. absurd (omega arith)) in
    let v' : IsRing (kill_items 32 0 m).0.aps = subst IsRing (sym k.aps) v in
    let few : length (ids (kill_items 32 0 m).0.aps) ≤ 16 =
      omega (arith, length-ids (kill_items 32 0 m).0.aps) in
    let (w, out_ids) = kill_ids_all 16 (kill_items 32 0 m).0.aps v' few in
    let told =
      ap₂ ◌++◌ out
        (out_ids ∙ ap (λ q. map (λ id. apsde_data_request_done id zm_state_error) (ids q)) k.aps) in
    (
      record {
        consistent = consistent_same (kill_items 32 0 m).0 _ k.consistent refl refl refl refl;
        ring = record { size = w.size; rp_in = omega arith; wp_in = omega arith };
        all_free = k.freed;
        no_sends =
            k.consistent.sends
            ∙ none_waiting is_wait_send (kill_items 32 0 m).0 k.consistent.size
                (λ it f. (free_excludes it f).0) k.freed;
        no_confirms =
            k.consistent.confirms
            ∙ none_waiting is_wait_confirm (kill_items 32 0 m).0 k.consistent.size
                (λ it f. (free_excludes it f).1) k.freed;
        no_ids = (refl, refl);
        positions = (refl, refl);
      },
      told,
      ap length told
          ∙ length-append (kill_reports 32 0 m.q_items)
              (map (λ id. apsde_data_request_done id zm_state_error) (ids m.aps))
          ∙ ap₂ ◌+◌ (length-kill_reports 32 0 m.q_items c.size) (length-map_id (ids m.aps)),
    )
