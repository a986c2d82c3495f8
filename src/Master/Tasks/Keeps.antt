-- ===== src/Master/Tasks/Keeps.antt =====
-- src/zm_master.cpp: the functions that queue requests keep the queue sound.
use deconz.Prelude.{
  ℕ, ◌-◌, ◌%◌, ◌≡◌, refl, sym, ap, subst, true, false, not, ◌&&◌, Option, none, some, arith,
  if◌then◌else◌, ltb, ◌==◌, length, bit_and, Bool-cases, Option-cases, inl, inr,
}
use deconz.Command.{Command}
use deconz.Master.{Master}
use deconz.Master.Ring.{IsRing, ring_is_queue, qaps_empty, qaps_pop}
use deconz.Master.Items.{is_free, item_at, qitem_alloc, qitem_enqueue}
use deconz.Master.Consistent.{consistent_same}
use deconz.Master.Sound.{IsSound, sound_keeps, sound_same}
use deconz.Master.Alloc.{IsAllocated, qitem_alloc_lem}
use deconz.Master.Queue.{fill_item}
use deconz.Master.Queue.Queued.{
  fill_item-IsSound, allocated-IsSound, enqueued-IsConsistent, enqueued-IsQueued,
}
use deconz.Master.Tasks.{clear0, ApsRequest, queue_request, que_next_aps_data_request}
use deconz.Master.Requests.{fill_buffer, fill_length}

-- An allocation, after the ring and the status byte were changed.
same_slot :
    (m m' : Master) (i : ℕ) (q : _) (status : ℕ)
    → IsAllocated m m' i
    → IsAllocated
        (record m { aps = q; status0 = status })
        (record m' { aps = q; status0 = status })
        i
same_slot m m' i q status a = record {
  index = a.index;
  at_wp = a.at_wp;
  was_free = a.was_free;
  is_empty = a.is_empty;
  items = a.items;
  fresh = a.fresh;
  byte = a.byte;
  rest = ap (λ (x : Master). record x { aps = q; status0 = status }) a.rest;
}

queue_request-IsSound :
    (aps : Option ApsRequest) (id : ℕ) (m m' : Master) (i : ℕ)
    → IsSound m
    → IsAllocated m m' i
    → IsSound (queue_request aps id m' i).0
unfolding queue_request
queue_request-IsSound none id m m' i s a = allocated-IsSound m m' i s a
queue_request-IsSound (some aps) id m m' i s a =
    elim (Bool-cases (not (aps.version == 1) && not (aps.version == 2))) [
      | inl e ↦ rw (queue_request, e) sm'
      | inr e ↦ elim (Option-cases aps.bytes) [
        | inl e' ↦
            rw (queue_request, e, e')
              (fill_item-IsSound m' i
                (λ (c : Command). record c { cmd = if aps.version == 1 then 3 else 0x12 }) sm'
                a.index free)
        | inr h ↦ elim (Bool-cases (ltb 116 (length h.0 % 65536))) [
          | inl big ↦
              rw (queue_request, e, h.1, big)
                (fill_item-IsSound m' i
                  (fill_length (if aps.version == 1 then 3 else 0x12) (length h.0 % 65536)) sm'
                  a.index free)
          | inr fits ↦
              rw (queue_request, e, h.1, fits)
                (enqueued (fill_buffer (if aps.version == 1 then 3 else 0x12) h.0) (λ x. refl))
        ]
      ]
    ]
  where
    sm' : IsSound m'
    sm' = allocated-IsSound m m' i s a

    free : is_free (item_at m'.q_items i) ≡ true
    free = ap is_free a.is_empty

    enqueued :
        (fill : Command → Command)
        → ((x : Command) → (fill x).seq ≡ x.seq)
        → IsSound (qitem_enqueue (clear0 0x20 (fill_item m' i fill)) i).0
    enqueued fill keeps =
        let status = bit_and m'.status0 (255 - 0x20) in
        let b = same_slot m m' i m'.aps status a in
        let s0 : IsSound (record m { aps = m'.aps; status0 = status }) =
          sound_same m _ s refl refl refl refl (ap (λ x. x.aps) a.rest) in
        let q = enqueued-IsQueued _ _ i fill s0.consistent b keeps in
        sound_keeps (record m { aps = m'.aps; status0 = status }) _ s0
          (enqueued-IsConsistent _ _ i fill s0.consistent b keeps) q.aps q.confirms

pub que_next_aps_data_request-IsSound :
    (request : ℕ → Option ApsRequest) (m : Master)
    → IsSound m
    → IsSound (que_next_aps_data_request request m).0
unfolding que_next_aps_data_request
que_next_aps_data_request-IsSound request m s = elim (Bool-cases (qaps_empty m.aps)) [
  | inl e ↦ rw (que_next_aps_data_request, e) s
  | inr e ↦ elim (qitem_alloc_lem m s.consistent) [
    | inl h ↦ rw (que_next_aps_data_request, e, h.1) (popped h.0 h.2 e)
    | inr h ↦
        let (e', full, moved) = h in
        rw (que_next_aps_data_request, e, e')
          (subst IsSound (sym moved) (sound_same m _ s refl refl refl refl refl))
  ]
]
  where
    popped :
        (i : ℕ)
        → IsAllocated m (qitem_alloc m).1 i
        → qaps_empty m.aps ≡ false
        → IsSound
            (queue_request
              (request (qaps_pop (qitem_alloc m).1.aps).0)
              (qaps_pop (qitem_alloc m).1.aps).0
              (record (qitem_alloc m).1 { aps = (qaps_pop (qitem_alloc m).1.aps).1 })
              i).0
    popped i a more =
        let (x0, x1, x2, x3, x4, pop) = ring_is_queue m.aps 0 s.ring (omega arith) in
        let (split, ring') = pop more in
        let same : (qitem_alloc m).1.aps ≡ m.aps = ap (λ x. x.aps) a.rest in
        let q = (qaps_pop (qitem_alloc m).1.aps).1 in
        let ring : IsRing q = subst (λ x. IsRing (qaps_pop x).1) (sym same) ring' in
        let sq : IsSound (record m { aps = q; status0 = m.status0 }) = record {
          consistent = consistent_same m _ s.consistent refl refl refl refl;
          ring = ring;
          few = s.few;
        } in
        let status : (qitem_alloc m).1.status0 ≡ m.status0 = ap (λ x. x.status0) a.rest in
        queue_request-IsSound (request (qaps_pop (qitem_alloc m).1.aps).0) _
          (record m { aps = q; status0 = (qitem_alloc m).1.status0 }) _ i
          (sound_same _ _ sq refl refl refl refl refl)
          (same_slot m (qitem_alloc m).1 i q (qitem_alloc m).1.status0 a)
