-- ===== src/Routing/Expiry.antt =====
-- src/source_routing.cpp: how long the trash keeps a removed route from being added again.
use deconz.Prelude.{
  ℕ, zero, suc, ◌+◌, ◌-◌, ◌%◌, ◌≤◌, ◌<◌, ◌≡◌, ◌≢◌, refl, ap, sym, subst, ◌∙◌, true, none, some,
  List, [], ◌∷◌, ◌==◌, arith, if◌then◌else◌, length, set, get_or, get_or-set_self, take, eq_bytes,
  eq_refl, Bool-cases, inl, inr,
}
use deconz.Node.Neighbors.{Address}
use deconz.Routing.{
  Trash, TrashRoute, nwks, overwrite, no_trash, add_trash_route, is_trashed, find_trashed,
  get_trashed_route, expire,
}

-- An attempt of `calculateRouteForNode` to add the route.
unfoldable pub attempt : Trash → List Address → Trash
attempt t hops = elim (get_trashed_route t hops) [ none ↦ t | some i ↦ expire t i ]

unfoldable pub attempts : ℕ → Trash → List Address → Trash
unfolding attempt
attempts zero t hops = t
attempts (suc n) t hops = attempts n (attempt t hops) hops

set-set : (xs : List TrashRoute) (i : ℕ) (a b : TrashRoute) → set (set xs i a) i b ≡ set xs i b
set-set [] i a b = refl
set-set (x ∷ xs) zero a b = refl
set-set (x ∷ xs) (suc i) a b = ap (◌∷◌ x) (set-set xs i a b)

take-overwrite :
    (mem bs : List ℕ) → length bs ≤ length mem → take (length bs) (overwrite mem bs) ≡ bs
take-overwrite mem [] h = refl
take-overwrite [] (b ∷ bs) h = absurd (omega arith)
take-overwrite (x ∷ mem) (b ∷ bs) h = ap (◌∷◌ b) (take-overwrite mem bs (omega arith))

eq_bytes_refl : (bs : List ℕ) → eq_bytes bs bs ≡ true
eq_bytes_refl [] = refl
eq_bytes_refl (b ∷ bs) = ground (arith, eq_refl b, eq_bytes_refl bs)

length-nwks : (hops : List Address) → length (nwks hops) ≡ length hops
length-nwks [] = refl
length-nwks (h ∷ hs) = ap suc (length-nwks hs)

some-none : {k : ℕ} → none ≢ some k
some-none e = cc

-- Where no entry stands against the route, one written at `i` is the only one that may.
find_trashed-set :
    (hops : List Address) (j i : ℕ) (trs : List TrashRoute) (tr : TrashRoute)
    → find_trashed hops j trs ≡ none
    → i < length trs
    → find_trashed hops j (set trs i tr) ≡ (if is_trashed hops tr then some (j + i) else none)
find_trashed-set hops j i [] tr h lt = absurd (omega arith)
find_trashed-set hops j zero (x ∷ xs) tr h lt = elim (Bool-cases (is_trashed hops x)) [
  | inl stands ↦ absurd (some-none (sym (rw stands at h)))
  | inr free ↦
      let later : find_trashed hops (j + 1) xs ≡ none = rw free at h in
      let here : j + 0 ≡ j = omega arith in rw (later, here) refl
]
find_trashed-set hops j (suc i) (x ∷ xs) tr h lt = elim (Bool-cases (is_trashed hops x)) [
  | inl stands ↦ absurd (some-none (sym (rw stands at h)))
  | inr free ↦
      let later : find_trashed hops (j + 1) xs ≡ none = rw free at h in
      let at : j + suc i ≡ j + 1 + i = omega arith in
      rw (free, at) (find_trashed-set hops (j + 1) i xs tr later (omega arith))
]

-- The entry of the route with `k` attempts left.
abbrev entry : List Address → List ℕ → ℕ → TrashRoute
entry hops mem k = record {
  ttl = k;
  n_hops = if k == 0 then 0 else length hops;
  hops = overwrite mem (nwks hops);
}

entry_trashed :
    (hops : List Address) (mem : List ℕ) (k : ℕ)
    → length hops ≤ length mem
    → is_trashed hops (entry hops mem (suc k)) ≡ true
entry_trashed hops mem k h =
    let t : take (length hops) (overwrite mem (nwks hops)) ≡ nwks hops =
      subst (λ n. take n (overwrite mem (nwks hops)) ≡ nwks hops) (length-nwks hops)
        (take-overwrite mem (nwks hops) (omega (arith, length-nwks hops))) in
    ground (arith, t, eq_bytes_refl (nwks hops), eq_refl (length hops))

abbrev count_down : TrashRoute → TrashRoute
count_down tr = record tr { ttl = tr.ttl - 1; n_hops = if tr.ttl - 1 == 0 then 0 else tr.n_hops }

count_down-entry :
    (hops : List Address) (mem : List ℕ) (k : ℕ)
    → count_down (entry hops mem (suc k)) ≡ entry hops mem k
count_down-entry hops mem k = ground arith

attempt_found :
    (t : Trash) (hops : List Address) {i : ℕ}
    → get_trashed_route t hops ≡ some i
    → attempt t hops ≡ expire t i
unfolding attempt
attempt_found t hops e = rw (e, attempt) refl

-- One attempt against a trash whose only entry for the route is the one at `i`.
module _ (hops : List Address) (mem : List ℕ) (trs : List TrashRoute) (iter i : ℕ)
    (new : find_trashed hops 0 trs ≡ none) (inside : i < length trs)
    (room : length hops ≤ length mem) where
  abbrev left : ℕ → Trash
  left k = record { insert_iter = iter; routes = set trs i (entry hops mem k) }

  stands : (k : ℕ) → get_trashed_route (left (suc k)) hops ≡ some i
  unfolding get_trashed_route
  stands k =
      find_trashed-set hops 0 i trs (entry hops mem (suc k)) new inside
      ∙ rw (entry_trashed hops mem k room) (ap some (omega arith))

  gone : get_trashed_route (left 0) hops ≡ none
  unfolding get_trashed_route
  gone = find_trashed-set hops 0 i trs (entry hops mem 0) new inside

  expire-left : (k : ℕ) → expire (left (suc k)) i ≡ left k
  unfolding expire
  expire-left k =
      ap
        (λ tr. record {
          insert_iter = iter;
          routes = set (set trs i (entry hops mem (suc k))) i (count_down tr);
        })
        (get_or-set_self trs i (entry hops mem (suc k)) no_trash inside)
      ∙ ap
          (λ tr. record {
            insert_iter = iter;
            routes = set (set trs i (entry hops mem (suc k))) i tr;
          })
          (count_down-entry hops mem k)
      ∙ ap (λ rs. record { insert_iter = iter; routes = rs })
          (set-set trs i (entry hops mem (suc k)) (entry hops mem k))

  attempt-left : (k : ℕ) → attempt (left (suc k)) hops ≡ left k
  attempt-left k = attempt_found (left (suc k)) hops (stands k) ∙ expire-left k

  attempts-left : (n k : ℕ) → n ≤ k → attempts n (left k) hops ≡ left (k - n)
  unfolding attempts
  attempts-left zero k h = ap left (omega arith)
  attempts-left (suc n) zero h = absurd (omega arith)
  attempts-left (suc n) (suc k) h =
      rw (attempt-left k) (attempts-left n k (omega arith) ∙ ap left (omega arith))

-- A route that is put into the trash of sixteen entries, and that no entry stood against, cannot be
-- added at the next sixteen attempts; behind them nothing stands against it any more. Its hops fit
-- the memory of the entry.
pub trashed_sixteen_times :
    (t : Trash) (hops : List Address) (n : ℕ)
    → length t.routes ≡ 16
    → length hops ≤ length (get_or t.routes ((t.insert_iter + 1) % 16) no_trash).hops
    → get_trashed_route t hops ≡ none
    → (n < 16
        → get_trashed_route (attempts n (add_trash_route t hops) hops) hops
          ≡ some ((t.insert_iter + 1) % 16))
      × (get_trashed_route (attempts 16 (add_trash_route t hops) hops) hops ≡ none)
unfolding add_trash_route
trashed_sixteen_times t hops n size room new = (
  λ early.
      let count : 16 - n ≡ suc (15 - n) = omega arith in
      rw (at n (omega arith), count)
        (stands hops mem t.routes i i none_stands inside room (15 - n)),
  rw (at 16 (omega arith)) (gone hops mem t.routes i i none_stands inside room),
)
  where
    i : ℕ
    i = (t.insert_iter + 1) % 16

    mem : List ℕ
    mem = (get_or t.routes i no_trash).hops

    inside : i < length t.routes
    inside = omega arith

    none_stands : find_trashed hops 0 t.routes ≡ none
    none_stands = unfold get_trashed_route in new

    at :
        (m : ℕ)
        → m ≤ 16
        → attempts m (add_trash_route t hops) hops
          ≡ left hops mem t.routes i i none_stands inside room (16 - m)
    at m h = attempts-left hops mem t.routes i i none_stands inside room m 16 h
