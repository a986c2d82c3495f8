-- ===== src/Node/Endpoints.antt =====
-- src/zm_node.cpp: the endpoints whose simple descriptors are fetched, `getNextUnfetchedEndpoint`
-- and `removeFetchEndpoint`.
use deconz.Prelude.{
  ℕ, ◌⊎◌, ◌≢◌, ◌||◌, ◌∙◌, ◌≡◌, refl, ap, true, false, arith, Option, none, some, List, [], ◌∷◌,
  ◌++◌, ◌==◌, if◌then◌else◌, Bool-cases, inl, inr, All,
}
use deconz.Node.{NodeInfo}
use deconz.Node.Need.{contains}

-- `pop_back` and `back` of a vector that is not empty.
abbrev pub pop_back : List ℕ → List ℕ
pop_back [] = []
pop_back (x ∷ []) = []
pop_back (x ∷ y ∷ ys) = x ∷ pop_back (y ∷ ys)

abbrev pub back : List ℕ → Option ℕ
back [] = none
back (x ∷ []) = some x
back (x ∷ y ∷ ys) = back (y ∷ ys)

-- The first of `eps` that is not among `sds`; else `other`.
unfoldable pub first_without : List ℕ → List ℕ → Option ℕ → Option ℕ
first_without [] sds other = other
first_without (ep ∷ eps) sds other =
    let later = first_without eps sds other in if contains sds ep then later else some ep

-- `getNextUnfetchedEndpoint`; `none` is -1.
unfoldable pub get_next_unfetched_endpoint : NodeInfo → List ℕ → Option ℕ
unfolding first_without
get_next_unfetched_endpoint n fetch_endpoints =
    first_without n.endpoints n.simple_descriptors (back fetch_endpoints)

-- `removeFetchEndpoint`: the loop's `e` is a copy, so that assigning to it changes nothing.
unfoldable pub remove_fetch_endpoint : ℕ → List ℕ → List ℕ
remove_fetch_endpoint ep [] = []
remove_fetch_endpoint ep (x ∷ xs) =
    if ep == 255
    then pop_back (x ∷ xs)
    else if contains (x ∷ xs) ep
    then pop_back (x ∷ xs)
    else x ∷ xs

pop_back-append : (xs : List ℕ) (y : ℕ) → pop_back (xs ++ y ∷ []) ≡ xs
pop_back-append [] y = refl
pop_back-append (x ∷ []) y = refl
pop_back-append (x ∷ x' ∷ xs) y = ap (◌∷◌ x) (pop_back-append (x' ∷ xs) y)

back-append : (xs : List ℕ) (y : ℕ) → back (xs ++ y ∷ []) ≡ some y
back-append [] y = refl
back-append (x ∷ []) y = refl
back-append (x ∷ x' ∷ xs) y = back-append (x' ∷ xs) y

-- What `removeFetchEndpoint` of `ep` leaves of the endpoints `xs` and behind them `y`.
abbrev pub LeavesOf : List ℕ → ℕ → ℕ → Type 0
LeavesOf xs y ep =
    (((ep ≡ 255) ⊎ (contains (xs ++ y ∷ []) ep ≡ true))
      × (remove_fetch_endpoint ep (xs ++ y ∷ []) ≡ xs))
    ⊎ ((ep ≢ 255)
        × (contains (xs ++ y ∷ []) ep ≡ false)
        × (remove_fetch_endpoint ep (xs ++ y ∷ []) ≡ xs ++ y ∷ []))

remove_fetch_endpoint-cons :
    (x ep : ℕ) (xs : List ℕ)
    → remove_fetch_endpoint ep (x ∷ xs)
      ≡ (if (ep == 255) || contains (x ∷ xs) ep then pop_back (x ∷ xs) else x ∷ xs)
unfolding remove_fetch_endpoint
remove_fetch_endpoint-cons x ep xs = ground arith

removes_last :
    (ep : ℕ) (xs : List ℕ) (y : ℕ)
    → remove_fetch_endpoint ep (xs ++ y ∷ [])
      ≡ (if (ep == 255) || contains (xs ++ y ∷ []) ep then xs else xs ++ y ∷ [])
removes_last ep [] y = remove_fetch_endpoint-cons y ep []
removes_last ep (x ∷ xs) y =
    remove_fetch_endpoint-cons x ep (xs ++ y ∷ [])
    ∙ ap (λ l. if (ep == 255) || contains (x ∷ xs ++ y ∷ []) ep then l else x ∷ xs ++ y ∷ [])
        (pop_back-append (x ∷ xs) y)

removal_cases : (xs : List ℕ) (y ep : ℕ) → LeavesOf xs y ep
removal_cases xs y ep = elim (Bool-cases (ep == 255)) [
  | inl all ↦ inl (inl (ground arith), removes_last ep xs y ∙ rw all refl)
  | inr one ↦ elim (Bool-cases (contains (xs ++ y ∷ []) ep)) [
    | inl there ↦ inl (inr there, removes_last ep xs y ∙ rw (one, there) refl)
    | inr away ↦ inr (ground arith, away, removes_last ep xs y ∙ rw (one, away) refl)
  ]
]

-- What `getNextUnfetchedEndpoint` gives, with the endpoints `feps` to fetch again: the first of the
-- node's endpoints without a simple descriptor, else the last of these.
abbrev pub NextOf : NodeInfo → List ℕ → Option ℕ → Type 0
NextOf n feps next =
    ((before : List ℕ) × (ep : ℕ) × (after : List ℕ) × (n.endpoints ≡ before ++ ep ∷ after)
      × All (λ e. contains n.simple_descriptors e ≡ true) before
      × (contains n.simple_descriptors ep ≡ false)
      × (next ≡ some ep))
    ⊎ (All (λ e. contains n.simple_descriptors e ≡ true) n.endpoints × (next ≡ back feps))

searched :
    (eps sds : List ℕ) (other : Option ℕ)
    → ((before : List ℕ) × (ep : ℕ) × (after : List ℕ) × (eps ≡ before ++ ep ∷ after)
        × All (λ e. contains sds e ≡ true) before
        × (contains sds ep ≡ false)
        × (first_without eps sds other ≡ some ep))
      ⊎ (All (λ e. contains sds e ≡ true) eps × (first_without eps sds other ≡ other))
unfolding first_without
searched [] sds other = inr (tt, refl)
searched (x ∷ eps) sds other = elim (Bool-cases (contains sds x)) [
  | inr unknown ↦ inl ([], x, eps, refl, tt, unknown, rw unknown refl)
  | inl known ↦ elim (searched eps sds other) [
    | inl (before, ep, after, e, k, u, f) ↦
        inl (x ∷ before, ep, after, ap (λ l. x ∷ l) e, (known, k), u, rw known f)
    | inr (k, f) ↦ inr ((known, k), rw known f)
  ]
]

-- The endpoint to fetch next is the first of the node that has no simple descriptor, and with all of
-- these known it is the last of the endpoints to fetch again, `xs` and `y`, and none if there is
-- nothing to fetch again. To remove an endpoint that is among them, or 255, takes away the last one,
-- `y`, also when it is another that is named; to remove one that is not among them changes nothing.
pub fetch_endpoints_lem :
    (n : NodeInfo) (xs : List ℕ) (y ep : ℕ)
    → NextOf n (xs ++ y ∷ []) (get_next_unfetched_endpoint n (xs ++ y ∷ []))
      × (back (xs ++ y ∷ []) ≡ some y)
      × NextOf n [] (get_next_unfetched_endpoint n [])
      × LeavesOf xs y ep
unfolding get_next_unfetched_endpoint
fetch_endpoints_lem n xs y ep = (
  searched n.endpoints n.simple_descriptors (back (xs ++ y ∷ [])),
  back-append xs y,
  searched n.endpoints n.simple_descriptors none,
  removal_cases xs y ep,
)
