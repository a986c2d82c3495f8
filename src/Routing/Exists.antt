-- ===== src/Routing/Exists.antt =====
-- src/source_routing.cpp: what `sourceRouteExists` decides.
use deconz.Prelude.{
  ℕ, zero, suc, ◌+◌, ◌-◌, ◌≤◌, ◌≡◌, ◌≢◌, refl, ap, ap₂, sym, ◌∙◌, ◌⊎◌, Bool, true, false, List, [],
  ◌∷◌, ◌++◌, ltb, ◌==◌, eq_refl, arith, if◌then◌else◌, length, length-append, drop, Bool-cases, inl,
  inr,
}
use deconz.Node.Neighbors.{Address}
use deconz.Routing.{Route, exts, matches, skip, source_route_exists}

-- The last hops of the route have the extended addresses of `hops`.
abbrev pub EndsWith : List Address → Route → Type 0
EndsWith hops r = (before : List ℕ) × (exts r.hops ≡ before ++ exts hops)

abbrev pub Any : (Route → Type 0) → List Route → Type 0
Any P [] = ⊥
Any P (r ∷ rs) = P r ⊎ Any P rs

length-exts : (hs : List Address) → length (exts hs) ≡ length hs
length-exts [] = refl
length-exts (h ∷ hs) = ap suc (length-exts hs)

length-skip : (n : ℕ) (hs : List Address) → n ≤ length hs → length (skip n hs) ≡ length hs - n
length-skip zero hs h = omega arith
length-skip (suc n) [] h = absurd (omega arith)
length-skip (suc n) (x ∷ hs) h = length-skip n hs (omega arith) ∙ omega arith

exts_split :
    (n : ℕ) (hs : List Address) → (before : List ℕ) × (exts hs ≡ before ++ exts (skip n hs))
exts_split zero hs = ([], refl)
exts_split (suc n) [] = ([], refl)
exts_split (suc n) (h ∷ hs) =
    let (before, e) = exts_split n hs in (h.ext ∷ before, ap (◌∷◌ h.ext) e)

exts-skip :
    (before : List ℕ) (hs : List Address) (rest : List ℕ)
    → exts hs ≡ before ++ rest
    → exts (skip (length before) hs) ≡ rest
exts-skip [] hs rest e = e
exts-skip (b ∷ before) [] rest e = absurd cc
exts-skip (b ∷ before) (h ∷ hs) rest e = exts-skip before hs rest (ap (λ xs. drop 1 xs) e)

matches_all :
    (hs rs : List Address) → length rs ≡ length hs → matches hs rs ≡ length hs → exts rs ≡ exts hs
matches_all [] [] l m = refl
matches_all [] (r ∷ rs) l m = absurd (omega arith)
matches_all (h ∷ hs) [] l m = absurd (omega arith)
matches_all (h ∷ hs) (r ∷ rs) l m = elim (Bool-cases (h.ext == r.ext)) [
  | inl same ↦
      let m' : suc (matches hs rs) ≡ suc (length hs) = rw same at m in
      ap₂ ◌∷◌ (ground arith) (matches_all hs rs (omega arith) (omega arith))
  | inr other ↦ let m' : 0 ≡ suc (length hs) = rw other at m in absurd (omega arith)
]

all_match : (hs rs : List Address) → exts rs ≡ exts hs → matches hs rs ≡ length hs
all_match [] rs e = refl
all_match (h ∷ hs) [] e = absurd cc
all_match (h ∷ hs) (r ∷ rs) e =
    let first : h.ext ≡ r.ext = cc e in
    rw (first, eq_refl r.ext) (ap suc (all_match hs rs (ap (λ xs. drop 1 xs) e)))

-- The test of one route.
ends : List Address → Route → Bool
ends hops r =
    if ltb (length r.hops) (length hops)
    then false
    else matches hops (skip (length r.hops - length hops) r.hops) == length hops

ends-true : (hops : List Address) (r : Route) → ends hops r ≡ true → EndsWith hops r
unfolding ends
ends-true hops r h =
    let n = length r.hops - length hops in
    let (before, e) = exts_split n r.hops in
    let fits : length hops ≤ length r.hops = ground arith in
    let all : matches hops (skip n r.hops) ≡ length hops = ground arith in
    let l : length (skip n r.hops) ≡ length hops =
      length-skip n r.hops (omega arith) ∙ omega arith in
    (before, e ∙ ap (λ xs. before ++ xs) (matches_all hops (skip n r.hops) l all))

true-ends : (hops : List Address) (r : Route) → EndsWith hops r → ends hops r ≡ true
unfolding ends
true-ends hops r (before, e) =
    let l : length r.hops ≡ length before + length hops =
      sym (length-exts r.hops)
      ∙ ap length e
      ∙ length-append before (exts hops)
      ∙ ap (λ n. length before + n) (length-exts hops) in
    let n : length r.hops - length hops ≡ length before = omega arith in
    let all =
      all_match hops (skip (length before) r.hops) (exts-skip before r.hops (exts hops) e) in
    rw (n, all) (ground (arith, eq_refl (length hops)))

exists-cons :
    (hops : List Address) (r : Route) (rs : List Route)
    → source_route_exists hops (r ∷ rs)
      ≡ (if ends hops r then true else source_route_exists hops rs)
unfolding source_route_exists ends
exists-cons hops r rs = ground arith

-- A route counts as there exactly if some route of the list ends with its hops, by their extended
-- addresses, whatever comes before these.
pub source_route_exists_iff :
    (hops : List Address) (routes : List Route)
    → (source_route_exists hops routes ≡ true → Any (EndsWith hops) routes)
      × (Any (EndsWith hops) routes → source_route_exists hops routes ≡ true)
unfolding source_route_exists
source_route_exists_iff hops [] = (λ h. cc, λ h. absurd h)
source_route_exists_iff hops (r ∷ rs) =
    let (to, from) = source_route_exists_iff hops rs in
    elim (Bool-cases (ends hops r)) [
      | inl is_end ↦
          (λ h. inl (ends-true hops r is_end), λ h. exists-cons hops r rs ∙ rw is_end refl)
      | inr not_end ↦ (
        λ h. inr (to (sym (exists-cons hops r rs ∙ rw not_end refl) ∙ h)),
        λ h. elim h [
          | inl ends_so ↦ absurd (false_true (sym not_end ∙ true-ends hops r ends_so))
          | inr later ↦ exists-cons hops r rs ∙ rw not_end (from later)
        ],
      )
    ]
  where
    false_true : false ≢ true
    false_true e = cc
