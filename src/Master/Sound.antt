-- ===== src/Master/Sound.antt =====
-- src/zm_master.cpp: what holds of the queue at all times, and what keeps it.
use deconz.Prelude.{◌≤◌, ◌≡◌, sym, subst, Bool, true, false, List, arith, if◌then◌else◌}
use deconz.Master.{Master, Signal}
use deconz.Master.Ring.{IsRing}
use deconz.Master.Consistent.{IsConsistent, consistent_same}

-- Consistent items, a ring, and at most two unconfirmed commands.
pub record IsSound (m : Master) : Type 0 where
  pub consistent : IsConsistent m
  pub ring : IsRing m.aps
  pub few : m.q_items_wait_confirm ≤ 2

-- A step that leaves the ring and the number of unconfirmed commands.
pub sound_keeps :
    (m m' : Master)
    → IsSound m
    → IsConsistent m'
    → m'.aps ≡ m.aps
    → m'.q_items_wait_confirm ≡ m.q_items_wait_confirm
    → IsSound m'
sound_keeps m m' s c aps wc = record {
  consistent = c;
  ring = subst IsRing (sym aps) s.ring;
  few = omega (arith, wc, s.few);
}

-- A step that leaves all that counts.
pub sound_same :
    (m m' : Master)
    → IsSound m
    → m'.q_items ≡ m.q_items
    → m'.q_items_wait_send ≡ m.q_items_wait_send
    → m'.q_items_wait_confirm ≡ m.q_items_wait_confirm
    → m'.seq ≡ m.seq
    → m'.aps ≡ m.aps
    → IsSound m'
sound_same m m' s items ws wc seq aps =
    sound_keeps m m' s (consistent_same m m' s.consistent items ws wc seq) aps wc

-- A choice keeps what both sides keep.
pub if_all {ℓ κ} :
    {A : Type ℓ} (P : A → Type κ) (b : Bool) (x y : A) → P x → P y → P (if b then x else y)
if_all P true x y p q = p
if_all P false x y p q = q

-- A step's result, with signals, or with what it returned as well.
abbrev pub Sounds : Master × List Signal → Type 0
Sounds r = IsSound r.0

abbrev pub SoundsThen {ℓ} : {A : Type ℓ} → A × Master × List Signal → Type 0
SoundsThen r = IsSound r.1
