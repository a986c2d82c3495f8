-- ===== src/Command/Fields.antt =====
-- src/common/zm_protocol.c: what `Type_table` holds. Every field string is one dynamic buffer, or
-- up to four characters, so the two views of a command's union are never mixed.
use deconz.Prelude.{
  ℕ, zero, suc, ◌+◌, ◌≤◌, ◌≡◌, refl, inl, inr, Bool, true, false, ◌&&◌, ◌||◌, none, some, List, [],
  ◌∷◌, arith, ◌==◌, get_elem?, replicate, Bool-cases, length,
}
use native.Mathlib.Nat.{add-zero, zero-add}
use deconz.Command.{TypeDescr, type_table}

-- A field string of the table.
pub data Shape (fs : List ℕ) : Type 0 where
  dynamic : fs ≡ b'D' ∷ [] → Shape fs
  chars : (n : ℕ) → n ≤ 4 → fs ≡ replicate n b'c' → Shape fs

abbrev is_dynamic : List ℕ → Bool
is_dynamic [] = false
is_dynamic (f ∷ []) = f == b'D'
is_dynamic (f ∷ g ∷ fs) = false

abbrev is_chars : ℕ → List ℕ → Bool
is_chars n [] = true
is_chars zero (f ∷ fs) = false
is_chars (suc n) (f ∷ fs) = f == b'c' && is_chars n fs

is_dynamic_lem : (fs : List ℕ) → is_dynamic fs ≡ true → fs ≡ b'D' ∷ []
is_dynamic_lem [] h = cc
is_dynamic_lem (f ∷ []) h = ground arith
is_dynamic_lem (f ∷ g ∷ fs) h = cc

is_chars_lem :
    (k : ℕ) (fs : List ℕ)
    → is_chars k fs ≡ true
    → (length fs ≤ k) × (fs ≡ replicate (length fs) b'c')
is_chars_lem k [] h = (omega arith, refl)
is_chars_lem zero (f ∷ fs) h = cc
is_chars_lem (suc k) (f ∷ fs) h = ground (arith, is_chars_lem k fs)

abbrev entry_ok : ℕ → TypeDescr → Bool
entry_ok i t =
    t.cmd == i && elim t.fields [ none ↦ true | some fs ↦ is_dynamic fs || is_chars 4 fs ]

abbrev all_from {ℓ} : {A : Type ℓ} → (ℕ → A → Bool) → ℕ → List A → Bool
all_from test i [] = true
all_from test i (x ∷ xs) = test i x && all_from test (i + 1) xs

all_from_at {ℓ} :
    {A : Type ℓ} (test : ℕ → A → Bool) (k : ℕ) (xs : List A) (i : ℕ) (x : A)
    → all_from test k xs ≡ true
    → get_elem? xs i ≡ some x
    → test (k + i) x ≡ true
all_from_at test k [] i x h e = cc
all_from_at test k (y ∷ xs) zero x h e = rw add-zero (ground arith)
all_from_at test k (y ∷ xs) (suc i) x h e =
    rw (add_suc_one k i) (all_from_at test (k + 1) xs i x (ground arith) e)
  where
    add_suc_one : (a b : ℕ) → a + suc b ≡ a + 1 + b
    add_suc_one a b = omega arith

table_ok : all_from entry_ok 0 type_table ≡ true
table_ok = refl

-- Every entry stands at its own command id, and its field string has one of the shapes.
pub type_table-Shape :
    (cmd : ℕ) (t : TypeDescr)
    → get_elem? type_table cmd ≡ some t
    → (t.cmd ≡ cmd) × ((fs : List ℕ) → t.fields ≡ some fs → Shape fs)
type_table-Shape cmd t e = (ground (arith, checked), λ fs h. shape fs (ground (arith, checked)))
  where
    checked : entry_ok cmd t ≡ true
    checked = rw zero-add at (all_from_at entry_ok 0 type_table cmd t table_ok e)

    shape : (fs : List ℕ) → (is_dynamic fs || is_chars 4 fs) ≡ true → Shape fs
    shape fs h = elim (Bool-cases (is_dynamic fs)) [
      | inl d ↦ dynamic (is_dynamic_lem fs d)
      | inr d ↦ let (le, e) = is_chars_lem 4 fs (rw d at h) in chars (length fs) le e
    ]
