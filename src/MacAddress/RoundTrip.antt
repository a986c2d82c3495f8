-- ===== src/MacAddress/RoundTrip.antt =====
-- src/zm_controller.cpp and src/db_nodes.cpp: an address that is written is read again.
use deconz.Prelude.{
  ℕ, zero, suc, ◌+◌, ◌*◌, ◌/◌, ◌%◌, ◌^◌, ◌<◌, ◌≤◌, ◌≡◌, refl, ap, ◌∙◌, Bool, true, false, ◌||◌,
  none, some, List, [], ◌∷◌, ◌++◌, ltb, ◌==◌, if◌then◌else◌, get_or, length, arith, Bool-cases, inl,
  inr,
}
use deconz.MacAddress.{
  lookup, unique_id_loop, generate_unique_id2, is_space, hex_digit, digits, skip_prefix, in_range,
  strtoull, without_colons, db_parse_mac_address,
}

-- The characters of a list are the digits from `n` on.
abbrev Digits : ℕ → List ℕ → Type 0
Digits n [] = Unit
Digits n (c ∷ cs) = (hex_digit c ≡ some n) × Digits (suc n) cs

digit_at :
    (cs : List ℕ) (n i : ℕ) → Digits n cs → i < length cs → hex_digit (get_or cs i 0) ≡ some (n + i)
digit_at [] n i ds h = absurd (omega arith)
digit_at (c ∷ cs) n zero ds h = ds.0 ∙ ap some (omega arith)
digit_at (c ∷ cs) n (suc i) ds h = digit_at cs (suc n) i ds.1 (omega arith) ∙ ap some (omega arith)

lookup_digit : (i : ℕ) → i < 16 → hex_digit (get_or lookup i 0) ≡ some i
lookup_digit i h =
    digit_at lookup 0 i
      (
        refl,
        (
          refl,
          (
            refl,
            (
              refl,
              (
                refl,
                (
                  refl,
                  (
                    refl,
                    (refl, (refl, (refl, (refl, (refl, (refl, (refl, (refl, (refl, tt))))))))),
                  ),
                ),
              ),
            ),
          ),
        ),
      )
      h
    ∙ ap some (omega arith)

-- A digit is none of the other characters.
digit_only :
    (c d : ℕ)
    → hex_digit c ≡ some d
    → (is_space c ≡ false)
      × ((c == b':') ≡ false)
      × ((c == b'-') ≡ false)
      × ((c == b'+') ≡ false)
      × (((c == b'x') || (c == b'X')) ≡ false)
digit_only c d e = (ground arith, ground arith, ground arith, ground arith, ground arith)

-- The digits that are written, without the colons.
abbrev plain : ℕ → ℕ → List ℕ
plain zero ext = []
plain (suc n) ext =
    let hex = ext / 2 ^ 56 % 256 in
    get_or lookup (hex / 16) 0 ∷ get_or lookup (hex % 16) 0 ∷ plain n (ext * 256 % 2 ^ 64)

-- Their value.
abbrev value : ℕ → ℕ → ℕ → ℕ
value zero ext acc = acc
value (suc n) ext acc = value n (ext * 256 % 2 ^ 64) (acc * 256 + ext / 2 ^ 56 % 256)

keeps :
    (c d : ℕ) (cs : List ℕ) → hex_digit c ≡ some d → without_colons (c ∷ cs) ≡ c ∷ without_colons cs
keeps c d cs e = let (_, not_colon, _, _, _) = digit_only c d e in rw not_colon refl

drops : (b : Bool) (cs : List ℕ) → without_colons (if b then cs else b':' ∷ cs) ≡ without_colons cs
drops true cs = refl
drops false cs = refl

reads_digit :
    (c d acc : ℕ) (cs : List ℕ)
    → hex_digit c ≡ some d
    → digits (c ∷ cs) acc ≡ digits cs (acc * 16 + d)
reads_digit c d acc cs e = ap (λ o. elim o [ none ↦ acc | some d ↦ digits cs (acc * 16 + d) ]) e

without_colons-unique_id_loop : (n ext : ℕ) → without_colons (unique_id_loop n ext) ≡ plain n ext
without_colons-unique_id_loop zero ext = refl
without_colons-unique_id_loop (suc n) ext =
    let hex = ext / 2 ^ 56 % 256 in
    let rest = unique_id_loop n (ext * 256 % 2 ^ 64) in
    let tail_ = if n == 0 then rest else b':' ∷ rest in
    let high = get_or lookup (hex / 16) 0 in
    let low = get_or lookup (hex % 16) 0 in
    keeps high (hex / 16) (low ∷ tail_) (lookup_digit (hex / 16) (omega arith))
    ∙ ap (λ cs. high ∷ cs)
        (keeps low (hex % 16) tail_ (lookup_digit (hex % 16) (omega arith))
          ∙ ap (λ cs. low ∷ cs)
              (drops (n == 0) rest ∙ without_colons-unique_id_loop n (ext * 256 % 2 ^ 64)))

digits-plain : (n ext acc : ℕ) → digits (plain n ext) acc ≡ value n ext acc
digits-plain zero ext acc = refl
digits-plain (suc n) ext acc =
    let hex = ext / 2 ^ 56 % 256 in
    let a = lookup_digit (hex / 16) (omega arith) in
    let b = lookup_digit (hex % 16) (omega arith) in
    let low = get_or lookup (hex % 16) 0 in
    let rest = plain n (ext * 256 % 2 ^ 64) in
    reads_digit (get_or lookup (hex / 16) 0) (hex / 16) acc (low ∷ rest) a
    ∙ reads_digit low (hex % 16) (acc * 16 + hex / 16) rest b
    ∙ digits-plain n (ext * 256 % 2 ^ 64) ((acc * 16 + hex / 16) * 16 + hex % 16)
    ∙ ap (value n (ext * 256 % 2 ^ 64)) (omega arith)

value_1 : (ext acc : ℕ) → ext < 2 ^ 64 → value 1 ext acc ≡ acc * 256 + ext / 2 ^ 56
value_1 ext acc h = omega arith

value_2 : (ext acc : ℕ) → ext < 2 ^ 64 → value 2 ext acc ≡ acc * 2 ^ 16 + ext / 2 ^ 48
value_2 ext acc h =
    omega (arith, value_1 (ext * 256 % 2 ^ 64) (acc * 256 + ext / 2 ^ 56 % 256) (omega arith))

value_3 : (ext acc : ℕ) → ext < 2 ^ 64 → value 3 ext acc ≡ acc * 2 ^ 24 + ext / 2 ^ 40
value_3 ext acc h =
    omega (arith, value_2 (ext * 256 % 2 ^ 64) (acc * 256 + ext / 2 ^ 56 % 256) (omega arith))

value_4 : (ext acc : ℕ) → ext < 2 ^ 64 → value 4 ext acc ≡ acc * 2 ^ 32 + ext / 2 ^ 32
value_4 ext acc h =
    omega (arith, value_3 (ext * 256 % 2 ^ 64) (acc * 256 + ext / 2 ^ 56 % 256) (omega arith))

value_5 : (ext acc : ℕ) → ext < 2 ^ 64 → value 5 ext acc ≡ acc * 2 ^ 40 + ext / 2 ^ 24
value_5 ext acc h =
    omega (arith, value_4 (ext * 256 % 2 ^ 64) (acc * 256 + ext / 2 ^ 56 % 256) (omega arith))

value_6 : (ext acc : ℕ) → ext < 2 ^ 64 → value 6 ext acc ≡ acc * 2 ^ 48 + ext / 2 ^ 16
value_6 ext acc h =
    omega (arith, value_5 (ext * 256 % 2 ^ 64) (acc * 256 + ext / 2 ^ 56 % 256) (omega arith))

value_7 : (ext acc : ℕ) → ext < 2 ^ 64 → value 7 ext acc ≡ acc * 2 ^ 56 + ext / 2 ^ 8
value_7 ext acc h =
    omega (arith, value_6 (ext * 256 % 2 ^ 64) (acc * 256 + ext / 2 ^ 56 % 256) (omega arith))

value_8 : (ext acc : ℕ) → ext < 2 ^ 64 → value 8 ext acc ≡ acc * 2 ^ 64 + ext
value_8 ext acc h =
    omega (arith, value_7 (ext * 256 % 2 ^ 64) (acc * 256 + ext / 2 ^ 56 % 256) (omega arith))

-- A string of digits, the second of which is not an x, is read as it stands.
strtoull-digits :
    (c c' d d' : ℕ) (cs : List ℕ)
    → hex_digit c ≡ some d
    → hex_digit c' ≡ some d'
    → strtoull (c ∷ c' ∷ cs) ≡ in_range false (digits (c ∷ c' ∷ cs) 0)
strtoull-digits c c' d d' [] e e' =
    let (space, _, minus, plus, _) = digit_only c d e in rw (space, minus, plus) refl
strtoull-digits c c' d d' (x ∷ cs) e e' =
    let (space, _, minus, plus, _) = digit_only c d e in
    let (_, _, _, _, not_x) = digit_only c' d' e' in
    let same : skip_prefix (c ∷ c' ∷ x ∷ cs) ≡ c ∷ c' ∷ x ∷ cs = elim (Bool-cases (c == b'0')) [
      | inl z ↦ rw (z, not_x) refl
      | inr z ↦ rw z refl
    ] in
    rw (space, minus, plus) (ap (λ l. in_range false (digits l 0)) same)

strtoull-plain :
    (n ext : ℕ) → strtoull (plain (suc n) ext) ≡ in_range false (digits (plain (suc n) ext) 0)
strtoull-plain n ext =
    let hex = ext / 2 ^ 56 % 256 in
    strtoull-digits (get_or lookup (hex / 16) 0) (get_or lookup (hex % 16) 0) (hex / 16) (hex % 16)
      (plain n (ext * 256 % 2 ^ 64)) (lookup_digit (hex / 16) (omega arith))
      (lookup_digit (hex % 16) (omega arith))

in_range_small : (v : ℕ) → v < 2 ^ 64 → in_range false v ≡ some v
in_range_small v h = let e : ltb v (2 ^ 64) ≡ true = ground arith in rw e refl

-- A 64 bit address that `generateUniqueId2` writes to a buffer with room for it is 23 characters and a NUL, and
-- `DB_ParseMacAddress` reads the address from these characters.
pub db_parse_mac_address-generate_unique_id2 :
    (ext buflen : ℕ)
    → ext < 2 ^ 64
    → 24 ≤ buflen
    → (mac : List ℕ) × (generate_unique_id2 ext buflen ≡ mac ++ 0 ∷ [])
      × (length mac ≡ 23)
      × (db_parse_mac_address mac 23 ≡ ext)
unfolding generate_unique_id2 db_parse_mac_address
db_parse_mac_address-generate_unique_id2 ext buflen h room =
    let fits : ltb buflen 24 ≡ false = ground arith in
    let hex = ext / 2 ^ 56 % 256 in
    let last : 0 * 2 ^ 64 + ext ≡ ext = omega arith in
    let worth : digits (plain 8 ext) 0 ≡ ext = digits-plain 8 ext 0 ∙ value_8 ext 0 h ∙ last in
    let read : strtoull (without_colons (unique_id_loop 8 ext)) ≡ some ext =
      ap strtoull (without_colons-unique_id_loop 8 ext)
      ∙ strtoull-plain 7 ext
      ∙ ap (in_range false) worth
      ∙ in_range_small ext h in
    (
      unique_id_loop 8 ext,
      rw fits refl,
      refl,
      ap (λ o. elim o [ none ↦ 0 | some ext_addr ↦ ext_addr ]) read,
    )
