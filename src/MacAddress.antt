-- ===== src/MacAddress.antt =====
-- src/zm_controller.cpp and src/db_nodes.cpp: how the 64 bit address of a node is written to the
-- database, and how it is read from it. Characters are their codes.
pub mod RoundTrip
mod Tests
use deconz.Prelude.{
  ℕ, zero, suc, ◌+◌, ◌-◌, ◌*◌, ◌/◌, ◌%◌, ◌^◌, Bool, true, false, not, ◌&&◌, ◌||◌, Option, none,
  some, List, [], ◌∷◌, ◌++◌, ltb, leb, ◌==◌, if◌then◌else◌, get_or, take,
}

abbrev pub lookup : List ℕ
lookup =
    b'0' ∷ b'1' ∷ b'2' ∷ b'3' ∷ b'4' ∷ b'5' ∷ b'6' ∷ b'7' ∷ b'8' ∷ b'9' ∷ b'a' ∷ b'b' ∷ b'c' ∷ b'd'
    ∷ b'e' ∷ b'f' ∷ []

-- The loop of `generateUniqueId2`, with `n` bytes left.
abbrev pub unique_id_loop : ℕ → ℕ → List ℕ
unique_id_loop zero ext = []
unique_id_loop (suc n) ext =
    let hex = ext / 2 ^ 56 % 256 in
    let rest = unique_id_loop n (ext * 256 % 2 ^ 64) in
    get_or lookup (hex / 16) 0 ∷ get_or lookup (hex % 16) 0 ∷ (if n == 0 then rest else b':' ∷ rest)

-- `generateUniqueId2`: what it writes to a buffer of the given size.
unfoldable pub generate_unique_id2 : ℕ → ℕ → List ℕ
generate_unique_id2 ext buflen =
    if ltb buflen 24 then (if ltb 0 buflen then 0 ∷ [] else []) else unique_id_loop 8 ext ++ 0 ∷ []

-- `strtoull` of base 16, by the C standard: blanks, a sign, 0x before a digit, then digits.
abbrev pub is_space : ℕ → Bool
is_space c = (c == 32) || (leb 9 c && leb c 13)

abbrev pub hex_digit : ℕ → Option ℕ
hex_digit c =
    if leb 48 c && leb c 57
    then some (c - 48)
    else if leb 97 c && leb c 102
    then some (c - 87)
    else if leb 65 c && leb c 70
    then some (c - 55)
    else none

abbrev pub is_digit : ℕ → Bool
is_digit c = elim (hex_digit c) [ none ↦ false | some d ↦ true ]

abbrev pub digits : List ℕ → ℕ → ℕ
digits [] acc = acc
digits (c ∷ cs) acc = elim (hex_digit c) [ none ↦ acc | some d ↦ digits cs (acc * 16 + d) ]

abbrev pub skip_prefix : List ℕ → List ℕ
skip_prefix (z ∷ x ∷ c ∷ cs) =
    if (z == b'0') && (((x == b'x') || (x == b'X')) && is_digit c) then c ∷ cs else z ∷ x ∷ c ∷ cs
skip_prefix cs = cs

-- The value of the digits after the sign; `none` is ERANGE.
abbrev pub in_range : Bool → ℕ → Option ℕ
in_range minus v =
    if ltb v (2 ^ 64) then some (if minus then (2 ^ 64 - v) % 2 ^ 64 else v) else none

abbrev pub signed : List ℕ → Option ℕ
signed [] = some 0
signed (c ∷ cs) =
    if c == b'-'
    then in_range true (digits (skip_prefix cs) 0)
    else if c == b'+'
    then in_range false (digits (skip_prefix cs) 0)
    else in_range false (digits (skip_prefix (c ∷ cs)) 0)

abbrev pub strtoull : List ℕ → Option ℕ
strtoull [] = some 0
strtoull (c ∷ cs) = let later = strtoull cs in if is_space c then later else signed (c ∷ cs)

-- The loop of `DB_ParseMacAddress`, without the NUL that ends the buffer.
abbrev pub without_colons : List ℕ → List ℕ
without_colons [] = []
without_colons (c ∷ cs) = let rest = without_colons cs in if c == b':' then rest else c ∷ rest

-- `DB_ParseMacAddress`; `mac` is what is read, which `len` says the length of.
unfoldable pub db_parse_mac_address : List ℕ → ℕ → ℕ
db_parse_mac_address mac len =
    if len == 23
    then elim (strtoull (without_colons (take len mac))) [ none ↦ 0 | some ext_addr ↦ ext_addr ]
    else 0
