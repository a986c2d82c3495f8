-- ===== src/MacAddress/Tests.antt =====
-- Addresses written to the database and read from it.
use deconz.Prelude.{ℕ, ◌≡◌, refl, List, [], ◌∷◌, ◌++◌, arith, length}
use deconz.MacAddress.{generate_unique_id2, db_parse_mac_address}
use deconz.MacAddress.RoundTrip.{db_parse_mac_address-generate_unique_id2}

db_parse_mac_address-generate_unique_id2_example :
    (mac : List ℕ) × (generate_unique_id2 0x00212EFFFF001234 24 ≡ mac ++ 0 ∷ [])
    × (length mac ≡ 23)
    × (db_parse_mac_address mac 23 ≡ 0x00212EFFFF001234)
db_parse_mac_address-generate_unique_id2_example =
    db_parse_mac_address-generate_unique_id2 0x00212EFFFF001234 24 (omega arith) (omega arith)

-- A buffer without room holds the empty string, and an empty one is not written to.
no_room : (generate_unique_id2 0x1234 23 ≡ 0 ∷ []) × (generate_unique_id2 0x1234 0 ≡ [])
unfolding generate_unique_id2
no_room = (refl, refl)

-- An x is not read as a digit, and more digits than 64 bits hold are an error, which gives 0.
odd_texts :
    (db_parse_mac_address
        (b'0' ∷ b'0' ∷ b':' ∷ b'2' ∷ b'1' ∷ b':' ∷ b'x' ∷ b'x' ∷ b':' ∷ b'f' ∷ b'f' ∷ b':' ∷ b'f'
          ∷ b'f' ∷ b':' ∷ b'0' ∷ b'0' ∷ b':' ∷ b'1' ∷ b'2' ∷ b':' ∷ b'3' ∷ b'4' ∷ [])
        23
      ≡ 0x21)
    × (db_parse_mac_address
          (b'f' ∷ b'f' ∷ b'f' ∷ b'f' ∷ b'f' ∷ b'f' ∷ b'f' ∷ b'f' ∷ b'f' ∷ b'f' ∷ b'f' ∷ b'f' ∷ b'f'
            ∷ b'f' ∷ b'f' ∷ b'f' ∷ b'f' ∷ b'f' ∷ b'f' ∷ b'f' ∷ b'f' ∷ b'f' ∷ b'f' ∷ [])
          23
        ≡ 0)
    × (db_parse_mac_address (b'1' ∷ []) 1 ≡ 0)
unfolding db_parse_mac_address
odd_texts = (refl, refl, refl)
