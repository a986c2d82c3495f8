-- ===== src/Command/Encode.antt =====
-- src/common/zm_protocol.c: `zm_protocol_command2buffer`, from a command to bytes.
use deconz.Prelude.{
  ℕ, zero, suc, ◌+◌, ◌*◌, ◌%◌, Option, none, some, List, [], ◌∷◌, ◌++◌, ltb, leb, ◌==◌,
  if◌then◌else◌, get_or, get_elem?, drop, length,
}
use deconz.BufferHelper.{BufferHelper}
use deconz.Command.{
  Command, TypeDescr, type_table, get_u16, write, zm_header_length, zm_max_buffer_len, zm_cmd_ack,
}

-- `pb`, `rp` and `max_len` of `zm_protocol_command2buffer`: the bytes written, the read offset, and
-- the limit, which `case 'B'` and `case 'H'` use as their counter.
pub record Writer : Type 0 where
  pub out : List ℕ
  pub rp : ℕ
  pub max_len : ℕ

-- The `n` bytes from offset `i` on that a `memcpy` reads, whether they lie in the union or behind it,
-- where they are given as zero.
abbrev pub cells_from : List ℕ → ℕ → ℕ → List ℕ
cells_from mem i zero = []
cells_from mem i (suc n) = get_or mem i 0 ∷ cells_from mem (i + 1) n

-- `memcpy` of `n` bytes at `rp`
abbrev pub copy : List ℕ → ℕ → Writer → Writer
copy mem n w = record w { out = w.out ++ cells_from mem w.rp n; rp = w.rp + n }

-- The bytes of a string with the zero that ends it.
unfoldable pub until_zero : List ℕ → List ℕ
until_zero [] = []
until_zero (b ∷ bs) = let rest = until_zero bs in if b == 0 then b ∷ [] else b ∷ rest

-- `buffer.len`
abbrev pub buffer_len : List ℕ → ℕ
buffer_len mem = get_u16 mem 0

module _ (h : BufferHelper) where
  -- The `switch` over one field; `none` is `return 0`.
  unfoldable pub put_field : List ℕ → ℕ → Writer → Option Writer
  unfolding until_zero
  put_field mem f w =
      if f == b'c'
      then some (record w { out = w.out ++ h.put_u8_le (get_or mem w.rp 0); rp = w.rp + 1 })
      else if f == b'h'
      then some (copy mem 2 w)
      else if f == b'i'
      then some (copy mem 4 w)
      else if f == b'e'
      then some (copy mem 8 w)
      else if f == b's'
      then some (copy mem (length (until_zero (drop w.rp mem))) w)
      else if f == b'B'
      then some (record (copy mem (get_or mem w.rp 0 + 1) w) { max_len = 0 })
      else if f == b'H'
      then some (record (copy mem (2 * get_or mem w.rp 0 + 1) w) { max_len = 0 })
      else if f == b'D'
      then if ltb zm_max_buffer_len (buffer_len mem)
        then none
        else some (record w {
          out = w.out ++ (h.put_u16_le (buffer_len mem) ++ cells_from mem 2 (buffer_len mem));
        })
      else some w

  unfoldable pub put_fields : List ℕ → List ℕ → Writer → Option Writer
  unfolding put_field
  put_fields mem [] w = some w
  put_fields mem (f ∷ fs) w =
      let rest = put_field mem f w in
      if leb w.max_len (length w.out)
      then none
      else (elim rest [ none ↦ none | some w' ↦ put_fields mem fs w' ])

  -- The length goes to where the two placeholder bytes stand.
  abbrev pub store_length : List ℕ → List ℕ
  store_length out = write out 3 (h.put_u16_le (length out % 65536))

  unfoldable pub put_known : Command → ℕ → Option (List ℕ) → List ℕ
  unfolding put_fields
  put_known c max_len none = []
  put_known c max_len (some fs) =
      elim (put_fields c.payload fs
        (record { out = c.cmd ∷ c.seq ∷ c.status ∷ 0xCD ∷ 0xAB ∷ []; rp = 0; max_len = max_len })) [
          | none ↦ []
          | some w ↦ store_length w.out
        ]

  unfoldable pub put_entry : Command → ℕ → Option TypeDescr → List ℕ
  unfolding put_known
  put_entry c max_len none = []
  put_entry c max_len (some t) = put_known c max_len t.fields

  -- `zm_protocol_command2buffer`, neither pointer null: the bytes of `buf` up to the length that it
  -- returns, none where it returns 0. `version` is not used.
  unfoldable pub command2buffer : Command → ℕ → List ℕ
  unfolding put_entry
  command2buffer c max_len =
      if leb zm_header_length max_len
      then if c.cmd == zm_cmd_ack
        then c.cmd ∷ c.seq ∷ c.status ∷ []
        else put_entry c max_len (get_elem? type_table c.cmd)
      else []
