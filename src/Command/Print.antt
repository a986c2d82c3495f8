-- ===== src/Command/Print.antt =====
-- src/common/zm_protocol.c: what `zm_protocol_command2buffer` writes, and how much.
use deconz.Prelude.{
  ℕ, zero, suc, ◌∙◌, ◌+◌, ◌/◌, ◌%◌, ◌≤◌, ◌<◌, ◌≡◌, refl, ap, inl, inr, some, List, [], ◌∷◌, arith,
  leb, leb→le, get_elem?, get_or, replicate, Bool-cases, Option-cases, length, take, drop,
  length-take, length-drop,
}
use deconz.BufferHelper.{BufferHelper, IsLittleEndian}
use deconz.Command.{Command, TypeDescr, type_table, zm_max_buffer_len}
use deconz.Command.Encode.{buffer_len, cells_from, put_fields, put_known, put_entry, command2buffer}
use deconz.Command.Fields.{Shape, dynamic, chars, type_table-Shape}

-- The union's memory is that of the largest view, `zm_buffer`, and holds bytes.
pub record IsUnion (mem : List ℕ) : Type 0 where
  pub size : length mem ≡ 118
  pub bytes : (i : ℕ) → get_or mem i 0 < 256

-- The bytes of the dynamic buffer that count.
abbrev pub buffer_data : List ℕ → List ℕ
buffer_data mem = take (buffer_len mem) (drop 2 mem)

pub length-buffer_data :
    (mem : List ℕ)
    → length mem ≡ 118
    → buffer_len mem ≤ zm_max_buffer_len
    → length (buffer_data mem) ≡ buffer_len mem
length-buffer_data mem size short =
    omega (arith, length-take (buffer_len mem) (drop 2 mem), length-drop 2 mem)

pub buffer_len-lt : (mem : List ℕ) → IsUnion mem → buffer_len mem < 65536
buffer_len-lt mem u = omega (arith, u.bytes 0, u.bytes 1)

-- What is written for a dynamic buffer.
abbrev pub dynamic_frame : Command → List ℕ
dynamic_frame c =
    let len = buffer_len c.payload in
    c.cmd
    ∷ c.seq
    ∷ c.status
    ∷ ((7 + len) % 256)
    ∷ ((7 + len) / 256)
    ∷ (len % 256)
    ∷ (len / 256)
    ∷ buffer_data c.payload

cells_from-skip :
    (x : ℕ) (mem : List ℕ) (i n : ℕ) → cells_from (x ∷ mem) (suc i) n ≡ cells_from mem i n
cells_from-skip x mem i zero = refl
cells_from-skip x mem i (suc n) =
    let a : suc i + 1 ≡ suc (i + 1) = omega arith in
    rw a (ap (λ ys. get_or mem i 0 ∷ ys) (cells_from-skip x mem (i + 1) n))

-- Inside the union they are its bytes.
cells_from-take :
    (mem : List ℕ) (i n : ℕ) → i + n ≤ length mem → cells_from mem i n ≡ take n (drop i mem)
cells_from-take mem i zero h = refl
cells_from-take [] i (suc n) h = absurd (omega arith)
cells_from-take (x ∷ mem) zero (suc n) h =
    ap (λ ys. x ∷ ys) (cells_from-skip x mem 0 n ∙ cells_from-take mem 0 n (omega arith))
cells_from-take (x ∷ mem) (suc i) (suc n) h =
    cells_from-skip x mem i (suc n) ∙ cells_from-take mem i (suc n) (omega arith)

-- What is written for `n` characters.
abbrev pub chars_frame : Command → ℕ → List ℕ
chars_frame c n = c.cmd ∷ c.seq ∷ c.status ∷ (5 + n) ∷ 0 ∷ cells_from c.payload 0 n

pub length-cells_from : (mem : List ℕ) (i n : ℕ) → length (cells_from mem i n) ≡ n
length-cells_from mem i zero = refl
length-cells_from mem i (suc n) = ap suc (length-cells_from mem (i + 1) n)

module _ {h : BufferHelper} (le : IsLittleEndian h) where
  pub put_dynamic :
      (c : Command) (max_len : ℕ)
      → IsUnion c.payload
      → 5 < max_len
      → buffer_len c.payload ≤ zm_max_buffer_len
      → put_known h c max_len (some (b'D' ∷ [])) ≡ dynamic_frame c
  unfolding put_known put_fields
  put_dynamic c max_len u m short = ground (
    arith,
    buffer_len-lt c.payload u,
    le.put_u16 (buffer_len c.payload),
    le.put_u16 (7 + buffer_len c.payload),
    length-buffer_data c.payload u.size,
    cells_from-take c.payload 2 (buffer_len c.payload) (omega (arith, u.size)),
  )

  pub put_chars :
      (c : Command) (max_len n : ℕ)
      → IsUnion c.payload
      → 8 < max_len
      → n ≤ 4
      → put_known h c max_len (some (replicate n b'c')) ≡ chars_frame c n
  unfolding put_known put_fields
  put_chars c max_len zero u m k = ground (arith, le.put_u16 5)
  put_chars c max_len (suc zero) u m k =
      ground (arith, le.put_u16 6, le.put_u8 (get_or c.payload 0 0), u.bytes 0)
  put_chars c max_len (suc (suc zero)) u m k = ground (
    arith,
    le.put_u16 7,
    le.put_u8 (get_or c.payload 0 0),
    u.bytes 0,
    le.put_u8 (get_or c.payload 1 0),
    u.bytes 1,
  )
  put_chars c max_len (suc (suc (suc zero))) u m k = ground (
    arith,
    le.put_u16 8,
    le.put_u8 (get_or c.payload 0 0),
    u.bytes 0,
    le.put_u8 (get_or c.payload 1 0),
    u.bytes 1,
    le.put_u8 (get_or c.payload 2 0),
    u.bytes 2,
  )
  put_chars c max_len (suc (suc (suc (suc zero)))) u m k = ground (
    arith,
    le.put_u16 9,
    le.put_u8 (get_or c.payload 0 0),
    u.bytes 0,
    le.put_u8 (get_or c.payload 1 0),
    u.bytes 1,
    le.put_u8 (get_or c.payload 2 0),
    u.bytes 2,
    le.put_u8 (get_or c.payload 3 0),
    u.bytes 3,
  )
  put_chars c max_len (suc (suc (suc (suc (suc n))))) u m k = absurd (omega arith)

  -- A dynamic buffer that is too long is refused.
  pub put_long :
      (c : Command) (max_len : ℕ)
      → zm_max_buffer_len < buffer_len c.payload
      → put_known h c max_len (some (b'D' ∷ [])) ≡ []
  unfolding put_known put_fields
  put_long c max_len long = ground arith

  length-put_shape :
      (c : Command) (fs : List ℕ)
      → IsUnion c.payload
      → Shape fs
      → length (put_known h c 196 (some fs)) ≤ 123
  length-put_shape c fs u (dynamic e) = elim (Bool-cases (leb (buffer_len c.payload) 116)) [
    | inl short ↦
        rw (e, put_dynamic c 196 u (omega arith) (ground arith))
          (omega (arith, length-buffer_data c.payload u.size (ground arith), leb→le _ _ short))
    | inr long ↦ rw (e, put_long c 196 (ground arith)) (omega arith)
  ]
  length-put_shape c fs u (chars n k e) =
      rw (e, put_chars c 196 n u (omega arith) k) (omega (arith, length-cells_from c.payload 0 n))

  length-put_entry :
      (c : Command) (t : TypeDescr)
      → IsUnion c.payload
      → ((fs : List ℕ) → t.fields ≡ some fs → Shape fs)
      → length (put_entry h c 196 (some t)) ≤ 123
  unfolding put_entry
  length-put_entry c t u shape = elim (Option-cases t.fields) [
    | inl e ↦ rw e (unfold put_known in omega arith)
    | inr (fs, e) ↦ rw e (length-put_shape c fs u (shape fs e))
  ]

  -- No command with a whole union of bytes takes more than 123 bytes, so none overflows a transmit
  -- buffer of 196 bytes, whatever its id and header are. The stores are little endian.
  pub length-command2buffer :
      (c : Command) → IsUnion c.payload → length (command2buffer h c 196) ≤ 123
  unfolding command2buffer
  length-command2buffer c u = elim (Option-cases (get_elem? type_table c.cmd)) [
    | inl e ↦ rw e (unfold put_entry in ground arith)
    | inr (t, e) ↦ rw e (ground (arith, length-put_entry c t u (type_table-Shape c.cmd t e).1))
  ]
