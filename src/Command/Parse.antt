-- ===== src/Command/Parse.antt =====
-- src/common/zm_protocol.c: `zm_protocol_buffer2command` on what the other side wrote, and on
-- anything.
use deconz.Prelude.{
  ℕ, zero, suc, ◌+◌, ◌-◌, ◌*◌, ◌/◌, ◌%◌, ◌≤◌, ◌≡◌, ◌≢◌, refl, ap, ap₂, ◌∙◌, inl, inr, false, Option,
  none, some, List, [], ◌∷◌, arith, ◌==◌, ne→eq-false, leb, leb→le, get_elem?, get_or, replicate,
  set, Bool-cases, length, take, drop, take_all,
}
use deconz.BufferHelper.{BufferHelper, IsLittleEndian}
use deconz.Command.{
  Command, TypeDescr, ParseStatus, parse_ok, type_table, write, zm_cmd_ack, zm_max_buffer_len,
  get_u16,
}
use deconz.Command.Decode.{parse_fields, parse_known, parse_entry, buffer2command}
use deconz.Command.Encode.{cells_from, buffer_len, put_known, put_entry, command2buffer}
use deconz.Command.Fields.{Shape, dynamic, chars, type_table-Shape}
use deconz.Command.Print.{
  IsUnion, dynamic_frame, chars_frame, buffer_data, length-buffer_data, put_dynamic, put_chars,
  put_long, length-cells_from,
}

write-cons :
    (x : ℕ) (mem : List ℕ) (i : ℕ) (bs : List ℕ) → write (x ∷ mem) (suc i) bs ≡ x ∷ write mem i bs
write-cons x mem i [] = refl
write-cons x mem i (b ∷ bs) = write-cons x (set mem i b) (suc i) bs

take-write : (mem bs : List ℕ) → length bs ≤ length mem → take (length bs) (write mem 0 bs) ≡ bs
take-write mem [] h = refl
take-write [] (b ∷ bs) h = absurd (omega arith)
take-write (x ∷ mem) (b ∷ bs) h =
    rw (write-cons b mem 0 bs) (ap (◌∷◌ b) (take-write mem bs (omega arith)))

-- A length and a buffer written to a union of enough bytes.
take-write_dynamic :
    (mem bs : List ℕ) (a b : ℕ)
    → 2 + length bs ≤ length mem
    → take (suc (suc (length bs))) (write (write mem 0 (a ∷ b ∷ [])) 2 bs) ≡ a ∷ b ∷ bs
take-write_dynamic [] bs a b h = absurd (omega arith)
take-write_dynamic (x ∷ []) bs a b h = absurd (omega arith)
take-write_dynamic (x ∷ y ∷ mem) bs a b h =
    rw (write-cons a (b ∷ mem) 1 bs, write-cons b mem 0 bs)
      (ap (λ xs. a ∷ b ∷ xs) (take-write mem bs (omega arith)))

-- The length and the buffer as they stand in the union.
take_dynamic :
    (mem : List ℕ)
    → IsUnion mem
    → take (suc (suc (buffer_len mem))) mem
      ≡ (buffer_len mem % 256) ∷ (buffer_len mem / 256) ∷ buffer_data mem
take_dynamic [] u = absurd (omega (arith, u.size))
take_dynamic (x ∷ []) u = absurd (omega (arith, u.size))
take_dynamic (x ∷ y ∷ mem) u = ap₂ (λ a b. a ∷ b ∷ take (x + y * 256) mem) low high
  where
    low : x ≡ (x + y * 256) % 256
    low = omega (arith, u.bytes 0, u.bytes 1)

    high : y ≡ (x + y * 256) / 256
    high = omega (arith, u.bytes 0, u.bytes 1)

-- The first `n` bytes of the union of the command that a frame is parsed to, and of the one sent.
pub record Agrees (c : Command) (n : ℕ) (r : Command × ParseStatus) : Type 0 where
  pub ok : r.1 ≡ parse_ok
  pub cmd : r.0.cmd ≡ c.cmd
  pub seq : r.0.seq ≡ c.seq
  pub status : r.0.status ≡ c.status
  pub payload : take n r.0.payload ≡ take n c.payload

parse_dynamic :
    (c d : Command)
    → IsUnion c.payload
    → length d.payload ≡ 118
    → buffer_len c.payload ≤ zm_max_buffer_len
    → d.cmd ≡ c.cmd
    → d.seq ≡ c.seq
    → d.status ≡ c.status
    → Agrees c
        (suc (suc (buffer_len c.payload)))
        (parse_known (dynamic_frame c) d (some (b'D' ∷ [])))
unfolding parse_known parse_fields
parse_dynamic c d u m short hc hs ht = ground (
  arith,
  length-buffer_data c.payload u.size,
  lens,
  take_all (buffer_data c.payload) (buffer_len c.payload),
  take-write_dynamic d.payload (buffer_data c.payload) (buffer_len c.payload % 256)
      (buffer_len c.payload / 256),
  take_dynamic c.payload u,
)
  where
    lens : get_u16 (dynamic_frame c) 5 ≡ buffer_len c.payload
    lens = omega arith

four_cells :
    (mem : List ℕ)
    → length mem ≡ 118
    → mem ≡ get_or mem 0 0 ∷ get_or mem 1 0 ∷ get_or mem 2 0 ∷ get_or mem 3 0 ∷ drop 4 mem
four_cells (a ∷ b ∷ c ∷ d ∷ mem) h = refl
four_cells (a ∷ b ∷ c ∷ []) h = absurd (omega arith)
four_cells (a ∷ b ∷ []) h = absurd (omega arith)
four_cells (a ∷ []) h = absurd (omega arith)
four_cells [] h = absurd (omega arith)

parse_chars :
    (c d : Command) (n : ℕ)
    → length c.payload ≡ 118
    → length d.payload ≡ 118
    → n ≤ 4
    → d.cmd ≡ c.cmd
    → d.seq ≡ c.seq
    → d.status ≡ c.status
    → Agrees c n (parse_known (chars_frame c n) d (some (replicate n b'c')))
unfolding parse_known parse_fields
parse_chars c d zero u m k hc hs ht = ground arith
parse_chars c d (suc zero) u m k hc hs ht =
    ground (arith, four_cells d.payload m, four_cells c.payload u)
parse_chars c d (suc (suc zero)) u m k hc hs ht =
    ground (arith, four_cells d.payload m, four_cells c.payload u)
parse_chars c d (suc (suc (suc zero))) u m k hc hs ht =
    ground (arith, four_cells d.payload m, four_cells c.payload u)
parse_chars c d (suc (suc (suc (suc zero)))) u m k hc hs ht =
    ground (arith, four_cells d.payload m, four_cells c.payload u)
parse_chars c d (suc (suc (suc (suc (suc n))))) u m k hc hs ht = absurd (omega arith)

-- A frame with a known command and its own length in it gets to its fields.
buffer2command_known :
    (d : Command) (cmd seq status lo hi : ℕ) (rest : List ℕ) (t : TypeDescr)
    → get_elem? type_table cmd ≡ some t
    → t.cmd ≡ cmd
    → 5 + length rest ≡ lo + hi * 256
    → let bytes = cmd ∷ seq ∷ status ∷ lo ∷ hi ∷ rest in
      buffer2command bytes d
      ≡ parse_known bytes (record d { cmd = cmd; seq = seq; status = status }) t.fields
unfolding buffer2command parse_entry
buffer2command_known d cmd seq status lo hi rest t e own len = rw e (ground arith)

module _ {h : BufferHelper} (le : IsLittleEndian h) where
  -- What of the union comes back is what was written of it.
  abbrev pub RoundTrips : Command → Command → List ℕ → Type 0
  RoundTrips c d frame = Agrees c (length frame - 5) (buffer2command frame d)

  dynamic-RoundTrips :
      (c d : Command) (t : TypeDescr)
      → IsUnion c.payload
      → length d.payload ≡ 118
      → buffer_len c.payload ≤ zm_max_buffer_len
      → get_elem? type_table c.cmd ≡ some t
      → t.cmd ≡ c.cmd
      → t.fields ≡ some (b'D' ∷ [])
      → RoundTrips c d (dynamic_frame c)
  dynamic-RoundTrips c d t u m short e own f =
      let l = length-buffer_data c.payload u.size short in
      let n : length (dynamic_frame c) - 5 ≡ suc (suc (buffer_len c.payload)) = omega (arith, l) in
      let len = buffer_len c.payload in
      let rest : List ℕ = (len % 256) ∷ (len / 256) ∷ buffer_data c.payload in
      let lo = (7 + len) % 256 in
      let hi = (7 + len) / 256 in
      let known =
        buffer2command_known d c.cmd c.seq c.status lo hi rest t e own (omega (arith, l)) in
      rw (n, known, f) (parse_dynamic c _ u m short refl refl refl)

  chars-RoundTrips :
      (c d : Command) (t : TypeDescr) (n : ℕ)
      → IsUnion c.payload
      → length d.payload ≡ 118
      → n ≤ 4
      → get_elem? type_table c.cmd ≡ some t
      → t.cmd ≡ c.cmd
      → t.fields ≡ some (replicate n b'c')
      → RoundTrips c d (chars_frame c n)
  chars-RoundTrips c d t n u m k e own f =
      let l = length-cells_from c.payload 0 n in
      let s : length (chars_frame c n) - 5 ≡ n = omega (arith, l) in
      let known =
        buffer2command_known d c.cmd c.seq c.status (5 + n) 0 (cells_from c.payload 0 n) t e own
          (omega (arith, l)) in
      rw (s, known, f) (parse_chars c _ n u.size m k refl refl refl)

  shape-RoundTrips :
      (c d : Command) (t : TypeDescr) (fs : List ℕ)
      → IsUnion c.payload
      → length d.payload ≡ 118
      → get_elem? type_table c.cmd ≡ some t
      → t.cmd ≡ c.cmd
      → t.fields ≡ some fs
      → put_known h c 196 (some fs) ≢ []
      → Shape fs
      → RoundTrips c d (put_known h c 196 (some fs))
  shape-RoundTrips c d t fs u m e own f sent (dynamic k) =
      elim (Bool-cases (leb (buffer_len c.payload) 116)) [
        | inl short ↦
            rw (k, put_dynamic le c 196 u (omega arith) (leb→le _ _ short))
              (dynamic-RoundTrips c d t u m (leb→le _ _ short) e own (f ∙ ap some k))
        | inr long ↦ absurd (sent (rw k (put_long le c 196 (ground arith))))
      ]
  shape-RoundTrips c d t fs u m e own f sent (chars n small k) =
      rw (k, put_chars le c 196 n u (omega arith) small)
        (chars-RoundTrips c d t n u m small e own (f ∙ ap some k))

  -- Every command but the bare ACK that is printed at all, with a whole union of bytes, is parsed
  -- without error to the same id, sequence number, status and union, as far as the frame carries
  -- the union, whatever the parsed command's memory held before. The stores and loads are little
  -- endian.
  pub buffer2command-command2buffer :
      (c d : Command)
      → IsUnion c.payload
      → length d.payload ≡ 118
      → c.cmd ≢ zm_cmd_ack
      → command2buffer h c 196 ≢ []
      → RoundTrips c d (command2buffer h c 196)
  unfolding command2buffer
  buffer2command-command2buffer c d u m ack sent =
      rw ack_test (through (get_elem? type_table c.cmd) refl (rw ack_test at sent))
    where
      ack_test : (c.cmd == zm_cmd_ack) ≡ false
      ack_test = ne→eq-false c.cmd zm_cmd_ack ack

      fields :
          (t : TypeDescr) (fs : Option (List ℕ))
          → get_elem? type_table c.cmd ≡ some t
          → t.fields ≡ fs
          → put_known h c 196 fs ≢ []
          → RoundTrips c d (put_known h c 196 fs)
      fields t none e f sent' = absurd (sent' (unfold put_known in refl))
      fields t (some fs) e f sent' =
          let (own, shape) = type_table-Shape c.cmd t e in
          shape-RoundTrips c d t fs u m e own f sent' (shape fs f)

      through :
          (entry : Option TypeDescr)
          → get_elem? type_table c.cmd ≡ entry
          → put_entry h c 196 entry ≢ []
          → RoundTrips c d (put_entry h c 196 entry)
      through none e sent' = absurd (sent' (unfold put_entry in refl))
      through (some t) e sent' = unfold put_entry in (fields t t.fields e refl sent')
