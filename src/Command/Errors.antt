-- ===== src/Command/Errors.antt =====
-- src/common/zm_protocol.c: which errors `zm_protocol_buffer2command` can report, on any input.
use deconz.Prelude.{
  ℕ, zero, suc, ◌≤◌, ◌<◌, ◌≡◌, ◌≢◌, refl, inl, inr, Option, none, some, List, [], ◌∷◌, arith, leb,
  get_or, get_elem?, get_elem?-lt, replicate, Bool-cases, Option-cases, length,
}
use deconz.Command.{
  Command, ParseStatus, parse_ok, unknown_field, read_overflow, type_table, get_u16, zm_cmd_max,
}
use deconz.Command.Decode.{
  Cursor, Parsed, going, failed, close, parse_field, parse_fields, parse_known, parse_entry,
  buffer2command,
}
use deconz.Command.Fields.{Shape, dynamic, chars, type_table-Shape}

-- The two errors that the input never causes.
abbrev pub IsReported : ParseStatus → Type 0
IsReported s = (s ≢ unknown_field) × (s ≢ read_overflow)

-- The read position has not passed the input, or an error of the others is reported.
abbrev InBounds : List ℕ → Parsed → Type 0
InBounds bytes (going c) = c.p ≤ length bytes
InBounds bytes (failed e mem) = IsReported e

char-InBounds :
    (bytes : List ℕ) (cmd : ℕ) (c : Cursor)
    → c.p ≤ length bytes
    → InBounds bytes (parse_field bytes cmd b'c' c)
unfolding parse_field
char-InBounds bytes cmd c h = ground arith

dbuf-InBounds :
    (bytes : List ℕ) (cmd : ℕ) (c : Cursor)
    → c.p ≤ length bytes
    → InBounds bytes (parse_field bytes cmd b'D' c)
unfolding parse_field
dbuf-InBounds bytes cmd c h = ground arith

chars-InBounds :
    (bytes : List ℕ) (cmd n : ℕ) (r : Parsed)
    → InBounds bytes r
    → InBounds bytes (parse_fields bytes cmd (replicate n b'c') r)
unfolding parse_fields
chars-InBounds bytes cmd zero (going c) h = h
chars-InBounds bytes cmd zero (failed e mem) h = h
chars-InBounds bytes cmd (suc n) (failed e mem) h = h
chars-InBounds bytes cmd (suc n) (going c) h =
    chars-InBounds bytes cmd n (parse_field bytes cmd b'c' c) (char-InBounds bytes cmd c h)

end-InBounds :
    (bytes : List ℕ) (cmd : ℕ) (r : Parsed)
    → InBounds bytes r
    → InBounds bytes (parse_fields bytes cmd [] r)
unfolding parse_fields
end-InBounds bytes cmd (going c) h = h
end-InBounds bytes cmd (failed e mem) h = h

parse_fields-cons :
    (bytes : List ℕ) (cmd f : ℕ) (fs : List ℕ) (c : Cursor)
    → parse_fields bytes cmd (f ∷ fs) (going c)
      ≡ parse_fields bytes cmd fs (parse_field bytes cmd f c)
unfolding parse_fields
parse_fields-cons bytes cmd f fs c = refl

shape-InBounds :
    (bytes : List ℕ) (cmd : ℕ) (fs : List ℕ) (c : Cursor)
    → Shape fs
    → c.p ≤ length bytes
    → InBounds bytes (parse_fields bytes cmd fs (going c))
shape-InBounds bytes cmd fs c (chars n k e) h = rw e (chars-InBounds bytes cmd n (going c) h)
shape-InBounds bytes cmd fs c (dynamic e) h =
    rw (e, parse_fields-cons bytes cmd b'D' [] c)
      (end-InBounds bytes cmd (parse_field bytes cmd b'D' c) (dbuf-InBounds bytes cmd c h))

-- What an accepted input looks like: a known command with fields, and its own length in the header.
abbrev pub Accepted : List ℕ → Command → Type 0
Accepted bytes c = (c.cmd < zm_cmd_max) × (5 ≤ length bytes) × (length bytes ≡ get_u16 bytes 3)

abbrev Sound : List ℕ → Command × ParseStatus → Type 0
Sound bytes r = IsReported r.1 × (r.1 ≡ parse_ok → Accepted bytes r.0)

close-Sound :
    (bytes : List ℕ) (d : Command) (r : Parsed)
    → InBounds bytes r
    → Accepted bytes d
    → Sound bytes (close d r)
close-Sound bytes d (going c) h a = ((λ e. cc, λ e. cc), λ e. a)
close-Sound bytes d (failed unknown_field mem) h a = absurd (h.0 refl)
close-Sound bytes d (failed read_overflow mem) h a = absurd (h.1 refl)
close-Sound bytes d (failed e mem) h a = (h, λ k. a)

known-Sound :
    (bytes : List ℕ) (d : Command) (fs : Option (List ℕ))
    → ((xs : List ℕ) → fs ≡ some xs → Shape xs)
    → Accepted bytes d
    → Sound bytes (parse_known bytes d fs)
unfolding parse_known
known-Sound bytes d none shape a = ((λ e. cc, λ e. cc), λ e. cc)
known-Sound bytes d (some fs) shape a =
    let start : Cursor = record { p = 5; wp = 0; payload = d.payload } in
    close-Sound bytes d (parse_fields bytes d.cmd fs (going start))
      (shape-InBounds bytes d.cmd fs start (shape fs refl) a.1) a

entry-Sound :
    (bytes : List ℕ) (d : Command) → Sound bytes (parse_entry bytes d (get_elem? type_table d.cmd))
unfolding parse_entry
entry-Sound bytes d = elim (Option-cases (get_elem? type_table d.cmd)) [
  | inl e ↦ rw e ((λ k. cc, λ k. cc), λ k. cc)
  | inr (t, e) ↦ rw e (
      ground (
        arith,
        get_elem?-lt type_table d.cmd e,
        known-Sound bytes d t.fields (type_table-Shape d.cmd t e).1,
      ))
]

-- On any input the parser reports neither an unknown field nor a read overflow, and what it accepts
-- has a known command id and at least five bytes, and carries its own length.
pub buffer2command_sound :
    (bytes : List ℕ) (d : Command)
    → let (c, s) = buffer2command bytes d in
      (s ≢ unknown_field) × (s ≢ read_overflow) × (s ≡ parse_ok → Accepted bytes c)
unfolding buffer2command
buffer2command_sound bytes d = elim (Bool-cases (leb 3 (length bytes))) [
  | inl long ↦ let sound = entry-Sound bytes header in rw long (sound.0.0, sound.0.1, sound.1)
  | inr short ↦ rw short (λ k. cc, λ k. cc, λ k. cc)
]
  where
    header : Command
    header = record d { cmd = get_or bytes 0 0; seq = get_or bytes 1 0; status = get_or bytes 2 0 }
