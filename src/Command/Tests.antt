-- ===== src/Command/Tests.antt =====
-- Commands of src/common/zm_protocol.c to try the codec on, and the theorems about it at these.
use deconz.Prelude.{
  ℕ, zero, suc, ◌<◌, ◌≡◌, ◌≢◌, refl, arith, [], ◌∷◌, length, get_or, replicate, ◌≤◌,
}
use deconz.BufferHelper.{little_endian, little_endian-IsLittleEndian}
use deconz.Command.{Command, parse_ok, unknown_field, read_overflow, zm_cmd_ack}
use deconz.Command.Decode.{buffer2command}
use deconz.Command.Encode.{put_field, put_fields, put_known, put_entry, command2buffer}
use deconz.Command.Print.{IsUnion, length-command2buffer}
use deconz.Command.Parse.{RoundTrips, buffer2command-command2buffer}
use deconz.Command.Errors.{Accepted, buffer2command_sound}

-- A request with two bytes of data, and a command with an id that the table does not have.
abbrev pub request : Command
request = record {
  cmd = 0x02;
  seq = 1;
  status = 0;
  payload = 2 ∷ 0 ∷ 0xC0 ∷ 0xDB ∷ replicate 114 0;
}

abbrev pub unknown_request : Command
unknown_request = record { cmd = 0x40; seq = 1; status = 0; payload = replicate 118 0 }

-- What the stack of the receiver holds.
abbrev pub stack_memory : Command
stack_memory = record { cmd = 9; seq = 9; status = 9; payload = replicate 118 7 }

pub get_or-replicate : (n i : ℕ) → get_or (replicate n 0) i 0 < 256
get_or-replicate zero i = omega arith
get_or-replicate (suc n) zero = omega arith
get_or-replicate (suc n) (suc i) = get_or-replicate n i

request_bytes : (i : ℕ) → get_or request.payload i 0 < 256
request_bytes zero = omega arith
request_bytes (suc zero) = omega arith
request_bytes (suc (suc zero)) = omega arith
request_bytes (suc (suc (suc zero))) = omega arith
request_bytes (suc (suc (suc (suc i)))) = get_or-replicate 114 i

pub request-IsUnion : IsUnion request.payload
request-IsUnion = record { size = refl; bytes = request_bytes }

pub request_printed : command2buffer little_endian request 196 ≢ []
unfolding command2buffer put_entry put_known put_fields put_field
request_printed e = cc

pub unknown_unprinted : command2buffer little_endian unknown_request 196 ≡ []
unfolding command2buffer put_entry
unknown_unprinted = refl

request_not_ack : request.cmd ≢ zm_cmd_ack
request_not_ack = omega arith

buffer2command-command2buffer_example :
    RoundTrips little_endian-IsLittleEndian request stack_memory
      (command2buffer little_endian request 196)
buffer2command-command2buffer_example =
    buffer2command-command2buffer little_endian-IsLittleEndian request stack_memory request-IsUnion
      refl request_not_ack request_printed

length-command2buffer_example : length (command2buffer little_endian request 196) ≤ 123
length-command2buffer_example =
    length-command2buffer little_endian-IsLittleEndian request request-IsUnion

buffer2command_sound_example :
    let (c, s) = buffer2command (2 ∷ 1 ∷ 0 ∷ 9 ∷ 0 ∷ 2 ∷ 0 ∷ 0xC0 ∷ 0xDB ∷ []) stack_memory in
    (s ≢ unknown_field)
    × (s ≢ read_overflow)
    × (s ≡ parse_ok → Accepted (2 ∷ 1 ∷ 0 ∷ 9 ∷ 0 ∷ 2 ∷ 0 ∷ 0xC0 ∷ 0xDB ∷ []) c)
buffer2command_sound_example =
    buffer2command_sound (2 ∷ 1 ∷ 0 ∷ 9 ∷ 0 ∷ 2 ∷ 0 ∷ 0xC0 ∷ 0xDB ∷ []) stack_memory
