-- ===== src/Command.antt =====
-- src/common/zm_protocol.c and zm_protocol.h: the command packets inside the frames. The union
-- behind a command's header is its memory, read and written by byte; `buffer` starts with its
-- length, low byte first, as on the little-endian hosts that the program is built for.
pub mod Decode
pub mod Encode
pub mod Fields
pub mod Print
pub mod Parse
pub mod Errors
pub mod Tests
use deconz.Prelude.{
  ℕ, zero, suc, ◌+◌, ◌-◌, ◌*◌, ◌/◌, ◌%◌, Bool, true, false, ◌&&◌, Option, none, some, List, [], ◌∷◌,
  ◌++◌, ltb, leb, ◌==◌, if◌then◌else◌, get_or, get_elem?, take, drop, set, length,
}
use deconz.BufferHelper.{BufferHelper}

abbrev pub zm_header_length : ℕ
zm_header_length = 3

abbrev pub zm_max_buffer_len : ℕ
zm_max_buffer_len = 116

abbrev pub zm_cmd_ack : ℕ
zm_cmd_ack = 0x00

abbrev pub zm_cmd_status : ℕ
zm_cmd_status = 0x07

abbrev pub zm_cmd_max : ℕ
zm_cmd_max = 0x23

-- `zm_command`: `payload` is the memory of the union, 118 bytes.
pub record Command : Type 0 where
  pub cmd : ℕ
  pub seq : ℕ
  pub status : ℕ
  pub payload : List ℕ

-- `zm_type_descr`; `none` is the null pointer.
pub record TypeDescr : Type 0 where
  pub cmd : ℕ
  pub fields : Option (List ℕ)

abbrev row : ℕ → Option (List ℕ) → TypeDescr
row cmd fields = record { cmd = cmd; fields = fields }

abbrev dynamic : Option (List ℕ)
dynamic = some (b'D' ∷ [])

abbrev chars : List ℕ → Option (List ℕ)
chars fs = some fs

-- `Type_table`, in the order of the command ids.
abbrev pub type_table : List TypeDescr
type_table =
    row 0x00 none
    ∷ row 0x01 none
    ∷ row 0x02 dynamic
    ∷ row 0x03 dynamic
    ∷ row 0x04 dynamic
    ∷ row 0x05 dynamic
    ∷ row 0x06 dynamic
    ∷ row 0x07 (chars (b'c' ∷ b'c' ∷ b'c' ∷ []))
    ∷ row 0x08 (chars (b'c' ∷ []))
    ∷ row 0x09 (chars (b'c' ∷ []))
    ∷ row 0x0A dynamic
    ∷ row 0x0B dynamic
    ∷ row 0x0C (chars (b'c' ∷ b'c' ∷ []))
    ∷ row 0x0D (chars (b'c' ∷ b'c' ∷ b'c' ∷ b'c' ∷ []))
    ∷ row 0x0E (chars (b'c' ∷ b'c' ∷ []))
    ∷ row 0x0F none
    ∷ row 0x10 none
    ∷ row 0x11 dynamic
    ∷ row 0x12 dynamic
    ∷ row 0x13 dynamic
    ∷ row 0x14 dynamic
    ∷ row 0x15 dynamic
    ∷ row 0x16 dynamic
    ∷ row 0x17 dynamic
    ∷ row 0x18 dynamic
    ∷ row 0x19 dynamic
    ∷ row 0x1A dynamic
    ∷ row 0x1B dynamic
    ∷ row 0x1C dynamic
    ∷ row 0x1D dynamic
    ∷ row 0x1E (chars [])
    ∷ row 0x1F dynamic
    ∷ row 0x20 (chars [])
    ∷ row 0x21 dynamic
    ∷ row 0x22 dynamic
    ∷ []

-- `zm_parse_status_t`
pub data ParseStatus : Type 0 where
  parse_ok wrong_stored_length char_field_overflow dbuf_len_larger_data : ParseStatus
  dbuf_len_too_large dbuf_incomplete unknown_field no_fields : ParseStatus
  unknown_command command_buf_too_small read_overflow : ParseStatus

-- `get_u16`: two bytes, low byte first. The high byte fills bits that are zero.
abbrev pub get_u16 : List ℕ → ℕ → ℕ
get_u16 mem i = get_or mem i 0 + get_or mem (i + 1) 0 * 256

-- Bytes written from offset `i` on.
abbrev pub write : List ℕ → ℕ → List ℕ → List ℕ
write mem i [] = mem
write mem i (b ∷ bs) = write (set mem i b) (suc i) bs
