-- ===== src/Protocol.antt =====
-- src/common/protocol.c: the byte-stuffing frame protocol of the serial link. A device slot is a
-- record, `pGetC` reads a list of bytes, and what `pPutC` and `pPacket` are given is returned.
pub mod Input
pub mod Output
pub mod Frame
pub mod Receive
pub mod Checked
pub mod RoundTrip
pub mod Slot
mod Tests
use deconz.Prelude.{
  ℕ, ◌+◌, ◌-◌, ◌*◌, ◌/◌, ◌%◌, Bool, true, false, not, ◌&&◌, Option, none, some, List, [], ◌∷◌, ◌++◌,
  ltb, leb, ◌==◌, if◌then◌else◌, get_or, take, set, or_nil, bit_and,
}

abbrev pub proto_max_dev : ℕ
proto_max_dev = 1

abbrev pub fr_end : ℕ
fr_end = 0xC0

abbrev pub fr_esc : ℕ
fr_esc = 0xDB

abbrev pub t_fr_end : ℕ
t_fr_end = 0xDC

abbrev pub t_fr_esc : ℕ
t_fr_esc = 0xDD

abbrev pub proto_rx : ℕ
proto_rx = 0x02

abbrev pub proto_tx : ℕ
proto_tx = 0x04

abbrev pub proto_no_protocol : ℕ
proto_no_protocol = 0xFF

-- `tProtocol`. ASC_FLAG is the only bit of `u8Escaped` that is ever written, so it is a Bool. Of a
-- callback the slot records whether it is set; the buffer is the memory that `pBuffer` points to.
pub record Device : Type 0 where
  pub escaped : Bool
  pub options : ℕ
  pub get_c : Bool
  pub is_c : Bool
  pub put_c : Bool
  pub flush : Bool
  pub packet : Bool
  pub buffer : Option (List ℕ)
  pub buffer_len : ℕ
  pub buffer_pos : ℕ

-- `bInit` and `arDevices`, which has one entry.
pub record Protocol : Type 0 where
  pub b_init : Bool
  pub device : Device

-- `protocol_init`. It does not write `pFlush`.
unfoldable pub protocol_init : Protocol → Protocol
protocol_init p = record {
  b_init = true;
  device = record {
    escaped = false;
    options = 0;
    get_c = false;
    is_c = false;
    put_c = false;
    flush = p.device.flush;
    packet = false;
    buffer = none;
    buffer_len = 0;
    buffer_pos = 0;
  };
}

unfoldable pub protocol_exit : Protocol → Protocol
protocol_exit p = record { b_init = false; device = record p.device { options = 0 } }

-- The callbacks that a caller passes to `protocol_add`: which of them are not null.
pub record Callbacks : Type 0 where
  pub get_c : Bool
  pub is_c : Bool
  pub put_c : Bool
  pub flush : Bool
  pub packet : Bool

-- `protocol_add`. A free slot has no options.
unfoldable pub protocol_add : Protocol → ℕ → Callbacks → Protocol × ℕ
protocol_add p u8_options cb =
    if p.device.options == 0
    then if cb.get_c && cb.is_c && cb.put_c && cb.packet && not (u8_options == 0)
      then (
        record p {
          device = record {
            escaped = false;
            options = u8_options;
            get_c = cb.get_c;
            is_c = cb.is_c;
            put_c = cb.put_c;
            flush = cb.flush;
            packet = cb.packet;
            buffer = none;
            buffer_len = 0;
            buffer_pos = 0;
          };
        },
        0,
      )
      else (p, proto_no_protocol)
    else (p, proto_no_protocol)

unfoldable pub protocol_remove : Protocol → ℕ → Protocol × ℕ
protocol_remove p instance_id =
    if p.b_init && ltb instance_id proto_max_dev
    then (record p { device = record p.device { options = 0 } }, 1)
    else (p, 0)

-- The buffer, its length and position after `protocol_set_buffer` with a buffer that is not null.
set_device_buffer : Device → Option (List ℕ) → ℕ → Device
set_device_buffer d none len = record d { buffer = none; buffer_len = 0; buffer_pos = 0 }
set_device_buffer d (some mem) len =
    if ltb 0 len
    then record d { buffer = some mem; buffer_len = len; buffer_pos = 0 }
    else record d { buffer = none; buffer_len = 0; buffer_pos = 0 }

unfoldable pub protocol_set_buffer : Protocol → ℕ → Option (List ℕ) → ℕ → Protocol × ℕ
unfolding set_device_buffer
protocol_set_buffer p instance_id mem len =
    if p.b_init && ltb instance_id proto_max_dev
    then (record p { device = set_device_buffer p.device mem len }, 1)
    else (p, 0)
