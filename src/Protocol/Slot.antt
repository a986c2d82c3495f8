-- ===== src/Protocol/Slot.antt =====
-- src/common/protocol.c: the life of the one device slot, from `protocol_add` to `protocol_remove`.
use deconz.Prelude.{ℕ, ◌≤◌, ◌<◌, ◌≡◌, ◌≢◌, Bool, true, false, some, List, [], arith, length}
use deconz.Protocol.{
  Protocol, Callbacks, proto_no_protocol, protocol_init, protocol_exit, protocol_add,
  protocol_remove, protocol_set_buffer,
}
use deconz.Protocol.Input.{protocol_receive}
use deconz.Protocol.Output.{protocol_send}
use deconz.Protocol.Receive.{IsValid}
use deconz.Protocol.RoundTrip.{Holds}

abbrev pub all_set : Bool → Callbacks
all_set flush = record { get_c = true; is_c = true; put_c = true; flush = flush; packet = true }

-- Initialising the module, adding a device and giving it a buffer takes slot 0, and leaves it with
-- an empty buffer of the given length, out of any escape, and with the given options.
pub added_slot_ready :
    (p : Protocol) (u8_options : ℕ) (flush : Bool) (mem : List ℕ) (len : ℕ)
    → u8_options ≢ 0
    → 0 < len
    → len ≤ length mem
    → let (q, instance_id) = protocol_add (protocol_init p) u8_options (all_set flush) in
      let r = (protocol_set_buffer q instance_id (some mem) len).0 in
      (instance_id ≡ 0)
      × (r.b_init ≡ true)
      × (r.device.options ≡ u8_options)
      × (r.device.buffer_len ≡ len)
      × Holds r.device []
      × IsValid r.device
unfolding protocol_init protocol_add protocol_set_buffer
added_slot_ready p u8_options flush mem len ho h0 hl = ground arith

-- While the slot is taken no other device is added, and after `protocol_remove` one is.
pub protocol_add-protocol_remove :
    (p : Protocol) (u8_options : ℕ) (flush : Bool)
    → p.b_init ≡ true
    → p.device.options ≢ 0
    → u8_options ≢ 0
    → (protocol_add p u8_options (all_set flush) ≡ (p, proto_no_protocol))
      × ((protocol_remove p 0).1 ≡ 1)
      × ((protocol_add (protocol_remove p 0).0 u8_options (all_set flush)).1 ≡ 0)
unfolding protocol_add protocol_remove
protocol_add-protocol_remove p u8_options flush hi hp ho = ground arith

-- After `protocol_remove` and `protocol_exit` nothing is sent, and no input is read, for any
-- instance.
pub closed_inert :
    (p : Protocol) (i j len : ℕ) (bytes input : List ℕ)
    → let q = protocol_exit (protocol_remove p i).0 in
      (protocol_send q j (some bytes) len ≡ ([], false))
      × (protocol_receive q j input ≡ (q, [], input))
unfolding protocol_exit protocol_remove protocol_send protocol_receive
closed_inert p i j len bytes input = ground arith
