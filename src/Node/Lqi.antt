-- ===== src/Node/Lqi.antt =====
-- src/zm_neighbor.cpp: a neighbor out of a record of the Mgmt_Lqi response. The enumerations and the
-- loads lie in a submodule: the loads are arguments, the enumerators are named as the code does.
use deconz.Prelude.{
  ℕ, ◌/◌, ◌%◌, ◌<◌, ◌≡◌, ◌≢◌, refl, Bool, true, not, ◌&&◌, ◌||◌, List, arith, ltb, ◌==◌,
  if◌then◌else◌, bit_and, length, get_or, take, drop,
}
use deconz.Node.Depend.{all_below, all_below-at}

pub data LqiDevice : Type 0 where
  coordinator router end_device unknown_device : LqiDevice

pub data LqiRelation : Type 0 where
  parent_relation child_relation sibling_relation unknown_relation previous_child_relation :
      LqiRelation

pub data PermitJoin : Type 0 where
  neighbor_not_accept_join neighbor_accept_join neighbor_join_unknown : PermitJoin

-- The members that the constructor writes.
pub record LqiNeighbor : Type 0 where
  pub ext_pan_id : ℕ
  pub ext : ℕ
  pub nwk : ℕ
  pub dev_type : LqiDevice
  pub rx_on_when_idle : ℕ
  pub relationship : LqiRelation
  pub permit_join : PermitJoin
  pub depth : ℕ
  pub lqi : ℕ

-- The chain of tests on the device type.
unfoldable pub device_of : ℕ → LqiDevice
device_of p =
    if bit_and p 0x03 == 0x03
    then unknown_device
    else if not (bit_and p 0x01 == 0)
    then router
    else if not (bit_and p 0x02 == 0)
    then end_device
    else coordinator

-- The chain of tests on the relation; other values leave the initial one.
unfoldable pub relation_of : ℕ → LqiRelation
relation_of p =
    let rel = bit_and p 0x70 / 16 in
    if rel == 0
    then parent_relation
    else if rel == 1
    then child_relation
    else if rel == 2
    then sibling_relation
    else if rel == 3
    then unknown_relation
    else if rel == 4
    then previous_child_relation
    else unknown_relation

-- The two statements on permitJoin; `initial` is the member before.
unfoldable pub permit_of : PermitJoin → ℕ → PermitJoin
permit_of initial p =
    let first = if not (bit_and p 0x01 == 0) then neighbor_accept_join else initial in
    if not (bit_and p 0x02 == 0) then neighbor_join_unknown else neighbor_not_accept_join

-- The constructor; `fresh` holds the initial members, `u64` and `u16` the loads.
unfoldable pub parse_neighbor : (List ℕ → ℕ) → (List ℕ → ℕ) → LqiNeighbor → List ℕ → LqiNeighbor
unfolding device_of relation_of permit_of
parse_neighbor u64 u16 fresh buf =
    let p = get_or buf 18 0 in
    if not (length buf == 22) then fresh else record {
      ext_pan_id = u64 (take 8 buf);
      ext = u64 (take 8 (drop 8 buf));
      nwk = u16 (take 2 (drop 16 buf));
      dev_type = device_of p;
      rx_on_when_idle = bit_and p 0x0C / 4;
      relationship = relation_of p;
      permit_join = permit_of fresh.permit_join (get_or buf 19 0);
      depth = get_or buf 20 0;
      lqi = get_or buf 21 0;
    }

-- The values of the Zigbee record.
abbrev pub device_code : LqiDevice → ℕ
device_code coordinator = 0
device_code router = 1
device_code end_device = 2
device_code unknown_device = 3

abbrev pub relation_code : LqiRelation → ℕ
relation_code parent_relation = 0
relation_code child_relation = 1
relation_code sibling_relation = 2
relation_code unknown_relation = 3
relation_code previous_child_relation = 4

-- One byte of device type, receiver and relation.
abbrev is_read : ℕ → Bool
is_read p =
    (device_code (device_of p) == p % 4)
    && ((bit_and p 0x0C / 4 == p / 4 % 4)
        && (not (ltb (p / 16 % 8) 5) || (relation_code (relation_of p) == p / 16 % 8)))

every_byte_read : all_below 256 is_read ≡ true
unfolding all_below device_of relation_of
every_byte_read = refl

permit_of_never : (initial : PermitJoin) (p : ℕ) → permit_of initial p ≢ neighbor_accept_join
unfolding permit_of
permit_of_never initial p = ground arith

-- A record of 22 bytes: the device type, the receiver flag and the relation have the values of the
-- bits 0 and 1, 2 and 3, and 4 to 6 of its byte 18, if that is a byte and the relation one of the five
-- that are defined. Byte 19 never makes a neighbor that accepts joins, whatever it is.
pub parse_neighbor_lem :
    (u64 u16 : List ℕ → ℕ) (fresh : LqiNeighbor) (buf : List ℕ) (p : ℕ)
    → length buf ≡ 22
    → get_or buf 18 0 ≡ p
    → p < 256
    → p / 16 % 8 < 5
    → let n = parse_neighbor u64 u16 fresh buf in
      (device_code n.dev_type ≡ p % 4)
      × (n.rx_on_when_idle ≡ p / 4 % 4)
      × (relation_code n.relationship ≡ p / 16 % 8)
      × (n.permit_join ≢ neighbor_accept_join)
unfolding parse_neighbor
parse_neighbor_lem u64 u16 fresh buf p size at byte known =
    let read : is_read p ≡ true = all_below-at 256 is_read p every_byte_read byte in
    rw (size, at)
      (
        ground arith,
        ground arith,
        ground arith,
        permit_of_never fresh.permit_join (get_or buf 19 0),
      )
