-- ===== src/Serial/Txq.antt =====
-- src/zm_master_com_serial.cpp: the send queue, TXQ_Init to TXQ_Pop. Its positions are uint8_t and
-- run freely; a slot is their remainder by four. An entry is a TrxBuffer, as the list of the
-- `length` bytes of `data` that count.
use deconz.Prelude.{
  ℕ, zero, suc, ◌+◌, ◌-◌, ◌%◌, ◌≤◌, ◌<◌, ◌≡◌, ◌≢◌, refl, ap₂, ◌∙◌, Bool, false, not, ◌&&◌, List, [],
  ◌∷◌, ◌++◌, arith, length, length-set, get_or, get_or-set_self, get_or-set_ne, set, ◌==◌, ap,
}

abbrev pub max_send_queue_size : ℕ
max_send_queue_size = 4

pub record TxQueue : Type 0 where
  pub send_pos : ℕ
  pub send_end : ℕ
  pub send_queue : List (List ℕ)

unfoldable pub txq_init : TxQueue
txq_init = record { send_pos = 0; send_end = 0; send_queue = [] ∷ [] ∷ [] ∷ [] ∷ [] }

unfoldable pub txq_is_empty : TxQueue → Bool
txq_is_empty q = q.send_pos == q.send_end

unfoldable pub txq_is_full : TxQueue → Bool
txq_is_full q =
    not (q.send_pos == q.send_end)
    && (q.send_pos % max_send_queue_size == q.send_end % max_send_queue_size)

-- The slot, and the queue behind the call.
unfoldable pub txq_push : TxQueue → ℕ × TxQueue
txq_push q = (q.send_end % max_send_queue_size, record q { send_end = (q.send_end + 1) % 256 })

unfoldable pub txq_pop : TxQueue → ℕ × TxQueue
txq_pop q = (q.send_pos % max_send_queue_size, record q { send_pos = (q.send_pos + 1) % 256 })

-- How many entries wait.
abbrev pub count : TxQueue → ℕ
count q = (q.send_end + 256 - q.send_pos) % 256

pub record IsValid (q : TxQueue) : Type 0 where
  pub pos_in : q.send_pos < 256
  pub end_in : q.send_end < 256
  pub few : count q ≤ max_send_queue_size
  pub slots : length q.send_queue ≡ max_send_queue_size

-- `n` entries from slot `i` on, going round.
abbrev entries : List (List ℕ) → ℕ → ℕ → List (List ℕ)
entries slots i zero = []
entries slots i (suc n) = get_or slots i [] ∷ entries slots ((i + 1) % 4) n

-- The waiting entries, oldest first.
abbrev pub waiting : TxQueue → List (List ℕ)
waiting q = entries q.send_queue (q.send_pos % 4) (count q)

length-entries : (slots : List (List ℕ)) (i n : ℕ) → length (entries slots i n) ≡ n
length-entries slots i zero = refl
length-entries slots i (suc n) = ap suc (length-entries slots ((i + 1) % 4) n)

pub length-waiting : (q : TxQueue) → length (waiting q) ≡ count q
length-waiting q = length-entries q.send_queue (q.send_pos % 4) (count q)

-- A write to the slot behind the last entry adds an entry.
entries-set :
    (slots : List (List ℕ)) (b : List ℕ) (n i j : ℕ)
    → length slots ≡ 4
    → i < 4
    → n < 4
    → j ≡ (i + n) % 4
    → entries (set slots j b) i (suc n) ≡ entries slots i n ++ b ∷ []
entries-set slots b zero i j h hi hn e =
    rw (at) (ap (λ x. x ∷ []) (get_or-set_self slots i b [] (omega arith)))
  where
    at : j ≡ i
    at = omega arith
entries-set slots b (suc n) i j h hi hn e =
    ap₂ ◌∷◌ (get_or-set_ne slots j i b [] (omega arith))
      (entries-set slots b n ((i + 1) % 4) j h (omega arith) (omega arith) (omega arith))

-- `waiting` matches on a successor where the code tests two positions.
entries_of_ne_zero :
    (slots : List (List ℕ)) (i n : ℕ)
    → n ≢ 0
    → entries slots i n ≡ get_or slots i [] ∷ entries slots ((i + 1) % 4) (n - 1)
entries_of_ne_zero slots i zero h = absurd (h refl)
entries_of_ne_zero slots i (suc n) h = ap (λ k. entries slots i (suc k)) (omega arith)

pub txq_init-IsValid : IsValid txq_init
unfolding txq_init
txq_init-IsValid = omega arith

-- What `SerialCom::send` does to the queue: push, and write the slot.
abbrev pub put_entry : TxQueue → List ℕ → TxQueue
put_entry q b = let (slot, q') = txq_push q in record q' { send_queue = set q'.send_queue slot b }

-- The queue is reported empty exactly if no entry waits, and full exactly if four do, also where the
-- eight bit positions have wrapped.
pub txq_tests :
    (q : TxQueue)
    → IsValid q
    → (txq_is_empty q ≡ (length (waiting q) == 0))
      × (txq_is_full q ≡ (length (waiting q) == max_send_queue_size))
unfolding txq_is_empty txq_is_full
txq_tests q v = ground (arith, length-waiting q)

count-lt : (q : TxQueue) → IsValid q → txq_is_full q ≡ false → count q < 4
unfolding txq_is_full
count-lt q v room = ground arith

count-put_entry :
    (q : TxQueue) (b : List ℕ)
    → IsValid q
    → txq_is_full q ≡ false
    → count (put_entry q b) ≡ suc (count q)
unfolding txq_push
count-put_entry q b v room = omega (arith, count-lt q v room)

-- Pushing to a queue that is not full adds the entry behind the others, and keeps the queue valid.
pub waiting-push :
    (q : TxQueue) (b : List ℕ)
    → IsValid q
    → txq_is_full q ≡ false
    → (waiting (put_entry q b) ≡ waiting q ++ b ∷ []) × IsValid (put_entry q b)
unfolding txq_is_full txq_push
waiting-push q b v room =
    let few = count-lt q v room in
    let one_more = count-put_entry q b v room in
    (
      rw one_more (
          entries-set q.send_queue b (count q) (q.send_pos % 4) (q.send_end % 4) v.slots
            (omega arith) few (omega arith)),
      record {
        pos_in = v.pos_in;
        end_in = omega arith;
        few = omega arith;
        slots = length-set q.send_queue (q.send_end % 4) b ∙ v.slots;
      },
    )

-- Popping from a queue that is not empty takes the oldest entry, and keeps the queue valid.
pub waiting-pop :
    (q : TxQueue)
    → IsValid q
    → txq_is_empty q ≡ false
    → let (slot, q') = txq_pop q in
      (waiting q ≡ get_or q.send_queue slot [] ∷ waiting q') × IsValid q'
unfolding txq_is_empty txq_pop
waiting-pop q v some_wait =
    let some_left : count q ≢ 0 = ground arith in
    (
      rw (entries_of_ne_zero q.send_queue (q.send_pos % 4) (count q) some_left) (
          ap₂ (λ i n. get_or q.send_queue (q.send_pos % 4) [] ∷ entries q.send_queue i n)
            (omega arith) (omega arith)),
      record { pos_in = omega arith; end_in = v.end_in; few = omega arith; slots = v.slots },
    )
