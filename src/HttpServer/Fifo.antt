-- ===== src/HttpServer/Fifo.antt =====
-- src/zm_http_server.cpp: queuePut to queueSpaceForWords as a queue of at most 127 words, with positions
-- that wrap at 2^32.
use deconz.Prelude.{
  ℕ, zero, suc, ◌+◌, ◌-◌, ◌%◌, ◌^◌, ◌<◌, ◌≡◌, ◌≢◌, refl, ap, ap₂, ◌∙◌, Bool, true, false, List, [],
  ◌∷◌, ◌++◌, arith, length, length-set, get_or, set, get_or-set_self, get_or-set_ne, ◌==◌, leb,
  if◌then◌else◌, sym, Bool-cases, inl, inr,
}
use deconz.HttpServer.{
  HttpServerPrivate, queue_put, queue_get, queue_peek, queue_is_empty, queue_free_words,
  queue_space_for_words,
}

-- The words in use.
abbrev pub used : HttpServerPrivate → ℕ
used d = (d.qwp + 2 ^ 32 - d.qrp) % 2 ^ 32

pub record IsRing (d : HttpServerPrivate) : Type 0 where
  pub size : length d.qinout ≡ 128
  pub rp_in : d.qrp < 2 ^ 32
  pub wp_in : d.qwp < 2 ^ 32
  pub fits : used d < 128

-- `n` words from position `i` on.
abbrev words_from : List ℕ → ℕ → ℕ → List ℕ
words_from xs i zero = []
words_from xs i (suc n) = get_or xs (i % 128) 0 ∷ words_from xs ((i + 1) % 2 ^ 32) n

-- The words that wait, oldest first.
abbrev pub words : HttpServerPrivate → List ℕ
words d = words_from d.qinout d.qrp (used d)

length-words_from : (xs : List ℕ) (i n : ℕ) → length (words_from xs i n) ≡ n
length-words_from xs i zero = refl
length-words_from xs i (suc n) = ap suc (length-words_from xs ((i + 1) % 2 ^ 32) n)

words_from-set :
    (xs : List ℕ) (v n i j : ℕ)
    → length xs ≡ 128
    → i < 2 ^ 32
    → n < 128
    → j ≡ (i + n) % 2 ^ 32 % 128
    → words_from (set xs j v) i (suc n) ≡ words_from xs i n ++ v ∷ []
words_from-set xs v zero i j h hi hn e =
    let at : j ≡ i % 128 = omega arith in
    rw (at) (ap (λ x. x ∷ []) (get_or-set_self xs (i % 128) v 0 (omega arith)))
words_from-set xs v (suc n) i j h hi hn e =
    ap₂ ◌∷◌ (get_or-set_ne xs j (i % 128) v 0 (omega arith))
      (words_from-set xs v n ((i + 1) % 2 ^ 32) j h (omega arith) (omega arith) (omega arith))

words_from_pos :
    (xs : List ℕ) (i n : ℕ)
    → n ≢ 0
    → words_from xs i n ≡ get_or xs (i % 128) 0 ∷ words_from xs ((i + 1) % 2 ^ 32) (n - 1)
words_from_pos xs i zero h = absurd (h refl)
words_from_pos xs i (suc n) h = ap (λ k. words_from xs i (suc k)) (omega arith)

-- The tests, by the number of words.
tests :
    (d : HttpServerPrivate)
    → IsRing d
    → (queue_is_empty d ≡ (length (words d) == 0)) × (queue_free_words d ≡ 127 - length (words d))
unfolding queue_is_empty queue_free_words
tests d r =
    rw (length-words_from d.qinout d.qrp (used d))
      (let a = r.rp_in in let b = r.wp_in in let c = r.fits in (ground arith, omega arith))

put_room :
    (d : HttpServerPrivate) (w : ℕ)
    → IsRing d
    → used d < 127
    → (words (queue_put d w) ≡ words d ++ w ∷ []) × IsRing (queue_put d w)
unfolding queue_put
put_room d w r room =
    let a = r.rp_in in
    let b = r.wp_in in
    let not_full : ((d.qwp + 1) % 2 ^ 32 % 128 == d.qrp % 128) ≡ false = ground arith in
    let more : ((d.qwp + 1) % 2 ^ 32 + 2 ^ 32 - d.qrp) % 2 ^ 32 ≡ suc (used d) = omega arith in
    rw (queue_put, not_full)
      (
        ap (words_from (set d.qinout (d.qwp % 128) w) d.qrp) more
            ∙ words_from-set d.qinout w (used d) d.qrp (d.qwp % 128) r.size a (omega arith)
                (omega arith),
        record {
          size = length-set d.qinout (d.qwp % 128) w ∙ r.size;
          rp_in = a;
          wp_in = omega arith;
          fits = omega arith;
        },
      )

put_full : (d : HttpServerPrivate) (w : ℕ) → IsRing d → used d ≡ 127 → queue_put d w ≡ d
unfolding queue_put
put_full d w r full =
    let a = r.rp_in in
    let b = r.wp_in in
    let is_full : ((d.qwp + 1) % 2 ^ 32 % 128 == d.qrp % 128) ≡ true = ground arith in
    rw (queue_put, is_full) refl

get_some :
    (d : HttpServerPrivate)
    → IsRing d
    → used d ≢ 0
    → (words d ≡ (queue_get d).0 ∷ words (queue_get d).1)
      × IsRing (queue_get d).1
      × (queue_peek d ≡ (queue_get d).0)
unfolding queue_get queue_peek
get_some d r some_ =
    let a = r.rp_in in
    let b = r.wp_in in
    let c = r.fits in
    let not_empty : (d.qrp == d.qwp) ≡ false = ground arith in
    let less : (d.qwp + 2 ^ 32 - (d.qrp + 1) % 2 ^ 32) % 2 ^ 32 ≡ used d - 1 = omega arith in
    rw (queue_get, queue_peek, not_empty)
      (
        words_from_pos d.qinout d.qrp (used d) some_
            ∙ ap
                (λ n.
                  get_or d.qinout (d.qrp % 128) 0 ∷ words_from d.qinout ((d.qrp + 1) % 2 ^ 32) n)
                (omega arith),
        record { size = r.size; rp_in = omega arith; wp_in = b; fits = omega arith },
        refl,
      )

get_none :
    (d : HttpServerPrivate) → IsRing d → used d ≡ 0 → (queue_get d ≡ (0, d)) × (queue_peek d ≡ 0)
unfolding queue_get queue_peek
get_none d r none_ =
    let a = r.rp_in in
    let b = r.wp_in in
    let empty : (d.qrp == d.qwp) ≡ true = ground arith in
    rw (queue_get, queue_peek, empty) (refl, refl)

-- The calls of the functions, and their results.
pub data QueueCall : Type 0 where
  puts asks_space : ℕ → QueueCall
  gets peeks asks_empty : QueueCall

pub data Answer : Type 0 where
  nothing : Answer
  word : ℕ → Answer
  flag : Bool → Answer

abbrev pub call : HttpServerPrivate → QueueCall → HttpServerPrivate × Answer
call d (puts w) = (queue_put d w, nothing)
call d (asks_space n) = (d, flag (queue_space_for_words d n))
call d gets = ((queue_get d).1, word (queue_get d).0)
call d peeks = (d, word (queue_peek d))
call d asks_empty = (d, flag (queue_is_empty d))

abbrev pub results : HttpServerPrivate → List QueueCall → List Answer
results d [] = []
results d (q ∷ qs) = let (d', a) = call d q in a ∷ results d' qs

-- A queue of at most 127 words; 0 stands for no word.
abbrev pub fifo_call : List ℕ → QueueCall → List ℕ × Answer
fifo_call ws (puts w) = (if length ws == 127 then ws else ws ++ w ∷ [], nothing)
fifo_call ws (asks_space n) = (ws, flag (leb (length ws + n) 127))
fifo_call [] gets = ([], word 0)
fifo_call (w ∷ ws) gets = (ws, word w)
fifo_call [] peeks = ([], word 0)
fifo_call (w ∷ ws) peeks = (w ∷ ws, word w)
fifo_call ws asks_empty = (ws, flag (length ws == 0))

abbrev pub fifo_results : List ℕ → List QueueCall → List Answer
fifo_results ws [] = []
fifo_results ws (q ∷ qs) = let (ws', a) = fifo_call ws q in a ∷ fifo_results ws' qs

call-fifo_call :
    (d : HttpServerPrivate) (q : QueueCall)
    → IsRing d
    → (fifo_call (words d) q ≡ (words (call d q).0, (call d q).1)) × IsRing (call d q).0
unfolding queue_space_for_words
call-fifo_call d (puts w) r = elim (Bool-cases (used d == 127)) [
  | inl e ↦
      rw (put_full d w r (ground arith), length-words_from d.qinout d.qrp (used d), e) (refl, r)
  | inr e ↦
      let c = r.fits in
      let (same, r') = put_room d w r (ground arith) in
      (rw (length-words_from d.qinout d.qrp (used d), e, same) refl, r')
]
call-fifo_call d (asks_space n) r =
    let (_, free) = tests d r in
    let c = r.fits in
    let len = length-words_from d.qinout d.qrp (used d) in
    let same : leb (length (words d) + n) 127 ≡ queue_space_for_words d n =
      (rw len (ground (arith, free))) in
    (ap (λ b. (words d, flag b)) same, r)
call-fifo_call d gets r = elim (Bool-cases (used d == 0)) [
  | inl e ↦
      let zero_used : used d ≡ 0 = ground arith in
      let empty : words d ≡ [] = ap (words_from d.qinout d.qrp) zero_used in
      let (g, _) = get_none d r zero_used in rw (g, empty) (refl, r)
  | inr e ↦ let (w, r', _) = get_some d r (ground arith) in (rw w refl, r')
]
call-fifo_call d peeks r = elim (Bool-cases (used d == 0)) [
  | inl e ↦
      let zero_used : used d ≡ 0 = ground arith in
      let empty : words d ≡ [] = ap (words_from d.qinout d.qrp) zero_used in
      let (_, p) = get_none d r zero_used in rw (p, empty) (refl, r)
  | inr e ↦ let (w, r', p) = get_some d r (ground arith) in (rw (p, w) refl, r)
]
call-fifo_call d asks_empty r = (ap (λ b. (words d, flag b)) (sym (tests d r).0), r)

-- Any calls of the functions give the results that a queue of at most 127 words gives: a word that
-- does not fit is dropped, and an empty queue gives 0.
pub results-fifo_results :
    (d : HttpServerPrivate) (calls : List QueueCall)
    → IsRing d
    → results d calls ≡ fifo_results (words d) calls
results-fifo_results d [] r = refl
results-fifo_results d (q ∷ qs) r =
    let (same, r') = call-fifo_call d q r in
    rw same (ap (λ rest. (call d q).1 ∷ rest) (results-fifo_results (call d q).0 qs r'))
