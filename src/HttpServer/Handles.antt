-- ===== src/HttpServer/Handles.antt =====
-- src/zm_http_server.cpp: the numbers in the handles of the clients.
pub mod Found
use deconz.Prelude.{
  count_of, one, count_of-append, ℕ, zero, suc, ◌+◌, ◌-◌, ◌*◌, ◌/◌, ◌%◌, ◌^◌, ◌<◌, ◌≤◌, ◌≡◌, ◌≢◌,
  refl, sym, ap, ◌∙◌, subst, Bool, true, false, not, Option, none, some, List, [], ◌∷◌, ◌⊎◌, ◌++◌,
  arith, length, length-set, set, get_or, get_or-set_self, get_or-set_ne, ◌==◌, leb, if◌then◌else◌,
  Bool-cases, inl, inr, eq_refl,
}
use deconz.HttpServer.{
  NClient, HttpServerPrivate, SocketEvent, ssl_accepted, ssl_closed, tcp_closed, Accept, no_one,
  not_opened, not_connected, proxied, Calls, Handshake, next_evolution, handle_of, new_client,
  accepted, accept_client, relay, last_client, drop_last, cli_at, no_client, turn, is_ssl,
  serve_client, is_told_to_stop, thread_round, http_thread_func, new_server, queue_space_for_words,
  get_client_for_handle,
}
use deconz.HttpServer.Sockets.{after_none, turn_in}

length-drop_last : (cs : List NClient) → length (drop_last cs) ≡ length cs - 1
length-drop_last [] = refl
length-drop_last (c ∷ []) = refl
length-drop_last (c ∷ x ∷ cs) = omega (arith, length-drop_last (x ∷ cs))

back_last : (cs : List NClient) → last_client cs ≡ cli_at cs (length cs - 1)
back_last [] = refl
back_last (c ∷ []) = refl
back_last (c ∷ x ∷ cs) =
    let here : length (x ∷ cs) - 1 ≡ length cs = omega arith in
    let there : suc (length cs) ≡ length (c ∷ x ∷ cs) - 1 = omega arith in
    back_last (x ∷ cs) ∙ ap (cli_at (x ∷ cs)) here ∙ ap (cli_at (c ∷ x ∷ cs)) there

cli_at-drop_last :
    (cs : List NClient) (j : ℕ) → suc j < length cs → cli_at (drop_last cs) j ≡ cli_at cs j
cli_at-drop_last [] j h = absurd (omega arith)
cli_at-drop_last (c ∷ []) j h = absurd (omega arith)
cli_at-drop_last (c ∷ x ∷ cs) zero h = refl
cli_at-drop_last (c ∷ x ∷ cs) (suc j) h = cli_at-drop_last (x ∷ cs) j (omega arith)

cli_at-append :
    (cs : List NClient) (c : NClient) (j : ℕ)
    → j < length cs
    → cli_at (cs ++ c ∷ []) j ≡ cli_at cs j
cli_at-append [] c j h = absurd (omega arith)
cli_at-append (x ∷ cs) c zero h = refl
cli_at-append (x ∷ cs) c (suc j) h = cli_at-append cs c j (omega arith)

cli_at_end : (cs : List NClient) (c : NClient) → cli_at (cs ++ c ∷ []) (length cs) ≡ c
cli_at_end [] c = refl
cli_at_end (x ∷ cs) c = cli_at_end cs c

-- Where the client at `j` was before the one at `i` was removed.
abbrev from_where : List NClient → ℕ → ℕ → ℕ
from_where cs i j = if j == i then length cs - 1 else j

cli_at_removed :
    (cs : List NClient) (i j : ℕ)
    → i < length cs
    → suc j < length cs
    → cli_at (drop_last (set cs i (last_client cs))) j ≡ cli_at cs (from_where cs i j)
cli_at_removed cs i j hi hj =
    cli_at-drop_last (set cs i (last_client cs)) j (omega (arith, length-set cs i (last_client cs)))
    ∙ elim (Bool-cases (j == i)) [
      | inl e ↦
          let same : j ≡ i = ground arith in
          rw e (
            subst (λ x. cli_at (set cs i (last_client cs)) x ≡ cli_at cs (length cs - 1)) (sym same)
              (get_or-set_self cs i (last_client cs) no_client hi ∙ back_last cs))
      | inr e ↦
          let apart : i ≢ j = ground arith in
          rw e (get_or-set_ne cs i j (last_client cs) no_client apart)
    ]

abbrev pub evolution : NClient → ℕ
evolution c = c.handle / 2 ^ 17

-- Each client has the number of its accept, and no two have the same.
pub record IsNumbered (d : HttpServerPrivate) : Type 0 where
  pub few : length d.clients ≤ d.handle_evolution
  pub small : d.handle_evolution < 0x7FFF
  pub each :
      (i : ℕ)
      → i < length d.clients
      → (evolution (cli_at d.clients i) ≤ d.handle_evolution) × (is_ssl (cli_at d.clients i) ≡ true)
  pub distinct :
      (i j : ℕ)
      → i < length d.clients
      → j < length d.clients
      → evolution (cli_at d.clients i) ≡ evolution (cli_at d.clients j)
      → i ≡ j

handle_bits :
    (e n : ℕ)
    → e < 0x7FFF
    → n < 0x10000
    → (handle_of e n / 2 ^ 17 ≡ e) × ((handle_of e n / 0x10000) % 2 ≡ 1)
handle_bits e n he hn = (omega arith, omega arith)

-- The client at the end is a new one.
cli_at_accepted :
    (cs : List NClient) (c : NClient) (j : ℕ)
    → j < suc (length cs)
    → ((j < length cs) × (cli_at (cs ++ c ∷ []) j ≡ cli_at cs j))
      ⊎ ((j ≡ length cs) × (cli_at (cs ++ c ∷ []) j ≡ c))
cli_at_accepted cs c j h = elim (Bool-cases (j == length cs)) [
  | inl e ↦
      let same : length cs ≡ j = ground arith in
      inr (sym same, subst (λ x. cli_at (cs ++ c ∷ []) x ≡ c) same (cli_at_end cs c))
  | inr e ↦ let before : j < length cs = ground arith in inl (before, cli_at-append cs c j before)
]

length-append_one : (cs : List NClient) (c : NClient) → length (cs ++ c ∷ []) ≡ suc (length cs)
length-append_one [] c = refl
length-append_one (x ∷ cs) c = ap suc (length-append_one cs c)

-- How many were accepted.
abbrev pub is_accept : SocketEvent → Bool
is_accept (ssl_accepted s) = true
is_accept _ = false

-- `d'` comes after `d` with the events `es`.
abbrev pub Numbers : HttpServerPrivate → HttpServerPrivate → List SocketEvent → Type 0
Numbers d d' es = IsNumbered d' × (d'.handle_evolution ≡ d.handle_evolution + count_of is_accept es)

pub accepted-Numbers :
    (a : Accept) (d : HttpServerPrivate)
    → IsNumbered d
    → d.handle_evolution + count_of is_accept (accepted a d).1 < 0x7FFF
    → Numbers d (accepted a d).0 (accepted a d).1
accepted-Numbers no_one d n h = (n, omega arith)
accepted-Numbers (not_opened ssl) d n h =
    let next : next_evolution d.handle_evolution ≡ d.handle_evolution + 1 = ground arith in
    (
      record {
        few = omega (arith, n.few);
        small = omega arith;
        each = λ i hi. (let (low, ssl_) = n.each i hi in (omega arith, ssl_));
        distinct = n.distinct;
      },
      next,
    )
accepted-Numbers (not_connected ssl tcp) d n h =
    let next : next_evolution d.handle_evolution ≡ d.handle_evolution + 1 = ground arith in
    (
      record {
        few = omega (arith, n.few);
        small = omega arith;
        each = λ i hi. (let (low, ssl_) = n.each i hi in (omega arith, ssl_));
        distinct = n.distinct;
      },
      next,
    )
accepted-Numbers (proxied ssl tcp) d n h =
    let next : next_evolution d.handle_evolution ≡ d.handle_evolution + 1 = ground arith in
    let c = new_client d ssl tcp in
    let len = length-append_one d.clients c in
    let small : next_evolution d.handle_evolution < 0x7FFF = omega arith in
    let (number, bit) =
      handle_bits (next_evolution d.handle_evolution) (length d.clients) small
        (omega (arith, n.few)) in
    (
      record {
        few = omega (arith, n.few, len);
        small = small;
        each = λ i hi. (elim (cli_at_accepted d.clients c i (omega (arith, len))) [
          | inl (old, e) ↦ let (low, ssl_) = n.each i old in rw e (omega arith, ssl_)
          | inr (new, e) ↦ rw e (omega (arith, number), rw bit refl)
        ]);
        distinct = λ i j hi hj same. (elim (cli_at_accepted d.clients c i (omega (arith, len))) [
          | inl (old, e) ↦
              let low = (n.each i old).0 in
              elim (cli_at_accepted d.clients c j (omega (arith, len))) [
                | inl (old', e') ↦
                    n.distinct i j old old' (ap evolution (sym e) ∙ same ∙ ap evolution e')
                | inr (new', e') ↦ absurd (omega (arith, ap evolution e, ap evolution e', number))
              ]
          | inr (new, e) ↦ elim (cli_at_accepted d.clients c j (omega (arith, len))) [
            | inl (old', e') ↦
                let low = (n.each j old').0 in
                absurd (omega (arith, ap evolution e, ap evolution e', number))
            | inr (new', e') ↦ new ∙ sym new'
          ]
        ]);
      },
      next,
    )

-- A client is removed.
pub removed-IsNumbered :
    (d d' : HttpServerPrivate) (i : ℕ)
    → i < length d.clients
    → d'.clients ≡ drop_last (set d.clients i (last_client d.clients))
    → d'.handle_evolution ≡ d.handle_evolution
    → IsNumbered d
    → IsNumbered d'
removed-IsNumbered d d' i hi e ev n =
    let len : suc (length d'.clients) ≡ length d.clients = omega (
      arith,
      ap length e,
      length-drop_last (set d.clients i (last_client d.clients)),
      length-set d.clients i (last_client d.clients),
    ) in
    let at : (j : ℕ)
        → j < length d'.clients
        → cli_at d'.clients j ≡ cli_at d.clients (from_where d.clients i j) =
      λ j hj. (ap (λ cs. cli_at cs j) e ∙ cli_at_removed d.clients i j hi (omega arith)) in
    let in_ : (j : ℕ) → j < length d'.clients → from_where d.clients i j < length d.clients =
      λ j hj. ground arith in
    record {
      few = omega (arith, n.few);
      small = omega (arith, n.small);
      each = λ j hj.
          (let (low, ssl) = n.each (from_where d.clients i j) (in_ j hj) in
            (omega (arith, ap evolution (at j hj)), ap is_ssl (at j hj) ∙ ssl));
      distinct = λ j k hj hk same.
          (let from_same =
              n.distinct (from_where d.clients i j) (from_where d.clients i k) (in_ j hj) (in_ k hk)
                (ap evolution (sym (at j hj)) ∙ same ∙ ap evolution (at k hk)) in
            ground arith);
    }
