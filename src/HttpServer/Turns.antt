-- ===== src/HttpServer/Turns.antt =====
-- src/zm_http_server.cpp: the order in which the thread serves its clients.
use deconz.Prelude.{
  ℕ, ◌+◌, ◌%◌, ◌^◌, ◌<◌, ◌≡◌, refl, sym, subst, ap, ◌∙◌, true, false, List, [], ◌∷◌, ◌++◌, arith,
  length, ◌==◌, Bool-cases, inl, inr, All,
}
use native.Mathlib.Nat.{mod_self, mod-eq_of_lt}
use deconz.HttpServer.{
  NClient, HttpServerPrivate, SocketEvent, Calls, no_one, accept_client, relay, serve_client,
  is_told_to_stop, thread_round, http_thread_func, queue_space_for_words, queue_peek,
  queue_is_empty, is_ssl, cli_at, turn,
}

-- A round that gets the lock, accepts no one, and closes no client.
pub record IsCalm (k : Calls) : Type 0 where
  pub locked : k.locked ≡ true
  pub accept : k.accept ≡ no_one
  pub open_ : (c : NClient) → (relay k c).0 ≡ false

-- The clients in turn from `i` on, each in one round.
abbrev pub round_robin : List Calls → List NClient → ℕ → List SocketEvent
round_robin [] cs i = []
round_robin (k ∷ ks) cs i = (relay k (cli_at cs i)).1 ++ round_robin ks cs ((i + 1) % length cs)

accept_no_one : (d : HttpServerPrivate) → accept_client no_one d ≡ (d, [])
unfolding accept_client
accept_no_one d = elim (Bool-cases (queue_space_for_words d 2)) [
  | inl e ↦ rw (accept_client, e) refl
  | inr e ↦ rw (accept_client, e) refl
]

abbrev served : HttpServerPrivate → HttpServerPrivate
served d = record d { client_iter = (turn d + 1) % 2 ^ 32 }

serve_calm :
    (k : Calls) (d : HttpServerPrivate)
    → 0 < length d.clients
    → is_ssl (cli_at d.clients (turn d)) ≡ true
    → (relay k (cli_at d.clients (turn d))).0 ≡ false
    → serve_client k d ≡ (served d, (relay k (cli_at d.clients (turn d))).1)
unfolding serve_client
serve_calm k d some_ ssl open_ =
    let e : (length d.clients == 0) ≡ false = ground arith in rw (serve_client, e, ssl, open_) refl

turn-served :
    (d : HttpServerPrivate)
    → 0 < length d.clients
    → length d.clients < 2 ^ 32
    → turn (served d) ≡ (turn d + 1) % length d.clients
turn-served d some_ few =
    let before : turn d < length d.clients = ground arith in
    elim (Bool-cases (turn d + 1 == length d.clients)) [
      | inl e ↦
          let last : turn d + 1 ≡ length d.clients = ground arith in
          let first : turn (served d) ≡ 0 = ground arith in
          first ∙ sym (mod_self (length d.clients)) ∙ ap (λ x. x % length d.clients) (sym last)
      | inr e ↦
          let more : turn d + 1 < length d.clients = ground arith in
          let next : turn (served d) ≡ turn d + 1 = ground arith in next ∙ sym (mod-eq_of_lt more)
    ]

thread_round_calm :
    (k : Calls) (d : HttpServerPrivate)
    → IsCalm k
    → is_told_to_stop d ≡ false
    → 0 < length d.clients
    → is_ssl (cli_at d.clients (turn d)) ≡ true
    → thread_round k d ≡ (true, served d, (relay k (cli_at d.clients (turn d))).1)
unfolding thread_round
thread_round_calm k d calm go some_ ssl =
    let accepts : accept_client k.accept d ≡ (d, []) =
      subst (λ a. accept_client a d ≡ (d, [])) (sym calm.accept) (accept_no_one d) in
    simp
      (
        thread_round,
        calm.locked,
        go,
        accepts,
        serve_calm k d some_ ssl (calm.open_ (cli_at d.clients (turn d))),
      )
      refl

told_same : (d : HttpServerPrivate) → is_told_to_stop (served d) ≡ is_told_to_stop d
unfolding is_told_to_stop queue_peek queue_is_empty
told_same d = refl

-- With fewer than 2^32 clients, all of them TLS, one at least, and no message to stop: in rounds that get the
-- lock, accept no one and close no client, the thread relays for the clients one after the other, from the one whose
-- turn it is, going round, and keeps them all.
pub http_thread_func-round_robin :
    (ks : List Calls) (d : HttpServerPrivate)
    → All IsCalm ks
    → is_told_to_stop d ≡ false
    → 0 < length d.clients
    → length d.clients < 2 ^ 32
    → ((i : ℕ) → i < length d.clients → is_ssl (cli_at d.clients i) ≡ true)
    → let (running, d', es) = http_thread_func ks d in
      (running ≡ true) × (d'.clients ≡ d.clients) × (es ≡ round_robin ks d.clients (turn d))
unfolding http_thread_func
http_thread_func-round_robin [] d calm go some_ few ssl = (refl, refl, refl)
http_thread_func-round_robin (k ∷ ks) d calm go some_ few ssl =
    let now = thread_round_calm k d calm.0 go some_ (ssl (turn d) (ground arith)) in
    let (on, kept, es) =
      http_thread_func-round_robin ks (served d) calm.1 (told_same d ∙ go) some_ few ssl in
    rw (http_thread_func, now)
      (
        on,
        kept,
        ap (λ xs. (relay k (cli_at d.clients (turn d))).1 ++ xs)
            (es ∙ ap (round_robin ks d.clients) (turn-served d some_ few)),
      )
