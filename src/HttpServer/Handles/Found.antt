-- ===== src/HttpServer/Handles/Found.antt =====
-- src/zm_http_server.cpp: the handles of the clients, and getClientForHandle.
use deconz.Prelude.{
  count_of, count_of-append, ℕ, zero, suc, ◌+◌, ◌/◌, ◌%◌, ◌^◌, ◌<◌, ◌≡◌, refl, ap, Bool, true,
  false, not, some, List, [], ◌∷◌, ◌++◌, arith, length, ◌==◌, if◌then◌else◌, Bool-cases, inl, inr,
  eq_refl,
}
use deconz.HttpServer.{
  NClient, HttpServerPrivate, SocketEvent, ssl_closed, tcp_closed, Accept, Calls, accept_client,
  relay, cli_at, turn, is_ssl, serve_client, is_told_to_stop, thread_round, http_thread_func,
  new_server, queue_space_for_words, get_client_for_handle,
}
use deconz.HttpServer.Sockets.{after_none, turn_in}
use deconz.HttpServer.Handles.{IsNumbered, Numbers, is_accept, accepted-Numbers, removed-IsNumbered}

accept_client-Numbers :
    (a : Accept) (d : HttpServerPrivate)
    → IsNumbered d
    → d.handle_evolution + count_of is_accept (accept_client a d).1 < 0x7FFF
    → Numbers d (accept_client a d).0 (accept_client a d).1
unfolding accept_client
accept_client-Numbers a d n = elim (Bool-cases (queue_space_for_words d 2)) [
  | inl e ↦ rw (accept_client, e) (accepted-Numbers a d n)
  | inr e ↦ rw (accept_client, e) (λ h. (n, omega arith))
]

relay_accepts : (k : Calls) (c : NClient) → count_of is_accept (relay k c).1 ≡ 0
unfolding relay
relay_accepts k c = after_none is_accept k.handshake k c (λ t b. refl) (λ t b. refl)

serve_client-Numbers :
    (k : Calls) (d : HttpServerPrivate)
    → IsNumbered d
    → Numbers d (serve_client k d).0 (serve_client k d).1
unfolding serve_client
serve_client-Numbers k d n = elim (Bool-cases (length d.clients == 0)) [
  | inl e ↦ rw (serve_client, e) (n, omega arith)
  | inr e ↦
      let kept : (i : ℕ) → IsNumbered (record d { client_iter = i }) =
        λ i. record { few = n.few; small = n.small; each = n.each; distinct = n.distinct } in
      elim (Bool-cases (is_ssl (cli_at d.clients (turn d)))) [
        | inr plain ↦ rw (serve_client, e, plain) (kept ((turn d + 1) % 2 ^ 32), omega arith)
        | inl ssl ↦
            let cli = cli_at d.clients (turn d) in
            let none_ = relay_accepts k cli in
            elim (Bool-cases (relay k cli).0) [
              | inl close ↦
                  rw (serve_client, e, ssl, close)
                    (
                      removed-IsNumbered d _ (turn d) (turn_in d e) refl refl n,
                      omega (
                        arith,
                        none_,
                        count_of-append is_accept (relay k cli).1
                            (tcp_closed cli.tcp_sock ∷ ssl_closed cli.ssl_sock ∷ []),
                      ),
                    )
              | inr open_ ↦
                  rw (serve_client, e, ssl, open_) (kept ((turn d + 1) % 2 ^ 32), omega arith)
            ]
      ]
]

then-Numbers :
    (d d1 d2 : HttpServerPrivate) (es es' : List SocketEvent)
    → (d1.handle_evolution ≡ d.handle_evolution + count_of is_accept es)
    → Numbers d1 d2 es'
    → Numbers d d2 (es ++ es')
then-Numbers d d1 d2 es es' e n = (n.0, omega (arith, n.1, count_of-append is_accept es es'))

by_branch :
    (locked stop : Bool) (d d2 : HttpServerPrivate) (es : List SocketEvent)
    → IsNumbered d
    → (d.handle_evolution + count_of is_accept es < 0x7FFF → Numbers d d2 es)
    → let r : Bool × HttpServerPrivate × List SocketEvent =
        if not locked
        then (true, d, [])
        else (if stop then (false, record d { qrp = 0; qwp = 0 }, []) else (true, d2, es)) in
      d.handle_evolution + count_of is_accept r.2 < 0x7FFF → Numbers d r.1 r.2
by_branch false stop d d2 es n k h = (n, omega arith)
by_branch true true d d2 es n k h =
    (record { few = n.few; small = n.small; each = n.each; distinct = n.distinct }, omega arith)
by_branch true false d d2 es n k h = k h

thread_round-Numbers :
    (k : Calls) (d : HttpServerPrivate)
    → IsNumbered d
    → let (_, d', es) = thread_round k d in
      d.handle_evolution + count_of is_accept es < 0x7FFF → Numbers d d' es
unfolding thread_round
thread_round-Numbers k d n = by_branch k.locked (is_told_to_stop d) d _ _ n (λ h.
    let (d1, es) = accept_client k.accept d in
    let (d2, es') = serve_client k d1 in
    let (n1, e1) =
      accept_client-Numbers k.accept d n (omega (arith, count_of-append is_accept es es')) in
    then-Numbers d d1 d2 es es' e1 (serve_client-Numbers k d1 n1))

http_thread_func-Numbers :
    (ks : List Calls) (d : HttpServerPrivate)
    → IsNumbered d
    → let (_, d', es) = http_thread_func ks d in
      d.handle_evolution + count_of is_accept es < 0x7FFF → Numbers d d' es
unfolding http_thread_func
http_thread_func-Numbers [] d n = λ h. (n, omega arith)
http_thread_func-Numbers (k ∷ ks) d n =
    let (running, d1, es) = thread_round k d in
    let (_, d2, es') = http_thread_func ks d1 in
    let now = thread_round-Numbers k d n in
    elim (Bool-cases running) [
      | inl on ↦
          rw (http_thread_func, on)
            (λ h.
              let (n1, e1) = now (omega (arith, count_of-append is_accept es es')) in
              then-Numbers d d1 d2 es es' e1 (
                http_thread_func-Numbers ks d1 n1
                  (omega (arith, count_of-append is_accept es es'))))
      | inr off ↦ rw (http_thread_func, off) now
    ]

-- The first client with a handle is found.
found_at :
    (cs : List NClient) (i : ℕ)
    → i < length cs
    → ((j : ℕ) → j < length cs → (cli_at cs j).handle ≡ (cli_at cs i).handle → j ≡ i)
    → get_client_for_handle cs (cli_at cs i).handle ≡ some (cli_at cs i)
unfolding get_client_for_handle
found_at [] i h only = absurd (omega arith)
found_at (c ∷ cs) zero h only = rw (get_client_for_handle, eq_refl c.handle) refl
found_at (c ∷ cs) (suc i) h only =
    let ih = found_at cs i (omega arith) (λ j hj e. ground (arith, only (suc j) (omega arith) e)) in
    elim (Bool-cases (c.handle == (cli_at cs i).handle)) [
      | inl e ↦ absurd (ground (arith, only 0 (omega arith)))
      | inr e ↦ rw (get_client_for_handle, e, ih) refl
    ]

-- As long as the thread of a new server has accepted fewer than 32767 sockets, the handle of any of its clients has
-- the TLS flag, and `getClientForHandle` returns that client for it.
pub get_client_for_handle-http_thread_func :
    (memory : List ℕ) (ks : List Calls) (i : ℕ)
    → let (_, d, es) = http_thread_func ks (new_server memory) in
      count_of is_accept es < 0x7FFF
      → i < length d.clients
      → (is_ssl (cli_at d.clients i) ≡ true)
        × (get_client_for_handle d.clients (cli_at d.clients i).handle ≡ some (cli_at d.clients i))
get_client_for_handle-http_thread_func memory ks i h hi =
    let (_, d, es) = http_thread_func ks (new_server memory) in
    let start : IsNumbered (new_server memory) = record {
      few = omega arith;
      small = omega arith;
      each = λ i hi. absurd (omega arith);
      distinct = λ i j hi hj e. absurd (omega arith);
    } in
    let (n, _) = http_thread_func-Numbers ks (new_server memory) start (omega arith) in
    (
      (n.each i hi).1,
      found_at d.clients i hi (λ j hj e. n.distinct j i hj hi (ap (λ x. x / 2 ^ 17) e)),
    )
