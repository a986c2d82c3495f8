-- ===== src/HttpServer/Tests.antt =====
-- The thread of src/zm_http_server.cpp and its ring at concrete inputs.
use deconz.Prelude.{
  count_of, ℕ, zero, suc, ◌<◌, ◌≡◌, refl, true, false, none, some, List, [], ◌∷◌, ◌++◌, arith,
  length, replicate,
}
use deconz.HttpServer.{
  get_client_for_handle, HttpServerPrivate, Calls, no_one, proxied, failed, done, relay, is_ssl,
  cli_at, turn, is_told_to_stop, http_thread_func, shutdown, new_server, queue_peek, queue_is_empty,
  thread_round, accept_client, queue_space_for_words, queue_free_words, serve_client, ssl_accepted,
  not_connected, tcp_opened, tcp_unconnected, tcp_written, ssl_closed, tcp_closed,
}
use deconz.HttpServer.Fifo.{
  IsRing, puts, gets, peeks, asks_empty, asks_space, results, fifo_results, words,
  results-fifo_results,
}
use deconz.HttpServer.Sockets.{IsKept, http_thread_func-IsKept}
use deconz.HttpServer.Handles.{is_accept}
use deconz.HttpServer.Handles.Found.{get_client_for_handle-http_thread_func}
use deconz.HttpServer.Turns.{IsCalm, round_robin, http_thread_func-round_robin}
use deconz.HttpServer.Stop.{shutdown_stops}

abbrev memory : List ℕ
memory = replicate 128 0

-- A round that accepts no one and relays two bytes to the HTTP port.
abbrev calm : Calls
calm = record {
  locked = true;
  accept = no_one;
  handshake = done;
  ssl_read = some (1 ∷ 2 ∷ []);
  tcp_read = none;
  tcp_takes = true;
  ssl_takes = true;
}

abbrev busy : Calls
busy = record calm { locked = false }

-- A round that accepts a client, and one that fails in the handshake.
abbrev accepts : Calls
accepts = record calm { accept = proxied 10 11 }

abbrev fails : Calls
fails = record calm { handshake = failed }

-- The connection to the HTTP port fails: only the TLS socket is closed.
abbrev rejects : Calls
rejects = record calm { accept = not_connected 10 11 }

-- The positions are about to wrap.
abbrev wrapping : HttpServerPrivate
wrapping = record (new_server memory) { qrp = 4294967295; qwp = 4294967295 }

wrapping-IsRing : IsRing wrapping
wrapping-IsRing = record {
  size = refl;
  rp_in = omega arith;
  wp_in = omega arith;
  fits = omega arith;
}

results-fifo_results_example :
    results wrapping
      (puts 7 ∷ puts 8 ∷ asks_space 126 ∷ gets ∷ peeks ∷ gets ∷ gets ∷ asks_empty ∷ [])
    ≡ fifo_results
        (words wrapping)
        (puts 7 ∷ puts 8 ∷ asks_space 126 ∷ gets ∷ peeks ∷ gets ∷ gets ∷ asks_empty ∷ [])
results-fifo_results_example =
    results-fifo_results wrapping
      (puts 7 ∷ puts 8 ∷ asks_space 126 ∷ gets ∷ peeks ∷ gets ∷ gets ∷ asks_empty ∷ [])
      wrapping-IsRing

http_thread_func-IsKept_example :
    let (_, d', es) =
      http_thread_func (accepts ∷ busy ∷ rejects ∷ fails ∷ []) (new_server memory) in
    IsKept (new_server memory) d' es
http_thread_func-IsKept_example =
    http_thread_func-IsKept (accepts ∷ busy ∷ rejects ∷ fails ∷ []) (new_server memory)

-- One client comes, has its bytes relayed twice, and is closed when its handshake fails.
one_comes_and_goes :
    let (_, d', es) = http_thread_func (accepts ∷ busy ∷ calm ∷ fails ∷ []) (new_server memory) in
    (d'.clients ≡ [])
    × (es
        ≡ ssl_accepted 10
          ∷ tcp_opened 11
          ∷ tcp_written 11 (1 ∷ 2 ∷ [])
          ∷ tcp_written 11 (1 ∷ 2 ∷ [])
          ∷ tcp_closed 11
          ∷ ssl_closed 10
          ∷ [])
unfolding http_thread_func thread_round accept_client serve_client relay is_told_to_stop
    queue_is_empty queue_peek queue_space_for_words queue_free_words
one_comes_and_goes = (refl, refl)

one_is_rejected :
    let (_, d', es) = http_thread_func (rejects ∷ []) (new_server memory) in
    (d'.clients ≡ [])
    × (es ≡ ssl_accepted 10 ∷ tcp_opened 11 ∷ tcp_unconnected 11 ∷ ssl_closed 10 ∷ [])
unfolding http_thread_func thread_round accept_client serve_client relay is_told_to_stop
    queue_is_empty queue_peek queue_space_for_words queue_free_words
one_is_rejected = (refl, refl)

-- Two clients, and the turn of the second.
abbrev two : HttpServerPrivate
two = record (new_server memory) {
  clients =
      record { handle = 0x30000; ssl_sock = 10; tcp_sock = 11 }
      ∷ record { handle = 0x50001; ssl_sock = 12; tcp_sock = 13 }
      ∷ [];
  client_iter = 1;
}

two_ssl : (i : ℕ) → i < length two.clients → is_ssl (cli_at two.clients i) ≡ true
two_ssl zero h = refl
two_ssl (suc zero) h = refl
two_ssl (suc (suc i)) h = absurd (omega arith)

calm-IsCalm : IsCalm calm
unfolding relay
calm-IsCalm = record { locked = refl; accept = refl; open_ = λ c. refl }

two_go : is_told_to_stop two ≡ false
unfolding is_told_to_stop queue_peek queue_is_empty
two_go = refl

http_thread_func-round_robin_example :
    let (running, d', es) = http_thread_func (calm ∷ calm ∷ calm ∷ []) two in
    (running ≡ true)
    × (d'.clients ≡ two.clients)
    × (es ≡ round_robin (calm ∷ calm ∷ calm ∷ []) two.clients (turn two))
http_thread_func-round_robin_example =
    http_thread_func-round_robin (calm ∷ calm ∷ calm ∷ []) two
      (calm-IsCalm, (calm-IsCalm, (calm-IsCalm, tt))) two_go (omega arith) (omega arith) two_ssl

-- The first of two clients is closed in its turn: the second takes its place and is passed over.
abbrev first_turn : HttpServerPrivate
first_turn = record two { client_iter = 0 }

passed_over : turn (http_thread_func (fails ∷ []) first_turn).1 ≡ 0
unfolding http_thread_func thread_round accept_client serve_client relay is_told_to_stop
    queue_is_empty queue_peek queue_space_for_words queue_free_words
passed_over = refl

shutdown_stops_example :
    http_thread_func ((busy ∷ busy ∷ []) ++ calm ∷ calm ∷ []) (shutdown two)
    ≡ (false, record (shutdown two) { qrp = 0; qwp = 0 }, [])
shutdown_stops_example = shutdown_stops (busy ∷ busy ∷ []) calm (calm ∷ []) two refl refl refl

-- Three clients come, and the first of them goes in its second turn.
abbrev three_come : List Calls
three_come = accepts ∷ accepts ∷ accepts ∷ fails ∷ []

few_accepts : count_of is_accept (http_thread_func three_come (new_server memory)).2 < 0x7FFF
unfolding http_thread_func thread_round accept_client serve_client relay is_told_to_stop
    queue_is_empty queue_peek queue_space_for_words queue_free_words
few_accepts = omega arith

two_left : 1 < length (http_thread_func three_come (new_server memory)).1.clients
unfolding http_thread_func thread_round accept_client serve_client relay is_told_to_stop
    queue_is_empty queue_peek queue_space_for_words queue_free_words
two_left = omega arith

get_client_for_handle-http_thread_func_example :
    let (_, d, es) = http_thread_func three_come (new_server memory) in
    (is_ssl (cli_at d.clients 1) ≡ true)
    × (get_client_for_handle d.clients (cli_at d.clients 1).handle ≡ some (cli_at d.clients 1))
get_client_for_handle-http_thread_func_example =
    get_client_for_handle-http_thread_func memory three_come 1 few_accepts two_left
