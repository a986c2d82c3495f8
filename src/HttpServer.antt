-- ===== src/HttpServer.antt =====
-- src/zm_http_server.cpp: the thread that accepts TLS clients and relays between each and the HTTP port,
-- and the ring through which it is told to stop. Sockets are numbers; what the socket library returns
-- for each call is an argument, and what it is told to do is returned in order.
pub mod Fifo
pub mod Sockets
pub mod Turns
pub mod Stop
pub mod Handles
mod Tests
use deconz.Prelude.{
  ℕ, zero, suc, ◌+◌, ◌-◌, ◌*◌, ◌%◌, ◌/◌, ◌^◌, Bool, true, false, not, ◌&&◌, ◌||◌, Option, none,
  some, List, [], ◌∷◌, ◌++◌, ltb, leb, ◌==◌, if◌then◌else◌, length, set, get_or,
}

-- `NClient`
pub record NClient : Type 0 where
  pub handle : ℕ
  pub ssl_sock : ℕ
  pub tcp_sock : ℕ

-- The members of `HttpServerPrivate` that the mutex protects, with `handleEvolution` and `clientIter`.
pub record HttpServerPrivate : Type 0 where
  pub qrp : ℕ
  pub qwp : ℕ
  pub qinout : List ℕ
  pub clients : List NClient
  pub handle_evolution : ℕ
  pub client_iter : ℕ

abbrev pub th_msg_shutdown : ℕ
th_msg_shutdown = 1

abbrev pub th_queue_size : ℕ
th_queue_size = 128

-- `queuePut`; `& (TH_QUEUE_SIZE - 1)` is the remainder.
unfoldable pub queue_put : HttpServerPrivate → ℕ → HttpServerPrivate
queue_put d word =
    if (d.qwp + 1) % 2 ^ 32 % th_queue_size == d.qrp % th_queue_size
    then d
    else record d { qinout = set d.qinout (d.qwp % th_queue_size) word; qwp = (d.qwp + 1) % 2 ^ 32 }

-- `queueGet`
unfoldable pub queue_get : HttpServerPrivate → ℕ × HttpServerPrivate
queue_get d =
    if d.qrp == d.qwp
    then (0, d)
    else (get_or d.qinout (d.qrp % th_queue_size) 0, record d { qrp = (d.qrp + 1) % 2 ^ 32 })

-- `queuePeek`
unfoldable pub queue_peek : HttpServerPrivate → ℕ
queue_peek d = if d.qrp == d.qwp then 0 else get_or d.qinout (d.qrp % th_queue_size) 0

unfoldable pub queue_is_empty : HttpServerPrivate → Bool
queue_is_empty d = d.qrp == d.qwp

-- `queueFreeWords`, in arithmetic of 32 bits
unfoldable pub queue_free_words : HttpServerPrivate → ℕ
queue_free_words d =
    th_queue_size - 1 - (d.qwp + 2 ^ 32 - d.qrp + th_queue_size) % 2 ^ 32 % th_queue_size

unfoldable pub queue_space_for_words : HttpServerPrivate → ℕ → Bool
unfolding queue_free_words
queue_space_for_words d count = leb count (queue_free_words d)

-- `getClientForHandle`
unfoldable pub get_client_for_handle : List NClient → ℕ → Option NClient
get_client_for_handle [] cli_handle = none
get_client_for_handle (c ∷ cs) cli_handle =
    let later = get_client_for_handle cs cli_handle in
    if c.handle == cli_handle then some c else later

-- What the thread does with sockets. `tcp_opened` is `N_TcpInit`, and `tcp_unconnected` a socket for which
-- `N_TcpConnect` then fails.
pub data SocketEvent : Type 0 where
  ssl_accepted ssl_closed tcp_opened tcp_unconnected tcp_closed : ℕ → SocketEvent
  tcp_written ssl_written : ℕ → List ℕ → SocketEvent

-- What `N_SslAccept` finds: nothing, or a socket. For that `N_TcpInit` fails; or it gives a second
-- socket, which `N_TcpConnect` cannot connect to the HTTP port, or does connect.
pub data Accept : Type 0 where
  no_one : Accept
  not_opened : ℕ → Accept
  not_connected proxied : ℕ → ℕ → Accept

-- The sign of `N_SslHandshake`.
pub data Handshake : Type 0 where
  failed in_progress done : Handshake

-- The results of the calls of one round. `none` is a socket that cannot be read, no bytes a read that
-- returns at most 0, and the write results are whether all bytes were written.
pub record Calls : Type 0 where
  pub locked : Bool
  pub accept : Accept
  pub handshake : Handshake
  pub ssl_read : Option (List ℕ)
  pub tcp_read : Option (List ℕ)
  pub tcp_takes : Bool
  pub ssl_takes : Bool

-- `++handleEvolution`, on 16 bits
abbrev pub next_evolution : ℕ → ℕ
next_evolution e = let next = (e + 1) % 2 ^ 16 in if leb 0x7FFF next then 0 else next

-- `cli.handle`
abbrev pub handle_of : ℕ → ℕ → ℕ
handle_of evolution count = (evolution * 2 ^ 17 + 0x10000 + count) % 2 ^ 32

abbrev pub new_client : HttpServerPrivate → ℕ → ℕ → NClient
new_client d ssl tcp = record {
  handle = handle_of (next_evolution d.handle_evolution) (length d.clients);
  ssl_sock = ssl;
  tcp_sock = tcp;
}

abbrev pub accepted : Accept → HttpServerPrivate → HttpServerPrivate × List SocketEvent
accepted no_one d = (d, [])
accepted (not_opened ssl) d = (
  record d { handle_evolution = next_evolution d.handle_evolution },
  ssl_accepted ssl ∷ ssl_closed ssl ∷ [],
)
accepted (not_connected ssl tcp) d = (
  record d { handle_evolution = next_evolution d.handle_evolution },
  ssl_accepted ssl ∷ tcp_opened tcp ∷ tcp_unconnected tcp ∷ ssl_closed ssl ∷ [],
)
accepted (proxied ssl tcp) d = (
  record d {
    handle_evolution = next_evolution d.handle_evolution;
    clients = d.clients ++ new_client d ssl tcp ∷ [];
  },
  ssl_accepted ssl ∷ tcp_opened tcp ∷ [],
)

-- The part of `httpThreadFunc` that accepts.
unfoldable pub accept_client : Accept → HttpServerPrivate → HttpServerPrivate × List SocketEvent
unfolding queue_space_for_words
accept_client a d = if queue_space_for_words d 2 then accepted a d else (d, [])

-- From one socket to the other, with whether the client needs to be closed: what was read, whether
-- all of it is written, and how it is written.
abbrev pub forward : Option (List ℕ) → Bool → (List ℕ → SocketEvent) → Bool × List SocketEvent
forward none takes written = (false, [])
forward (some []) takes written = (true, [])
forward (some (b ∷ bs)) takes written = (not takes, written (b ∷ bs) ∷ [])

abbrev pub after_handshake : Handshake → Calls → NClient → Bool × List SocketEvent
after_handshake failed k cli = (true, [])
after_handshake in_progress k cli = (false, [])
after_handshake done k cli =
    let (close1, sent_) = forward k.ssl_read k.tcp_takes (tcp_written cli.tcp_sock) in
    let (close2, received) = forward k.tcp_read k.ssl_takes (ssl_written cli.ssl_sock) in
    (close1 || close2, sent_ ++ received)

-- The handshake and what is relayed after it.
unfoldable pub relay : Calls → NClient → Bool × List SocketEvent
relay k cli = after_handshake k.handshake k cli

-- `d->clients.back()`, and `pop_back`
abbrev pub no_client : NClient
no_client = record { handle = 0; ssl_sock = 0; tcp_sock = 0 }

abbrev pub last_client : List NClient → NClient
last_client [] = no_client
last_client (c ∷ []) = c
last_client (c ∷ x ∷ cs) = last_client (x ∷ cs)

abbrev pub drop_last : List NClient → List NClient
drop_last [] = []
drop_last (c ∷ []) = []
drop_last (c ∷ x ∷ cs) = c ∷ drop_last (x ∷ cs)

-- `NCLIENT_HANDLE_IS_SSL_FLAG`, bit 16
abbrev pub is_ssl : NClient → Bool
is_ssl cli = (cli.handle / 0x10000) % 2 == 1

-- The index of the client whose turn it is.
abbrev pub turn : HttpServerPrivate → ℕ
turn d = if leb (length d.clients) d.client_iter then 0 else d.client_iter

abbrev pub cli_at : List NClient → ℕ → NClient
cli_at cs i = get_or cs i no_client

-- The part of `httpThreadFunc` that serves one client.
unfoldable pub serve_client : Calls → HttpServerPrivate → HttpServerPrivate × List SocketEvent
unfolding relay
serve_client k d =
    let cli = cli_at d.clients (turn d) in
    let d' = record d { client_iter = (turn d + 1) % 2 ^ 32 } in
    let (needs_close, out) = relay k cli in
    if length d.clients == 0
    then (d, [])
    else if is_ssl cli
    then (if needs_close
        then (
          record d' { clients = drop_last (set d.clients (turn d) (last_client d.clients)) },
          out ++ tcp_closed cli.tcp_sock ∷ ssl_closed cli.ssl_sock ∷ [],
        )
        else (d', out))
    else (d', [])

-- Whether the word that waits is the one to stop.
unfoldable pub is_told_to_stop : HttpServerPrivate → Bool
unfolding queue_is_empty queue_peek
is_told_to_stop d = not (queue_is_empty d) && (queue_peek d == th_msg_shutdown)

-- One round of the loop of `httpThreadFunc`, with `running` after it.
unfoldable pub thread_round :
    Calls → HttpServerPrivate → Bool × HttpServerPrivate × List SocketEvent
thread_round k d =
    let (d1, out) = accept_client k.accept d in
    let (d2, served) = serve_client k d1 in
    if not k.locked
    then (true, d, [])
    else (if is_told_to_stop d
        then (false, record d { qrp = 0; qwp = 0 }, [])
        else (true, d2, out ++ served))

-- The loop, for as many rounds as there are results.
unfoldable pub http_thread_func :
    List Calls → HttpServerPrivate → Bool × HttpServerPrivate × List SocketEvent
unfolding thread_round
http_thread_func [] d = (true, d, [])
http_thread_func (k ∷ ks) d =
    let (running, d1, out) = thread_round k d in
    let (running', d2, later) = http_thread_func ks d1 in
    if running then (running', d2, out ++ later) else (false, d1, out)

-- What the destructor does under the mutex.
unfoldable pub shutdown : HttpServerPrivate → HttpServerPrivate
unfolding queue_put
shutdown d = queue_put (record d { qrp = 0; qwp = 0 }) th_msg_shutdown

-- The server before its thread starts.
abbrev pub new_server : List ℕ → HttpServerPrivate
new_server memory = record {
  qrp = 0;
  qwp = 0;
  qinout = memory;
  clients = [];
  handle_evolution = 0;
  client_iter = 0;
}
