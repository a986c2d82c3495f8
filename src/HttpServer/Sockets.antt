-- ===== src/HttpServer/Sockets.antt =====
-- src/zm_http_server.cpp: which sockets the thread holds.
use deconz.Prelude.{
  one, count_of, count_of-append, ℕ, zero, suc, ◌+◌, ◌<◌, ◌≡◌, refl, Bool, true, false, not, Option,
  none, some, List, [], ◌∷◌, ◌++◌, arith, length, set, ◌==◌, if◌then◌else◌, Bool-cases, inl, inr,
}
use deconz.HttpServer.{
  NClient, HttpServerPrivate, SocketEvent, ssl_accepted, ssl_closed, tcp_opened, tcp_unconnected,
  tcp_closed, tcp_written, ssl_written, Accept, no_one, not_opened, not_connected, proxied, Calls,
  Handshake, failed, in_progress, done, accept_client, new_client, accepted, forward,
  after_handshake, relay, last_client, drop_last, cli_at, turn, is_ssl, serve_client,
  is_told_to_stop, thread_round, http_thread_func, queue_space_for_words,
}

count_of-drop_last :
    (p : NClient → Bool) (c : NClient) (cs : List NClient)
    → count_of p (drop_last (c ∷ cs)) + one (p (last_client (c ∷ cs))) ≡ count_of p (c ∷ cs)
count_of-drop_last p c [] = omega arith
count_of-drop_last p c (x ∷ cs) = omega (arith, count_of-drop_last p x cs)

drop_last-set :
    (c x : NClient) (cs : List NClient) (i : ℕ) (v : NClient)
    → drop_last (c ∷ set (x ∷ cs) i v) ≡ c ∷ drop_last (set (x ∷ cs) i v)
drop_last-set c x cs zero v = refl
drop_last-set c x cs (suc i) v = refl

-- The client at `i` is the one that is removed.
count_of-removed :
    (p : NClient → Bool) (cs : List NClient) (i : ℕ)
    → i < length cs
    → count_of p (drop_last (set cs i (last_client cs))) + one (p (cli_at cs i)) ≡ count_of p cs
count_of-removed p [] i h = absurd (omega arith)
count_of-removed p (c ∷ []) zero h = omega arith
count_of-removed p (c ∷ []) (suc i) h = absurd (omega arith)
count_of-removed p (c ∷ x ∷ cs) zero h = omega (arith, count_of-drop_last p x cs)
count_of-removed p (c ∷ x ∷ cs) (suc i) h =
    rw (drop_last-set c x cs i (last_client (x ∷ cs)))
      (omega (arith, count_of-removed p (x ∷ cs) i (omega arith)))

-- What opens and what closes a socket.
abbrev pub opens_ssl : ℕ → SocketEvent → Bool
opens_ssl s (ssl_accepted t) = t == s
opens_ssl s _ = false

abbrev pub closes_ssl : ℕ → SocketEvent → Bool
closes_ssl s (ssl_closed t) = t == s
closes_ssl s _ = false

abbrev pub opens_tcp : ℕ → SocketEvent → Bool
opens_tcp s (tcp_opened t) = t == s
opens_tcp s _ = false

abbrev pub closes_tcp : ℕ → SocketEvent → Bool
closes_tcp s (tcp_closed t) = t == s
closes_tcp s _ = false

-- A socket that is neither connected nor closed.
abbrev pub leaves_tcp : ℕ → SocketEvent → Bool
leaves_tcp s (tcp_unconnected t) = t == s
leaves_tcp s _ = false

-- From `d` to `d'` with the events `es`, every TLS socket that was held or accepted is held or was
-- closed, as often, and every TCP socket that was held or opened is held, was closed, or was left.
pub record IsKept (d : HttpServerPrivate) (d' : HttpServerPrivate) (es : List SocketEvent)
    : Type 0 where
  pub ssl :
      (s : ℕ)
      → count_of (λ c. c.ssl_sock == s) d'.clients + count_of (closes_ssl s) es
        ≡ count_of (λ c. c.ssl_sock == s) d.clients + count_of (opens_ssl s) es
  pub tcp :
      (s : ℕ)
      → count_of (λ c. c.tcp_sock == s) d'.clients
          + (count_of (closes_tcp s) es + count_of (leaves_tcp s) es)
        ≡ count_of (λ c. c.tcp_sock == s) d.clients + count_of (opens_tcp s) es

-- Relaying opens and closes nothing.
forward_none :
    (p : SocketEvent → Bool) (read : Option (List ℕ)) (takes : Bool)
    (written : List ℕ → SocketEvent)
    → ((bytes : List ℕ) → p (written bytes) ≡ false)
    → count_of p (forward read takes written).1 ≡ 0
forward_none p none takes written quiet = refl
forward_none p (some []) takes written quiet = refl
forward_none p (some (b ∷ bs)) takes written quiet = rw (quiet (b ∷ bs)) refl

pub after_none :
    (p : SocketEvent → Bool) (hs : Handshake) (k : Calls) (cli : NClient)
    → ((t : ℕ) (bytes : List ℕ) → p (tcp_written t bytes) ≡ false)
    → ((t : ℕ) (bytes : List ℕ) → p (ssl_written t bytes) ≡ false)
    → count_of p (after_handshake hs k cli).1 ≡ 0
after_none p failed k cli nt ns = refl
after_none p in_progress k cli nt ns = refl
after_none p done k cli nt ns =
    let a = forward_none p k.ssl_read k.tcp_takes (tcp_written cli.tcp_sock) (nt cli.tcp_sock) in
    let b = forward_none p k.tcp_read k.ssl_takes (ssl_written cli.ssl_sock) (ns cli.ssl_sock) in
    omega (
      arith,
      count_of-append p (forward k.ssl_read k.tcp_takes (tcp_written cli.tcp_sock)).1
          (forward k.tcp_read k.ssl_takes (ssl_written cli.ssl_sock)).1,
    )

stays : (d : HttpServerPrivate) → IsKept d d []
stays d = record { ssl = λ s. refl; tcp = λ s. omega arith }

accepted-IsKept : (a : Accept) (d : HttpServerPrivate) → IsKept d (accepted a d).0 (accepted a d).1
accepted-IsKept no_one d = stays d
accepted-IsKept (not_opened ssl) d = record { ssl = λ s. omega arith; tcp = λ s. omega arith }
accepted-IsKept (not_connected ssl tcp) d = record {
  ssl = λ s. omega arith;
  tcp = λ s. omega arith;
}
accepted-IsKept (proxied ssl tcp) d = record {
  ssl = λ s.
      omega (arith, count_of-append (λ c. c.ssl_sock == s) d.clients (new_client d ssl tcp ∷ []));
  tcp = λ s.
      omega (arith, count_of-append (λ c. c.tcp_sock == s) d.clients (new_client d ssl tcp ∷ []));
}

then-IsKept :
    (d d1 d2 : HttpServerPrivate) (es es' : List SocketEvent)
    → IsKept d d1 es
    → IsKept d1 d2 es'
    → IsKept d d2 (es ++ es')
then-IsKept d d1 d2 es es' k k' = record {
  ssl = λ s. omega (
    arith,
    k.ssl s,
    k'.ssl s,
    count_of-append (closes_ssl s) es es',
    count_of-append (opens_ssl s) es es',
  );
  tcp = λ s. omega (
    arith,
    k.tcp s,
    k'.tcp s,
    count_of-append (closes_tcp s) es es',
    count_of-append (leaves_tcp s) es es',
    count_of-append (opens_tcp s) es es',
  );
}

accept_client-IsKept :
    (a : Accept) (d : HttpServerPrivate) → IsKept d (accept_client a d).0 (accept_client a d).1
unfolding accept_client
accept_client-IsKept a d = elim (Bool-cases (queue_space_for_words d 2)) [
  | inl e ↦ rw (accept_client, e) (accepted-IsKept a d)
  | inr e ↦ rw (accept_client, e) (stays d)
]

-- One client is served, and closed.
closed-IsKept :
    (d d' : HttpServerPrivate) (i : ℕ) (es : List SocketEvent)
    → i < length d.clients
    → d'.clients ≡ drop_last (set d.clients i (last_client d.clients))
    → IsKept d d es
    → IsKept d d' (
        es
        ++ tcp_closed (cli_at d.clients i).tcp_sock ∷ ssl_closed (cli_at d.clients i).ssl_sock ∷ [])
closed-IsKept d d' i es h e k =
    let last =
      tcp_closed (cli_at d.clients i).tcp_sock ∷ ssl_closed (cli_at d.clients i).ssl_sock ∷ [] in
    record {
      ssl = λ s. rw e (
          omega (
            arith,
            k.ssl s,
            count_of-append (closes_ssl s) es last,
            count_of-append (opens_ssl s) es last,
            count_of-removed (λ c. c.ssl_sock == s) d.clients i h,
          ));
      tcp = λ s. rw e (
          omega (
            arith,
            k.tcp s,
            count_of-append (closes_tcp s) es last,
            count_of-append (leaves_tcp s) es last,
            count_of-append (opens_tcp s) es last,
            count_of-removed (λ c. c.tcp_sock == s) d.clients i h,
          ));
    }

relay-IsKept : (k : Calls) (cli : NClient) (d : HttpServerPrivate) → IsKept d d (relay k cli).1
unfolding relay
relay-IsKept k cli d = record {
  ssl = λ s. omega (
    arith,
    after_none (closes_ssl s) k.handshake k cli (λ t b. refl) (λ t b. refl),
    after_none (opens_ssl s) k.handshake k cli (λ t b. refl) (λ t b. refl),
  );
  tcp = λ s. omega (
    arith,
    after_none (closes_tcp s) k.handshake k cli (λ t b. refl) (λ t b. refl),
    after_none (leaves_tcp s) k.handshake k cli (λ t b. refl) (λ t b. refl),
    after_none (opens_tcp s) k.handshake k cli (λ t b. refl) (λ t b. refl),
  );
}

pub turn_in : (d : HttpServerPrivate) → (length d.clients == 0) ≡ false → turn d < length d.clients
turn_in d e = ground arith

serve_client-IsKept :
    (k : Calls) (d : HttpServerPrivate) → IsKept d (serve_client k d).0 (serve_client k d).1
unfolding serve_client
serve_client-IsKept k d = elim (Bool-cases (length d.clients == 0)) [
  | inl e ↦ rw (serve_client, e) (stays d)
  | inr e ↦ elim (Bool-cases (is_ssl (cli_at d.clients (turn d)))) [
    | inr plain ↦ rw (serve_client, e, plain) (record { ssl = λ s. refl; tcp = λ s. omega arith })
    | inl ssl ↦
        let kept = relay-IsKept k (cli_at d.clients (turn d)) d in
        elim (Bool-cases (relay k (cli_at d.clients (turn d))).0) [
          | inl close ↦
              rw (serve_client, e, ssl, close)
                (closed-IsKept d _ (turn d) _ (turn_in d e) refl kept)
          | inr open_ ↦ rw (serve_client, e, ssl, open_) (record { ssl = kept.ssl; tcp = kept.tcp })
        ]
  ]
]

by_branch :
    (locked stop : Bool) (d d2 : HttpServerPrivate) (es : List SocketEvent)
    → IsKept d d2 es
    → let r : Bool × HttpServerPrivate × List SocketEvent =
        if not locked
        then (true, d, [])
        else (if stop then (false, record d { qrp = 0; qwp = 0 }, []) else (true, d2, es)) in
      IsKept d r.1 r.2
by_branch false stop d d2 es k = stays d
by_branch true true d d2 es k = record { ssl = λ s. refl; tcp = λ s. omega arith }
by_branch true false d d2 es k = k

thread_round-IsKept :
    (k : Calls) (d : HttpServerPrivate) → let (_, d', es) = thread_round k d in IsKept d d' es
unfolding thread_round
thread_round-IsKept k d = by_branch k.locked (is_told_to_stop d) d _ _ (
    then-IsKept d _ _ _ _ (accept_client-IsKept k.accept d)
      (serve_client-IsKept k (accept_client k.accept d).0))

-- For any run of the thread and any TLS socket, the clients that hold it and the times it was closed are
-- as many as the clients that held it before and the times it was accepted. For a TCP socket, the clients
-- that hold it, the times it was closed and the times that it could not be connected, after which
-- nothing closes it, are as many as the clients that held it before and the times it was opened.
pub http_thread_func-IsKept :
    (ks : List Calls) (d : HttpServerPrivate)
    → let (_, d', es) = http_thread_func ks d in IsKept d d' es
unfolding http_thread_func
http_thread_func-IsKept [] d = stays d
http_thread_func-IsKept (k ∷ ks) d =
    let (running, d1, es) = thread_round k d in
    let now = thread_round-IsKept k d in
    elim (Bool-cases running) [
      | inl on ↦
          rw (http_thread_func, on) (then-IsKept d d1 _ es _ now (http_thread_func-IsKept ks d1))
      | inr off ↦ rw (http_thread_func, off) now
    ]
