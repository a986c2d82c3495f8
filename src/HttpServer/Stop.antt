-- ===== src/HttpServer/Stop.antt =====
-- src/zm_http_server.cpp: how the thread is stopped.
use deconz.Prelude.{
  ◌≡◌, refl, Bool, true, false, not, ◌&&◌, List, [], ◌∷◌, ◌++◌, arith, length, get_or-set_self,
}
use deconz.HttpServer.{
  HttpServerPrivate, Calls, is_told_to_stop, thread_round, http_thread_func, shutdown, queue_put,
  queue_peek, queue_is_empty,
}

-- With 128 words of memory.
told : (d : HttpServerPrivate) → length d.qinout ≡ 128 → is_told_to_stop (shutdown d) ≡ true
unfolding is_told_to_stop shutdown queue_put queue_peek queue_is_empty
told d size = let word = get_or-set_self d.qinout 0 1 0 (omega arith) in rw word refl

-- No round has the lock.
abbrev pub all_busy : List Calls → Bool
all_busy [] = true
all_busy (k ∷ ks) = not k.locked && all_busy ks

busy_waits :
    (ks : List Calls) (d : HttpServerPrivate)
    → all_busy ks ≡ true
    → http_thread_func ks d ≡ (true, d, [])
unfolding http_thread_func thread_round
busy_waits [] d e = refl
busy_waits (k ∷ ks) d e =
    let not_locked : k.locked ≡ false = ground arith in
    let rest : all_busy ks ≡ true = ground arith in
    let ih = busy_waits ks d rest in rw (http_thread_func, thread_round, not_locked, ih) refl

-- Once the destructor has left its message, whatever was in the ring before, the thread ends in the
-- first round that gets the lock: it touches no socket and no client, and leaves the ring empty. The
-- rounds before it do nothing.
pub shutdown_stops :
    (before : List Calls) (k : Calls) (after : List Calls) (d : HttpServerPrivate)
    → length d.qinout ≡ 128
    → all_busy before ≡ true
    → k.locked ≡ true
    → http_thread_func (before ++ k ∷ after) (shutdown d)
      ≡ (false, record (shutdown d) { qrp = 0; qwp = 0 }, [])
unfolding http_thread_func thread_round
shutdown_stops [] k after d size busy locked =
    rw (http_thread_func, thread_round, locked, told d size) refl
shutdown_stops (b ∷ before) k after d size busy locked =
    let not_locked : b.locked ≡ false = ground arith in
    let rest : all_busy before ≡ true = ground arith in
    let ih = shutdown_stops before k after d size rest locked in
    rw (http_thread_func, thread_round, not_locked, ih) refl
