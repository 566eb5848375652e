-- ===== src/ConnWorker/Serve.antt =====
-- Each handler of RpcServerConnWorker keeps the worker informed of the connections that have
-- something to send.
use rpcframe.Prelude.{
  IfReturns, IfReturns-bind, ℕ, ◌-◌, ◌≡◌, ◌≢◌, refl, ◌∙◌, Bool, false, Option, none, some, List, [],
  ◌∷◌, Str, arith, inl, str_eq_iff, find, assign, find-assign, find-erase, Exec, ret, waiting,
  fault, ◌>>=◌,
}
use rpcframe.Package.{PkgIoStatus, fail, partial, time_out, no_data, full, ResponsePkg}
use rpcframe.Net.{eagain, eintr, epipe, other, clear, Room, room, refuse}
use rpcframe.Queue.{Queue}
use rpcframe.Queue
use rpcframe.Stats.{Stats, calc_resp_q_time}
use rpcframe.ServerConn.{ServerConn, is_sending, send_loop, send_response, with_stats}
use rpcframe.ConnWorker.{ConnWorker, both, watch, on_data_out, after_send, remove_connection}
use rpcframe.ConnWorker.Announce.{Armed, NoneStranded, Change-NoneStranded, Gone-NoneStranded}

-- What is left to send when `sendResponse` returns.
abbrev Left : PkgIoStatus → ServerConn → Type 0
Left no_data c = (is_sending c ≡ false) × (c.response_q.items ≡ [])
Left full c = is_sending c ≡ false
Left time_out c = ⊥
Left _ c = Unit

abbrev Frame : ServerConn → PkgIoStatus × ServerConn → Type 0
Frame c (st, c') = (c'.fd ≡ c.fd) × (c'.seqid ≡ c.seqid) × Left st c'

abbrev StatsFrame : ServerConn → PkgIoStatus × ServerConn × Stats → Type 0
StatsFrame c (st, c', s) = Frame c (st, c')

send_loop-Frame :
    (pkg : ResponsePkg) (evs : List Room) (c : ServerConn)
    → IfReturns (Frame c) (send_loop pkg evs c)
unfolding send_loop is_sending
send_loop-Frame pkg [] c = tt
send_loop-Frame pkg (room k ∷ evs) c = ground arith
send_loop-Frame pkg (refuse eagain ∷ evs) c = (refl, refl, tt)
send_loop-Frame pkg (refuse eintr ∷ evs) c = send_loop-Frame pkg evs c
send_loop-Frame pkg (refuse epipe ∷ evs) c = (refl, refl, tt)
send_loop-Frame pkg (refuse clear ∷ evs) c = (refl, refl, tt)
send_loop-Frame pkg (refuse other ∷ evs) c = (refl, refl, tt)

with_stats-Frame :
    (c c' : ServerConn) (s : Stats) (x : Exec (PkgIoStatus × ServerConn))
    → c'.fd ≡ c.fd
    → c'.seqid ≡ c.seqid
    → IfReturns (Frame c') x
    → IfReturns (StatsFrame c) (with_stats s x)
with_stats-Frame c c' s (ret (st, d)) e i f = (f.0 ∙ e, f.1 ∙ i, f.2)
with_stats-Frame c c' s waiting e i f = tt
with_stats-Frame c c' s fault e i f = tt

-- By what is in flight and what is queued.
send_response-Frame :
    (o : Option ResponsePkg) (l : List ResponsePkg) (now : ℕ) (c : ServerConn) (s : Stats)
    → c.sent_pkg ≡ o
    → c.response_q.items ≡ l
    → IfReturns (StatsFrame c) (send_response now c s)
unfolding send_response is_sending
send_response-Frame (some p) l now c s e f = ground (
  arith,
  with_stats-Frame c c s (send_loop p c.sock.outgoing c) refl refl
      (send_loop-Frame p c.sock.outgoing c),
)
send_response-Frame none [] now c s e f = ground arith
send_response-Frame none (p ∷ ps) now c s e f =
    let c' : ServerConn = record c {
      response_q = record c.response_q { items = ps };
      sent_len = 0;
      sent_pkg = some p;
    } in
    ground (
      arith,
      with_stats-Frame c c' (calc_resp_q_time (now - p.gen_time) s) (send_loop p c.sock.outgoing c')
          refl refl (send_loop-Frame p c.sock.outgoing c'),
    )

-- The handler's worker knows of every connection that has something to send.
abbrev pub Keeps : List Str → Bool × ConnWorker → Type 0
Keeps offers (b, w) = NoneStranded w offers

-- Replacing a connection in the map, and removing it.
pub find-same : (k : Str) (c : ServerConn) (w : ConnWorker) → find k (assign k c w.conns) ≡ some c
find-same k c w = ground (arith, find-assign k k c w.conns, str_eq_iff k k)

pub find-other :
    (k j : Str) (c : ServerConn) (w : ConnWorker)
    → j ≢ k
    → find j (assign k c w.conns) ≡ find j w.conns
find-other k j c w ne = ground (arith, find-assign k j c w.conns, str_eq_iff k j)

pub removed-Keeps :
    (w : ConnWorker) (offers : List Str) (id : Str) (c c' : ServerConn) (s : Stats)
    → find id w.conns ≡ some c
    → c'.fd ≡ c.fd
    → c'.seqid ≡ c.seqid
    → NoneStranded w offers
    → NoneStranded
        (remove_connection c' (record w { conns = assign id c' w.conns; stats = s }))
        offers
unfolding remove_connection watch
removed-Keeps w offers id c c' s e f i n =
    let same : c'.seqid ≡ id = i ∙ n.named id c e in
    Gone-NoneStranded w offers _ id c
      (record {
        was = e;
        is_now =
            ground (arith, find-erase c'.seqid id (assign id c' w.conns), str_eq_iff c'.seqid id);
        others = λ j ne. ground (
          arith,
          find-erase c'.seqid j (assign id c' w.conns),
          str_eq_iff c'.seqid j,
          find-other id j c' w ne,
        );
        elsewhere = λ k ne. ground arith;
        same_q = refl;
        same_events = refl;
      })
      n

module _ (w : ConnWorker) (offers : List Str) (id : Str) (c : ServerConn)
    (e : find id w.conns ≡ some c) (armed : Armed w c) (n : NoneStranded w offers) where
  after_send-Keeps :
      (x : PkgIoStatus × ServerConn × Stats)
      → StatsFrame c x
      → IfReturns (Keeps offers) (after_send id w x)
  unfolding watch Queue.size
  after_send-Keeps (fail, c', s) f = removed-Keeps w offers id c c' s e f.0 f.1 n
  after_send-Keeps (partial, c', s) f =
      let a : w.epoll c'.fd ≡ some both = rw (f.0) armed in
      Change-NoneStranded w offers _ offers id c c'
        (record {
          was = e;
          is_now = find-same id c' w;
          others = λ j ne. find-other id j c' w ne;
          same_fd = f.0;
          same_id = f.1;
          elsewhere = λ k ne. refl;
          names = λ j ne k. k;
          now_sending = λ b. a;
          now_queued = λ b. inl a;
          now_woken = n.woken;
        })
        n
  after_send-Keeps (no_data, c', s) f =
      Change-NoneStranded w offers _ offers id c c'
        (record {
          was = e;
          is_now = find-same id c' w;
          others = λ j ne. find-other id j c' w ne;
          same_fd = f.0;
          same_id = f.1;
          elsewhere = λ k ne. ground arith;
          names = λ j ne k. k;
          now_sending = λ b. cc;
          now_queued = λ b. ground arith;
          now_woken = n.woken;
        })
        n
  after_send-Keeps (full, c', s) f =
      Change-NoneStranded w offers _ offers id c c'
        (record {
          was = e;
          is_now = ground (arith, find-same id c' w);
          others = λ j ne. ground (arith, find-other id j c' w ne);
          same_fd = f.0;
          same_id = f.1;
          elsewhere = λ k ne. ground arith;
          names = λ j ne k. ground arith;
          now_sending = λ b. cc;
          now_queued = λ b. ground arith;
          now_woken = ground (arith, n.woken);
        })
        n
  after_send-Keeps (time_out, c', s) f = elim f.2 [ ]

  pub on_data_out-Keeps : (now : ℕ) → IfReturns (Keeps offers) (on_data_out now id w)
  unfolding on_data_out
  on_data_out-Keeps now =
      let opened : on_data_out now id w ≡ (send_response now c w.stats >>= after_send id w) =
        ground arith in
      rw opened (
        IfReturns-bind (StatsFrame c) (Keeps offers) (send_response now c w.stats) (after_send id w)
          (send_response-Frame c.sent_pkg c.response_q.items now c w.stats refl refl)
          after_send-Keeps)
