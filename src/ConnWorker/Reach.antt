-- ===== src/ConnWorker/Reach.antt =====
-- The states that a worker reaches, whatever clients and other threads do, and what holds of them.
use rpcframe.Prelude.{
  IfReturns, IfReturns-bind, ℕ, ◌<◌, ◌≡◌, refl, Bool, true, false, some, List, [], ◌∷◌, ◌++◌, Str,
  length, arith, find, assign, Exec, ret, ◌>>=◌,
}
use rpcframe.Queue
use rpcframe.Package.{RequestPkg, ResponsePkg}
use rpcframe.Net.{Socket}
use rpcframe.Stats.{Stats}
use rpcframe.ServerConn.{ServerConn, is_sending}
use rpcframe.RpcConn.{PkgRet, failed, pending, complete}
use rpcframe.ConnWorker.{
  ConnWorker, make, on_accept, on_data_in, after_get, queued, on_data_out, on_data_out_event, offer,
  announce,
}
use rpcframe.ConnWorker.Announce.{Armed, NoneStranded, Change-NoneStranded}
use rpcframe.ConnWorker.Serve.{Keeps, find-same, find-other, removed-Keeps, on_data_out-Keeps}
use rpcframe.ConnWorker.Notify.{event-cases, Offers, offer-Offers, announce-Keeps}
use rpcframe.ConnWorker.Receive.{SameSide, Leaves, Receiver, IsFresh, accepted, on_accept-Keeps}

-- A worker, the names that other threads have still to announce, and the queue of the thread pool.
pub record State (P : Type 0) : Type 0 where
  pub worker : ConnWorker
  pub offers : List Str
  pub pool : P

-- A handler's result is the one that it returned.
returned {ℓ} : {A : Type ℓ} (P : A → Type 0) {x : Exec A} {a : A} → x ≡ ret a → IfReturns P x → P a
returned P e h = rw e at h

module _ {P : Type 0} (rcv : Receiver) (push_req : RequestPkg → P → Bool × P) (num : ℕ) where
  abbrev KeepsIn : List Str → Bool × ConnWorker × P → Type 0
  KeepsIn offers (b, w, p) = NoneStranded w offers

  replaced :
      (w : ConnWorker) (offers : List Str) (id : Str) (c c' : ServerConn)
      → find id w.conns ≡ some c
      → SameSide c c'
      → NoneStranded w offers
      → NoneStranded (record w { conns = assign id c' w.conns }) offers
  unfolding is_sending
  replaced w offers id c c' e (f, i, s, q) n =
      Change-NoneStranded w offers _ offers id c c'
        (record {
          was = e;
          is_now = find-same id c' w;
          others = λ j ne. find-other id j c' w ne;
          same_fd = f;
          same_id = i;
          elsewhere = λ k ne. refl;
          names = λ j ne k. k;
          now_sending = λ b. rw f (n.sending id c e (rw s at b));
          now_queued = λ b. rw f (n.queued id c e (rw q at b));
          now_woken = n.woken;
        })
        n

  queued-Keeps :
      (w : ConnWorker) (offers : List Str) (r : Bool × P)
      → NoneStranded w offers
      → IfReturns (KeepsIn offers) (queued rcv.get push_req num r w)
  queued-Keeps w offers (true, p) n = n
  queued-Keeps w offers (false, p) n = record {
    distinct = n.distinct;
    named = n.named;
    sending = n.sending;
    queued = n.queued;
    woken = n.woken;
  }

  after_get-Keeps :
      (now : ℕ) (id : Str) (w : ConnWorker) (p : P) (offers : List Str) (c : ServerConn)
      → find id w.conns ≡ some c
      → NoneStranded w offers
      → (r : PkgRet × ServerConn) → Leaves c r
      → IfReturns (KeepsIn offers) (after_get rcv.get push_req num now id w p r)
  after_get-Keeps now id w p offers c e n (failed, c') h =
      removed-Keeps w offers id c c' w.stats e h.0 h.1 n
  after_get-Keeps now id w p offers c e n (pending, c') h = replaced w offers id c c' e h n
  after_get-Keeps now id w p offers c e n (complete pkg, c') h =
      queued-Keeps (record w { conns = assign id c' w.conns }) offers
        (push_req (record pkg { gen_time = now; conn_worker = some num }) p)
        (replaced w offers id c c' e h n)

  on_data_in-Keeps :
      (now : ℕ) (id : Str) (w : ConnWorker) (p : P) (offers : List Str) (c : ServerConn)
      → find id w.conns ≡ some c
      → NoneStranded w offers
      → IfReturns (KeepsIn offers) (on_data_in rcv.get push_req num now id w p)
  unfolding on_data_in
  on_data_in-Keeps now id w p offers c e n =
      let opened : on_data_in rcv.get push_req num now id w p
          ≡ (rcv.get c >>= after_get rcv.get push_req num now id w p) =
        ground arith in
      rw opened (
        IfReturns-bind (Leaves c) (KeepsIn offers) (rcv.get c)
          (after_get rcv.get push_req num now id w p) (rcv.leaves c)
          (after_get-Keeps now id w p offers c e n))

module _ {P : Type 0} (push_req : RequestPkg → P → Bool × P) (num : ℕ) where
  -- One handler, or one half of `pushResp` on another thread. EPOLLOUT comes for a connection that is
  -- armed, a client is accepted while the limit is not reached, and a connection receives by the
  -- `getRequest` of its kind.
  pub data Step : State P → State P → Type 0 where
    accepts :
        {w : ConnWorker} {os : List Str} {p : P} (max_conn_num max_req_size time fd : ℕ)
        (sock : Socket)
        → w.stats.conn_num < max_conn_num
        → IsFresh w fd (accepted w fd sock time max_req_size).seqid
        → Step
            (record { worker = w; offers = os; pool = p })
            (record {
              worker = on_accept max_conn_num max_req_size time (some (fd, sock)) w;
              offers = os;
              pool = p;
            })
    reads :
        {w w' : ConnWorker} {os : List Str} {p p' : P} {b : Bool} {c : ServerConn} (rcv : Receiver)
        (now : ℕ) (id : Str)
        → find id w.conns ≡ some c
        → on_data_in rcv.get push_req num now id w p ≡ ret (b, w', p')
        → Step
            (record { worker = w; offers = os; pool = p })
            (record { worker = w'; offers = os; pool = p' })
    sends :
        {w w' : ConnWorker} {os : List Str} {p : P} {b : Bool} {c : ServerConn} (now : ℕ) (id : Str)
        → find id w.conns ≡ some c
        → Armed w c
        → on_data_out now id w ≡ ret (b, w')
        → Step
            (record { worker = w; offers = os; pool = p })
            (record { worker = w'; offers = os; pool = p })
    wakes :
        {w w' : ConnWorker} {os : List Str} {p : P} {b : Bool}
        → on_data_out_event w ≡ ret (b, w')
        → Step
            (record { worker = w; offers = os; pool = p })
            (record { worker = w'; offers = os; pool = p })
    offers :
        {w w' : ConnWorker} {os : List Str} {p : P} (now : ℕ) (id : Str) (pkg : ResponsePkg)
        → offer now id pkg w ≡ ret (true, w')
        → Step
            (record { worker = w; offers = os; pool = p })
            (record { worker = w'; offers = id ∷ os; pool = p })
    drops :
        {w w' : ConnWorker} {os : List Str} {p : P} (now : ℕ) (id : Str) (pkg : ResponsePkg)
        → offer now id pkg w ≡ ret (false, w')
        → Step
            (record { worker = w; offers = os; pool = p })
            (record { worker = w'; offers = os; pool = p })
    announces :
        {w w' : ConnWorker} {p : P} (os os' : List Str) (id : Str)
        → w.resp_conn_q.drop_old_on_full ≡ false
        → length w.resp_conn_q.items < w.resp_conn_q.max_q_len
        → announce id w ≡ ret w'
        → Step
            (record { worker = w; offers = os ++ (id ∷ os'); pool = p })
            (record { worker = w'; offers = os ++ os'; pool = p })

  pub data Reaches : State P → State P → Type 0 where
    here : {s : State P} → Reaches s s
    later : {s t u : State P} → Step s t → Reaches t u → Reaches s u

  abbrev pub IsServed : State P → Type 0
  IsServed s = NoneStranded s.worker s.offers

  Step-IsServed : (s t : State P) → Step s t → IsServed s → IsServed t
  Step-IsServed s t (accepts {w = w} {os = os} m r time fd sock room f) n =
      on_accept-Keeps m r time fd sock w os room f n
  Step-IsServed s t (reads {w = w} {os = os} {p = p} {c = c} rcv now id e k) n =
      returned (λ r. NoneStranded r.1 os) k (on_data_in-Keeps rcv push_req num now id w p os c e n)
  Step-IsServed s t (sends {w = w} {os = os} {c = c} now id e armed k) n =
      returned (Keeps os) k (on_data_out-Keeps w os id c e armed n now)
  Step-IsServed s t (wakes {w = w} {os = os} k) n =
      returned (Keeps os) k (event-cases w.resp_conn_q.items w os refl n)
  Step-IsServed s t (offers {w = w} {os = os} now id pkg k) n =
      returned (Offers os id) k (offer-Offers now id pkg w os n)
  Step-IsServed s t (drops {w = w} {os = os} now id pkg k) n =
      returned (Offers os id) k (offer-Offers now id pkg w os n)
  Step-IsServed s t (announces {w = w} os os' id d room k) n =
      returned (λ w'. NoneStranded w' (os ++ os')) k (announce-Keeps id w os os' d room n)

  -- No response is stranded. Whatever a worker does from its start, and however threads that answer
  -- requests come between, and of whatever kind its connections are, a connection with something to send is in the epoll set with EPOLLOUT, or
  -- its name is on the way to the worker, which the eventfd wakes for every name. The steps are those
  -- in which clients are accepted below the limit and the worker's queue has room for a name.
  pub none_stranded :
      (name : Str) (stats : Stats) (p : P) (s : State P)
      → Reaches (record { worker = make name stats; offers = []; pool = p }) s
      → NoneStranded s.worker s.offers
  unfolding make Queue.make find
  none_stranded name stats p s r = all r (record {
    distinct = λ i j c d e. cc;
    named = λ i c e. cc;
    sending = λ i c e. cc;
    queued = λ i c e. cc;
    woken = omega arith;
  })
    where
      all : {t u : State P} → Reaches t u → IsServed t → IsServed u
      all here n = n
      all (later {s = a} {t = b} k r) n = all r (Step-IsServed a b k n)
