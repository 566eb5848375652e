-- ===== src/ConnWorker/Notify.antt =====
-- How the worker hears of queued responses: the two halves of RpcServerConnWorker::pushResp and
-- onDataOutEvent.
use rpcframe.Prelude.{
  IfReturns, ℕ, ◌+◌, ◌-◌, ◌≤◌, ◌<◌, ◌≡◌, ◌≢◌, refl, ap, Bool, true, false, Option, none, some, List,
  [], ◌∷◌, ◌++◌, Str, length, arith, ◌⊎◌, inl, inr, Bool-cases, find, ◌==◌, Exec, ret, waiting,
  fault, length-append,
}
use rpcframe.Package.{ResponsePkg}
use rpcframe.Queue.{Queue}
use rpcframe.Queue
use rpcframe.ServerConn.{ServerConn, is_sending}
use rpcframe.ConnWorker.{
  ConnWorker, Interest, both, watch, on_data_out_event, arm, offer, offered, announce,
}
use rpcframe.ConnWorker.Announce.{
  Among, Among-append, Among-left, Among-right, Known, NoneStranded, Change-NoneStranded,
}
use rpcframe.ConnWorker.Serve.{Keeps, find-same, find-other}

module _ (w : ConnWorker) (offers : List Str) (id : Str) (ids : List Str)
    (front : w.resp_conn_q.items ≡ id ∷ ids) (n : NoneStranded w offers) where
  -- The name at the front of the worker's queue is taken.
  abbrev before : ConnWorker
  before = record w { resp_events = w.resp_events - 1 }

  abbrev rest : Queue Str
  rest = record w.resp_conn_q { items = ids }

  names_left : (j : Str) → j ≢ id → Known w offers j → Among j ids ⊎ Among j offers
  names_left j ne (inl a) =
      let a' : Among j (id ∷ ids) = rw front at a in
      elim a' [ inl same ↦ absurd (ne same) | inr later ↦ inl later ]
  names_left j ne (inr a) = inr a

  still_woken : length ids ≤ w.resp_events - 1
  still_woken = omega (arith, n.woken, ap length front)

  -- Where the connection `c` is armed afterwards, and the others are as they were.
  change :
      (c : ServerConn) (epoll : ℕ → Option Interest)
      → find id w.conns ≡ some c
      → ((k : ℕ) → k ≢ c.fd → epoll k ≡ w.epoll k)
      → epoll c.fd ≡ some both
      → NoneStranded (record before { resp_conn_q = rest; epoll = epoll }) offers
  change c epoll e elsewhere armed =
      Change-NoneStranded w offers _ offers id c c
        (record {
          was = e;
          is_now = e;
          others = λ j ne. refl;
          same_fd = refl;
          same_id = refl;
          elsewhere = elsewhere;
          names = names_left;
          now_sending = λ b. armed;
          now_queued = λ b. inl armed;
          now_woken = still_woken;
        })
        n

  arm-Keeps :
      (o : Option ServerConn)
      → find id w.conns ≡ o
      → IfReturns (Keeps offers) (arm before (some id, rest))
  unfolding watch
  arm-Keeps none e =
      let gone : (j : Str) (d : ServerConn) → find j w.conns ≡ some d → j ≢ id = λ j d p k. cc in
      let opened : arm before (some id, rest) ≡ ret (true, record before { resp_conn_q = rest }) =
        ground arith in
      rw opened (record {
        distinct = n.distinct;
        named = n.named;
        sending = n.sending;
        queued = λ j d p b. elim (n.queued j d p b) [
          | inl armed ↦ inl armed
          | inr known ↦ inr (names_left j (gone j d p) known)
        ];
        woken = still_woken;
      })
  arm-Keeps (some c) e = elim (Bool-cases (is_sending c)) [
    | inl busy ↦
        let opened : arm before (some id, rest) ≡ ret (true, record before { resp_conn_q = rest }) =
          ground arith in
        rw opened (change c before.epoll e (λ k ne. refl) (n.sending id c e busy))
    | inr idle ↦
        let w' : ConnWorker = watch c.fd (some both) (record before { resp_conn_q = rest }) in
        let opened : arm before (some id, rest) ≡ ret (true, w') = ground arith in
        rw opened (change c w'.epoll e (λ k ne. ground arith) (ground arith))
  ]

pub event-cases :
    (l : List Str) (w : ConnWorker) (offers : List Str)
    → w.resp_conn_q.items ≡ l
    → NoneStranded w offers
    → IfReturns (Keeps offers) (on_data_out_event w)
unfolding on_data_out_event Queue.pop
event-cases l w offers e n = elim (Bool-cases (w.resp_events == 0)) [
  | inl idle ↦ (let opened : on_data_out_event w ≡ waiting = ground arith in rw opened tt)
  | inr event ↦ taken l w offers e n event
]
  where
    taken :
        (l : List Str) (w : ConnWorker) (offers : List Str)
        → w.resp_conn_q.items ≡ l
        → NoneStranded w offers
        → (w.resp_events == 0) ≡ false
        → IfReturns (Keeps offers) (on_data_out_event w)
    taken [] w offers e n event =
        let opened : on_data_out_event w
            ≡ ret (true, record w { resp_events = w.resp_events - 1 }) =
          ground arith in
        rw opened (record {
          distinct = n.distinct;
          named = n.named;
          sending = n.sending;
          queued = n.queued;
          woken = omega (arith, ap length e);
        })
    taken (id ∷ ids) w offers e n event =
        let opened : on_data_out_event w
            ≡ arm (before w offers id ids e n) (some id, rest w offers id ids e n) =
          ground arith in
        rw opened (arm-Keeps w offers id ids e n (find id w.conns) refl)

-- A response joins the queue of its connection; where it does, its name is to be announced.
abbrev pub Offers : List Str → Str → Bool × ConnWorker → Type 0
Offers offers id (true, w) = NoneStranded w (id ∷ offers)
Offers offers id (false, w) = NoneStranded w offers

known_more :
    (w : ConnWorker) (offers : List Str) (id j : Str) → Known w offers j → Known w (id ∷ offers) j
known_more w offers id j (inl a) = inl a
known_more w offers id j (inr a) = inr (inr a)

offered-Offers :
    (w : ConnWorker) (offers : List Str) (id : Str) (c : ServerConn)
    (x : Exec (Bool × Queue ResponsePkg))
    → find id w.conns ≡ some c
    → NoneStranded w offers
    → IfReturns (Offers offers id) (offered id c w x)
unfolding is_sending
offered-Offers w offers id c (ret (true, q)) e n =
    Change-NoneStranded w offers _ (id ∷ offers) id c (record c { response_q = q })
      (record {
        was = e;
        is_now = find-same id (record c { response_q = q }) w;
        others = λ j ne. find-other id j (record c { response_q = q }) w ne;
        same_fd = refl;
        same_id = refl;
        elsewhere = λ k ne. refl;
        names = λ j ne k. known_more w offers id j k;
        now_sending = λ b. n.sending id c e b;
        now_queued = λ b. inr (inr (inl refl));
        now_woken = n.woken;
      })
      n
offered-Offers w offers id c (ret (false, q)) e n = record {
  distinct = n.distinct;
  named = n.named;
  sending = n.sending;
  queued = n.queued;
  woken = n.woken;
}
offered-Offers w offers id c waiting e n = tt
offered-Offers w offers id c fault e n = tt

pub offer-Offers :
    (now : ℕ) (id : Str) (pkg : ResponsePkg) (w : ConnWorker) (offers : List Str)
    → NoneStranded w offers
    → IfReturns (Offers offers id) (offer now id pkg w)
unfolding offer
offer-Offers now id pkg w offers n = cases (find id w.conns) refl
  where
    pushed : ServerConn → Exec (Bool × Queue ResponsePkg)
    pushed c = Queue.push c.response_q (record pkg { gen_time = now }) 0 []

    cases :
        (o : Option ServerConn)
        → find id w.conns ≡ o
        → IfReturns (Offers offers id) (offer now id pkg w)
    cases none e = (let opened : offer now id pkg w ≡ ret (false, w) = ground arith in rw opened n)
    cases (some c) e =
        let opened : offer now id pkg w ≡ offered id c w (pushed c) = ground arith in
        rw opened (offered-Offers w offers id c (pushed c) e n)

-- The name goes to the back of the worker's queue. `os` and `os'` are the names that other threads
-- still hold.
pub announce-Keeps :
    (id : Str) (w : ConnWorker) (os os' : List Str)
    → w.resp_conn_q.drop_old_on_full ≡ false
    → length w.resp_conn_q.items < w.resp_conn_q.max_q_len
    → NoneStranded w (os ++ (id ∷ os'))
    → IfReturns (λ w'. NoneStranded w' (os ++ os')) (announce id w)
unfolding announce Queue.push
announce-Keeps id w os os' keeps room n =
    let q : Queue Str = record w.resp_conn_q { items = w.resp_conn_q.items ++ (id ∷ []) } in
    let opened : announce id w
        ≡ ret (record w { resp_conn_q = q; resp_events = w.resp_events + 1 }) =
      ground arith in
    rw opened (record {
      distinct = n.distinct;
      named = n.named;
      sending = n.sending;
      queued = λ i c e b. elim (n.queued i c e b) [
        | inl armed ↦ inl armed
        | inr known ↦ inr (moved i known)
      ];
      woken = omega (arith, length-append w.resp_conn_q.items (id ∷ []), n.woken);
    })
  where
    sorted :
        (i : Str)
        → Among i os ⊎ Among i (id ∷ os')
        → Among i (w.resp_conn_q.items ++ (id ∷ [])) ⊎ Among i (os ++ os')
    sorted i (inl a) = inr (Among-left i os os' a)
    sorted i (inr (inl e)) = inl (Among-right i w.resp_conn_q.items (id ∷ []) (inl e))
    sorted i (inr (inr b)) = inr (Among-right i os os' b)

    moved :
        (i : Str)
        → Known w (os ++ (id ∷ os')) i
        → Among i (w.resp_conn_q.items ++ (id ∷ [])) ⊎ Among i (os ++ os')
    moved i (inl a) = inl (Among-left i w.resp_conn_q.items (id ∷ []) a)
    moved i (inr a) = sorted i (Among-append i os (id ∷ os') a)
