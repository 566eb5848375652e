-- ===== src/ConnWorker.antt =====
-- The thread that serves a set of connections: server/src/RpcServerConnWorker.cpp.
-- The epoll set is the interest of each registered descriptor; an EpollStruct is the name of its
-- connection. Handlers run on the worker's thread, `push_resp` on any thread, in the two parts that
-- other threads can come between.
pub mod Announce
pub mod Serve
pub mod Notify
pub mod Receive
pub mod Reach
pub mod Deliver
mod Tests
use rpcframe.Prelude.{
  ℕ, ◌+◌, ◌-◌, Bool, true, false, not, Option, none, some, List, [], ◌∷◌, ◌++◌, map, Str, u32, u64,
  codes, leb, ◌==◌, if◌then◌else◌, Exec, ret, waiting, fault, ◌>>=◌, find, assign, emplace, erase,
  to_string,
}
use rpcframe.Package.{
  PkgIoStatus, fail, partial, time_out, no_data, full, RequestPkg, ResponsePkg, Allocator,
  InnerResp, Codec,
}
use rpcframe.Net.{Errno, other, Arrival, interrupted, refuse, Socket}
use rpcframe.Queue
use rpcframe.Queue.{Queue, default_max_q_len}
use rpcframe.Stats.{
  Stats, no_stats, inc_rejected_conn, inc_req_in_q_fail, inc_resp_in_q_fail, inc_conn_count,
  dec_conn_count,
}
use rpcframe.ServerConn
use rpcframe.ServerConn.{ServerConn, is_sending, send_response}
use rpcframe.RpcConn.{PkgRet, failed, pending, complete}
use rpcframe.Broker.{Broker, is_alloced, alloc_resp_buf}

-- EPOLLIN | EPOLLET, and EPOLLIN | EPOLLOUT.
pub data Interest : Type 0 where
  reading both : Interest

pub record ConnWorker : Type 0 where
  pub name : Str
  pub seqid : ℕ  -- uint32_t
  pub conns : List (Str × ServerConn)
  pub resp_conn_q : Queue Str
  pub resp_events : ℕ  -- the counter of the eventfd
  pub epoll : ℕ → Option Interest
  pub stats : Stats  -- the server's, which its parts share
  pub stopped : Bool

unfoldable pub make : Str → Stats → ConnWorker
make name stats = record {
  name = name;
  seqid = 0;
  conns = [];
  resp_conn_q = Queue.make default_max_q_len;
  resp_events = 0;
  epoll = λ fd. none;
  stats = stats;
  stopped = false;
}

unfoldable pub watch : ℕ → Option Interest → ConnWorker → ConnWorker
watch fd i w = record w { epoll = λ n. if n == fd then i else w.epoll n }

unfoldable pub remove_connection : ServerConn → ConnWorker → ConnWorker
unfolding watch dec_conn_count
remove_connection c w = record (watch c.fd none w) {
  conns = erase c.seqid w.conns;
  stats = dec_conn_count w.stats;
}

-- EPOLL_CTL_ADD fails on a descriptor that is not open.
unfoldable pub add_connection : Bool → ServerConn → ConnWorker → ConnWorker
unfolding watch inc_conn_count
add_connection is_open c w =
    let c' = record c { eps = some c.fd } in
    let w' = record w { conns = emplace c.seqid c' w.conns; stats = inc_conn_count w.stats } in
    if is_open then watch c.fd (some reading) w' else w'

-- A descriptor that was closed: every call on it fails.
abbrev pub dead : Socket → Socket
dead s = record s { incoming = interrupted other ∷ []; outgoing = refuse other ∷ [] }

-- `accept` gave `none`, or a descriptor and its socket. (After the limit test the code goes on, with
-- the descriptor closed.)
unfoldable pub on_accept : ℕ → ℕ → ℕ → Option (ℕ × Socket) → ConnWorker → ConnWorker
unfolding add_connection inc_rejected_conn ServerConn.make
on_accept max_conn_num max_req_size time none w = w
on_accept max_conn_num max_req_size time (some (fd, sock)) w =
    let n = u32 (w.seqid + 1) in
    let id = w.name ++ (codes "_" ++ to_string n) in
    if leb max_conn_num w.stats.conn_num
    then add_connection false (ServerConn.make fd (dead sock) id max_req_size time)
        (record w { seqid = n; stats = inc_rejected_conn w.stats })
    else add_connection true (ServerConn.make fd sock id max_req_size time) (record w { seqid = n })

-- After `sendResponse`.
abbrev pub after_send :
    Str → ConnWorker → PkgIoStatus × ServerConn × Stats → Exec (Bool × ConnWorker)
after_send id w (fail, c, s) =
    ret (false, remove_connection c (record w { conns = assign id c w.conns; stats = s }))
after_send id w (partial, c, s) = ret (true, record w { conns = assign id c w.conns; stats = s })
after_send id w (no_data, c, s) =
    ret (true, watch c.fd (some reading) (record w { conns = assign id c w.conns; stats = s }))
after_send id w (st, c, s) =
    let w' = record w { conns = assign id c w.conns; stats = s } in
    ret (true, if Queue.size c.response_q == 0 then watch c.fd (some reading) w' else w')

-- An event for a connection that is gone would follow a stale pointer.
unfoldable pub on_data_out : ℕ → Str → ConnWorker → Exec (Bool × ConnWorker)
unfolding remove_connection watch Queue.size
on_data_out now id w = elim (find id w.conns) [
  | none ↦ fault
  | some c ↦ send_response now c w.stats >>= after_send id w
]

-- After `m_resp_conn_q.pop`.
abbrev pub arm : ConnWorker → Option Str × Queue Str → Exec (Bool × ConnWorker)
arm w (none, q) = ret (true, record w { resp_conn_q = q })
arm w (some id, q) =
    let w' = record w { resp_conn_q = q } in
    elim (find id w.conns) [
      | none ↦ ret (true, w')
      | some c ↦ ret (true, if not (is_sending c) then watch c.fd (some both) w' else w')
    ]

-- The eventfd counts down by one; reading it at 0 blocks.
unfoldable pub on_data_out_event : ConnWorker → Exec (Bool × ConnWorker)
unfolding Queue.pop watch is_sending
on_data_out_event w =
    if w.resp_events == 0
    then waiting
    else Queue.pop w.resp_conn_q 0 [] >>= arm (record w { resp_events = w.resp_events - 1 })

-- What `epoll_wait` reports: the listening socket, with what `accept` will give; the eventfd; or a
-- connection, with the flags EPOLLIN and EPOLLOUT.
pub data Event : Type 0 where
  listening : Option (ℕ × Socket) → Event
  responses : Event
  connection : Str → Bool → Bool → Event

-- `get_request` is the virtual method of the connection, `push_req` the queue of the thread pool and
-- `num` the number of this worker.
module _ {P : Type 0} (get_request : ServerConn → Exec (PkgRet × ServerConn))
    (push_req : RequestPkg → P → Bool × P) (num : ℕ) where
  abbrev pub queued : Bool × P → ConnWorker → Exec (Bool × ConnWorker × P)
  queued (true, p) w = ret (true, w, p)
  queued (false, p) w = ret (true, record w { stats = inc_req_in_q_fail w.stats }, p)

  abbrev pub after_get :
      ℕ → Str → ConnWorker → P → PkgRet × ServerConn → Exec (Bool × ConnWorker × P)
  after_get now id w p (failed, c) =
      ret (false, remove_connection c (record w { conns = assign id c w.conns }), p)
  after_get now id w p (pending, c) = ret (true, record w { conns = assign id c w.conns }, p)
  after_get now id w p (complete pkg, c) =
      queued (push_req (record pkg { gen_time = now; conn_worker = some num }) p)
        (record w { conns = assign id c w.conns })

  -- The loop is left after one call of `getRequest`, whatever it returned.
  unfoldable pub on_data_in : ℕ → Str → ConnWorker → P → Exec (Bool × ConnWorker × P)
  unfolding remove_connection inc_req_in_q_fail
  on_data_in now id w p = elim (find id w.conns) [
    | none ↦ fault
    | some c ↦ get_request c >>= after_get now id w p
  ]

  -- After `onDataIn`: a connection that is left is written to if it can be.
  abbrev pub then_out : ℕ → Str → Bool → Bool × ConnWorker × P → Exec (ConnWorker × P)
  then_out now id out (false, w, p) = ret (w, p)
  then_out now id out (true, w, p) =
      let sent = on_data_out now id w >>= λ r. ret (r.1, p) in if out then sent else ret (w, p)

  -- One event of `epoll_wait`, in the loop of `start`.
  unfoldable pub handle : ℕ → ℕ → ℕ → Event → ConnWorker → P → Exec (ConnWorker × P)
  unfolding on_accept on_data_out_event on_data_in on_data_out
  handle max_conn_num max_req_size now (listening a) w p =
      ret (on_accept max_conn_num max_req_size now a w, p)
  handle max_conn_num max_req_size now responses w p = on_data_out_event w >>= λ r. ret (r.1, p)
  handle max_conn_num max_req_size now (connection id true out) w p =
      on_data_in now id w p >>= then_out now id out
  handle max_conn_num max_req_size now (connection id false out) w p =
      then_out now id out (true, w, p)

-- The first part of `pushResp`: the response joins the queue of its connection. The Boolean says
-- whether the second part follows.
abbrev pub offered :
    Str → ServerConn → ConnWorker → Exec (Bool × Queue ResponsePkg) → Exec (Bool × ConnWorker)
offered id c w (ret (true, q)) =
    ret (true, record w { conns = assign id (record c { response_q = q }) w.conns })
offered id c w (ret (false, q)) = ret (false, record w { stats = inc_resp_in_q_fail w.stats })
offered id c w waiting = waiting
offered id c w fault = fault

unfoldable pub offer : ℕ → Str → ResponsePkg → ConnWorker → Exec (Bool × ConnWorker)
unfolding Queue.push inc_resp_in_q_fail
offer now id pkg w = elim (find id w.conns) [
  | none ↦ ret (false, w)
  | some c ↦ offered id c w (Queue.push c.response_q (record pkg { gen_time = now }) 0 [])
]

-- The second: the connection's name goes to the worker, and the eventfd wakes it.
unfoldable pub announce : Str → ConnWorker → Exec ConnWorker
unfolding Queue.push
announce id w = Queue.push w.resp_conn_q id 0 [] >>= λ r.
    ret (record w { resp_conn_q = r.1; resp_events = w.resp_events + 1 })

module _ (mem : Allocator) (proto : Codec InnerResp) where
  abbrev push_pkg : ℕ → Str → Broker → ConnWorker → Exec (Broker × ConnWorker)
  push_pkg now id b w = elim b.resp_pkg [
    | none ↦ fault
    | some pkg ↦ do
      r ← offer now id pkg w
      w' ← (if r.0 then announce id r.1 else ret r.1)
      ret (b, w')
  ]

  unfoldable pub push_resp : ℕ → Str → Broker → ConnWorker → Exec (Broker × ConnWorker)
  unfolding is_alloced alloc_resp_buf offer announce
  push_resp now id b w = do
    b' ← (if not (is_alloced b) then (alloc_resp_buf mem proto 1 b >>= λ r. ret r.1) else ret b)
    push_pkg now id b' w

unfoldable pub stop : ConnWorker → ConnWorker
stop w = record w { stopped = true }

unfoldable pub dump_conn_ids : ConnWorker → List Str → List Str
dump_conn_ids w ids = ids ++ map (λ e. e.0) w.conns
