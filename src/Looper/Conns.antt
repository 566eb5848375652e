-- ===== src/Looper/Conns.antt =====
-- The connections of the event loop of client/src/RpcEventLooper.cpp: the constructor, addConnection,
-- tryGetAvaliableConn, refreshEndpoints and removeConnection.
use rpcframe.Prelude.{
  ℕ, zero, suc, ◌%◌, Bool, true, false, Option, none, some, List, [], ◌∷◌, Str, length, get_elem?,
  find, assign, erase, ◌==◌, if◌then◌else◌, Exec, ret, fault, ◌>>=◌,
}
use rpcframe.Package.{disconnected}
use rpcframe.Net.{Arrival}
use rpcframe.CallBack.{CallBack}
use rpcframe.ClientConn.{ClientConn, null}
use rpcframe.ClientConn.Connect.{Attempt, connect, set_invalid, is_valid, should_retry}
use rpcframe.Looper.{Looper, tell}

-- What the host of an endpoint answers, and what its connection would bring.
pub record Dial : Type 0 where
  pub host : Option (List Attempt)
  pub incoming : List Arrival

-- A connection that was not made yet.
abbrev pub new_conn : ClientConn
new_conn = record {
  fd = none;
  incoming = [];
  wire = [];
  cur_left_len = 0;
  cur_pkg_size = 0;
  rpk = null;
  is_connected = true;
  last_invalid_time = 0;
}

-- `RpcClientConn::connect`, which is called by the connection's name.
abbrev pub dialed : ℕ → Dial → ClientConn → Bool × ClientConn
dialed now d c = connect now d.host d.incoming c

abbrev pub unwatch : Option ℕ → List ℕ → List ℕ
unwatch fd [] = []
unwatch none ws = ws
unwatch (some fd) (w ∷ ws) = if w == fd then unwatch (some fd) ws else w ∷ unwatch (some fd) ws

unfoldable pub add_connection : Option ℕ → Looper → Looper
add_connection none l = l
add_connection (some fd) l = record l { watched = fd ∷ l.watched }

-- `connect` gives a connection that it made to epoll.
abbrev pub put : Str → Bool × ClientConn → Looper → Looper
put ep (true, c) l = add_connection c.fd (record l { ep_conn_map = assign ep c l.ep_conn_map })
put ep (false, c) l = record l { ep_conn_map = assign ep c l.ep_conn_map }

abbrev pub add_endpoint : ℕ → Dial → Str → Looper → Looper
add_endpoint now d ep l = put ep (connect now d.host d.incoming new_conn) l

unfoldable pub refresh_endpoints : ℕ → (Str → Dial) → List Str → Looper → Looper
unfolding find add_connection connect assign
refresh_endpoints now dial [] l = l
refresh_endpoints now dial (ep ∷ eps) l = elim (find ep l.ep_conn_map) [
  | none ↦ refresh_endpoints now dial eps (add_endpoint now (dial ep) ep l)
  | some c ↦ refresh_endpoints now dial eps l
]

-- The constructor's loop, which does not look whether an endpoint comes twice.
unfoldable pub connect_all : ℕ → (Str → Dial) → List Str → Looper → Looper
unfolding add_connection connect assign
connect_all now dial [] l = l
connect_all now dial (ep ∷ eps) l = connect_all now dial eps (add_endpoint now (dial ep) ep l)

-- `host_ip` is empty where `getHostIp` fails.
unfoldable pub make : ℕ → (Str → Dial) → List Str → ℕ → Str → List CallBack → Looper
unfolding connect_all
make now dial eps max_req_size host_ip cbs = connect_all now dial eps (record {
  stopped = false;
  eps = eps;
  max_req_size = max_req_size;
  ep_conn_map = [];
  cbs = cbs;
  id_cb_map = [];
  conn_cb_map = [];
  cb_timer_map = [];
  req_seqid = 0;
  host_ip = host_ip;
  watched = [];
})

-- `m_ep_conn_map[m_eps[i]]`: a missing entry is nullptr, which is then read.
unfoldable pub conn_at : Option Str → List (Str × ClientConn) → Option (Str × ClientConn)
unfolding find
conn_at none conns = none
conn_at (some ep) conns = elim (find ep conns) [ none ↦ none | some c ↦ some (ep, c) ]

-- `conn->shouldRetry() && conn->connect()`
unfoldable pub retry : ℕ → Dial → ClientConn → Bool × ClientConn
unfolding should_retry connect
retry now d c = if should_retry now c then connect now d.host d.incoming c else (false, c)

-- One round of the loop of `tryGetAvaliableConn`, at a connection: the one to return, if any.
unfoldable pub look :
    ℕ → (Str → Dial) → Option (Str × ClientConn) → Looper → Exec (Option Str × Looper)
unfolding is_valid retry assign add_connection
look now dial none l = fault
look now dial (some (ep, c)) l =
    let r = retry now (dial ep) c in
    if is_valid c then ret (some ep, l) else ret ((if r.0 then some ep else none), put ep r l)

unfoldable pub ep_at : ℕ → Looper → Option Str
ep_at n l = get_elem? l.eps (n % length l.eps)

abbrev pub selected : Option Str → Option Str → Option Str
selected none last = last
selected (some ep) last = some ep

-- The loop, with `left` more moves to the next endpoint; the last one is returned in any case.
unfoldable pub select : ℕ → (Str → Dial) → ℕ → ℕ → Looper → Exec (Option Str × Looper)
unfolding look conn_at ep_at
select now dial zero n l =
    look now dial (conn_at (ep_at n l) l.ep_conn_map) l >>= λ r. ret (selected r.0 (ep_at n l), r.1)
select now dial (suc left) n l = look now dial (conn_at (ep_at n l) l.ep_conn_map) l >>= λ r.
    elim r.0 [ none ↦ select now dial left (suc n) r.1 | some ep ↦ ret (some ep, r.1) ]

-- `none` is nullptr. The counter of moves is compared after it was used, so there is one move more
-- than there are endpoints.
unfoldable pub try_get_avaliable_conn : ℕ → (Str → Dial) → Looper → Exec (Option Str × Looper)
unfolding select
try_get_avaliable_conn now dial l =
    if length l.eps == 0
    then ret (none, l)
    else select now dial (suc (length l.eps)) (l.req_seqid % length l.eps) l

-- `m_id_cb_map.erase(cb->getReqId())`
abbrev pub erase_call : Option CallBack → List (Str × Option ℕ) → List (Str × Option ℕ)
erase_call none m = m
erase_call (some cb) m = erase cb.reqid m

unfoldable pub remove_callbacks : List (Option ℕ) → Looper → Looper
unfolding tell erase
remove_callbacks [] l = l
remove_callbacks (none ∷ ps) l = remove_callbacks ps l
remove_callbacks (some i ∷ ps) l = remove_callbacks ps (record l {
  cbs = tell disconnected (some i) l.cbs;
  id_cb_map = erase_call (get_elem? l.cbs i) l.id_cb_map;
})

-- `conn->setInvalid()`, by the connection's name.
abbrev pub invalidate :
    ℕ → Str → Option ClientConn → List (Str × ClientConn) → List (Str × ClientConn)
invalidate now ep none conns = conns
invalidate now ep (some c) conns = assign ep (set_invalid now c) conns

abbrev pub forget_callbacks : Str → Option (List (Option ℕ)) → Looper → Looper
forget_callbacks ep none l = l
forget_callbacks ep (some ps) l =
    let l' = remove_callbacks ps l in record l' { conn_cb_map = assign ep [] l'.conn_cb_map }

unfoldable pub remove_connection : ℕ → Option ℕ → Str → Looper → Looper
unfolding find assign set_invalid remove_callbacks
remove_connection now fd ep l = forget_callbacks ep (find ep l.conn_cb_map) (record l {
  watched = unwatch fd l.watched;
  ep_conn_map = invalidate now ep (find ep l.ep_conn_map) l.ep_conn_map;
})
