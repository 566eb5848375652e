-- ===== src/ConnWorker/Receive.antt =====
-- onDataIn, onAccept and the connections' `getRequest`, which leave what is to be sent alone.
use rpcframe.Prelude.{
  IfReturns-anything, IfReturns, IfReturns-bind, ℕ, ◌+◌, ◌<◌, ◌≡◌, ◌≢◌, refl, sym, ap, ◌∙◌, Bool,
  true, false, Option, none, some, List, [], ◌∷◌, ◌++◌, Str, length, arith, ◌⊎◌, inl, inr,
  Bool-cases, str_eq_iff, find, emplace, find-emplace, ◌==◌, u32, codes, to_string, Exec, ◌>>=◌,
  leb,
}
use rpcframe.Package.{
  RequestPkg, Allocator, PkgIoStatus, fail, partial, time_out, no_data, full, new_request,
}
use rpcframe.Net.{
  Errno, clear, eagain, eintr, epipe, other, Arrival, arrived, closed, interrupted, Socket,
}
use rpcframe.Queue
use rpcframe.Queue.{Queue}
use rpcframe.ServerConn
use rpcframe.ServerConn.{ServerConn, is_sending}
use rpcframe.RpcConn.{
  PkgRet, read_data_loop, read_pkg_data, finish, read_body, start_package, get_request,
  read_pkg_len, read_to,
}
use rpcframe.ConnWorker.{ConnWorker, watch, on_accept, add_connection}
use rpcframe.ConnWorker.Announce.{NoneStranded}

-- `c'` owes its peer what `c` does.
abbrev pub SameSide : ServerConn → ServerConn → Type 0
SameSide c c' =
    (c'.fd ≡ c.fd)
    × (c'.seqid ≡ c.seqid)
    × (c'.sent_pkg ≡ c.sent_pkg)
    × (c'.response_q ≡ c.response_q)

abbrev pub Leaves : ServerConn → PkgRet × ServerConn → Type 0
Leaves c (r, c') = SameSide c c'

-- The virtual method `getRequest` of a kind of connection.
pub record Receiver : Type 0 where
  pub get : ServerConn → Exec (PkgRet × ServerConn)
  pub leaves : (c : ServerConn) → IfReturns (Leaves c) (get c)

abbrev LeavesIo : ServerConn → PkgIoStatus × ServerConn → Type 0
LeavesIo c (st, c') = SameSide c c'

read_data_loop-LeavesIo :
    (p : RequestPkg) (errno : Errno) (evs : List Arrival) (c : ServerConn)
    → IfReturns (LeavesIo c) (read_data_loop p errno evs c)
unfolding read_data_loop
read_data_loop-LeavesIo p errno [] c = tt
read_data_loop-LeavesIo p errno (closed ∷ evs) c = ground arith
read_data_loop-LeavesIo p errno (interrupted eagain ∷ evs) c = (refl, refl, refl, refl)
read_data_loop-LeavesIo p errno (interrupted eintr ∷ evs) c = read_data_loop-LeavesIo p eintr evs c
read_data_loop-LeavesIo p errno (interrupted clear ∷ evs) c = (refl, refl, refl, refl)
read_data_loop-LeavesIo p errno (interrupted epipe ∷ evs) c = (refl, refl, refl, refl)
read_data_loop-LeavesIo p errno (interrupted other ∷ evs) c = (refl, refl, refl, refl)
read_data_loop-LeavesIo p errno (arrived b bs ∷ evs) c = ground arith

finish-Leaves :
    (c : ServerConn) (r : PkgIoStatus × ServerConn) → LeavesIo c r → IfReturns (Leaves c) (finish r)
finish-Leaves c (fail, c') h = h
finish-Leaves c (partial, c') h = h
finish-Leaves c (time_out, c') h = h
finish-Leaves c (no_data, c') h = h
finish-Leaves c (full, c') h = h

read_pkg_data-LeavesIo :
    (o : Option RequestPkg) (c : ServerConn) → c.rpk ≡ o → IfReturns (LeavesIo c) (read_pkg_data c)
unfolding read_pkg_data
read_pkg_data-LeavesIo none c e = ground arith
read_pkg_data-LeavesIo (some p) c e =
    ground (arith, read_data_loop-LeavesIo p clear c.sock.incoming c)

read_body-Leaves : (c : ServerConn) → IfReturns (Leaves c) (read_body c)
unfolding read_body
read_body-Leaves c =
    IfReturns-bind (LeavesIo c) (Leaves c) (read_pkg_data c) finish
      (read_pkg_data-LeavesIo c.rpk c refl) (finish-Leaves c)

start-Leaves :
    (mem : Allocator) (c : ServerConn) (x : Bool × ℕ × List Arrival)
    → IfReturns (Leaves c) (start_package mem c x)
start-Leaves mem c (false, n, evs) = (refl, refl, refl, refl)
start-Leaves mem c (true, n, evs) = ground (
  arith,
  read_body-Leaves (record (read_to evs c) {
    cur_pkg_size = n;
    rpk = some (new_request mem n c.seqid);
    cur_left_len = n;
  }),
)

pub get_request-Leaves :
    (mem : Allocator) (c : ServerConn) → IfReturns (Leaves c) (get_request mem c)
unfolding get_request
get_request-Leaves mem c = elim (Bool-cases (c.cur_pkg_size == 0)) [
  | inl idle ↦
      (let opened : get_request mem c ≡ (read_pkg_len c >>= start_package mem c) = ground arith in
        rw opened (
          IfReturns-bind (λ r. Unit) (Leaves c) (read_pkg_len c) (start_package mem c)
            (IfReturns-anything (read_pkg_len c)) (λ x u. start-Leaves mem c x)))
  | inr busy ↦
      (let opened : get_request mem c ≡ read_body c = ground arith in
        rw opened (read_body-Leaves c))
]

-- The connections of rpcframe's own protocol.
unfoldable pub rpc_receiver : Allocator → Receiver
unfolding get_request
rpc_receiver mem = record { get = get_request mem; leaves = get_request-Leaves mem }

-- The connection that `onAccept` makes.
abbrev pub accepted : ConnWorker → ℕ → Socket → ℕ → ℕ → ServerConn
accepted w fd sock time max_req_size =
    ServerConn.make fd sock (w.name ++ (codes "_" ++ to_string (u32 (w.seqid + 1)))) max_req_size
      time

-- What the kernel gives: a descriptor that no open connection has; and a name that is not taken.
pub record IsFresh (w : ConnWorker) (fd : ℕ) (id : Str) : Type 0 where
  pub new_fd : (i : Str) (c : ServerConn) → find i w.conns ≡ some c → c.fd ≢ fd
  pub new_name : find id w.conns ≡ none

add-NoneStranded :
    (w : ConnWorker) (offers : List Str) (c : ServerConn)
    → IsFresh w c.fd c.seqid
    → is_sending c ≡ false
    → c.response_q.items ≡ []
    → NoneStranded w offers
    → NoneStranded (add_connection true c w) offers
unfolding add_connection watch is_sending
add-NoneStranded w offers c f idle empty n = record {
  distinct = λ i j d e p q k. elim (origin i d p) [
    | inl (a, a') ↦ elim (origin j e q) [
      | inl (b, b') ↦ a ∙ sym b
      | inr b ↦ absurd (f.new_fd j e b (sym k ∙ ap (λ (x : ServerConn). x.fd) a'))
    ]
    | inr a ↦ elim (origin j e q) [
      | inl (b, b') ↦ absurd (f.new_fd i d a (k ∙ ap (λ (x : ServerConn). x.fd) b'))
      | inr b ↦ n.distinct i j d e a b k
    ]
  ];
  named = λ i d p. elim (origin i d p) [
    | inl (a, a') ↦ ap (λ (x : ServerConn). x.seqid) a' ∙ sym a
    | inr a ↦ n.named i d a
  ];
  sending = λ i d p b. elim (origin i d p) [
    | inl (a, a') ↦ absurd (ground arith)
    | inr a ↦ (let ne = f.new_fd i d a in let old = n.sending i d a b in ground arith)
  ];
  queued = λ i d p b. elim (origin i d p) [
    | inl (a, a') ↦
        absurd
          (omega (arith, ap (λ (x : ServerConn). length x.response_q.items) a', ap length empty))
    | inr a ↦ elim (n.queued i d a b) [
      | inl armed ↦ (let ne = f.new_fd i d a in inl (ground arith))
      | inr known ↦ inr known
    ]
  ];
  woken = n.woken;
}
  where
    c' : ServerConn
    c' = record c { eps = some c.fd }

    origin :
        (i : Str) (d : ServerConn)
        → find i (emplace c.seqid c' w.conns) ≡ some d
        → ((i ≡ c.seqid) × (d ≡ c')) ⊎ (find i w.conns ≡ some d)
    origin i d p =
        ground (arith, find-emplace c.seqid i c' w.conns, str_eq_iff c.seqid i, f.new_name)

pub on_accept-Keeps :
    (max_conn_num max_req_size time : ℕ) (fd : ℕ) (sock : Socket) (w : ConnWorker)
    (offers : List Str)
    → w.stats.conn_num < max_conn_num
    → IsFresh w fd (accepted w fd sock time max_req_size).seqid
    → NoneStranded w offers
    → NoneStranded (on_accept max_conn_num max_req_size time (some (fd, sock)) w) offers
unfolding on_accept ServerConn.make is_sending Queue.make
on_accept-Keeps max_conn_num max_req_size time fd sock w offers room f n =
    let below : leb max_conn_num w.stats.conn_num ≡ false = ground arith in
    rw below (
      add-NoneStranded (record w { seqid = u32 (w.seqid + 1) }) offers
        (accepted w fd sock time max_req_size) (record { new_fd = f.new_fd; new_name = f.new_name })
        refl refl
        (record {
          distinct = n.distinct;
          named = n.named;
          sending = n.sending;
          queued = n.queued;
          woken = n.woken;
        }))
