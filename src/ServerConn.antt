-- ===== src/ServerConn.antt =====
-- The base class of both kinds of server connection: server/src/RpcServerConn.cpp.
-- `m_fd` is the descriptor's number and the socket behind it. The event loop of one worker thread
-- makes all calls; other threads only push to `response_q`.
pub mod Sending
mod Tests
use rpcframe.Prelude.{
  ℕ, ◌+◌, ◌-◌, ◌*◌, ◌^◌, Bool, true, false, not, Option, none, some, List, [], ◌∷◌, ◌++◌, Str, u32,
  codes, length, take, drop, min, ltb, ◌==◌, if◌then◌else◌, Exec, ret, waiting, fault, to_string,
}
use rpcframe.Package.{PkgIoStatus, fail, partial, no_data, full, RequestPkg, ResponsePkg}
use rpcframe.Net.{Errno, eagain, eintr, epipe, other, clear, Room, room, refuse, Socket}
use rpcframe.Queue
use rpcframe.Queue.{Queue, default_max_q_len}
use rpcframe.Stats.{Stats, calc_resp_q_time}

pub record ServerConn : Type 0 where
  pub fd : ℕ
  pub sock : Socket
  pub cur_left_len : ℕ  -- uint32_t
  pub cur_pkg_size : ℕ  -- uint32_t
  pub rpk : Option RequestPkg
  pub is_connected : Bool
  pub sent_len : ℕ  -- uint32_t
  pub sent_pkg : Option ResponsePkg
  pub max_req_limit : ℕ  -- uint32_t
  pub response_q : Queue ResponsePkg
  pub seqid : Str
  pub eps : Option ℕ

-- The constructor, at `std::time(nullptr)`.
unfoldable pub make : ℕ → Socket → Str → ℕ → ℕ → ServerConn
make fd sock id max_req_size time = record {
  fd = fd;
  sock = sock;
  cur_left_len = 0;
  cur_pkg_size = 0;
  rpk = none;
  is_connected = true;
  sent_len = 0;
  sent_pkg = none;
  max_req_limit = max_req_size;
  response_q = Queue.make default_max_q_len;
  seqid = to_string time ++ (codes "_" ++ (id ++ (codes "_" ++ to_string fd)));
  eps = none;
}

unfoldable pub reset : ServerConn → ServerConn
reset c = record c { is_connected = false; cur_left_len = 0; cur_pkg_size = 0; rpk = none }

unfoldable pub is_sending : ServerConn → Bool
is_sending c = elim c.sent_pkg [ none ↦ false | some p ↦ true ]

-- `data_len - m_sent_len` as an `int`, and that as the `size_t` that `send` takes.
abbrev pub to_send : ResponsePkg → ℕ → ℕ
to_send pkg sent =
    let n = u32 (pkg.data_len + 2 ^ 32 - sent) in if ltb n (2 ^ 31) then n else n + 2 ^ 64 - 2 ^ 32

-- After `send` took `n` bytes of `pkg`.
abbrev pub sent : ResponsePkg → ℕ → List Room → ServerConn → PkgIoStatus × ServerConn
sent pkg n evs c =
    let at = u32 (c.sent_len + n) in
    let wire = c.sock.wire ++ take n (drop c.sent_len pkg.bytes) in
    let c' = record c { sock = record c.sock { outgoing = evs; wire = wire } } in
    if pkg.data_len == at
    then (full, record c' { sent_pkg = none; sent_len = 0 })
    else (partial, record c' { sent_len = at })

-- `errno` is tested after `slen == 0`. A `send` past the end of the buffer is a fault.
unfoldable pub send_loop : ResponsePkg → List Room → ServerConn → Exec (PkgIoStatus × ServerConn)
send_loop pkg [] c = waiting
send_loop pkg (room k ∷ evs) c =
    let n = min (to_send pkg c.sent_len) (k + 1) in
    if n == 0
    then ret (fail, record c { sock = record c.sock { outgoing = evs } })
    else (if ltb (length pkg.bytes) (c.sent_len + to_send pkg c.sent_len)
        then fault
        else ret (sent pkg n evs c))
send_loop pkg (refuse eagain ∷ evs) c =
    ret (partial, record c { sock = record c.sock { outgoing = evs } })
send_loop pkg (refuse eintr ∷ evs) c = send_loop pkg evs c
send_loop pkg (refuse e ∷ evs) c = ret (fail, record c { sock = record c.sock { outgoing = evs } })

-- `m_sent_pkg` is dereferenced without a test.
unfoldable pub send_data : ServerConn → Exec (PkgIoStatus × ServerConn)
unfolding send_loop
send_data c = elim c.sent_pkg [ none ↦ fault | some pkg ↦ send_loop pkg c.sock.outgoing c ]

abbrev pub with_stats :
    Stats → Exec (PkgIoStatus × ServerConn) → Exec (PkgIoStatus × ServerConn × Stats)
with_stats s (ret (st, c)) = ret (st, c, s)
with_stats s waiting = waiting
with_stats s fault = fault

-- The next response, which `pop` handed over, becomes the one that is sent.
abbrev pub start_sending :
    ℕ
    → Stats
    → Exec (Option ResponsePkg × Queue ResponsePkg)
    → ServerConn
    → Exec (PkgIoStatus × ServerConn × Stats)
start_sending now s (ret (none, q)) c = ret (no_data, record c { response_q = q }, s)
start_sending now s (ret (some pkg, q)) c =
    with_stats (calc_resp_q_time (now - pkg.gen_time) s)
      (send_data (record c { response_q = q; sent_len = 0; sent_pkg = some pkg }))
start_sending now s waiting c = waiting
start_sending now s fault c = fault

-- A wait that the clock shows as negative counts as 0, as `-` on the naturals does.
unfoldable pub send_response : ℕ → ServerConn → Stats → Exec (PkgIoStatus × ServerConn × Stats)
unfolding send_data Queue.pop
send_response now c s =
    if not c.is_connected
    then ret (fail, c, s)
    else (if is_sending c
        then with_stats s (send_data c)
        else start_sending now s (Queue.pop c.response_q 0 []) c)
