-- ===== src/Looper/Poll.antt =====
-- The thread of the event loop: stop and run of client/src/RpcEventLooper.cpp.
use rpcframe.Prelude.{
  ℕ, suc, length, Bool, true, Option, none, some, List, [], ◌∷◌, Str, find, assign, if◌then◌else◌,
  Exec, ret, waiting, fault, ◌>>=◌,
}
use rpcframe.Package.{ResponsePkg, Allocator}
use rpcframe.ThreadPool.{ThreadPool, add_task}
use rpcframe.ClientConn.{ClientConn, RespRet, failed, pending, complete, get_response}
use rpcframe.Looper.{Looper, deal_timeout_cb, remove_all_connections}
use rpcframe.Looper.Conns.{remove_connection, unwatch}

unfoldable pub stop : Looper → Looper
stop l = record l { stopped = true }

-- What epoll reports of a connection: whether EPOLLIN is among it.
pub record Ready : Type 0 where
  pub conn : Str
  pub epollin : Bool

-- A round of the loop: whether `stop` is called before its first look at `m_stop` and before its
-- second, the clock of `dealTimeoutCb`, what epoll reports, and the time at which that is handled.
-- `others` is what the threads that call and those that take the answers do to the tables and the
-- connections in the meantime: `others 0` while the loop waits for epoll, and `others (suc n)` before
-- it handles the connection after which `n` are left.
pub record Round : Type 0 where
  pub stop_first : Bool
  pub stop_second : Bool
  pub clock : ℕ → ℕ
  pub ready : List Ready
  pub now : ℕ
  pub others : ℕ → Looper → Looper

module _ {W : Type 0} where
  -- `addTask` may refuse the task; its answer is not looked at.
  abbrev pub after_response :
      ℕ
      → Option ℕ
      → Str
      → ThreadPool ResponsePkg W
      → Looper
      → RespRet × ClientConn
      → Exec (Looper × ThreadPool ResponsePkg W)
  after_response now fd ep pool l (failed, c) =
      ret (remove_connection now fd ep (record l { ep_conn_map = assign ep c l.ep_conn_map }), pool)
  after_response now fd ep pool l (pending, c) =
      ret (record l { ep_conn_map = assign ep c l.ep_conn_map }, pool)
  after_response now fd ep pool l (complete pkg, c) =
      add_task pkg pool >>= λ r. ret (record l { ep_conn_map = assign ep c l.ep_conn_map }, r.1)

  module _ (mem : Allocator) where
    abbrev pub on_conn :
        ℕ
        → Ready
        → Option ClientConn
        → Looper
        → ThreadPool ResponsePkg W
        → Exec (Looper × ThreadPool ResponsePkg W)
    on_conn now e none l pool = fault
    on_conn now e (some c) l pool =
        if e.epollin
        then (get_response mem c >>= after_response now c.fd e.conn pool l)
        else ret (record l { watched = unwatch c.fd l.watched }, pool)

    unfoldable pub on_ready :
        ℕ
        → (ℕ → Looper → Looper)
        → List Ready
        → Looper
        → ThreadPool ResponsePkg W
        → Exec (Looper × ThreadPool ResponsePkg W)
    unfolding find assign remove_connection get_response add_task
    on_ready now others [] l pool = ret (l, pool)
    on_ready now others (e ∷ es) l pool =
        let l' = others (suc (length es)) l in
        on_conn now e (find e.conn l'.ep_conn_map) l' pool >>= λ r. on_ready now others es r.0 r.1

    unfoldable pub run :
        List Round → Looper → ThreadPool ResponsePkg W → Exec (Looper × ThreadPool ResponsePkg W)
    unfolding stop remove_all_connections deal_timeout_cb on_ready
    run [] l pool = waiting
    run (r ∷ rs) l pool =
        let l1 = if r.stop_first then stop l else l in
        let waited = r.others 0 l1 in
        let l2 = if r.stop_second then stop waited else waited in
        let rest = on_ready r.now r.others r.ready (deal_timeout_cb r.clock l2) pool >>= λ s.
        run rs s.0 s.1 in
        if l1.stopped
        then ret (remove_all_connections l1, pool)
        else if l2.stopped
        then ret (remove_all_connections l2, pool)
        else rest
