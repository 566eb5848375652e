-- ===== src/Server.antt =====
-- The server that ties the parts together: construction, addService, pushReqToWorkers, startListen,
-- start and stop of server/src/RpcServerImpl.cpp and server/include/RpcServerImpl.h.
-- Its statistics are Stats, which the connection workers carry. The service "status" is a parameter.
pub mod Serving
pub mod Startup
mod Tests
use rpcframe.Prelude.{
  ℕ, zero, suc, ◌+◌, Bool, true, false, Option, none, some, List, [], ◌∷◌, ◌++◌, Str, codes, map,
  to_string, if◌then◌else◌, Exec, ret, waiting, fault, ◌>>=◌,
}
use rpcframe.Package.{RequestPkg, ResponsePkg}
use rpcframe.Queue
use rpcframe.Queue.{Queue, default_max_q_len}
use rpcframe.Stats.{no_stats}
use rpcframe.Config.{Config}
use rpcframe.ThreadPool
use rpcframe.ThreadPool.{ThreadPool, Worker, set_task_q_size, add_task}
use rpcframe.ConnWorker
use rpcframe.ConnWorker.{ConnWorker}
use rpcframe.RpcWorker
use rpcframe.RpcWorker.{Service, Services}

abbrev pub Pool : Type 0
Pool = ThreadPool RequestPkg Services

-- The pool is `none` once it is deleted. A listening socket is `none` for -1.
pub record Server : Type 0 where
  pub rpclisten : Option ℕ
  pub httplisten : Option ℕ
  pub cfg : Config
  pub stopped : Bool
  pub response_q : Queue ResponsePkg
  pub rpcconnworker : List ConnWorker
  pub httpconnworker : List ConnWorker
  pub worker_thread_pool : Option Pool

-- `n` workers, numbered from `i`.
unfoldable pub conn_workers : Str → ℕ → ℕ → List ConnWorker
unfolding ConnWorker.make to_string
conn_workers name i zero = []
conn_workers name i (suc n) =
    ConnWorker.make (name ++ to_string i) no_stats ∷ conn_workers name (i + 1) n

abbrev pub serve_too :
    Str → Option Service → Worker RequestPkg Services → Worker RequestPkg Services
serve_too name p_service w = record w {
  real_worker = RpcWorker.add_service name p_service false w.real_worker;
}

-- The loop over the pool's workers: each gets the pointer. The workers share the service itself; here
-- each has its own copy, so the statistics that a method keeps are those of one worker's calls.
unfoldable pub add_to_workers : Str → Option Service → Pool → Pool
unfolding RpcWorker.add_service
add_to_workers name p_service p = record p {
  worker_threads = map (serve_too name p_service) p.worker_threads;
}

abbrev pub is_enabled : Option ℕ → Bool
is_enabled none = false
is_enabled (some port) = true

unfoldable pub make : Config → Service → Server
unfolding Queue.make ThreadPool.make set_task_q_size add_to_workers conn_workers
make cfg status_service =
    let http_workers = conn_workers (codes "httpconnworker_") 0 cfg.conn_thread_num in
    record {
      rpclisten = none;
      httplisten = none;
      cfg = cfg;
      stopped = false;
      response_q = Queue.make default_max_q_len;
      rpcconnworker = conn_workers (codes "rpcconnworker_") 0 cfg.conn_thread_num;
      httpconnworker = if is_enabled cfg.http_port then http_workers else [];
      worker_thread_pool = some (
          add_to_workers (codes "status") (some status_service)
            (set_task_q_size cfg.max_req_qsize (ThreadPool.make cfg.thread_num [])));
    }

-- The service is `none` where the caller gives a null pointer, which is kept like any other. A pool
-- that was deleted is used all the same.
unfoldable pub add_service : Str → Option Service → Server → Exec (Bool × Server)
unfolding add_to_workers
add_service name p_service s = elim s.worker_thread_pool [
  | none ↦ fault
  | some p ↦ ret (true, record s { worker_thread_pool = some (add_to_workers name p_service p) })
]

unfoldable pub push_req_to_workers : RequestPkg → Server → Exec (Bool × Server)
unfolding add_task
push_req_to_workers req s = elim s.worker_thread_pool [
  | none ↦ fault
  | some p ↦ add_task req p >>= λ r. ret (r.0, record s { worker_thread_pool = some r.1 })
]

-- What the system answers to `socket`, `fcntl`, `bind` and `listen`.
pub record Answers : Type 0 where
  pub socket : Option ℕ
  pub nonblock : Bool
  pub bound : Bool
  pub listening : Bool

-- The descriptor to return, and those that are open and in no variable any more.
unfoldable pub listen_on : ℕ → Answers → Option ℕ × List ℕ
listen_on fd a =
    if a.nonblock
    then (if a.bound
        then (if a.listening then (some fd, []) else (none, fd ∷ []))
        else (none, fd ∷ []))
    else (none, fd ∷ [])

unfoldable pub start_listen : Answers → Option ℕ × List ℕ
unfolding listen_on
start_listen a = elim a.socket [ none ↦ (none, []) | some fd ↦ listen_on fd a ]

-- The threads that `start` makes: each worker with the socket that it is given.
abbrev pub with_socket : Option ℕ → List ConnWorker → List (ConnWorker × Option ℕ)
with_socket fd [] = []
with_socket fd (w ∷ ws) = (w, fd) ∷ with_socket fd ws

-- What `start` does before it waits for its threads: `none` where it returns false.
abbrev pub listen_rpc :
    Option ℕ × List ℕ → List ℕ → Server → Option (List (ConnWorker × Option ℕ)) × List ℕ × Server
listen_rpc (none, lost) before s = (none, before ++ lost, record s { rpclisten = none })
listen_rpc (some fd, lost) before s = (
  some (with_socket (some fd) s.rpcconnworker ++ with_socket s.httplisten s.httpconnworker),
  before ++ lost,
  record s { rpclisten = some fd },
)

abbrev pub listen_http :
    Answers → Option ℕ × List ℕ → Server → Option (List (ConnWorker × Option ℕ)) × List ℕ × Server
listen_http rpc (none, lost) s = (none, lost, record s { httplisten = none })
listen_http rpc (some fd, lost) s =
    listen_rpc (start_listen rpc) lost (record s { httplisten = some fd })

-- With the answers for the port of HTTP and for that of rpcframe's own protocol.
unfoldable pub start :
    Answers → Answers → Server → Option (List (ConnWorker × Option ℕ)) × List ℕ × Server
unfolding start_listen
start http rpc s =
    let both = listen_http rpc (start_listen http) s in
    let one = listen_rpc (start_listen rpc) [] s in if is_enabled s.cfg.http_port then both else one

unfoldable pub stop : Server → Server
unfolding ConnWorker.stop
stop s = if s.stopped then s else record s {
  stopped = true;
  rpcconnworker = map ConnWorker.stop s.rpcconnworker;
  httpconnworker = map ConnWorker.stop s.httpconnworker;
  worker_thread_pool = none;
}
