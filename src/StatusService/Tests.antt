-- ===== src/StatusService/Tests.antt =====
-- The status of a new server.
use rpcframe.Prelude.{
  fault, some, Returns, arith, ◌≡◌, refl, true, false, ◌>>=◌, none, [], ◌∷◌, codes,
}
use rpcframe.Broker
use rpcframe.Broker.{set_return_val}
use rpcframe.Broker.Layout.{reply}
use rpcframe.Package.{server_ok}
use rpcframe.Samples.{zeros, plain}
use rpcframe.Stats.{no_stats}
use rpcframe.Config.{Config}
use rpcframe.Server.{Server, Pool, add_service, make}
use rpcframe.StatusService.{get_status, page}
use rpcframe.StatusService.Null.{null_service_breaks_page}
use rpcframe.StatusService.Answer.{status_over_rpc}

abbrev cfg : Config
cfg = record {
  thread_num = 2;
  hostname = codes "h";
  port = 7000;
  max_conn_num = 10;
  max_req_size = 100;
  http_port = none;
  http_thread_num = 1;
  max_req_qsize = 50;
  conn_thread_num = 1;
}

-- A client asks for the status over rpcframe's own protocol.
status_over_rpc_example :
    (get_status zeros plain 7
        (make cfg [])
        no_stats
        (Broker.make 0 (codes "c") (codes "r1") true false)
      >>= λ r. set_return_val zeros plain r.0 r.1)
    ≡ reply zeros plain (0 ∷ []) server_ok (Broker.make 0 (codes "c") (codes "r1") true false)
unfolding Broker.make
status_over_rpc_example =
    status_over_rpc zeros plain 7 (make cfg []) no_stats
      (Broker.make 0 (codes "c") (codes "r1") true false) refl

abbrev small_pool : Pool
small_pool = record {
  task_q = record { items = []; max_q_len = 50; drop_old_on_full = false };
  worker_threads = record { stopped = false; q_timeout = 100; real_worker = []; task = none } ∷ [];
}

abbrev server : Server
server = record (make cfg []) { worker_thread_pool = some small_pool }

null_service_breaks_page_example :
    Returns
      (λ r. (r.0 ≡ true) × (page 7 r.1 no_stats ≡ fault))
      (add_service (codes "echo") none server)
unfolding make
null_service_breaks_page_example =
    null_service_breaks_page 7 no_stats (codes "echo") server small_pool refl (omega arith)
