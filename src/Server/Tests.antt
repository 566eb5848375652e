-- ===== src/Server/Tests.antt =====
-- A server with two workers.
use rpcframe.Prelude.{◌≡◌, true, false, none, some, List, [], ◌∷◌, Str, codes, Returns}
use rpcframe.Stats.{no_stats}
use rpcframe.Config.{Config}
use rpcframe.ConnWorker
use rpcframe.ConnWorker.{ConnWorker}
use rpcframe.RpcWorker.{Service}
use rpcframe.Server.{Server, Answers, make, start}
use rpcframe.Server.Serving.{IsServing, add_all, at_first, last_added, services_everywhere}
use rpcframe.Server.Startup.{start_lem}

abbrev cfg : Config
cfg = record {
  thread_num = 2;
  hostname = codes "h";
  port = 7000;
  max_conn_num = 10;
  max_req_size = 100;
  http_port = some 8000;
  http_thread_num = 9;
  max_req_qsize = 50;
  conn_thread_num = 1;
}

-- "echo", and another one of the same name.
abbrev services : List (Str × Service)
services = (codes "echo", []) ∷ (codes "echo", []) ∷ []

services_everywhere_example :
    Returns
      (IsServing (λ name. last_added name services (at_first [] name)) 2)
      (add_all services (make cfg []))
services_everywhere_example = services_everywhere cfg [] services

abbrev worker : ConnWorker
worker = ConnWorker.make (codes "w") no_stats

abbrev server : Server
server = record {
  rpclisten = none;
  httplisten = none;
  cfg = cfg;
  stopped = false;
  response_q = record { items = []; max_q_len = 9; drop_old_on_full = false };
  rpcconnworker = worker ∷ [];
  httpconnworker = worker ∷ [];
  worker_thread_pool = none;
}

abbrev granted : Answers
granted = record { socket = some 3; nonblock = true; bound = true; listening = true }

-- The port is in use.
abbrev taken : Answers
taken = record { socket = some 4; nonblock = true; bound = false; listening = true }

start_lem_example :
    ((start granted taken server).0 ≡ none) × ((start granted taken server).1 ≡ 4 ∷ [])
start_lem_example = start_lem granted taken server
