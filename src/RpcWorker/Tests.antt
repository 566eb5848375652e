-- ===== src/RpcWorker/Tests.antt =====
-- A worker of services, on small inputs.
use rpcframe.Prelude.{refl, ◌≡◌, [], ◌∷◌, some, false, codes, fault, ntohl}
use rpcframe.Package.{RequestPkg}
use rpcframe.Stats.{no_stats}
use rpcframe.ConnWorker.{make}
use rpcframe.Samples.{zeros, plain, plain_req}
use rpcframe.RpcWorker.{Clock, run}

abbrev clock : Clock
clock = record { taken = 20; begun = 21; ended = 24; checked = 25; answered = 26 }

-- It says that a message of 256 bytes follows.
abbrev liar : RequestPkg
liar = record {
  bytes = 0 ∷ 0 ∷ 1 ∷ 0 ∷ 7 ∷ [];
  data_len = 5;
  connection_id = codes "c";
  conn_worker = some 0;
  gen_time = 10;
  is_from_http = false;
}

run-liar : run zeros plain plain_req clock liar [] (make (codes "w") no_stats) ≡ fault
unfolding run ntohl make
run-liar = refl
