-- ===== src/ClientWorker/Tests.antt =====
-- Responses to a call that waits.
use rpcframe.Prelude.{
  ◌>>=◌, true, ◌≡◌, refl, false, none, some, [], ◌∷◌, codes, drop, str_eq, ret, Returns, arith,
}
use rpcframe.Package.{ResponsePkg, status_code, server_ok}
use rpcframe.Samples.{zeros, plain}
use rpcframe.CallBack.{CallBack}
use rpcframe.Broker.{Broker, alloc_resp_buf_from, set_return_val}
use rpcframe.Broker.Layout.{reply}
use rpcframe.Looper.{Looper, get_cb}
use rpcframe.ClientWorker.{run}
use rpcframe.ClientWorker.Answer.{IsAnswered, received, answer_arrives, string_answer_arrives}

abbrev waiting_cb : CallBack
waiting_cb = record {
  type_mark = [];
  timeout = 3;
  reqid = codes "7";
  has_timeout = false;
  is_done = false;
  is_shared = false;
  blocker = none;
  calls = [];
}

abbrev loop : Looper
loop = record {
  stopped = false;
  eps = [];
  max_req_size = 100;
  ep_conn_map = [];
  cbs = waiting_cb ∷ [];
  id_cb_map = (codes "7", some 0) ∷ [];
  conn_cb_map = [];
  cb_timer_map = [];
  req_seqid = 8;
  host_ip = [];
  watched = [];
}

abbrev broker : Broker
broker = record {
  conn_worker = 0;
  conn_id = codes "c";
  req_id = codes "7";
  need_resp = true;
  is_responed = false;
  from_http = false;
  resp_proto = record { version = 1; request_id = codes "7" };
  resp_pkg = none;
  return_val_pos = 0;
  user_data_pos = 0;
}

waits : get_cb (codes "7") loop ≡ some 0
unfolding get_cb str_eq
waits = refl

-- The service answers "hi".
answer_arrives_example :
    (b' : Broker) × (pkg : ResponsePkg) × (reply zeros plain (codes "hi") server_ok broker ≡ ret b')
    × (b'.resp_pkg ≡ some pkg)
    × Returns
        (IsAnswered (codes "7") 0 (status_code server_ok) (codes "hi") waiting_cb)
        (run plain (received (drop 4 pkg.bytes)) loop)
answer_arrives_example =
    answer_arrives zeros plain (codes "hi") (1 ∷ codes "7") server_ok broker 0 waiting_cb loop refl
      refl (omega arith) waits refl refl

-- The service answers with the string "hi".
string_answer_arrives_example :
    (b' : Broker) × (pkg : ResponsePkg) × ((alloc_resp_buf_from zeros plain (codes "hi") broker
        >>= λ q. set_return_val zeros plain server_ok q.1)
      ≡ ret b')
    × (b'.resp_pkg ≡ some pkg)
    × Returns
        (IsAnswered (codes "7") 0 (status_code server_ok) (104 ∷ 105 ∷ 0 ∷ []) waiting_cb)
        (run plain (received (drop 4 pkg.bytes)) loop)
string_answer_arrives_example =
    string_answer_arrives zeros plain (codes "hi") (1 ∷ codes "7") server_ok broker 0 waiting_cb
      loop (omega arith) refl refl (omega arith) waits refl refl
