-- ===== src/RoundTrip/Tests.antt =====
-- One request from client to server.
use rpcframe.Prelude.{
  ℕ, ◌++◌, none, find, ret, str_eq, some, ◌≡◌, refl, true, false, [], ◌∷◌, Str, some, inl, arith,
  Returns, be32, codes,
}
use rpcframe.Package.{RequestPkg, send_ok, server_ok, status_code}
use rpcframe.Net.{room, arrived, interrupted, eagain, eintr, stream}
use rpcframe.Queue
use rpcframe.ServerConn.{ServerConn}
use rpcframe.ConnWorker.Deliver.{IsIdle}
use rpcframe.RpcConn.Reading.{unread}
use rpcframe.Broker.Layout.{reply_body}
use rpcframe.ClientConn.Midway.{next_response}
use rpcframe.CallBack.{CallBack}
use rpcframe.Looper.{Looper, get_cb}
use rpcframe.RoundTrip.Serve.{answers, Sends}
use rpcframe.RoundTrip.Answered.{Offers, Waits, Heard, taken, call_answered}
use rpcframe.Stats.{no_stats, calc_req_q_time}
use rpcframe.ConnWorker.{ConnWorker, make}
use rpcframe.RpcConn.Requests.{frame, requests}
use rpcframe.Samples.{zeros, plain, plain_req, write_req, accepted}
use rpcframe.RpcWorker.{Clock, run, dispatch, Service, ServiceBlock, Services, new_status}
use rpcframe.RpcWorker.Dispatch.{body}
use rpcframe.ClientConn.{null, ClientConn, RespRet, send_req, request}
use rpcframe.ClientConn.Sending.{Outcome}
use rpcframe.RoundTrip.{send_req_lem, request_arrives}

abbrev client : ClientConn
client = record {
  fd = some 5;
  incoming = [];
  wire = [];
  cur_left_len = 0;
  cur_pkg_size = 0;
  rpk = null;
  is_connected = true;
  last_invalid_time = 0;
}

abbrev clock : Clock
clock = record { taken = 20; begun = 21; ended = 24; checked = 25; answered = 26 }

-- Service "S", method "M", request "1", five seconds, data "hi".
abbrev message : Str
message = 83 ∷ 77 ∷ 49 ∷ 5 ∷ 104 ∷ 105 ∷ []

abbrev received : RequestPkg
received = record {
  bytes = 0 ∷ 0 ∷ 0 ∷ 6 ∷ message;
  data_len = 10;
  connection_id = codes "c";
  conn_worker = some 0;
  gen_time = 10;
  is_from_http = false;
}

abbrev server : ConnWorker
server = make (codes "w") no_stats

same_bytes : received.bytes ≡ body message []
unfolding be32
same_bytes = refl

send_req_lem_example : Returns (Outcome [] (frame (body message []))) (
    send_req zeros plain_req
      (codes "S")
      (codes "M")
      (codes "hi")
      (codes "1")
      false
      5
      3
      ((3, room 99) ∷ [])
      client)
unfolding write_req
send_req_lem_example =
    send_req_lem zeros plain_req (codes "S") (codes "M") (codes "hi") (codes "1") false 5 message
      refl (omega arith) 3 ((3, room 99) ∷ []) client (inl (omega arith))

request_arrives_example :
    run zeros plain plain_req clock received [] server
    ≡ dispatch zeros plain plain_req clock received
        (request (codes "S") (codes "M") (codes "hi") (codes "1") false 5)
        (codes "hi")
        0
        []
        (record server { stats = calc_req_q_time 10 server.stats })
unfolding write_req
request_arrives_example =
    request_arrives zeros plain_req (codes "S") (codes "M") (codes "hi") (codes "1") false 5 message
      refl (omega arith) plain clock received 0 [] server same_bytes refl refl (omega arith)
      (omega arith)

-- The whole call. The server's method doubles its data.
abbrev twice : Str → Str
twice d = d ++ d

abbrev service : Service
service =
    (
      codes "M",
      record { func = answers zeros plain twice; status = new_status; allow_http = false },
    )
    ∷ []

abbrev block : ServiceBlock
block = record { srv = some service; owner = false }

abbrev services : Services
services = (codes "S", block) ∷ []

there : Offers services (codes "S") (codes "M") (answers zeros plain twice)
unfolding str_eq find
there = record {
  block = block;
  srv = service;
  meth = record { func = answers zeros plain twice; status = new_status; allow_http = false };
  listed = refl;
  serves = refl;
  has = refl;
  does = refl;
}

-- The request, cut up.
abbrev taking : ServerConn
taking =
    accepted
      (arrived 0 (0 ∷ [])
        ∷ interrupted eagain
        ∷ arrived 0 (10 ∷ 0 ∷ 0 ∷ 0 ∷ [])
        ∷ arrived 6 (83 ∷ 77 ∷ 49 ∷ 5 ∷ [])
        ∷ interrupted eintr
        ∷ arrived 104 (105 ∷ [])
        ∷ [])
      []

abbrev client_sent : ClientConn
client_sent = record client { wire = 0 ∷ 0 ∷ 0 ∷ 10 ∷ 0 ∷ 0 ∷ 0 ∷ 6 ∷ message }

sent_lem :
    send_req zeros plain_req
      (codes "S")
      (codes "M")
      (codes "hi")
      (codes "1")
      false
      5
      3
      ((3, room 99) ∷ [])
      client
    ≡ ret (send_ok, client_sent)
unfolding send_req write_req be32
sent_lem = refl

-- The connection, as the worker has it when it answers.
abbrev answering : ServerConn
answering = accepted [] (room 99 ∷ [])

abbrev worker : ConnWorker
worker = record server { conns = (codes "7_w_5", answering) ∷ [] }

worker-IsIdle : IsIdle worker (codes "7_w_5") answering 99 []
unfolding str_eq make Queue.make find
worker-IsIdle = record {
  found = refl;
  connected = refl;
  not_sending = refl;
  nothing_queued = refl;
  room_queued = omega arith;
  nothing_announced = refl;
  room_announced = omega arith;
  room_socket = refl;
}

-- The response, cut up.
abbrev hearing : ClientConn
hearing = record client {
  incoming =
      arrived 0 (0 ∷ 0 ∷ 14 ∷ 0 ∷ [])
      ∷ arrived 0 (0 ∷ 2 ∷ 1 ∷ 49 ∷ 104 ∷ 105 ∷ 104 ∷ 105 ∷ 0 ∷ 0 ∷ 0 ∷ 8 ∷ [])
      ∷ [];
}

hearing_lem :
    stream hearing.incoming ≡ frame (reply_body (1 ∷ codes "1") (twice (codes "hi")) server_ok)
unfolding be32 status_code
hearing_lem = refl

abbrev waiting_cb : CallBack
waiting_cb = record {
  type_mark = [];
  timeout = 5;
  reqid = codes "1";
  has_timeout = false;
  is_done = false;
  is_shared = false;
  blocker = none;
  calls = [];
}

abbrev loop : Looper
loop = record {
  stopped = false;
  eps = [];
  max_req_size = 100;
  ep_conn_map = [];
  cbs = waiting_cb ∷ [];
  id_cb_map = (codes "1", some 0) ∷ [];
  conn_cb_map = [];
  cb_timer_map = [];
  req_seqid = 2;
  host_ip = [];
  watched = [];
}

waits : Waits (codes "1") 0 waiting_cb loop
unfolding get_cb str_eq
waits = record { found = refl; there = refl; in_time = refl }

taking_lem : unread taking ≡ client_sent.wire
unfolding be32
taking_lem = refl

written :
    plain_req.serialize (request (codes "S") (codes "M") (codes "hi") (codes "1") false 5)
    ≡ some message
unfolding write_req
written = refl

call_answered_example :
    (calls : ℕ) × (p : RequestPkg) × (requests zeros calls taking ≡ ret (p ∷ []))
    × Sends 30 taking.seqid
        (answering.sock.wire ++ stream hearing.incoming)
        (run zeros plain plain_req clock (taken 10 0 p) services worker)
    × Returns
        (λ (r : RespRet × ClientConn).
          Heard plain
            (codes "1")
            0
            (status_code server_ok)
            (twice (codes "hi"))
            waiting_cb
            loop
            r.0)
        (next_response zeros 2 hearing)
call_answered_example =
    call_answered zeros plain plain_req twice clock (codes "S") (codes "M") (codes "hi") (codes "1")
      message (1 ∷ codes "1") 5 written (omega arith) (omega arith) (omega arith) refl (omega arith)
      client client_sent hearing 3 0 10 30 99 1 0 ((3, room 99) ∷ []) [] taking answering services
      worker waiting_cb loop (inl (omega arith)) sent_lem refl (omega arith) refl (refl, (refl, tt))
      (omega arith) taking_lem there refl worker-IsIdle (omega arith) (refl, refl) tt hearing_lem
      (omega arith) waits
