-- ===== src/ConnWorker/Tests.antt =====
-- A worker that accepts a client, is given a response and sends it in two parts.
use rpcframe.Prelude.{
  ◌≡◌, refl, Bool, true, false, none, some, List, [], ◌∷◌, Str, Exec, ret, arith, codes, find,
  assign, str_eq, to_string, digits, emplace, map, length, ◌<◌,
}
use rpcframe.Package.{RequestPkg, ResponsePkg}
use rpcframe.Net.{eagain, interrupted, room, Socket}
use rpcframe.Queue
use rpcframe.Stats.{no_stats}
use rpcframe.ServerConn
use rpcframe.ServerConn.{ServerConn, send_response, send_data, send_loop}
use rpcframe.ConnWorker.Deliver.{IsIdle, delivered}
use rpcframe.Broker.{Broker, is_alloced}
use rpcframe.Samples.{accepted, plain, zeros, whole}
use rpcframe.ConnWorker.{
  reading, push_resp, ConnWorker, make, on_accept, on_data_in, on_data_out, on_data_out_event,
  offer, announce, add_connection, watch,
}
use rpcframe.ConnWorker.Announce.{NoneStranded, Armed}
use rpcframe.ConnWorker.Receive.{rpc_receiver, IsFresh}
use rpcframe.RpcConn.{get_request}
use rpcframe.ConnWorker.Reach.{
  State, accepts, offers, announces, wakes, reads, sends, Reaches, here, later, none_stranded,
}

abbrev push_req : RequestPkg → List RequestPkg → Bool × List RequestPkg
push_req r rs = (true, r ∷ rs)

abbrev peer : Socket
peer = record { incoming = interrupted eagain ∷ []; outgoing = room 1 ∷ room 9 ∷ []; wire = [] }

abbrev the_id : Str
the_id = codes "7_w_1_5"

abbrev answer : ResponsePkg
answer = whole (1 ∷ 2 ∷ 3 ∷ [])

worker_of : Exec (Bool × ConnWorker) → ConnWorker
worker_of (ret (b, w)) = w
worker_of _ = make [] no_stats

worker_in : Exec ConnWorker → ConnWorker
worker_in (ret w) = w
worker_in _ = make [] no_stats

started : ConnWorker
started = make (codes "w") no_stats

with_client : ConnWorker
unfolding started
with_client = on_accept 10 100 7 (some (5, peer)) started

with_answer : ConnWorker
with_answer = worker_of (offer 9 the_id answer with_client)

announced : ConnWorker
announced = worker_in (announce the_id with_answer)

awake : ConnWorker
awake = worker_of (on_data_out_event announced)

half_sent : ConnWorker
half_sent = worker_of (on_data_out 12 the_id awake)

below : started.stats.conn_num < 10
unfolding started make
below = omega arith

client-IsFresh : IsFresh started 5 the_id
unfolding started make find ServerConn.make to_string digits
client-IsFresh = record { new_fd = λ i c e. cc; new_name = refl }

abbrev at : ConnWorker → List Str → State (List RequestPkg)
at w os = record { worker = w; offers = os; pool = [] }

offer_runs : offer 9 the_id answer with_client ≡ ret (true, with_answer)
unfolding with_answer worker_of with_client offer on_accept add_connection watch make
    ServerConn.make Queue.make Queue.push find emplace assign str_eq started to_string digits
offer_runs = refl

announce_runs : announce the_id with_answer ≡ ret announced
unfolding announced worker_in announce with_answer worker_of with_client offer on_accept
    add_connection watch make ServerConn.make Queue.make Queue.push find emplace assign str_eq
    started to_string digits
announce_runs = refl

room_for_name :
    (with_answer.resp_conn_q.drop_old_on_full ≡ false)
    × (length with_answer.resp_conn_q.items < with_answer.resp_conn_q.max_q_len)
unfolding with_answer worker_of with_client offer on_accept add_connection watch make
    ServerConn.make Queue.make Queue.push find emplace assign str_eq started to_string digits
room_for_name = (refl, omega arith)

wakes_runs : on_data_out_event announced ≡ ret (true, awake)
unfolding awake on_data_out_event Queue.pop announced worker_in announce with_answer worker_of
    with_client offer on_accept add_connection watch make ServerConn.make Queue.make Queue.push find
    emplace assign str_eq started to_string digits
wakes_runs = refl

abbrev armed_conn : ServerConn
armed_conn = elim (find the_id awake.conns) [ none ↦ ServerConn.make 0 peer [] 0 0 | some c ↦ c ]

armed_runs : (find the_id awake.conns ≡ some armed_conn) × Armed awake armed_conn
unfolding awake on_data_out_event Queue.pop announced worker_in announce with_answer worker_of
    with_client offer on_accept add_connection watch make ServerConn.make Queue.make Queue.push find
    emplace assign str_eq started to_string digits
armed_runs = (refl, refl)

sends_runs : on_data_out 12 the_id awake ≡ ret (true, half_sent)
unfolding half_sent on_data_out send_response send_data send_loop awake on_data_out_event Queue.pop
    announced worker_in announce with_answer worker_of with_client offer on_accept add_connection
    watch make ServerConn.make Queue.make Queue.push find emplace assign str_eq started to_string
    digits
sends_runs = refl

abbrev sent_conn : ServerConn
sent_conn = elim (find the_id half_sent.conns) [ none ↦ ServerConn.make 0 peer [] 0 0 | some c ↦ c ]

after_read : Exec (Bool × ConnWorker × List RequestPkg) → ConnWorker
after_read (ret (b, w, p)) = w
after_read _ = make [] no_stats

half_wire : map (λ e. (e.1).sock.wire) half_sent.conns ≡ (1 ∷ 2 ∷ []) ∷ []
unfolding half_sent on_data_out send_response send_data send_loop awake on_data_out_event Queue.pop
    announced worker_in announce with_answer worker_of with_client offer on_accept add_connection
    watch make ServerConn.make Queue.make Queue.push find emplace assign str_eq started to_string
    digits
half_wire = refl

-- The connection's socket has nothing yet.
heard : ConnWorker
heard = after_read (on_data_in (rpc_receiver zeros).get push_req 0 13 the_id half_sent [])

half_conn : find the_id half_sent.conns ≡ some sent_conn
unfolding half_sent on_data_out send_response send_data send_loop awake on_data_out_event Queue.pop
    announced worker_in announce with_answer worker_of with_client offer on_accept add_connection
    watch make ServerConn.make Queue.make Queue.push find emplace assign str_eq started to_string
    digits
half_conn = refl

reads_runs :
    on_data_in (rpc_receiver zeros).get push_req 0 13 the_id half_sent [] ≡ ret (true, heard, [])
unfolding heard after_read on_data_in rpc_receiver get_request half_sent on_data_out send_response
    send_data send_loop awake on_data_out_event Queue.pop announced worker_in announce with_answer
    worker_of with_client offer on_accept add_connection watch make ServerConn.make Queue.make
    Queue.push find emplace assign str_eq started to_string digits
reads_runs = refl

the_run : Reaches push_req 0 (at started []) (at heard [])
unfolding with_client started make ServerConn.make to_string digits
the_run = later (accepts 10 100 7 5 peer below client-IsFresh) (
    later (offers 9 the_id answer offer_runs) (
      later (announces [] [] the_id room_for_name.0 room_for_name.1 announce_runs) (
        later (wakes wakes_runs) (
          later (sends 12 the_id armed_runs.0 armed_runs.1 sends_runs)
            (later (reads (rpc_receiver zeros) 13 the_id half_conn reads_runs) here)))))

none_stranded_example : NoneStranded heard []
unfolding started
none_stranded_example = none_stranded push_req 0 (codes "w") no_stats [] (at heard []) the_run

-- A worker with one idle connection, and a broker with a response of two bytes.
abbrev idle_conn : ServerConn
idle_conn = accepted [] (room 9 ∷ [])

abbrev idle_worker : ConnWorker
idle_worker = record {
  name = codes "w";
  seqid = 1;
  conns = (the_id, idle_conn) ∷ [];
  resp_conn_q = record { items = []; max_q_len = 4; drop_old_on_full = false };
  resp_events = 0;
  epoll = λ n. some reading;
  stats = no_stats;
  stopped = false;
}

abbrev the_broker : Broker
the_broker = record {
  conn_worker = 0;
  conn_id = the_id;
  req_id = codes "r";
  need_resp = true;
  is_responed = true;
  from_http = false;
  resp_proto = record { version = 1; request_id = codes "r" };
  resp_pkg = some answer;
  return_val_pos = 3;
  user_data_pos = 1;
}

conn-IsIdle : IsIdle idle_worker the_id idle_conn 9 []
unfolding find str_eq
conn-IsIdle = record {
  found = refl;
  connected = refl;
  not_sending = refl;
  nothing_queued = refl;
  room_queued = omega arith;
  nothing_announced = refl;
  room_announced = omega arith;
  room_socket = refl;
}

delivered_example :
    (pushed woken sent : ConnWorker) × (c' : ServerConn) × (push_resp zeros plain 8 the_id
        the_broker idle_worker
      ≡ ret (the_broker, pushed))
    × (on_data_out_event pushed ≡ ret (true, woken))
    × (on_data_out 9 the_id woken ≡ ret (true, sent))
    × (find the_id sent.conns ≡ some c')
    × (c'.sock.wire ≡ 1 ∷ 2 ∷ 3 ∷ [])
    × (c'.response_q.items ≡ [])
    × (sent.epoll 5 ≡ some reading)
unfolding is_alloced
delivered_example =
    delivered 8 9 idle_worker the_id idle_conn 9 [] answer conn-IsIdle (refl, omega arith)
      (omega arith) (omega arith) zeros plain the_broker refl refl
