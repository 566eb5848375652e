-- ===== src/Client/Tests.antt =====
-- One synchronous call.
use rpcframe.Prelude.{
  ℕ, ◌≡◌, refl, true, false, none, some, [], ◌∷◌, Str, codes, str_eq, Exec, ret, waiting, fault,
  IfReturns, to_string,
}
use rpcframe.Package.{RpcStatus, send_ok, send_fail, status_code}
use rpcframe.Net.{room}
use rpcframe.Samples.{zeros}
use rpcframe.Samples.Requests.{any_req, write_request}
use rpcframe.CallBack.{Blocker, make_blocker}
use rpcframe.Looper.{Looper, remove_cb, modify}
use rpcframe.Looper.Conns.{Dial, new_conn}
use rpcframe.Looper.Send.{Caller, send_req, is_sent}
use rpcframe.CallBack.{callback_safe}
use rpcframe.Client.{Meanwhile, call, blocker_at}
use rpcframe.Client.Calls.{IsOver, call-IsOver}

abbrev server : Str
server = 80 ∷ codes "b"

abbrev loop : Looper
loop = record {
  stopped = false;
  eps = server ∷ [];
  max_req_size = 100;
  ep_conn_map = (server, record new_conn { fd = some 5 }) ∷ [];
  cbs = [];
  id_cb_map = [];
  conn_cb_map = [];
  cb_timer_map = [];
  req_seqid = 7;
  host_ip = codes "h";
  watched = 5 ∷ [];
}

-- The kernel takes 21 bytes, and then the rest.
abbrev caller : Caller
caller = record {
  pid = 1;
  thread_id = codes "t";
  now = 10;
  rounds = (10, room 20) ∷ (10, room 999) ∷ [];
}

abbrev dial : Str → Dial
dial ep = record { host = none; incoming = [] }

-- The response "hi" comes before the caller waits.
abbrev others : Meanwhile
others = record {
  before = λ l. record l { cbs = modify 0 (callback_safe 8 (codes "hi")) l.cbs };
  ends = none;
  after = λ l. l;
}

abbrev with_blocker : Looper
with_blocker = record loop { cbs = make_blocker 3 ∷ [] }

sent_of : Exec (RpcStatus × Str × Looper) → RpcStatus × Str × Looper
sent_of (ret r) = r
sent_of waiting = (send_fail, [], loop)
sent_of fault = (send_fail, [], loop)

abbrev sending : Exec (RpcStatus × Str × Looper)
sending =
    send_req zeros any_req caller dial (codes "S") (codes "M") (codes "data") (some 0) []
      with_blocker

abbrev id : Str
id = codes "1_t_5_10_h_7"

abbrev then_loop : Looper
then_loop = (sent_of sending).2

it_sends : sending ≡ ret (send_ok, id, then_loop)
unfolding sent_of send_req str_eq write_request to_string make_blocker
it_sends = refl

abbrev the_call : Exec (ℕ × Str × Looper)
the_call = call zeros any_req caller dial others (codes "S") (codes "M") (codes "data") [] 3 loop

-- It gives the status and the data that came.
call-IsOver_example :
    IfReturns (IsOver id) the_call
    × (is_sent send_ok ≡ false → the_call ≡ ret (status_code send_ok, [], remove_cb id then_loop))
    × ((b : Blocker) (n : ℕ)
        → is_sent send_ok ≡ true
        → blocker_at 0 (others.before then_loop) ≡ some b
        → b.done ≡ true
        → b.cb_st ≡ some n
        → the_call ≡ ret (n, b.resp_data, remove_cb id (others.after (others.before then_loop))))
call-IsOver_example =
    call-IsOver zeros any_req caller dial others (codes "S") (codes "M") (codes "data") [] id 3
      send_ok loop then_loop it_sends

answer_of : Exec (ℕ × Str × Looper) → ℕ × Str
answer_of (ret (st, d, l)) = (st, d)
answer_of waiting = (0, [])
answer_of fault = (0, [])

call_answers : answer_of the_call ≡ (8, codes "hi")
unfolding answer_of call str_eq write_request to_string make_blocker callback_safe
call_answers = refl
