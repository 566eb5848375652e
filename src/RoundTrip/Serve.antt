-- ===== src/RoundTrip/Serve.antt =====
-- A request for a method that answers, from the worker that runs it (server/src/RpcWorker.cpp) to the
-- bytes on the connection (server/src/RpcServerConnWorker.cpp).
use rpcframe.Prelude.{
  ℕ, ◌+◌, ◌-◌, ◌≤◌, ◌<◌, ◌^◌, ◌≡◌, sym, ap, ◌∙◌, Bool, true, false, some, List, ◌++◌, Str, length,
  be32, Exec, ret, ◌>>=◌, >>=-eq-ret, find, assign, arith, length-append, length-be32,
}
use rpcframe.Package.{
  RequestPkg, ResponsePkg, Allocator, RpcStatus, server_ok, InnerReq, InnerResp, Codec,
  rpcframe_ver,
}
use rpcframe.Net.{Room}
use rpcframe.Stats
use rpcframe.Stats.{Stats}
use rpcframe.Broker
use rpcframe.Broker.{Broker, is_alloced, alloc_resp_buf, set_return_val}
use rpcframe.Broker.Layout.{
  write_user, reply_body, reply_size, length-reply_body, reply, reply-HasReply,
}
use rpcframe.ServerConn.{ServerConn}
use rpcframe.ConnWorker.{ConnWorker, on_data_out, on_data_out_event, push_resp}
use rpcframe.ConnWorker.Deliver.{IsIdle, delivered}
use rpcframe.RpcConn.Requests.{frame}
use rpcframe.RpcWorker.{
  Clock, Handler, Method, Service, Services, ServiceBlock, run_method, push_response, is_late,
  count_call, update_method, dispatch, conclude, in_block, after_call,
}
use rpcframe.ClientConn.{request}

-- A method of a service that asks for a buffer, fills it with what it makes of its data and returns OK.
abbrev pub answers : Allocator → Codec InnerResp → (Str → Str) → Handler
answers mem proto f d b w =
    (alloc_resp_buf mem proto (length (f d)) b >>= write_user (f d)) >>= λ b'.
    ret (server_ok, b', w)

-- After `run`, the worker's next two handlers leave `wire` as what the connection `id` has sent.
abbrev pub Sends : ℕ → Str → Str → Exec (Services × ConnWorker) → Type 0
Sends later id wire x =
    (m' : Services) × (pushed woken sent : ConnWorker) × (c' : ServerConn) × (x ≡ ret (m', pushed))
    × (on_data_out_event pushed ≡ ret (true, woken))
    × (on_data_out later id woken ≡ ret (true, sent))
    × (find id sent.conns ≡ some c')
    × (c'.sock.wire ≡ wire)

-- `IsIdle` says nothing of the statistics.
pub IsIdle-stats :
    (w : ConnWorker) (id : Str) (c : ServerConn) (k : ℕ) (evs : List Room) (s : Stats)
    → IsIdle w id c k evs
    → IsIdle (record w { stats = s }) id c k evs
IsIdle-stats w id c k evs s idle = record {
  found = idle.found;
  connected = idle.connected;
  not_sending = idle.not_sending;
  nothing_queued = idle.nothing_queued;
  room_queued = idle.room_queued;
  nothing_announced = idle.nothing_announced;
  room_announced = idle.room_announced;
  room_socket = idle.room_socket;
}

module _ (mem : Allocator) (proto : Codec InnerResp) (req_proto : Codec InnerReq) (f : Str → Str)
    (t : Clock) (service method d id ps : Str) (timeout num later k : ℕ) (evs : List Room)
    (pkg : RequestPkg) (m : Services) (block : ServiceBlock) (s : Service) (meth : Method)
    (w : ConnWorker) (c : ServerConn) (known : find service m ≡ some block)
    (serves : block.srv ≡ some s) (has : find method s ≡ some meth)
    (func : meth.func ≡ answers mem proto f) (own : pkg.is_from_http ≡ false)
    (in_time : is_late (request service method d id false timeout) (t.checked - pkg.gen_time)
      ≡ false)
    (written : proto.serialize (record { version = rpcframe_ver; request_id = id }) ≡ some ps)
    (fits : reply_size ps (f d) + 4 < 2 ^ 31) (idle : IsIdle w pkg.connection_id c k evs)
    (space : reply_size ps (f d) + 4 ≤ k + 1) where
  abbrev req : InnerReq
  req = request service method d id false timeout

  abbrev broker : Broker
  broker = Broker.make num pkg.connection_id id true pkg.is_from_http

  abbrev counted : ConnWorker
  counted = record w { stats = Stats.calc_call_time (t.ended - t.begun) w.stats }

  abbrev services : Services
  services =
      assign service
        (record block {
          srv = some (update_method (count_call (t.ended - t.begun) false) method s);
        })
        m

  record Reply (b1 b' : Broker) (rp : ResponsePkg) : Type 0 where
    filled : (alloc_resp_buf mem proto (length (f d)) broker >>= write_user (f d)) ≡ ret b1
    concludes : set_return_val mem proto server_ok b1 ≡ ret b'
    there : b'.resp_pkg ≡ some rp
    alloced : is_alloced b' ≡ true
    unanswered : b'.is_responed ≡ false
    whole : rp.data_len ≡ length rp.bytes
    layout : rp.bytes ≡ frame (reply_body ps (f d) server_ok)

  replied : (b1 b' : Broker) × (rp : ResponsePkg) × Reply b1 b' rp
  unfolding Broker.make reply
  replied =
      let (b', rp, result, h) =
        reply-HasReply mem proto (f d) ps server_ok broker own written (omega arith) in
      let (b1, first, last) =
        >>=-eq-ret (alloc_resp_buf mem proto (length (f d)) broker >>= write_user (f d))
          (set_return_val mem proto server_ok) result in
      (
        b1,
        b',
        rp,
        record {
          filled = first;
          concludes = last;
          there = h.has;
          alloced = h.alloced;
          unanswered = h.same_responed;
          whole = h.same_len;
          layout =
              h.layout
              ∙ ap (λ (n : ℕ). be32 n ++ reply_body ps (f d) server_ok)
                  (sym (length-reply_body ps (f d) server_ok));
        },
      )

  module _ (b1 b' : Broker) (rp : ResponsePkg) (r : Reply b1 b' rp) where
    called : run_method method d broker w s ≡ ret (true, server_ok, b1, w)
    unfolding run_method
    called = rw (has, func, r.filled, run_method)

    concluded :
        conclude mem proto req_proto t pkg req server_ok b1 counted
        ≡ (push_resp mem proto t.answered pkg.connection_id b' counted >>= λ x. ret x.1)
    unfolding push_response
    concluded = rw (r.concludes, r.unanswered)

    found_block :
        dispatch mem proto req_proto t pkg req d num m w
        ≡ in_block mem proto req_proto t pkg req d broker block m w
    found_block = ground (arith, known)

    found_service :
        in_block mem proto req_proto t pkg req d broker block m w
        ≡ (run_method method d broker w s >>= after_call mem proto req_proto t pkg req block s m)
    found_service = ground (arith, serves, own)

    not_late :
        after_call mem proto req_proto t pkg req block s m (true, server_ok, b1, w)
        ≡ (conclude mem proto req_proto t pkg req server_ok b1 counted >>= λ w'. ret (services, w'))
    not_late = rw in_time

    dispatched : dispatch mem proto req_proto t pkg req d num m w ≡ (
        (push_resp mem proto t.answered pkg.connection_id b' counted >>= λ x. ret x.1) >>= λ w'.
        ret (services, w'))
    dispatched =
        found_block
        ∙ (found_service
            ∙ (ap
                  (λ (x : Exec (Bool × RpcStatus × Broker × ConnWorker)).
                    x >>= after_call mem proto req_proto t pkg req block s m)
                  called
                ∙ (not_late
                    ∙ ap (λ (x : Exec ConnWorker). x >>= λ w'. ret (services, w')) concluded)))

    sends :
        Sends later pkg.connection_id
          (c.sock.wire ++ frame (reply_body ps (f d) server_ok))
          (dispatch mem proto req_proto t pkg req d num m w)
    sends =
        let size : rp.data_len ≡ reply_size ps (f d) + 4 = omega (
          arith,
          r.whole,
          ap length r.layout,
          length-append (be32 (length (reply_body ps (f d) server_ok)))
              (reply_body ps (f d) server_ok),
          length-be32 (length (reply_body ps (f d) server_ok)),
          length-reply_body ps (f d) server_ok,
        ) in
        let (pushed, woken, sent, c', push, event, out, found, wire, queue, quiet) =
          delivered t.answered later counted pkg.connection_id c k evs rp
            (IsIdle-stats w pkg.connection_id c k evs
              (Stats.calc_call_time (t.ended - t.begun) w.stats) idle)
            (r.whole, omega (arith, size)) (omega (arith, size)) (omega (arith, size)) mem proto b'
            r.there r.alloced in
        (
          services,
          pushed,
          woken,
          sent,
          c',
          dispatched
              ∙ ap
                  (λ (x : Exec (Broker × ConnWorker)).
                    (x >>= λ y. ret y.1) >>= λ w'. ret (services, w'))
                  push,
          event,
          out,
          found,
          wire ∙ ap (◌++◌ c.sock.wire) r.layout,
        )

  pub dispatch-Sends :
      Sends later pkg.connection_id
        (c.sock.wire ++ frame (reply_body ps (f d) server_ok))
        (dispatch mem proto req_proto t pkg req d num m w)
  dispatch-Sends = let (b1, b', rp, r) = replied in sends b1 b' rp r
