-- ===== src/ConnWorker/Deliver.antt =====
-- A response from `pushResp` to the wire, over an idle connection with room for it.
use rpcframe.Prelude.{
  ℕ, ◌+◌, ◌-◌, ◌≤◌, ◌<◌, ◌≡◌, refl, true, none, some, List, [], ◌∷◌, ◌++◌, Str, take_all, min,
  arith, find, assign, ret,
}
use rpcframe.Broker.{Broker, is_alloced}
use rpcframe.Package.{Allocator, Codec, InnerResp, ResponsePkg, full}
use rpcframe.Net.{Room, room}
use rpcframe.Queue
use rpcframe.Queue.{Queue}
use rpcframe.Stats.{Stats, calc_resp_q_time}
use rpcframe.ServerConn.{ServerConn, is_sending, send_response, send_data, send_loop}
use rpcframe.ServerConn.Sending.{IsWhole, to_send-eq}
use rpcframe.ConnWorker.{
  ConnWorker, reading, both, watch, offer, announce, on_data_out_event, on_data_out, push_resp,
}
use rpcframe.ConnWorker.Serve.{find-same}

-- The connection `id` is idle, the socket takes at least `k + 1` bytes, and the worker is waiting.
pub record IsIdle (w : ConnWorker) (id : Str) (c : ServerConn) (k : ℕ) (evs : List Room)
    : Type 0 where
  pub found : find id w.conns ≡ some c
  pub connected : c.is_connected ≡ true
  pub not_sending : c.sent_pkg ≡ none
  pub nothing_queued : c.response_q.items ≡ []
  pub room_queued : 0 < c.response_q.max_q_len
  pub nothing_announced : w.resp_conn_q.items ≡ []
  pub room_announced : 0 < w.resp_conn_q.max_q_len
  pub room_socket : c.sock.outgoing ≡ room k ∷ evs

module _ (now later : ℕ) (w : ConnWorker) (id : Str) (c : ServerConn) (k : ℕ) (evs : List Room)
    (pkg : ResponsePkg) (idle : IsIdle w id c k evs) (whole : IsWhole pkg) (pos : 0 < pkg.data_len)
    (fits : pkg.data_len ≤ k + 1) where
  abbrev stamped : ResponsePkg
  stamped = record pkg { gen_time = now }

  abbrev holding : ServerConn
  holding = record c { response_q = record c.response_q { items = stamped ∷ [] } }

  abbrev offered_to : ConnWorker
  offered_to = record w { conns = assign id holding w.conns }

  offer_lem : offer now id pkg w ≡ ret (true, offered_to)
  unfolding offer Queue.push
  offer_lem = ground (arith, idle.found, idle.nothing_queued, idle.room_queued)

  abbrev told : ConnWorker
  told = record offered_to {
    resp_conn_q = record w.resp_conn_q { items = id ∷ [] };
    resp_events = w.resp_events + 1;
  }

  announce_lem : announce id offered_to ≡ ret told
  unfolding announce Queue.push
  announce_lem = ground (arith, idle.nothing_announced, idle.room_announced)

  abbrev armed : ConnWorker
  armed = watch c.fd (some both) (record told {
    resp_conn_q = record w.resp_conn_q { items = [] };
    resp_events = w.resp_events + 1 - 1;
  })

  event_lem : on_data_out_event told ≡ ret (true, armed)
  unfolding on_data_out_event Queue.pop watch is_sending
  event_lem = ground (arith, find-same id holding w, idle.not_sending)

  abbrev sent_conn : ServerConn
  sent_conn = record c {
    response_q = record c.response_q { items = [] };
    sent_pkg = none;
    sent_len = 0;
    sock = record c.sock { outgoing = evs; wire = c.sock.wire ++ pkg.bytes };
  }

  abbrev timed : Stats
  timed = calc_resp_q_time (later - now) w.stats

  send_lem : send_response later holding w.stats ≡ ret (full, sent_conn, timed)
  unfolding send_response send_data send_loop is_sending Queue.pop
  send_lem = ground (
    arith,
    idle.connected,
    idle.not_sending,
    idle.room_socket,
    to_send-eq stamped 0 whole (omega arith),
    take_all (min (pkg.data_len) (k + 1)) pkg.bytes (omega (arith, whole.0)),
  )

  abbrev quiet : ConnWorker
  quiet =
      watch c.fd (some reading)
        (record armed { conns = assign id sent_conn offered_to.conns; stats = timed })

  out_lem : on_data_out later id armed ≡ ret (true, quiet)
  unfolding on_data_out watch Queue.size
  out_lem = ground (arith, find-same id holding w, send_lem)

  module _ (mem : Allocator) (proto : Codec InnerResp) (b : Broker) (has : b.resp_pkg ≡ some pkg)
      (alloced : is_alloced b ≡ true) where
    push_lem : push_resp mem proto now id b w ≡ ret (b, told)
    unfolding push_resp
    push_lem = ground (arith, offer_lem, announce_lem)

    -- A response that a thread pushes for an idle connection: it joins the connection's queue and
    -- the worker is told; the worker wakes, arms the connection and sends the response. All of it is
    -- then on the wire, behind what was there, nothing is queued, and EPOLLOUT is off.
    pub delivered :
        (pushed woken sent : ConnWorker) × (c' : ServerConn) × (push_resp mem proto now id b w
          ≡ ret (b, pushed))
        × (on_data_out_event pushed ≡ ret (true, woken))
        × (on_data_out later id woken ≡ ret (true, sent))
        × (find id sent.conns ≡ some c')
        × (c'.sock.wire ≡ c.sock.wire ++ pkg.bytes)
        × (c'.response_q.items ≡ [])
        × (sent.epoll c.fd ≡ some reading)
    unfolding watch
    delivered = (
      told,
      armed,
      quiet,
      sent_conn,
      push_lem,
      event_lem,
      out_lem,
      find-same id sent_conn offered_to,
      refl,
      refl,
      ground arith,
    )
