-- ===== src/RoundTrip/Answered.antt =====
-- A whole call: client/src/RpcClientConn.cpp, server/src/RpcServerRpcConn.cpp, RpcWorker.cpp and
-- RpcServerConnWorker.cpp, and the way back to client/src/RpcClientWorker.cpp.
use rpcframe.Prelude.{
  ℕ, suc, ◌+◌, ◌-◌, ◌≤◌, ◌<◌, ◌^◌, ◌≡◌, refl, sym, subst, ap, ◌∙◌, true, false, some, List, [], ◌∷◌,
  ◌++◌, Str, length, be32, get_elem?, Exec, ret, Returns, find, arith, append-nil, length-append,
  length-be32,
}
use rpcframe.Package.{
  RequestPkg, Allocator, send_ok, server_ok, status_code, InnerReq, InnerResp, Codec, rpcframe_ver,
  max_protobuf_data_len,
}
use rpcframe.Net.{Room, stream}
use rpcframe.Stats.{calc_req_q_time}
use rpcframe.ServerConn.{ServerConn}
use rpcframe.ConnWorker.{ConnWorker}
use rpcframe.ConnWorker.Deliver.{IsIdle}
use rpcframe.RpcConn.Reading.{IsReading, unread}
use rpcframe.RpcConn.Requests.{frame, requests}
use rpcframe.RpcConn.Progress.{AreLive}
use rpcframe.RpcConn.Complete.{IsRequest, AreRequests, requests_complete}
use rpcframe.RpcWorker.{
  Clock, Handler, Method, Service, Services, ServiceBlock, is_late, dispatch, run,
}
use rpcframe.RpcWorker.Dispatch.{body}
use rpcframe.Broker.Layout.{reply_body, reply_size, length-reply_body}
use rpcframe.ClientConn.{ClientConn, RespRet, complete, send_req, request, blob, has_blob}
use rpcframe.ClientConn.Framing.{AreChunks}
use rpcframe.ClientConn.Midway.{next_response}
use rpcframe.ClientConn.Midway
use rpcframe.ClientConn.Responses.{next_response-Delivers}
use rpcframe.ClientConn.Sending.{Takes, Outcome}
use rpcframe.CallBack.{CallBack}
use rpcframe.Looper.{Looper, get_cb}
use rpcframe.ClientWorker
use rpcframe.ClientWorker.Answer.{IsAnswered, response_answers}
use rpcframe.RoundTrip.{send_req_lem, request_arrives}
use rpcframe.RoundTrip.Serve.{answers, Sends, IsIdle-stats, dispatch-Sends}

-- The service is there, and its method does `func`.
pub record Offers (m : Services) (service method : Str) (func : Handler) : Type 0 where
  pub block : ServiceBlock
  pub srv : Service
  pub meth : Method
  pub listed : find service m ≡ some block
  pub serves : block.srv ≡ some srv
  pub has : find method srv ≡ some meth
  pub does : meth.func ≡ func

-- The call `id` waits, with the callback `cb` in place `i`.
pub record Waits (id : Str) (i : ℕ) (cb : CallBack) (l : Looper) : Type 0 where
  pub found : get_cb id l ≡ some i
  pub there : get_elem? l.cbs i ≡ some cb
  pub in_time : cb.has_timeout ≡ false

-- The response that the connection gives, and what the client's worker makes of it.
abbrev pub Heard : Codec InnerResp → Str → ℕ → ℕ → Str → CallBack → Looper → RespRet → Type 0
Heard proto id i st d cb l (complete p) =
    Returns (IsAnswered id i st d cb) (ClientWorker.run proto p l)
Heard proto id i st d cb l _ = ⊥

-- What `onDataIn` makes of a request before it queues it.
abbrev pub taken : ℕ → ℕ → RequestPkg → RequestPkg
taken now num p = record p { gen_time = now; conn_worker = some num }

module _ (mem : Allocator) (proto : Codec InnerResp) (req_proto : Codec InnerReq) (f : Str → Str)
    (t : Clock) (service method d id bs ps : Str) (timeout : ℕ)
    (written : req_proto.serialize (request service method d id false timeout) ≡ some bs)
    (fits : length bs + length d + 8 < 2 ^ 32) (pos : 0 < length d)
    (small : length d < max_protobuf_data_len)
    (replied : proto.serialize (record { version = rpcframe_ver; request_id = id }) ≡ some ps)
    (room : reply_size ps (f d) + 4 < 2 ^ 31) where
  abbrev sent_body : Str
  sent_body = body bs (blob d)

  length-sent : length sent_body ≡ 4 + length bs
  length-sent =
      let none_outside : has_blob d ≡ false = ground arith in
      let no_blob : blob d ≡ [] = rw none_outside refl in
      omega (
        arith,
        ap length no_blob,
        length-append (be32 (length bs)) (bs ++ blob d),
        length-append bs (blob d),
        length-be32 (length bs),
      )

  -- The client's part.
  arrives :
      (c0 c1 : ClientConn) (begin : ℕ) (rs : List (ℕ × Room)) (sc : ServerConn)
      → Takes rs (8 + length bs + length (blob d))
      → send_req mem req_proto service method d id false timeout begin rs c0 ≡ ret (send_ok, c1)
      → c0.wire ≡ []
      → IsReading sc
      → sc.is_connected ≡ true
      → AreLive sc.sock.incoming
      → 4 + length bs ≤ sc.max_req_limit
      → unread sc ≡ c1.wire
      → (calls : ℕ) × (p : RequestPkg) × (requests mem calls sc ≡ ret (p ∷ []))
        × IsRequest sc.seqid sent_body p
  arrives c0 c1 begin rs sc takes sent fresh r on live limit wire =
      let out : c1.wire ≡ c0.wire ++ frame sent_body =
        subst (Returns (Outcome c0.wire (frame sent_body))) sent (
          send_req_lem mem req_proto service method d id false timeout bs written fits begin rs c0
            takes) in
      let (calls, le, ps', result, same) =
        requests_complete mem sc (sent_body ∷ []) r on live
          (omega (arith, length-sent), omega (arith, length-sent), tt)
          (wire
            ∙ (out
                ∙ (ap (λ (x : Str). x ++ frame sent_body) fresh
                    ∙ sym (append-nil (frame sent_body))))) in
      one calls ps' result same
    where
      one :
          (calls : ℕ) (ps' : List RequestPkg)
          → requests mem calls sc ≡ ret ps'
          → AreRequests sc.seqid (sent_body ∷ []) ps'
          → (calls : ℕ) × (p : RequestPkg) × (requests mem calls sc ≡ ret (p ∷ []))
            × IsRequest sc.seqid sent_body p
      one calls [] result same = elim same [ ]
      one calls (p ∷ []) result same = (calls, p, result, same.0)
      one calls (p ∷ q ∷ qs) result same = elim same.1 [ ]

  -- The server's part.
  module _ (num now later k : ℕ) (evs : List Room) (p : RequestPkg) (m : Services) (w : ConnWorker)
      (c : ServerConn) (conn_id : Str) (is : IsRequest conn_id sent_body p)
      (offers : Offers m service method (answers mem proto f))
      (prompt : is_late (request service method d id false timeout) (t.checked - now) ≡ false)
      (idle : IsIdle w conn_id c k evs) (space : reply_size ps (f d) + 4 ≤ k + 1) where
    abbrev counted : ConnWorker
    counted = record w { stats = calc_req_q_time (t.taken - now) w.stats }

    served :
        Sends later conn_id
          (c.sock.wire ++ frame (reply_body ps (f d) server_ok))
          (run mem proto req_proto t (taken now num p) m w)
    served =
        let runs : run mem proto req_proto t (taken now num p) m w
            ≡ dispatch mem proto req_proto t (taken now num p)
                (request service method d id false timeout) d num m counted =
          request_arrives mem req_proto service method d id false timeout bs written fits proto t
            (taken now num p) num m w is.bytes (is.same_len ∙ sym (ap length is.bytes)) refl pos
            small in
        let idle' : IsIdle counted p.connection_id c k evs =
          IsIdle-stats w p.connection_id c k evs (calc_req_q_time (t.taken - now) w.stats)
            (subst (λ (x : Str). IsIdle w x c k evs) (sym is.owner) idle) in
        let sends : Sends later p.connection_id
            (c.sock.wire ++ frame (reply_body ps (f d) server_ok))
            (dispatch mem proto req_proto t (taken now num p)
              (request service method d id false timeout) d num m counted) =
          dispatch-Sends mem proto req_proto f t service method d id ps timeout num later k evs
            (taken now num p) m offers.block offers.srv offers.meth counted c offers.listed
            offers.serves offers.has offers.does is.own_protocol prompt replied room idle' space in
        subst
          (λ (x : Str).
            Sends later x (c.sock.wire ++ frame (reply_body ps (f d) server_ok))
              (run mem proto req_proto t (taken now num p) m w))
          is.owner
          (subst
            (λ (x : Exec (Services × ConnWorker)).
              Sends later p.connection_id (c.sock.wire ++ frame (reply_body ps (f d) server_ok)) x)
            (sym runs) sends)

  -- The way back.
  heard :
      (cl : ClientConn) (n i : ℕ) (cb : CallBack) (l : Looper)
      → Midway.IsIdle cl
      → AreChunks cl.incoming
      → stream cl.incoming ≡ frame (reply_body ps (f d) server_ok)
      → length cl.incoming ≤ suc n
      → Waits id i cb l
      → Returns
          (λ (r : RespRet × ClientConn). Heard proto id i (status_code server_ok) (f d) cb l r.0)
          (next_response mem (suc n) cl)
  heard cl n i cb l idle chunks sent few waits =
      let len = length-reply_body ps (f d) server_ok in
      let (p, c', result, bytes, size, idle', chunks', rest) =
        next_response-Delivers mem cl (reply_body ps (f d) server_ok) [] n idle chunks
          (omega (arith, len)) (omega (arith, len))
          (sent
            ∙ ap (◌++◌ (be32 (length (reply_body ps (f d) server_ok))))
                (sym (append-nil (reply_body ps (f d) server_ok))))
          few in
      rw result (
        response_answers proto (record { version = rpcframe_ver; request_id = id }) ps (f d)
          server_ok p i cb l replied bytes (size ∙ sym (ap length bytes)) (omega arith) waits.found
          waits.there waits.in_time)

  -- A call, from the client to the server and back. The client sent a request of ordinary size over a
  -- new connection, whole; the server's connection receives those bytes and stays open, and takes
  -- packages of that size; the service is there, and its method answers with `f` of the data it is
  -- given; the request does not come too late; the connection's socket has room for the response; and
  -- the client receives what the server's connection sends, on a connection that is idle, while the
  -- call waits. However the bytes are cut up on both ways: the server's connection delivers one
  -- request; the worker runs it, and with its next two handlers puts the response on the wire, behind
  -- what was there; the client's connection delivers one response; and the callback of the call is
  -- told OK and `f` of the data, and the call is pending no more.
  pub call_answered :
      (c0 c1 cl : ClientConn) (begin num now later k n i : ℕ) (rs : List (ℕ × Room))
      (evs : List Room) (sc c : ServerConn) (m : Services) (w : ConnWorker) (cb : CallBack)
      (l : Looper)
      → Takes rs (8 + length bs + length (blob d))
      → send_req mem req_proto service method d id false timeout begin rs c0 ≡ ret (send_ok, c1)
      → c0.wire ≡ []
      → IsReading sc
      → sc.is_connected ≡ true
      → AreLive sc.sock.incoming
      → 4 + length bs ≤ sc.max_req_limit
      → unread sc ≡ c1.wire
      → Offers m service method (answers mem proto f)
      → is_late (request service method d id false timeout) (t.checked - now) ≡ false
      → IsIdle w sc.seqid c k evs
      → reply_size ps (f d) + 4 ≤ k + 1
      → Midway.IsIdle cl
      → AreChunks cl.incoming
      → stream cl.incoming ≡ frame (reply_body ps (f d) server_ok)
      → length cl.incoming ≤ suc n
      → Waits id i cb l
      → (calls : ℕ) × (p : RequestPkg) × (requests mem calls sc ≡ ret (p ∷ []))
        × Sends later sc.seqid
            (c.sock.wire ++ stream cl.incoming)
            (run mem proto req_proto t (taken now num p) m w)
        × Returns
            (λ (r : RespRet × ClientConn). Heard proto id i (status_code server_ok) (f d) cb l r.0)
            (next_response mem (suc n) cl)
  call_answered c0 c1 cl begin num now later k n i rs evs sc c m w cb l takes sent fresh r on live
        limit wire offers prompt idle space idle' chunks back few waits =
      let (calls, p, result, is) =
        arrives c0 c1 begin rs sc takes sent fresh r on live limit wire in
      (
        calls,
        p,
        result,
        subst
            (λ (x : Str).
              Sends later sc.seqid (c.sock.wire ++ x)
                (run mem proto req_proto t (taken now num p) m w))
            (sym back) (served num now later k evs p m w c sc.seqid is offers prompt idle space),
        heard cl n i cb l idle' chunks back few waits,
      )
