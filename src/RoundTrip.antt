-- ===== src/RoundTrip.antt =====
-- A request on its way from the client's connection (client/src/RpcClientConn.cpp) to the worker that
-- runs it (server/src/RpcWorker.cpp).
mod Serve
mod Answered
mod Tests
use rpcframe.Prelude.{
  ℕ, ◌+◌, ◌-◌, ◌≤◌, ◌<◌, ◌^◌, ◌≡◌, ◌≢◌, refl, sym, subst, ap, ◌∙◌, Bool, true, false, Option, none,
  some, List, [], ◌∷◌, ◌++◌, Str, u64, length, take, drop, Exec, ret, Returns, be32, arith,
  Bool-cases, inl, inr, length-append, length-be32, take-append, drop-append, take_all,
  append_assoc, append-nil,
}
use rpcframe.Package.{
  RequestPkg, Allocator, RpcStatus, send_ok, send_fail, send_timeout, InnerReq, InnerResp, Codec,
  max_protobuf_data_len,
}
use rpcframe.Net.{Room}
use rpcframe.Stats.{calc_req_q_time}
use rpcframe.ConnWorker.{ConnWorker}
use rpcframe.RpcConn.Requests.{frame}
use rpcframe.RpcWorker.{Clock, Services, raw_data, dispatch, parsed, run}
use rpcframe.RpcWorker.Dispatch.{body, run-body}
use rpcframe.ClientConn.{ClientConn, send_req, send_data, send_parts, request, has_blob, blob}
use rpcframe.ClientConn.Sending.{Takes, Outcome, send_data_lem}

module _ (mem : Allocator) (req_proto : Codec InnerReq) (service method d id : Str) (oneway : Bool)
    (timeout : ℕ) (bs : Str)
    (written : req_proto.serialize (request service method d id oneway timeout) ≡ some bs)
    (fits : length bs + length d + 8 < 2 ^ 32) where
  -- The bytes of the request behind its length word.
  abbrev sent_body : Str
  sent_body = body bs (blob d)

  length-blob : length (blob d) ≤ length d
  length-blob = elim (Bool-cases (has_blob d)) [
    | inl big ↦ rw big (omega arith)
    | inr small ↦ rw small (omega arith)
  ]

  length-sent_body : length sent_body ≡ 4 + length bs + length (blob d)
  length-sent_body = omega (
    arith,
    length-append (be32 (length bs)) (bs ++ blob d),
    length-append bs (blob d),
    length-be32 (length bs),
  )

  -- What `sendReq` has in memory.
  abbrev buffer : Str
  buffer = be32 (length sent_body) ++ (be32 (length bs) ++ (bs ++ (blob d ++ mem.fresh 4)))

  buffer-eq : buffer ≡ frame sent_body ++ mem.fresh 4
  buffer-eq = simp append_assoc

  length-frame : length (frame sent_body) ≡ length sent_body + 4
  length-frame =
      omega
        (arith, length-append (be32 (length sent_body)) sent_body, length-be32 (length sent_body))

  cut : take (length sent_body + 4) buffer ≡ frame sent_body
  cut =
      ap (take (length sent_body + 4)) buffer-eq
      ∙ take-append (length sent_body + 4) (frame sent_body) (mem.fresh 4) (sym length-frame)

  long : length sent_body + 4 ≤ length buffer
  long =
      omega
        (arith, ap length buffer-eq, length-append (frame sent_body) (mem.fresh 4), length-frame)

  -- `sendReq` puts one package on the wire, whole, or the front of it if it fails or its time is
  -- over: the length of what follows, the length of the message, the message, and user data that the
  -- message does not carry.
  pub send_req_lem :
      (begin : ℕ) (rs : List (ℕ × Room)) (c : ClientConn)
      → Takes rs (8 + length bs + length (blob d))
      → Returns
          (Outcome c.wire (frame sent_body))
          (send_req mem req_proto service method d id oneway timeout begin rs c)
  unfolding send_req
  send_req_lem begin rs c t =
      let req : InnerReq = request service method d id oneway timeout in
      let psize : req_proto.byte_size req ≡ length bs = sym (req_proto.size_lem written) in
      let plen : u64 (4 + length bs + length (blob d)) ≡ length sent_body =
        omega (arith, length-sent_body, length-blob) in
      let opened : send_req mem req_proto service method d id oneway timeout begin rs c
          ≡ send_data buffer (length sent_body + 4) timeout begin rs c =
        ap
          (λ (o : Option Str).
            send_parts mem req_proto d (req_proto.byte_size req) timeout begin rs o c)
          written
        ∙ (ap (λ (n : ℕ). send_parts mem req_proto d n timeout begin rs (some bs) c) psize
            ∙ ap
                (λ (n : ℕ).
                  send_data (be32 n ++ (be32 (length bs) ++ (bs ++ (blob d ++ mem.fresh 4))))
                    (n + 4) timeout begin rs c)
                plen) in
      let enough : 8 + length bs + length (blob d) ≡ length sent_body + 4 =
        omega (arith, length-sent_body) in
      rw opened (
        subst
          (λ (x : Str).
            Returns (Outcome c.wire x) (send_data buffer (length sent_body + 4) timeout begin rs c))
          cut
          (send_data_lem buffer (length sent_body + 4) timeout begin rs c (omega arith)
            (omega (arith, length-sent_body, length-blob)) long
            (subst (λ (n : ℕ). Takes rs n) enough t)))

  -- The server gets that package as `pkg`.
  module _ (proto : Codec InnerResp) (t : Clock) (pkg : RequestPkg) (num : ℕ) (m : Services)
      (w : ConnWorker) (same : pkg.bytes ≡ sent_body) (size : pkg.data_len ≡ length pkg.bytes)
      (owner : pkg.conn_worker ≡ some num) where
    abbrev counted : ConnWorker
    counted = record w { stats = calc_req_q_time (t.taken - pkg.gen_time) w.stats }

    -- What the service is given.
    abbrev data_seen : Str
    data_seen = raw_data pkg (length bs) (request service method d id oneway timeout).payload

    -- `run` comes to call the service, or to refuse the request.
    abbrev goes_on : Str → Exec (Services × ConnWorker)
    goes_on x =
        dispatch mem proto req_proto t pkg (request service method d id oneway timeout) x num m
          counted

    runs : run mem proto req_proto t pkg m w ≡ goes_on data_seen
    runs =
        run-body mem proto req_proto t pkg m w bs (blob d) same (omega arith)
        ∙ (ap (λ (o : Option InnerReq). parsed mem proto req_proto t pkg (length bs) o m counted)
              (req_proto.parse_lem written)
            ∙ called)
      where
        called :
            parsed mem proto req_proto t pkg
              (length bs)
              (some (request service method d id oneway timeout))
              m
              counted
            ≡ goes_on data_seen
        called = rw owner

    -- A request of ordinary size arrives as it was sent: the service, the method, the identifier and
    -- the data that the client named are those that the worker dispatches.
    pub request_arrives :
        0 < length d
        → length d < max_protobuf_data_len
        → run mem proto req_proto t pkg m w ≡ goes_on d
    request_arrives pos small =
        let inside : has_blob d ≡ false = ground arith in
        let seen : data_seen ≡ d = rw inside in runs ∙ ap goes_on seen

    -- User data that travels behind the message is read from the wrong place: the service gets the
    -- message, and of the data only the front.
    pub large_request_garbled :
        max_protobuf_data_len ≤ length d
        → run mem proto req_proto t pkg m w ≡ goes_on (take (length d) (bs ++ d))
    large_request_garbled large =
        let outside : has_blob d ≡ true = ground arith in
        let behind : drop 4 pkg.bytes ≡ bs ++ blob d =
          ap (drop 4) same
          ∙ drop-append 4 (be32 (length bs)) (bs ++ blob d) (sym (length-be32 (length bs))) in
        let whole : blob d ≡ d = rw outside in
        let len : u64 (pkg.data_len + 2 ^ 64 - 4 - length bs) ≡ length d =
          omega (arith, size, ap length same, length-sent_body, ap length whole) in
        let seen : data_seen ≡ take (length d) (bs ++ d) = rw (outside, len, behind, outside) in
        runs ∙ ap goes_on seen
