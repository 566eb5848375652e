-- ===== src/RpcWorker.antt =====
-- The threads that run services: server/src/RpcWorker.cpp, server/src/RpcMethod.cpp and
-- server/include/IServiceImpl.h.
-- A service's method is a function of the user's, on the request's data, the broker and the
-- connection worker to which the broker may answer.
pub mod Dispatch
mod Tests
use rpcframe.Prelude.{
  ℕ, ◌+◌, ◌-◌, ◌*◌, ◌==◌, ◌/◌, Bool, true, false, not, ◌&&◌, Option, none, some, List, [], Str, u32,
  u64, length, take, drop, ltb, if◌then◌else◌, Exec, ret, waiting, fault, ◌>>=◌, find, assign,
  emplace, ntohl,
}
use rpcframe.Package.{
  RpcStatus, srv_notfound, method_notfound, server_ok, server_none, server_fail, RequestPkg,
  Allocator, RpcType, one_way, two_way, InnerReq, InnerResp, Codec,
}
use rpcframe.Stats.{calc_req_q_time}
use rpcframe.Stats
use rpcframe.Broker
use rpcframe.Broker.{Broker, set_return_val}
use rpcframe.ConnWorker.{ConnWorker, push_resp}

abbrev pub Handler : Type 0
Handler = Str → Broker → ConnWorker → Exec (RpcStatus × Broker × ConnWorker)

pub record MethodStatus : Type 0 where
  pub enabled : Bool
  pub total_call_nums : ℕ
  pub timeout_call_nums : ℕ
  pub avg_call_time : ℕ
  pub longest_call_time : ℕ
  pub call_from_http_num : ℕ

abbrev pub new_status : MethodStatus
new_status = record {
  enabled = true;
  total_call_nums = 0;
  timeout_call_nums = 0;
  avg_call_time = 0;
  longest_call_time = 0;
  call_from_http_num = 0;
}

unfoldable pub calc_call_time : ℕ → MethodStatus → MethodStatus
calc_call_time t s = record s {
  avg_call_time =
      if s.avg_call_time == 0
      then t
      else u64 (u64 (s.avg_call_time * s.total_call_nums) + t) / u64 (s.total_call_nums + 1);
  total_call_nums = u64 (s.total_call_nums + 1);
  longest_call_time = if ltb s.longest_call_time t then t else s.longest_call_time;
}

pub record Method : Type 0 where
  pub func : Handler
  pub status : MethodStatus
  pub allow_http : Bool

-- `m_method_map` of a service.
abbrev pub Service : Type 0
Service = List (Str × Method)

unfoldable pub add_method : Str → Handler → Bool → Service → Service
add_method name func allow_http s =
    emplace name (record { func = func; status = new_status; allow_http = allow_http }) s

unfoldable pub is_method_allow_http : Str → Service → Bool
is_method_allow_http name s = elim (find name s) [ none ↦ false | some m ↦ m.allow_http ]

-- What `runMethod` returns, and whether it set `method_status`.
abbrev pub called :
    Bool → RpcStatus × Broker × ConnWorker → Exec (Bool × RpcStatus × Broker × ConnWorker)
called found (rs, b, w) = ret (found, rs, b, w)

unfoldable pub run_method :
    Str → Str → Broker → ConnWorker → Service → Exec (Bool × RpcStatus × Broker × ConnWorker)
run_method name bytes b w s = elim (find name s) [
  | none ↦ ret (false, method_notfound, b, w)
  | some m ↦ m.func bytes b w >>= called true
]

pub record ServiceBlock : Type 0 where
  pub srv : Option Service
  pub owner : Bool

abbrev pub Services : Type 0
Services = List (Str × ServiceBlock)

unfoldable pub add_service : Str → Option Service → Bool → Services → Services
add_service name service owner m = assign name (record { srv = service; owner = owner }) m

-- The readings of the clock in `run`, in order, in milliseconds.
pub record Clock : Type 0 where
  pub taken : ℕ
  pub begun : ℕ
  pub ended : ℕ
  pub checked : ℕ
  pub answered : ℕ

-- Reading `n` bytes at an offset of a buffer.
unfoldable pub slice : Str → ℕ → ℕ → Exec Str
slice s off n = if ltb (length s) (off + n) then fault else ret (take n (drop off s))

-- `ParseFromArray` on `proto_len` bytes behind the length: where the buffer has fewer, it goes on
-- behind the end, unless those that are there cannot begin a message.
unfoldable pub message : {M : Type 0} → Codec M → Str → ℕ → Exec (Option M)
message proto bytes proto_len =
    if ltb (length bytes) (4 + proto_len)
    then (if proto.refuses (drop 4 bytes) then ret none else fault)
    else ret (proto.parse (take proto_len (drop 4 bytes)))

-- `rd`: where a request carries its data outside the protobuf message, the pointer is that to the
-- message.
abbrev pub raw_data : RequestPkg → ℕ → Option Str → Str
raw_data pkg proto_len (some bytes) = bytes
raw_data pkg proto_len none =
    take (u64 (pkg.data_len + 0x10000000000000000 - 4 - proto_len)) (drop 4 pkg.bytes)

-- More than three seconds after the client gave up.
abbrev pub is_late : InnerReq → ℕ → Bool
is_late req ms = ltb 0 req.timeout && ltb (u32 (req.timeout + 3)) (ms / 1000)

abbrev pub count_call : ℕ → Bool → MethodStatus → MethodStatus
count_call t late s =
    let s' = calc_call_time t s in
    if late then record s' { timeout_call_nums = u64 (s'.timeout_call_nums + 1) } else s'

-- `*method_status` belongs to the method in the service's map.
abbrev pub update_method : (MethodStatus → MethodStatus) → Str → Service → Service
update_method f name s = elim (find name s) [
  | none ↦ s
  | some m ↦ assign name (record m { status = f m.status }) s
]

module _ (mem : Allocator) (proto : Codec InnerResp) (req_proto : Codec InnerReq) (t : Clock) where
  unfoldable pub push_response : RpcType → Str → Broker → ConnWorker → Exec ConnWorker
  unfolding push_resp
  push_response two_way id b w = push_resp mem proto t.answered id b w >>= λ r. ret r.1
  push_response one_way id b w = ret w

  abbrev pub answer_with : RpcStatus → RequestPkg → InnerReq → Broker → ConnWorker → Exec ConnWorker
  answer_with rs pkg req b w =
      set_return_val mem proto rs b >>= λ b'. push_response req.rpc_type pkg.connection_id b' w

  -- The `switch` at the end of `run`.
  abbrev pub conclude : RequestPkg → InnerReq → RpcStatus → Broker → ConnWorker → Exec ConnWorker
  conclude pkg req server_ok b w = do
    b' ← set_return_val mem proto server_ok b
    if b'.is_responed then ret w else push_response req.rpc_type pkg.connection_id b' w
  conclude pkg req method_notfound b w = answer_with method_notfound pkg req b w
  conclude pkg req server_fail b w = answer_with server_fail pkg req b w
  conclude pkg req server_none b w = ret w
  conclude pkg req rs b w = push_response req.rpc_type pkg.connection_id b w

  -- After `runMethod`, with the service in its map.
  abbrev pub after_call :
      RequestPkg
      → InnerReq
      → ServiceBlock
      → Service
      → Services
      → Bool × RpcStatus × Broker × ConnWorker
      → Exec (Services × ConnWorker)
  after_call pkg req block s m (false, rs, b, w) = conclude pkg req rs b w >>= λ w'. ret (m, w')
  after_call pkg req block s m (true, rs, b, w) =
      let spent = t.ended - t.begun in
      let late = is_late req (t.checked - pkg.gen_time) in
      let m' =
        assign req.service_name
          (record block { srv = some (update_method (count_call spent late) req.method_name s) })
          m in
      let w' = record w { stats = Stats.calc_call_time spent w.stats } in
      let rest = conclude pkg req rs b w' >>= λ w''. ret (m', w'') in
      if late then ret (m', w') else rest

  abbrev pub in_block :
      RequestPkg
      → InnerReq
      → Str
      → Broker
      → ServiceBlock
      → Services
      → ConnWorker
      → Exec (Services × ConnWorker)
  in_block pkg req bytes b block m w = elim block.srv [
    | none ↦
        if pkg.is_from_http
        then fault
        else (push_response req.rpc_type pkg.connection_id b w >>= λ w'. ret (m, w'))
    | some s ↦
        if pkg.is_from_http && not (is_method_allow_http req.method_name s)
        then (answer_with method_notfound pkg req b w >>= λ w'. ret (m, w'))
        else (run_method req.method_name bytes b w s >>= after_call pkg req block s m)
  ]

  abbrev pub dispatch :
      RequestPkg → InnerReq → Str → ℕ → Services → ConnWorker → Exec (Services × ConnWorker)
  dispatch pkg req bytes num m w =
      let is_two_way : Bool = elim req.rpc_type [ one_way ↦ false | two_way ↦ true ] in
      let b = Broker.make num pkg.connection_id req.request_id is_two_way pkg.is_from_http in
      elim (find req.service_name m) [
        | none ↦ answer_with srv_notfound pkg req b w >>= λ w'. ret (m, w')
        | some block ↦ in_block pkg req bytes b block m w
      ]

  -- After `ParseFromArray`.
  abbrev pub parsed :
      RequestPkg → ℕ → Option InnerReq → Services → ConnWorker → Exec (Services × ConnWorker)
  parsed pkg proto_len none m w = ret (m, w)
  parsed pkg proto_len (some req) m w = elim pkg.conn_worker [
    | none ↦ ret (m, w)
    | some num ↦ dispatch pkg req (raw_data pkg proto_len req.payload) num m w
  ]

  -- `w` is the state of `pkg->conn_worker`, with the statistics of the server.
  unfoldable pub run : RequestPkg → Services → ConnWorker → Exec (Services × ConnWorker)
  unfolding calc_req_q_time slice message set_return_val is_method_allow_http run_method Broker.make
      push_response calc_call_time Stats.calc_call_time
  run pkg m w = do
    let w' = record w { stats = calc_req_q_time (t.taken - pkg.gen_time) w.stats }
    word ← slice pkg.bytes 0 4
    let proto_len = ntohl word
    req ← message req_proto pkg.bytes proto_len
    parsed pkg proto_len req m w'
