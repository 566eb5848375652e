-- ===== src/Package.antt =====
-- The packages and status values that all parts pass around: common/include/RpcPackage.h,
-- common/include/RpcDefs.h and the messages of common/proto/rpc.proto.
-- A `char *data` with `new char[size]` behind it is the list of its bytes. What is in a fresh buffer
-- is not determined, so the allocator is a parameter, `fresh`.
use rpcframe.Prelude.{ℕ, ◌≡◌, ◌*◌, Bool, true, false, ◌++◌, Option, none, some, Str, length}

pub data PkgIoStatus : Type 0 where
  fail partial time_out no_data full : PkgIoStatus

pub data RpcStatus : Type 0 where
  send_ok send_fail req_too_large disconnected send_timeout cb_timeout : RpcStatus
  srv_notfound method_notfound server_ok server_none server_fail malloc_pkg_fail : RpcStatus

-- `static_cast<uint32_t>(rs)`
unfoldable pub status_code : RpcStatus → ℕ
status_code send_ok = 0
status_code send_fail = 1
status_code req_too_large = 2
status_code disconnected = 3
status_code send_timeout = 4
status_code cb_timeout = 5
status_code srv_notfound = 6
status_code method_notfound = 7
status_code server_ok = 8
status_code server_none = 9
status_code server_fail = 10
status_code malloc_pkg_fail = 11

-- Times are milliseconds on a clock that both ends of a measurement read.
pub record RequestPkg : Type 0 where
  pub bytes : Str
  pub data_len : ℕ  -- uint32_t
  pub connection_id : Str
  pub conn_worker : Option ℕ  -- the number of the connection worker
  pub gen_time : ℕ
  pub is_from_http : Bool

pub record ResponsePkg : Type 0 where
  pub bytes : Str
  pub data_len : ℕ  -- uint32_t
  pub gen_time : ℕ

-- `operator new[]`: a buffer of the size asked for.
pub record Allocator : Type 0 where
  pub fresh : ℕ → Str
  pub length-fresh : (n : ℕ) → length (fresh n) ≡ n

unfoldable pub new_request : Allocator → ℕ → Str → RequestPkg
new_request mem size conn_id = record {
  bytes = mem.fresh size;
  data_len = size;
  connection_id = conn_id;
  conn_worker = none;
  gen_time = 0;
  is_from_http = false;
}

unfoldable pub new_response : Allocator → ℕ → ResponsePkg
new_response mem size = record { bytes = mem.fresh size; data_len = size; gen_time = 0 }

abbrev pub max_protobuf_data_len : ℕ
max_protobuf_data_len = 10 * 1024 * 1024

abbrev pub rpcframe_ver : ℕ
rpcframe_ver = 1

pub data RpcType : Type 0 where
  one_way two_way : RpcType

pub record InnerReq : Type 0 where
  pub version : ℕ
  pub service_name : Str
  pub method_name : Str
  pub request_id : Str
  pub rpc_type : RpcType
  pub timeout : ℕ  -- seconds
  pub payload : Option Str

pub record InnerResp : Type 0 where
  pub version : ℕ
  pub request_id : Str

-- The classes that protoc generates from a message: `ByteSize`, `SerializeToArray` (`none` where it
-- returns false) and `ParseFromArray`. A message that was written can be read back. `refuses` says of
-- bytes that they cannot begin a message: `ParseFromArray` fails on them and need not read on.
pub record Codec {ℓ} (M : Type ℓ) : Type ℓ where
  pub byte_size : M → ℕ
  pub serialize : M → Option Str
  pub parse : Str → Option M
  pub size_lem : {m : M} {bs : Str} → serialize m ≡ some bs → length bs ≡ byte_size m
  pub refuses : Str → Bool
  pub refuses_lem : {bs : Str} (rest : Str) → refuses bs ≡ true → parse (bs ++ rest) ≡ none
  pub parse_lem : {m : M} {bs : Str} → serialize m ≡ some bs → parse bs ≡ some m
