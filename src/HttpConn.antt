-- ===== src/HttpConn.antt =====
-- Receiving requests over HTTP: server/src/RpcServerHttpConn.cpp and server/include/RpcServerHttpConn.h.
-- The parser, a copy of http_parser, is a parameter: what it does with a chunk of bytes, which is to call
-- back the functions that are registered here, and how much of the chunk it takes.
pub mod Callbacks
pub mod Requests
pub mod Faults
pub mod Receiver
mod Tests
use rpcframe.Prelude.{
  ◌||◌, ℕ, suc, ◌+◌, Bool, true, false, not, ◌&&◌, Option, none, some, List, [], ◌∷◌, ◌++◌, Str,
  codes, u32, be32, length, take, drop, splice, ltb, ◌==◌, if◌then◌else◌, Exec, ret, waiting, fault,
  ◌>>=◌,
}
use rpcframe.Package.{RequestPkg, Allocator, new_request, RpcType, two_way, InnerReq, Codec}
use rpcframe.Net.{Errno, is_again, Socket, Arrival, arrived, closed, interrupted, leftover}
use rpcframe.Broker.{c_str}
use rpcframe.ServerConn
use rpcframe.ServerConn.{ServerConn}
use rpcframe.RpcConn.{PkgRet, failed, pending, complete}

pub data Method : Type 0 where
  get post other : Method

-- The callbacks, with what they read of the parser: the method and the content length; and what
-- `http_should_keep_alive` and `http_body_is_final` return.
pub data HttpEvent : Type 0 where
  url_part : Str → HttpEvent
  headers_complete : Method → ℕ → Bool → HttpEvent
  body_part : Str → Bool → HttpEvent

-- `P` is the state of a parser.
pub record HttpParser (P : Type 0) : Type 0 where
  pub init : P
  pub execute : P → Str → P × List HttpEvent × ℕ
  pub upgrade : P → Bool

pub record HttpConn (P : Type 0) : Type 0 where
  pub base : ServerConn
  pub http_parser : P
  pub body : Str
  pub url : Str
  pub is_body_final : Bool
  pub keep_alive : Bool
  pub parse_fail : Bool

module _ {P : Type 0} where
  unfoldable pub make : HttpParser P → ℕ → Socket → Str → ℕ → ℕ → HttpConn P
  unfolding ServerConn.make
  make parser fd sock id max_req_size time = record {
    base = ServerConn.make fd sock id max_req_size time;
    http_parser = parser.init;
    body = [];
    url = [];
    is_body_final = false;
    keep_alive = false;
    parse_fail = false;
  }

  unfoldable pub append_body : Str → HttpConn P → HttpConn P
  append_body buf c = record c { body = c.body ++ buf }

  unfoldable pub append_url : Str → HttpConn P → HttpConn P
  append_url buf c = record c { url = c.url ++ buf }

  unfoldable pub set_fail : Bool → HttpConn P → HttpConn P
  set_fail f c = record c { parse_fail = f }

  unfoldable pub set_keep_alive : Bool → HttpConn P → HttpConn P
  set_keep_alive f c = record c { keep_alive = f }

  unfoldable pub body_final : Bool → HttpConn P → HttpConn P
  body_final f c = record c { is_body_final = f }

  unfoldable pub request_url_cb : Str → HttpConn P → HttpConn P
  unfolding append_url
  request_url_cb buf c = append_url buf c

  unfoldable pub headers_complete_cb : Method → ℕ → Bool → HttpConn P → HttpConn P
  unfolding body_final set_fail set_keep_alive
  headers_complete_cb get content_length keep c = set_keep_alive keep (body_final true c)
  headers_complete_cb post content_length keep c =
      set_keep_alive keep (if content_length == 0 then set_fail true c else c)
  headers_complete_cb other content_length keep c = set_keep_alive keep c

  unfoldable pub body_cb : Str → Bool → HttpConn P → HttpConn P
  unfolding append_body body_final
  body_cb buf final c = body_final final (append_body buf c)

  unfoldable pub on_event : HttpEvent → HttpConn P → HttpConn P
  unfolding request_url_cb headers_complete_cb body_cb
  on_event (url_part buf) c = request_url_cb buf c
  on_event (headers_complete m len keep) c = headers_complete_cb m len keep c
  on_event (body_part buf final) c = body_cb buf final c

  unfoldable pub on_events : List HttpEvent → HttpConn P → HttpConn P
  unfolding on_event
  on_events [] c = c
  on_events (e ∷ es) c = on_events es (on_event e c)

  -- What is left to receive.
  abbrev pub rest_of : List Arrival → HttpConn P → HttpConn P
  rest_of evs c =
      let b = c.base in record c { base = record b { sock = record b.sock { incoming = evs } } }

-- `find`, of "/".
unfoldable pub slash : Str → Option ℕ
slash [] = none
slash (c ∷ s) =
    let later = slash s in
    if c == 47 then some 0 else (elim later [ none ↦ none | some i ↦ some (suc i) ])

-- The names of the service and of the method. `substr(1, ...)` of an empty string throws; where there
-- is no second "/", `service_pos + 1` is 0.
unfoldable pub names : Str → Exec (Str × Str)
unfolding slash
names [] = fault
names (c ∷ rest) = elim (slash rest) [
  | none ↦ ret (rest, c ∷ rest)
  | some i ↦ ret (take i rest, drop (suc i) rest)
]

abbrev pub http_request : Str → Str → Str → InnerReq
http_request service_name method_name d = record {
  version = 1;
  service_name = service_name;
  method_name = method_name;
  request_id = codes "http";
  rpc_type = two_way;
  timeout = 0;
  payload = some d;
}

module _ {P : Type 0} (parser : HttpParser P) (mem : Allocator) (proto : Codec InnerReq) where
  -- The length is written before the message is serialized; the package's own length is then set to
  -- that of the message.
  abbrev pub packed : ℕ → Str → Option Str → PkgRet
  packed proto_len seqid none = failed
  packed proto_len seqid (some bs) =
      let pkg = new_request mem (u32 (proto_len + 4)) seqid in
      complete (record pkg {
        bytes = splice (splice pkg.bytes 0 (be32 proto_len)) 4 bs;
        data_len = proto_len;
        is_from_http = true;
      })

  unfoldable pub make_package : HttpConn P → Exec (PkgRet × HttpConn P)
  unfolding names new_request
  make_package c = do
    (service_name, method_name) ← names c.url
    let req = http_request service_name method_name c.body
    ret (packed (u32 (proto.byte_size req)) c.base.seqid (proto.serialize req), c)

  -- After `http_parser_execute` on `data`.
  abbrev pub executed : Str → HttpConn P → P × List HttpEvent × ℕ → Exec (PkgRet × HttpConn P)
  executed bytes c (p, es, nparsed) =
      let c' = on_events es (record c { http_parser = p }) in
      let pkg = make_package (record c' { is_body_final = false }) in
      if parser.upgrade p || not (nparsed == length bytes) || (length bytes == 0) || c'.parse_fail
      then ret (failed, c')
      else if c'.is_body_final
      then pkg
      else ret (pending, c')

  -- `printf("http %s\n", data)` reads up to the byte that ends a string, in a buffer of 4096 bytes that
  -- was not initialised.
  abbrev pub received : Str → HttpConn P → Exec (PkgRet × HttpConn P)
  received bytes c = c_str (splice (mem.fresh 4096) 0 bytes) >>= λ shown.
      executed bytes c (parser.execute c.http_parser bytes)

  abbrev pub receive : List Arrival → HttpConn P → Exec (PkgRet × HttpConn P)
  receive [] c = waiting
  receive (closed ∷ evs) c = received [] c
  receive (interrupted e ∷ evs) c = ret ((if is_again e then pending else failed), rest_of evs c)
  receive (arrived b bs ∷ evs) c =
      received (take 4096 (b ∷ bs)) (rest_of (leftover 4096 (b ∷ bs) ++ evs) c)

  unfoldable pub get_request : HttpConn P → Exec (PkgRet × HttpConn P)
  unfolding c_str on_events make_package
  get_request c =
      if not c.base.is_connected then ret (failed, c) else receive c.base.sock.incoming c
