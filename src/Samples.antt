-- ===== src/Samples.antt =====
-- Concrete values that the tests of several parts run on.
pub mod Requests
use rpcframe.Prelude.{
  ℕ, ap, sym, ◌==◌, Bool, suc, arith, codes, ◌≡◌, refl, true, false, Option, none, some, List, [],
  ◌∷◌, Str, replicate, length-replicate, length,
}
use rpcframe.Package.{ResponsePkg, Allocator, InnerResp, InnerReq, RpcType, one_way, two_way, Codec}
use rpcframe.Net.{Arrival, Room}
use rpcframe.ServerConn.{ServerConn}

-- An allocator that clears its buffers.
abbrev pub zeros : Allocator
zeros = record { fresh = λ n. replicate n 0; length-fresh = λ n. length-replicate n 0 }

abbrev pub whole : Str → ResponsePkg
whole bs = record { bytes = bs; data_len = length bs; gen_time = 0 }

-- A connection that was accepted at time 7, with a limit of 100 bytes.
abbrev pub accepted : List Arrival → List Room → ServerConn
accepted ins outs = record {
  fd = 5;
  sock = record { incoming = ins; outgoing = outs; wire = [] };
  cur_left_len = 0;
  cur_pkg_size = 0;
  rpk = none;
  is_connected = true;
  sent_len = 0;
  sent_pkg = none;
  max_req_limit = 100;
  response_q = record { items = []; max_q_len = 9; drop_old_on_full = false };
  seqid = codes "7_w_5";
  eps = none;
}

-- A codec that writes a version and an identifier as they are.
abbrev pub read_resp : Str → Option InnerResp
read_resp [] = none
read_resp (v ∷ id) = some (record { version = v; request_id = id })

-- Of a codec that refuses no beginning.
pub never_refused : {A : Type 0} {x y : A} → false ≡ true → x ≡ y
never_refused e = cc

abbrev pub write_resp : InnerResp → Option Str
write_resp m = some (m.version ∷ m.request_id)

pub read-write : (m : InnerResp) {bs : Str} → write_resp m ≡ some bs → read_resp bs ≡ some m
read-write m e = ground (arith, e)

pub write-size :
    (m : InnerResp) {bs : Str} → write_resp m ≡ some bs → length bs ≡ suc (length m.request_id)
write-size m e = ground (arith, e)

abbrev pub plain : Codec InnerResp
plain = record {
  byte_size = λ m. suc (length m.request_id);
  serialize = write_resp;
  parse = read_resp;
  size_lem = write-size _;
  parse_lem = read-write _;
  refuses = λ s. false;
  refuses_lem = λ rest e. never_refused e;
}

-- A codec for the requests whose names are one byte each, that expect an answer and carry data.
abbrev pub read_req : Str → Option InnerReq
read_req (s ∷ m ∷ i ∷ t ∷ bs) = some (record {
  version = 1;
  service_name = s ∷ [];
  method_name = m ∷ [];
  request_id = i ∷ [];
  rpc_type = two_way;
  timeout = t;
  payload = some bs;
})
read_req _ = none

abbrev pub write_fields : Str → Str → Str → RpcType → ℕ → Option Str → Bool → Option Str
write_fields (s ∷ []) (m ∷ []) (i ∷ []) two_way t (some bs) true = some (s ∷ m ∷ i ∷ t ∷ bs)
write_fields _ _ _ _ _ _ _ = none

unfoldable pub write_req : InnerReq → Option Str
write_req q =
    write_fields q.service_name q.method_name q.request_id q.rpc_type q.timeout q.payload
      (q.version == 1)

fields-read :
    (v : ℕ) (sv mt id : Str) (ty : RpcType) (t : ℕ) (p : Option Str) (b : Bool) {bs : Str}
    → (v == 1) ≡ b
    → write_fields sv mt id ty t p b ≡ some bs
    → read_req bs
      ≡ some (record {
        version = v;
        service_name = sv;
        method_name = mt;
        request_id = id;
        rpc_type = ty;
        timeout = t;
        payload = p;
      })
fields-read v [] mt id ty t p b e h = cc
fields-read v (s ∷ s' ∷ ss) mt id ty t p b e h = cc
fields-read v (s ∷ []) [] id ty t p b e h = cc
fields-read v (s ∷ []) (m ∷ m' ∷ ms) id ty t p b e h = cc
fields-read v (s ∷ []) (m ∷ []) [] ty t p b e h = cc
fields-read v (s ∷ []) (m ∷ []) (i ∷ i' ∷ is) ty t p b e h = cc
fields-read v (s ∷ []) (m ∷ []) (i ∷ []) one_way t p b e h = cc
fields-read v (s ∷ []) (m ∷ []) (i ∷ []) two_way t none b e h = cc
fields-read v (s ∷ []) (m ∷ []) (i ∷ []) two_way t (some x) false e h = cc
fields-read v (s ∷ []) (m ∷ []) (i ∷ []) two_way t (some x) true e h =
    let one : v ≡ 1 = ground arith in ground (arith, one)

pub read-write_req : (q : InnerReq) {bs : Str} → write_req q ≡ some bs → read_req bs ≡ some q
unfolding write_req
read-write_req q h =
    fields-read q.version q.service_name q.method_name q.request_id q.rpc_type q.timeout q.payload
      (q.version == 1) refl h

abbrev pub req_size : Option Str → ℕ
req_size none = 0
req_size (some bs) = length bs

pub write-req_size :
    (q : InnerReq) {bs : Str} → write_req q ≡ some bs → length bs ≡ req_size (write_req q)
write-req_size q h = ap req_size (sym h)

abbrev pub plain_req : Codec InnerReq
plain_req = record {
  byte_size = λ q. req_size (write_req q);
  serialize = write_req;
  parse = read_req;
  size_lem = write-req_size _;
  parse_lem = read-write_req _;
  refuses = λ s. false;
  refuses_lem = λ rest e. never_refused e;
}
