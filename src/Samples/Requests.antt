-- ===== src/Samples/Requests.antt =====
-- A codec for all requests: each name stands behind its length.
use rpcframe.Samples.{never_refused}
use rpcframe.Prelude.{
  false, ℕ, ◌≡◌, refl, sym, ap, ◌∙◌, Option, none, some, [], ◌∷◌, ◌++◌, Str, length, take, drop,
  ◌==◌, if◌then◌else◌, take-append, drop-append,
}
use rpcframe.Package.{InnerReq, RpcType, one_way, two_way, Codec}

abbrev pub field : Str → Str → Str
field s rest = length s ∷ (s ++ rest)

abbrev pub kind : RpcType → ℕ
kind one_way = 0
kind two_way = 1

abbrev pub optional : Option Str → Str
optional none = 0 ∷ []
optional (some d) = 1 ∷ d

unfoldable pub write_request : InnerReq → Str
write_request q = field q.service_name (
    field q.method_name
      (field q.request_id (q.version ∷ kind q.rpc_type ∷ q.timeout ∷ optional q.payload)))

abbrev pub read_field : Str → Str × Str
read_field [] = ([], [])
read_field (n ∷ s) = (take n s, drop n s)

abbrev pub read_kind : ℕ → RpcType
read_kind k = if k == 0 then one_way else two_way

abbrev pub read_optional : ℕ → Str → Option Str
read_optional k d = if k == 0 then none else some d

abbrev pub read_tail : Str → Str → Str → Str → Option InnerReq
read_tail s m id (v ∷ k ∷ t ∷ p ∷ d) = some (record {
  version = v;
  service_name = s;
  method_name = m;
  request_id = id;
  rpc_type = read_kind k;
  timeout = t;
  payload = read_optional p d;
})
read_tail s m id _ = none

unfoldable pub read_request : Str → Option InnerReq
read_request x =
    let (s, x1) = read_field x in
    let (m, x2) = read_field x1 in let (id, x3) = read_field x2 in read_tail s m id x3

read-field : (s rest : Str) → read_field (field s rest) ≡ (s, rest)
read-field s rest =
    ap (λ (x : Str). (x, drop (length s) (s ++ rest))) (take-append (length s) s rest refl)
    ∙ ap (λ (x : Str). (s, x)) (drop-append (length s) s rest refl)

read_tail-lem :
    (s m id : Str) (v t : ℕ) (k : RpcType) (p : Option Str)
    → read_tail s m id (v ∷ kind k ∷ t ∷ optional p)
      ≡ some (record {
        version = v;
        service_name = s;
        method_name = m;
        request_id = id;
        rpc_type = k;
        timeout = t;
        payload = p;
      })
read_tail-lem s m id v t one_way none = refl
read_tail-lem s m id v t one_way (some d) = refl
read_tail-lem s m id v t two_way none = refl
read_tail-lem s m id v t two_way (some d) = refl

read-write_request : (q : InnerReq) → read_request (write_request q) ≡ some q
unfolding read_request write_request
read-write_request q =
    let tail : Str = q.version ∷ kind q.rpc_type ∷ q.timeout ∷ optional q.payload in
    let third = read-field q.request_id tail in
    let second = read-field q.method_name (field q.request_id tail) in
    let first = read-field q.service_name (field q.method_name (field q.request_id tail)) in
    ap
      (λ (x : Str × Str).
        read_tail x.0 (read_field x.1).0 (read_field (read_field x.1).1).0
          (read_field (read_field x.1).1).1)
      first
    ∙ (ap (λ (x : Str × Str). read_tail q.service_name x.0 (read_field x.1).0 (read_field x.1).1)
          second
        ∙ (ap (λ (x : Str × Str). read_tail q.service_name q.method_name x.0 x.1) third
            ∙ read_tail-lem q.service_name q.method_name q.request_id q.version q.timeout q.rpc_type
                q.payload))

pub parse_written :
    (q : InnerReq) {bs : Str} → some (write_request q) ≡ some bs → read_request bs ≡ some q
parse_written q e =
    ap (λ (o : Option Str). elim o [ none ↦ none | some bs ↦ read_request bs ]) (sym e)
    ∙ read-write_request q

pub size_written :
    (q : InnerReq) {bs : Str}
    → some (write_request q) ≡ some bs
    → length bs ≡ length (write_request q)
size_written q e = ap (λ (o : Option Str). elim o [ none ↦ 0 | some bs ↦ length bs ]) (sym e)

abbrev pub any_req : Codec InnerReq
any_req = record {
  byte_size = λ q. length (write_request q);
  serialize = λ q. some (write_request q);
  parse = read_request;
  size_lem = size_written _;
  parse_lem = parse_written _;
  refuses = λ s. false;
  refuses_lem = λ rest e. never_refused e;
}
