-- ===== src/Broker/Tests.antt =====
-- Building responses, on small inputs.
use rpcframe.Prelude.{
  some, false, Str, ◌∷◌, ◌++◌, length, be32, ℕ, suc, ◌≡◌, refl, true, ret, fault, codes, ◌>>=◌,
  arith, to_string, digits,
}
use rpcframe.Package.{ResponsePkg, server_ok}
use rpcframe.Samples.{plain, zeros}
use rpcframe.Broker.{Broker, make, alloc_resp_buf_from, response, setup_http_hdr}
use rpcframe.Broker.Layout.{reply, reply_body, reply_size, reply_lem}
use rpcframe.Broker.Http.{response_http_overruns}

abbrev own_broker : Broker
own_broker = make 0 (codes "c") (codes "r1") true false

abbrev the_proto : Str
the_proto = 1 ∷ codes "r1"

reply_lem_example :
    (b : Broker) × (pkg : ResponsePkg) × (reply zeros plain (codes "hi") server_ok own_broker
      ≡ ret b)
    × (b.resp_pkg ≡ some pkg)
    × (pkg.data_len ≡ length pkg.bytes)
    × (pkg.bytes
        ≡ be32 (reply_size the_proto (codes "hi")) ++ reply_body the_proto (codes "hi") server_ok)
unfolding make
reply_lem_example =
    reply_lem zeros plain (codes "hi") the_proto server_ok own_broker refl refl (omega arith)

abbrev http_broker : Broker
http_broker = make 0 (codes "c") (codes "http") true true

response_http_overruns_example :
    (alloc_resp_buf_from zeros plain (codes "ok") http_broker >>= λ r.
    response zeros plain (λ id b (n : ℕ). ret (b, suc n)) server_ok r.1 0)
    ≡ fault
unfolding make setup_http_hdr to_string digits
response_http_overruns_example =
    response_http_overruns zeros plain (λ id b n. ret (b, suc n)) (codes "ok") server_ok http_broker
      0 refl refl (omega arith) (omega arith)
