-- ===== src/HttpConn/Tests.antt =====
-- Requests over HTTP, with a parser that takes every chunk for a whole request: its first byte is the
-- length of the URL, and the rest is the body.
use rpcframe.Prelude.{
  ℕ, ◌≡◌, refl, zero, suc, ◌-◌, false, true, none, some, List, [], ◌∷◌, ◌++◌, Str, codes, length,
  take, drop, replicate, length-replicate, splice, ret, fault, arith,
}
use rpcframe.Package.{RequestPkg}
use rpcframe.Net.{arrived}
use rpcframe.Stats.{no_stats, calc_req_q_time}
use rpcframe.ConnWorker.{ConnWorker}
use rpcframe.ConnWorker
use rpcframe.Broker.{c_str}
use rpcframe.Broker.Http.{HasNoNul}
use rpcframe.Samples.{zeros, plain, accepted}
use rpcframe.Samples.Requests.{any_req, write_request}
use rpcframe.RpcConn.{complete}
use rpcframe.RpcWorker.{Clock, run, dispatch}
use rpcframe.HttpConn.{
  HttpEvent, url_part, headers_complete, body_part, post, HttpParser, HttpConn, on_events, slash,
  http_request, rest_of, get_request,
}
use rpcframe.HttpConn.Requests.{http_request_runs}
use rpcframe.HttpConn.Faults.{unterminated_chunk_overreads}

abbrev events : Str → List HttpEvent
events [] = []
events (n ∷ s) = url_part (take n s) ∷ headers_complete post 9 true ∷ body_part (drop n s) true ∷ []

abbrev parser : HttpParser ℕ
parser = record { init = 0; execute = λ p s. (p, events s, length s); upgrade = λ p. false }

-- "/S/M" and "hi".
abbrev chunk : Str
chunk = codes "/S/M" ++ codes "hi"

abbrev conn : HttpConn ℕ
conn = record {
  base = accepted (arrived 4 chunk ∷ []) [];
  http_parser = 0;
  body = [];
  url = [];
  is_body_final = false;
  keep_alive = false;
  parse_fail = false;
}

abbrev clock : Clock
clock = record { taken = 20; begun = 21; ended = 24; checked = 25; answered = 26 }

abbrev worker : ConnWorker
worker = ConnWorker.make (codes "w") no_stats

abbrev message : Str
message = 1 ∷ 83 ∷ 1 ∷ 77 ∷ 4 ∷ (codes "http" ++ (1 ∷ 1 ∷ 0 ∷ 1 ∷ codes "hi"))

chunk_shown : c_str (splice (zeros.fresh 4096) 0 (4 ∷ chunk)) ≡ ret (4 ∷ chunk)
unfolding c_str
chunk_shown = refl

no_slash : slash (codes "S") ≡ none
unfolding slash
no_slash = refl

written : any_req.serialize (http_request (codes "S") (codes "M") (codes "hi")) ≡ some message
unfolding write_request
written = refl

events_good :
    (on_events (events (4 ∷ chunk)) (record (rest_of [] conn) { http_parser = 0 })).parse_fail
    ≡ false
unfolding on_events
events_good = refl

events_final :
    (on_events (events (4 ∷ chunk)) (record (rest_of [] conn) { http_parser = 0 })).is_body_final
    ≡ true
unfolding on_events
events_final = refl

http_request_runs_example :
    (q : RequestPkg) × (c' : HttpConn ℕ) × (get_request parser zeros any_req conn
      ≡ ret (complete q, c'))
    × (c'.url ≡ codes "/S/M")
    × (c'.body ≡ codes "hi")
    × (run zeros plain any_req clock (record q { gen_time = 10; conn_worker = some 0 }) [] worker
        ≡ dispatch zeros plain any_req clock
            (record q { gen_time = 10; conn_worker = some 0 })
            (http_request (codes "S") (codes "M") (codes "hi"))
            (codes "hi")
            0
            []
            (record worker { stats = calc_req_q_time (clock.taken - 10) worker.stats }))
http_request_runs_example =
    http_request_runs parser zeros any_req conn 4 chunk [] 0 (events (4 ∷ chunk)) (4 ∷ chunk)
      (codes "S") (codes "M") message refl refl (omega arith) chunk_shown refl refl events_good
      events_final refl no_slash written (omega arith) plain clock 0 10 [] worker

replicate-HasNoNul : (m n : ℕ) → HasNoNul (take m (replicate n 65))
replicate-HasNoNul zero n = _
replicate-HasNoNul (suc m) zero = _
replicate-HasNoNul (suc m) (suc n) = (omega arith, replicate-HasNoNul m n)

-- 4096 times the letter A.
abbrev full : HttpConn ℕ
full = record conn { base = accepted (arrived 65 (replicate 4095 65) ∷ []) [] }

unterminated_chunk_overreads_example : get_request parser zeros any_req full ≡ fault
unterminated_chunk_overreads_example =
    unterminated_chunk_overreads parser zeros any_req full 65 (replicate 4095 65) [] refl refl
      (let a : ℕ = 65 in omega (arith, length-replicate 4095 a))
      (omega arith, replicate-HasNoNul 4095 4095)
