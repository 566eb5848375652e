-- ===== src/RpcConn/Tests.antt =====
-- Receiving requests, on small inputs.
use rpcframe.Prelude.{Safely, ◌≡◌, refl, List, [], ◌∷◌, map, Str, be32, ntohl, Exec, ret, arith}
use rpcframe.Package.{RequestPkg}
use rpcframe.Net.{eagain, eintr, Arrival, arrived, interrupted}
use rpcframe.Samples.{accepted, zeros}
use rpcframe.ServerConn.{ServerConn}
use rpcframe.RpcConn.{get_request}
use rpcframe.RpcConn.Reading.{IsReading, Step, unread}
use rpcframe.RpcConn.Stream.{get_request_lem}
use rpcframe.RpcConn.Requests.{frames, requests}
use rpcframe.RpcConn.Progress.{weight}
use rpcframe.RpcConn.Complete.{DeliversAll, requests_complete}

-- Two packages, `7 8 9` and `5`, cut up after two bytes, after the first data byte and before the
-- end of the second header.
abbrev sent_packages : List Str
sent_packages = (7 ∷ 8 ∷ 9 ∷ []) ∷ (5 ∷ []) ∷ []

abbrev cut_up : List Arrival
cut_up =
    arrived 0 (0 ∷ [])
    ∷ interrupted eintr
    ∷ arrived 0 (3 ∷ 7 ∷ [])
    ∷ interrupted eagain
    ∷ arrived 8 (9 ∷ 0 ∷ 0 ∷ [])
    ∷ arrived 0 (1 ∷ 5 ∷ [])
    ∷ interrupted eagain
    ∷ []

abbrev receiving : ServerConn
receiving = accepted cut_up []

bodies : Exec (List RequestPkg) → List Str
bodies (ret ps) = map (λ p. p.bytes) ps
bodies _ = []

requests-cut_up : bodies (requests zeros 5 receiving) ≡ sent_packages
unfolding requests get_request bodies ntohl
requests-cut_up = refl

receiving-IsReading : IsReading receiving
receiving-IsReading = omega arith

frames-sent : unread receiving ≡ frames sent_packages
unfolding be32
frames-sent = refl

requests_complete_example : DeliversAll zeros (weight cut_up) receiving sent_packages
requests_complete_example =
    requests_complete zeros receiving sent_packages receiving-IsReading refl
      (refl, (refl, (refl, tt))) (omega arith) frames-sent

get_request_lem_example : Safely (Step receiving) (get_request zeros receiving)
get_request_lem_example = get_request_lem zeros receiving receiving-IsReading
