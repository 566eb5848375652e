-- ===== src/Host/Tests.antt =====
-- A host whose entry needs 3000 bytes.
use rpcframe.Prelude.{
  ℕ, ◌≡◌, refl, Bool, true, Option, some, [], codes, ltb, if◌then◌else◌, ret, Returns, arith,
}
use rpcframe.Host.{Answer, too_small, found, get_host_ip_by_name, info, debug, rpc_log}
use rpcframe.Host.Lookup.{Looked, get_host_ip_by_name-Looked}

abbrev lookup : ℕ → Answer
lookup len = if ltb len 3000 then too_small else found (some (codes "10.0.0.7"))

always : ℕ → Bool
always n = true

get_host_ip_by_name-Looked_example :
    Returns (Looked lookup 3000 []) (get_host_ip_by_name always lookup 21 [])
get_host_ip_by_name-Looked_example =
    get_host_ip_by_name-Looked always lookup 3000 [] (λ len h. ground arith) (λ len h. ground arith)
      (omega arith)

-- The second buffer is still too small.
third_buffer : get_host_ip_by_name always lookup 21 [] ≡ ret (true, codes "10.0.0.7", 0)
unfolding get_host_ip_by_name always
third_buffer = refl

quiet : rpc_log info debug 1 2 [] (codes "x") ≡ Option.none
unfolding rpc_log
quiet = refl
