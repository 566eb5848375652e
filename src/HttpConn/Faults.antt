-- ===== src/HttpConn/Faults.antt =====
-- What goes wrong with requests over HTTP.
use rpcframe.Prelude.{
  ℕ, ◌+◌, ◌≤◌, ◌≡◌, ap, ◌∙◌, Bool, true, not, List, [], ◌∷◌, ◌++◌, Str, length, take, drop, splice,
  if◌then◌else◌, Exec, ret, fault, ◌>>=◌, arith, append-nil, length-take, drop_all,
}
use rpcframe.Package.{Allocator, InnerReq, Codec}
use rpcframe.Net.{Arrival, arrived, leftover}
use rpcframe.Broker.{c_str}
use rpcframe.RpcConn.{failed}
use rpcframe.HttpConn.{HttpParser, HttpConn, receive, executed, rest_of, get_request}
use rpcframe.Broker.Http.{HasNoNul, c_str-fault}

-- A chunk that fills the buffer and has no byte that ends a string: printing it reads behind the
-- buffer.
pub unterminated_chunk_overreads :
    {P : Type 0} (parser : HttpParser P) (mem : Allocator) (proto : Codec InnerReq) (c : HttpConn P)
    (b : ℕ) (bs : Str) (evs : List Arrival)
    → c.base.is_connected ≡ true
    → c.base.sock.incoming ≡ arrived b bs ∷ evs
    → 4096 ≤ length (b ∷ bs)
    → HasNoNul (take 4096 (b ∷ bs))
    → get_request parser mem proto c ≡ fault
unfolding get_request
unterminated_chunk_overreads parser mem proto c b bs evs connected script long plain =
    let bytes : Str = take 4096 (b ∷ bs) in
    let size : length bytes ≡ 4096 = omega (arith, length-take 4096 (b ∷ bs)) in
    let none_left : drop (0 + length bytes) (mem.fresh 4096) ≡ [] =
      drop_all (0 + length bytes) (mem.fresh 4096) (omega (arith, size, mem.length-fresh 4096)) in
    let shown : c_str (splice (mem.fresh 4096) 0 bytes) ≡ fault =
      ap (λ (x : Str). c_str (bytes ++ x)) none_left
      ∙ (ap c_str (append-nil bytes) ∙ c_str-fault bytes plain) in
    ap
      (λ (on : Bool).
        if not on then ret (failed, c) else receive parser mem proto c.base.sock.incoming c)
      connected
    ∙ (ap (λ (i : List Arrival). receive parser mem proto i c) script
        ∙ ap
            (λ (x : Exec Str). x >>= λ s.
              executed parser mem proto bytes (rest_of (leftover 4096 (b ∷ bs) ++ evs) c)
                (parser.execute c.http_parser bytes))
            shown)
