-- ===== src/RpcConn/Requests.antt =====
-- A connection over many calls of RpcServerRpcConn::getRequest, as RpcServerConnWorker::onDataIn makes
-- them, until one fails.
use rpcframe.Prelude.{
  ℕ, zero, suc, ◌<◌, ◌^◌, ◌≡◌, refl, sym, ap, ◌∙◌, List, [], ◌∷◌, ◌++◌, map, Str, length, take,
  drop, Exec, ret, waiting, fault, ntohl, be32, take-append, drop-append, ntohl-be32, length-be32,
}
use rpcframe.Package.{RequestPkg, Allocator}
use rpcframe.ServerConn.{ServerConn}
use rpcframe.RpcConn.{PkgRet, failed, pending, complete, get_request}

-- What a client puts on the wire for a request package: its length and its bytes.
abbrev pub frame : Str → Str
frame p = be32 (length p) ++ p

abbrev pub frames : List Str → Str
frames [] = []
frames (p ∷ ps) = frame p ++ frames ps

-- Packages that the length word can describe. (An empty one is taken for "no data".)
abbrev pub AreFrames : List Str → Type 0
AreFrames [] = Unit
AreFrames (p ∷ ps) = (0 < length p) × (length p < 2 ^ 32) × AreFrames ps

abbrev pub deliver : RequestPkg → Exec (List RequestPkg) → Exec (List RequestPkg)
deliver p (ret ps) = ret (p ∷ ps)
deliver p waiting = waiting
deliver p fault = fault

-- The caller goes on unless the call failed.
abbrev pub go_on :
    Exec (PkgRet × ServerConn) → (ServerConn → Exec (List RequestPkg)) → Exec (List RequestPkg)
go_on (ret (failed, c)) later = ret []
go_on (ret (pending, c)) later = later c
go_on (ret (complete p, c)) later = deliver p (later c)
go_on waiting later = waiting
go_on fault later = fault

-- At most `n` calls.
unfoldable pub requests : Allocator → ℕ → ServerConn → Exec (List RequestPkg)
requests mem zero c = ret []
requests mem (suc n) c = go_on (get_request mem c) (requests mem n)

-- The packages `ps` at the front of a stream, between them any number of empty ones.
data Parses : Str → List RequestPkg → Type 0 where
  done : {u : Str} → Parses u []
  skip : {u u' : Str} {ps : List RequestPkg} → u ≡ be32 0 ++ u' → Parses u' ps → Parses u ps
  next :
      {u u' : Str} {ps : List RequestPkg} (p : RequestPkg)
      → 0 < length p.bytes
      → length p.bytes < 2 ^ 32
      → u ≡ be32 (length p.bytes) ++ (p.bytes ++ u')
      → Parses u' ps
      → Parses u (p ∷ ps)

-- A stream that begins with a frame begins with no other.
pub frame_unique :
    (p q u v : Str)
    → length p < 2 ^ 32
    → length q < 2 ^ 32
    → be32 (length p) ++ (p ++ u) ≡ be32 (length q) ++ (q ++ v)
    → (p ≡ q) × (u ≡ v)
frame_unique p q u v hp hq e =
    let same_length : length p ≡ length q =
      sym (ntohl-be32 (length p) (p ++ u) hp) ∙ (ap ntohl e ∙ ntohl-be32 (length q) (q ++ v) hq) in
    let rest : p ++ u ≡ q ++ v =
      sym (drop-append 4 (be32 (length p)) (p ++ u) (sym (length-be32 (length p))))
      ∙ (ap (drop 4) e ∙ drop-append 4 (be32 (length q)) (q ++ v) (sym (length-be32 (length q)))) in
    (
      sym (take-append (length p) p u refl)
          ∙ (ap (take (length p)) rest ∙ take-append (length p) q v same_length),
      sym (drop-append (length p) p u refl)
          ∙ (ap (drop (length p)) rest ∙ drop-append (length p) q v same_length),
    )

abbrev pub IsPrefixOf : List Str → List RequestPkg → Type 0
IsPrefixOf qs ps = (rest : List Str) × (qs ≡ map (λ p. p.bytes) ps ++ rest)
