-- ===== src/RpcWorker/Dispatch.antt =====
-- What a worker makes of the bytes of a request.
use rpcframe.Prelude.{
  ℕ, ◌+◌, ◌-◌, ◌≤◌, ◌<◌, ◌^◌, ◌≡◌, refl, sym, ap, ◌∙◌, [], ◌++◌, Str, length, take, drop, le→ltb,
  ret, be32, ntohl, arith, length-append, length-be32, ntohl-be32, take-append, drop-append,
  append-nil,
}
use rpcframe.Package.{RequestPkg, Allocator, InnerReq, InnerResp, Codec}
use rpcframe.Stats.{calc_req_q_time}
use rpcframe.ConnWorker.{ConnWorker}
use rpcframe.RpcWorker.{Clock, Services, slice, message, parsed, run}

pub slice-eq :
    (s : Str) (off n : ℕ) → off + n ≤ length s → slice s off n ≡ ret (take n (drop off s))
unfolding slice
slice-eq s off n h = rw (le→ltb (length s) (off + n) h)

pub message-eq :
    {M : Type 0} (proto : Codec M) (s ps : Str) (n : ℕ)
    → 4 + n ≤ length s
    → take n (drop 4 s) ≡ ps
    → message proto s n ≡ ret (proto.parse ps)
unfolding message
message-eq proto s ps n h e =
    rw (le→ltb (length s) (4 + n) h) (ap (λ (x : Str). ret (proto.parse x)) e)

-- A request whose message is `bs`, with `rest` behind it.
abbrev pub body : Str → Str → Str
body bs rest = be32 (length bs) ++ (bs ++ rest)

module _ (mem : Allocator) (proto : Codec InnerResp) (req_proto : Codec InnerReq) (t : Clock)
    (pkg : RequestPkg) (m : Services) (w : ConnWorker) where
  abbrev counted : ConnWorker
  counted = record w { stats = calc_req_q_time (t.taken - pkg.gen_time) w.stats }

  pub run-body :
      (bs rest : Str)
      → pkg.bytes ≡ body bs rest
      → length bs < 2 ^ 32
      → run mem proto req_proto t pkg m w
        ≡ parsed mem proto req_proto t pkg (length bs) (req_proto.parse bs) m counted
  unfolding run
  run-body bs rest e fits =
      let size : length pkg.bytes ≡ 4 + (length bs + length rest) = omega (
        arith,
        ap length e,
        length-append (be32 (length bs)) (bs ++ rest),
        length-append bs rest,
        length-be32 (length bs),
      ) in
      let front : take 4 pkg.bytes ≡ be32 (length bs) =
        ap (take 4) e
        ∙ take-append 4 (be32 (length bs)) (bs ++ rest) (sym (length-be32 (length bs))) in
      let behind : drop 4 pkg.bytes ≡ bs ++ rest =
        ap (drop 4) e
        ∙ drop-append 4 (be32 (length bs)) (bs ++ rest) (sym (length-be32 (length bs))) in
      let word : slice pkg.bytes 0 4 ≡ ret (be32 (length bs)) =
        slice-eq pkg.bytes 0 4 (omega (arith, size)) ∙ ap (λ (x : Str). ret x) front in
      let len : ntohl (be32 (length bs)) ≡ length bs =
        ap ntohl (sym (append-nil (be32 (length bs)))) ∙ ntohl-be32 (length bs) [] fits in
      let msg : message req_proto pkg.bytes (length bs) ≡ ret (req_proto.parse bs) =
        message-eq req_proto pkg.bytes bs (length bs) (omega (arith, size))
          (ap (take (length bs)) behind ∙ take-append (length bs) bs rest refl) in
      rw (word, len, msg)
