-- ===== src/HttpConn/Receiver.antt =====
-- RpcServerHttpConn::getRequest leaves what is to be sent alone, so that a worker can serve its
-- connections as it does those of rpcframe's own protocol.
use rpcframe.Prelude.{
  ◌||◌, ℕ, refl, false, not, List, [], ◌∷◌, ◌++◌, Str, length, take, splice, ◌==◌, Exec, ret,
  waiting, fault, ◌>>=◌, IfReturns, IfReturns-bind, IfReturns-anything, Bool-cases, inl, inr, u32,
}
use rpcframe.Package.{Allocator, InnerReq, Codec}
use rpcframe.Net.{Arrival, arrived, closed, interrupted, leftover}
use rpcframe.Broker.{c_str}
use rpcframe.ServerConn.{ServerConn}
use rpcframe.RpcConn.{PkgRet}
use rpcframe.ConnWorker.Receive.{SameSide, Leaves, Receiver}
use rpcframe.HttpConn.{
  HttpEvent, HttpParser, HttpConn, rest_of, on_events, names, http_request, packed, make_package,
  executed, received, receive, get_request,
}
use rpcframe.HttpConn.Callbacks.{on_events-base}

module _ {P : Type 0} (parser : HttpParser P) (mem : Allocator) (proto : Codec InnerReq) where
  abbrev LeavesBase : ServerConn → PkgRet × HttpConn P → Type 0
  LeavesBase c (r, c') = SameSide c c'.base

  make_package-LeavesBase :
      (c : ServerConn) (x : HttpConn P)
      → SameSide c x.base
      → IfReturns (LeavesBase c) (make_package parser mem proto x)
  unfolding make_package
  make_package-LeavesBase c x h = named (names x.url)
    where
      named :
          (n : Exec (Str × Str))
          → IfReturns (LeavesBase c) (
              n >>= λ s. ret (
                packed parser mem proto
                    (u32 (proto.byte_size (http_request s.0 s.1 x.body)))
                    x.base.seqid
                    (proto.serialize (http_request s.0 s.1 x.body)),
                x,
              ))
      named (ret s) = h
      named waiting = tt
      named fault = tt

  executed-LeavesBase :
      (c : ServerConn) (bytes : Str) (x : HttpConn P) (r : P × List HttpEvent × ℕ)
      → SameSide c x.base
      → IfReturns (LeavesBase c) (executed parser mem proto bytes x r)
  executed-LeavesBase c bytes x (p, es, nparsed) h =
      let x' : HttpConn P = on_events es (record x { http_parser = p }) in
      let side : SameSide c x'.base = rw (on_events-base es (record x { http_parser = p })) h in
      elim (Bool-cases (
        parser.upgrade p
        || not (nparsed == length bytes)
        || (length bytes == 0)
        || x'.parse_fail)) [
          | inl bad ↦ rw bad side
          | inr good ↦ elim (Bool-cases x'.is_body_final) [
            | inl final ↦
                rw (good, final)
                  (make_package-LeavesBase c (record x' { is_body_final = false }) side)
            | inr more ↦ rw (good, more) side
          ]
        ]

  received-LeavesBase :
      (c : ServerConn) (bytes : Str) (x : HttpConn P)
      → SameSide c x.base
      → IfReturns (LeavesBase c) (received parser mem proto bytes x)
  received-LeavesBase c bytes x h =
      IfReturns-bind (λ s. Unit) (LeavesBase c) (c_str (splice (mem.fresh 4096) 0 bytes))
        (λ shown. executed parser mem proto bytes x (parser.execute x.http_parser bytes))
        (IfReturns-anything (c_str (splice (mem.fresh 4096) 0 bytes)))
        (λ s u. executed-LeavesBase c bytes x (parser.execute x.http_parser bytes) h)

  receive-LeavesBase :
      (evs : List Arrival) (x : HttpConn P)
      → IfReturns (LeavesBase x.base) (receive parser mem proto evs x)
  receive-LeavesBase [] x = tt
  receive-LeavesBase (closed ∷ evs) x = received-LeavesBase x.base [] x (refl, refl, refl, refl)
  receive-LeavesBase (interrupted e ∷ evs) x = (refl, refl, refl, refl)
  receive-LeavesBase (arrived b bs ∷ evs) x =
      received-LeavesBase x.base (take 4096 (b ∷ bs)) (rest_of (leftover 4096 (b ∷ bs) ++ evs) x)
        (refl, refl, refl, refl)

  -- What `getRequest` does to the part of the connection that the worker sees, where the connection's
  -- own part is that of `x`.
  abbrev pub get_base : HttpConn P → ServerConn → Exec (PkgRet × ServerConn)
  get_base x c = get_request parser mem proto (record x { base = c }) >>= λ r. ret (r.0, r.1.base)

  pub get_base-Leaves : (x : HttpConn P) (c : ServerConn) → IfReturns (Leaves c) (get_base x c)
  unfolding get_request
  get_base-Leaves x c =
      IfReturns-bind (LeavesBase c) (Leaves c)
        (get_request parser mem proto (record x { base = c })) (λ r. ret (r.0, r.1.base)) leaves
        (λ r h. h)
    where
      leaves : IfReturns (LeavesBase c) (get_request parser mem proto (record x { base = c }))
      leaves = elim (Bool-cases (not c.is_connected)) [
        | inl off ↦ rw off (refl, refl, refl, refl)
        | inr on ↦ rw on (receive-LeavesBase c.sock.incoming (record x { base = c }))
      ]

  unfoldable pub http_receiver : HttpConn P → Receiver
  http_receiver x = record { get = get_base x; leaves = get_base-Leaves x }
