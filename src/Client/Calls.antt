-- ===== src/Client/Calls.antt =====
-- What RpcClient::call leaves behind, and what it returns.
use rpcframe.Prelude.{
  ℕ, ◌≡◌, refl, ap, ◌∙◌, true, false, none, some, [], ◌∷◌, ◌++◌, Str, length, find-erase,
  str_eq_iff, Exec, ret, IfReturns, IfReturns-bind, IfReturns-anything, arith, u64, ◌+◌, ◌-◌, inl,
  inr, Bool-cases,
}
use rpcframe.Package.{RpcStatus, ResponsePkg, Allocator, InnerReq, InnerResp, Codec, status_code}
use rpcframe.CallBack.{Blocker, make_blocker, wait}
use rpcframe.Looper.{Looper, get_cb, remove_cb}
use rpcframe.Looper.Conns.{Dial}
use rpcframe.Looper.Send.{Caller, send_req, is_sent}
use rpcframe.RpcWorker.{slice}
use rpcframe.ClientWorker.{parsed}
use rpcframe.Client.{Meanwhile, call, after_send, wait_for, wait_at, blocker_at, wake}

-- No response reaches the call any more: one that comes changes nothing.
abbrev pub IsOver : Str → ℕ × Str × Looper → Type 0
IsOver id (st, d, l) =
    (get_cb id l ≡ none)
    × ((pkg : ResponsePkg) (n : ℕ) (resp : InnerResp)
        → resp.request_id ≡ id
        → IfReturns (λ l'. l' ≡ l) (parsed pkg n (some resp) l))

dropped :
    (pkg : ResponsePkg) (n : ℕ) (resp : InnerResp) (l : Looper)
    → get_cb resp.request_id l ≡ none
    → IfReturns (λ l'. l' ≡ l) (parsed pkg n (some resp) l)
dropped pkg n resp l e =
    IfReturns-bind (λ w. Unit) (λ l'. l' ≡ l)
      (slice pkg.bytes (u64 (pkg.data_len + 0x10000000000000000 - 4)) 4) _
      (IfReturns-anything (slice pkg.bytes (u64 (pkg.data_len + 0x10000000000000000 - 4)) 4))
      (λ w u. rw e refl)

removed-IsOver : (id : Str) (st : ℕ) (d : Str) (l : Looper) → IsOver id (st, d, remove_cb id l)
unfolding get_cb remove_cb
removed-IsOver id st d l =
    let gone : get_cb id (remove_cb id l) ≡ none =
      ground (arith, find-erase id id l.id_cb_map, str_eq_iff id id) in
    (
      gone,
      (λ pkg n resp e.
          dropped pkg n resp (remove_cb id l)
            (ap (λ (k : Str). get_cb k (remove_cb id l)) e ∙ gone)),
    )

module _ (others : Meanwhile) (i : ℕ) (out id : Str) (l : Looper) where
  wait_for-IsOver : IfReturns (IsOver id) (wait_for others i id l)
  wait_for-IsOver =
      let l1 : Looper = others.before l in
      let l2 : Looper = others.after l1 in
      let x : Exec (ℕ × Str) = wait_at (blocker_at i l1) (wake others.ends (blocker_at i l2)) in
      IfReturns-bind (λ r. Unit) (IsOver id) x _ (IfReturns-anything x)
        (λ r u. removed-IsOver id r.0 r.1 l2)

  after_send-IsOver : (st : RpcStatus) → IfReturns (IsOver id) (after_send others i out (st, id, l))
  after_send-IsOver st = elim (Bool-cases (is_sent st)) [
    | inl sent ↦ rw sent wait_for-IsOver
    | inr not_sent ↦ rw not_sent (removed-IsOver id (status_code st) out l)
  ]

-- A call of `call` whose request got the id `id`. However it ends, with a response, with a timeout, or
-- without being sent, nothing is pending for `id` then, and the client's worker takes a response to
-- `id` that comes later for nothing. It does end when it was not sent, or when the blocker had its
-- answer by the time of `wait`, and gives the status and the data that the blocker was given.
pub call-IsOver :
    (mem : Allocator) (proto : Codec InnerReq) (who : Caller) (dial : Str → Dial)
    (others : Meanwhile) (service method d out id : Str) (timeout : ℕ) (st : RpcStatus)
    (l l' : Looper)
    → send_req mem proto who dial service method d
        (some (length l.cbs))
        []
        (record l { cbs = l.cbs ++ (make_blocker timeout ∷ []) })
      ≡ ret (st, id, l')
    → IfReturns (IsOver id) (call mem proto who dial others service method d out timeout l)
      × (is_sent st ≡ false
          → call mem proto who dial others service method d out timeout l
            ≡ ret (status_code st, out, remove_cb id l'))
      × ((b : Blocker) (n : ℕ)
          → is_sent st ≡ true
          → blocker_at (length l.cbs) (others.before l') ≡ some b
          → b.done ≡ true
          → b.cb_st ≡ some n
          → call mem proto who dial others service method d out timeout l
            ≡ ret (n, b.resp_data, remove_cb id (others.after (others.before l'))))
unfolding call wait
call-IsOver mem proto who dial others service method d out id timeout st l l' e = (
  rw e (after_send-IsOver others (length l.cbs) out id l' st),
  (λ not_sent. rw (e, not_sent)),
  (λ b n sent at done known. rw (e, sent, at, done, known)),
)
