-- ===== src/RpcConn/Complete.antt =====
-- All packages of a stream, by the calls of RpcServerRpcConn::getRequest on a socket that stays open.
use rpcframe.Prelude.{
  ℕ, zero, suc, ◌-◌, ◌≤◌, ◌<◌, ◌^◌, ◌≡◌, ◌≢◌, refl, sym, subst, ap, ◌∙◌, Option, none, some, List,
  [], ◌∷◌, ◌++◌, Str, length, take, ◌==◌, ret, be32, ntohl, ntohl-be32, length-be32, inl, inr,
  arith, append_assoc, length-take, length-append, Bool-cases, IfReturns, Returns-both, true, false,
}
use rpcframe.Package.{RequestPkg, Allocator}
use rpcframe.Net.{stream}
use rpcframe.ServerConn.{ServerConn}
use rpcframe.RpcConn.{PkgRet, failed, pending, complete, read_body, get_request}
use rpcframe.RpcConn.Reading.{Phase, IsReading, held, unread, Step}
use rpcframe.RpcConn.Stream.{held_idle}
use rpcframe.RpcConn.Returns.{get_request-Comes, IsComing}
use rpcframe.RpcConn.Requests.{frames, requests, frame_unique}
use rpcframe.RpcConn.Progress.{AreLive, weight, GoesOn, read_body-GoesOn, header-GoesOn}

-- Packages that a connection with this limit takes.
abbrev pub AreTaken : ℕ → List Str → Type 0
AreTaken limit [] = Unit
AreTaken limit (q ∷ qs) = (0 < length q) × (length q ≤ limit) × AreTaken limit qs

-- The request of this connection that holds `q`.
pub record IsRequest (id q : Str) (p : RequestPkg) : Type 0 where
  pub bytes : p.bytes ≡ q
  pub same_len : p.data_len ≡ length q
  pub owner : p.connection_id ≡ id
  pub own_protocol : p.is_from_http ≡ false

abbrev pub AreRequests : Str → List Str → List RequestPkg → Type 0
AreRequests id [] [] = Unit
AreRequests id [] (p ∷ ps) = ⊥
AreRequests id (q ∷ qs) [] = ⊥
AreRequests id (q ∷ qs) (p ∷ ps) = IsRequest id q p × AreRequests id qs ps

module _ (size left limit : ℕ) (id s q rest : Str) (busy : size ≢ 0) (small : limit < 2 ^ 32)
    (fits : length q ≤ limit) where
  still_to_come :
      (o : Option RequestPkg)
      → Phase o size left limit id
      → held o size left ++ s ≡ be32 (length q) ++ (q ++ rest)
      → 0 < length s
  still_to_come none h e = absurd (busy h)
  still_to_come (some p) h e =
      let whole : be32 size ++ (take (size - left) p.bytes ++ s) ≡ be32 (length q) ++ (q ++ rest) =
        sym (append_assoc (be32 size) (take (size - left) p.bytes) s) ∙ e in
      let same : size ≡ length q =
        sym (ntohl-be32 size (take (size - left) p.bytes ++ s) (omega (arith, h.allowed)))
        ∙ (ap ntohl whole ∙ ntohl-be32 (length q) (q ++ rest) (omega arith)) in
      omega (
        arith,
        same,
        ap length whole,
        length-be32 size,
        length-be32 (length q),
        length-append (be32 size) (take (size - left) p.bytes ++ s),
        length-append (take (size - left) p.bytes) s,
        length-append (be32 (length q)) (q ++ rest),
        length-append q rest,
        length-take (size - left) p.bytes,
        h.missing,
        h.left_in,
        h.buffer,
      )

module _ (mem : Allocator) (c : ServerConn) (q rest : Str) (r : IsReading c)
    (on : c.is_connected ≡ true) (live : AreLive c.sock.incoming) (pos : 0 < length q)
    (fits : length q ≤ c.max_req_limit) (front : unread c ≡ be32 (length q) ++ (q ++ rest)) where
  at_start : c.cur_pkg_size ≡ 0 → stream c.sock.incoming ≡ be32 (length q) ++ (q ++ rest)
  at_start idle =
      ap (λ (x : Str). x ++ stream c.sock.incoming)
        (sym (held_idle c.rpk c.cur_pkg_size c.cur_left_len c.max_req_limit c.seqid r.phase idle))
      ∙ front

  coming : IsComing c
  coming = elim (Bool-cases (c.cur_pkg_size == 0)) [
    | inl idle ↦ rw idle (
        omega (
          arith,
          ap length (at_start (ground arith)),
          length-be32 (length q),
          length-append (be32 (length q)) (q ++ rest),
          length-append q rest,
        ))
    | inr busy ↦ rw busy (
        still_to_come c.cur_pkg_size c.cur_left_len c.max_req_limit c.seqid (stream c.sock.incoming)
          q rest (ground arith) r.limit fits c.rpk r.phase front)
  ]

  body-GoesOn :
      (o : Option RequestPkg)
      → c.rpk ≡ o
      → c.cur_pkg_size ≢ 0
      → Phase o c.cur_pkg_size c.cur_left_len c.max_req_limit c.seqid
      → IfReturns (GoesOn c (weight c.sock.incoming)) (read_body c)
  body-GoesOn none e busy h = absurd (busy h)
  body-GoesOn (some p) e busy h =
      read_body-GoesOn p c (weight c.sock.incoming) e h.missing on live (omega arith)

  goes_on : IfReturns (GoesOn c (weight c.sock.incoming)) (get_request mem c)
  unfolding get_request
  goes_on = elim (Bool-cases (c.cur_pkg_size == 0)) [
    | inl idle ↦ rw idle (
        header-GoesOn mem c q rest (ground arith) on pos fits r.limit (weight c.sock.incoming)
          (at_start (ground arith)) live r.bytes (omega arith))
    | inr busy ↦ rw busy (body-GoesOn c.rpk refl (ground arith) r.phase)
  ]

  advanced :
      (a : PkgRet × ServerConn) × (get_request mem c ≡ ret a)
      × Step c a
      × GoesOn c (weight c.sock.incoming) a
  advanced =
      Returns-both (Step c) (GoesOn c (weight c.sock.incoming)) (get_request mem c)
        (get_request-Comes mem c r coming) goes_on

-- Some number of calls, at most `k`, deliver exactly `qs`.
abbrev pub DeliversAll : Allocator → ℕ → ServerConn → List Str → Type 0
DeliversAll mem k c qs =
    (n : ℕ) × (n ≤ k)
    × (ps : List RequestPkg) × (requests mem n c ≡ ret ps)
    × AreRequests c.seqid qs ps

-- One more call.
module _ (mem : Allocator) (k : ℕ) (c c' : ServerConn) (qs : List Str)
    (id : c'.seqid ≡ c.seqid) where
  after_pending :
      get_request mem c ≡ ret (pending, c') → DeliversAll mem k c' qs → DeliversAll mem (suc k) c qs
  unfolding requests
  after_pending e (n, le, ps, result, same) =
      (suc n, omega arith, ps, rw e result, subst (λ (x : Str). AreRequests x qs ps) id same)

  after_complete :
      (p : RequestPkg) (q : Str)
      → get_request mem c ≡ ret (complete p, c')
      → IsRequest c.seqid q p
      → DeliversAll mem k c' qs
      → DeliversAll mem (suc k) c (q ∷ qs)
  unfolding requests
  after_complete p q e is (n, le, ps, result, same) = (
    suc n,
    omega arith,
    p ∷ ps,
    rw (e, result) refl,
    (is, subst (λ (x : Str). AreRequests x qs ps) id same),
  )

AreTaken-limit : (a b : ℕ) (qs : List Str) → a ≡ b → AreTaken a qs → AreTaken b qs
AreTaken-limit a b [] e h = tt
AreTaken-limit a b (q ∷ qs) e (pos, le, h) = (pos, omega arith, AreTaken-limit a b qs e h)

-- `all_by`, below.
abbrev Served : Allocator → ℕ → ServerConn → List Str → Type 0
Served mem k c qs =
    IsReading c
    → c.is_connected ≡ true
    → AreLive c.sock.incoming
    → weight c.sock.incoming ≤ k
    → AreTaken c.max_req_limit qs
    → unread c ≡ frames qs
    → DeliversAll mem k c qs

next_call :
    (mem : Allocator) (k : ℕ) (c : ServerConn) (q : Str) (qs : List Str) (a : PkgRet × ServerConn)
    → ((c' : ServerConn) (qs' : List Str) → Served mem k c' qs')
    → weight c.sock.incoming ≤ suc k
    → c.max_req_limit < 2 ^ 32
    → AreTaken c.max_req_limit (q ∷ qs)
    → unread c ≡ frames (q ∷ qs)
    → get_request mem c ≡ ret a
    → Step c a
    → GoesOn c (weight c.sock.incoming) a
    → DeliversAll mem (suc k) c (q ∷ qs)
next_call mem k c q qs (failed, c') later le lim h e result step goes = absurd (goes.0 refl)
next_call mem k c q qs (pending, c') later le lim (pos, fits, h) e result step goes =
    elim step.reads [
      | inl same ↦ after_pending mem k c c' (q ∷ qs) goes.1.same_id result (
          later c' (q ∷ qs) step.ready goes.1.on goes.1.live (omega (arith, goes.1.less))
            (AreTaken-limit c.max_req_limit c'.max_req_limit (q ∷ qs) (sym goes.1.same_limit)
              (pos, fits, h))
            (sym same ∙ e))
      | inr empty ↦
          let same =
            frame_unique [] q (unread c') (frames qs) (omega arith) (omega arith)
              (sym empty ∙ (e ∙ append_assoc (be32 (length q)) q (frames qs))) in
          absurd (omega (arith, ap length same.0, pos))
    ]
next_call mem k c q qs (complete p, c') later le lim (pos, fits, h) e result step goes =
    let (split, some_bytes, small, len, own, proto) = step.reads in
    let same =
      frame_unique p.bytes q (unread c') (frames qs) (omega arith) (omega arith)
        (sym split ∙ (e ∙ append_assoc (be32 (length q)) q (frames qs))) in
    after_complete mem k c c' qs goes.1.same_id p q result
      (record {
        bytes = same.0;
        same_len = len ∙ ap length same.0;
        owner = own;
        own_protocol = proto;
      })
      (later c' qs step.ready goes.1.on goes.1.live (omega (arith, goes.1.less))
        (AreTaken-limit c.max_req_limit c'.max_req_limit qs (sym goes.1.same_limit) h) same.1)

all_by : (k : ℕ) (mem : Allocator) (c : ServerConn) (qs : List Str) → Served mem k c qs
unfolding requests
all_by k mem c [] r on live le h e = (0, omega arith, [], refl, tt)
all_by zero mem c (q ∷ qs) r on live le (pos, fits, h) e =
    let (a, result, step, goes) =
      advanced mem c q (frames qs) r on live pos fits
        (e ∙ append_assoc (be32 (length q)) q (frames qs)) in
    absurd (omega (arith, goes.1.less))
all_by (suc k) mem c (q ∷ qs) r on live le h e =
    let (a, result, step, goes) =
      advanced mem c q (frames qs) r on live h.0 h.1
        (e ∙ append_assoc (be32 (length q)) q (frames qs)) in
    next_call mem k c q qs a (all_by k mem) le r.limit h e result step goes

-- A peer sends packages one after the other, each within the connection's limit, and keeps the
-- connection open; the stream is cut up in any way and `recv` is interrupted any number of times,
-- between packages, headers and data. Then some number of calls of `getRequest`, at most one for each
-- byte and each interruption, deliver all of the packages: each whole, in order, with its length and
-- the connection's name, and nothing else.
pub requests_complete :
    (mem : Allocator) (c : ServerConn) (qs : List Str)
    → IsReading c
    → c.is_connected ≡ true
    → AreLive c.sock.incoming
    → AreTaken c.max_req_limit qs
    → unread c ≡ frames qs
    → DeliversAll mem (weight c.sock.incoming) c qs
requests_complete mem c qs r on live h e =
    all_by (weight c.sock.incoming) mem c qs r on live (omega arith) h e
