-- ===== src/RpcConn/Stream.antt =====
-- The requests that RpcServerRpcConn::getRequest delivers, against the stream of bytes that the peer
-- sent.
use rpcframe.Prelude.{
  Safely, ℕ, ◌-◌, ◌≤◌, ◌<◌, ◌≡◌, ◌≢◌, refl, sym, ap, ap₂, ◌∙◌, Bool, true, false, not, Option, none,
  some, List, [], ◌++◌, Str, take, ltb, ◌==◌, Exec, ret, waiting, fault, ◌>>=◌, be32, inl, inr,
  append-nil, arith, be32-ntohl, Bool-cases,
}
use rpcframe.Package.{RequestPkg, Allocator, new_request}
use rpcframe.Net.{Arrival, stream}
use rpcframe.ServerConn.{ServerConn}
use rpcframe.RpcConn.{
  PkgRet, failed, pending, complete, read_len_loop, read_pkg_len, read_to, read_body, start_package,
  get_request, zero_word,
}
use rpcframe.RpcConn.Framing.{Found, Word, read_len_loop-Found}
use rpcframe.RpcConn.Reading.{IsPart, Phase, IsReading, held, unread, Step, read_body-Step}

pub held_idle :
    (o : Option RequestPkg) (size left limit : ℕ) (id : Str)
    → Phase o size left limit id
    → size ≡ 0
    → held o size left ≡ []
held_idle none size left limit id h e = refl
held_idle (some p) size left limit id h e = absurd (omega (arith, h.missing, h.left_in))

Safely-map {ℓ} :
    {A : Type ℓ} {P Q : A → Type 0} (r : Exec A) → ((a : A) → P a → Q a) → Safely P r → Safely Q r
Safely-map (ret a) f h = f a h
Safely-map waiting f h = h
Safely-map fault f h = h

-- A call that took the header on the way.
Step-from :
    (c c' : ServerConn) (r : PkgRet) (d : ServerConn)
    → unread c ≡ unread c'
    → c.max_req_limit ≡ c'.max_req_limit
    → c.seqid ≡ c'.seqid
    → Step c' (r, d)
    → Step c (r, d)
Step-from c c' failed d e l i s = record { reads = tt; ready = tt }
Step-from c c' pending d e l i s = record { reads = ground (arith, s.reads); ready = s.ready }
Step-from c c' (complete p) d e l i s = record {
  reads =
      let (u, pos, lim, same, own, proto) = s.reads in
      (e ∙ u, pos, omega arith, same, own ∙ sym i, proto);
  ready = s.ready;
}

-- A package of `n` bytes is begun.
abbrev pub begun : Allocator → ServerConn → ℕ → List Arrival → ServerConn
begun mem c n evs = record (read_to evs c) {
  cur_pkg_size = n;
  rpk = some (new_request mem n c.seqid);
  cur_left_len = n;
}

module _ (mem : Allocator) (c : ServerConn) (r : IsReading c) (e : c.cur_pkg_size ≡ 0) where
  unread-idle : unread c ≡ stream c.sock.incoming
  unread-idle =
      ap (λ (x : Str). x ++ stream c.sock.incoming)
        (held_idle c.rpk c.cur_pkg_size c.cur_left_len c.max_req_limit c.seqid r.phase e)

  begin-Step :
      (n : ℕ) (evs : List Arrival)
      → Word [] (stream c.sock.incoming) n evs
      → 0 < n
      → n ≤ c.max_req_limit
      → Safely (Step c) (read_body (begun mem c n evs))
  unfolding new_request
  begin-Step n evs w pos le =
      let part : IsPart (new_request mem n c.seqid) n n c.max_req_limit c.seqid = record {
        missing = pos;
        left_in = omega arith;
        allowed = le;
        buffer = mem.length-fresh n;
        same_len = refl;
        owner = refl;
        own_protocol = refl;
      } in
      let same : unread c ≡ unread (begun mem c n evs) =
        unread-idle
        ∙ (w.split
            ∙ sym (
                ap (λ (x : Str). x ++ stream evs)
                  (ap (λ (k : ℕ). be32 n ++ take k (mem.fresh n)) zero_done
                    ∙ (append-nil (be32 n)
                        ∙ (ap be32 w.value ∙ be32-ntohl w.w w.four w.w_bytes))))) in
      Safely-map (read_body (begun mem c n evs))
        (λ x. Step-from c (begun mem c n evs) x.0 x.1 same refl refl)
        (read_body-Step (new_request mem n c.seqid) (begun mem c n evs) part r.limit refl w.bytes)
    where
      zero_done : n - n ≡ 0
      zero_done = omega arith

  start-Step :
      (x : Exec (Bool × ℕ × List Arrival))
      → Found c.cur_pkg_size [] (stream c.sock.incoming) x
      → Safely (Step c) (x >>= start_package mem c)
  start-Step waiting f = tt
  start-Step fault f = f
  start-Step (ret (false, n, evs)) f = record { reads = tt; ready = tt }
  start-Step (ret (true, n, evs)) (inl f) =
      let none_yet : (n == 0) ≡ true = ground (arith, f.same_len) in
      rw none_yet (record {
        reads =
            inl
              (ap₂ (λ (k : ℕ) (x : Str). held c.rpk k c.cur_left_len ++ x) (sym f.same_len) f.same);
        ready = record { phase = rw f.same_len r.phase; limit = r.limit; bytes = f.bytes };
      })
  start-Step (ret (true, n, evs)) (inr f) = elim (Bool-cases (n == 0)) [
    | inl empty ↦
        let n0 : n ≡ 0 = ground arith in
        let phase : Phase c.rpk n c.cur_left_len c.max_req_limit c.seqid = rw (n0, ← e) r.phase in
        let word : f.w ≡ be32 0 =
          sym (be32-ntohl f.w f.four f.w_bytes) ∙ ap be32 (sym f.value ∙ n0) in
        let after : held c.rpk n c.cur_left_len ++ stream evs ≡ stream evs =
          ap (λ (x : Str). x ++ stream evs)
            (held_idle c.rpk n c.cur_left_len c.max_req_limit c.seqid phase n0) in
        rw empty (record {
          reads = inr (unread-idle ∙ (f.split ∙ ap₂ ◌++◌ word (sym after)));
          ready = record { phase = phase; limit = r.limit; bytes = f.bytes };
        })
    | inr some_size ↦ elim (Bool-cases (ltb c.max_req_limit n)) [
      | inl large ↦ rw (some_size, large) (record { reads = tt; ready = tt })
      | inr allowed ↦ rw (some_size, allowed) (begin-Step n evs f (ground arith) (ground arith))
    ]
  ]

  header-Step : Safely (Step c) (read_pkg_len c >>= start_package mem c)
  unfolding read_pkg_len
  header-Step = elim (Bool-cases (not c.is_connected)) [
    | inl off ↦ rw off (start-Step (ret (false, c.cur_pkg_size, c.sock.incoming)) refl)
    | inr on ↦ rw on (
        start-Step (read_len_loop c.cur_pkg_size zero_word 4 c.sock.incoming) (
          read_len_loop-Found c.cur_pkg_size [] zero_word 4 c.sock.incoming refl refl (omega arith)
            (omega arith) tt r.bytes))
  ]

body-Step :
    (o : Option RequestPkg) (c : ServerConn)
    → c.rpk ≡ o
    → c.cur_pkg_size ≢ 0
    → IsReading c
    → Safely (Step c) (read_body c)
body-Step none c e ne r = absurd (ne (rw e at r.phase))
body-Step (some p) c e ne r = read_body-Step p c (rw e at r.phase) r.limit e r.bytes

-- One call of `getRequest`, wherever the last one stopped, on the stream of bytes from the start of
-- the current package on. It does not write outside a buffer. If it returns without a failure, it
-- took off the front of the stream what it delivers and no more: nothing yet, an empty package, or
-- one package, whole, within the limit and for this connection; and it can be called again.
pub get_request_lem :
    (mem : Allocator) (c : ServerConn) → IsReading c → Safely (Step c) (get_request mem c)
unfolding get_request
get_request_lem mem c r = elim (Bool-cases (c.cur_pkg_size == 0)) [
  | inl idle ↦ rw idle (header-Step mem c r (ground arith))
  | inr busy ↦ rw busy (body-Step c.rpk c refl (ground arith) r)
]
