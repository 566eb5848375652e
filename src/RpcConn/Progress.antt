-- ===== src/RpcConn/Progress.antt =====
-- A socket that stays open: every call of RpcServerRpcConn::getRequest gets on, and none fails.
use rpcframe.Prelude.{
  ℕ, suc, ◌+◌, ◌-◌, ◌≤◌, ◌<◌, ◌^◌, ◌≡◌, ◌≢◌, refl, sym, ap, ◌∙◌, Bool, true, false, Option, none,
  some, List, [], ◌∷◌, ◌++◌, Str, length, take, drop, splice, ltb, ◌==◌, Exec, ret, waiting, fault,
  ◌>>=◌, be32, ntohl, ntohl-be32, length-be32, inl, inr, arith, length-take, length-drop,
  append-nil, take-append, Bool-cases, IfReturns,
}
use rpcframe.Package.{
  PkgIoStatus, fail, partial, time_out, no_data, full, RequestPkg, Allocator, new_request,
}
use rpcframe.Net.{
  Errno, clear, eagain, eintr, epipe, other, is_again, Arrival, arrived, closed, interrupted,
  leftover, chunk, stream,
}
use rpcframe.ServerConn.{ServerConn}
use rpcframe.RpcConn.{
  PkgRet, failed, hand_over, read_len_loop, read_pkg_len, read_data_loop, read_pkg_data, finish,
  read_body, start_package, zero_word,
}
use rpcframe.RpcConn.Framing.{AllBytes, Found, Word, read_len_loop-Found}
use rpcframe.RpcConn.Stream.{begun}

-- The peer keeps the connection open, and `recv` is at most interrupted.
abbrev pub AreLive : List Arrival → Type 0
AreLive [] = Unit
AreLive (arrived b bs ∷ evs) = AreLive evs
AreLive (closed ∷ evs) = ⊥
AreLive (interrupted e ∷ evs) = (is_again e ≡ true) × AreLive evs

-- The bytes and the interruptions to come.
abbrev pub weight : List Arrival → ℕ
weight [] = 0
weight (arrived b bs ∷ evs) = length (b ∷ bs) + weight evs
weight (closed ∷ evs) = 0
weight (interrupted e ∷ evs) = suc (weight evs)

weight-leftover :
    (n : ℕ) (bs : Str) (evs : List Arrival)
    → weight (leftover n bs ++ evs) ≡ length bs - n + weight evs
weight-leftover n bs evs = chunks (drop n bs) ∙ ap (λ (k : ℕ). k + weight evs) (length-drop n bs)
  where
    chunks : (s : Str) → weight (chunk s ++ evs) ≡ length s + weight evs
    chunks [] = omega arith
    chunks (x ∷ s) = refl

AreLive-leftover :
    (n : ℕ) (bs : Str) (evs : List Arrival) → AreLive evs → AreLive (leftover n bs ++ evs)
AreLive-leftover n bs evs h = chunks (drop n bs)
  where
    chunks : (s : Str) → AreLive (chunk s ++ evs)
    chunks [] = h
    chunks (x ∷ s) = h

abbrev Advances : ℕ → Exec (Bool × ℕ × List Arrival) → Type 0
Advances k x =
    IfReturns (λ (r : Bool × ℕ × List Arrival). (r.0 ≡ true) × AreLive r.2 × (weight r.2 < k)) x

read_len_loop-Advances :
    (n : ℕ) (word : Str) (left k : ℕ) (evs : List Arrival)
    → 0 < left
    → AreLive evs
    → weight evs ≤ k
    → Advances k (read_len_loop n word left evs)
unfolding read_len_loop
read_len_loop-Advances n word left k [] pos live le = tt
read_len_loop-Advances n word left k (closed ∷ evs) pos live le = elim live [ ]
read_len_loop-Advances n word left k (interrupted e ∷ evs) pos (again, live) le =
    elim (Bool-cases (left == 4)) [
      | inl start ↦ rw (again, start) (refl, live, omega arith)
      | inr more ↦
          rw (again, more) (read_len_loop-Advances n word left k evs pos live (omega arith))
    ]
read_len_loop-Advances n word left k (arrived b bs ∷ evs) pos live le =
    let got : Str = take left (b ∷ bs) in
    elim (Bool-cases ((left - length got) == 0)) [
      | inl done ↦ rw done (
        refl,
        AreLive-leftover left (b ∷ bs) evs live,
        omega (arith, weight-leftover left (b ∷ bs) evs),
      )
      | inr more ↦ rw more (
          read_len_loop-Advances n (splice word (4 - left) got) (left - length got) k evs
            (ground arith) live (omega arith))
    ]

-- The connection `c'` after a call on `c`.
pub record Goes (c : ServerConn) (k : ℕ) (c' : ServerConn) : Type 0 where
  pub live : AreLive c'.sock.incoming
  pub less : weight c'.sock.incoming < k
  pub on : c'.is_connected ≡ true
  pub same_limit : c'.max_req_limit ≡ c.max_req_limit
  pub same_id : c'.seqid ≡ c.seqid

abbrev pub GoesOn : ServerConn → ℕ → PkgRet × ServerConn → Type 0
GoesOn c k r = (r.0 ≢ failed) × Goes c k r.1

abbrev DataIn : ServerConn → ℕ → PkgIoStatus × ServerConn → Type 0
DataIn c k r = (r.0 ≢ fail) × Goes c k r.1

read_data_loop-DataIn :
    (p : RequestPkg) (errno : Errno) (evs : List Arrival) (c : ServerConn) (k : ℕ)
    → 0 < c.cur_left_len
    → c.is_connected ≡ true
    → AreLive evs
    → weight evs ≤ k
    → IfReturns (DataIn c k) (read_data_loop p errno evs c)
unfolding read_data_loop
read_data_loop-DataIn p errno [] c k pos on live le = tt
read_data_loop-DataIn p errno (closed ∷ evs) c k pos on live le = elim live [ ]
read_data_loop-DataIn p errno (interrupted eagain ∷ evs) c k pos on live le = ground arith
read_data_loop-DataIn p errno (interrupted eintr ∷ evs) c k pos on live le =
    read_data_loop-DataIn p eintr evs c k pos on live.1 (omega arith)
read_data_loop-DataIn p errno (interrupted clear ∷ evs) c k pos on live le = cc
read_data_loop-DataIn p errno (interrupted epipe ∷ evs) c k pos on live le = cc
read_data_loop-DataIn p errno (interrupted other ∷ evs) c k pos on live le = cc
read_data_loop-DataIn p errno (arrived b bs ∷ evs) c k pos on live le =
    let got : Str = take c.cur_left_len (b ∷ bs) in
    let some_read : (length got == 0) ≡ false =
      ground (arith, length-take c.cur_left_len (b ∷ bs)) in
    let rest : AreLive (leftover c.cur_left_len (b ∷ bs) ++ evs) =
      AreLive-leftover c.cur_left_len (b ∷ bs) evs live in
    let less : weight (leftover c.cur_left_len (b ∷ bs) ++ evs) < k =
      omega (arith, weight-leftover c.cur_left_len (b ∷ bs) evs) in
    elim (Bool-cases (ltb (length p.bytes) (c.cur_pkg_size - c.cur_left_len + length got))) [
      | inl over ↦ rw (some_read, over) tt
      | inr inside ↦
          rw (some_read, inside)
            (elim (Bool-cases (length got == c.cur_left_len)) [
              | inl all ↦ rw all (
                λ e. cc,
                record { live = rest; less = less; on = on; same_limit = refl; same_id = refl },
              )
              | inr more ↦ rw more (
                λ e. cc,
                record { live = rest; less = less; on = on; same_limit = refl; same_id = refl },
              )
            ])
    ]

handed :
    (c : ServerConn) (k : ℕ) (o : Option RequestPkg) (d : ServerConn)
    → Goes c k d
    → GoesOn c k (hand_over o, record d { rpk = none })
handed c k none d g = (
  λ e. cc,
  record {
    live = g.live;
    less = g.less;
    on = g.on;
    same_limit = g.same_limit;
    same_id = g.same_id;
  },
)
handed c k (some p) d g = (
  λ e. cc,
  record {
    live = g.live;
    less = g.less;
    on = g.on;
    same_limit = g.same_limit;
    same_id = g.same_id;
  },
)

finish-GoesOn :
    (c : ServerConn) (k : ℕ) (x : Exec (PkgIoStatus × ServerConn))
    → IfReturns (DataIn c k) x
    → IfReturns (GoesOn c k) (x >>= finish)
finish-GoesOn c k waiting h = tt
finish-GoesOn c k fault h = tt
finish-GoesOn c k (ret (fail, d)) h = absurd (h.0 refl)
finish-GoesOn c k (ret (partial, d)) h = (λ e. cc, h.1)
finish-GoesOn c k (ret (time_out, d)) h = handed c k d.rpk d h.1
finish-GoesOn c k (ret (no_data, d)) h = handed c k d.rpk d h.1
finish-GoesOn c k (ret (full, d)) h = handed c k d.rpk d h.1

pub read_body-GoesOn :
    (p : RequestPkg) (c : ServerConn) (k : ℕ)
    → c.rpk ≡ some p
    → 0 < c.cur_left_len
    → c.is_connected ≡ true
    → AreLive c.sock.incoming
    → weight c.sock.incoming ≤ k
    → IfReturns (GoesOn c k) (read_body c)
unfolding read_body read_pkg_data
read_body-GoesOn p c k e pos on live le =
    let body : read_body c ≡ (read_data_loop p clear c.sock.incoming c >>= finish) =
      ap (λ (x : Exec (PkgIoStatus × ServerConn)). x >>= finish) (ground arith) in
    rw body (
      finish-GoesOn c k (read_data_loop p clear c.sock.incoming c)
        (read_data_loop-DataIn p clear c.sock.incoming c k pos on live le))

-- The stream begins with a package `q`.
module _ (mem : Allocator) (c : ServerConn) (q rest : Str) (idle : c.cur_pkg_size ≡ 0)
    (on : c.is_connected ≡ true) (pos : 0 < length q) (allowed : length q ≤ c.max_req_limit)
    (limit : c.max_req_limit < 2 ^ 32) (k : ℕ)
    (front : stream c.sock.incoming ≡ be32 (length q) ++ (q ++ rest)) where
  announced : (n : ℕ) (evs : List Arrival) → Word [] (stream c.sock.incoming) n evs → n ≡ length q
  announced n evs w =
      let word : w.w ≡ be32 (length q) =
        sym (take-append 4 w.w (stream evs) (sym w.four))
        ∙ (ap (take 4) (sym w.split ∙ front)
            ∙ take-append 4 (be32 (length q)) (q ++ rest) (sym (length-be32 (length q)))) in
      w.value
      ∙ (ap ntohl (word ∙ sym (append-nil (be32 (length q))))
          ∙ ntohl-be32 (length q) [] (omega arith))

  start-GoesOn :
      (x : Exec (Bool × ℕ × List Arrival))
      → Found c.cur_pkg_size [] (stream c.sock.incoming) x
      → Advances k x
      → IfReturns (GoesOn c k) (x >>= start_package mem c)
  unfolding new_request
  start-GoesOn waiting f a = tt
  start-GoesOn fault f a = tt
  start-GoesOn (ret (false, n, evs)) f a = cc
  start-GoesOn (ret (true, n, evs)) (inl f) a =
      let none_yet : (n == 0) ≡ true = ground (arith, f.same_len) in
      rw none_yet
        (λ e. cc, record { live = a.1; less = a.2; on = on; same_limit = refl; same_id = refl })
  start-GoesOn (ret (true, n, evs)) (inr f) a =
      let len : n ≡ length q = announced n evs f in
      let some_size : (n == 0) ≡ false = ground (arith, len) in
      let inside : ltb c.max_req_limit n ≡ false = ground (arith, len) in
      rw (some_size, inside)
        (of_begun (read_body (begun mem c n evs)) (
          read_body-GoesOn (new_request mem n c.seqid) (begun mem c n evs) k refl
            (omega (arith, len)) on a.1 (omega (arith, a.2))))
    where
      of_begun :
          (x : Exec (PkgRet × ServerConn))
          → IfReturns (GoesOn (begun mem c n evs) k) x
          → IfReturns (GoesOn c k) x
      of_begun (ret r) h = (
        h.0,
        record {
          live = h.1.live;
          less = h.1.less;
          on = h.1.on;
          same_limit = h.1.same_limit;
          same_id = h.1.same_id;
        },
      )
      of_begun waiting h = tt
      of_begun fault h = tt

  pub header-GoesOn :
      AreLive c.sock.incoming
      → AllBytes c.sock.incoming
      → weight c.sock.incoming ≤ k
      → IfReturns (GoesOn c k) (read_pkg_len c >>= start_package mem c)
  unfolding read_pkg_len
  header-GoesOn live bytes le =
      let word : read_pkg_len c ≡ read_len_loop c.cur_pkg_size zero_word 4 c.sock.incoming =
        ground arith in
      rw word (
        start-GoesOn (read_len_loop c.cur_pkg_size zero_word 4 c.sock.incoming)
          (read_len_loop-Found c.cur_pkg_size [] zero_word 4 c.sock.incoming refl refl (omega arith)
            (omega arith) tt bytes)
          (read_len_loop-Advances c.cur_pkg_size zero_word 4 k c.sock.incoming (omega arith) live
            le))
