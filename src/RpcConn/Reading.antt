-- ===== src/RpcConn/Reading.antt =====
-- A request that RpcServerRpcConn::getRequest has begun to read, and the calls that read its data.
use rpcframe.Prelude.{
  Safely, ℕ, ◌+◌, ◌-◌, ◌≤◌, ◌<◌, ◌^◌, ◌≡◌, refl, sym, ap, ap₂, ◌∙◌, false, not, Option, none, some,
  List, [], ◌∷◌, ◌++◌, Str, length, take, splice, ltb, ◌==◌, if◌then◌else◌, Exec, ret, ◌>>=◌, be32,
  ◌⊎◌, inl, inr, append_assoc, arith, length-take, length-splice, take-splice, take_all, Bool-cases,
}
use rpcframe.Package.{PkgIoStatus, fail, RequestPkg}
use rpcframe.Net.{
  Errno, clear, eagain, eintr, epipe, other, Arrival, arrived, closed, interrupted, leftover,
  stream, stream-leftover,
}
use rpcframe.ServerConn.{ServerConn}
use rpcframe.RpcConn.{
  PkgRet, failed, pending, complete, filled, read_data_loop, read_pkg_data, finish, read_body,
}
use rpcframe.RpcConn.Framing.{AllBytes, AllBytes-leftover}

-- A package that is being read: `left` of its `size` bytes are missing.
pub record IsPart (p : RequestPkg) (size left limit : ℕ) (id : Str) : Type 0 where
  pub missing : 0 < left
  pub left_in : left ≤ size
  pub allowed : size ≤ limit
  pub buffer : length p.bytes ≡ size
  pub same_len : p.data_len ≡ size
  pub owner : p.connection_id ≡ id
  pub own_protocol : p.is_from_http ≡ false

abbrev pub Phase : Option RequestPkg → ℕ → ℕ → ℕ → Str → Type 0
Phase none size left limit id = size ≡ 0
Phase (some p) size left limit id = IsPart p size left limit id

-- Between two calls: no package is begun, or a part of one is read.
pub record IsReading (c : ServerConn) : Type 0 where
  pub phase : Phase c.rpk c.cur_pkg_size c.cur_left_len c.max_req_limit c.seqid
  pub limit : c.max_req_limit < 2 ^ 32
  pub bytes : AllBytes c.sock.incoming

abbrev pub held : Option RequestPkg → ℕ → ℕ → Str
held none size left = []
held (some p) size left = be32 size ++ take (size - left) p.bytes

-- The bytes of the stream from the start of the current package on.
abbrev pub unread : ServerConn → Str
unread c = held c.rpk c.cur_pkg_size c.cur_left_len ++ stream c.sock.incoming

-- What a call took off the front of the stream: nothing, an empty package, which is dropped, or the
-- package that it delivers.
abbrev pub Reads : PkgRet → ServerConn → ServerConn → Type 0
Reads failed c c' = Unit
Reads pending c c' = (unread c ≡ unread c') ⊎ (unread c ≡ be32 0 ++ unread c')
Reads (complete p) c c' =
    (unread c ≡ be32 (length p.bytes) ++ (p.bytes ++ unread c'))
    × (0 < length p.bytes)
    × (length p.bytes ≤ c.max_req_limit)
    × (p.data_len ≡ length p.bytes)
    × (p.connection_id ≡ c.seqid)
    × (p.is_from_http ≡ false)

-- After a failure the caller closes the connection.
abbrev pub Ready : PkgRet → ServerConn → Type 0
Ready failed c = Unit
Ready _ c = IsReading c

pub record Step (c : ServerConn) (r : PkgRet × ServerConn) : Type 0 where
  pub reads : Reads r.0 c r.1
  pub ready : Ready r.0 r.1

regroup : (h t g s : Str) → (h ++ t) ++ (g ++ s) ≡ h ++ ((t ++ g) ++ s)
regroup h t g s = simp append_assoc

-- `recv` delivered `got` for the package `p`.
module _ (p : RequestPkg) (got : Str) (rest : List Arrival) (c : ServerConn)
    (i : IsPart p c.cur_pkg_size c.cur_left_len c.max_req_limit c.seqid)
    (lim : c.max_req_limit < 2 ^ 32) (e : c.rpk ≡ some p) (pos : 0 < length got)
    (le : length got ≤ c.cur_left_len) (s : stream c.sock.incoming ≡ got ++ stream rest)
    (b : AllBytes rest) where
  abbrev done : ℕ
  done = c.cur_pkg_size - c.cur_left_len

  abbrev written : Str
  written = splice p.bytes done got

  length-written : length written ≡ c.cur_pkg_size
  length-written = omega (arith, length-splice p.bytes done got, i.buffer, i.left_in)

  take-written : (n : ℕ) → n ≡ done + length got → take n written ≡ take done p.bytes ++ got
  take-written n h = take-splice p.bytes done n got (omega arith) h

  unread-eq : unread c ≡ be32 c.cur_pkg_size ++ ((take done p.bytes ++ got) ++ stream rest)
  unread-eq =
      ap₂ (λ (o : Option RequestPkg) (x : Str). held o c.cur_pkg_size c.cur_left_len ++ x) e s
      ∙ regroup (be32 c.cur_pkg_size) (take done p.bytes) got (stream rest)

  filled-full : length got ≡ c.cur_left_len → take done p.bytes ++ got ≡ written
  filled-full all =
      sym (take-written c.cur_pkg_size (omega (arith, i.left_in)))
      ∙ take_all c.cur_pkg_size written (omega (arith, length-written))

  filled-Step : Safely (Step c) (finish (filled p got rest c))
  filled-Step = elim (Bool-cases (length got == c.cur_left_len)) [
    | inl all ↦ rw all (record {
      reads = (
        unread-eq
            ∙ ap₂ (λ (n : ℕ) (x : Str). be32 n ++ (x ++ stream rest)) (sym length-written)
                (filled-full (ground arith)),
        omega (arith, length-written, i.missing, i.left_in),
        omega (arith, length-written, i.allowed),
        omega (arith, length-written, i.same_len),
        i.owner,
        i.own_protocol,
      );
      ready = record { phase = refl; limit = lim; bytes = b };
    })
    | inr more ↦ rw more (record {
      reads = inl (
          unread-eq
          ∙ (ap (λ (x : Str). be32 c.cur_pkg_size ++ (x ++ stream rest))
                (sym (
                  take-written (c.cur_pkg_size - (c.cur_left_len - length got))
                    (omega (arith, i.left_in))))
              ∙ sym (append_assoc (be32 c.cur_pkg_size) _ (stream rest))));
      ready = record {
        phase = record {
          missing = ground arith;
          left_in = omega (arith, i.left_in);
          allowed = i.allowed;
          buffer = length-written;
          same_len = i.same_len;
          owner = i.owner;
          own_protocol = i.own_protocol;
        };
        limit = lim;
        bytes = b;
      };
    })
  ]

read_data_loop-Step :
    (p : RequestPkg) (errno : Errno) (evs : List Arrival) (c : ServerConn)
    → IsPart p c.cur_pkg_size c.cur_left_len c.max_req_limit c.seqid
    → c.max_req_limit < 2 ^ 32
    → c.rpk ≡ some p
    → stream c.sock.incoming ≡ stream evs
    → AllBytes evs
    → Safely (Step c) (read_data_loop p errno evs c >>= finish)
unfolding read_data_loop
read_data_loop-Step p errno [] c i lim e s b = tt
read_data_loop-Step p errno (closed ∷ evs) c i lim e s b =
    let short : (c.cur_left_len == 0) ≡ false = ground (arith, i.missing) in
    rw short (record { reads = tt; ready = tt })
read_data_loop-Step p errno (interrupted eagain ∷ evs) c i lim e s b = record {
  reads = inl (ap (λ (x : Str). held c.rpk c.cur_pkg_size c.cur_left_len ++ x) s);
  ready = record { phase = rw e i; limit = lim; bytes = b };
}
read_data_loop-Step p errno (interrupted eintr ∷ evs) c i lim e s b =
    read_data_loop-Step p eintr evs c i lim e s b
read_data_loop-Step p errno (interrupted clear ∷ evs) c i lim e s b = record {
  reads = tt;
  ready = tt;
}
read_data_loop-Step p errno (interrupted epipe ∷ evs) c i lim e s b = record {
  reads = tt;
  ready = tt;
}
read_data_loop-Step p errno (interrupted other ∷ evs) c i lim e s b = record {
  reads = tt;
  ready = tt;
}
read_data_loop-Step p errno (arrived x xs ∷ evs) c i lim e s b =
    let got = take c.cur_left_len (x ∷ xs) in
    let size = length-take c.cur_left_len (x ∷ xs) in
    let some_read : (length got == 0) ≡ false = ground (arith, size, i.missing) in
    let inside : ltb (length p.bytes) (c.cur_pkg_size - c.cur_left_len + length got) ≡ false =
      ground (arith, size, i.buffer, i.left_in) in
    rw (some_read, inside)
      (filled-Step p got (leftover c.cur_left_len (x ∷ xs) ++ evs) c i lim e
        (omega (arith, size, i.missing)) (omega (arith, size))
        (s ∙ sym (stream-leftover c.cur_left_len (x ∷ xs) evs))
        (AllBytes-leftover c.cur_left_len (x ∷ xs) evs b.0 b.1))

pub read_body-Step :
    (p : RequestPkg) (c : ServerConn)
    → IsPart p c.cur_pkg_size c.cur_left_len c.max_req_limit c.seqid
    → c.max_req_limit < 2 ^ 32
    → c.rpk ≡ some p
    → AllBytes c.sock.incoming
    → Safely (Step c) (read_body c)
unfolding read_body read_pkg_data
read_body-Step p c i lim e b =
    let body : read_body c ≡ (
        (if not c.is_connected then ret (fail, c) else read_data_loop p clear c.sock.incoming c)
        >>= finish) =
      ap (λ (x : Exec (PkgIoStatus × ServerConn)). x >>= finish) (ground arith) in
    elim (Bool-cases (not c.is_connected)) [
      | inl off ↦ rw (body, off) (record { reads = tt; ready = tt })
      | inr on ↦ rw (body, on) (read_data_loop-Step p clear c.sock.incoming c i lim e refl b)
    ]
