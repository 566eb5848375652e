-- ===== src/ClientConn/Midway.antt =====
-- The calls of RpcClientConn::getResponse, as RpcEventLooper::run makes them, and the ones in the
-- middle of a response.
use rpcframe.Prelude.{
  ℕ, zero, suc, ◌+◌, ◌-◌, ◌≤◌, ◌<◌, ◌≡◌, refl, sym, ap, ◌∙◌, true, false, Option, List, [], ◌∷◌,
  ◌++◌, Str, length, take, drop, splice, ◌==◌, ltb, Exec, ret, ◌>>=◌, inl, inr, append_assoc,
  append-nil, arith, length-take, length-append, length-splice, take-splice, take_all, drop_all,
  Bool-cases,
}
use rpcframe.Package.{ResponsePkg, Allocator}
use rpcframe.Net.{Arrival, arrived, closed, interrupted, leftover, stream, stream-chunk}
use rpcframe.ClientConn.{
  ClientConn, null, reading, RespRet, failed, pending, complete, read_pkg_data, read_data, finish,
  get_response,
}
use rpcframe.ClientConn.Framing.{
  AreChunks, AreChunks-leftover, take-long, drop-long, take-short, drop-short,
}

abbrev pub go_on :
    RespRet × ClientConn → (ClientConn → Exec (RespRet × ClientConn)) → Exec (RespRet × ClientConn)
go_on (pending, c) later = later c
go_on (failed, c) later = ret (failed, c)
go_on (complete p, c) later = ret (complete p, c)

-- At most `n` calls.
unfoldable pub next_response : Allocator → ℕ → ClientConn → Exec (RespRet × ClientConn)
unfolding get_response
next_response mem zero c = ret (pending, c)
next_response mem (suc n) c = get_response mem c >>= λ r. go_on r (next_response mem n)

abbrev pub IsIdle : ClientConn → Type 0
IsIdle c = (c.cur_pkg_size ≡ 0) × (c.is_connected ≡ true)

-- A response that holds `bytes`, with `rest` left to receive.
abbrev pub Delivers : Str → Str → Exec (RespRet × ClientConn) → Type 0
Delivers bytes rest x =
    (p : ResponsePkg) × (c : ClientConn) × (x ≡ ret (complete p, c))
    × (p.bytes ≡ bytes)
    × (p.data_len ≡ length bytes)
    × IsIdle c
    × AreChunks c.incoming
    × (stream c.incoming ≡ rest)

-- In the middle of a package: `left` bytes of `size` are missing.
abbrev pub mid : Option ℕ → Str → ℕ → ℕ → ℕ → ResponsePkg → List Arrival → ClientConn
mid fd wire time left size p evs = record {
  fd = fd;
  incoming = evs;
  wire = wire;
  cur_left_len = left;
  cur_pkg_size = size;
  rpk = reading p;
  is_connected = true;
  last_invalid_time = time;
}

module _ (fd : Option ℕ) (wire : Str) (time size left b : ℕ) (p : ResponsePkg) (bs : Str)
    (evs : List Arrival) (full : length p.bytes ≡ size) (same : p.data_len ≡ size) (pos : 0 < left)
    (le : left ≤ size) (chunks : AreChunks evs) where
  abbrev at : ClientConn
  at = mid fd wire time left size p (arrived b bs ∷ evs)

  abbrev wrote : Str → ResponsePkg
  wrote got = record p { bytes = splice p.bytes (size - left) got }

  abbrev ended : ClientConn
  ended = record at {
    incoming = leftover left (b ∷ bs) ++ evs;
    cur_left_len = 0;
    cur_pkg_size = 0;
    rpk = null;
  }

  last_chunk :
      left ≤ length (b ∷ bs)
      → (read_pkg_data at >>= finish) ≡ ret (complete (wrote (take left (b ∷ bs))), ended)
  unfolding read_pkg_data read_data
  last_chunk long =
      let got : length (take left (b ∷ bs)) ≡ left = omega (arith, length-take left (b ∷ bs)) in
      let some_came : (length (take left (b ∷ bs)) == 0) ≡ false = ground (arith, got) in
      let inside : ltb (length p.bytes) (size - left + length (take left (b ∷ bs))) ≡ false =
        ground (arith, got) in
      let all : (length (take left (b ∷ bs)) == left) ≡ true = ground (arith, got) in
      rw (some_came, inside, all) refl

  more_chunk :
      length (b ∷ bs) < left
      → (read_pkg_data at >>= finish)
        ≡ ret (pending, mid fd wire time (left - length (b ∷ bs)) size (wrote (b ∷ bs)) evs)
  unfolding read_pkg_data read_data
  more_chunk short =
      let got : take left (b ∷ bs) ≡ b ∷ bs = take_all left (b ∷ bs) (omega arith) in
      let none_over : drop left (b ∷ bs) ≡ [] = drop_all left (b ∷ bs) (omega arith) in
      let inside : ltb (length p.bytes) (size - left + length (b ∷ bs)) ≡ false = ground arith in
      let some_left : (length (b ∷ bs) == left) ≡ false = ground arith in
      let some_came : (length (b ∷ bs) == 0) ≡ false = ground arith in
      rw (got, none_over, some_came, inside, some_left) refl

  one_call : (mem : Allocator) → get_response mem at ≡ (read_pkg_data at >>= finish)
  unfolding get_response
  one_call mem = let busy : (size == 0) ≡ false = ground arith in rw busy refl

  -- The package holds what had come of it and what is to come.
  last_call :
      (mem : Allocator) (n : ℕ)
      → left ≤ length (b ∷ bs)
      → Delivers
          (take (size - left) p.bytes ++ take left ((b ∷ bs) ++ stream evs))
          (drop left ((b ∷ bs) ++ stream evs))
          (next_response mem (suc n) at)
  unfolding next_response
  last_call mem n long =
      let got : Str = take left (b ∷ bs) in
      let none_left : drop (size - left + length got) p.bytes ≡ [] =
        drop_all (size - left + length got) p.bytes (omega (arith, length-take left (b ∷ bs))) in
      (
        wrote got,
        ended,
        ap (λ (x : Exec (RespRet × ClientConn)). x >>= λ r. go_on r (next_response mem n))
            (one_call mem ∙ last_chunk long),
        ap (λ (x : Str). take (size - left) p.bytes ++ (got ++ x)) none_left
            ∙ ap (λ (x : Str). take (size - left) p.bytes ++ x)
                (append-nil got ∙ sym (take-long left (b ∷ bs) (stream evs) long)),
        omega (
          arith,
          length-append (take (size - left) p.bytes) (take left ((b ∷ bs) ++ stream evs)),
          length-take (size - left) p.bytes,
          length-take left ((b ∷ bs) ++ stream evs),
          length-append (b ∷ bs) (stream evs),
        ),
        (refl, refl),
        AreChunks-leftover left (b ∷ bs) evs chunks,
        stream-chunk (drop left (b ∷ bs)) evs ∙ sym (drop-long left (b ∷ bs) (stream evs) long),
      )

  other_call :
      (mem : Allocator) (n : ℕ)
      → length (b ∷ bs) < left
      → Delivers
          (take (size - (left - length (b ∷ bs))) (splice p.bytes (size - left) (b ∷ bs))
            ++ take (left - length (b ∷ bs)) (stream evs))
          (drop (left - length (b ∷ bs)) (stream evs))
          (next_response mem n
            (mid fd wire time (left - length (b ∷ bs)) size (wrote (b ∷ bs)) evs))
      → Delivers
          (take (size - left) p.bytes ++ take left ((b ∷ bs) ++ stream evs))
          (drop left ((b ∷ bs) ++ stream evs))
          (next_response mem (suc n) at)
  unfolding next_response
  other_call mem n short (q, c, result, bytes, len, idle, chunks', rest) =
      let had : take (size - (left - length (b ∷ bs))) (splice p.bytes (size - left) (b ∷ bs))
          ≡ take (size - left) p.bytes ++ (b ∷ bs) =
        take-splice p.bytes (size - left) (size - (left - length (b ∷ bs))) (b ∷ bs) (omega arith)
          (omega arith) in
      let joined : take (size - (left - length (b ∷ bs))) (splice p.bytes (size - left) (b ∷ bs))
            ++ take (left - length (b ∷ bs)) (stream evs)
          ≡ take (size - left) p.bytes ++ take left ((b ∷ bs) ++ stream evs) =
        ap (λ (x : Str). x ++ take (left - length (b ∷ bs)) (stream evs)) had
        ∙ (append_assoc (take (size - left) p.bytes) (b ∷ bs)
              (take (left - length (b ∷ bs)) (stream evs))
            ∙ ap (λ (x : Str). take (size - left) p.bytes ++ x)
                (sym (take-short left (b ∷ bs) (stream evs) (omega arith)))) in
      (
        q,
        c,
        ap (λ (x : Exec (RespRet × ClientConn)). x >>= λ r. go_on r (next_response mem n))
              (one_call mem ∙ more_chunk short)
            ∙ result,
        bytes ∙ joined,
        len ∙ ap length joined,
        idle,
        chunks',
        rest ∙ sym (drop-short left (b ∷ bs) (stream evs) (omega arith)),
      )

pub mid-Delivers :
    (mem : Allocator) (fd : Option ℕ) (wire : Str) (time size left n : ℕ) (p : ResponsePkg)
    (evs : List Arrival)
    → length p.bytes ≡ size
    → p.data_len ≡ size
    → 0 < left
    → left ≤ size
    → AreChunks evs
    → left ≤ length (stream evs)
    → length evs ≤ n
    → Delivers
        (take (size - left) p.bytes ++ take left (stream evs))
        (drop left (stream evs))
        (next_response mem n (mid fd wire time left size p evs))
mid-Delivers mem fd wire time size left n p [] full same pos le chunks enough fuel =
    absurd (omega arith)
mid-Delivers mem fd wire time size left n p (closed ∷ evs) full same pos le chunks enough fuel =
    elim chunks [ ]
mid-Delivers mem fd wire time size left n p (interrupted e ∷ evs) full same pos le chunks enough
      fuel =
    elim chunks [ ]
mid-Delivers mem fd wire time size left zero p (arrived b bs ∷ evs) full same pos le chunks enough
      fuel =
    absurd (omega arith)
mid-Delivers mem fd wire time size left (suc n) p (arrived b bs ∷ evs) full same pos le chunks
      enough fuel =
    elim (Bool-cases (ltb (length (b ∷ bs)) left)) [
      | inr long ↦
          last_call fd wire time size left b p bs evs full same pos le chunks mem n (ground arith)
      | inl short ↦
          (let lt : length (b ∷ bs) < left = ground arith in
            other_call fd wire time size left b p bs evs full same pos le chunks mem n lt (
              mid-Delivers mem fd wire time size (left - length (b ∷ bs)) n
                (record p { bytes = splice p.bytes (size - left) (b ∷ bs) }) evs
                (omega (arith, length-splice p.bytes (size - left) (b ∷ bs))) same (omega arith)
                (omega arith) chunks (omega (arith, length-append (b ∷ bs) (stream evs)))
                (omega arith)))
    ]
