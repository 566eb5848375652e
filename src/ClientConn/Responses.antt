-- ===== src/ClientConn/Responses.antt =====
-- The calls of RpcClientConn::getResponse from the first byte of a response to its last.
use rpcframe.Prelude.{
  ℕ, suc, ◌+◌, ◌-◌, ◌≤◌, ◌<◌, ◌^◌, ◌≡◌, refl, sym, subst, ap, ◌∙◌, Bool, true, false, Option, List,
  [], ◌++◌, Str, length, take, drop, ◌==◌, Exec, ret, ◌>>=◌, be32, ntohl, ntohl-be32, length-be32,
  append-nil, arith, length-append, take-append, drop-append,
}
use rpcframe.Package.{ResponsePkg, Allocator, new_response}
use rpcframe.Net.{Arrival, stream}
use rpcframe.ClientConn.{
  ClientConn, RespRet, read_pkg_data, read_pkg_len, finish, start_package, get_response,
}
use rpcframe.ClientConn.Framing.{AreChunks, read_len_loop-WordIn}
use rpcframe.ClientConn.Midway.{next_response, go_on, Delivers, IsIdle, mid, mid-Delivers}

busy_call :
    (mem : Allocator) (fd : Option ℕ) (wire : Str) (time left size : ℕ) (p : ResponsePkg)
    (evs : List Arrival)
    → 0 < size
    → get_response mem (mid fd wire time left size p evs)
      ≡ (read_pkg_data (mid fd wire time left size p evs) >>= finish)
unfolding get_response
busy_call mem fd wire time left size p evs pos =
    let busy : (size == 0) ≡ false = ground arith in rw busy refl

module _ (mem : Allocator) (c : ClientConn) (body rest : Str) where
  abbrev idle : ClientConn
  idle = record c { cur_pkg_size = 0; is_connected = true }

  abbrev started : List Arrival → ClientConn
  started evs =
      mid c.fd c.wire c.last_invalid_time (length body) (length body)
        (new_response mem (length body)) evs

  first_call :
      (evs : List Arrival)
      → 0 < length body
      → read_pkg_len mem idle ≡ ret (true, length body, evs)
      → get_response mem idle ≡ get_response mem (started evs)
  unfolding get_response
  first_call evs pos word =
      let some_bytes : (length body == 0) ≡ false = ground arith in
      ap (λ (x : Exec (Bool × ℕ × List Arrival)). x >>= start_package mem idle) word
      ∙ (rw some_bytes refl
          ∙ sym (
              busy_call mem c.fd c.wire c.last_invalid_time (length body) (length body)
                (new_response mem (length body)) evs pos))

  module _ (chunks : AreChunks c.incoming) (pos : 0 < length body) (small : length body < 2 ^ 32)
      (sent : stream c.incoming ≡ be32 (length body) ++ (body ++ rest)) where
    size : length (stream c.incoming) ≡ 4 + (length body + length rest)
    size = omega (
      arith,
      ap length sent,
      length-append (be32 (length body)) (body ++ rest),
      length-append body rest,
      length-be32 (length body),
    )

    the_word :
        (evs : List Arrival) × (read_pkg_len mem idle ≡ ret (true, length body, evs))
        × AreChunks evs
        × (stream evs ≡ body ++ rest)
        × (length evs ≤ length c.incoming)
    unfolding read_pkg_len
    the_word =
        let (evs, result, chunks', left, fewer) =
          read_len_loop-WordIn 0 0 4 (mem.fresh 4) c.incoming (mem.length-fresh 4) (omega arith)
            (omega arith) chunks (omega (arith, size)) in
        let front : take 4 (stream c.incoming) ≡ be32 (length body) =
          ap (take 4) sent
          ∙ take-append 4 (be32 (length body)) (body ++ rest) (sym (length-be32 (length body))) in
        let behind : drop 4 (stream c.incoming) ≡ body ++ rest =
          ap (drop 4) sent
          ∙ drop-append 4 (be32 (length body)) (body ++ rest) (sym (length-be32 (length body))) in
        let number : ntohl (take 4 (stream c.incoming)) ≡ length body =
          ap ntohl (front ∙ sym (append-nil (be32 (length body))))
          ∙ ntohl-be32 (length body) [] small in
        (evs, result ∙ ap (λ (n : ℕ). ret (true, n, evs)) number, chunks', left ∙ behind, fewer)

    idle-Delivers :
        (n : ℕ) → length c.incoming ≤ suc n → Delivers body rest (next_response mem (suc n) idle)
    unfolding next_response new_response
    idle-Delivers n fuel =
        let (evs, word, chunks', left, fewer) = the_word in
        let first : next_response mem (suc n) idle ≡ next_response mem (suc n) (started evs) =
          ap (λ (x : Exec (RespRet × ClientConn)). x >>= λ r. go_on r (next_response mem n))
            (first_call evs pos word) in
        let (p, c', result, bytes, len, idle', chunks2, rest') =
          mid-Delivers mem c.fd c.wire c.last_invalid_time (length body) (length body) (suc n)
            (new_response mem (length body)) evs (mem.length-fresh (length body)) refl pos
            (omega arith) chunks' (omega (arith, ap length left, length-append body rest))
            (omega arith) in
        let none_yet : take (length body - length body) (mem.fresh (length body)) ≡ [] =
          let z : length body - length body ≡ 0 = omega arith in
          ap (λ (k : ℕ). take k (mem.fresh (length body))) z in
        let whole : take (length body - length body) (mem.fresh (length body))
              ++ take (length body) (stream evs)
            ≡ body =
          ap (λ (x : Str). x ++ take (length body) (stream evs)) none_yet
          ∙ (ap (take (length body)) left ∙ take-append (length body) body rest refl) in
        (
          p,
          c',
          first ∙ result,
          bytes ∙ whole,
          len ∙ ap length whole,
          idle',
          chunks2,
          rest' ∙ (ap (drop (length body)) left ∙ drop-append (length body) body rest refl),
        )

-- A connection on which no response is under way, and a stream that begins with the length and the
-- bytes of a response, cut up in any way. At most as many calls of `getResponse` as there are chunks,
-- none of which writes outside a buffer, give the response, whole; then no response is under way, and
-- what followed it is still to be received.
pub next_response-Delivers :
    (mem : Allocator) (c : ClientConn) (body rest : Str) (n : ℕ)
    → IsIdle c
    → AreChunks c.incoming
    → 0 < length body
    → length body < 2 ^ 32
    → stream c.incoming ≡ be32 (length body) ++ (body ++ rest)
    → length c.incoming ≤ suc n
    → Delivers body rest (next_response mem (suc n) c)
next_response-Delivers mem c body rest n (none_read, on) chunks pos small sent fuel =
    subst
      (λ (k : ℕ). Delivers body rest (next_response mem (suc n) (record c { cur_pkg_size = k })))
      (sym none_read)
      (subst
        (λ (b : Bool).
          Delivers body rest
            (next_response mem (suc n) (record c { cur_pkg_size = 0; is_connected = b })))
        (sym on) (idle-Delivers mem c body rest chunks pos small sent n fuel))
