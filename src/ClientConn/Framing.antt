-- ===== src/ClientConn/Framing.antt =====
-- A response that comes in chunks, as RpcClientConn::readPkgLen and readPkgData cut it out of the stream.
use rpcframe.Prelude.{
  ℕ, zero, suc, ◌+◌, ◌-◌, ◌≤◌, ◌<◌, ◌≡◌, refl, sym, ap, ◌∙◌, Bool, true, false, List, [], ◌∷◌, ◌++◌,
  Str, length, take, drop, splice, ◌==◌, ltb, Exec, ret, ntohl, inl, inr, append_assoc, append-nil,
  arith, length-take, length-append, length-splice, take-splice, take_all, drop_all, Bool-cases,
}
use rpcframe.Net.{Arrival, arrived, closed, interrupted, leftover, chunk, stream, stream-chunk}
use rpcframe.ClientConn.{read_len_loop}

-- Nothing but bytes comes.
abbrev pub AreChunks : List Arrival → Type 0
AreChunks [] = Unit
AreChunks (arrived b bs ∷ evs) = AreChunks evs
AreChunks (closed ∷ evs) = ⊥
AreChunks (interrupted e ∷ evs) = ⊥

pub take-long : (n : ℕ) (xs ys : Str) → n ≤ length xs → take n (xs ++ ys) ≡ take n xs
take-long zero xs ys h = refl
take-long (suc n) [] ys h = absurd (omega arith)
take-long (suc n) (x ∷ xs) ys h = ap (◌∷◌ x) (take-long n xs ys (omega arith))

pub drop-long : (n : ℕ) (xs ys : Str) → n ≤ length xs → drop n (xs ++ ys) ≡ drop n xs ++ ys
drop-long zero xs ys h = refl
drop-long (suc n) [] ys h = absurd (omega arith)
drop-long (suc n) (x ∷ xs) ys h = drop-long n xs ys (omega arith)

pub take-short :
    (n : ℕ) (xs ys : Str) → length xs ≤ n → take n (xs ++ ys) ≡ xs ++ take (n - length xs) ys
take-short n [] ys h = let e : n ≡ n - 0 = omega arith in ap (λ (k : ℕ). take k ys) e
take-short zero (x ∷ xs) ys h = absurd (omega arith)
take-short (suc n) (x ∷ xs) ys h =
    let e : n - length xs ≡ suc n - suc (length xs) = omega arith in
    ap (◌∷◌ x) (take-short n xs ys (omega arith) ∙ ap (λ (k : ℕ). xs ++ take k ys) e)

pub drop-short : (n : ℕ) (xs ys : Str) → length xs ≤ n → drop n (xs ++ ys) ≡ drop (n - length xs) ys
drop-short n [] ys h = let e : n ≡ n - 0 = omega arith in ap (λ (k : ℕ). drop k ys) e
drop-short zero (x ∷ xs) ys h = absurd (omega arith)
drop-short (suc n) (x ∷ xs) ys h =
    let e : n - length xs ≡ suc n - suc (length xs) = omega arith in
    drop-short n xs ys (omega arith) ∙ ap (λ (k : ℕ). drop k ys) e

pub AreChunks-leftover :
    (n : ℕ) (bs : Str) (evs : List Arrival) → AreChunks evs → AreChunks (leftover n bs ++ evs)
AreChunks-leftover n bs evs h = chunks (drop n bs)
  where
    chunks : (s : Str) → AreChunks (chunk s ++ evs)
    chunks [] = h
    chunks (x ∷ s) = h

length-leftover :
    (n : ℕ) (bs : Str) (evs : List Arrival) → length (leftover n bs ++ evs) ≤ suc (length evs)
length-leftover n bs evs = chunks (drop n bs)
  where
    chunks : (s : Str) → length (chunk s ++ evs) ≤ suc (length evs)
    chunks [] = omega arith
    chunks (x ∷ s) = omega arith

-- The word of which `had` has come, and what is left then.
abbrev pub WordIn : Str → ℕ → List Arrival → Exec (Bool × ℕ × List Arrival) → Type 0
WordIn had left evs x =
    (evs' : List Arrival) × (x ≡ ret (true, ntohl (had ++ take left (stream evs)), evs'))
    × AreChunks evs'
    × (stream evs' ≡ drop left (stream evs))
    × (length evs' ≤ length evs)

module _ (pkg_len recved left b : ℕ) (word bs : Str) (evs : List Arrival) (four : length word ≡ 4)
    (sum : recved + left ≡ 4) (chunks : AreChunks evs) where
  whole :
      left ≤ length (b ∷ bs)
      → WordIn
          (take recved word)
          left
          (arrived b bs ∷ evs)
          (read_len_loop pkg_len word recved left (arrived b bs ∷ evs))
  unfolding read_len_loop
  whole long =
      let got : Str = take left (b ∷ bs) in
      let size : length got ≡ left = omega (arith, length-take left (b ∷ bs)) in
      let none_left : drop (recved + length got) word ≡ [] =
        drop_all (recved + length got) word (omega (arith, size)) in
      let full : splice word recved got ≡ take recved word ++ take left ((b ∷ bs) ++ stream evs) =
        ap (λ (x : Str). take recved word ++ (got ++ x)) none_left
        ∙ ap (λ (x : Str). take recved word ++ x)
            (append-nil got ∙ sym (take-long left (b ∷ bs) (stream evs) long)) in
      let inside : ltb 4 (recved + length got) ≡ false = ground (arith, size) in
      let last : ((recved + length got) == 4) ≡ true = ground (arith, size) in
      (
        leftover left (b ∷ bs) ++ evs,
        rw (inside, last)
            (ap (λ (w : Str). ret (true, ntohl w, leftover left (b ∷ bs) ++ evs)) full),
        AreChunks-leftover left (b ∷ bs) evs chunks,
        stream-chunk (drop left (b ∷ bs)) evs ∙ sym (drop-long left (b ∷ bs) (stream evs) long),
        length-leftover left (b ∷ bs) evs,
      )

  later :
      length (b ∷ bs) < left
      → WordIn
          (take (recved + length (b ∷ bs)) (splice word recved (b ∷ bs)))
          (left - length (b ∷ bs))
          evs
          (read_len_loop pkg_len
            (splice word recved (b ∷ bs))
            (recved + length (b ∷ bs))
            (left - length (b ∷ bs))
            evs)
      → WordIn
          (take recved word)
          left
          (arrived b bs ∷ evs)
          (read_len_loop pkg_len word recved left (arrived b bs ∷ evs))
  unfolding read_len_loop
  later short (evs', result, chunks', rest, fewer) =
      let got : take left (b ∷ bs) ≡ b ∷ bs = take_all left (b ∷ bs) (omega arith) in
      let inside : ltb 4 (recved + length (b ∷ bs)) ≡ false = ground arith in
      let more : ((recved + length (b ∷ bs)) == 4) ≡ false = ground arith in
      let had : take (recved + length (b ∷ bs)) (splice word recved (b ∷ bs))
          ≡ take recved word ++ (b ∷ bs) =
        take-splice word recved (recved + length (b ∷ bs)) (b ∷ bs) (omega arith) refl in
      let joined : take (recved + length (b ∷ bs)) (splice word recved (b ∷ bs))
            ++ take (left - length (b ∷ bs)) (stream evs)
          ≡ take recved word ++ take left ((b ∷ bs) ++ stream evs) =
        ap (λ (x : Str). x ++ take (left - length (b ∷ bs)) (stream evs)) had
        ∙ (append_assoc (take recved word) (b ∷ bs) (take (left - length (b ∷ bs)) (stream evs))
            ∙ ap (λ (x : Str). take recved word ++ x)
                (sym (take-short left (b ∷ bs) (stream evs) (omega arith)))) in
      (
        evs',
        rw (got, inside, more) (result ∙ ap (λ (w : Str). ret (true, ntohl w, evs')) joined),
        chunks',
        rest ∙ sym (drop-short left (b ∷ bs) (stream evs) (omega arith)),
        omega arith,
      )

pub read_len_loop-WordIn :
    (pkg_len recved left : ℕ) (word : Str) (evs : List Arrival)
    → length word ≡ 4
    → recved + left ≡ 4
    → 0 < left
    → AreChunks evs
    → left ≤ length (stream evs)
    → WordIn (take recved word) left evs (read_len_loop pkg_len word recved left evs)
read_len_loop-WordIn pkg_len recved left word [] four sum pos chunks enough = absurd (omega arith)
read_len_loop-WordIn pkg_len recved left word (closed ∷ evs) four sum pos chunks enough =
    elim chunks [ ]
read_len_loop-WordIn pkg_len recved left word (interrupted e ∷ evs) four sum pos chunks enough =
    elim chunks [ ]
read_len_loop-WordIn pkg_len recved left word (arrived b bs ∷ evs) four sum pos chunks enough =
    elim (Bool-cases (ltb (length (b ∷ bs)) left)) [
      | inr long ↦ whole pkg_len recved left b word bs evs four sum chunks (ground arith)
      | inl short ↦
          (let lt : length (b ∷ bs) < left = ground arith in
            later pkg_len recved left b word bs evs four sum chunks lt (
              read_len_loop-WordIn pkg_len (recved + length (b ∷ bs)) (left - length (b ∷ bs))
                (splice word recved (b ∷ bs)) evs
                (omega (arith, length-splice word recved (b ∷ bs))) (omega arith) (omega arith)
                chunks (omega (arith, length-append (b ∷ bs) (stream evs)))))
    ]
