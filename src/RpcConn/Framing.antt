-- ===== src/RpcConn/Framing.antt =====
-- One call of RpcServerRpcConn::getRequest against the stream of bytes that the peer sent.
use rpcframe.Prelude.{
  ℕ, zero, suc, ◌+◌, ◌-◌, ◌≤◌, ◌<◌, ◌≡◌, ◌≢◌, refl, sym, ap, ◌∙◌, Bool, true, false, List, [], ◌∷◌,
  ◌++◌, Str, AreBytes, AreBytes-append, length, take, drop, splice, ◌==◌, Exec, ret, waiting, fault,
  ntohl, ◌⊎◌, inl, inr, append_assoc, arith, length-take, length-splice, take-splice, take_all,
  Bool-cases,
}
use rpcframe.Net.{
  is_again, Arrival, arrived, closed, interrupted, leftover, chunk, stream, stream-leftover,
}
use rpcframe.RpcConn.{read_len_loop}

abbrev pub AllBytes : List Arrival → Type 0
AllBytes [] = Unit
AllBytes (arrived b bs ∷ evs) = AreBytes (b ∷ bs) × AllBytes evs
AllBytes (_ ∷ evs) = AllBytes evs

AreBytes-take : (n : ℕ) (xs : Str) → AreBytes xs → AreBytes (take n xs)
AreBytes-take zero xs h = tt
AreBytes-take (suc n) [] h = tt
AreBytes-take (suc n) (x ∷ xs) h = (h.0, AreBytes-take n xs h.1)

AreBytes-drop : (n : ℕ) (xs : Str) → AreBytes xs → AreBytes (drop n xs)
AreBytes-drop zero xs h = h
AreBytes-drop (suc n) [] h = tt
AreBytes-drop (suc n) (x ∷ xs) h = AreBytes-drop n xs h.1

AllBytes-chunk :
    (xs : Str) (evs : List Arrival) → AreBytes xs → AllBytes evs → AllBytes (chunk xs ++ evs)
AllBytes-chunk [] evs h k = k
AllBytes-chunk (x ∷ xs) evs h k = (h, k)

pub AllBytes-leftover :
    (n : ℕ) (xs : Str) (evs : List Arrival)
    → AreBytes xs
    → AllBytes evs
    → AllBytes (leftover n xs ++ evs)
AllBytes-leftover n xs evs h k = AllBytes-chunk (drop n xs) evs (AreBytes-drop n xs h) k

-- No word: nothing was read.
pub record Nothing (pkg_len : ℕ) (had next : Str) (n : ℕ) (evs : List Arrival) : Type 0 where
  pub same_len : n ≡ pkg_len
  pub none_read : had ≡ []
  pub same : next ≡ stream evs
  pub bytes : AllBytes evs

-- The next four bytes, of which `had` had been read before.
pub record Word (had next : Str) (n : ℕ) (evs : List Arrival) : Type 0 where
  pub w : Str
  pub four : length w ≡ 4
  pub w_bytes : AreBytes w
  pub value : n ≡ ntohl w
  pub split : had ++ next ≡ w ++ stream evs
  pub bytes : AllBytes evs

abbrev pub Found : ℕ → Str → Str → Exec (Bool × ℕ × List Arrival) → Type 0
Found pkg_len had next (ret (false, n, evs)) = n ≡ pkg_len
Found pkg_len had next (ret (true, n, evs)) = Nothing pkg_len had next n evs ⊎ Word had next n evs
Found pkg_len had next waiting = Unit
Found pkg_len had next fault = ⊥

append-ne-nil : (xs : Str) (y : ℕ) (ys : Str) → xs ++ (y ∷ ys) ≢ []
append-ne-nil [] y ys e = cc
append-ne-nil (x ∷ xs) y ys e = cc

-- A chunk that leaves the word incomplete was read whole.
Found-later :
    (pkg_len b : ℕ) (had bs next : Str) (r : Exec (Bool × ℕ × List Arrival))
    → Found pkg_len (had ++ (b ∷ bs)) next r
    → Found pkg_len had ((b ∷ bs) ++ next) r
Found-later pkg_len b had bs next (ret (false, n, evs)) f = f
Found-later pkg_len b had bs next (ret (true, n, evs)) (inl f) =
    absurd (append-ne-nil had b bs f.none_read)
Found-later pkg_len b had bs next (ret (true, n, evs)) (inr f) = inr (record {
  w = f.w;
  four = f.four;
  w_bytes = f.w_bytes;
  value = f.value;
  split = sym (append_assoc had (b ∷ bs) next) ∙ f.split;
  bytes = f.bytes;
})
Found-later pkg_len b had bs next waiting f = f
Found-later pkg_len b had bs next fault f = f

-- What `splice` leaves in the four bytes of the word.
module _ (left : ℕ) (had word bs : Str) (four : length word ≡ 4) (e : had ≡ take (4 - left) word)
    (le : left ≤ 4) where
  abbrev got : Str
  got = take left bs

  fits : 4 - left + length got ≤ 4
  fits = omega (arith, length-take left bs)

  length-word : length (splice word (4 - left) got) ≡ 4
  length-word = omega (arith, fits, length-splice word (4 - left) got)

  word-take : (n : ℕ) → n ≡ 4 - left + length got → had ++ got ≡ take n (splice word (4 - left) got)
  word-take n h = sym (
      take-splice word (4 - left) n got (omega (arith, fits)) h
      ∙ ap (λ (l : Str). l ++ got) (sym e))

  Found-last :
      (pkg_len : ℕ) (evs : List Arrival)
      → left ≤ length bs
      → AreBytes had
      → AreBytes bs
      → AllBytes evs
      → Found pkg_len had
          (bs ++ stream evs)
          (ret (true, ntohl (splice word (4 - left) got), leftover left bs ++ evs))
  Found-last pkg_len evs long hb bb eb =
      let whole : had ++ got ≡ splice word (4 - left) got =
        word-take 4 (omega (arith, length-take left bs))
        ∙ take_all 4 (splice word (4 - left) got) (omega (arith, length-word)) in
      inr (record {
        w = splice word (4 - left) got;
        four = length-word;
        w_bytes = rw (← whole) (AreBytes-append had got hb (AreBytes-take left bs bb));
        value = refl;
        split = rw (← whole) (
            ap (◌++◌ had) (sym (stream-leftover left bs evs))
            ∙ sym (append_assoc had got (stream (leftover left bs ++ evs))));
        bytes = AllBytes-leftover left bs evs bb eb;
      })

pub read_len_loop-Found :
    (pkg_len : ℕ) (had word : Str) (left : ℕ) (evs : List Arrival)
    → length word ≡ 4
    → had ≡ take (4 - left) word
    → 0 < left
    → left ≤ 4
    → AreBytes had
    → AllBytes evs
    → Found pkg_len had (stream evs) (read_len_loop pkg_len word left evs)
unfolding read_len_loop
read_len_loop-Found pkg_len had word left [] four e pos le hb eb = tt
read_len_loop-Found pkg_len had word left (closed ∷ evs) four e pos le hb eb = ground arith
read_len_loop-Found pkg_len had word left (interrupted x ∷ evs) four e pos le hb eb =
    elim (Bool-cases (is_again x)) [
      | inr hard ↦ rw hard refl
      | inl soft ↦ elim (Bool-cases (left == 4)) [
        | inl start ↦
            rw (soft, start)
              (inl (record { same_len = refl; none_read = ground arith; same = refl; bytes = eb }))
        | inr more ↦
            rw (soft, more) (read_len_loop-Found pkg_len had word left evs four e pos le hb eb)
      ]
    ]
read_len_loop-Found pkg_len had word left (arrived b bs ∷ evs) four e pos le hb eb =
    let g : Str = take left (b ∷ bs) in
    elim (Bool-cases ((left - length g) == 0)) [
      | inl done ↦ rw done (
          Found-last left had word (b ∷ bs) four e le pkg_len evs
            (ground (arith, length-take left (b ∷ bs))) hb eb.0 eb.1)
      | inr more ↦
          let short : length (b ∷ bs) < left = ground (arith, length-take left (b ∷ bs)) in
          rw (more, take_all left (b ∷ bs) (omega arith))
            (Found-later pkg_len b had bs (stream evs) _ (
              read_len_loop-Found pkg_len (had ++ (b ∷ bs)) (splice word (4 - left) (b ∷ bs))
                (left - length (b ∷ bs)) evs (omega (arith, length-splice word (4 - left) (b ∷ bs)))
                (rw e (
                  sym (
                    take-splice word (4 - left) (4 - (left - length (b ∷ bs))) (b ∷ bs)
                      (omega arith) (omega arith))))
                (omega arith) (omega arith) (AreBytes-append had (b ∷ bs) hb eb.0) eb.1))
    ]
