-- ===== src/Looper/Select.antt =====
-- Which connection RpcEventLooper::tryGetAvaliableConn gives.
use rpcframe.Prelude.{
  ℕ, zero, suc, ◌+◌, ◌-◌, ◌%◌, ◌≤◌, ◌<◌, ◌≡◌, ◌≢◌, refl, sym, subst, ap, ◌∙◌, Bool, true, false,
  Option, none, some, List, [], ◌∷◌, Str, length, get_elem?, find, assign, find-assign, str_eq_iff,
  ltb, ◌==◌, ret, Returns, arith, inl, inr, ◌⊎◌, Bool-cases, Option-cases,
}
use native.Mathlib.Nat.{mod-lt, mod-eq_of_lt, add-mod_right}
use rpcframe.ClientConn.{ClientConn}
use rpcframe.ClientConn.Connect.{connect, connect_host, should_retry, is_valid}
use rpcframe.Looper.{Looper}
use rpcframe.Looper.Conns.{
  Dial, put, add_connection, look, select, conn_at, ep_at, retry, try_get_avaliable_conn,
}

-- The endpoint of the configuration has a connection.
abbrev pub AllHaveConns : List Str → List (Str × ClientConn) → Type 0
AllHaveConns [] conns = Unit
AllHaveConns (ep ∷ eps) conns = (find ep conns ≢ none) × AllHaveConns eps conns

-- The connection of `ep` is one over which can be sent.
abbrev pub IsUp : Option ClientConn → Type 0
IsUp none = ⊥
IsUp (some c) = c.fd ≢ none

abbrev pub IsUpIn : Option Str × Looper → Type 0
IsUpIn (none, l) = ⊥
IsUpIn (some ep, l) = IsUp (find ep l.ep_conn_map)

put-ep_conn_map :
    (ep : Str) (r : Bool × ClientConn) (l : Looper)
    → (put ep r l).ep_conn_map ≡ assign ep r.1 l.ep_conn_map
unfolding add_connection
put-ep_conn_map ep (true, c) l = ground arith
put-ep_conn_map ep (false, c) l = refl

put-eps : (ep : Str) (r : Bool × ClientConn) (l : Looper) → (put ep r l).eps ≡ l.eps
unfolding add_connection
put-eps ep (true, c) l = ground arith
put-eps ep (false, c) l = refl

is_valid-fd : (c : ClientConn) → is_valid c ≡ true → c.fd ≢ none
unfolding is_valid
is_valid-fd c h e = ground arith

retry-fd :
    (now : ℕ) (d : Dial) (c : ClientConn) → (retry now d c).0 ≡ true → (retry now d c).1.fd ≢ none
unfolding retry connect should_retry connect_host
retry-fd now d c h e = ground arith

AllHaveConns-assign :
    (ep : Str) (c : ClientConn) (eps : List Str) (conns : List (Str × ClientConn))
    → AllHaveConns eps conns
    → AllHaveConns eps (assign ep c conns)
AllHaveConns-assign ep c [] conns h = tt
AllHaveConns-assign ep c (e ∷ eps) conns (h, hs) =
    ((λ eq. ground (arith, find-assign ep e c conns, h)), AllHaveConns-assign ep c eps conns hs)

has_conn :
    (eps : List Str) (i : ℕ) (e : Str) (conns : List (Str × ClientConn))
    → AllHaveConns eps conns
    → get_elem? eps i ≡ some e
    → (c : ClientConn) × (conn_at (some e) conns ≡ some (e, c)) × (find e conns ≡ some c)
unfolding conn_at
has_conn [] i e conns h eq = cc
has_conn (x ∷ eps) zero e conns (h, hs) eq = elim (Option-cases (find e conns)) [
  | inl missing ↦ absurd (h (ground arith))
  | inr (c, there) ↦ (c, ground arith, there)
]
has_conn (x ∷ eps) (suc i) e conns (h, hs) eq = has_conn eps i e conns hs eq

elem_at : (eps : List Str) (i : ℕ) → i < length eps → (e : Str) × (get_elem? eps i ≡ some e)
elem_at [] i h = absurd (omega arith)
elem_at (x ∷ eps) zero h = (x, refl)
elem_at (x ∷ eps) (suc i) h = elem_at eps i (omega arith)

elem-lt : (eps : List Str) (i : ℕ) (e : Str) → get_elem? eps i ≡ some e → i < length eps
elem-lt [] i e eq = cc
elem-lt (x ∷ eps) zero e eq = omega arith
elem-lt (x ∷ eps) (suc i) e eq = omega (arith, elem-lt eps i e eq)

-- Going round, every place is reached.
distance : (k n len : ℕ) → k < len → n < len → (d : ℕ) × (d < len) × ((n + d) % len ≡ k)
distance k n len hk hn = elim (Bool-cases (ltb k n)) [
  | inl wraps ↦
      (let round : n + (k + len - n) ≡ k + len = ground arith in
        (
          k + len - n,
          ground arith,
          ap (λ (m : ℕ). m % len) round ∙ (add-mod_right k len ∙ mod-eq_of_lt hk),
        ))
  | inr straight ↦
      (let ahead : n + (k - n) ≡ k = ground arith in
        (k - n, ground arith, ap (λ (m : ℕ). m % len) ahead ∙ mod-eq_of_lt hk))
]

true-ne-false : true ≢ false
true-ne-false e = cc

module _ (now : ℕ) (dial : Str → Dial) where
  look-cases :
      (e : Str) (c : ClientConn) (l : Looper)
      → ((is_valid c ≡ true) × (look now dial (some (e, c)) l ≡ ret (some e, l)))
        ⊎ ((is_valid c ≡ false)
            × ((((retry now (dial e) c).0 ≡ true)
                  × (look now dial (some (e, c)) l ≡ ret (some e, put e (retry now (dial e) c) l)))
                ⊎ (((retry now (dial e) c).0 ≡ false)
                    × (look now dial (some (e, c)) l
                        ≡ ret (none, put e (retry now (dial e) c) l)))))
  unfolding look
  look-cases e c l = ground arith

  retried-Up :
      (e : Str) (c : ClientConn) (l : Looper)
      → (retry now (dial e) c).0 ≡ true
      → IsUp (find e (put e (retry now (dial e) c) l).ep_conn_map)
  retried-Up e c l up =
      let r : Bool × ClientConn = retry now (dial e) c in
      let found : find e (put e r l).ep_conn_map ≡ some r.1 =
        ground (arith, put-ep_conn_map e r l, find-assign e e r.1 l.ep_conn_map, str_eq_iff e e) in
      rw found (retry-fd now (dial e) c up)

  -- `good` is valid, and it is `d` moves away.
  abbrev Ahead : ℕ → ℕ → Str → ClientConn → Looper → Type 0
  Ahead d n good g l =
      (ep_at (n + d) l ≡ some good)
      × (find good l.ep_conn_map ≡ some g)
      × (is_valid g ≡ true)
      × AllHaveConns l.eps l.ep_conn_map

  moved :
      (d n : ℕ) (good e : Str) (g c : ClientConn) (l : Looper)
      → Ahead (suc d) n good g l
      → find e l.ep_conn_map ≡ some c
      → is_valid c ≡ false
      → Ahead d (suc n) good g (put e (retry now (dial e) c) l)
  unfolding ep_at
  moved d n good e g c l (at, there, valid, all) this invalid =
      let r : Bool × ClientConn = retry now (dial e) c in
      let index : suc n + d ≡ n + suc d = omega arith in
      let there' : find good (put e r l).ep_conn_map ≡ some g =
        ground
          (arith, put-ep_conn_map e r l, find-assign e good r.1 l.ep_conn_map, str_eq_iff e good) in
      let all' : AllHaveConns (put e r l).eps (put e r l).ep_conn_map =
        subst (λ (eps : List Str). AllHaveConns eps (put e r l).ep_conn_map) (sym (put-eps e r l))
          (subst (AllHaveConns l.eps) (sym (put-ep_conn_map e r l))
            (AllHaveConns-assign e r.1 l.eps l.ep_conn_map all)) in
      (
        ap (λ (eps : List Str). get_elem? eps ((suc n + d) % length eps)) (put-eps e r l)
            ∙ (ap (λ (m : ℕ). get_elem? l.eps (m % length l.eps)) index ∙ at),
        there',
        valid,
        all',
      )

  -- The connection at which the loop looks.
  here :
      (n : ℕ) (l : Looper)
      → 0 < length l.eps
      → AllHaveConns l.eps l.ep_conn_map
      → (e : Str) × (c : ClientConn) × (ep_at n l ≡ some e)
        × (conn_at (some e) l.ep_conn_map ≡ some (e, c))
        × (find e l.ep_conn_map ≡ some c)
  unfolding ep_at
  here n l pos all =
      let (e, at) = elem_at l.eps (n % length l.eps) (mod-lt n pos) in
      let (c, found, there) = has_conn l.eps (n % length l.eps) e l.ep_conn_map all at in
      (e, c, at, found, there)

  -- The loop does not pass the connection that it heads for.
  not_passed :
      (n : ℕ) (good e : Str) (g c : ClientConn) (l : Looper)
      → Ahead 0 n good g l
      → ep_at n l ≡ some e
      → find e l.ep_conn_map ≡ some c
      → is_valid c ≡ true
  not_passed n good e g c l (aim, good_there, valid, all) at there =
      let index : n + 0 ≡ n = omega arith in
      let same : e ≡ good = ground (arith, ap (λ (m : ℕ). ep_at m l) index) in ground arith

  chosen :
      (left d n : ℕ) (good : Str) (g : ClientConn) (l : Looper)
      → 0 < length l.eps
      → d ≤ left
      → Ahead d n good g l
      → Returns IsUpIn (select now dial left n l)
  unfolding select
  chosen zero (suc d) n good g l pos h a = absurd (omega arith)
  chosen zero zero n good g l pos h a =
      let (e, c, at, found, there) = here n l pos a.3 in
      elim (look-cases e c l) [
        | inl (v, result) ↦ rw (at, found, result, there) (is_valid-fd c v)
        | inr (v, inl (up, result)) ↦ rw (at, found, result) (retried-Up e c l up)
        | inr (v, inr (down, result)) ↦
            absurd (true-ne-false (sym (not_passed n good e g c l a at there) ∙ v))
      ]
  chosen (suc left) d n good g l pos h a =
      let (e, c, at, found, there) = here n l pos a.3 in
      elim (look-cases e c l) [
        | inl (v, result) ↦ rw (at, found, result, there) (is_valid-fd c v)
        | inr (v, inl (up, result)) ↦ rw (at, found, result) (retried-Up e c l up)
        | inr (v, inr (down, result)) ↦
            rw (at, found, result)
              (elim d
                  as (λ k.
                    k ≤ suc left
                    → Ahead k n good g l
                    → Returns IsUpIn
                        (select now dial left (suc n) (put e (retry now (dial e) c) l))) [
                          | zero ↦ λ b a'.
                              absurd
                                (true-ne-false (sym (not_passed n good e g c l a' at there) ∙ v))
                          | suc k ↦ λ b a'.
                              chosen left k (suc n) good g (put e (retry now (dial e) c) l)
                                (subst (λ (eps : List Str). 0 < length eps)
                                  (sym (put-eps e (retry now (dial e) c) l)) pos)
                                (omega arith) (moved k n good e g c l a' there v)
                        ]
                h a)
      ]

-- Every endpoint of the configuration has a connection, and that of the `k`-th is valid. Then
-- `tryGetAvaliableConn` gives a connection with a descriptor: the loop gives up only after it has
-- looked at each of them.
pub try_get_avaliable_conn-Up :
    (now : ℕ) (dial : Str → Dial) (l : Looper) (k : ℕ) (ep : Str) (c : ClientConn)
    → AllHaveConns l.eps l.ep_conn_map
    → get_elem? l.eps k ≡ some ep
    → find ep l.ep_conn_map ≡ some c
    → is_valid c ≡ true
    → Returns IsUpIn (try_get_avaliable_conn now dial l)
unfolding try_get_avaliable_conn ep_at
try_get_avaliable_conn-Up now dial l k ep c all at there valid =
    let bound : k < length l.eps = elem-lt l.eps k ep at in
    let start : l.req_seqid % length l.eps < length l.eps = mod-lt l.req_seqid (omega arith) in
    let some_ep : (length l.eps == 0) ≡ false = ground arith in
    let (d, near, e) = distance k (l.req_seqid % length l.eps) (length l.eps) bound start in
    rw some_ep (
      chosen now dial (suc (length l.eps)) d (l.req_seqid % length l.eps) ep c l (omega arith)
        (omega arith) (ap (get_elem? l.eps) e ∙ at, there, valid, all))
