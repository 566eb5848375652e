-- ===== src/Looper/Lost.antt =====
-- A send that fails takes the timers of other calls with it.
use rpcframe.Prelude.{
  ℕ, suc, ◌+◌, ◌<◌, ◌≡◌, ◌≢◌, sym, subst, true, Option, some, List, [], ◌∷◌, Str, find, erase,
  str_eq_iff, find-erase, ltb, ◌==◌, arith, inl, inr, Bool-cases,
}
use rpcframe.Package.{RpcStatus, cb_timeout}
use rpcframe.CallBack.{CallBack}
use rpcframe.Looper.{
  Looper, Tables, tell, pointer, deal_loop, deal_timeout_cb, erase_timers, get_cb,
}
use rpcframe.Looper.Stop.{deal_loop-cases}
use rpcframe.Looper.Send.{withdraw}

-- Every timer of the call is at the time `tm`.
abbrev pub AreAt : ℕ → Str → List (ℕ × Str) → Type 0
AreAt tm id [] = Unit
AreAt tm id ((t, j) ∷ ts) = (j ≡ id → t ≡ tm) × AreAt tm id ts

-- The call has no timer.
abbrev pub HasNone : Str → List (ℕ × Str) → Type 0
HasNone id [] = Unit
HasNone id ((t, j) ∷ ts) = (j ≢ id) × HasNone id ts

erase_timers-HasNone :
    (tm : ℕ) (id : Str) (ts : List (ℕ × Str)) → AreAt tm id ts → HasNone id (erase_timers tm ts)
unfolding erase_timers
erase_timers-HasNone tm id [] h = tt
erase_timers-HasNone tm id ((t, j) ∷ ts) (h, hs) = elim (Bool-cases (t == tm)) [
  | inl same ↦ (rw same (erase_timers-HasNone tm id ts hs))
  | inr other ↦ (rw other ((λ e. ground (arith, h e)), erase_timers-HasNone tm id ts hs))
]

abbrev PendingIn : Str → Option ℕ → Tables → Type 0
PendingIn id p t = pointer (find id t.pending) ≡ p

deal_loop-other :
    (id : Str) (p : Option ℕ) (clock : ℕ → ℕ) (ts : List (ℕ × Str)) (cbs : List CallBack)
    (m : List (Str × Option ℕ))
    → HasNone id ts
    → pointer (find id m) ≡ p
    → PendingIn id p (deal_loop clock ts cbs m)
unfolding deal_loop
deal_loop-other id p clock [] cbs m h e = e
deal_loop-other id p clock ((tm, j) ∷ ts) cbs m (ne, h) e =
    let later : ℕ → ℕ = λ n. clock (suc n) in
    elim (deal_loop-cases clock tm j ts cbs m) [
      | inl (gone, same) ↦
          subst (PendingIn id p) (sym same) (deal_loop-other id p later ts cbs m h e)
      | inr (inl (k, there, told)) ↦ subst (PendingIn id p) (sym told) (
          deal_loop-other id p later ts (tell cb_timeout (some k) cbs) (erase j m) h
            (ground (arith, find-erase j id m, str_eq_iff j id)))
      | inr (inr (early, stop)) ↦ subst (PendingIn id p) (sym stop) e
    ]

-- A call `id` is pending, and its time is over at `now + timeout`, as that of another call whose send
-- fails is. Then `id` is pending after any later look at the timers, at whatever time.
pub withdraw-drops_timers :
    (st : RpcStatus) (i k : ℕ) (id other : Str) (timeout now : ℕ) (clock : ℕ → ℕ) (l : Looper)
    → 0 < timeout
    → other ≢ id
    → get_cb id l ≡ some k
    → AreAt (now + timeout) id l.cb_timer_map
    → get_cb id (deal_timeout_cb clock (withdraw st (some i) other timeout now l)) ≡ some k
unfolding get_cb deal_timeout_cb withdraw
withdraw-drops_timers st i k id other timeout now clock l pos ne e at =
    let timed : ltb 0 timeout ≡ true = ground arith in
    rw timed (
      deal_loop-other id (some k) clock (erase_timers (now + timeout) l.cb_timer_map)
        (tell st (some i) l.cbs) (erase other l.id_cb_map)
        (erase_timers-HasNone (now + timeout) id l.cb_timer_map at)
        (ground (arith, find-erase other id l.id_cb_map, str_eq_iff other id)))
