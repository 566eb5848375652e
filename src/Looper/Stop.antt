-- ===== src/Looper/Stop.antt =====
-- A look at the timers, and what the end of the event loop tells the callbacks.
use rpcframe.Prelude.{
  ◌≤◌, ℕ, zero, suc, ◌≡◌, sym, true, ◌||◌, Option, none, some, List, [], ◌∷◌, Str, get_elem?, find,
  arith, str_eq, str_eq_iff, find-erase, erase, ltb, subst, ◌⊎◌, inl, inr, Bool-cases, Option-cases,
}
use rpcframe.Package.{RpcStatus, disconnected, cb_timeout}
use rpcframe.CallBack.{CallBack, callback_safe}
use rpcframe.Looper.{
  Tables, deal_loop, Looper, modify, tell, tell_all, pointer, remove_all_connections,
}

-- It was called, or it takes any number of calls.
abbrev IsSettled : Option CallBack → Type 0
IsSettled none = Unit
IsSettled (some cb) = (cb.is_done || cb.is_shared) ≡ true

callback_safe-settles :
    (st : ℕ) (d : Str) (cb : CallBack) → IsSettled (some (callback_safe st d cb))
unfolding callback_safe
callback_safe-settles st d cb = ground arith

modify-settles :
    (st : ℕ) (d : Str) (i : ℕ) (cbs : List CallBack)
    → IsSettled (get_elem? (modify i (callback_safe st d) cbs) i)
modify-settles st d i [] = _
modify-settles st d zero (cb ∷ cbs) = callback_safe-settles st d cb
modify-settles st d (suc i) (cb ∷ cbs) = modify-settles st d i cbs

modify-keeps :
    (st : ℕ) (d : Str) (j i : ℕ) (cbs : List CallBack)
    → IsSettled (get_elem? cbs i)
    → IsSettled (get_elem? (modify j (callback_safe st d) cbs) i)
modify-keeps st d j i [] h = h
modify-keeps st d zero zero (cb ∷ cbs) h = callback_safe-settles st d cb
modify-keeps st d zero (suc i) (cb ∷ cbs) h = h
modify-keeps st d (suc j) zero (cb ∷ cbs) h = h
modify-keeps st d (suc j) (suc i) (cb ∷ cbs) h = modify-keeps st d j i cbs h

tell-keeps :
    (st : RpcStatus) (p : Option ℕ) (i : ℕ) (cbs : List CallBack)
    → IsSettled (get_elem? cbs i)
    → IsSettled (get_elem? (tell st p cbs) i)
unfolding tell
tell-keeps st none i cbs h = h
tell-keeps st (some j) i cbs h = modify-keeps _ [] j i cbs h

tell_all-keeps :
    (m : List (Str × Option ℕ)) (i : ℕ) (cbs : List CallBack)
    → IsSettled (get_elem? cbs i)
    → IsSettled (get_elem? (tell_all m cbs) i)
unfolding tell_all
tell_all-keeps [] i cbs h = h
tell_all-keeps ((id, p) ∷ m) i cbs h =
    tell_all-keeps m i (tell disconnected p cbs) (tell-keeps disconnected p i cbs h)

tell-settles :
    (st : RpcStatus) (p : Option ℕ) (i : ℕ) (cbs : List CallBack)
    → p ≡ some i
    → IsSettled (get_elem? (tell st p cbs) i)
unfolding tell
tell-settles st none i cbs e = cc
tell-settles st (some j) i cbs e =
    let same : j ≡ i = ground arith in
    subst (λ (k : ℕ). IsSettled (get_elem? (tell st (some k) cbs) i)) (sym same)
      (modify-settles _ [] i cbs)

tell_all-settles :
    (id : Str) (m : List (Str × Option ℕ)) (i : ℕ) (cbs : List CallBack)
    → pointer (find id m) ≡ some i
    → IsSettled (get_elem? (tell_all m cbs) i)
unfolding tell_all find
tell_all-settles id [] i cbs e = cc
tell_all-settles id ((j, p) ∷ m) i cbs e = elim (Bool-cases (str_eq j id)) [
  | inl this ↦
      tell_all-keeps m i (tell disconnected p cbs)
        (tell-settles disconnected p i cbs (ground arith))
  | inr next ↦ tell_all-settles id m i (tell disconnected p cbs) (ground arith)
]

-- The callback `i` waits for the call `id`, or needs no answer any more.
abbrev IsKept : Str → ℕ → List CallBack → List (Str × Option ℕ) → Type 0
IsKept id i cbs m = (pointer (find id m) ≡ some i) ⊎ IsSettled (get_elem? cbs i)

timed_out-IsKept :
    (id j : Str) (i k : ℕ) (cbs : List CallBack) (m : List (Str × Option ℕ))
    → pointer (find j m) ≡ some k
    → IsKept id i cbs m
    → IsKept id i (tell cb_timeout (some k) cbs) (erase j m)
timed_out-IsKept id j i k cbs m e (inr h) = inr (tell-keeps cb_timeout (some k) i cbs h)
timed_out-IsKept id j i k cbs m e (inl h) = elim (Bool-cases (str_eq j id)) [
  | inl this ↦ inr (tell-settles cb_timeout (some k) i cbs (ground (arith, str_eq_iff j id)))
  | inr next ↦ inl (ground (arith, find-erase j id m))
]

-- What the loop of `dealTimeoutCb` does at a timer.
pub deal_loop-cases :
    (clock : ℕ → ℕ) (tm : ℕ) (j : Str) (ts : List (ℕ × Str)) (cbs : List CallBack)
    (m : List (Str × Option ℕ))
    → ((pointer (find j m) ≡ none)
        × (deal_loop clock ((tm, j) ∷ ts) cbs m ≡ deal_loop (λ n. clock (suc n)) ts cbs m))
      ⊎ (((k : ℕ) × (pointer (find j m) ≡ some k)
            × (deal_loop clock ((tm, j) ∷ ts) cbs m
                ≡ deal_loop (λ n. clock (suc n)) ts (tell cb_timeout (some k) cbs) (erase j m)))
          ⊎ ((clock 0 ≤ tm)
              × (deal_loop clock ((tm, j) ∷ ts) cbs m
                  ≡ record { calls = cbs; pending = m; timers = (tm, j) ∷ ts })))
unfolding deal_loop
deal_loop-cases clock tm j ts cbs m = elim (Option-cases (pointer (find j m))) [
  | inl gone ↦ inl (gone, ground arith)
  | inr (k, there) ↦ (elim (Bool-cases (ltb tm (clock 0))) [
    | inl late ↦ inr (inl (k, there, ground arith))
    | inr early ↦ inr (inr (ground arith, ground arith))
  ])
]

abbrev KeptIn : Str → ℕ → Tables → Type 0
KeptIn id i t = IsKept id i t.calls t.pending

deal_loop-IsKept :
    (id : Str) (i : ℕ) (clock : ℕ → ℕ) (ts : List (ℕ × Str)) (cbs : List CallBack)
    (m : List (Str × Option ℕ))
    → IsKept id i cbs m
    → KeptIn id i (deal_loop clock ts cbs m)
unfolding deal_loop
deal_loop-IsKept id i clock [] cbs m h = h
deal_loop-IsKept id i clock ((tm, j) ∷ ts) cbs m h =
    let later : ℕ → ℕ = λ n. clock (suc n) in
    elim (deal_loop-cases clock tm j ts cbs m) [
      | inl (gone, e) ↦ subst (KeptIn id i) (sym e) (deal_loop-IsKept id i later ts cbs m h)
      | inr (inl (k, there, e)) ↦ subst (KeptIn id i) (sym e) (
          deal_loop-IsKept id i later ts (tell cb_timeout (some k) cbs) (erase j m)
            (timed_out-IsKept id j i k cbs m there h))
      | inr (inr (early, e)) ↦ subst (KeptIn id i) (sym e) h
    ]

all_told :
    (id : Str) (i : ℕ) (l : Looper)
    → IsKept id i l.cbs l.id_cb_map
    → IsSettled (get_elem? (remove_all_connections l).cbs i)
unfolding remove_all_connections
all_told id i l (inl h) = tell_all-settles id l.id_cb_map i l.cbs h
all_told id i l (inr h) = tell_all-keeps l.id_cb_map i l.cbs h
