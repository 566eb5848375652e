-- ===== src/Looper/Deadline.antt =====
-- A call with a timeout, against the other calls of the same event loop.
use rpcframe.Prelude.{
  ℕ, suc, ◌≤◌, ◌<◌, ◌≡◌, ◌≢◌, refl, sym, subst, ap, ◌∙◌, Option, none, some, List, [], ◌∷◌, Str,
  find, erase, str_eq_iff, find-erase, ltb, ◌==◌, arith, ◌⊎◌, inl, inr, Bool-cases,
}
use rpcframe.Package.{cb_timeout}
use rpcframe.CallBack.{CallBack}
use rpcframe.Looper.{Tables, tell, pointer, deal_loop, insert_timer, erase_timers}
use rpcframe.Looper.Expire.{IsAfter, IsSorted, tail-IsSorted}
use rpcframe.Looper.Stop.{deal_loop-cases}

abbrev pub HasTimer : ℕ → Str → List (ℕ × Str) → Type 0
HasTimer tm id [] = ⊥
HasTimer tm id ((t, j) ∷ ts) = ((t ≡ tm) × (j ≡ id)) ⊎ HasTimer tm id ts

-- The call is over, or its timer runs.
abbrev pub IsTimed : ℕ → Str → List (ℕ × Str) → List (Str × Option ℕ) → Type 0
IsTimed tm id ts m = (pointer (find id m) ≡ none) ⊎ HasTimer tm id ts

pub insert_timer-HasTimer :
    (tm t : ℕ) (id j : Str) (ts : List (ℕ × Str))
    → HasTimer tm id ts
    → HasTimer tm id (insert_timer t j ts)
unfolding insert_timer
insert_timer-HasTimer tm t id j [] h = elim h [ ]
insert_timer-HasTimer tm t id j ((t', k) ∷ ts) h = elim (Bool-cases (ltb t t')) [
  | inl before ↦ rw before (inr h)
  | inr behind ↦
      rw behind (elim h [
        | inl here ↦ inl here
        | inr there ↦ inr (insert_timer-HasTimer tm t id j ts there)
      ])
]

pub insert_timer-has_self :
    (tm : ℕ) (id : Str) (ts : List (ℕ × Str)) → HasTimer tm id (insert_timer tm id ts)
unfolding insert_timer
insert_timer-has_self tm id [] = inl (refl, refl)
insert_timer-has_self tm id ((t', k) ∷ ts) = elim (Bool-cases (ltb tm t')) [
  | inl before ↦ rw before (inl (refl, refl))
  | inr behind ↦ rw behind (inr (insert_timer-has_self tm id ts))
]

pub erase_timers-HasTimer :
    (tm t : ℕ) (id : Str) (ts : List (ℕ × Str))
    → t ≢ tm
    → HasTimer tm id ts
    → HasTimer tm id (erase_timers t ts)
unfolding erase_timers
erase_timers-HasTimer tm t id [] ne h = elim h [ ]
erase_timers-HasTimer tm t id ((t', k) ∷ ts) ne h = elim (Bool-cases (t' == t)) [
  | inl same ↦ rw same (elim h [
    | inl here ↦ absurd (ne (ground (arith, here)))
    | inr there ↦ erase_timers-HasTimer tm t id ts ne there
  ])
  | inr other ↦
      rw other (elim h [
        | inl here ↦ inl here
        | inr there ↦ inr (erase_timers-HasTimer tm t id ts ne there)
      ])
]

erase_timers-IsAfter :
    (tm t : ℕ) (ts : List (ℕ × Str)) → IsAfter t ts → IsAfter t (erase_timers tm ts)
unfolding erase_timers
erase_timers-IsAfter tm t [] a = a
erase_timers-IsAfter tm t ((t', k) ∷ ts) a = elim (Bool-cases (t' == tm)) [
  | inl same ↦ rw same (erase_timers-IsAfter tm t ts (lower t t' ts a.0 a.1))
  | inr other ↦ rw other (a.0, erase_timers-IsAfter tm t' ts a.1)
]
  where
    lower : (s s' : ℕ) (xs : List (ℕ × Str)) → s ≤ s' → IsAfter s' xs → IsAfter s xs
    lower s s' [] h b = tt
    lower s s' ((u, j) ∷ xs) h b = (omega arith, b.1)

pub erase_timers-IsSorted :
    (tm : ℕ) (ts : List (ℕ × Str)) → IsSorted ts → IsSorted (erase_timers tm ts)
unfolding erase_timers
erase_timers-IsSorted tm [] s = s
erase_timers-IsSorted tm ((t', k) ∷ ts) s = elim (Bool-cases (t' == tm)) [
  | inl same ↦ rw same (erase_timers-IsSorted tm ts (tail-IsSorted t' ts s))
  | inr other ↦ rw other (erase_timers-IsAfter tm t' ts s)
]

-- A look at the timers.
pub erased :
    (id j : Str) (m : List (Str × Option ℕ))
    → pointer (find id m) ≡ none
    → pointer (find id (erase j m)) ≡ none
erased id j m h = ground (arith, find-erase j id m)

abbrev pub TimedIn : ℕ → Str → Tables → Type 0
TimedIn tm id t = IsSorted t.timers × IsTimed tm id t.timers t.pending

pub deal_loop-IsTimed :
    (tm : ℕ) (id : Str) (clock : ℕ → ℕ) (ts : List (ℕ × Str)) (cbs : List CallBack)
    (m : List (Str × Option ℕ))
    → IsSorted ts
    → IsTimed tm id ts m
    → TimedIn tm id (deal_loop clock ts cbs m)
unfolding deal_loop
deal_loop-IsTimed tm id clock [] cbs m s h = (tt, h)
deal_loop-IsTimed tm id clock ((t, j) ∷ ts) cbs m s h =
    let later : ℕ → ℕ = λ n. clock (suc n) in
    let s' : IsSorted ts = tail-IsSorted t ts s in
    elim (deal_loop-cases clock t j ts cbs m) [
      | inl (gone, e) ↦ subst (TimedIn tm id) (sym e) (
          deal_loop-IsTimed tm id later ts cbs m s' (elim h [
            | inl over ↦ inl over
            | inr (inl here) ↦ inl (ap (λ (x : Str). pointer (find x m)) (sym here.1) ∙ gone)
            | inr (inr there) ↦ inr there
          ]))
      | inr (inl (k, there, e)) ↦ subst (TimedIn tm id) (sym e) (
          deal_loop-IsTimed tm id later ts (tell cb_timeout (some k) cbs) (erase j m) s' (elim h [
            | inl over ↦ inl (erased id j m over)
            | inr (inl here) ↦ inl (ground (arith, find-erase j id m, str_eq_iff j id, here))
            | inr (inr behind) ↦ inr behind
          ]))
      | inr (inr (early, e)) ↦ subst (TimedIn tm id) (sym e) (s, h)
    ]

HasTimer-le :
    (tm t : ℕ) (id : Str) (ts : List (ℕ × Str)) → IsAfter t ts → HasTimer tm id ts → t ≤ tm
HasTimer-le tm t id [] a h = elim h [ ]
HasTimer-le tm t id ((t', k) ∷ ts) a (inl here) = omega (arith, here, a.0)
HasTimer-le tm t id ((t', k) ∷ ts) a (inr there) =
    omega (arith, HasTimer-le tm t' id ts a.1 there, a.0)

abbrev pub OverIn : Str → Tables → Type 0
OverIn id t = pointer (find id t.pending) ≡ none

pub deal_loop-ends :
    (tm : ℕ) (id : Str) (clock : ℕ → ℕ) (ts : List (ℕ × Str)) (cbs : List CallBack)
    (m : List (Str × Option ℕ))
    → ((n : ℕ) → tm < clock n)
    → IsSorted ts
    → IsTimed tm id ts m
    → OverIn id (deal_loop clock ts cbs m)
unfolding deal_loop
deal_loop-ends tm id clock [] cbs m late s h = elim h [
  | inl over ↦ over
  | inr none_left ↦ elim none_left [ ]
]
deal_loop-ends tm id clock ((t, j) ∷ ts) cbs m late s h =
    let later : ℕ → ℕ = λ n. clock (suc n) in
    let late' : (n : ℕ) → tm < later n = λ n. late (suc n) in
    let s' : IsSorted ts = tail-IsSorted t ts s in
    elim (deal_loop-cases clock t j ts cbs m) [
      | inl (gone, e) ↦ subst (OverIn id) (sym e) (
          deal_loop-ends tm id later ts cbs m late' s' (elim h [
            | inl over ↦ inl over
            | inr (inl here) ↦ inl (ap (λ (x : Str). pointer (find x m)) (sym here.1) ∙ gone)
            | inr (inr there) ↦ inr there
          ]))
      | inr (inl (k, there, e)) ↦ subst (OverIn id) (sym e) (
          deal_loop-ends tm id later ts (tell cb_timeout (some k) cbs) (erase j m) late' s'
            (elim h [
              | inl over ↦ inl (erased id j m over)
              | inr (inl here) ↦ inl (ground (arith, find-erase j id m, str_eq_iff j id, here))
              | inr (inr behind) ↦ inr behind
            ]))
      | inr (inr (early, e)) ↦ subst (OverIn id) (sym e) (elim h [
        | inl over ↦ over
        | inr (inl here) ↦ absurd (omega (arith, here, late 0))
        | inr (inr behind) ↦ absurd (omega (arith, HasTimer-le tm t id ts s behind, late 0))
      ])
    ]
