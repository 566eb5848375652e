-- ===== src/CallBack/Once.antt =====
-- A callback that is not shared hears of its call once.
use rpcframe.Prelude.{
  Exec, ret, ℕ, ◌≡◌, refl, sym, ap, ◌∙◌, true, false, some, List, [], ◌∷◌, ◌++◌, Str, take, fault,
  arith, append-nil,
}
use rpcframe.Package.{cb_timeout, status_code}
use rpcframe.CallBack.{CallBack, Blocker, make_blocker, callback_safe, make, wait, woken, timed_out}

-- What threads tell a callback, in the order in which they get its lock.
abbrev pub tell : List (ℕ × Str) → CallBack → CallBack
tell [] cb = cb
tell ((st, d) ∷ es) cb = tell es (callback_safe st d cb)

told :
    (st : ℕ) (d : Str) (cb : CallBack)
    → cb.is_shared ≡ false
    → cb.is_done ≡ true
    → callback_safe st d cb ≡ cb
unfolding callback_safe
told st d cb own done = ground arith

settled :
    (es : List (ℕ × Str)) (cb : CallBack)
    → cb.is_shared ≡ false
    → cb.is_done ≡ true
    → tell es cb ≡ cb
settled [] cb own done = refl
settled ((st, d) ∷ es) cb own done = ap (tell es) (told st d cb own done) ∙ settled es cb own done

-- A response, a timeout and the end of the connection may all come, in any order. A callback that is
-- not shared and was not called is called with the first of them and with no other, and a blocker
-- keeps what the first one brought.
pub called_once :
    (es : List (ℕ × Str)) (cb : CallBack)
    → cb.is_shared ≡ false
    → cb.is_done ≡ false
    → ((tell es cb).calls ≡ cb.calls ++ take 1 es)
      × ((tell es cb).blocker ≡ (tell (take 1 es) cb).blocker)
unfolding callback_safe
called_once [] cb own first = (sym (append-nil cb.calls), refl)
called_once ((st, d) ∷ es) cb own first =
    let cb' : CallBack = callback_safe st d cb in
    let still : tell es cb' ≡ cb' = settled es cb' (ground arith) (ground arith) in
    (ap (λ (c : CallBack). c.calls) still ∙ ground arith, ap (λ (c : CallBack). c.blocker) still)

-- The first answer, which a wait that finds none takes from a status that was never set.
abbrev pub first_of : List (ℕ × Str) → Exec (ℕ × Str)
first_of [] = fault
first_of (e ∷ es) = ret e

-- What the data is before the callback is called.
abbrev pub data_of : List (ℕ × Str) → Str
data_of [] = []
data_of ((st, d) ∷ es) = d

abbrev answered : ℕ → Str → Blocker
answered st d = record { done = true; resp_data = d; cb_st = some st }

told-blocker :
    (timeout st : ℕ) (d : Str) (es : List (ℕ × Str))
    → (tell ((st, d) ∷ es) (make_blocker timeout)).blocker ≡ some (answered st d)
unfolding make_blocker make callback_safe
told-blocker timeout st d es = (called_once ((st, d) ∷ es) (make_blocker timeout) refl refl).1

-- A blocker is told `es` before its `wait` and `es'` while it waits. A wait that is woken returns the
-- first of all these answers. One whose time is over returns the first of `es` or, where there is none,
-- a timeout, with the data that came by then. The wait is not guarded by `done`: if it is woken before any
-- answer came, it reads a status that was never set.
pub wait_lem :
    (timeout : ℕ) (es es' : List (ℕ × Str)) (b b' : Blocker)
    → (tell es (make_blocker timeout)).blocker ≡ some b
    → (tell (es ++ es') (make_blocker timeout)).blocker ≡ some b'
    → (wait b (some (woken b')) ≡ first_of (es ++ es'))
      × (wait b (some (timed_out b'))
          ≡ (elim es [ [] ↦ ret (status_code cb_timeout, data_of es') | ◌∷◌ e es ↦ ret e ]))
unfolding make_blocker wait
wait_lem timeout [] [] b b' e e' = (ground arith, ground arith)
wait_lem timeout [] ((st, d) ∷ es') b b' e e' =
    let found = told-blocker timeout st d es' in (ground (arith, found), ground (arith, found))
wait_lem timeout ((st, d) ∷ es) es' b b' e e' =
    let found = told-blocker timeout st d es in (ground (arith, found), ground (arith, found))
