-- ===== src/Looper/Expire.antt =====
-- Which calls RpcEventLooper::dealTimeoutCb ends: the loop against all overdue timers.
use rpcframe.Prelude.{
  ℕ, ◌≤◌, ◌<◌, ◌≡◌, refl, sym, ap, ◌∙◌, Option, none, some, List, [], ◌∷◌, Str, find, erase, ltb,
  if◌then◌else◌, arith, inl, inr, Bool-cases, Option-cases,
}
use rpcframe.Package.{cb_timeout}
use rpcframe.CallBack.{CallBack}
use rpcframe.Looper.{Looper, Tables, tell, deal_loop, deal_timeout_cb, pointer, insert_timer}

-- No timer is earlier than the one in front of it.
abbrev pub IsAfter : ℕ → List (ℕ × Str) → Type 0
IsAfter tm [] = Unit
IsAfter tm ((t, id) ∷ ts) = (tm ≤ t) × IsAfter t ts

abbrev pub IsSorted : List (ℕ × Str) → Type 0
IsSorted [] = Unit
IsSorted ((t, id) ∷ ts) = IsAfter t ts

-- The calls whose time is over, of all timers.
abbrev pub overdue : ℕ → List (ℕ × Str) → List Str
overdue now [] = []
overdue now ((tm, id) ∷ ts) = let ids = overdue now ts in if ltb tm now then id ∷ ids else ids

-- Each of them that is pending is told, and is pending no more.
abbrev pub time_out_calls :
    List Str → List CallBack → List (Str × Option ℕ) → List CallBack × List (Str × Option ℕ)
time_out_calls [] calls pending = (calls, pending)
time_out_calls (id ∷ ids) calls pending = elim (pointer (find id pending)) [
  | none ↦ time_out_calls ids calls pending
  | some i ↦ time_out_calls ids (tell cb_timeout (some i) calls) (erase id pending)
]

none_overdue : (now tm : ℕ) (ts : List (ℕ × Str)) → now ≤ tm → IsAfter tm ts → overdue now ts ≡ []
none_overdue now tm [] h a = refl
none_overdue now tm ((t, id) ∷ ts) h a =
    let rest : overdue now ts ≡ [] = none_overdue now t ts (omega arith) a.1 in ground arith

pub tail-IsSorted : (tm : ℕ) (ts : List (ℕ × Str)) → IsAfter tm ts → IsSorted ts
tail-IsSorted tm [] a = a
tail-IsSorted tm ((t, id) ∷ ts) a = a.1

abbrev told : Tables → List CallBack × List (Str × Option ℕ)
told t = (t.calls, t.pending)

module _ (now tm : ℕ) (id : Str) (ts : List (ℕ × Str)) (calls : List CallBack)
    (pending : List (Str × Option ℕ)) where
  gone :
      pointer (find id pending) ≡ none
      → told (deal_loop (λ n. now) ts calls pending) ≡ time_out_calls (overdue now ts) calls pending
      → told (deal_loop (λ n. now) ((tm, id) ∷ ts) calls pending)
        ≡ time_out_calls (overdue now ((tm, id) ∷ ts)) calls pending
  unfolding deal_loop
  gone e rest = ground arith

  late :
      (i : ℕ)
      → pointer (find id pending) ≡ some i
      → tm < now
      → told (deal_loop (λ n. now) ts (tell cb_timeout (some i) calls) (erase id pending))
        ≡ time_out_calls (overdue now ts) (tell cb_timeout (some i) calls) (erase id pending)
      → told (deal_loop (λ n. now) ((tm, id) ∷ ts) calls pending)
        ≡ time_out_calls (overdue now ((tm, id) ∷ ts)) calls pending
  unfolding deal_loop
  late i e h rest = ground arith

  early :
      (i : ℕ)
      → pointer (find id pending) ≡ some i
      → now ≤ tm
      → IsAfter tm ts
      → told (deal_loop (λ n. now) ((tm, id) ∷ ts) calls pending)
        ≡ time_out_calls (overdue now ((tm, id) ∷ ts)) calls pending
  unfolding deal_loop
  early i e h a =
      let none_left : overdue now ts ≡ [] = none_overdue now tm ts h a in
      let still : deal_loop (λ n. now) ((tm, id) ∷ ts) calls pending
          ≡ record { calls = calls; pending = pending; timers = (tm, id) ∷ ts } =
        ground arith in
      let nothing : overdue now ((tm, id) ∷ ts) ≡ [] = ground arith in
      ap told still ∙ sym (ap (λ ids. time_out_calls ids calls pending) nothing)

deal_loop-overdue :
    (now : ℕ) (ts : List (ℕ × Str)) (calls : List CallBack) (pending : List (Str × Option ℕ))
    → IsSorted ts
    → told (deal_loop (λ n. now) ts calls pending) ≡ time_out_calls (overdue now ts) calls pending
unfolding deal_loop
deal_loop-overdue now [] calls pending s = refl
deal_loop-overdue now ((tm, id) ∷ ts) calls pending s =
    let s' : IsSorted ts = tail-IsSorted tm ts s in
    elim (Option-cases (pointer (find id pending))) [
      | inl e ↦ gone now tm id ts calls pending e (deal_loop-overdue now ts calls pending s')
      | inr (i, e) ↦
          (let rest =
              deal_loop-overdue now ts (tell cb_timeout (some i) calls) (erase id pending) s' in
            elim (Bool-cases (ltb tm now)) [
              | inl h ↦ late now tm id ts calls pending i e (ground arith) rest
              | inr h ↦ early now tm id ts calls pending i e (ground arith) s
            ])
    ]

-- Timers that are in the order of their times: what `dealTimeoutCb` does to the callbacks and to the
-- table of pending calls, while the clock shows one time, is what telling each overdue call that is
-- pending, and taking it out of the table, does. That the loop stops at the first pending call which
-- is not overdue leaves out none.
pub deal_timeout_cb-overdue :
    (now : ℕ) (l : Looper)
    → IsSorted l.cb_timer_map
    → ((deal_timeout_cb (λ n. now) l).cbs, (deal_timeout_cb (λ n. now) l).id_cb_map)
      ≡ time_out_calls (overdue now l.cb_timer_map) l.cbs l.id_cb_map
unfolding deal_timeout_cb
deal_timeout_cb-overdue now l s = deal_loop-overdue now l.cb_timer_map l.cbs l.id_cb_map s

insert_timer-IsAfter :
    (tm t : ℕ) (id : Str) (ts : List (ℕ × Str))
    → t ≤ tm
    → IsAfter t ts
    → IsAfter t (insert_timer tm id ts)
unfolding insert_timer
insert_timer-IsAfter tm t id [] h a = ground arith
insert_timer-IsAfter tm t id ((t', j) ∷ ts) h a = elim (Bool-cases (ltb tm t')) [
  | inl before ↦ (rw before (h, (ground arith, a.1)))
  | inr behind ↦ (rw behind (a.0, insert_timer-IsAfter tm t' id ts (ground arith) a.1))
]

pub insert_timer-IsSorted :
    (tm : ℕ) (id : Str) (ts : List (ℕ × Str)) → IsSorted ts → IsSorted (insert_timer tm id ts)
unfolding insert_timer
insert_timer-IsSorted tm id [] s = _
insert_timer-IsSorted tm id ((t, j) ∷ ts) s = elim (Bool-cases (ltb tm t)) [
  | inl before ↦ (rw before (ground arith, s))
  | inr behind ↦ (rw behind (insert_timer-IsAfter tm t id ts (ground arith) s))
]
