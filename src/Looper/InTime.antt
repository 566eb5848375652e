-- ===== src/Looper/InTime.antt =====
-- A call with a timeout does not outlive it, whatever the other calls of the event loop do.
use rpcframe.Prelude.{
  ℕ, ◌+◌, ◌<◌, ◌≡◌, ◌≢◌, refl, sym, subst, Option, none, some, Str, find, emplace, str_eq_iff,
  find-emplace, ltb, arith, inl, inr, Bool-cases, true,
}
use rpcframe.Package.{RpcStatus}
use rpcframe.Looper.{Looper, deal_timeout_cb, get_cb, remove_cb, remove_all_connections}
use rpcframe.Looper.Expire.{IsSorted, insert_timer-IsSorted}
use rpcframe.Looper.Send.{register, withdraw}
use rpcframe.Looper.Deadline.{
  IsTimed, insert_timer-HasTimer, insert_timer-has_self, erase_timers-HasTimer,
  erase_timers-IsSorted, erased, deal_loop-IsTimed, deal_loop-ends,
}

-- What happens while the call `id`, whose time is over at `tm`, may be pending: other calls are sent,
-- and sends fail, but not for a call that ends at that time; responses come, to any call; the loop
-- looks at the timers; connections are lost; and the rest of the loop's state changes.
pub data Moves (id : Str) (tm : ℕ) : Looper → Looper → Type 0 where
  here : {l : Looper} → Moves id tm l l
  sends :
      {l l' : Looper} (p : Option ℕ) (other : Str) (timeout now : ℕ)
      → other ≢ id
      → Moves id tm (register p other timeout now l) l'
      → Moves id tm l l'
  fails :
      {l l' : Looper} (st : RpcStatus) (p : Option ℕ) (other : Str) (timeout now : ℕ)
      → now + timeout ≢ tm
      → Moves id tm (withdraw st p other timeout now l) l'
      → Moves id tm l l'
  answers : {l l' : Looper} (other : Str) → Moves id tm (remove_cb other l) l' → Moves id tm l l'
  looks :
      {l l' : Looper} (clock : ℕ → ℕ) → Moves id tm (deal_timeout_cb clock l) l' → Moves id tm l l'
  breaks : {l l' : Looper} → Moves id tm (remove_all_connections l) l' → Moves id tm l l'
  elsewhere :
      {l l' : Looper} (m : Looper)
      → m.cb_timer_map ≡ l.cb_timer_map
      → m.id_cb_map ≡ l.id_cb_map
      → Moves id tm m l'
      → Moves id tm l l'

pub record InTime (tm : ℕ) (id : Str) (l : Looper) : Type 0 where
  pub sorted : IsSorted l.cb_timer_map
  pub timed : IsTimed tm id l.cb_timer_map l.id_cb_map

module _ (tm : ℕ) (id : Str) (l : Looper) (h : InTime tm id l) where
  sends-InTime :
      (p : Option ℕ) (other : Str) (timeout now : ℕ)
      → other ≢ id
      → InTime tm id (register p other timeout now l)
  unfolding register
  sends-InTime none other timeout now ne = h
  sends-InTime (some i) other timeout now ne =
      let same : find id (emplace other (some i) l.id_cb_map) ≡ find id l.id_cb_map =
        ground (arith, find-emplace other id (some i) l.id_cb_map, str_eq_iff other id) in
      elim (Bool-cases (ltb 0 timeout)) [
        | inl some_time ↦ record {
          sorted =
              rw some_time (insert_timer-IsSorted (now + timeout) other l.cb_timer_map h.sorted);
          timed =
              rw (some_time, same)
                (elim h.timed [
                  | inl over ↦ inl over
                  | inr there ↦
                      inr (insert_timer-HasTimer tm (now + timeout) id other l.cb_timer_map there)
                ]);
        }
        | inr no_time ↦ record { sorted = rw no_time h.sorted; timed = rw (no_time, same) h.timed }
      ]

  fails-InTime :
      (st : RpcStatus) (p : Option ℕ) (other : Str) (timeout now : ℕ)
      → now + timeout ≢ tm
      → InTime tm id (withdraw st p other timeout now l)
  unfolding withdraw
  fails-InTime st none other timeout now ne = h
  fails-InTime st (some i) other timeout now ne = elim (Bool-cases (ltb 0 timeout)) [
    | inl some_time ↦ record {
      sorted = rw some_time (erase_timers-IsSorted (now + timeout) l.cb_timer_map h.sorted);
      timed = rw some_time (elim h.timed [
        | inl over ↦ inl (erased id other l.id_cb_map over)
        | inr there ↦ inr (erase_timers-HasTimer tm (now + timeout) id l.cb_timer_map ne there)
      ]);
    }
    | inr no_time ↦ record {
      sorted = rw no_time h.sorted;
      timed = rw no_time (elim h.timed [
        | inl over ↦ inl (erased id other l.id_cb_map over)
        | inr there ↦ inr there
      ]);
    }
  ]

  answers-InTime : (other : Str) → InTime tm id (remove_cb other l)
  unfolding remove_cb
  answers-InTime other = record {
    sorted = h.sorted;
    timed = elim h.timed [
      | inl over ↦ inl (erased id other l.id_cb_map over)
      | inr there ↦ inr there
    ];
  }

  looks-InTime : (clock : ℕ → ℕ) → InTime tm id (deal_timeout_cb clock l)
  unfolding deal_timeout_cb
  looks-InTime clock =
      let (sorted, timed) =
        deal_loop-IsTimed tm id clock l.cb_timer_map l.cbs l.id_cb_map h.sorted h.timed in
      record { sorted = sorted; timed = timed }

  breaks-InTime : InTime tm id (remove_all_connections l)
  unfolding remove_all_connections find
  breaks-InTime = record { sorted = tt; timed = inl refl }

  elsewhere-InTime :
      (m : Looper) → m.cb_timer_map ≡ l.cb_timer_map → m.id_cb_map ≡ l.id_cb_map → InTime tm id m
  elsewhere-InTime m t i = record {
    sorted = subst IsSorted (sym t) h.sorted;
    timed =
        subst (λ x. IsTimed tm id x m.id_cb_map) (sym t)
          (subst (λ x. IsTimed tm id l.cb_timer_map x) (sym i) h.timed);
  }

Moves-InTime :
    (tm : ℕ) (id : Str) {l l' : Looper} → Moves id tm l l' → InTime tm id l → InTime tm id l'
Moves-InTime tm id here h = h
Moves-InTime tm id (sends {l = l} p other timeout now ne m) h =
    Moves-InTime tm id m (sends-InTime tm id l h p other timeout now ne)
Moves-InTime tm id (fails {l = l} st p other timeout now ne m) h =
    Moves-InTime tm id m (fails-InTime tm id l h st p other timeout now ne)
Moves-InTime tm id (answers {l = l} other m) h =
    Moves-InTime tm id m (answers-InTime tm id l h other)
Moves-InTime tm id (looks {l = l} clock m) h = Moves-InTime tm id m (looks-InTime tm id l h clock)
Moves-InTime tm id (breaks {l = l} m) h = Moves-InTime tm id m (breaks-InTime tm id l h)
Moves-InTime tm id (elsewhere {l = l} k t i m) h =
    Moves-InTime tm id m (elsewhere-InTime tm id l h k t i)

-- A call with a timeout is sent, and anything of `Moves` happens in any order. When the loop then
-- looks at the timers after the call's time is over, the call is pending no more.
pub over_in_time :
    (i : ℕ) (id : Str) (timeout now : ℕ) (clock : ℕ → ℕ) (l l' : Looper)
    → IsSorted l.cb_timer_map
    → 0 < timeout
    → Moves id (now + timeout) (register (some i) id timeout now l) l'
    → ((n : ℕ) → now + timeout < clock n)
    → get_cb id (deal_timeout_cb clock l') ≡ none
unfolding register get_cb deal_timeout_cb
over_in_time i id timeout now clock l l' s pos moves late =
    let some_time : ltb 0 timeout ≡ true = ground arith in
    let start : InTime (now + timeout) id (register (some i) id timeout now l) = record {
      sorted = rw some_time (insert_timer-IsSorted (now + timeout) id l.cb_timer_map s);
      timed = rw some_time (inr (insert_timer-has_self (now + timeout) id l.cb_timer_map));
    } in
    let end : InTime (now + timeout) id l' = Moves-InTime (now + timeout) id moves start in
    deal_loop-ends (now + timeout) id clock l'.cb_timer_map l'.cbs l'.id_cb_map late end.sorted
      end.timed
