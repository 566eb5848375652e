-- ===== src/Queue.antt =====
-- The bounded queue of common/include/Queue.h, one function per method.
-- A call holds the mutex, except while it waits on a condition variable. Then other threads run, so
-- a wake-up carries the queue that the thread finds when it has the mutex again. `waiting` is a
-- thread that the script of wake-ups leaves on the condition variable. Of the two conditions only
-- the wake-ups that they cause are modelled.
pub mod Laws
mod Tests
use rpcframe.Prelude.{
  ℕ, ◌*◌, Bool, true, false, ◌&&◌, Option, none, some, List, [], ◌∷◌, ◌++◌, length, ltb, leb, ◌==◌,
  if◌then◌else◌, Exec, ret, waiting, fault,
}

pub record Queue {ℓ} (A : Type ℓ) : Type ℓ where
  pub items : List A  -- front first
  pub max_q_len : ℕ  -- uint32_t
  pub drop_old_on_full : Bool

-- How `wait_for` returns, with the queue found afterwards.
pub data Wake {ℓ} (A : Type ℓ) : Type ℓ where
  timed_out : Queue A → Wake A
  notified : Queue A → Wake A

-- The default argument of the constructor.
abbrev pub default_max_q_len : ℕ
default_max_q_len = 10 * 1024 * 1024

module _ {ℓ} {A : Type ℓ} where
  unfoldable pub make : ℕ → Queue A
  make max_queuelen = record { items = []; max_q_len = max_queuelen; drop_old_on_full = false }

  abbrev pub is_empty : List A → Bool
  is_empty [] = true
  is_empty (x ∷ xs) = false

  -- `front` and `pop` of a `std::queue`, which must not be empty.
  abbrev pub take_front : List A → Queue A → Exec (Option A × Queue A)
  take_front [] q = fault
  take_front (x ∷ xs) q = ret (some x, record q { items = xs })

  unfoldable pub pop_loop : Queue A → ℕ → List (Wake A) → Exec (Option A × Queue A)
  pop_loop q ms [] = if is_empty q.items && ltb 0 ms then waiting else take_front q.items q
  pop_loop q ms (timed_out q' ∷ ws) =
      if is_empty q.items && ltb 0 ms then ret (none, q') else take_front q.items q
  pop_loop q ms (notified q' ∷ ws) =
      let again = pop_loop q' ms ws in
      if is_empty q.items && ltb 0 ms then again else take_front q.items q

  -- The item is `none` where the method returns false.
  unfoldable pub pop : Queue A → ℕ → List (Wake A) → Exec (Option A × Queue A)
  unfolding pop_loop
  pop q ms ws = if ms == 0 && is_empty q.items then ret (none, q) else pop_loop q ms ws

  unfoldable pub peek : Queue A → Option A
  peek q = elim q.items [ [] ↦ none | x ∷ xs ↦ some x ]

  abbrev pub enqueue : Queue A → A → Queue A
  enqueue q a = record q { items = q.items ++ (a ∷ []) }

  -- `m_queue.pop(); m_queue.push(item)`
  abbrev pub replace_oldest : List A → Queue A → A → Exec (Bool × Queue A)
  replace_oldest [] q a = fault
  replace_oldest (x ∷ xs) q a = ret (true, enqueue (record q { items = xs }) a)

  -- The one wait of `push`: the queue is not tested again after a notification.
  abbrev pub push_wait : List (Wake A) → A → Exec (Bool × Queue A)
  push_wait [] a = waiting
  push_wait (timed_out q' ∷ ws) a = ret (false, q')
  push_wait (notified q' ∷ ws) a = ret (true, enqueue q' a)

  unfoldable pub push : Queue A → A → ℕ → List (Wake A) → Exec (Bool × Queue A)
  push q a ms ws =
      if leb q.max_q_len (length q.items)
      then (if q.drop_old_on_full
          then replace_oldest q.items q a
          else if ms == 0
          then ret (false, q)
          else push_wait ws a)
      else ret (true, enqueue q a)

  unfoldable pub size : Queue A → ℕ
  size q = length q.items

  unfoldable pub set_max_size : ℕ → Queue A → Queue A
  set_max_size n q = record q { max_q_len = n }

  unfoldable pub set_drop_on_full : Bool → Queue A → Queue A
  set_drop_on_full b q = record q { drop_old_on_full = b }

-- The calls that return at once, as any threads make them one after the other.
pub data Op {ℓ} (A : Type ℓ) : Type ℓ where
  put : A → Op A
  get : Op A

-- What a call told its caller.
pub data Reply {ℓ} (A : Type ℓ) : Type ℓ where
  took : A → Reply A
  refused : A → Reply A
  gave : A → Reply A
  empty : Reply A

module _ {ℓ} {A : Type ℓ} where
  abbrev put_reply : A → Bool → Reply A
  put_reply a true = took a
  put_reply a false = refused a

  abbrev get_reply : Option A → Reply A
  get_reply none = empty
  get_reply (some a) = gave a

  unfoldable pub call : Op A → Queue A → Exec (Reply A × Queue A)
  unfolding push pop
  call (put a) q = elim (push q a 0 []) [
    | ret (b, q') ↦ ret (put_reply a b, q')
    | waiting ↦ waiting
    | fault ↦ fault
  ]
  call get q = elim (pop q 0 []) [
    | ret (o, q') ↦ ret (get_reply o, q')
    | waiting ↦ waiting
    | fault ↦ fault
  ]

  abbrev pub note : Reply A → Exec (List (Reply A) × Queue A) → Exec (List (Reply A) × Queue A)
  note r (ret (rs, q)) = ret (r ∷ rs, q)
  note r waiting = waiting
  note r fault = fault

  unfoldable pub run : List (Op A) → Queue A → Exec (List (Reply A) × Queue A)
  run [] q = ret ([], q)
  run (op ∷ ops) q = elim (call op q) [
    | ret (r, q') ↦ note r (run ops q')
    | waiting ↦ waiting
    | fault ↦ fault
  ]

  -- The items that the calls put in, and those that they gave out, in order.
  abbrev pub ins : List (Reply A) → List A
  ins [] = []
  ins (took a ∷ rs) = a ∷ ins rs
  ins (_ ∷ rs) = ins rs

  abbrev pub outs : List (Reply A) → List A
  outs [] = []
  outs (gave a ∷ rs) = a ∷ outs rs
  outs (_ ∷ rs) = outs rs
