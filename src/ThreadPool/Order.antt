-- ===== src/ThreadPool/Order.antt =====
-- Threads pop the tasks in the order in which they came, and each runs what it popped.
use rpcframe.Prelude.{
  ℕ, zero, suc, ap, ◌≢◌, ◌≡◌, refl, sym, true, false, Option, none, some, List, [], ◌∷◌, ◌++◌,
  length, leb, get_elem?, ret, arith, Bool-cases, Option-cases, inl, inr, length-append,
  append_assoc, append-nil, ◌==◌, if◌then◌else◌,
}
use rpcframe.Queue
use rpcframe.Queue.{Queue, timed_out, enqueue}
use rpcframe.Queue.Laws.{IsBounded}
use rpcframe.ThreadPool.{
  ThreadPool, Worker, Action, add, round, Event, taken, refused, popped, ran, idle, add_task,
  run_round, act, play, update_at,
}

module _ {T : Type 0} where
  -- The tasks that the pool took, and those that its threads popped.
  abbrev pub accepted : List (Event T) → List T
  accepted [] = []
  accepted (taken t ∷ es) = t ∷ accepted es
  accepted (_ ∷ es) = accepted es

  abbrev pub begun : List (Event T) → List T
  begun [] = []
  begun (popped i t ∷ es) = t ∷ begun es
  begun (_ ∷ es) = begun es

  -- Those that thread `i` popped, and those that it ran.
  abbrev pub begun_by : ℕ → List (Event T) → List T
  begun_by i [] = []
  begun_by i (popped j t ∷ es) = if i == j then t ∷ begun_by i es else begun_by i es
  begun_by i (_ ∷ es) = begun_by i es

  abbrev pub ran_by : ℕ → List (Event T) → List T
  ran_by i [] = []
  ran_by i (ran j t ∷ es) = if i == j then t ∷ ran_by i es else ran_by i es
  ran_by i (_ ∷ es) = ran_by i es

  accepted-cons :
      (e : Event T) (es : List (Event T)) → accepted (e ∷ es) ≡ accepted (e ∷ []) ++ accepted es
  accepted-cons (taken t) es = refl
  accepted-cons _ es = refl

  begun-cons : (e : Event T) (es : List (Event T)) → begun (e ∷ es) ≡ begun (e ∷ []) ++ begun es
  begun-cons (popped i t) es = refl
  begun-cons _ es = refl

  begun_by-cons :
      (i : ℕ) (e : Event T) (es : List (Event T))
      → begun_by i (e ∷ es) ≡ begun_by i (e ∷ []) ++ begun_by i es
  begun_by-cons i (popped j t) es = ground arith
  begun_by-cons i _ es = refl

  ran_by-cons :
      (i : ℕ) (e : Event T) (es : List (Event T))
      → ran_by i (e ∷ es) ≡ ran_by i (e ∷ []) ++ ran_by i es
  ran_by-cons i (ran j t) es = ground arith
  ran_by-cons i _ es = refl

  chain :
      (a b x y z c d : List T) → b ++ x ≡ y ++ d → a ++ y ≡ z ++ c → (a ++ b) ++ x ≡ z ++ (c ++ d)
  chain a b x y z c d e f = rw (append_assoc a b x, e, ← append_assoc a y d, f) (append_assoc z c d)

module _ {T : Type 0} {W : Type 0} where
  abbrev pub task_of : Option (Worker T W) → List T
  task_of none = []
  task_of (some w) = elim w.task [ none ↦ [] | some t ↦ t ∷ [] ]

  -- The task that thread `i` holds.
  abbrev pub in_hand : ℕ → ThreadPool T W → List T
  in_hand i p = task_of (get_elem? p.worker_threads i)

  update_at_self :
      (i : ℕ) (w v : Worker T W) (ws : List (Worker T W))
      → get_elem? ws i ≡ some w
      → get_elem? (update_at i v ws) i ≡ some v
  update_at_self i w v [] e = cc
  update_at_self zero w v (x ∷ ws) e = refl
  update_at_self (suc i) w v (x ∷ ws) e = update_at_self i w v ws e

  update_at_other :
      (i j : ℕ) (v : Worker T W) (ws : List (Worker T W))
      → i ≢ j
      → get_elem? (update_at j v ws) i ≡ get_elem? ws i
  update_at_other i j v [] ne = refl
  update_at_other zero zero v (x ∷ ws) ne = absurd (ne refl)
  update_at_other zero (suc j) v (x ∷ ws) ne = refl
  update_at_other (suc i) zero v (x ∷ ws) ne = refl
  update_at_other (suc i) (suc j) v (x ∷ ws) ne =
      update_at_other i j v ws (λ (e : i ≡ j). ne (ap suc e))

  changed_hand :
      (k i : ℕ) (w v : Worker T W) (ws : List (Worker T W))
      → get_elem? ws i ≡ some w
      → (task_of (get_elem? (update_at i v ws) k)
          ≡ (if k == i then task_of (some v) else task_of (get_elem? ws k)))
        × (k == i ≡ true → task_of (get_elem? ws k) ≡ task_of (some w))
  changed_hand k i w v ws e = elim (Bool-cases (k == i)) [
    | inl same ↦
        let here : k ≡ i = ground arith in
        (rw (same, here) (ap task_of (update_at_self i w v ws e)), (λ f. rw here (ap task_of e)))
    | inr other ↦ (rw other (ap task_of (update_at_other k i v ws (λ f. ground arith))), (λ f. cc))
  ]

module _ {T : Type 0} {W : Type 0} (run : T → W → W) where
  -- Each thread runs what it popped, in that order.
  abbrev RunsOwn : List (Event T) → ThreadPool T W → ThreadPool T W → Type 0
  RunsOwn es p p' = (i : ℕ) → ran_by i es ++ in_hand i p' ≡ in_hand i p ++ begun_by i es

  -- One action, from `p`.
  record InOrder (a : Action T) (p : ThreadPool T W) : Type 0 where
    event : Event T
    after : ThreadPool T W
    returns : act run a p ≡ ret (event, after)
    order : begun (event ∷ []) ++ after.task_q.items ≡ p.task_q.items ++ accepted (event ∷ [])
    each : RunsOwn (event ∷ []) p after
    bounded : IsBounded after.task_q

  add-InOrder : (t : T) (p : ThreadPool T W) → IsBounded p.task_q → InOrder (add t) p
  unfolding act add_task Queue.push
  add-InOrder t p b = elim (Bool-cases (leb p.task_q.max_q_len (length p.task_q.items))) [
    | inl full ↦ record {
      event = refused t;
      after = p;
      returns = ground arith;
      each = λ i. sym (append-nil (in_hand i p));
      order = sym (append-nil p.task_q.items);
      bounded = b;
    }
    | inr free ↦ record {
      event = taken t;
      after = record p { task_q = enqueue p.task_q t };
      returns = ground arith;
      each = λ i. sym (append-nil (in_hand i p));
      order = refl;
      bounded = record {
        keeps = b.keeps;
        within = ground (arith, length-append p.task_q.items (t ∷ []));
      };
    }
  ]

  idle-InOrder :
      (i : ℕ) (p : ThreadPool T W)
      → act run (round i) p ≡ ret (idle i, p)
      → IsBounded p.task_q
      → InOrder (round i) p
  idle-InOrder i p e b = record {
    event = idle i;
    after = p;
    returns = e;
    each = λ k. sym (append-nil (in_hand k p));
    order = sym (append-nil p.task_q.items);
    bounded = b;
  }

  awake :
      (w : Worker T W) (l : List T) (i : ℕ) (p : ThreadPool T W)
      → get_elem? p.worker_threads i ≡ some w
      → w.task ≡ none
      → p.task_q.items ≡ l
      → w.stopped ≡ false
      → IsBounded p.task_q
      → InOrder (round i) p
  unfolding act run_round Queue.pop
  awake w [] i p e free f on b = idle-InOrder i p (ground arith) b
  awake w (t ∷ ts) i p e free f on b =
      let w' : Worker T W = record w { task = some t } in
      record {
        event = popped i t;
        after = record {
          task_q = record p.task_q { items = ts };
          worker_threads = update_at i w' p.worker_threads;
        };
        returns = ground arith;
        order = rw (f, append-nil);
        each = λ k.
            (let (now, was) = changed_hand k i w w' p.worker_threads e in
              elim (Bool-cases (k == i)) [
                | inl same ↦ ground (arith, now, was same)
                | inr other ↦ rw (now, other) (sym (append-nil (in_hand k p)))
              ]);
        bounded = ground arith;
      }

  runs :
      (w : Worker T W) (t : T) (i : ℕ) (p : ThreadPool T W)
      → get_elem? p.worker_threads i ≡ some w
      → w.task ≡ some t
      → IsBounded p.task_q
      → InOrder (round i) p
  unfolding act run_round
  runs w t i p e busy b =
      let w' : Worker T W = record w { real_worker = run t w.real_worker; task = none } in
      record {
        event = ran i t;
        after = record p { worker_threads = update_at i w' p.worker_threads };
        returns = ground arith;
        order = sym (append-nil p.task_q.items);
        each = λ k.
            (let (now, was) = changed_hand k i w w' p.worker_threads e in
              elim (Bool-cases (k == i)) [
                | inl same ↦ rw (now, was same, busy, same) refl
                | inr other ↦ rw (now, other) (sym (append-nil (in_hand k p)))
              ]);
        bounded = b;
      }

  -- By the thread and the queue.
  round-InOrder :
      (o : Option (Worker T W)) (i : ℕ) (p : ThreadPool T W)
      → get_elem? p.worker_threads i ≡ o
      → IsBounded p.task_q
      → InOrder (round i) p
  unfolding act run_round Queue.pop
  round-InOrder none i p e b = idle-InOrder i p (ground arith) b
  round-InOrder (some w) i p e b = elim (Option-cases w.task) [
    | inl free ↦ (elim (Bool-cases w.stopped) [
      | inl off ↦ idle-InOrder i p (ground arith) b
      | inr on ↦ awake w p.task_q.items i p e free refl on b
    ])
    | inr (t, busy) ↦ runs w t i p e busy b
  ]

  act-InOrder : (a : Action T) (p : ThreadPool T W) → IsBounded p.task_q → InOrder a p
  act-InOrder (add t) p b = add-InOrder t p b
  act-InOrder (round i) p b = round-InOrder (get_elem? p.worker_threads i) i p refl b

  -- However the threads take turns, every action returns; the tasks that were taken are popped in the
  -- order in which they came, each once, or wait in the queue; each thread runs what it popped, in
  -- that order, each task once, but for the last one, which it may still hold; and the queue stays
  -- within its limit.
  pub tasks_in_order :
      (script : List (Action T)) (p : ThreadPool T W)
      → IsBounded p.task_q
      → (es : List (Event T)) × (p' : ThreadPool T W) × (play run script p ≡ ret (es, p'))
        × (begun es ++ p'.task_q.items ≡ p.task_q.items ++ accepted es)
        × ((i : ℕ) → ran_by i es ++ in_hand i p' ≡ in_hand i p ++ begun_by i es)
        × IsBounded p'.task_q
  unfolding play
  tasks_in_order [] p b =
      ([], p, refl, sym (append-nil p.task_q.items), (λ i. sym (append-nil (in_hand i p))), b)
  tasks_in_order (a ∷ script) p b =
      let f = act-InOrder a p b in
      let (es, p', runs, order, each, b') = tasks_in_order script f.after f.bounded in
      (
        f.event ∷ es,
        p',
        rw (f.returns, runs),
        rw (begun-cons f.event es, accepted-cons f.event es)
            (chain (begun (f.event ∷ [])) (begun es) p'.task_q.items f.after.task_q.items
              p.task_q.items (accepted (f.event ∷ [])) (accepted es) order f.order),
        (λ i.
            rw (ran_by-cons i f.event es, begun_by-cons i f.event es)
              (chain (ran_by i (f.event ∷ [])) (ran_by i es) (in_hand i p') (in_hand i f.after)
                (in_hand i p) (begun_by i (f.event ∷ [])) (begun_by i es) (each i) (f.each i))),
        b',
      )
