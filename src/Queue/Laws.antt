-- ===== src/Queue/Laws.antt =====
-- What Queue.h promises its clients: first in, first out, within the limit.
use rpcframe.Prelude.{
  ℕ, ◌≡◌, ◌≢◌, refl, ◌≤◌, ◌<◌, true, false, List, [], ◌∷◌, ◌++◌, length, length-append,
  append_assoc, arith, ret, fault, sym, append-nil, Bool-cases, inl, inr, leb,
}
use rpcframe.Queue.{
  Queue, Wake, timed_out, notified, pop_loop, pop, push, Op, put, get, Reply, took, refused, gave,
  empty, call, run, ins, outs, enqueue,
}

module _ {ℓ} {A : Type ℓ} where
  -- A queue that keeps what it has, within its limit.
  pub record IsBounded (q : Queue A) : Type ℓ where
    pub keeps : q.drop_old_on_full ≡ false
    pub within : length q.items ≤ q.max_q_len

  pop_loop-safe : (ws : List (Wake A)) (q : Queue A) (ms : ℕ) → 0 < ms → pop_loop q ms ws ≢ fault
  unfolding pop_loop
  pop_loop-safe [] q ms h = ground arith
  pop_loop-safe (timed_out q' ∷ ws) q ms h = ground arith
  pop_loop-safe (notified q' ∷ ws) q ms h = ground (arith, pop_loop-safe ws q' ms h)

  -- Whatever other threads do while it waits, `pop` never reads the front of an empty `std::queue`.
  pub pop_safe : (q : Queue A) (ms : ℕ) (ws : List (Wake A)) → pop q ms ws ≢ fault
  unfolding pop pop_loop
  pop_safe q ms [] = ground arith
  pop_safe q ms (timed_out q' ∷ ws) = ground arith
  pop_safe q ms (notified q' ∷ ws) = ground (arith, pop_loop-safe ws q' ms)

  -- One call, from `q`: the reply, the queue after it, and where the items went.
  pub record Fifo (op : Op A) (q : Queue A) : Type ℓ where
    pub reply : Reply A
    pub after : Queue A
    pub returns : call op q ≡ ret (reply, after)
    pub order : outs (reply ∷ []) ++ after.items ≡ q.items ++ ins (reply ∷ [])
    pub bounded : IsBounded after

  put-Fifo : (a : A) (q : Queue A) → IsBounded q → Fifo (put a) q
  unfolding call push
  put-Fifo a q b = elim (Bool-cases (leb q.max_q_len (length q.items))) [
    | inl full ↦ record {
      reply = refused a;
      after = q;
      returns = ground arith;
      order = sym (append-nil q.items);
      bounded = b;
    }
    | inr room ↦ record {
      reply = took a;
      after = enqueue q a;
      returns = ground arith;
      order = refl;
      bounded = record { keeps = b.keeps; within = ground (arith, length-append q.items (a ∷ [])) };
    }
  ]

  get-Fifo : (xs : List A) (q : Queue A) → q.items ≡ xs → IsBounded q → Fifo get q
  unfolding call pop pop_loop
  get-Fifo [] q e b = record {
    reply = empty;
    after = q;
    returns = ground arith;
    order = sym (append-nil q.items);
    bounded = b;
  }
  get-Fifo (x ∷ xs) q e b = record {
    reply = gave x;
    after = record q { items = xs };
    returns = ground arith;
    order = rw (e, append-nil);
    bounded = ground arith;
  }

  call-Fifo : (op : Op A) (q : Queue A) → IsBounded q → Fifo op q
  call-Fifo (put a) q b = put-Fifo a q b
  call-Fifo get q b = get-Fifo q.items q refl b

  ins-cons : (r : Reply A) (rs : List (Reply A)) → ins (r ∷ rs) ≡ ins (r ∷ []) ++ ins rs
  ins-cons (took a) rs = refl
  ins-cons _ rs = refl

  outs-cons : (r : Reply A) (rs : List (Reply A)) → outs (r ∷ rs) ≡ outs (r ∷ []) ++ outs rs
  outs-cons (gave a) rs = refl
  outs-cons _ rs = refl

  -- A run of calls that do not wait, on a queue that does not drop: every call returns, the items
  -- come out in the order in which they went in, none is lost or made up, and the queue ends within
  -- its limit.
  pub run_fifo :
      (ops : List (Op A)) (q : Queue A)
      → IsBounded q
      → (rs : List (Reply A)) × (q' : Queue A) × (run ops q ≡ ret (rs, q'))
        × (outs rs ++ q'.items ≡ q.items ++ ins rs)
        × IsBounded q'
  unfolding run
  run_fifo [] q b = ([], q, refl, sym (append-nil q.items), b)
  run_fifo (op ∷ ops) q b =
      let f = call-Fifo op q b in
      let (rs, q', runs, order, b') = run_fifo ops f.after f.bounded in
      (
        f.reply ∷ rs,
        q',
        ground (arith, f.returns, runs),
        rw (outs-cons f.reply rs, ins-cons f.reply rs, append_assoc, order, ← append_assoc, f.order)
            (append_assoc q.items (ins (f.reply ∷ [])) (ins rs)),
        b',
      )

  -- A push that does not wait, on a queue that drops: it is taken, and only the oldest item goes.
  pub push_dropping :
      (q : Queue A) (a x : A) (xs : List A)
      → q.drop_old_on_full ≡ true
      → q.items ≡ x ∷ xs
      → length q.items ≡ q.max_q_len
      → (ms : ℕ) (ws : List (Wake A))
      → push q a ms ws ≡ ret (true, record q { items = xs ++ (a ∷ []) })
  unfolding push
  push_dropping q a x xs d e full ms ws = ground arith

  -- A push that waited and was woken does not look again: on a queue that is full by then it goes
  -- over the limit.
  push_overshoots :
      (q q' : Queue A) (a : A) (ms : ℕ) (ws : List (Wake A))
      → IsBounded q
      → length q.items ≡ q.max_q_len
      → 0 < ms
      → IsBounded q'
      → length q'.items ≡ q'.max_q_len
      → (q'' : Queue A) × (push q a ms (notified q' ∷ ws) ≡ ret (true, q'')) × ¬ IsBounded q''
  unfolding push
  push_overshoots q q' a ms ws b full wait b' full' =
      (enqueue q' a, ground arith, λ v. omega (arith, length-append q'.items (a ∷ []), v.within))
