-- ===== src/Queue/Tests.antt =====
-- The queue of Queue.h on small inputs.
use rpcframe.Prelude.{ℕ, ◌≡◌, ◌≢◌, refl, false, some, List, [], ◌∷◌, ◌++◌, ret, fault, arith}
use rpcframe.Queue.{
  Queue, timed_out, notified, pop, Op, put, get, Reply, took, refused, gave, call, run, ins, outs,
}
use rpcframe.Queue.Laws.{IsBounded, pop_safe, run_fifo}

-- Two places, both taken.
abbrev full_queue : Queue ℕ
full_queue = record { items = 4 ∷ 5 ∷ []; max_q_len = 2; drop_old_on_full = false }

abbrev empty_queue : Queue ℕ
empty_queue = record { items = []; max_q_len = 2; drop_old_on_full = false }

abbrev script : List (Op ℕ)
script = put 6 ∷ get ∷ put 7 ∷ get ∷ get ∷ get ∷ []

run-script :
    run script full_queue
    ≡ ret (refused 6 ∷ gave 4 ∷ took 7 ∷ gave 5 ∷ gave 7 ∷ Reply.empty ∷ [], empty_queue)
unfolding run call
run-script = refl

-- Woken for an item that another thread took, the caller waits on, and gets the next one.
pop-steals :
    pop empty_queue 10 (notified empty_queue ∷ notified full_queue ∷ [])
    ≡ ret (some 4, record full_queue { items = 5 ∷ [] })
unfolding pop
pop-steals = refl

full_queue-IsBounded : IsBounded full_queue
full_queue-IsBounded = record { keeps = refl; within = omega arith }

run_fifo_example :
    (rs : List (Reply ℕ)) × (q : Queue ℕ) × (run script full_queue ≡ ret (rs, q))
    × (outs rs ++ q.items ≡ (4 ∷ 5 ∷ []) ++ ins rs)
    × IsBounded q
run_fifo_example = run_fifo script full_queue full_queue-IsBounded

pop_safe_example : pop empty_queue 10 (notified empty_queue ∷ timed_out full_queue ∷ []) ≢ fault
pop_safe_example = pop_safe empty_queue 10 (notified empty_queue ∷ timed_out full_queue ∷ [])
