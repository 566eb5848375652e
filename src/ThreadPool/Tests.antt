-- ===== src/ThreadPool/Tests.antt =====
-- Two threads and three tasks; the task that is popped first is run last.
use rpcframe.Prelude.{none, ℕ, ◌≡◌, refl, false, List, [], ◌∷◌, ◌++◌, ret, arith}
use rpcframe.Queue.Laws.{IsBounded}
use rpcframe.ThreadPool.{
  ThreadPool, Action, add, round, Event, taken, refused, popped, ran, idle, play, act,
}
use rpcframe.ThreadPool.Order.{accepted, begun, ran_by, begun_by, in_hand, tasks_in_order}

-- A worker that remembers its tasks.
abbrev remember : ℕ → List ℕ → List ℕ
remember t ts = t ∷ ts

abbrev two_threads : ThreadPool ℕ (List ℕ)
two_threads = record {
  task_q = record { items = 4 ∷ []; max_q_len = 2; drop_old_on_full = false };
  worker_threads =
      record { stopped = false; q_timeout = 100; real_worker = []; task = none }
      ∷ record { stopped = false; q_timeout = 100; real_worker = []; task = none }
      ∷ [];
}

abbrev script : List (Action ℕ)
script = add 5 ∷ add 6 ∷ round 1 ∷ round 0 ∷ round 0 ∷ round 1 ∷ round 1 ∷ []

abbrev after_script : ThreadPool ℕ (List ℕ)
after_script = record {
  task_q = record { items = []; max_q_len = 2; drop_old_on_full = false };
  worker_threads =
      record { stopped = false; q_timeout = 100; real_worker = 5 ∷ []; task = none }
      ∷ record { stopped = false; q_timeout = 100; real_worker = 4 ∷ []; task = none }
      ∷ [];
}

play-script :
    play remember script two_threads
    ≡ ret (
      taken 5 ∷ refused 6 ∷ popped 1 4 ∷ popped 0 5 ∷ ran 0 5 ∷ ran 1 4 ∷ idle 1 ∷ [],
      after_script,
    )
unfolding play act
play-script = refl

two_threads-IsBounded : IsBounded two_threads.task_q
two_threads-IsBounded = record { keeps = refl; within = omega arith }

tasks_in_order_example :
    (es : List (Event ℕ)) × (p : ThreadPool ℕ (List ℕ)) × (play remember script two_threads
      ≡ ret (es, p))
    × (begun es ++ p.task_q.items ≡ (4 ∷ []) ++ accepted es)
    × ((i : ℕ) → ran_by i es ++ in_hand i p ≡ in_hand i two_threads ++ begun_by i es)
    × IsBounded p.task_q
tasks_in_order_example = tasks_in_order remember script two_threads two_threads-IsBounded
