-- ===== src/ThreadPool.antt =====
-- The pool of threads that run requests: the class ThreadPool of common/include/ThreadPool.h.
-- `W` is the state of a real worker and `run` its method; a schedule says which thread makes the next
-- step of its loop, and when a task is added.
pub mod Order
pub mod Life
mod Tests
use rpcframe.Prelude.{
  ℕ, zero, suc, Bool, true, false, Option, none, some, List, [], ◌∷◌, ◌++◌, map, replicate,
  get_elem?, if◌then◌else◌, Exec, ret, waiting, fault, ◌>>=◌,
}
use rpcframe.Queue
use rpcframe.Queue.{Queue, timed_out, default_max_q_len}

-- `task` is the variable of the loop in `run`, while it holds a task that `pop` gave.
pub record Worker (T : Type 0) (W : Type 0) : Type 0 where
  pub stopped : Bool
  pub q_timeout : ℕ
  pub real_worker : W
  pub task : Option T

pub record ThreadPool (T : Type 0) (W : Type 0) : Type 0 where
  pub task_q : Queue T
  pub worker_threads : List (Worker T W)

-- The tasks that are added, and the steps of the threads, by the thread's number.
pub data Action (T : Type 0) : Type 0 where
  add : T → Action T
  round : ℕ → Action T

-- What happened: a task was taken or refused, a thread popped a task, ran it, or found none.
pub data Event (T : Type 0) : Type 0 where
  taken : T → Event T
  refused : T → Event T
  popped : ℕ → T → Event T
  ran : ℕ → T → Event T
  idle : ℕ → Event T

module _ {T : Type 0} {W : Type 0} where
  abbrev pub copies : ℕ → W → List (Worker T W)
  copies zero w = []
  copies (suc n) w =
      record { stopped = false; q_timeout = 100; real_worker = w; task = none } ∷ copies n w

  abbrev pub stop_worker : Worker T W → Worker T W
  stop_worker w = record w { stopped = true }

  abbrev pub update_at : ℕ → Worker T W → List (Worker T W) → List (Worker T W)
  update_at i w [] = []
  update_at zero w (x ∷ xs) = w ∷ xs
  update_at (suc i) w (x ∷ xs) = x ∷ update_at i w xs

module _ {T : Type 0} {W : Type 0} where
  -- `new WorkerT(WArgs...)` makes `w` each time.
  unfoldable pub make : ℕ → W → ThreadPool T W
  make thread_num w = record {
    task_q = Queue.make default_max_q_len;
    worker_threads = copies thread_num w;
  }

  unfoldable pub get_task_q_size : ThreadPool T W → ℕ
  unfolding Queue.size
  get_task_q_size p = Queue.size p.task_q

  unfoldable pub set_task_q_size : ℕ → ThreadPool T W → ThreadPool T W
  unfolding Queue.set_max_size
  set_task_q_size n p = record p { task_q = Queue.set_max_size n p.task_q }

  unfoldable pub add_task : T → ThreadPool T W → Exec (Bool × ThreadPool T W)
  unfolding Queue.push
  add_task t p = Queue.push p.task_q t 0 [] >>= λ r. ret (r.0, record p { task_q = r.1 })

  unfoldable pub get_workers : ThreadPool T W → List W
  get_workers p = map (λ w. w.real_worker) p.worker_threads

  -- The destructor tells every thread to stop.
  unfoldable pub stop : ThreadPool T W → ThreadPool T W
  stop p = record p { worker_threads = map stop_worker p.worker_threads }

  module _ (run : T → W → W) where
    -- After `pop` in the loop of a thread.
    abbrev pub after_pop :
        ℕ → Worker T W → ThreadPool T W → Option T × Queue T → Exec (Event T × ThreadPool T W)
    after_pop i w p (none, q) = ret (idle i, record p { task_q = q })
    after_pop i w p (some t, q) = ret (
      popped i t,
      record {
        task_q = q;
        worker_threads = update_at i (record w { task = some t }) p.worker_threads;
      },
    )

    abbrev pub run_task : ℕ → Worker T W → T → ThreadPool T W → Exec (Event T × ThreadPool T W)
    run_task i w t p = ret (
      ran i t,
      record p {
        worker_threads =
            update_at i (record w { real_worker = run t w.real_worker; task = none })
              p.worker_threads;
      },
    )

    abbrev pub look : ℕ → Worker T W → ThreadPool T W → Exec (Event T × ThreadPool T W)
    look i w p =
        if w.stopped
        then ret (idle i, p)
        else Queue.pop p.task_q w.q_timeout (timed_out p.task_q ∷ []) >>= after_pop i w p

    -- A step of `Worker::run`: the call of `pop` after the test of `m_stop`, or the run of the task
    -- that it gave; other threads can come between the two. Where the queue is empty the wait times
    -- out: a step in which a task comes is one that starts later.
    unfoldable pub run_round : ℕ → ThreadPool T W → Exec (Event T × ThreadPool T W)
    unfolding Queue.pop
    run_round i p = elim (get_elem? p.worker_threads i) [
      | none ↦ ret (idle i, p)
      | some w ↦ elim w.task [ none ↦ look i w p | some t ↦ run_task i w t p ]
    ]

    abbrev pub added : T → Bool × ThreadPool T W → Exec (Event T × ThreadPool T W)
    added t (true, p) = ret (taken t, p)
    added t (false, p) = ret (refused t, p)

    unfoldable pub act : Action T → ThreadPool T W → Exec (Event T × ThreadPool T W)
    unfolding add_task run_round
    act (add t) p = add_task t p >>= added t
    act (round i) p = run_round i p

    abbrev pub note :
        Event T → List (Event T) × ThreadPool T W → Exec (List (Event T) × ThreadPool T W)
    note e (es, p) = ret (e ∷ es, p)

    unfoldable pub play : List (Action T) → ThreadPool T W → Exec (List (Event T) × ThreadPool T W)
    unfolding act
    play [] p = ret ([], p)
    play (a ∷ rest) p = act a p >>= λ r. play rest r.1 >>= note r.0
