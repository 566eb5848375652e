-- ===== src/HashPool.antt =====
-- The pool whose threads have a queue each: the class HashThreadPool of common/include/ThreadPool.h.
-- A task goes to the thread that the hash of its key names; `hash` is `std::hash<std::string>`.
use rpcframe.Prelude.{
  if◌then◌else◌, ℕ, zero, suc, ◌%◌, Bool, true, false, Option, none, some, List, [], ◌∷◌, map,
  length, Str, get_elem?, Exec, ret, fault, ◌>>=◌,
}
use rpcframe.Queue
use rpcframe.Queue.{Queue, Wake, default_max_q_len}

pub record Thread (T : Type 0) (W : Type 0) : Type 0 where
  pub task_q : Queue T
  pub stopped : Bool
  pub q_timeout : ℕ
  pub real_worker : W

module _ {T : Type 0} {W : Type 0} where
  -- `new WorkerT(WArgs...)` makes `w` each time.
  unfoldable pub make : ℕ → W → List (Thread T W)
  make zero w = []
  make (suc n) w =
      record {
        task_q = Queue.make default_max_q_len;
        stopped = false;
        q_timeout = 100;
        real_worker = w;
      }
      ∷ make n w

  abbrev pub limit : ℕ → Thread T W → Thread T W
  limit n t = record t { task_q = Queue.set_max_size n t.task_q }

  unfoldable pub set_task_q_size : ℕ → List (Thread T W) → List (Thread T W)
  set_task_q_size n ts = map (limit n) ts

  abbrev pub stop_thread : Thread T W → Thread T W
  stop_thread t = record t { stopped = true }

  unfoldable pub stop : List (Thread T W) → List (Thread T W)
  stop ts = map stop_thread ts

  unfoldable pub get_workers : List (Thread T W) → List W
  get_workers ts = map (λ t. t.real_worker) ts

  abbrev pub update_at : ℕ → Thread T W → List (Thread T W) → List (Thread T W)
  update_at i w [] = []
  update_at zero w (x ∷ xs) = w ∷ xs
  update_at (suc i) w (x ∷ xs) = x ∷ update_at i w xs

  abbrev pub queue_task :
      T → ℕ → List (Wake T) → ℕ → Thread T W → List (Thread T W) → Exec (Bool × List (Thread T W))
  queue_task task timeout ws i t ts = Queue.push t.task_q task timeout ws >>= λ r.
      ret (r.0, update_at i (record t { task_q = r.1 }) ts)

  -- The remainder by 0 threads is undefined.
  unfoldable pub add_task :
      (Str → ℕ) → T → Str → ℕ → List (Wake T) → List (Thread T W) → Exec (Bool × List (Thread T W))
  unfolding Queue.push
  add_task hash task key timeout ws [] = fault
  add_task hash task key timeout ws (first ∷ rest) =
      let ts = first ∷ rest in
      let i = hash key % length ts in
      elim (get_elem? ts i) [ none ↦ fault | some t ↦ queue_task task timeout ws i t ts ]

  abbrev pub ran : (T → W → W) → Thread T W → Option T × Queue T → Exec (Thread T W)
  ran run t (none, q) = ret (record t { task_q = q })
  ran run t (some task, q) = ret (record t { task_q = q; real_worker = run task t.real_worker })

  -- One round of the loop of `Worker::run`, where `run` is the method of the real worker.
  unfoldable pub run_round : (T → W → W) → List (Wake T) → Thread T W → Exec (Thread T W)
  unfolding Queue.pop
  run_round run ws t =
      if t.stopped then ret t else (Queue.pop t.task_q t.q_timeout ws >>= ran run t)
