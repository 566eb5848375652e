-- ===== src/ThreadPool/Life/Tests.antt =====
-- A pool of one thread and one task, from its constructor to the end of its destructor.
use rpcframe.Prelude.{
  ◌⊎◌, fault, false, some, ℕ, ◌≡◌, refl, true, none, List, [], ◌∷◌, ret, All, Safely,
}
use rpcframe.Queue
use rpcframe.ThreadPool.Life.{
  ended, popping, serving, Life, Move, own, thread, newest, add, gone, move, live, born, own_move,
  thread_move,
}
use rpcframe.ThreadPool.Life.Alive.{IsEnded}
use rpcframe.ThreadPool.Life.Safe.{pool_is_safe, ReadsEarly}
use rpcframe.ThreadPool.Life.Ends.{Finishes, destructor_ends}
use rpcframe.Queue.{default_max_q_len}

-- A worker that remembers its tasks.
abbrev remember : ℕ → List ℕ → List ℕ
remember t ts = t ∷ ts

-- The thread looks for a task before its Worker is complete.
abbrev schedule : List (Move ℕ)
schedule =
    own
    ∷ own
    ∷ newest
    ∷ newest
    ∷ newest
    ∷ own
    ∷ own
    ∷ add 5
    ∷ thread 0
    ∷ thread 0
    ∷ thread 0
    ∷ own
    ∷ own
    ∷ own
    ∷ thread 0
    ∷ thread 0
    ∷ own
    ∷ own
    ∷ []

abbrev at_end : Life ℕ (List ℕ)
at_end = record {
  owner = gone;
  task_q = none;
  slots =
      record {
        stopped = true;
        thread = ended;
        q_timeout = some 100;
        real_worker = none;
        is_deleted = true;
      }
      ∷ [];
}

live-schedule : live remember [] schedule (born 1) ≡ ret at_end
unfolding live born move own_move thread_move Queue.push Queue.pop
live-schedule = refl

-- It looks before its timeout is set.
live-early : live {T = ℕ} {W = List ℕ} remember [] (own ∷ newest ∷ []) (born 1) ≡ fault
unfolding live born move own_move thread_move
live-early = refl

pool_is_safe_example :
    (ReadsEarly remember [] schedule (born 1) × (live remember [] schedule (born 1) ≡ fault))
    ⊎ Safely
        (λ (l : Life ℕ (List ℕ)). (l.owner ≡ gone → All IsEnded l.slots))
        (live remember [] schedule (born 1))
pool_is_safe_example = pool_is_safe remember [] 1 schedule

-- After `addTask`: the thread is in `pop`, and the task is in the queue.
abbrev begun : List (Move ℕ)
begun = own ∷ own ∷ own ∷ own ∷ thread 0 ∷ add 5 ∷ []

abbrev in_use : Life ℕ (List ℕ)
in_use = record {
  owner = serving;
  task_q =
      some (record { items = 5 ∷ []; max_q_len = default_max_q_len; drop_old_on_full = false });
  slots =
      record {
        stopped = false;
        thread = popping 100;
        q_timeout = some 100;
        real_worker = some [];
        is_deleted = false;
      }
      ∷ [];
}

live-begun : live remember [] begun (born 1) ≡ ret in_use
unfolding live born move own_move thread_move Queue.push Queue.pop
live-begun = refl

destructor_ends_example : Finishes remember [] in_use
destructor_ends_example = destructor_ends remember [] 1 begun in_use live-begun refl
