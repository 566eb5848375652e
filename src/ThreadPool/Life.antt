-- ===== src/ThreadPool/Life.antt =====
-- From the construction of a pool to its destruction: the constructor, the destructor, and Worker of
-- the class ThreadPool of common/include/ThreadPool.h, with the threads working in between.
-- A schedule says who makes the next move. A thread starts where its Worker is constructed, before the
-- two members that are declared after m_thread have their values.
pub mod Alive
pub mod Moves
pub mod Owning
pub mod Threads
pub mod Safe
pub mod Nearer
pub mod Ends
mod Tests
use rpcframe.Prelude.{
  ℕ, zero, suc, Bool, true, false, Option, none, some, List, [], ◌∷◌, ◌++◌, get_elem?, set,
  if◌then◌else◌, Exec, ret, waiting, fault, ◌>>=◌,
}
use rpcframe.Queue
use rpcframe.Queue.{Queue, timed_out, default_max_q_len}

-- Where a thread is in `Worker::run`: at the test of the loop, in `pop` with the timeout that it read,
-- in `run` of the real worker, or behind the loop.
pub data Doing (T : Type 0) : Type 0 where
  looking : Doing T
  popping : ℕ → Doing T
  working : T → Doing T
  ended : Doing T

-- A Worker and its thread. `q_timeout` is `none` before it is set, and `real_worker` is `none` before
-- it is set and after it is deleted.
pub record Slot (T : Type 0) (W : Type 0) : Type 0 where
  pub stopped : Bool
  pub thread : Doing T
  pub q_timeout : Option ℕ
  pub real_worker : Option W
  pub is_deleted : Bool

-- Where the owner is: in the constructor, with so many workers still to make and the one that it is
-- constructing; between the two; or in the destructor, by the worker that comes next.
pub data Owner (T : Type 0) (W : Type 0) : Type 0 where
  making : ℕ → Owner T W
  timing : ℕ → Slot T W → Owner T W
  linking : ℕ → Slot T W → Owner T W
  serving : Owner T W
  stopping : ℕ → Owner T W
  joining : ℕ → Owner T W
  gone : Owner T W

-- `task_q` is `none` when the queue is destroyed.
pub record Life (T : Type 0) (W : Type 0) : Type 0 where
  pub owner : Owner T W
  pub task_q : Option (Queue T)
  pub slots : List (Slot T W)

-- The owner, the thread of a worker, the thread of the worker under construction, or `addTask`.
pub data Move (T : Type 0) : Type 0 where
  own : Move T
  thread : ℕ → Move T
  newest : Move T
  add : T → Move T

module _ {T : Type 0} {W : Type 0} where
  -- `m_thread(new std::thread(&Worker::run, this))`.
  abbrev pub started : Slot T W
  started = record {
    stopped = false;
    thread = looking;
    q_timeout = none;
    real_worker = none;
    is_deleted = false;
  }

module _ {T : Type 0} {W : Type 0} (real : W) where
  abbrev pub linked : Slot T W → Slot T W
  linked s = record s { real_worker = some real }

  abbrev pub stop_next : ℕ → Life T W → Exec (Life T W)
  stop_next i l = elim (get_elem? l.slots i) [
    | none ↦ ret (record l { owner = joining 0 })
    | some s ↦
        ret (record l {
          owner = stopping (suc i);
          slots = set l.slots i (record s { stopped = true });
        })
  ]

  -- `~Worker`: the join waits for the thread.
  abbrev pub delete_worker : ℕ → Slot T W → Life T W → Exec (Life T W)
  delete_worker i s l = elim s.thread [
    | ended ↦ ret (record l {
      owner = joining (suc i);
      slots = set l.slots i (record s { real_worker = none; is_deleted = true });
    })
    | looking ↦ waiting
    | popping ms ↦ waiting
    | working t ↦ waiting
  ]

  -- The members are destroyed in the reverse of their order: the workers, then the queue.
  abbrev pub join_next : ℕ → Life T W → Exec (Life T W)
  join_next i l = elim (get_elem? l.slots i) [
    | none ↦ ret (record l { owner = gone; task_q = none })
    | some s ↦ delete_worker i s l
  ]

  abbrev pub own_move_at : Owner T W → Life T W → Exec (Life T W)
  own_move_at (making zero) l = ret (record l { owner = serving })
  own_move_at (making (suc n)) l = ret (record l { owner = timing n started })
  own_move_at (timing n s) l =
      ret (record l { owner = linking n (record s { q_timeout = some 100 }) })
  own_move_at (linking n s) l =
      ret (record l { owner = making n; slots = l.slots ++ (linked s ∷ []) })
  own_move_at serving l = ret (record l { owner = stopping 0 })
  own_move_at (stopping i) l = stop_next i l
  own_move_at (joining i) l = join_next i l
  own_move_at gone l = waiting

  unfoldable pub own_move : Life T W → Exec (Life T W)
  own_move l = own_move_at l.owner l

module _ {T : Type 0} {W : Type 0} (run : T → W → W) where
  abbrev pub next_task : Option T → Doing T
  next_task none = looking
  next_task (some t) = working t

  abbrev pub popped : Slot T W → Option T × Queue T → Exec (Option (Queue T) × Slot T W)
  popped s r = ret (some r.1, record s { thread = next_task r.0 })

  abbrev pub pop_move : Option (Queue T) → ℕ → Slot T W → Exec (Option (Queue T) × Slot T W)
  pop_move none ms s = fault
  pop_move (some q) ms s = Queue.pop q ms (timed_out q ∷ []) >>= popped s

  abbrev pub run_move :
      Option (Queue T) → Option W → T → Slot T W → Exec (Option (Queue T) × Slot T W)
  run_move q none t s = fault
  run_move q (some w) t s = ret (q, record s { thread = looking; real_worker = some (run t w) })

  -- The timeout is read for the call of `pop`. A member that is not set must not be read.
  abbrev pub read_timeout :
      Option ℕ → Option (Queue T) → Slot T W → Exec (Option (Queue T) × Slot T W)
  read_timeout none q s = fault
  read_timeout (some ms) q s = ret (q, record s { thread = popping ms })

  -- One move of `Worker::run`, in a Worker that may be deleted.
  abbrev pub move_from : Doing T → Option (Queue T) → Slot T W → Exec (Option (Queue T) × Slot T W)
  move_from looking q s =
      if s.is_deleted
      then fault
      else if s.stopped
      then ret (q, record s { thread = ended })
      else read_timeout s.q_timeout q s
  move_from (popping ms) q s = if s.is_deleted then fault else pop_move q ms s
  move_from (working t) q s = if s.is_deleted then fault else run_move q s.real_worker t s
  move_from ended q s = waiting

  unfoldable pub thread_move : Option (Queue T) → Slot T W → Exec (Option (Queue T) × Slot T W)
  unfolding Queue.pop
  thread_move q s = move_from s.thread q s

  abbrev pub placed : ℕ → Life T W → Option (Queue T) × Slot T W → Exec (Life T W)
  placed i l r = ret (record l { task_q = r.0; slots = set l.slots i r.1 })

  abbrev pub refreshed :
      (Slot T W → Owner T W) → Life T W → Option (Queue T) × Slot T W → Exec (Life T W)
  refreshed k l r = ret (record l { owner = k r.1; task_q = r.0 })

  abbrev pub newest_move : Owner T W → Life T W → Exec (Life T W)
  newest_move (timing n s) l = thread_move l.task_q s >>= refreshed (timing n) l
  newest_move (linking n s) l = thread_move l.task_q s >>= refreshed (linking n) l
  newest_move _ l = waiting

  abbrev pub pushed : Life T W → Bool × Queue T → Exec (Life T W)
  pushed l r = ret (record l { task_q = some r.1 })

  -- Others have the pool after its constructor and before its destructor.
  abbrev pub add_move : Owner T W → Option (Queue T) → T → Life T W → Exec (Life T W)
  add_move serving none t l = fault
  add_move serving (some q) t l = Queue.push q t 0 [] >>= pushed l
  add_move _ q t l = waiting

  abbrev pub indexed_move : Option (Slot T W) → ℕ → Life T W → Exec (Life T W)
  indexed_move none i l = waiting
  indexed_move (some s) i l = thread_move l.task_q s >>= placed i l

  unfoldable pub move : (real : W) → Move T → Life T W → Exec (Life T W)
  unfolding own_move thread_move Queue.push
  move real own l = own_move real l
  move real (thread i) l = indexed_move (get_elem? l.slots i) i l
  move real newest l = newest_move l.owner l
  move real (add t) l = add_move l.owner l.task_q t l

  -- A move that cannot be made ends the schedule.
  unfoldable pub live : (real : W) → List (Move T) → Life T W → Exec (Life T W)
  unfolding move
  live real [] l = ret l
  live real (m ∷ ms) l = move real m l >>= live real ms

-- The constructor begins: `m_taskQ` is constructed.
unfoldable pub born : {T W : Type 0} → ℕ → Life T W
unfolding Queue.make
born thread_num = record {
  owner = making thread_num;
  task_q = some (Queue.make default_max_q_len);
  slots = [];
}
