-- ===== src/ThreadPool/Life/Alive.antt =====
-- The states of a pool in which nothing is used before it is set or after it is destroyed.
use rpcframe.Prelude.{ℕ, All, AllBefore, false, Option, some, List, [], ◌≡◌, ◌⊎◌}
use rpcframe.Queue.{Queue}
use rpcframe.ThreadPool.Life.{
  Doing, working, ended, Slot, Owner, making, timing, started, linking, serving, stopping, joining,
  gone, Life,
}

module _ {T : Type 0} where
  -- A worker under construction has no task.
  abbrev pub NotRunning : Doing T → Type 0
  NotRunning (working t) = ⊥
  NotRunning _ = Unit

  abbrev pub HasQueue : Option (Queue T) → Type 0
  HasQueue o = (q : Queue T) × (o ≡ some q) × (q.drop_old_on_full ≡ false)

  abbrev pub HasEmptyQueue : Option (Queue T) → Type 0
  HasEmptyQueue o = (q : Queue T) × (o ≡ some q) × (q.drop_old_on_full ≡ false) × (q.items ≡ [])

module _ {T : Type 0} {W : Type 0} where
  abbrev pub IsEnded : Slot T W → Type 0
  IsEnded s = s.thread ≡ ended

  -- The Worker is complete, or the thread no longer runs.
  abbrev pub IsAlive : Slot T W → Type 0
  IsAlive s =
      IsEnded s
      ⊎ ((s.is_deleted ≡ false)
          × (w : W) × (s.real_worker ≡ some w)
          × (ms : ℕ) × (s.q_timeout ≡ some ms))

  abbrev pub IsYoung : Slot T W → Type 0
  IsYoung s = (s.is_deleted ≡ false) × NotRunning s.thread × (ms : ℕ) × (s.q_timeout ≡ some ms)

  abbrev pub IsAt : Owner T W → Option (Queue T) → List (Slot T W) → Type 0
  IsAt (making n) q ss = HasEmptyQueue q
  IsAt (timing n s) q ss = HasEmptyQueue q × (s ≡ started)
  IsAt (linking n s) q ss = HasEmptyQueue q × IsYoung s
  IsAt serving q ss = HasQueue q
  IsAt (stopping i) q ss = HasQueue q
  IsAt (joining i) q ss = HasQueue q × AllBefore IsEnded i ss
  IsAt gone q ss = All IsEnded ss

  -- The constructor of a Worker has started its thread and not yet set its timeout.
  abbrev pub IsTiming : Owner T W → Type 0
  IsTiming (timing n s) = Unit
  IsTiming _ = ⊥

  pub record IsSound (l : Life T W) : Type 0 where
    pub alive : All IsAlive l.slots
    pub at_owner : IsAt l.owner l.task_q l.slots
