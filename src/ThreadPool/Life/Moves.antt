-- ===== src/ThreadPool/Life/Moves.antt =====
-- What one move of a thread does to its Worker and to the queue.
use rpcframe.Prelude.{
  ℕ, false, Option, none, some, List, [], ◌∷◌, ◌≡◌, refl, ret, ◌>>=◌, Safely, Safely-bind, arith,
  ◌⊎◌, inl, inr, Bool-cases,
}
use rpcframe.Queue
use rpcframe.Queue.{Queue, timed_out}
use rpcframe.ThreadPool.Life.{
  Doing, looking, popping, working, ended, Slot, move_from, thread_move, popped,
}
use rpcframe.ThreadPool.Life.Alive.{IsEnded, NotRunning}

module _ {T : Type 0} where
  -- What `pop` does to a queue.
  Popped : Queue T → Option T × Queue T → Type 0
  Popped q r =
      (r.1.drop_old_on_full ≡ q.drop_old_on_full) × (q.items ≡ [] → (r.0 ≡ none) × (r.1.items ≡ []))

  pop-Popped_at :
      (q : Queue T) (ms : ℕ) (l : List T)
      → q.items ≡ l
      → Safely (Popped q) (Queue.pop q ms (timed_out q ∷ []))
  unfolding Queue.pop Popped
  pop-Popped_at q ms [] f =
      let out : Queue.pop q ms (timed_out q ∷ []) ≡ ret (none, q) = ground arith in
      rw out (refl, (λ e. (refl, e)))
  pop-Popped_at q ms (x ∷ xs) f =
      let out : Queue.pop q ms (timed_out q ∷ []) ≡ ret (some x, record q { items = xs }) =
        ground arith in
      rw out (refl, (λ e. cc))

  pop-Popped : (q : Queue T) (ms : ℕ) → Safely (Popped q) (Queue.pop q ms (timed_out q ∷ []))
  pop-Popped q ms = pop-Popped_at q ms q.items refl

module _ {T : Type 0} {W : Type 0} (run : T → W → W) where
  -- What one move of a thread leaves.
  pub record Moved (q : Queue T) (s : Slot T W) (r : Option (Queue T) × Slot T W) : Type 0 where
    pub queue :
        (q' : Queue T) × (r.0 ≡ some q')
        × (q'.drop_old_on_full ≡ q.drop_old_on_full)
        × (q.items ≡ [] → q'.items ≡ [])
    pub was : IsEnded s → IsEnded r.1
    pub timeout : r.1.q_timeout ≡ s.q_timeout
    pub worker : r.1.is_deleted ≡ s.is_deleted
    pub keeps_real : (w : W) → s.real_worker ≡ some w → (w' : W) × (r.1.real_worker ≡ some w')
    pub young : q.items ≡ [] → NotRunning s.thread → NotRunning r.1.thread

  popped-Moved :
      (q : Queue T) (s : Slot T W) (ms : ℕ)
      → s.thread ≡ popping ms
      → (r : Option T × Queue T) → Popped q r
      → Safely (Moved q s) (popped run s r)
  unfolding Popped
  popped-Moved q s ms e (o, q') (same, empty) = record {
    queue = (q', refl, same, (λ f. (empty f).1));
    was = λ f. cc;
    timeout = refl;
    worker = refl;
    keeps_real = λ w f. (w, f);
    young = λ f y. rw ((empty f).0) tt;
  }

  move_from-Moved :
      (q : Queue T) (s : Slot T W)
      → s.is_deleted ≡ false
      → NotRunning s.thread ⊎ ((w : W) × (s.real_worker ≡ some w))
      → (ms : ℕ) → s.q_timeout ≡ some ms
      → (d : Doing T) → s.thread ≡ d
      → Safely (Moved q s) (move_from run d (some q) s)
  move_from-Moved q s there real ms tm looking e =
      let out : (d' : Doing T) × (move_from run looking (some q) s
            ≡ ret (some q, record s { thread = d' }))
          × NotRunning d' =
        elim (Bool-cases s.stopped) [
          | inl off ↦ (ended, ground arith, tt)
          | inr on ↦ (popping ms, ground arith, tt)
        ] in
      rw (out.1) (record {
        queue = (q, refl, refl, (λ f. f));
        was = λ f. cc;
        timeout = refl;
        worker = refl;
        keeps_real = λ w f. (w, f);
        young = λ f y. out.2;
      })
  move_from-Moved q s there real tms tm (popping ms) e =
      let out : move_from run (popping ms) (some q) s
          ≡ (Queue.pop q ms (timed_out q ∷ []) >>= popped run s) =
        ground arith in
      rw out (
        Safely-bind (Popped q) (Moved q s) (Queue.pop q ms (timed_out q ∷ [])) (popped run s)
          (pop-Popped q ms) (popped-Moved q s ms e))
  move_from-Moved q s there (inl y) ms tm (working t) e = absurd (rw e at y)
  move_from-Moved q s there (inr (w, f)) ms tm (working t) e =
      rw (there, f)
        (record {
          queue = (q, refl, refl, (λ g. g));
          was = λ g. cc;
          timeout = refl;
          worker = refl;
          keeps_real = λ w g. (_, refl);
          young = λ g y. tt;
        })
  move_from-Moved q s there real ms tm ended e = tt

  pub thread_move-Moved :
      (q : Queue T) (s : Slot T W)
      → s.is_deleted ≡ false
      → NotRunning s.thread ⊎ ((w : W) × (s.real_worker ≡ some w))
      → (ms : ℕ) → s.q_timeout ≡ some ms
      → Safely (Moved q s) (thread_move run (some q) s)
  unfolding thread_move
  thread_move-Moved q s there real ms tm = move_from-Moved q s there real ms tm s.thread refl
