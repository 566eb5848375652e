-- ===== src/ThreadPool/Life/Threads.antt =====
-- The moves of the threads and of the callers of `addTask`, by where the owner is.
use rpcframe.Prelude.{
  fault, subst, sym, ◌∙◌, All, All-get, All-set, AllBefore-set, ℕ, Bool, true, false, Option, none,
  some, List, [], ◌∷◌, ◌++◌, get_elem?, set, ◌≡◌, refl, ret, waiting, ◌>>=◌, Safely, Safely-bind,
  arith, ◌⊎◌, inl, inr, Bool-cases, leb, length,
}
use rpcframe.Queue
use rpcframe.Queue.{Queue, timed_out}
use rpcframe.ThreadPool.Life.{
  Slot, Owner, making, timing, linking, serving, stopping, joining, gone, Life, thread_move, placed,
  refreshed, newest_move, add_move, pushed, indexed_move,
}
use rpcframe.ThreadPool.Life.Alive.{
  IsTiming, IsEnded, IsAlive, NotRunning, IsYoung, HasQueue, HasEmptyQueue, IsAt, IsSound,
}
use rpcframe.ThreadPool.Life.Moves.{Moved, thread_move-Moved}

module _ {T : Type 0} where
  -- A queue after a move of a thread.
  record Follows (q q' : Option (Queue T)) : Type 0 where
    there : HasQueue q → HasQueue q'
    empty : HasEmptyQueue q → HasEmptyQueue q'

module _ {T : Type 0} {W : Type 0} where
  pub IsAt-queue :
      (o : Owner T W) (q : Option (Queue T)) (ss : List (Slot T W))
      → IsAt o q ss
      → HasQueue q ⊎ All IsEnded ss
  IsAt-queue (making n) q ss (q', e, k, empty) = inl (q', e, k)
  IsAt-queue (timing n s) q ss ((q', e, k, empty), y) = inl (q', e, k)
  IsAt-queue (linking n s) q ss ((q', e, k, empty), y) = inl (q', e, k)
  IsAt-queue serving q ss h = inl h
  IsAt-queue (stopping i) q ss h = inl h
  IsAt-queue (joining i) q ss (h, b) = inl h
  IsAt-queue gone q ss h = inr h

  IsAt-placed :
      (o : Owner T W) (q q' : Option (Queue T)) (ss : List (Slot T W)) (i : ℕ) (s s' : Slot T W)
      → get_elem? ss i ≡ some s
      → Follows q q'
      → (IsEnded s → IsEnded s')
      → IsAt o q ss
      → IsAt o q' (set ss i s')
  IsAt-placed (making n) q q' ss i s s' e f w h = f.empty h
  IsAt-placed (timing n t) q q' ss i s s' e f w (h, y) = (f.empty h, y)
  IsAt-placed (linking n t) q q' ss i s s' e f w (h, y) = (f.empty h, y)
  IsAt-placed serving q q' ss i s s' e f w h = f.there h
  IsAt-placed (stopping k) q q' ss i s s' e f w h = f.there h
  IsAt-placed (joining k) q q' ss i s s' e f w (h, b) =
      (f.there h, AllBefore-set IsEnded k i ss s s' e w b)
  IsAt-placed gone q q' ss i s s' e f w h =
      All-set IsEnded ss i s' h (w (All-get IsEnded ss i s h e))

module _ {T : Type 0} {W : Type 0} (run : T → W → W) where
  Moved-Follows :
      (o : Option (Queue T)) (q : Queue T) (s : Slot T W) (r : Option (Queue T) × Slot T W)
      → o ≡ some q
      → q.drop_old_on_full ≡ false
      → Moved run q s r
      → Follows o r.0
  Moved-Follows o q s r e k m =
      let (q', there, same, empty) = m.queue in
      record {
        there = λ h. (q', there, same ∙ k);
        empty = λ h.
            (let (q1, e1, k1, none_left) = h in
              let same1 : q1 ≡ q = cc in
              (q', there, same ∙ k, empty (subst (λ x. x.items ≡ []) same1 none_left)));
      }

  Moved-IsAlive :
      (q : Queue T) (s : Slot T W) (r : Option (Queue T) × Slot T W) (w : W)
      → s.is_deleted ≡ false
      → s.real_worker ≡ some w
      → (ms : ℕ) → s.q_timeout ≡ some ms
      → Moved run q s r
      → IsAlive r.1
  Moved-IsAlive q s r w d e ms tm m =
      let (w', e') = m.keeps_real w e in inr (m.worker ∙ d, w', e', ms, m.timeout ∙ tm)

  thread_moves :
      (o : Option (Queue T)) (q : Queue T) (s : Slot T W)
      → o ≡ some q
      → s.is_deleted ≡ false
      → NotRunning s.thread ⊎ ((w : W) × (s.real_worker ≡ some w))
      → (ms : ℕ) → s.q_timeout ≡ some ms
      → Safely (Moved run q s) (thread_move run o s)
  thread_moves o q s e d r ms tm =
      subst (λ x. Safely (Moved run q s) (thread_move run x s)) (sym e)
        (thread_move-Moved run q s d r ms tm)

  ended-waits : (o : Option (Queue T)) (s : Slot T W) → IsEnded s → thread_move run o s ≡ waiting
  unfolding thread_move
  ended-waits o s e = rw e refl

  pub indexed-IsSound :
      (i : ℕ) (l : Life T W) (s : Slot T W)
      → get_elem? l.slots i ≡ some s
      → IsSound l
      → IsAlive s
      → HasQueue l.task_q ⊎ All IsEnded l.slots
      → Safely IsSound (indexed_move run (some s) i l)
  indexed-IsSound i l s e h (inl over) q = rw (ended-waits l.task_q s over) tt
  indexed-IsSound i l s e h (inr a) (inr all) =
      rw (ended-waits l.task_q s (All-get IsEnded l.slots i s all e)) tt
  indexed-IsSound i l s e h (inr (d, w, r, ms, tm)) (inl (q, f, k)) =
      Safely-bind (Moved run q s) IsSound (thread_move run l.task_q s) (placed run i l)
        (thread_moves l.task_q q s f d (inr (w, r)) ms tm)
        (λ x m. record {
          alive = All-set IsAlive l.slots i x.1 h.alive (Moved-IsAlive q s x w d r ms tm m);
          at_owner =
              IsAt-placed l.owner l.task_q x.0 l.slots i s x.1 e
                (Moved-Follows l.task_q q s x f k m) m.was h.at_owner;
        })

  refreshed-IsSound :
      (k : Slot T W → Owner T W) (l : Life T W) (s : Slot T W)
      → ((q : Option (Queue T)) (x : Slot T W) → HasEmptyQueue q → IsYoung x → IsAt (k x) q l.slots)
      → All IsAlive l.slots
      → HasEmptyQueue l.task_q
      → IsYoung s
      → Safely IsSound (thread_move run l.task_q s >>= refreshed run k l)
  refreshed-IsSound k l s at a (q, f, keeps, empty) (d, idle, ms, tm) =
      Safely-bind (Moved run q s) IsSound (thread_move run l.task_q s) (refreshed run k l)
        (thread_moves l.task_q q s f d (inl idle) ms tm)
        (λ x m. record {
          alive = a;
          at_owner =
              at x.0 x.1 ((Moved-Follows l.task_q q s x f keeps m).empty (q, f, keeps, empty))
                (m.worker ∙ d, m.young empty idle, ms, m.timeout ∙ tm);
        })

  pub newest-IsSound :
      (o : Owner T W) (l : Life T W)
      → All IsAlive l.slots
      → IsAt o l.task_q l.slots
      → (IsTiming o × (newest_move run o l ≡ fault)) ⊎ Safely IsSound (newest_move run o l)
  unfolding thread_move
  newest-IsSound (timing n s) l a (h, e) = inl (tt, rw e refl)
  newest-IsSound (linking n s) l a (h, y) =
      inr (refreshed-IsSound (linking n) l s (λ q x h y. (h, y)) a h y)
  newest-IsSound _ l a h = inr tt

  push_keeps :
      (q : Queue T) (t : T)
      → q.drop_old_on_full ≡ false
      → Safely (λ (r : Bool × Queue T). r.1.drop_old_on_full ≡ false) (Queue.push q t 0 [])
  unfolding Queue.push
  push_keeps q t k = elim (Bool-cases (leb q.max_q_len (length q.items))) [
    | inl full ↦ let out : Queue.push q t 0 [] ≡ ret (false, q) = ground arith in rw out k
    | inr free ↦
        let out : Queue.push q t 0 [] ≡ ret (true, record q { items = q.items ++ (t ∷ []) }) =
          ground arith in
        rw out k
  ]

  push-IsSound :
      (l : Life T W) (q : Queue T) (t : T)
      → l.owner ≡ serving
      → All IsAlive l.slots
      → q.drop_old_on_full ≡ false
      → Safely IsSound (Queue.push q t 0 [] >>= pushed run l)
  push-IsSound l q t o a k =
      Safely-bind (λ r. r.1.drop_old_on_full ≡ false) IsSound (Queue.push q t 0 []) (pushed run l)
        (push_keeps q t k)
        (λ r kept. record {
          alive = a;
          at_owner = subst (λ x. IsAt x (some r.1) l.slots) (sym o) (r.1, refl, kept);
        })

  pub add-IsSound :
      (o : Owner T W) (q : Option (Queue T)) (t : T) (l : Life T W)
      → l.owner ≡ o
      → All IsAlive l.slots
      → IsAt o q l.slots
      → Safely IsSound (add_move run o q t l)
  add-IsSound serving none t l e a (q, f, k) = cc
  add-IsSound serving (some q) t l e a (q', f, k) =
      let same : q' ≡ q = cc in
      push-IsSound l q t e a (subst (λ x. x.drop_old_on_full ≡ false) same k)
  add-IsSound _ q t l e a h = tt
