-- ===== src/ThreadPool/Life/Ends.antt =====
-- The destructor of a pool comes to its end.
use rpcframe.Prelude.{
  ℕ, zero, suc, true, Option, none, some, List, [], ◌∷◌, get_elem?, set, ◌≡◌, refl, ap, subst, ◌∙◌,
  get_elem?-set_self, ret, arith, ◌⊎◌, inl, inr, ◌≤◌, ◌<◌, ◌+◌, length, All, All-get, All-set,
  AllBefore, AllBefore-set, AllBefore-suc, AllBefore-end,
}
use rpcframe.Queue.{Queue}
use rpcframe.ThreadPool.Life.{
  Slot, serving, stopping, joining, gone, Life, Move, own, thread, own_move, move_from, thread_move,
  move, live, born,
}
use rpcframe.ThreadPool.Life.Alive.{IsEnded, IsAlive, HasQueue, IsAt, IsSound}
use rpcframe.ThreadPool.Life.Safe.{move-IsSound, reached-IsSound}
use rpcframe.ThreadPool.Life.Nearer.{
  length-set, get_elem?-in, get_elem?-out, move-Nearer, left, IsStopped, Nearer, Returns-result,
}

module _ {T : Type 0} {W : Type 0} (run : T → W → W) (real : W) where
  -- There is a schedule in which the destructor ends.
  abbrev pub Finishes : Life T W → Type 0
  Finishes l =
      (ms : List (Move T)) × (l' : Life T W) × (live run real ms l ≡ ret l') × (l'.owner ≡ gone)

  step : (m : Move T) (l l1 : Life T W) → move run real m l ≡ ret l1 → Finishes l1 → Finishes l
  unfolding live
  step m l l1 e (ms, l', runs, over) = (m ∷ ms, l', rw e runs, over)

  IsSound-after :
      (m : Move T) (l l1 : Life T W) → move run real m l ≡ ret l1 → IsSound l → IsSound l1
  IsSound-after m l l1 e h = elim (move-IsSound run real m l h) [
    | inl (early, bad) ↦ cc
    | inr safe ↦ rw e at safe
  ]

  -- The destructor joins worker `i`, and `k` are left.
  record Closing (i k : ℕ) (l : Life T W) : Type 0 where
    owner : l.owner ≡ joining i
    sound : IsSound l
    stopped : All IsStopped l.slots
    size : length l.slots ≡ i + k

  joins-ended :
      (i k : ℕ) (l : Life T W) (s : Slot T W)
      → get_elem? l.slots i ≡ some s
      → IsEnded s
      → Closing i (suc k) l
      → ((l1 : Life T W) → Closing (suc i) k l1 → Finishes l1)
      → Finishes l
  unfolding move own_move
  joins-ended i k l s e over c next =
      let s' : Slot T W = record s { real_worker = none; is_deleted = true } in
      let l1 : Life T W = record l { owner = joining (suc i); slots = set l.slots i s' } in
      let out : move run real own l ≡ ret l1 = ground (arith, c.owner) in
      step own l l1 out (
        next l1 (record {
          owner = refl;
          sound = IsSound-after own l l1 out c.sound;
          stopped =
              All-set IsStopped l.slots i s' c.stopped (All-get IsStopped l.slots i s c.stopped e);
          size = length-set l.slots i s' ∙ (omega (arith, c.size));
        }))

  has_queue : (i k : ℕ) (l : Life T W) → Closing i k l → HasQueue l.task_q
  has_queue i k l c = let h = subst (λ o. IsAt o l.task_q l.slots) c.owner c.sound.at_owner in h.0

  -- The thread of worker `i` has ended, or it moves and is nearer to its end.
  nears :
      (i k : ℕ) (l : Life T W) (s : Slot T W)
      → get_elem? l.slots i ≡ some s
      → Closing i (suc k) l
      → IsEnded s
        ⊎ ((r : Option (Queue T) × Slot T W) × (thread_move run l.task_q s ≡ ret r)
            × (left r.1.thread < left s.thread)
            × IsStopped r.1)
  unfolding Nearer thread_move
  nears i k l s e c = elim (All-get IsAlive l.slots i s c.sound.alive e) [
    | inl over ↦ inl over
    | inr (d, w, r, ms, tm) ↦
        let (q, f, keeps) = has_queue i (suc k) l c in
        elim (move-Nearer run s.thread q s w refl d r (All-get IsStopped l.slots i s c.stopped e)) [
          | inl over ↦ inl over
          | inr near ↦
              let (x, out, near1) =
                Returns-result (Nearer run s) (move_from run s.thread (some q) s) near in
              inr (x, ap (λ o. thread_move run o s) f ∙ out, near1.0, near1.1)
        ]
  ]

  moves_thread :
      (i k : ℕ) (l : Life T W) (s : Slot T W) (r : Option (Queue T) × Slot T W)
      → get_elem? l.slots i ≡ some s
      → thread_move run l.task_q s ≡ ret r
      → IsStopped r.1
      → Closing i k l
      → (move run real (thread i) l ≡ ret (record l { task_q = r.0; slots = set l.slots i r.1 }))
        × Closing i k (record l { task_q = r.0; slots = set l.slots i r.1 })
  unfolding move
  moves_thread i k l s r e out off c =
      let l1 : Life T W = record l { task_q = r.0; slots = set l.slots i r.1 } in
      let moved : move run real (thread i) l ≡ ret l1 = rw (e, out) refl in
      (
        moved,
        record {
          owner = c.owner;
          sound = IsSound-after (thread i) l l1 moved c.sound;
          stopped = All-set IsStopped l.slots i r.1 c.stopped off;
          size = length-set l.slots i r.1 ∙ c.size;
        },
      )

  drains :
      (n i k : ℕ) (l : Life T W) (s : Slot T W)
      → get_elem? l.slots i ≡ some s
      → left s.thread ≤ n
      → Closing i (suc k) l
      → ((l1 : Life T W) → Closing (suc i) k l1 → Finishes l1)
      → Finishes l
  drains zero i k l s e h c next = elim (nears i k l s e c) [
    | inl over ↦ joins-ended i k l s e over c next
    | inr (r, out, less, off) ↦ absurd (omega arith)
  ]
  drains (suc n) i k l s e h c next = elim (nears i k l s e c) [
    | inl over ↦ joins-ended i k l s e over c next
    | inr (r, out, less, off) ↦
        let (moved, c1) = moves_thread i (suc k) l s r e out off c in
        step (thread i) l _ moved
          (drains n i k _ r.1 (get_elem?-set_self l.slots i s r.1 e) (omega arith) c1 next)
  ]

  joins : (k i : ℕ) (l : Life T W) → Closing i k l → Finishes l
  unfolding move own_move live
  joins zero i l c =
      let there : get_elem? l.slots i ≡ none = get_elem?-out l.slots i (omega (arith, c.size)) in
      let out : move run real own l ≡ ret (record l { owner = gone; task_q = none }) =
        ground (arith, c.owner) in
      step own l _ out ([], _, refl, refl)
  joins (suc k) i l c =
      let (s, e) = get_elem?-in l.slots i (omega (arith, c.size)) in
      drains (left s.thread) i k l s e (omega arith) c (λ l1 c1. joins k (suc i) l1 c1)

  -- The destructor tells worker `i` to stop, and `k` are left.
  record Stopping (i k : ℕ) (l : Life T W) : Type 0 where
    owner : l.owner ≡ stopping i
    sound : IsSound l
    stopped : AllBefore IsStopped i l.slots
    size : length l.slots ≡ i + k

  stops : (k i : ℕ) (l : Life T W) → Stopping i k l → Finishes l
  unfolding move own_move
  stops zero i l c =
      let there : get_elem? l.slots i ≡ none = get_elem?-out l.slots i (omega (arith, c.size)) in
      let l1 : Life T W = record l { owner = joining 0 } in
      let out : move run real own l ≡ ret l1 = ground (arith, c.owner) in
      step own l l1 out (
        joins (length l.slots) 0 l1 (record {
          owner = refl;
          sound = IsSound-after own l l1 out c.sound;
          stopped = AllBefore-end IsStopped i l.slots there c.stopped;
          size = omega arith;
        }))
  stops (suc k) i l c =
      let (s, e) = get_elem?-in l.slots i (omega (arith, c.size)) in
      let s' : Slot T W = record s { stopped = true } in
      let l1 : Life T W = record l { owner = stopping (suc i); slots = set l.slots i s' } in
      let out : move run real own l ≡ ret l1 = ground (arith, c.owner) in
      step own l l1 out (
        stops k (suc i) l1 (record {
          owner = refl;
          sound = IsSound-after own l l1 out c.sound;
          stopped =
              AllBefore-suc IsStopped i (set l.slots i s') s' (get_elem?-set_self l.slots i s s' e)
                refl (AllBefore-set IsStopped i i l.slots s s' e (λ f. refl) c.stopped);
          size = length-set l.slots i s' ∙ (omega (arith, c.size));
        }))

  -- Whatever the pool did before, from where its owner still uses it the destructor can come to its
  -- end: no thread that is told to stop is kept from its end by the others.
  pub destructor_ends :
      (thread_num : ℕ) (ms : List (Move T)) (l : Life T W)
      → live run real ms (born thread_num) ≡ ret l
      → l.owner ≡ serving
      → Finishes l
  unfolding move own_move
  destructor_ends n ms l e o =
      let l1 : Life T W = record l { owner = stopping 0 } in
      let out : move run real own l ≡ ret l1 = ground (arith, o) in
      step own l l1 out (
        stops (length l.slots) 0 l1 (record {
          owner = refl;
          sound = IsSound-after own l l1 out (reached-IsSound run real n ms l e);
          stopped = tt;
          size = omega arith;
        }))
