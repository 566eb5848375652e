-- ===== src/ThreadPool/Life/Safe.antt =====
-- What the threads of a pool touch from its constructor to the end of its destructor.
use rpcframe.Prelude.{
  Exec, waiting, fault, ap, ◌++◌, inl, inr, ◌⊎◌, ret, subst, All, All-get, ℕ, Option, none, some,
  List, [], ◌∷◌, get_elem?, ◌≡◌, refl, Safely, Safely-map,
}
use rpcframe.ThreadPool.Life.{
  Slot, gone, Life, Move, own, thread, newest, add, own_move, indexed_move, move, live, born,
}
use rpcframe.ThreadPool.Life.Alive.{IsTiming, IsEnded, IsAlive, IsAt, IsSound}
use rpcframe.ThreadPool.Life.Owning.{own_move-IsSound_at}
use rpcframe.ThreadPool.Life.Threads.{IsAt-queue, indexed-IsSound, newest-IsSound, add-IsSound}

module _ {T : Type 0} {W : Type 0} (run : T → W → W) (real : W) where
  indexed_at :
      (i : ℕ) (l : Life T W) (o : Option (Slot T W))
      → get_elem? l.slots i ≡ o
      → IsSound l
      → Safely IsSound (indexed_move run o i l)
  indexed_at i l none e h = tt
  indexed_at i l (some s) e h =
      indexed-IsSound run i l s e h (All-get IsAlive l.slots i s h.alive e)
        (IsAt-queue l.owner l.task_q l.slots h.at_owner)

  -- The thread of a Worker under construction moves before its timeout is set.
  abbrev IsEarly : Move T → Life T W → Type 0
  IsEarly m l = (m ≡ newest) × IsTiming l.owner

  pub move-IsSound :
      (m : Move T) (l : Life T W)
      → IsSound l
      → (IsEarly m l × (move run real m l ≡ fault)) ⊎ Safely IsSound (move run real m l)
  unfolding move own_move
  move-IsSound own l h = inr (own_move-IsSound_at real l.owner l h.alive h.at_owner)
  move-IsSound (thread i) l h = inr (indexed_at i l (get_elem? l.slots i) refl h)
  move-IsSound newest l h = elim (newest-IsSound run l.owner l h.alive h.at_owner) [
    | inl (early, bad) ↦ inl ((refl, early), bad)
    | inr safe ↦ inr safe
  ]
  move-IsSound (add t) l h = inr (add-IsSound run l.owner l.task_q t l refl h.alive h.at_owner)

  -- The schedule has such a move.
  abbrev pub ReadsEarly : List (Move T) → Life T W → Type 0
  ReadsEarly ms l =
      (before : List (Move T)) × (rest : List (Move T)) × (now : Life T W) × (ms
        ≡ before ++ (newest ∷ rest))
      × (live run real before l ≡ ret now)
      × IsTiming now.owner

  later-ReadsEarly :
      (m : Move T) (ms : List (Move T)) (l l' : Life T W)
      → move run real m l ≡ ret l'
      → ReadsEarly ms l'
      → ReadsEarly (m ∷ ms) l
  unfolding live
  later-ReadsEarly m ms l l' e (before, rest, now, split, runs, early) =
      (m ∷ before, rest, now, ap (λ x. m ∷ x) split, rw e runs, early)

  abbrev EndsWell : List (Move T) → Life T W → Type 0
  EndsWell ms l =
      (ReadsEarly ms l × (live run real ms l ≡ fault)) ⊎ Safely IsSound (live run real ms l)

  goes_on :
      (m : Move T) (ms : List (Move T)) (l : Life T W) (x : Exec (Life T W))
      → move run real m l ≡ x
      → Safely IsSound x
      → ((l' : Life T W) → IsSound l' → EndsWell ms l')
      → EndsWell (m ∷ ms) l
  unfolding live
  goes_on m ms l waiting e safe rest = inr (rw e tt)
  goes_on m ms l fault e safe rest = absurd safe
  goes_on m ms l (ret l') e safe rest = elim (rest l' safe) [
    | inl (early, bad) ↦ inl (later-ReadsEarly m ms l l' e early, rw e bad)
    | inr sound ↦ inr (rw e sound)
  ]

  live-IsSound : (ms : List (Move T)) (l : Life T W) → IsSound l → EndsWell ms l
  unfolding live
  live-IsSound [] l h = inr h
  live-IsSound (m ∷ ms) l h = elim (move-IsSound m l h) [
    | inl (early, bad) ↦ inl (([], ms, l, ap (λ x. x ∷ ms) early.0, refl, early.1), rw bad refl)
    | inr safe ↦ goes_on m ms l (move run real m l) refl safe (λ l' h'. live-IsSound ms l' h')
  ]

  born-IsSound : (thread_num : ℕ) → IsSound {T = T} {W = W} (born thread_num)
  unfolding born
  born-IsSound n = record { alive = tt; at_owner = (_, refl, refl, refl) }

  pub reached-IsSound :
      (thread_num : ℕ) (ms : List (Move T)) (l : Life T W)
      → live run real ms (born thread_num) ≡ ret l
      → IsSound l
  reached-IsSound n ms l e = elim (live-IsSound ms (born n) (born-IsSound n)) [
    | inl (early, bad) ↦ cc
    | inr sound ↦ rw e at sound
  ]

  -- The owner, the threads and the callers of `addTask` take turns in any way, from the constructor to
  -- the end of the destructor. Either a thread reads the timeout of its Worker before the constructor
  -- has set it, which is undefined. Or nothing undefined happens: no thread reads that timeout, or
  -- calls a real worker, before it is set, calls one after it is deleted, or uses a Worker or the
  -- queue after it is destroyed; and when the owner is through, every thread has ended.
  pub pool_is_safe :
      (thread_num : ℕ) (ms : List (Move T))
      → (ReadsEarly ms (born thread_num) × (live run real ms (born thread_num) ≡ fault))
        ⊎ Safely (λ l. (l.owner ≡ gone → All IsEnded l.slots)) (live run real ms (born thread_num))
  pool_is_safe n ms = elim (live-IsSound ms (born n) (born-IsSound n)) [
    | inl early ↦ inl early
    | inr sound ↦ inr (
        Safely-map IsSound (λ l. (l.owner ≡ gone → All IsEnded l.slots)) (live run real ms (born n))
          sound (λ l h e. subst (λ x. IsAt x l.task_q l.slots) e h.at_owner))
  ]
