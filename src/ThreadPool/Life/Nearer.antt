-- ===== src/ThreadPool/Life/Nearer.antt =====
-- A thread that is told to stop is nearer to its end after each of its moves.
use rpcframe.Prelude.{
  ℕ, zero, suc, true, false, Option, none, some, List, [], ◌∷◌, get_elem?, set, ◌≡◌, refl, ap, Exec,
  ret, waiting, fault, Returns, arith, ◌⊎◌, inl, inr, ◌≤◌, ◌<◌, length,
}
use rpcframe.Queue
use rpcframe.Queue.{Queue, timed_out}
use rpcframe.ThreadPool.Life.{Doing, looking, popping, working, ended, Slot, move_from}

module _ {A : Type 0} where
  pub length-set : (xs : List A) (i : ℕ) (x : A) → length (set xs i x) ≡ length xs
  length-set [] i x = refl
  length-set (y ∷ xs) zero x = refl
  length-set (y ∷ xs) (suc i) x = ap suc (length-set xs i x)

  pub get_elem?-in : (xs : List A) (i : ℕ) → i < length xs → (x : A) × (get_elem? xs i ≡ some x)
  get_elem?-in [] i h = absurd (omega arith)
  get_elem?-in (x ∷ xs) zero h = (x, refl)
  get_elem?-in (x ∷ xs) (suc i) h = get_elem?-in xs i (omega arith)

  pub get_elem?-out : (xs : List A) (i : ℕ) → length xs ≤ i → get_elem? xs i ≡ none
  get_elem?-out [] i h = refl
  get_elem?-out (x ∷ xs) zero h = absurd (omega arith)
  get_elem?-out (x ∷ xs) (suc i) h = get_elem?-out xs i (omega arith)

module _ {T : Type 0} where
  -- The moves that a thread has left when it is told to stop, at most.
  abbrev pub left : Doing T → ℕ
  left ended = 0
  left looking = 1
  left (working t) = 2
  left (popping ms) = 3

module _ {T : Type 0} {W : Type 0} where
  abbrev pub IsStopped : Slot T W → Type 0
  IsStopped s = s.stopped ≡ true

module _ {T : Type 0} {W : Type 0} (run : T → W → W) where
  unfoldable pub Nearer : Slot T W → Option (Queue T) × Slot T W → Type 0
  Nearer s r = (left r.1.thread < left s.thread) × IsStopped r.1

  pop-Nearer :
      (q : Queue T) (ms : ℕ) (s : Slot T W) (l : List T)
      → q.items ≡ l
      → s.is_deleted ≡ false
      → IsStopped s
      → s.thread ≡ popping ms
      → Returns (Nearer s) (move_from run (popping ms) (some q) s)
  unfolding Queue.pop Nearer
  pop-Nearer q ms s [] f d h e =
      let out : move_from run (popping ms) (some q) s
          ≡ ret (some q, record s { thread = looking }) =
        ground arith in
      rw out (rw e (omega arith), h)
  pop-Nearer q ms s (x ∷ xs) f d h e =
      let out : move_from run (popping ms) (some q) s
          ≡ ret (some (record q { items = xs }), record s { thread = working x }) =
        ground arith in
      rw out (rw e (omega arith), h)

  pub move-Nearer :
      (d : Doing T) (q : Queue T) (s : Slot T W) (w : W)
      → s.thread ≡ d
      → s.is_deleted ≡ false
      → s.real_worker ≡ some w
      → IsStopped s
      → (d ≡ ended) ⊎ Returns (Nearer s) (move_from run d (some q) s)
  unfolding Nearer
  move-Nearer ended q s w e d r h = inl refl
  move-Nearer looking q s w e d r h =
      let out : move_from run looking (some q) s ≡ ret (some q, record s { thread = ended }) =
        ground arith in
      inr (rw out (rw e (omega arith), h))
  move-Nearer (working t) q s w e d r h =
      let out : move_from run (working t) (some q) s
          ≡ ret (some q, record s { thread = looking; real_worker = some (run t w) }) =
        ground arith in
      inr (rw out (rw e (omega arith), h))
  move-Nearer (popping ms) q s w e d r h = inr (pop-Nearer q ms s q.items refl d h e)

pub Returns-result {ℓ} :
    {A : Type ℓ} (P : A → Type 0) (x : Exec A) → Returns P x → (a : A) × (x ≡ ret a) × P a
Returns-result P (ret a) h = (a, refl, h)
Returns-result P waiting h = elim h [ ]
Returns-result P fault h = elim h [ ]
