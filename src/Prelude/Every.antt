-- ===== src/Prelude/Every.antt =====
-- Lists of which every element, or every one of the first few, has a property.
use Prim.Native.Nat.{ℕ, zero, suc}
use mathlib.Core.Path.{◌≡◌, subst}
use mathlib.Core.List.{List, [], ◌∷◌, ◌++◌}
use mathlib.Core.Option.{none, some}
use rpcframe.Prelude.Lists.{get_elem?, set}

module _ {A : Type 0} (P : A → Type 0) where
  abbrev pub All : List A → Type 0
  All [] = Unit
  All (x ∷ xs) = P x × All xs

  pub All-get : (xs : List A) (i : ℕ) (x : A) → All xs → get_elem? xs i ≡ some x → P x
  All-get [] i x h e = cc
  All-get (y ∷ xs) zero x h e = let same : y ≡ x = cc in subst P same h.0
  All-get (y ∷ xs) (suc i) x h e = All-get xs i x h.1 e

  pub All-set : (xs : List A) (i : ℕ) (x : A) → All xs → P x → All (set xs i x)
  All-set [] i x h p = tt
  All-set (y ∷ xs) zero x h p = (p, h.1)
  All-set (y ∷ xs) (suc i) x h p = (h.0, All-set xs i x h.1 p)

  pub All-append : (xs : List A) (x : A) → All xs → P x → All (xs ++ (x ∷ []))
  All-append [] x h p = (p, tt)
  All-append (y ∷ xs) x h p = (h.0, All-append xs x h.1 p)

  -- The first `k` of them.
  abbrev pub AllBefore : ℕ → List A → Type 0
  AllBefore zero xs = Unit
  AllBefore (suc k) [] = Unit
  AllBefore (suc k) (x ∷ xs) = P x × AllBefore k xs

  pub AllBefore-set :
      (k i : ℕ) (xs : List A) (x y : A)
      → get_elem? xs i ≡ some x
      → (P x → P y)
      → AllBefore k xs
      → AllBefore k (set xs i y)
  AllBefore-set zero i xs x y e f h = tt
  AllBefore-set (suc k) i [] x y e f h = tt
  AllBefore-set (suc k) zero (z ∷ xs) x y e f h = (f (All-get (z ∷ []) 0 x (h.0, tt) e), h.1)
  AllBefore-set (suc k) (suc i) (z ∷ xs) x y e f h = (h.0, AllBefore-set k i xs x y e f h.1)

  pub AllBefore-suc :
      (k : ℕ) (xs : List A) (x : A)
      → get_elem? xs k ≡ some x
      → P x
      → AllBefore k xs
      → AllBefore (suc k) xs
  AllBefore-suc k [] x e p h = tt
  AllBefore-suc zero (y ∷ xs) x e p h = let same : x ≡ y = cc in (subst P same p, tt)
  AllBefore-suc (suc k) (y ∷ xs) x e p h = (h.0, AllBefore-suc k xs x e p h.1)

  pub AllBefore-end : (k : ℕ) (xs : List A) → get_elem? xs k ≡ none → AllBefore k xs → All xs
  AllBefore-end k [] e h = tt
  AllBefore-end zero (y ∷ xs) e h = cc
  AllBefore-end (suc k) (y ∷ xs) e h = (h.0, AllBefore-end k xs e h.1)
