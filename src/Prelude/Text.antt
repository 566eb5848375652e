-- ===== src/Prelude/Text.antt =====
-- Numbers printed in decimal, as `std::to_string` and `operator<<` do.
use Prim.Native.Nat.{ℕ, zero, suc, ◌+◌, ◌-◌, ◌*◌, ◌/◌, ◌%◌, ◌≤◌, ◌<◌}
use mathlib.Core.Path.{◌≡◌, refl, sym, ap, ◌∙◌}
use mathlib.Core.Logic.{inl, inr}
use native.Mathlib.Omega.{arith}
use mathlib.Core.List.{[], ◌∷◌}
use rpcframe.Prelude.Tests.{ltb, if◌then◌else◌, Bool-cases}
use rpcframe.Prelude.Bytes.{Str, codes}

-- The fuel is above the number, which falls with each digit.
unfoldable pub digits : ℕ → ℕ → Str → Str
digits zero n acc = acc
digits (suc fuel) n acc =
    let more = digits fuel (n / 10) ((48 + n % 10) ∷ acc) in
    if ltb n 10 then (48 + n) ∷ acc else more

unfoldable pub to_string : ℕ → Str
unfolding digits
to_string n = digits (suc n) n []

to_string_runs : to_string 20480 ≡ codes "20480"
unfolding to_string
to_string_runs = refl

-- The number that digits spell, behind `m`.
abbrev spelled : ℕ → Str → ℕ
spelled m [] = m
spelled m (c ∷ s) = spelled (m * 10 + (c - 48)) s

spelled-digits :
    (fuel n : ℕ) (rest : Str) → n < fuel → spelled 0 (digits fuel n rest) ≡ spelled n rest
unfolding digits
spelled-digits zero n rest h = absurd (omega arith)
spelled-digits (suc fuel) n rest h = elim (Bool-cases (ltb n 10)) [
  | inl short ↦
      (let e : 0 * 10 + (48 + n - 48) ≡ n = omega arith in
        rw (short) (ap (λ (m : ℕ). spelled m rest) e))
  | inr long ↦
      (let e : n / 10 * 10 + (48 + n % 10 - 48) ≡ n = omega arith in
        rw long (
          spelled-digits fuel (n / 10) ((48 + n % 10) ∷ rest) (ground arith)
          ∙ ap (λ (m : ℕ). spelled m rest) e))
]

-- Numbers that print alike are the same.
pub to_string-injective : (m n : ℕ) → to_string m ≡ to_string n → m ≡ n
unfolding to_string
to_string-injective m n e =
    sym (spelled-digits (suc m) m [] (omega arith))
    ∙ (ap (spelled 0) e ∙ spelled-digits (suc n) n [] (omega arith))

abbrev pub AreDigits : Str → Type 0
AreDigits [] = Unit
AreDigits (c ∷ s) = (48 ≤ c) × (c < 58) × AreDigits s

digits-AreDigits : (fuel n : ℕ) (rest : Str) → AreDigits rest → AreDigits (digits fuel n rest)
unfolding digits
digits-AreDigits zero n rest h = h
digits-AreDigits (suc fuel) n rest h = elim (Bool-cases (ltb n 10)) [
  | inl short ↦ (rw short (omega arith, ground arith, h))
  | inr long ↦
      (rw long
        (digits-AreDigits fuel (n / 10) ((48 + n % 10) ∷ rest) (omega arith, omega arith, h)))
]

pub to_string-AreDigits : (n : ℕ) → AreDigits (to_string n)
unfolding to_string
to_string-AreDigits n = digits-AreDigits (suc n) n [] tt
