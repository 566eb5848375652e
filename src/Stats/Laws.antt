-- ===== src/Stats/Laws.antt =====
-- What the running statistics of RpcServerImpl say of the samples that they were given.
use rpcframe.Prelude.{
  ℕ, zero, suc, ◌+◌, ◌*◌, ◌^◌, ◌≤◌, ◌<◌, ◌≡◌, refl, ◌∙◌, ap, sym, subst, ◌⊎◌, ◌/◌, List, [], ◌∷◌,
  length, ◌==◌, max, arith, u64, Bool-cases, inl, inr, replicate,
}
use native.Mathlib.Nat.{div-le_of_le-mul, div-mul-le_self, lt-div-mul-add}
use rpcframe.Stats.{Stats, no_stats, next_avg, calc_call_time}

-- The calls of `calcCallTime`, in the order in which they get the lock.
unfoldable pub calls : List ℕ → Stats → Stats
calls [] s = s
calls (t ∷ ts) s = calls ts (calc_call_time t s)

abbrev pub AllUpTo : ℕ → List ℕ → Type 0
AllUpTo m [] = Unit
AllUpTo m (t ∷ ts) = (t ≤ m) × AllUpTo m ts

abbrev pub greatest : ℕ → List ℕ → ℕ
greatest m [] = m
greatest m (t ∷ ts) = greatest (max m t) ts

mul_mono : (a m n : ℕ) → a ≤ m → a * n ≤ m * n
mul_mono a m n h = grind arith

-- Nothing wraps while the samples are below 2 ^ 31 and fewer than 2 ^ 32.
next_avg-le :
    (m avg total t : ℕ)
    → avg ≤ m
    → t ≤ m
    → m < 2 ^ 31
    → total + 1 < 2 ^ 32
    → next_avg avg total t ≤ m
unfolding next_avg
next_avg-le m avg total t a h b c = elim (Bool-cases (avg == 0)) [
  | inl first ↦ rw (first, next_avg) h
  | inr later ↦
      let product : avg * total ≤ m * total = mul_mono avg m total a in
      let bound : m * total ≤ 2 ^ 31 * total = mul_mono m (2 ^ 31) total (omega arith) in
      let fits : u64 (u64 (avg * total) + t) ≡ avg * total + t = omega arith in
      let count : u64 (total + 1) ≡ total + 1 = omega arith in
      rw (later, next_avg, fits, count) (div-le_of_le-mul (total + 1) (omega arith))
]

-- `a` is the average after one more sample `t`: the mean of `total` samples with the average `avg` and
-- of `t`, rounded down; an average of 0 counts as no average.
abbrev pub IsNextMean : ℕ → ℕ → ℕ → ℕ → Type 0
IsNextMean avg total t a =
    ((avg ≡ 0) × (a ≡ t))
    ⊎ ((0 < avg) × (a * (total + 1) ≤ avg * total + t) × (avg * total + t < (a + 1) * (total + 1)))

-- `last` is the average after the samples.
abbrev pub AreMeans : ℕ → ℕ → List ℕ → ℕ → Type 0
AreMeans avg total [] last = last ≡ avg
AreMeans avg total (t ∷ ts) last =
    (a : ℕ) × IsNextMean avg total t a × AreMeans a (total + 1) ts last

next_avg-IsNextMean :
    (m avg total t : ℕ)
    → avg ≤ m
    → t ≤ m
    → m < 2 ^ 31
    → total + 1 < 2 ^ 32
    → IsNextMean avg total t (next_avg avg total t)
unfolding next_avg
next_avg-IsNextMean m avg total t a h b c = elim (Bool-cases (avg == 0)) [
  | inl first ↦ rw (first, next_avg) (inl (ground arith, refl))
  | inr later ↦
      let product : avg * total ≤ m * total = mul_mono avg m total a in
      let bound : m * total ≤ 2 ^ 31 * total = mul_mono m (2 ^ 31) total (omega arith) in
      let fits : u64 (u64 (avg * total) + t) ≡ avg * total + t = omega arith in
      let count : u64 (total + 1) ≡ total + 1 = omega arith in
      let x : ℕ = avg * total + t in
      let over : x < x / (total + 1) * (total + 1) + (total + 1) =
        lt-div-mul-add {a = x} {b = total + 1} (omega arith) in
      let split : (x / (total + 1) + 1) * (total + 1)
          ≡ x / (total + 1) * (total + 1) + (total + 1) =
        grind arith in
      rw (later, next_avg, fits, count)
        (inr (ground arith, div-mul-le_self x (total + 1), rw split over))
]

longest : (t : ℕ) (s : Stats) → (calc_call_time t s).max_call_time ≡ max s.max_call_time t
unfolding calc_call_time
longest t s = ground arith

counted :
    (t : ℕ) (s : Stats)
    → s.total_call_num + 1 < 2 ^ 32
    → (calc_call_time t s).total_call_num ≡ s.total_call_num + 1
unfolding calc_call_time
counted t s h = omega arith

average :
    (t : ℕ) (s : Stats)
    → (calc_call_time t s).avg_call_time ≡ next_avg s.avg_call_time s.total_call_num t
unfolding calc_call_time
average t s = refl

-- Fewer than 2 ^ 32 calls, with samples up to `m`, below 2 ^ 31: each average is the mean of the one before
-- it, with its number of calls, and of the new sample, rounded down, or the sample where the one before
-- is 0; so it stays within the samples; the longest call is the greatest of them, and the calls are
-- counted.
pub calls_lem :
    (ts : List ℕ) (s : Stats) (m : ℕ)
    → AllUpTo m ts
    → s.avg_call_time ≤ m
    → s.max_call_time ≤ m
    → m < 2 ^ 31
    → s.total_call_num + length ts < 2 ^ 32
    → AreMeans s.avg_call_time s.total_call_num ts (calls ts s).avg_call_time
      × ((calls ts s).avg_call_time ≤ m)
      × ((calls ts s).max_call_time ≡ greatest s.max_call_time ts)
      × ((calls ts s).total_call_num ≡ s.total_call_num + length ts)
unfolding calls
calls_lem [] s m h a x b c = (refl, a, refl, omega arith)
calls_lem (t ∷ ts) s m h a x b c =
    let n = counted t s (omega arith) in
    let (means, avg, top, num) =
      calls_lem ts (calc_call_time t s) m h.1
        (omega (
          arith,
          average t s,
          next_avg-le m s.avg_call_time s.total_call_num t a h.0 b (omega arith),
        ))
        (omega (arith, longest t s, h.0)) b (omega (arith, n)) in
    (
      (
        (calc_call_time t s).avg_call_time,
        subst (IsNextMean s.avg_call_time s.total_call_num t) (sym (average t s))
            (next_avg-IsNextMean m s.avg_call_time s.total_call_num t a h.0 b (omega arith)),
        subst
            (λ (k : ℕ).
              AreMeans (calc_call_time t s).avg_call_time k ts
                (calls ts (calc_call_time t s)).avg_call_time)
            n means,
      ),
      avg,
      top ∙ ap (λ (k : ℕ). greatest k ts) (longest t s),
      omega (arith, num, n),
    )

zero_calls : (n : ℕ) (s : Stats) → s.avg_call_time ≡ 0 → (calls (replicate n 0) s).avg_call_time ≡ 0
unfolding calls calc_call_time next_avg
zero_calls zero s e = e
zero_calls (suc n) s e = zero_calls n (calc_call_time 0 s) (ground arith)

-- The average forgets: after any number of calls that took no time, one that takes `t` makes it `t`,
-- and not `t` shared out over the calls.
calls_forget_zeros :
    (n t : ℕ) → (calc_call_time t (calls (replicate n 0) no_stats)).avg_call_time ≡ t
unfolding calc_call_time next_avg
calls_forget_zeros n t = ground (arith, zero_calls n no_stats refl)
