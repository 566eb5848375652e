-- ===== src/Prelude/Bytes.antt =====
-- 32-bit words in memory and on the wire. `htonl` and `ntohl` are seen through the four bytes that
-- `memcpy` moves: the big-endian ones of the value.
use Prim.Native.Nat.{ℕ, ◌+◌, ◌*◌, ◌/◌, ◌%◌, ◌^◌, ◌<◌}
use Prim.Native.Char.{code}
use Prim.Native.String.{String}
use mathlib.Core.Path.{◌≡◌, refl}
use mathlib.Core.Logic.{◌≢◌}
use mathlib.Core.List.{List, [], ◌∷◌, ◌++◌}
use native.Mathlib.Omega.{arith}
use rpcframe.Prelude.Lists.{length}

-- A `std::string`, or the contents of a `char` buffer.
abbrev pub Str : Type 0
Str = List ℕ

-- The bytes of an ASCII literal.
abbrev pub codes : String → Str
codes String.[] = []
codes (String.◌∷◌ c s) = code c ∷ codes s

abbrev pub u32 : ℕ → ℕ
u32 n = n % 2 ^ 32

abbrev pub u64 : ℕ → ℕ
u64 n = n % 2 ^ 64

-- The bytes that `memcpy` takes from `htonl(n)`.
unfoldable pub be32 : ℕ → Str
be32 n = n / 0x1000000 % 256 ∷ n / 0x10000 % 256 ∷ n / 0x100 % 256 ∷ n % 256 ∷ []

-- `ntohl` of the word stored in the first four bytes.
unfoldable pub ntohl : Str → ℕ
ntohl (a ∷ b ∷ c ∷ d ∷ rest) = a * 0x1000000 + b * 0x10000 + c * 0x100 + d
ntohl short = 0

abbrev pub AreBytes : Str → Type 0
AreBytes [] = Unit
AreBytes (x ∷ xs) = (x < 256) × AreBytes xs

pub length-be32 : (n : ℕ) → length (be32 n) ≡ 4
unfolding be32
length-be32 n = refl

pub ntohl-be32 : (n : ℕ) (rest : Str) → n < 2 ^ 32 → ntohl (be32 n ++ rest) ≡ n
unfolding be32 ntohl
ntohl-be32 n rest h = omega arith

pub be32-ntohl : (w : Str) → length w ≡ 4 → AreBytes w → be32 (ntohl w) ≡ w
unfolding be32 ntohl
be32-ntohl (a ∷ b ∷ c ∷ d ∷ []) e h = ground arith
be32-ntohl [] e h = absurd (omega arith)
be32-ntohl (a ∷ []) e h = absurd (omega arith)
be32-ntohl (a ∷ b ∷ []) e h = absurd (omega arith)
be32-ntohl (a ∷ b ∷ c ∷ []) e h = absurd (omega arith)
be32-ntohl (a ∷ b ∷ c ∷ d ∷ x ∷ r) e h = absurd (omega arith)

pub ntohl-lt : (w : Str) → AreBytes w → ntohl w < 2 ^ 32
unfolding ntohl
ntohl-lt (a ∷ b ∷ c ∷ d ∷ r) h = omega arith
ntohl-lt [] h = omega arith
ntohl-lt (a ∷ []) h = omega arith
ntohl-lt (a ∷ b ∷ []) h = omega arith
ntohl-lt (a ∷ b ∷ c ∷ []) h = omega arith

pub AreBytes-append : (xs ys : Str) → AreBytes xs → AreBytes ys → AreBytes (xs ++ ys)
AreBytes-append [] ys p q = q
AreBytes-append (x ∷ xs) ys p q = (p.0, AreBytes-append xs ys p.1 q)

pub be32-append-ne-nil : (n : ℕ) (s : Str) → be32 n ++ s ≢ []
unfolding be32
be32-append-ne-nil n s e = cc
