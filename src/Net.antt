-- ===== src/Net.antt =====
-- A connected socket as the kernel shows it to `recv` and `send`: scripts of what happens next, in
-- both directions, and the bytes that the peer has been sent so far.
use rpcframe.Prelude.{
  ℕ, ◌≡◌, refl, sym, Bool, true, false, List, [], ◌∷◌, ◌++◌, append_assoc, ap, Str, ◌∙◌, take, drop,
  take-append-drop,
}

-- The values of `errno` that the code tells apart; `clear` is 0.
pub data Errno : Type 0 where
  clear eagain eintr epipe other : Errno

abbrev pub is_again : Errno → Bool
is_again eagain = true
is_again eintr = true
is_again _ = false

pub data Arrival : Type 0 where
  arrived : ℕ → Str → Arrival  -- at least one byte
  closed : Arrival  -- end of the stream: `recv` returns 0 from now on
  interrupted : Errno → Arrival  -- `recv` returns -1 once

pub data Room : Type 0 where
  room : ℕ → Room  -- `send` takes one byte more than this number, or all
  refuse : Errno → Room  -- `send` returns -1

pub record Socket : Type 0 where
  pub incoming : List Arrival
  pub outgoing : List Room
  pub wire : Str

-- What `recv` of `n` bytes leaves of a chunk in the kernel's buffer.
abbrev pub chunk : Str → List Arrival
chunk [] = []
chunk (b ∷ bs) = arrived b bs ∷ []

abbrev pub leftover : ℕ → Str → List Arrival
leftover n bs = chunk (drop n bs)

-- All bytes that are still to be received.
abbrev pub stream : List Arrival → Str
stream [] = []
stream (arrived b bs ∷ evs) = (b ∷ bs) ++ stream evs
stream (closed ∷ evs) = []
stream (interrupted e ∷ evs) = stream evs

pub stream-chunk : (bs : Str) (evs : List Arrival) → stream (chunk bs ++ evs) ≡ bs ++ stream evs
stream-chunk [] evs = refl
stream-chunk (b ∷ bs) evs = refl

-- Reading splits the stream at the bytes read.
pub stream-leftover :
    (n : ℕ) (bs : Str) (evs : List Arrival)
    → take n bs ++ stream (leftover n bs ++ evs) ≡ bs ++ stream evs
stream-leftover n bs evs =
    ap (◌++◌ (take n bs)) (stream-chunk (drop n bs) evs)
    ∙ (sym (append_assoc (take n bs) (drop n bs) (stream evs))
        ∙ ap (λ (l : Str). l ++ stream evs) (take-append-drop n bs))
