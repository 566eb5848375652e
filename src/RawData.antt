-- ===== src/RawData.antt =====
-- The bytes that a call brings and who keeps them: RawData of common/include/RpcDefs.h, its methods in
-- common/src/RawDataImpl.cpp, and RawDataImpl of common/include/RawDataImpl.h.
-- Objects and packages have numbers. A `RawDataImpl` belongs to one object; of it there is
-- `m_pkg_keeper`, and a package lives as long as an object keeps it.
pub mod Keepers
pub mod Handing
pub mod Dangling
mod Tests
use rpcframe.Prelude.{
  ℕ, zero, suc, ◌+◌, Bool, true, false, ◌||◌, Option, none, some, List, [], ◌∷◌, ◌++◌, Str, length,
  take, drop, set, get_elem?, ltb, ◌==◌, if◌then◌else◌, Exec, ret, fault, ◌>>=◌,
}

-- What `data` points to: nothing, bytes of the caller's own, or a package at an offset.
pub data Pointer : Type 0 where
  null : Pointer
  own : Str → Pointer
  within : ℕ → ℕ → Pointer

pub record RawData : Type 0 where
  pub data_ptr : Pointer
  pub data_len : ℕ
  pub keeper : ℕ

-- A destroyed object leaves `none`. The packages below `next` were made.
pub record Memory : Type 0 where
  pub objects : List (Option RawData)
  pub next : ℕ
  pub pkg_bytes : ℕ → Str

-- A method of an object that is gone is undefined.
abbrev pub exists : Option (Option RawData) → Exec RawData
exists none = fault
exists (some none) = fault
exists (some (some r)) = ret r

unfoldable pub object : ℕ → Memory → Exec RawData
object i h = exists (get_elem? h.objects i)

unfoldable pub put : ℕ → Option RawData → Memory → Memory
put i o h = record h { objects = set h.objects i o }

-- RawData(const char *, size_t): the new object keeps a package of its own. The others call it with
-- nullptr and 0, or with the bytes of a string.
unfoldable pub make : Pointer → ℕ → Memory → ℕ × Memory
make p len h = (
  length h.objects,
  record h {
    objects = h.objects ++ (some (record { data_ptr = p; data_len = len; keeper = h.next }) ∷ []);
    next = h.next + 1;
  },
)

-- The copy constructor assigns through `m_impl`, which points nowhere yet.
unfoldable pub copy : ℕ → Memory → Exec (ℕ × Memory)
unfolding object
copy i h = object i h >>= λ r. fault

-- `operator=`: the keepers change places.
unfoldable pub assign : ℕ → ℕ → Memory → Exec Memory
unfolding object put
assign i j h = do
  t ← object i h
  r ← object j h
  ret (put j (some (record r { keeper = t.keeper })) (put i (some r) h))

unfoldable pub destroy : ℕ → Memory → Exec Memory
unfolding object put
destroy i h = object i h >>= λ r. ret (put i none h)

-- `rd.m_impl->m_pkg_keeper = pkg`
unfoldable pub set_keeper : ℕ → ℕ → Memory → Exec Memory
unfolding object put
set_keeper i n h = object i h >>= λ r. ret (put i (some (record r { keeper = n })) h)

abbrev pub keeps : ℕ → Option RawData → Bool
keeps n none = false
keeps n (some r) = r.keeper == n

abbrev pub is_kept : ℕ → List (Option RawData) → Bool
is_kept n [] = false
is_kept n (o ∷ os) = keeps n o || is_kept n os

-- The `data_len` bytes at `data`, as the user reads them.
abbrev pub bytes_at : Pointer → ℕ → Memory → Exec Str
bytes_at null len h = if len == 0 then ret [] else fault
bytes_at (own s) len h = if ltb (length s) len then fault else ret (take len s)
bytes_at (within n off) len h =
    if is_kept n h.objects
    then (if ltb (length (h.pkg_bytes n)) (off + len)
        then fault
        else ret (take len (drop off (h.pkg_bytes n))))
    else fault

unfoldable pub read : ℕ → Memory → Exec Str
unfolding object
read i h = object i h >>= λ r. bytes_at r.data_ptr r.data_len h

-- RpcClientWorker::run for a call that a blocker waits for: `rd` is made over the package, which it
-- keeps; RpcClientBlocker::callback assigns it; and it is destroyed.
unfoldable pub tell_blocker : ℕ → ℕ → ℕ → ℕ → Memory → Exec Memory
unfolding make set_keeper assign destroy
tell_blocker blocker pkg off len h = do
  let made = make (within pkg off) len h
  h1 ← set_keeper made.0 pkg made.1
  h2 ← assign blocker made.0 h1
  destroy made.0 h2

-- RpcClientBlocker::wait gives the bytes to the caller, and the blocker is destroyed.
unfoldable pub take_from : ℕ → ℕ → Memory → Exec Memory
unfolding assign destroy
take_from user blocker h = assign user blocker h >>= destroy blocker
