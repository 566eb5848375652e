-- ===== src/Host/Lookup.antt =====
-- The loop of getHostIpByName.
use rpcframe.Prelude.{
  ℕ, zero, suc, ◌+◌, ◌*◌, ◌^◌, ◌≤◌, ◌<◌, ◌≡◌, ◌≢◌, inl, inr, refl, Bool, true, false, none, some,
  Str, leb, Exec, Returns, arith, Bool-cases,
}
use rpcframe.Host.{
  Answer, too_small, failed, found, Result, after_lookup, lookup_loop, get_host_ip_by_name,
}

-- Nothing was found, and `str_ip` is as it was; or the address that a large enough buffer gives. No
-- block is left.
abbrev pub Looked : (ℕ → Answer) → ℕ → Str → Result → Type 0
Looked lookup needed str_ip (false, ip, blocks) = (ip ≡ str_ip) × (blocks ≡ 0)
Looked lookup needed str_ip (true, ip, blocks) =
    (len : ℕ) × (needed ≤ len)
    × (len < 2048 + 2 * needed)
    × (lookup len ≡ found (some ip))
    × (blocks ≡ 0)

abbrev pub doubled : ℕ → ℕ → ℕ
doubled zero len = len
doubled (suc k) len = doubled k (len * 2)

module _ (alloc : ℕ → Bool) (lookup : ℕ → Answer) (needed : ℕ) (str_ip : Str)
    (enough : (len : ℕ) → needed ≤ len → lookup len ≢ too_small)
    (small : (len : ℕ) → len < needed → lookup len ≡ too_small) (limit : needed ≤ 2 ^ 30) where
  answered :
      (len : ℕ) (again : Exec Result) (a : Answer)
      → lookup len ≡ a
      → a ≢ too_small
      → len < 2048 + 2 * needed
      → needed ≤ len
      → Returns (Looked lookup needed str_ip) (after_lookup alloc lookup len str_ip 1 again a)
  answered len again too_small e ne lt le = absurd (ne refl)
  answered len again failed e ne lt le = (refl, refl)
  answered len again (found none) e ne lt le = (refl, refl)
  answered len again (found (some ip)) e ne lt le = (len, le, lt, e, refl)

  lookup_loop-Looked :
      (k len : ℕ)
      → needed ≤ doubled k len
      → len < 2048 + 2 * needed
      → Returns (Looked lookup needed str_ip) (lookup_loop alloc lookup (suc k) len str_ip 1)
  unfolding lookup_loop
  lookup_loop-Looked zero len h lt =
      answered len (lookup_loop alloc lookup zero (len * 2) str_ip 1) (lookup len) refl
        (enough len h) lt h
  lookup_loop-Looked (suc k) len h lt = elim (Bool-cases (leb needed len)) [
    | inl le ↦
        answered len (lookup_loop alloc lookup (suc k) (len * 2) str_ip 1) (lookup len) refl
          (enough len (ground arith)) lt (ground arith)
    | inr more ↦
        let short : len < needed = ground arith in
        let inside : leb (2 ^ 31) (len * 2) ≡ false = ground arith in
        elim (Bool-cases (alloc (len * 2))) [
          | inl got ↦
              rw (small len short, inside, got) (lookup_loop-Looked k (len * 2) h (omega arith))
          | inr refused ↦ rw (small len short, inside, refused) (refl, refl)
        ]
  ]

-- Where `gethostbyname_r` wants a buffer of `needed` bytes, at most 2^30, and memory may or may not be
-- had: 21 rounds are enough for getHostIpByName to return, and the size never leaves the range of an
-- int. It gives true and the address, from a buffer that is large enough and no larger than twice what
-- is needed and two KiB; or false, and leaves `str_ip` as it was. All it allocated is freed.
pub get_host_ip_by_name-Looked :
    (alloc : ℕ → Bool) (lookup : ℕ → Answer) (needed : ℕ) (str_ip : Str)
    → ((len : ℕ) → needed ≤ len → lookup len ≢ too_small)
    → ((len : ℕ) → len < needed → lookup len ≡ too_small)
    → needed ≤ 2 ^ 30
    → Returns (Looked lookup needed str_ip) (get_host_ip_by_name alloc lookup 21 str_ip)
unfolding get_host_ip_by_name
get_host_ip_by_name-Looked alloc lookup needed str_ip enough small limit =
    elim (Bool-cases (alloc 1024)) [
      | inl got ↦ rw got (
          lookup_loop-Looked alloc lookup needed str_ip enough small limit 20 1024 limit
            (omega arith))
      | inr refused ↦ rw refused (refl, refl)
    ]
