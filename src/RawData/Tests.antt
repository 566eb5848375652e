-- ===== src/RawData/Tests.antt =====
-- A response of seven bytes, of which two are data.
use rpcframe.Prelude.{
  ℕ, ◌≡◌, refl, none, some, [], ◌∷◌, Str, get_elem?, ret, fault, ◌>>=◌, Returns, arith,
}
use rpcframe.RawData.{
  null, within, RawData, Memory, assign, destroy, copy, read, tell_blocker, take_from,
}
use rpcframe.RawData.Handing.{handed_over}
use rpcframe.RawData.Dangling.{assigned_from_dangles}

abbrev pkgs : ℕ → Str
pkgs n = 1 ∷ 2 ∷ 3 ∷ 4 ∷ 104 ∷ 105 ∷ 8 ∷ []

-- The caller's object, and that of the blocker.
abbrev empty : ℕ → RawData
empty n = record { data_ptr = null; data_len = 0; keeper = n }

abbrev calling : Memory
calling = record { objects = some (empty 0) ∷ some (empty 1) ∷ []; next = 3; pkg_bytes = pkgs }

handed_over_example :
    Returns
      (λ (h : Memory). (read 0 h ≡ ret (104 ∷ 105 ∷ [])) × (get_elem? h.objects 1 ≡ some none))
      (tell_blocker 1 2 4 2 calling >>= take_from 0 1)
handed_over_example =
    handed_over calling 0 1 2 4 2 (empty 0) (empty 1) refl refl (omega arith) (omega arith)

-- The caller has its response, and assigns it to another object.
abbrev answer : RawData
answer = record { data_ptr = within 2 4; data_len = 2; keeper = 2 }

abbrev answered : Memory
answered = record { objects = some (empty 0) ∷ some answer ∷ []; next = 3; pkg_bytes = pkgs }

assigned_from_dangles_example : ((assign 0 1 answered >>= destroy 0) >>= read 1) ≡ fault
assigned_from_dangles_example =
    assigned_from_dangles answered 0 1 2 4 (empty 0) answer refl refl (omega arith) refl refl refl
      (omega arith)

copied : copy 1 answered ≡ fault
unfolding copy
copied = refl
