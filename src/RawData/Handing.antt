-- ===== src/RawData/Handing.antt =====
-- The bytes of a response on their way to the caller of RpcClient::call.
use rpcframe.Prelude.{
  ℕ, zero, suc, ◌+◌, ◌≤◌, ◌<◌, ◌≡◌, ◌≢◌, refl, sym, ap, ◌∙◌, none, some, List, [], ◌∷◌, ◌++◌, Str,
  length, take, drop, get_elem?, ret, ◌>>=◌, Returns, arith,
}
use rpcframe.RawData.{within, RawData, Memory, make, put, read, tell_blocker, take_from}
use rpcframe.RawData.Keepers.{
  Is, destroy-eq, set_keeper-eq, put_self, put_other, assign_lem, read_kept,
}

module _ {A : Type 0} where
  get_elem?-lt : (xs : List A) (i : ℕ) (a : A) → get_elem? xs i ≡ some a → i < length xs
  get_elem?-lt [] i a e = cc
  get_elem?-lt (x ∷ xs) zero a e = omega arith
  get_elem?-lt (x ∷ xs) (suc i) a e = omega (arith, get_elem?-lt xs i a e)

  get_elem?-append :
      (xs ys : List A) (i : ℕ) (a : A) → get_elem? xs i ≡ some a → get_elem? (xs ++ ys) i ≡ some a
  get_elem?-append [] ys i a e = cc
  get_elem?-append (x ∷ xs) ys zero a e = e
  get_elem?-append (x ∷ xs) ys (suc i) a e = get_elem?-append xs ys i a e

  get_elem?-last : (xs : List A) (a : A) → get_elem? (xs ++ (a ∷ [])) (length xs) ≡ some a
  get_elem?-last [] a = refl
  get_elem?-last (x ∷ xs) a = get_elem?-last xs a

-- The object `rd` of RpcClientWorker::run, over `len` bytes of the package from `off` on.
module _ (h : Memory) (user blocker pkg off len : ℕ) (u b : RawData) (is_user : Is h user u)
    (is_blocker : Is h blocker b) (ne : user ≢ blocker) where
  abbrev rd : RawData
  rd = record { data_ptr = within pkg off; data_len = len; keeper = pkg }

  abbrev num : ℕ
  num = length h.objects

  user-ne : user ≢ num
  user-ne e = absurd (omega (arith, get_elem?-lt h.objects user (some u) is_user))

  blocker-ne : blocker ≢ num
  blocker-ne e = absurd (omega (arith, get_elem?-lt h.objects blocker (some b) is_blocker))

  -- The blocker has the bytes, and keeps their package.
  pub told :
      (h' : Memory) × (tell_blocker blocker pkg off len h ≡ ret h')
      × Is h' blocker rd
      × Is h' user u
      × (h'.pkg_bytes ≡ h.pkg_bytes)
  unfolding tell_blocker make put
  told =
      let first : RawData = record rd { keeper = h.next } in
      let h1 : Memory = (make (within pkg off) len h).1 in
      let made : Is h1 num first = get_elem?-last h.objects (some first) in
      let h2 : Memory = put num (some rd) h1 in
      let user2 : Is h2 user u =
        put_other h1 num first made (some rd) user (λ (e : num ≡ user). user-ne (sym e))
        ∙ get_elem?-append h.objects (some first ∷ []) user (some u) is_user in
      let blocker2 : Is h2 blocker b =
        put_other h1 num first made (some rd) blocker (λ (e : num ≡ blocker). blocker-ne (sym e))
        ∙ get_elem?-append h.objects (some first ∷ []) blocker (some b) is_blocker in
      let (h3, assigned, blocker3, rd3, others, counts, same) =
        assign_lem h2 blocker num b rd blocker2 (put_self h1 num first made (some rd)) blocker-ne in
      let user3 : Is h3 user u = others user ne user-ne ∙ user2 in
      let left : RawData = record rd { keeper = b.keeper } in
      (
        put num none h3,
        (rw (set_keeper-eq h1 num first made pkg, assigned, destroy-eq h3 num left rd3) refl),
        put_other h3 num left rd3 none blocker (λ (e : num ≡ blocker). blocker-ne (sym e))
            ∙ blocker3,
        put_other h3 num left rd3 none user (λ (e : num ≡ user). user-ne (sym e)) ∙ user3,
        same,
      )

  -- A response for a call that waits: the worker makes a RawData over the package and hands it to the
  -- blocker, `wait` hands it to the caller's object, and both of the others are destroyed. The caller
  -- then reads the bytes of the response: they lie in a package that its own object keeps.
  pub handed_over :
      off + len ≤ length (h.pkg_bytes pkg)
      → Returns
          (λ (h' : Memory).
            (read user h' ≡ ret (take len (drop off (h.pkg_bytes pkg))))
            × (get_elem? h'.objects blocker ≡ some none))
          (tell_blocker blocker pkg off len h >>= take_from user blocker)
  unfolding take_from put
  handed_over fits =
      let (h1, first, blocker1, user1, same1) = told in
      let (h2, assigned, user2, blocker2, others, counts, same2) =
        assign_lem h1 user blocker u rd user1 blocker1 ne in
      let left : RawData = record rd { keeper = u.keeper } in
      let h3 : Memory = put blocker none h2 in
      let user3 : Is h3 user rd =
        put_other h2 blocker left blocker2 none user (λ (e : blocker ≡ user). ne (sym e)) ∙ user2 in
      let bytes : h3.pkg_bytes ≡ h.pkg_bytes = same2 ∙ same1 in
      rw (first, assigned, destroy-eq h2 blocker left blocker2)
        (
          read_kept h3 user pkg off rd user3 refl refl (rw bytes fits)
              ∙ ap (λ (f : ℕ → Str). ret (take len (drop off (f pkg)))) bytes,
          put_self h2 blocker left blocker2 none,
        )
