-- ===== src/RawData/Keepers.antt =====
-- An assignment of RawData moves the keepers, and loses none.
use rpcframe.Prelude.{
  ℕ, zero, suc, ◌+◌, ◌≤◌, ◌<◌, ◌≡◌, ◌≢◌, refl, sym, ap, ◌∙◌, Bool, true, false, Option, none, some,
  List, [], ◌∷◌, length, take, drop, set, get_elem?, get_elem?-set_self, get_elem?-set_other, ltb,
  Exec, ret, ◌>>=◌, arith, Bool-cases, inl, inr,
}
use rpcframe.RawData.{
  Pointer, within, RawData, Memory, exists, object, put, assign, destroy, set_keeper, keeps,
  is_kept, bytes_at, read,
}

abbrev pub one_if : Bool → ℕ
one_if true = 1
one_if false = 0

-- How many objects keep the package.
abbrev pub keepers : ℕ → List (Option RawData) → ℕ
keepers n [] = 0
keepers n (o ∷ os) = one_if (keeps n o) + keepers n os

keepers-set :
    (n i : ℕ) (os : List (Option RawData)) (o o' : Option RawData)
    → get_elem? os i ≡ some o
    → keepers n (set os i o') + one_if (keeps n o) ≡ keepers n os + one_if (keeps n o')
keepers-set n i [] o o' h = cc
keepers-set n zero (x ∷ os) o o' h =
    let e : keeps n x ≡ keeps n o = ap (λ y. elim y [ none ↦ false | some z ↦ keeps n z ]) h in
    omega (arith, ap one_if e)
keepers-set n (suc i) (x ∷ os) o o' h = omega (arith, keepers-set n i os o o' h)

pub is_kept-keepers : (n : ℕ) (os : List (Option RawData)) → 0 < keepers n os → is_kept n os ≡ true
is_kept-keepers n [] h = absurd (omega arith)
is_kept-keepers n (o ∷ os) h = elim (Bool-cases (keeps n o)) [
  | inl k ↦ rw k refl
  | inr k ↦ rw k (is_kept-keepers n os (ground (arith, k)))
]

pub not_kept : (n : ℕ) (os : List (Option RawData)) → keepers n os ≡ 0 → is_kept n os ≡ false
not_kept n [] h = refl
not_kept n (o ∷ os) h = elim (Bool-cases (keeps n o)) [
  | inl k ↦ absurd (ground (arith, k))
  | inr k ↦ rw k (not_kept n os (omega arith))
]

abbrev pub Is : Memory → ℕ → RawData → Type 0
Is h i r = get_elem? h.objects i ≡ some (some r)

module _ (h : Memory) (i : ℕ) (r : RawData) (is : Is h i r) where
  pub object-eq : object i h ≡ ret r
  unfolding object
  object-eq = ap exists is

  pub destroy-eq : destroy i h ≡ ret (put i none h)
  unfolding destroy
  destroy-eq = rw object-eq

  pub set_keeper-eq : (n : ℕ) → set_keeper i n h ≡ ret (put i (some (record r { keeper = n })) h)
  unfolding set_keeper
  set_keeper-eq n = rw object-eq

  pub assign-eq :
      (j : ℕ) (s : RawData)
      → Is h j s
      → assign i j h ≡ ret (put j (some (record s { keeper = r.keeper })) (put i (some s) h))
  unfolding assign
  assign-eq j s js = let e : object j h ≡ ret s = ap exists js in rw (object-eq, e)

  pub put_self : (o : Option RawData) → get_elem? (put i o h).objects i ≡ some o
  unfolding put
  put_self o = get_elem?-set_self h.objects i (some r) o is

  pub put_other :
      (o : Option RawData) (k : ℕ) → i ≢ k → get_elem? (put i o h).objects k ≡ get_elem? h.objects k
  unfolding put
  put_other o k ne = get_elem?-set_other h.objects i k o ne

  pub keepers-put :
      (n : ℕ) (o : Option RawData)
      → keepers n (put i o h).objects + one_if (keeps n (some r))
        ≡ keepers n h.objects + one_if (keeps n o)
  unfolding put
  keepers-put n o = keepers-set n i h.objects (some r) o is

-- An assignment between two objects: the first has the bytes of the second, and its keeper; the second
-- has the same bytes and the keeper that the first had; no other object changes; and every package has
-- as many keepers as before.
pub assign_lem :
    (h : Memory) (i j : ℕ) (t r : RawData)
    → Is h i t
    → Is h j r
    → i ≢ j
    → (h' : Memory) × (assign i j h ≡ ret h')
      × Is h' i r
      × Is h' j (record r { keeper = t.keeper })
      × ((k : ℕ) → k ≢ i → k ≢ j → get_elem? h'.objects k ≡ get_elem? h.objects k)
      × ((n : ℕ) → keepers n h'.objects ≡ keepers n h.objects)
      × (h'.pkg_bytes ≡ h.pkg_bytes)
unfolding put
assign_lem h i j t r it jr ne =
    let h1 : Memory = put i (some r) h in
    let jr1 : Is h1 j r = put_other h i t it (some r) j ne ∙ jr in
    let h2 : Memory = put j (some (record r { keeper = t.keeper })) h1 in
    (
      h2,
      assign-eq h i t it j r jr,
      put_other h1 j r jr1 (some (record r { keeper = t.keeper })) i (λ (e : j ≡ i). ne (sym e))
          ∙ put_self h i t it (some r),
      put_self h1 j r jr1 (some (record r { keeper = t.keeper })),
      (λ (k : ℕ) (ki : k ≢ i) (kj : k ≢ j).
          put_other h1 j r jr1 (some (record r { keeper = t.keeper })) k (λ (e : j ≡ k). kj (sym e))
          ∙ put_other h i t it (some r) k (λ (e : i ≡ k). ki (sym e))),
      (λ (n : ℕ). omega (
        arith,
        keepers-put h i t it n (some r),
        keepers-put h1 j r jr1 n (some (record r { keeper = t.keeper })),
      )),
      refl,
    )

pub kept_by :
    (n i : ℕ) (os : List (Option RawData)) (r : RawData)
    → get_elem? os i ≡ some (some r)
    → r.keeper ≡ n
    → is_kept n os ≡ true
kept_by n i [] r h e = cc
kept_by n zero (o ∷ os) r h e =
    let k : keeps n o ≡ true =
      ap (λ y. elim y [ none ↦ false | some z ↦ keeps n z ]) h ∙ ground (arith, e) in
    rw k refl
kept_by n (suc i) (o ∷ os) r h e = elim (Bool-cases (keeps n o)) [
  | inl k ↦ rw k refl
  | inr k ↦ rw k (kept_by n i os r h e)
]

-- The bytes of an object that keeps the package they are in.
pub read_kept :
    (h : Memory) (i n off : ℕ) (r : RawData)
    → Is h i r
    → r.data_ptr ≡ within n off
    → r.keeper ≡ n
    → off + r.data_len ≤ length (h.pkg_bytes n)
    → read i h ≡ ret (take r.data_len (drop off (h.pkg_bytes n)))
unfolding read
read_kept h i n off r is at keeps fits =
    let inside : ltb (length (h.pkg_bytes n)) (off + r.data_len) ≡ false = ground arith in
    ap (λ (x : Exec RawData). x >>= λ s. bytes_at s.data_ptr s.data_len h) (object-eq h i r is)
    ∙ (ap (λ (p : Pointer). bytes_at p r.data_len h) at
        ∙ (rw (kept_by n i h.objects r is keeps, inside)))
