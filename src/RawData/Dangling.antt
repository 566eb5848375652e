-- ===== src/RawData/Dangling.antt =====
-- What an assignment of RawData does to the object that is assigned from.
use rpcframe.Prelude.{ℕ, ◌≡◌, ◌≢◌, refl, ◌∙◌, none, fault, ◌>>=◌, arith}
use rpcframe.RawData.{within, RawData, Memory, put, assign, destroy, read, keeps}
use rpcframe.RawData.Keepers.{
  Is, keepers, keepers-put, not_kept, object-eq, destroy-eq, put_other, assign_lem,
}

-- The object that was assigned from still points into its package, but the other one keeps it now:
-- when that is destroyed, and nothing else keeps the package, reading the first is a use after free.
pub assigned_from_dangles :
    (h : Memory) (i j n off : ℕ) (t r : RawData)
    → Is h i t
    → Is h j r
    → i ≢ j
    → r.data_ptr ≡ within n off
    → r.keeper ≡ n
    → keepers n h.objects ≡ 1
    → t.keeper ≢ n
    → ((assign i j h >>= destroy i) >>= read j) ≡ fault
unfolding read put
assigned_from_dangles h i j n off t r it jr ne at keeps one other =
    let (h1, assigned, i1, j1, others, counts, same) = assign_lem h i j t r it jr ne in
    let s : RawData = record r { keeper = t.keeper } in
    let h2 : Memory = put i none h1 in
    let j2 : Is h2 j s = put_other h1 i r i1 none j ne ∙ j1 in
    let gone : keepers n h2.objects ≡ 0 = ground (arith, keepers-put h1 i r i1 n none, counts n) in
    rw (assigned, destroy-eq h1 i r i1, object-eq h2 j s j2, at, not_kept n h2.objects gone) refl
