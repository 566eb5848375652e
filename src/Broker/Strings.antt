-- ===== src/Broker/Strings.antt =====
-- Strings as answers, in rpcframe's own protocol.
use rpcframe.Prelude.{
  ℕ, ◌+◌, ◌≤◌, ◌≡◌, refl, sym, ap, ◌∙◌, false, Option, none, some, [], ◌∷◌, ◌++◌, Str, length,
  length-append, length-take, length-splice, take, drop, splice, take-append, drop-append,
  append_assoc, ltb, Bool-cases, Option-cases, inl, inr, Exec, ret, waiting, fault, ◌>>=◌, arith,
}
use rpcframe.Package.{RpcStatus, ResponsePkg, Allocator, InnerResp, Codec}
use rpcframe.Broker.{
  Broker, alloc_resp_buf, alloc_resp_buf_from, copy_string, until_nul, write_at, write_resp,
  set_return_val,
}
use rpcframe.Broker.Layout.{reply, write_user}
use rpcframe.Broker.Http.{HasNoNul}

until_nul-eq : (s : Str) → HasNoNul s → until_nul s ≡ s
unfolding until_nul
until_nul-eq [] h = refl
until_nul-eq (c ∷ s) h = ground (arith, until_nul-eq s h.1)

-- Writing the end of what was written once more changes nothing.
splice-again :
    (x : Str) (off : ℕ) (s t : Str)
    → off + length (s ++ t) ≤ length x
    → splice (splice x off (s ++ t)) (off + length s) t ≡ splice x off (s ++ t)
splice-again x off s t h =
    let rest : Str = drop (off + length (s ++ t)) x in
    let front : Str = take off x ++ s in
    let size : off + length s ≡ length front =
      omega (arith, length-append (take off x) s, length-take off x) in
    let size' : off + length s + length t ≡ length (front ++ t) =
      omega (arith, size, length-append front t) in
    let cut : splice x off (s ++ t) ≡ front ++ (t ++ rest) = simp append_assoc in
    let cut' : splice x off (s ++ t) ≡ (front ++ t) ++ rest = simp append_assoc in
    let head : take (off + length s) (splice x off (s ++ t)) ≡ front =
      ap (take (off + length s)) cut ∙ take-append (off + length s) front (t ++ rest) size in
    let tail : drop (off + length s + length t) (splice x off (s ++ t)) ≡ rest =
      ap (drop (off + length s + length t)) cut'
      ∙ drop-append (off + length s + length t) (front ++ t) rest size' in
    ap (λ (y : Str). y ++ (t ++ drop (off + length s + length t) (splice x off (s ++ t)))) head
    ∙ (ap (λ (y : Str). front ++ (t ++ y)) tail ∙ sym cut)

write_again :
    (pkg : ResponsePkg) (off : ℕ) (s t : Str)
    → (write_at pkg off (s ++ t) >>= λ p. write_at p (off + length s) t) ≡ write_at pkg off (s ++ t)
unfolding write_at
write_again pkg off s t = elim (Bool-cases (ltb (length pkg.bytes) (off + length (s ++ t)))) [
  | inl out ↦ rw out refl
  | inr fits ↦
      (let le : off + length (s ++ t) ≤ length pkg.bytes = ground arith in
        let size : length (splice pkg.bytes off (s ++ t)) ≡ length pkg.bytes =
          length-splice pkg.bytes off (s ++ t) le in
        let fits' : ltb (length (splice pkg.bytes off (s ++ t))) (off + length s + length t)
            ≡ false =
          ground (arith, size, length-append s t) in
        rw (fits, fits', splice-again pkg.bytes off s t le) refl)
]

abbrev with_pkg : Broker → ResponsePkg → Broker
with_pkg b p = record b { resp_pkg = some p }

again_in :
    (b : Broker) (off : ℕ) (t : Str) (m : Exec ResponsePkg)
    → (m >>= λ p. write_at p off t) ≡ m
    → ((m >>= λ p. ret (with_pkg b p)) >>= λ b'. write_resp b' off t)
      ≡ (m >>= λ p. ret (with_pkg b p))
unfolding write_resp
again_in b off t (ret p) h = ap (λ (x : Exec ResponsePkg). x >>= λ p'. ret (with_pkg b p')) h
again_in b off t waiting h = refl
again_in b off t fault h = refl

resp_again :
    (b : Broker) (off : ℕ) (s t : Str)
    → (write_resp b off (s ++ t) >>= λ b'. write_resp b' (off + length s) t)
      ≡ write_resp b off (s ++ t)
unfolding write_resp
resp_again b off s t = elim (Option-cases b.resp_pkg) [
  | inl missing ↦ rw missing refl
  | inr (pkg, there) ↦
      rw there (again_in b (off + length s) t (write_at pkg off (s ++ t)) (write_again pkg off s t))
]

abbrev second : Option ℕ × Broker → Exec Broker
second q = ret q.1

strip :
    (at : ℕ) (x : Exec Broker) (f : Broker → Exec (Option ℕ × Broker))
    → ((b : Broker) → f b ≡ ret (some at, b))
    → ((x >>= f) >>= second) ≡ x
strip at (ret b) f h = ap (λ (m : Exec (Option ℕ × Broker)). m >>= second) (h b)
strip at waiting f h = refl
strip at fault f h = refl

under :
    (m : Exec Broker) (f : Broker → Exec (Option ℕ × Broker)) (g : Broker → Exec Broker)
    → ((b : Broker) → (f b >>= second) ≡ g b)
    → ((m >>= f) >>= second) ≡ (m >>= g)
under (ret b) f g h = h b
under waiting f g h = refl
under fault f g h = refl

passed_on :
    (x : Exec (Option ℕ × Broker)) (k : Broker → Exec Broker)
    → (x >>= λ q. k q.1) ≡ ((x >>= second) >>= k)
passed_on (ret q) k = refl
passed_on waiting k = refl
passed_on fault k = refl

module _ (mem : Allocator) (proto : Codec InnerResp) where
  -- What `copy_string` does after it got a buffer.
  copied :
      (d : Str) (r : Option ℕ × Broker)
      → HasNoNul d
      → (copy_string mem proto d r >>= second) ≡ write_user (d ++ (0 ∷ [])) r
  copied d (none, b) h = refl
  copied d (some at, b) h =
      ap (λ (x : Str). copying x >>= second) (until_nul-eq d h)
      ∙ (under (write_resp b at (d ++ (0 ∷ []))) _ (λ b'. write_resp b' (at + length d) (0 ∷ []))
            (λ b'. strip at (write_resp b' (at + length d) (0 ∷ [])) _ (λ b''. refl))
          ∙ resp_again b at d (0 ∷ []))
    where
      copying : Str → Exec (Option ℕ × Broker)
      copying x = write_resp b at (x ++ (0 ∷ [])) >>= λ b'.
          write_resp b' (at + length d) (0 ∷ []) >>= λ b''. ret (some at, b'')

  swapped :
      (m : Exec (Option ℕ × Broker)) (f : Option ℕ × Broker → Exec (Option ℕ × Broker))
      (g : Option ℕ × Broker → Exec Broker) (k : Broker → Exec Broker)
      → ((r : Option ℕ × Broker) → (f r >>= second) ≡ g r)
      → ((m >>= f) >>= λ q. k q.1) ≡ ((m >>= g) >>= k)
  swapped (ret r) f g k h = passed_on (f r) k ∙ ap (λ (m : Exec Broker). m >>= k) (h r)
  swapped waiting f g k h = refl
  swapped fault f g k h = refl

  -- A service that answers with a string that has no byte 0, by `allocRespBufFrom`: that is to answer
  -- with the string and a byte 0.
  pub string_reply :
      (d : Str) (rs : RpcStatus) (b : Broker)
      → b.from_http ≡ false
      → HasNoNul d
      → (alloc_resp_buf_from mem proto d b >>= λ q. set_return_val mem proto rs q.1)
        ≡ reply mem proto (d ++ (0 ∷ [])) rs b
  unfolding alloc_resp_buf_from reply
  string_reply d rs b own clean =
      let len : length d + 1 ≡ length (d ++ (0 ∷ [])) = omega (arith, length-append d (0 ∷ [])) in
      let opened : alloc_resp_buf_from mem proto d b
          ≡ (alloc_resp_buf mem proto (length d + 1) b >>= copy_string mem proto d) =
        rw own refl in
      ap (λ (m : Exec (Option ℕ × Broker)). m >>= λ q. set_return_val mem proto rs q.1) opened
      ∙ (swapped (alloc_resp_buf mem proto (length d + 1) b) (copy_string mem proto d)
            (write_user (d ++ (0 ∷ []))) (set_return_val mem proto rs) (λ r. copied d r clean)
          ∙ ap
              (λ (n : ℕ).
                (alloc_resp_buf mem proto n b >>= write_user (d ++ (0 ∷ [])))
                >>= set_return_val mem proto rs)
              len)
