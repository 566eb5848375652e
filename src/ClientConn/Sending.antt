-- ===== src/ClientConn/Sending.antt =====
-- What RpcClientConn::sendData puts on the wire.
use rpcframe.Prelude.{
  ℕ, zero, suc, ◌+◌, ◌-◌, ◌≤◌, ◌<◌, ◌^◌, ◌≡◌, refl, sym, ap, ◌∙◌, Bool, true, false, ◌&&◌, List, [],
  ◌∷◌, ◌++◌, Str, u32, length, length-take, take_all, take, drop, min, ltb, ◌==◌, if◌then◌else◌,
  Exec, ret, Returns, arith, ◌⊎◌, inl, inr, Bool-cases, append_assoc, append-nil,
}
use rpcframe.Package.{RpcStatus, send_ok, send_fail, send_timeout}
use rpcframe.Net.{eagain, eintr, epipe, other, clear, Room, room, refuse}
use rpcframe.ClientConn.{ClientConn, send_loop, send_data}

-- The kernel takes `n` bytes in the end, or fails.
abbrev pub Takes : List (ℕ × Room) → ℕ → Type 0
Takes [] n = ⊥
Takes ((now, room k) ∷ rs) n = (n ≤ k + 1) ⊎ Takes rs (n - (k + 1))
Takes ((now, refuse eagain) ∷ rs) n = Takes rs n
Takes ((now, refuse eintr) ∷ rs) n = Takes rs n
Takes ((now, refuse e) ∷ rs) n = Unit

-- All bytes are on the wire, or fewer, in front of what is missing.
abbrev pub Outcome : Str → Str → RpcStatus × ClientConn → Type 0
Outcome wire bytes (send_ok, c) = c.wire ≡ wire ++ bytes
Outcome wire bytes (send_fail, c) =
    (k : ℕ) × (k < length bytes) × (c.wire ≡ wire ++ take k bytes) × (c.is_connected ≡ false)
Outcome wire bytes (send_timeout, c) =
    (k : ℕ) × (k < length bytes) × (c.wire ≡ wire ++ take k bytes)
Outcome wire bytes (st, c) = ⊥

take-add : (m n : ℕ) (xs : Str) → take m xs ++ take n (drop m xs) ≡ take (m + n) xs
take-add zero n xs = ap (λ (k : ℕ). take k xs) (omega arith)
take-add (suc m) n [] = take_all n [] (omega arith) ∙ sym (take_all (suc m + n) [] (omega arith))
take-add (suc m) n (x ∷ xs) =
    let e : suc (m + n) ≡ suc m + n = omega arith in
    ap (◌∷◌ x) (take-add m n xs) ∙ ap (λ (k : ℕ). take k (x ∷ xs)) e

take-take : (m n : ℕ) (xs : Str) → m ≤ n → take m (take n xs) ≡ take m xs
take-take zero n xs h = refl
take-take (suc m) zero xs h = absurd (omega arith)
take-take (suc m) (suc n) [] h = refl
take-take (suc m) (suc n) (x ∷ xs) h = ap (◌∷◌ x) (take-take m n xs (omega arith))

module _ (bytes : Str) (total begin timeout : ℕ) (wire : Str) (fits : total ≤ length bytes) where
  -- The state of the loop after `sent` bytes.
  abbrev IsAt : ℕ → ClientConn → Type 0
  IsAt sent c = c.wire ≡ wire ++ take sent bytes

  part :
      (sent : ℕ) (c : ClientConn)
      → IsAt sent c
      → sent < total
      → (k : ℕ) × (k < length (take total bytes)) × (c.wire ≡ wire ++ take k (take total bytes))
  part sent c e h = (
    sent,
    omega (arith, length-take total bytes),
    e ∙ ap (◌++◌ wire) (sym (take-take sent total bytes (omega arith))),
  )

  more :
      (sent n : ℕ) (c : ClientConn)
      → IsAt sent c
      → c.wire ++ take n (drop sent bytes) ≡ wire ++ take (sent + n) bytes
  more sent n c e =
      ap (λ (x : Str). x ++ take n (drop sent bytes)) e
      ∙ (append_assoc wire (take sent bytes) (take n (drop sent bytes))
          ∙ ap (◌++◌ wire) (take-add sent n bytes))

  abbrev late : ℕ → Bool
  late now = ltb 0 timeout && ltb timeout (now - begin)

  abbrev IsOutcome : Exec (RpcStatus × ClientConn) → Type 0
  IsOutcome x = Returns (Outcome wire (take total bytes)) x

  refused :
      (b : Bool) (sent : ℕ) (c : ClientConn)
      → IsAt sent c
      → sent < total
      → IsOutcome
          (if b then ret (send_timeout, c) else ret (send_fail, record c { is_connected = false }))
  refused true sent c e h = part sent c e h
  refused false sent c e h = (let (k, l, w) = part sent c e h in (k, l, w, refl))

  waited :
      (b : Bool) (sent : ℕ) (c : ClientConn) (again : Exec (RpcStatus × ClientConn))
      → IsAt sent c
      → sent < total
      → IsOutcome again
      → IsOutcome (if b then ret (send_timeout, c) else again)
  waited true sent c again e h o = part sent c e h
  waited false sent c again e h o = o

  send_loop-Outcome :
      (rs : List (ℕ × Room)) (sent : ℕ) (c : ClientConn)
      → IsAt sent c
      → sent < total
      → Takes rs (total - sent)
      → IsOutcome (send_loop bytes total begin timeout sent rs c)
  unfolding send_loop
  send_loop-Outcome [] sent c e h t = elim t [ ]
  send_loop-Outcome ((now, room k) ∷ rs) sent c e h t =
      let n : ℕ = min (total - sent) (k + 1) in
      let c' : ClientConn = record c { wire = c.wire ++ take n (drop sent bytes) } in
      let some_room : (n == 0) ≡ false = ground arith in
      waited (late now) sent c _ e h (
        rw some_room (elim (Bool-cases ((sent + n) == total)) [
          | inl all ↦
              (let end : sent + n ≡ total = ground arith in
                rw all (more sent n c e ∙ ap (λ (m : ℕ). wire ++ take m bytes) end))
          | inr rest ↦ rw rest (
              send_loop-Outcome rs (sent + n) c' (more sent n c e) (ground arith) (elim t [
                | inl end ↦ absurd (ground arith)
                | inr on ↦
                    (let eq : total - (sent + n) ≡ total - sent - (k + 1) = ground arith in
                      rw eq on)
              ]))
        ]))
  send_loop-Outcome ((now, refuse eagain) ∷ rs) sent c e h t =
      waited (late now) sent c _ e h (send_loop-Outcome rs sent c e h t)
  send_loop-Outcome ((now, refuse eintr) ∷ rs) sent c e h t =
      waited (late now) sent c _ e h (send_loop-Outcome rs sent c e h t)
  send_loop-Outcome ((now, refuse epipe) ∷ rs) sent c e h t = refused (late now) sent c e h
  send_loop-Outcome ((now, refuse clear) ∷ rs) sent c e h t = refused (late now) sent c e h
  send_loop-Outcome ((now, refuse other) ∷ rs) sent c e h t = refused (late now) sent c e h

-- `sendData` returns: it put all bytes on the wire in order, or the ones in front of a point at which
-- it failed or its time was over. The length fits 32 bits and is not 0, and the kernel takes the bytes
-- in the end or fails.
pub send_data_lem :
    (bytes : Str) (len timeout begin : ℕ) (rs : List (ℕ × Room)) (c : ClientConn)
    → 0 < len
    → len < 2 ^ 32
    → len ≤ length bytes
    → Takes rs len
    → Returns (Outcome c.wire (take len bytes)) (send_data bytes len timeout begin rs c)
unfolding send_data
send_data_lem bytes len timeout begin rs c pos fits le t =
    let whole : u32 len ≡ len = omega arith in
    let from_start : len - 0 ≡ len = omega arith in
    rw whole (
      send_loop-Outcome bytes len begin timeout c.wire le rs 0 c (sym (append-nil c.wire)) pos
        (rw from_start t))
