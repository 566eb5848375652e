-- ===== src/Looper/ReqId.antt =====
-- Requests get different ids: RpcEventLooper::GenReqID.
use rpcframe.Prelude.{
  ℕ, ◌≡◌, ◌≢◌, refl, sym, ap, ◌∙◌, Bool, true, false, Option, [], ◌∷◌, ◌++◌, Str, codes, ◌==◌,
  to_string, to_string-injective, to_string-AreDigits, AreDigits, append_assoc, if◌then◌else◌,
  arith,
}
use rpcframe.Looper.Send.{Caller, gen_req_id, print_fd}

-- What stands behind the last "_".
abbrev has_mark : Str → Bool
has_mark [] = false
has_mark (c ∷ s) = if c == 95 then true else has_mark s

abbrev last_part : Str → Str
last_part [] = []
last_part (c ∷ s) =
    let later = last_part s in if has_mark s then later else if c == 95 then s else c ∷ s

has_mark-append : (s t : Str) → has_mark (s ++ (95 ∷ t)) ≡ true
has_mark-append [] t = refl
has_mark-append (c ∷ s) t = ground (arith, has_mark-append s t)

digits-has_mark : (s : Str) → AreDigits s → has_mark s ≡ false
digits-has_mark [] h = refl
digits-has_mark (c ∷ s) h = ground (arith, digits-has_mark s h.2)

last_part-append : (s t : Str) → has_mark t ≡ false → last_part (s ++ (95 ∷ t)) ≡ t
last_part-append [] t h = ground arith
last_part-append (c ∷ s) t h = ground (arith, has_mark-append s t, last_part-append s t h)

-- Everything in front of the sequence number.
abbrev stem : Caller → Option ℕ → Str → Str
stem who fd host_ip =
    to_string who.pid
    ++ (codes "_"
        ++ (who.thread_id
            ++ (codes "_"
                ++ (print_fd fd ++ (codes "_" ++ (to_string who.now ++ (codes "_" ++ host_ip)))))))

regroup :
    (a b c d e n : Str)
    → a ++ (95 ∷ (b ++ (95 ∷ (c ++ (95 ∷ (d ++ (95 ∷ (e ++ (95 ∷ n)))))))))
      ≡ (a ++ (95 ∷ (b ++ (95 ∷ (c ++ (95 ∷ (d ++ (95 ∷ e)))))))) ++ (95 ∷ n)
regroup a b c d e n = simp (append_assoc)

last_part-gen_req_id :
    (who : Caller) (fd : Option ℕ) (host_ip : Str) (seqid : ℕ)
    → last_part (gen_req_id who fd host_ip seqid) ≡ to_string seqid
unfolding gen_req_id
last_part-gen_req_id who fd host_ip seqid =
    ap last_part (
      regroup (to_string who.pid) who.thread_id (print_fd fd) (to_string who.now) host_ip
        (to_string seqid))
    ∙ last_part-append (stem who fd host_ip) (to_string seqid)
        (digits-has_mark (to_string seqid) (to_string-AreDigits seqid))

-- Requests with different sequence numbers have different ids, from whichever thread, connection and
-- second they are.
pub gen_req_id-ne :
    (who who' : Caller) (fd fd' : Option ℕ) (host_ip host_ip' : Str) (seqid seqid' : ℕ)
    → seqid ≢ seqid'
    → gen_req_id who fd host_ip seqid ≢ gen_req_id who' fd' host_ip' seqid'
gen_req_id-ne who who' fd fd' host_ip host_ip' seqid seqid' ne e = ne (
    to_string-injective seqid seqid' (
      sym (last_part-gen_req_id who fd host_ip seqid)
      ∙ (ap last_part e ∙ last_part-gen_req_id who' fd' host_ip' seqid')))
