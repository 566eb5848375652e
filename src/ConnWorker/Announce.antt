-- ===== src/ConnWorker/Announce.antt =====
-- Which connections with something to send the worker knows of, and how one handler's change of one
-- connection keeps that.
use rpcframe.Prelude.{
  ℕ, ◌≤◌, ◌<◌, ◌≡◌, ◌≢◌, sym, ap, ◌∙◌, true, none, some, List, [], ◌∷◌, ◌++◌, Str, length, arith,
  ◌⊎◌, inl, inr, Bool-cases, str_eq, str_eq_iff, find,
}
use rpcframe.ServerConn.{ServerConn, is_sending}
use rpcframe.ConnWorker.{ConnWorker, both}

abbrev pub Among : Str → List Str → Type 0
Among k [] = ⊥
Among k (j ∷ js) = (k ≡ j) ⊎ Among k js

pub Among-append : (k : Str) (xs ys : List Str) → Among k (xs ++ ys) → Among k xs ⊎ Among k ys
Among-append k [] ys h = inr h
Among-append k (x ∷ xs) ys (inl e) = inl (inl e)
Among-append k (x ∷ xs) ys (inr h) = elim (Among-append k xs ys h) [
  | inl a ↦ inl (inr a)
  | inr b ↦ inr b
]

pub Among-left : (k : Str) (xs ys : List Str) → Among k xs → Among k (xs ++ ys)
Among-left k [] ys h = elim h [ ]
Among-left k (x ∷ xs) ys (inl e) = inl e
Among-left k (x ∷ xs) ys (inr h) = inr (Among-left k xs ys h)

pub Among-right : (k : Str) (xs ys : List Str) → Among k ys → Among k (xs ++ ys)
Among-right k [] ys h = h
Among-right k (x ∷ xs) ys h = inr (Among-right k xs ys h)

-- The worker will hear of the connection `id`: its name is in the worker's queue, or a thread that
-- has queued a response has still to put it there. `offers` are the names that such threads hold.
abbrev pub Known : ConnWorker → List Str → Str → Type 0
Known w offers id = Among id w.resp_conn_q.items ⊎ Among id offers

abbrev pub Armed : ConnWorker → ServerConn → Type 0
Armed w c = w.epoll c.fd ≡ some both

pub record NoneStranded (w : ConnWorker) (offers : List Str) : Type 0 where
  pub distinct :
      (i j : Str) (c d : ServerConn)
      → find i w.conns ≡ some c
      → find j w.conns ≡ some d
      → c.fd ≡ d.fd
      → i ≡ j
  pub named : (i : Str) (c : ServerConn) → find i w.conns ≡ some c → c.seqid ≡ i
  -- A response that is partly sent waits for room in the socket.
  pub sending :
      (i : Str) (c : ServerConn) → find i w.conns ≡ some c → is_sending c ≡ true → Armed w c
  -- So does one that is queued, unless the worker has still to hear of it.
  pub queued :
      (i : Str) (c : ServerConn)
      → find i w.conns ≡ some c
      → 0 < length c.response_q.items
      → Armed w c ⊎ Known w offers i
  -- The eventfd wakes the worker for every name.
  pub woken : length w.resp_conn_q.items ≤ w.resp_events

-- A handler changed the connection `id`, and of the epoll set at most its entry.
pub record Change (w : ConnWorker) (offers : List Str) (w' : ConnWorker) (offers' : List Str)
    (id : Str) (c c' : ServerConn) : Type 0 where
  pub was : find id w.conns ≡ some c
  pub is_now : find id w'.conns ≡ some c'
  pub others : (j : Str) → j ≢ id → find j w'.conns ≡ find j w.conns
  pub same_fd : c'.fd ≡ c.fd
  pub same_id : c'.seqid ≡ c.seqid
  pub elsewhere : (n : ℕ) → n ≢ c.fd → w'.epoll n ≡ w.epoll n
  pub names : (j : Str) → j ≢ id → Known w offers j → Known w' offers' j
  pub now_sending : is_sending c' ≡ true → Armed w' c'
  pub now_queued : 0 < length c'.response_q.items → Armed w' c' ⊎ Known w' offers' id
  pub now_woken : length w'.resp_conn_q.items ≤ w'.resp_events

pub str_cases : (i j : Str) → (i ≡ j) ⊎ (i ≢ j)
str_cases i j = elim (Bool-cases (str_eq i j)) [
  | inl t ↦ inl ((str_eq_iff i j).0 t)
  | inr f ↦ inr (λ e. ground (arith, (str_eq_iff i j).1 e))
]

some_inj {ℓ} : {A : Type ℓ} (a b : A) → some a ≡ some b → a ≡ b
some_inj a b e = cc

module _ (w : ConnWorker) (offers : List Str) (w' : ConnWorker) (offers' : List Str) (id : Str)
    (c c' : ServerConn) (h : Change w offers w' offers' id c c') (s : NoneStranded w offers) where
  -- What a connection of `w'` is: the changed one, or one of `w`.
  origin :
      (i : Str) (d : ServerConn)
      → find i w'.conns ≡ some d
      → ((i ≡ id) × (d ≡ c')) ⊎ ((i ≢ id) × (find i w.conns ≡ some d))
  origin i d e = elim (str_cases i id) [
    | inl same ↦
        inl (same, some_inj d c' (sym e ∙ (ap (λ (k : Str). find k w'.conns) same ∙ h.is_now)))
    | inr ne ↦ inr (ne, sym (h.others i ne) ∙ e)
  ]

  other_fd : (i : Str) (d : ServerConn) → i ≢ id → find i w.conns ≡ some d → d.fd ≢ c.fd
  other_fd i d ne e k = ne (s.distinct i id d c e h.was k)

  still_distinct :
      (i j : Str) (d e : ServerConn)
      → find i w'.conns ≡ some d
      → find j w'.conns ≡ some e
      → d.fd ≡ e.fd
      → i ≡ j
  still_distinct i j d e p q k = elim (origin i d p) [
    | inl (a, a') ↦ elim (origin j e q) [
      | inl (b, b') ↦ a ∙ sym b
      | inr (nb, b) ↦
          absurd (other_fd j e nb b (sym k ∙ (ap (λ (x : ServerConn). x.fd) a' ∙ h.same_fd)))
    ]
    | inr (na, a) ↦ elim (origin j e q) [
      | inl (b, b') ↦
          absurd (other_fd i d na a (k ∙ (ap (λ (x : ServerConn). x.fd) b' ∙ h.same_fd)))
      | inr (nb, b) ↦ s.distinct i j d e a b k
    ]
  ]

  still_named : (i : Str) (d : ServerConn) → find i w'.conns ≡ some d → d.seqid ≡ i
  still_named i d p = elim (origin i d p) [
    | inl (a, a') ↦ ap (λ (x : ServerConn). x.seqid) a' ∙ (h.same_id ∙ (s.named id c h.was ∙ sym a))
    | inr (na, a) ↦ s.named i d a
  ]

  still_sending :
      (i : Str) (d : ServerConn) → find i w'.conns ≡ some d → is_sending d ≡ true → Armed w' d
  still_sending i d p b = elim (origin i d p) [
    | inl (a, a') ↦ rw a' (h.now_sending (rw a' at b))
    | inr (na, a) ↦ h.elsewhere d.fd (other_fd i d na a) ∙ s.sending i d a b
  ]

  still_queued :
      (i : Str) (d : ServerConn)
      → find i w'.conns ≡ some d
      → 0 < length d.response_q.items
      → Armed w' d ⊎ Known w' offers' i
  still_queued i d p b = elim (origin i d p) [
    | inl (a, a') ↦ rw (a, a') (h.now_queued (rw a' at b))
    | inr (na, a) ↦ elim (s.queued i d a b) [
      | inl armed ↦ inl (h.elsewhere d.fd (other_fd i d na a) ∙ armed)
      | inr known ↦ inr (h.names i na known)
    ]
  ]

  pub Change-NoneStranded : NoneStranded w' offers'
  Change-NoneStranded = record {
    distinct = still_distinct;
    named = still_named;
    sending = still_sending;
    queued = still_queued;
    woken = h.now_woken;
  }

-- The connection `id` was removed, with its entry of the epoll set.
pub record Gone (w : ConnWorker) (offers : List Str) (w' : ConnWorker) (id : Str) (c : ServerConn)
    : Type 0 where
  pub was : find id w.conns ≡ some c
  pub is_now : find id w'.conns ≡ none
  pub others : (j : Str) → j ≢ id → find j w'.conns ≡ find j w.conns
  pub elsewhere : (n : ℕ) → n ≢ c.fd → w'.epoll n ≡ w.epoll n
  pub same_q : w'.resp_conn_q ≡ w.resp_conn_q
  pub same_events : w'.resp_events ≡ w.resp_events

module _ (w : ConnWorker) (offers : List Str) (w' : ConnWorker) (id : Str) (c : ServerConn)
    (h : Gone w offers w' id c) (s : NoneStranded w offers) where
  survivor :
      (i : Str) (d : ServerConn)
      → find i w'.conns ≡ some d
      → (find i w.conns ≡ some d) × (d.fd ≢ c.fd)
  survivor i d e = elim (str_cases i id) [
    | inl same ↦
        let absent : find i w'.conns ≡ none = ap (λ (k : Str). find k w'.conns) same ∙ h.is_now in
        cc
    | inr ne ↦
        let old : find i w.conns ≡ some d = sym (h.others i ne) ∙ e in
        (old, λ k. ne (s.distinct i id d c old h.was k))
  ]

  pub Gone-NoneStranded : NoneStranded w' offers
  Gone-NoneStranded = record {
    distinct = λ i j d e p q k. s.distinct i j d e (survivor i d p).0 (survivor j e q).0 k;
    named = λ i d p. s.named i d (survivor i d p).0;
    sending = λ i d p b. h.elsewhere d.fd (survivor i d p).1 ∙ s.sending i d (survivor i d p).0 b;
    queued = λ i d p b. elim (s.queued i d (survivor i d p).0 b) [
      | inl armed ↦ inl (h.elsewhere d.fd (survivor i d p).1 ∙ armed)
      | inr known ↦ rw (h.same_q) (inr known)
    ];
    woken = rw (h.same_q, h.same_events) s.woken;
  }
