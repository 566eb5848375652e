-- ===== src/HttpConn/Callbacks.antt =====
-- What the callbacks of a parser leave in a connection, and the package that is made of it.
use rpcframe.Prelude.{
  ℕ, suc, ◌+◌, ◌<◌, ◌^◌, ◌≡◌, refl, sym, ap, ◌∙◌, none, some, List, [], ◌∷◌, ◌++◌, Str, u32, be32,
  length, take, drop, splice, ret, arith, append-nil, append_assoc, take-append, drop-append,
  length-append, length-be32, length-splice, take-splice, drop_all,
}
use rpcframe.Package.{Allocator}
use rpcframe.RpcWorker.Dispatch.{body}
use rpcframe.HttpConn.{
  get, post, other, HttpEvent, url_part, headers_complete, body_part, HttpConn, on_events, slash,
  names,
}

-- The URL and the body that the callbacks were given.
abbrev pub url_of : List HttpEvent → Str
url_of [] = []
url_of (url_part s ∷ es) = s ++ url_of es
url_of (headers_complete m n k ∷ es) = url_of es
url_of (body_part s f ∷ es) = url_of es

abbrev pub body_of : List HttpEvent → Str
body_of [] = []
body_of (url_part s ∷ es) = body_of es
body_of (headers_complete m n k ∷ es) = body_of es
body_of (body_part s f ∷ es) = s ++ body_of es

module _ {P : Type 0} where
  pub on_events-url :
      (es : List HttpEvent) (c : HttpConn P) → (on_events es c).url ≡ c.url ++ url_of es
  unfolding on_events
  on_events-url [] c = sym (append-nil c.url)
  on_events-url (url_part s ∷ es) c = on_events-url es _ ∙ append_assoc c.url s (url_of es)
  on_events-url (headers_complete get n k ∷ es) c = on_events-url es _
  on_events-url (headers_complete post n k ∷ es) c = on_events-url es _ ∙ ground arith
  on_events-url (headers_complete other n k ∷ es) c = on_events-url es _
  on_events-url (body_part s f ∷ es) c = on_events-url es _

  pub on_events-body :
      (es : List HttpEvent) (c : HttpConn P) → (on_events es c).body ≡ c.body ++ body_of es
  unfolding on_events
  on_events-body [] c = sym (append-nil c.body)
  on_events-body (url_part s ∷ es) c = on_events-body es _
  on_events-body (headers_complete get n k ∷ es) c = on_events-body es _
  on_events-body (headers_complete post n k ∷ es) c = on_events-body es _ ∙ ground arith
  on_events-body (headers_complete other n k ∷ es) c = on_events-body es _
  on_events-body (body_part s f ∷ es) c = on_events-body es _ ∙ append_assoc c.body s (body_of es)

  pub on_events-base : (es : List HttpEvent) (c : HttpConn P) → (on_events es c).base ≡ c.base
  unfolding on_events
  on_events-base [] c = refl
  on_events-base (url_part s ∷ es) c = on_events-base es _
  on_events-base (headers_complete get n k ∷ es) c = on_events-base es _
  on_events-base (headers_complete post n k ∷ es) c = on_events-base es _ ∙ ground arith
  on_events-base (headers_complete other n k ∷ es) c = on_events-base es _
  on_events-base (body_part s f ∷ es) c = on_events-base es _

slash-append : (s m : Str) → slash s ≡ none → slash (s ++ (47 ∷ m)) ≡ some (length s)
unfolding slash
slash-append [] m h = refl
slash-append (x ∷ s) m h = ground (arith, slash-append s m)

-- "/service/method".
abbrev pub path : Str → Str → Str
path service method = 47 ∷ (service ++ (47 ∷ method))

names-slash :
    (c i : ℕ) (rest : Str)
    → slash rest ≡ some i
    → names (c ∷ rest) ≡ ret (take i rest, drop (suc i) rest)
unfolding names
names-slash c i rest e = ground arith

pub names-path :
    (service method : Str)
    → slash service ≡ none
    → names (path service method) ≡ ret (service, method)
names-path service method h =
    let behind : drop (suc (length service)) (service ++ (47 ∷ method)) ≡ method =
      ap (drop (suc (length service))) (sym (append_assoc service (47 ∷ []) method))
      ∙ drop-append (suc (length service)) (service ++ (47 ∷ [])) method
          (omega (arith, length-append service (47 ∷ []))) in
    let front : take (length service) (service ++ (47 ∷ method)) ≡ service =
      take-append (length service) service (47 ∷ method) refl in
    names-slash 47 (length service) (service ++ (47 ∷ method)) (slash-append service method h)
    ∙ (ap (λ (x : Str). ret (x, drop (suc (length service)) (service ++ (47 ∷ method)))) front
        ∙ ap (λ (x : Str). ret (service, x)) behind)

module _ (mem : Allocator) (ms : Str) (fits : length ms + 4 < 2 ^ 32) where
  -- The bytes of the package that holds the message `ms`.
  abbrev pub filled : Str
  filled = splice (splice (mem.fresh (u32 (u32 (length ms) + 4))) 0 (be32 (u32 (length ms)))) 4 ms

  pub filled-body : filled ≡ body ms []
  filled-body =
      let fresh : Str = mem.fresh (length ms + 4) in
      let word : Str = be32 (length ms) in
      let small : u32 (length ms) ≡ length ms = omega (arith, fits) in
      let all : u32 (length ms + 4) ≡ length ms + 4 = omega (arith, fits) in
      let size : length (splice fresh 0 word) ≡ length ms + 4 = omega (
        arith,
        length-splice fresh 0 word,
        mem.length-fresh (length ms + 4),
        length-be32 (length ms),
      ) in
      let front : take 4 (splice fresh 0 word) ≡ word =
        take-splice fresh 0 4 word
          (omega (arith, mem.length-fresh (length ms + 4), length-be32 (length ms)))
          (omega (arith, length-be32 (length ms))) in
      let none_left : drop (4 + length ms) (splice fresh 0 word) ≡ [] =
        drop_all (4 + length ms) (splice fresh 0 word) (omega (arith, size)) in
      let sized : filled ≡ splice (splice fresh 0 word) 4 ms = rw (small, all) refl in
      sized
      ∙ (ap (λ (x : Str). x ++ (ms ++ drop (4 + length ms) (splice fresh 0 word))) front
          ∙ ap (λ (x : Str). word ++ (ms ++ x)) none_left)
