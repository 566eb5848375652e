-- ===== src/StatusService/Answer.antt =====
-- What the status service answers.
use rpcframe.Prelude.{
  ℕ, ◌≡◌, refl, ap, ◌∙◌, Bool, false, Option, [], ◌∷◌, if◌then◌else◌, Exec, ret, waiting, fault,
  ◌>>=◌,
}
use rpcframe.Package.{RpcStatus, server_ok, Allocator, InnerResp, Codec}
use rpcframe.Stats.{Stats}
use rpcframe.Broker.{Broker, alloc_resp_buf_from, set_return_val}
use rpcframe.Broker.Layout.{reply}
use rpcframe.Broker.Strings.{string_reply}
use rpcframe.Server.{Server}
use rpcframe.StatusService.{page, get_status}

abbrev answered : Option ℕ × Broker → Exec (RpcStatus × Broker)
answered q = ret (server_ok, q.1)

tidy :
    (mem : Allocator) (proto : Codec InnerResp) (x : Exec (Option ℕ × Broker))
    → ((x >>= answered) >>= λ r. set_return_val mem proto r.0 r.1)
      ≡ (x >>= λ q. set_return_val mem proto server_ok q.1)
tidy mem proto (ret q) = refl
tidy mem proto waiting = refl
tidy mem proto fault = refl

-- Over rpcframe's own protocol the status is not shown: the answer is that of a service that fills a
-- buffer of one byte with a byte 0, and succeeds.
pub status_over_rpc :
    (mem : Allocator) (proto : Codec InnerResp) (pid : ℕ) (s : Server) (st : Stats) (b : Broker)
    → b.from_http ≡ false
    → (get_status mem proto pid s st b >>= λ r. set_return_val mem proto r.0 r.1)
      ≡ reply mem proto (0 ∷ []) server_ok b
unfolding get_status
status_over_rpc mem proto pid s st b own =
    ap
      (λ (http : Bool).
        ((if http then page pid s st else ret []) >>= λ d.
        alloc_resp_buf_from mem proto d b >>= answered)
        >>= λ r. set_return_val mem proto r.0 r.1)
      own
    ∙ (tidy mem proto (alloc_resp_buf_from mem proto [] b)
        ∙ string_reply mem proto [] server_ok b own tt)
