-- ===== src/ServerConn/Tests.antt =====
-- Sending responses, on small inputs.
use rpcframe.Prelude.{[], ◌∷◌, false, arith, Returns}
use rpcframe.Net.{eintr, room, refuse}
use rpcframe.Stats.{no_stats}
use rpcframe.Samples.{accepted, whole}
use rpcframe.ServerConn.{ServerConn, send_response}
use rpcframe.ServerConn.Sending.{Kept, IsSendable, send_response_lem}

-- Two responses are queued; the kernel interrupts once and then takes two of the three bytes.
abbrev busy : ServerConn
busy = record (accepted [] (refuse eintr ∷ room 1 ∷ [])) {
  response_q = record {
    items = whole (1 ∷ 2 ∷ 3 ∷ []) ∷ whole (4 ∷ []) ∷ [];
    max_q_len = 9;
    drop_old_on_full = false;
  };
}

busy-IsSendable : IsSendable busy
busy-IsSendable = omega arith

send_response_lem_example : Returns (Kept busy) (send_response 8 busy no_stats)
send_response_lem_example = send_response_lem 8 busy no_stats busy-IsSendable tt
