-- ===== src/Stats.antt =====
-- The statistics of RpcServerImpl (server/src/RpcServerImpl.cpp). Each method runs under
-- `m_stat_lock`, so calls are a sequence; counters are uint64_t.
pub mod Laws
mod Tests
use rpcframe.Prelude.{ℕ, ◌+◌, ◌-◌, ◌*◌, ◌/◌, ltb, ◌==◌, if◌then◌else◌, u64, ◌^◌}

pub record Stats : Type 0 where
  pub conn_num : ℕ
  pub avg_req_wait_time : ℕ
  pub avg_resp_wait_time : ℕ
  pub avg_call_time : ℕ
  pub max_call_time : ℕ
  pub total_req_num : ℕ
  pub total_resp_num : ℕ
  pub total_call_num : ℕ
  pub rejected_conn : ℕ
  pub req_inqueue_fail : ℕ
  pub resp_inqueue_fail : ℕ

abbrev pub no_stats : Stats
no_stats = record {
  conn_num = 0;
  avg_req_wait_time = 0;
  avg_resp_wait_time = 0;
  avg_call_time = 0;
  max_call_time = 0;
  total_req_num = 0;
  total_resp_num = 0;
  total_call_num = 0;
  rejected_conn = 0;
  req_inqueue_fail = 0;
  resp_inqueue_fail = 0;
}

-- The new average of `total` samples and one more. (Division by a counter that wrapped to 0, after
-- 2 ^ 64 - 1 samples, is not defined in C++; here it is 0.)
unfoldable pub next_avg : ℕ → ℕ → ℕ → ℕ
next_avg avg total sample =
    if avg == 0 then sample else u64 (u64 (avg * total) + sample) / u64 (total + 1)

unfoldable pub calc_req_q_time : ℕ → Stats → Stats
unfolding next_avg
calc_req_q_time t s = record s {
  avg_req_wait_time = next_avg s.avg_req_wait_time s.total_req_num t;
  total_req_num = u64 (s.total_req_num + 1);
}

unfoldable pub calc_resp_q_time : ℕ → Stats → Stats
unfolding next_avg
calc_resp_q_time t s = record s {
  avg_resp_wait_time = next_avg s.avg_resp_wait_time s.total_resp_num t;
  total_resp_num = u64 (s.total_resp_num + 1);
}

unfoldable pub calc_call_time : ℕ → Stats → Stats
unfolding next_avg
calc_call_time t s = record s {
  avg_call_time = next_avg s.avg_call_time s.total_call_num t;
  total_call_num = u64 (s.total_call_num + 1);
  max_call_time = if ltb s.max_call_time t then t else s.max_call_time;
}

unfoldable pub inc_rejected_conn : Stats → Stats
inc_rejected_conn s = record s { rejected_conn = u64 (s.rejected_conn + 1) }

unfoldable pub inc_req_in_q_fail : Stats → Stats
inc_req_in_q_fail s = record s { req_inqueue_fail = u64 (s.req_inqueue_fail + 1) }

unfoldable pub inc_resp_in_q_fail : Stats → Stats
inc_resp_in_q_fail s = record s { resp_inqueue_fail = u64 (s.resp_inqueue_fail + 1) }

unfoldable pub inc_conn_count : Stats → Stats
inc_conn_count s = record s { conn_num = u64 (s.conn_num + 1) }

-- `m_conn_num--` wraps below 0.
unfoldable pub dec_conn_count : Stats → Stats
dec_conn_count s = record s { conn_num = u64 (s.conn_num + 2 ^ 64 - 1) }
