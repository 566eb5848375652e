-- ===== src/Config.antt =====
-- The configuration of a server: server/src/RpcServerConfig.cpp. `cores` is what
-- `std::thread::hardware_concurrency` returns. A port of HTTP that is -1 is `none`.
use rpcframe.Prelude.{ℕ, ◌*◌, Option, none, some, Str, ltb, if◌then◌else◌}

pub record Config : Type 0 where
  pub thread_num : ℕ  -- uint32_t
  pub hostname : Str
  pub port : ℕ
  pub max_conn_num : ℕ  -- uint32_t
  pub max_req_size : ℕ  -- uint32_t
  pub http_port : Option ℕ
  pub http_thread_num : ℕ
  pub max_req_qsize : ℕ  -- uint32_t
  pub conn_thread_num : ℕ  -- uint16_t

unfoldable pub make : ℕ → Str → ℕ → Config
make cores hostname port = record {
  thread_num = cores;
  hostname = hostname;
  port = port;
  max_conn_num = 1024 * 10;
  max_req_size = 1024 * 1024 * 128;
  http_port = some 8000;
  http_thread_num = cores;
  max_req_qsize = 10 * 1024 * 1024;
  conn_thread_num = cores;
}

unfoldable pub set_thread_num : ℕ → Config → Config
set_thread_num n c = if ltb 0 n then record c { thread_num = n } else c

unfoldable pub set_conn_thread_num : ℕ → Config → Config
set_conn_thread_num n c = if ltb 0 n then record c { conn_thread_num = n } else c

unfoldable pub set_max_connection : ℕ → Config → Config
set_max_connection n c = record c { max_conn_num = n }

unfoldable pub set_max_req_pkg_size : ℕ → Config → Config
set_max_req_pkg_size n c = record c { max_req_size = n }

unfoldable pub set_max_req_qsize : ℕ → Config → Config
set_max_req_qsize n c = record c { max_req_qsize = n }

unfoldable pub enable_http : Option ℕ → ℕ → Config → Config
enable_http port threads c = record c { http_port = port; http_thread_num = threads }

unfoldable pub disable_http : Config → Config
disable_http c = record c { http_port = none }
