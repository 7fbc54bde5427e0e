-- ===== src/Engine/Config.antt =====
-- The builder methods of rabia-engine/src/config.rs, and the TCP settings of network/tcp.rs. Times
-- are milliseconds; an address is a number, and `is_slow_host` is whether the variable CI is set on
-- Windows.
use rabia.Base.{ℕ, Bool, [], some, if◌then◌else◌}
use rabia.Base.Dict.{Dict}
use rabia.Core.Types.{NodeId}
use rabia.Engine.Runtime.{RabiaConfig}
use rabia.Tcp.Connect.{SocketAddr, RetryConfig, default_retry}

abbrev pub with_phase_timeout : ℕ → RabiaConfig → RabiaConfig
with_phase_timeout n c = record c { phase_timeout = n }

abbrev pub with_sync_timeout : ℕ → RabiaConfig → RabiaConfig
with_sync_timeout n c = record c { sync_timeout = n }

abbrev pub with_max_batch_size : ℕ → RabiaConfig → RabiaConfig
with_max_batch_size n c = record c { max_batch_size = n }

abbrev pub with_cleanup_interval : ℕ → RabiaConfig → RabiaConfig
with_cleanup_interval n c = record c { cleanup_interval = n }

abbrev pub with_randomization_seed : ℕ → RabiaConfig → RabiaConfig
with_randomization_seed n c = record c { randomization_seed = some n }

pub record BufferConfig : Type 0 where
  pub read_buffer_size : ℕ
  pub write_buffer_size : ℕ
  pub message_queue_size : ℕ

-- `BufferConfig::default`
abbrev pub default_buffers : BufferConfig
default_buffers = record {
  read_buffer_size = 65536;
  write_buffer_size = 65536;
  message_queue_size = 1000;
}

pub record TcpNetworkConfig : Type 0 where
  pub bind_addr : SocketAddr
  pub peer_addresses : Dict NodeId SocketAddr
  pub connection_timeout : ℕ
  pub keepalive_interval : ℕ
  pub max_message_size : ℕ
  pub retry_config : RetryConfig
  pub buffer_config : BufferConfig

-- `TcpNetworkConfig::default`, with the address that "127.0.0.1:0" is parsed to.
abbrev pub default_tcp_config : SocketAddr → Bool → TcpNetworkConfig
default_tcp_config any_local_port is_slow_host = record {
  bind_addr = any_local_port;
  peer_addresses = [];
  connection_timeout = if is_slow_host then 30000 else 10000;
  keepalive_interval = if is_slow_host then 60000 else 30000;
  max_message_size = 16777216;
  retry_config = default_retry;
  buffer_config = default_buffers;
}
