-- ===== src/Error.antt =====
-- The errors of src/error.rs. A message is a constructor for each text that the program formats,
-- with the values it names.
use rtltcp.Prelude.{ℕ}
use rtltcp.Prelude.Int.{ℤ}
use rtltcp.Io.{ErrorKind}

pub data Message : Type 0 where
  frequency_out_of_range sample_rate_out_of_range : ℕ → Message
  ppm_out_of_range tuner_gain_out_of_range : ℤ → Message
  not_in_whitelist : Message
  buffers_range tcp_buffers_range read_timeout_zero write_timeout_zero same_ports : Message
  invalid_hex_key key_length upstream_required invalid_upstream invalid_upstream_port : Message
  key_file_failed connect_failed read_magic_failed nonce_exchange_failed : ErrorKind → Message
  accept_failed : ErrorKind → Message
  unknown_mode open_device_failed signal_handler_failed : Message
  listen_fd_failed : ErrorKind → Message

pub data RtlTcpError : Type 0 where
  device network config : Message → RtlTcpError
  io : ErrorKind → RtlTcpError
