-- ===== src/Prom.antt =====
-- src/prom.rs: the counters, all of which only ever go up by one.
pub data Counter : Type 0 where
  requests_sign_received requests_sign_handled requests_offline_done requests_sign_done : Counter
  requests_keygen_received requests_keygen_handled requests_keygen_done : Counter
  messages_total_received messages_invalid messages_invalid_encryption : Counter
  messages_keygen_handled messages_offline_handled messages_sign_handled : Counter
  messages_dropped : Counter
