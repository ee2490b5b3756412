-- ===== src/Proxy/Errors.antt =====
-- The errors of internal/proxy/target.go.
pub data Error : Type 0 where
  empty_link missing_server not_host_port : Error
  missing_port invalid_port port_out_of_range : Error
  missing_secret undecodable_secret short_secret : Error
