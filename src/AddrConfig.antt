-- ===== src/AddrConfig.antt =====
-- internal/addrconfig: the decoding of option values into the configuration of an address.
pub mod Integer
