-- ===== src/Tunnel/Relay.antt =====
-- The relay frames of packages/tunnel-protocol/src/index.ts and their parser, `parseRelayFrame`.
pub mod Value
pub mod Frame
pub mod Expect
pub mod Parse
pub mod Encode
pub mod Wire
mod Tests
