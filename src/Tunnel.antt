-- ===== src/Tunnel.antt =====
-- packages/tunnel-protocol/src: what the tunnel to the relay keeps and sends.
pub mod PendingFrames
pub mod PendingRequests
pub mod Relay
pub mod Base64
pub mod Codec
pub mod StreamMux
