-- ===== src/Tunnel/Base64/Tests.antt =====
-- Two bytes, which make one padded group.
use kb_1_daemon.Prelude.{◌≡◌, [], ◌∷◌, some, arith}
use kb_1_daemon.Tunnel.Base64.{bytes_to_base64, base64_to_bytes}
use kb_1_daemon.Tunnel.Base64.RoundTrip.{base64_to_bytes-bytes_to_base64}

base64_to_bytes-bytes_to_base64_example :
    base64_to_bytes (bytes_to_base64 (200 ∷ 7 ∷ [])) ≡ some (200 ∷ 7 ∷ [])
base64_to_bytes-bytes_to_base64_example =
    base64_to_bytes-bytes_to_base64 (200 ∷ 7 ∷ []) (omega arith, (omega arith, tt))
