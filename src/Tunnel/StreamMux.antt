-- ===== src/Tunnel/StreamMux.antt =====
-- packages/tunnel-client/src/stream-mux.ts: the streams of a tunnel, each with a loopback socket. The
-- callbacks that `handleOpen` registers keep a reference to their stream object, also when the map of
-- streams has lost it, so the objects stand in a heap and the map holds their numbers.
pub mod Heap
pub mod Invariant
pub mod Events
pub mod Steps
pub mod Flush
pub mod Delivery
pub mod Opening
mod Tests
use mathlib.Core.List.{flatten}
use kb_1_daemon.Prelude.{
  ℕ, zero, suc, ◌+◌, Bool, true, false, not, ◌&&◌, List, [], ◌∷◌, ◌++◌, map, Option, none, some,
  Text, text, text_eq, length, get_elem?, ltb, if◌then◌else◌, ◌≡◌,
}
use kb_1_daemon.Tunnel.Base64.{Bytes}
use kb_1_daemon.Tunnel.Codec.{
  DocumentStreamCodec, DataEnvelope, create_codec, default_window_bytes, or_default, enqueue,
  ingest, Ingested, buffered, message, throws, on_ack, pull_sendable, has_pending_outbound,
}

-- What the mux does to the tunnel and to the loopback sockets: a socket has the number of its stream.
pub data Effect : Type 0 where
  opened : Text → Effect
  sent_data : DataEnvelope → Effect
  sent_ack : Text → ℕ → Effect
  sent_close : Text → ℕ → Text → Effect
  delivered : ℕ → Bytes → Effect
  paused_socket resumed_socket : ℕ → Effect
  closed_socket : ℕ → ℕ → Text → Effect

-- `stream_id` is the `open.streamId` that the callbacks have captured.
pub record MuxStream : Type 0 where
  pub stream_id : Text
  pub codec : DocumentStreamCodec
  pub loopback_open : Bool
  pub paused : Bool
  pub pending_inbound : List Bytes
  pub pending_inbound_bytes : ℕ

-- `accepts` says whether a `send` on a socket returns or throws, and `is_ws_open` whether its
-- `readyState` is WS_OPEN, after what was done so far.
pub record Deps : Type 0 where
  pub accepts : List Effect → ℕ → Bytes → Bool
  pub is_ws_open : List Effect → ℕ → Bool
  pub chunk_bytes : Option ℕ
  pub window_bytes : Option ℕ

abbrev pub StreamMap : Type 0
StreamMap = List (Text × ℕ)

pub record StreamMux : Type 0 where
  pub streams : StreamMap
  pub heap : List MuxStream
  pub log : List Effect

abbrev pub empty_mux : StreamMux
empty_mux = record { streams = []; heap = []; log = [] }

abbrev pub stream_retry_safe : ℕ
stream_retry_safe = 4001

abbrev pub oversized_ws_frame : ℕ
oversized_ws_frame = 4004

-- `Map.get` and `Map.delete`
unfoldable pub get_ref : Text → StreamMap → Option ℕ
get_ref id [] = none
get_ref id ((k, r) ∷ rest) = if text_eq k id then some r else get_ref id rest

unfoldable pub delete_ref : Text → StreamMap → StreamMap
delete_ref id [] = []
delete_ref id ((k, r) ∷ rest) =
    if text_eq k id then delete_ref id rest else (k, r) ∷ delete_ref id rest

unfoldable pub set_at : ℕ → MuxStream → List MuxStream → List MuxStream
set_at r s [] = []
set_at zero s (t ∷ heap) = s ∷ heap
set_at (suc r) s (t ∷ heap) = t ∷ set_at r s heap

abbrev pub put : ℕ → MuxStream → StreamMux → StreamMux
put r s m = record m { heap = set_at r s m.heap }

abbrev pub log_effect : Effect → StreamMux → StreamMux
log_effect e m = record m { log = m.log ++ e ∷ [] }

abbrev pub with_object : ℕ → Option MuxStream → Option (ℕ × MuxStream)
with_object r none = none
with_object r (some s) = some (r, s)

abbrev pub object_of : List MuxStream → Option ℕ → Option (ℕ × MuxStream)
object_of heap none = none
object_of heap (some r) = with_object r (get_elem? heap r)

-- `this.streams.get(streamId)`
abbrev pub find_stream : Text → StreamMux → Option (ℕ × MuxStream)
find_stream id m = object_of m.heap (get_ref id m.streams)

abbrev pub new_stream : Deps → Text → MuxStream
new_stream deps id = record {
  stream_id = id;
  codec = create_codec id deps.chunk_bytes deps.window_bytes none;
  loopback_open = false;
  paused = false;
  pending_inbound = [];
  pending_inbound_bytes = 0;
}

abbrev pub add_stream : Deps → Text → StreamMux → Option ℕ → StreamMux
add_stream deps id m (some r) = m
add_stream deps id m none = record {
  streams = m.streams ++ (id, length m.heap) ∷ [];
  heap = m.heap ++ new_stream deps id ∷ [];
  log = m.log ++ opened id ∷ [];
}

unfoldable pub handle_open : Deps → Text → StreamMux → StreamMux
handle_open deps id m = add_stream deps id m (get_ref id m.streams)

-- `if (stream.loopback.readyState === WS_OPEN) stream.loopback.close(code, reason)`
abbrev pub close_socket : Deps → ℕ → ℕ → Text → StreamMux → StreamMux
close_socket deps r code reason m =
    if deps.is_ws_open m.log r then log_effect (closed_socket r code reason) m else m

abbrev pub forget : Text → StreamMux → StreamMux
forget id m = record m { streams = delete_ref id m.streams }

abbrev pub tear_down_at : Deps → Text → ℕ → Text → StreamMux → Option ℕ → StreamMux
tear_down_at deps id code reason m none = m
tear_down_at deps id code reason m (some r) =
    log_effect (sent_close id code reason) (close_socket deps r 1002 reason (forget id m))

unfoldable pub tear_down : Deps → Text → ℕ → Text → StreamMux → StreamMux
tear_down deps id code reason m = tear_down_at deps id code reason m (get_ref id m.streams)

unfoldable pub write_loopback : Deps → ℕ → Bytes → StreamMux → StreamMux × Bool
write_loopback deps r bytes m =
    if deps.accepts m.log r bytes then (log_effect (delivered r bytes) m, true) else (m, false)

abbrev pub delivery_failed : Deps → Text → StreamMux → StreamMux
delivery_failed deps id m = tear_down deps id stream_retry_safe (text "loopback delivery failed") m

abbrev pub send_data_ack : DataEnvelope → StreamMux → StreamMux
send_data_ack frame m = log_effect (sent_ack frame.stream_id frame.seq) m

-- The loop of the "open" callback over the messages that wait.
unfoldable pub write_pending : Deps → ℕ → List Bytes → StreamMux → StreamMux × Bool
write_pending deps r [] m = (m, true)
write_pending deps r (bytes ∷ rest) m =
    let w = write_loopback deps r bytes m in
    let later = write_pending deps r rest w.0 in if w.1 then later else w

abbrev pub opened_stream : MuxStream → MuxStream
opened_stream s = record s { loopback_open = true }

abbrev pub drained_stream : MuxStream → MuxStream
drained_stream s = record s {
  loopback_open = true;
  pending_inbound = [];
  pending_inbound_bytes = 0;
}

-- The socket's "open" event, for the stream s with the number r.
unfoldable pub loopback_opens : Deps → ℕ → MuxStream → StreamMux → StreamMux
loopback_opens deps r s m =
    let w = write_pending deps r s.pending_inbound (put r (opened_stream s) m) in
    if w.1 then put r (drained_stream s) w.0 else delivery_failed deps s.stream_id w.0

abbrev pub emit_all : List DataEnvelope → StreamMux → StreamMux
emit_all frames m = record m { log = m.log ++ map sent_data frames }

-- `stream.paused` follows the queue.
abbrev pub adjust_pause : ℕ → MuxStream → Bool → StreamMux → StreamMux
adjust_pause r s pending m =
    if pending && not s.paused
    then put r (record s { paused = true }) (log_effect (paused_socket r) m)
    else (if not pending && s.paused
        then put r (record s { paused = false }) (log_effect (resumed_socket r) m)
        else put r s m)

unfoldable pub flush_outbound : ℕ → MuxStream → StreamMux → StreamMux
flush_outbound r s m =
    let pulled = pull_sendable s.codec in
    adjust_pause r (record s { codec = pulled.0 }) (has_pending_outbound pulled.0)
      (emit_all pulled.1 m)

-- What a socket's "message" event may carry.
pub data MessageData : Type 0 where
  string_data : Text → MessageData
  buffer array_buffer view : Bytes → MessageData
  fragments : List Bytes → MessageData
  other_data : MessageData

unfoldable pub to_bytes : (Text → Bytes) → MessageData → Option Bytes
to_bytes from (string_data s) = some (from s)
to_bytes from (buffer b) = some b
to_bytes from (array_buffer b) = some b
to_bytes from (fragments bs) = some (flatten bs)
to_bytes from (view b) = some b
to_bytes from other_data = none

abbrev pub flush_queued : ℕ → MuxStream → StreamMux → Option DocumentStreamCodec → Option StreamMux
flush_queued r s m none = none
flush_queued r s m (some c) = some (flush_outbound r (record s { codec = c }) m)

abbrev pub send_bytes : ℕ → MuxStream → StreamMux → Option Bytes → Option StreamMux
send_bytes r s m none = some m
send_bytes r s m (some bytes) = flush_queued r s m (enqueue s.codec bytes)

-- `none` if `enqueue` does not end.
unfoldable pub loopback_message :
    (Text → Bytes) → ℕ → MuxStream → MessageData → StreamMux → Option StreamMux
loopback_message from r s sent m = send_bytes r s m (to_bytes from sent)

pub data CloseReason : Type 0 where
  string_reason : Text → CloseReason
  buffer_reason : Bytes → CloseReason
  other_reason : CloseReason

unfoldable pub reason_text : (Bytes → Text) → CloseReason → Text
reason_text to_string (string_reason s) = s
reason_text to_string (buffer_reason b) = to_string b
reason_text to_string other_reason = []

abbrev pub close_if_known : Text → ℕ → Text → StreamMux → Option ℕ → StreamMux
close_if_known id code reason m none = m
close_if_known id code reason m (some r) = log_effect (sent_close id code reason) (forget id m)

-- The socket's "close" event: whatever stream has the id now is forgotten.
unfoldable pub loopback_closes :
    (Bytes → Text) → MuxStream → Option ℕ → CloseReason → StreamMux → StreamMux
loopback_closes to_string s code reason m =
    close_if_known s.stream_id (or_default code stream_retry_safe) (reason_text to_string reason) m
      (get_ref s.stream_id m.streams)

abbrev pub limit_of : Deps → ℕ
limit_of deps = or_default deps.window_bytes default_window_bytes

abbrev pub hold : DataEnvelope → ℕ → MuxStream → Bytes → StreamMux → StreamMux
hold frame r s bytes m = send_data_ack frame (
    put r
      (record s {
        pending_inbound = s.pending_inbound ++ bytes ∷ [];
        pending_inbound_bytes = s.pending_inbound_bytes + length bytes;
      })
      m)

abbrev pub after_write : Deps → DataEnvelope → StreamMux × Bool → StreamMux
after_write deps frame (m, true) = send_data_ack frame m
after_write deps frame (m, false) = delivery_failed deps frame.stream_id m

abbrev pub hold_unless : Deps → DataEnvelope → ℕ → MuxStream → Bytes → StreamMux → Bool → StreamMux
hold_unless deps frame r s bytes m true =
    tear_down deps frame.stream_id stream_retry_safe (text "pending inbound buffer overflow")
      (put r s m)
hold_unless deps frame r s bytes m false = hold frame r s bytes m

abbrev pub pass_on : Deps → DataEnvelope → ℕ → MuxStream → Bytes → StreamMux → Bool → StreamMux
pass_on deps frame r s bytes m true =
    after_write deps frame (write_loopback deps r bytes (put r s m))
pass_on deps frame r s bytes m false =
    hold_unless deps frame r s bytes m
      (ltb (limit_of deps) (s.pending_inbound_bytes + length bytes))

-- A complete message, for the stream s whose codec has taken it.
abbrev pub receive_message : Deps → DataEnvelope → ℕ → MuxStream → Bytes → StreamMux → StreamMux
receive_message deps frame r s bytes m = pass_on deps frame r s bytes m s.loopback_open

-- `error` is `String(error)`.
abbrev pub receive_ingested :
    Deps → Text → DataEnvelope → ℕ → MuxStream → StreamMux → Ingested → StreamMux
receive_ingested deps error frame r s m throws =
    tear_down deps frame.stream_id oversized_ws_frame error (put r s m)
receive_ingested deps error frame r s m buffered = send_data_ack frame (put r s m)
receive_ingested deps error frame r s m (message bytes) = receive_message deps frame r s bytes m

abbrev pub data_for : Deps → Text → DataEnvelope → StreamMux → Option (ℕ × MuxStream) → StreamMux
data_for deps error frame m none = m
data_for deps error frame m (some (r, s)) =
    let taken = ingest s.codec frame in
    receive_ingested deps error frame r (record s { codec = taken.0 }) m taken.1

unfoldable pub handle_data : Deps → Text → DataEnvelope → StreamMux → StreamMux
handle_data deps error frame m = data_for deps error frame m (find_stream frame.stream_id m)

abbrev pub ack_for : ℕ → StreamMux → Option (ℕ × MuxStream) → StreamMux
ack_for seq m none = m
ack_for seq m (some (r, s)) = flush_outbound r (record s { codec = on_ack s.codec seq }) m

unfoldable pub handle_data_ack : Text → ℕ → StreamMux → StreamMux
handle_data_ack id seq m = ack_for seq m (find_stream id m)

abbrev pub close_for : Deps → Text → Text → StreamMux → Option ℕ → StreamMux
close_for deps id reason m none = m
close_for deps id reason m (some r) = close_socket deps r 1000 reason (forget id m)

unfoldable pub handle_close : Deps → Text → Text → StreamMux → StreamMux
handle_close deps id reason m = close_for deps id reason m (get_ref id m.streams)

unfoldable pub close_sockets : Deps → Text → StreamMap → StreamMux → StreamMux
close_sockets deps reason [] m = m
close_sockets deps reason ((id, r) ∷ rest) m =
    close_sockets deps reason rest (close_socket deps r 1001 reason m)

unfoldable pub dispose_all : Deps → Text → StreamMux → StreamMux
dispose_all deps reason m = record (close_sockets deps reason m.streams m) { streams = [] }

-- A frame from the tunnel or an event of some stream's socket.
pub data Step (deps : Deps) : StreamMux → StreamMux → Type 0 where
  opens : (id : Text) (m : StreamMux) → Step deps m (handle_open deps id m)
  data_comes :
      (error : Text) (frame : DataEnvelope) (m : StreamMux)
      → Step deps m (handle_data deps error frame m)
  ack_comes : (id : Text) (seq : ℕ) (m : StreamMux) → Step deps m (handle_data_ack id seq m)
  close_comes : (id reason : Text) (m : StreamMux) → Step deps m (handle_close deps id reason m)
  is_disposed : (reason : Text) (m : StreamMux) → Step deps m (dispose_all deps reason m)
  socket_opens :
      (r : ℕ) (s : MuxStream) (m : StreamMux)
      → get_elem? m.heap r ≡ some s
      → Step deps m (loopback_opens deps r s m)
  socket_sends :
      (from : Text → Bytes) (r : ℕ) (s : MuxStream) (d : MessageData) (m n : StreamMux)
      → get_elem? m.heap r ≡ some s
      → loopback_message from r s d m ≡ some n
      → Step deps m n
  socket_closes :
      (to_string : Bytes → Text) (r : ℕ) (s : MuxStream) (code : Option ℕ) (reason : CloseReason)
      (m : StreamMux)
      → get_elem? m.heap r ≡ some s
      → Step deps m (loopback_closes to_string s code reason m)
