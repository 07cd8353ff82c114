-- ===== src/Swarm/Relay/Frames.antt =====
-- swarm/relay.go, the wire protocol. A reader is the bytes that are still to come before the end
-- of the stream. A writer is what was written so far, and how its next calls of Write end: `none`
-- succeeds, `some n` fails after n bytes; past the list's end every call succeeds.
use gole.Base.{
  ℕ, ◌%◌, ◌^◌, Option, none, some, List, [], ◌∷◌, ◌++◌, Bytes, length, take, drop, leb, ltb, ◌==◌,
  nat_eq, if◌then◌else◌,
}
use gole.Base.Result.{Result, ok, err}
use gole.Base.Words.{le_bytes, le_value}
use gole.Swarm.Types.Address.{EndpointAddr}
use gole.Swarm.Types.Wire.{
  RelayFrameHeader, frame_auth, frame_data, frame_ping, relay_frame_header_size, max_relay_payload,
}

pub record Sink : Type 0 where
  pub written : Bytes
  pub faults : List (Option ℕ)

pub data ReadError : Type 0 where
  eof unexpected_eof payload_too_large : ReadError

pub data WriteError : Type 0 where
  write_failed : WriteError

-- w.Write
unfoldable pub write : Bytes → List (Option ℕ) → Bytes → Sink × Result WriteError (Unit {0})
write out [] b = (record { written = out ++ b; faults = [] }, ok tt)
write out (none ∷ fs) b = (record { written = out ++ b; faults = fs }, ok tt)
write out (some n ∷ fs) b = (record { written = out ++ take n b; faults = fs }, err write_failed)

unfoldable pub header_bytes : RelayFrameHeader → Bytes
header_bytes h =
    h.kind ∷ h.dst_domain ∷ h.dst_group ∷ (le_bytes 2 h.dst_endpoint ++ le_bytes 4 h.payload_len)

-- The second call of Write, made unless the payload is empty.
unfoldable pub write_payload :
    Bytes → Sink × Result WriteError (Unit {0}) → Sink × Result WriteError (Unit {0})
write_payload payload (w, err e) = (w, err e)
write_payload payload (w, ok u) =
    if length payload == 0 then (w, ok tt) else write w.written w.faults payload

-- writeFrame
unfoldable pub write_frame : RelayFrameHeader → Bytes → Sink → Sink × Result WriteError (Unit {0})
write_frame h payload w = write_payload payload (write w.written w.faults (header_bytes h))

-- io.ReadFull of n bytes
unfoldable pub read_full : ℕ → Bytes → Result ReadError (Bytes × Bytes)
read_full n s =
    if leb n (length s)
    then ok (take n s, drop n s)
    else if length s == 0
    then err eof
    else err unexpected_eof

unfoldable pub byte_at : ℕ → Bytes → ℕ
byte_at i b = elim (drop i b) [ [] ↦ 0 | x ∷ xs ↦ x ]

unfoldable pub header_of : Bytes → RelayFrameHeader
header_of buf = record {
  kind = byte_at 0 buf;
  dst_domain = byte_at 1 buf;
  dst_group = byte_at 2 buf;
  dst_endpoint = le_value (take 2 (drop 3 buf));
  payload_len = le_value (take 4 (drop 5 buf));
}

-- readFrame past the header
unfoldable pub read_payload :
    RelayFrameHeader → Bytes → Result ReadError (RelayFrameHeader × (Bytes × Bytes))
read_payload h s =
    if ltb max_relay_payload h.payload_len
    then err payload_too_large
    else if h.payload_len == 0
    then ok (h, ([], s))
    else elim (read_full h.payload_len s) [
      | err e ↦ err e
      | ok (payload, rest) ↦ ok (h, (payload, rest))
    ]

-- readFrame: the header, the payload and what follows the frame
unfoldable pub read_frame : Bytes → Result ReadError (RelayFrameHeader × (Bytes × Bytes))
read_frame s = elim (read_full relay_frame_header_size s) [
  | err e ↦ err e
  | ok (buf, rest) ↦ read_payload (header_of buf) rest
]

-- A header of a frame that is for no endpoint, and for one.
unfoldable pub plain_header : ℕ → ℕ → RelayFrameHeader
plain_header kind len = record {
  kind = kind;
  dst_domain = 0;
  dst_group = 0;
  dst_endpoint = 0;
  payload_len = len % 2 ^ 32;
}

unfoldable pub addressed_header : ℕ → EndpointAddr → ℕ → RelayFrameHeader
addressed_header kind addr len = record {
  kind = kind;
  dst_domain = addr.domain;
  dst_group = addr.group;
  dst_endpoint = addr.endpoint;
  payload_len = len % 2 ^ 32;
}

-- WriteAuthFrame, WriteDataFrame, WritePingFrame
unfoldable pub write_auth_frame : Bytes → Sink → Sink × Result WriteError (Unit {0})
write_auth_frame token w = write_frame (plain_header frame_auth (length token)) token w

unfoldable pub write_data_frame : EndpointAddr → Bytes → Sink → Sink × Result WriteError (Unit {0})
write_data_frame dst payload w =
    write_frame (addressed_header frame_data dst (length payload)) payload w

unfoldable pub write_ping_frame : Bytes → Sink → Sink × Result WriteError (Unit {0})
write_ping_frame nonce w = write_frame (plain_header frame_ping (length nonce)) nonce w
