-- ===== src/Client/Replies.antt =====
-- The client of internal/client/client.go against the handlers of internal/server/server.go.
use lotun.Base.{
  ℕ, true, false, ◌≡◌, ◌≢◌, refl, ap, ◌⊎◌, inl, inr, [], ◌++◌, some, Bool-cases, ◌==◌, ◌<◌, ◌^◌,
  length, if◌then◌else◌,
}
use lotun.Base.Bytes.{Bytes, bytes, bytes_eq, eqb_bytes_iff}
use lotun.Base.Decimal.{itoa, IsInt64}
use lotun.Json.{JsonText, IsText}
use lotun.Protocol.{Message, Registered, registered, error}
use lotun.Protocol.Encode.{header_json}
use lotun.Protocol.Frame.{Reader, Writer, flatten}
use lotun.Protocol.Codec.{write_stream_header}
use lotun.Protocol.Codec.RoundTrip.{read_stream_header-write_stream_header}
use lotun.Store.{FileStore, Disk, Faults, Outcome, done, failed, panics, is_claimed}
use lotun.Store.Claims.{Claims, claim-Claims, Written}
use lotun.Registry.{Tunnel, new_id, requested}
use lotun.Registry.Valid.{IsValid}
use lotun.Http.{stream_header}
use lotun.Server.{Server, Draws, handle_register, handle_claim, store_reply}
use lotun.Server.Control.{authenticate}
use lotun.Server.Undo.{IsFreshId}
use lotun.Server.Grants.{Granted, Untouched}
use lotun.Server.Requests.{Handled, handle_register-Handled}
use lotun.Client.{
  TunnelRequest, Reply, received, hello, connect, register_message, register_reply, expect_ok,
  handle_stream,
}
use lotun.Client

-- A client's handshake with a server, if the reply goes out, succeeds exactly if the client's
-- token is the server's, and otherwise fails with the server's text, invalid token.
pub connect-authenticate :
    (s : Server) (token : Bytes)
    → let reply = (authenticate s (some (hello token)) true).1 in
      ((token ≡ s.token) × (connect reply ≡ received tt))
      ⊎ ((token ≢ s.token) × (connect reply ≡ Client.failed (bytes "invalid token")))
unfolding authenticate connect
connect-authenticate s token = elim (Bool-cases (token == s.token)) [
  | inl same ↦ rw same (inl ((eqb_bytes_iff token s.token).0 same, refl))
  | inr other ↦ rw other (inr (λ h. cc (other, (eqb_bytes_iff token s.token).1 h), refl))
]

-- What a client learns of a registration.
abbrev pub Learns : Server → TunnelRequest → Draws → Server → Reply Registered → Type 0
Learns s req w s' (received reply) =
    (tn : Tunnel) × Granted s w tn reply s'
    × (tn.local_port ≡ req.local_port)
    × (tn.private ≡ req.private)
Learns s req w s' (Client.failed m) = Untouched s s'
Learns s req w s' _ = ⊥

Learns-Handled :
    (s : Server) (req : TunnelRequest) (sess : ℕ) (w : Draws) (a : Server × Message)
    → Handled s (register_message req) sess w a
    → Learns s req w a.0 (register_reply (some a.1))
unfolding register_reply register_message requested
Learns-Handled s req sess w (s', registered reply) (sub, tn, _, same, granted, _) =
    (tn, granted, ap (λ x. x.local_port) same, ap (λ x. x.private) same)
Learns-Handled s req sess w (s', error m) untouched = untouched
Learns-Handled s req sess w (s', _) h = absurd h

-- A client that registers a tunnel at a server with a valid table and a fresh ID: it gets a
-- result exactly if the server granted the tunnel, which then is routed with the client's local
-- port and privacy and named by the reply; otherwise it gets the server's error, and routes,
-- listeners, claims and file are as they were.
pub register_reply-handle_register :
    (s : Server) (req : TunnelRequest) (sess : ℕ) (w : Draws)
    → IsValid s.registry
    → IsFreshId s.registry (new_id w.id_seed)
    → let (s', reply) = handle_register s (register_message req) sess w in
      Learns s req w s' (register_reply (some reply))
register_reply-handle_register s req sess w valid fresh =
    Learns-Handled s req sess w _
      (handle_register-Handled s (register_message req) sess w valid fresh)

claimed_by :
    (json : JsonText) (name : Bytes) (f : Faults) (s : FileStore) (d : Disk)
    (a : Outcome × FileStore × Disk)
    → Claims json name f s d a
    → expect_ok (store_reply a.0) ≡ received tt
    → (is_claimed s name ≡ false)
      × ((j : Bytes) → is_claimed a.1 j ≡ (if name == j then true else is_claimed s j))
      × Written json a.1 d done a.2
unfolding expect_ok store_reply
claimed_by json name f s d (done, s', d') (free, _, _, known, written) h = (free, known, written)
claimed_by json name f s d (failed e, s', d') c h = cc
claimed_by json name f s d (panics, s', d') c h = cc

-- If a client's Claim gets OK from the server, then the name was free, exactly it was added to
-- the claims, and the file holds the new document.
pub expect_ok-handle_claim :
    (json : JsonText) (s : Server) (name : Bytes) (w : Draws)
    → let (s', reply) = handle_claim json s name w in
      expect_ok reply ≡ received tt
      → (is_claimed s.store name ≡ false)
        × ((j : Bytes) → is_claimed s'.store j ≡ (if name == j then true else is_claimed s.store j))
        × Written json s'.store s.disk done s'.disk
unfolding handle_claim
expect_ok-handle_claim json s name w h =
    claimed_by json name w.faults s.store s.disk _ (claim-Claims json name w.faults s.store s.disk)
      h

-- From the header that the server writes on a new data stream, however the bytes arrive, the
-- client dials the tunnel's local port on 127.0.0.1 and leaves what follows the header, if the ID
-- survives JSON, the port is a Go int, the text is shorter than 2^32 bytes, and the write was the
-- first to its writer and succeeded.
pub handle_stream-stream_header :
    (json : JsonText) (tn : Tunnel) (w : Writer) (cs : Reader) (rest : Bytes)
    → IsText json.valid (header_json (stream_header tn))
    → IsInt64 tn.local_port
    → length (json.print (header_json (stream_header tn))) < 2 ^ 32
    → (write_stream_header json w (stream_header tn)).0 ≡ true
    → w.out ≡ []
    → flatten cs ≡ (write_stream_header json w (stream_header tn)).1.out ++ rest
    → (cs' : Reader) × (handle_stream json cs
        ≡ some (bytes "127.0.0.1:" ++ itoa tn.local_port, cs'))
      × (flatten cs' ≡ rest)
unfolding handle_stream stream_header
handle_stream-stream_header json tn w cs rest text int short sent fresh out =
    let (cs', read, left) =
      read_stream_header-write_stream_header json (stream_header tn) w cs rest text int short sent
        fresh out in
    (cs', rw (read, handle_stream) refl, left)
