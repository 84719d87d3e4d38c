-- ===== src/Wire/EndToEnd.antt =====
-- A frame from the sender's `transmit` to the receiver's accumulator.
use notifiapp_transport.Common.{ℕ, ◌^◌, ◌≤◌, ◌<◌, ◌≡◌, List, ◌++◌, map, length, true, ok}
use notifiapp_transport.Frame.{Frame, Postcard, fresh}
use notifiapp_transport.Frame.Arrivals.{Cuts-Arrives}
use notifiapp_transport.Crypto.{Snow}
use notifiapp_transport.Crypto.Transport.{Channel, online}
use notifiapp_transport.Wire.{Wire, Sink, transmit}
use notifiapp_transport.Wire.Sending.{IsUp, transmit-Sent}
use notifiapp_transport.Wire.Receiving.{Completes, inbound, Opens-Completes}

-- What postcard documents: deserialising what was serialised gives the value back.
abbrev pub IsLawful : Postcard → Type 0
IsLawful codec =
    (f : Frame) (payload : List ℕ)
    → codec.to_stdvec f ≡ ok payload
    → codec.from_bytes payload ≡ ok f

module _ (codec : Postcard) (snow : Snow) (ch : Channel snow) {M : Type 0} (sink : Sink)
    (binary : List ℕ → M) (max_bytes : ℕ) where
  -- While the sink is up and the two Noise ends agree, with a codec that decodes what it encodes,
  -- a frame whose encoding is below 2 ^ 32 bytes and within the limit of the receiver is
  -- transmitted in full: the packets sent are taken in one by one, the last one gives just that
  -- frame, the accumulator is empty again and the ends agree again.
  pub transmit-Completes :
      (frame : Frame) (payload : List ℕ) (t r : snow.TransportState) (w : Wire M)
      → IsUp sink
      → IsLawful codec
      → codec.to_stdvec frame ≡ ok payload
      → length payload < 2 ^ 32
      → length payload ≤ max_bytes
      → ch.Synced t r
      → let result =
          transmit codec snow sink binary frame (record { noise = online snow t; wire = w }) in
        (packets : List (List ℕ)) × (t' : snow.TransportState) × (r' : snow.TransportState)
        × (result.0 ≡ true)
        × (result.1.noise ≡ online snow t')
        × (result.1.wire.sent ≡ w.sent ++ map binary packets)
        × Completes codec snow max_bytes frame
            (inbound codec snow max_bytes r fresh)
            packets
            (inbound codec snow max_bytes r' fresh)
        × ch.Synced t' r'
  transmit-Completes frame payload t r w up lawful e fits limit s =
      let m = transmit-Sent codec snow ch sink binary frame payload t r w up e s in
      (
        m.packets,
        m.t',
        m.r',
        m.done,
        m.noise,
        m.wire,
        Opens-Completes codec snow max_bytes frame payload (lawful frame payload e) m.opens
            (Cuts-Arrives max_bytes payload m.chunked fits limit m.cuts),
        m.synced,
      )
