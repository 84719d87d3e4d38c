-- ===== src/Wire/Sending.antt =====
-- What a frame becomes on the wire.
use notifiapp_transport.Common.{
  sym, ℕ, suc, ◌^◌, ◌%◌, ◌≡◌, refl, ◌∙◌, arith, List, [], ◌∷◌, ◌++◌, map, length, Bool, true, none,
  ok, append-nil, append_assoc,
}
use notifiapp_transport.Frame.{Frame, Postcard, encode_frame, to_le_bytes}
use notifiapp_transport.Frame.Arrivals.{Cuts}
use notifiapp_transport.Crypto.{Snow, NoiseSession, encrypt_chunked, chunks, max_chunk_plain}
use notifiapp_transport.Crypto.Chunks.{chunks-first}
use notifiapp_transport.Crypto.Transport.{Channel, online, Opens, encrypt_chunked-Transmitted}
use notifiapp_transport.Wire.{Wire, Link, Sink, send, send_each, send_encrypted, transmit}

-- The sink takes every message.
abbrev pub IsUp : Sink → Type 0
IsUp sink = (n : ℕ) → sink n ≡ none

pub send-up :
    {M : Type 0} (sink : Sink) (m : M) (w : Wire M)
    → sink w.sends ≡ none
    → send sink m w ≡ (none, record { sends = suc w.sends; sent = w.sent ++ (m ∷ []) })
unfolding send
send-up sink m w e = ground arith

send_each-IsUp :
    {M : Type 0} (sink : Sink) (binary : List ℕ → M) (cs : List (List ℕ)) (w : Wire M)
    → IsUp sink
    → ((send_each sink binary cs w).0 ≡ true)
      × ((send_each sink binary cs w).1.sent ≡ w.sent ++ map binary cs)
unfolding send_each
send_each-IsUp sink binary [] w up = (refl, sym (append-nil w.sent))
send_each-IsUp sink binary (c ∷ cs) w up =
    let next : Wire _ = record { sends = suc w.sends; sent = w.sent ++ (binary c ∷ []) } in
    let ih = send_each-IsUp sink binary cs next up in
    rw (send-up sink (binary c) w (up w.sends))
      (ih.0, ih.1 ∙ append_assoc w.sent (binary c ∷ []) (map binary cs))

-- The pieces into which `encrypt_chunked` cuts an encoded frame are chunks in which it can arrive.
pub chunks-Cuts :
    (payload : List ℕ)
    → Cuts payload (chunks max_chunk_plain (to_le_bytes (length payload % 2 ^ 32) ++ payload))
chunks-Cuts payload =
    let (first, others, split, whole, size, chunky) =
      chunks-first max_chunk_plain _ _ (omega arith) in
    record {
      first = first;
      others = others;
      split = split;
      whole = whole;
      prefix = omega (arith, size);
      chunky = chunky;
    }

-- A frame that the codec serialises goes out whole while the sink is up: as packets which the other
-- end opens to the chunks of its length prefix and payload.
pub record Sent (snow : Snow) (ch : Channel snow) {M : Type 0} (binary : List ℕ → M)
    (r : snow.TransportState) (payload : List ℕ) (before : Wire M) (result : Bool × Link snow M)
    : Type 0 where
  pub packets : List (List ℕ)
  pub t' : snow.TransportState
  pub r' : snow.TransportState
  pub chunked : List (List ℕ)
  pub done : result.0 ≡ true
  pub noise : result.1.noise ≡ online snow t'
  pub wire : result.1.wire.sent ≡ before.sent ++ map binary packets
  pub opens : Opens snow r packets chunked r'
  pub cuts : Cuts payload chunked
  pub synced : ch.Synced t' r'

module _ (codec : Postcard) (snow : Snow) (ch : Channel snow) {M : Type 0} (sink : Sink)
    (binary : List ℕ → M) where
  transmit-packets :
      (frame : Frame) (payload : List ℕ) (packets : List (List ℕ)) (n n' : NoiseSession snow)
      (w : Wire M)
      → codec.to_stdvec frame ≡ ok payload
      → encrypt_chunked snow (to_le_bytes (length payload % 2 ^ 32) ++ payload) n ≡ (ok packets, n')
      → transmit codec snow sink binary frame (record { noise = n; wire = w }) ≡ (
        (send_each sink binary packets w).0,
        record { noise = n'; wire = (send_each sink binary packets w).1 },
      )
  unfolding transmit encode_frame send_encrypted
  transmit-packets frame payload packets n n' w e f = ground arith

  pub transmit-Sent :
      (frame : Frame) (payload : List ℕ) (t r : snow.TransportState) (w : Wire M)
      → IsUp sink
      → codec.to_stdvec frame ≡ ok payload
      → ch.Synced t r
      → Sent snow ch binary r payload w
          (transmit codec snow sink binary frame (record { noise = online snow t; wire = w }))
  transmit-Sent frame payload t r w up e s =
      let m =
        encrypt_chunked-Transmitted snow ch (to_le_bytes (length payload % 2 ^ 32) ++ payload) t r
          s in
      let out = send_each-IsUp sink binary m.packets w up in
      let q =
        transmit-packets frame payload m.packets (online snow t) (online snow m.t') w e m.sent in
      record {
        packets = m.packets;
        t' = m.t';
        r' = m.r';
        chunked = chunks max_chunk_plain (to_le_bytes (length payload % 2 ^ 32) ++ payload);
        done = rw q out.0;
        noise = rw q;
        wire = rw q out.1;
        opens = m.opens;
        cuts = chunks-Cuts payload;
        synced = m.synced;
      }
