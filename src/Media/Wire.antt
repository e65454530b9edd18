-- ===== src/Media/Wire.antt =====
-- A packet that one context of src/media/media.c sends, through the sockets to the other one.
use libmezia.Prelude.{ℕ, ◌+◌, ◌≤◌, ◌≡◌, List, Option, some, true, arith, length, ap, inl, inr}
use libmezia.Types.{Status, Packet}
use libmezia.Rtp.RoundTrip.{IsSendable, SamePacket}
use libmezia.Opus.{Codec}
use libmezia.Peer
use libmezia.Peer.{Peer, Address, Sending, Incoming, same_endpoint, receive_round}
use libmezia.Peer.Life
use libmezia.Peer.Wire.{receive_round-send}
use libmezia.Media.{MediaCtx}
use libmezia.Media.Receiver.{media_round, media_packet, take_packet}
use libmezia.Media.Valid

module _ (c : Codec) where
  open c use {State}

  -- The round of a context that a packet reaches over the wire.
  pub media_round-send :
      (p : Peer) (q : MediaCtx c) (packet : Packet) (content stack : List ℕ) (source : Address)
      (now_ns : ℕ)
      → Life.IsValid p
      → p.running ≡ true
      → length stack ≡ 1500
      → IsSendable packet content
      → 12 + packet.len ≤ p.config.mtu
      → same_endpoint q.peer.remote_addr source ≡ true
      → q.peer.config.on_packet ≡ true
      → (wire : List ℕ) × ((Peer.send p (some packet) stack Sending.sent).0 ≡ Status.ok)
        × ((Peer.send p (some packet) stack Sending.sent).2 ≡ some wire)
        × (r : Packet) × (media_round c q (Incoming.datagram wire source) now_ns
            ≡ media_packet c
                (record q {
                  peer = (receive_round q.peer (Incoming.datagram wire source) now_ns).peer;
                })
                r)
        × SamePacket packet r
        × (r.arrival_time_ns ≡ now_ns)
  unfolding media_round
  media_round-send p q packet content stack source now_ns v running size s fits from listening =
      let (wire, done, out, r, got, same, timed) =
        receive_round-send p q.peer packet content stack source now_ns v running size s fits from
          listening in
      (
        wire,
        done,
        out,
        r,
        ap
            (λ (x : Option Packet).
              take_packet c
                (record q {
                  peer = (receive_round q.peer (Incoming.datagram wire source) now_ns).peer;
                })
                x)
            got,
        same,
        timed,
      )

  pub runs : (m : MediaCtx c) → m.running ≡ true → Valid.IsValid c m → m.peer.running ≡ true
  runs m on v = elim v.runs [ inl off ↦ absurd (ground (arith, on, off)) | inr on_too ↦ on_too ]
