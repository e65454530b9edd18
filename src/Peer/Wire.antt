-- ===== src/Peer/Wire.antt =====
-- A packet that one peer of src/p2p/p2p.c sends is the packet that another one's callback gets.
use libmezia.Prelude.{ℕ, ◌+◌, ◌≤◌, ◌≡◌, refl, List, some, true, arith, take, length}
use libmezia.Types.{Status, Packet, bytes_of, zero_packet}
use libmezia.Rtp
use libmezia.Rtp.RoundTrip.{IsSendable, SamePacket, parse-serialize_datagram}
use libmezia.Peer.{Peer, Address, Sending, Incoming, send, receive_round, same_endpoint}
use libmezia.Peer.Life.{IsValid}

timed :
    (p r : Packet) (now_ns : ℕ)
    → SamePacket p r
    → SamePacket p (record r { arrival_time_ns = now_ns })
timed p r now_ns s = record {
  same_marker = s.same_marker;
  same_type = s.same_type;
  same_seq = s.same_seq;
  same_timestamp = s.same_timestamp;
  same_ssrc = s.same_ssrc;
  same_payload = s.same_payload;
  same_len = s.same_len;
}

-- A packet that the header can hold and that fits the MTU, sent by a running peer, goes out as one
-- datagram; and a peer that receives this datagram from its remote endpoint hands its callback a
-- packet with the same fields and payload, stamped with the time of arrival.
pub receive_round-send :
    (p q : Peer) (packet : Packet) (content stack : List ℕ) (source : Address) (now_ns : ℕ)
    → IsValid p
    → p.running ≡ true
    → length stack ≡ 1500
    → IsSendable packet content
    → 12 + packet.len ≤ p.config.mtu
    → same_endpoint q.remote_addr source ≡ true
    → q.config.on_packet ≡ true
    → (wire : List ℕ) × ((send p (some packet) stack Sending.sent).0 ≡ Status.ok)
      × ((send p (some packet) stack Sending.sent).2 ≡ some wire)
      × (r : Packet) × ((receive_round q (Incoming.datagram wire source) now_ns).packet ≡ some r)
      × SamePacket packet r
      × (r.arrival_time_ns ≡ now_ns)
unfolding send receive_round
receive_round-send p q packet content stack source now_ns v running size s fits from listening =
    let w = Rtp.serialize (some packet) (some stack) p.config.mtu (some 0) in
    let (done, told, len, r, read, same) =
      parse-serialize_datagram packet zero_packet content stack p.config.mtu 0 s fits
        (omega (arith, v.mtu_high, size)) in
    (
      take (12 + packet.len) (bytes_of w.out),
      rw (running, done) refl,
      rw (running, done, told) refl,
      record r { arrival_time_ns = now_ns },
      rw (from, len, read, listening) refl,
      timed packet r now_ns same,
      refl,
    )
