-- ===== src/Media/Pictures.antt =====
-- The invariant of the context through sending video in src/media/media.c.
use libmezia.Prelude.{
  ℕ, zero, suc, ◌+◌, refl, List, Option, none, some, Bool, ◌||◌, not, ◌==◌, ltb, ◌/◌, ◌*◌, if_cases,
  ◌∙◌,
}
use libmezia.Types.{Status, is_ok, Packet}
use libmezia.Opus.{Codec}
use libmezia.Video.{Video, max_packets_for_nal}
use libmezia.Video.Receive as VideoReceive
use libmezia.Video.Packetizer
use libmezia.Video.Packetizer.{packet_at, packetize_nal}
use libmezia.Video.Life.{packetize_nal-IsValid}
use libmezia.Peer
use libmezia.Peer.{Peer}
use libmezia.Peer.Life
use libmezia.Peer.Life.{Stays, send-IsValid, send-Stays}
use libmezia.Media.{MediaCtx}
use libmezia.Media.Sender.{
  Outlet, send_packets, packet_slots, send_nal, send_with, send_h264, send_h264_of, size_max,
  packet_struct_size,
}
use libmezia.Media.Valid
use libmezia.Media.Valid.{IsValid, stays-IsValid}

-- Sending a run of packets leaves the peer valid, and as it was but for its counters.
send_packets-IsValid :
    (o : Outlet) (ps : List Packet) (left i : ℕ) (p : Peer)
    → Life.IsValid p
    → Life.IsValid (send_packets o ps left i p).1 × Stays p (send_packets o ps left i p).1
unfolding send_packets
send_packets-IsValid o ps zero i p v = (v, (refl, refl))
send_packets-IsValid o ps (suc left) i p v =
    let q : Peer = (Peer.send p (some (packet_at ps i)) (o.stack i) (o.result i)).1 in
    let valid = send-IsValid p (some (packet_at ps i)) (o.stack i) (o.result i) v in
    let stays = send-Stays p (some (packet_at ps i)) (o.stack i) (o.result i) in
    let rest = send_packets-IsValid o ps left (i + 1) q valid in
    if_cases (λ (t : Status × Peer × List (List ℕ)). Life.IsValid t.1 × Stays p t.1)
      (is_ok (Peer.send p (some (packet_at ps i)) (o.stack i) (o.result i)).0)
      (λ _. (rest.0, (rest.1.0 ∙ stays.0, rest.1.1 ∙ stays.1))) (λ _. (valid, stays))

module _ (c : Codec) where
  abbrev Sent : Status × MediaCtx c × List (List ℕ) → Type 0
  Sent t = IsValid c t.1

  nal-IsValid :
      (o : Outlet) (m : MediaCtx c) (r : Packetizer.Packetized)
      → VideoReceive.IsValid r.video
      → IsValid c m
      → Sent (send_nal c o m r)
  nal-IsValid o m r w v =
      let valid : IsValid c (record m { video = some r.video }) = record {
        peer = v.peer;
        listens = v.listens;
        runs = v.runs;
        sound = v.sound;
        picture = w;
      } in
      let sent = send_packets-IsValid o r.packets r.packet_count 0 m.peer v.peer in
      if_cases Sent (is_ok r.status) (λ _. stays-IsValid c _ _ sent.0 sent.1 valid) (λ _. valid)

  module _ (o : Outlet) (calloc_ok : Bool) (m : MediaCtx c) where
    with-IsValid :
        (v : Video) (count : ℕ) (storage nal : Option (List ℕ)) (nal_len timestamp : ℕ) (eau : Bool)
        → VideoReceive.IsValid v
        → IsValid c m
        → Sent (send_with c o m v count calloc_ok storage nal nal_len timestamp eau)
    with-IsValid v count none nal nal_len timestamp eau w valid = valid
    with-IsValid v count (some storage) nal nal_len timestamp eau w valid =
        if_cases Sent (not calloc_ok) (λ _. valid)
          (λ _.
            nal-IsValid o m _
              (packetize_nal-IsValid v nal nal_len timestamp eau
                (packet_slots m.mtu count storage 0) count count w)
              valid)

    h264_of-IsValid :
        (malloc : ℕ → Option (List ℕ)) (nal : Option (List ℕ)) (nal_len timestamp : ℕ) (eau : Bool)
        (x : Option Video)
        → Valid.VideoIsValid c x
        → IsValid c m
        → Sent (send_h264_of c o calloc_ok malloc m nal nal_len timestamp eau x)
    h264_of-IsValid malloc nal nal_len timestamp eau none w valid = valid
    h264_of-IsValid malloc nal nal_len timestamp eau (some v) w valid =
        let count = max_packets_for_nal v nal_len in
        if_cases Sent (not m.running) (λ _. valid)
          (λ _.
            if_cases Sent
              (count == 0
                || ltb (size_max / packet_struct_size) count
                || ltb (size_max / m.mtu) count)
              (λ _. valid)
              (λ _.
                with-IsValid v count (malloc (count * m.mtu)) nal nal_len timestamp eau w valid))

    -- Sending a NAL unit, with whatever arguments, memory and answers, keeps a valid context valid.
    pub send_h264-IsValid :
        (malloc : ℕ → Option (List ℕ)) (nal : Option (List ℕ)) (nal_len timestamp : ℕ) (eau : Bool)
        → IsValid c m
        → IsValid c (send_h264 c o calloc_ok malloc m nal nal_len timestamp eau).1
    unfolding send_h264
    send_h264-IsValid malloc nal nal_len timestamp eau v =
        h264_of-IsValid malloc nal nal_len timestamp eau m.video v.picture v
