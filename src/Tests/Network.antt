-- ===== src/Tests/Network.antt =====
-- src/p2p/p2p.c and src/media/media.c at fixed inputs: one peer and one context, which hear
-- themselves.
use libmezia.Prelude.{
  ℕ, ◌≡◌, refl, List, [], ◌∷◌, none, some, true, false, arith, replicate, length, length-replicate,
  some-injective, subst,
}
use libmezia.Types.{Status, Packet, zero_packet, zero_stats, payload}
use libmezia.Rtp.RoundTrip.{IsSendable, SamePacket}
use libmezia.Feedback.{Feedback}
use libmezia.Audio
use libmezia.Audio.{Audio, AudioConfig, with_defaults, fresh, note_report_sent}
use libmezia.Audio.Receiver
use libmezia.Audio.Playback
use libmezia.Peer
use libmezia.Peer.{Peer, PeerConfig, Network, Address, Sending, Incoming, receive_round}
use libmezia.Peer.Life
use libmezia.Peer.Life.{Reach-IsValid}
use libmezia.Peer.Wire.{receive_round-send}
use libmezia.Media
use libmezia.Media.{MediaCtx, MediaConfig, Memory}
use libmezia.Media.Sender.{Surroundings, send_audio, maybe_send_audio_feedback}
use libmezia.Media.Receiver.{media_round, media_packet}
use libmezia.Media.Valid as MediaValid
use libmezia.Media.Valid.{media_packet-IsValid}
use libmezia.Media.Life as MediaLife
use libmezia.Media.Life.{Reach-IsValid_media}
use libmezia.Media.Reports.{Reports, Awaits, media_round-report}
use libmezia.Media.Stops.{stop_each, stop_from_callback}
use libmezia.Media.Frames.{Sends, Hears, media_round-send_audio}
use libmezia.Media.Starved.{send_each, send_audio_too_small}
use libmezia.Tests.Sound.{audio_config, plain_codec, voice_packet}

abbrev peer_config : PeerConfig
peer_config = record {
  local_ip = none;
  local_port = 4000;
  remote_ip = some (49 ∷ []);
  remote_port = 5000;
  mtu = 1200;
  on_packet = true;
  on_error = false;
}

-- A network where everything works, on one host.
abbrev pub network : Network
network = record {
  getaddrinfo = λ host port passive. some (Address.inet port 1);
  socket = some 3;
  bound = true;
  getsockname = some (Address.inet 4000 1);
  thread = true;
}

abbrev new_peer : Peer
new_peer = record {
  config = peer_config;
  local_ip = Peer.any_ip;
  remote_ip = 49 ∷ [];
  socket = none;
  remote_addr = Address.elsewhere 0;
  local_port = 0;
  running = false;
  stats = zero_stats;
}

peer_created : Peer.create (some peer_config) true ≡ some new_peer
unfolding Peer.create
peer_created = refl

abbrev live_peer : Peer
live_peer = (Peer.start network new_peer).1

Reach-IsValid_example : Life.IsValid live_peer
Reach-IsValid_example =
    Reach-IsValid peer_config peer_created
      (Life.Reach.next Life.Reach.here (Life.Step.starting network refl))

live_peer-IsValid : Life.IsValid live_peer
live_peer-IsValid =
    Reach-IsValid peer_config peer_created
      (Life.Reach.next Life.Reach.here (Life.Step.starting network refl))

-- A block of memory, kept shut: it may be long.
pub block : ℕ → List ℕ
block n = replicate n 0

length-block : (n : ℕ) → length (block n) ≡ n
unfolding block
length-block n = length-replicate n 0

live : live_peer.running ≡ true
unfolding Peer.start Peer.resolve_address Peer.same_family Peer.open_socket
live = refl

abbrev home : Address
home = Address.inet 5000 1

from_home : Peer.same_endpoint live_peer.remote_addr home ≡ true
unfolding Peer.start Peer.resolve_address Peer.same_family Peer.open_socket Peer.same_endpoint
from_home = refl

listens : live_peer.config.on_packet ≡ true
unfolding Peer.start Peer.resolve_address Peer.same_family Peer.open_socket
listens = refl

mtu_is : live_peer.config.mtu ≡ 1200
unfolding Peer.start Peer.resolve_address Peer.same_family Peer.open_socket
mtu_is = refl

voice_packet-IsSendable : IsSendable voice_packet (1 ∷ 2 ∷ 3 ∷ [])
voice_packet-IsSendable = record {
  here = refl;
  enough = omega arith;
  small = omega arith;
  type_fits = omega arith;
  seq_fits = omega arith;
  timestamp_fits = omega arith;
  ssrc_fits = omega arith;
}

receive_round-send_example :
    (wire : List ℕ) × ((Peer.send live_peer (some voice_packet) (block 1500) Sending.sent).0
      ≡ Status.ok)
    × ((Peer.send live_peer (some voice_packet) (block 1500) Sending.sent).2 ≡ some wire)
    × (r : Packet) × ((receive_round live_peer (Incoming.datagram wire home) 99).packet ≡ some r)
    × SamePacket voice_packet r
    × (r.arrival_time_ns ≡ 99)
receive_round-send_example =
    receive_round-send live_peer live_peer voice_packet (1 ∷ 2 ∷ 3 ∷ []) (block 1500) home 99
      live_peer-IsValid live (length-block 1500) voice_packet-IsSendable (omega (arith, mtu_is))
      from_home listens

abbrev media_config : MediaConfig
media_config = record {
  peer = peer_config;
  audio = some audio_config;
  video = none;
  control_payload_type = 0;
}

abbrev pub memory : Memory plain_codec
memory = record {
  ctx = true;
  audio = true;
  codec = λ bitrate. some bitrate;
  storage = λ n. some (block n);
  video = true;
  nal = λ n. some (block n);
  peer = true;
}

abbrev voice : Audio
voice = fresh (with_defaults audio_config)

abbrev new_media : MediaCtx plain_codec
new_media = record {
  peer = new_peer;
  audio = some (voice, 24000);
  video = none;
  audio_payload_type = 96;
  video_payload_type = 0;
  control_payload_type = 98;
  control_seq = 0;
  audio_packet = record zero_packet { bytes = some (block 1200); capacity = 1200 };
  mtu = 1200;
  running = false;
}

media_created : Media.create plain_codec (some media_config) memory ≡ some new_media
unfolding Media.create Media.types_collide Media.add_audio Media.add_video Peer.create Audio.create
    Audio.config_fits Audio.times_fit Audio.fresh
media_created = refl

abbrev live_media : MediaCtx plain_codec
live_media = (Media.start plain_codec network new_media).1

pub sized : (n : ℕ) (b : List ℕ) → some (block n) ≡ some b → length b ≡ n
sized n b e = subst (λ (x : List ℕ). length x ≡ n) (some-injective _ _ e) (length-block n)

Reach-IsValid_media_example : MediaValid.IsValid plain_codec live_media
Reach-IsValid_media_example =
    Reach-IsValid_media plain_codec media_config memory sized tt media_created
      (MediaLife.Reach.next MediaLife.Reach.here (MediaLife.Step.starting network refl))

live_media-IsValid : MediaValid.IsValid plain_codec live_media
live_media-IsValid =
    Reach-IsValid_media plain_codec media_config memory sized tt media_created
      (MediaLife.Reach.next MediaLife.Reach.here (MediaLife.Step.starting network refl))

abbrev no_report : Feedback
no_report = record { report_seq = 0; media_ssrc = 0; expected = 0; received = 0 }

abbrev surroundings : Surroundings plain_codec
surroundings = record {
  outlet = record { stack = λ i. block 1500; result = λ i. Sending.sent };
  blank = no_report;
  content = block 16;
  clock = 1000;
  clock_after = 2000;
}

abbrev pcm : List ℕ
pcm = 5 ∷ 6 ∷ 7 ∷ []

sends : Sends plain_codec live_media surroundings pcm pcm voice 24000 24001
unfolding Media.start Peer.start Peer.resolve_address Peer.same_family Peer.open_socket
    Playback.apply_pending_feedback Playback.is_stale Audio.fresh
sends = record {
  valid = live_media-IsValid;
  running = refl;
  here = refl;
  coded = refl;
  storage = block 1200;
  stored = refl;
  enough = omega (arith, length-block 1200);
  room = omega arith;
  fits = omega arith;
  ssrc_fits = omega arith;
  stack = length-block 1500;
  went = refl;
}

hears : Hears plain_codec live_media home voice.config.payload_type voice 24000
unfolding Media.start Peer.start Peer.resolve_address Peer.same_family Peer.open_socket
    Peer.same_endpoint Audio.fresh
hears = record { from = refl; listening = refl; here = refl; own = refl; other = refl }

media_round-send_audio_example :
    let (status, m', out) = send_audio plain_codec surroundings live_media (some pcm) 960 in
    (status ≡ Status.ok)
    × (wire : List ℕ) × (rest : List (List ℕ)) × (out ≡ wire ∷ rest)
    × (r : Packet) × ((media_round plain_codec live_media
          (Incoming.datagram wire home)
          5000).0.audio
        ≡ some ((Receiver.receive voice (some r)).1, 24000))
    × (payload r ≡ pcm)
    × (r.payload_type ≡ voice.config.payload_type)
    × (r.seq ≡ voice.next_seq)
    × (r.timestamp ≡ voice.next_timestamp)
    × (r.ssrc ≡ voice.config.ssrc)
    × (r.arrival_time_ns ≡ 5000)
media_round-send_audio_example =
    media_round-send_audio plain_codec surroundings live_media live_media pcm pcm voice voice 24000
      24001 24000 home 5000 sends hears

-- The audio part after a packet of another source, and the context that has it.
abbrev heard : Audio
heard = (Receiver.receive voice (some voice_packet)).1

abbrev hearing : MediaCtx plain_codec
hearing = (media_packet plain_codec live_media voice_packet).0

abbrev counted : Feedback
counted = record { report_seq = 0; media_ssrc = 78; expected = 1; received = 1 }

abbrev reported : Audio
reported = (Receiver.take_receiver_report heard 5000000000 (some no_report)).1

arrival : MediaValid.IsArrival plain_codec voice_packet
arrival = record {
  wire = record { seq_fits = omega arith; timestamp_fits = omega arith };
  short = omega arith;
}

reports : Reports plain_codec hearing no_report 5000000000 counted reported 24000
unfolding Media.start Peer.start Peer.resolve_address Peer.same_family Peer.open_socket media_packet
    Audio.fresh Receiver.receive Receiver.track_receiver_packet Receiver.take_receiver_report
    Receiver.count_bits
reports = record {
  valid = media_packet-IsValid plain_codec live_media voice_packet arrival live_media-IsValid;
  running = refl;
  before = heard;
  here = refl;
  due = refl;
  type_fits = omega arith;
  ssrc_fits = omega arith;
  report_fits = omega arith;
  room = omega arith;
}

-- The context that the reports are about.
abbrev speaker : Audio
speaker = fresh (with_defaults (record audio_config { ssrc = 78 }))

abbrev speaking : MediaCtx plain_codec
speaking = record live_media { audio = some (speaker, 24000) }

awaits : Awaits plain_codec speaking home counted speaker 24000
unfolding Media.start Peer.start Peer.resolve_address Peer.same_family Peer.open_socket
    Peer.same_endpoint Audio.fresh
awaits = record { from = refl; listening = refl; here = refl; on = refl; own = refl; new = refl }

same_control : speaking.control_payload_type ≡ hearing.control_payload_type
unfolding Media.start Peer.start media_packet
same_control = refl

media_round-report_example :
    let (m', out) =
      maybe_send_audio_feedback plain_codec surroundings.outlet no_report
        (block 16)
        hearing
        5000000000 in
    (wire : List ℕ) × (out ≡ some wire)
    × (m'.audio ≡ some (note_report_sent reported, 24000))
    × (b' : Audio) × ((media_round plain_codec speaking (Incoming.datagram wire home) 7000).0.audio
        ≡ some (b', 24000))
    × (b'.pending_feedback ≡ counted)
    × (b'.feedback_pending ≡ true)
    × (b'.last_feedback_time_ns ≡ 7000)
media_round-report_example =
    media_round-report plain_codec hearing speaking no_report counted 5000000000 7000 reported
      speaker 24000 24000 surroundings.outlet (block 16) home reports awaits same_control
      (length-block 16) (length-block 1500) refl

-- A configuration with a small MTU that leaves the one of the audio part at its default.
abbrev small_config : MediaConfig
small_config = record media_config { peer = record peer_config { mtu = 1000 } }

abbrev small_media : MediaCtx plain_codec
small_media = record new_media {
  peer = record new_peer { config = record peer_config { mtu = 1000 } };
  audio_packet = record zero_packet { bytes = some (block 1000); capacity = 1000 };
  mtu = 1000;
}

small_created : Media.create plain_codec (some small_config) memory ≡ some small_media
unfolding Media.create Media.types_collide Media.add_audio Media.add_video Peer.create Audio.create
    Audio.config_fits Audio.times_fit Audio.fresh
small_created = refl

small_starts : (Media.start plain_codec network small_media).0 ≡ Status.ok
unfolding Media.start Peer.start Peer.resolve_address Peer.same_family Peer.open_socket
small_starts = refl

send_audio_too_small_example :
    send_each plain_codec
      ((surroundings, pcm) ∷ (surroundings, []) ∷ [])
      (Media.start plain_codec network small_media).1
    ≡ (Status.buffer_too_small ∷ Status.buffer_too_small ∷ [], [])
send_audio_too_small_example =
    send_audio_too_small plain_codec small_config memory network audio_config small_media
      ((surroundings, pcm) ∷ (surroundings, []) ∷ []) refl refl (omega arith) (omega arith)
      small_created small_starts

live_media_runs : live_media.running ≡ true
unfolding Media.start Peer.start Peer.resolve_address Peer.same_family Peer.open_socket
live_media_runs = refl

live_media_peer_runs : live_media.peer.running ≡ true
unfolding Media.start Peer.start Peer.resolve_address Peer.same_family Peer.open_socket
live_media_peer_runs = refl

stop_from_callback_example :
    let (first, m1) = Media.stop plain_codec true live_media in
    let (answers, m2) = stop_each plain_codec (false ∷ true ∷ []) m1 in
    (first ≡ Status.bad_state)
    × (answers ≡ Status.ok ∷ Status.ok ∷ [])
    × (m2.running ≡ false)
    × (m2.peer ≡ live_media.peer)
stop_from_callback_example =
    stop_from_callback plain_codec live_media (false ∷ true ∷ []) live_media_runs
      live_media_peer_runs
