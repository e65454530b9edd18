-- ===== src/Peer.antt =====
-- src/p2p/p2p.c: one UDP socket to one remote endpoint, in its POSIX form. What the operating system
-- answers is an argument of each operation; the mutex is left out, so each operation is one step.
pub mod Life
pub mod Wire
use libmezia.Prelude.{
  ℕ, ◌+◌, List, [], ◌∷◌, Option, none, some, Bool, true, false, ◌&&◌, ◌||◌, not, ltb, leb, ◌==◌,
  if◌then◌else◌, nonzero, is_null, byte_eq, take, length, u64, inc64, get_or,
}
use libmezia.Types.{
  Status, Packet, Stats, Written, zero_packet, zero_stats, bytes_of, rtp_header_size, default_mtu,
  max_datagram_size,
}
use libmezia.Rtp

-- `struct sockaddr_storage`, as far as the code reads it.
pub data Address : Type 0 where
  inet : ℕ → ℕ → Address
  inet6 : ℕ → List ℕ → Address
  elsewhere : ℕ → Address

-- `mezon_peer_config_t`; the callbacks as whether they are set. The sizes of the socket's buffers
-- are left out: the code only hands them to `setsockopt`, and does not look at the answer.
pub record PeerConfig : Type 0 where
  pub local_ip : Option (List ℕ)
  pub local_port : ℕ
  pub remote_ip : Option (List ℕ)
  pub remote_port : ℕ
  pub mtu : ℕ
  pub on_packet : Bool
  pub on_error : Bool

-- `mezon_peer_t`; `socket` is none for MEZON_INVALID_SOCKET.
pub record Peer : Type 0 where
  pub config : PeerConfig
  pub local_ip : List ℕ
  pub remote_ip : List ℕ
  pub socket : Option ℕ
  pub remote_addr : Address
  pub local_port : ℕ
  pub running : Bool
  pub stats : Stats

-- The same address family.
unfoldable pub same_family : Address → Address → Bool
same_family (inet p a) (inet q b) = true
same_family (inet6 p a) (inet6 q b) = true
same_family (elsewhere m) (elsewhere n) = m == n
same_family _ _ = false

-- `same_endpoint`
unfoldable pub same_endpoint : Address → Address → Bool
same_endpoint (inet p a) (inet q b) = p == q && a == b
same_endpoint (inet6 p a) (inet6 q b) = p == q && byte_eq a b
same_endpoint _ _ = false

-- `"0.0.0.0"`
abbrev pub any_ip : List ℕ
any_ip = 48 ∷ 46 ∷ 48 ∷ 46 ∷ 48 ∷ 46 ∷ 48 ∷ []

abbrev pub ip_or_any : Option (List ℕ) → List ℕ
ip_or_any none = any_ip
ip_or_any (some ip) = ip

-- A text that is null or empty.
abbrev pub is_blank : Option (List ℕ) → Bool
is_blank none = true
is_blank (some t) = length t == 0

-- `mezon_peer_create`: `calloc_ok` is whether the peer is allocated. `snprintf` cuts the two
-- addresses at 63 bytes.
unfoldable pub create : Option PeerConfig → Bool → Option Peer
create none calloc_ok = none
create (some c) calloc_ok =
    let mtu = if nonzero c.mtu then c.mtu else default_mtu in
    if is_blank c.remote_ip
      || c.remote_port == 0
      || ltb max_datagram_size c.mtu
      || nonzero c.mtu && leb c.mtu rtp_header_size
    then none
    else if not calloc_ok
    then none
    else some (record {
      config = record c { mtu = mtu };
      local_ip = take 63 (ip_or_any c.local_ip);
      remote_ip = take 63 (bytes_of c.remote_ip);
      socket = none;
      remote_addr = elsewhere 0;
      local_port = 0;
      running = false;
      stats = zero_stats;
    })

-- What the operating system answers while a peer starts: `getaddrinfo` with its host, port and
-- whether it is for a passive socket; `socket`; whether `bind` succeeds; `getsockname`; whether the
-- thread is created.
pub record Network : Type 0 where
  pub getaddrinfo : Option (List ℕ) → ℕ → Bool → Option Address
  pub socket : Option ℕ
  pub bound : Bool
  pub getsockname : Option Address
  pub thread : Bool

-- `resolve_address`
unfoldable pub resolve_address : Network → List ℕ → ℕ → Bool → Option Address
resolve_address n host port passive =
    n.getaddrinfo (if length host == 0 then none else some host) port passive

abbrev pub port_of : Address → ℕ
port_of (inet p a) = p
port_of (inet6 p a) = p
port_of (elsewhere m) = 0

-- The port that the socket is bound to; a failed `getsockname` leaves the old one.
abbrev pub bound_port : ℕ → Option Address → ℕ
bound_port old none = old
bound_port old (some a) = port_of a

-- From the socket on.
unfoldable pub open_socket : Network → Peer → Option ℕ → Status × Peer
open_socket n p none = (Status.network, record p { socket = none })
open_socket n p (some fd) =
    if not n.bound
    then (Status.network, record p { socket = none })
    else if not n.thread
    then (
      Status.internal,
      record p {
        socket = none;
        local_port = bound_port p.local_port n.getsockname;
        running = false;
      },
    )
    else (
      Status.ok,
      record p {
        socket = some fd;
        local_port = bound_port p.local_port n.getsockname;
        running = true;
      },
    )

-- With the two addresses; the remote one is stored as soon as it is found.
abbrev pub start_at : Network → Peer → Option Address → Option Address → Status × Peer
start_at n p none local_addr = (Status.invalid_arg, p)
start_at n p (some remote_addr) none = (Status.invalid_arg, record p { remote_addr = remote_addr })
start_at n p (some remote_addr) (some local_addr) =
    let p' = record p { remote_addr = remote_addr } in
    if same_family local_addr remote_addr
    then open_socket n p' n.socket
    else (Status.invalid_arg, p')

-- `mezon_peer_start` on a peer that is not null.
unfoldable pub start : Network → Peer → Status × Peer
start n p =
    if p.running
    then (Status.ok, p)
    else start_at n p (resolve_address n p.remote_ip p.config.remote_port false)
        (resolve_address n p.local_ip p.config.local_port true)

-- `mezon_peer_stop` on a peer that is not null; `own_thread` is whether the worker itself calls.
unfoldable pub stop : Bool → Peer → Status × Peer
stop own_thread p =
    if not p.running
    then (Status.ok, p)
    else if own_thread
    then (Status.bad_state, p)
    else (Status.ok, record p { running = false; socket = none })

-- How `sendto` ends.
pub data Sending : Type 0 where
  sent would_block failed : Sending

-- The counters after `sendto`, and the datagram that it was given.
abbrev pub send_datagram : Peer → ℕ → List ℕ → Sending → Status × Peer × Option (List ℕ)
send_datagram p len datagram sent = (
  Status.ok,
  record p {
    stats = record p.stats {
      packets_sent = inc64 p.stats.packets_sent;
      bytes_sent = u64 (p.stats.bytes_sent + len);
    };
  },
  some (take len datagram),
)
send_datagram p len datagram would_block = (Status.would_block, p, some (take len datagram))
send_datagram p len datagram failed = (Status.network, p, some (take len datagram))

abbrev pub count_of : Option ℕ → ℕ
count_of none = 0
count_of (some n) = n

abbrev pub send_written : Peer → Sending → Written → Status → Status × Peer × Option (List ℕ)
send_written p result w Status.ok = send_datagram p (count_of w.out_len) (bytes_of w.out) result
send_written p result w error = (error, p, none)

-- `mezon_peer_send` on a peer that is not null. `datagram` is the array on the stack, with what it
-- holds before; the third part is what goes to the socket.
unfoldable pub send : Peer → Option Packet → List ℕ → Sending → Status × Peer × Option (List ℕ)
send p none datagram result = (Status.invalid_arg, p, none)
send p (some packet) datagram result =
    let w = Rtp.serialize (some packet) (some datagram) p.config.mtu (some 0) in
    if p.running then send_written p result w w.status else (Status.not_ready, p, none)

-- What `recvfrom` brings: nothing within its time, an error, or the bytes of a datagram.
pub data Incoming : Type 0 where
  nothing broken : Incoming
  datagram : List ℕ → Address → Incoming

-- What a round of the worker leaves: the peer, and the calls of its two callbacks.
pub record Round : Type 0 where
  pub peer : Peer
  pub packet : Option Packet
  pub error : Option Status

abbrev pub quiet : Peer → Round
quiet p = record { peer = p; packet = none; error = none }

abbrev pub parsed_round : Peer → ℕ → ℕ → Status × Option Packet → Round
parsed_round p len now_ns (Status.ok, some packet) = record {
  peer = record p {
    stats = record p.stats {
      packets_received = inc64 p.stats.packets_received;
      bytes_received = u64 (p.stats.bytes_received + len);
    };
  };
  packet = if p.config.on_packet then some (record packet { arrival_time_ns = now_ns }) else none;
  error = none;
}
parsed_round p len now_ns (error, packet) =
    quiet
      (record p { stats = record p.stats { malformed_packets = inc64 p.stats.malformed_packets } })

-- One round of `receive_loop`, while the peer runs.
unfoldable pub receive_round : Peer → Incoming → ℕ → Round
receive_round p nothing now_ns = quiet p
receive_round p broken now_ns = record {
  peer = record p { stats = record p.stats { socket_errors = inc64 p.stats.socket_errors } };
  packet = none;
  error = if p.config.on_error then some Status.network else none;
}
receive_round p (datagram d source) now_ns =
    if same_endpoint p.remote_addr source
    then parsed_round p (length d) now_ns (Rtp.parse (some d) (length d) (some zero_packet))
    else quiet p

-- `mezon_peer_local_port`
unfoldable pub bound_local_port : Option Peer → ℕ
bound_local_port none = 0
bound_local_port (some p) = p.local_port
