-- ===== src/Peer/Life.antt =====
-- The life of a peer of src/p2p/p2p.c: no order of its operations leaves a socket behind.
use libmezia.Prelude.{
  ℕ, ◌≤◌, ◌<◌, ◌≡◌, refl, List, Option, none, some, Bool, true, false, not, is_null, arith,
  if_cases,
}
use libmezia.Types.{Status, is_ok, Packet, Written}
use libmezia.Rtp
use libmezia.Peer.{
  Peer, PeerConfig, Address, Network, Sending, Incoming, create, start, start_at, open_socket, stop,
  send, send_written, send_datagram, receive_round, parsed_round, Round, same_endpoint,
  resolve_address, same_family,
}

pub record IsValid (p : Peer) : Type 0 where
  pub runs : p.running ≡ not (is_null p.socket)
  pub mtu_low : 12 < p.config.mtu
  pub mtu_high : p.config.mtu ≤ 1500

-- What happens to a peer: its operations, from any thread, and the rounds of its worker, with
-- whatever the operating system and the network bring.
pub data Step (p q : Peer) : Type 0 where
  starting : (n : Network) → q ≡ (start n p).1 → Step p q
  stopping : (own_thread : Bool) → q ≡ (stop own_thread p).1 → Step p q
  sending :
      (packet : Option Packet) (datagram : List ℕ) (result : Sending)
      → q ≡ (send p packet datagram result).1
      → Step p q
  receiving : (e : Incoming) (now_ns : ℕ) → q ≡ (receive_round p e now_ns).peer → Step p q

pub data Reach (p : Peer) : Peer → Type 0 where
  here : Reach p p
  next : {q r : Peer} → Reach p q → Step q r → Reach p r

pub create-IsValid :
    (c : PeerConfig) (calloc_ok : Bool) (p : Peer) → create (some c) calloc_ok ≡ some p → IsValid p
unfolding create
create-IsValid c calloc_ok p e = ground arith

abbrev Keeps : Status × Peer → Type 0
Keeps t = IsValid t.1

open_socket-IsValid :
    (n : Network) (p : Peer) (fd : Option ℕ)
    → 12 < p.config.mtu
    → p.config.mtu ≤ 1500
    → p.running ≡ false
    → IsValid (open_socket n p fd).1
unfolding open_socket
open_socket-IsValid n p none low high idle = ground arith
open_socket-IsValid n p (some fd) low high idle =
    if_cases Keeps (not n.bound) (λ _. record { runs = idle; mtu_low = low; mtu_high = high })
      (λ _.
        if_cases Keeps (not n.thread) (λ _. record { runs = refl; mtu_low = low; mtu_high = high })
          (λ _. record { runs = refl; mtu_low = low; mtu_high = high }))

same-IsValid :
    (p q : Peer)
    → (q.running ≡ p.running) × (q.socket ≡ p.socket) × (q.config ≡ p.config)
    → IsValid p
    → IsValid q
same-IsValid p q e v = record {
  runs = rw (e.0, e.1) v.runs;
  mtu_low = rw e.2 v.mtu_low;
  mtu_high = rw e.2 v.mtu_high;
}

start_at-IsValid :
    (n : Network) (p : Peer) (remote local : Option Address)
    → p.running ≡ false
    → IsValid p
    → IsValid (start_at n p remote local).1
start_at-IsValid n p none local idle v = v
start_at-IsValid n p (some a) none idle v = same-IsValid p _ (refl, refl, refl) v
start_at-IsValid n p (some a) (some b) idle v =
    if_cases Keeps (same_family b a)
      (λ _. open_socket-IsValid n _ n.socket v.mtu_low v.mtu_high idle)
      (λ _. same-IsValid p _ (refl, refl, refl) v)

pub start-IsValid : (n : Network) (p : Peer) → IsValid p → IsValid (start n p).1
unfolding start
start-IsValid n p v = if_cases Keeps p.running (λ _. v) (λ idle. start_at-IsValid n p _ _ idle v)

pub stop-IsValid : (own_thread : Bool) (p : Peer) → IsValid p → IsValid (stop own_thread p).1
unfolding stop
stop-IsValid own_thread p v =
    if_cases Keeps (not p.running) (λ _. v)
      (λ _.
        if_cases Keeps own_thread (λ _. v)
          (λ _. record { runs = refl; mtu_low = v.mtu_low; mtu_high = v.mtu_high }))

abbrev Sends : Status × Peer × Option (List ℕ) → Type 0
Sends t = IsValid t.1

datagram-IsValid :
    (p : Peer) (len : ℕ) (datagram : List ℕ) (result : Sending)
    → IsValid p
    → Sends (send_datagram p len datagram result)
datagram-IsValid p len datagram Sending.sent v = same-IsValid p _ (refl, refl, refl) v
datagram-IsValid p len datagram Sending.would_block v = v
datagram-IsValid p len datagram Sending.failed v = v

written-IsValid :
    (p : Peer) (result : Sending) (w : Written) (s : Status)
    → IsValid p
    → Sends (send_written p result w s)
written-IsValid p result w Status.ok v = datagram-IsValid p _ _ result v
written-IsValid p result w _ v = v

pub send-IsValid :
    (p : Peer) (packet : Option Packet) (datagram : List ℕ) (result : Sending)
    → IsValid p
    → IsValid (send p packet datagram result).1
unfolding send
send-IsValid p none datagram result v = v
send-IsValid p (some packet) datagram result v =
    let w = Rtp.serialize (some packet) (some datagram) p.config.mtu (some 0) in
    if_cases Sends p.running (λ _. written-IsValid p result w w.status v) (λ _. v)

parsed-IsValid :
    (p : Peer) (len now_ns : ℕ) (answer : Status × Option Packet)
    → IsValid p
    → IsValid (parsed_round p len now_ns answer).peer
parsed-IsValid p len now_ns (Status.ok, some packet) v = same-IsValid p _ (refl, refl, refl) v
parsed-IsValid p len now_ns (Status.ok, none) v = same-IsValid p _ (refl, refl, refl) v
parsed-IsValid p len now_ns (_, packet) v = same-IsValid p _ (refl, refl, refl) v

pub receive_round-IsValid :
    (p : Peer) (e : Incoming) (now_ns : ℕ) → IsValid p → IsValid (receive_round p e now_ns).peer
unfolding receive_round
receive_round-IsValid p Incoming.nothing now_ns v = v
receive_round-IsValid p Incoming.broken now_ns v = same-IsValid p _ (refl, refl, refl) v
receive_round-IsValid p (Incoming.datagram d source) now_ns v =
    if_cases (λ (r : Round). IsValid r.peer) (same_endpoint p.remote_addr source)
      (λ _. parsed-IsValid p _ now_ns _ v) (λ _. v)

pub start-config : (n : Network) (p : Peer) → (start n p).1.config ≡ p.config
unfolding start open_socket
start-config n p = elim (resolve_address n p.remote_ip p.config.remote_port false) [
  | none ↦ ground arith
  | some a ↦ elim (resolve_address n p.local_ip p.config.local_port true) [
    | none ↦ ground arith
    | some b ↦ elim n.socket [ none ↦ ground arith | some fd ↦ ground arith ]
  ]
]

-- A start that succeeds leaves a peer that runs.
pub start-runs :
    (n : Network) (p : Peer) → is_ok (start n p).0 ≡ true → (start n p).1.running ≡ true
unfolding start open_socket
start-runs n p fine = elim (resolve_address n p.remote_ip p.config.remote_port false) [
  | none ↦ ground arith
  | some a ↦ elim (resolve_address n p.local_ip p.config.local_port true) [
    | none ↦ ground arith
    | some b ↦ elim n.socket [ none ↦ ground arith | some fd ↦ ground arith ]
  ]
]

pub stop-config : (own_thread : Bool) (p : Peer) → (stop own_thread p).1.config ≡ p.config
unfolding stop
stop-config own_thread p = ground arith

-- Sending and receiving leave the configuration, and whether the peer runs.
abbrev pub Stays : Peer → Peer → Type 0
Stays p q = (q.config ≡ p.config) × (q.running ≡ p.running)

datagram-Stays :
    (p : Peer) (len : ℕ) (datagram : List ℕ) (result : Sending)
    → Stays p (send_datagram p len datagram result).1
datagram-Stays p len datagram Sending.sent = (refl, refl)
datagram-Stays p len datagram _ = (refl, refl)

written-Stays :
    (p : Peer) (result : Sending) (w : Written) (s : Status) → Stays p (send_written p result w s).1
written-Stays p result w Status.ok = datagram-Stays p _ _ result
written-Stays p result w _ = (refl, refl)

pub send-Stays :
    (p : Peer) (packet : Option Packet) (datagram : List ℕ) (result : Sending)
    → Stays p (send p packet datagram result).1
unfolding send
send-Stays p none datagram result = (refl, refl)
send-Stays p (some packet) datagram result =
    let w = Rtp.serialize (some packet) (some datagram) p.config.mtu (some 0) in
    if_cases (λ (t : Status × Peer × Option (List ℕ)). Stays p t.1) p.running
      (λ _. written-Stays p result w w.status) (λ _. (refl, refl))

parsed-Stays :
    (p : Peer) (len now_ns : ℕ) (answer : Status × Option Packet)
    → Stays p (parsed_round p len now_ns answer).peer
parsed-Stays p len now_ns (Status.ok, some packet) = (refl, refl)
parsed-Stays p len now_ns (_, packet) = (refl, refl)

pub receive_round-Stays :
    (p : Peer) (e : Incoming) (now_ns : ℕ) → Stays p (receive_round p e now_ns).peer
unfolding receive_round
receive_round-Stays p Incoming.nothing now_ns = (refl, refl)
receive_round-Stays p Incoming.broken now_ns = (refl, refl)
receive_round-Stays p (Incoming.datagram d source) now_ns =
    if_cases (λ (r : Round). Stays p r.peer) (same_endpoint p.remote_addr source)
      (λ _. parsed-Stays p _ now_ns _) (λ _. (refl, refl))

pub Step-IsValid : {p q : Peer} → Step p q → IsValid p → IsValid q
Step-IsValid {p} (Step.starting n e) v = rw e (start-IsValid n p v)
Step-IsValid {p} (Step.stopping own_thread e) v = rw e (stop-IsValid own_thread p v)
Step-IsValid {p} (Step.sending packet d result e) v = rw e (send-IsValid p packet d result v)
Step-IsValid {p} (Step.receiving i now_ns e) v = rw e (receive_round-IsValid p i now_ns v)

-- From its creation on, after any starts, stops, sends and rounds of its worker in any order, and
-- whatever the network answers: a peer holds a socket exactly while it runs, and its MTU has room for
-- an RTP header and fits the datagram arrays.
pub Reach-IsValid :
    (c : PeerConfig) {p q : Peer} → create (some c) true ≡ some p → Reach p q → IsValid q
Reach-IsValid c {p} made Reach.here = create-IsValid c true p made
Reach-IsValid c made (Reach.next r s) = Step-IsValid s (Reach-IsValid c made r)
