-- ===== src/Net.antt =====
-- The memory that the library keeps between calls (the globals of src/network.c, src/ip.c,
-- src/arp.c and src/tcp.c, with the structures of src/tcp.h), the compile-time settings, and the
-- interface to what is not in this library: the chip, and the application's callbacks.
pub mod Calls
pub mod Keeps
pub mod Update
use avr_net_enc28j.Base.{
  ℕ, Bool, Option, none, some, Mem, ◌+◌, ◌≤◌, ◌<◌, ◌≡◌, ◌-◌, ◌==◌, if◌then◌else◌,
}

-- The settings of an application, by `#define`, and which of the protocol files it includes.
pub record Config : Type 0 where
  pub net_buffer_size : ℕ
  pub tcp_max_connections : ℕ
  pub net_arp_cache_size : ℕ
  pub net_mac : Mem
  pub net_ip : Mem
  pub with_icmp : Bool
  pub with_udp : Bool
  pub with_tcp : Bool

-- `TCP_STATE_...`
pub data TcpState : Type 0 where
  no_connection new syn_received established dyeing : TcpState

pub record TcpConnection : Type 0 where
  pub send_sequence : ℕ
  pub expected_sequence : ℕ
  pub port : ℕ
  pub remote_port : ℕ
  pub max_segmet_size : ℕ
  pub state : TcpState
  pub ip : Mem
  pub mac : Mem

pub record UdpDatagram : Type 0 where
  pub port : ℕ
  pub remote_port : ℕ
  pub ip : Mem
  pub mac : Mem

-- A row of `arpCache`: the address pair and the use count behind it.
pub record ArpRow : Type 0 where
  pub mac : Mem
  pub ip : Mem
  pub use_count : ℕ

-- `N` is the state of the chip and its driver, `A` that of the application.
pub record Net (N A : Type 0) : Type 0 where
  pub nic : N
  pub buffer : Mem
  pub ip_identfier : ℕ
  pub connect_port_rotaiting : ℕ
  pub arp_cache : ℕ → ArpRow
  pub connections : ℕ → TcpConnection
  pub app : A

-- A call that may fail to return: `none` is a call that does not come back within its fuel.
abbrev pub M : Type 0 → Type 0 → Type 0 → Type 0
M N A X = Net N A → Option (X × Net N A)

module _ {N A : Type 0} where
  infixl 5 ◌>>=◌ ◌>>◌
  abbrev pub ◌>>=◌ : {X Y : Type 0} → M N A X → (X → M N A Y) → M N A Y
  ◌>>=◌ m f s = elim (m s) [ none ↦ none | some (x, s') ↦ f x s' ]

  abbrev pub ◌>>◌ : {Y : Type 0} → M N A (Unit {0}) → M N A Y → M N A Y
  m >> k = m >>= λ _. k

  abbrev pub pure : {X : Type 0} → X → M N A X
  pure x s = some (x, s)

  -- A step that always returns.
  abbrev pub modify : (Net N A → Net N A) → M N A (Unit {0})
  modify f s = some (tt, f s)

  -- A test or a value of the present state.
  abbrev pub gets : {X : Type 0} → (Net N A → X) → M N A X
  gets f s = some (f s, s)

-- What `enc28j60_packet_receive` leaves: its result, the buffer, and the chip.
pub record Received (N : Type 0) : Type 0 where
  pub length : ℕ
  pub buffer : Mem
  pub nic : N

-- The packet handlers, by which a function that waits handles the packets in between.
pub record Handlers (N A : Type 0) : Type 0 where
  pub net_handle : ℕ → M N A (Unit {0})
  pub tcp_handle : ℕ → M N A (Unit {0})

-- The chip's driver and the application's callbacks. A callback may itself call functions of the
-- library that wait for packets, so it is handed the handlers.
pub record Env (N A : Type 0) : Type 0 where
  pub config : Config
  pub packet_receive : Mem → ℕ → N → Received N
  pub packet_send : Mem → ℕ → N → N
  pub tcp_on_new_connection : Handlers N A → ℕ → M N A ℕ
  pub tcp_on_connect : Handlers N A → ℕ → M N A (Unit {0})
  pub tcp_on_incoming_data : Handlers N A → ℕ → Mem → ℕ → M N A (Unit {0})
  pub tcp_on_disconnect : Handlers N A → ℕ → M N A (Unit {0})
  pub udp_on_incoming_datagram : Handlers N A → UdpDatagram → Mem → ℕ → M N A ℕ

abbrev pub net_handle_result_drop : ℕ
net_handle_result_drop = 1

abbrev pub net_handle_result_reject : ℕ
net_handle_result_reject = 2

abbrev pub net_min_dinamic_port : ℕ
net_min_dinamic_port = 49152

abbrev pub net_max_port : ℕ
net_max_port = 65535

-- `connections[id] = c` and `arpCache[i] = r`, whole structures.
abbrev pub update {ℓ} : {X : Type ℓ} → (ℕ → X) → ℕ → X → ℕ → X
update f i x j = if i == j then x else f j
