-- ===== src/Lib.antt =====
-- A model of avr-net-enc28j60, a small TCP/IP stack for AVR microcontrollers with an ENC28J60
-- Ethernet chip, and theorems about it.
--
-- The parts, by file of the repository:
--   src/util.c       Util: the byte-order helpers, `ParseLong`, `CharsCmp`, `CharsCat`.
--   src/ethernet.c   Checksum (`software_checksum`), and Ethernet (`eth_generate_header`,
--                    `EthCheckType`, `EthWaitPacket`).
--   src/ip.c         Ip: `ip_generate_header`, `ip_packet_is_ip`.
--   src/arp.c        Arp: requests, replies, and the cache and the dialogue of `ArpWhoIs`.
--   src/icmp.c       Icmp: `icmp_send_reply`, `IcmpSendUnreachable`.
--   src/udp.c        Udp: all of it.
--   src/tcp.c        Tcp.Segment (lengths, checksum and options of a packet), Tcp.Table (the table of
--                    connections), Tcp.Send (`TcpSendPacket`, `TcpSendAck`), Tcp.Wait
--                    (`TcpWaitPacket`, `TcpClose`), Tcp.Handle (`TcpHandleIncomingPacket`), Tcp.Client
--                    (`TcpConnect`, `TcpSendData`, `TcpReceiveData`, `TcpDisconnect`).
--   src/network.c    Network: `NetHandleNetwork`, `NetHandleIncomingPacket`; Network.Start: `NetInit`.
--   src/http.c       Http: the parsers of requests, responses and header values; Http.Send
--                    (`HttpSendResponseHeader`, `HttpSendResponse`), Http.Serve (the callbacks
--                    `HttpTcpOn...`), Http.Fetch (`HttpSendRequest`), Http.Text (their texts).
--   src/enc28j60.c   Enc28j60: register access, sending and receiving; Enc28j60.Init: the start;
--                    Enc28j60.Registers and Flags: the codes of src/enc28j60.h.
--   example/         Example: the two applications, and what they print; Example.Asynch and
--                    Example.Synch are tcp_asynch_client/main.c and tcp_synch_client/main.c.
-- Names are those of the source, in lower case with underscores; a name with another ending (`_from`,
-- `_packet`, `_cleared`) is a part of such a function, as its comment says.
--
-- How the parts interact. The library has one packet buffer. An incoming frame is received into it,
-- handled in place, and an answer is written over it. Net holds the state: `Net N A` is the record of
-- all globals, with the state `N` of the chip and `A` of the application. A function of the source
-- that can wait for packets is a value of `M N A X`, a state passing function whose result `none`
-- means that it has not come back. Functions that wait handle the packets in between: they are given a
-- `Handlers`, and `Network.handlers depth` ties that knot down to a depth of nested waiting.
-- The driver's packet functions and the callbacks of the application are fields of the record `Env`,
-- the parameter `env` of the modules: no theorem assumes anything of them but what it names as a
-- hypothesis. `Enc28j60.Link.driver_env` puts the driver of src/enc28j60.c there, and
-- `Http.Serve.http_env` the callbacks of src/http.c, over those of the application.
-- Predicates on the table of connections are carried through all of it: `Tcp.Table.Kept.IsKept` is what
-- a predicate must fulfil, `Net.Keeps` has the rules for calls, a module `Keeps` of each part its
-- operations, and `Network.Runs` the states that the start and the calls of the application lead to.
-- `Tcp.Handle.Keeps.CallbacksKeep` is what this asks of an application; `Example.Asynch.Keeps` is about
-- the example's callbacks. `TcpConnect` is not among these calls: it takes a place of the table with ports and
-- addresses of its own, which it does not compare with those in use.
-- `Net.Calls` is how it is said that a call returns: for a network that stays within a predicate on its
-- states and delivers frames from which the handlers return. `Network.Quiet` has the library's own
-- handlers in that form, on ARP, pings and packets with a wrong checksum.
-- The chip is an argument too: `Spi C` is its pins and its transfers on a state `C`. What theorems on
-- its registers and its memory assume of it are the records `Enc28j60.Chip.IsChip` and
-- `Enc28j60.Reads.IsReadable`, after the data sheet; the tests have a simulated chip that fulfils them.
-- The data of a `TcpSendData` is what a pointer points to whenever a part is sent, so it is a function
-- of the state: HTTP sends rows that stand in its own globals.
--
-- Data. A byte array is a function from index to byte (`Base.Memory.Mem`). Reads and writes are not cut
-- off at the end of an array, so that a write past it can be seen and stated. `unsigned short` has 16
-- bits, `unsigned long` 32, `int` 16, as on the AVR, and wraps around where the source's does
-- (`Util.add16`, `sub16`, `add32`). `memcpy` is `copy`, `memcmp` is `same`.
--
-- Fuel. `fold_carry` runs 3 rounds, which is enough for every 32-bit sum. `EthWaitPacket` runs 10
-- rounds for each millisecond of its timeout and 10 more. The search for an option runs 41 rounds,
-- more than an option list can have; where these are not enough, the loop of the source does not end.
-- The loops of `TcpClose`, `TcpConnect` and the parts of `TcpSendData` have a round for each
-- millisecond of their timeout and one more; `TcpReceiveData`, which may wait for ever, is given its fuel. The
-- waits for the PHY, and the loops of `HttpSendRequest`, which the source does not bound, are given
-- their fuel; so are the loops of the example applications that do not end. Decimal numbers of 16 bits
-- have at most the 5 digits of `Http.Text.digits`.
--
-- Not modelled: of the chip's driver the delays and the settings of the pins,
-- which are one step of `Spi`, and the link test, which is in a comment of the source.
-- `HTTP_HEADER_ROW_BREAK` is its default, and the texts that C strings hold are lists without a 0.
pub mod Base
pub mod Util
pub mod Checksum
pub mod Net
pub mod Enc28j60
pub mod Ethernet
pub mod Ip
pub mod Arp
pub mod Icmp
pub mod Udp
pub mod Tcp
pub mod Network
pub mod Http
pub mod Example
mod Tests
