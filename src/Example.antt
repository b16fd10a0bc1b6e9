-- ===== src/Example.antt =====
-- What the two example applications (example/tcp_asynch_client/main.c, example/tcp_synch_client/main.c)
-- share: their settings, the server that they talk to, and stdout.
pub mod Asynch
pub mod Synch
use Prim.Native.Char.{code}
use Prim.Native.String.{String}
use avr_net_enc28j.Base.{ℕ, ◌+◌, zero, suc, true, false, List, [], ◌∷◌, ◌++◌, Mem, bytes}
use avr_net_enc28j.Net.{Config, Net}

-- The bytes of a C string, without its closing 0.
abbrev pub text_bytes : String → List ℕ
text_bytes String.[] = []
text_bytes (String.◌∷◌ c rest) = code c ∷ text_bytes rest

-- The memory of an application: what it has written to stdout, and its own globals.
pub record Console (G : Type 0) : Type 0 where
  pub stdout : List ℕ
  pub globals : G

-- `NET_MAC`, `NET_IP`, `NET_BUFFER_SIZE` and `TCP_MAX_CONNECTIONS`; the applications include tcp.c, and
-- neither icmp.c nor udp.c.
unfoldable pub example_config : Config
example_config = record {
  net_buffer_size = 400;
  tcp_max_connections = 2;
  net_arp_cache_size = 5;
  net_mac = bytes (0x15 ∷ 0x8 ∷ 0x45 ∷ 0x89 ∷ 0x69 ∷ 0x99 ∷ []);
  net_ip = bytes (192 ∷ 168 ∷ 0 ∷ 150 ∷ []);
  with_icmp = false;
  with_udp = false;
  with_tcp = true;
}

-- `serverIp` and `"test_message"`.
abbrev pub server_ip : Mem
server_ip = bytes (192 ∷ 168 ∷ 0 ∷ 30 ∷ [])

abbrev pub test_message : Mem
test_message = bytes (text_bytes "test_message")

module _ {N G : Type 0} where
  -- Text that goes to stdout.
  unfoldable pub print : List ℕ → Net N (Console G) → Net N (Console G)
  print text s = record s { app = record (s.app) { stdout = s.app.stdout ++ text } }

  unfoldable pub putchar : ℕ → Net N (Console G) → Net N (Console G)
  putchar c s = print (c ∷ []) s

  unfoldable pub puts : List ℕ → Net N (Console G) → Net N (Console G)
  puts text s = print (text ++ (b'\n' ∷ [])) s
