-- ===== src/Network.antt =====
-- The calls of the operating system that set up a connection, and the addresses that
-- common/helpers/socket.c makes. A call that returns a result is true where it succeeds.
use jm_bus.Common.{ℕ, Bool, Option}

-- `struct sockaddr_in`
pub record Address : Type 0 where
  pub sin_family : ℕ
  pub sin_port : ℕ
  pub s_addr : ℕ

abbrev pub af_inet : ℕ
af_inet = 2

abbrev pub inaddr_any : ℕ
inaddr_any = 0

abbrev pub sock_stream : ℕ
sock_stream = 1

pub record Network (W : Type 0) : Type 0 where
  -- the network's byte order
  pub htons : ℕ → ℕ
  -- `socket(family, type, protocol)`, `none` for -1
  pub socket : ℕ → ℕ → ℕ → W → Option ℕ × W
  -- `setsockopt` for `SO_REUSEADDR`, and `ioctl` for `FIONBIO`
  pub setsockopt : ℕ → W → Bool × W
  pub ioctl : ℕ → W → Bool × W
  pub bind : ℕ → Address → W → Bool × W
  -- `listen(socket, backlog)`
  pub listen : ℕ → ℕ → W → Bool × W
  pub connect : ℕ → Address → W → Bool × W
  -- `shutdown(socket, SHUT_RDWR)`
  pub shutdown : ℕ → W → Unit {0} × W

module _ {W : Type 0} (net : Network W) where
  unfoldable pub create_default_addr : Address
  create_default_addr = record {
    sin_family = af_inet;
    sin_port = net.htons 9901;
    s_addr = inaddr_any;
  }

  -- `addr`, or the default address for a null pointer
  abbrev pub addr_or_default : Option Address → Address
  unfolding create_default_addr
  addr_or_default addr = elim addr [ Option.none ↦ create_default_addr | Option.some a ↦ a ]

-- The port and the address go in as they come, without `htons`.
unfoldable pub create_addr : ℕ → ℕ → ℕ → Address
create_addr type port addr = record { sin_family = type; sin_port = port; s_addr = addr }
