-- ===== src/HostInformation.antt =====
-- src/plexo/host_information.py: the address of the host, over the socket that it is read from.
use pyplexo.Base.{ℕ, String}
use pyplexo.Exceptions.{Action, pure, catch, ◌>>=◌, ◌>>◌}

-- What the code uses of a datagram socket: `getsockname` gives the address alone.
pub record Socket (S : Type 0) : Type 0 where
  pub connect : String → ℕ → Action S (Unit {0})
  pub getsockname : Action S String
  pub close : Action S (Unit {0})

-- Any exception gives the address of the host itself, and the socket is closed in either case.
unfoldable pub get_primary_ip : {S : Type 0} → Socket S → Action S String
get_primary_ip socket = do
  ip_address ←
      catch (do socket.connect "10.255.255.255" 1; socket.getsockname) (λ e. pure "127.0.0.1")
  socket.close
  pure ip_address
