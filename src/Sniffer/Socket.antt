-- ===== src/Sniffer/Socket.antt =====
-- The capture socket: `sniffer_init` and `sniffer_close` of src/sniffer.c. What the calls of the
-- operating system answer is a `Net`. A failure to set the receive timeout is logged, and no more.
use knockd.Prelude.{ℕ, Bool, false, Option, none, some, List, [], ◌∷◌, ◌==◌, if◌then◌else◌}
use knockd.Config.{Config}

-- The descriptor that `socket` returns, whether `setsockopt` sets SO_RCVTIMEO, and `if_nametoindex`,
-- which answers 0 for an unknown name.
pub record Net : Type 0 where
  pub socket : Option ℕ
  pub setsockopt : Bool
  pub if_nametoindex : List ℕ → ℕ

-- The descriptor that `sniffer_init` returns (`none` for -1), whether `recvfrom` comes back on it after
-- RECV_TIMEOUT_US without a packet, `g_ifindex`, and the descriptors that it closed again.
pub record Opening : Type 0 where
  pub sock_fd : Option ℕ
  pub times_out : Bool
  pub ifindex : ℕ
  pub closed : List ℕ

-- From the check of KNOCK_INTERFACE on.
unfoldable pub choose_interface : Net → ℕ → Bool → List ℕ → Opening
choose_interface net fd timed [] = record {
  sock_fd = some fd;
  times_out = timed;
  ifindex = 0;
  closed = [];
}
choose_interface net fd timed (c ∷ cs) =
    let i = net.if_nametoindex (c ∷ cs) in
    if i == 0
    then record { sock_fd = none; times_out = false; ifindex = 0; closed = fd ∷ [] }
    else record { sock_fd = some fd; times_out = timed; ifindex = i; closed = [] }

unfoldable pub sniffer_init : Config → Net → Opening
sniffer_init c net = elim net.socket [
  | none ↦ record { sock_fd = none; times_out = false; ifindex = 0; closed = [] }
  | some fd ↦ choose_interface net fd net.setsockopt c.knock_interface
]

-- The descriptors that `sniffer_close` closes.
unfoldable pub sniffer_close : Option ℕ → List ℕ
sniffer_close none = []
sniffer_close (some fd) = fd ∷ []
