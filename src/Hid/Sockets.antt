-- ===== src/Hid/Sockets.antt =====
-- The descriptors that jni/hidserv.c keeps in globals, the process's table of open descriptors, and
-- the two functions that end a session: `quit_serv` and `quit_thread`.
use bt_ota_bluez_api.Common.{Bool, true, List, [], ◌∷◌, ◌==◌, ◌&&◌, if◌then◌else◌}
use bt_ota_bluez_api.Common.Int.{ℤ, pos, pos_part, neg_part}

abbrev pub same_fd : ℤ → ℤ → Bool
same_fd a b = (pos_part a == pos_part b) && (neg_part a == neg_part b)

-- `close(fd)`: a descriptor that is not open leaves the table as it is.
unfoldable pub close : ℤ → List ℤ → List ℤ
close fd [] = []
close fd (x ∷ xs) = let rest = close fd xs in if same_fd fd x then rest else x ∷ rest

-- `thread` holds a thread id (and is never 0 then). `signalled`: SIGTERM was sent to it.
pub record Sockets : Type 0 where
  pub ctrl : ℤ
  pub intr : ℤ
  pub csg : ℤ
  pub isg : ℤ
  pub thread : Bool
  pub signalled : Bool
  pub connection_status : ℤ
  pub open_fds : List ℤ

-- The globals as the loader leaves them.
abbrev pub initial_sockets : List ℤ → Sockets
initial_sockets fds = record {
  ctrl = pos 0;
  intr = pos 0;
  csg = pos 0;
  isg = pos 0;
  thread = Bool.false;
  signalled = Bool.false;
  connection_status = pos 0;
  open_fds = fds;
}

unfoldable pub quit_serv : Sockets → Sockets × ℤ
unfolding close
quit_serv s = (
  record s { open_fds = close s.isg (close s.csg (close s.intr (close s.ctrl s.open_fds))) },
  pos 1,
)

unfoldable pub quit_thread : Sockets → Sockets
quit_thread s = if s.thread then record s { signalled = true } else s

unfoldable pub connection_state : Sockets → ℤ
connection_state s = s.connection_status
