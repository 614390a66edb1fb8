-- ===== src/Server.antt =====
-- chitcpd/serverinfo.h and chitcpd/tcp.h: the state of the daemon. Tables are lists, a pointer into a
-- table is an index, a thread is a number; locks and condition variables are left out, since the
-- functions that hold a lock are single steps of the model.
use chitcp.Base.{ℕ, ◌+◌, ◌*◌, Bool, true, false, List, [], Option, none, get_or, ℤ, pos}
use chitcp.Types.{TcpState, closed, SocketType, uninitialized}
use chitcp.Addr.{Addr, cleared}
use chitcp.Buffer.{Buffer}

-- `tcp_segment_t`: the bytes of the segment; its length is theirs.
abbrev pub Segment : Type 0
Segment = List ℕ

-- The port fields of the TCP header, as a little-endian host reads them: in network byte order. A segment
-- that is too short for them reads as 0 here; the code reads past its end.
unfoldable pub source_port : Segment → ℕ
source_port s = get_or s 0 0 + 256 * get_or s 1 0

unfoldable pub dest_port : Segment → ℕ
dest_port s = get_or s 2 0 + 256 * get_or s 3 0

-- `tcp_data_t`
pub record TcpData : Type 0 where
  pub pending_segments : List Segment
  pub iss : ℕ
  pub snd_una : ℕ
  pub snd_nxt : ℕ
  pub snd_wnd : ℕ
  pub irs : ℕ
  pub rcv_nxt : ℕ
  pub rcv_wnd : ℕ
  pub send : Buffer
  pub recv : Buffer
  pub closing : Bool

-- The event flags of an active socket.
pub record Flags : Type 0 where
  pub app_connect : Bool
  pub app_send : Bool
  pub app_recv : Bool
  pub net_recv : Bool
  pub app_close : Bool
  pub timeout_rtx : Bool
  pub timeout_pst : Bool
  pub cleanup : Bool

-- `flags.raw = 0`
abbrev pub no_flags : Flags
no_flags = record {
  app_connect = false;
  app_send = false;
  app_recv = false;
  net_recv = false;
  app_close = false;
  timeout_rtx = false;
  timeout_pst = false;
  cleanup = false;
}

pub record ActiveState : Type 0 where
  pub tcp_data : TcpData
  pub parent_socket : Option ℕ
  pub flags : Flags
  pub realtcpconn : Option ℕ

-- `pending_connection_t`
pub record Pending : Type 0 where
  pub initial_segment : Segment
  pub local_addr : Addr
  pub remote_addr : Addr

pub record PassiveState : Type 0 where
  pub backlog : ℤ
  pub pending_connections : List Pending

-- `withheld_tcp_segment_t`
pub record Withheld : Type 0 where
  pub segment : Segment
  pub duplicate : Bool
  pub local_addr : Addr
  pub remote_addr : Addr

-- `chisocketentry_t`. In C `active` and `passive` share their memory; only the one that `actpas_type`
-- names is used.
pub record Entry : Type 0 where
  pub available : Bool
  pub refcount : ℕ
  pub freeing : Bool
  pub domain : ℤ
  pub type : ℤ
  pub protocol : ℤ
  pub local_addr : Addr
  pub remote_addr : Addr
  pub tcp_state : TcpState
  pub actpas_type : SocketType
  pub creator_thread : ℕ
  pub withheld_segments : List Withheld
  pub active : ActiveState
  pub passive : PassiveState

-- `tcpconnentry_t`
pub record Connection : Type 0 where
  pub available : Bool
  pub peer_addr : Addr

pub record Delivery : Type 0 where
  pub tcp_segment : Segment
  pub time_sec : ℕ
  pub time_nsec : ℕ
  pub local_addr : Addr
  pub remote_addr : Addr

pub data DaemonState : Type 0 where
  ready starting running stopping stopped : DaemonState

-- `serverinfo_t`; a port is free (`NULL`) or names the socket that has it.
pub record Server : Type 0 where
  pub state : DaemonState
  pub sockets : List Entry
  pub num_tcp_threads : ℕ
  pub ports : List (Option ℕ)
  pub ephemeral_port_start : ℕ
  pub connections : List Connection
  pub delivery_queue : List Delivery
  pub latency_ns : ℕ

-- What `memset` to zero leaves.
abbrev pub no_buffer : Buffer
no_buffer = record {
  bytes = [];
  seq_initial = 0;
  seq_start = 0;
  seq_end = 0;
  start = 0;
  end = 0;
  count = 0;
  closed = false;
  maxsize = 0;
}

abbrev pub no_tcp_data : TcpData
no_tcp_data = record {
  pending_segments = [];
  iss = 0;
  snd_una = 0;
  snd_nxt = 0;
  snd_wnd = 0;
  irs = 0;
  rcv_nxt = 0;
  rcv_wnd = 0;
  send = no_buffer;
  recv = no_buffer;
  closing = false;
}

abbrev pub no_active : ActiveState
no_active = record {
  tcp_data = no_tcp_data;
  parent_socket = none;
  flags = no_flags;
  realtcpconn = none;
}

-- A cleared entry that is available. (Its socket type, 0 in C, is none of the enumeration; nothing
-- reads it before `allocate` sets it.)
abbrev pub free_entry : Entry
free_entry = record {
  available = true;
  refcount = 0;
  freeing = false;
  domain = pos 0;
  type = pos 0;
  protocol = pos 0;
  local_addr = cleared;
  remote_addr = cleared;
  tcp_state = closed;
  actpas_type = uninitialized;
  creator_thread = 0;
  withheld_segments = [];
  active = no_active;
  passive = record { backlog = pos 0; pending_connections = [] };
}
