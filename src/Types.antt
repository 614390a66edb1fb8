-- ===== src/Types.antt =====
-- include/chitcp/types.h: return codes, TCP states and socket types.

-- `chitcp_retcode_t`
pub data Retcode : Type 0 where
  ok enomem esocket ethread esync einit ewouldblock einval enoent : Retcode

pub data TcpState : Type 0 where
  closed listen syn_rcvd syn_sent established fin_wait_1 fin_wait_2 : TcpState
  close_wait closing time_wait last_ack : TcpState

pub data SocketType : Type 0 where
  active passive uninitialized : SocketType
