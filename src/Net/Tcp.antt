-- ===== src/Net/Tcp.antt =====
-- The TCP stack of Computer Networks/pr11-网络传输机制实验三: the state that include/tcp.h, include/tcp_sock.h,
-- include/tcp_timer.h, include/synch_wait.h and include/tcp_hash.h declare, and the changes of it that
-- the parts share. A socket is named by its address, and `none` as a result is a fault: a use of NULL,
-- of a link that was never set or is no longer in its list, or a failing assertion.
pub mod Seq
pub mod Table
pub mod Output
pub mod Input
pub mod Process
pub mod Api
pub mod Delivery
pub mod InOrder
pub mod Write
pub mod Any
pub mod States
pub mod Edges
pub mod Passive
pub mod Machine
pub mod Ports
pub mod Reset
pub mod Handshake
pub mod Connect
pub mod Window
pub mod Lookup
pub mod Wire
pub mod Carried
mod WireTests
mod Tests
pub mod Arrivals
pub mod Transfer
pub mod TransferTests
use Prim.Native.Nat.{bit_xor}
use ucas_coursework.Prelude.{
  ℕ, zero, suc, ◌+◌, ◌-◌, ◌/◌, ◌%◌, ◌^◌, Bool, true, false, Option, none, some, List, [], ◌∷◌, ◌++◌,
  ◌==◌, not, if◌then◌else◌, update, length,
}
use ucas_coursework.Net.Ring.{RingBuffer, alloc_ring_buffer}

-- `enum tcp_state`
pub data State : Type 0 where
  closed listen syn_recv syn_sent established close_wait last_ack : State
  fin_wait_1 fin_wait_2 closing time_wait : State

-- What a packet says: the fields of `struct tcp_cb` that are read, the payload as long as `pl_len`.
pub record Cb : Type 0 where
  pub saddr : ℕ
  pub daddr : ℕ
  pub sport : ℕ
  pub dport : ℕ
  pub seq : ℕ
  pub seq_end : ℕ
  pub ack : ℕ
  pub payload : List ℕ
  pub rwnd : ℕ
  pub flags : ℕ

-- What is handed to `ip_send_packet`.
pub record Segment : Type 0 where
  pub saddr : ℕ
  pub daddr : ℕ
  pub sport : ℕ
  pub dport : ℕ
  pub seq : ℕ
  pub ack : ℕ
  pub flags : ℕ
  pub rwnd : ℕ
  pub payload : List ℕ

-- The flags, each a power of two; a test of `flags & f` reads the bit.
abbrev pub tcp_fin : ℕ
tcp_fin = 1

abbrev pub tcp_syn : ℕ
tcp_syn = 2

abbrev pub tcp_rst : ℕ
tcp_rst = 4

abbrev pub tcp_psh : ℕ
tcp_psh = 8

abbrev pub tcp_ack : ℕ
tcp_ack = 16

abbrev pub has_flag : ℕ → ℕ → Bool
has_flag f flags = not (flags / f % 2 == 0)

-- `struct send_buffer`, whose packet is the segment
pub record SendBuffer : Type 0 where
  pub pkt : Segment
  pub seq : ℕ
  pub num : ℕ
  pub data_size : ℕ
  pub tot_size : ℕ

-- `struct recv_buffer`, of whose packet the payload is used
pub record RecvBuffer : Type 0 where
  pub payload : List ℕ
  pub seq : ℕ

-- `struct synch_wait`; no part of the stack sets `dead`.
pub record Wait : Type 0 where
  pub notified : Bool
  pub sleep : Bool

-- `struct tcp_timer`; type 0 is the time-wait timer, and a timer that was never set.
pub record Timer : Type 0 where
  pub type : ℕ
  pub timeout : ℕ

-- A list node is zero after `memset`, in a list, or was deleted from one.
pub data Link : Type 0 where
  never linked stale : Link

-- `struct tcp_sock`
pub record Sock : Type 0 where
  pub sip : ℕ
  pub sport : ℕ
  pub dip : ℕ
  pub dport : ℕ
  pub parent : Option ℕ
  pub ref_cnt : ℕ
  pub freed : Bool
  pub hash_link : Link
  pub bind_link : Link
  pub listen_queue : List ℕ
  pub accept_queue : List ℕ
  pub send_list : List SendBuffer
  pub recv_list : List RecvBuffer
  pub timer_send : Timer
  pub timewait : Timer
  pub accept_backlog : ℕ
  pub backlog : ℕ
  pub wait_connect : Wait
  pub wait_accept : Wait
  pub wait_recv : Wait
  pub wait_send : Wait
  pub rcv_buf : RingBuffer
  pub state : State
  pub iss : ℕ
  pub snd_una : ℕ
  pub snd_nxt : ℕ
  pub rcv_nxt : ℕ
  pub snd_wnd : ℕ
  pub rcv_wnd : ℕ

-- A member of `timer_list`: the send timer or the time-wait timer of a socket.
pub data TimerRef : Type 0 where
  send_timer wait_timer : ℕ → TimerRef

-- The variables of the stack: the sockets, the address that `malloc` returns next, the three hash
-- tables, the timers, `last` of tcp_in.c, and the segments handed to IP so far.
pub record Tcp : Type 0 where
  pub socks : ℕ → Sock
  pub next_sock : ℕ
  pub established_table : ℕ → List ℕ
  pub listen_table : ℕ → List ℕ
  pub bind_table : ℕ → List ℕ
  pub timer_list : List TimerRef
  pub last : Bool
  pub sent : List Segment

-- `tsk->f = v`
abbrev pub modify_sock : ℕ → (Sock → Sock) → Tcp → Tcp
modify_sock a f t = record t { socks = update t.socks a (f (t.socks a)) }

-- `ip_send_packet`
abbrev pub emit : Segment → Tcp → Tcp
emit s t = record t { sent = t.sent ++ (s ∷ []) }

unfoldable pub tcp_set_state : ℕ → State → Tcp → Tcp
tcp_set_state a state t = modify_sock a (λ s. record s { state = state }) t

-- 32 bits and 16 bits
abbrev pub u32 : ℕ → ℕ
u32 n = n % 2 ^ 32

abbrev pub u16 : ℕ → ℕ
u16 n = n % 2 ^ 16

-- `wake_up`
unfoldable pub wake_up : Wait → Wait
wake_up w = record w { notified = true }

-- `if (wait->sleep) wake_up(wait)`
abbrev pub wake_sleeper : Wait → Wait
wake_sleeper w = if w.sleep then wake_up w else w

-- The bytes of a number on a little-endian machine, `n` of them, under exclusive or.
unfoldable pub hash8 : ℕ → ℕ → ℕ
hash8 zero value = 0
hash8 (suc n) value = bit_xor (value % 256) (hash8 n (value / 256))

unfoldable pub tcp_hash_function : ℕ → ℕ → ℕ → ℕ → ℕ
unfolding hash8
tcp_hash_function saddr daddr sport dport =
    bit_xor (bit_xor (bit_xor (hash8 4 saddr) (hash8 4 daddr)) (hash8 2 sport)) (hash8 2 dport)
    % 256

abbrev pub idle_wait : Wait
idle_wait = record { notified = false; sleep = false }

abbrev pub unset_timer : Timer
unset_timer = record { type = 0; timeout = 0 }

abbrev pub tcp_default_window : ℕ
tcp_default_window = 65535

-- The socket that `alloc_tcp_sock` returns.
unfoldable pub fresh_sock : Sock
unfolding alloc_ring_buffer
fresh_sock = record {
  sip = 0;
  sport = 0;
  dip = 0;
  dport = 0;
  parent = none;
  ref_cnt = 0;
  freed = false;
  hash_link = never;
  bind_link = never;
  listen_queue = [];
  accept_queue = [];
  send_list = [];
  recv_list = [];
  timer_send = unset_timer;
  timewait = unset_timer;
  accept_backlog = 0;
  backlog = 0;
  wait_connect = idle_wait;
  wait_accept = idle_wait;
  wait_recv = idle_wait;
  wait_send = idle_wait;
  rcv_buf = alloc_ring_buffer tcp_default_window;
  state = closed;
  iss = 0;
  snd_una = 0;
  snd_nxt = 0;
  rcv_nxt = 0;
  snd_wnd = 0;
  rcv_wnd = tcp_default_window;
}

unfoldable pub alloc_tcp_sock : Tcp → ℕ × Tcp
unfolding fresh_sock
alloc_tcp_sock t = (
  t.next_sock,
  record t { socks = update t.socks t.next_sock fresh_sock; next_sock = t.next_sock + 1 },
)
