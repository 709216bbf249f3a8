-- ===== src/Net/Tcp/Output.antt =====
-- What the TCP stack of Computer Networks/pr11-网络传输机制实验三 sends: tcp_out.c, the timers of tcp_timer.c and
-- the removal of what is acknowledged, `remove_from_send_list` of tcp_in.c.
use ucas_coursework.Prelude.{
  ℕ, ◌+◌, ◌-◌, ◌*◌, ◌^◌, Bool, false, Option, none, some, List, [], ◌∷◌, ◌++◌, ◌==◌, leb, ◌||◌,
  if◌then◌else◌, length, on_some,
}
use ucas_coursework.Net.Tcp.{
  closed, Segment, SendBuffer, Timer, Sock, TimerRef, send_timer, wait_timer, Tcp, Cb, modify_sock,
  emit, tcp_set_state, u32, u16, has_flag, tcp_fin, tcp_syn, tcp_rst, tcp_psh, tcp_ack,
  wake_sleeper,
}
use ucas_coursework.Net.Tcp.Seq.{less_or_equal_32b}
use ucas_coursework.Net.Tcp.Table.{free_tcp_sock, tcp_bind_unhash}

-- TCP_TIMER_SEND, TCP_TIMER_SCAN_INTERVAL and TCP_TIMEWAIT_TIMEOUT, in microseconds
abbrev pub tcp_timer_send : ℕ
tcp_timer_send = 200000

abbrev pub tcp_timer_scan_interval : ℕ
tcp_timer_scan_interval = 10000

abbrev pub tcp_timewait_timeout : ℕ
tcp_timewait_timeout = 2000000

-- The headers in front of the payload: Ethernet, IP and TCP.
abbrev pub headers_size : ℕ
headers_size = 54

abbrev pub add_timer : TimerRef → Tcp → Tcp
add_timer timer t = record t { timer_list = t.timer_list ++ (timer ∷ []) }

unfoldable pub init_timer : ℕ → Tcp → Tcp
init_timer a t = add_timer (send_timer a) (
    modify_sock a
      (λ s. record s {
        timer_send = record { type = 1; timeout = tcp_timer_send };
        ref_cnt = s.ref_cnt + 1;
      })
      t)

unfoldable pub reset_timer : Sock → Sock
reset_timer s = record s { timer_send = record s.timer_send { timeout = tcp_timer_send } }

unfoldable pub tcp_set_timewait_timer : ℕ → Tcp → Tcp
tcp_set_timewait_timer a t = add_timer (wait_timer a) (
    modify_sock a
      (λ s. record s {
        timewait = record { type = 0; timeout = tcp_timewait_timeout };
        ref_cnt = s.ref_cnt + 1;
      })
      t)

unfoldable pub insert_send : ℕ → Segment → ℕ → ℕ → ℕ → Tcp → Tcp
unfolding init_timer
insert_send a pkt seq data_size tot_size t =
    modify_sock a
      (λ s. record s {
        send_list =
            s.send_list
            ++ (record { pkt = pkt; seq = seq; num = 0; data_size = data_size; tot_size = tot_size }
                ∷ []);
      })
      (if (t.socks a).timer_send.type == 0 then init_timer a t else t)

-- What the headers say of a socket.
abbrev pub segment_of : Sock → ℕ → List ℕ → Segment
segment_of s flags payload = record {
  saddr = s.sip;
  daddr = s.dip;
  sport = s.sport;
  dport = s.dport;
  seq = s.snd_nxt;
  ack = s.rcv_nxt;
  flags = flags;
  rwnd = s.rcv_wnd;
  payload = payload;
}

-- `payload` is what the packet holds behind its headers.
unfoldable pub tcp_send_packet : ℕ → List ℕ → Tcp → Tcp
unfolding insert_send
tcp_send_packet a payload t =
    let len : ℕ = length payload in
    let pkt = segment_of (t.socks a) (tcp_psh + tcp_ack) payload in
    emit pkt (
      modify_sock a
        (λ s. record s {
          snd_nxt = u32 (s.snd_nxt + len);
          snd_wnd = u16 (s.snd_wnd + 2 ^ 16 - u16 len);
        })
        (insert_send a pkt (t.socks a).snd_nxt len (headers_size + len) t))

unfoldable pub tcp_send_control_packet : ℕ → ℕ → Tcp → Tcp
unfolding insert_send
tcp_send_control_packet a flags t =
    let pkt = segment_of (t.socks a) flags [] in
    emit pkt (
      if has_flag tcp_syn flags || has_flag tcp_fin flags
      then modify_sock a (λ s. record s { snd_nxt = u32 (s.snd_nxt + 1) })
          (insert_send a pkt (t.socks a).snd_nxt 0 headers_size t)
      else t)

unfoldable pub tcp_send_reset : Cb → Tcp → Tcp
tcp_send_reset cb t =
    emit
      (record {
        saddr = cb.daddr;
        daddr = cb.saddr;
        sport = cb.dport;
        dport = cb.sport;
        seq = 0;
        ack = cb.seq_end;
        flags = tcp_rst + tcp_ack;
        rwnd = 0;
        payload = [];
      })
      t

-- Whether all of a segment is acknowledged.
abbrev pub is_acked : ℕ → SendBuffer → Bool
is_acked ack buf = less_or_equal_32b (u32 (buf.seq + buf.data_size)) ack

unfoldable pub unacked : ℕ → List SendBuffer → List SendBuffer
unfolding less_or_equal_32b
unacked ack [] = []
unacked ack (b ∷ bs) = let rest = unacked ack bs in if is_acked ack b then rest else b ∷ rest

-- `wlen`: the bytes of the segments that leave the list
unfoldable pub acked_size : ℕ → List SendBuffer → ℕ
unfolding less_or_equal_32b
acked_size ack [] = 0
acked_size ack (b ∷ bs) =
    let rest : ℕ = acked_size ack bs in if is_acked ack b then b.data_size + rest else rest

abbrev pub some_acked : ℕ → List SendBuffer → Bool
some_acked ack [] = false
some_acked ack (b ∷ bs) = is_acked ack b || some_acked ack bs

unfoldable pub remove_from_send_list : ℕ → Sock → Sock
unfolding reset_timer unacked acked_size less_or_equal_32b
remove_from_send_list ack s =
    let timed : Sock = if some_acked ack s.send_list then reset_timer s else s in
    record timed {
      send_list = unacked ack s.send_list;
      snd_wnd = u16 (s.snd_wnd + acked_size ack s.send_list);
      wait_send = wake_sleeper s.wait_send;
    }

-- The time-wait timer of a socket runs out.
unfoldable pub expire_timewait : ℕ → Tcp → Option Tcp
unfolding free_tcp_sock tcp_bind_unhash tcp_set_state
expire_timewait a t =
    on_some (λ t'. some (free_tcp_sock a (tcp_set_state a closed t')))
      (elim (t.socks a).parent [ none ↦ tcp_bind_unhash a t | some p ↦ some t ])

-- The send timer of a socket runs out: the first segment of the list goes out again, and the time to
-- the next doubles. `none`: the program exits.
unfoldable pub resend_first : List SendBuffer → ℕ → Tcp → Option Tcp
resend_first [] a t = some t
resend_first (b ∷ bs) a t =
    if leb 10 b.num
    then none
    else some (
        emit b.pkt (
          modify_sock a
            (λ s. record s {
              send_list = record b { num = b.num + 1 } ∷ bs;
              timer_send = record s.timer_send { timeout = tcp_timer_send * 2 ^ (b.num + 1) };
            })
            t))

unfoldable pub resend : ℕ → Tcp → Option Tcp
unfolding resend_first
resend a t = resend_first (t.socks a).send_list a t

-- A timer is compared with zero only, so that it need not go below.
abbrev pub tick : Timer → Timer
tick timer = record timer { timeout = timer.timeout - tcp_timer_scan_interval }

abbrev pub drop_timer : ℕ → List TimerRef → List TimerRef
drop_timer a [] = []
drop_timer a (send_timer b ∷ rs) = send_timer b ∷ drop_timer a rs
drop_timer a (wait_timer b ∷ rs) =
    let rest = drop_timer a rs in if b == a then rest else wait_timer b ∷ rest

-- One turn of the loop over the timers.
unfoldable pub scan_timer : TimerRef → Tcp → Option Tcp
unfolding expire_timewait resend
scan_timer (wait_timer a) t =
    let t₁ = modify_sock a (λ s. record s { timewait = tick s.timewait }) t in
    if (t₁.socks a).timewait.timeout == 0
    then expire_timewait a (record t₁ { timer_list = drop_timer a t₁.timer_list })
    else some t₁
scan_timer (send_timer a) t =
    let t₁ = modify_sock a (λ s. record s { timer_send = tick s.timer_send }) t in
    if (t₁.socks a).timer_send.timeout == 0 then resend a t₁ else some t₁

unfoldable pub scan_timers : List TimerRef → Tcp → Option Tcp
unfolding scan_timer
scan_timers [] t = some t
scan_timers (r ∷ rs) t = on_some (scan_timers rs) (scan_timer r t)

unfoldable pub tcp_scan_timer_list : Tcp → Option Tcp
unfolding scan_timers
tcp_scan_timer_list t = scan_timers t.timer_list t
