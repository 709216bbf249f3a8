-- ===== src/Net/Tcp/Edges.antt =====
-- The state diagram of TCP as tcp_in.c of Computer Networks/pr11-网络传输机制实验三 has it.
use ucas_coursework.Prelude.{ℕ, ◌≡◌, ◌≢◌, ◌∙◌, Bool, true, false, ◌==◌, if◌then◌else◌, arith}
use ucas_coursework.Net.Tcp.{
  State, closed, listen, syn_recv, syn_sent, established, close_wait, last_ack, fin_wait_1,
  fin_wait_2, time_wait, Tcp,
}
use ucas_coursework.Net.Tcp.Process.{after_ack}
use ucas_coursework.Net.Tcp.States.{Kept}

-- The states in which a packet can end the connection at once.
abbrev pub IsAnswered : State → Type 0
IsAnswered closed = ⊥
IsAnswered listen = ⊥
IsAnswered syn_sent = ⊥
IsAnswered state = Unit

-- A step of the state of the socket that a packet is for.
infix 40 ◌⟶◌
pub data ◌⟶◌ : State → State → Type 0 where
  stay : (s : State) → s ⟶ s
  reset : (s : State) → IsAnswered s → s ⟶ closed
  connected : syn_sent ⟶ established
  passively_connected : syn_recv ⟶ established
  fin_acked : fin_wait_1 ⟶ fin_wait_2
  peer_closed : established ⟶ close_wait
  both_closed : fin_wait_2 ⟶ time_wait
  closed_together : fin_wait_1 ⟶ time_wait

-- The state after a FIN.
abbrev pub fin_state : State → State
fin_state established = close_wait
fin_state fin_wait_2 = time_wait
fin_state state = state

-- The socket `a` made a step, and every other socket but a new one has its state still.
pub record Stepped (a : ℕ) (t t' : Tcp) : Type 0 where
  pub state : State
  pub edge : (t.socks a).state ⟶ state
  pub moved :
      (b : ℕ) → b ≢ t.next_sock → (t'.socks b).state ≡ (if b == a then state else (t.socks b).state)

-- The steps of a connection that is open.
pub fin_edge : (state : State) → IsAnswered state → state ⟶ fin_state state
fin_edge established h = peer_closed
fin_edge fin_wait_2 h = both_closed
fin_edge state h = stay _

pub ack_edge : (state : State) → IsAnswered state → state ⟶ after_ack state
unfolding after_ack
ack_edge fin_wait_1 h = fin_acked
ack_edge last_ack h = reset last_ack h
ack_edge state h = stay _

pub ack_fin_edge : (state : State) → IsAnswered state → state ⟶ fin_state (after_ack state)
unfolding after_ack
ack_fin_edge fin_wait_1 h = closed_together
ack_fin_edge fin_wait_2 h = both_closed
ack_fin_edge established h = peer_closed
ack_fin_edge last_ack h = reset last_ack h
ack_fin_edge state h = stay _

pub open_edge :
    (acked fin : Bool) (state : State)
    → IsAnswered state
    → state ⟶ (
        if fin
        then fin_state (if acked then after_ack state else state)
        else if acked
        then after_ack state
        else state)
open_edge true true state h = ack_fin_edge state h
open_edge true false state h = ack_edge state h
open_edge false true state h = fin_edge state h
open_edge false false state h = stay state

pub same-Stepped : (a : ℕ) (t t' : Tcp) → Kept t t' → Stepped a t t'
same-Stepped a t t' k = record {
  state = (t.socks a).state;
  edge = stay _;
  moved = λ b apart. k b ∙ ground arith;
}
