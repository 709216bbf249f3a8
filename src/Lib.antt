-- ===== src/Lib.antt =====
-- A verification library for the operating system kernel of
-- "Operating System/p4-Synchronization-Primitives-IPC", the network stack of
-- "Computer Networks/pr11-网络传输机制实验三" and the spanning tree switch of
-- "Computer Networks/pr3-生成树机制实验", the address translation of "Computer Networks/pr4-网络地址转换实验"
-- the mOSPF daemon of "Computer Networks/pr6-网络路由实验二", and the MAC table of "Computer Networks/pr2-交换机转发实验".
--
-- The kernel runs tasks, each with a process control block (PCB). A block is in at most one queue: the
-- ready queue, the sleep queue, or the wait queue of a lock, condition variable, semaphore or barrier.
-- queue.c links the blocks into circular lists; scheduler.c moves them between the queues and picks the
-- task that runs; sync.c blocks and wakes tasks through the scheduler; interrupt.c counts the time and
-- preempts.
--
-- The network stack takes packets from its interfaces. ip.c delivers a packet to this host or forwards it by
-- the longest prefix in the routing table (rtable.c); arpcache.c finds the hardware address of the next
-- hop, and keeps the packets that wait for one. A packet for this host goes to TCP: tcp_sock.c finds its
-- socket in the hash tables and has the calls of the application, tcp_in.c is the state machine, tcp_out.c
-- sends, tcp_timer.c sends again. A socket keeps the bytes that it received in a ring buffer
-- (include/ring_buffer.h) until the application reads them, and those that came too early in a list.
--
-- The switch of the spanning tree protocol (stp.c) is a program of its own: it compares the messages of its
-- neighbours with what its ports know, chooses the port to the root, and announces the root from its
-- designated ports.
--
-- The memory manager (memory.c of "Operating System/p5-Virtual Memory") gives a process a page table and the pages of
-- its image, and finds the entry of an address when the processor has none.
--
-- The address translation (nat.c) is a program of its own as well: it gives a connection from inside a port of
-- its own address and sends the replies back. The mOSPF daemon (mospf_daemon.c) finds its neighbours by hello messages,
-- floods who they are, and enters routes by what it has heard. So is the switch (mac.c), which learns behind which interface an
-- address is.
--
-- Files:
--   Prelude, Prelude/Tests, Prelude/Lists, Prelude/Members, Prelude/Greatest: shared names, Boolean tests,
--     lists and sets of native numbers, and the search for a greatest element.
--   Kernel/Queue: queue.c, every function, as writes to a heap of links; and the unlinking of a node by
--     do_kill of kernel.c. Queue/Seg says what list a heap stands for, Queue/Ops and Queue/Sorted
--     prove the operations.
--   Kernel/Sched: scheduler.c and timer_irq of interrupt.c, on a record of the kernel's variables
--     whose queues are lists of tasks. Sched/Inv is the invariant on the queues, Sched/Ops proves that
--     the operations keep it, Sched/Wake and Sched/Live are about sleeping and picking, Sched/Frame
--     about what the scheduler leaves alone.
--   Kernel/Sync: sync.c, every function. Its children are named for what they prove.
--   Net/Types: interfaces, frames, and the calls that leave a component.
--   Net/Ring: include/ring_buffer.h. Ring/Bytes is about copying, Ring/Contents about the bytes held,
--     Ring/Fifo about writing, Ring/Read about reading, Ring/Stream about sequences of both.
--   Net/Arp: arpcache.c, each operation as one step under its mutex, with the clock and `rand` as
--     arguments. Arp/Table and Arp/Insert are about the addresses, Arp/Pending about the packets.
--   Net/Checksum: include/checksum.h, and ip_checksum of include/ip.h.
--   Net/Ip: ip.c, rtable.c and the sending of arp.c, on packets as lists of bytes. Ip/Prefix is about the
--     route that is selected.
--   Net/Tcp: the sockets and the tables. Tcp/Seq is the comparison of numbers, Tcp/Table the tables of
--     tcp_sock.c, Tcp/Output tcp_out.c and tcp_timer.c, Tcp/Input and Tcp/Process tcp_in.c, Tcp/Api the calls
--     of the application, each in two parts where it sleeps. `none` is a fault. Of the proofs, Tcp/Delivery,
--     Tcp/InOrder and Tcp/Arrivals are about data received, Tcp/Write and Tcp/Window about data sent, Tcp/Transfer
--     about both ends,
--     Tcp/Any, Tcp/States, Tcp/Edges, Tcp/Passive and Tcp/Machine about the state diagram, Tcp/Handshake and
--     Tcp/Connect about two stacks that connect, Tcp/Lookup, Tcp/Ports and Tcp/Reset about the tables. Tcp/Wire has
--     the bytes of a segment, and Tcp/Carried is about their way to the other stack.
--   Net/Frames: the frames of arp.c, icmp.c and ip_init_hdr. Frames/Exchange is about the ARP protocol,
--     Frames/Header about the checksums.
--   Stp: stp.c, the comparison, the handling of a message and the start. Stp/Order is about the comparison,
--     Stp/Config about the root port, Stp/Settle about the state that a message leads to.
--   Kernel/Process: do_spawn, do_kill and do_wait of kernel.c, on the state of Kernel/Sched. Process/Inv
--     is about its invariant, Process/Found about the searches, Process/Steps and
--     Process/Effects about what the calls do.
--   Kernel/Mbox: mbox.c, with the boxes beside that state. Mbox/Fifo proves the order of the messages.
--   Nat: nat.c, on the fields of a packet. Nat/Translate is do_translation, Nat/Sweep nat_timeout; Nat/Reply
--     is about a packet and its reply, Nat/Timeout about the flows that end.
--   Memory: memory.c and bcopy. Memory/Words is about the bits of a word, Memory/Copy about bcopy, Memory/Pages
--     about page_alloc, Memory/Load, Memory/Entry and Memory/Pair about a round of setup_page_table, Memory/Loaded,
--     Memory/Table and Memory/Mapped about the table of a task.
--   Mospf: the daemon's data. Mospf/Message is mospf_proto.c, Mospf/Database and Mospf/Daemon are the handlers and
--     the rounds of the threads, Mospf/Routes is rtable_update. `none` is a fault. Mospf/Newest is about
--     the database, Mospf/Learnt, Mospf/Links and Mospf/Flood about a link state message from its sender to a reader, Mospf/Hello and
--     Mospf/Neighbours about hellos, Mospf/Reach, Mospf/Size and Mospf/Sound about the routes, Mospf/Lost about a router that gets none.
--   Switch: mac.c. Switch/Learn is about insertion and lookup, Switch/Sweep about the ageing.
--   The Tests files hold runs at concrete machines.
--
-- The source runs each operation with interrupts disabled up to its call of scheduler_entry, so an
-- operation is a function on the state. An operation that blocks gives the state after the switch; what
-- the task has to do when it is switched to again is kept in the field `saved` of its PCB, and `resume`
-- does it. `Step` and `Reach` of Kernel/Sync are the sequences of such operations.
--
-- Bounds and fuel: times are kept below 2 ^ 64 and entry counts below 2 ^ 32 by the wrap-around of the
-- source; the arguments of do_sleep, do_setpriority and semaphore_init are taken as not negative. A
-- loop over a queue runs on fuel, and its length is enough. The waiting loop of `scheduler` takes the
-- list of timer interrupts that its rounds let in. The walk of lock_acquire_helper runs on fuel, and two
-- rounds are enough. The bytes and positions of a ring buffer are not negative; words of the checksum
-- wrap at 2 ^ 32 and the result at 2 ^ 16. The numbers of TCP wrap at 2 ^ 32 and its
-- windows at 2 ^ 16; a stream is shorter than 2 ^ 32 and a write than 2 ^ 31. Writing and taking up what waits
-- run on fuel, as much as there are bytes or packets. A walk over a page table runs on fuel for the 256
-- entries that a page has room for. The path costs of the spanning tree are below 2 ^ 31.
--
-- Not modelled: the threads and mutexes of
-- TCP, the register switch of entry.S, printing, the boot block, and the other coursework of the repository.
pub mod Prelude
pub mod Kernel
pub mod Memory
pub mod Mospf
pub mod Nat
pub mod Net
pub mod Stp
pub mod Switch
