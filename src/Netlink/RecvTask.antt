-- ===== src/Netlink/RecvTask.antt =====
-- source/comm_netlink.c: the thread that receives from the kernel.
use libcomm.Prelude.{
  ℕ, suc, ◌+◌, ◌≤◌, ◌<◌, ◌≡◌, ◌≢◌, refl, sym, ap, ◌∙◌, true, false, arith, ℤ, minus_one,
  is_positive, List, take, ◌%◌, ◌^◌, ◌∷◌, if◌then◌else◌,
}
use libcomm.Os.{
  World, Os, Call, NlHeader, netlink_callback, Reply, History, recvmsg, thread_testcancel,
}
use libcomm.Memory.{is_live, is_open}
use libcomm.Returns.{Returns, Returns-bind}
use libcomm.Threads.{Round, again, leave, cancelled, Ending, exited, running, received, loop}
use libcomm.Threads.Loop.{IsLoop, loop_ends}
use libcomm.Fifo.Receive.{closings, is_leave}
use libcomm.Netlink.{
  Context, Heap, message_size, deliver, close_netlink, recv_round, end_recv, recv_task,
}

-- What the thread of the socket at `p` relies on.
pub record Ready (p : ℕ) (w : World Heap) : Type 0 where
  pub alive : is_live w.history p ≡ true
  pub runs : (w.store.contexts p).running ≡ true
  pub exit_set : (w.store.contexts p).p_exit_func ≢ 0
  pub buffer : is_live w.history (w.store.contexts p).p_recv_nl_hdr ≡ true

-- The kernel sends finitely much: each `recvmsg` of bytes from `fd` uses up some of a budget.
pub record FiniteKernel (os : Os) (fd : ℤ) (budget : History → ℕ) : Type 0 where
  pub used :
      (h : History) (n : ℕ)
      → is_positive (os.reply h (recvmsg fd n)).value ≡ true
      → budget ((recvmsg fd n, os.reply h (recvmsg fd n)) ∷ h) < budget h
  pub kept : (h : History) (c : Call) → budget ((c, os.reply h c) ∷ h) ≤ budget h

-- Some rounds of the thread.
pub record RoundDone (p : ℕ) (w : World Heap) (o : Round) (w' : World Heap) : Type 0 where
  pub same_live : (r : ℕ) → is_live w'.history r ≡ is_live w.history r
  pub other_fds : (d : ℤ) → d ≢ (w.store.contexts p).fd → is_open w'.history d ≡ is_open w.history d
  pub others : (r : ℕ) → r ≢ p → w'.store.contexts r ≡ w.store.contexts r
  pub messages :
      (r : ℕ) → r ≢ (w.store.contexts p).p_recv_nl_hdr → w'.store.messages r ≡ w.store.messages r
  pub same_send : (w'.store.contexts p).p_send_nl_hdr ≡ (w.store.contexts p).p_send_nl_hdr
  pub same_recv : (w'.store.contexts p).p_recv_nl_hdr ≡ (w.store.contexts p).p_recv_nl_hdr
  pub same_exit : (w'.store.contexts p).p_exit_func ≡ (w.store.contexts p).p_exit_func
  pub runs :
      o ≡ again
      → ((w'.store.contexts p).running ≡ true)
        × ((w'.store.contexts p).fd ≡ (w.store.contexts p).fd)
  pub shut :
      o ≡ leave
      → ((w'.store.contexts p).fd ≡ minus_one)
        × (is_open w'.history (w.store.contexts p).fd ≡ false)
  pub told :
      closings (w.store.contexts p).p_exit_func w'.history
      ≡ (if is_leave o then 1 else 0) + closings (w.store.contexts p).p_exit_func w.history

-- How the thread ends.
pub record Ended (p : ℕ) (w : World Heap) (e : Ending) (w' : World Heap) : Type 0 where
  pub same_live : (r : ℕ) → is_live w'.history r ≡ is_live w.history r
  pub other_fds : (d : ℤ) → d ≢ (w.store.contexts p).fd → is_open w'.history d ≡ is_open w.history d
  pub others : (r : ℕ) → r ≢ p → w'.store.contexts r ≡ w.store.contexts r
  pub messages :
      (r : ℕ) → r ≢ (w.store.contexts p).p_recv_nl_hdr → w'.store.messages r ≡ w.store.messages r
  pub same_send : (w'.store.contexts p).p_send_nl_hdr ≡ (w.store.contexts p).p_send_nl_hdr
  pub same_recv : (w'.store.contexts p).p_recv_nl_hdr ≡ (w.store.contexts p).p_recv_nl_hdr
  pub stops : e ≡ exited → (w'.store.contexts p).running ≡ false
  pub shut :
      e ≡ exited
      → ((w'.store.contexts p).fd ≡ minus_one)
        × (is_open w'.history (w.store.contexts p).fd ≡ false)
  pub told :
      e ≡ exited
      → closings (w.store.contexts p).p_exit_func w'.history
        ≡ suc (closings (w.store.contexts p).p_exit_func w.history)

module _ (os : Os) (p : ℕ) where
  close_netlink-RoundDone :
      (len : ℤ) (w : World Heap) → Ready p w → Returns (close_netlink os p len w) (RoundDone p w)
  unfolding close_netlink
  close_netlink-RoundDone len w ready = ground (arith, ready.alive, ready.exit_set)

  abbrev asked : World Heap → History
  asked w = (thread_testcancel, os.reply w.history thread_testcancel) ∷ w.history

  recv_round-RoundDone : (w : World Heap) → Ready p w → Returns (recv_round os p w) (RoundDone p w)
  unfolding recv_round deliver
  recv_round-RoundDone w ready =
      ground
        (arith, ready.alive, ready.runs, ready.buffer, close_netlink-RoundDone r.value w1 ready1)
    where
      r : Reply
      r = os.reply (asked w) (recvmsg (w.store.contexts p).fd message_size)

      w1 : World Heap
      w1 = record w { history = (recvmsg (w.store.contexts p).fd message_size, r) ∷ asked w }

      ready1 : Ready p w1
      ready1 = record {
        alive = ready.alive;
        runs = ready.runs;
        exit_set = ready.exit_set;
        buffer = ready.buffer;
      }

  rounds :
      (fd : ℤ)
      → IsLoop (recv_round os p) (λ w. Ready p w × ((w.store.contexts p).fd ≡ fd)) (RoundDone p)
  rounds fd = record {
    begin = λ w i. record {
      same_live = λ _. refl;
      other_fds = λ _ _. refl;
      others = λ _ _. refl;
      messages = λ _ _. refl;
      same_send = refl;
      same_recv = refl;
      same_exit = refl;
      runs = λ _. (i.0.runs, refl);
      shut = λ e. absurd (ground arith);
      told = omega arith;
    };
    one = λ w i. recv_round-RoundDone w i.0;
    next = λ w w1 i d. (
      record {
        alive = d.same_live p ∙ i.0.alive;
        runs = (d.runs refl).0;
        exit_set = λ z. i.0.exit_set (sym d.same_exit ∙ z);
        buffer = ap (is_live w1.history) d.same_recv ∙ (d.same_live _ ∙ i.0.buffer);
      },
      (d.runs refl).1 ∙ i.1,
    );
    compose = λ w w1 o w' d e. record {
      same_live = λ r. e.same_live r ∙ d.same_live r;
      other_fds = λ x n. e.other_fds x (λ z. n (z ∙ (d.runs refl).1)) ∙ d.other_fds x n;
      others = λ r h. e.others r h ∙ d.others r h;
      messages = λ r n. e.messages r (λ z. n (z ∙ d.same_recv)) ∙ d.messages r n;
      same_send = e.same_send ∙ d.same_send;
      same_recv = e.same_recv ∙ d.same_recv;
      same_exit = e.same_exit ∙ d.same_exit;
      runs = λ z. ((e.runs z).0, (e.runs z).1 ∙ (d.runs refl).1);
      shut = λ z. ground (arith, e.shut z, d.runs refl);
      told = ground (arith, e.told, d.told, d.same_exit);
    };
  }

  end_recv-Ended :
      (w : World Heap)
      → Ready p w
      → (o : Round) (w1 : World Heap) → RoundDone p w o w1
      → o ≢ again
      → Returns (end_recv os p o w1) (λ e w'. Ended p w e w' × (e ≢ running))
  unfolding end_recv
  end_recv-Ended w r again w1 d n = absurd (n refl)
  end_recv-Ended w r cancelled w1 d n = (
    record {
      same_live = d.same_live;
      other_fds = d.other_fds;
      others = d.others;
      messages = d.messages;
      same_send = d.same_send;
      same_recv = d.same_recv;
      stops = λ e. cc;
      shut = λ e. absurd (ground (arith, e));
      told = λ e. absurd (ground (arith, e));
    },
    λ e. cc,
  )
  end_recv-Ended w r leave w1 d n =
      let live : is_live w1.history p ≡ true = d.same_live p ∙ r.alive in
      ground (
        arith,
        live,
        d.same_live,
        d.other_fds,
        d.others,
        d.messages,
        d.same_send,
        d.same_recv,
        d.same_exit,
        d.shut refl,
        d.told,
      )

  module _ (budget : History → ℕ) where
    deliver_uses :
        (header : NlHeader) (payload : List ℕ) (fd : ℤ) (w : World Heap)
        → Ready p w
        → FiniteKernel os fd budget
        → Returns (deliver os p header payload w) (λ _ w'. budget w'.history ≤ budget w.history)
    unfolding deliver
    deliver_uses header payload fd w ready finite = ground (
      arith,
      ready.alive,
      ready.buffer,
      finite.kept w.history thread_testcancel,
      finite.kept h told,
    )
      where
        c : Context
        c = w.store.contexts p

        h : History
        h = (thread_testcancel, os.reply w.history thread_testcancel) ∷ w.history

        told : Call
        told =
            netlink_callback c.p_recv_func c.p_arg
              (take (header.nlmsg_len % 2 ^ 16)
                (received payload (w.store.messages c.p_recv_nl_hdr).payload))
              (header.nlmsg_len % 2 ^ 16) header.nlmsg_flags

    close_netlink_leaves :
        (len : ℤ) (w : World Heap)
        → is_live w.history p ≡ true
        → Returns (close_netlink os p len w) (λ o _. o ≡ leave)
    unfolding close_netlink
    close_netlink_leaves len w live = ground arith

    recv_round_uses :
        (fd : ℤ) (w : World Heap)
        → FiniteKernel os fd budget
        → Ready p w × ((w.store.contexts p).fd ≡ fd)
        → Returns (recv_round os p w) (λ o w'. o ≡ again → budget w'.history < budget w.history)
    unfolding recv_round
    recv_round_uses fd w finite (ready, same) = ground (
      arith,
      ready.alive,
      ready.runs,
      same,
      finite.kept w.history thread_testcancel,
      finite.used (asked w) message_size,
      deliver_uses r.header r.payload fd w1 ready1 finite,
      close_netlink_leaves r.value w1 ready.alive,
    )
      where
        r : Reply
        r = os.reply (asked w) (recvmsg fd message_size)

        w1 : World Heap
        w1 = record w { history = (recvmsg fd message_size, r) ∷ asked w }

        ready1 : Ready p w1
        ready1 = record {
          alive = ready.alive;
          runs = ready.runs;
          exit_set = ready.exit_set;
          buffer = ready.buffer;
        }

    -- Take an allocated netlink socket that is running, with an exit callback and an allocated
    -- buffer to receive into. If the kernel sends finitely much, as a budget that each recvmsg of
    -- bytes on its descriptor lowers, its thread meets no fault and ends within more rounds than
    -- the budget: its loop is left or the thread cancelled. It allocates and frees nothing, opens
    -- and closes no other descriptor, changes no other context, writes to no message but that of
    -- its buffer, and keeps both its buffers. If it leaves its loop, the socket is not running,
    -- its descriptor was closed and is -1, and the exit callback was called exactly once.
    pub netlink_recv_task_ends :
        (fuel : ℕ) (w : World Heap)
        → Ready p w
        → FiniteKernel os (w.store.contexts p).fd budget
        → budget w.history < fuel
        → Returns (recv_task os fuel p w) (λ e w'. Ended p w e w' × (e ≢ running))
    unfolding recv_task
    netlink_recv_task_ends fuel w r finite enough =
        Returns-bind (loop (recv_round os p) fuel) (end_recv os p) w
          (λ o w1. RoundDone p w o w1 × (o ≢ again)) _
          (loop_ends (rounds (w.store.contexts p).fd) (λ w0. budget w0.history)
            (λ w0. recv_round_uses (w.store.contexts p).fd w0 finite) fuel w (r, refl) enough)
          (λ o w1 x. end_recv-Ended w r o w1 x.0 x.1)
