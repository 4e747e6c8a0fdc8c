-- ===== src/Datagram/RecvTask.antt =====
-- source/comm_udp.c, source/comm_ipc_dgram.c and source/comm_raw.c: the receiving thread as a whole.
use libcomm.Prelude.{
  ap, ℕ, suc, ◌≤◌, ◌<◌, ◌≡◌, ◌≢◌, refl, sym, ◌∙◌, true, false, arith, ℤ, Bool, ◌∷◌, pos_part, List,
  length, take, ◌%◌, ◌^◌,
}
use libcomm.Os.{
  pure, ◌>>◌, World, Os, Address, Call, Reply, History, recvfrom, thread_testcancel,
  datagram_callback,
}
use libcomm.Memory.{update, is_live, is_open, RecvfromFits}
use libcomm.Returns.{Returns, Returns-touch, Returns-bind, Returns-both}
use libcomm.Threads.{
  Round, again, leave, cancelled, Ending, exited, running, received, comm_buf_size,
}
use libcomm.Threads.Loop.{IsLoop, loop-Rel, loop_ends}
use libcomm.Datagram.{
  save, Context, Heap, Kind, deliver, recv_round, recv_loop, end_recv, recv_task,
}
use libcomm.Datagram.Laws.{Failing}
use libcomm.Datagram.Receive.{Ready, RoundDone, handed, payloads, recv_round-RoundDone}

-- The peers send finitely much to `fd`: each `recvfrom` that does not fail uses up some of a
-- budget, and nothing adds to it.
pub record FiniteDatagrams (os : Os) (fails : ℤ → Bool) (fd : ℤ) (budget : History → ℕ)
    : Type 0 where
  pub used :
      (h : History) (n : ℕ)
      → fails (os.reply h (recvfrom fd n)).value ≡ false
      → budget ((recvfrom fd n, os.reply h (recvfrom fd n)) ∷ h) < budget h
  pub kept : (h : History) (c : Call) → budget ((c, os.reply h c) ∷ h) ≤ budget h

module _ {Place : Type 0} (kind : Kind Place) (p : ℕ) where
  -- How the thread ends.
  abbrev pub Ended : World (Heap Place) → Ending → World (Heap Place) → Type 0
  Ended w e w' =
      ((r : ℕ) → is_live w'.history r ≡ is_live w.history r)
      × ((fd : ℤ) → is_open w'.history fd ≡ is_open w.history fd)
      × ((r : ℕ) → r ≢ p → w'.store r ≡ w.store r)
      × (length (w'.store p).recv_msg ≡ suc comm_buf_size)
      × (e ≡ exited
          → ((w'.store p).running ≡ false)
            × (handed (w.store p).p_recv_func w.history
                  ≡ payloads kind.fails (w.store p).fd w.history
                → handed (w.store p).p_recv_func w'.history
                  ≡ payloads kind.fails (w.store p).fd w'.history))

module _ {Place : Type 0} (os : Os) (fits : RecvfromFits os) (kind : Kind Place)
    (failing : Failing kind) (p : ℕ) where
  rounds : IsLoop (recv_round os kind p) (Ready p) (RoundDone kind.fails p)
  rounds = record {
    begin = λ w r. record {
      same_live = λ _. refl;
      same_open = λ _. refl;
      others = λ _ _. refl;
      same_fd = refl;
      same_func = refl;
      runs = λ _. r.runs;
      buffer = r.buffer;
      hands = λ _ h. h;
    };
    one = recv_round-RoundDone os fits kind failing p;
    next = λ w w1 r d. record {
      alive = d.same_live p ∙ r.alive;
      runs = d.runs refl;
      callback = λ z. r.callback (sym d.same_func ∙ z);
      buffer = d.buffer;
    };
    compose = λ w w1 o w' d e. record {
      same_live = λ r. e.same_live r ∙ d.same_live r;
      same_open = λ fd. e.same_open fd ∙ d.same_open fd;
      others = λ r h. e.others r h ∙ d.others r h;
      same_fd = e.same_fd ∙ d.same_fd;
      same_func = e.same_func ∙ d.same_func;
      runs = e.runs;
      buffer = e.buffer;
      hands = λ n h. ground (arith, e.hands n, d.hands (λ c. cc) h, d.same_func, d.same_fd);
    };
  }

  end_recv-Ended :
      (w : World (Heap Place))
      → Ready p w
      → (o : Round) (w1 : World (Heap Place)) → RoundDone kind.fails p w o w1
      → Returns (end_recv os kind p o w1) (Ended kind p w)
  unfolding end_recv
  end_recv-Ended w r again w1 d = (d.same_live, d.same_open, d.others, d.buffer, λ e. cc)
  end_recv-Ended w r cancelled w1 d = (d.same_live, d.same_open, d.others, d.buffer, λ e. cc)
  end_recv-Ended w r leave w1 d =
      Returns-touch p (λ w0. (w0.store p, w0))
        (λ c. save p (record c { running = false }) >> pure exited) w1 (Ended kind p w) live
        (Returns-touch p (λ w0. (tt, record w0 { store = update w0.store p stopped }))
          (λ _. pure exited) w1 (Ended kind p w) live ended)
    where
      live : is_live w1.history p ≡ true
      live = d.same_live p ∙ r.alive

      stopped : Context Place
      stopped = record (w1.store p) { running = false }

      self : update w1.store p stopped p ≡ stopped
      self = ground arith

      ended : Ended kind p w exited (record w1 { store = update w1.store p stopped })
      ended = (
        d.same_live,
        d.same_open,
        λ x h. ground (arith, d.others x h),
        ap (λ (c : Context Place). length c.recv_msg) self ∙ d.buffer,
        λ _. (ap (λ (c : Context Place). c.running) self, d.hands (λ c. cc)),
      )

  end_recv_runs :
      (o : Round) (w1 : World (Heap Place))
      → is_live w1.history p ≡ true
      → o ≢ again
      → Returns (end_recv os kind p o w1) (λ e w'. e ≢ running)
  unfolding end_recv
  end_recv_runs again w1 live n = absurd (n refl)
  end_recv_runs cancelled w1 live n = λ e. cc
  end_recv_runs leave w1 live n = ground arith

  end_recv_ends :
      (w : World (Heap Place))
      → Ready p w
      → (o : Round) (w1 : World (Heap Place)) → RoundDone kind.fails p w o w1
      → o ≢ again
      → Returns (end_recv os kind p o w1) (λ e w'. Ended kind p w e w' × (e ≢ running))
  end_recv_ends w r o w1 d n =
      Returns-both (end_recv os kind p o w1) (Ended kind p w) (λ e w'. e ≢ running) _
        (end_recv-Ended w r o w1 d) (end_recv_runs o w1 (d.same_live p ∙ r.alive) n)
        (λ e w' x y. (x, y))

  pub recv_task-Ended :
      (fuel : ℕ) (w : World (Heap Place))
      → Ready p w
      → Returns (recv_task os kind fuel p w) (Ended kind p w)
  unfolding recv_task recv_loop
  recv_task-Ended fuel w r =
      Returns-bind (recv_loop os kind fuel p) (end_recv os kind p) w (RoundDone kind.fails p w)
        (Ended kind p w) (loop-Rel rounds fuel w r) (end_recv-Ended w r)

  module _ (budget : History → ℕ) where
    deliver_uses :
        (payload : List ℕ) (len : ℕ) (source : Address) (fd : ℤ) (w : World (Heap Place))
        → is_live w.history p ≡ true
        → FiniteDatagrams os kind.fails fd budget
        → Returns
            (deliver os kind p payload len source w)
            (λ _ w'. budget w'.history ≤ budget w.history)
    unfolding deliver
    deliver_uses payload len source fd w live finite =
        ground (arith, finite.kept w.history thread_testcancel, finite.kept h told)
      where
        c : Context Place
        c = w.store p

        h : History
        h = (thread_testcancel, os.reply w.history thread_testcancel) ∷ w.history

        told : Call
        told =
            datagram_callback c.p_recv_func c.p_arg
              (take (len % 2 ^ 16) (received payload c.recv_msg)) (kind.sender source)

    recv_round_uses :
        (fd : ℤ) (w : World (Heap Place))
        → FiniteDatagrams os kind.fails fd budget
        → Ready p w × ((w.store p).fd ≡ fd)
        → Returns
            (recv_round os kind p w)
            (λ o w'. o ≡ again → budget w'.history < budget w.history)
    unfolding recv_round
    recv_round_uses fd w finite (ready, same) = ground (
      arith,
      ready.alive,
      same,
      finite.kept w.history thread_testcancel,
      finite.used h comm_buf_size,
      deliver_uses r.payload (pos_part r.value) r.source fd w1 ready.alive finite,
    )
      where
        h : History
        h = (thread_testcancel, os.reply w.history thread_testcancel) ∷ w.history

        r : Reply
        r = os.reply h (recvfrom fd comm_buf_size)

        w1 : World (Heap Place)
        w1 = record w { history = (recvfrom fd comm_buf_size, r) ∷ h }

    -- The rounds of a loop whose descriptor is `fd`.
    rounds_on :
        (fd : ℤ)
        → IsLoop
            (recv_round os kind p)
            (λ w. Ready p w × ((w.store p).fd ≡ fd))
            (RoundDone kind.fails p)
    rounds_on fd = record {
      begin = λ w i. rounds.begin w i.0;
      one = λ w i. rounds.one w i.0;
      next = λ w w1 i d. (rounds.next w w1 i.0 d, d.same_fd ∙ i.1);
      compose = rounds.compose;
    }

    pub recv_task-exits :
        (fuel : ℕ) (w : World (Heap Place))
        → Ready p w
        → FiniteDatagrams os kind.fails (w.store p).fd budget
        → budget w.history < fuel
        → Returns (recv_task os kind fuel p w) (λ e w'. Ended kind p w e w' × (e ≢ running))
    unfolding recv_task recv_loop
    recv_task-exits fuel w r finite enough =
        Returns-bind (recv_loop os kind fuel p) (end_recv os kind p) w
          (λ o w1. RoundDone kind.fails p w o w1 × (o ≢ again)) _
          (loop_ends (rounds_on (w.store p).fd) (λ w0. budget w0.history)
            (λ w0. recv_round_uses (w.store p).fd w0 finite) fuel w (r, refl) enough)
          (λ o w1 x. end_recv_ends w r o w1 x.0 x.1)
