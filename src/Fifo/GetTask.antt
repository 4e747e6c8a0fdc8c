-- ===== src/Fifo/GetTask.antt =====
-- source/comm_fifo.c: the thread that reads a pipe, as a whole.
use libcomm.Prelude.{
  ℕ, suc, ◌≤◌, ◌<◌, ◌≡◌, ◌≢◌, refl, sym, ap, ◌∙◌, true, false, arith, ℤ, minus_one, is_positive,
  pos_part, List, ◌∷◌, length, take, ◌%◌, ◌^◌,
}
use libcomm.Os.{World, Os, Call, Reply, History, pure, ◌>>◌, read, get_callback, thread_testcancel}
use libcomm.Memory.{is_live, is_open, update, ReadFits}
use libcomm.Returns.{Returns, Returns-bind, Returns-touch}
use libcomm.Threads.{
  Round, again, leave, cancelled, Ending, exited, running, received, comm_buf_size, loop,
}
use libcomm.Threads.Loop.{IsLoop, loop_ends}
use libcomm.Fifo.{Context, Heap, save, deliver, close_reader, get_round, end_get, get_task}
use libcomm.Fifo.Receive.{payloads, handed, closings, Ready, RoundDone, get_round-RoundDone}

-- The writers send finitely much: each `read` of bytes from `fd` uses up some of a budget.
pub record FinitePipe (os : Os) (fd : ℤ) (budget : History → ℕ) : Type 0 where
  pub used :
      (h : History) (n : ℕ)
      → is_positive (os.reply h (read fd n)).value ≡ true
      → budget ((read fd n, os.reply h (read fd n)) ∷ h) < budget h
  pub kept : (h : History) (c : Call) → budget ((c, os.reply h c) ∷ h) ≤ budget h

-- How the thread ends.
pub record Ended (p : ℕ) (w : World Heap) (e : Ending) (w' : World Heap) : Type 0 where
  pub same_live : (r : ℕ) → is_live w'.history r ≡ is_live w.history r
  pub other_fds : (d : ℤ) → d ≢ (w.store p).fd → is_open w'.history d ≡ is_open w.history d
  pub others : (r : ℕ) → r ≢ p → w'.store r ≡ w.store r
  pub buffer : length (w'.store p).recv_msg ≡ suc comm_buf_size
  pub stops : e ≡ exited → (w'.store p).running ≡ false
  pub shut :
      e ≡ exited → ((w'.store p).fd ≡ minus_one) × (is_open w'.history (w.store p).fd ≡ false)
  pub told :
      e ≡ exited
      → closings (w.store p).p_close_func w'.history
        ≡ suc (closings (w.store p).p_close_func w.history)
  pub hands :
      e ≡ exited
      → handed (w.store p).p_get_func w.history ≡ payloads (w.store p).fd w.history
      → handed (w.store p).p_get_func w'.history ≡ payloads (w.store p).fd w'.history

module _ (os : Os) (fits : ReadFits os) (p : ℕ) where
  rounds : (fd : ℤ) → IsLoop (get_round os p) (λ w. Ready p w × ((w.store p).fd ≡ fd)) (RoundDone p)
  rounds fd = record {
    begin = λ w i. record {
      same_live = λ _. refl;
      other_fds = λ _ _. refl;
      others = λ _ _. refl;
      same_get = refl;
      same_close = refl;
      runs = λ _. (i.0.runs, refl);
      shut = λ e. absurd (ground arith);
      told = omega arith;
      buffer = i.0.buffer;
      hands = λ _ h. h;
    };
    one = λ w i. get_round-RoundDone os fits p w i.0;
    next = λ w w1 i d. (
      record {
        alive = d.same_live p ∙ i.0.alive;
        runs = (d.runs refl).0;
        get_set = λ z. i.0.get_set (sym d.same_get ∙ z);
        close_set = λ z. i.0.close_set (sym d.same_close ∙ z);
        buffer = d.buffer;
      },
      (d.runs refl).1 ∙ i.1,
    );
    compose = λ w w1 o w' d e. record {
      same_live = λ r. e.same_live r ∙ d.same_live r;
      other_fds = λ x n. e.other_fds x (λ z. n (z ∙ (d.runs refl).1)) ∙ d.other_fds x n;
      others = λ r h. e.others r h ∙ d.others r h;
      same_get = e.same_get ∙ d.same_get;
      same_close = e.same_close ∙ d.same_close;
      runs = λ z. ((e.runs z).0, (e.runs z).1 ∙ (d.runs refl).1);
      shut = λ z. ground (arith, e.shut z, d.runs refl);
      told = ground (arith, e.told, d.told, d.same_close);
      buffer = e.buffer;
      hands = λ n h. ground (arith, e.hands n, d.hands (λ c. cc) h, d.same_get, d.runs refl);
    };
  }

  end_get-Ended :
      (w : World Heap)
      → Ready p w
      → (o : Round) (w1 : World Heap) → RoundDone p w o w1
      → o ≢ again
      → Returns (end_get os p o w1) (λ e w'. Ended p w e w' × (e ≢ running))
  unfolding end_get
  end_get-Ended w r again w1 d n = absurd (n refl)
  end_get-Ended w r cancelled w1 d n = (
    record {
      same_live = d.same_live;
      other_fds = d.other_fds;
      others = d.others;
      buffer = d.buffer;
      stops = λ e. cc;
      shut = λ e. absurd (ground (arith, e));
      told = λ e. absurd (ground (arith, e));
      hands = λ e. absurd (ground (arith, e));
    },
    λ e. cc,
  )
  end_get-Ended w r leave w1 d n =
      Returns-touch p (λ w0. (w0.store p, w0))
        (λ c. save p (record c { running = false }) >> pure exited) w1 _ live
        (Returns-touch p (λ w0. (tt, record w0 { store = update w0.store p ended }))
          (λ _. pure exited) w1 _ live (done, λ e. cc))
    where
      live : is_live w1.history p ≡ true
      live = d.same_live p ∙ r.alive

      ended : Context
      ended = record (w1.store p) { running = false }

      self : update w1.store p ended p ≡ ended
      self = ground arith

      done : Ended p w exited (record w1 { store = update w1.store p ended })
      done = record {
        same_live = d.same_live;
        other_fds = d.other_fds;
        others = λ x h. ground (arith, d.others x h);
        buffer = ap (λ (c : Context). length c.recv_msg) self ∙ d.buffer;
        stops = λ _. ap (λ (c : Context). c.running) self;
        shut = λ _. (ap (λ (c : Context). c.fd) self ∙ (d.shut refl).0, (d.shut refl).1);
        told = λ _. omega (arith, d.told);
        hands = λ _. d.hands (λ c. cc);
      }

  module _ (budget : History → ℕ) where
    deliver_uses :
        (payload : List ℕ) (len : ℕ) (fd : ℤ) (w : World Heap)
        → is_live w.history p ≡ true
        → FinitePipe os fd budget
        → Returns (deliver os p payload len w) (λ _ w'. budget w'.history ≤ budget w.history)
    unfolding deliver
    deliver_uses payload len fd w live finite =
        ground (arith, finite.kept w.history thread_testcancel, finite.kept h told)
      where
        c : Context
        c = w.store p

        h : History
        h = (thread_testcancel, os.reply w.history thread_testcancel) ∷ w.history

        told : Call
        told = get_callback c.p_get_func c.p_arg (take (len % 2 ^ 16) (received payload c.recv_msg))

    close_reader_leaves :
        (len : ℤ) (w : World Heap)
        → is_live w.history p ≡ true
        → Returns (close_reader os p len w) (λ o _. o ≡ leave)
    unfolding close_reader
    close_reader_leaves len w live = ground arith

    get_round_uses :
        (fd : ℤ) (w : World Heap)
        → FinitePipe os fd budget
        → Ready p w × ((w.store p).fd ≡ fd)
        → Returns (get_round os p w) (λ o w'. o ≡ again → budget w'.history < budget w.history)
    unfolding get_round
    get_round_uses fd w finite (ready, same) = ground (
      arith,
      ready.alive,
      same,
      finite.kept w.history thread_testcancel,
      finite.used h comm_buf_size,
      deliver_uses r.payload (pos_part r.value) fd w1 ready.alive finite,
      close_reader_leaves r.value w1 ready.alive,
    )
      where
        h : History
        h = (thread_testcancel, os.reply w.history thread_testcancel) ∷ w.history

        r : Reply
        r = os.reply h (read fd comm_buf_size)

        w1 : World Heap
        w1 = record w { history = (read fd comm_buf_size, r) ∷ h }

    -- Take the allocated reading end of a pipe that is running and has both callbacks, where read
    -- writes as many bytes as it says and at most those asked for. If its writers send finitely
    -- much, as a budget that each read of bytes on its descriptor lowers, its thread meets no
    -- fault and ends within more rounds than the budget: its loop is left or the thread
    -- cancelled. It allocates and frees nothing, opens and closes no other descriptor, changes no
    -- other context and keeps the size of its buffer. If it leaves its loop, the end is not
    -- running, its descriptor was closed and is -1, the close callback was called exactly once,
    -- and the messages handed to the application are those read if they were before.
    pub fifo_get_task_ends :
        (fuel : ℕ) (w : World Heap)
        → Ready p w
        → FinitePipe os (w.store p).fd budget
        → budget w.history < fuel
        → Returns (get_task os fuel p w) (λ e w'. Ended p w e w' × (e ≢ running))
    unfolding get_task
    fifo_get_task_ends fuel w r finite enough =
        Returns-bind (loop (get_round os p) fuel) (end_get os p) w
          (λ o w1. RoundDone p w o w1 × (o ≢ again)) _
          (loop_ends (rounds (w.store p).fd) (λ w0. budget w0.history)
            (λ w0. get_round_uses (w.store p).fd w0 finite) fuel w (r, refl) enough)
          (λ o w1 x. end_get-Ended w r o w1 x.0 x.1)
