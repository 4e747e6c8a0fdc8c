-- ===== src/Uart/RecvTask.antt =====
-- source/comm_uart.c: the thread that reads a device.
use libcomm.Prelude.{
  ℕ, suc, ◌≤◌, ◌≡◌, ◌≢◌, refl, sym, ap, subst, ◌∙◌, true, false, arith, ℤ, pos_part, List, [], ◌∷◌,
  length, take, set, length-set, ◌%◌, ◌^◌, zero, drop, take-append,
}
use libcomm.Os.{World, Os, Reply, History, read, thread_testcancel}
use libcomm.Memory.{is_live, is_open, ReadFits}
use libcomm.Returns.{Returns, Returns-bind}
use libcomm.Threads.{
  Round, again, leave, cancelled, exited, received, comm_buf_size, loop, length-received,
}
use libcomm.Threads.Loop.{IsLoop, loop-Rel}
use libcomm.Fifo.Receive.{payloads, handed}
use libcomm.Uart.{
  Heap, end_round, wait_again, stop_running, deliver, recv_round, end_recv, recv_task,
}

-- What the thread of the device at `p` relies on.
pub record Ready (p : ℕ) (w : World Heap) : Type 0 where
  pub alive : is_live w.history p ≡ true
  pub callback : (w.store p).p_recv_func ≢ 0
  pub buffer : length (w.store p).recv_msg ≡ suc comm_buf_size

-- Some rounds of the thread.
pub record RoundDone (p : ℕ) (w : World Heap) (o : Round) (w' : World Heap) : Type 0 where
  pub same_live : (r : ℕ) → is_live w'.history r ≡ is_live w.history r
  pub same_open : (d : ℤ) → is_open w'.history d ≡ is_open w.history d
  pub others : (r : ℕ) → r ≢ p → w'.store r ≡ w.store r
  pub same_fd : (w'.store p).fd ≡ (w.store p).fd
  pub same_func : (w'.store p).p_recv_func ≡ (w.store p).p_recv_func
  pub buffer : length (w'.store p).recv_msg ≡ suc comm_buf_size
  pub hands :
      handed (w.store p).p_recv_func w.history ≡ payloads (w.store p).fd w.history
      → handed (w.store p).p_recv_func w'.history ≡ payloads (w.store p).fd w'.history

-- A write at the place `n` leaves the first `n` items as they are.
take-set : (n : ℕ) (xs : List ℕ) (v : ℕ) → take n (set xs n v) ≡ take n xs
take-set zero xs v = refl
take-set (suc n) [] v = refl
take-set (suc n) (x ∷ xs) v = ap (λ r. x ∷ r) (take-set n xs v)

-- The terminator is written past the message.
take-terminated :
    (payload buffer : List ℕ)
    → length payload ≤ comm_buf_size
    → take (length payload % 2 ^ 16) (set (received payload buffer) (length payload) 0) ≡ payload
take-terminated payload buffer h =
    subst (λ n. take n (set (received payload buffer) (length payload) 0) ≡ payload) (omega arith)
      (take-set (length payload) (received payload buffer) 0
        ∙ take-append payload (drop (length payload) buffer))

module _ (os : Os) (fits : ReadFits os) (p : ℕ) where
  deliver_outcome :
      (payload : List ℕ) (len : ℕ) (w : World Heap)
      → Ready p w
      → length payload ≡ len
      → len ≤ comm_buf_size
      → Returns (deliver os p payload len w) (λ o w'.
        ((r : ℕ) → is_live w'.history r ≡ is_live w.history r)
        × ((d : ℤ) → is_open w'.history d ≡ is_open w.history d)
        × ((r : ℕ) → r ≢ p → w'.store r ≡ w.store r)
        × ((w'.store p).fd ≡ (w.store p).fd)
        × ((w'.store p).p_recv_func ≡ (w.store p).p_recv_func)
        × (length (w'.store p).recv_msg ≡ suc comm_buf_size)
        × (payloads (w.store p).fd w'.history ≡ payloads (w.store p).fd w.history)
        × (handed (w.store p).p_recv_func w'.history
            ≡ payload ∷ handed (w.store p).p_recv_func w.history))
  unfolding deliver end_round
  deliver_outcome payload len w ready measured fit = ground (
    arith,
    ready.alive,
    ready.callback,
    ready.buffer,
    length-received payload (w.store p).recv_msg (omega (arith, measured, ready.buffer)),
    length-set (received payload (w.store p).recv_msg) len 0,
    subst (λ n. take (n % 2 ^ 16) (set (received payload (w.store p).recv_msg) n 0) ≡ payload)
        measured (take-terminated payload (w.store p).recv_msg (omega arith)),
  )

  abbrev asked : World Heap → History
  asked w = (thread_testcancel, os.reply w.history thread_testcancel) ∷ w.history

  recv_round-RoundDone : (w : World Heap) → Ready p w → Returns (recv_round os p w) (RoundDone p w)
  unfolding recv_round wait_again stop_running end_round
  recv_round-RoundDone w ready = ground (
    arith,
    ready.alive,
    ready.buffer,
    deliver_outcome r.payload (pos_part r.value) w1 ready1,
    fits (asked w) (w.store p).fd comm_buf_size (pos_part r.value),
  )
    where
      r : Reply
      r = os.reply (asked w) (read (w.store p).fd comm_buf_size)

      w1 : World Heap
      w1 = record w { history = (read (w.store p).fd comm_buf_size, r) ∷ asked w }

      ready1 : Ready p w1
      ready1 = record { alive = ready.alive; callback = ready.callback; buffer = ready.buffer }

  rounds : IsLoop (recv_round os p) (Ready p) (RoundDone p)
  rounds = record {
    begin = λ w r. record {
      same_live = λ _. refl;
      same_open = λ _. refl;
      others = λ _ _. refl;
      same_fd = refl;
      same_func = refl;
      buffer = r.buffer;
      hands = λ h. h;
    };
    one = recv_round-RoundDone;
    next = λ w w1 r d. record {
      alive = d.same_live p ∙ r.alive;
      callback = λ z. r.callback (sym d.same_func ∙ z);
      buffer = d.buffer;
    };
    compose = λ w w1 o w' d e. record {
      same_live = λ r. e.same_live r ∙ d.same_live r;
      same_open = λ x. e.same_open x ∙ d.same_open x;
      others = λ r h. e.others r h ∙ d.others r h;
      same_fd = e.same_fd ∙ d.same_fd;
      same_func = e.same_func ∙ d.same_func;
      buffer = e.buffer;
      hands = λ h. ground (arith, e.hands, d.hands h, d.same_func, d.same_fd);
    };
  }

  any_round :
      (w : World Heap) (o : Round) (w' : World Heap) → RoundDone p w o w' → RoundDone p w again w'
  any_round w o w' d = record {
    same_live = d.same_live;
    same_open = d.same_open;
    others = d.others;
    same_fd = d.same_fd;
    same_func = d.same_func;
    buffer = d.buffer;
    hands = d.hands;
  }

  end_recv_outcome :
      (w : World Heap)
      → Ready p w
      → (o : Round) (w1 : World Heap) → RoundDone p w o w1
      → Returns
          (end_recv os p o w1)
          (λ e w'. RoundDone p w again w' × (e ≡ exited → (w'.store p).running ≡ false))
  unfolding end_recv
  end_recv_outcome w r again w1 d = (d, λ e. cc)
  end_recv_outcome w r cancelled w1 d = (any_round w cancelled w1 d, λ e. cc)
  end_recv_outcome w r leave w1 d =
      let live : is_live w1.history p ≡ true = d.same_live p ∙ r.alive in
      ground
        (arith, live, d.same_fd, d.same_func, d.buffer, d.hands, d.same_live, d.same_open, d.others)

  -- The thread of an allocated serial device with a callback meets no fault for any number of
  -- rounds, if read writes as many bytes as it says and at most those asked for: the terminator
  -- past a message stays inside the buffer. It allocates, frees, opens and closes nothing,
  -- changes no other device and keeps its descriptor, its callback and the size of its buffer.
  -- However it ends, the messages handed to the application are those read if they were before;
  -- if it leaves its loop, the device is not running.
  pub uart_recv_task_outcome :
      (fuel : ℕ) (w : World Heap)
      → Ready p w
      → Returns
          (recv_task os fuel p w)
          (λ e w'. RoundDone p w again w' × (e ≡ exited → (w'.store p).running ≡ false))
  unfolding recv_task
  uart_recv_task_outcome fuel w r =
      Returns-bind (loop (recv_round os p) fuel) (end_recv os p) w (RoundDone p w) _
        (loop-Rel rounds fuel w r) (end_recv_outcome w r)
