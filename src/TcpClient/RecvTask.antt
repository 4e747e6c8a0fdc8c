-- ===== src/TcpClient/RecvTask.antt =====
-- source/comm_tcp_client.c: the receiving thread as a whole, over any number of rounds.
use libcomm.Prelude.{ℕ, zero, suc, ◌≡◌, refl, sym, ◌∙◌, false, arith}
use libcomm.Os.{World, Os}
use libcomm.Memory.{is_live, RecvFits}
use libcomm.Returns.{Returns, Returns-bind, Returns-mono}
use libcomm.Threads.{Round, again, leave, cancelled, Ending, exited, proceed}
use libcomm.TcpClient.{Heap, recv_round, recv_loop, end_recv, recv_task}
use libcomm.TcpClient.Receive.{Connected, Closed, RoundDone, Ready, recv_round-RoundDone}

Connected-refl : (p : ℕ) (w : World Heap) → Ready p w → Connected p w w
Connected-refl p w r = record {
  live = λ _. refl;
  others = λ _ _. refl;
  same_fd = refl;
  same_recv = refl;
  same_exit = refl;
  runs = r.runs;
  no_exit = refl;
  hands = λ h. h;
}

pub Connected-Ready : (p : ℕ) (w w' : World Heap) → Ready p w → Connected p w w' → Ready p w'
Connected-Ready p w w' r c = record {
  alive = c.live p ∙ r.alive;
  runs = c.runs;
  callback = λ z. r.callback (sym c.same_recv ∙ z);
}

Connected-trans :
    (p : ℕ) (w w1 w' : World Heap) → Connected p w w1 → Connected p w1 w' → Connected p w w'
Connected-trans p w w1 w' c d = record {
  live = λ r. d.live r ∙ c.live r;
  others = λ r h. d.others r h ∙ c.others r h;
  same_fd = d.same_fd ∙ c.same_fd;
  same_recv = d.same_recv ∙ c.same_recv;
  same_exit = d.same_exit ∙ c.same_exit;
  runs = d.runs;
  no_exit = ground (arith, d.no_exit, c.no_exit, c.same_exit);
  hands = λ h. ground (arith, d.hands, c.hands h, c.same_recv, c.same_fd);
}

Connected-Closed :
    (p : ℕ) (w w1 w' : World Heap) → Connected p w w1 → Closed p w1 w' → Closed p w w'
Connected-Closed p w w1 w' c d = record {
  live = λ r. d.live r ∙ c.live r;
  others = λ r h. d.others r h ∙ c.others r h;
  no_fd = d.no_fd;
  closed = rw (← c.same_fd) d.closed;
  told = λ h. ground (arith, d.told, c.no_exit, c.same_exit);
  delivered = λ h. ground (arith, d.delivered, c.hands h, c.same_recv, c.same_fd);
}

module _ (os : Os) (fits : RecvFits os) (p : ℕ) where
  pub recv_loop-RoundDone :
      (fuel : ℕ) (w : World Heap) → Ready p w → Returns (recv_loop os fuel p w) (RoundDone p w)
  unfolding recv_loop
  recv_loop-RoundDone zero w r = record {
    goes_on = λ _. Connected-refl p w r;
    ends = λ e. cc;
    steady = λ _. refl;
  }
  recv_loop-RoundDone (suc fuel) w r =
      Returns-bind (recv_round os p) (proceed (recv_loop os fuel p)) w (RoundDone p w)
        (RoundDone p w) (recv_round-RoundDone os fits p w r) (step (recv_loop-RoundDone fuel))
    where
      further :
          (w1 : World Heap)
          → Connected p w w1
          → (o : Round) (w' : World Heap) → RoundDone p w1 o w'
          → RoundDone p w o w'
      further w1 c o w' d = record {
        goes_on = λ e. Connected-trans p w w1 w' c (d.goes_on e);
        ends = λ e. Connected-Closed p w w1 w' c (d.ends e);
        steady = λ x. d.steady x ∙ c.live x;
      }

      step :
          ((w1 : World Heap) → Ready p w1 → Returns (recv_loop os fuel p w1) (RoundDone p w1))
          → (o : Round) (w1 : World Heap) → RoundDone p w o w1
          → Returns (proceed (recv_loop os fuel p) o w1) (RoundDone p w)
      step rest again w1 d =
          Returns-mono (recv_loop os fuel p w1) (RoundDone p w1) (RoundDone p w)
            (rest w1 (Connected-Ready p w w1 r (d.goes_on refl))) (further w1 (d.goes_on refl))
      step rest leave w1 d = d
      step rest cancelled w1 d = d

  -- What the application and the client see when the thread ends.
  abbrev pub Ended : World Heap → Ending → World Heap → Type 0
  Ended w e w' =
      ((r : ℕ) → is_live w'.history r ≡ is_live w.history r)
      × (e ≡ exited → Closed p w w' × ((w'.store p).running ≡ false))

  -- The receiving thread of an allocated client that is running and has a receive callback meets
  -- no fault for any number of rounds, if recv writes as many bytes as it says, and allocates and
  -- frees nothing. If it leaves its loop, the client is not running, its socket is closed and its
  -- descriptor -1, no other client has changed, the exit callback was called exactly once if
  -- there is one, and the messages handed to the application are those received if they were
  -- before.
  pub recv_task_closes :
      (fuel : ℕ) (w : World Heap) → Ready p w → Returns (recv_task os fuel p w) (Ended w)
  unfolding recv_task end_recv
  recv_task_closes fuel w r =
      Returns-bind (recv_loop os fuel p) (end_recv os p) w (RoundDone p w) (Ended w)
        (recv_loop-RoundDone fuel w r) ended
    where
      ended :
          (o : Round) (w1 : World Heap)
          → RoundDone p w o w1
          → Returns (end_recv os p o w1) (Ended w)
      ended again w1 d = (d.steady, λ e. cc)
      ended cancelled w1 d = (d.steady, λ e. cc)
      ended leave w1 d = ground (arith, r.alive, d.steady p, d.ends refl)
