-- ===== src/TcpClient/Termination.antt =====
-- source/comm_tcp_client.c: the receiving thread ends if its server sends finitely much.
use libcomm.Prelude.{
  sym, subst, ℕ, zero, suc, ◌+◌, ◌≤◌, ◌<◌, ◌≡◌, ◌≢◌, refl, arith, List, pos_part, ◌∷◌, take, ◌%◌,
  ◌^◌,
}
use libcomm.Os.{Call, World, Os, History, Reply, recv, thread_testcancel, client_recv_callback}
use libcomm.Memory.{RecvFits}
use libcomm.Returns.{Returns, Returns-both, Returns-bind, Returns-mono}
use libcomm.Threads.{
  Round, again, leave, cancelled, running, proceed, received, comm_buf_size, FiniteStream,
}
use libcomm.TcpClient.{
  Context, Heap, deliver, close_connection, recv_round, recv_loop, end_recv, recv_task,
}
use libcomm.TcpClient.Receive.{Ready, RoundDone, recv_round-RoundDone}
use libcomm.TcpClient.RecvTask.{recv_loop-RoundDone, Connected-Ready}

module _ (os : Os) (fits : RecvFits os) (p : ℕ) (budget : History → ℕ) where
  deliver_uses :
      (payload : List ℕ) (len : ℕ) (w : World Heap)
      → Ready p w
      → FiniteStream os (w.store p).fd budget
      → Returns (deliver os p payload len w) (λ _ w'. budget w'.history ≤ budget w.history)
  unfolding deliver
  deliver_uses payload len w ready finite =
      ground (arith, ready.alive, finite.kept w.history thread_testcancel, finite.kept h told)
    where
      c : Context
      c = w.store p

      h : History
      h = (thread_testcancel, os.reply w.history thread_testcancel) ∷ w.history

      told : Call
      told =
          client_recv_callback c.p_client_recv_func c.p_client_arg
            (take (len % 2 ^ 16) (received payload c.recv_msg))

  recv_round_uses :
      (w : World Heap)
      → Ready p w
      → FiniteStream os (w.store p).fd budget
      → Returns (recv_round os p w) (λ o w'. o ≡ again → budget w'.history < budget w.history)
  unfolding recv_round close_connection
  recv_round_uses w ready finite = ground (
    arith,
    ready.alive,
    ready.runs,
    finite.kept w.history thread_testcancel,
    finite.used h comm_buf_size,
    deliver_uses r.payload (pos_part r.value) w1 ready1 finite,
  )
    where
      h : History
      h = (thread_testcancel, os.reply w.history thread_testcancel) ∷ w.history

      r : Reply
      r = os.reply h (recv (w.store p).fd comm_buf_size)

      w1 : World Heap
      w1 = record w { history = (recv (w.store p).fd comm_buf_size, r) ∷ h }

      ready1 : Ready p w1
      ready1 = record { alive = ready.alive; runs = ready.runs; callback = ready.callback }

  -- Each round of the loop has used up some of the budget.
  abbrev Used : ℕ → World Heap → Round → World Heap → Type 0
  Used fuel w o w' = o ≡ again → budget w'.history + fuel ≤ budget w.history

  recv_loop_uses :
      (fuel : ℕ) (w : World Heap)
      → Ready p w
      → FiniteStream os (w.store p).fd budget
      → Returns (recv_loop os fuel p w) (Used fuel w)
  unfolding recv_loop
  recv_loop_uses zero w ready finite = λ _. omega arith
  recv_loop_uses (suc fuel) w ready finite =
      Returns-bind (recv_round os p) (proceed (recv_loop os fuel p)) w
        (λ o w1. RoundDone p w o w1 × (o ≡ again → budget w1.history < budget w.history))
        (Used (suc fuel) w)
        (Returns-both (recv_round os p w) (RoundDone p w) _ _
          (recv_round-RoundDone os fits p w ready) (recv_round_uses w ready finite)
          (λ o w1 x y. (x, y)))
        (step (recv_loop_uses fuel))
    where
      step :
          ((w1 : World Heap)
            → Ready p w1
            → FiniteStream os (w1.store p).fd budget
            → Returns (recv_loop os fuel p w1) (Used fuel w1))
          → (o : Round) (w1 : World Heap)
          → RoundDone p w o w1 × (o ≡ again → budget w1.history < budget w.history)
          → Returns (proceed (recv_loop os fuel p) o w1) (Used (suc fuel) w)
      step rest again w1 (d, less) =
          Returns-mono (recv_loop os fuel p w1) (Used fuel w1) (Used (suc fuel) w)
            (rest w1 (Connected-Ready p w w1 ready (d.goes_on refl))
              (subst (λ fd. FiniteStream os fd budget) (sym (d.goes_on refl).same_fd) finite))
            (λ o w2 u e. omega (arith, u e, less refl))
      step rest leave w1 x = λ e. cc
      step rest cancelled w1 x = λ e. cc

  -- If the server of an allocated client that is running and has a receive callback sends
  -- finitely much, as a budget that each recv of bytes on its socket lowers, then the receiving
  -- thread ends within more rounds than the budget: its loop is left or the thread cancelled, if
  -- recv writes as many bytes as it says.
  pub client_recv_task_ends :
      (fuel : ℕ) (w : World Heap)
      → Ready p w
      → FiniteStream os (w.store p).fd budget
      → budget w.history < fuel
      → Returns (recv_task os fuel p w) (λ e _. e ≢ running)
  unfolding recv_task end_recv
  client_recv_task_ends fuel w ready finite enough =
      Returns-bind (recv_loop os fuel p) (end_recv os p) w
        (λ o w1. RoundDone p w o w1 × Used fuel w o w1) (λ e _. e ≢ running)
        (Returns-both (recv_loop os fuel p w) (RoundDone p w) (Used fuel w) _
          (recv_loop-RoundDone os fits p fuel w ready) (recv_loop_uses fuel w ready finite)
          (λ o w1 x y. (x, y)))
        ended
    where
      ended :
          (o : Round) (w1 : World Heap)
          → RoundDone p w o w1 × Used fuel w o w1
          → Returns (end_recv os p o w1) (λ e _. e ≢ running)
      ended again w1 (d, u) = absurd (omega (arith, u refl, enough))
      ended cancelled w1 (d, u) = λ e. cc
      ended leave w1 (d, u) = ground (arith, ready.alive, d.steady p)
