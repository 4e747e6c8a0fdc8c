-- ===== src/TcpServer/Termination.antt =====
-- source/comm_tcp_server.c: the receiving thread ends if its client sends finitely much.
use libcomm.Prelude.{
  sym, subst, ℕ, zero, suc, ◌+◌, ◌≤◌, ◌<◌, ◌≡◌, ◌≢◌, refl, arith, List, pos_part, ◌∷◌, take, ◌%◌,
  ◌^◌, ◌∙◌,
}
use libcomm.Os.{
  Call, World, Os, History, Reply, recv, thread_testcancel, recv_callback, ◌>>=◌, pure,
}
use libcomm.Memory.{RecvFits}
use libcomm.Returns.{Returns, Returns-both, Returns-bind, Returns-mono, Returns-touch}
use libcomm.Threads.{
  Round, again, leave, cancelled, running, exited, proceed, received, comm_buf_size, FiniteStream,
}
use libcomm.TcpServer.{Context, User, Heap, disconnect_client}
use libcomm.TcpServer.Tasks.{deliver, close_connection, recv_round, recv_loop, end_recv, recv_task}
use libcomm.TcpServer.RecvTask.{Ready, Steady-Ready, Done, round-Done, recv_loop-Done}
use libcomm.TcpServer.RecvEnd.{Quiet, disconnect_client-Quiet}

module _ (os : Os) (fits : RecvFits os) (p q : ℕ) (budget : History → ℕ) where
  deliver_uses :
      (payload : List ℕ) (len : ℕ) (w : World Heap)
      → Ready p q w
      → FiniteStream os (w.store.users q).fd budget
      → Returns (deliver os q payload len w) (λ _ w'. budget w'.history ≤ budget w.history)
  unfolding deliver
  deliver_uses payload len w ready finite = ground (
    arith,
    ready.user_live,
    ready.server_live,
    ready.mine,
    finite.kept w.history thread_testcancel,
    finite.kept h told,
  )
    where
      u : User
      u = w.store.users q

      c : Context
      c = w.store.contexts p

      h : History
      h = (thread_testcancel, os.reply w.history thread_testcancel) ∷ w.history

      told : Call
      told =
          recv_callback c.p_server_recv_func c.p_server_arg q
            (take (len % 2 ^ 16) (received payload u.recv_msg))

  recv_round_uses :
      (w : World Heap)
      → Ready p q w
      → FiniteStream os (w.store.users q).fd budget
      → Returns (recv_round os q w) (λ o w'. o ≡ again → budget w'.history < budget w.history)
  unfolding recv_round close_connection
  recv_round_uses w ready finite = ground (
    arith,
    ready.user_live,
    ready.server_live,
    ready.mine,
    finite.kept w.history thread_testcancel,
    finite.used h comm_buf_size,
    deliver_uses r.payload (pos_part r.value) w1 ready1 finite,
  )
    where
      h : History
      h = (thread_testcancel, os.reply w.history thread_testcancel) ∷ w.history

      r : Reply
      r = os.reply h (recv (w.store.users q).fd comm_buf_size)

      w1 : World Heap
      w1 = record w { history = (recv (w.store.users q).fd comm_buf_size, r) ∷ h }

      ready1 : Ready p q w1
      ready1 = record {
        user_live = ready.user_live;
        mine = ready.mine;
        server_live = ready.server_live;
        callback = ready.callback;
      }

  -- Each round of the loop has used up some of the budget.
  abbrev Used : ℕ → World Heap → Round → World Heap → Type 0
  Used fuel w o w' = o ≡ again → budget w'.history + fuel ≤ budget w.history

  recv_loop_uses :
      (fuel : ℕ) (w : World Heap)
      → Ready p q w
      → FiniteStream os (w.store.users q).fd budget
      → Returns (recv_loop os fuel q w) (Used fuel w)
  unfolding recv_loop
  recv_loop_uses zero w ready finite = λ _. omega arith
  recv_loop_uses (suc fuel) w ready finite =
      Returns-bind (recv_round os q) (proceed (recv_loop os fuel q)) w
        (λ o w1. Done os fits p q w o w1 × (o ≡ again → budget w1.history < budget w.history))
        (Used (suc fuel) w)
        (Returns-both (recv_round os q w) (Done os fits p q w) _ _ (round-Done os fits p q w ready)
          (recv_round_uses w ready finite) (λ o w1 x y. (x, y)))
        (step (recv_loop_uses fuel))
    where
      step :
          ((w1 : World Heap)
            → Ready p q w1
            → FiniteStream os (w1.store.users q).fd budget
            → Returns (recv_loop os fuel q w1) (Used fuel w1))
          → (o : Round) (w1 : World Heap)
          → Done os fits p q w o w1 × (o ≡ again → budget w1.history < budget w.history)
          → Returns (proceed (recv_loop os fuel q) o w1) (Used (suc fuel) w)
      step rest again w1 (d, less) =
          Returns-mono (recv_loop os fuel q w1) (Used fuel w1) (Used (suc fuel) w)
            (rest w1 (Steady-Ready d.0.steady ready)
              (subst (λ fd. FiniteStream os fd budget) (sym (d.0.goes_on refl)) finite))
            (λ o w2 u e. omega (arith, u e, less refl))
      step rest leave w1 x = λ e. cc
      step rest cancelled w1 x = λ e. cc

  -- If the client of an allocated user at q, which is not NULL, sends finitely much, as a budget
  -- that each recv of bytes on the user's socket lowers, then the receiving thread of a server
  -- with a receive callback ends within more rounds than the budget: its loop is left or the
  -- thread cancelled, if recv writes as many bytes as it says.
  pub server_recv_task_ends :
      (fuel : ℕ) (w : World Heap)
      → Ready p q w
      → FiniteStream os (w.store.users q).fd budget
      → budget w.history < fuel
      → q ≢ 0
      → Returns (recv_task os fuel q w) (λ e _. e ≢ running)
  unfolding recv_task end_recv
  server_recv_task_ends fuel w ready finite enough nz =
      Returns-touch q (λ w1. (w1.store.users q, w1))
        (λ u w2. (recv_loop os fuel q >>= end_recv os u.p_server q) w2) w (λ e _. e ≢ running)
        ready.user_live (rw ready.mine looped)
    where
      ended :
          (o : Round) (w1 : World Heap)
          → Done os fits p q w o w1 × Used fuel w o w1
          → Returns (end_recv os p q o w1) (λ e _. e ≢ running)
      ended again w1 (d, u) = absurd (omega (arith, u refl, enough))
      ended cancelled w1 (d, u) = λ e. cc
      ended leave w1 (d, u) =
          Returns-bind (disconnect_client os p q) (λ _. pure exited) w1 (λ _. Quiet q w1)
            (λ e _. e ≢ running)
            (disconnect_client-Quiet os p q w1 nz (d.0.steady.live p ∙ ready.server_live)
              (d.0.steady.live q ∙ ready.user_live))
            (λ _ w2 x e. cc)

      looped : Returns ((recv_loop os fuel q >>= end_recv os p q) w) (λ e _. e ≢ running)
      looped =
          Returns-bind (recv_loop os fuel q) (end_recv os p q) w
            (λ o w1. Done os fits p q w o w1 × Used fuel w o w1) (λ e _. e ≢ running)
            (Returns-both (recv_loop os fuel q w) (Done os fits p q w) (Used fuel w) _
              (recv_loop-Done os fits p q fuel w ready) (recv_loop_uses fuel w ready finite)
              (λ o w1 x y. (x, y)))
            ended
