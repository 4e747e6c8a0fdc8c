-- ===== src/IpcStreamServer/Spin.antt =====
-- source/comm_ipc_stream.c: what the receiving thread of a server does once its client is gone.
use libcomm.Prelude.{
  ℕ, zero, suc, ◌+◌, ◌≡◌, ◌≢◌, refl, ◌∙◌, true, false, arith, ℤ, pos, is_positive, List, [], ◌∷◌,
  ◌==◌, Bool, ◌&&◌, if◌then◌else◌,
}
use libcomm.Os.{
  World, Os, Call, History, ◌>>=◌, recv, recv_callback, thread_testcancel, is_cancelled,
}
use libcomm.Memory.{is_live}
use libcomm.Returns.{Returns, Returns-bind, Returns-mono, Returns-touch}
use libcomm.Threads.{Round, again, leave, cancelled, running, proceed, loop, comm_buf_size}
use libcomm.TcpServer.{Heap}
use libcomm.TcpServer.Tasks as TcpTasks
use libcomm.IpcStreamServer.Tasks.{recv_round, end_recv, recv_task}

-- The client on `fd` has closed its connection, and no thread is cancelled.
pub record Gone (os : Os) (fd : ℤ) : Type 0 where
  pub nothing :
      (h : History) (n : ℕ)
      → ((os.reply h (recv fd n)).value ≡ pos 0) × ((os.reply h (recv fd n)).payload ≡ [])
  pub left_alone : (h : History) → is_cancelled (os.reply h thread_testcancel) ≡ false

-- How often the callback `f` was handed an empty message of the user at `q`.
abbrev pub is_empty : List ℕ → Bool
is_empty [] = true
is_empty (x ∷ xs) = false

abbrev pub empty_call : Call → ℕ → ℕ → ℕ
empty_call (recv_callback g arg r message) f q =
    if (g == f) && ((r == q) && is_empty message) then 1 else 0
empty_call _ f q = 0

abbrev pub empties : ℕ → ℕ → History → ℕ
empties f q [] = 0
empties f q ((c, r) ∷ h) = empty_call c f q + empties f q h

-- A user that is connected to the server at `p`, which has a receive callback.
pub record Connected (p q : ℕ) (fd : ℤ) (w : World Heap) : Type 0 where
  pub alive : is_live w.history q ≡ true
  pub server_alive : is_live w.history p ≡ true
  pub mine : (w.store.users q).p_server ≡ p
  pub its_fd : (w.store.users q).fd ≡ fd
  pub callback : (w.store.contexts p).p_server_recv_func ≢ 0

-- The thread has done `n` rounds for nothing: the user is still connected, no context has changed.
pub record Spun (p q : ℕ) (fd : ℤ) (n : ℕ) (w w' : World Heap) : Type 0 where
  pub still : Connected p q fd w'
  pub same_contexts : w'.store.contexts ≡ w.store.contexts
  pub count :
      empties (w.store.contexts p).p_server_recv_func q w'.history
      ≡ n + empties (w.store.contexts p).p_server_recv_func q w.history

module _ (os : Os) (p q : ℕ) (fd : ℤ) (positive : is_positive fd ≡ true) (gone : Gone os fd) where
  deliver-Spun :
      (w : World Heap)
      → Connected p q fd w
      → Returns (TcpTasks.deliver os q [] 0 w) (λ o w'. (o ≡ again) × Spun p q fd 1 w w')
  unfolding TcpTasks.deliver
  deliver-Spun w c =
      ground
        (arith, c.alive, c.server_alive, c.mine, c.its_fd, c.callback, gone.left_alone w.history)

  recv_round-Spun :
      (w : World Heap)
      → Connected p q fd w
      → Returns (recv_round os q w) (λ o w'. (o ≡ again) × Spun p q fd 1 w w')
  unfolding recv_round
  recv_round-Spun w c = ground (
    arith,
    c.alive,
    c.its_fd,
    positive,
    gone.left_alone w.history,
    gone.nothing h comm_buf_size,
    deliver-Spun w1 connected,
  )
    where
      h : History
      h = (thread_testcancel, os.reply w.history thread_testcancel) ∷ w.history

      w1 : World Heap
      w1 = record w { history = (recv fd comm_buf_size, os.reply h (recv fd comm_buf_size)) ∷ h }

      connected : Connected p q fd w1
      connected = record {
        alive = c.alive;
        server_alive = c.server_alive;
        mine = c.mine;
        its_fd = c.its_fd;
        callback = c.callback;
      }

  Spun-add :
      (n : ℕ) (w w1 w' : World Heap)
      → Spun p q fd 1 w w1
      → Spun p q fd n w1 w'
      → Spun p q fd (suc n) w w'
  Spun-add n w w1 w' s t = record {
    still = t.still;
    same_contexts = t.same_contexts ∙ s.same_contexts;
    count = ground (arith, s.count, t.count, s.same_contexts);
  }

  loop-Spun :
      (fuel : ℕ) (w : World Heap)
      → Connected p q fd w
      → Returns (loop (recv_round os q) fuel w) (λ o w'. (o ≡ again) × Spun p q fd fuel w w')
  unfolding loop
  loop-Spun zero w c = (refl, record { still = c; same_contexts = refl; count = omega arith })
  loop-Spun (suc fuel) w c =
      Returns-bind (recv_round os q) (proceed (loop (recv_round os q) fuel)) w
        (λ o w1. (o ≡ again) × Spun p q fd 1 w w1)
        (λ o w'. (o ≡ again) × Spun p q fd (suc fuel) w w') (recv_round-Spun w c)
        (step (loop-Spun fuel))
    where
      step :
          ((w1 : World Heap)
            → Connected p q fd w1
            → Returns
                (loop (recv_round os q) fuel w1)
                (λ o w'. (o ≡ again) × Spun p q fd fuel w1 w'))
          → (o : Round) (w1 : World Heap) → (o ≡ again) × Spun p q fd 1 w w1
          → Returns
              (proceed (loop (recv_round os q) fuel) o w1)
              (λ o' w'. (o' ≡ again) × Spun p q fd (suc fuel) w w')
      step rest again w1 (_, s) =
          Returns-mono (loop (recv_round os q) fuel w1) _ _ (rest w1 s.still)
            (λ o w' x. (x.0, Spun-add fuel w w1 w' s x.1))
      step rest leave w1 (e, _) = absurd (ground (arith, e))
      step rest cancelled w1 (e, _) = absurd (ground (arith, e))

  -- Take a user of a server on a UNIX socket, both allocated, with a positive descriptor and a
  -- receive callback. If recv on that descriptor gives 0 from now on, which is what it gives once
  -- the client has closed its connection, and the thread is never cancelled, then its receiving
  -- thread never ends: after any number of rounds it is still running, the user is still
  -- connected, no context has changed, and the callback was handed one empty message of the user
  -- in each round.
  pub ipc_recv_task_spins :
      (fuel : ℕ) (w : World Heap)
      → Connected p q fd w
      → Returns (recv_task os fuel q w) (λ e w'. (e ≡ running) × Spun p q fd fuel w w')
  unfolding recv_task end_recv
  ipc_recv_task_spins fuel w c =
      Returns-touch q (λ w0. (w0.store.users q, w0))
        (λ u. loop (recv_round os q) fuel >>= end_recv os u.p_server q) w
        (λ e w'. (e ≡ running) × Spun p q fd fuel w w') c.alive
        (Returns-bind (loop (recv_round os q) fuel) (end_recv os (w.store.users q).p_server q) w
          (λ o w1. (o ≡ again) × Spun p q fd fuel w w1)
          (λ e w'. (e ≡ running) × Spun p q fd fuel w w') (loop-Spun fuel w c) ended)
    where
      ended :
          (o : Round) (w1 : World Heap)
          → (o ≡ again) × Spun p q fd fuel w w1
          → Returns
              (end_recv os (w.store.users q).p_server q o w1)
              (λ e w'. (e ≡ running) × Spun p q fd fuel w w')
      ended o w1 x = rw (x.0, end_recv) (refl, x.1)
