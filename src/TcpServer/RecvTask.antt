-- ===== src/TcpServer/RecvTask.antt =====
-- source/comm_tcp_server.c: the receiving thread as a whole, over any number of rounds.
use libcomm.Prelude.{ℕ, zero, suc, ◌≡◌, ◌≢◌, refl, ap, sym, subst, ◌∙◌, true, arith}
use libcomm.Os.{World, Os}
use libcomm.Memory.{is_live, RecvFits}
use libcomm.Returns.{Returns, Returns-mono, Returns-both, Returns-bind}
use libcomm.TcpServer.{Context, Heap}
use libcomm.TcpServer.Tasks.{Round, again, leave, cancelled, proceed, recv_round, recv_loop}
use libcomm.TcpServer.Receive.{
  Steady, RoundDone, handed, payloads, recv_round_outcome, recv_round_hands,
}

-- What the messages handed over have in common with those received, across some rounds.
abbrev pub Hands : ℕ → ℕ → World Heap → Round → World Heap → Type 0
Hands p q w o w' =
    let f = (w.store.contexts p).p_server_recv_func in
    let fd = (w.store.users q).fd in
    o ≢ cancelled
    → handed f q w.history ≡ payloads fd w.history
    → handed f q w'.history ≡ payloads fd w'.history

-- What the thread of the user at `q` of the server at `p` relies on.
pub record Ready (p q : ℕ) (w : World Heap) : Type 0 where
  pub user_live : is_live w.history q ≡ true
  pub mine : (w.store.users q).p_server ≡ p
  pub server_live : is_live w.history p ≡ true
  pub callback : (w.store.contexts p).p_server_recv_func ≢ 0

pub Steady-Ready : {p q : ℕ} {w w' : World Heap} → Steady w w' → Ready p q w → Ready p q w'
Steady-Ready {p} {q} {w} {w'} s r = record {
  user_live = s.live q ∙ r.user_live;
  mine = s.servers q ∙ r.mine;
  server_live = s.live p ∙ r.server_live;
  callback =
      subst (λ (cs : ℕ → Context). (cs p).p_server_recv_func ≢ 0) (sym s.contexts) r.callback;
}

RoundDone-refl : (q : ℕ) (w : World Heap) → RoundDone q w again w
RoundDone-refl q w = record {
  steady = record { live = λ r. refl; contexts = refl; servers = λ r. refl };
  others = λ r h. refl;
  goes_on = λ h. refl;
  ends = λ h. cc;
}

RoundDone-trans :
    (q : ℕ) (w w1 w' : World Heap) (o : Round)
    → RoundDone q w again w1
    → RoundDone q w1 o w'
    → RoundDone q w o w'
RoundDone-trans q w w1 w' o d e = record {
  steady = record {
    live = λ r. e.steady.live r ∙ d.steady.live r;
    contexts = e.steady.contexts ∙ d.steady.contexts;
    servers = λ r. e.steady.servers r ∙ d.steady.servers r;
  };
  others = λ r h. e.others r h ∙ d.others r h;
  goes_on = λ h. e.goes_on h ∙ d.goes_on refl;
  ends = λ h h'. ground (arith, d.goes_on refl, e.ends h);
}

module _ (os : Os) (fits : RecvFits os) (p q : ℕ) where
  abbrev pub Done : World Heap → Round → World Heap → Type 0
  Done w o w' = RoundDone q w o w' × Hands p q w o w'

  pub round-Done : (w : World Heap) → Ready p q w → Returns (recv_round os q w) (Done w)
  round-Done w r =
      Returns-both (recv_round os q w) (RoundDone q w) (Hands p q w) (Done w)
        (recv_round_outcome os p q w r.user_live r.mine r.server_live)
        (recv_round_hands os p q w fits r.user_live r.mine r.server_live r.callback)
        (λ o w' d h. (d, h))

  Done-trans :
      (w w1 : World Heap)
      → Done w again w1
      → (o : Round) (w' : World Heap) → Done w1 o w'
      → Done w o w'
  Done-trans w w1 (d, h) o w' (e, k) = (
    RoundDone-trans q w w1 w' o d e,
    λ n m. ground (
      arith,
      h (λ c. cc) m,
      k n,
      d.goes_on refl,
      d.steady.contexts,
      ap (λ (cs : ℕ → Context). cs p) d.steady.contexts,
    ),
  )

  pub recv_loop-Done :
      (fuel : ℕ) (w : World Heap) → Ready p q w → Returns (recv_loop os fuel q w) (Done w)
  unfolding recv_loop
  recv_loop-Done zero w r = (RoundDone-refl q w, λ n m. m)
  recv_loop-Done (suc fuel) w r =
      Returns-bind (recv_round os q) (proceed (recv_loop os fuel q)) w (Done w) (Done w)
        (round-Done w r) (step (recv_loop-Done fuel))
    where
      step :
          ((w1 : World Heap) → Ready p q w1 → Returns (recv_loop os fuel q w1) (Done w1))
          → (o : Round) (w1 : World Heap) → Done w o w1
          → Returns (proceed (recv_loop os fuel q) o w1) (Done w)
      step rest again w1 d =
          Returns-mono (recv_loop os fuel q w1) (Done w1) (Done w)
            (rest w1 (Steady-Ready d.0.steady r)) (Done-trans w w1 d)
      step rest leave w1 d = d
      step rest cancelled w1 d = d
