-- ===== src/Nptp/Proxy/Life.antt =====
-- application/nptp_proxy.c: `proxy_init` and `proxy_uninit`.
use libcomm.Prelude.{
  ℕ, ◌<◌, ◌≡◌, ◌≢◌, inl, refl, sym, subst, ap, ◌∙◌, arith, ℤ, pos, minus_one, is_zero, true, false,
  length, ◌==◌, not, if◌then◌else◌, get_or,
}
use libcomm.Os.{World, History, Os, pure, skip, when, ◌>>=◌, ◌>>◌}
use libcomm.Memory.{is_live, FreshBlocks, FreshSockets}
use libcomm.Returns.{Returns, Returns-bind, Returns-mono, Returns-if}
use libcomm.Kept.{Returns-Kept}
use libcomm.TcpServer
use libcomm.TcpServer.Invariant.{Alike-IsSound}
use libcomm.TcpServer.Lifecycle.{Fresh}
use libcomm.IpcStreamClient.{sun_path_size}
use libcomm.Nptp.{State, Act, slot}
use libcomm.Nptp.Proxy.{
  server_path, connect_ipc, disconnect_ipc, launch_tcp, cease_tcp, proxy_init, proxy_uninit,
  init_from, uninit_from,
}
use libcomm.Nptp.Proxy.Pipe.{Tried, Disconnected, connect_ipc-Tried, disconnect_ipc-Disconnected}
use libcomm.Nptp.Proxy.Tcp.{servers, Launched, Ceased, launch_tcp-Launched, cease_tcp-Ceased}
use libcomm.Nptp.Proxy.Sides.{
  server_side, client_side, connect_ipc-Kept, disconnect_ipc-Kept, launch_tcp-Kept, cease_tcp-Kept,
}

-- A server that was started is the same after calls that leave the same memory allocated.
Fresh-later :
    (w : World TcpServer.Heap) (h : ℕ) (t : World TcpServer.Heap) (later : History)
    → ((r : ℕ) → is_live later r ≡ is_live t.history r)
    → Fresh w h t
    → Fresh w h (record { history = later; store = t.store })
Fresh-later w h t later same (kept, made) = (
  λ z r. same r ∙ kept z r,
  λ nz. (
    record {
      sound =
          Alike-IsSound (made nz).0.sound
            (record { live = same; slots = refl; room = refl; servers = λ r. refl });
      counted = (made nz).0.counted;
    },
    (made nz).1,
    λ r ne. same r ∙ (made nz).2 r ne,
    (made nz).3,
  ),
)

-- A round of the loop of `proxy_init`, with the rounds that follow.
abbrev open_mapping : Os → Act ℤ → ℕ → Act ℤ
open_mapping os rest q = if q == 0 then rest else (do
  t ← launch_tcp os q
  if not (is_zero t)
      then pure minus_one
      else (do e ← connect_ipc os q; if not (is_zero e) then pure minus_one else rest))

-- A round of the loop of `proxy_uninit`, with the rounds that follow.
abbrev close_mapping : Os → Act (Unit {0}) → ℕ → Act (Unit {0})
close_mapping os rest q = when (not (q == 0)) (disconnect_ipc os q >> cease_tcp os q) >> rest

-- Both sides of a mapping are given back.
pub record Ended (q : ℕ) (w w' : World State) : Type 0 where
  pub lives : (r : ℕ) → is_live w'.history r ≡ is_live w.history r
  pub no_server : (w'.store.mappings q).tcp_server_handle ≡ 0
  pub no_client : (w'.store.mappings q).ipc_stream_handle ≡ 0
  pub no_user : (w'.store.mappings q).p_tcp_user ≡ 0
  pub apart :
      ((w'.store.mappings q).tcp_connect ≡ false) × ((w'.store.mappings q).pipe_connect ≡ false)

module _ (os : Os) (blocks : FreshBlocks os) (sockets : FreshSockets os) (q : ℕ) (w : World State)
    (live : is_live w.history q ≡ true) (alone : (w.store.mappings q).ipc_stream_handle ≡ 0)
    (short : length (server_path (w.store.mappings q)) < sun_path_size) where
  -- Between the two: the server was launched with the result `e0`, and connecting was tried, with
  -- the result `e1`.
  record Started (e0 : ℤ) (w1 : World State) (e1 : ℤ) (w2 : World State) : Type 0 where
    pub launched : Launched q w e0 w1
    pub tried : Tried q w1 e1 w2
    pub same_servers : server_side q w2.store ≡ server_side q w1.store
    pub same_table : w1.store.p_mapping ≡ w.store.p_mapping
    pub same_number : w1.store.mapping_num ≡ w.store.mapping_num

  launching :
      Returns
        (launch_tcp os q w)
        (λ e w1. Launched q w e w1 × (client_side q w1.store ≡ client_side q w.store))
  launching =
      Returns-Kept (client_side q) (client_side q w.store) (launch_tcp os q w) (Launched q w)
        (launch_tcp-Launched os blocks sockets q w live)
        (launch_tcp-Kept os q (client_side q w.store) w refl)

  connecting :
      (e0 : ℤ) (w1 : World State)
      → Launched q w e0 w1
      → client_side q w1.store ≡ client_side q w.store
      → Returns (connect_ipc os q w1) (λ e1 w2. Started e0 w1 e1 w2)
  connecting e0 w1 launched same =
      Returns-mono (connect_ipc os q w1) _ _
        (Returns-Kept (server_side q) (server_side q w1.store) (connect_ipc os q w1) (Tried q w1)
          (connect_ipc-Tried os blocks sockets q w1 launched.0 (ap (λ s. s.2.0) same ∙ alone)
            (subst (λ path. length path < sun_path_size) (sym (ap (λ s. s.2.2) same)) short))
          (connect_ipc-Kept os q (server_side q w1.store) w1 refl))
        (λ e1 w2 (tried, servers_kept). record {
          launched = launched;
          tried = tried;
          same_servers = servers_kept;
          same_table = ap (λ s. s.0) same;
          same_number = ap (λ s. s.1) same;
        })

  ending :
      (e0 : ℤ) (w1 : World State) (e1 : ℤ) (w2 : World State)
      → Started e0 w1 e1 w2
      → Returns ((disconnect_ipc os q >> cease_tcp os q) w2) (λ _. Ended q w)
  ending e0 w1 e1 w2 s =
      Returns-bind (disconnect_ipc os q) (λ _. cease_tcp os q) w2
        (λ _ w3. Disconnected q w1 w3 × (server_side q w3.store ≡ server_side q w1.store)) _
        (Returns-Kept (server_side q) (server_side q w1.store) (disconnect_ipc os q w2)
          (λ _. Disconnected q w1) (disconnect_ipc-Disconnected os q w1 s.launched.0 e1 w2 s.tried)
          (disconnect_ipc-Kept os q (server_side q w1.store) w2 s.same_servers))
        (λ _ w3 (d, same).
          Returns-mono (cease_tcp os q w3) _ _
            (Returns-Kept (client_side q) (client_side q w3.store) (cease_tcp os q w3)
              (λ _. Ceased q w)
              (cease_tcp-Ceased os blocks sockets q w live e0 w3 (still w3 s.launched d same))
              (cease_tcp-Kept os q (client_side q w3.store) w3 refl))
            (λ _ w' (ceased, kept). record {
              lives = ceased.0;
              no_server = ceased.1;
              no_client = ap (λ k. k.2.0) kept ∙ d.1;
              no_user = ceased.3;
              apart = (ceased.2, ap (λ k. k.2.1) kept ∙ d.2);
            }))
    where
      still :
          (w3 : World State)
          → Launched q w e0 w1
          → Disconnected q w1 w3
          → server_side q w3.store ≡ server_side q w1.store
          → Launched q w e0 w3
      still w3 (l, (h, fresh, handle, result)) d same = (
        d.0.0 q ∙ l,
        (
          h,
          subst (λ t. Fresh (servers w) h (record { history = w3.history; store = t }))
              (sym (ap (λ k. k.0) same))
              (Fresh-later (servers w) h (servers w1) w3.history d.0.0 fresh),
          ap (λ k. k.3) same ∙ handle,
          result,
        ),
      )

  Between : ℤ → World State → Type 0
  Between e w2 = (e0 : ℤ) × (w1 : World State) × (e1 : ℤ) × Started e0 w1 e1 w2

  starting : q ≢ 0 → Returns (open_mapping os (pure (pos 0)) q w) Between
  unfolding Between
  starting nz =
      rw (none, Returns)
        (Returns-bind (launch_tcp os q) _ w
          (λ e0 w1. Launched q w e0 w1 × (client_side q w1.store ≡ client_side q w.store)) Between
          launching
          (λ e0 w1 (launched, same).
            Returns-if (not (is_zero e0)) (pure minus_one) (after_launch e0) w1 Between
              (λ _. (e0, w1, minus_one, untried e0 w1 launched same))
              (λ _.
                Returns-bind (connect_ipc os q) finishing w1 (Started e0 w1) Between
                  (connecting e0 w1 launched same)
                  (λ e1 w2 s.
                    Returns-if (not (is_zero e1)) (pure minus_one) (pure (pos 0)) w2 Between
                      (λ _. (e0, w1, e1, s)) (λ _. (e0, w1, e1, s))))))
    where
      none : (q == 0) ≡ false
      none = ground arith

      finishing : ℤ → Act ℤ
      finishing e1 = if not (is_zero e1) then pure minus_one else pure (pos 0)

      after_launch : ℤ → Act ℤ
      after_launch e0 = connect_ipc os q >>= finishing

      untried :
          (e0 : ℤ) (w1 : World State)
          → Launched q w e0 w1
          → client_side q w1.store ≡ client_side q w.store
          → Started e0 w1 minus_one w1
      untried e0 w1 launched same = record {
        launched = launched;
        tried = (launched.0, inl (refl, ((λ r. refl, λ fd. refl), ap (λ k. k.2.0) same ∙ alone)));
        same_servers = refl;
        same_table = ap (λ k. k.0) same;
        same_number = ap (λ k. k.1) same;
      }

  stopping :
      (e0 : ℤ) (w1 : World State) (e1 : ℤ) (w2 : World State)
      → q ≢ 0
      → Started e0 w1 e1 w2
      → Returns (close_mapping os skip q w2) (λ _. Ended q w)
  stopping e0 w1 e1 w2 nz s =
      rw (none, Returns)
        (Returns-bind (disconnect_ipc os q >> cease_tcp os q) (λ _. skip) w2 (λ _. Ended q w) _
          (ending e0 w1 e1 w2 s) (λ _ w' ended. ended))
    where
      none : (q == 0) ≡ false
      none = ground arith

  -- If malloc gives fresh blocks and socket fresh descriptors, and the table has one mapping, in
  -- its first slot, that is allocated and has no client, with a path of its pipe shorter than
  -- sun_path, then proxy_init followed by proxy_uninit meets no fault, whether or not the server
  -- could be launched and the client made and connected. The same memory is allocated afterwards;
  -- and the mapping has no server, no client and no user, and neither of its sides is connected.
  pub proxy_restores :
      w.store.mapping_num ≡ 1
      → slot w.store 0 ≡ q
      → q ≢ 0
      → Returns ((proxy_init os >> proxy_uninit os) w) (λ _. Ended q w)
  unfolding proxy_init proxy_uninit init_from uninit_from Between
  proxy_restores one first nz =
      Returns-bind (proxy_init os) (λ _. proxy_uninit os) w Between _
        (subst (λ n. Returns (init_from os n 0 w) Between) (sym one)
          (subst (λ r. Returns (open_mapping os (pure (pos 0)) r w) Between) (sym first)
            (starting nz)))
        (λ e w2 (e0, w1, e1, s).
          subst (λ n. Returns (uninit_from os n 0 w2) (λ _. Ended q w))
            (sym (ap (λ k. k.2) s.same_servers ∙ s.same_number ∙ one))
            (subst (λ r. Returns (close_mapping os skip r w2) (λ _. Ended q w))
              (sym (ap (λ t. get_or t 0 0) (ap (λ k. k.1) s.same_servers ∙ s.same_table) ∙ first))
              (stopping e0 w1 e1 w2 nz s)))
