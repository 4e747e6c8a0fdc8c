-- ===== src/Nptp/Proxy/Reconnect.antt =====
-- application/nptp_proxy.c: connecting a mapping anew, which the monitor does when its pipe is made again.
use libcomm.Prelude.{
  ℕ, ◌<◌, ◌≡◌, ◌≢◌, refl, sym, subst, ap, ◌∙◌, arith, ℤ, pos, is_positive, true, false, length,
  ◌==◌,
}
use libcomm.Os.{World, Os, ◌>>◌}
use libcomm.Memory.{is_live, is_open, FreshBlocks, FreshSockets}
use libcomm.Returns.{Returns, Returns-bind, Returns-mono}
use libcomm.Zoom.{Returns-zoom}
use libcomm.TcpClient.Open.{Shut}
use libcomm.IpcStreamClient
use libcomm.IpcStreamClient.{sun_path_size}
use libcomm.IpcStreamClient.Open.{client_uninit_outcome}
use libcomm.Nptp.{State, on_clients}
use libcomm.Nptp.Proxy.{server_path, connect_ipc, open_ipc, disconnect_ipc}
use libcomm.Nptp.Proxy.Connect.{clients}
use libcomm.Nptp.Proxy.Pipe.{Tried, Disconnected, open_ipc-Tried, disconnect_ipc-Disconnected}

-- What is left of a mapping whose client was `h`, once it is connected anew and disconnected.
pub record Replaced (q h : ℕ) (w w' : World State) : Type 0 where
  pub freed : is_live w'.history h ≡ false
  pub lives : (r : ℕ) → r ≢ h → is_live w'.history r ≡ is_live w.history r
  pub opens :
      (fd : ℤ)
      → fd ≢ pos 0
      → fd ≢ (w.store.clients h).fd
      → is_open w'.history fd ≡ is_open w.history fd
  pub closed :
      is_positive (w.store.clients h).fd ≡ true → is_open w'.history (w.store.clients h).fd ≡ false
  pub no_client : (w'.store.mappings q).ipc_stream_handle ≡ 0
  pub apart : (w'.store.mappings q).pipe_connect ≡ false

module _ (os : Os) (blocks : FreshBlocks os) (sockets : FreshSockets os) (q h : ℕ)
    (w : World State) where
  -- If malloc gives fresh blocks, socket fresh descriptors, and the path of the named pipe is
  -- shorter than sun_path, then connecting anew an allocated mapping whose earlier client is
  -- allocated, and disconnecting it, meets no fault, whether or not the new client could be made
  -- and connected. It frees the earlier client and no other block, closes the descriptor of that
  -- client if it is positive and no other but 0, and the mapping has no client and is not
  -- connected.
  pub reconnect_frees :
      is_live w.history q ≡ true
      → (w.store.mappings q).ipc_stream_handle ≡ h
      → h ≢ 0
      → h ≢ q
      → is_live w.history h ≡ true
      → length (server_path (w.store.mappings q)) < sun_path_size
      → Returns ((connect_ipc os q >> disconnect_ipc os q) w) (λ _. Replaced q h w)
  unfolding connect_ipc
  reconnect_frees live held nz other used short =
      Returns-bind (connect_ipc os q) (λ _. disconnect_ipc os q) w Between _
        (rw (live, held, some_client, Returns)
          (Returns-bind (on_clients (IpcStreamClient.client_uninit os h)) (λ _. open_ipc os q) w
            (λ _. Gone) Between gone opened))
        (λ e w1 (w0, g, l, tried).
          Returns-mono (disconnect_ipc os q w1) _ _
            (disconnect_ipc-Disconnected os q w0 l e w1 tried) (λ _ w' d. replaced w0 w' g d))
    where
      some_client : (h == 0) ≡ false
      some_client = ground arith

      Gone : World State → Type 0
      Gone w0 = Shut h (clients w) (clients w0) × (w0.store.mappings ≡ w.store.mappings)

      Between : ℤ → World State → Type 0
      Between e w1 = (w0 : World State) × Gone w0 × (is_live w0.history q ≡ true) × Tried q w0 e w1

      gone : Returns (on_clients (IpcStreamClient.client_uninit os h) w) (λ _. Gone)
      gone =
          Returns-zoom (λ s. s.clients) (λ t s. record s { clients = t })
            (IpcStreamClient.client_uninit os h) w (λ _. Shut h (clients w)) _
            (client_uninit_outcome os h (clients w) nz used) (λ _ t shut. (shut, refl))

      opened : (u : Unit {0}) (w0 : World State) → Gone w0 → Returns (open_ipc os q w0) Between
      opened u w0 (shut, same) =
          let l : is_live w0.history q ≡ true = shut.1 q (λ e. other (sym e)) ∙ live in
          Returns-mono (open_ipc os q w0) _ _
            (open_ipc-Tried os blocks sockets q w0 l
              (subst (λ ms. length (server_path (ms q)) < sun_path_size) (sym same) short))
            (λ e w1 tried. (w0, (shut, same), l, tried))

      replaced : (w0 w' : World State) → Gone w0 → Disconnected q w0 w' → Replaced q h w w'
      replaced w0 w' (shut, _) (same, none_held, apart) = record {
        freed = same.0 h ∙ shut.0;
        lives = λ r ne. same.0 r ∙ shut.1 r ne;
        opens = λ fd nz ne. same.1 fd nz ∙ shut.3 fd ne;
        closed = λ up. same.1 _ (λ e. ground (arith, e, ap is_positive e, up)) ∙ shut.2 up;
        no_client = none_held;
        apart = apart;
      }
