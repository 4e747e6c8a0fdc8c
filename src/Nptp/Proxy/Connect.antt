-- ===== src/Nptp/Proxy/Connect.antt =====
-- application/nptp_proxy.c: the client that connects a mapping to its named pipe.
use libcomm.Prelude.{
  ℕ, zero, suc, ◌+◌, ◌/◌, ◌%◌, ◌≤◌, ◌<◌, ◌≡◌, ◌≢◌, inl, inr, refl, ◌∙◌, arith, ℤ, pos, is_zero,
  Bool-cases, true, false, List, [], ◌∷◌, length, length-append, ltb,
}
use libcomm.Os.{World, Os, pure, access, ◌>>=◌}
use libcomm.Memory.{is_live}
use libcomm.Returns.{Returns, Returns-bind}
use libcomm.Zoom.{view, Returns-zoom}
use libcomm.TcpClient
use libcomm.TcpClient.Open.{Restored, Held}
use libcomm.IpcStreamClient
use libcomm.IpcStreamClient.{sun_path_size, path_size}
use libcomm.IpcStreamClient.Open.{ipc_client_connect_runs}
use libcomm.Log.{decimal}
use libcomm.Nptp.{State, Act, modify, on_clients}
use libcomm.Nptp.Proxy.{client_path, server_path, connect_pipe}

length-decimal-le : (n x : ℕ) → length (decimal n x) ≤ n
unfolding decimal
length-decimal-le zero x = omega arith
length-decimal-le (suc n) x =
    ground (
      arith,
      length-append (decimal n (x / 10)) ((b'0' + x % 10) ∷ []),
      length-decimal-le n (x / 10),
    )

pub length-client_path-le : (index : ℕ) → length (client_path index) < sun_path_size
length-client_path-le index = ground (arith, length-decimal-le 10 index)

-- The library's clients in the memory of the proxy.
abbrev pub clients : World State → World TcpClient.Heap
clients = view (λ s. s.clients) (λ t s. record s { clients = t })

-- The client `h` of a mapping whose memory was as in `w`.
abbrev pub Joined : ℕ → ℕ → World State → World State → Type 0
Joined q h w w' =
    (h ≢ 0) × Held h (clients w) (clients w') × ((w'.store.mappings q).ipc_stream_handle ≡ h)

abbrev pub Parted : ℕ → World State → World State → Type 0
Parted q w w' = Restored (clients w) (clients w') × ((w'.store.mappings q).ipc_stream_handle ≡ 0)

module _ (os : Os) (q h : ℕ) where
  -- Connecting keeps the client that was made.
  pub connect_pipe-Joined :
      (w w1 : World State)
      → h ≢ 0
      → is_live w1.history q ≡ true
      → Held h (clients w) (clients w1)
      → (w1.store.clients h).running ≡ false
      → (w1.store.mappings q).ipc_stream_handle ≡ h
      → length (server_path (w1.store.mappings q)) < sun_path_size
      → Returns
          (connect_pipe os q h w1)
          (λ e w'. (e ≡ pos 0) × (is_live w'.history q ≡ true) × Joined q h w w')
  unfolding connect_pipe
  connect_pipe-Joined w w1 nz live held idle handle short =
      rw (live, room, Returns)
        (elim (Bool-cases (is_zero (os.reply w1.history (access path)).value)) [
          | inl e ↦ rw e (
              Returns-bind connecting (λ _. pure (pos 0)) w2 (λ _. After) _
                (Returns-bind (on_clients (IpcStreamClient.client_connect os h path)) noting w2
                  (λ _. After) (λ _. After) connected noted)
                (λ _ w' (l, j). (refl, l, j)))
          | inr e ↦ rw e (refl, live, (nz, held, handle))
        ])
    where
      path : List ℕ
      path = server_path (w1.store.mappings q)

      room : ltb (length path) path_size ≡ true
      room = ground arith

      w2 : World State
      w2 = record w1 { history = (access path, os.reply w1.history (access path)) ∷ w1.history }

      After : World State → Type 0
      After w' = (is_live w'.history q ≡ true) × Joined q h w w'

      noting : ℤ → Act (Unit {0})
      noting e = modify q (λ m. record m { pipe_connect = is_zero e })

      connecting : Act (Unit {0})
      connecting = on_clients (IpcStreamClient.client_connect os h path) >>= noting

      connected : Returns (on_clients (IpcStreamClient.client_connect os h path) w2) (λ _. After)
      connected =
          Returns-zoom (λ s. s.clients) (λ t s. record s { clients = t })
            (IpcStreamClient.client_connect os h path) w2 _ (λ _. After)
            (ipc_client_connect_runs os h path (clients w2) held.1 idle short)
            (λ _ t (_, _, fd, lives, opens, _). (
              lives q ∙ live,
              (
                nz,
                (
                  held.0,
                  lives h ∙ held.1,
                  λ r ne. lives r ∙ held.2 r ne,
                  rw fd held.3,
                  rw fd held.4,
                  rw fd (opens (w2.store.clients h).fd ∙ held.5),
                  λ g ne. opens g ∙ held.6 g (rw fd at ne),
                ),
                handle,
              ),
            ))

      noted : (e : ℤ) (w' : World State) → After w' → Returns (noting e w') (λ _. After)
      noted e w' (l, j) = rw (l, Returns) (l, (j.0, j.1, ground (arith, j.2)))
