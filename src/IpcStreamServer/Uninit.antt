-- ===== src/IpcStreamServer/Uninit.antt =====
-- source/comm_ipc_stream.c: un-initializing a server frees all that it held, and nothing else.
use libcomm.Prelude.{ℕ, ◌≡◌, ◌≢◌, true, arith}
use libcomm.Os.{World, Os}
use libcomm.Memory.{is_live}
use libcomm.Returns.{Returns}
use libcomm.TcpServer.{Heap}
use libcomm.TcpServer.Invariant.{IsValid}
use libcomm.TcpServer.UninitAll.{Freed, Emptied, disconnect-Freed}
use libcomm.IpcStreamServer.{uninit_server}
use libcomm.IpcStreamServer.Api.{free_server, server_uninit}

module _ (os : Os) (p : ℕ) where
  free_server-Emptied :
      (w : World Heap)
      → is_live w.history p ≡ true
      → Returns (free_server os p w) (λ _ w'. Emptied p w w')
  unfolding free_server uninit_server
  free_server-Emptied w live = ground arith

  -- Un-initializing a valid server on a UNIX socket at p, which is not NULL, meets no fault. It
  -- frees the server and each user in its table, and no other memory; and it closes the listening
  -- socket if its number is positive.
  ipc_server_uninit_frees :
      (w : World Heap) → IsValid p w → p ≢ 0 → Returns (server_uninit os p w) (λ _ w'. Freed p w w')
  unfolding server_uninit
  ipc_server_uninit_frees w v nz =
      ground (arith, v.alive, disconnect-Freed os p w (free_server os) free_server-Emptied v)
