-- ===== src/Tests/IpcStreamClient.antt =====
-- A client of a UNIX socket: opened and closed.
use libcomm.Prelude.{ℕ, arith, [], ◌∷◌, List}
use libcomm.Os.{World, ◌>>=◌}
use libcomm.TcpClient.{Heap}
use libcomm.TcpClient.Open.{Unchanged}
use libcomm.Returns.{Returns}
use libcomm.IpcStreamClient.{new_context, client_init, client_uninit}
use libcomm.IpcStreamClient.Open.{ipc_client_restores}
use libcomm.Tests.Machine.{machine, machine-FreshBlocks, machine-FreshSockets}

abbrev name : List ℕ
name = 47 ∷ 97 ∷ []

abbrev empty : World Heap
empty = record { history = []; store = λ _. new_context name 0 0 0 }

ipc_client_restores_example :
    Returns
      ((client_init machine name 31 32 0 >>= client_uninit machine) empty)
      (λ _. Unchanged empty)
ipc_client_restores_example =
    ipc_client_restores machine machine-FreshBlocks machine-FreshSockets name 31 32 0 empty
      (omega arith)
