-- ===== src/IpcDgram.antt =====
-- source/comm_ipc_dgram.c: the datagram endpoints on UNIX domain sockets, each bound to a path.
pub mod Kind
use libcomm.Prelude.{
  ℕ, ℤ, pos, minus_one, is_negative, is_positive, List, Option, none, some, take, ◌==◌,
  if◌then◌else◌,
}
use libcomm.Os.{
  Address, Family, SocketType, Os, pure, skip, ◌>>=◌, ◌>>◌, when, call, perform, socket, bind,
  close, sendto, unlink,
}
use libcomm.Threads.{Ending}
use libcomm.IpcStreamClient.{copy_path, sun_path_size, unix_address}
use libcomm.Datagram
use libcomm.Datagram.{Act, load, save}

abbrev pub Context : Type 0
Context = Datagram.Context Address

module _ (os : Os) where
  -- unlink, socket and bind: 0, or -1 with nothing kept open.
  unfoldable pub open_socket : ℕ → Act Address ℤ
  open_socket p = do
    c ← load p
    perform os (unlink c.place.path)
    s ← call os (socket Family.unix SocketType.dgram)
    if is_negative s.value then pure minus_one else (do
      copy_path sun_path_size c.place.path
      b ← call os (bind s.value (unix_address c.place.path))
      if is_negative b.value
          then (do perform os (close s.value); pure minus_one)
          else (do save p (record c { fd = s.value }); pure (pos 0)))

  unfoldable pub close_socket : ℕ → Act Address (Unit {0})
  close_socket p = do
    c ← load p
    when (is_positive c.fd) (do perform os (close c.fd); save p (record c { fd = minus_one }))
    perform os (unlink c.place.path)

  -- `len < 0` ends the receiving, and the callback is told the path of the source.
  abbrev pub endpoint : Datagram.Kind Address
  endpoint = record {
    open_socket = open_socket;
    stop = λ _. skip;
    close_socket = close_socket;
    fails = is_negative;
    sender = some;
  }

  -- `strncpy` of at most 255 bytes into the `localPath` of 256.
  abbrev pub init : List ℕ → ℕ → ℕ → Act Address ℕ
  init file_name = Datagram.init os endpoint (unix_address (take 255 file_name))

  abbrev pub uninit : ℕ → Act Address (Unit {0})
  uninit = Datagram.uninit os endpoint

  abbrev pub recv_task : ℕ → ℕ → Act Address Ending
  recv_task = Datagram.recv_task os endpoint

  abbrev pub receive : ℕ → Option (List ℕ) → ℕ → Act Address (ℤ × Option (List ℕ))
  receive = Datagram.receive os endpoint

  unfoldable pub send_to : ℕ → List ℕ → Option (List ℕ) → ℕ → Act Address ℤ
  send_to p file_name p_data size = if p == 0 then pure minus_one else (do
    c ← load p
    if is_negative c.fd then pure minus_one else elim p_data [
      | none ↦ pure minus_one
      | some bytes ↦ if size == 0 then pure minus_one else (do
        copy_path sun_path_size file_name
        r ← call os (sendto c.fd (take size bytes) (unix_address file_name))
        pure r.value)
    ])
