-- ===== src/Nptp/Service.antt =====
-- application/nptp_serv.c: the service, from its start to its end, and the commands that it is sent.
pub mod Exit
use libcomm.Prelude.{
  ℕ, zero, suc, ℤ, pos, minus_one, is_zero, Bool, not, List, [], ◌∷◌, ◌++◌, Option, none, some,
  take, set, replicate, ◌==◌, if◌then◌else◌,
}
use libcomm.Os.{Os, pure, skip, ◌>>=◌, ◌>>◌, when}
use libcomm.Memory.{release}
use libcomm.IpcDgram
use libcomm.Log.{Settings, set_log_mask, set_dump_flag, unsigned_text}
use libcomm.Udp.Address.{same_text}
use libcomm.Nptp.{Mapping, Act, on_datagrams, load, globals, set_globals, slot, max_mapping_num}
use libcomm.Nptp.Xml.{Node, xml_init}
use libcomm.Nptp.Proxy.{proxy_init, proxy_uninit, server_path}
use libcomm.Nptp.Event.{ended, event_init, event_uninit, event_monitor}

-- The bytes before the first that is 0.
abbrev pub c_string : List ℕ → List ℕ
c_string [] = []
c_string (b ∷ bytes) = if b == 0 then [] else b ∷ c_string bytes

-- IPC_DGRAM_FILE_PATH, "./nptp_serv_dgram.sock", and the number of the callback.
abbrev pub ipc_dgram_file_path : List ℕ
ipc_dgram_file_path =
    b'.' ∷ b'/' ∷ b'n' ∷ b'p' ∷ b't' ∷ b'p' ∷ b'_' ∷ b's' ∷ b'e' ∷ b'r' ∷ b'v' ∷ b'_' ∷ b'd' ∷ b'g'
    ∷ b'r' ∷ b'a' ∷ b'm' ∷ b'.' ∷ b's' ∷ b'o' ∷ b'c' ∷ b'k' ∷ []

abbrev pub command_func : ℕ
command_func = 6

abbrev pub exit_word : List ℕ
exit_word = b'e' ∷ b'x' ∷ b'i' ∷ b't' ∷ []

abbrev pub dump_word : List ℕ
dump_word = b'd' ∷ b'u' ∷ b'm' ∷ b'p' ∷ []

abbrev pub set_settings : (Settings → Settings) → Act (Unit {0})
set_settings f = set_globals (λ s. record s { settings = f s.settings })

-- `comm_getDumpFlag`, and `flag ^ 0x1` of it.
abbrev pub toggle_dump : Settings → Settings
toggle_dump s = set_dump_flag (if s.dump_flag then 0 else 1) s

-- The line of `serv_list` for one mapping.
abbrev pub mark : Bool → List ℕ
mark on =
    (0x1B ∷ b'[' ∷ b'1' ∷ b';' ∷ b'3' ∷ b'1' ∷ b'm' ∷ (if on then b'*' else b'-') ∷ [])
    ++ 0x1B ∷ b'[' ∷ b'0' ∷ b'm' ∷ []

unfoldable pub mapping_line : Mapping → List ℕ
mapping_line m =
    unsigned_text m.tcp_port
    ++ (b':' ∷ mark m.tcp_connect
        ++ (b' ' ∷ server_path m
            ++ (b':' ∷ mark m.pipe_connect ++ (b' ' ∷ b'"' ∷ m.descript ++ b'"' ∷ b'\n' ∷ []))))

-- `serv_list`, for the `n` rounds from `i` on: what is printed.
unfoldable pub list_from : ℕ → ℕ → Act (List ℕ)
list_from zero i = pure []
list_from (suc n) i = do
  s ← globals
  let q = slot s i
  let rest = list_from n (suc i)
  if q == 0 then rest else (do m ← load q; text ← rest; pure (mapping_line m ++ text))

unfoldable pub serv_list : Act (List ℕ)
serv_list = do s ← globals; text ← list_from s.mapping_num 0; pure (b'\n' ∷ text ++ b'\n' ∷ [])

-- The commands "0" to "7" are masks of the log.
abbrev pub mask_command : List ℕ → Option ℕ
mask_command (c ∷ []) =
    if c == b'0'
    then some 0
    else if c == b'1'
    then some 1
    else if c == b'2'
    then some 2
    else if c == b'3'
    then some 3
    else if c == b'4'
    then some 4
    else if c == b'5'
    then some 5
    else if c == b'6'
    then some 6
    else if c == b'7'
    then some 7
    else none
mask_command _ = none

module _ (os : Os) where
  -- `ipcRecvFunc`. "help" and "list" only print.
  unfoldable pub ipc_recv_func : List ℕ → ℕ → Act (Unit {0})
  ipc_recv_func bytes size =
      let command = c_string (take size bytes) in
      if same_text command exit_word
      then event_uninit os
      else if same_text command dump_word
      then set_settings toggle_dump
      else elim (mask_command command) [
        | some mask ↦ set_settings (set_log_mask mask)
        | none ↦ skip
      ]

  -- The loop that frees the mappings, for the `n` rounds from `i` on.
  unfoldable pub free_from : ℕ → ℕ → Act (Unit {0})
  free_from zero i = skip
  free_from (suc n) i = do
    s ← globals
    let q = slot s i
    when (not (q == 0))
        (do release os q; set_globals (λ g. record g { p_mapping = set g.p_mapping i 0 }))
    free_from n (suc i)

  unfoldable pub serv_uninit : Act (Unit {0})
  serv_uninit = do
    s ← globals
    on_datagrams (IpcDgram.uninit os s.ipc_dgram_handle)
    event_uninit os
    proxy_uninit os
    free_from max_mapping_num 0
    set_globals (λ g. record g { mapping_num = 0 })

  -- The end of `serv_init`, once the proxy runs.
  unfoldable pub start_events : Act ℤ
  start_events = do
    e ← event_init os
    if not (is_zero e) then (do proxy_uninit os; pure minus_one) else (do
      h ← on_datagrams (IpcDgram.init os ipc_dgram_file_path command_func 0)
      set_globals (λ g. record g { ipc_dgram_handle = h })
      if h == 0 then (do event_uninit os; proxy_uninit os; pure minus_one) else pure (pos 0))

module _ (os : Os) (content : Node → Option (List ℕ)) (atoi : List ℕ → ℤ) where
  unfoldable pub serv_init : Option (Option Node) → Act ℤ
  serv_init document = do
    set_globals (λ g. record g {
      settings = set_log_mask 0 g.settings;
      p_mapping = replicate max_mapping_num 0;
      mapping_num = 0;
    })
    x ← xml_init os content atoi document
    if not (is_zero x) then pure minus_one else (do
      s ← globals
      if s.mapping_num == 0 then pure minus_one else (do
        e ← proxy_init os
        if not (is_zero e) then pure minus_one else (do serv_list; start_events os)))

  -- `main` past its options: its result if the monitor ends within `fuel` rounds, or if the service
  -- could not be started.
  unfoldable pub run_service : Option (Option Node) → ℕ → Act (Option ℤ)
  run_service document fuel = do
    e ← serv_init document
    if not (is_zero e) then (do serv_uninit os; pure (some minus_one)) else (do
      o ← event_monitor os fuel
      elim o [ ended ↦ (do serv_uninit os; pure (some (pos 0))) | _ ↦ pure none ])
