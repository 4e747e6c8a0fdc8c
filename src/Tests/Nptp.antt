-- ===== src/Tests/Nptp.antt =====
-- The proxy with one mapping: its configuration, its two sides, and a file that is created.
use libcomm.Prelude.{
  ℕ, zero, suc, ℤ, pos, negsuc, minus_one, is_negative, ◌≡◌, ◌≢◌, ◌<◌, ◌↔◌, refl, inr, inl, arith,
  true, false, List, [], ◌∷◌, Option, none, some, length, length-take-most, take, replicate,
  get_or-replicate, if◌then◌else◌,
}
use libcomm.Os.{Call, malloc, read, Reply, History, World, Os, pure, ◌>>=◌, ◌>>◌}
use libcomm.Memory.{is_live, ReadFits}
use libcomm.Returns.{Returns}
use libcomm.Log.{first_settings}
use libcomm.Nptp
use libcomm.Nptp.{Mapping, State}
use libcomm.Nptp.Xml.{
  Node, Nodes, node, nil, cons, tag_mapping, tag_port, tag_pipe, att_enable, xml_init,
  parse_tag_pipe, find_tag, get_attribute, remove_space, last_slash, skip_blank, cut_line,
}
use libcomm.Nptp.Xml.Edits.{Fits}
use libcomm.Nptp.Xml.Path.{IsWritten, named, parse_tag_pipe-server_path}
use libcomm.Nptp.Xml.Configured.{IsConfigured, xml_init-IsConfigured}
use libcomm.Nptp.Proxy.{
  server_path, connect_ipc, disconnect_ipc, connect_pipe, on_tcp_recv, on_ipc_recv, proxy_init,
  proxy_uninit,
}
use libcomm.Nptp.Proxy.Pipe.{Disconnected, pipe_restores}
use libcomm.Nptp.Proxy.Reconnect.{Replaced, reconnect_frees}
use libcomm.Nptp.Proxy.Life.{Ended, proxy_restores}
use libcomm.Nptp.Proxy.Overflow.{configured_pipe_connects}
use libcomm.Nptp.Proxy.Forward.{after_send, forwards}
use libcomm.Nptp.Event.{event_buffer, event_monitor, monitor_round, watching, ended}
use libcomm.Nptp.Event.Bytes.{Event, encode}
use libcomm.Nptp.Event.Walk.{notify_all, monitor_round-notify_all}
use libcomm.Nptp.Event.Exit.{Stopped}
use libcomm.Nptp.Service.{ipc_recv_func, exit_word}
use libcomm.Nptp.Service.Exit.{exit_ends_monitor}
use libcomm.Tests.Machine
use libcomm.Tests.Machine.{nowhere, respond, machine, machine-FreshBlocks, machine-FreshSockets}
use libcomm.Tests.TcpServer.{blank_context, blank_user}
use libcomm.Tests.TcpClient.{blank}

abbrev mapping : List ℕ → ℕ → ℕ → Mapping
mapping path client user = record {
  tcp_server_handle = 0;
  ipc_stream_handle = client;
  tcp_connect = false;
  pipe_connect = false;
  tcp_port = 4000;
  pipe_path = path;
  pipe_name = b'p' ∷ [];
  descript = [];
  wd = minus_one;
  p_tcp_user = user;
  index = 0;
}

abbrev state : List ℕ → ℕ → Mapping → State
state table number m = record {
  p_mapping = table;
  mapping_num = number;
  inotify_fd = pos 5;
  ipc_dgram_handle = 0;
  mappings = λ _. m;
  settings = first_settings;
  servers = record { contexts = λ _. blank_context; users = λ _. record blank_user { fd = pos 7 } };
  clients = λ _. record blank { fd = pos 6 };
  datagrams = λ _. record {
    place = nowhere;
    fd = minus_one;
    p_recv_func = 0;
    p_arg = 0;
    thread = 0;
    running = false;
    recv_msg = [];
  };
}

-- The blocks 1, 2 and 3 are allocated.
abbrev blocks_made : History
blocks_made =
    (malloc, Machine.answer (pos 0) 3 [])
    ∷ (malloc, Machine.answer (pos 0) 2 [])
    ∷ (malloc, Machine.answer (pos 0) 1 [])
    ∷ []

abbrev mapped : World State
mapped = record {
  history = blocks_made;
  store = state (1 ∷ replicate 63 0) 1 (mapping (b'/' ∷ b'd' ∷ []) 0 0);
}

abbrev linked : World State
linked = record {
  history = blocks_made;
  store = state (1 ∷ replicate 63 0) 1 (mapping (b'/' ∷ b'd' ∷ []) 2 3);
}

pipe_restores_example :
    Returns
      ((connect_ipc machine 1 >> disconnect_ipc machine 1) mapped)
      (λ _. Disconnected 1 mapped)
pipe_restores_example =
    pipe_restores machine machine-FreshBlocks machine-FreshSockets 1 mapped refl refl (omega arith)

reconnect_frees_example :
    Returns ((connect_ipc machine 1 >> disconnect_ipc machine 1) linked) (λ _. Replaced 1 2 linked)
reconnect_frees_example =
    reconnect_frees machine machine-FreshBlocks machine-FreshSockets 1 2 linked refl refl
      (λ z. omega (arith, z)) (λ z. omega (arith, z)) refl (omega arith)

proxy_restores_example :
    Returns ((proxy_init machine >> proxy_uninit machine) mapped) (λ _. Ended 1 mapped)
proxy_restores_example =
    proxy_restores machine machine-FreshBlocks machine-FreshSockets 1 mapped refl refl (omega arith)
      refl refl (λ z. omega (arith, z))

forwards_example :
    (on_tcp_recv machine 1 3 (8 ∷ 9 ∷ []) 2 linked
      ≡ some (tt, after_send machine (pos 6) (8 ∷ 9 ∷ []) linked))
    × (on_ipc_recv machine 1 (8 ∷ 9 ∷ []) 2 linked
        ≡ some (tt, after_send machine (pos 7) (8 ∷ 9 ∷ []) linked))
forwards_example =
    forwards machine 1 3 (8 ∷ 9 ∷ []) 2 linked
      (record {
        live = refl;
        has_client = λ z. omega (arith, z);
        client_live = refl;
        client_open = refl;
        has_user = λ z. omega (arith, z);
        user_live = refl;
        user_open = refl;
      })
      (λ z. omega (arith, z))

-- A configuration of one mapping, where each node has the same content.
abbrev content_text : List ℕ
content_text = b'\n' ∷ b' ' ∷ b'/' ∷ b'd' ∷ b'/' ∷ b'p' ∷ b'\n' ∷ []

abbrev contents : Node → Option (List ℕ)
contents n = some content_text

abbrev value_of : List ℕ → ℤ
value_of s = pos (length s)

abbrev pipe_tag : Node
pipe_tag = node true tag_pipe [] nil

abbrev fields : Nodes
fields = cons (node true tag_port [] nil) (cons pipe_tag nil)

abbrev root : Node
root = node true [] [] (
    cons
      (node true tag_mapping (record { name = att_enable; value = some (b'1' ∷ []) } ∷ []) fields)
      nil)

abbrev unread : World State
unread = record { history = []; store = state (replicate 64 0) 0 (mapping [] 0 0) }

unread-IsConfigured : IsConfigured unread
unread-IsConfigured = record {
  width = refl;
  bounded = omega arith;
  past = λ i h. get_or-replicate 64 i 0;
  some_block = λ i h. absurd (omega (arith, h));
  live = λ i h. absurd (omega (arith, h));
  new = λ i h. absurd (omega (arith, h));
}

content_text-Fits : Fits (remove_space content_text)
unfolding last_slash skip_blank cut_line
content_text-Fits = (omega arith, λ i e. ground (arith, e))

xml_init-IsConfigured_example :
    Returns
      (xml_init machine contents value_of (some (some root)) unread)
      (λ e w'. (e ≡ pos 0) × IsConfigured w')
unfolding get_attribute
xml_init-IsConfigured_example =
    xml_init-IsConfigured machine contents value_of machine-FreshBlocks (λ h z. omega (arith, z))
      root unread
      (
        λ _. (
          b'1' ∷ [],
          refl,
          λ _. (
            λ n e. (content_text, refl),
            λ n e. (content_text, refl, content_text-Fits),
            λ n e. (content_text, refl),
          ),
        ),
        tt,
      )
      unread-IsConfigured

content_text-IsWritten : IsWritten (b'\n' ∷ b' ' ∷ []) (b'/' ∷ b'd' ∷ []) (b'p' ∷ []) (b'\n' ∷ [])
content_text-IsWritten = record {
  blank = (inl refl, (inr (inr refl), tt));
  starts = ground arith;
  no_line_feed = ground arith;
  no_return = ground arith;
  ends = inl refl;
  last_part = ground arith;
  fits = omega arith;
  short = omega arith;
}

parse_tag_pipe-server_path_example :
    Returns (parse_tag_pipe machine contents value_of fields 1 mapped) (λ _ w'.
      (server_path (w'.store.mappings 1) ≡ b'/' ∷ b'd' ∷ b'/' ∷ b'p' ∷ [])
      × (w' ≡ named 1 (b'/' ∷ b'd' ∷ []) (b'p' ∷ []) mapped))
unfolding find_tag
parse_tag_pipe-server_path_example =
    parse_tag_pipe-server_path machine contents value_of fields pipe_tag 1 (b'\n' ∷ b' ' ∷ [])
      (b'/' ∷ b'd' ∷ []) (b'p' ∷ []) (b'\n' ∷ []) mapped refl refl refl content_text-IsWritten

configured_pipe_connects_example :
    ((parse_tag_pipe machine contents value_of fields 1 >> connect_pipe machine 1 2) linked ≢ none)
    ↔ (4 < 108)
unfolding find_tag
configured_pipe_connects_example =
    configured_pipe_connects machine 1 2 contents value_of fields pipe_tag (b'\n' ∷ b' ' ∷ [])
      (b'/' ∷ b'd' ∷ []) (b'p' ∷ []) (b'\n' ∷ []) linked refl refl refl content_text-IsWritten
      (λ z. omega (arith, z)) refl refl refl

-- A file "p" is created, and then the descriptor of inotify is closed.
abbrev created : Event
created = record { fields = replicate 12 0; name = b'p' ∷ []; padding = 14 }

abbrev notify : History → Call → Reply
notify h (read fd n) =
    if is_negative fd
    then Machine.answer minus_one 0 []
    else Machine.answer (pos (length (take n (encode (created))))) 0 (take n (encode created))
notify h c = respond h c

abbrev notifying : Os
notifying = record { reply = notify }

notifying-ReadFits : ReadFits notifying
notifying-ReadFits h (pos f) n m e = ground (arith, length-take-most n (encode created))
notifying-ReadFits h (negsuc f) n m e = cc

monitor_round-notify_all_example :
    monitor_round notifying mapped
    ≡ (notify_all notifying (created ∷ []) >>= λ _. pure watching) (record mapped {
      history =
          (read (pos 5) event_buffer, notify blocks_made (read (pos 5) event_buffer)) ∷ blocks_made;
    })
monitor_round-notify_all_example =
    monitor_round-notify_all notifying notifying-ReadFits (created ∷ [])
      ((refl, ((λ z. omega (arith, z)), tt)), tt) 32 mapped (omega arith) refl refl

exit_ends_monitor_example :
    Returns
      ((ipc_recv_func notifying exit_word 4 >> event_monitor notifying 1) mapped)
      (λ o w'. (o ≡ ended) × Stopped mapped w')
exit_ends_monitor_example =
    exit_ends_monitor notifying exit_word 4 0 mapped refl holds refl (λ h. refl)
  where
    holds :
        (i : ℕ)
        → Nptp.slot mapped.store i ≢ 0
        → is_live blocks_made (Nptp.slot mapped.store i) ≡ true
    holds zero nz = refl
    holds (suc i) nz = absurd (nz (get_or-replicate 63 i 0))
