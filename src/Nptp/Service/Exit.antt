-- ===== src/Nptp/Service/Exit.antt =====
-- application/nptp_serv.c: the command "exit", which ends the monitor.
use libcomm.Prelude.{
  ℕ, suc, ◌≡◌, ◌∙◌, ap, arith, minus_one, is_negative, is_positive, false, List, take,
}
use libcomm.Os.{World, Os, read, ◌>>◌}
use libcomm.Returns.{Returns, Returns-bind, Returns-mono}
use libcomm.Nptp.{State}
use libcomm.Nptp.Event.{event_buffer, event_uninit, event_monitor, ended}
use libcomm.Nptp.Event.Exit.{Holds, Stopped, event_uninit-Stopped, event_monitor-ended}
use libcomm.Nptp.Service.{c_string, exit_word, ipc_recv_func}

module _ (os : Os) where
  ipc_recv_func-exit :
      (bytes : List ℕ) (size : ℕ) (w : World State)
      → c_string (take size bytes) ≡ exit_word
      → ipc_recv_func os bytes size w ≡ event_uninit os w
  unfolding ipc_recv_func
  ipc_recv_func-exit bytes size w e = rw e (ground arith)

  -- Let each slot of the table of mappings that is not NULL hold an allocated one, the descriptor
  -- of inotify not be negative, and read on -1 fail. Then the command exit, followed by at least
  -- one round of event_monitor, meets no fault and ends the monitor. It closes the descriptor of
  -- inotify and no other, sets it to -1, leaves the same memory allocated and the table as it
  -- was, and no mapping below g_mappingNum has a watch.
  pub exit_ends_monitor :
      (bytes : List ℕ) (size fuel : ℕ) (w : World State)
      → c_string (take size bytes) ≡ exit_word
      → Holds w
      → is_negative w.store.inotify_fd ≡ false
      → ((h : _) → is_positive (os.reply h (read minus_one event_buffer)).value ≡ false)
      → Returns
          ((ipc_recv_func os bytes size >> event_monitor os (suc fuel)) w)
          (λ o w'. (o ≡ ended) × Stopped w w')
  exit_ends_monitor bytes size fuel w command holds some_fd fails =
      Returns-bind (ipc_recv_func os bytes size) (λ _. event_monitor os (suc fuel)) w
        (λ _. Stopped w) _
        (rw (ipc_recv_func-exit bytes size w command) (event_uninit-Stopped os w holds some_fd))
        (λ _ w1 s.
          Returns-mono (event_monitor os (suc fuel) w1) _ _
            (event_monitor-ended os fuel w1 s.watcher (fails w1.history))
            (λ o w' (e, same, lives, opens). (
              e,
              record {
                live = λ r. lives r ∙ s.live r;
                closed = opens w.store.inotify_fd ∙ s.closed;
                others = λ fd ne. opens fd ∙ s.others fd ne;
                table = ap (λ (g : State). g.p_mapping) same ∙ s.table;
                watcher = ap (λ (g : State). g.inotify_fd) same ∙ s.watcher;
                removed = λ i h nz. rw same (s.removed i h nz);
              },
            )))
