-- ===== src/Os.antt =====
-- The calls that the library makes of the C library and the kernel (malloc, sockets, threads, the
-- application's callbacks), as values, with the answers as an oracle over the calls made so far.
use libcomm.Prelude.{ℕ, ℤ, Bool, true, false, List, ◌∷◌, Option, none, some, is_zero, not}

-- AF_INET, AF_INET6, AF_UNIX, AF_PACKET, AF_NETLINK.
pub data Family : Type 0 where
  inet inet6 unix packet netlink : Family

pub data SocketType : Type 0 where
  stream dgram raw : SocketType

-- `struct sockaddr_in` and `struct sockaddr_in6`: the port and the address as numbers in the
-- host's byte order, which `htons` and `htonl` only rearrange. A `struct sockaddr_un` has a path,
-- and a `struct sockaddr_ll` the interface's index as `host`, the protocol as `port` and the
-- hardware address as `path`.
pub record Address : Type 0 where
  pub family : Family
  pub host : ℕ
  pub port : ℕ
  pub path : List ℕ

-- The thread functions, each with the pointer that it is started on.
pub data Task : Type 0 where
  listen_task recv_task client_recv_task datagram_recv_task : ℕ → Task
  fifo_get_task uart_recv_task ipc_recv_task ipc_listen_task netlink_recv_task : ℕ → Task

-- What is asked of a network interface: SIOCGIFINDEX, SIOCGIFMTU, SIOCGIFHWADDR, SIOCGIFFLAGS.
pub data Query : Type 0 where
  index mtu hw_addr flags : Query

-- `struct ifaddrs`: a name, and an address if there is one, also as bytes in network order.
pub record Interface : Type 0 where
  pub name : List ℕ
  pub address : Option Address
  pub bytes : List ℕ

-- O_RDONLY, O_WRONLY, O_RDWR.
pub data OpenMode : Type 0 where
  read_only write_only read_write : OpenMode

pub data Detach : Type 0 where
  joinable detached : Detach

-- `struct termios`: the flags, VMIN and VTIME of `c_cc`, and the two speeds, which `cfsetospeed` and
-- `cfsetispeed` set.
pub record Termios : Type 0 where
  pub c_iflag : ℕ
  pub c_oflag : ℕ
  pub c_cflag : ℕ
  pub c_lflag : ℕ
  pub vmin : ℕ
  pub vtime : ℕ
  pub ospeed : ℕ
  pub ispeed : ℕ

-- `struct nlmsghdr`.
pub record NlHeader : Type 0 where
  pub nlmsg_len : ℕ
  pub nlmsg_type : ℕ
  pub nlmsg_flags : ℕ
  pub nlmsg_seq : ℕ
  pub nlmsg_pid : ℕ

-- A pointer is a number, and NULL is 0. A callback is the number of the application's function,
-- then the application's argument, then what the library passes.
pub data Call : Type 0 where
  malloc : Call
  free : ℕ → Call
  unlink : List ℕ → Call
  socket : Family → SocketType → Call
  set_reuse_addr set_no_delay : ℤ → Call
  bind : ℤ → Address → Call
  listen : ℤ → ℕ → Call
  accept : ℤ → Call
  connect : ℤ → Address → Call
  recv : ℤ → ℕ → Call
  send : ℤ → List ℕ → Call
  close : ℤ → Call
  thread_create : Detach → Task → Call
  thread_cancel thread_join : ℕ → Call
  thread_testcancel : Call
  acpt_callback exit_callback : ℕ → ℕ → ℕ → Call
  recv_callback : ℕ → ℕ → ℕ → List ℕ → Call
  recvfrom : ℤ → ℕ → Call
  sendto : ℤ → List ℕ → Address → Call
  datagram_callback : ℕ → ℕ → List ℕ → Option Address → Call
  interface_get : ℤ → Query → List ℕ → Call
  interface_set_flags : ℤ → List ℕ → ℕ → Call
  getifaddrs freeifaddrs : Call
  access mkfifo : List ℕ → Call
  open_file : List ℕ → OpenMode → Call
  read : ℤ → ℕ → Call
  write : ℤ → List ℕ → Call
  get_callback : ℕ → ℕ → List ℕ → Call
  close_callback : ℕ → ℕ → ℤ → Call
  usleep : ℕ → Call
  getpid : Call
  recvmsg : ℤ → ℕ → Call
  sendmsg : ℤ → NlHeader → List ℕ → Call
  netlink_callback : ℕ → ℕ → List ℕ → ℕ → ℕ → Call
  tcgetattr : ℤ → Call
  tcsetattr : ℤ → Termios → Call
  client_exit_callback : ℕ → ℕ → ℤ → Call
  client_recv_callback : ℕ → ℕ → List ℕ → Call
  getcwd : ℕ → Call
  inotify_init : Call
  inotify_add_watch : ℤ → List ℕ → Call
  inotify_rm_watch : ℤ → ℤ → Call

-- `value` is the call's result as an `int`, `pointer` the address or the thread that it gives,
-- `payload` the bytes that it writes, `source` the address of the peer,
-- `interfaces` the list that `getifaddrs` gives, `tty` what `tcgetattr` gives,
-- and `header` that of the message that `recvmsg` gives.
-- `pointer` is also the number that an ioctl gives, and `errno` after a `read` that fails.
-- The `value` of `pthread_testcancel` is not 0 if the thread ends there.
pub record Reply : Type 0 where
  pub value : ℤ
  pub pointer : ℕ
  pub payload : List ℕ
  pub source : Address
  pub interfaces : List Interface
  pub tty : Termios
  pub header : NlHeader

-- The calls and their answers, the newest first.
abbrev pub History : Type 0
History = List (Call × Reply)

pub record Os : Type 0 where
  pub reply : History → Call → Reply

-- What a component runs on: the calls made so far, and its own memory.
pub record World (S : Type 0) : Type 0 where
  pub history : History
  pub store : S

-- `none` is a use of memory that is not allocated.
abbrev pub M : Type 0 → Type 0 → Type 0
M S A = World S → Option (A × World S)

module _ {S : Type 0} where
  abbrev pub pure : {A : Type 0} → A → M S A
  pure a w = some (a, w)

  abbrev pub fault : {A : Type 0} → M S A
  fault w = none

  infixl 5 ◌>>=◌ ◌>>◌
  abbrev pub ◌>>=◌ : {A B : Type 0} → M S A → (A → M S B) → M S B
  ◌>>=◌ m f w = elim (m w) [ none ↦ none | some (a, w') ↦ f a w' ]

  abbrev pub ◌>>◌ : {A B : Type 0} → M S A → M S B → M S B
  m >> k = m >>= λ _. k

  abbrev pub skip : M S (Unit {0})
  skip = pure tt

  abbrev pub when : Bool → M S (Unit {0}) → M S (Unit {0})
  when true m = m
  when false m = skip

  -- One call: the oracle answers, and the history records both.
  abbrev pub call : Os → Call → M S Reply
  call os c w = let r = os.reply w.history c in some (r, record w { history = (c, r) ∷ w.history })

  abbrev pub perform : Os → Call → M S (Unit {0})
  perform os c w = some (tt, record w { history = (c, os.reply w.history c) ∷ w.history })

-- The thread ended at this cancellation point.
abbrev pub is_cancelled : Reply → Bool
is_cancelled r = not (is_zero r.value)
