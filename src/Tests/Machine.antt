-- ===== src/Tests/Machine.antt =====
-- An operating system that grants everything: memory and descriptors are never given twice, and
-- a connection carries two messages of two bytes, as does a datagram socket, which fails then.
use libcomm.Prelude.{
  ◌-◌, ℕ, zero, suc, ◌+◌, ◌≤◌, ◌≡◌, true, arith, ◌⊎◌, ℤ, pos, negsuc, List, [], ◌∷◌, length, take,
  ltb, some, minus_one, is_negative, is_positive, not, if◌then◌else◌, Bool,
}
use libcomm.Os.{
  Family, Address, Call, malloc, socket, accept, recv, recvfrom, recvmsg, open_file, read,
  interface_get, getifaddrs, Interface, Reply, History, Os,
}
use libcomm.Threads.{FiniteStream}
use libcomm.Datagram.RecvTask.{FiniteDatagrams}
use libcomm.Fifo.GetTask.{FinitePipe}
use libcomm.Netlink.RecvTask.{FiniteKernel}
use libcomm.Memory.{
  is_live, is_open, block_after, fd_after, FreshBlocks, FreshSockets, FreshAccepts, RecvFits,
  FreshFiles, ReadFits, RecvfromFits,
}

-- The sums of the pointers and of the numbers answered so far: no pointer or descriptor is larger.
abbrev pub pointers : History → ℕ
pointers [] = 0
pointers ((c, r) ∷ h) = r.pointer + pointers h

abbrev pub size : ℤ → ℕ
size (pos n) = n
size (negsuc n) = 0

abbrev pub numbers : History → ℕ
numbers [] = 0
numbers ((c, r) ∷ h) = size r.value + numbers h

abbrev pub receipt : Call → ℕ
receipt (recv fd n) = 1
receipt (recvfrom fd n) = 1
receipt (read fd n) = 1
receipt (recvmsg fd n) = 1
receipt _ = 0

abbrev pub receipts : History → ℕ
receipts [] = 0
receipts ((c, r) ∷ h) = receipt c + receipts h

abbrev pub nowhere : Address
nowhere = record { family = Family.inet; host = 0; port = 0; path = [] }

abbrev pub answer : ℤ → ℕ → List ℕ → Reply
answer value pointer payload = record {
  value = value;
  pointer = pointer;
  payload = payload;
  source = nowhere;
  interfaces = [];
  tty = record {
    c_iflag = 1280;
    c_oflag = 5;
    c_cflag = 191;
    c_lflag = 35387;
    vmin = 1;
    vtime = 0;
    ospeed = 15;
    ispeed = 15;
  };
  header = record { nlmsg_len = 16; nlmsg_type = 0; nlmsg_flags = 0; nlmsg_seq = 0; nlmsg_pid = 0 };
}

abbrev pub message : History → ℕ → List ℕ
message h n = if ltb (receipts h) 2 then take n (7 ∷ 9 ∷ []) else []

-- Two network interfaces, `lo` and `en`.
abbrev pub host_address : Family → ℕ → Address
host_address family host = record { family = family; host = host; port = 0; path = [] }

abbrev pub loopback : Interface
loopback = record {
  name = 108 ∷ 111 ∷ [];
  address = some (host_address Family.inet 2130706433);
  bytes = 127 ∷ 0 ∷ 0 ∷ 1 ∷ [];
}

abbrev pub ethernet : Interface
ethernet = record {
  name = 101 ∷ 110 ∷ [];
  address = some (host_address Family.inet 3232235777);
  bytes = 192 ∷ 168 ∷ 1 ∷ 1 ∷ [];
}

abbrev pub datagram : History → ℕ → Reply
datagram h n =
    if ltb (receipts h) 2
    then answer (pos (length (message h n))) 0 (message h n)
    else answer minus_one 0 []

abbrev pub respond : History → Call → Reply
respond h malloc = answer (pos 0) (suc (pointers h)) []
respond h (socket f t) = answer (pos (3 + numbers h)) 0 []
respond h (accept fd) = answer (pos (3 + numbers h)) 0 []
respond h (recv fd n) = answer (pos (length (message h n))) 0 (message h n)
respond h (open_file path mode) = answer (pos (3 + numbers h)) 0 []
respond h (read fd n) = answer (pos (length (message h n))) 0 (message h n)
respond h (recvfrom fd n) = datagram h n
respond h (recvmsg fd n) = answer (pos (length (message h n))) 0 (message h n)
respond h (interface_get fd query name) = answer (pos 0) 4098 []
respond h getifaddrs = record (answer (pos 0) 0 []) { interfaces = loopback ∷ ethernet ∷ [] }
respond h _ = answer (pos 0) 0 []

abbrev pub machine : Os
machine = record { reply = respond }

block_cases :
    (c : Call) (r : Reply) (p : ℕ) (b : Bool)
    → block_after c r p b ≡ true
    → (p ≡ r.pointer) ⊎ (b ≡ true)
block_cases c r p b e = ground arith

is_live-le : (h : History) (p : ℕ) → is_live h p ≡ true → p ≤ pointers h
is_live-le [] p e = cc
is_live-le ((c, r) ∷ h) p e = ground (arith, block_cases c r p (is_live h p) e, is_live-le h p)

pub machine-FreshBlocks : FreshBlocks machine
machine-FreshBlocks h = ground (arith, is_live-le h (suc (pointers h)))

fd_cases :
    (c : Call) (r : Reply) (fd : ℤ) (b : Bool)
    → fd_after c r fd b ≡ true
    → (size fd ≤ size r.value) ⊎ (b ≡ true)
fd_cases c r p b e = ground arith

is_open-le : (h : History) (fd : ℤ) → is_open h fd ≡ true → size fd ≤ numbers h
is_open-le [] fd e = cc
is_open-le ((c, r) ∷ h) fd e = ground (arith, fd_cases c r fd (is_open h fd) e, is_open-le h fd)

pub machine-FreshSockets : FreshSockets machine
machine-FreshSockets h f t = ground (arith, is_open-le h (pos (3 + numbers h)))

pub machine-FreshAccepts : FreshAccepts machine
machine-FreshAccepts h fd = ground (arith, is_open-le h (pos (3 + numbers h)))

length-take-le : (n : ℕ) (xs : List ℕ) → length (take n xs) ≤ n
length-take-le zero xs = omega arith
length-take-le (suc n) [] = omega arith
length-take-le (suc n) (x ∷ xs) = omega (arith, length-take-le n xs)

pub machine-RecvFits : RecvFits machine
machine-RecvFits h fd n m e = ground (arith, length-take-le n (7 ∷ 9 ∷ []))

pub machine-RecvfromFits : RecvfromFits machine
machine-RecvfromFits h fd n m e = ground (arith, length-take-le n (7 ∷ 9 ∷ []))

-- Two messages at most.
abbrev pub messages_left : History → ℕ
messages_left h = 2 - receipts h

pub machine-FiniteStream : (fd : ℤ) → FiniteStream machine fd messages_left
machine-FiniteStream fd = record { used = λ h n e. ground (arith, e); kept = λ h c. omega arith }

pub machine-FiniteDatagrams : (fd : ℤ) → FiniteDatagrams machine is_negative fd messages_left
machine-FiniteDatagrams fd = record { used = λ h n e. ground (arith, e); kept = λ h c. omega arith }

pub machine-FinitePositive :
    (fd : ℤ) → FiniteDatagrams machine (λ v. not (is_positive v)) fd messages_left
machine-FinitePositive fd = record { used = λ h n e. ground (arith, e); kept = λ h c. omega arith }

pub machine-FreshFiles : FreshFiles machine
machine-FreshFiles h f m = ground (arith, is_open-le h (pos (3 + numbers h)))

pub machine-ReadFits : ReadFits machine
machine-ReadFits h fd n m e = ground (arith, length-take-le n (7 ∷ 9 ∷ []))

pub machine-FinitePipe : (fd : ℤ) → FinitePipe machine fd messages_left
machine-FinitePipe fd = record { used = λ h n e. ground (arith, e); kept = λ h c. omega arith }

pub machine-FiniteKernel : (fd : ℤ) → FiniteKernel machine fd messages_left
machine-FiniteKernel fd = record { used = λ h n e. ground (arith, e); kept = λ h c. omega arith }
