-- ===== src/Bus/Open.antt =====
-- src/socket/SocketCAN.cpp, lines 34-89: opening and closing a socket, as the system calls that are made.
use caneo.Common.{
  if_all, ℕ, ◌≡◌, refl, ◌⊎◌, inl, inr, Bool, not, Option, none, some, List, [], ◌∷◌, ◌++◌, arith,
  ◌==◌, if◌then◌else◌, Option-cases, take,
}
use caneo.Common.Text.{Text}
use caneo.Common.OrderedMap.{nat_key, text_key, pair_key}

-- The calls with the descriptor that they give or are given; `assign` hands it over to Boost.Asio.
pub data SystemCall : Type 0 where
  socket_call : Option ℕ → SystemCall
  get_index : ℕ → Text → SystemCall
  bind_to receive_own timestamping close assign assign_throws : ℕ → SystemCall

-- What the kernel answers: nothing and false stand for a negative result. `assigned` is whether Boost.Asio could
-- register the descriptor; else its `assign` throws and does not take the descriptor.
pub record Answers : Type 0 where
  pub fd : Option ℕ
  pub index : Bool
  pub bound : Bool
  pub own : Bool
  pub stamped : Bool
  pub assigned : Bool

pub data Error : Type 0 where
  no_socket no_index no_bind no_own_messages not_assigned : Error

abbrev pub Opened : Type 0
Opened = List SystemCall × (ℕ ⊎ Error)

-- `::close(fd)` before the exception.
give_up : List SystemCall → ℕ → Error → Opened
give_up calls fd e = (calls ++ (close fd ∷ []), inr e)

-- `strncpy` into a buffer for 15 bytes and the terminating zero.
device_name : Text → Text
device_name interface = take 15 interface

opened : Text → Answers → ℕ → Opened
unfolding give_up device_name
opened interface a fd =
    let asked = socket_call (some fd) ∷ get_index fd (device_name interface) ∷ [] in
    let bound = asked ++ (bind_to fd ∷ []) in
    let own = bound ++ (receive_own fd ∷ []) in
    if not a.index
    then give_up asked fd no_index
    else if not a.bound
    then give_up bound fd no_bind
    else if not a.own
    then give_up own fd no_own_messages
    else if not a.assigned
    then (own ++ (timestamping fd ∷ assign_throws fd ∷ []), inr not_assigned)
    else (own ++ (timestamping fd ∷ assign fd ∷ []), inl fd)

-- The constructor: time stamps that are refused are only reported.
unfoldable pub new_socket : Text → Answers → Opened
unfolding opened
new_socket interface a = elim a.fd [
  | none ↦ (socket_call none ∷ [], inr no_socket)
  | some fd ↦ opened interface a fd
]

-- What a handler of async_wait does: nothing after an error, else it drains the socket and waits again.
pub data Ready : Type 0 where
  ended reported drained_and_waits : Ready

unfoldable pub on_ready : Option Bool → Ready
on_ready none = drained_and_waits
on_ready (some aborted) = if aborted then ended else reported

-- Who has the descriptor: `misused` once it is used by another than its holder.
pub data Owner : Type 0 where
  nobody misused : Owner
  program closed asio : ℕ → Owner

-- A call with a descriptor, which the program must hold.
abbrev used_by : Owner → ℕ → (ℕ → Owner) → Owner
used_by (program fd) f next = if fd == f then next fd else misused
used_by _ f next = misused

unfoldable pub own_after : Owner → SystemCall → Owner
own_after nobody (socket_call (some fd)) = program fd
own_after nobody (socket_call none) = nobody
own_after o (socket_call r) = misused
own_after o (get_index fd name) = used_by o fd program
own_after o (bind_to fd) = used_by o fd program
own_after o (receive_own fd) = used_by o fd program
own_after o (timestamping fd) = used_by o fd program
own_after o (close fd) = used_by o fd closed
own_after o (assign fd) = used_by o fd asio
own_after o (assign_throws fd) = used_by o fd program

unfoldable pub owner : Owner → List SystemCall → Owner
unfolding own_after
owner o [] = o
owner o (c ∷ cs) = owner (own_after o c) cs

-- Who has it at the end: nobody where none was opened; after an exception of the constructor's own it is closed; where
-- `assign` throws, the constructor that is left still holds it, so that nobody will close it.
abbrev pub rightful : Option ℕ → ℕ ⊎ Error → Owner
rightful none r = nobody
rightful (some fd) (inl d) = asio d
rightful (some fd) (inr not_assigned) = program fd
rightful (some fd) (inr no_socket) = closed fd
rightful (some fd) (inr no_index) = closed fd
rightful (some fd) (inr no_bind) = closed fd
rightful (some fd) (inr no_own_messages) = closed fd

opened_lem :
    (interface : Text) (a : Answers) (fd : ℕ)
    → owner nobody (opened interface a fd).0 ≡ rightful (some fd) (opened interface a fd).1
unfolding opened owner
opened_lem interface a fd =
    let P : Opened → Type 0 = λ r. owner nobody r.0 ≡ rightful (some fd) r.1 in
    if_all P (not a.index) (λ _. ground arith)
      λ _.
        if_all P (not a.bound) (λ _. ground arith)
          λ _.
            if_all P (not a.own) (λ _. ground arith)
              λ _. if_all P (not a.assigned) (λ _. ground arith) (λ _. ground arith)

-- Whatever the kernel and Boost.Asio answer, the descriptor of the constructor is used by its holder only. It belongs
-- to Boost.Asio where the constructor returns, and is closed once, as the last call, where the constructor itself
-- throws after opening it; but where `assign` throws, it stays open and nobody holds it any more.
pub new_socket_lem :
    (interface : Text) (a : Answers)
    → owner nobody (new_socket interface a).0 ≡ rightful a.fd (new_socket interface a).1
unfolding new_socket owner
new_socket_lem interface a = elim (Option-cases a.fd) [
  | inl e ↦ rw (e, new_socket) refl
  | inr (fd, e) ↦ rw (e, new_socket) (opened_lem interface a fd)
]
