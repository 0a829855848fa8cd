-- ===== src/Net/Socket/Queue.antt =====
-- Datagrams of kernel/net/socket.c arrive in the order in which they were sent, each in one piece.
use mathlib.Core.Option
use monolith.Net.Socket.{
  Datagram, RecvEntry, Socket, interrupted, received, socket_bind, socket_recvfrom,
  socket_rx_packet, waits,
}
use monolith.Prelude.{
  Bool-cases, List, Option, [], ap, append-nil, append_assoc, arith, false, if◌then◌else◌, inl, inr,
  length, ltb, none, refl, some, suc, sym, take, true, zero, ℕ, ◌++◌, ◌∙◌, ◌∷◌, ◌≡◌, ◌≤◌,
}
use monolith.Prelude.Errno.{Result, einval, err}

abbrev pub receive_all : Socket → List RecvEntry → Socket
receive_all sock [] = sock
receive_all sock (e ∷ es) = receive_all (socket_rx_packet sock e) es

-- Receives as often as the number says, and has the results in order; `none` if one has to wait.
abbrev pub read_all : ℕ → Socket → ℕ → Option (List Datagram)
read_all zero sock len = some []
read_all (suc n) sock len = elim (socket_recvfrom false sock len) [
  | waits ↦ none
  | interrupted ↦ none
  | received sock' d ↦ Option.map (λ ds. d ∷ ds) (read_all n sock' len)
]

-- a datagram as it is read into a buffer
abbrev pub cut_to : ℕ → RecvEntry → Datagram
cut_to len e = record { bytes = take len e.payload; src_addr = e.source; src_len = e.addrlen }

abbrev pub cut_all : ℕ → List RecvEntry → List Datagram
cut_all len [] = []
cut_all len (e ∷ es) = cut_to len e ∷ cut_all len es

take-all : (xs : List ℕ) (n : ℕ) → length xs ≤ n → take (length xs) xs ≡ take n xs
take-all [] zero h = refl
take-all [] (suc n) h = refl
take-all (x ∷ xs) zero h = absurd (omega arith)
take-all (x ∷ xs) (suc n) h = ap (λ ys. x ∷ ys) (take-all xs n (omega arith))

take-shorter :
    (xs : List ℕ) (n : ℕ) → take (if ltb n (length xs) then n else length xs) xs ≡ take n xs
take-shorter xs n = elim (Bool-cases (ltb n (length xs))) [
  | inl e ↦ rw e refl
  | inr e ↦ rw e (take-all xs n (ground arith))
]

receive_all-queue :
    (sock : Socket) (es : List RecvEntry) → (receive_all sock es).recv_queue ≡ sock.recv_queue ++ es
unfolding socket_rx_packet
receive_all-queue sock [] = sym (append-nil sock.recv_queue)
receive_all-queue sock (e ∷ es) =
    receive_all-queue (socket_rx_packet sock e) es ∙ append_assoc sock.recv_queue (e ∷ []) es

first_read :
    (sock : Socket) (e : RecvEntry) (es : List RecvEntry) (len : ℕ)
    → sock.recv_queue ≡ e ∷ es
    → socket_recvfrom false sock len ≡ received (record sock { recv_queue = es }) (cut_to len e)
unfolding socket_recvfrom
first_read sock e es len q = rw (socket_recvfrom, q, take-shorter e.payload len) refl

read_all-queue :
    (sock : Socket) (es : List RecvEntry) (len : ℕ)
    → sock.recv_queue ≡ es
    → read_all (length es) sock len ≡ some (cut_all len es)
read_all-queue sock [] len q = refl
read_all-queue sock (e ∷ es) len q =
    rw (read_all, first_read sock e es len q)
      (rw (read_all-queue (record sock { recv_queue = es }) es len refl) refl)

-- When datagrams arrive at a socket with an empty queue, as many calls of `socket_recvfrom` return
-- without waiting: each returns one of them, in the order of arrival, with the address of its
-- sender, and with its bytes cut to the length of the buffer.
pub receive-in_order :
    (sock : Socket) (es : List RecvEntry) (len : ℕ)
    → sock.recv_queue ≡ []
    → read_all (length es) (receive_all sock es) len ≡ some (cut_all len es)
receive-in_order sock es len empty =
    read_all-queue (receive_all sock es) es len
      (receive_all-queue sock es ∙ ap (λ q. q ++ es) empty)

-- `socket_bind` asks the domain with `bound` set. If the domain leaves it set, also where it fails,
-- every further call returns -EINVAL and changes nothing.
pub socket_bind-once :
    (sock sock' : Socket) (r : Result (Unit {0})) (bind : Socket → Socket × Result (Unit {0}))
    (again : Option (Socket → Socket × Result (Unit {0})))
    → sock.bound ≡ false
    → bind (record sock { bound = true }) ≡ (sock', r)
    → sock'.bound ≡ true
    → (socket_bind sock (some bind) ≡ (sock', r)) × (socket_bind sock' again ≡ (sock', err einval))
unfolding socket_bind
socket_bind-once sock sock' r bind again e reached kept =
    (rw (socket_bind, e) reached, rw (socket_bind, kept) refl)
