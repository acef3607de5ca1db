-- ===== src/Net/Create.antt =====
-- `src/lib.rs`: `set_nonblocking`, `connect` and `convert_path_to_socket_address`, and what the
-- `async fn connect` of TCP and of Unix sockets begin and end with.
use async_io.Base.{
  ℕ, zero, suc, true, false, List, [], ◌∷◌, Option, none, some, ErrorKind, IoResult, ok, err, other,
  if◌then◌else◌, not, ◌&&◌,
}
use async_io.External.Sockets.{Sockets, Errno, inprogress, again, wouldblock, errno}

-- `std::net::SocketAddr`, with the address as `rustix` takes it.
pub data SocketAddr (A : Type 0) : Type 0 where
  v4 v6 : A → SocketAddr A

module _ (S : Sockets) where
  -- `set_nonblocking` by `fcntl`, from the flags read.
  unfoldable pub set_flags : S.Os → ℕ → IoResult S.Flags → S.Os × IoResult (Unit {0})
  set_flags o fd (err e) = (o, err e)
  set_flags o fd (ok previous) =
      let new = S.with_nonblock previous in
      if S.same_flags new previous then (o, ok tt) else S.fcntl_setfl o fd new

  -- `set_nonblocking`.
  unfoldable pub set_nonblocking : S.Os → ℕ → S.Os × IoResult (Unit {0})
  unfolding set_flags
  set_nonblocking o fd =
      if S.has_fionbio then S.ioctl_fionbio o fd else set_flags o fd (S.fcntl_getfl o fd)

  -- An error after the socket has been created closes it.
  unfoldable pub or_close : ℕ → S.Os × IoResult (Unit {0}) → S.Os × IoResult ℕ
  or_close s (o, ok _) = (o, ok s)
  or_close s (o, err e) = (S.close o s, err e)

  unfoldable pub then_nonblocking : S.Os × IoResult ℕ → S.Os × IoResult ℕ
  unfolding set_nonblocking or_close
  then_nonblocking (o, err e) = (o, err e)
  then_nonblocking (o, ok s) = or_close s (set_nonblocking o s)

  -- Close-on-exec by `fcntl`, from the flags read.
  unfoldable pub set_cloexec : S.Os → ℕ → IoResult S.FdFlags → S.Os × IoResult (Unit {0})
  set_cloexec o fd (err e) = (o, err e)
  set_cloexec o fd (ok flags) = S.fcntl_setfd o fd (S.with_cloexec flags)

  unfoldable pub then_cloexec : S.Os × IoResult ℕ → S.Os × IoResult ℕ
  unfolding set_cloexec or_close
  then_cloexec (o, err e) = (o, err e)
  then_cloexec (o, ok s) =
      if S.sets_cloexec then or_close s (set_cloexec o s (S.fcntl_getfd o s)) else (o, ok s)

  -- The socket of `connect`: created non-blocking, or put in that mode afterwards.
  unfoldable pub create_socket : S.Os → S.Family → Option S.Protocol → S.Os × IoResult ℕ
  unfolding then_nonblocking then_cloexec
  create_socket o domain protocol =
      if S.creates_nonblocking
      then S.socket_with o true domain protocol
      else then_nonblocking (then_cloexec (S.socket_with o false domain protocol))

  -- What `connect` takes for the beginning of a connection: `INPROGRESS` on Unix only.
  unfoldable pub connect_result : Option Errno → IoResult (Unit {0})
  connect_result none = ok tt
  connect_result (some inprogress) = if S.is_windows then err other else ok tt
  connect_result (some again) = ok tt
  connect_result (some wouldblock) = ok tt
  connect_result (some (errno e)) = err e

  -- The system's `connect`, once the socket is configured.
  unfoldable pub connect_configured : S.Address → ℕ → S.Os × IoResult (Unit {0}) → S.Os × IoResult ℕ
  unfolding or_close connect_result
  connect_configured addr s (o, err e) = (S.close o s, err e)
  connect_configured addr s (o, ok _) =
      let (o', answer) = S.connect o s addr in or_close s (o', connect_result answer)

  unfoldable pub connect_created : S.Address → S.Os × IoResult ℕ → S.Os × IoResult ℕ
  unfolding connect_configured
  connect_created addr (o, err e) = (o, err e)
  connect_created addr (o, ok s) = connect_configured addr s (S.configure o s)

  -- `setup_networking`: `INIT` has run its closure if the program has called `wsa_startup`, whose
  -- result is not looked at.
  unfoldable pub setup_networking : S.Os → S.Os
  setup_networking o = if S.is_windows && not (S.wsa_called o) then (S.wsa_startup o).0 else o

  -- `connect`.
  unfoldable pub connect : S.Os → S.Address → S.Family → Option S.Protocol → S.Os × IoResult ℕ
  unfolding setup_networking create_socket connect_created
  connect o addr domain protocol =
      connect_created addr (create_socket (setup_networking o) domain protocol)

  -- The match on the first byte of the path, on Linux and Android.
  unfoldable pub abstract_or_path : List ℕ → IoResult S.Address
  abstract_or_path [] = S.unix_path []
  abstract_or_path (zero ∷ name) = S.unix_abstract name
  abstract_or_path (suc b ∷ path) = S.unix_path (suc b ∷ path)

  unfoldable pub convert_path_to_socket_address : List ℕ → IoResult S.Address
  unfolding abstract_or_path
  convert_path_to_socket_address path =
      if S.has_abstract then abstract_or_path path else S.unix_path path

  -- The check of a TCP stream that has become writable: `take_error()?` and the `match`.
  unfoldable pub pending_error : IoResult (Option ErrorKind) → IoResult (Unit {0})
  pending_error (ok none) = ok tt
  pending_error (ok (some e)) = err e
  pending_error (err e) = err e

  unfoldable pub check_tcp : S.Os → ℕ → S.Os × IoResult (Unit {0})
  unfolding pending_error
  check_tcp o s = let (o', res) = S.take_error o s in (o', pending_error res)

  -- The check of a stream of a Unix socket: `peer_addr()?`.
  unfoldable pub found_peer : IoResult S.Address → IoResult (Unit {0})
  found_peer (ok addr) = ok tt
  found_peer (err e) = err e

  unfoldable pub check_unix : S.Os → ℕ → S.Os × IoResult (Unit {0})
  unfolding found_peer
  check_unix o s = (o, found_peer (S.peer_addr o s))

  -- What the two `async fn connect` begin with.
  unfoldable pub start_tcp : SocketAddr S.Address → S.Os → S.Os × IoResult ℕ
  unfolding connect
  start_tcp (v4 addr) o = connect o addr S.inet (some S.tcp)
  start_tcp (v6 addr) o = connect o addr S.inet6 (some S.tcp)

  unfoldable pub connect_unix : S.Os → IoResult S.Address → S.Os × IoResult ℕ
  unfolding connect
  connect_unix o (err e) = (o, err e)
  connect_unix o (ok addr) = connect o addr S.unix none

  unfoldable pub start_unix : List ℕ → S.Os → S.Os × IoResult ℕ
  unfolding connect_unix convert_path_to_socket_address
  start_unix path o = connect_unix o (convert_path_to_socket_address path)
