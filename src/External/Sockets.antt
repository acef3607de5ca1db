-- ===== src/External/Sockets.antt =====
-- Sockets as `src/lib.rs` uses them through `rustix` and the standard library. A socket stands by its
-- descriptor; what the operating system keeps of the sockets is the state.
use async_io.Base.{
  ℕ, ◌≡◌, ◌↔◌, Bool, true, false, List, Option, ErrorKind, IoResult, ok, err, if◌then◌else◌, ◌==◌,
}

-- The errors of `connect` that the program tells apart, and all others.
pub data Errno : Type 0 where
  inprogress again wouldblock : Errno
  errno : ErrorKind → Errno

pub record Sockets : Type 1 where
  pub Os : Type 0
  pub Address : Type 0
  pub Family : Type 0
  pub Protocol : Type 0
  pub Flags : Type 0
  pub FdFlags : Type 0
  -- The address families and protocols that the program names.
  pub inet : Family
  pub inet6 : Family
  pub unix : Family
  pub tcp : Protocol
  -- Whether the platform has `ioctl(FIONBIO)`, and whether it creates non-blocking sockets.
  pub has_fionbio : Bool
  pub creates_nonblocking : Bool
  -- Whether the platform is Windows, and there `wsa_startup`, with whether the program has called it.
  pub is_windows : Bool
  pub wsa_startup : Os → Os × IoResult (Unit {0})
  pub wsa_called : Os → Bool
  -- Whether the platform has no flag for a socket that closes on exec, so that `fcntl` sets it, and
  -- whether it has abstract Unix sockets.
  pub sets_cloexec : Bool
  pub has_abstract : Bool
  -- `socket_with`, with the flag `NONBLOCK` or without it, and `CLOEXEC` where the platform has it.
  pub socket_with : Os → Bool → Family → Option Protocol → Os × IoResult ℕ
  -- `set_socket_nosigpipe` or `SetHandleInformation` on the platforms that need them.
  pub configure : Os → ℕ → Os × IoResult (Unit {0})
  -- `none` is success.
  pub connect : Os → ℕ → Address → Os × Option Errno
  pub ioctl_fionbio : Os → ℕ → Os × IoResult (Unit {0})
  pub fcntl_getfl : Os → ℕ → IoResult Flags
  pub fcntl_setfl : Os → ℕ → Flags → Os × IoResult (Unit {0})
  pub fcntl_getfd : Os → ℕ → IoResult FdFlags
  pub fcntl_setfd : Os → ℕ → FdFlags → Os × IoResult (Unit {0})
  pub with_cloexec : FdFlags → FdFlags
  pub take_error : Os → ℕ → Os × IoResult (Option ErrorKind)
  pub peer_addr : Os → ℕ → IoResult Address
  pub pair : Os → Os × IoResult (ℕ × ℕ)
  -- What the drop of a socket does.
  pub close : Os → ℕ → Os
  -- `SocketAddrUnix::new` and `new_abstract_name`, over bytes.
  pub unix_path : List ℕ → IoResult Address
  pub unix_abstract : List ℕ → IoResult Address
  -- `OFlags`: the flags with `NONBLOCK`, and their comparison.
  pub with_nonblock : Flags → Flags
  pub same_flags : Flags → Flags → Bool
  pub same_flags_iff : (f g : Flags) → (same_flags f g ≡ true) ↔ (f ≡ g)
  pub setfl_ok :
      (o : Os) (fd : ℕ) (f : Flags)
      → (fcntl_setfl o fd f).1 ≡ ok tt
      → fcntl_getfl (fcntl_setfl o fd f).0 fd ≡ ok f
  -- The open descriptors.
  pub is_open : Os → ℕ → Bool
  pub socket_ok :
      (o : Os) (b : Bool) (family : Family) (p : Option Protocol) (s : ℕ)
      → (socket_with o b family p).1 ≡ ok s
      → (is_open o s ≡ false)
        × ((fd : ℕ)
            → is_open (socket_with o b family p).0 fd ≡ (if s == fd then true else is_open o fd))
  pub socket_err :
      (o : Os) (b : Bool) (family : Family) (p : Option Protocol) (e : ErrorKind)
      → (socket_with o b family p).1 ≡ err e
      → (fd : ℕ) → is_open (socket_with o b family p).0 fd ≡ is_open o fd
  pub pair_ok :
      (o : Os) (s t : ℕ)
      → (pair o).1 ≡ ok (s, t)
      → ((s == t) ≡ false)
        × (is_open o s ≡ false)
        × (is_open o t ≡ false)
        × ((fd : ℕ)
            → is_open (pair o).0 fd
              ≡ (if s == fd then true else (if t == fd then true else is_open o fd)))
  pub pair_err :
      (o : Os) (e : ErrorKind)
      → (pair o).1 ≡ err e
      → (fd : ℕ) → is_open (pair o).0 fd ≡ is_open o fd
  pub is_open-close :
      (o : Os) (s fd : ℕ) → is_open (close o s) fd ≡ (if s == fd then false else is_open o fd)
  pub is_open-wsa_startup : (o : Os) (fd : ℕ) → is_open (wsa_startup o).0 fd ≡ is_open o fd
  pub wsa_called-wsa_startup : (o : Os) → wsa_called (wsa_startup o).0 ≡ true
  pub is_open-configure : (o : Os) (s fd : ℕ) → is_open (configure o s).0 fd ≡ is_open o fd
  pub is_open-connect :
      (o : Os) (s : ℕ) (a : Address) (fd : ℕ) → is_open (connect o s a).0 fd ≡ is_open o fd
  pub is_open-ioctl_fionbio : (o : Os) (s fd : ℕ) → is_open (ioctl_fionbio o s).0 fd ≡ is_open o fd
  pub is_open-fcntl_setfl :
      (o : Os) (s : ℕ) (f : Flags) (fd : ℕ) → is_open (fcntl_setfl o s f).0 fd ≡ is_open o fd
  pub is_open-fcntl_setfd :
      (o : Os) (s : ℕ) (f : FdFlags) (fd : ℕ) → is_open (fcntl_setfd o s f).0 fd ≡ is_open o fd
  pub is_open-take_error : (o : Os) (s fd : ℕ) → is_open (take_error o s).0 fd ≡ is_open o fd
