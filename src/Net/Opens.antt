-- ===== src/Net/Opens.antt =====
-- Which descriptors `set_nonblocking` and `connect` leave open.
use async_io.Base.{
  ℕ, ◌≡◌, refl, ap, ◌∙◌, sym, inl, inr, Bool, true, false, List, Option, none, some, IoResult, ok,
  err, arith, Bool-cases, not, ◌&&◌, if◌then◌else◌, ◌==◌,
}
use async_io.External.Sockets.{Sockets}
use async_io.Net.Create.{
  SocketAddr, check_tcp, check_unix, connect, connect_configured, connect_created, connect_result,
  connect_unix, convert_path_to_socket_address, create_socket, or_close, set_flags, set_nonblocking,
  setup_networking, start_tcp, start_unix, set_cloexec, then_cloexec, then_nonblocking, v4, v6,
}

module _ (S : Sockets) where
  -- No descriptor has been opened or closed.
  abbrev pub SameOpen : S.Os → S.Os → Type 0
  SameOpen o o' = (fd : ℕ) → S.is_open o' fd ≡ S.is_open o fd

  -- `s` is open and was not before; nothing else has changed.
  abbrev pub IsNew : S.Os → S.Os → ℕ → Type 0
  IsNew o o' s =
      (S.is_open o s ≡ false)
      × ((fd : ℕ) → S.is_open o' fd ≡ (if s == fd then true else S.is_open o fd))

  -- A new descriptor on success, and no leak on an error.
  abbrev pub Created : S.Os → S.Os × IoResult ℕ → Type 0
  Created o (o', ok s) = IsNew o o' s
  Created o (o', err e) = SameOpen o o'

  set_flags-SameOpen : (o : S.Os) (s : ℕ) (x : IoResult S.Flags) → SameOpen o (set_flags S o s x).0
  unfolding set_flags
  set_flags-SameOpen o s (err e) fd = refl
  set_flags-SameOpen o s (ok f) fd = elim (Bool-cases (S.same_flags (S.with_nonblock f) f)) [
    | inl e ↦ rw (e, set_flags) refl
    | inr e ↦ rw (e, set_flags) (S.is_open-fcntl_setfl o s (S.with_nonblock f) fd)
  ]

  pub set_nonblocking-SameOpen : (o : S.Os) (s : ℕ) → SameOpen o (set_nonblocking S o s).0
  unfolding set_nonblocking
  set_nonblocking-SameOpen o s fd = elim (Bool-cases S.has_fionbio) [
    | inl e ↦ rw (e, set_nonblocking) (S.is_open-ioctl_fionbio o s fd)
    | inr e ↦ rw (e, set_nonblocking) (set_flags-SameOpen o s (S.fcntl_getfl o s) fd)
  ]

  pub closed-SameOpen :
      (o o' o2 : S.Os) (s : ℕ) → IsNew o o' s → SameOpen o' o2 → SameOpen o (S.close o2 s)
  closed-SameOpen o o' o2 s (was, now) same fd =
      let c = S.is_open-close o2 s fd in
      let n = now fd in
      let u = same fd in
      elim (Bool-cases (s == fd)) [
        | inl e ↦ let at : s ≡ fd = ground arith in ground (arith, was, at)
        | inr e ↦ ground arith
      ]

  or_close-Created :
      (o o' : S.Os) (s : ℕ) (res : S.Os × IoResult (Unit {0}))
      → IsNew o o' s
      → SameOpen o' res.0
      → Created o (or_close S s res)
  unfolding or_close
  or_close-Created o o' s (o2, ok u) (was, now) same = (was, λ fd. same fd ∙ now fd)
  or_close-Created o o' s (o2, err e) new same = closed-SameOpen o o' o2 s new same

  set_cloexec-SameOpen :
      (o : S.Os) (s : ℕ) (x : IoResult S.FdFlags) → SameOpen o (set_cloexec S o s x).0
  unfolding set_cloexec
  set_cloexec-SameOpen o s (err e) fd = refl
  set_cloexec-SameOpen o s (ok f) fd = S.is_open-fcntl_setfd o s (S.with_cloexec f) fd

  then_cloexec-Created :
      (o : S.Os) (x : S.Os × IoResult ℕ) → Created o x → Created o (then_cloexec S x)
  unfolding then_cloexec
  then_cloexec-Created o (o', err e) c = c
  then_cloexec-Created o (o', ok s) c = elim (Bool-cases S.sets_cloexec) [
    | inl e ↦
        rw (e, then_cloexec)
          (or_close-Created o o' s (set_cloexec S o' s (S.fcntl_getfd o' s)) c
            (set_cloexec-SameOpen o' s (S.fcntl_getfd o' s)))
    | inr e ↦ rw (e, then_cloexec) c
  ]

  then_nonblocking-Created :
      (o : S.Os) (x : S.Os × IoResult ℕ) → Created o x → Created o (then_nonblocking S x)
  unfolding then_nonblocking
  then_nonblocking-Created o (o', err e) c = c
  then_nonblocking-Created o (o', ok s) c =
      or_close-Created o o' s (set_nonblocking S o' s) c (set_nonblocking-SameOpen o' s)

  socket_with-Created :
      (o : S.Os) (b : Bool) (domain : S.Family) (protocol : Option S.Protocol)
      → Created o (S.socket_with o b domain protocol)
  socket_with-Created o b domain protocol = go (S.socket_with o b domain protocol) refl
    where
      go : (x : S.Os × IoResult ℕ) → S.socket_with o b domain protocol ≡ x → Created o x
      go (o', ok s) e =
          let (was, now) = S.socket_ok o b domain protocol s (ap (λ x. x.1) e) in
          (was, λ fd. ap (λ x. S.is_open x.0 fd) (sym e) ∙ now fd)
      go (o', err k) e = λ fd.
          ap (λ x. S.is_open x.0 fd) (sym e)
          ∙ S.socket_err o b domain protocol k (ap (λ x. x.1) e) fd

  create_socket-Created :
      (o : S.Os) (domain : S.Family) (protocol : Option S.Protocol)
      → Created o (create_socket S o domain protocol)
  unfolding create_socket
  create_socket-Created o domain protocol = elim (Bool-cases S.creates_nonblocking) [
    | inl e ↦ rw (e, create_socket) (socket_with-Created o true domain protocol)
    | inr e ↦
        rw (e, create_socket)
          (then_nonblocking-Created o (then_cloexec S (S.socket_with o false domain protocol)) (
            then_cloexec-Created o (S.socket_with o false domain protocol)
              (socket_with-Created o false domain protocol)))
  ]

  connect_configured-Created :
      (o o' : S.Os) (addr : S.Address) (s : ℕ) (x : S.Os × IoResult (Unit {0}))
      → IsNew o o' s
      → SameOpen o' x.0
      → Created o (connect_configured S addr s x)
  unfolding connect_configured
  connect_configured-Created o o' addr s (o2, err e) new same = closed-SameOpen o o' o2 s new same
  connect_configured-Created o o' addr s (o2, ok u) new same =
      let answer = S.connect o2 s addr in
      or_close-Created o o' s (answer.0, connect_result S answer.1) new
        (λ fd. S.is_open-connect o2 s addr fd ∙ same fd)

  connect_created-Created :
      (o : S.Os) (addr : S.Address) (x : S.Os × IoResult ℕ)
      → Created o x
      → Created o (connect_created S addr x)
  unfolding connect_created
  connect_created-Created o addr (o', err e) c = c
  connect_created-Created o addr (o', ok s) c =
      connect_configured-Created o o' addr s (S.configure o' s) c (S.is_open-configure o' s)

  setup_networking-SameOpen : (o : S.Os) → SameOpen o (setup_networking S o)
  unfolding setup_networking
  setup_networking-SameOpen o fd = elim (Bool-cases (S.is_windows && not (S.wsa_called o))) [
    | inl e ↦ rw (e, setup_networking) (S.is_open-wsa_startup o fd)
    | inr e ↦ rw (e, setup_networking) refl
  ]

  Created-after : (o o' : S.Os) (x : S.Os × IoResult ℕ) → SameOpen o o' → Created o' x → Created o x
  Created-after o o' (o2, err e) same c = λ fd. c fd ∙ same fd
  Created-after o o' (o2, ok s) same (was, now) =
      (sym (same s) ∙ was, λ fd. rw (← same fd) (now fd))

  -- `connect` either succeeds with a socket that is the one descriptor opened, or it returns an
  -- error and leaves exactly the descriptors open that were open before.
  pub connect-Created :
      (o : S.Os) (addr : S.Address) (domain : S.Family) (protocol : Option S.Protocol)
      → Created o (connect S o addr domain protocol)
  unfolding connect
  connect-Created o addr domain protocol =
      let o' = setup_networking S o in
      Created-after o o' _ (setup_networking-SameOpen o) (
        connect_created-Created o' addr (create_socket S o' domain protocol)
          (create_socket-Created o' domain protocol))

  connect_unix-Created : (o : S.Os) (x : IoResult S.Address) → Created o (connect_unix S o x)
  unfolding connect_unix
  connect_unix-Created o (err e) = λ fd. refl
  connect_unix-Created o (ok addr) = connect-Created o addr S.unix none

  pub start_tcp-Created : (addr : SocketAddr S.Address) (o : S.Os) → Created o (start_tcp S addr o)
  unfolding start_tcp
  start_tcp-Created (v4 addr) o = connect-Created o addr S.inet (some S.tcp)
  start_tcp-Created (v6 addr) o = connect-Created o addr S.inet6 (some S.tcp)

  pub start_unix-Created : (path : List ℕ) (o : S.Os) → Created o (start_unix S path o)
  unfolding start_unix
  start_unix-Created path o = connect_unix-Created o (convert_path_to_socket_address S path)

  pub check_tcp-SameOpen : (o : S.Os) (s : ℕ) → SameOpen o (check_tcp S o s).0
  unfolding check_tcp
  check_tcp-SameOpen o s = S.is_open-take_error o s

  pub check_unix-SameOpen : (o : S.Os) (s : ℕ) → SameOpen o (check_unix S o s).0
  unfolding check_unix
  check_unix-SameOpen o s fd = refl
