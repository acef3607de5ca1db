-- ===== src/Net/Flags.antt =====
-- What `set_nonblocking` does to the flags of a descriptor where it works by `fcntl`.
use async_io.Base.{ℕ, ◌≡◌, ◌∙◌, ap, sym, inl, inr, false, ok, Bool-cases}
use async_io.External.Sockets.{Sockets}
use async_io.Net.Create.{set_flags, set_nonblocking}

module _ (S : Sockets) where
  set_flags_lem :
      (o : S.Os) (fd : ℕ) (f : S.Flags)
      → S.fcntl_getfl o fd ≡ ok f
      → (set_flags S o fd (ok f)).1 ≡ ok tt
      → S.fcntl_getfl (set_flags S o fd (ok f)).0 fd ≡ ok (S.with_nonblock f)
  unfolding set_flags
  set_flags_lem o fd f e good = elim (Bool-cases (S.same_flags (S.with_nonblock f) f)) [
    | inl z ↦ rw (z, set_flags) (e ∙ ap ok (sym ((S.same_flags_iff (S.with_nonblock f) f).0 z)))
    | inr z ↦ rw (z, set_flags) (S.setfl_ok o fd (S.with_nonblock f) (rw (z, set_flags) at good))
  ]

  -- Where `set_nonblocking` works by `fcntl` and the flags of the descriptor can be read: if it
  -- succeeds, the flags are the old ones with `NONBLOCK`, whether or not it had to set them.
  set_nonblocking-flags :
      (o : S.Os) (fd : ℕ) (f : S.Flags)
      → S.has_fionbio ≡ false
      → S.fcntl_getfl o fd ≡ ok f
      → (set_nonblocking S o fd).1 ≡ ok tt
      → S.fcntl_getfl (set_nonblocking S o fd).0 fd ≡ ok (S.with_nonblock f)
  unfolding set_nonblocking
  set_nonblocking-flags o fd f h e =
      rw (h, e, set_nonblocking) (λ good. set_flags_lem o fd f e good)
