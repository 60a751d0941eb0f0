-- ===== src/Capability/Router/Release.antt =====
-- What the caller of `await lease.release()` sees, exceptions of the retire callback included.
use luna_agent.Prelude.{
  ℕ, ◌≡◌, refl, ap, ◌∙◌, ◌⊎◌, inl, inr, Bool, true, false, some, if◌then◌else◌,
}
use luna_agent.Capability.Failure.{Result, ok, err, retire_failed}
use luna_agent.Capability.Store.{CapabilityLease, lease_at}
use luna_agent.Capability.Store.History.{release_lease_settled, release_lease_open, lease_at-marked}
use luna_agent.Capability.Router.{retire_all}
use luna_agent.Capability.Router.History.{World, Inv, leased, released, release}

settled :
    (w : World) (i : ℕ) (l : CapabilityLease)
    → lease_at w.leases i ≡ some l
    → l.released ≡ true
    → release w i ≡ (w, ok tt)
unfolding release retire_all
settled w i l at_i gone = ap (released w) (release_lease_settled (leased w) i l at_i gone)

told :
    (b : Bool)
    → let r : Result (Unit {0}) = if b then ok tt else err retire_failed in
      (r ≡ ok tt) ⊎ (r ≡ err retire_failed)
told true = inl refl
told false = inr refl

-- In a world whose store agrees with its leases, releasing an open lease returns, or raises since
-- the retire callback did; the lease is closed either way, and releasing it again right after
-- returns and changes nothing.
pub release_twice :
    (w : World) (i : ℕ) (l : CapabilityLease)
    → Inv w
    → lease_at w.leases i ≡ some l
    → l.released ≡ false
    → let first = release w i in
      ((first.1 ≡ ok tt) ⊎ (first.1 ≡ err retire_failed))
      × (lease_at first.0.leases i ≡ some (record l { released = true }))
      × (release first.0 i ≡ (first.0, ok tt))
unfolding release
release_twice w i l inv at_i live =
    let opened = release_lease_open (leased w) i l inv at_i live in
    let now = ap (released w) opened in
    let closed = ap (λ x. lease_at x.0.leases i) now ∙ lease_at-marked w.leases i l at_i in
    (
      rw opened (told _),
      closed,
      settled (release w i).0 i (record l { released = true }) closed refl,
    )
