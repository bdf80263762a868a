-- ===== src/Reconcile/Creation.antt =====
-- When the provisioning stage may create a Job (internal/reconcile/provisioning.go).
use perfeng_control_plane.Base.{
  Bool, true, false, Option, none, some, not, ◌==◌, ◌&&◌, ◌||◌, if◌then◌else◌, ◌≡◌, refl, arith,
}
use perfeng_control_plane.Base.Int.{ℤ}
use perfeng_control_plane.Text.{Text}
use perfeng_control_plane.Errors.{Result, ok, err}
use perfeng_control_plane.Run.Claims.{Claim}
use perfeng_control_plane.Reconcile.Stage.{valid_owned_claim}
use perfeng_control_plane.Reconcile.Bound.{Execution}
use perfeng_control_plane.Reconcile.Provision.{
  World, is_cancelling, is_provisioning, recover_cancellation, dispatch_renewed, dispatch_resolved,
  dispatch_and_bind, observed, reconcile,
}

abbrev unbound : {S : Type 0} → S × Result (Option Execution) → Bool
unbound (s, ok none) = true
unbound (s, ok (some e)) = false
unbound (s, err e) = false

-- The renewed claim shows the Run as the attempt has it.
abbrev renewed_as : {S : Type 0} → Claim → S × Result Claim → Bool
renewed_as c (s, ok current) =
    is_provisioning current.run.state && current.run.revision == c.run.revision
renewed_as c (s, err e) = false

unfoldable pub may_create : {S Job : Type 0} → World S Job → ℤ → S → Claim → Bool
may_create w ttl s c =
    let seen = w.get_execution s c.lease in
    let resolved = w.resolve_job seen.0 c.lease.principal c.run in
    is_provisioning c.run.state
    && unbound seen
    && renewed_as c (w.renew_claim resolved.0 c.lease ttl)

branch :
    {A : Type 0} (b : Bool) (x y z : A)
    → b ≡ false
    → (if not b then x else y) ≡ (if not b then x else z)
branch true x y z h = absurd (ground (arith, h))
branch false x y z h = refl

cancelled_branch :
    {A : Type 0} (p q r : Bool) (x y z : A)
    → (p || q) ≡ true
    → (p && true && r) ≡ false
    → (r ≡ false → y ≡ z)
    → (if q then x else y) ≡ (if q then x else z)
cancelled_branch p true r x y z h k same = refl
cancelled_branch true false true x y z h k same = absurd (ground (arith, k))
cancelled_branch true false false x y z h k same = same refl
cancelled_branch false false r x y z h k same = absurd (ground (arith, h))

module _ {S Job : Type 0} (dns_label : Text → Bool) (w : World S Job) (ttl : ℤ)
    (ensure : S → Text → Job → S × Result Execution) where
  abbrev other : World S Job
  other = record w { ensure_job = ensure }

  renewed_lem :
      (c : Claim) (job : Job) (r : S × Result Claim)
      → renewed_as c r ≡ false
      → dispatch_renewed dns_label other ttl c job r ≡ dispatch_renewed dns_label w ttl c job r
  renewed_lem c job (s, err e) h = refl
  renewed_lem c job (s, ok current) h =
      branch (is_provisioning current.run.state && current.run.revision == c.run.revision) _ _ _ h

  resolved_lem :
      (c : Claim) (r : S × Result (Option Job))
      → renewed_as c (w.renew_claim r.0 c.lease ttl) ≡ false
      → dispatch_resolved dns_label other ttl c r ≡ dispatch_resolved dns_label w ttl c r
  resolved_lem c (s, err e) h = refl
  resolved_lem c (s, ok none) h = refl
  resolved_lem c (s, ok (some job)) h = renewed_lem c job (w.renew_claim s c.lease ttl) h

  observed_lem :
      (c : Claim) (r : S × Result (Option Execution))
      → (is_provisioning c.run.state || is_cancelling c.run.state) ≡ true
      → (is_provisioning c.run.state
          && unbound r
          && renewed_as c (w.renew_claim (w.resolve_job r.0 c.lease.principal c.run).0 c.lease ttl))
        ≡ false
      → observed dns_label other ttl c r ≡ observed dns_label w ttl c r
  unfolding recover_cancellation dispatch_and_bind
  observed_lem c (s, err e) h k = refl
  observed_lem c (s, ok (some e)) h k = refl
  observed_lem c (s, ok none) h k =
      cancelled_branch (is_provisioning c.run.state) (is_cancelling c.run.state)
        (renewed_as c (w.renew_claim (w.resolve_job s c.lease.principal c.run).0 c.lease ttl)) _ _ _
        h k (resolved_lem c (w.resolve_job s c.lease.principal c.run))

  handled :
      {A : Type 0} (owned stage : Bool) (x y a b : A)
      → (stage ≡ true → a ≡ b)
      → (if not owned then x else if not stage then y else a)
        ≡ (if not owned then x else if not stage then y else b)
  handled false stage x y a b same = refl
  handled true false x y a b same = refl
  handled true true x y a b same = same refl

  -- When the Run is not PROVISIONING, has a bound execution, or is not renewed as the attempt has it,
  -- the result of the attempt is the same whatever the creation of a Job would do.
  pub reconcile-ensure_job :
      (s : S) (c : Claim)
      → may_create w ttl s c ≡ false
      → reconcile dns_label other ttl s c ≡ reconcile dns_label w ttl s c
  unfolding reconcile may_create
  reconcile-ensure_job s c h =
      handled (valid_owned_claim c) (is_provisioning c.run.state || is_cancelling c.run.state) _ _ _
        _ λ k. observed_lem c (w.get_execution s c.lease) k h
