-- ===== src/SaveImport/Keeps.antt =====
-- internal/controller/saveimport_controller.go: what cleanup and the other operations leave of the
-- cluster's objects that the import does not own.
use plexus_controller.Common.{◌≡◌, ◌⊎◌, Bool, true, false, Option, none, [], ◌∷◌, arith}
use plexus_controller.SaveImport.Cluster.{
  Identity, World, Action, Reply, pure, call, ◌>>=◌, done, fault, continue,
}
use plexus_controller.SaveImport.Operations.{attempt, when, owned_job, owned_secret, cleanup}

-- What an action does to the cluster, whether or not it ends with an error.
unfoldable pub Keeps {ℓ} : {A : Type ℓ} → (World → World → Type 0) → Action A → Type 0
Keeps R m = (w : World) → R w (m w).0

-- A relation that holds of nothing done, and of two steps if of each.
pub record IsPreorder (R : World → World → Type 0) : Type 0 where
  pub same : (w : World) → R w w
  pub steps : {u v w : World} → R u v → R v w → R u w

module _ {R : World → World → Type 0} (order : IsPreorder R) where
  pub Keeps-pure {ℓ} : {A : Type ℓ} (a : A) → Keeps R (pure a)
  unfolding Keeps
  Keeps-pure a w = order.same w

  Keeps-continue {ℓ κ} :
      {A : Type ℓ} {B : Type κ} (u : World) (r : World × Reply A) (next : A → Action B)
      → R u r.0
      → ((a : A) → Keeps R (next a))
      → R u (continue r next).0
  unfolding Keeps
  Keeps-continue u (v, done a) next first rest = order.steps first (rest a v)
  Keeps-continue u (v, fault) next first rest = first

  pub Keeps->>= {ℓ κ} :
      {A : Type ℓ} {B : Type κ} (m : Action A) (next : A → Action B)
      → Keeps R m
      → ((a : A) → Keeps R (next a))
      → Keeps R (m >>= next)
  unfolding Keeps ◌>>=◌
  Keeps->>= m next first rest w = Keeps-continue w (m w) next (first w) rest

  pub Keeps-when : (b : Bool) (m : Action (Unit {0})) → Keeps R m → Keeps R (when b m)
  unfolding Keeps
  Keeps-when true m keeps w = keeps w
  Keeps-when false m keeps w = order.same w

pub cleanup-job :
    (import : Identity) (remove : Bool) (w : World)
    → ((cleanup import remove w).0.job ≡ w.job)
      ⊎ ((owned_job import w.job ≡ true)
          × (remove ≡ true)
          × ((cleanup import remove w).0.job ≡ none))
unfolding cleanup call ◌>>=◌
cleanup-job import remove w = ground arith

pub cleanup-secret :
    (import : Identity) (remove : Bool) (w : World)
    → ((cleanup import remove w).0.secret ≡ w.secret)
      ⊎ ((owned_secret import w.secret ≡ true) × ((cleanup import remove w).0.secret ≡ none))
unfolding cleanup call ◌>>=◌
cleanup-secret import remove w = ground arith

pub cleanup-status :
    (import : Identity) (remove : Bool) (w : World) → (cleanup import remove w).0.status ≡ w.status
unfolding cleanup call ◌>>=◌
cleanup-status import remove w = ground arith

pub cleanup-finalizer :
    (import : Identity) (remove : Bool) (w : World)
    → (cleanup import remove w).0.finalizer ≡ w.finalizer
unfolding cleanup call ◌>>=◌
cleanup-finalizer import remove w = ground arith

-- The state behind an answer of the API.
abbrev pub answered : World → World
answered w = record w { faults = elim w.faults [ [] ↦ [] | _ ∷ later ↦ later ] }

-- A call fails, or changes the state.
pub call-cases {ℓ} :
    {A : Type ℓ} (change : World → World) (read : World → A) (w : World)
    → (call change read w ≡ (answered w, fault))
      ⊎ (call change read w ≡ (change (answered w), done (read w)))
unfolding call
call-cases change read w = ground arith

pub attempt-cases {ℓ} :
    {A : Type ℓ} (read : World → Option A) (w : World)
    → (attempt read w ≡ (answered w, done none)) ⊎ (attempt read w ≡ (answered w, done (read w)))
attempt-cases read w = ground arith
