-- ===== src/Api/Tells.antt =====
-- Actions that answer `false` only where they have found nothing, and so have changed nothing.
use plexus_controller.Common.{◌≡◌, refl, ap, sym, ◌∙◌, Bool, true, false, if◌then◌else◌}
use plexus_controller.Api.{Cluster, done, Action, pure, call, ◌>>=◌}
use plexus_controller.Api.Keeps.{>>=-done, call-done}

module _ {ℓ} {S E : Type ℓ} where
  -- An action that only reads, and what its result tells of the store.
  pub record Asks {A : Type ℓ} (m : Action S E A) (G : A → S → Type ℓ) : Type ℓ where
    pub of : (c : Cluster S) (a : A) → (m c).1 ≡ done a → G a c.store × ((m c).0.store ≡ c.store)

  pub record Tells {B : Type ℓ} (no : B) (m : Action S E B) (G : S → Type ℓ) : Type ℓ where
    pub of : (c : Cluster S) → (m c).1 ≡ done no → G c.store × ((m c).0.store ≡ c.store)

  pub Asks-call :
      {A : Type ℓ} (e : E) (read : S → A) → Asks (call e (λ s. s) read) (λ a s. a ≡ read s)
  Asks-call e read = record { of = λ c a h. call-done e (λ s. s) read c a h }

  pub Tells-pure :
      {B : Type ℓ} {no : B} {G : S → Type ℓ} (b : B)
      → ((s : S) → b ≡ no → G s)
      → Tells no (pure {E = E} b) G
  unfolding pure
  Tells-pure b step = record { of = λ c h. (step c.store cc, refl) }

  pub Tells-ask :
      {A B : Type ℓ} {no : B} (G : A → S → Type ℓ) {K : S → Type ℓ} (m : Action S E A)
      (next : A → Action S E B)
      → Asks m G
      → ((a : A) → Tells no (next a) (λ s. G a s → K s))
      → Tells no (m >>= next) K
  Tells-ask G {K = K} m next asks rest = record {
    of = λ c h.
        let (a, value, end) = >>=-done m next c h in
        let (fact, same) = asks.of c a value in
        let (k, kept) = (rest a).of (m c).0 (ap (λ r. r.1) (sym end) ∙ h) in
        ((rw same at k) fact, ap (λ r. r.0.store) end ∙ (kept ∙ same));
  }

  pub Tells-bind :
      {A B : Type ℓ} {no : B} (nothing : A) (G : S → Type ℓ) {K : S → Type ℓ} (m : Action S E A)
      (next : A → Action S E B)
      → Tells nothing m G
      → ((a : A) → Tells no (next a) (λ s. (a ≡ nothing) × (G s → K s)))
      → Tells no (m >>= next) K
  Tells-bind nothing G {K = K} m next first rest = record {
    of = λ c h.
        let (a, value, end) = >>=-done m next c h in
        let ((e, k), kept) = (rest a).of (m c).0 (ap (λ r. r.1) (sym end) ∙ h) in
        let (fact, same) = first.of c (value ∙ ap done e) in
        ((rw same at k) fact, ap (λ r. r.0.store) end ∙ (kept ∙ same));
  }

  pub Tells-if :
      {B : Type ℓ} {no : B} {G : S → Type ℓ} (b : Bool) (m n : Action S E B)
      → (b ≡ true → Tells no m G)
      → (b ≡ false → Tells no n G)
      → Tells no (if b then m else n) G
  Tells-if true m n tm tn = tm refl
  Tells-if false m n tm tn = tn refl
