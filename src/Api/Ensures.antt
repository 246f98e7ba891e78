-- ===== src/Api/Ensures.antt =====
-- What holds of the result and of the store, if an action ends with a result.
use plexus_controller.Common.{◌≡◌, refl, ap, sym, ◌∙◌, Bool, true, false, if◌then◌else◌}
use plexus_controller.Api.{
  Cluster, Reply, done, failed, Action, pure, call, ◌>>=◌, otherwise, caught,
}
use plexus_controller.Api.Keeps.{Keeps, >>=-done, call-done}

pub record Ensures {ℓ} {S E A : Type ℓ} (P : S → Type ℓ) (m : Action S E A) (Q : A → S → Type ℓ)
    : Type ℓ where
  pub of : (c : Cluster S) → P c.store → (a : A) → (m c).1 ≡ done a → Q a (m c).0.store

module _ {ℓ} {S E A : Type ℓ} where
  pub Ensures-pure :
      {P : S → Type ℓ} {Q : A → S → Type ℓ} (a : A)
      → ((s : S) → P s → Q a s)
      → Ensures P (pure {E = E} a) Q
  unfolding pure
  Ensures-pure {Q = Q} a step = record {
    of = λ c p b e. let same : b ≡ a = cc in rw same (step c.store p);
  }

  pub Ensures-call :
      {P : S → Type ℓ} {Q : A → S → Type ℓ} (e : E) (change : S → S) (read : S → A)
      → ((s : S) → P s → Q (read s) (change s))
      → Ensures P (call e change read) Q
  Ensures-call {Q = Q} e change read step = record {
    of = λ c p a h.
        let (value, same) = call-done e change read c a h in rw value (rw same (step c.store p));
  }

  pub Ensures-if :
      {P : S → Type ℓ} {Q : A → S → Type ℓ} (b : Bool) (m n : Action S E A)
      → (b ≡ true → Ensures P m Q)
      → (b ≡ false → Ensures P n Q)
      → Ensures P (if b then m else n) Q
  Ensures-if true m n em en = em refl
  Ensures-if false m n em en = en refl

  -- What an action keeps holds in the end.
  pub Ensures-of_keeps :
      {P : S → Type ℓ} {Q : A → S → Type ℓ} (m : Action S E A)
      → Keeps P m
      → ((a : A) (s : S) → P s → Q a s)
      → Ensures P m Q
  Ensures-of_keeps m keeps step = record { of = λ c p a h. step a (m c).0.store (keeps.at c p) }

module _ {ℓ} {S E A B : Type ℓ} where
  pub Ensures-bind :
      {P : S → Type ℓ} (Q : A → S → Type ℓ) {R : B → S → Type ℓ} (m : Action S E A)
      (next : A → Action S E B)
      → Ensures P m Q
      → ((a : A) → Ensures (Q a) (next a) R)
      → Ensures P (m >>= next) R
  Ensures-bind Q {R = R} m next first rest = record {
    of = λ c p b h.
        let (a, value, same) = >>=-done m next c h in
        rw same ((rest a).of (m c).0 (first.of c p a value) b (ap (λ r. r.1) (sym same) ∙ h));
  }

Keeps-settled {ℓ} :
    {S E A B : Type ℓ} (P : S → Type ℓ) (Q : A → S → Type ℓ) (r : Reply E A)
    (handle : E → Action S E B) (next : A → Action S E B) (c : Cluster S)
    → ((a : A) → r ≡ done a → Q a c.store)
    → ((e : E) → Keeps P (handle e))
    → ((a : A) (d : Cluster S) → P d.store → Q a d.store → P (next a d).0.store)
    → P c.store
    → P (caught r handle next c).0.store
Keeps-settled P Q (done a) handle next c q kh kn h = kn a c h (q a refl)
Keeps-settled P Q (failed e) handle next c q kh kn h = (kh e).at c h

module _ {ℓ} {S E A B : Type ℓ} {P : S → Type ℓ} (Q : A → S → Type ℓ) where
  -- The rest may use what is ensured.
  pub Keeps-otherwise-of_ensures :
      (m : Action S E A) (handle : E → Action S E B) (next : A → Action S E B)
      → Keeps P m
      → Ensures P m Q
      → ((e : E) → Keeps P (handle e))
      → ((a : A) (d : Cluster S) → P d.store → Q a d.store → P (next a d).0.store)
      → Keeps P (otherwise m handle next)
  unfolding otherwise
  Keeps-otherwise-of_ensures m handle next km em kh kn = record {
    at = λ c h. Keeps-settled P Q (m c).1 handle next (m c).0 (em.of c h) kh kn (km.at c h);
  }
