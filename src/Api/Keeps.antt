-- ===== src/Api/Keeps.antt =====
-- What actions keep, whether they end with a result or with an error: one rule for each way to build one.
use plexus_controller.Common.{
  ◌≡◌, refl, ap, ◌∙◌, Bool, true, false, if◌then◌else◌, Option, none, some, List, [], ◌∷◌,
}
use plexus_controller.Api.{
  Cluster, Reply, done, failed, Action, pure, fail, gets, call, recover, ◌>>=◌, otherwise, when,
  continue, caught,
}

pub record Keeps {ℓ} {S E A : Type ℓ} (P : S → Type ℓ) (m : Action S E A) : Type ℓ where
  pub at : (c : Cluster S) → P c.store → P (m c).0.store

-- The store behind a call, by the answers that are left.
answered {ℓ} :
    {S E A : Type ℓ} (P : S → Type ℓ) (e : E) (change : S → S) (read : S → A) (s : S)
    (faults : List Bool)
    → (P s → P (change s))
    → P s
    → P (call e change read (record { store = s; faults = faults })).0.store
unfolding call
answered P e change read s [] step h = step h
answered P e change read s (true ∷ faults) step h = h
answered P e change read s (false ∷ faults) step h = step h

module _ {ℓ} {S E A : Type ℓ} {P : S → Type ℓ} where
  pub Keeps-call :
      (e : E) (change : S → S) (read : S → A)
      → ((s : S) → P s → P (change s))
      → Keeps P (call e change read)
  unfolding call
  Keeps-call e change read step = record {
    at = λ c h. answered P e change read c.store c.faults (step c.store) h;
  }

  pub Keeps-recover : (m : Action S E A) (a : A) → Keeps P m → Keeps P (recover m a)
  unfolding recover
  Keeps-recover m a km = record { at = λ c h. km.at c h }

  pub Keeps-gets : (read : S → A) → Keeps P (gets {E = E} read)
  unfolding gets
  Keeps-gets read = record { at = λ d kept. kept }

  pub Keeps-if :
      (test : Bool) (first second : Action S E A)
      → (test ≡ true → Keeps P first)
      → (test ≡ false → Keeps P second)
      → Keeps P (if test then first else second)
  Keeps-if false first second on_first on_second = on_second refl
  Keeps-if true first second on_first on_second = on_first refl

  pub Keeps-fail : (error : E) → Keeps P (fail {A = A} error)
  unfolding fail
  Keeps-fail error = record { at = λ d kept. kept }

  pub Keeps-pure : (result : A) → Keeps P (pure {E = E} result)
  unfolding pure
  Keeps-pure result = record { at = λ d kept. kept }

Keeps-continue {ℓ} :
    {S E A B : Type ℓ} (P : S → Type ℓ) (r : Reply E A) (next : A → Action S E B) (c : Cluster S)
    → ((a : A) → Keeps P (next a))
    → P c.store
    → P (continue r next c).0.store
Keeps-continue P (done a) next c kn h = (kn a).at c h
Keeps-continue P (failed e) next c kn h = h

Keeps-caught {ℓ} :
    {S E A B : Type ℓ} (P : S → Type ℓ) (r : Reply E A) (handle : E → Action S E B)
    (next : A → Action S E B) (c : Cluster S)
    → ((e : E) → Keeps P (handle e))
    → ((a : A) → Keeps P (next a))
    → P c.store
    → P (caught r handle next c).0.store
Keeps-caught P (done a) handle next c kh kn h = (kn a).at c h
Keeps-caught P (failed e) handle next c kh kn h = (kh e).at c h

module _ {ℓ} {S E A B : Type ℓ} {P : S → Type ℓ} where
  pub Keeps-bind :
      (m : Action S E A) (next : A → Action S E B)
      → Keeps P m
      → ((a : A) → Keeps P (next a))
      → Keeps P (m >>= next)
  unfolding ◌>>=◌
  Keeps-bind m next km kn = record {
    at = λ c h. Keeps-continue P (m c).1 next (m c).0 kn (km.at c h);
  }

  pub Keeps-otherwise :
      (m : Action S E A) (handle : E → Action S E B) (next : A → Action S E B)
      → Keeps P m
      → ((e : E) → Keeps P (handle e))
      → ((a : A) → Keeps P (next a))
      → Keeps P (otherwise m handle next)
  unfolding otherwise
  Keeps-otherwise m handle next km kh kn = record {
    at = λ c h. Keeps-caught P (m c).1 handle next (m c).0 kh kn (km.at c h);
  }

continue-done {ℓ} :
    {S E A B : Type ℓ} (r : Reply E A) (next : A → Action S E B) (c : Cluster S) {b : B}
    → (continue r next c).1 ≡ done b
    → (a : A) × (r ≡ done a) × (continue r next c ≡ next a c)
continue-done (done a) next c h = (a, refl, refl)
continue-done (failed e) next c h = cc

-- A chain that ends with a result: so did its first part, and the rest went on from there.
pub >>=-done {ℓ} :
    {S E A B : Type ℓ} (m : Action S E A) (next : A → Action S E B) (c : Cluster S) {b : B}
    → ((m >>= next) c).1 ≡ done b
    → (a : A) × ((m c).1 ≡ done a) × ((m >>= next) c ≡ next a (m c).0)
unfolding ◌>>=◌
>>=-done m next c h = continue-done (m c).1 next (m c).0 h

answer-done {ℓ} :
    {S E A : Type ℓ} (e : E) (change : S → S) (read : S → A) (s : S) (faults : List Bool) (a : A)
    → (call e change read (record { store = s; faults = faults })).1 ≡ done a
    → (a ≡ read s)
      × ((call e change read (record { store = s; faults = faults })).0.store ≡ change s)
unfolding call
answer-done e change read s [] a h = (cc, refl)
answer-done e change read s (true ∷ faults) a h = cc
answer-done e change read s (false ∷ faults) a h = (cc, refl)

-- A call that ends with a result has read the store and changed it.
pub call-done {ℓ} :
    {S E A : Type ℓ} (e : E) (change : S → S) (read : S → A) (c : Cluster S) (a : A)
    → (call e change read c).1 ≡ done a
    → (a ≡ read c.store) × ((call e change read c).0.store ≡ change c.store)
call-done e change read c a h = answer-done e change read c.store c.faults a h

-- A read, and what goes on with it.
pub get-done {ℓ} :
    {S E A B : Type ℓ} (e : E) (read : S → A) (next : A → Action S E B) (c : Cluster S) {b : B}
    → ((call e (λ s. s) read >>= next) c).1 ≡ done b
    → (d : Cluster S) × (d.store ≡ c.store)
      × ((call e (λ s. s) read >>= next) c ≡ next (read c.store) d)
get-done e read next c h =
    let (a, first, rest) = >>=-done (call e (λ s. s) read) next c h in
    let (value, same) = call-done e (λ s. s) read c a first in
    ((call e (λ s. s) read c).0, same, rest ∙ ap (λ x. next x (call e (λ s. s) read c).0) value)

module _ {ℓ} {S E : Type ℓ} {P : S → Type ℓ} where
  pub Keeps-when :
      (b : Bool) (m : Action S E (Unit {ℓ})) → (b ≡ true → Keeps P m) → Keeps P (when b m)
  unfolding when
  Keeps-when true m km = km refl
  Keeps-when false m km = Keeps-pure tt

module _ {ℓ} {S E A X : Type ℓ} {P : S → Type ℓ} where
  pub Keeps-option :
      (o : Option X) (m : Action S E A) (f : X → Action S E A)
      → Keeps P m
      → ((x : X) → Keeps P (f x))
      → Keeps P (elim o [ none ↦ m | some x ↦ f x ])
  Keeps-option none m f km kf = km
  Keeps-option (some x) m f km kf = kf x

pub ruleset keeps_rules = (
  Keeps-pure, Keeps-fail, Keeps-gets, Keeps-call, Keeps-recover, Keeps-if, Keeps-bind,
  Keeps-otherwise, Keeps-when, Keeps-option,
)
