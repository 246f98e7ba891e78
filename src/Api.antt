-- ===== src/Api.antt =====
-- Calls of the Kubernetes API by the reconcilers of internal/controller.
-- A reconciler is an action on a store, which may end early with an error; what was written before
-- stays written. Any call may fail.
pub mod Keeps
pub mod Ensures
pub mod Tells
use plexus_controller.Common.{Bool, true, false, List, [], ◌∷◌}

-- The stored objects, with the answers to the coming calls: `true` is an error other than NotFound, and
-- behind the list's end no call fails.
pub record Cluster {ℓ} (S : Type ℓ) : Type ℓ where
  pub store : S
  pub faults : List Bool

pub data Reply {ℓ} (E A : Type ℓ) : Type ℓ where
  done : A → Reply E A
  failed : E → Reply E A

abbrev pub Action {ℓ} : Type ℓ → Type ℓ → Type ℓ → Type ℓ
Action S E A = Cluster S → Cluster S × Reply E A

-- The result of an action whose error is answered by `otherwise`.
abbrev settled {ℓ} : {E A : Type ℓ} → Reply E A → A → Reply E A
settled (done a) otherwise = done a
settled (failed e) otherwise = done otherwise

module _ {ℓ} {S E A : Type ℓ} where
  unfoldable pub pure : A → Action S E A
  pure a c = (c, done a)

  unfoldable pub fail : E → Action S E A
  fail e c = (c, failed e)

  -- The object in memory, which agrees with the stored one: no call.
  unfoldable pub gets : (S → A) → Action S E A
  gets read c = (c, done (read c.store))

  -- A call whose failure is `e`, by the answers that are left.
  abbrev answer : E → (S → S) → (S → A) → S → List Bool → Cluster S × Reply E A
  answer e change read s [] = (record { store = change s; faults = [] }, done (read s))
  answer e change read s (true ∷ faults) = (record { store = s; faults = faults }, failed e)
  answer e change read s (false ∷ faults) =
      (record { store = change s; faults = faults }, done (read s))

  -- One call: it changes the store and answers what it was before, or it fails.
  unfoldable pub call : E → (S → S) → (S → A) → Action S E A
  call e change read c = answer e change read c.store c.faults

  -- `otherwise` stands for the result if the action fails: the code has an answer to the error.
  unfoldable pub recover : Action S E A → A → Action S E A
  recover m otherwise c = let (d, r) = m c in (d, settled r otherwise)

module _ {ℓ} {S E A B : Type ℓ} where
  abbrev pub continue : Reply E A → (A → Action S E B) → Action S E B
  continue (done a) next c = next a c
  continue (failed e) next c = (c, failed e)

  infixl 5 ◌>>=◌ ◌>>◌
  unfoldable pub ◌>>=◌ : Action S E A → (A → Action S E B) → Action S E B
  ◌>>=◌ m next c = let (d, r) = m c in continue r next d

  abbrev pub ◌>>◌ : Action S E A → Action S E B → Action S E B
  m >> next = m >>= λ _. next

  -- What follows an error, `caught`, or a result.
  abbrev pub caught : Reply E A → (E → Action S E B) → (A → Action S E B) → Action S E B
  caught (done a) handle next c = next a c
  caught (failed e) handle next c = handle e c

  -- `if err != nil { return handle(err) }` behind `m`.
  unfoldable pub otherwise : Action S E A → (E → Action S E B) → (A → Action S E B) → Action S E B
  otherwise m handle next c = let (d, r) = m c in caught r handle next d

module _ {ℓ} {S E : Type ℓ} where
  abbrev pub skip : Action S E (Unit {ℓ})
  skip = pure tt

  unfoldable pub when : Bool → Action S E (Unit {ℓ}) → Action S E (Unit {ℓ})
  unfolding pure
  when true m = m
  when false m = pure tt
