-- ===== src/GameServer/Finalized.antt =====
-- internal/controller/gameserver_controller.go: when reconcileDelete removes the finalizer.
use plexus_controller.Common.{
  Text, ◌≡◌, refl, ◌⊎◌, inl, inr, Bool, true, false, ◌||◌, not, Option, none, some, List, [], ◌∷◌,
  if◌then◌else◌,
}
use plexus_controller.GameServer.Types.{
  Status, Meta, ConfigMap, Secret, Self, Store, Error, api, never, Surroundings,
}
use plexus_controller.Api.{Cluster, Reply, done, pure, gets, ◌>>=◌}
use plexus_controller.GameServer.Objects.{
  Run, get, delete_owned_object, delete_named, owned_workload_deployments, delete_all,
}
use plexus_controller.Api.Keeps.{Keeps, Keeps-bind, Keeps-pure, Keeps-call, keeps_rules}
use plexus_controller.GameServer.Objects.{on_owned}
use plexus_controller.GameServer.Shutdown.{
  delete_singletons, delete_config_maps, delete_secrets, delete_owned_runtime_inputs, delete_owned,
  remove_finalizer, on_remaining, reconcile_delete,
}
use plexus_controller.GameServer.Gone.{owned-store}
use plexus_controller.GameServer.Reconcile.{reconcile_live, reconcile}
use plexus_controller.GameServer.Released.{Released, Tells-delete_owned}
use plexus_controller.Api.{continue, failed as failure}

module _ (self : Self) (env : Surroundings) where
  abbrev IsFinalized : Store → Type 0
  IsFinalized s = s.finalizer ≡ true

  abbrev Kept : {A : Type 0} → Run A → Type 0
  Kept m = Keeps IsFinalized m

  Kept-get : {A : Type 0} (read : Store → A) → Kept (get read)
  Kept-get read = Keeps-call api (λ s. s) read (λ s p. p)

  Kept-removal :
      (read : Store → Option Meta) (mark : Store → Store)
      → ((s : Store) → (mark s).finalizer ≡ s.finalizer)
      → Kept (delete_owned_object self env read mark)
  unfolding delete_owned_object
  Kept-removal read mark h = Keeps-bind _ _ (Kept-get read) Kept-owned
    where
      Kept-owned : (meta : Option Meta) → Kept (on_owned self env mark meta)
      Kept-owned none = Keeps-pure _
      Kept-owned (some meta) = search (keeps_rules, h)

  Kept-owned : Kept (owned_workload_deployments self env)
  Kept-owned = record { at = λ c p. rw ((owned-store self env c.store).at c refl) p }

  Kept-all : (names : List Text) (remaining : Bool) → Kept (delete_all self env names remaining)
  unfolding delete_all delete_named
  Kept-all [] remaining = Keeps-pure _
  Kept-all (name ∷ names) remaining =
      Keeps-bind _ _ (Kept-removal _ _ (λ s. refl)) (λ exists. Kept-all names _)

  Kept-singletons : Kept (delete_singletons self env)
  unfolding delete_singletons
  Kept-singletons = Keeps-bind _ _ (Kept-removal _ _ (λ s. refl)) (λ service.
      Keeps-bind _ _ (Kept-removal _ _ (λ s. refl))
        (λ job. Keeps-bind _ _ (Kept-removal _ _ (λ s. refl)) (λ claim. Keeps-pure _)))

  Kept-next :
      (skipped : Bool) (one rest : Run Bool)
      → Kept one
      → Kept rest
      → Kept (
          if skipped
          then rest
          else (one >>= (λ exists. rest >>= (λ remaining. pure (exists || remaining)))))
  Kept-next skipped one rest k ks = search (keeps_rules, k, ks)

  Kept-config_maps : (maps : List ConfigMap) → Kept (delete_config_maps self env maps)
  unfolding delete_config_maps
  Kept-config_maps [] = Keeps-pure _
  Kept-config_maps (m ∷ maps) =
      Kept-next _ _ _ (Kept-removal _ _ (λ s. refl)) (Kept-config_maps maps)

  Kept-secrets : (secrets : List Secret) → Kept (delete_secrets self env secrets)
  unfolding delete_secrets
  Kept-secrets [] = Keeps-pure _
  Kept-secrets (m ∷ secrets) = Kept-next _ _ _ (Kept-removal _ _ (λ s. refl)) (Kept-secrets secrets)

  Kept-inputs : Kept (delete_owned_runtime_inputs self env)
  unfolding delete_owned_runtime_inputs
  Kept-inputs = search (keeps_rules, Kept-get, Kept-config_maps, Kept-secrets)

  -- Until it answers, deleteOwned leaves the finalizer.
  Keeps-delete_owned : Kept (delete_owned self env)
  unfolding delete_owned
  Keeps-delete_owned = search (keeps_rules, Kept-owned, Kept-all, Kept-singletons, Kept-inputs)

  Released-remove_finalizer : Keeps (Released self env) (remove_finalizer self env)
  Released-remove_finalizer =
      Keeps-call api (λ s. record s { finalizer = false }) (λ s. tt)
        (λ s p. record {
          workload = p.workload;
          service = p.service;
          job = p.job;
          claim = p.claim;
          config_maps = p.config_maps;
          secrets = p.secrets;
        })

  abbrev Ends : Store → Type 0
  Ends s = IsFinalized s ⊎ Released self env s

  Ends-of_reply :
      (r : Reply Error Bool) (d : Cluster Store)
      → IsFinalized d.store
      → (r ≡ done false → Released self env d.store)
      → Ends (continue r (on_remaining self env) d).0.store
  unfolding pure
  Ends-of_reply (failure e) d p q = inl p
  Ends-of_reply (done true) d p q = inl p
  Ends-of_reply (done false) d p q =
      inr ((Keeps-bind _ _ Released-remove_finalizer (λ u. Keeps-pure never)).at d (q refl))

  Ends-if :
      (finalizer : Bool) (c : Cluster Store)
      → finalizer ≡ true
      → IsFinalized c.store
      → Ends
          ((if not finalizer then pure never else (delete_owned self env >>= on_remaining self env))
            c).0.store
  unfolding ◌>>=◌
  Ends-if false c h p = absurd cc
  Ends-if true c h p =
      Ends-of_reply (delete_owned self env c).1 (delete_owned self env c).0
        (Keeps-delete_owned.at c p)
        (λ e. let (released, same) = (Tells-delete_owned self env).of c e in rw same released)

  Ends-delete :
      (c : Cluster Store) → IsFinalized c.store → Ends (reconcile_delete self env c).0.store
  unfolding reconcile_delete gets ◌>>=◌
  Ends-delete c p = Ends-if c.store.finalizer c p p

  Ends-chosen :
      (deleting : Bool) (r : Reply Error Status) (d : Cluster Store)
      → deleting ≡ true
      → IsFinalized d.store
      → Ends
          (continue r
            (λ status. if deleting then reconcile_delete self env else reconcile_live self env)
            d).0.store
  Ends-chosen false r d h p = absurd cc
  Ends-chosen true (failure e) d h p = inl p
  Ends-chosen true (done status) d h p = Ends-delete d p

  Ends-reconcile :
      (c : Cluster Store)
      → self.deleting ≡ true
      → IsFinalized c.store
      → Ends (reconcile self env c).0.store
  unfolding reconcile ◌>>=◌
  Ends-reconcile c deleting p =
      Ends-chosen self.deleting _ _ deleting ((Kept-get (λ s. s.status)).at c p)

  -- If Reconcile of a GameServer that is being deleted removes its finalizer, then nothing that it owns is
  -- left.
  pub reconcile-finalizer :
      (c : Cluster Store)
      → self.deleting ≡ true
      → c.store.finalizer ≡ true
      → (reconcile self env c).0.store.finalizer ≡ false
      → Released self env (reconcile self env c).0.store
  reconcile-finalizer c deleting finalizer removed = elim (Ends-reconcile c deleting finalizer) [
    | inl still ↦ absurd cc
    | inr released ↦ released
  ]
