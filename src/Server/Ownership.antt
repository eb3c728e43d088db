-- ===== src/Server/Ownership.antt =====
-- A connection that publishes owns its stream in the registry (server/connection.rs,
-- registry/store.rs).
use rtmp_rs.Prelude.{
  ℕ, Bool, true, false, ◌≡◌, refl, sym, subst, Option, none, some, [], ◌∷◌, arith, ◌==◌,
}
use rtmp_rs.Registry.Frame.{StreamKey, key_eq}
use rtmp_rs.Registry.Entry.{Broadcast}
use rtmp_rs.Registry.Store.{StreamRegistry}
use rtmp_rs.Registry.Publishing.{
  Operation, register_op, unregister_op, subscribe_op, unsubscribe_op, broadcast_op, cleanup_op,
  apply, run, IsValid, apply-IsValid,
}
use rtmp_rs.Registry.Owner.{Owns, none_gives_up, run-Owns}
use rtmp_rs.Server.Connection.{Connection}

-- Whether an operation is the session's `unregister_publisher` of some stream.
abbrev pub unregisters : ℕ → Operation → Bool
unregisters session (unregister_op now k s) = session == s
unregisters session _ = false

keeps_streams :
    (key : StreamKey) (session : ℕ) (op : Operation)
    → unregisters session op ≡ false
    → none_gives_up key session (op ∷ []) ≡ true
keeps_streams key session (unregister_op now k s) h = ground arith
keeps_streams key session (register_op now k s) h = refl
keeps_streams key session (subscribe_op k) h = refl
keeps_streams key session (unsubscribe_op k) h = refl
keeps_streams key session (broadcast_op k f) h = refl
keeps_streams key session (cleanup_op now) h = refl

module _ (B : Broadcast) where
  abbrev pub OwnsWhat : StreamRegistry B → ℕ → Option StreamKey → Type 0
  OwnsWhat r session none = Unit {0}
  OwnsWhat r session (some key) = Owns B r key session

  -- The registry is valid, and the session owns what the connection publishes.
  pub record IsSound (c : Connection B) : Type 0 where
    pub valid : IsValid B c.registry
    pub owned : OwnsWhat c.registry c.state.id c.publishing_to

  -- A connection that differs in neither.
  pub same-IsSound :
      (c c' : Connection B)
      → c'.registry ≡ c.registry
      → c'.state.id ≡ c.state.id
      → c'.publishing_to ≡ c.publishing_to
      → IsSound c
      → IsSound c'
  same-IsSound c c' r i p s = record {
    valid = subst (IsValid B) (sym r) s.valid;
    owned =
        subst (λ r. OwnsWhat r c'.state.id c'.publishing_to) (sym r)
          (subst (λ i. OwnsWhat c.registry i c'.publishing_to) (sym i)
            (subst (λ p. OwnsWhat c.registry c.state.id p) (sym p) s.owned));
  }

  keeps-OwnsWhat :
      (r : StreamRegistry B) (session : ℕ) (op : Operation) (p : Option StreamKey)
      → IsValid B r
      → unregisters session op ≡ false
      → OwnsWhat r session p
      → OwnsWhat (apply B r op) session p
  unfolding apply run
  keeps-OwnsWhat r session op none v h o = tt
  keeps-OwnsWhat r session op (some key) v h o =
      run-Owns B r (op ∷ []) key session v o (keeps_streams key session op h)

  -- An operation of the registry, of this session or of another, that is not this session's
  -- `unregister_publisher`.
  pub operation-IsSound :
      (c c' : Connection B) (op : Operation)
      → c'.registry ≡ apply B c.registry op
      → c'.state.id ≡ c.state.id
      → c'.publishing_to ≡ c.publishing_to
      → unregisters c.state.id op ≡ false
      → IsSound c
      → IsSound c'
  operation-IsSound c c' op r i p h s =
      same-IsSound (record c { registry = apply B c.registry op }) c' r i p
        (record {
          valid = apply-IsValid B c.registry op s.valid;
          owned = keeps-OwnsWhat c.registry c.state.id op c.publishing_to s.valid h s.owned;
        })
