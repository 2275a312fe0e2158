-- ===== src/Journal/Principals/Registered.antt =====
-- crates/journal-service/src/bootstrap.rs: what `register` does to the tables of
-- principals and names.
use agent_journal.Prelude.{ap, Text, Option, some, none, ◌⊎◌, inl, inr, arith}
use agent_journal.Protocol.Requests.{PrincipalCreateRequest, RegistrationReceipt}
use agent_journal.Journal.Schema.{Db, CredentialRow}
use agent_journal.Journal.Tx.{Host, Store, some_or, fail_when}
use agent_journal.Journal.Returns.{
  Returns, Returns-continue, Returns-weaken, Returns-ok, Returns-some_or, Returns-checkpoint,
  Returns-now, Kept,
}
use agent_journal.Journal.Principals.{principal_descriptor}
use agent_journal.Journal.Principals.Names.{IsAdded}
use agent_journal.Journal.Principals.Effects.{
  SameNames, Returns-insert_principal, Returns-insert_name, Returns-secret, Returns-principal_id,
  Returns-insert_credential, Returns-insert_audit, Returns-insert_receipt, IsAdded-inserts,
  IsAdded-same,
}
use agent_journal.Journal.Principals.Register.{
  ExistingRegistration, replay_registration, store_registration, store_receipt, new_registration,
  register_in, replay_or_register, find_token,
}

module _ (host : Host) where
  Returns-replay_registration :
      (json : Text) (existing : ExistingRegistration) (s : Store)
      → Returns (replay_registration host json existing s) (Kept s)
  unfolding replay_registration some_or fail_when
  Returns-replay_registration json existing s = record { returns = λ a s' h. ground arith }

  Returns-store_registration :
      (hash : Text) (request : PrincipalCreateRequest) (id t : Text) (s : Store)
      → Returns
          (store_registration host hash request id t s)
          (λ _ s'. IsAdded id request.handle s.db s'.db)
  unfolding store_registration
  Returns-store_registration hash request id t s =
      Returns-continue _ _ (Returns-insert_principal _ s) λ _ s1 p.
        Returns-continue _ _ (Returns-checkpoint host _ s1) λ _ s2 e2.
          Returns-continue _ _ (Returns-insert_name request.handle id t s2) λ _ s3 q.
            let added =
              IsAdded-inserts id request.handle request.display_name t s.db s2.db s3.db (rw e2 p)
                q in
            Returns-continue _ _ (Returns-checkpoint host _ s3) λ _ s4 e4.
              Returns-continue _ _ (Returns-secret host s4) λ suffix s5 e5.
                Returns-continue _ _ (Returns-insert_credential _ s5) λ _ s6 e6.
                  Returns-continue _ _ (Returns-insert_audit _ _ _ _ s6) λ _ s7 e7.
                    Returns-continue _ _ (Returns-checkpoint host _ s7) λ _ s8 e8. Returns-ok _ _ (
                      IsAdded-same id request.handle s.db s3.db s8.db added
                        (record { principals = cc; names = cc }))

  Returns-store_receipt :
      (hash json id t : Text) (receipt : RegistrationReceipt) (s : Store)
      → Returns (store_receipt host hash json id t receipt s) (λ _ s'. SameNames s.db s'.db)
  unfolding store_receipt
  Returns-store_receipt hash json id t receipt s =
      Returns-continue _ _ (Returns-some_or _ _ s) λ response s1 e1.
        Returns-continue _ _ (Returns-insert_receipt _ s1) λ _ s2 e2.
          Returns-weaken (Returns-checkpoint host _ s2)
            λ _ s3 e3. record { principals = cc; names = cc }

  pub Returns-principal_descriptor :
      (id : Text) (s : Store) → Returns (principal_descriptor id s) (Kept s)
  unfolding principal_descriptor some_or
  Returns-principal_descriptor id s = record { returns = λ a s' h. ground arith }

  Returns-new_registration :
      (hash json : Text) (request : PrincipalCreateRequest) (t : Text) (s : Store)
      → Returns
          (new_registration host hash json request t s)
          (λ _ s'. (id : Text) × IsAdded id request.handle s.db s'.db)
  unfolding new_registration
  Returns-new_registration hash json request t s =
      Returns-continue _ _ (Returns-checkpoint host _ s) λ _ s1 e1.
        Returns-continue _ _ (Returns-principal_id host s1) λ id s2 e2.
          Returns-continue _ _ (Returns-store_registration hash request id t s2)
            λ credential s3 added.
              Returns-continue _ _ (Returns-principal_descriptor id s3) λ principal s4 e4.
                Returns-continue _ _ (Returns-store_receipt hash json id t _ s4) λ _ s5 e5.
                  Returns-ok _ _ (
                    id,
                    rw⁻¹ (ap (λ (x : Store). x.db) e1) (
                        rw⁻¹ e2 (
                          IsAdded-same id request.handle s2.db s3.db s5.db added
                            (record { principals = cc; names = cc }))),
                  )

  Returns-replay_or_register :
      (hash json : Text) (request : PrincipalCreateRequest) (t : Text) (db : Db) (s : Store)
      (found : Option CredentialRow)
      → Returns
          (replay_or_register host hash json request t db found s)
          (λ _ s'. SameNames s.db s'.db ⊎ (id : Text) × IsAdded id request.handle s.db s'.db)
  Returns-replay_or_register hash json request t db s (some c) =
      Returns-weaken (Returns-replay_registration json _ s)
        λ _ s1 e1. inl (record { principals = cc; names = cc })
  Returns-replay_or_register hash json request t db s none =
      Returns-weaken (Returns-new_registration hash json request t s) λ _ s1 added. inr added

  pub Returns-register_in :
      (hash json : Text) (request : PrincipalCreateRequest) (s : Store)
      → Returns
          (register_in host hash json request s)
          (λ _ s'. SameNames s.db s'.db ⊎ (id : Text) × IsAdded id request.handle s.db s'.db)
  unfolding register_in
  Returns-register_in hash json request s = Returns-continue _ _ (Returns-now host s) λ t s1 e1.
      rw⁻¹ e1 (Returns-replay_or_register hash json request t s1.db s1 (find_token hash s1.db))
