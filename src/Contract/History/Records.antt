-- ===== src/Contract/History/Records.antt =====
-- src/lib.rs: what no history can do to a document's record.
use proof_stell_contract.Base.{
  ◌≡◌, refl, sym, ap, ◌∙◌, ◌⊎◌, inl, inr, true, false, some, List, [], ◌∷◌, All, arith, subst,
}
use proof_stell_contract.Contract.Host.{Host, DataKey, Value, DocumentRecord, DocumentStatus}
use proof_stell_contract.Contract.Monad.{Env, Key, Outcome, ok, err, trap}
use proof_stell_contract.Contract.Frames.{Settled, IsOk}
use proof_stell_contract.Contract.Governance.Keeps.{
  is_governance_key, initialize-keeps, upgrade-keeps, migrate-keeps, set_feature_flag-keeps,
  set_rate_limit_config-keeps,
}
use proof_stell_contract.Contract.Documents
use proof_stell_contract.Contract.Documents.{get_document, verify_document}
use proof_stell_contract.Contract.Documents.Register.{
  register_document-Registered, register_document-succeeds_iff,
}
use proof_stell_contract.Contract.Documents.Revoke.{revoked_record, revoke_document-Revoked}
use proof_stell_contract.Contract.Documents.BatchRegister.{
  Docs, Fresh, batch_register_documents-AllRegistered,
}
use proof_stell_contract.Contract.Documents.BatchRegister
use proof_stell_contract.Contract.Documents.BatchRevoke.{Flipped, batch_revoke_documents-AllRevoked}
use proof_stell_contract.Contract.Documents.BatchRevoke
use proof_stell_contract.Contract.History.{Call, invoke, settle, settle-keeps, Reach, Reach-keeps}

module _ ⦃host : Host⦄ where
  open host use {Address, Hash, get, set, hash_eq, get-set_ne}

  -- `r'` is `r` but for a status that may have become revoked.
  pub record Later (r r' : DocumentRecord Address) : Type 0 where
    pub issuer : r'.issuer ≡ r.issuer
    pub owner : r'.owner ≡ r.owner
    pub timestamp : r'.timestamp ≡ r.timestamp
    pub status : r.status ≡ DocumentStatus.revoked → r'.status ≡ DocumentStatus.revoked

  -- The document `h` still holds what came of the record `r`.
  abbrev pub Holds : Hash → DocumentRecord Address → Env → Type 0
  Holds h r e = (r' : DocumentRecord Address) × (get_document h e ≡ some r') × Later r r'

  Holds-same :
      (h : Hash) (r : DocumentRecord Address) (e f : Env)
      → get_document h f ≡ get_document h e
      → Holds h r e
      → Holds h r f
  Holds-same h r e f q (r', p, l) = (r', q ∙ p, l)

  Holds-store :
      (h : Hash) (r : DocumentRecord Address) (e f : Env)
      → e.store ≡ f.store
      → Holds h r e
      → Holds h r f
  unfolding get_document
  Holds-store h r e f q = Holds-same h r e f (ap (get (DataKey.document h)) (sym q))

  Later-revoked : (r s : DocumentRecord Address) → Later r s → Later r (revoked_record s)
  Later-revoked r s l = record {
    issuer = l.issuer;
    owner = l.owner;
    timestamp = l.timestamp;
    status = λ _. refl;
  }

  -- A document with a record is none of those that a batch registers.
  avoided :
      (h : Hash) (r : DocumentRecord Address) (e : Env) (ds : Docs)
      → get_document h e ≡ some r
      → Fresh e ds
      → BatchRegister.Avoids h ds
  avoided h r e [] p _ = tt
  avoided h r e (d ∷ ds) p (absent, _, more) =
      (λ q. cc (sym absent ∙ ap (λ g. get_document g e) q ∙ p), avoided h r e ds p more)

  -- A document is none of those that a batch revokes, or one of them.
  Flipped-or_not :
      (issuer : Address) (h : Hash) (e f : Env) (hs : List Hash)
      → All (Flipped issuer e f) hs
      → BatchRevoke.Avoids h hs ⊎ Flipped issuer e f h
  Flipped-or_not issuer h e f [] _ = inl tt
  Flipped-or_not issuer h e f (g ∷ hs) (p, ps) = elim (hash_eq g h) [
    | yes q ↦ inr (subst (Flipped issuer e f) q p)
    | no n ↦ elim (Flipped-or_not issuer h e f hs ps) [ inl m ↦ inl (n, m) | inr x ↦ inr x ]
  ]

  module _ (h : Hash) (r : DocumentRecord Address) where
    register_document-Holds :
        (i o : Address) (g : Hash) (e : Env) (m : Outcome (DocumentRecord Address))
        → Documents.register_document i o g e ≡ m
        → Holds h r e
        → Settled (Holds h r) m
    register_document-Holds i o g e (ok s f) q (r', p, l) =
        let v = register_document-Registered i o g e q in
        (
          r',
          v.touches.others h (λ z. cc (sym v.absent ∙ ap (λ k. get_document k e) (sym z) ∙ p)) ∙ p,
          l,
        )
    register_document-Holds i o g e (err x f) q c = tt
    register_document-Holds i o g e trap q c = tt

    revoke_document-Holds :
        (i : Address) (g : Hash) (e : Env) (m : Outcome (DocumentRecord Address))
        → Documents.revoke_document i g e ≡ m
        → Holds h r e
        → Settled (Holds h r) m
    revoke_document-Holds i g e (ok s f) q (r', p, l) =
        let (found, _, v) = revoke_document-Revoked i g e q in
        elim (hash_eq h g) [
          | yes z ↦
              let same : found ≡ r' = cc (sym v.found ∙ ap (λ k. get_document k e) (sym z) ∙ p) in
              (
                revoked_record r',
                ap (λ k. get_document k f) z ∙ v.stored ∙ ap (λ x. some (revoked_record x)) same,
                Later-revoked r r' l,
              )
          | no n ↦ (r', v.touches.others h n ∙ p, l)
        ]
    revoke_document-Holds i g e (err x f) q c = tt
    revoke_document-Holds i g e trap q c = tt

    batch_register_documents-Holds :
        (i : Address) (ds : Docs) (e : Env) (m : Outcome (List (DocumentRecord Address)))
        → Documents.batch_register_documents i ds e ≡ m
        → Holds h r e
        → Settled (Holds h r) m
    batch_register_documents-Holds i ds e (ok s f) q (r', p, l) =
        let v = batch_register_documents-AllRegistered i ds e q in
        (r', v.others h (avoided h r' e ds p v.fresh) ∙ p, l)
    batch_register_documents-Holds i ds e (err x f) q c = tt
    batch_register_documents-Holds i ds e trap q c = tt

    batch_revoke_documents-Holds :
        (i : Address) (hs : List Hash) (e : Env) (m : Outcome (List (DocumentRecord Address)))
        → Documents.batch_revoke_documents i hs e ≡ m
        → Holds h r e
        → Settled (Holds h r) m
    batch_revoke_documents-Holds i hs e (ok s f) q (r', p, l) =
        let v = batch_revoke_documents-AllRevoked i hs e q in
        elim (Flipped-or_not i h e f hs v.flipped) [
          | inl n ↦ (r', v.others h n ∙ p, l)
          | inr (found, a, _, b) ↦
              let same : found ≡ r' = cc (sym a ∙ p) in
              (revoked_record r', b ∙ ap (λ x. some (revoked_record x)) same, Later-revoked r r' l)
        ]
    batch_revoke_documents-Holds i hs e (err x f) q c = tt
    batch_revoke_documents-Holds i hs e trap q c = tt

  Holds-settles :
      {A : Type 0} (h : Hash) (r : DocumentRecord Address) (e : Env) (o : Outcome A)
      → Holds h r e
      → Settled (Holds h r) o
      → Holds h r (settle e o)
  Holds-settles h r e o = settle-keeps (Holds h r) e o (Holds-store h r)

  -- A governance call writes no document.
  StoreHolds : Hash → DocumentRecord Address → host.Store → Type 0
  StoreHolds h r s =
      (r' : DocumentRecord Address) × (get (DataKey.document h) s ≡ some r') × Later r r'

  StoreHolds-set :
      (h : Hash) (r : DocumentRecord Address) (k : Key)
      → is_governance_key k ≡ true
      → (v : Value k) (s : host.Store) → StoreHolds h r s
      → StoreHolds h r (set k v s)
  unfolding StoreHolds
  StoreHolds-set h r k g v s (r', p, l) =
      (r', get-set_ne (DataKey.document h) k v s (λ (q : DataKey.document h ≡ k). cc q) ∙ p, l)

  invoke-Holds :
      (h : Hash) (r : DocumentRecord Address) (c : Call) (e : Env)
      → Holds h r e
      → Holds h r (invoke c e)
  unfolding invoke StoreHolds get_document
  invoke-Holds h r (Call.register_document i o g) e p =
      Holds-settles h r e _ p (register_document-Holds h r i o g e _ refl p)
  invoke-Holds h r (Call.revoke_document i g) e p =
      Holds-settles h r e _ p (revoke_document-Holds h r i g e _ refl p)
  invoke-Holds h r (Call.batch_register_documents i ds) e p =
      Holds-settles h r e _ p (batch_register_documents-Holds h r i ds e _ refl p)
  invoke-Holds h r (Call.batch_revoke_documents i hs) e p =
      Holds-settles h r e _ p (batch_revoke_documents-Holds h r i hs e _ refl p)
  invoke-Holds h r (Call.initialize a) e p =
      Holds-settles h r e _ p (initialize-keeps (StoreHolds h r) (StoreHolds-set h r) a e p)
  invoke-Holds h r (Call.upgrade a w) e p =
      Holds-settles h r e _ p (upgrade-keeps (StoreHolds h r) (StoreHolds-set h r) a w e p)
  invoke-Holds h r (Call.migrate a) e p =
      Holds-settles h r e _ p (migrate-keeps (StoreHolds h r) (StoreHolds-set h r) a e p)
  invoke-Holds h r (Call.set_feature_flag a f b) e p =
      Holds-settles h r e _ p
        (set_feature_flag-keeps (StoreHolds h r) (StoreHolds-set h r) a f b e p)
  invoke-Holds h r (Call.set_rate_limit_config a c) e p =
      Holds-settles h r e _ p
        (set_rate_limit_config-keeps (StoreHolds h r) (StoreHolds-set h r) a c e p)

  -- Once a record stands under a hash, the code of the contract never removes it or changes its issuer,
  -- owner or timestamp, and a record that is revoked stays revoked, in whatever history of its
  -- invocations up to an upgrade that succeeds, that one included. Of the code that an upgrade brings,
  -- nothing is said.
  pub Reach-Holds :
      (h : Hash) (r : DocumentRecord Address) {e f : Env}
      → get_document h e ≡ some r
      → Reach e f
      → Holds h r f
  Reach-Holds h r p path =
      Reach-keeps (Holds h r) (Holds-store h r) (invoke-Holds h r) path
        (r, p, record { issuer = refl; owner = refl; timestamp = refl; status = λ q. q })

  -- After a revocation that succeeds, the document is not verified again, whatever history of
  -- invocations of the same code follows, up to an upgrade that succeeds, that one included.
  pub revoke_document-for_good :
      (issuer : Address) (h : Hash) (e : Env) {r : DocumentRecord Address} {e' f : Env}
      → Documents.revoke_document issuer h e ≡ ok r e'
      → Reach e' f
      → verify_document h f ≡ false
  unfolding verify_document get_document
  revoke_document-for_good issuer h e p path =
      let (r, _, v) = revoke_document-Revoked issuer h e p in
      let (r', q, l) = Reach-Holds h (revoked_record r) v.stored path in
      ground (arith, q, l.status refl)

  -- After a registration that succeeds, the same code never registers the hash again.
  pub register_document-once :
      (issuer owner : Address) (h : Hash) (e : Env) {r : DocumentRecord Address} {e' f : Env}
      → Documents.register_document issuer owner h e ≡ ok r e'
      → Reach e' f
      → (other new_owner : Address) → ¬ IsOk (Documents.register_document other new_owner h f)
  register_document-once issuer owner h e {r} p path other new_owner ok_again =
      let v = register_document-Registered issuer owner h e p in
      let (_, q, _) = Reach-Holds h r v.stored path in
      let (_, _, n) = (register_document-succeeds_iff other new_owner h _).0 ok_again in
      cc (sym n ∙ q)
