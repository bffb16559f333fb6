-- ===== src/Contract/Documents/Revoke.antt =====
-- src/lib.rs, `revoke_document`: what a revocation requires and what it changes.
use proof_stell_contract.Base.{
  ◌≡◌, refl, ◌≢◌, ◌↔◌, ◌∙◌, sym, none, some, arith, [], ◌∷◌, ◌⊎◌, inl, inr, true, Option-cases,
}
use proof_stell_contract.Contract.Host.{Host, DataKey, DocumentRecord, DocumentStatus}
use proof_stell_contract.Contract.Monad.{
  Env, Outcome, ok, err, ContractEvent, document_not_found, only_issuer_can_revoke, already_revoked,
}
use proof_stell_contract.Contract.RateLimit.{check_rate_limit}
use proof_stell_contract.Contract.Frames.{
  IsOk, IsOk-run, admitted-SameBut, guarded_run, run_guarded,
}
use proof_stell_contract.Contract.Documents.{revoke_one, revoke_document, get_document}
use proof_stell_contract.Contract.Documents.Register.{
  Touches, Touches-after, SameBut-document, with_document, with_document-Touches, ok-injective,
}

module _ ⦃host : Host⦄ where
  open host use {Address, Hash, get, get-set_self}

  abbrev pub revoked_record : DocumentRecord Address → DocumentRecord Address
  revoked_record r = record r { status = DocumentStatus.revoked }

  -- The document `h` can be revoked by `issuer`.
  abbrev pub Revocable : Address → DocumentRecord Address → Type 0
  Revocable issuer r = (r.issuer ≡ issuer) × (r.status ≡ DocumentStatus.active)

  abbrev pub revoked_env : Address → Hash → DocumentRecord Address → Env → Env
  revoked_env issuer h r =
      with_document h (revoked_record r) (ContractEvent.document_revoked issuer h)

  -- The four ends of a revocation, with the record that decides between them.
  pub data RevokeCase (issuer : Address) (h : Hash) (e : Env) (o : Outcome (DocumentRecord Address))
      : Type 0 where
    missing : get_document h e ≡ none → o ≡ err document_not_found e → RevokeCase issuer h e o
    foreign :
        (r : DocumentRecord Address)
        → get_document h e ≡ some r
        → r.issuer ≢ issuer
        → o ≡ err only_issuer_can_revoke e
        → RevokeCase issuer h e o
    again :
        (r : DocumentRecord Address)
        → get_document h e ≡ some r
        → r.issuer ≡ issuer
        → r.status ≡ DocumentStatus.revoked
        → o ≡ err already_revoked e
        → RevokeCase issuer h e o
    done :
        (r : DocumentRecord Address)
        → get_document h e ≡ some r
        → Revocable issuer r
        → o ≡ ok (revoked_record r) (revoked_env issuer h r e)
        → RevokeCase issuer h e o

  status_cases : (s : DocumentStatus) → (s ≡ DocumentStatus.active) ⊎ (s ≡ DocumentStatus.revoked)
  status_cases DocumentStatus.active = inl refl
  status_cases DocumentStatus.revoked = inr refl

  pub revoke_one-RevokeCase :
      (issuer : Address) (h : Hash) (e : Env) → RevokeCase issuer h e (revoke_one issuer h e)
  unfolding revoke_one get_document
  revoke_one-RevokeCase issuer h e = elim (Option-cases (get (DataKey.document h) e.store)) [
    | inl q ↦ missing q (ground arith)
    | inr (r, q) ↦ elim (host.address_eq r.issuer issuer) [
      | no n ↦ foreign r q n (ground arith)
      | yes p ↦ elim (status_cases r.status) [
        | inl s ↦ done r q (p, s) (ground arith)
        | inr s ↦ again r q p s (ground arith)
      ]
    ]
  ]

  -- `r` is the record found, and its revoked copy is what `e'` holds.
  pub record Revoked (issuer : Address) (h : Hash) (e : Env) (r : DocumentRecord Address) (e' : Env)
      : Type 0 where
    pub found : get_document h e ≡ some r
    pub revocable : Revocable issuer r
    pub stored : get_document h e' ≡ some (revoked_record r)
    pub touches : Touches h (ContractEvent.document_revoked issuer h ∷ []) e e'

  revocation :
      (issuer : Address) (h : Hash) (e : Env) (r : DocumentRecord Address)
      → get_document h e ≡ some r
      → Revocable issuer r
      → Revoked issuer h e r (revoked_env issuer h r e)
  unfolding get_document
  revocation issuer h e r q c = record {
    found = q;
    revocable = c;
    stored = get-set_self (DataKey.document h) _ e.store;
    touches = with_document-Touches h _ _ e;
  }

  pub revoke_one-Revoked :
      (issuer : Address) (h : Hash) (e : Env) {r' : DocumentRecord Address} {e' : Env}
      → revoke_one issuer h e ≡ ok r' e'
      → (r : DocumentRecord Address) × (r' ≡ revoked_record r) × Revoked issuer h e r e'
  revoke_one-Revoked issuer h e p = elim (revoke_one-RevokeCase issuer h e) [
    | missing _ q ↦ cc (sym p ∙ q)
    | foreign _ _ _ q ↦ cc (sym p ∙ q)
    | again _ _ _ _ q ↦ cc (sym p ∙ q)
    | done r f c q ↦
        let (pr, pe) = ok-injective (sym p ∙ q) in (r, pr, rw pe (revocation issuer h e r f c))
  ]

  pub revoke_one-IsOk :
      (issuer : Address) (h : Hash) (e : Env) (r : DocumentRecord Address)
      → get_document h e ≡ some r
      → Revocable issuer r
      → IsOk (revoke_one issuer h e)
  revoke_one-IsOk issuer h e r f c = elim (revoke_one-RevokeCase issuer h e) [
    | missing m _ ↦ cc (sym m ∙ f)
    | foreign s g n _ ↦ absurd (n (ground (arith, sym g ∙ f)))
    | again s g _ t _ ↦ cc (sym g ∙ f, t)
    | done _ _ _ q ↦ rw q tt
  ]

  -- A revocation that succeeds found an active record whose issuer is the caller and leaves its revoked
  -- copy; every other document and all that is not a rate-limit bucket stay, and one event is added.
  pub revoke_document-Revoked :
      (issuer : Address) (h : Hash) (e : Env) {r' : DocumentRecord Address} {e' : Env}
      → revoke_document issuer h e ≡ ok r' e'
      → (r : DocumentRecord Address) × (r' ≡ revoked_record r) × Revoked issuer h e r e'
  unfolding revoke_document
  revoke_document-Revoked issuer h e p =
      let (f, _, _, s, q) = guarded_run issuer (revoke_one issuer h) e p in
      let (r, pr, v) = revoke_one-Revoked issuer h f q in
      (
        r,
        pr,
        record {
          found = sym (SameBut-document h s) ∙ v.found;
          revocable = v.revocable;
          stored = v.stored;
          touches = Touches-after s v.touches;
        },
      )

  -- A revocation succeeds exactly when the issuer authorises it, the rate limiter admits it, and an
  -- active record of that issuer stands under the hash.
  pub revoke_document-succeeds_iff :
      (issuer : Address) (h : Hash) (e : Env)
      → IsOk (revoke_document issuer h e) ↔ (
          (e.authorized issuer ≡ true)
          × IsOk (check_rate_limit issuer issuer e)
          × ((r : DocumentRecord Address) × (get_document h e ≡ some r) × Revocable issuer r))
  unfolding revoke_document
  revoke_document-succeeds_iff issuer h e = (forth, back)
    where
      forth :
          IsOk (revoke_document issuer h e)
          → (e.authorized issuer ≡ true)
            × IsOk (check_rate_limit issuer issuer e)
            × ((r : DocumentRecord Address) × (get_document h e ≡ some r) × Revocable issuer r)
      forth d =
          let (_, f, p) = IsOk-run _ d in
          let (g, a, c, s, q) = guarded_run issuer (revoke_one issuer h) e p in
          let (r, _, v) = revoke_document-Revoked issuer h e p in
          (a, rw c tt, (r, v.found, v.revocable))

      back :
          (e.authorized issuer ≡ true)
            × IsOk (check_rate_limit issuer issuer e)
            × ((r : DocumentRecord Address) × (get_document h e ≡ some r) × Revocable issuer r)
          → IsOk (revoke_document issuer h e)
      back (a, c, (r, q, v)) =
          let (_, f, p) = IsOk-run _ c in
          let s = admitted-SameBut issuer issuer e p in
          rw (run_guarded issuer (revoke_one issuer h) e a p)
            (revoke_one-IsOk issuer h f r (SameBut-document h s ∙ q) v)
