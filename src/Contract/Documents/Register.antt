-- ===== src/Contract/Documents/Register.antt =====
-- src/lib.rs, `register_document`: what a registration requires and what it changes.
use proof_stell_contract.Base.{
  ltb, ◌==◌, ◌<◌, ◌≤◌, length, ℕ, Bool, true, false, ◌≡◌, refl, ◌≢◌, ◌↔◌, ◌∙◌, ap, sym, none, some,
  arith, List, [], ◌∷◌, ◌++◌, ◌⊎◌, inl, inr, Option-cases,
}
use proof_stell_contract.Contract.Host.{Host, DataKey, DocumentRecord, DocumentStatus}
use proof_stell_contract.Contract.Monad.{
  Env, Outcome, ok, err, ContractError, ContractEvent, Key, already_registered, batch_empty,
  batch_too_large, fail_if, ◌>>◌,
}
use proof_stell_contract.Contract.RateLimit.{check_rate_limit}
use proof_stell_contract.Contract.Frames.{
  SameBut, is_bucket_key, IsOk, IsOk-run, bind_run, admitted-SameBut, guarded_run, run_guarded,
}
use proof_stell_contract.Contract.Documents.{
  max_batch_size, for_each, register_one, register_document, get_document,
}

abbrev pub is_document_key : {Address Hash Symbol : Type 0} → DataKey Address Hash Symbol → Bool
is_document_key (DataKey.document _) = true
is_document_key _ = false

module _ ⦃host : Host⦄ where
  open host use {Address, Hash, get, set, get-set_self, get-set_ne}

  -- Only the document `h` and buckets may differ; `added` are the new events.
  pub record Touches (h : Hash) (added : List (ContractEvent Address Hash)) (e e' : Env)
      : Type 0 where
    pub others : (g : Hash) → g ≢ h → get_document g e' ≡ get_document g e
    pub rest :
        (k : Key)
        → is_document_key k ≡ false
        → is_bucket_key k ≡ false
        → get k e'.store ≡ get k e.store
    pub events : e'.events ≡ e.events ++ added
    pub upgrades : e'.upgrades ≡ e.upgrades
    pub timestamp : e'.timestamp ≡ e.timestamp
    pub authorized : e'.authorized ≡ e.authorized

  pub SameBut-document : {e f : Env} (h : Hash) → SameBut e f → get_document h f ≡ get_document h e
  unfolding get_document
  SameBut-document h s = s.kept (DataKey.document h) refl

  abbrev pub with_document : Hash → DocumentRecord Address → ContractEvent Address Hash → Env → Env
  with_document h r v e = record e {
    store = set (DataKey.document h) r e.store;
    events = e.events ++ v ∷ [];
  }

  pub with_document-Touches :
      (h : Hash) (r : DocumentRecord Address) (v : ContractEvent Address Hash) (e : Env)
      → Touches h (v ∷ []) e (with_document h r v e)
  unfolding get_document
  with_document-Touches h r v e = record {
    others =
        λ g n. get-set_ne _ _ r e.store (λ (q : DataKey.document g ≡ DataKey.document h). n (cc q));
    rest = λ k d b. get-set_ne k _ r e.store (λ (q : k ≡ DataKey.document h). cc q);
    events = refl;
    upgrades = refl;
    timestamp = refl;
    authorized = refl;
  }

  pub Touches-after :
      {h : Hash} {added : List (ContractEvent Address Hash)} {e f g : Env}
      → SameBut e f
      → Touches h added f g
      → Touches h added e g
  unfolding get_document
  Touches-after s t = record {
    others = λ g n. t.others g n ∙ s.kept (DataKey.document g) refl;
    rest = λ k d b. t.rest k d b ∙ s.kept k b;
    events = ground (arith, t.events, s.events);
    upgrades = t.upgrades ∙ s.upgrades;
    timestamp = t.timestamp ∙ s.timestamp;
    authorized = t.authorized ∙ s.authorized;
  }

  abbrev pub fresh_record : Address → Address → ℕ → DocumentRecord Address
  fresh_record issuer owner timestamp = record {
    issuer = issuer;
    owner = owner;
    timestamp = timestamp;
    status = DocumentStatus.active;
  }

  pub register_one_cases :
      (issuer owner : Address) (h : Hash) (e : Env)
      → ((r : DocumentRecord Address) × (get_document h e ≡ some r)
          × (register_one issuer owner h e ≡ err already_registered e))
        ⊎ ((get_document h e ≡ none)
            × (register_one issuer owner h e
                ≡ ok (fresh_record issuer owner e.timestamp) (
                    with_document h
                      (fresh_record issuer owner e.timestamp)
                      (ContractEvent.document_registered issuer owner h)
                      e)))
  unfolding register_one get_document
  register_one_cases issuer owner h e = elim (Option-cases (get (DataKey.document h) e.store)) [
    | inl q ↦ inr (q, rw q)
    | inr (r, q) ↦ inl (r, q, rw q)
  ]

  pub record Registered (issuer owner : Address) (h : Hash) (e : Env) (r : DocumentRecord Address)
      (e' : Env) : Type 0 where
    pub absent : get_document h e ≡ none
    pub stored : get_document h e' ≡ some r
    pub shape : r ≡ fresh_record issuer owner e.timestamp
    pub touches : Touches h (ContractEvent.document_registered issuer owner h ∷ []) e e'

  pub register_one-IsOk :
      (issuer owner : Address) (h : Hash) (e : Env)
      → get_document h e ≡ none
      → IsOk (register_one issuer owner h e)
  register_one-IsOk issuer owner h e n = elim (register_one_cases issuer owner h e) [
    | inl (_, q, _) ↦ cc (sym n ∙ q)
    | inr (_, q) ↦ rw q tt
  ]

  pub ok-injective :
      {A : Type 0} {a b : A} {e f : Env} → ◌≡◌ {A = Outcome A} (ok a e) (ok b f) → (a ≡ b) × (e ≡ f)
  ok-injective p = (cc p, cc p)

  -- The run of a registration that succeeds.
  registration :
      (issuer owner : Address) (h : Hash) (e : Env)
      → get_document h e ≡ none
      → Registered issuer owner h e (fresh_record issuer owner e.timestamp) (
          with_document h
            (fresh_record issuer owner e.timestamp)
            (ContractEvent.document_registered issuer owner h)
            e)
  unfolding get_document
  registration issuer owner h e n = record {
    absent = n;
    stored = get-set_self (DataKey.document h) _ e.store;
    shape = refl;
    touches = with_document-Touches h _ _ e;
  }

  pub register_one-Registered :
      (issuer owner : Address) (h : Hash) (e : Env) {r : DocumentRecord Address} {e' : Env}
      → register_one issuer owner h e ≡ ok r e'
      → Registered issuer owner h e r e'
  register_one-Registered issuer owner h e p = elim (register_one_cases issuer owner h e) [
    | inl (_, _, q) ↦ cc (sym p ∙ q)
    | inr (n, q) ↦
        let (pr, pe) = ok-injective (sym p ∙ q) in rw (pr, pe) (registration issuer owner h e n)
  ]

  -- Behind the rate limiter nothing but buckets has changed.
  pub Registered-after :
      (issuer owner : Address) (h : Hash) {e f : Env} {r : DocumentRecord Address} {e' : Env}
      → SameBut e f
      → Registered issuer owner h f r e'
      → Registered issuer owner h e r e'
  unfolding get_document
  Registered-after issuer owner h s t = record {
    absent = sym (s.kept (DataKey.document h) refl) ∙ t.absent;
    stored = t.stored;
    shape = ground (arith, t.shape, s.timestamp);
    touches = Touches-after s t.touches;
  }

  -- A registration that succeeds found no record under the hash and stores the active record that it
  -- returns, with the caller as its issuer and the ledger's time; every other document and all that
  -- is not a rate-limit bucket stay, and one event is added.
  pub register_document-Registered :
      (issuer owner : Address) (h : Hash) (e : Env) {r : DocumentRecord Address} {e' : Env}
      → register_document issuer owner h e ≡ ok r e'
      → Registered issuer owner h e r e'
  unfolding register_document
  register_document-Registered issuer owner h e p =
      let (f, _, _, s, q) = guarded_run issuer (register_one issuer owner h) e p in
      Registered-after issuer owner h s (register_one-Registered issuer owner h f q)

  -- A registration succeeds exactly when the issuer authorises it, the rate limiter admits it, and no
  -- record stands under the hash.
  pub register_document-succeeds_iff :
      (issuer owner : Address) (h : Hash) (e : Env)
      → IsOk (register_document issuer owner h e) ↔ (
          (e.authorized issuer ≡ true)
          × IsOk (check_rate_limit issuer issuer e)
          × (get_document h e ≡ none))
  unfolding register_document
  register_document-succeeds_iff issuer owner h e = (forth, back)
    where
      forth :
          IsOk (register_document issuer owner h e)
          → (e.authorized issuer ≡ true)
            × IsOk (check_rate_limit issuer issuer e)
            × (get_document h e ≡ none)
      forth r =
          let (_, f, p) = IsOk-run _ r in
          let (g, a, c, s, q) = guarded_run issuer (register_one issuer owner h) e p in
          (a, rw c tt, (register_document-Registered issuer owner h e p).absent)

      back :
          (e.authorized issuer ≡ true)
            × IsOk (check_rate_limit issuer issuer e)
            × (get_document h e ≡ none)
          → IsOk (register_document issuer owner h e)
      back (a, c, n) =
          let (_, f, p) = IsOk-run _ c in
          let s = admitted-SameBut issuer issuer e p in
          rw (run_guarded issuer (register_one issuer owner h) e a p)
            (register_one-IsOk issuer owner h f (SameBut-document h s ∙ n))

  -- A loop that succeeds ran its first round, and then the rest.
  pub for_each_run :
      {A : Type 0} (body : A → Env → Outcome (DocumentRecord Address)) (x : A) (xs : List A)
      (e : Env) {rs : List (DocumentRecord Address)} {e' : Env}
      → for_each body (x ∷ xs) e ≡ ok rs e'
      → (r : DocumentRecord Address) × (f : Env) × (body x e ≡ ok r f)
        × (s : List (DocumentRecord Address)) × (rs ≡ r ∷ s)
        × (for_each body xs f ≡ ok s e')
  unfolding for_each
  for_each_run body x xs e p =
      let (r, f, q, t) = bind_run (body x e) _ p in
      let (s, g, u, w) = bind_run (for_each body xs f) _ t in
      let (pr, pe) = ok-injective w in (r, f, q, s, sym pr, u ∙ ap (ok s) pe)

  two_guards_run :
      {B : Type 0} (a b : Bool) (x y : ContractError) (body : Env → Outcome B) (e : Env) {r : B}
      {e' : Env}
      → (fail_if a x >> (fail_if b y >> body)) e ≡ ok r e'
      → (a ≡ false) × (b ≡ false) × (body e ≡ ok r e')
  two_guards_run true b x y body e p = cc p
  two_guards_run false true x y body e p = cc p
  two_guards_run false false x y body e p = (refl, refl, p)

  run_two_guards :
      {B : Type 0} (a b : Bool) (x y : ContractError) (body : Env → Outcome B) (e : Env)
      → a ≡ false
      → b ≡ false
      → (fail_if a x >> (fail_if b y >> body)) e ≡ body e
  run_two_guards true b x y body e p q = cc p
  run_two_guards false true x y body e p q = cc q
  run_two_guards false false x y body e p q = refl

  -- The size tests that both batches begin with.
  abbrev pub sized : {A B : Type 0} → List A → (Env → Outcome B) → Env → Outcome B
  sized xs body =
      fail_if (length xs == 0) batch_empty
      >> (fail_if (ltb max_batch_size (length xs)) batch_too_large >> body)

  abbrev pub Fits : {A : Type 0} → List A → Type 0
  Fits xs = (0 < length xs) × (length xs ≤ max_batch_size)

  pub sized_run :
      {A B : Type 0} (xs : List A) (body : Env → Outcome B) (e : Env) {b : B} {e' : Env}
      → sized xs body e ≡ ok b e'
      → Fits xs × (body e ≡ ok b e')
  sized_run xs body e p =
      let (a, b, q) = two_guards_run _ _ batch_empty batch_too_large body e p in
      ((ground arith, ground arith), q)

  pub run_sized :
      {A B : Type 0} (xs : List A) (body : Env → Outcome B) (e : Env)
      → Fits xs
      → sized xs body e ≡ body e
  run_sized xs body e (pos, small) =
      run_two_guards (length xs == 0) (ltb max_batch_size (length xs)) _ _ body e (ground arith)
        (ground arith)
