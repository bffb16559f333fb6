-- ===== src/Contract/Documents/BatchRegister.antt =====
-- src/lib.rs, `batch_register_documents`: what a batch requires and what it writes.
use mathlib.Core.List.{append_assoc, append-nil}
use mathlib.Core.Path.{ap₂}
use proof_stell_contract.Base.{
  ℕ, ◌≡◌, refl, subst, ◌≢◌, ◌↔◌, ◌∙◌, ap, sym, none, some, List, [], ◌∷◌, ◌++◌, map, true, false,
  All,
}
use proof_stell_contract.Contract.Host.{Host, DocumentRecord}
use proof_stell_contract.Contract.Monad.{Env, ok, Key, ContractEvent, ◌>>=◌}
use proof_stell_contract.Contract.RateLimit.{check_rate_limit}
use proof_stell_contract.Contract.Frames.{
  SameBut, is_bucket_key, IsOk, IsOk-run, admitted-SameBut, guarded_run, run_guarded,
}
use proof_stell_contract.Contract.Documents.{
  DocumentInfo, register_one, for_each, batch_register_documents, get_document,
}
use proof_stell_contract.Contract.Documents.Register.{
  Fits, sized, sized_run, run_sized, for_each_run, SameBut-document, fresh_record, is_document_key,
  ok-injective, Registered, register_one-Registered, register_one-IsOk,
}

module _ ⦃host : Host⦄ where
  open host use {Address, Hash, get}

  abbrev pub Docs : Type 0
  Docs = List (DocumentInfo Address Hash)

  abbrev pub Avoids : Hash → Docs → Type 0
  Avoids h = All (λ d. d.document_hash ≢ h)

  -- No record stands under any of the hashes, and no hash occurs twice.
  abbrev pub Fresh : Env → Docs → Type 0
  Fresh e [] = Unit
  Fresh e (d ∷ ds) =
      (get_document d.document_hash e ≡ none) × Avoids d.document_hash ds × Fresh e ds

  abbrev pub registered_event : Address → DocumentInfo Address Hash → ContractEvent Address Hash
  registered_event issuer d = ContractEvent.document_registered issuer d.owner d.document_hash

  abbrev pub new_record : Address → ℕ → DocumentInfo Address Hash → DocumentRecord Address
  new_record issuer timestamp d = fresh_record issuer d.owner timestamp

  pub record AllRegistered (issuer : Address) (ds : Docs) (e : Env)
      (rs : List (DocumentRecord Address)) (e' : Env) : Type 0 where
    pub fresh : Fresh e ds
    pub records : rs ≡ map (new_record issuer e.timestamp) ds
    pub stored :
        All (λ d. get_document d.document_hash e' ≡ some (new_record issuer e.timestamp d)) ds
    pub others : (g : Hash) → Avoids g ds → get_document g e' ≡ get_document g e
    pub rest :
        (k : Key)
        → is_document_key k ≡ false
        → is_bucket_key k ≡ false
        → get k e'.store ≡ get k e.store
    pub events : e'.events ≡ e.events ++ map (registered_event issuer) ds
    pub upgrades : e'.upgrades ≡ e.upgrades

  -- What is fresh once another document stands was fresh before, and is another hash.
  Fresh-before :
      (h : Hash) {r : DocumentRecord Address} (e f : Env) (ds : Docs)
      → get_document h f ≡ some r
      → ((g : Hash) → g ≢ h → get_document g f ≡ get_document g e)
      → Fresh f ds
      → Avoids h ds × Fresh e ds
  Fresh-before h e f [] stored others _ = (tt, tt)
  Fresh-before h e f (d ∷ ds) stored others (absent, apart, more) =
      let (a, b) = Fresh-before h e f ds stored others more in
      let n : d.document_hash ≢ h = λ q. cc (sym absent ∙ ap (λ g. get_document g f) q ∙ stored) in
      ((n, a), (sym (others d.document_hash n) ∙ absent, apart, b))

  -- The converse: a registration leaves the other hashes fresh.
  Fresh-after :
      (h : Hash) (e f : Env) (ds : Docs)
      → ((g : Hash) → g ≢ h → get_document g f ≡ get_document g e)
      → Avoids h ds
      → Fresh e ds
      → Fresh f ds
  Fresh-after h e f [] others _ _ = tt
  Fresh-after h e f (d ∷ ds) others (n, ns) (absent, apart, more) =
      (others d.document_hash n ∙ absent, apart, Fresh-after h e f ds others ns more)

  Fresh-same :
      (e f : Env) (ds : Docs)
      → ((g : Hash) → get_document g f ≡ get_document g e)
      → Fresh f ds
      → Fresh e ds
  Fresh-same e f [] same _ = tt
  Fresh-same e f (d ∷ ds) same (absent, apart, more) =
      (sym (same d.document_hash) ∙ absent, apart, Fresh-same e f ds same more)

  one_more :
      (issuer : Address) (d : DocumentInfo Address Hash) (ds : Docs) (e f g : Env)
      {r : DocumentRecord Address} {rs : List (DocumentRecord Address)}
      → Registered issuer d.owner d.document_hash e r f
      → AllRegistered issuer ds f rs g
      → AllRegistered issuer (d ∷ ds) e (r ∷ rs) g
  one_more issuer d ds e f g {r} {rs} one more =
      let (apart, fresh) =
        Fresh-before d.document_hash e f ds one.stored one.touches.others more.fresh in
      record {
        fresh = (one.absent, apart, fresh);
        records =
            ap₂ ◌∷◌ one.shape
              (more.records ∙ ap (λ t. map (new_record issuer t) ds) one.touches.timestamp);
        stored = (
          more.others d.document_hash apart ∙ one.stored ∙ ap some one.shape,
          subst (λ t. All (λ x. get_document x.document_hash g ≡ some (new_record issuer t x)) ds)
              one.touches.timestamp more.stored,
        );
        others = λ k (n, ns). more.others k ns ∙ one.touches.others k (λ q. n (sym q));
        rest = λ k a b. more.rest k a b ∙ one.touches.rest k a b;
        events = rw (more.events, one.touches.events) (append_assoc e.events _ _);
        upgrades = more.upgrades ∙ one.touches.upgrades;
      }

  pub for_each-AllRegistered :
      (issuer : Address) (ds : Docs) (e : Env) {rs : List (DocumentRecord Address)} {e' : Env}
      → for_each (λ d. register_one issuer d.owner d.document_hash) ds e ≡ ok rs e'
      → AllRegistered issuer ds e rs e'
  unfolding for_each
  for_each-AllRegistered issuer [] e {rs} {e'} p =
      let (pr, pe) = ok-injective p in
      rw (← pr, ← pe)
        (record {
          fresh = tt;
          records = refl;
          stored = tt;
          others = λ g _. refl;
          rest = λ k _ _. refl;
          events = sym (append-nil e.events);
          upgrades = refl;
        })
  for_each-AllRegistered issuer (d ∷ ds) e {rs} {e'} p =
      let (r, f, q, s, pr, ps) =
        for_each_run (λ d. register_one issuer d.owner d.document_hash) d ds e p in
      let one = register_one-Registered issuer d.owner d.document_hash e q in
      rw pr (one_more issuer d ds e f e' one (for_each-AllRegistered issuer ds f ps))

  -- A fresh batch goes through.
  pub for_each-IsOk :
      (issuer : Address) (ds : Docs) (e : Env)
      → Fresh e ds
      → IsOk (for_each (λ d. register_one issuer d.owner d.document_hash) ds e)
  unfolding for_each
  for_each-IsOk issuer [] e _ = tt
  for_each-IsOk issuer (d ∷ ds) e (absent, apart, more) =
      let (r, f, q) = IsOk-run _ (register_one-IsOk issuer d.owner d.document_hash e absent) in
      let one = register_one-Registered issuer d.owner d.document_hash e q in
      let fresh = Fresh-after d.document_hash e f ds one.touches.others apart more in
      let (rs, g, t) = IsOk-run _ (for_each-IsOk issuer ds f fresh) in
      rw (q, ◌>>=◌) (rw (t, ◌>>=◌) tt)

  AllRegistered-after :
      (issuer : Address) (ds : Docs) (e f : Env) {rs : List (DocumentRecord Address)} {e' : Env}
      → SameBut e f
      → AllRegistered issuer ds f rs e'
      → AllRegistered issuer ds e rs e'
  AllRegistered-after issuer ds e f {e' = g} s v = record {
    fresh = Fresh-same e f ds (λ g. SameBut-document g s) v.fresh;
    records = v.records ∙ ap (λ t. map (new_record issuer t) ds) s.timestamp;
    stored =
        subst (λ t. All (λ x. get_document x.document_hash g ≡ some (new_record issuer t x)) ds)
          s.timestamp v.stored;
    others = λ g n. v.others g n ∙ SameBut-document g s;
    rest = λ k a b. v.rest k a b ∙ s.kept k b;
    events = v.events ∙ ap (λ l. l ++ map (registered_event issuer) ds) s.events;
    upgrades = v.upgrades ∙ s.upgrades;
  }

  -- A batch that succeeds found every hash free and none twice, stores an active record for each
  -- document, at the ledger's time and in the order of the batch, changes nothing else but rate-limit
  -- buckets, and adds one event for each document.
  pub batch_register_documents-AllRegistered :
      (issuer : Address) (ds : Docs) (e : Env) {rs : List (DocumentRecord Address)} {e' : Env}
      → batch_register_documents issuer ds e ≡ ok rs e'
      → AllRegistered issuer ds e rs e'
  unfolding batch_register_documents
  batch_register_documents-AllRegistered issuer ds e p =
      let (f, _, _, s, q) = guarded_run issuer (sized ds (for_each _ ds)) e p in
      let (_, t) = sized_run ds (for_each _ ds) f q in
      AllRegistered-after issuer ds e f s (for_each-AllRegistered issuer ds f t)

  -- A batch succeeds exactly when the issuer authorises it, the rate limiter admits it, it has between
  -- 1 and 20 documents, no record stands under any of the hashes, and no hash occurs twice.
  pub batch_register_documents-succeeds_iff :
      (issuer : Address) (ds : Docs) (e : Env)
      → IsOk (batch_register_documents issuer ds e) ↔ (
          (e.authorized issuer ≡ true)
          × IsOk (check_rate_limit issuer issuer e)
          × Fits ds
          × Fresh e ds)
  unfolding batch_register_documents
  batch_register_documents-succeeds_iff issuer ds e = (forth, back)
    where
      forth :
          IsOk (batch_register_documents issuer ds e)
          → (e.authorized issuer ≡ true)
            × IsOk (check_rate_limit issuer issuer e)
            × Fits ds
            × Fresh e ds
      forth d =
          let (_, _, p) = IsOk-run _ d in
          let (f, a, c, s, q) = guarded_run issuer (sized ds (for_each _ ds)) e p in
          let (fits, _) = sized_run ds (for_each _ ds) f q in
          (a, rw c tt, fits, (batch_register_documents-AllRegistered issuer ds e p).fresh)

      back :
          (e.authorized issuer ≡ true)
            × IsOk (check_rate_limit issuer issuer e)
            × Fits ds
            × Fresh e ds
          → IsOk (batch_register_documents issuer ds e)
      back (a, c, fits, fresh) =
          let (_, f, p) = IsOk-run _ c in
          let s = admitted-SameBut issuer issuer e p in
          rw
            (
              run_guarded issuer (sized ds (for_each _ ds)) e a p,
              run_sized ds (for_each _ ds) f fits,
            )
            (for_each-IsOk issuer ds f (Fresh-same f e ds (λ g. sym (SameBut-document g s)) fresh))
