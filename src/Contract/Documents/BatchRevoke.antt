-- ===== src/Contract/Documents/BatchRevoke.antt =====
-- src/lib.rs, `batch_revoke_documents`: what a batch requires and what it writes.
use mathlib.Core.List.{append_assoc, append-nil}
use proof_stell_contract.Base.{
  ◌≡◌, refl, ◌≢◌, ◌↔◌, ◌∙◌, ap, sym, some, List, [], ◌∷◌, ◌++◌, map, true, false, All,
}
use proof_stell_contract.Contract.Host.{Host, DocumentRecord}
use proof_stell_contract.Contract.Monad.{Env, ok, Key, ContractEvent, ◌>>=◌}
use proof_stell_contract.Contract.RateLimit.{check_rate_limit}
use proof_stell_contract.Contract.Frames.{
  is_bucket_key, IsOk, IsOk-run, admitted-SameBut, guarded_run, run_guarded,
}
use proof_stell_contract.Contract.Documents.{
  revoke_one, for_each, batch_revoke_documents, get_document,
}
use proof_stell_contract.Contract.Documents.Register.{
  Fits, sized, sized_run, run_sized, for_each_run, SameBut-document, is_document_key, ok-injective,
}
use proof_stell_contract.Contract.Documents.Revoke.{
  Revocable, Revoked, revoked_record, revoke_one-Revoked, revoke_one-IsOk,
}

module _ ⦃host : Host⦄ where
  open host use {Address, Hash, get}

  abbrev pub Avoids : Hash → List Hash → Type 0
  Avoids h = All (λ g. g ≢ h)

  abbrev pub CanRevoke : Address → Env → Hash → Type 0
  CanRevoke issuer e h =
      (r : DocumentRecord Address) × (get_document h e ≡ some r) × Revocable issuer r

  -- Each hash can be revoked, and none occurs twice.
  abbrev pub AllRevocable : Address → Env → List Hash → Type 0
  AllRevocable issuer e [] = Unit
  AllRevocable issuer e (h ∷ hs) = CanRevoke issuer e h × Avoids h hs × AllRevocable issuer e hs

  -- The record under a hash goes from active to its revoked copy.
  abbrev pub Flipped : Address → Env → Env → Hash → Type 0
  Flipped issuer e e' h =
      (r : DocumentRecord Address) × (get_document h e ≡ some r)
      × Revocable issuer r
      × (get_document h e' ≡ some (revoked_record r))

  pub record AllRevoked (issuer : Address) (hs : List Hash) (e e' : Env) : Type 0 where
    pub revocable : AllRevocable issuer e hs
    pub flipped : All (Flipped issuer e e') hs
    pub others : (g : Hash) → Avoids g hs → get_document g e' ≡ get_document g e
    pub rest :
        (k : Key)
        → is_document_key k ≡ false
        → is_bucket_key k ≡ false
        → get k e'.store ≡ get k e.store
    pub events : e'.events ≡ e.events ++ map (ContractEvent.document_revoked issuer) hs
    pub upgrades : e'.upgrades ≡ e.upgrades

  -- A revoked document is in no later part of a batch that succeeds.
  apart :
      (issuer : Address) (h : Hash) (r : DocumentRecord Address) (f : Env) (hs : List Hash)
      → get_document h f ≡ some (revoked_record r)
      → AllRevocable issuer f hs
      → Avoids h hs
  apart issuer h r f [] stored _ = tt
  apart issuer h r f (g ∷ hs) stored ((s, found, (_, active)), _, more) = (
    λ q. cc (sym found ∙ ap (λ k. get_document k f) q ∙ stored, active),
    apart issuer h r f hs stored more,
  )

  revocable_back :
      (issuer : Address) (h : Hash) (e f : Env) (hs : List Hash)
      → ((g : Hash) → g ≢ h → get_document g f ≡ get_document g e)
      → Avoids h hs
      → AllRevocable issuer f hs
      → AllRevocable issuer e hs
  revocable_back issuer h e f [] others _ _ = tt
  revocable_back issuer h e f (g ∷ hs) others (n, ns) ((s, found, can), distinct, more) =
      ((s, sym (others g n) ∙ found, can), distinct, revocable_back issuer h e f hs others ns more)

  Flipped-back :
      (issuer : Address) (h : Hash) (e f e' : Env) (hs : List Hash)
      → ((g : Hash) → g ≢ h → get_document g f ≡ get_document g e)
      → Avoids h hs
      → All (Flipped issuer f e') hs
      → All (Flipped issuer e e') hs
  Flipped-back issuer h e f e' [] others _ _ = tt
  Flipped-back issuer h e f e' (g ∷ hs) others (n, ns) ((s, found, can, now), more) =
      ((s, sym (others g n) ∙ found, can, now), Flipped-back issuer h e f e' hs others ns more)

  one_more :
      (issuer : Address) (h : Hash) (hs : List Hash) (e f g : Env) {r : DocumentRecord Address}
      → Revoked issuer h e r f
      → AllRevoked issuer hs f g
      → AllRevoked issuer (h ∷ hs) e g
  one_more issuer h hs e f g {r} one more =
      let ns = apart issuer h r f hs one.stored more.revocable in
      let others = one.touches.others in
      record {
        revocable = (
          (r, one.found, one.revocable),
          ns,
          revocable_back issuer h e f hs others ns more.revocable,
        );
        flipped = (
          (r, one.found, one.revocable, more.others h ns ∙ one.stored),
          Flipped-back issuer h e f g hs others ns more.flipped,
        );
        others = λ k (n, m). more.others k m ∙ others k (λ q. n (sym q));
        rest = λ k a b. more.rest k a b ∙ one.touches.rest k a b;
        events = rw (more.events, one.touches.events) (append_assoc e.events _ _);
        upgrades = more.upgrades ∙ one.touches.upgrades;
      }

  pub for_each-AllRevoked :
      (issuer : Address) (hs : List Hash) (e : Env) {rs : List (DocumentRecord Address)} {e' : Env}
      → for_each (revoke_one issuer) hs e ≡ ok rs e'
      → AllRevoked issuer hs e e'
  unfolding for_each
  for_each-AllRevoked issuer [] e p =
      let (_, pe) = ok-injective p in
      rw (← pe) (record {
        revocable = tt;
        flipped = tt;
        others = λ g _. refl;
        rest = λ k _ _. refl;
        events = sym (append-nil e.events);
        upgrades = refl;
      })
  for_each-AllRevoked issuer (h ∷ hs) e {e'} p =
      let (_, f, q, _, _, ps) = for_each_run (revoke_one issuer) h hs e p in
      let (_, _, one) = revoke_one-Revoked issuer h e q in
      one_more issuer h hs e f e' one (for_each-AllRevoked issuer hs f ps)

  revocable_on :
      (issuer : Address) (h : Hash) (e f : Env) (hs : List Hash)
      → ((g : Hash) → g ≢ h → get_document g f ≡ get_document g e)
      → Avoids h hs
      → AllRevocable issuer e hs
      → AllRevocable issuer f hs
  revocable_on issuer h e f hs others = revocable_back issuer h f e hs (λ g n. sym (others g n))

  pub for_each-IsOk :
      (issuer : Address) (hs : List Hash) (e : Env)
      → AllRevocable issuer e hs
      → IsOk (for_each (revoke_one issuer) hs e)
  unfolding for_each
  for_each-IsOk issuer [] e _ = tt
  for_each-IsOk issuer (h ∷ hs) e ((r, found, can), ns, more) =
      let (_, f, q) = IsOk-run _ (revoke_one-IsOk issuer h e r found can) in
      let (_, _, one) = revoke_one-Revoked issuer h e q in
      let (_, _, t) =
        IsOk-run _
          (for_each-IsOk issuer hs f (revocable_on issuer h e f hs one.touches.others ns more)) in
      rw (q, ◌>>=◌) (rw (t, ◌>>=◌) tt)

  AllRevocable-same :
      (issuer : Address) (e f : Env) (hs : List Hash)
      → ((g : Hash) → get_document g f ≡ get_document g e)
      → AllRevocable issuer f hs
      → AllRevocable issuer e hs
  AllRevocable-same issuer e f [] same _ = tt
  AllRevocable-same issuer e f (h ∷ hs) same ((s, found, can), ns, more) =
      ((s, sym (same h) ∙ found, can), ns, AllRevocable-same issuer e f hs same more)

  Flipped-same :
      (issuer : Address) (e f e' : Env) (hs : List Hash)
      → ((g : Hash) → get_document g f ≡ get_document g e)
      → All (Flipped issuer f e') hs
      → All (Flipped issuer e e') hs
  Flipped-same issuer e f e' [] same _ = tt
  Flipped-same issuer e f e' (h ∷ hs) same ((s, found, can, now), more) =
      ((s, sym (same h) ∙ found, can, now), Flipped-same issuer e f e' hs same more)

  -- A batch that succeeds turns an active record of the caller into its revoked copy under each of its
  -- hashes, none of which occurs twice, changes nothing else but rate-limit buckets, and adds one event
  -- for each hash.
  pub batch_revoke_documents-AllRevoked :
      (issuer : Address) (hs : List Hash) (e : Env) {rs : List (DocumentRecord Address)} {e' : Env}
      → batch_revoke_documents issuer hs e ≡ ok rs e'
      → AllRevoked issuer hs e e'
  unfolding batch_revoke_documents
  batch_revoke_documents-AllRevoked issuer hs e {e' = g} p =
      let (f, _, _, s, q) = guarded_run issuer (sized hs (for_each _ hs)) e p in
      let (_, t) = sized_run hs (for_each _ hs) f q in
      let v = for_each-AllRevoked issuer hs f t in
      record {
        revocable = AllRevocable-same issuer e f hs (λ k. SameBut-document k s) v.revocable;
        flipped = Flipped-same issuer e f g hs (λ k. SameBut-document k s) v.flipped;
        others = λ k n. v.others k n ∙ SameBut-document k s;
        rest = λ k a b. v.rest k a b ∙ s.kept k b;
        events = v.events ∙ ap (λ l. l ++ map (ContractEvent.document_revoked issuer) hs) s.events;
        upgrades = v.upgrades ∙ s.upgrades;
      }

  -- A batch succeeds exactly when the issuer authorises it, the rate limiter admits it, it has between
  -- 1 and 20 hashes, an active record of the issuer stands under each, and none occurs twice.
  pub batch_revoke_documents-succeeds_iff :
      (issuer : Address) (hs : List Hash) (e : Env)
      → IsOk (batch_revoke_documents issuer hs e) ↔ (
          (e.authorized issuer ≡ true)
          × IsOk (check_rate_limit issuer issuer e)
          × Fits hs
          × AllRevocable issuer e hs)
  unfolding batch_revoke_documents
  batch_revoke_documents-succeeds_iff issuer hs e = (forth, back)
    where
      forth :
          IsOk (batch_revoke_documents issuer hs e)
          → (e.authorized issuer ≡ true)
            × IsOk (check_rate_limit issuer issuer e)
            × Fits hs
            × AllRevocable issuer e hs
      forth d =
          let (_, _, p) = IsOk-run _ d in
          let (f, a, c, s, q) = guarded_run issuer (sized hs (for_each _ hs)) e p in
          let (fits, _) = sized_run hs (for_each _ hs) f q in
          (a, rw c tt, fits, (batch_revoke_documents-AllRevoked issuer hs e p).revocable)

      back :
          (e.authorized issuer ≡ true)
            × IsOk (check_rate_limit issuer issuer e)
            × Fits hs
            × AllRevocable issuer e hs
          → IsOk (batch_revoke_documents issuer hs e)
      back (a, c, fits, can) =
          let (_, f, p) = IsOk-run _ c in
          let s = admitted-SameBut issuer issuer e p in
          rw
            (
              run_guarded issuer (sized hs (for_each _ hs)) e a p,
              run_sized hs (for_each _ hs) f fits,
            )
            (for_each-IsOk issuer hs f
              (AllRevocable-same issuer f e hs (λ g. sym (SameBut-document g s)) can))
