-- ===== src/Contract/Governance/Admin.antt =====
-- src/lib.rs: who may upgrade the contract, set a flag or set the rate limits, and what these change.
use proof_stell_contract.Base.{
  ◌≡◌, sym, ap, ◌∙◌, ◌≢◌, Bool, true, false, none, some, arith, unwrap_or, [], ◌∷◌, ◌++◌,
  Option-cases, Bool-cases, inl, inr,
}
use proof_stell_contract.Contract.Host.{Host, DataKey, RateLimitConfig}
use proof_stell_contract.Contract.Monad.{
  Env, Outcome, ok, err, trap, ContractEvent, unauthorized, not_initialized, ◌>>=◌, ◌>>◌,
}
use proof_stell_contract.Contract.RateLimit.{require_admin, set_rate_limit_config}
use proof_stell_contract.Contract.Governance.{
  get_admin, get_version, get_feature_flag, upgrade, set_feature_flag,
}

module _ ⦃host : Host⦄ where
  open host use {Address, Hash, Symbol, get, set, get-set_self, get-set_ne}

  -- The four ends of a call that only the admin may make; `done` is the last.
  pub data AdminCase {A : Type 0} (a : Address) (e : Env) (o done : Outcome A) : Type 0 where
    unsigned : e.authorized a ≡ false → o ≡ trap → AdminCase a e o done
    uninitialized :
        e.authorized a ≡ true
        → get_admin e ≡ none
        → o ≡ err not_initialized e
        → AdminCase a e o done
    stranger :
        (b : Address)
        → e.authorized a ≡ true
        → get_admin e ≡ some b
        → b ≢ a
        → o ≡ err unauthorized e
        → AdminCase a e o done
    governs : e.authorized a ≡ true → get_admin e ≡ some a → o ≡ done → AdminCase a e o done

  pub require_admin-AdminCase :
      (a : Address) (e : Env) → AdminCase a e (require_admin a e) (ok tt e)
  unfolding require_admin get_admin
  require_admin-AdminCase a e = elim (Bool-cases (e.authorized a)) [
    | inr u ↦ unsigned u (ground arith)
    | inl s ↦ elim (Option-cases (get DataKey.admin e.store)) [
      | inl n ↦ uninitialized s n (ground arith)
      | inr (b, p) ↦ elim (host.address_eq b a) [
        | yes q ↦ governs s (p ∙ ap some q) (ground arith)
        | no n ↦ stranger b s p n (ground arith)
      ]
    ]
  ]

  pub then-AdminCase :
      {A : Type 0} (a : Address) (e : Env) (k : Env → Outcome A)
      → AdminCase a e ((require_admin a >> k) e) (k e)
  then-AdminCase a e k = elim (require_admin-AdminCase a e) [
    | unsigned u p ↦ unsigned u (rw (p, ◌>>=◌))
    | uninitialized s n p ↦ uninitialized s n (rw (p, ◌>>=◌))
    | stranger b s q n p ↦ stranger b s q n (rw (p, ◌>>=◌))
    | governs s q p ↦ governs s q (rw (p, ◌>>=◌))
  ]

  -- An upgrade is for the stored admin alone: it hands the host the new WASM and adds an event with
  -- the stored version, and any other call changes nothing and says why.
  pub upgrade-AdminCase :
      (a : Address) (w : Hash) (e : Env)
      → AdminCase a e (upgrade a w e) (
          ok tt (record e {
            upgrades = w ∷ e.upgrades;
            events =
                e.events ++ ContractEvent.contract_upgraded a (get_version e) (get_version e) ∷ [];
          }))
  unfolding upgrade get_version
  upgrade-AdminCase a w e = then-AdminCase a e _

  -- Setting the rate limits is for the stored admin alone: it stores the configuration and nothing
  -- else, and any other call changes nothing and says why.
  pub set_rate_limit_config-AdminCase :
      (a : Address) (c : RateLimitConfig) (e : Env)
      → AdminCase a e
          (set_rate_limit_config a c e)
          (ok tt (record e { store = set DataKey.rate_limit_config c e.store }))
  unfolding set_rate_limit_config
  set_rate_limit_config-AdminCase a c e = then-AdminCase a e _

  set_feature_flag-AdminCase :
      (a : Address) (flag : Symbol) (enabled : Bool) (e : Env)
      → AdminCase a e
          (set_feature_flag a flag enabled e)
          (ok tt (record e { store = set (DataKey.feature_flag flag) enabled e.store }))
  unfolding set_feature_flag
  set_feature_flag-AdminCase a flag enabled e = then-AdminCase a e _

  -- A flag that is set is set by the stored admin, has the value given to it, and is the only flag that
  -- changes; the admin and the version stay.
  pub set_feature_flag-sets :
      (a : Address) (flag : Symbol) (enabled : Bool) (e : Env) {e' : Env}
      → set_feature_flag a flag enabled e ≡ ok tt e'
      → (e.authorized a ≡ true)
        × (get_admin e ≡ some a)
        × (get_feature_flag flag e' ≡ enabled)
        × ((other : Symbol) → other ≢ flag → get_feature_flag other e' ≡ get_feature_flag other e)
        × (get_admin e' ≡ get_admin e)
        × (get_version e' ≡ get_version e)
  unfolding get_feature_flag get_admin get_version
  set_feature_flag-sets a flag enabled e {e'} p =
      elim (set_feature_flag-AdminCase a flag enabled e) [
        | unsigned _ q ↦ cc (sym p ∙ q)
        | uninitialized _ _ q ↦ cc (sym p ∙ q)
        | stranger _ _ _ _ q ↦ cc (sym p ∙ q)
        | governs s g q ↦
            let same : e'.store ≡ set (DataKey.feature_flag flag) enabled e.store =
              cc (sym p ∙ q) in
            (
              s,
              g,
              ap (λ t. unwrap_or (get (DataKey.feature_flag flag) t) false) same
                  ∙ ap (λ o. unwrap_or o false)
                      (get-set_self (DataKey.feature_flag flag) enabled e.store),
              λ other n.
                  ap (λ t. unwrap_or (get (DataKey.feature_flag other) t) false) same
                  ∙ ap (λ o. unwrap_or o false)
                      (get-set_ne (DataKey.feature_flag other) (DataKey.feature_flag flag) enabled
                        e.store (λ z. n (cc z))),
              ap (get DataKey.admin) same
                  ∙ get-set_ne DataKey.admin (DataKey.feature_flag flag) enabled e.store
                      (λ z. cc z),
              ap (λ t. unwrap_or (get DataKey.version t) 0) same
                  ∙ ap (λ o. unwrap_or o 0)
                      (get-set_ne DataKey.version (DataKey.feature_flag flag) enabled e.store
                        (λ z. cc z)),
            )
      ]
