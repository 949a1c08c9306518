-- ===== src/Vault/History.antt =====
-- The calls of the vault between a sealing and a reading.
use multi_agent_desk.Prelude.{
  ℕ, Bool, true, false, ◌||◌, ◌≡◌, ◌≢◌, ◌∙◌, refl, sym, ap, inl, inr, ◌⊎◌, some, List, [], ◌∷◌, All,
  ltb, length, Text, Bool-cases, arith,
}
use multi_agent_desk.Domain.Errors.{Result, ok, err}
use multi_agent_desk.Storage.Driver.{Driver}
use multi_agent_desk.Storage.Links.{CredentialStatus}
use multi_agent_desk.Storage.Vault.{VaultConfig, VaultRows, vault_config, initialize_vault}
use multi_agent_desk.Storage.Vault.Revocation.{reserve_revocation, finalize_revocation}
use multi_agent_desk.Storage.Vault.Matching.{Matching}
use multi_agent_desk.Storage.Vault.Keeping.{
  Steady, Steady-refl, Steady-trans, replace-Steady, initialize-Steady, reserve-Steady,
}
use multi_agent_desk.Storage.Vault.Revoking.{finalize-Steady}
use multi_agent_desk.Vault.Fields.{CredentialMetadata}
use multi_agent_desk.Vault.Crypto.{Crypto, Opens}
use multi_agent_desk.Vault.Manager.{
  VaultState, Manager, max_password_size, Initialization, check_initialization, config_for,
  after_initialization, initialize_checked, initialize, opens_check, key_of, key_check_aad,
  unlock_key, with_key, unlock, lock, lock_state, is_unlocked, current_kek,
}
use multi_agent_desk.Vault.Sealing.{
  Fresh, sealed_item, sealing_kek, seal_with, saved_revision, seal_credential, read_credential,
}
use multi_agent_desk.Vault.Opening.{NotBefore, seal-Sealed, read-Sealed}

-- A call of the manager, or of the store for a logout.
pub data Call : Type 0 where
  initializes : Driver → Bool → Initialization → Call
  unlocks : Bool → Text → Call
  locks : Call
  seals : Driver → Fresh → CredentialMetadata → Text → Call
  reserves : Driver → ℕ → Text → ℕ → Call
  finalizes : Driver → ℕ → Text → ℕ → Call

module _ (c : Crypto) where
  unfoldable pub step : Call → Manager × VaultRows → Manager × VaultRows
  step (Call.initializes d blocked i) (m, t) =
      ((initialize c d blocked i m t).1, (initialize c d blocked i m t).2)
  step (Call.unlocks reads secret) (m, t) = ((unlock c reads secret t m).1, t)
  step Call.locks (m, t) = (lock m, t)
  step (Call.seals d fresh metadata plain) (m, t) =
      (m, (seal_credential c d fresh metadata plain m t).1)
  step (Call.reserves d active id at) (m, t) = (m, (reserve_revocation d active id at t).1)
  step (Call.finalizes d active id at) (m, t) = (m, (finalize_revocation d active id at t).1)

  unfoldable pub run : List Call → Manager × VaultRows → Manager × VaultRows
  run [] s = s
  run (call ∷ calls) s = run calls (step call s)

  -- The calls that may come between: they unlock with the password, or with one that does not open
  -- the key check, and they neither seal the credential of `id` again nor finalize its revocation.
  abbrev pub Spares : Text → Text → VaultConfig → Call → Type 0
  Spares id password config (Call.unlocks reads secret) =
      (secret ≡ password)
      ⊎ (opens_check (
            c.unseal (key_of c secret config) config.key_check_nonce config.key_check_ciphertext
              key_check_aad)
          ≡ false)
  Spares id password config (Call.seals d fresh metadata plain) =
      metadata.credential_instance_id ≢ id
  Spares id password config (Call.finalizes d active other at) = other ≢ id
  Spares id password config _ = Unit

  -- A persistent manager over a vault with this configuration, whose key is that of the password
  -- while it is unlocked.
  pub record Ready (password : Text) (config : VaultConfig) (s : Manager × VaultRows) : Type 0 where
    pub persistent : s.0.persistent ≡ true
    pub configured : s.1.config ≡ some config
    pub matching : Matching s.1
    pub keyed : is_unlocked s.0.state ≡ true → s.0.kek ≡ key_of c password config

  Steady-Ready :
      (id password : Text) (config : VaultConfig) (m m' : Manager) (t t' : VaultRows)
      → Ready password config (m, t)
      → Steady id t t'
      → m'.persistent ≡ true
      → (is_unlocked m'.state ≡ true → m'.kek ≡ key_of c password config)
      → Ready password config (m', t')
  Steady-Ready id password config m m' t t' r s persistent keyed = record {
    persistent = persistent;
    configured = s.config config r.configured;
    matching = s.matching;
    keyed = keyed;
  }

  unlock_key_lem :
      (secret key : Text) (config : VaultConfig) (reads : Bool) (t : VaultRows)
      → t.config ≡ some config
      → unlock_key c reads secret t ≡ ok key
      → (key ≡ key_of c secret config)
        × (opens_check (
              c.unseal
                (key_of c secret config)
                config.key_check_nonce
                config.key_check_ciphertext
                key_check_aad)
            ≡ true)
  unfolding unlock_key vault_config
  unlock_key_lem secret key config reads t configured h =
      let h' = rw (configured, unlock_key, vault_config) at h in ground arith

  unlock_key-password :
      (password secret key : Text) (config : VaultConfig) (reads : Bool) (t : VaultRows)
      → t.config ≡ some config
      → Spares [] password config (Call.unlocks reads secret)
      → unlock_key c reads secret t ≡ ok key
      → key ≡ key_of c password config
  unlock_key-password password secret key config reads t configured (inl same) h =
      (unlock_key_lem secret key config reads t configured h).0 ∙ ap (λ s. key_of c s config) same
  unlock_key-password password secret key config reads t configured (inr wrong) h =
      absurd (false_ne (sym wrong ∙ (unlock_key_lem secret key config reads t configured h).1))
    where
      false_ne : Path Bool false true → ⊥
      false_ne e = ground arith

  lock_state-locked :
      (persistent : Bool) (state : VaultState) → is_unlocked (lock_state persistent state) ≡ false
  lock_state-locked false state = refl
  lock_state-locked true VaultState.uninitialized = refl
  lock_state-locked true VaultState.locked = refl
  lock_state-locked true VaultState.unlocked = refl
  lock_state-locked true VaultState.corrupt = refl

  -- What a call leaves.
  record After (id password : Text) (config : VaultConfig) (s s' : Manager × VaultRows)
      : Type 0 where
    ready : Ready password config s'
    steady : Steady id s.1 s'.1

  with_key-After :
      (id password secret : Text) (config : VaultConfig) (reads : Bool) (m : Manager)
      (t : VaultRows) (key : Result Text)
      → Ready password config (m, t)
      → ((k : Text) → key ≡ ok k → k ≡ key_of c password config)
      → After id password config (m, t) ((with_key m key).1, t)
  with_key-After id password secret config reads m t (err e) r right = record {
    ready = r;
    steady = Steady-refl id t r.matching;
  }
  with_key-After id password secret config reads m t (ok key) r right = record {
    ready = record {
      persistent = r.persistent;
      configured = r.configured;
      matching = r.matching;
      keyed = λ open_now. right key refl;
    };
    steady = Steady-refl id t r.matching;
  }

  unlock-After :
      (id password secret : Text) (config : VaultConfig) (reads : Bool) (m : Manager)
      (t : VaultRows)
      → Ready password config (m, t)
      → Spares id password config (Call.unlocks reads secret)
      → After id password config (m, t) ((unlock c reads secret t m).1, t)
  unfolding unlock
  unlock-After id password secret config reads m t r spares =
      elim (Bool-cases (ltb (length secret) 1 || ltb max_password_size (length secret))) [
        | inl refused ↦ rw refused (record { ready = r; steady = Steady-refl id t r.matching })
        | inr fine ↦
            simp (fine, r.persistent)
              (with_key-After id password secret config reads m t (unlock_key c reads secret t) r
                (λ k h. unlock_key-password password secret k config reads t r.configured spares h))
      ]

  after_initialization-After :
      (id password : Text) (config : VaultConfig) (m : Manager) (t : VaultRows)
      (x : Result Bool × VaultRows)
      → Ready password config (m, t)
      → Steady id t x.1
      → let y = after_initialization m x in After id password config (m, t) (y.1, y.2)
  after_initialization-After id password config m t (err e, t') r s = record {
    ready = Steady-Ready id password config m m t t' r s r.persistent r.keyed;
    steady = s;
  }
  after_initialization-After id password config m t (ok _, t') r s = record {
    ready =
        Steady-Ready id password config m (record m { state = VaultState.locked; kek = [] }) t t' r
          s r.persistent (λ open_now. absurd (ground arith));
    steady = s;
  }

  initialize_checked-After :
      (id password : Text) (config new : VaultConfig) (checked : Result (Unit {0})) (d : Driver)
      (blocked : Bool) (m : Manager) (t : VaultRows)
      → Ready password config (m, t)
      → let y = initialize_checked checked d blocked new m t in
        After id password config (m, t) (y.1, y.2)
  initialize_checked-After id password config new (err e) d blocked m t r = record {
    ready = r;
    steady = Steady-refl id t r.matching;
  }
  initialize_checked-After id password config new (ok _) d blocked m t r =
      after_initialization-After id password config m t (initialize_vault d blocked new t) r
        (initialize-Steady id d blocked new t r.matching)

  seal_with-Steady :
      (id : Text) (d : Driver) (fresh : Fresh) (metadata : CredentialMetadata) (plain : Text)
      (kek : Result Text) (t : VaultRows)
      → metadata.credential_instance_id ≢ id
      → Matching t
      → Steady id t (seal_with c d fresh metadata plain kek t).1
  unfolding sealed_item
  seal_with-Steady id d fresh metadata plain (err e) t other m = Steady-refl id t m
  seal_with-Steady id d fresh metadata plain (ok kek) t other m = rw (saved_rows _ _) (
      replace-Steady id d metadata.expected_revision (sealed_item c kek fresh metadata plain)
        CredentialStatus.healthy t other m)
    where
      saved_rows : (n : ℕ) (x : Result (Unit {0}) × VaultRows) → (saved_revision n x).1 ≡ x.1
      saved_rows n (err e, u) = refl
      saved_rows n (ok _, u) = refl

  same_manager :
      (id password : Text) (config : VaultConfig) (m : Manager) (t t' : VaultRows)
      → Ready password config (m, t)
      → Steady id t t'
      → After id password config (m, t) (m, t')
  same_manager id password config m t t' r s = record {
    ready = Steady-Ready id password config m m t t' r s r.persistent r.keyed;
    steady = s;
  }

  step-After :
      (id password : Text) (config : VaultConfig) (call : Call) (s : Manager × VaultRows)
      → Ready password config s
      → Spares id password config call
      → After id password config s (step call s)
  unfolding step initialize lock seal_credential
  step-After id password config (Call.initializes d blocked i) (m, t) r spares =
      initialize_checked-After id password config (config_for c i) (check_initialization c m i) d
        blocked m t r
  step-After id password config (Call.unlocks reads secret) (m, t) r spares =
      unlock-After id password secret config reads m t r spares
  step-After id password config Call.locks (m, t) r spares = record {
    ready = record {
      persistent = r.persistent;
      configured = r.configured;
      matching = r.matching;
      keyed = λ open_now. absurd (let l = lock_state-locked m.persistent m.state in ground arith);
    };
    steady = Steady-refl id t r.matching;
  }
  step-After id password config (Call.seals d fresh metadata plain) (m, t) r spares =
      same_manager id password config m t _ r (
        seal_with-Steady id d fresh metadata plain (sealing_kek c fresh metadata plain m) t spares
          r.matching)
  step-After id password config (Call.reserves d active other at) (m, t) r spares =
      same_manager id password config m t _ r (reserve-Steady id d active other at t r.matching)
  step-After id password config (Call.finalizes d active other at) (m, t) r spares =
      same_manager id password config m t _ r
        (finalize-Steady id d active other at t spares r.matching)

  run-After :
      (id password : Text) (config : VaultConfig) (calls : List Call) (s : Manager × VaultRows)
      → Ready password config s
      → All (Spares id password config) calls
      → After id password config s (run calls s)
  unfolding run
  run-After id password config [] s r spares = record {
    ready = r;
    steady = Steady-refl id s.1 r.matching;
  }
  run-After id password config (call ∷ calls) s r spares =
      let one = step-After id password config call s r spares.0 in
      let rest = run-After id password config calls (step call s) one.ready spares.1 in
      record {
        ready = rest.ready;
        steady =
            Steady-trans id s.1 (step call s).1 (run calls (step call s)).1 one.steady rest.steady;
      }

  current_kek_lem :
      (m : Manager) (key kek : Text)
      → current_kek m ≡ ok kek
      → (is_unlocked m.state ≡ true → m.kek ≡ key)
      → (kek ≡ key) × (length kek ≡ 32)
  unfolding current_kek
  current_kek_lem m key kek h keyed =
      let same : m.kek ≡ kek = ground arith in
      let opened : is_unlocked m.state ≡ true = ground arith in
      (sym same ∙ keyed opened, rw (sym same) (ground arith))

  current_kek_unlocked :
      (m : Manager) (key : Text)
      → is_unlocked m.state ≡ true
      → m.kek ≡ key
      → length key ≡ 32
      → current_kek m ≡ ok key
  unfolding current_kek
  current_kek_unlocked m key opened same long = ground arith

  -- A credential that was sealed with success is read back, the same bytes at the next revision,
  -- after any calls of the vault that neither seal it again nor finalize its revocation, once the
  -- vault is unlocked and can be read. It is assumed that what is sealed can be unsealed, that the
  -- vault had this configuration and was unlocked with the password, that the stored items matched
  -- their credentials (every call here keeps that), that every later unlocking is with the password
  -- or with one that does not open the key check, and that an item that it replaces was created
  -- before.
  pub read_after_seal :
      (password : Text) (config : VaultConfig) (d : Driver) (fresh : Fresh)
      (metadata : CredentialMetadata) (plain : Text) (m : Manager) (t t' : VaultRows) (revision : ℕ)
      (calls : List Call)
      → Opens c
      → Ready password config (m, t)
      → NotBefore metadata t
      → seal_credential c d fresh metadata plain m t ≡ (ok revision, t')
      → All (Spares metadata.credential_instance_id password config) calls
      → is_unlocked (run calls (m, t')).0.state ≡ true
      → read_credential c true metadata.credential_instance_id
          (run calls (m, t')).0
          (run calls (m, t')).1
        ≡ ok (plain, revision)
  read_after_seal password config d fresh metadata plain m t t' revision calls opens r before sealed
        spares opened =
      let s = seal-Sealed c d fresh metadata plain m t t' revision r.matching before sealed in
      let ready : Ready password config (m, t') = record {
        persistent = r.persistent;
        configured = s.0.config ∙ r.configured;
        matching = s.0.matching;
        keyed = r.keyed;
      } in
      let after =
        run-After metadata.credential_instance_id password config calls (m, t') ready spares in
      let key = current_kek_lem m (key_of c password config) s.0.kek s.0.current r.keyed in
      let now =
        current_kek_unlocked (run calls (m, t')).0 s.0.kek opened
          (after.ready.keyed opened ∙ sym key.0) key.1 in
      read-Sealed c metadata plain m (run calls (m, t')).0 t t' (run calls (m, t')).1 opens s.0
        after.steady.item now
      ∙ ap (λ n. ok (plain, n)) s.1
