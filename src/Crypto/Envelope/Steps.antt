-- ===== src/Crypto/Envelope/Steps.antt =====
-- Every call of the envelope service keeps the vault sound and its stored keys readable.
use himitsu.Prelude.{ℕ, ◌<◌, ◌≡◌, refl, ◌∙◌, inl, inr, some, List, [], ◌∷◌, All}
use himitsu.Errors.{Result-cases}
use himitsu.Crypto.{
  Bytes, Cipher, LocalMasterKey, DataKeyRecord, SecretEncryptionContext, secret_aad,
}
use himitsu.Crypto.Keys.Table.{KeyTable, get_version, ensure_active}
use himitsu.Crypto.Keys.Table.Versions.{IsKeyed}
use himitsu.Crypto.Keys.Table.Activation.{KeepsKeys, ensure_active_effect, ensure_active_keeps}
use himitsu.Crypto.Envelope.{
  CacheEntry, Vault, Options, Randomness, generate_wrapped_key, load_key, encrypt,
}
use himitsu.Crypto.Envelope.Loading.{CacheSound, IsSound, load_key-Loads}

module _ (cipher : Cipher) (master : LocalMasterKey) (options : Options)
    (positive : 0 < options.max_cache_entries) where
  -- The vault afterwards is sound, and reads every key that it could read before.
  pub record Kept (v v' : Vault) : Type 0 where
    pub sound : IsSound cipher master options v'
    pub keys : KeepsKeys v.keys v'.keys

  pub Kept-refl : (v : Vault) → IsSound cipher master options v → Kept v v
  Kept-refl v s = record { sound = s; keys = λ o version x found. (x, found, refl) }

  pub Kept-trans : (v v1 v2 : Vault) → Kept v v1 → Kept v1 v2 → Kept v v2
  Kept-trans v v1 v2 a b = record {
    sound = b.sound;
    keys = λ o version x found.
        let (y, found', same) = a.keys o version x found in
        let (z, found'', same') = b.keys o version y found' in (z, found'', same' ∙ same);
  }

  cache_kept :
      (keys keys' : KeyTable) (cache : List CacheEntry)
      → KeepsKeys keys keys'
      → All (CacheSound cipher master options keys) cache
      → All (CacheSound cipher master options keys') cache
  cache_kept keys keys' [] k h = tt
  cache_kept keys keys' (c ∷ rest) k ((r, found, key), hs) =
      let (y, found', same) = k c.org_id c.version r found in
      ((y, found', rw same key), cache_kept keys keys' rest k hs)

  pub keys-Kept :
      (v : Vault) (keys' : KeyTable)
      → IsSound cipher master options v
      → IsKeyed keys' × KeepsKeys v.keys keys'
      → Kept v (record v { keys = keys' })
  keys-Kept v keys' s (keyed, kept) = record {
    sound = record {
      keyed = keyed;
      cached = cache_kept v.keys keys' v.cache kept s.cached;
      bounded = s.bounded;
    };
    keys = kept;
  }

  pub loaded-Kept :
      (now : ℕ) (r : DataKeyRecord) (v : Vault)
      → IsSound cipher master options v
      → get_version r.org_id r.version v.keys ≡ some r
      → Kept v (load_key cipher master options now r v).1
  loaded-Kept now r v s stored =
      let (_, same, cached, bounded) =
        load_key-Loads cipher master options positive now r v s stored in
      record {
        sound = record { keyed = rw same s.keyed; cached = rw same cached; bounded = bounded };
        keys = rw same (λ o version x found. (x, found, refl));
      }

  pub encrypt-Kept :
      (now : ℕ) (random : Randomness) (plaintext : Bytes) (context : SecretEncryptionContext)
      (v : Vault)
      → IsSound cipher master options v
      → Kept v (encrypt cipher master options now random plaintext context v).1
  unfolding encrypt
  encrypt-Kept now random plaintext context v s =
      let factory = generate_wrapped_key cipher master options random context.org_id in
      let made = ensure_active context.org_id now factory v.keys in
      elim (Result-cases (secret_aad context)) [
        | inl (e, bad) ↦ rw bad (Kept-refl v s)
        | inr (aad, good) ↦
            let stored =
              keys-Kept v made.1 s
                (ensure_active_keeps context.org_id now factory v.keys s.keyed) in
            elim (Result-cases made.0) [
              | inl (e, failed) ↦ rw (good, failed) stored
              | inr (r, active) ↦
                  let a =
                    ensure_active_effect context.org_id now factory v.keys made.1 r s.keyed
                      (λ i. (active i, made.1)) in
                  let v1 : Vault = record v { keys = made.1 } in
                  let loaded = loaded-Kept now r v1 stored.sound a.stored in
                  let all = Kept-trans v v1 _ stored loaded in
                  elim (Result-cases (load_key cipher master options now r v1).0) [
                    | inl (e, unread) ↦ rw (good, active, unread) all
                    | inr (key, read) ↦ rw (good, active, read) all
                  ]
            ]
      ]
