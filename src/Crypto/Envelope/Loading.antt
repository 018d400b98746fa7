-- ===== src/Crypto/Envelope/Loading.antt =====
-- The cache of unwrapped keys: it never changes what `#loadKey` returns.
use himitsu.Prelude.{
  ℕ, suc, ◌+◌, ◌<◌, ◌≤◌, ◌≡◌, refl, sym, inl, inr, Bool, true, false, not, some, List, [], ◌∷◌,
  ◌++◌, All, filter, find, length, length-append, ltb, leb, if◌then◌else◌, Bool-cases, Option-cases,
  arith,
}
use himitsu.Errors.{Result, ok, Result-cases}
use himitsu.Crypto.{Bytes, Cipher, LocalMasterKey, DataKeyRecord, unwrap}
use himitsu.Crypto.Keys.Table.{KeyTable, get_version}
use himitsu.Crypto.Keys.Table.Versions.{IsKeyed, same_org}
use himitsu.Crypto.Envelope.{
  CacheEntry, Vault, Options, in_cache, drop_oldest, remember, unwrap_into_cache, load_key, forget,
}

module _ {ℓ} (P : CacheEntry → Type ℓ) where
  All-filter :
      (q : CacheEntry → Bool) (cache : List CacheEntry) → All P cache → All P (filter q cache)
  All-filter q [] h = tt
  All-filter q (c ∷ rest) (h, hs) =
      elim (q c) as (λ b. All P (let r = filter q rest in if b then c ∷ r else r)) [
        | true ↦ (h, All-filter q rest hs)
        | false ↦ All-filter q rest hs
      ]

  All-snoc :
      (cache : List CacheEntry) (c : CacheEntry) → All P cache → P c → All P (cache ++ c ∷ [])
  All-snoc [] c h p = (p, tt)
  All-snoc (x ∷ rest) c (h, hs) p = (h, All-snoc rest c hs p)

  All-remember :
      (options : Options) (c : CacheEntry) (cache : List CacheEntry)
      → All P cache
      → P c
      → All P (remember options c cache)
  unfolding remember
  All-remember options c [] h p =
      elim (leb options.max_cache_entries 0)
        as (λ b. All P (if b then drop_oldest [] ++ c ∷ [] else [] ++ c ∷ [])) [
          | true ↦ (p, tt)
          | false ↦ (p, tt)
        ]
  All-remember options c (x ∷ rest) (h, hs) p =
      elim (leb options.max_cache_entries (suc (length rest)))
        as (λ b. All P (if b then rest ++ c ∷ [] else x ∷ rest ++ c ∷ [])) [
          | true ↦ All-snoc rest c hs p
          | false ↦ (h, All-snoc rest c hs p)
        ]

  All-find :
      (q : CacheEntry → Bool) (cache : List CacheEntry) (c : CacheEntry)
      → All P cache
      → find q cache ≡ some c
      → (d : CacheEntry) × P d × (q d ≡ true) × (d ≡ c)
  All-find q [] c h f = cc
  All-find q (x ∷ rest) c (h, hs) f = elim (Bool-cases (q x)) [
    | inl t ↦ (x, h, t, ground (arith, t))
    | inr t ↦ All-find q rest c hs (ground (arith, t))
  ]

length-filter_le :
    (q : CacheEntry → Bool) (cache : List CacheEntry) → length (filter q cache) ≤ length cache
length-filter_le q [] = omega arith
length-filter_le q (c ∷ rest) = ground (arith, length-filter_le q rest)

length-remember :
    (options : Options) (c : CacheEntry) (cache : List CacheEntry)
    → 0 < options.max_cache_entries
    → length cache ≤ options.max_cache_entries
    → length (remember options c cache) ≤ options.max_cache_entries
unfolding remember
length-remember options c [] positive h = ground arith
length-remember options c (x ∷ rest) positive h = ground (arith, length-append rest (c ∷ []))

module _ (cipher : Cipher) (master : LocalMasterKey) (options : Options) where
  -- An entry holds the key that its version's wrapped key unwraps to.
  abbrev pub CacheSound : KeyTable → CacheEntry → Type 0
  CacheSound keys c =
      (r : DataKeyRecord) × (get_version c.org_id c.version keys ≡ some r)
      × (unwrap cipher master c.org_id c.version r.wrapped ≡ ok c.key)

  pub record IsSound (v : Vault) : Type 0 where
    pub keyed : IsKeyed v.keys
    pub cached : All (CacheSound v.keys) v.cache
    pub bounded : length v.cache ≤ options.max_cache_entries

  module _ (positive : 0 < options.max_cache_entries) (now : ℕ) (r : DataKeyRecord) where
    -- The key, and a vault with the same table and a sound cache.
    abbrev pub Loads : KeyTable → Result Bytes × Vault → Type 0
    Loads keys (result, v) =
        (result ≡ unwrap cipher master r.org_id r.version r.wrapped)
        × (v.keys ≡ keys)
        × All (CacheSound keys) v.cache
        × (length v.cache ≤ options.max_cache_entries)

    unwrap_into_cache-Loads :
        (v : Vault)
        → IsSound v
        → get_version r.org_id r.version v.keys ≡ some r
        → Loads v.keys (unwrap_into_cache cipher master options now r v)
    unfolding unwrap_into_cache
    unwrap_into_cache-Loads v s stored =
        elim (Result-cases (unwrap cipher master r.org_id r.version r.wrapped)) [
          | inl (e, bad) ↦ rw bad (refl, refl, s.cached, s.bounded)
          | inr (key, good) ↦
              let entry : CacheEntry = record {
                org_id = r.org_id;
                version = r.version;
                key = key;
                expires_at = now + options.cache_ttl_ms;
              } in
              rw good (
                refl,
                refl,
                All-remember (CacheSound v.keys) options entry v.cache s.cached (r, stored, good),
                length-remember options entry v.cache positive s.bounded,
              )
        ]

    forget-IsSound : (v : Vault) → IsSound v → IsSound (forget cipher master options r v)
    forget-IsSound v s = record {
      keyed = s.keyed;
      cached =
          All-filter (CacheSound v.keys) (λ c. not (in_cache r.org_id r.version c)) v.cache
            s.cached;
      bounded =
          omega
            (arith, s.bounded, length-filter_le (λ c. not (in_cache r.org_id r.version c)) v.cache);
    }

    sound_key :
        (keys : KeyTable) (c : CacheEntry)
        → c.org_id ≡ r.org_id
        → c.version ≡ r.version
        → CacheSound keys c
        → get_version r.org_id r.version keys ≡ some r
        → unwrap cipher master r.org_id r.version r.wrapped ≡ ok c.key
    sound_key keys c o n (r2, found, key) stored =
        let back : get_version c.org_id c.version keys ≡ some r = rw (o, n) stored in
        let same : r2.wrapped ≡ r.wrapped = ground (arith, found, back) in rw (← o, ← n, ← same) key

    cached_key :
        (v : Vault) (c : CacheEntry)
        → IsSound v
        → get_version r.org_id r.version v.keys ≡ some r
        → find (in_cache r.org_id r.version) v.cache ≡ some c
        → unwrap cipher master r.org_id r.version r.wrapped ≡ ok c.key
    cached_key v c s stored found =
        let (d, sound, here, same) =
          All-find (CacheSound v.keys) (in_cache r.org_id r.version) v.cache c s.cached found in
        let key =
          sound_key v.keys d (same_org d.org_id r.org_id (ground (arith, here)))
            (ground (arith, here)) sound stored in
        rw (← same) key

    pub load_key-Loads :
        (v : Vault)
        → IsSound v
        → get_version r.org_id r.version v.keys ≡ some r
        → Loads v.keys (load_key cipher master options now r v)
    unfolding load_key
    load_key-Loads v s stored = elim (Option-cases (find (in_cache r.org_id r.version) v.cache)) [
      | inl missing ↦ rw missing (unwrap_into_cache-Loads v s stored)
      | inr (c, found) ↦ elim (Bool-cases (ltb now c.expires_at)) [
        | inl running ↦
            rw (found, running) (sym (cached_key v c s stored found), refl, s.cached, s.bounded)
        | inr over ↦
            rw (found, over)
              (unwrap_into_cache-Loads (forget cipher master options r v) (forget-IsSound v s)
                stored)
      ]
    ]
