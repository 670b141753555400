-- ===== src/Signing/Kms/Cache.antt =====
-- services/gateway/dadi_gateway/kms_public_key_cache.py: public keys, cached in the process and in the
-- table `signing_public_keys`. Times are in microseconds.
use dadi_runtime.Base.{
  ℕ, ◌-◌, ◌*◌, String, Bool, true, ◌&&◌, Option, none, some, List, [], ◌∷◌, ◌==◌, ok, if◌then◌else◌,
  leb, Exec, select_one, update, insert,
}

-- A row of `signing_public_keys`, without `first_seen_at`, which is not read; a cached key has the same
-- three names.
pub record KeyRow : Type 0 where
  pub kid : String
  pub key_ref : String
  pub alg : String
  pub public_key_der : List ℕ
  pub last_seen_at : ℕ
  pub active : Bool

pub record CachedKey : Type 0 where
  pub kid : String
  pub key_ref : String
  pub alg : String
  pub public_key_der : List ℕ
  pub fetched_at : ℕ

-- The process, its clock and the database, which may be out of reach.
pub record KeyStore : Type 0 where
  pub cache : List CachedKey
  pub signing_public_keys : List KeyRow
  pub reachable : Bool
  pub clock : ℕ

abbrev pub is_cached_key : String → String → String → CachedKey → Bool
is_cached_key kid key_ref alg c = c.kid == kid && c.key_ref == key_ref && c.alg == alg

abbrev pub is_key_row : String → String → String → KeyRow → Bool
is_key_row kid key_ref alg r = r.kid == kid && r.key_ref == key_ref && r.alg == alg

abbrev pub is_active_row : String → String → String → KeyRow → Bool
is_active_row kid key_ref alg r = is_key_row kid key_ref alg r && r.active

-- `self._cache[key] = CachedKey(…)`
unfoldable pub cache_key : CachedKey → List CachedKey → List CachedKey
cache_key c [] = c ∷ []
cache_key c (d ∷ ds) =
    let rest = cache_key c ds in if is_cached_key c.kid c.key_ref c.alg d then c ∷ ds else d ∷ rest

abbrev pub cached : String → String → String → List ℕ → ℕ → CachedKey
cached kid key_ref alg der now = record {
  kid = kid;
  key_ref = key_ref;
  alg = alg;
  public_key_der = der;
  fetched_at = now;
}

abbrev pub is_live : ℕ → ℕ → CachedKey → Bool
is_live ttl_seconds now c = leb (now - c.fetched_at) (ttl_seconds * 1000000)

-- `if row and row[0]`
unfoldable pub use_key : String → String → String → List ℕ → Exec KeyStore (Option (List ℕ))
unfolding cache_key
use_key kid key_ref alg [] store = (ok none, store)
use_key kid key_ref alg (byte ∷ bytes) store =
    let der = byte ∷ bytes in
    (
      ok (some der),
      record store { cache = cache_key (cached kid key_ref alg der store.clock) store.cache },
    )

unfoldable pub use_row : String → String → String → Option KeyRow → Exec KeyStore (Option (List ℕ))
unfolding use_key
use_row kid key_ref alg none store = (ok none, store)
use_row kid key_ref alg (some r) store = use_key kid key_ref alg r.public_key_der store

-- The fall back to the table; an error of the database counts as no key.
unfoldable pub get_row : String → String → String → Exec KeyStore (Option (List ℕ))
unfolding use_row
get_row kid key_ref alg store =
    if store.reachable
    then use_row kid key_ref alg
        (select_one (is_active_row kid key_ref alg) store.signing_public_keys) store
    else (ok none, store)

unfoldable pub get_live :
    ℕ → String → String → String → Option CachedKey → Exec KeyStore (Option (List ℕ))
unfolding get_row
get_live ttl kid key_ref alg none store = get_row kid key_ref alg store
get_live ttl kid key_ref alg (some c) store =
    if is_live ttl store.clock c
    then (ok (some c.public_key_der), store)
    else get_row kid key_ref alg store

unfoldable pub get : ℕ → String → String → String → Exec KeyStore (Option (List ℕ))
unfolding get_live
get ttl kid key_ref alg store =
    get_live ttl kid key_ref alg (select_one (is_cached_key kid key_ref alg) store.cache) store

abbrev pub new_row : String → String → String → List ℕ → ℕ → KeyRow
new_row kid key_ref alg der now = record {
  kid = kid;
  key_ref = key_ref;
  alg = alg;
  public_key_der = der;
  last_seen_at = now;
  active = true;
}

abbrev pub seen_again : List ℕ → ℕ → KeyRow → KeyRow
seen_again der now r = record r { public_key_der = der; last_seen_at = now; active = true }

-- ON CONFLICT (kid, key_ref, alg) DO UPDATE
unfoldable pub upsert_row : String → String → String → List ℕ → ℕ → List KeyRow → List KeyRow
upsert_row kid key_ref alg der now rows = elim (select_one (is_key_row kid key_ref alg) rows) [
  | none ↦ insert rows (new_row kid key_ref alg der now)
  | some r ↦ update (is_key_row kid key_ref alg) (seen_again der now) rows
]

unfoldable pub put : String → String → String → List ℕ → Exec KeyStore Unit
unfolding cache_key upsert_row
put kid key_ref alg der store = (
  ok tt,
  record store {
    cache = cache_key (cached kid key_ref alg der store.clock) store.cache;
    signing_public_keys =
        if store.reachable
        then upsert_row kid key_ref alg der store.clock store.signing_public_keys
        else store.signing_public_keys;
  },
)
