-- ===== src/Concurrency/Cache.antt =====
-- tracing/utils/concurrency.go, SafeCache. A time is a number of nanoseconds and `now` what
-- time.Now() answers to a method; the lock makes every method one step.
pub mod Latest
use autopatch.Common.{
  Bool, true, false, Option, none, some, List, [], ◌∷◌, map, length, ℕ, if◌then◌else◌,
}
use autopatch.Common.Int.{ℤ, ◌+ℤ◌, ltb_ℤ}
use autopatch.Common.GoMap.{Eq, lookup, insert, delete}

pub record CacheEntry {ℓ} (V : Type ℓ) : Type ℓ where
  pub value : V
  pub expires_at : ℤ

pub record SafeCache {ℓ} (K : Type 0) (V : Type ℓ) : Type ℓ where
  pub cache : List (K × CacheEntry V)
  pub ttl : ℤ

pub data CacheOp {ℓ} (K : Type 0) (V : Type ℓ) : Type ℓ where
  set_op : K → V → ℤ → CacheOp K V
  delete_op : K → CacheOp K V
  clear_op : CacheOp K V
  clean_op : ℤ → CacheOp K V

module _ {ℓ} {V : Type ℓ} where
  -- time.Now().After(entry.ExpiresAt).
  unfoldable pub is_expired : ℤ → CacheEntry V → Bool
  is_expired now entry = ltb_ℤ entry.expires_at now

  unfoldable pub live : ℤ → Option (CacheEntry V) → Option V
  live now none = none
  live now (some entry) = if is_expired now entry then none else some entry.value

module _ {ℓ} {K : Type 0} {V : Type ℓ} ⦃e : Eq K⦄ where
  unfoldable pub new_safe_cache : ℤ → SafeCache K V
  new_safe_cache ttl = record { cache = []; ttl = ttl }

  unfoldable pub get : SafeCache K V → K → ℤ → Option V
  unfolding live
  get sc key now = live now (lookup key sc.cache)

  unfoldable pub set_value : SafeCache K V → K → V → ℤ → SafeCache K V
  set_value sc key value now = record sc {
    cache = insert key (record { value = value; expires_at = now +ℤ sc.ttl }) sc.cache;
  }

  unfoldable pub delete_key : SafeCache K V → K → SafeCache K V
  delete_key sc key = record sc { cache = delete key sc.cache }

  unfoldable pub clear : SafeCache K V → SafeCache K V
  clear sc = record sc { cache = [] }

  -- The loop of CleanExpired over the entries that the map has when it starts.
  unfoldable pub sweep :
      ℤ → List (K × CacheEntry V) → List (K × CacheEntry V) → List (K × CacheEntry V)
  sweep now [] cache = cache
  sweep now ((key, entry) ∷ entries) cache =
      sweep now entries (if is_expired now entry then delete key cache else cache)

  unfoldable pub clean_expired : SafeCache K V → ℤ → SafeCache K V
  clean_expired sc now = record sc { cache = sweep now sc.cache sc.cache }

  unfoldable pub size : SafeCache K V → ℕ
  size sc = length sc.cache

  unfoldable pub keys : SafeCache K V → List K
  keys sc = map (λ (p : K × CacheEntry V). p.0) sc.cache

  unfoldable pub apply : SafeCache K V → CacheOp K V → SafeCache K V
  apply sc (set_op key value now) = set_value sc key value now
  apply sc (delete_op key) = delete_key sc key
  apply sc clear_op = clear sc
  apply sc (clean_op now) = clean_expired sc now

  unfoldable pub apply_all : SafeCache K V → List (CacheOp K V) → SafeCache K V
  apply_all sc [] = sc
  apply_all sc (op ∷ ops) = apply_all (apply sc op) ops
