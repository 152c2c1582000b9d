-- ===== src/Concurrency/Cache/Latest.antt =====
-- tracing/utils/concurrency.go, SafeCache: what Get answers after any sequence of calls.
use autopatch.Common.{
  Bool, true, false, Option, none, some, List, [], ◌∷◌, ◌≡◌, refl, ◌∙◌, ap, ◌&&◌, ◌||◌,
  if◌then◌else◌, arith,
}
use autopatch.Common.Int.{ℤ, ◌+ℤ◌, ◌≤ℤ◌}
use autopatch.Common.GoMap.{
  Eq, lookup, delete, lookup-insert, lookup-delete, UniqueKeys, insert-UniqueKeys,
  delete-UniqueKeys,
}
use autopatch.Concurrency.Cache.{
  CacheEntry, SafeCache, CacheOp, set_op, delete_op, clear_op, clean_op, new_safe_cache, is_expired,
  live, get, set_value, delete_key, clear, sweep, clean_expired, apply, apply_all,
}

module _ {ℓ} {V : Type ℓ} where
  abbrev unexpired : ℤ → Option (CacheEntry V) → Option (CacheEntry V)
  unexpired now none = none
  unexpired now (some x) = if is_expired now x then none else some x

  -- What expired by an earlier time is not live.
  live-unexpired :
      (t now : ℤ) (o : Option (CacheEntry V)) → t ≤ℤ now → live now (unexpired t o) ≡ live now o
  unfolding live is_expired
  live-unexpired t now none h = refl
  live-unexpired t now (some x) h = ground arith

  live-if :
      (now : ℤ) (b : Bool) (x y z : Option (CacheEntry V))
      → live now y ≡ live now z
      → live now (if b then x else y) ≡ live now (if b then x else z)
  live-if now true x y z h = refl
  live-if now false x y z h = h

module _ {ℓ} {K : Type 0} {V : Type ℓ} ⦃e : Eq K⦄ where
  -- What a key was last set to, whatever was cleaned since; `was` is what it was before the calls.
  unfoldable pub last_set :
      ℤ → K → Option (CacheEntry V) → List (CacheOp K V) → Option (CacheEntry V)
  last_set ttl j was [] = was
  last_set ttl j was (set_op k v now ∷ ops) =
      last_set ttl j
        (if e.beq k j then some (record { value = v; expires_at = now +ℤ ttl }) else was) ops
  last_set ttl j was (delete_op k ∷ ops) = last_set ttl j (if e.beq k j then none else was) ops
  last_set ttl j was (clear_op ∷ ops) = last_set ttl j none ops
  last_set ttl j was (clean_op now ∷ ops) = last_set ttl j was ops

  -- All cleaning was done by the time `now`.
  abbrev pub CleanedBefore : ℤ → List (CacheOp K V) → Type 0
  CleanedBefore now [] = Unit
  CleanedBefore now (clean_op t ∷ ops) = (t ≤ℤ now) × CleanedBefore now ops
  CleanedBefore now (_ ∷ ops) = CleanedBefore now ops

  -- Some entry of the key has expired.
  abbrev has_expired : ℤ → K → List (K × CacheEntry V) → Bool
  has_expired now j [] = false
  has_expired now j ((k, x) ∷ es) = (e.beq k j && is_expired now x) || has_expired now j es

  lookup-sweep :
      (now : ℤ) (j : K) (es m : List (K × CacheEntry V))
      → lookup j (sweep now es m) ≡ (if has_expired now j es then none else lookup j m)
  unfolding sweep
  lookup-sweep now j [] m = refl
  lookup-sweep now j ((k, x) ∷ es) m = ground (
    arith,
    lookup-sweep now j es (if is_expired now x then delete k m else m),
    lookup-delete k j m,
  )

  sweep-UniqueKeys :
      (now : ℤ) (es m : List (K × CacheEntry V)) → UniqueKeys m → UniqueKeys (sweep now es m)
  unfolding sweep
  sweep-UniqueKeys now [] m u = u
  sweep-UniqueKeys now ((k, x) ∷ es) m u =
      sweep-UniqueKeys now es _ (ground (arith, delete-UniqueKeys k m u))

  has_expired-missing :
      (now : ℤ) (j : K) (m : List (K × CacheEntry V))
      → lookup j m ≡ none
      → has_expired now j m ≡ false
  has_expired-missing now j [] h = refl
  has_expired-missing now j ((k, x) ∷ m) h = ground (arith, has_expired-missing now j m)

  -- With one entry for each key, the sweep asks for the entry that a lookup finds.
  has_expired-lookup :
      (now : ℤ) (j : K) (m : List (K × CacheEntry V))
      → UniqueKeys m
      → (if has_expired now j m then none else lookup j m) ≡ unexpired now (lookup j m)
  has_expired-lookup now j [] u = refl
  has_expired-lookup now j ((k, x) ∷ m) u =
      ground (arith, e.beq_iff k j, has_expired-missing now j m, has_expired-lookup now j m u.1)

  lookup-clean :
      (now : ℤ) (j : K) (m : List (K × CacheEntry V))
      → UniqueKeys m
      → lookup j (sweep now m m) ≡ unexpired now (lookup j m)
  lookup-clean now j m u = lookup-sweep now j m m ∙ has_expired-lookup now j m u

  live-track :
      (now : ℤ) (sc : SafeCache K V) (j : K) (was : Option (CacheEntry V))
      (ops : List (CacheOp K V))
      → UniqueKeys sc.cache
      → CleanedBefore now ops
      → live now (lookup j sc.cache) ≡ live now was
      → live now (lookup j (apply_all sc ops).cache) ≡ live now (last_set sc.ttl j was ops)
  unfolding apply_all apply last_set set_value delete_key clear clean_expired
  live-track now sc j was [] u c h = h
  live-track now sc j was (set_op k v t ∷ ops) u c h =
      live-track now (set_value sc k v t) j _ ops (insert-UniqueKeys k _ sc.cache u) c
        (ap (live now) (lookup-insert k j _ sc.cache) ∙ live-if now (e.beq k j) _ _ _ h)
  live-track now sc j was (delete_op k ∷ ops) u c h =
      live-track now (delete_key sc k) j _ ops (delete-UniqueKeys k sc.cache u) c
        (ap (live now) (lookup-delete k j sc.cache) ∙ live-if now (e.beq k j) _ _ _ h)
  live-track now sc j was (clear_op ∷ ops) u c h = live-track now (clear sc) j none ops tt c refl
  live-track now sc j was (clean_op t ∷ ops) u c h =
      live-track now (clean_expired sc t) j was ops (sweep-UniqueKeys t sc.cache sc.cache u) c.1 (
        ap (live now) (lookup-clean t j sc.cache u)
        ∙ live-unexpired t now (lookup j sc.cache) c.0
        ∙ h)

  -- After any calls on an empty cache, Get answers what the key was last set to, unless it was
  -- deleted or cleared since or its time to live has passed; cleaning does not change any answer, if
  -- it was not done at a later time than Get.
  pub get-last_set :
      (ttl : ℤ) (ops : List (CacheOp K V)) (j : K) (now : ℤ)
      → CleanedBefore now ops
      → get (apply_all (new_safe_cache ttl) ops) j now ≡ live now (last_set ttl j none ops)
  unfolding get new_safe_cache
  get-last_set ttl ops j now c = live-track now (new_safe_cache ttl) j none ops tt c refl
