-- ===== src/Cache/Table.antt =====
-- An instance of the cache's interface: an association list with the time at which an entry ends.
use freno.Prelude.{ℕ, ◌≡◌, refl, true, false, Option, none, some, [], ◌∷◌, if◌then◌else◌, arith}
use freno.Go.Text.{Text, str_eq, str_eq_iff, text_eq}
use freno.Go.Dict.{
  Dict, lookup, insert, erase, KeysOnce, erase-KeysOnce, lookup-insert, lookup-erase,
  insert-KeysOnce,
}
use freno.Go.Time.{Time}
use freno.Cache.Api.{CacheApi, Expiration, lifetime, is_live}

pub record Entry (V : Type 0) : Type 0 where
  pub value : V
  pub set_at : Time
  pub life : Option ℕ

pub record Table (V : Type 0) : Type 0 where
  pub ttl : Option ℕ
  pub entries : Dict Text (Entry V)
  pub once : KeysOnce entries

module _ {V : Type 0} where
  unfoldable pub found : Time → Option (Entry V) → Option V
  found t none = none
  found t (some e) = if is_live e.set_at e.life t then some e.value else none

  pub live_items : Time → Dict Text (Entry V) → Dict Text V
  live_items t [] = []
  live_items t ((k, e) ∷ m) = elim (is_live e.set_at e.life t) [
    | true ↦ (k, e.value) ∷ live_items t m
    | false ↦ live_items t m
  ]

  pub lookup-live_items :
      (t : Time) (m : Dict Text (Entry V)) (j : Text)
      → KeysOnce m
      → lookup j (live_items t m) ≡ found t (lookup j m)
  unfolding live_items found lookup
  lookup-live_items t [] j h = refl
  lookup-live_items t ((k, e) ∷ m) j (a, h) =
      ground (arith, str_eq_iff k j, lookup-live_items t m j h)

  pub live_items-KeysOnce :
      (t : Time) (m : Dict Text (Entry V)) → KeysOnce m → KeysOnce (live_items t m)
  unfolding live_items found
  live_items-KeysOnce t [] h = tt
  live_items-KeysOnce t ((k, e) ∷ m) (a, h) =
      ground (arith, lookup-live_items t m k h, live_items-KeysOnce t m h)

  unfoldable pub put : Table V → Time → Text → V → Expiration → Table V
  put m now k v d = record m {
    entries = insert k (record { value = v; set_at = now; life = lifetime m.ttl d }) m.entries;
    once =
        insert-KeysOnce k (record { value = v; set_at = now; life = lifetime m.ttl d }) m.entries
          m.once;
  }

  pub remove : Table V → Text → Table V
  remove m k = record m { entries = erase k m.entries; once = erase-KeysOnce k m.entries m.once }

  unfoldable pub read : Table V → Time → Text → Option V
  unfolding found
  read m t k = found t (lookup k m.entries)

  pub read-put :
      (m : Table V) (now : Time) (k : Text) (v : V) (d : Expiration) (t : Time) (j : Text)
      → read (put m now k v d) t j ≡ (
          if str_eq k j
          then (if is_live now (lifetime m.ttl d) t then some v else none)
          else read m t j)
  unfolding read put
  read-put m now k v d t j =
      rw (lookup-insert k j (record { value = v; set_at = now; life = lifetime m.ttl d }) m.entries)
        (ground arith)

  pub read-remove :
      (m : Table V) (k : Text) (t : Time) (j : Text)
      → read (remove m k) t j ≡ (if str_eq k j then none else read m t j)
  unfolding read remove
  read-remove m k t j = rw (lookup-erase k j m.entries) (ground arith)

-- The interface's laws hold of the table.
instance unfoldable pub table_cache : CacheApi
unfolding read put remove live_items str_eq lookup insert erase
table_cache = record {
  Cache = Table;
  new = λ V d. record { ttl = d; entries = []; once = tt };
  ttl = λ V m. m.ttl;
  get = λ V m t k. read m t k;
  set = λ V m now k v d. put m now k v d;
  delete = λ V m k. remove m k;
  items = λ V m t. live_items t m.entries;
  ttl-new = λ V d. refl;
  ttl-set = λ V m now k v d. refl;
  ttl-delete = λ V m k. refl;
  get-new = λ V d t j. refl;
  get-set = λ V m now k v d t j. read-put m now k v d t j;
  get-delete = λ V m k t j. read-remove m k t j;
  lookup-items = λ V m t j. lookup-live_items t m.entries j m.once;
  items-KeysOnce = λ V m t. live_items-KeysOnce t m.entries m.once;
}
