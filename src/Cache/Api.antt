-- ===== src/Cache/Api.antt =====
-- The interface of github.com/patrickmn/go-cache, a third-party package. A value that is set with a
-- lifetime is found up to the end of that lifetime, and one without a lifetime until it is replaced
-- or deleted. The sweep that purges dead entries is not observable.
use freno.Prelude.{ℕ, ◌+◌, ◌≡◌, ◌∙◌, Bool, true, Option, none, some, if◌then◌else◌, leb, arith}
use freno.Go.Text.{Text, str_eq, text_eq}
use freno.Go.Dict.{Dict, lookup, KeysOnce}
use freno.Go.Time.{Time}

-- DefaultExpiration (0), NoExpiration (-1), and a duration.
pub data Expiration : Type 0 where
  default_expiration no_expiration : Expiration
  after : ℕ → Expiration

-- The lifetime of an entry in a cache with the given default; `none` lives for ever.
abbrev pub lifetime : Option ℕ → Expiration → Option ℕ
lifetime ttl default_expiration = ttl
lifetime ttl no_expiration = none
lifetime ttl (after d) = some d

-- Whether an entry that was set at `set_at` is still found at `t`.
abbrev pub is_live : Time → Option ℕ → Time → Bool
is_live set_at none t = true
is_live set_at (some d) t = leb t (set_at + d)

pub record CacheApi : Type 1 where
  pub Cache : Type 0 → Type 0
  pub new : (V : Type 0) → Option ℕ → Cache V
  pub ttl : (V : Type 0) → Cache V → Option ℕ
  pub get : (V : Type 0) → Cache V → Time → Text → Option V
  pub set : (V : Type 0) → Cache V → Time → Text → V → Expiration → Cache V
  pub delete : (V : Type 0) → Cache V → Text → Cache V
  pub items : (V : Type 0) → Cache V → Time → Dict Text V
  pub ttl-new : (V : Type 0) (d : Option ℕ) → ttl V (new V d) ≡ d
  pub ttl-set :
      (V : Type 0) (m : Cache V) (now : Time) (k : Text) (v : V) (d : Expiration)
      → ttl V (set V m now k v d) ≡ ttl V m
  pub ttl-delete : (V : Type 0) (m : Cache V) (k : Text) → ttl V (delete V m k) ≡ ttl V m
  pub get-new : (V : Type 0) (d : Option ℕ) (t : Time) (j : Text) → get V (new V d) t j ≡ none
  pub get-set :
      (V : Type 0) (m : Cache V) (now : Time) (k : Text) (v : V) (d : Expiration) (t : Time)
      (j : Text)
      → get V (set V m now k v d) t j ≡ (
          if str_eq k j
          then (if is_live now (lifetime (ttl V m) d) t then some v else none)
          else get V m t j)
  pub get-delete :
      (V : Type 0) (m : Cache V) (k : Text) (t : Time) (j : Text)
      → get V (delete V m k) t j ≡ (if str_eq k j then none else get V m t j)
  pub lookup-items :
      (V : Type 0) (m : Cache V) (t : Time) (j : Text) → lookup j (items V m t) ≡ get V m t j
  pub items-KeysOnce : (V : Type 0) (m : Cache V) (t : Time) → KeysOnce (items V m t)

-- A cache in which no entry comes to the end of a lifetime.
pub record IsSteady ⦃c : CacheApi⦄ (V : Type 0) (m : c.Cache V) : Type 0 where
  pub no_ttl : c.ttl V m ≡ none
  pub same : (t u : Time) (j : Text) → c.get V m t j ≡ c.get V m u j

module _ ⦃c : CacheApi⦄ (V : Type 0) where
  pub IsSteady-new : IsSteady V (c.new V none)
  IsSteady-new = record {
    no_ttl = c.ttl-new V none;
    same = λ t u j. ground (arith, c.get-new V none t j, c.get-new V none u j);
  }

  pub IsSteady-set_default :
      (m : c.Cache V) (now : Time) (k : Text) (v : V)
      → IsSteady V m
      → IsSteady V (c.set V m now k v default_expiration)
  IsSteady-set_default m now k v s = record {
    no_ttl = c.ttl-set V m now k v default_expiration ∙ s.no_ttl;
    same = λ t u j. ground (
      arith,
      c.get-set V m now k v default_expiration t j,
      c.get-set V m now k v default_expiration u j,
      s.no_ttl,
      s.same t u j,
    );
  }

  pub IsSteady-set_forever :
      (m : c.Cache V) (now : Time) (k : Text) (v : V)
      → IsSteady V m
      → IsSteady V (c.set V m now k v no_expiration)
  IsSteady-set_forever m now k v s = record {
    no_ttl = c.ttl-set V m now k v no_expiration ∙ s.no_ttl;
    same = λ t u j. ground (
      arith,
      c.get-set V m now k v no_expiration t j,
      c.get-set V m now k v no_expiration u j,
      s.no_ttl,
      s.same t u j,
    );
  }

  pub IsSteady-delete : (m : c.Cache V) (k : Text) → IsSteady V m → IsSteady V (c.delete V m k)
  IsSteady-delete m k s = record {
    no_ttl = c.ttl-delete V m k ∙ s.no_ttl;
    same = λ t u j. ground (arith, c.get-delete V m k t j, c.get-delete V m k u j, s.same t u j);
  }
