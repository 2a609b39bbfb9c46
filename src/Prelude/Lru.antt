-- ===== src/Prelude/Lru.antt =====
-- github.com/hashicorp/golang-lru/v2, which the service only calls: a bounded cache as an interface.
-- The laws are its documentation: `Add` puts a value under its key and may evict others, `Get`
-- touches the order of eviction alone, `Remove` drops its own key.
use im_providers_service.Prelude.{
  String, ◌≡◌, ◌≢◌, refl, Option, none, some, List, [], ◌∷◌, arith, eq_iff, eq_refl, ◌==◌,
  string_eq, if◌then◌else◌,
}

pub record Lru (V : Type 0) : Type 1 where
  pub Cache : Type 0
  pub get : Cache → String → Option V × Cache
  pub add : Cache → String → V → Cache
  pub remove : Cache → String → Cache
  pub get-add_self : (c : Cache) (k : String) (v : V) → (get (add c k v) k).0 ≡ some v
  pub get-add_ne :
      (c : Cache) (k j : String) (v w : V)
      → k ≢ j
      → (get (add c k v) j).0 ≡ some w
      → (get c j).0 ≡ some w
  pub get-get : (c : Cache) (k j : String) → (get (get c k).1 j).0 ≡ (get c j).0
  pub get-remove_self : (c : Cache) (k : String) → (get (remove c k) k).0 ≡ none
  pub get-remove_ne : (c : Cache) (k j : String) → k ≢ j → (get (remove c k) j).0 ≡ (get c j).0

-- An association list that never evicts is such a cache.
module _ {V : Type 0} where
  unfoldable pub find : String → List (String × V) → Option V
  find j [] = none
  find j ((k, v) ∷ c) = if k == j then some v else find j c

  unfoldable pub without : String → List (String × V) → List (String × V)
  without j [] = []
  without j ((k, v) ∷ c) = let rest = without j c in if k == j then rest else (k, v) ∷ rest

  pub find-without_self : (c : List (String × V)) (k : String) → find k (without k c) ≡ none
  unfolding find without
  find-without_self [] k = refl
  find-without_self ((i, v) ∷ c) k = ground (arith, find-without_self c k)

  pub find-without_ne :
      (c : List (String × V)) (k j : String) → k ≢ j → find j (without k c) ≡ find j c
  unfolding find without
  find-without_ne [] k j h = refl
  find-without_ne ((i, v) ∷ c) k j h =
      ground (arith, find-without_ne c k j h, eq_iff i k, eq_iff i j)

  pub find-cons_ne :
      (c : List (String × V)) (k j : String) (v w : V)
      → k ≢ j
      → find j ((k, v) ∷ c) ≡ some w
      → find j c ≡ some w
  unfolding find
  find-cons_ne c k j v w h e = ground (arith, eq_iff k j)

  pub find-cons_self : (c : List (String × V)) (k : String) (v : V) → find k ((k, v) ∷ c) ≡ some v
  unfolding find
  find-cons_self c k v = ground (arith, eq_refl k)

abbrev pub unbounded : {V : Type 0} → Lru V
unbounded {V} = record {
  Cache = List (String × V);
  get = λ c k. (find k c, c);
  add = λ c k v. (k, v) ∷ c;
  remove = λ c k. without k c;
  get-add_self = find-cons_self;
  get-add_ne = find-cons_ne;
  get-get = λ c k j. refl;
  get-remove_self = find-without_self;
  get-remove_ne = find-without_ne;
}
