-- ===== src/Core/Gate/Listing/Pages.antt =====
-- The pages of the gate list, over a table that answers LIMIT and OFFSET as SQL documents.
use mathlib.Core.List.{map-append}
use native.Mathlib.Nat.{zero-add, add-zero, suc-add}
use im_providers_service.Prelude.{
  ℕ, zero, suc, ◌+◌, ◌*◌, ◌≤◌, ◌<◌, ◌≡◌, refl, ap, ◌∙◌, sym, subst, All, List, [], ◌∷◌, ◌++◌, map,
  length, length-take, length-drop, take, drop, arith, ltb, if◌then◌else◌, inl, inr, Bool-cases,
}
use im_providers_service.Prelude.Int.{ℤ, pos, ◌*ℤ◌}
use im_providers_service.Prelude.Failure.{Result, ok, ◌>>=◌}
use im_providers_service.Core.Gate.{GateSummary}
use im_providers_service.Core.Gate.Listing.{
  ProviderSummary, limit_of, summary_to_proto, list, list_gates_service, list_gates,
}

-- A list with one element more, put in anywhere.
pub data Inserted {A : Type 0} (x : A) : List A → List A → Type 0 where
  at_head : {l : List A} → Inserted x l (x ∷ l)
  further : {y : A} {l l' : List A} → Inserted x l l' → Inserted x (y ∷ l) (y ∷ l')

-- The same elements, each as often, in some order.
pub data IsOrderOf {A : Type 0} : List A → List A → Type 0 where
  empty : IsOrderOf [] []
  placed : {x : A} {l l' xs : List A} → IsOrderOf l xs → Inserted x l l' → IsOrderOf l' (x ∷ xs)

-- Newest first, as `ORDER BY created_at DESC` orders rows; and with no two rows of one time.
abbrev pub IsDescending : List GateSummary → Type 0
IsDescending [] = Unit
IsDescending (r ∷ rs) = All (λ x. x.created_at ≤ r.created_at) rs × IsDescending rs

abbrev pub IsStrict : List GateSummary → Type 0
IsStrict [] = Unit
IsStrict (r ∷ rs) = All (λ x. x.created_at < r.created_at) rs × IsStrict rs

-- The query returns at most `l` rows from row `o` on, of all rows in an order that is newest first, and
-- may be another one for another query.
abbrev pub IsTable : (ℤ → ℤ → Result (List GateSummary)) → List GateSummary → Type 0
IsTable select rows =
    (l o : ℕ)
    → (order : List GateSummary) × IsOrderOf order rows
      × IsDescending order
      × (select (pos l) (pos o) ≡ ok (take l (drop o order)))

module _ {A : Type 0} (P : A → Type 0) where
  All-Inserted : {x : A} {l l' : List A} → P x → All P l → Inserted x l l' → All P l'
  All-Inserted p all at_head = (p, all)
  All-Inserted p all (further i) = (all.0, All-Inserted p all.1 i)

  All-IsOrderOf : {l xs : List A} → All P xs → IsOrderOf l xs → All P l
  All-IsOrderOf all empty = tt
  All-IsOrderOf all (placed o i) = All-Inserted all.0 (All-IsOrderOf all.1 o) i

  All-at : {x : A} {l l' : List A} → Inserted x l l' → All P l' → P x
  All-at at_head all = all.0
  All-at (further i) all = All-at i all.1

-- Rows of different times have one such order only.
order_unique :
    (rows order : List GateSummary)
    → IsStrict rows
    → IsDescending order
    → IsOrderOf order rows
    → order ≡ rows
order_unique [] order strict sorted empty = refl
order_unique (r ∷ rs) order strict sorted (placed {l} o at_head) =
    ap (λ t. r ∷ t) (order_unique rs l strict.1 sorted.1 o)
order_unique (r ∷ rs) order strict sorted (placed o (further {y} i)) =
    let older : y.created_at < r.created_at =
      (All-IsOrderOf (λ x. x.created_at < r.created_at) strict.0 o).0 in
    let newer : r.created_at ≤ y.created_at =
      All-at (λ x. x.created_at ≤ y.created_at) i sorted.0 in
    absurd (omega arith)

module _ {A : Type 0} where
  take_shorter : (n : ℕ) (xs : List A) → length xs ≤ n → take n xs ≡ xs
  take_shorter zero [] h = refl
  take_shorter zero (x ∷ xs) h = absurd (omega arith)
  take_shorter (suc n) [] h = refl
  take_shorter (suc n) (x ∷ xs) h = ap (λ t. x ∷ t) (take_shorter n xs (omega arith))

  take-take-suc : (n : ℕ) (xs : List A) → take n (take (suc n) xs) ≡ take n xs
  take-take-suc zero xs = refl
  take-take-suc (suc n) [] = refl
  take-take-suc (suc n) (x ∷ xs) = ap (λ t. x ∷ t) (take-take-suc n xs)

  -- Cutting the extra row off, where there is one, leaves a page.
  cut_page :
      (n : ℕ) (xs : List A)
      → (if ltb n (length (take (suc n) xs)) then take n (take (suc n) xs) else take (suc n) xs)
        ≡ take n xs
  cut_page n xs = elim (Bool-cases (ltb n (length (take (suc n) xs)))) [
    | inl e ↦ rw e (take-take-suc n xs)
    | inr e ↦ rw e (
        take_shorter (suc n) xs (ground (arith, length-take (suc n) xs))
        ∙ sym (take_shorter n xs (ground (arith, length-take (suc n) xs))))
  ]

  take-append-drop : (n : ℕ) (xs : List A) → take n xs ++ drop n xs ≡ xs
  take-append-drop zero xs = refl
  take-append-drop (suc n) [] = refl
  take-append-drop (suc n) (x ∷ xs) = ap (λ t. x ∷ t) (take-append-drop n xs)

  drop_past : (n : ℕ) (xs : List A) → length xs ≤ n → drop n xs ≡ []
  drop_past zero [] h = refl
  drop_past zero (x ∷ xs) h = absurd (omega arith)
  drop_past (suc n) [] h = refl
  drop_past (suc n) (x ∷ xs) h = drop_past n xs (omega arith)

  drop-drop : (n m : ℕ) (xs : List A) → drop n (drop m xs) ≡ drop (m + n) xs
  drop-drop n zero xs = rw zero-add
  drop-drop zero (suc m) [] = rw add-zero
  drop-drop (suc n) (suc m) [] = rw suc-add
  drop-drop n (suc m) (x ∷ xs) = rw suc-add (drop-drop n m xs)

next_page :
    (n o : ℕ) (rows : List GateSummary)
    → ltb n (length (take (suc n) (drop o rows))) ≡ ltb (o + n) (length rows)
next_page n o rows = ground (arith, length-take (suc n) (drop o rows), length-drop o rows)

page_then_rest :
    (n p : ℕ) (rows : List GateSummary)
    → take n (drop (p * n) rows) ++ drop ((p + 1) * n) rows ≡ drop (p * n) rows
page_then_rest n p rows =
    let e : (p + 1) * n ≡ p * n + n = omega arith in
    rw (e, ← drop-drop n (p * n) rows) (take-append-drop n (drop (p * n) rows))

one_round : (p fuel n : ℕ) {l : ℕ} → l < (p + suc fuel) * n → l < (p + 1 + fuel) * n
one_round p fuel n h = let e : p + 1 + fuel ≡ p + suc fuel = omega arith in rw e h

module _ (select : ℤ → ℤ → Result (List GateSummary)) (rows : List GateSummary) where
  -- The query for page `p` of size `n`, with its extra row, answers with this part of `rows`.
  abbrev pub Queried : ℕ → ℕ → Type 0
  Queried p n = select (pos (suc n)) (pos (p * n)) ≡ ok (take (suc n) (drop (p * n) rows))

  -- Page `p` of size `n` holds the rows from `p * n` on, at most `n` of them, and says that there is
  -- a next page exactly when rows remain after it.
  pub list-page :
      (p n : ℕ)
      → 0 < n
      → Queried p n
      → list select (record { page = pos p; size = pos n })
        ≡ ok (take n (drop (p * n) rows), ltb (p * n + n) (length rows))
  unfolding list limit_of ◌*ℤ◌
  list-page p zero h q = elim h [ ]
  list-page p (suc m) h q =
      rw q (rw (cut_page (suc m) (drop (p * suc m) rows)) (rw (next_page (suc m) (p * suc m) rows)))

  -- When the query of a request for page `p` of size `n`, not 0, answers in the order of `rows`, the
  -- handler answers with the rows from `p * n` on, at
  -- most `n` of them, in order and mapped to the API; their number is the answer's size, and a next
  -- page is announced exactly when rows remain after them.
  pub list_gates-page :
      (p n : ℕ)
      → 0 < n
      → Queried p n
      → list_gates select (pos p) (pos n)
        ≡ ok (record {
          items = map summary_to_proto (take n (drop (p * n) rows));
          page = pos p;
          size = pos (length (map summary_to_proto (take n (drop (p * n) rows))));
          next = ltb (p * n + n) (length rows);
        })
  unfolding list_gates list_gates_service limit_of
  list_gates-page p zero h q = elim h [ ]
  list_gates-page p (suc m) h q = rw (list-page p (suc m) (omega arith) q)

  -- A client that asks for page after page while `next` is set.
  pub walk : ℕ → ℕ → ℕ → Result (List ProviderSummary)
  walk n zero p = ok []
  walk n (suc fuel) p =
      let rest = walk n fuel (p + 1) in
      list_gates select (pos p) (pos n) >>= λ r.
      if r.next then (rest >>= λ more. ok (r.items ++ more)) else ok r.items

  every_query : IsTable select rows → IsStrict rows → (p n : ℕ) → Queried p n
  every_query table strict p n =
      let (order, same, sorted, answered) = table (suc n) (p * n) in
      subst (λ l. select (pos (suc n)) (pos (p * n)) ≡ ok (take (suc n) (drop (p * n) l)))
        (order_unique rows order strict sorted same) answered

  -- Where no two rows of the table have the same creation time: from page `p` on, with as many requests as the table has pages, the client sees every row that
  -- the table has after `p` pages, once and in order.
  pub walk-drop :
      (n fuel p : ℕ)
      → 0 < n
      → length rows < (p + fuel) * n
      → IsTable select rows
      → IsStrict rows
      → walk n fuel p ≡ ok (map summary_to_proto (drop (p * n) rows))
  unfolding walk
  walk-drop n zero p h e t s = rw (drop_past (p * n) rows (grind arith))
  walk-drop n (suc fuel) p h e t s =
      rw (list_gates-page p n h (every_query t s p n))
        (elim (Bool-cases (ltb (p * n + n) (length rows))) [
          | inl more ↦ rw more (
              rw (walk-drop n fuel (p + 1) h (one_round p fuel n e) t s)
                (rw (← map-append) (rw (page_then_rest n p rows))))
          | inr last ↦
              rw last
                (rw (take_shorter n (drop (p * n) rows) (ground (arith, length-drop (p * n) rows))))
        ])
