-- ===== src/Outbox/Cleanup.antt =====
-- What the periodic deletion of published rows does: `deletePublishedBefore`.
use trams_assignment.Base.{
  subst, subst₂, ℕ, ◌+◌, ◌≤◌, ◌<◌, ◌≡◌, refl, sym, ap, ◌∙◌, Bool, true, false, ◌&&◌, inl, inr,
  Bool-cases, List, [], ◌∷◌, map, String, str_eq, eq_iff, eq_refl, length, length-map, count,
  count-and_comm, count-true, count-congr, count-and-le, count_of_All, count-zero_of_All, All-map,
  All-counted, arith, ◌==◌, Ensures, returns, and_then-Ensures, Ensures-weaken,
}
use trams_assignment.Database.{Table, IsPage}
use trams_assignment.Database.Rows.{reject, IsKeyed, length-reject, count-reject, reject-IsKeyed}
use trams_assignment.Outbox.{
  OutboxEvent, outbox_id, listed, published_before, published_order, delete_published_before,
}

abbrev goes : List OutboxEvent → ℕ → OutboxEvent → Bool
goes found cutoff r = listed r.id (map outbox_id found) && published_before cutoff r

listed-count :
    (k : String) (found : List OutboxEvent)
    → listed k (map outbox_id found) ≡ true
    → 0 < count (λ r. str_eq r.id k) found
listed-count k [] h = cc
listed-count k (r ∷ rs) h = ground (arith, eq_iff k r.id, eq_iff r.id k, listed-count k rs)

listed_of_count :
    (k : String) (found : List OutboxEvent)
    → 0 < count (λ r. str_eq r.id k) found
    → listed k (map outbox_id found) ≡ true
listed_of_count k [] h = absurd (omega arith)
listed_of_count k (r ∷ rs) h = ground (arith, eq_iff k r.id, eq_iff r.id k, listed_of_count k rs)

module _ (cutoff n : ℕ) (rs found : List OutboxEvent) (v : IsKeyed outbox_id rs)
    (page : IsPage (published_before cutoff) published_order n rs found) where
  abbrev in_page : OutboxEvent → Bool
  in_page r = listed r.id (map outbox_id found)

  page-listed : count in_page found ≡ length found
  page-listed = count_of_All in_page found (
      All-map (λ r seen. listed_of_count r.id found (seen (λ s. str_eq s.id r.id) (eq_refl r.id)))
        found (All-counted found))

  rest-listed : count in_page page.rest ≡ 0
  rest-listed = count-zero_of_All in_page page.rest (
      All-map
        (λ r seen. elim (Bool-cases (in_page r)) [
          | inl h ↦ absurd (
              omega (
                arith,
                listed-count r.id found h,
                seen (λ s. str_eq s.id r.id) (eq_refl r.id),
                page.parts (λ s. str_eq s.id r.id),
                count-and-le (published_before cutoff) (λ s. str_eq s.id r.id) rs,
                v r.id,
              ))
          | inr h ↦ h
        ])
        page.rest (All-counted page.rest))

  -- The deletion meets the rows of the page and no other.
  count-goes : count (goes found cutoff) rs ≡ length found
  count-goes = omega (
    arith,
    count-and_comm in_page (published_before cutoff) rs,
    page.parts in_page,
    page-listed,
    rest-listed,
  )

  count-matching : length found + length page.rest ≡ count (published_before cutoff) rs
  count-matching = omega (
    arith,
    count-congr (λ r. published_before cutoff r && true) (published_before cutoff) rs
        (λ r. and-true (published_before cutoff r)),
    page.parts (λ r. true),
    count-true found,
    count-true page.rest,
  )
    where
      and-true : (b : Bool) → (b && true) ≡ b
      and-true b = ground arith

  -- No row that the test misses is deleted.
  unpublished_stay :
      (q : OutboxEvent → Bool)
      → ((r : OutboxEvent) → q r ≡ true → published_before cutoff r ≡ false)
      → count q (reject (goes found cutoff) rs) ≡ count q rs
  unpublished_stay q h = omega (
    arith,
    count-reject q (goes found cutoff) rs,
    count-congr (λ r. goes found cutoff r && q r) (λ r. false) rs
        (λ r. miss (in_page r) (published_before cutoff r) (q r) (h r)),
    count-zero rs,
  )
    where
      miss : (a b c : Bool) → (c ≡ true → b ≡ false) → ((a && b) && c) ≡ false
      miss a b c k = ground arith

      count-zero : (xs : List OutboxEvent) → count (λ r. false) xs ≡ 0
      count-zero [] = refl
      count-zero (x ∷ xs) = omega (arith, count-zero xs)

  -- A page that is not full holds all the rows to delete.
  short_page_last :
      length found < n → count (published_before cutoff) (reject (goes found cutoff) rs) ≡ 0
  short_page_last short = omega (
    arith,
    count-reject (published_before cutoff) (goes found cutoff) rs,
    count-congr (λ r. goes found cutoff r && published_before cutoff r) (goes found cutoff) rs
        (λ r. twice (in_page r) (published_before cutoff r)),
    count-goes,
    count-matching,
    page.size,
  )
    where
      twice : (a b : Bool) → ((a && b) && b) ≡ (a && b)
      twice a b = ground arith

-- What a deletion of rows published before the cutoff, at most `batch_size` of them, does to a
-- table: `n` rows are gone, every test that holds of no such row counts as many rows as before, and
-- fewer than `batch_size` deletions leave no such row, and the ids stay unique.
pub record IsCleaned (cutoff batch_size : ℕ) (rs : List OutboxEvent) (n : ℕ)
    (rs' : List OutboxEvent) : Type 0 where
  pub bounded : n ≤ batch_size
  pub removed : n + length rs' ≡ length rs
  pub kept :
      (q : OutboxEvent → Bool)
      → ((r : OutboxEvent) → q r ≡ true → published_before cutoff r ≡ false)
      → count q rs' ≡ count q rs
  pub finished : n < batch_size → count (published_before cutoff) rs' ≡ 0
  pub keyed : IsKeyed outbox_id rs'

reject-IsCleaned :
    (cutoff n : ℕ) (rs found : List OutboxEvent)
    → IsKeyed outbox_id rs
    → IsPage (published_before cutoff) published_order n rs found
    → IsCleaned cutoff n rs (count (goes found cutoff) rs) (reject (goes found cutoff) rs)
reject-IsCleaned cutoff n rs found v page = record {
  bounded = omega (arith, count-goes cutoff n rs found v page, page.size);
  removed = omega (arith, length-reject (goes found cutoff) rs);
  kept = unpublished_stay cutoff n rs found v page;
  finished = λ short.
      short_page_last cutoff n rs found v page (omega (arith, count-goes cutoff n rs found v page));
  keyed = reject-IsKeyed outbox_id (goes found cutoff) rs v;
}

nothing-IsCleaned :
    (cutoff n : ℕ) (rs found : List OutboxEvent)
    → IsKeyed outbox_id rs
    → IsPage (published_before cutoff) published_order n rs found
    → length found ≡ 0
    → IsCleaned cutoff n rs 0 rs
nothing-IsCleaned cutoff n rs found v page e = record {
  bounded = omega arith;
  removed = omega arith;
  kept = λ q h. refl;
  finished = λ short. omega (arith, count-matching cutoff n rs found v page, page.size);
  keyed = v;
}

-- `deletePublishedBefore` on a table whose ids are unique deletes, unless it throws, at most
-- `batch_size` rows, all of them published before the cutoff, and returns their number; if that is
-- less than `batch_size`, no row published before the cutoff is left. If it throws, no row has
-- changed.
pub delete_published_before-IsCleaned :
    {World : Type 0} (t : Table World OutboxEvent outbox_id) (cutoff batch_size : ℕ) (w : World)
    → IsKeyed outbox_id (t.rows w)
    → Ensures
        (λ n w'. IsCleaned cutoff batch_size (t.rows w) n (t.rows w'))
        (λ e w'. t.rows w' ≡ t.rows w)
        (delete_published_before t cutoff batch_size w)
unfolding delete_published_before
delete_published_before-IsCleaned t cutoff batch_size w v =
    and_then-Ensures _ (t.find_many_law (published_before cutoff) published_order batch_size w)
      (λ found w₁ (same, page). elim (Bool-cases (length (map outbox_id found) == 0)) [
        | inl empty ↦ rw empty (
            returns (
              subst (λ rs. IsCleaned cutoff batch_size (t.rows w) 0 rs) (sym same)
                (nothing-IsCleaned cutoff batch_size (t.rows w) found v page
                  (ground (arith, length-map outbox_id found)))))
        | inr some_rows ↦ rw some_rows (
            Ensures-weaken
              (λ n w₂ (en, er).
                subst₂ (λ m rs. IsCleaned cutoff batch_size (t.rows w) m rs)
                  (sym (en ∙ ap (count (goes found cutoff)) same))
                  (sym (er ∙ ap (reject (goes found cutoff)) same))
                  (reject-IsCleaned cutoff batch_size (t.rows w) found v page))
              (λ e w₂ e₂. e₂ ∙ same) (t.delete_many_law (goes found cutoff) w₁))
      ])
      (λ e w₁ same. same)
