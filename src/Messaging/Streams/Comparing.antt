-- ===== src/Messaging/Streams/Comparing.antt =====
-- `sameSubjects` and `requiresUpdate` of stream-bootstrap.ts: when a stream counts as configured.
use trams_assignment.Base.{
  ◌≡◌, refl, sym, ap, ap₂, ◌∙◌, ◌↔◌, Bool, true, false, some, List, [], ◌∷◌, length, String, eq_iff,
  eq_refl, is_text_iff, ==ℤ_iff, arith, count, count-true, sort, text_le, text_le-order, count-sort,
  sort-eq_iff,
}
use trams_assignment.Messaging.Streams.{
  StreamConfig, StreamUpdateConfig, every_equal, same_subjects, requires_update,
}

every_equal_self : (xs : List String) → every_equal xs xs ≡ true
every_equal_self [] = refl
every_equal_self (x ∷ xs) = ground (arith, eq_refl x, every_equal_self xs)

eq_of_every_equal :
    (xs ys : List String) → length xs ≡ length ys → every_equal xs ys ≡ true → xs ≡ ys
eq_of_every_equal [] [] n h = refl
eq_of_every_equal [] (y ∷ ys) n h = absurd (omega (arith, n))
eq_of_every_equal (x ∷ xs) [] n h = absurd (omega (arith, n))
eq_of_every_equal (x ∷ xs) (y ∷ ys) n h =
    ap₂ (◌∷◌) ((eq_iff x y).0 (ground arith))
      (eq_of_every_equal xs ys (omega (arith, n)) (ground arith))

length-sort : (xs : List String) → length (sort text_le xs) ≡ length xs
length-sort xs =
    sym (count-true (sort text_le xs)) ∙ count-sort text_le (λ _. true) xs ∙ count-true xs

-- `sameSubjects` compares two lists of subjects as multisets: it holds exactly if each test is
-- passed by as many subjects of the one as of the other, whatever their order.
pub same_subjects_iff :
    (left right : List String)
    → (same_subjects left right ≡ true) ↔ ((q : String → Bool) → count q left ≡ count q right)
unfolding same_subjects
same_subjects_iff left right = (
  λ h.
      let n : length left ≡ length right = ground arith in
      let every : every_equal (sort text_le left) (sort text_le right) ≡ true = ground arith in
      (sort-eq_iff text_le text_le-order left right).0 (
        eq_of_every_equal (sort text_le left) (sort text_le right)
          (length-sort left ∙ n ∙ sym (length-sort right)) every),
  λ same.
      let e = (sort-eq_iff text_le text_le-order left right).1 same in
      ground (
        arith,
        same (λ _. true),
        count-true left,
        count-true right,
        ap (every_equal (sort text_le left)) e,
        every_equal_self (sort text_le left),
      ),
)

-- The stream has all that the update would set.
pub record IsUpToDate (change : StreamUpdateConfig) (config : StreamConfig) : Type 0 where
  pub subjects : (q : String → Bool) → count q config.subjects ≡ count q change.subjects
  pub description : config.description ≡ some change.description
  pub max_msgs : config.max_msgs ≡ change.max_msgs
  pub max_bytes : config.max_bytes ≡ change.max_bytes
  pub max_msg_size : config.max_msg_size ≡ change.max_msg_size
  pub max_age : config.max_age ≡ change.max_age
  pub discard : config.discard ≡ change.discard
  pub duplicate_window : config.duplicate_window ≡ change.duplicate_window
  pub num_replicas : config.num_replicas ≡ change.num_replicas

-- `requiresUpdate` is false exactly if the stream has all that the update would set, its subjects
-- in any order.
pub requires_update_iff :
    (config : StreamConfig) (change : StreamUpdateConfig)
    → (requires_update (record { config = config }) change ≡ false) ↔ IsUpToDate change config
unfolding requires_update
requires_update_iff config change = (
  λ h. record {
    subjects = (same_subjects_iff config.subjects change.subjects).0 (ground arith);
    description = (is_text_iff config.description change.description).0 (ground arith);
    max_msgs = (==ℤ_iff config.max_msgs change.max_msgs).0 (ground arith);
    max_bytes = (==ℤ_iff config.max_bytes change.max_bytes).0 (ground arith);
    max_msg_size = (==ℤ_iff config.max_msg_size change.max_msg_size).0 (ground arith);
    max_age = ground arith;
    discard = (eq_iff config.discard change.discard).0 (ground arith);
    duplicate_window = ground arith;
    num_replicas = ground arith;
  },
  λ same. ground (
    arith,
    (same_subjects_iff config.subjects change.subjects).1 same.subjects,
    (is_text_iff config.description change.description).1 same.description,
    (==ℤ_iff config.max_msgs change.max_msgs).1 same.max_msgs,
    (==ℤ_iff config.max_bytes change.max_bytes).1 same.max_bytes,
    (==ℤ_iff config.max_msg_size change.max_msg_size).1 same.max_msg_size,
    (eq_iff config.discard change.discard).1 same.discard,
    same.max_age,
    same.duplicate_window,
    same.num_replicas,
  ),
)
