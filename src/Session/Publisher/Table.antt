-- ===== src/Session/Publisher/Table.antt =====
-- The hash maps of moq-transport/src/session/publisher.rs and moq-transport/src/session/subscriber.rs, as
-- association lists: by the id of a subscription, and by a namespace.
use linode_moq.Prelude.{
  ℕ, ◌≡◌, ◌≢◌, refl, List, [], ◌∷◌, Option, none, some, arith, Bool, true, false, ◌&&◌, ◌==◌,
  if◌then◌else◌,
}
use linode_moq.Coding.Tuple.{Tuple, TupleField}
use linode_moq.Serve.Tracks.{same_name}

module _ {A : Type 0} where
  unfoldable pub find : ℕ → List (ℕ × A) → Option A
  find id [] = none
  find id ((k, a) ∷ rest) = let found = find id rest in if k == id then some a else found

  unfoldable pub remove : ℕ → List (ℕ × A) → List (ℕ × A)
  remove id [] = []
  remove id ((k, a) ∷ rest) = let kept = remove id rest in if k == id then kept else (k, a) ∷ kept

  unfoldable pub insert : ℕ → A → List (ℕ × A) → List (ℕ × A)
  unfolding remove
  insert id a t = (id, a) ∷ remove id t

  pub find-insert : (id : ℕ) (a : A) (t : List (ℕ × A)) → find id (insert id a t) ≡ some a
  unfolding find insert
  find-insert id a t = ground arith

  pub find-remove :
      (id other : ℕ) (t : List (ℕ × A))
      → find other (remove id t) ≡ (if id == other then none else find other t)
  unfolding find remove
  find-remove id other [] = ground arith
  find-remove id other ((k, a) ∷ t) = let ih = find-remove id other t in ground arith

  pub find-insert_other :
      (id other : ℕ) (a : A) (t : List (ℕ × A))
      → id ≢ other
      → find other (insert id a t) ≡ find other t
  unfolding find insert
  find-insert_other id other a t ne = let kept = find-remove id other t in ground arith

-- Namespaces are equal where their fields are.
unfoldable pub same_fields : List TupleField → List TupleField → Bool
same_fields [] [] = true
same_fields (x ∷ xs) (y ∷ ys) = same_name x.value y.value && same_fields xs ys
same_fields _ _ = false

module _ {A : Type 0} where
  unfoldable pub find_namespace : Tuple → List (Tuple × A) → Option A
  find_namespace n [] = none
  find_namespace n ((k, a) ∷ rest) =
      let found = find_namespace n rest in if same_fields k.fields n.fields then some a else found

  unfoldable pub remove_namespace : Tuple → List (Tuple × A) → List (Tuple × A)
  remove_namespace n [] = []
  remove_namespace n ((k, a) ∷ rest) =
      let kept = remove_namespace n rest in
      if same_fields k.fields n.fields then kept else (k, a) ∷ kept

  pub find-remove_namespace :
      (n : Tuple) (t : List (Tuple × A)) → find_namespace n (remove_namespace n t) ≡ none
  unfolding find_namespace remove_namespace
  find-remove_namespace n [] = refl
  find-remove_namespace n ((k, a) ∷ t) = let ih = find-remove_namespace n t in ground arith
