-- ===== src/ChatState/Queue/Deletion.antt =====
-- The deletion of queue rows by their ids.
use amby.Common.{
  ℕ, zero, suc, ◌≤◌, ◌<◌, ◌≡◌, ◌≢◌, refl, ap, ◌∙◌, Bool, true, false, List, [], ◌∷◌, ◌++◌, arith,
  ◌==◌, filter, any, take, drop, Bool-cases, inl, inr,
}
use amby.Common.Text.{Text, text_eq_iff}
use amby.ChatState.State.{QueueRow}
use amby.ChatState.Queue.{in_thread, rows_of, delete_ids}

-- Ids rise along the table, from `lo` on and below `hi`.
abbrev pub Rises : ℕ → ℕ → List QueueRow → Type 0
Rises lo hi [] = lo ≤ hi
Rises lo hi (r ∷ rows) = (lo ≤ r.id) × Rises (suc r.id) hi rows

pub Rises-mono : (k lo hi : ℕ) (rows : List QueueRow) → k ≤ lo → Rises lo hi rows → Rises k hi rows
Rises-mono k lo hi [] h a = omega arith
Rises-mono k lo hi (r ∷ rows) h (a, b) = (omega arith, b)

pub filter-Rises :
    (p : QueueRow → Bool) (lo hi : ℕ) (rows : List QueueRow)
    → Rises lo hi rows
    → Rises lo hi (filter p rows)
filter-Rises p lo hi [] a = a
filter-Rises p lo hi (r ∷ rows) (a, b) =
    ground (arith, filter-Rises p (suc r.id) hi rows b, Rises-mono lo (suc r.id) hi (filter p rows))

pub append-Rises :
    (lo hi : ℕ) (rows : List QueueRow) (r : QueueRow)
    → r.id ≡ hi
    → Rises lo hi rows
    → Rises lo (suc hi) (rows ++ (r ∷ []))
append-Rises lo hi [] r e a = omega arith
append-Rises lo hi (s ∷ rows) r e (a, b) = (a, append-Rises (suc s.id) hi rows r e b)

Rises-le : (lo hi : ℕ) (rows : List QueueRow) → Rises lo hi rows → lo ≤ hi
Rises-le lo hi [] a = a
Rises-le lo hi (r ∷ rows) (a, b) = omega (arith, Rises-le (suc r.id) hi rows b)

take-Rises : (n lo hi : ℕ) (rows : List QueueRow) → Rises lo hi rows → Rises lo hi (take n rows)
take-Rises zero lo hi rows a = Rises-le lo hi rows a
take-Rises (suc n) lo hi [] a = a
take-Rises (suc n) lo hi (r ∷ rows) (a, b) = (a, take-Rises n (suc r.id) hi rows b)

-- No id below the range occurs in it.
absent :
    (i lo hi : ℕ) (rows : List QueueRow)
    → i < lo
    → Rises lo hi rows
    → any (λ v. v.id == i) rows ≡ false
absent i lo hi [] h a = refl
absent i lo hi (r ∷ rows) h (a, b) = ground (arith, absent i (suc r.id) hi rows)

delete_ids-cons :
    (v : QueueRow) (victims : List QueueRow) (lo hi : ℕ) (rows : List QueueRow)
    → v.id < lo
    → Rises lo hi rows
    → delete_ids (v ∷ victims) rows ≡ delete_ids victims rows
unfolding delete_ids
delete_ids-cons v victims lo hi [] h a = refl
delete_ids-cons v victims lo hi (r ∷ rows) h (a, b) =
    ground (arith, delete_ids-cons v victims (suc r.id) hi rows)

pub delete_ids-nil : (rows : List QueueRow) → delete_ids [] rows ≡ rows
unfolding delete_ids
delete_ids-nil [] = refl
delete_ids-nil (r ∷ rows) = ap (◌∷◌ r) (delete_ids-nil rows)

delete_ids_self :
    (r : QueueRow) (victims rows : List QueueRow)
    → delete_ids (r ∷ victims) (r ∷ rows) ≡ delete_ids (r ∷ victims) rows
unfolding delete_ids
delete_ids_self r victims rows = ground arith

rows_of-cons :
    (other : Text) (r : QueueRow) (xs ys : List QueueRow)
    → rows_of other xs ≡ rows_of other ys
    → rows_of other (r ∷ xs) ≡ rows_of other (r ∷ ys)
unfolding rows_of
rows_of-cons other r xs ys h = ground arith

-- Deleting the first n rows of a thread by their ids deletes just those.
module _ (thread : Text) where
  taken-Rises :
      (n lo hi : ℕ) (rows : List QueueRow)
      → Rises lo hi rows
      → Rises lo hi (take n (rows_of thread rows))
  unfolding rows_of
  taken-Rises n lo hi rows a = take-Rises n lo hi _ (filter-Rises (in_thread thread) lo hi rows a)

  rows_of_mine :
      (r : QueueRow) (rows : List QueueRow)
      → in_thread thread r ≡ true
      → rows_of thread (r ∷ rows) ≡ r ∷ rows_of thread rows
  unfolding rows_of
  rows_of_mine r rows h = rw h

  rows_of_foreign :
      (r : QueueRow) (rows : List QueueRow)
      → in_thread thread r ≡ false
      → rows_of thread (r ∷ rows) ≡ rows_of thread rows
  unfolding rows_of
  rows_of_foreign r rows h = rw h

  pub rows_of-delete_ids :
      (n lo hi : ℕ) (rows : List QueueRow)
      → Rises lo hi rows
      → rows_of thread (delete_ids (take n (rows_of thread rows)) rows)
        ≡ drop n (rows_of thread rows)
  rows_of-delete_ids zero lo hi rows a = ap (rows_of thread) (delete_ids-nil rows)
  rows_of-delete_ids (suc n) lo hi [] a = unfold rows_of delete_ids in refl
  rows_of-delete_ids (suc n) lo hi (r ∷ rows) (a, b) = elim (Bool-cases (in_thread thread r)) [
    | inl mine ↦
        let victims = take n (rows_of thread rows) in
        let one : delete_ids (r ∷ victims) (r ∷ rows) ≡ delete_ids victims rows =
          delete_ids_self r victims rows
          ∙ delete_ids-cons r victims (suc r.id) hi rows (omega arith) b in
        rw (rows_of_mine r rows mine, one) (rows_of-delete_ids n (suc r.id) hi rows b)
    | inr foreign ↦
        let victims = take (suc n) (rows_of thread rows) in
        let missed =
          absent r.id (suc r.id) hi victims (omega arith)
            (taken-Rises (suc n) (suc r.id) hi rows b) in
        let one : delete_ids victims (r ∷ rows) ≡ r ∷ delete_ids victims rows =
          unfold delete_ids in rw missed refl in
        rw (rows_of_foreign r rows foreign, one, rows_of_foreign r _ foreign)
          (rows_of-delete_ids (suc n) (suc r.id) hi rows b)
  ]

  -- The rows of other threads stay.
  pub rows_of-delete_ids_other :
      (other : Text) (n lo hi : ℕ) (rows : List QueueRow)
      → thread ≢ other
      → Rises lo hi rows
      → rows_of other (delete_ids (take n (rows_of thread rows)) rows) ≡ rows_of other rows
  rows_of-delete_ids_other other zero lo hi rows h a = ap (rows_of other) (delete_ids-nil rows)
  rows_of-delete_ids_other other (suc n) lo hi [] h a = unfold rows_of delete_ids in refl
  rows_of-delete_ids_other other (suc n) lo hi (r ∷ rows) h (a, b) =
      elim (Bool-cases (in_thread thread r)) [
        | inl mine ↦
            let victims = take n (rows_of thread rows) in
            let one : delete_ids (r ∷ victims) (r ∷ rows) ≡ delete_ids victims rows =
              delete_ids_self r victims rows
              ∙ delete_ids-cons r victims (suc r.id) hi rows (omega arith) b in
            let same : rows_of other (r ∷ rows) ≡ rows_of other rows =
              unfold rows_of in
              ground (arith, text_eq_iff r.thread_id thread, text_eq_iff r.thread_id other) in
            rw (rows_of_mine r rows mine, one, same)
              (rows_of-delete_ids_other other n (suc r.id) hi rows h b)
        | inr foreign ↦
            let victims = take (suc n) (rows_of thread rows) in
            let missed =
              absent r.id (suc r.id) hi victims (omega arith)
                (taken-Rises (suc n) (suc r.id) hi rows b) in
            let one : delete_ids victims (r ∷ rows) ≡ r ∷ delete_ids victims rows =
              unfold delete_ids in rw missed refl in
            let ih = rows_of-delete_ids_other other (suc n) (suc r.id) hi rows h b in
            rw (rows_of_foreign r rows foreign, one) (rows_of-cons other r _ _ ih)
      ]
