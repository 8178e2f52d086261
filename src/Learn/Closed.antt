-- ===== src/Learn/Closed.antt =====
-- The executions whose learning has ended, and the writes of `set_execution_learning_status`.
use astrbot_shipyard_neo.Base.{
  ℕ, ◌≡◌, ap, ◌∙◌, Bool, true, false, Option, some, List, [], ◌∷◌, ◌==◌, arith, Bool-cases,
  Option-cases, inl, inr, ◌⊎◌, All, first, first_sound, update, ==→≡,
}
use astrbot_shipyard_neo.World.Runtime.{Error, ok, raise}
use astrbot_shipyard_neo.Skills.History.{
  ExecutionHistory, LearnStatus, found_or_raise, learned, write_row, set_execution_learning_status,
}

-- The learning of an execution has ended.
abbrev pub is_closed : Option LearnStatus → Bool
is_closed (some LearnStatus.processed) = true
is_closed (some LearnStatus.skipped) = true
is_closed (some LearnStatus.error) = true
is_closed _ = false

abbrev IsClosedAt : ℕ → ExecutionHistory → Type 0
IsClosedAt k e = (e.id == k) ≡ true → is_closed e.learn_status ≡ true

-- The rows of an id are settled.
abbrev pub Settled : ℕ → List ExecutionHistory → Type 0
Settled k rows = All (IsClosedAt k) rows

-- The rows of every other id that were settled still are.
abbrev pub Framed : ℕ → List ExecutionHistory → List ExecutionHistory → Type 0
Framed k rows later = (j : ℕ) → (k == j) ≡ false → Settled j rows → Settled j later

abbrev pub mark_row :
    ℕ → LearnStatus → Option ℕ → Option ℕ → List ExecutionHistory → List ExecutionHistory
mark_row k status problem at rows = update (λ e. e.id == k) (learned status problem at) rows

-- A write either finds no row, or writes the rows of the id.
pub set-cases :
    (k : ℕ) (status : LearnStatus) (problem at : Option ℕ) (rows : List ExecutionHistory)
    → (set_execution_learning_status k status problem at rows ≡ raise Error.not_found)
      ⊎ ((e : ExecutionHistory) × (set_execution_learning_status k status problem at rows
            ≡ ok (e, mark_row k status problem at rows)))
unfolding set_execution_learning_status
set-cases k status problem at rows = elim (Option-cases (first (λ e. e.id == k) rows)) [
  | inl gone ↦ inl (rw gone)
  | inr (e, found) ↦
      let same : e.id ≡ k = ==→≡ e.id k (first_sound (λ d. d.id == k) rows found) in
      inr (
        learned status problem at e,
        ap (λ o. write_row (learned status problem at) rows (found_or_raise o)) found
            ∙ ap
                (λ i. ok (
                  learned status problem at e,
                  update (λ d. d.id == i) (learned status problem at) rows,
                ))
                same,
      )
]

pub mark_row-Settled :
    (k : ℕ) (status : LearnStatus) (problem at : Option ℕ) (rows : List ExecutionHistory)
    → is_closed (some status) ≡ true
    → Settled k (mark_row k status problem at rows)
mark_row-Settled k status problem at [] closed = tt
mark_row-Settled k status problem at (e ∷ es) closed = elim (Bool-cases (e.id == k)) [
  | inl hit ↦ rw hit ((λ _. closed), mark_row-Settled k status problem at es closed)
  | inr miss ↦ rw miss ((λ h. cc), mark_row-Settled k status problem at es closed)
]

pub mark_row-Framed :
    (k : ℕ) (status : LearnStatus) (problem at : Option ℕ) (rows : List ExecutionHistory)
    → Framed k rows (mark_row k status problem at rows)
mark_row-Framed k status problem at [] j other h = tt
mark_row-Framed k status problem at (e ∷ es) j other h = elim (Bool-cases (e.id == k)) [
  | inl hit ↦ rw hit (
    (λ (at_j : (e.id == j) ≡ true). absurd (ground arith)),
    mark_row-Framed k status problem at es j other h.1,
  )
  | inr miss ↦ rw miss (h.0, mark_row-Framed k status problem at es j other h.1)
]
