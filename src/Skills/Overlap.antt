-- ===== src/Skills/Overlap.antt =====
-- What overlapping promotions and rollbacks leave of a skill.
use mathlib.Core.Path.{subst}
use astrbot_shipyard_neo.Base.{
  ℕ, ◌+◌, ◌≤◌, ◌≡◌, refl, sym, ap, ◌∙◌, false, Option, none, some, List, [], ◌∷◌, ◌==◌, ◌&&◌, ◌||◌,
  not, arith, Bool-cases, inl, inr, select, update, map, count, ==_refl,
}
use astrbot_shipyard_neo.World.Effect.{has_key}
use astrbot_shipyard_neo.Skills.Rows.{SkillRelease, is_of, is_active_of, max_version}
use astrbot_shipyard_neo.Skills.Review.{as_deleted}
use astrbot_shipyard_neo.Skills.Active.{is_version, unused_version, delete_fewer, delete_versions}
use astrbot_shipyard_neo.Skills.Publication.{
  Draft, Shared, set_draft, numbered, listed, deactivate_ids, outdated, commit, Statement,
  promotion_numbered, rollback_numbered, actives_read, committed, given_up, release_deleted,
  Reachable, start, next,
}

-- The active releases of a skill that have none of the ids.
abbrev left_active : List ℕ → ℕ → ℕ → List SkillRelease → ℕ
left_active ids o k rs = count (λ r. is_active_of o k r && not (has_key r.id ids)) rs

left_active_more :
    (i : ℕ) (ids : List ℕ) (o k : ℕ) (rs : List SkillRelease)
    → left_active (i ∷ ids) o k rs ≤ left_active ids o k rs
left_active_more i ids o k [] = omega arith
left_active_more i ids o k (r ∷ rs) = ground (arith, left_active_more i ids o k rs)

left_active-listed :
    (o k : ℕ) (rs : List SkillRelease)
    → left_active (map (λ (r : SkillRelease). r.id) (select (is_active_of o k) rs)) o k rs ≤ 0
left_active-listed o k [] = omega arith
left_active-listed o k (r ∷ rs) =
    let others : List SkillRelease = select (is_active_of o k) rs in
    let ids : List ℕ = map (λ (r : SkillRelease). r.id) others in
    elim (Bool-cases (is_active_of o k r)) [
      | inl e ↦
          let now : select (is_active_of o k) (r ∷ rs) ≡ r ∷ others = rw e refl in
          let rest : left_active (r.id ∷ ids) o k rs ≤ 0 =
            omega (arith, left_active-listed o k rs, left_active_more r.id ids o k rs) in
          subst (λ l. left_active (map (λ (x : SkillRelease). x.id) l) o k (r ∷ rs) ≤ 0) (sym now)
            (rw (e, ==_refl r.id) omega (arith, rest))
      | inr e ↦
          let now : select (is_active_of o k) (r ∷ rs) ≡ others = rw e refl in
          subst (λ l. left_active (map (λ (x : SkillRelease). x.id) l) o k (r ∷ rs) ≤ 0) (sym now)
            (rw e omega (arith, left_active-listed o k rs))
    ]

active-deactivated :
    (ids : List ℕ) (o k : ℕ) (rs : List SkillRelease)
    → count (is_active_of o k) (deactivate_ids ids rs) ≤ left_active ids o k rs
active-deactivated ids o k [] = omega arith
active-deactivated ids o k (r ∷ rs) = ground (arith, active-deactivated ids o k rs)

fewer-deactivated :
    (ids : List ℕ) (o k : ℕ) (rs : List SkillRelease)
    → count (is_active_of o k) (deactivate_ids ids rs) ≤ count (is_active_of o k) rs
fewer-deactivated ids o k [] = omega arith
fewer-deactivated ids o k (r ∷ rs) = ground (arith, fewer-deactivated ids o k rs)

left-deactivated :
    (js ids : List ℕ) (o k : ℕ) (rs : List SkillRelease)
    → left_active js o k (deactivate_ids ids rs) ≤ left_active js o k rs
left-deactivated js ids o k [] = omega arith
left-deactivated js ids o k (r ∷ rs) = ground (arith, left-deactivated js ids o k rs)

max-deactivated :
    (ids : List ℕ) (o k : ℕ) (rs : List SkillRelease)
    → max_version o k (deactivate_ids ids rs) ≡ max_version o k rs
max-deactivated ids o k [] = refl
max-deactivated ids o k (r ∷ rs) = ground (arith, max-deactivated ids o k rs)

versions-deactivated :
    (ids : List ℕ) (o k v : ℕ) (rs : List SkillRelease)
    → count (is_version o k v) (deactivate_ids ids rs) ≡ count (is_version o k v) rs
versions-deactivated ids o k v [] = refl
versions-deactivated ids o k v (r ∷ rs) = ground (arith, versions-deactivated ids o k v rs)

left-deleted :
    (js : List ℕ) (now i o k : ℕ) (rs : List SkillRelease)
    → left_active js o k (update (λ r. r.id == i) (as_deleted now) rs) ≤ left_active js o k rs
left-deleted js now i o k [] = omega arith
left-deleted js now i o k (r ∷ rs) = ground (arith, left-deleted js now i o k rs)

max-deleted :
    (now i o k : ℕ) (rs : List SkillRelease)
    → max_version o k (update (λ r. r.id == i) (as_deleted now) rs) ≡ max_version o k rs
max-deleted now i o k [] = refl
max-deleted now i o k (r ∷ rs) = ground (arith, max-deleted now i o k rs)

-- What a draft that is not stale has read still holds.
record IsCurrent (rs : List SkillRelease) (d : Draft) : Type 0 where
  version : d.stale ≡ false → d.row.version ≡ max_version d.row.owner d.row.skill_key rs + 1
  covered :
      (ids : List ℕ)
      → d.stale ≡ false
      → d.read ≡ some ids
      → left_active ids d.row.owner d.row.skill_key rs ≤ 0

-- For every skill there is at most one active release, and one of each version, and one more for each
-- release of the skill whose draft was stale when it was committed.
abbrev pub IsBounded : Shared → Type 0
IsBounded s =
    ((o k : ℕ) → count (is_active_of o k) s.releases ≤ 1 + count (is_of o k) s.late)
    × ((o k v : ℕ) → count (is_version o k v) s.releases ≤ 1 + count (is_of o k) s.late)

abbrev AreCurrent : Shared → Type 0
AreCurrent s = (j : ℕ) (d : Draft) → s.drafts j ≡ some d → IsCurrent s.releases d

draft-inv : {d e : Draft} → some d ≡ some e → d ≡ e
draft-inv h = cc

ids-inv : {is js : List ℕ} → some is ≡ some js → is ≡ js
ids-inv h = cc

set_draft-AreCurrent :
    (s : Shared) (k : ℕ) (new : Option Draft)
    → ((d : Draft) → new ≡ some d → IsCurrent s.releases d)
    → AreCurrent s
    → AreCurrent (record s { drafts = set_draft k new s.drafts })
set_draft-AreCurrent s k new fresh h j d e = elim (Bool-cases (j == k)) [
  | inl same ↦ fresh d (rw same at e)
  | inr other ↦ h j d (rw other at e)
]

numbered-IsCurrent :
    (rs : List SkillRelease) (row : SkillRelease)
    → row.version ≡ max_version row.owner row.skill_key rs + 1
    → (d : Draft) → some (numbered row) ≡ some d
    → IsCurrent rs d
numbered-IsCurrent rs row above d e =
    subst (IsCurrent rs) (draft-inv e)
      (record { version = λ fresh. above; covered = λ ids fresh none_read. cc })

listed-IsCurrent :
    (rs : List SkillRelease) (d : Draft)
    → IsCurrent rs d
    → (e : Draft) → some (listed rs d) ≡ some e
    → IsCurrent rs e
listed-IsCurrent rs d h e same = subst (IsCurrent rs) (draft-inv same) (record {
  version = h.version;
  covered = λ ids fresh read.
      subst (λ js. left_active js d.row.owner d.row.skill_key rs ≤ 0) (ids-inv read)
        (left_active-listed d.row.owner d.row.skill_key rs);
})

-- A draft that a commit leaves current is of another skill.
outdated-IsCurrent :
    (rs : List SkillRelease) (row : SkillRelease) (ids : List ℕ) (d : Draft)
    → IsCurrent rs d
    → IsCurrent
        (row ∷ deactivate_ids ids rs)
        (record d { stale = d.stale || is_of row.owner row.skill_key d.row })
outdated-IsCurrent rs row ids d h = elim (Bool-cases d.stale) [
  | inl old ↦ record {
    version = λ e. absurd (ground arith);
    covered = λ js e read. absurd (ground arith);
  }
  | inr fresh ↦ record {
    version = λ e.
        let other : is_of d.row.owner d.row.skill_key row ≡ false = ground (arith, e) in
        rw other (
          h.version fresh
          ∙ ap (λ m. m + 1) (sym (max-deactivated ids d.row.owner d.row.skill_key rs)));
    covered = λ js e read.
        let other : is_of d.row.owner d.row.skill_key row ≡ false = ground (arith, e) in
        rw other (
          omega (
            arith,
            h.covered js fresh read,
            left-deactivated js ids d.row.owner d.row.skill_key rs,
          ));
  }
]

outdated-AreCurrent :
    (rs : List SkillRelease) (row : SkillRelease) (ids : List ℕ) (found : Option Draft)
    → ((d : Draft) → found ≡ some d → IsCurrent rs d)
    → (e : Draft) → outdated row found ≡ some e
    → IsCurrent (row ∷ deactivate_ids ids rs) e
outdated-AreCurrent rs row ids none h e same = cc
outdated-AreCurrent rs row ids (some d) h e same =
    subst (IsCurrent (row ∷ deactivate_ids ids rs)) (draft-inv same)
      (outdated-IsCurrent rs row ids d (h d refl))

commit-AreCurrent :
    (k : ℕ) (d : Draft) (ids : List ℕ) (s : Shared) → AreCurrent s → AreCurrent (commit k d ids s)
unfolding commit
commit-AreCurrent k d ids s h j e found = elim (Bool-cases (j == k)) [
  | inl same ↦ absurd (no_draft (rw same at found))
  | inr other ↦ outdated-AreCurrent s.releases d.row ids (s.drafts j) (h j) e (rw other at found)
]
  where
    no_draft : none ≡ some e → ⊥
    no_draft h = cc

-- The two counts after a commit, by whether the draft was stale.
commit-IsBounded :
    (k : ℕ) (d : Draft) (ids : List ℕ) (s : Shared)
    → d.read ≡ some ids
    → IsCurrent s.releases d
    → IsBounded s
    → IsBounded (commit k d ids s)
unfolding commit
commit-IsBounded k d ids s read current h = elim (Bool-cases d.stale) [
  | inl old ↦ rw old (
    (λ o j. ground (arith, h.0 o j, fewer-deactivated ids o j s.releases)),
    (λ o j v. ground (arith, h.1 o j v, versions-deactivated ids o j v s.releases)),
  )
  | inr fresh ↦ rw fresh (
    (λ o j. elim (Bool-cases (is_of o j d.row)) [
      | inl mine ↦ ground (
        arith,
        current.covered ids fresh read,
        active-deactivated ids d.row.owner d.row.skill_key s.releases,
      )
      | inr other ↦ ground (arith, other, h.0 o j, fewer-deactivated ids o j s.releases)
    ]),
    (λ o j v. elim (Bool-cases (is_version o j v d.row)) [
      | inl mine ↦ ground (
        arith,
        versions-deactivated ids o j v s.releases,
        unused_version d.row.owner d.row.skill_key d.row.version s.releases
            (omega (arith, current.version fresh)),
      )
      | inr other ↦ ground (arith, other, h.1 o j v, versions-deactivated ids o j v s.releases)
    ]),
  )
]

deleted-IsCurrent :
    (now i : ℕ) (rs : List SkillRelease) (d : Draft)
    → IsCurrent rs d
    → IsCurrent (update (λ r. r.id == i) (as_deleted now) rs) d
deleted-IsCurrent now i rs d h = record {
  version = λ fresh.
      h.version fresh ∙ ap (λ m. m + 1) (sym (max-deleted now i d.row.owner d.row.skill_key rs));
  covered = λ js fresh read.
      omega (arith, h.covered js fresh read, left-deleted js now i d.row.owner d.row.skill_key rs);
}

Statement-IsBounded :
    (s t : Shared) → Statement s t → IsBounded s × AreCurrent s → IsBounded t × AreCurrent t
Statement-IsBounded _ _ (promotion_numbered s k now new_id owner stage mode source c) h =
    (h.0, set_draft-AreCurrent s k _ (numbered-IsCurrent s.releases _ refl) h.1)
Statement-IsBounded _ _ (rollback_numbered s k now new_id owner mode current previous) h =
    (h.0, set_draft-AreCurrent s k _ (numbered-IsCurrent s.releases _ refl) h.1)
Statement-IsBounded _ _ (actives_read s k d found) h =
    (h.0, set_draft-AreCurrent s k _ (listed-IsCurrent s.releases d (h.1 k d found)) h.1)
Statement-IsBounded _ _ (committed s k d ids found read) h =
    (commit-IsBounded k d ids s read (h.1 k d found) h.0, commit-AreCurrent k d ids s h.1)
Statement-IsBounded _ _ (given_up s k) h = (h.0, set_draft-AreCurrent s k none (λ d e. cc) h.1)
Statement-IsBounded _ _ (release_deleted s now i) h = (
  (
    (λ o k. omega (arith, h.0.0 o k, delete_fewer now i o k s.releases)),
    (λ o k v. omega (arith, h.0.1 o k v, delete_versions now i o k v s.releases)),
  ),
  (λ j d found. deleted-IsCurrent now i s.releases d (h.1 j d found)),
)

reachable-Holds : (s : Shared) → Reachable s → IsBounded s × AreCurrent s
reachable-Holds _ start = (((λ o k. omega arith), (λ o k v. omega arith)), (λ j d e. cc))
reachable-Holds _ (next {s} {t} earlier step) =
    Statement-IsBounded s t step (reachable-Holds s earlier)

-- Whatever the order of the statements of all promotions, rollbacks and deletions: the active releases
-- of a skill, and its releases of one version, are at most one more than the releases of the skill that
-- were committed although another one of the skill had been committed since they read its version.
pub Reachable-IsBounded : (s : Shared) → Reachable s → IsBounded s
Reachable-IsBounded s h = (reachable-Holds s h).0
