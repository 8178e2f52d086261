-- ===== src/Skills/Publication.antt =====
-- Promotions and rollbacks statement by statement. `promote_candidate` and `rollback_release` read the
-- greatest version of the skill, then its active releases, and commit a new row later: each `await`
-- lets other coroutines run, nothing locks the skill, and no constraint of the table is unique.
use astrbot_shipyard_neo.Base.{
  ℕ, ◌+◌, Bool, false, Option, none, some, List, [], ◌∷◌, ◌==◌, ◌||◌, if◌then◌else◌, ◌≡◌, select,
  update, map,
}
use astrbot_shipyard_neo.World.Effect.{has_key}
use astrbot_shipyard_neo.Skills.Rows.{
  SkillReleaseStage, SkillReleaseMode, SkillCandidate, SkillRelease, Origin, is_of, is_active_of,
  max_version,
}
use astrbot_shipyard_neo.Skills.Service.{promotion, rollback_of_to}
use astrbot_shipyard_neo.Skills.Review.{as_deleted}

-- A release that is not committed yet: its row, with its version, and the ids of the active releases
-- once they are read. `stale` says that another release of the skill was committed since it began.
pub record Draft : Type 0 where
  pub row : SkillRelease
  pub read : Option (List ℕ)
  pub stale : Bool

-- The table, the drafts of the coroutines, and the rows whose drafts were stale at their commit.
pub record Shared : Type 0 where
  pub releases : List SkillRelease
  pub drafts : ℕ → Option Draft
  pub late : List SkillRelease

abbrev pub set_draft : ℕ → Option Draft → (ℕ → Option Draft) → ℕ → Option Draft
set_draft k d drafts j = if j == k then d else drafts j

-- The draft after the number is read.
abbrev pub numbered : SkillRelease → Draft
numbered row = record { row = row; read = none; stale = false }

-- The draft after the active releases are read.
abbrev pub listed : List SkillRelease → Draft → Draft
listed rs d = record d {
  read =
      some
        (map (λ (r : SkillRelease). r.id) (select (is_active_of d.row.owner d.row.skill_key) rs));
}

-- `UPDATE skill_releases SET is_active = false WHERE id = ...` for each of the ids
abbrev pub deactivate_ids : List ℕ → List SkillRelease → List SkillRelease
deactivate_ids ids rs = update (λ r. has_key r.id ids) (λ r. record r { is_active = false }) rs

abbrev pub outdated : SkillRelease → Option Draft → Option Draft
outdated row none = none
outdated row (some d) = some (record d { stale = d.stale || is_of row.owner row.skill_key d.row })

unfoldable pub commit : ℕ → Draft → List ℕ → Shared → Shared
commit k d ids s = record {
  releases = d.row ∷ deactivate_ids ids s.releases;
  drafts = λ j. if j == k then none else outdated d.row (s.drafts j);
  late = if d.stale then d.row ∷ s.late else s.late;
}

-- One statement of one of the coroutines `k`.
pub data Statement : Shared → Shared → Type 0 where
  promotion_numbered :
      (s : Shared) (k now new_id owner : ℕ) (stage : SkillReleaseStage) (mode : SkillReleaseMode)
      (source : Origin) (c : SkillCandidate)
      → Statement s (record s {
        drafts =
            set_draft k
              (some (
                numbered (
                  promotion now new_id owner stage mode source c
                    (max_version owner c.skill_key s.releases + 1))))
              s.drafts;
      })
  rollback_numbered :
      (s : Shared) (k now new_id owner : ℕ) (mode : SkillReleaseMode)
      (current previous : SkillRelease)
      → Statement s (record s {
        drafts =
            set_draft k
              (some (
                numbered (
                  rollback_of_to now new_id owner mode current previous
                    (max_version owner current.skill_key s.releases + 1))))
              s.drafts;
      })
  actives_read :
      (s : Shared) (k : ℕ) (d : Draft)
      → s.drafts k ≡ some d
      → Statement s (record s { drafts = set_draft k (some (listed s.releases d)) s.drafts })
  committed :
      (s : Shared) (k : ℕ) (d : Draft) (ids : List ℕ)
      → s.drafts k ≡ some d
      → d.read ≡ some ids
      → Statement s (commit k d ids s)
  given_up : (s : Shared) (k : ℕ) → Statement s (record s { drafts = set_draft k none s.drafts })
  release_deleted :
      (s : Shared) (now release_id : ℕ)
      → Statement s
          (record s { releases = update (λ r. r.id == release_id) (as_deleted now) s.releases })

abbrev pub begun : Shared
begun = record { releases = []; drafts = λ k. none; late = [] }

pub data Reachable : Shared → Type 0 where
  start : Reachable begun
  next : {s t : Shared} → Reachable s → Statement s t → Reachable t
