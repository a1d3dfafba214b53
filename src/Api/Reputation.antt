-- ===== src/Api/Reputation.antt =====
-- app/routes/reputation.py: `GET /api/v1/reputation/{profile_id}`.
use dost_review_api.Prelude.{
  ℕ, String, false, ◌||◌, eq_refl, ◌≡◌, refl, Option, none, some, List, [], ◌∷◌, map, ap, arith,
  ltb,
}
use dost_review_api.Models.{Uuid, Instant, str}
use dost_review_api.Batch.Database.{
  TagInfo, StoredTag, object, bare, Reputation, Db, find_reputation, Output,
}
use dost_review_api.Batch.Claim.{Group}
use dost_review_api.Batch.Engine.{Env, Work, finished, merge_tags, reputation_row, commit_profile}
use dost_review_api.Batch.Results.{find-upsert_reputation}

-- `DostReputation` of app/models.py.
pub record DostReputation : Type 0 where
  pub profile_id : String
  pub reputation : String
  pub reputation_score : ℕ
  pub total_reviews : ℕ
  pub all_tags : List (String × TagInfo)
  pub summary : String
  pub updated_at : Instant

-- `TagInfo(**info)` or `TagInfo(weight=float(info))`.
unfoldable pub shown_tag : StoredTag → TagInfo
shown_tag (object info) = info
shown_tag (bare n) = record { weight = n; score = none }

unfoldable pub shown : Reputation → DostReputation
shown row = record {
  profile_id = str row.profile_id;
  reputation = row.reputation;
  reputation_score = row.reputation_score;
  total_reviews = row.total_reviews;
  all_tags = map (λ (t : String × StoredTag). (t.0, shown_tag t.1)) row.all_tags;
  summary = row.summary;
  updated_at = row.updated_at;
}

unfoldable pub shown_row : Option Reputation → Option DostReputation
shown_row none = none
shown_row (some row) = some (shown row)

-- `get_reputation`; `none` is a 404.
unfoldable pub get_reputation : Uuid → Db → Option DostReputation
get_reputation k db = shown_row (find_reputation k db.reputations)

shown-object :
    (tags : List (String × TagInfo))
    → map
        (λ (t : String × StoredTag). (t.0, shown_tag t.1))
        (map (λ (t : String × TagInfo). (t.0, object t.1)) tags)
      ≡ tags
unfolding shown_tag
shown-object [] = refl
shown-object ((k, info) ∷ tags) =
    ap (λ (ts : List (String × TagInfo)). (k, info) ∷ ts) (shown-object tags)

-- After the commit of an output for a profile, the route shows that output for it: its score, its counts,
-- its merged tags, and the time of the commit, whatever was shown before.
pub get_reputation-commit_profile :
    (env : Env) (group : Group) (o : Output) (w : Work)
    → (commit_profile env group o w).0 ≡ finished
    → get_reputation group.0 (commit_profile env group o w).1.db
      ≡ some (record {
        profile_id = str group.0;
        reputation = o.reputation;
        reputation_score = o.reputation_score;
        total_reviews = o.total_reviews;
        all_tags = merge_tags o;
        summary = elim o.summary [ none ↦ "" | some s ↦ s ];
        updated_at = env.now;
      })
unfolding commit_profile get_reputation shown_row shown reputation_row
get_reputation-commit_profile env group o w h =
    let goes_on : (env.commit_fails group.0 || ltb 50 o.reputation_score) ≡ false =
      ground (arith, h) in
    rw
      (
        goes_on,
        find-upsert_reputation (reputation_row group.0 env.now o) group.0 w.db.reputations,
        eq_refl group.0,
        shown-object (merge_tags o),
      )
      refl
