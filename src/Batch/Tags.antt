-- ===== src/Batch/Tags.antt =====
-- What `_merge_tags` holds under a tag.
use dost_review_api.Prelude.{
  ℕ, ◌==◌, eq_iff, ◌≡◌, refl, String, Option, some, none, List, [], ◌∷◌, arith, if◌then◌else◌,
}
use dost_review_api.Models.{Instant}
use dost_review_api.Batch.Database.{TagInfo, Reputation, TopTag, Output}
use dost_review_api.Batch.Engine.{set_item, get_item, set_counts, set_top, merge_tags}

abbrev pub created_or : Instant → Option Reputation → Instant
created_or now none = now
created_or now (some r) = r.created_at

-- A dictionary read after it was written.
get_item-set_item :
    {V : Type 0} (k j : String) (v : V) (d : List (String × V))
    → get_item j (set_item k v d) ≡ (if k == j then some v else get_item j d)
unfolding get_item set_item
get_item-set_item k j v [] = refl
get_item-set_item k j v ((i, w) ∷ d) =
    ground (arith, get_item-set_item k j v d, eq_iff i k, eq_iff i j, eq_iff k j)

-- The last count of a tag, and its last entry among the top tags.
abbrev or_else {ℓ} : {A : Type ℓ} → Option A → Option A → Option A
or_else none b = b
or_else (some a) b = some a

abbrev last_count : String → List (String × ℕ) → Option TagInfo
last_count k [] = none
last_count k ((t, n) ∷ tags) =
    or_else (last_count k tags)
      (if t == k then some (record { weight = n; score = none }) else none)

abbrev last_top : String → List TopTag → Option TagInfo
last_top k [] = none
last_top k (t ∷ tags) =
    or_else (last_top k tags)
      (if t.tag == k then some (record { weight = t.weight; score = some t.score }) else none)

get_item-set_counts :
    (k : String) (m : List (String × TagInfo)) (tags : List (String × ℕ))
    → get_item k (set_counts m tags) ≡ or_else (last_count k tags) (get_item k m)
unfolding set_counts
get_item-set_counts k m [] = refl
get_item-set_counts k m ((t, n) ∷ tags) =
    let v : TagInfo = record { weight = n; score = none } in
    ground (arith, get_item-set_counts k (set_item t v m) tags, get_item-set_item t k v m)

get_item-set_top :
    (k : String) (m : List (String × TagInfo)) (tags : List TopTag)
    → get_item k (set_top m tags) ≡ or_else (last_top k tags) (get_item k m)
unfolding set_top
get_item-set_top k m [] = refl
get_item-set_top k m (t ∷ tags) =
    let v : TagInfo = record { weight = t.weight; score = some t.score } in
    ground (arith, get_item-set_top k (set_item t.tag v m) tags, get_item-set_item t.tag k v m)

-- The stored tags of an output: a top tag has its weight and score, any other counted tag its count alone,
-- and no further tag is stored.
pub get_item-merge_tags :
    (k : String) (o : Output)
    → get_item k (merge_tags o) ≡ or_else (last_top k o.top_tags) (last_count k o.all_tags)
unfolding merge_tags get_item
get_item-merge_tags k o = ground (
  arith,
  get_item-set_top k (set_counts [] o.all_tags) o.top_tags,
  get_item-set_counts k [] o.all_tags,
)
