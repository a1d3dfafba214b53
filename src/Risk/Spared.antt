-- ===== src/Risk/Spared.antt =====
-- Whom a sequence of ingests leaves alone.
use dost_review_api.Prelude.{◌==◌, ◌≡◌, refl, ◌∙◌, false, String}
use dost_review_api.Risk.Store.{RiskDb, find_profile, insert_outcome}
use dost_review_api.Risk.Keeps.{ingest_outcome-keeps}
use dost_review_api.Risk.Replies.{Engine, OutcomeReport}
use dost_review_api.Risk.Service.{ingest_outcome}
use dost_review_api.Risk.Frame.{profile-other, enqueue-profiles, ingest_record-frame}
use dost_review_api.Risk.Served.{Serves, here, records, reports}

-- The profile is the sender of none of the records and the subject of none of the outcomes.
abbrev pub IsSpared : (k : String) {db db' : RiskDb} → Serves db db' → Type 0
IsSpared k here = Unit
IsSpared k (records before engine r) = IsSpared k before × ((r.src_profile_id == k) ≡ false)
IsSpared k (reports before engine o) = IsSpared k before × ((o.profile_id == k) ≡ false)

ingest_outcome-frame :
    (engine : Engine) (o : OutcomeReport) (k : String) (db : RiskDb)
    → (o.profile_id == k) ≡ false
    → find_profile k (ingest_outcome engine o db).1.profiles ≡ find_profile k db.profiles
ingest_outcome-frame engine o k db ne =
    ingest_outcome-keeps (λ after. find_profile k after.profiles ≡ find_profile k db.profiles)
      engine o (λ new e after h. profile-other new k after (rw e ne) ∙ h)
      (λ session reason score evidence after h. rw enqueue-profiles h)
      (λ row after h. unfold insert_outcome in h) db refl

-- A profile that sends none of the records and is reported in none of the outcomes keeps its row, or has
-- none as before, whatever is ingested.
pub served_frame :
    (k : String) (db db' : RiskDb) (steps : Serves db db')
    → IsSpared k steps
    → find_profile k db'.profiles ≡ find_profile k db.profiles
served_frame k db db' here spared = refl
served_frame k db db' (records {s} before engine r) spared =
    (ingest_record-frame engine r s).profiles k spared.1 ∙ served_frame k db s before spared.0
served_frame k db db' (reports {s} before engine o) spared =
    ingest_outcome-frame engine o k s spared.1 ∙ served_frame k db s before spared.0
